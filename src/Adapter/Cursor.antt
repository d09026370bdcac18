-- ===== src/Adapter/Cursor.antt =====
-- internal/adapter/cursor.go: the adapter's options, its command line, and its parser.
use trimetry.Base.{
  String, Bool, not, ◌&&◌, Option, none, some, List, [], ◌∷◌, ◌++◌, if◌then◌else◌, str_eq, is_empty,
}
use trimetry.Base.Dict.{Dict, lookup}
use trimetry.Base.Text.{join, or_text}
use trimetry.Adapter.Types.{ParsedOutput, no_output}

pub record CursorAdapter : Type 0 where
  pub command : String
  pub working_dir : String
  pub force : Bool
  pub approve_mcps : Bool
  pub continue : Bool

-- options[key] == value
has_value : Dict String → String → String → Bool
has_value options key value = elim (lookup key options) [
  | none ↦ str_eq "" value
  | some v ↦ str_eq v value
]

unfoldable pub new_cursor_adapter : String → String → Dict String → CursorAdapter
unfolding has_value
new_cursor_adapter command working_dir options = record {
  command = or_text command "agent";
  working_dir = working_dir;
  force = not (has_value options "force" "false");
  approve_mcps = not (has_value options "approve_mcps" "false");
  continue = has_value options "continue_session" "true";
}

unfoldable pub cursor_args : CursorAdapter → String → List String
cursor_args a input =
    (a.command ∷ "-p" ∷ "--output-format" ∷ "stream-json" ∷ [])
    ++ ((if a.force then "--force" ∷ [] else [])
        ++ ((if a.approve_mcps then "--approve-mcps" ∷ [] else [])
            ++ ((if a.continue then "--continue" ∷ [] else []) ++ (input ∷ []))))

pub record CursorContent : Type 0 where
  pub kind : String
  pub text : String

-- The fields that the parser reads.
pub record CursorEvent : Type 0 where
  pub kind : String
  pub message : Option (List CursorContent)
  pub result : String

unfoldable pub cursor_texts : List CursorContent → List String
cursor_texts [] = []
cursor_texts (c ∷ cs) =
    let rest = cursor_texts cs in
    if str_eq c.kind "text" && not (str_eq c.text "") then c.text ∷ rest else rest

on_message : Option (List CursorContent) → List String → List String
unfolding cursor_texts
on_message none parts = parts
on_message (some content) parts = parts ++ cursor_texts content

unfoldable pub cursor_event : CursorEvent → List String → List String
unfolding on_message
cursor_event e parts =
    if str_eq e.kind "assistant"
    then on_message e.message parts
    else if str_eq e.kind "result"
    then if not (str_eq e.result "") && is_empty parts then parts ++ e.result ∷ [] else parts
    else parts

unfoldable pub cursor_events : List CursorEvent → List String → List String
cursor_events [] parts = parts
cursor_events (e ∷ es) parts = cursor_events es (cursor_event e parts)

unfoldable pub parse_cursor_json : {F : Type 0} → List CursorEvent → ParsedOutput F
unfolding cursor_events
parse_cursor_json events = record no_output { text = join (cursor_events events []) }
