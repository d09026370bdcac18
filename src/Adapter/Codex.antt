-- ===== src/Adapter/Codex.antt =====
-- internal/adapter/codex.go: the adapter's options, its command line, and its parser.
use trimetry.Base.{String, Bool, Option, none, some, List, [], ◌∷◌, ◌++◌, if◌then◌else◌, str_eq}
use trimetry.Base.Int.{ℤ, ◌+ℤ◌}
use trimetry.Base.Dict.{Dict, lookup}
use trimetry.Base.Text.{join, or_text}
use trimetry.Adapter.Types.{TokenInfo, no_tokens, ParsedOutput, no_output}

pub record CodexAdapter : Type 0 where
  pub command : String
  pub working_dir : String
  pub sandbox : String
  pub hermetic : Bool

-- `options[key]`, which is empty for a key that is not there.
abbrev option_or : String → Option String → String
option_or d none = d
option_or d (some v) = v

unfoldable pub new_codex_adapter : String → String → Dict String → CodexAdapter
new_codex_adapter command working_dir options = record {
  command = or_text command "codex";
  working_dir = working_dir;
  sandbox = option_or "danger-full-access" (lookup "sandbox" options);
  hermetic = str_eq (option_or "" (lookup "hermetic" options)) "true";
}

unfoldable pub codex_args : CodexAdapter → String → List String
codex_args a input =
    (a.command ∷ "exec" ∷ "--json" ∷ "--sandbox" ∷ a.sandbox ∷ [])
    ++ ((if a.hermetic then "--ignore-user-config" ∷ "--ignore-rules" ∷ [] else []) ++ (input ∷ []))

-- The fields of an event's item that the parser reads.
pub record CodexItem : Type 0 where
  pub kind : String
  pub text : String
  pub content : String

pub record CodexUsage : Type 0 where
  pub input_tokens : ℤ
  pub output_tokens : ℤ
  pub cached_tokens : ℤ
  pub reasoning_tokens : ℤ

pub record CodexEvent : Type 0 where
  pub kind : String
  pub item : Option CodexItem
  pub usage : Option CodexUsage

pub record CodexState : Type 0 where
  pub tokens : Option TokenInfo
  pub text_parts : List String

abbrev or_no_tokens : Option TokenInfo → TokenInfo
or_no_tokens none = no_tokens
or_no_tokens (some t) = t

unfoldable pub add_usage : CodexUsage → TokenInfo → TokenInfo
add_usage u t = record t {
  input = t.input +ℤ u.input_tokens;
  output = t.output +ℤ u.output_tokens;
  total = t.total +ℤ (u.input_tokens +ℤ u.output_tokens);
  reasoning = t.reasoning +ℤ u.reasoning_tokens;
  cache_read = t.cache_read +ℤ u.cached_tokens;
}

on_turn : Option CodexUsage → CodexState → CodexState
unfolding add_usage
on_turn none s = s
on_turn (some u) s = record s { tokens = some (add_usage u (or_no_tokens s.tokens)) }

on_item : Option CodexItem → CodexState → CodexState
on_item none s = s
on_item (some item) s =
    let text = or_text item.text item.content in
    if str_eq item.kind "agent_message"
    then if str_eq text "" then s else record s { text_parts = s.text_parts ++ text ∷ [] }
    else s

unfoldable pub codex_event : CodexEvent → CodexState → CodexState
unfolding on_turn on_item
codex_event e s =
    if str_eq e.kind "turn.completed"
    then on_turn e.usage s
    else if str_eq e.kind "item.completed"
    then on_item e.item s
    else s

unfoldable pub codex_events : List CodexEvent → CodexState → CodexState
codex_events [] s = s
codex_events (e ∷ es) s = codex_events es (codex_event e s)

unfoldable pub parse_codex_json : {F : Type 0} → List CodexEvent → ParsedOutput F
unfolding codex_events
parse_codex_json events =
    let s = codex_events events (record { tokens = none; text_parts = [] }) in
    record no_output { text = join s.text_parts; tokens = s.tokens }
