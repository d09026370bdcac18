-- ===== src/Tests/AdapterTests.antt =====
-- The theorems about internal/adapter at concrete inputs.
use trimetry.Base.{ℕ, ◌≡◌, refl, String, false, none, some, List, [], ◌∷◌, Holds}
use trimetry.Base.Int.{pos}
use trimetry.Model.Value.{null}
use trimetry.Adapter.Types.{ParsedOutput}
use trimetry.Adapter.Steps.{IsGrouped}
use trimetry.Base.Dict.{lookup, insert}
use trimetry.Adapter.Claude.Event.{Content, ClaudeEvent, kind_of, content_kind_of}
use trimetry.Adapter.Claude.Assistant.{on_assistant, read_contents, with_usage}
use trimetry.Adapter.Claude.User.{on_user, complete_at}
use trimetry.Adapter.Claude.Parser.{on_result, parse_claude_json}
use trimetry.Adapter.Claude.Safety.{IsOrdered, parse_claude_json_total}
use trimetry.Adapter.Claude.Groups.{parse_claude_json-IsGrouped}
use trimetry.Adapter.Opencode.{OpencodeEvent}
use trimetry.Adapter.Opencode.Parser.{parse_opencode_json}
use trimetry.Adapter.Opencode.Groups.{IsOf, parse_opencode_json-IsOf}

abbrev blank_content : Content
blank_content = record {
  kind = "";
  text = "";
  thinking = "";
  name = "";
  id = "";
  tool_use_id = "";
  content = "";
  is_error = false;
  input = null;
}

abbrev event : {F : Type 0} → String → List Content → ClaudeEvent F
event kind content = record {
  kind = kind;
  subtype = "";
  session_id = "";
  timestamp = "";
  message = some (record { model = ""; content = content; usage = none });
  tool_use_result = none;
  result = "";
  total_cost_usd = none;
  ttft_ms = none;
  usage = none;
}

-- A tool's call, the `result` event, a new message, and only then the tool's result: the parser panics.
abbrev late_result : List (ClaudeEvent ℕ)
late_result =
    event "assistant"
      (record blank_content { kind = "tool_use"; id = "call-1"; name = "Read" } ∷ [])
    ∷ event "result" []
    ∷ event "assistant" (record blank_content { kind = "text"; text = "hello" } ∷ [])
    ∷ event "user" (record blank_content { kind = "tool_result"; tool_use_id = "call-1" } ∷ [])
    ∷ []

late_result_panics : parse_claude_json (λ t. pos 7) late_result ≡ none
unfolding parse_claude_json kind_of content_kind_of on_assistant on_user on_result complete_at
    read_contents with_usage lookup insert
late_result_panics = refl

abbrev content : String → Content
content kind = record {
  kind = kind;
  text = "hello";
  thinking = "";
  name = "Read";
  id = "call-1";
  tool_use_id = "call-1";
  content = "text";
  is_error = false;
  input = null;
}

-- A tool is called, its result is read, and the run ends.
abbrev session : List (ClaudeEvent ℕ)
session =
    event "assistant" (content "tool_use" ∷ [])
    ∷ event "user" (content "tool_result" ∷ [])
    ∷ event "assistant" (content "text" ∷ [])
    ∷ event "result" []
    ∷ []

parse_claude_json-IsGrouped_example :
    Holds (λ out. IsGrouped out.steps) (parse_claude_json (λ t. pos 7) session)
parse_claude_json-IsGrouped_example = parse_claude_json-IsGrouped (λ t. pos 7) session

session-IsOrdered : IsOrdered false session
unfolding kind_of
session-IsOrdered = (tt, (tt, (tt, (tt, tt))))

parse_claude_json_total_example :
    (out : ParsedOutput ℕ) × (parse_claude_json (λ t. pos 7) session ≡ some out)
parse_claude_json_total_example = parse_claude_json_total (λ t. pos 7) session session-IsOrdered

abbrev opencode_event : String → OpencodeEvent
opencode_event kind = record {
  kind = kind;
  timestamp = pos 5;
  session_id = "session";
  part_text = "hello";
  part_name = "";
  part_tool = "bash";
  part_call_id = "call-1";
  part_reason = "stop";
  part_state = none;
  part_tokens = none;
}

abbrev opencode_session : List OpencodeEvent
opencode_session =
    opencode_event "step_start"
    ∷ opencode_event "tool_use"
    ∷ opencode_event "text"
    ∷ opencode_event "step_finish"
    ∷ []

parse_opencode_json-IsOf_example :
    IsOf
      (λ v. none)
      (parse_opencode_json {F = ℕ} (λ v. none) opencode_session).steps
      opencode_session
parse_opencode_json-IsOf_example = parse_opencode_json-IsOf ℕ (λ v. none) opencode_session
