-- ===== src/Adapter/Opencode/Parser.antt =====
-- internal/adapter/opencode.go: `parseOpencodeJSON`, as a state machine over the decoded events.
use Prim.Native.String.{◌++◌ as str_append}
use trimetry.Base.{
  String, not, ◌&&◌, Option, none, some, List, [], ◌∷◌, ◌++◌, map, if◌then◌else◌, str_eq,
}
use trimetry.Base.Int.{ℤ, pos, ◌+ℤ◌, ◌-ℤ◌, positive, eqb_ℤ}
use trimetry.Base.Text.{join}
use trimetry.Model.Value.{Value, null, text, list, object, values, end, field, texts}
use trimetry.Adapter.Types.{
  TokenInfo, StepDetail, generation, completed_step, ToolDisplay, ParsedOutput,
}
use trimetry.Adapter.Steps.{names}
use trimetry.Adapter.Opencode.{
  PartTokens, OpencodeEvent, OpencodeState, initial, tool_step, or_no_tokens, add_tokens,
  step_tokens,
}

-- The cases of the `switch` on an event's type.
pub data EventKind : Type 0 where
  step_start spoken tool_use step_finish unknown : EventKind

unfoldable pub kind_of : String → EventKind
kind_of kind =
    if str_eq kind "step_start"
    then step_start
    else if str_eq kind "text"
    then spoken
    else if str_eq kind "tool_use"
    then tool_use
    else if str_eq kind "step_finish"
    then step_finish
    else unknown

unfoldable pub sum_durations : ℤ → List StepDetail → ℤ
sum_durations acc [] = acc
sum_durations acc (t ∷ ts) = sum_durations (acc +ℤ t.duration_ms) ts

-- What the next generation has as its input: the tools' names and outputs.
abbrev tool_output : StepDetail → Value
tool_output t = elim t.output [
  | null ↦ object (field "tool" (text t.name) end)
  | _ ↦ object (field "tool" (text t.name) (field "output" t.output end))
]

abbrev outputs_value : List Value → Value
outputs_value [] = null
outputs_value (v ∷ vs) = list (values (v ∷ vs))

abbrev generation_output : List String → List String → Value
generation_output [] [] = null
generation_output [] (t ∷ ts) = object (field "toolsCalled" (texts (t ∷ ts)) end)
generation_output (p ∷ ps) tools = text (join (p ∷ ps))

-- `if p == nil { p = &v }`
abbrev or_first : Option ℤ → Option ℤ → Option ℤ
or_first none v = v
or_first (some p) v = some p

unfoldable pub add_part_tokens : Option PartTokens → Option TokenInfo → Option TokenInfo
add_part_tokens none t = t
add_part_tokens (some p) t = some (add_tokens p (or_no_tokens t))

module _ {F : Type 0} where
  pub first_token : OpencodeState F → Option ℤ
  first_token s =
      if positive s.first_text_event_ts && positive s.step_start_ms
      then some (s.first_text_event_ts -ℤ s.step_start_ms)
      else none

  unfoldable pub generation_step : OpencodeEvent → OpencodeState F → StepDetail
  unfolding first_token
  generation_step e s =
      let tool_time = sum_durations (pos 0) s.pending_tools in
      let duration = e.timestamp -ℤ s.step_start_ms in
      record (completed_step generation (
        if str_eq e.part_reason ""
        then "llm"
        else str_append (str_append "llm (" e.part_reason) ")")) {
          reason = e.part_reason;
          start_ms = s.step_start_ms;
          end_ms = e.timestamp;
          tools_called = names s.pending_tools;
          input = outputs_value s.last_tool_outputs;
          duration_ms = duration;
          tool_time_ms = tool_time;
          llm_inference_ms = duration -ℤ tool_time;
          ttft_ms = first_token s;
          tokens = elim e.part_tokens [ none ↦ none | some p ↦ some (step_tokens p) ];
          output = generation_output s.step_text_parts (names s.pending_tools);
        }

  unfoldable pub on_step_finish : OpencodeEvent → OpencodeState F → OpencodeState F
  unfolding generation_step
  on_step_finish e s = record s {
    result = record s.result {
      tokens = add_part_tokens e.part_tokens s.result.tokens;
      ttft_ms = or_first s.result.ttft_ms (first_token s);
      steps = s.result.steps ++ (generation_step e s ∷ s.pending_tools);
    };
    last_tool_outputs = map tool_output s.pending_tools;
    pending_tools = [];
    step_text_parts = [];
    first_text_event_ts = pos 0;
  }

  unfoldable pub on_text : OpencodeEvent → OpencodeState F → OpencodeState F
  on_text e s = record s {
    text_parts = s.text_parts ++ e.part_text ∷ [];
    step_text_parts = s.step_text_parts ++ e.part_text ∷ [];
    first_text_event_ts =
        if eqb_ℤ s.first_text_event_ts (pos 0) then e.timestamp else s.first_text_event_ts;
  }

  unfoldable pub dispatch :
      (Value → Option ToolDisplay) → OpencodeEvent → EventKind → OpencodeState F → OpencodeState F
  dispatch read_display e step_start s = record s {
    step_start_ms = e.timestamp;
    step_text_parts = [];
    first_text_event_ts = pos 0;
  }
  dispatch read_display e spoken s = on_text e s
  dispatch read_display e tool_use s = record s {
    pending_tools = s.pending_tools ++ tool_step read_display e ∷ [];
  }
  dispatch read_display e step_finish s = on_step_finish e s
  dispatch read_display e unknown s = s

  -- The first session ID that is given is kept.
  unfoldable pub with_session : String → OpencodeState F → OpencodeState F
  with_session session_id s =
      if str_eq s.result.session_id "" && not (str_eq session_id "")
      then record s { result = record s.result { session_id = session_id } }
      else s

  unfoldable pub run_events :
      (Value → Option ToolDisplay) → List OpencodeEvent → OpencodeState F → OpencodeState F
  unfolding dispatch
  run_events read_display [] s = s
  run_events read_display (e ∷ es) s =
      run_events read_display es
        (dispatch read_display e (kind_of e.kind) (with_session e.session_id s))

  unfoldable pub parse_opencode_json :
      (Value → Option ToolDisplay) → List OpencodeEvent → ParsedOutput F
  unfolding run_events
  parse_opencode_json read_display events =
      let s = run_events read_display events initial in record s.result { text = join s.text_parts }
