-- ===== src/Adapter/Claude/Generation.antt =====
-- internal/adapter/claude.go: the generation that is being read, and how it becomes steps.
use trimetry.Base.{
  ℕ, String, Bool, not, ◌&&◌, Option, none, some, List, [], ◌∷◌, ◌++◌, if◌then◌else◌, str_eq,
  is_empty,
}
use trimetry.Base.Int.{ℤ, pos, ◌-ℤ◌, positive, ltb_ℤ}
use trimetry.Base.Dict.{Dict}
use trimetry.Base.Text.{join}
use trimetry.Model.Value.{Value, null, text, object, end, field, texts, is_null}
use trimetry.Adapter.Types.{StepDetail, generation, completed_step, ParsedOutput, no_output}

pub record PendingGeneration : Type 0 where
  pub step : StepDetail
  pub text_parts : List String
  pub thinking_parts : List String
  pub tools_called : List String
  pub tool_time : ℤ
  pub tools : List StepDetail

-- The variables of `parseClaudeJSON`.
pub record ParserState (F : Type 0) : Type 0 where
  pub result : ParsedOutput F
  pub text_parts : List String
  pub pending_gen : Option PendingGeneration
  pub last_user_input : Value
  pub pending_tool_map : Dict ℕ

abbrev pub initial : {F : Type 0} → ParserState F
initial = record {
  result = no_output;
  text_parts = [];
  pending_gen = none;
  last_user_input = null;
  pending_tool_map = [];
}

-- `if x < 0 { x = 0 }`
abbrev pub not_negative : ℤ → ℤ
not_negative x = if ltb_ℤ x (pos 0) then pos 0 else x

-- The pending step, closed at `end_ms` where that is known.
abbrev close_step : ℤ → StepDetail → StepDetail
close_step end_ms step =
    if positive end_ms
    then record step { end_ms = end_ms; duration_ms = end_ms -ℤ step.start_ms }
    else step

abbrev generation_name : String → List String → String
generation_name name [] = name
generation_name name (t ∷ ts) = if str_eq name "llm" then "llm (tool_use)" else name

abbrev generation_output : List String → List String → Value → Value
generation_output [] [] output = output
generation_output [] (t ∷ ts) output =
    if is_null output then object (field "toolsCalled" (texts (t ∷ ts)) end) else output
generation_output (p ∷ ps) tools_called output = text (join (p ∷ ps))

unfoldable pub final_step : PendingGeneration → ℤ → StepDetail
final_step gen end_ms =
    let step = close_step end_ms gen.step in
    record step {
      tool_time_ms = gen.tool_time;
      llm_inference_ms = not_negative (step.duration_ms -ℤ gen.tool_time);
      tools_called = gen.tools_called;
      thinking_parts = gen.thinking_parts;
      name = generation_name step.name gen.tools_called;
      output = generation_output gen.text_parts gen.tools_called step.output;
    }

module _ {F : Type 0} where
  unfoldable pub finalize_generation : PendingGeneration → ℤ → ParsedOutput F → ParsedOutput F
  unfolding final_step
  finalize_generation gen end_ms out = record out {
    steps = out.steps ++ (final_step gen end_ms ∷ gen.tools);
  }

  unfoldable pub finalize_pending : ℤ → ParserState F → Option PendingGeneration → ParserState F
  unfolding finalize_generation
  finalize_pending end_ms s none = s
  finalize_pending end_ms s (some gen) = record s {
    result = finalize_generation gen end_ms s.result;
    pending_gen = none;
  }

unfoldable pub is_thinking_only : PendingGeneration → Bool
is_thinking_only gen =
    not (is_empty gen.thinking_parts) && is_empty gen.text_parts && is_empty gen.tools_called

abbrev pub new_generation : ℤ → Value → PendingGeneration
new_generation event_ms input = record {
  step = record (completed_step generation "llm") { start_ms = event_ms; input = input };
  text_parts = [];
  thinking_parts = [];
  tools_called = [];
  tool_time = pos 0;
  tools = [];
}
