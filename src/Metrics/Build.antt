-- ===== src/Metrics/Build.antt =====
-- internal/metrics/builder.go.
use Prim.Native.String.{len}
use trimetry.Base.{
  ℕ, ◌+◌, String, not, ◌&&◌, Option, none, some, List, [], ◌∷◌, ◌++◌, leb, ltb, str_eq,
  if◌then◌else◌,
}
use trimetry.Base.Int.{ℤ, pos, positive, ◌+ℤ◌, ◌-ℤ◌}
use trimetry.Base.Clock.{is_zero, sub_time, milliseconds}
use trimetry.Base.Float.{FloatOps}
use trimetry.Model.Value.{Value, text, object, Fields, member, as_text}
use trimetry.Model.Trial.{TrialMetrics, ToolCall, ModelPricing}
use trimetry.Adapter.Types.{ExecutionResult, TokenInfo, StepDetail, StepType, generation, tool}

pub record Input (F : Type 0) : Type 0 where
  pub result : Option (ExecutionResult F)
  pub started_at : ℤ
  pub finished_at : ℤ
  pub output : String
  pub pricing : Option (ModelPricing F)
  pub retry_count : ℕ

-- The first of the keys whose value is a text that is not empty.
first_text : List String → Fields → String
first_text [] fields = ""
first_text (key ∷ keys) fields =
    let rest = first_text keys fields in
    elim (member key fields) [
      | none ↦ rest
      | some v ↦ elim (as_text v) [ none ↦ rest | some s ↦ if str_eq s "" then rest else s ]
    ]

unfoldable pub extract_command : Value → String
unfolding first_text
extract_command (text s) = s
extract_command (object fields) =
    first_text ("command" ∷ "pattern" ∷ "path" ∷ "file_path" ∷ "query" ∷ []) fields
extract_command _ = ""

-- The output of a tool is kept if it is a text of at most 200 bytes.
short_output : Value → String
short_output (text s) = if leb (len s) 200 then s else ""
short_output _ = ""

unfoldable pub tool_call_of : StepDetail → ToolCall
unfolding extract_command short_output
tool_call_of s = record {
  tool = s.name;
  command = extract_command s.input;
  duration_ms = s.duration_ms;
  output = short_output s.output;
}

pub record StepTotals : Type 0 where
  pub llm_inference : ℤ
  pub generations : ℕ
  pub tool_calls : List ToolCall

abbrev pub no_totals : StepTotals
no_totals = record { llm_inference = pos 0; generations = 0; tool_calls = [] }

-- The body of the loop over the steps.
unfoldable pub add_step : StepType → StepDetail → StepTotals → StepTotals
add_step generation s t = record t {
  llm_inference = t.llm_inference +ℤ s.llm_inference_ms;
  generations = t.generations + 1;
}
add_step tool s t = record t { tool_calls = t.tool_calls ++ tool_call_of s ∷ [] }

unfoldable pub total_steps : List StepDetail → StepTotals → StepTotals
total_steps [] t = t
total_steps (s ∷ ss) t = total_steps ss (add_step s.kind s t)

unfoldable pub tool_time : List ToolCall → ℤ → ℤ
tool_time [] t = t
tool_time (c ∷ cs) t = tool_time cs (t +ℤ c.duration_ms)

abbrev pub if_positive : ℤ → Option ℤ
if_positive v = if positive v then some v else none

abbrev pub or_value {ℓ} : {A : Type ℓ} → Option A → Option A → Option A
or_value none d = d
or_value (some a) d = some a

module _ {F : Type 0} where
  -- The adapter's own clock is preferred to the runner's, if it has both ends.
  wall_of : ℤ → Option (ExecutionResult F) → ℤ
  wall_of runner none = runner
  wall_of runner (some r) =
      if not (is_zero r.started_at) && not (is_zero r.finished_at)
      then milliseconds (sub_time r.finished_at r.started_at)
      else runner

  unfoldable pub wall_time : Input F → ℤ
  unfolding wall_of
  wall_time i = wall_of (i.finished_at -ℤ i.started_at) i.result

  abbrev pub base_metrics : Input F → TrialMetrics F
  base_metrics i = record {
    wall_time_ms = wall_time i;
    llm_latency_ms = none;
    idle_ms = none;
    ttft_ms = none;
    llm_time_ratio = none;
    input_tokens = none;
    output_tokens = none;
    total_tokens = none;
    reasoning_tokens = none;
    cache_read_tokens = none;
    cache_write_tokens = none;
    output_length = none;
    estimated_cost = none;
    retry_count = i.retry_count;
    tool_calls = [];
    generation_count = none;
    accuracy_score = none;
    accuracy_method = "";
    accuracy_reason = "";
    token_usage_source = "unknown";
    cost_source = "unknown";
  }

  unfoldable pub with_tokens : Option TokenInfo → TrialMetrics F → TrialMetrics F
  with_tokens none m = m
  with_tokens (some t) m = record m {
    input_tokens = some t.input;
    output_tokens = some t.output;
    total_tokens = some t.total;
    token_usage_source = "provider";
    reasoning_tokens = if_positive t.reasoning;
    cache_read_tokens = if_positive t.cache_read;
    cache_write_tokens = if_positive t.cache_write;
  }

  with_totals : StepTotals → TrialMetrics F → TrialMetrics F
  with_totals t m = record m {
    llm_latency_ms = if_positive t.llm_inference;
    tool_calls = t.tool_calls;
    generation_count = if ltb 0 t.generations then some t.generations else none;
  }

  -- Without steps the totals are zero, and set nothing.
  unfoldable pub with_steps : List StepDetail → TrialMetrics F → TrialMetrics F
  unfolding with_totals
  with_steps [] m = m
  with_steps (s ∷ ss) m = with_totals (total_steps (s ∷ ss) no_totals) m

  unfoldable pub with_output : String → TrialMetrics F → TrialMetrics F
  with_output output m =
      if str_eq output "" then m else record m { output_length = some (len output) }

  unfoldable pub with_provider_cost : Option F → TrialMetrics F → TrialMetrics F
  with_provider_cost none m = m
  with_provider_cost (some cost) m = record m {
    estimated_cost = some cost;
    cost_source = "provider";
  }

  -- The four blocks that read the result.
  unfoldable pub with_result : Option (ExecutionResult F) → TrialMetrics F → TrialMetrics F
  unfolding with_tokens with_steps
  with_result none m = m
  with_result (some r) m =
      let m = with_steps r.steps (with_tokens r.tokens m) in
      record m { ttft_ms = or_value r.ttft_ms m.ttft_ms }

  abbrev pub result_cost : Option (ExecutionResult F) → Option F
  result_cost none = none
  result_cost (some r) = r.cost_usd

module _ (ops : FloatOps) where
  abbrev million : ops.Float
  million = ops.of_int (pos 1_000_000)

  unfoldable pub with_ratio : Option ℤ → TrialMetrics ops.Float → TrialMetrics ops.Float
  with_ratio none m = m
  with_ratio (some latency) m =
      if positive m.wall_time_ms
      then record m {
        llm_time_ratio = some (ops.div (ops.of_int latency) (ops.of_int m.wall_time_ms));
        idle_ms = if_positive (m.wall_time_ms -ℤ latency -ℤ tool_time m.tool_calls (pos 0));
      }
      else m

  estimate : ModelPricing ops.Float → ℤ → ℤ → ops.Float
  estimate p input output =
      ops.add (ops.mul (ops.div (ops.of_int input) million) p.input_per_m_token)
        (ops.mul (ops.div (ops.of_int output) million) p.output_per_m_token)

  unfoldable pub with_estimate :
      Option (ModelPricing ops.Float)
      → Option ℤ
      → Option ℤ
      → TrialMetrics ops.Float
      → TrialMetrics ops.Float
  unfolding estimate
  with_estimate (some p) (some input) (some output) m = record m {
    estimated_cost = some (estimate p input output);
    cost_source = "estimated";
  }
  with_estimate _ _ _ m = m

  unfoldable pub build_trial_metrics : Input ops.Float → TrialMetrics ops.Float
  unfolding with_result with_output with_ratio with_estimate with_provider_cost
  build_trial_metrics i =
      let m = with_output i.output (with_result i.result (base_metrics i)) in
      let m = with_ratio m.llm_latency_ms m in
      let m = with_estimate i.pricing m.input_tokens m.output_tokens m in
      with_provider_cost (result_cost i.result) m
