-- ===== src/Telemetry/Langfuse/Spans.antt =====
-- internal/telemetry/langfuse.go: `createDirectTrace`, the tree of spans of a trial.
pub mod Tree
use Prim.Native.String.{◌++◌ as str_append}
use trimetry.Base.{
  ℕ, suc, ◌+◌, ◌*◌, String, Bool, true, false, Option, none, some, List, [], ◌∷◌, ◌++◌,
  if◌then◌else◌,
}
use trimetry.Base.Int.{ℤ, pos_part, neg_part, sub_ℕ, wrap64, positive}
use trimetry.Base.Clock.{Time, is_zero}
use trimetry.Model.Trial.{TrialMetrics}
use trimetry.Adapter.Types.{StepDetail, StepType, generation, tool}
use trimetry.Telemetry.Types.{TrialContext, TrialResult}
use trimetry.Telemetry.Langfuse.State.{ResolvedTrace, no_trace}

-- The values of `langfuse.observation.type`; a generation's is "generation" and a tool's is "span".
pub data ObservationType : Type 0 where
  agent event generation_run tool_run : ObservationType

-- A span without its attributes but the observation type; the trace's ID is common to all.
pub record Span : Type 0 where
  pub span_id : String
  pub parent_span_id : Option String
  pub name : String
  pub kind : ObservationType
  pub start_nano : ℤ
  pub end_nano : ℤ

-- `time.UnixMilli(ms).UnixNano()`, and `time.Duration(ms) * time.Millisecond`.
abbrev pub nano_of_milli : ℤ → ℤ
nano_of_milli ms = wrap64 (pos_part ms * 1_000_000) (neg_part ms * 1_000_000)

-- `t.UnixNano()` and `t.Add(d)`.
abbrev unix_nano : Time → ℤ
unix_nano t = wrap64 (pos_part t) (neg_part t)

abbrev add_time : Time → ℤ → Time
add_time t d = sub_ℕ (pos_part t + pos_part d) (neg_part t + neg_part d)

abbrev step_start : StepDetail → ℤ
step_start step = nano_of_milli step.start_ms

abbrev step_end : StepDetail → ℤ
step_end step =
    if positive step.end_ms then nano_of_milli step.end_ms else nano_of_milli step.start_ms

-- The `switch` on a step's type: its span, and the generation that later tools belong to.
step_span : String → String → Option String → String → StepDetail → StepType → Span × Option String
step_span adapter_name turn current span_id step generation = (
  record {
    span_id = span_id;
    parent_span_id = some turn;
    name = str_append adapter_name ".generation";
    kind = generation_run;
    start_nano = step_start step;
    end_nano = step_end step;
  },
  some span_id,
)
step_span adapter_name turn current span_id step tool = (
  record {
    span_id = span_id;
    parent_span_id = elim current [ none ↦ some turn | some g ↦ some g ];
    name = step.name;
    kind = tool_run;
    start_nano = step_start step;
    end_nano = step_end step;
  },
  current,
)

-- The loop over the steps; `hex_id n` is the answer of the n-th call of `id.NewHexID`.
pub step_spans :
    (hex_id : ℕ → String) → String → String → Option String → ℕ → List StepDetail → List Span
unfolding step_span
step_spans hex_id adapter_name turn current n [] = []
step_spans hex_id adapter_name turn current n (step ∷ steps) =
    let (s, current') = step_span adapter_name turn current (hex_id n) step step.kind in
    s ∷ step_spans hex_id adapter_name turn current' (suc n) steps

module _ {F : Type 0} where
  abbrev turn_end : TrialResult F → Option (TrialMetrics F) → ℤ
  turn_end result none = unix_nano result.started_at
  turn_end result (some m) =
      if is_zero result.started_at
      then unix_nano result.started_at
      else unix_nano (add_time result.started_at (nano_of_milli m.wall_time_ms))

  -- The trace has the ID `hex_id 0`, the turn `hex_id 1` and the user's message `hex_id 2`.
  unfoldable pub direct_spans : (hex_id : ℕ → String) → TrialResult F → List StepDetail → List Span
  unfolding step_spans
  direct_spans hex_id result steps =
      record {
        span_id = hex_id 1;
        parent_span_id = none;
        name = str_append result.adapter_name ".turn";
        kind = agent;
        start_nano = unix_nano result.started_at;
        end_nano = turn_end result result.metrics;
      }
      ∷ record {
        span_id = hex_id 2;
        parent_span_id = some (hex_id 1);
        name = str_append result.adapter_name ".message.user";
        kind = event;
        start_nano = unix_nano result.started_at;
        end_nano = unix_nano result.started_at;
      }
      ∷ step_spans hex_id result.adapter_name (hex_id 1) none 3 steps

  -- `sent` says whether the server took the spans.
  unfoldable pub create_direct_trace :
      (hex_id : ℕ → String)
      → (sent : List Span → Bool) → TrialResult F
      → List StepDetail
      → ResolvedTrace
  create_direct_trace hex_id sent result steps =
      if sent (direct_spans hex_id result steps)
      then record { trace_id = hex_id 0; root_span_id = hex_id 1 }
      else no_trace
