-- ===== src/Aggregator/Summarize.antt =====
-- internal/aggregator/aggregator.go: from trials to a summary.
use Prim.Native.String.{len, slice, ◌++◌ as str_append}
use trimetry.Base.{
  ℕ, suc, ◌+◌, String, Bool, false, Option, none, some, ◌>>=◌, List, [], ◌∷◌, ◌++◌, ◌||◌, length,
  take, ltb, any, is_some, str_eq, if◌then◌else◌,
}
use trimetry.Base.Float.{FloatOps}
use trimetry.Model.Trial.{Trial, ToolCall}
use trimetry.Model.Summary.{MetricsSummary, ScenarioSummary, OutputSample}
use trimetry.Model.Status.{count_trial_statuses}
use trimetry.Metrics.Fields.{Field, fields}
use trimetry.Aggregator.Stats.{compute_stats, natural}

abbrev pub max_tool_calls : ℕ
max_tool_calls = 50

module _ {F : Type 0} where
  -- t.Metrics != nil && t.Metrics.AccuracyScore != nil, with the score.
  unfoldable pub score : Trial F → Option F
  score t = elim t.metrics [ none ↦ none | some m ↦ m.accuracy_score ]

  unfoldable pub calls : Trial F → List ToolCall
  calls t = elim t.metrics [ none ↦ [] | some m ↦ m.tool_calls ]

  unfoldable pub all_calls : List (Trial F) → List ToolCall
  unfolding calls
  all_calls [] = []
  all_calls (t ∷ ts) = calls t ++ all_calls ts

  unfoldable pub collect_tool_calls : List (Trial F) → List ToolCall
  collect_tool_calls ts =
      let every = all_calls ts in
      if ltb max_tool_calls (length every) then take max_tool_calls every else every

  -- The values of one field, as `slices[f.Key]` holds them.
  unfoldable pub values_of : Field F → List (Trial F) → List F
  values_of f [] = []
  values_of f (t ∷ ts) =
      let rest = values_of f ts in
      elim t.metrics [
        | none ↦ rest
        | some m ↦ elim (f.collect m) [ none ↦ rest | some v ↦ v ∷ rest ]
      ]

  method_of : List (Trial F) → String
  method_of [] = ""
  method_of (t ∷ ts) =
      let rest = method_of ts in
      elim t.metrics [
        | none ↦ rest
        | some m ↦ if str_eq m.accuracy_method "" then rest else m.accuracy_method
      ]

  abbrev empty_metrics : MetricsSummary F
  empty_metrics = record {
    wall_time_ms = none;
    llm_latency_ms = none;
    idle_ms = none;
    ttft_ms = none;
    llm_time_ratio = none;
    input_tokens = none;
    output_tokens = none;
    total_tokens = none;
    reasoning_tokens = none;
    cache_read_tokens = none;
    cache_write_tokens = none;
    output_length = none;
    tokens_per_gen = none;
    estimated_cost = none;
    accuracy_score = none;
  }

abbrev max_output_len : ℕ
max_output_len = 500

-- `output[:500]`: a character that the cut would split is left out, where the program keeps its first bytes.
unfoldable pub shorten : String → String
shorten output =
    if ltb max_output_len (len output)
    then str_append (slice output 0 max_output_len) "..."
    else output

module _ (ops : FloatOps) where
  -- a >= b
  abbrev at_least : ops.Float → ops.Float → Bool
  at_least a b = ops.lt b a || ops.eq a b

  accurate : Option ops.Float → Option Bool
  accurate none = none
  accurate (some a) = some (at_least a (natural ops 1))

  unfoldable pub sample : Trial ops.Float → OutputSample
  unfolding accurate
  sample t = record {
    trial_number = t.trial_number;
    output = shorten t.output;
    accurate = accurate (score t);
  }

  unfoldable pub collect_output_samples : List (Trial ops.Float) → List OutputSample
  collect_output_samples [] = []
  collect_output_samples (t ∷ ts) =
      let rest = collect_output_samples ts in if str_eq t.output "" then rest else sample t ∷ rest

  is_accurate : Option ops.Float → Bool
  is_accurate none = false
  is_accurate (some a) = at_least a (natural ops 1)

  unfoldable pub count_accurate : List (Trial ops.Float) → ℕ
  unfolding is_accurate
  count_accurate [] = 0
  count_accurate (t ∷ ts) =
      let rest = count_accurate ts in if is_accurate (score t) then suc rest else rest

  set_field :
      Field ops.Float
      → List ops.Float
      → MetricsSummary ops.Float
      → Option (MetricsSummary ops.Float)
  set_field f [] m = some m
  set_field f (v ∷ vs) m = do s ← compute_stats ops (v ∷ vs); some (f.store m (some s))

  set_fields :
      List (Field ops.Float)
      → List (Trial ops.Float)
      → MetricsSummary ops.Float
      → Option (MetricsSummary ops.Float)
  unfolding set_field
  set_fields [] ts m = some m
  set_fields (f ∷ fs) ts m = do m' ← set_field f (values_of f ts) m; set_fields fs ts m'

  unfoldable pub aggregate_metrics : List (Trial ops.Float) → Option (MetricsSummary ops.Float)
  unfolding set_fields
  aggregate_metrics ts = set_fields (fields ops) ts empty_metrics

  abbrev empty_summary : ScenarioSummary ops.Float
  empty_summary = record {
    scenario_id = "";
    scenario_version = "";
    scenario_name = "";
    input = "";
    model_name = "";
    model_provider = "";
    trial_count = 0;
    completed_count = 0;
    failed_count = 0;
    timeout_count = 0;
    cancelled_count = 0;
    failure_rate = natural ops 0;
    accuracy_rate = none;
    accuracy_method = "";
    metrics = none;
    output_samples = [];
    tool_calls = [];
  }

  unfoldable pub summary_of :
      Trial ops.Float
      → List (Trial ops.Float)
      → MetricsSummary ops.Float
      → ScenarioSummary ops.Float
  unfolding method_of
  summary_of first ts metrics =
      let counts = count_trial_statuses ts in
      let n = length ts in
      let has_accuracy = any (λ t. is_some (score t)) ts in
      record empty_summary {
        scenario_id = first.scenario_id;
        scenario_version = first.scenario_version;
        model_name = first.model_name;
        model_provider = first.model_provider;
        trial_count = n;
        completed_count = counts.completed;
        failed_count = counts.failed;
        timeout_count = counts.timeout;
        cancelled_count = counts.cancelled;
        failure_rate =
            ops.div (natural ops (counts.failed + counts.timeout + counts.cancelled))
              (natural ops n);
        accuracy_rate =
            if has_accuracy
            then some (ops.div (natural ops (count_accurate ts)) (natural ops n))
            else none;
        accuracy_method = if has_accuracy then method_of ts else "";
        output_samples = collect_output_samples ts;
        tool_calls = collect_tool_calls ts;
        metrics = some metrics;
      }

  -- `none` where the program panics.
  unfoldable pub summarize : List (Trial ops.Float) → Option (ScenarioSummary ops.Float)
  summarize [] = some empty_summary
  summarize (t ∷ ts) = do metrics ← aggregate_metrics (t ∷ ts); some (summary_of t (t ∷ ts) metrics)
