-- ===== src/Tests/MeasureTests.antt =====
-- The theorems about what is measured, evaluated, summarised and compared at concrete inputs.
use native.Mathlib.Nat.{div-le_of_le-mul, mul-le-mul_right}
use trimetry.Base.Float.{FloatOps}
use trimetry.Base.{
  ℕ, ◌+◌, ◌-◌, ◌*◌, ◌/◌, ◌≤◌, ◌||◌, ◌==◌, ltb, false, ◌≡◌, refl, String, none, some, List, [], ◌∷◌,
  map, true, arith,
}
use trimetry.Base.Int.{pos, pos_part}
use trimetry.Model.Summary.{StatsSummary, ScenarioSummary, RunSummary}
use trimetry.Metrics.Build.{Input, build_trial_metrics}
use trimetry.Metrics.Consistency.{Counted, build_trial_metrics-Counted}
use trimetry.Metrics.Cost.{CostFrom, build_trial_metrics-CostFrom}
use trimetry.Aggregator.Stats.{compute_stats}
use trimetry.Aggregator.Total.{LawfulRanks, compute_stats-total}
use trimetry.Base.Trim.{trim_space}
use trimetry.Model.Value.{end}
use trimetry.Model.Status.{is_completed}
use trimetry.Evaluator.{evaluate_accuracy, run_evaluations}
use trimetry.Evaluator.Verdicts.{LawfulScores, verdict_of, run_evaluations_verdicts}
use trimetry.Telemetry.Types.{ReasoningInfo}
use trimetry.Telemetry.Enrichment.{merge_enrichment_into_steps}
use trimetry.Telemetry.Enrichment.Merge.{Merged, merge_enrichment_into_steps-Merged}
use trimetry.Tests.Sample.{reasons, scenario, natural_ops, sonnet, trial, steps, answered}

abbrev input : Input ℕ
input = record {
  result = some answered;
  started_at = pos 0;
  finished_at = pos 9;
  output = "hello";
  pricing = sonnet.pricing;
  retry_count = 1;
}

build_trial_metrics-Counted_example : Counted steps 1 (build_trial_metrics natural_ops input)
build_trial_metrics-Counted_example = build_trial_metrics-Counted natural_ops input

build_trial_metrics-CostFrom_example :
    CostFrom (some 2) sonnet.pricing (build_trial_metrics natural_ops input)
build_trial_metrics-CostFrom_example = build_trial_metrics-CostFrom natural_ops input

-- Hundredths in place of `float64`, so that ranks stand between the indices.
abbrev hundredths : FloatOps
hundredths = record {
  Float = ℕ;
  of_int = λ i. 100 * pos_part i;
  add = λ a b. a + b;
  sub = λ a b. a - b;
  mul = λ a b. a * b / 100;
  div = λ a b. a * 100 / b;
  lt = ltb;
  eq = λ a b. a == b;
  floor = λ a. pos (a / 100);
  ceil = λ a. pos ((a + 99) / 100);
  round = λ a. a;
  abs = λ a. a;
  sqrt = λ a. a;
  log10 = λ a. 0;
  pow = λ a b. 100;
  is_nan = λ a. false;
  is_inf = λ a. false;
  sort = λ l. l;
}

hundredths_part : (x m : ℕ) → x ≤ 100 → x * (100 * m) / 100 ≤ 100 * m
hundredths_part x m h = div-le_of_le-mul 100 (mul-le-mul_right (100 * m) h)

hundredths_floor : (r m : ℕ) → r ≤ 100 * m → r / 100 ≤ m
hundredths_floor r m h = omega arith

hundredths_ceil : (r m : ℕ) → r ≤ 100 * m → (r + 99) / 100 ≤ m
hundredths_ceil r m h = omega arith

at_most : (a b : ℕ) → a ≤ b → (ltb a b || (a == b)) ≡ true
at_most a b h = ground arith

of_at_most : (a b : ℕ) → (ltb a b || (a == b)) ≡ true → a ≤ b
of_at_most a b h = ground arith

hundredths-LawfulRanks : LawfulRanks hundredths
hundredths-LawfulRanks = record {
  length-sort = λ vs. refl;
  fraction = λ a h. (
    at_most 0 (100 * a * 100 / (100 * 100)) (omega arith),
    at_most (100 * a * 100 / (100 * 100)) 100 (omega arith),
  );
  part = λ x m h low high. (
    at_most 0 (x * (100 * m) / 100) (omega arith),
    at_most (x * (100 * m) / 100) (100 * m) (hundredths_part x m (of_at_most x 100 high)),
  );
  floor_within =
      λ r m h low high. (r / 100, refl, hundredths_floor r m (of_at_most r (100 * m) high));
  ceil_within =
      λ r m h low high. ((r + 99) / 100, refl, hundredths_ceil r m (of_at_most r (100 * m) high));
}

compute_stats-total_example :
    (s : StatsSummary ℕ) × (compute_stats hundredths (300 ∷ 500 ∷ []) ≡ some s) × (s.count ≡ 2)
compute_stats-total_example =
    compute_stats-total hundredths hundredths-LawfulRanks (300 ∷ 500 ∷ []) (omega arith)

natural_ops-LawfulScores : LawfulScores natural_ops
natural_ops-LawfulScores = record { one = refl; zero = refl }

run_evaluations_verdicts_example :
    (let accuracy = evaluate_accuracy natural_ops reasons scenario trial.output in
      map verdict_of (run_evaluations natural_ops reasons trial accuracy.score accuracy.reason))
    ≡ ("completion", some true) ∷ ("non_empty", some true) ∷ ("accuracy", some true) ∷ []
unfolding is_completed trim_space
run_evaluations_verdicts_example =
    run_evaluations_verdicts natural_ops reasons natural_ops-LawfulScores scenario trial

abbrev reasoning : ReasoningInfo
reasoning = record {
  reasoning = "think";
  finish_reason = "stop";
  timestamp = "";
  ai_settings = end;
}

merge_enrichment_into_steps-Merged_example :
    Merged "sonnet"
      (reasoning ∷ [])
      steps
      (merge_enrichment_into_steps steps (reasoning ∷ []) "sonnet")
merge_enrichment_into_steps-Merged_example =
    merge_enrichment_into_steps-Merged steps (reasoning ∷ []) "sonnet"

abbrev summary : String → ScenarioSummary ℕ
summary model_name = record {
  scenario_id = "greet";
  scenario_version = "1";
  scenario_name = "Greeting";
  input = "Say hello";
  model_name = model_name;
  model_provider = "anthropic";
  trial_count = 3;
  completed_count = 3;
  failed_count = 0;
  timeout_count = 0;
  cancelled_count = 0;
  failure_rate = 0;
  accuracy_rate = none;
  accuracy_method = "";
  metrics = none;
  output_samples = [];
  tool_calls = [];
}

abbrev run_of : List (ScenarioSummary ℕ) → RunSummary ℕ
run_of scenarios = record {
  benchmark_run_id = "run-1";
  name = "bench";
  status = "completed";
  started_at = pos 0;
  finished_at = none;
  scenarios = scenarios;
}
