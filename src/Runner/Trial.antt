-- ===== src/Runner/Trial.antt =====
-- internal/runner/executor.go: runTrial.
pub mod Verdict
use trimetry.Base.{
  ℕ, String, Bool, true, false, Option, none, some, List, [], ◌∷◌, ◌++◌, if◌then◌else◌,
}
use trimetry.Base.Int.{ℤ}
use trimetry.Base.Clock.{unix_milli}
use trimetry.Base.Float.{FloatOps}
use trimetry.Model.Trial.{Trial, TrialMetrics, ExecutionStatus}
use trimetry.Adapter.Types.{ExecutionResult, ExecutionContext, StepDetail}
use trimetry.Telemetry.Types.{TrialContext, TrialResult}
use trimetry.Metrics.Build.{Input, build_trial_metrics}
use trimetry.Evaluator.{Reasons, Accuracy, evaluate_accuracy, run_evaluations}
use trimetry.Runner.Types.{
  TrialSpec, Executor, Surroundings, Call, start_trial, finish_trial, flush, on_trial_complete,
}
use trimetry.Runner.Outcome.{apply_outcome}
use trimetry.Runner.Attempts.{Attempted, attempts, not_attempted, most_attempts}

module _ {F : Type 0} where
  unfoldable pub build_contexts : Trial F → String → ℤ → String → TrialContext × ExecutionContext
  build_contexts t input timeout_seconds benchmark_name = (
    record {
      benchmark_run_id = t.benchmark_run_id;
      benchmark_name = benchmark_name;
      trial_id = t.trial_id;
      scenario_id = t.scenario_id;
      scenario_version = t.scenario_version;
      trial_number = t.trial_number;
      model_name = t.model_name;
      model_provider = t.model_provider;
      model_parameters = t.model_parameters;
      input = input;
    },
    record {
      benchmark_run_id = t.benchmark_run_id;
      scenario_id = t.scenario_id;
      scenario_version = t.scenario_version;
      trial_id = t.trial_id;
      trial_number = t.trial_number;
      model_name = t.model_name;
      model_provider = t.model_provider;
      model_parameters = t.model_parameters;
      timeout_seconds = timeout_seconds;
    },
  )

  steps_of : Option (ExecutionResult F) → List StepDetail
  steps_of none = []
  steps_of (some r) = r.steps

  session_of : Option (ExecutionResult F) → String
  session_of none = ""
  session_of (some r) = r.session_id

  unfoldable pub trial_result : Executor → Trial F → Option (ExecutionResult F) → TrialResult F
  unfolding steps_of session_of
  trial_result e t result = record {
    trial_id = t.trial_id;
    started_at = t.started_at;
    adapter_name = e.adapter_name;
    execution_status = t.execution_status;
    output = t.output;
    model_name = t.model_name;
    metrics = t.metrics;
    steps = steps_of result;
    evaluations = t.evaluations;
    session_id = session_of result;
    enrichment_dir = e.enrichment_dir;
  }

  with_accuracy : Accuracy F → Option F → TrialMetrics F → TrialMetrics F
  with_accuracy a none m = m
  with_accuracy a (some score) m = record m {
    accuracy_score = some score;
    accuracy_method = a.method;
    accuracy_reason = a.reason;
  }

  -- trial.ExecutionStatus = ExecStatusRunning; trial.StartedAt = time.Now()
  unfoldable pub begin : TrialSpec F → Surroundings F → Trial F
  begin spec w = record (spec.trial) {
    execution_status = ExecutionStatus.running;
    started_at = w.started_at;
  }

  unfoldable pub try_trial : Executor → TrialSpec F → Surroundings F → Attempted F
  unfolding build_contexts begin
  try_trial e spec w =
      let t = begin spec w in
      let (tc, ec) = build_contexts t spec.input spec.scenario.timeout_seconds e.benchmark_name in
      attempts t.trial_id spec.input ec e.retries w.answer (most_attempts e.retries) 0 not_attempted

module _ (ops : FloatOps) (reasons : Reasons) where
  -- What the trial becomes once the attempts are over.
  unfoldable pub conclude :
      TrialSpec ops.Float → Surroundings ops.Float → Attempted ops.Float → Trial ops.Float
  unfolding with_accuracy
  conclude spec w a =
      let t =
        apply_outcome (record (begin spec w) { finished_at = some (w.finished_at) }) a.result
          a.exec_err in
      let metrics = build_trial_metrics ops (record {
        result = a.result;
        started_at = unix_milli t.started_at;
        finished_at = unix_milli w.finished_at;
        output = t.output;
        pricing = spec.pricing;
        retry_count = a.retry_count;
      }) in
      let accuracy = evaluate_accuracy ops reasons spec.scenario t.output in
      let t = record t { metrics = some (with_accuracy accuracy accuracy.score metrics) } in
      record t { evaluations = run_evaluations ops reasons t accuracy.score accuracy.reason }

  flush_calls : Bool → List (Call ops.Float)
  flush_calls flushes = if flushes then flush ∷ [] else []

  -- The trial, and the calls made for it in their order.
  unfoldable pub run_trial :
      Executor
      → TrialSpec ops.Float
      → Surroundings ops.Float
      → Trial ops.Float × List (Call ops.Float)
  unfolding build_contexts begin flush_calls
  run_trial e spec w =
      let (tc, ec) =
        build_contexts (begin spec w) spec.input spec.scenario.timeout_seconds e.benchmark_name in
      let a = try_trial e spec w in
      let t = conclude spec w a in
      (
        t,
        start_trial tc ∷ a.calls
            ++ finish_trial (trial_result e t a.result) ∷ flush_calls e.flush_on_trial_end
            ++ on_trial_complete t ∷ [],
      )
