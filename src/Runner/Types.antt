-- ===== src/Runner/Types.antt =====
-- internal/runner/executor.go: what a trial is run from, and what it calls.
use trimetry.Base.{ℕ, String, Bool, Option}
use trimetry.Base.Int.{ℤ}
use trimetry.Base.Clock.{Time}
use trimetry.Model.Trial.{Scenario, ModelPricing, Trial}
use trimetry.Adapter.Types.{ExecutionResult, ExecutionContext}
use trimetry.Telemetry.Types.{TrialContext, TrialResult}

pub record TrialSpec (F : Type 0) : Type 0 where
  pub trial : Trial F
  pub scenario : Scenario
  pub input : String
  pub pricing : Option (ModelPricing F)

-- The fields that are not interfaces or callbacks. `adapter_name` is `e.Adapter.Name()`.
pub record Executor : Type 0 where
  pub adapter_name : String
  pub concurrency : ℤ
  pub retries : ℤ
  pub flush_on_trial_end : Bool
  pub enrichment_dir : String
  pub benchmark_name : String

-- One answer of `e.Adapter.Execute`, and whether the context is cancelled once it is there.
pub record Answer (F : Type 0) : Type 0 where
  pub result : Option (ExecutionResult F)
  pub exec_err : Option String
  pub ctx_err : Bool

-- What the outside answers while a trial runs: the adapter, by the attempt, and the clock.
pub record Surroundings (F : Type 0) : Type 0 where
  pub started_at : Time
  pub finished_at : Time
  pub answer : ℕ → Answer F

-- The calls of a trial to its adapter, its telemetry and its callbacks.
pub data Call (F : Type 0) : Type 0 where
  start_trial : TrialContext → Call F
  on_retry : (trial_id : String) (attempt : ℕ) (max_retries : ℤ) → Call F
  execute : (input : String) → ExecutionContext → Call F
  finish_trial : TrialResult F → Call F
  flush : Call F
  on_trial_complete : Trial F → Call F
