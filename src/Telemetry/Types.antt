-- ===== src/Telemetry/Types.antt =====
-- internal/telemetry/telemetry.go: what the runner tells a telemetry adapter of a trial.
use trimetry.Base.{ℕ, String, Option, List}
use trimetry.Base.Clock.{Time}
use trimetry.Model.Value.{Fields}
use trimetry.Model.Trial.{ExecutionStatus, TrialMetrics, EvaluationResult}
use trimetry.Adapter.Types.{StepDetail}

pub record TrialContext : Type 0 where
  pub benchmark_run_id : String
  pub benchmark_name : String
  pub trial_id : String
  pub scenario_id : String
  pub scenario_version : String
  pub trial_number : ℕ
  pub model_name : String
  pub model_provider : String
  pub model_parameters : Fields
  pub input : String

pub record TrialResult (F : Type 0) : Type 0 where
  pub trial_id : String
  pub started_at : Time
  pub adapter_name : String
  pub execution_status : ExecutionStatus
  pub output : String
  pub model_name : String
  pub metrics : Option (TrialMetrics F)
  pub steps : List StepDetail
  pub evaluations : List (EvaluationResult F)
  pub session_id : String
  pub enrichment_dir : String

pub record EnvironmentInfo : Type 0 where
  pub host_name : String
  pub host_arch : String
  pub ai_settings : Fields

pub record ReasoningInfo : Type 0 where
  pub reasoning : String
  pub finish_reason : String
  pub timestamp : String
  pub ai_settings : Fields

pub record EnrichmentResult : Type 0 where
  pub reasonings : List ReasoningInfo
  pub environment : Option EnvironmentInfo
