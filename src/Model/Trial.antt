-- ===== src/Model/Trial.antt =====
-- internal/model/types.go: scenarios, models, trials and what is measured of a trial.
use trimetry.Base.{ℕ, String, Bool, Option, List}
use trimetry.Base.Int.{ℤ}
use trimetry.Base.Clock.{Time}
use trimetry.Model.Value.{Fields}

pub data RunStatus : Type 0 where
  running completed : RunStatus

pub data ExecutionStatus : Type 0 where
  pending running completed failed timeout cancelled : ExecutionStatus

-- The empty string is `none` where this type is used.
pub data ErrorType : Type 0 where
  application timeout cancelled : ErrorType

pub record Scenario : Type 0 where
  pub scenario_id : String
  pub scenario_version : String
  pub name : String
  pub input : String
  pub metadata : Fields
  pub timeout_seconds : ℤ
  pub expected_output : String

pub record ModelPricing (F : Type 0) : Type 0 where
  pub input_per_m_token : F
  pub output_per_m_token : F

pub record ModelConfig (F : Type 0) : Type 0 where
  pub name : String
  pub provider : String
  pub parameters : Fields
  pub pricing : Option (ModelPricing F)

pub record ToolCall : Type 0 where
  pub tool : String
  pub command : String
  pub duration_ms : ℤ
  pub output : String

pub record TrialMetrics (F : Type 0) : Type 0 where
  pub wall_time_ms : ℤ
  pub llm_latency_ms : Option ℤ
  pub idle_ms : Option ℤ
  pub ttft_ms : Option ℤ
  pub llm_time_ratio : Option F
  pub input_tokens : Option ℤ
  pub output_tokens : Option ℤ
  pub total_tokens : Option ℤ
  pub reasoning_tokens : Option ℤ
  pub cache_read_tokens : Option ℤ
  pub cache_write_tokens : Option ℤ
  pub output_length : Option ℕ
  pub estimated_cost : Option F
  pub retry_count : ℕ
  pub tool_calls : List ToolCall
  pub generation_count : Option ℕ
  pub accuracy_score : Option F
  pub accuracy_method : String
  pub accuracy_reason : String
  pub token_usage_source : String
  pub cost_source : String

pub record EvaluationResult (F : Type 0) : Type 0 where
  pub evaluator_name : String
  pub evaluator_version : String
  pub score : Option F
  pub label : String
  pub passed : Option Bool
  pub reason : String
  pub metadata : Fields

pub record Trial (F : Type 0) : Type 0 where
  pub trial_id : String
  pub benchmark_run_id : String
  pub scenario_id : String
  pub scenario_version : String
  pub trial_number : ℕ
  pub model_name : String
  pub model_provider : String
  pub model_parameters : Fields
  pub started_at : Time
  pub finished_at : Option Time
  pub execution_status : ExecutionStatus
  pub error_type : Option ErrorType
  pub error_message : String
  pub output : String
  pub metrics : Option (TrialMetrics F)
  pub evaluations : List (EvaluationResult F)

pub record BenchmarkRun (F : Type 0) : Type 0 where
  pub benchmark_run_id : String
  pub name : String
  pub started_at : Time
  pub finished_at : Option Time
  pub runner_version : String
  pub environment : String
  pub git_commit : String
  pub config_hash : String
  pub status : RunStatus
  pub trials : List (Trial F)
