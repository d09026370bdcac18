-- ===== src/Model/Summary.antt =====
-- internal/model/types.go: the summaries that reports and comparisons are made of.
use trimetry.Base.{ℕ, String, Bool, Option, List}
use trimetry.Base.Clock.{Time}
use trimetry.Model.Trial.{ToolCall}

pub record StatsSummary (F : Type 0) : Type 0 where
  pub mean : F
  pub median : F
  pub std_dev : F
  pub minimum : F
  pub maximum : F
  pub p90 : F
  pub p95 : F
  pub count : ℕ

pub record MetricsSummary (F : Type 0) : Type 0 where
  pub wall_time_ms : Option (StatsSummary F)
  pub llm_latency_ms : Option (StatsSummary F)
  pub idle_ms : Option (StatsSummary F)
  pub ttft_ms : Option (StatsSummary F)
  pub llm_time_ratio : Option (StatsSummary F)
  pub input_tokens : Option (StatsSummary F)
  pub output_tokens : Option (StatsSummary F)
  pub total_tokens : Option (StatsSummary F)
  pub reasoning_tokens : Option (StatsSummary F)
  pub cache_read_tokens : Option (StatsSummary F)
  pub cache_write_tokens : Option (StatsSummary F)
  pub output_length : Option (StatsSummary F)
  pub tokens_per_gen : Option (StatsSummary F)
  pub estimated_cost : Option (StatsSummary F)
  pub accuracy_score : Option (StatsSummary F)

pub record OutputSample : Type 0 where
  pub trial_number : ℕ
  pub output : String
  pub accurate : Option Bool

pub record ScenarioSummary (F : Type 0) : Type 0 where
  pub scenario_id : String
  pub scenario_version : String
  pub scenario_name : String
  pub input : String
  pub model_name : String
  pub model_provider : String
  pub trial_count : ℕ
  pub completed_count : ℕ
  pub failed_count : ℕ
  pub timeout_count : ℕ
  pub cancelled_count : ℕ
  pub failure_rate : F
  pub accuracy_rate : Option F
  pub accuracy_method : String
  pub metrics : Option (MetricsSummary F)
  pub output_samples : List OutputSample
  pub tool_calls : List ToolCall

pub record RunSummary (F : Type 0) : Type 0 where
  pub benchmark_run_id : String
  pub name : String
  pub status : String
  pub started_at : Time
  pub finished_at : Option Time
  pub scenarios : List (ScenarioSummary F)
