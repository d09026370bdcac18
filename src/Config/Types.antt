-- ===== src/Config/Types.antt =====
-- internal/config/config.go: what the YAML file is read into. F stands for `float64`.
use trimetry.Base.{String, Bool, List}
use trimetry.Base.Int.{ℤ}
use trimetry.Base.Dict.{Dict}
use trimetry.Model.Trial.{Scenario, ModelConfig}

pub record BenchmarkConfig : Type 0 where
  pub name : String
  pub trials : ℤ
  pub concurrency : ℤ
  pub timeout_seconds : ℤ
  pub retries : ℤ
  pub environment : String

pub record TelemetryConfig : Type 0 where
  pub enabled : Bool
  pub provider : String
  pub flush_on_trial_end : Bool
  pub enrichment_dir : String
  pub base_url : String
  pub public_key : String
  pub secret_key : String
  pub batch_chunk_size : ℤ
  pub max_retries : ℤ
  pub max_batch_queue : ℤ
  pub tracking_uri : String
  pub token : String
  pub workspace : String
  pub tls_skip_verify : Bool

pub record ReportConfig : Type 0 where
  pub output_directory : String
  pub formats : List String
  pub mask_output : Bool

pub record AdapterConfig : Type 0 where
  pub kind : String
  pub options : Dict String

-- The options are listed in the order in which the map is walked.
pub record Config (F : Type 0) : Type 0 where
  pub benchmark : BenchmarkConfig
  pub scenarios : List Scenario
  pub models : List (ModelConfig F)
  pub telemetry : TelemetryConfig
  pub report : ReportConfig
  pub adapter : AdapterConfig
  pub raw_hash : String
