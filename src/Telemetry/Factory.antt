-- ===== src/Telemetry/Factory.antt =====
-- internal/telemetry/factory.go and noop.go: which telemetry a configuration asks for.
use trimetry.Base.{String, Bool, not, if◌then◌else◌, str_eq}
use trimetry.Config.Types.{Config, TelemetryConfig}
use trimetry.Telemetry.Langfuse.State.{LangfuseOptions}

-- The adapters, by what they are made from. NoopAdapter does nothing on any call.
pub data TelemetryAdapter : Type 0 where
  noop : TelemetryAdapter
  mlflow : (tracking_uri token workspace : String) → (tls_skip_verify : Bool) → TelemetryAdapter
  langfuse : LangfuseOptions → TelemetryAdapter

unfoldable pub langfuse_options : TelemetryConfig → LangfuseOptions
langfuse_options t = record {
  base_url = t.base_url;
  public_key = t.public_key;
  secret_key = t.secret_key;
  tls_skip_verify = t.tls_skip_verify;
  batch_chunk_size = t.batch_chunk_size;
  max_retries = t.max_retries;
  max_batch_queue = t.max_batch_queue;
}

unfoldable pub new_from_config : {F : Type 0} → Config F → TelemetryAdapter
new_from_config c =
    let t = c.telemetry in
    if not t.enabled
    then noop
    else if str_eq t.provider "mlflow"
    then mlflow t.tracking_uri t.token t.workspace t.tls_skip_verify
    else langfuse (langfuse_options t)
