-- ===== src/Telemetry/Langfuse/State.antt =====
-- internal/telemetry/langfuse.go: the adapter's fields, and its constructor.
use trimetry.Base.{ℕ, String, Bool, List, [], if◌then◌else◌}
use trimetry.Base.Int.{ℤ, pos, negsuc, positive, pos_part}
use trimetry.Base.Dict.{Dict}
use trimetry.Telemetry.Types.{TrialContext}
use trimetry.Telemetry.Langfuse.Ingestion.{IngestionEvent}

pub record ResolvedTrace : Type 0 where
  pub trace_id : String
  pub root_span_id : String

abbrev pub no_trace : ResolvedTrace
no_trace = record { trace_id = ""; root_span_id = "" }

pub record LangfuseOptions : Type 0 where
  pub base_url : String
  pub public_key : String
  pub secret_key : String
  pub tls_skip_verify : Bool
  pub batch_chunk_size : ℤ
  pub max_retries : ℤ
  pub max_batch_queue : ℤ

-- The HTTP client and its credentials are not part of the state: the requests that they make are
-- arguments of the operations. `max_retries` is not negative once it is set, so it is a number.
pub record LangfuseAdapter (F : Type 0) : Type 0 where
  pub batch : List (IngestionEvent F)
  pub score_configs : Dict String
  pub batch_chunk_size : ℤ
  pub max_retries : ℕ
  pub max_batch_queue : ℕ
  pub trace_cache : Dict ResolvedTrace
  pub trial_contexts : Dict TrialContext

-- `v <= 0` takes the default.
abbrev pub or_default : ℤ → ℕ → ℕ
or_default v d = if positive v then pos_part v else d

abbrev pub retries_of : ℤ → ℕ
retries_of (pos n) = n
retries_of (negsuc n) = 3

-- `configs` is what `loadScoreConfigs` reads from the server, empty where that fails.
unfoldable pub new_langfuse_adapter :
    {F : Type 0} → LangfuseOptions → Dict String → LangfuseAdapter F
new_langfuse_adapter opts configs = record {
  batch = [];
  score_configs = configs;
  batch_chunk_size = pos (or_default opts.batch_chunk_size 50);
  max_retries = retries_of opts.max_retries;
  max_batch_queue = or_default opts.max_batch_queue 10000;
  trace_cache = [];
  trial_contexts = [];
}
