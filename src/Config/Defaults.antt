-- ===== src/Config/Defaults.antt =====
-- internal/config/config.go: applyDefaults, and the run without a real adapter.
use trimetry.Base.{String, false, List, [], ◌∷◌, map, str_eq, if◌then◌else◌}
use trimetry.Base.Int.{ℤ, pos, negsuc, positive}
use trimetry.Base.Text.{or_text}
use trimetry.Model.Trial.{Scenario}
use trimetry.Config.Types.{BenchmarkConfig, TelemetryConfig, ReportConfig, Config}

-- if v <= 0 { v = d }
unfoldable pub or_positive : ℤ → ℤ → ℤ
or_positive v d = if positive v then v else d

unfoldable pub benchmark_defaults : BenchmarkConfig → BenchmarkConfig
benchmark_defaults b = record b {
  trials = or_positive b.trials (pos 5);
  concurrency = or_positive b.concurrency (pos 1);
  timeout_seconds = or_positive b.timeout_seconds (pos 300);
  environment = or_text b.environment "local";
}

formats_or_default : List String → List String
formats_or_default [] = "json" ∷ "markdown" ∷ []
formats_or_default (f ∷ fs) = f ∷ fs

report_defaults : ReportConfig → ReportConfig
unfolding formats_or_default
report_defaults r = record r {
  output_directory = or_text r.output_directory "benchmark-results";
  formats = formats_or_default r.formats;
}

unfoldable pub scenario_defaults : ℤ → Scenario → Scenario
scenario_defaults timeout s = record s { timeout_seconds = or_positive s.timeout_seconds timeout }

-- `getenv` is os.Getenv: the empty text where a variable is not set.
module _ (getenv : String → String) where
  resolve_langfuse_env : TelemetryConfig → TelemetryConfig
  resolve_langfuse_env t = record t {
    base_url = or_text t.base_url (getenv "LANGFUSE_BASEURL");
    public_key = or_text t.public_key (getenv "LANGFUSE_PUBLIC_KEY");
    secret_key = or_text t.secret_key (getenv "LANGFUSE_SECRET_KEY");
  }

  resolve_mlflow_env : TelemetryConfig → TelemetryConfig
  resolve_mlflow_env t = record t {
    tracking_uri = or_text t.tracking_uri (getenv "MLFLOW_TRACKING_URI");
    token = or_text t.token (getenv "MLFLOW_TRACKING_TOKEN");
    workspace = or_text t.workspace (getenv "MLFLOW_TRACKING_WORKSPACE");
  }

  retries_or_default : ℤ → ℤ
  retries_or_default (pos n) = pos n
  retries_or_default (negsuc n) = pos 3

  provider_defaults : TelemetryConfig → TelemetryConfig
  unfolding resolve_langfuse_env resolve_mlflow_env retries_or_default
  provider_defaults t =
      if str_eq t.provider "mlflow" then resolve_mlflow_env t else record (resolve_langfuse_env t) {
        batch_chunk_size = or_positive t.batch_chunk_size (pos 50);
        max_retries = retries_or_default t.max_retries;
        max_batch_queue = or_positive t.max_batch_queue (pos 10_000);
      }

  unfoldable pub telemetry_defaults : TelemetryConfig → TelemetryConfig
  unfolding provider_defaults
  telemetry_defaults t = provider_defaults (record t {
    enrichment_dir =
        or_text t.enrichment_dir
          (or_text (getenv "TRIMETRY_ENRICHMENT_DIR") "/tmp/trimetry-enrichment");
    provider = or_text t.provider "langfuse";
  })

  unfoldable pub apply_defaults : {F : Type 0} → Config F → Config F
  unfolding report_defaults
  apply_defaults c =
      let benchmark = benchmark_defaults c.benchmark in
      record c {
        benchmark = benchmark;
        report = report_defaults c.report;
        adapter = record (c.adapter) { kind = or_text c.adapter.kind "opencode" };
        scenarios = map (scenario_defaults benchmark.timeout_seconds) c.scenarios;
        telemetry = telemetry_defaults c.telemetry;
      }

unfoldable pub apply_dry_run : {F : Type 0} → Config F → Config F
apply_dry_run c = record c {
  adapter = record (c.adapter) { kind = "fake" };
  telemetry = record (c.telemetry) { enabled = false };
}
