-- ===== src/Runner/Run.antt =====
-- internal/runner/runner.go: Run, around RunTrials, and BuildManifest.
pub mod Options
use trimetry.Base.{
  String, Bool, Option, none, some, List, [], ◌∷◌, is_empty, str_eq, ◌≡◌, refl, if◌then◌else◌,
}
use trimetry.Base.Int.{ℤ}
use trimetry.Base.Dict.{Dict}
use trimetry.Base.Clock.{Time}
use trimetry.Base.Trim.{trim_space}
use trimetry.Model.Value.{text, boolean, object, Fields, end, field, put}
use trimetry.Model.Trial.{BenchmarkRun, RunStatus, Scenario, ModelConfig, Trial}
use trimetry.Config.Types.{Config}
use trimetry.Config.Secrets.{redact_options, redacted, effective_hash, hash}
use trimetry.Runner.Types.{Executor}

-- internal/model/types.go
pub record RunManifest (F : Type 0) : Type 0 where
  pub benchmark_run_id : String
  pub name : String
  pub started_at : Time
  pub runner_version : String
  pub environment : String
  pub git_commit : String
  pub config_hash : String
  pub effective_config_hash : String
  pub scenarios : List Scenario
  pub models : List (ModelConfig F)
  pub trials_per_combo : ℤ
  pub concurrency : ℤ
  pub retries : ℤ
  pub telemetry : Fields
  pub adapter : Fields
  pub dry_run : Bool

-- The version of internal/version/version.go.
abbrev pub version : String
version = "0.6.2"

-- `git rev-parse` may fail.
unfoldable pub detect_git_commit : (git : Option String) → String
detect_git_commit none = "unknown"
detect_git_commit (some out) = trim_space out

-- `if v != "" { m[key] = v }`
put_text : String → String → Fields → Fields
put_text key v m = if str_eq v "" then m else put key (text v) m

unfoldable pub option_fields : Dict String → Fields
option_fields [] = end
option_fields ((k, v) ∷ options) = field k (text v) (option_fields options)

module _ {F : Type 0} where
  -- `digest` hashes a configuration; the identifier, the time and the commit come from the system.
  unfoldable pub start_run :
      (digest : Config F → String)
      → Config F
      → (run_id : String) → (now : Time) → (git : Option String) → BenchmarkRun F
  start_run digest c run_id now git = record {
    benchmark_run_id = run_id;
    name = c.benchmark.name;
    started_at = now;
    finished_at = none;
    runner_version = version;
    environment = c.benchmark.environment;
    git_commit = detect_git_commit git;
    config_hash = hash digest c;
    status = RunStatus.running;
    trials = [];
  }

  -- The executor of Run; its callbacks are those of the display.
  unfoldable pub executor_of : Config F → (adapter_name : String) → Executor
  executor_of c adapter_name = record {
    adapter_name = adapter_name;
    concurrency = c.benchmark.concurrency;
    retries = c.benchmark.retries;
    flush_on_trial_end = c.telemetry.flush_on_trial_end;
    enrichment_dir = c.telemetry.enrichment_dir;
    benchmark_name = c.benchmark.name;
  }

  -- The run once RunTrials has returned its trials, whatever became of them.
  unfoldable pub finish_run : BenchmarkRun F → List (Trial F) → (now : Time) → BenchmarkRun F
  finish_run run trials now = record run {
    trials = trials;
    finished_at = some now;
    status = RunStatus.completed;
  }

  telemetry_fields : Config F → Fields
  unfolding put_text
  telemetry_fields c =
      let t = c.telemetry in
      put_text "workspace" t.workspace (
        put_text "trackingUri" t.tracking_uri (
          put_text "baseUrl" t.base_url
            (field "enabled" (boolean t.enabled) (field "provider" (text t.provider) end))))

  unfoldable pub adapter_fields : Config F → Fields
  unfolding option_fields
  adapter_fields c =
      let kind = field "type" (text c.adapter.kind) end in
      if is_empty c.adapter.options
      then kind
      else put "options" (object (option_fields (redact_options c))) kind

  unfoldable pub build_manifest :
      (digest : Config F → String) → Config F → BenchmarkRun F → (dry_run : Bool) → RunManifest F
  unfolding telemetry_fields adapter_fields
  build_manifest digest c run dry_run = record {
    benchmark_run_id = run.benchmark_run_id;
    name = run.name;
    started_at = run.started_at;
    runner_version = run.runner_version;
    environment = run.environment;
    git_commit = run.git_commit;
    config_hash = run.config_hash;
    effective_config_hash = effective_hash digest c;
    scenarios = c.scenarios;
    models = c.models;
    trials_per_combo = c.benchmark.trials;
    concurrency = c.benchmark.concurrency;
    retries = c.benchmark.retries;
    telemetry = telemetry_fields c;
    adapter = adapter_fields c;
    dry_run = dry_run;
  }

  -- The manifest names the credentials nowhere: for configurations that differ in keys and token only, it is the
  -- same for the same run.
  pub build_manifest-credentials :
      (digest : Config F → String) (c : Config F) (run : BenchmarkRun F) (dry_run : Bool)
      (secret_key public_key token : String)
      → build_manifest digest
          (record c {
            telemetry = record (c.telemetry) {
              secret_key = secret_key;
              public_key = public_key;
              token = token;
            };
          })
          run
          dry_run
        ≡ build_manifest digest c run dry_run
  unfolding build_manifest redact_options effective_hash redacted
  build_manifest-credentials digest c run dry_run secret_key public_key token = refl
