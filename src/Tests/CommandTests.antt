-- ===== src/Tests/CommandTests.antt =====
-- The theorems about cmd/trimetry, the manifest and the agents' times at concrete inputs.
use trimetry.Base.{ℕ, ◌≡◌, refl, false, String, some, List, [], ◌∷◌, All, if◌then◌else◌}
use trimetry.Base.Int.{pos}
use trimetry.Model.Value.{Fields, text, object, end, field}
use trimetry.Config.Types.{Config}
use trimetry.Config.Defaults.{apply_dry_run}
use trimetry.Config.Validate.{
  validate, benchmark_errors, scenario_errors, id_errors, now_seen, check_for_secrets,
}
use trimetry.Adapter.Claude.Command.{IsTimed, backfill_steps, backfill_steps-IsTimed}
use trimetry.Adapter.Factory.{adapter_name}
use trimetry.Telemetry.Factory.{noop, new_from_config}
use trimetry.Runner.Run.{build_manifest, build_manifest-credentials}
use trimetry.Runner.Run.Options.{IsRedacted, build_manifest-options}
use trimetry.CommandLine.{Prepared, parse_flag, has_flag, prepare, ready}
use trimetry.CommandLine.Supported.{prepare-ready}
use trimetry.Tests.Sample.{natural_ops, benchmark_run, config, steps}

abbrev args : List String
args = "--config" ∷ "bench.yaml" ∷ "--dry-run" ∷ []

config_accepted : validate config ≡ []
unfolding validate benchmark_errors scenario_errors id_errors now_seen check_for_secrets
config_accepted = refl

prepare-ready_example :
    (p : Prepared natural_ops) × (prepare natural_ops (λ path. some config) args ≡ ready p)
    × (p.dry_run ≡ has_flag args "--dry-run")
    × (p.config ≡ (if has_flag args "--dry-run" then apply_dry_run config else config))
    × (adapter_name p.app ≡ (if has_flag args "--dry-run" then "fake" else config.adapter.kind))
    × (p.tel ≡ (if has_flag args "--dry-run" then noop else new_from_config config))
unfolding parse_flag
prepare-ready_example =
    prepare-ready natural_ops (λ path. some config) args config refl refl config_accepted

backfill_steps-IsTimed_example : All IsTimed (backfill_steps (pos 10) (pos 20) steps)
backfill_steps-IsTimed_example = backfill_steps-IsTimed (pos 10) (pos 20) steps refl refl

build_manifest-credentials_example :
    build_manifest
      (λ c. c.telemetry.secret_key)
      (record config {
        telemetry = record (config.telemetry) { secret_key = "s"; public_key = "p"; token = "t" };
      })
      benchmark_run
      false
    ≡ build_manifest (λ c. c.telemetry.secret_key) config benchmark_run false
build_manifest-credentials_example =
    build_manifest-credentials (λ c. c.telemetry.secret_key) config benchmark_run false "s" "p" "t"

-- A configuration with an option that must not be shown.
abbrev keyed : Config ℕ
keyed = record config {
  adapter = record (config.adapter) { options = ("key", "sk-ant-1") ∷ ("command", "claude") ∷ [] };
}

build_manifest-options_example :
    (fs : Fields) × IsRedacted keyed.adapter.options fs
    × ((build_manifest (λ c. "") keyed benchmark_run false).adapter
        ≡ field "type" (text keyed.adapter.kind) (field "options" (object fs) end))
build_manifest-options_example = build_manifest-options (λ c. "") keyed benchmark_run false
