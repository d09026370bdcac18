-- ===== src/Tests/ConfigTests.antt =====
-- The theorems about internal/config at a concrete configuration.
use trimetry.Base.{◌≡◌, refl, false, [], ◌∷◌, is_empty}
use trimetry.Base.Int.{pos, negsuc}
use trimetry.Config.Defaults.{apply_defaults}
use trimetry.Config.Secrets.{effective_hash, effective_hash-credentials}
use trimetry.Config.Validate.{
  validate, benchmark_errors, scenario_errors, id_errors, now_seen, check_for_secrets,
}
use trimetry.Config.Bounds.{Bounded, apply_defaults-Bounded}
use trimetry.Config.Accepted.{Distinct, validate-Distinct}
use trimetry.Tests.Sample.{config}

accepted : validate config ≡ []
unfolding validate benchmark_errors scenario_errors id_errors now_seen check_for_secrets
accepted = refl

validate-Distinct_example : (is_empty config.scenarios ≡ false) × Distinct config.scenarios
validate-Distinct_example = validate-Distinct config accepted

apply_defaults-Bounded_example : Bounded (
    apply_defaults
      (λ name. "")
      (record config {
        benchmark = record (config.benchmark) { trials = pos 0; timeout_seconds = negsuc 4 };
      }))
apply_defaults-Bounded_example =
    apply_defaults-Bounded (λ name. "")
      (record config {
        benchmark = record (config.benchmark) { trials = pos 0; timeout_seconds = negsuc 4 };
      })

effective_hash-credentials_example :
    effective_hash
      (λ c. c.telemetry.secret_key)
      (record config {
        telemetry = record (config.telemetry) {
          secret_key = "other";
          public_key = "one";
          token = "more";
        };
        adapter = record (config.adapter) { options = ("command", "claude") ∷ [] };
      })
    ≡ effective_hash (λ c. c.telemetry.secret_key) config
effective_hash-credentials_example =
    effective_hash-credentials (λ c. c.telemetry.secret_key) config "other" "one" "more"
      (("command", "claude") ∷ []) refl
