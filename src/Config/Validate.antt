-- ===== src/Config/Validate.antt =====
-- internal/config/config.go: Validate.
use trimetry.Base.{
  ℕ, suc, String, Bool, not, ◌&&◌, ◌||◌, List, [], ◌∷◌, ◌++◌, any, is_empty, starts_with, str_eq,
  if◌then◌else◌,
}
use trimetry.Base.Int.{ℤ, positive}
use trimetry.Base.Dict.{Dict}
use trimetry.Model.Trial.{Scenario, ModelConfig}
use trimetry.Config.Types.{Config, BenchmarkConfig, TelemetryConfig}
use trimetry.Config.Secrets.{secret_prefixes}

-- The messages, each by what it says.
pub data ConfigError : Type 0 where
  name_required trials_too_small concurrency_too_small timeout_too_small : ConfigError
  no_scenario no_model : ConfigError
  scenario_id_required : ℕ → ConfigError
  duplicate_scenario_id : String → ConfigError
  scenario_version_required scenario_input_required model_name_required model_provider_required :
      ℕ → ConfigError
  tracking_uri_required base_url_required public_key_required secret_key_required : ConfigError
  unsupported_provider unsupported_format unsupported_adapter : String → ConfigError
  contains_secret : (key prefix : String) → ConfigError

-- if failed { errs = append(errs, e) }
abbrev pub error_if : Bool → ConfigError → List ConfigError
error_if b e = if b then e ∷ [] else []

-- `v < 1`
abbrev below_one : ℤ → Bool
below_one v = not (positive v)

unfoldable pub benchmark_errors : BenchmarkConfig → List ConfigError
benchmark_errors b =
    error_if (str_eq b.name "") name_required
    ++ error_if (below_one b.trials) trials_too_small
    ++ error_if (below_one b.concurrency) concurrency_too_small
    ++ error_if (below_one b.timeout_seconds) timeout_too_small

-- `seen[id]`
abbrev pub was_seen : String → List String → Bool
was_seen id seen = any (λ s. str_eq s id) seen

unfoldable pub id_errors : ℕ → String → List String → List ConfigError
id_errors i id seen =
    if str_eq id ""
    then scenario_id_required i ∷ []
    else if was_seen id seen
    then duplicate_scenario_id id ∷ []
    else []

unfoldable pub now_seen : String → List String → List String
now_seen id seen = if str_eq id "" || was_seen id seen then seen else id ∷ seen

unfoldable pub scenario_errors : ℕ → List String → List Scenario → List ConfigError
scenario_errors i seen [] = []
scenario_errors i seen (s ∷ ss) =
    id_errors i s.scenario_id seen
    ++ (error_if (str_eq s.scenario_version "") (scenario_version_required i)
        ++ error_if (str_eq s.input "") (scenario_input_required i)
        ++ scenario_errors (suc i) (now_seen s.scenario_id seen) ss)

unfoldable pub model_errors : {F : Type 0} → ℕ → List (ModelConfig F) → List ConfigError
model_errors i [] = []
model_errors i (m ∷ ms) =
    error_if (str_eq m.name "") (model_name_required i)
    ++ error_if (str_eq m.provider "") (model_provider_required i)
    ++ model_errors (suc i) ms

langfuse_errors : TelemetryConfig → List ConfigError
langfuse_errors t =
    error_if (str_eq t.base_url "") base_url_required
    ++ error_if (str_eq t.public_key "") public_key_required
    ++ error_if (str_eq t.secret_key "") secret_key_required

unfoldable pub telemetry_errors : TelemetryConfig → List ConfigError
unfolding langfuse_errors
telemetry_errors t =
    if not t.enabled
    then []
    else if str_eq t.provider "mlflow"
    then error_if (str_eq t.tracking_uri "") tracking_uri_required
    else if str_eq t.provider "langfuse" || str_eq t.provider ""
    then langfuse_errors t
    else unsupported_provider t.provider ∷ []

unfoldable pub format_errors : List String → List ConfigError
format_errors [] = []
format_errors (f ∷ fs) =
    error_if (not (str_eq f "json") && not (str_eq f "markdown")) (unsupported_format f)
    ++ format_errors fs

-- SupportedTypes of internal/adapter/factory.go
abbrev pub supported_types : List String
supported_types = "opencode" ∷ "claude" ∷ "codex" ∷ "cursor" ∷ "fake" ∷ []

-- The first prefix that the value starts with.
check : String → String → List String → List ConfigError
check key value [] = []
check key value (prefix ∷ prefixes) =
    let rest = check key value prefixes in
    if starts_with value prefix then contains_secret key prefix ∷ [] else rest

unfoldable pub check_for_secrets : Dict String → List ConfigError
unfolding check
check_for_secrets [] = []
check_for_secrets ((k, v) ∷ options) = check k v secret_prefixes ++ check_for_secrets options

unfoldable pub validate : {F : Type 0} → Config F → List ConfigError
unfolding model_errors telemetry_errors format_errors
validate c =
    benchmark_errors c.benchmark
    ++ (error_if (is_empty c.scenarios) no_scenario
        ++ (scenario_errors 0 [] c.scenarios
            ++ (error_if (is_empty c.models) no_model
                ++ model_errors 0 c.models
                ++ telemetry_errors c.telemetry
                ++ format_errors c.report.formats
                ++ error_if (not (any (λ t. str_eq c.adapter.kind t) supported_types))
                    (unsupported_adapter c.adapter.kind)
                ++ check_for_secrets c.adapter.options)))
