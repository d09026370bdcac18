-- ===== src/CommandLine/Supported.antt =====
-- cmd/trimetry/main.go: what a run is made from, when it is not refused.
use trimetry.Base.{
  String, Bool, true, false, not, ◌≡◌, refl, sym, ap, Option, some, List, [], any, is_empty, str_eq,
  eq_iff, if◌then◌else◌, arith,
}
use trimetry.Base.Dict.{Dict}
use trimetry.Base.Float.{FloatOps}
use trimetry.Config.Types.{Config}
use trimetry.Config.Defaults.{apply_dry_run}
use trimetry.Config.Validate.{
  validate, supported_types, error_if, unsupported_adapter, benchmark_errors, no_scenario,
  scenario_errors, check_for_secrets,
}
use trimetry.Config.Accepted.{nil-append_left, nil-append_right, error_if-nil}
use trimetry.Adapter.Factory.{ApplicationAdapter, new_adapter, adapter_name}
use trimetry.CommandLine.{
  parse_flag, has_flag, Prepared, ready, with_adapter, prepare_valid, prepare,
}
use trimetry.Telemetry.Factory.{noop, new_from_config}

-- One case of a switch, and the cases after it.
next_case :
    {A : Type 0} (P : A → Type 0) (b : Bool) (x : A) (rest : Option A)
    → (b ≡ true → P x)
    → (b ≡ false → (a : A) × (rest ≡ some a) × P a)
    → (a : A) × ((if b then some x else rest) ≡ some a) × P a
next_case P true x rest here later = (x, refl, here refl)
next_case P false x rest here later = later refl

is_name : (kind name : String) → str_eq kind name ≡ true → name ≡ kind
is_name kind name h = sym ((eq_iff kind name).0 h)

module _ (ops : FloatOps) where
  -- An adapter of the type asked for.
  abbrev Named : String → ApplicationAdapter ops.Float → Type 0
  Named kind a = adapter_name a ≡ kind

  new_adapter-supported :
      (kind : String) (options : Dict String)
      → any (λ t. str_eq kind t) supported_types ≡ true
      → (a : ApplicationAdapter ops.Float) × (new_adapter ops kind options ≡ some a) × Named kind a
  unfolding new_adapter adapter_name
  new_adapter-supported kind options h =
      next_case (Named kind) (str_eq kind "opencode") _ _ (is_name kind "opencode") λ a.
        next_case (Named kind) (str_eq kind "claude") _ _ (is_name kind "claude") λ b.
          next_case (Named kind) (str_eq kind "codex") _ _ (is_name kind "codex") λ c.
            next_case (Named kind) (str_eq kind "cursor") _ _ (is_name kind "cursor") λ d.
              next_case (Named kind) (str_eq kind "fake") _ _ (is_name kind "fake")
                λ e. absurd (ground (arith, h, a, b, c, d, e))

  validate-supported :
      (c : Config ops.Float)
      → validate c ≡ []
      → any (λ t. str_eq c.adapter.kind t) supported_types ≡ true
  unfolding validate
  validate-supported c h =
      let benchmark = nil-append_right (benchmark_errors c.benchmark) _ h in
      let scenario = nil-append_right (error_if (is_empty c.scenarios) no_scenario) _ benchmark in
      let rest = nil-append_right (scenario_errors 0 [] c.scenarios) _ scenario in
      let known = any (λ t. str_eq c.adapter.kind t) supported_types in
      let adapter_error = error_if (not known) (unsupported_adapter c.adapter.kind) in
      let upto = nil-append_left _ (check_for_secrets c.adapter.options) rest in
      let own = nil-append_right _ adapter_error upto in
      not_false known (error_if-nil (not known) (unsupported_adapter c.adapter.kind) own)
    where
      not_false : (b : Bool) → not b ≡ false → b ≡ true
      not_false true h = refl
      not_false false h = cc

  new_from_config-dry_run : (c : Config ops.Float) → new_from_config (apply_dry_run c) ≡ noop
  unfolding new_from_config apply_dry_run
  new_from_config-dry_run c = refl

  -- The preparation with one choice of --dry-run.
  abbrev Readies : List String → Bool → Config ops.Float → Type 0
  Readies args dry_run c =
      (p : Prepared ops) × (prepare_valid ops args dry_run c ≡ ready p)
      × (p.dry_run ≡ dry_run)
      × (p.config ≡ (if dry_run then apply_dry_run c else c))
      × (adapter_name p.app ≡ (if dry_run then "fake" else c.adapter.kind))
      × (p.tel ≡ (if dry_run then noop else new_from_config c))

  prepare_valid-Readies :
      (args : List String) (dry_run : Bool) (c : Config ops.Float)
      → validate c ≡ []
      → Readies args dry_run c
  unfolding prepare_valid with_adapter apply_dry_run new_adapter
  prepare_valid-Readies args true c h =
      let made = new_adapter-supported "fake" c.adapter.options refl in
      (
        _,
        ap (with_adapter ops args true (apply_dry_run c)) made.1,
        refl,
        refl,
        made.2,
        new_from_config-dry_run c,
      )
  prepare_valid-Readies args false c h =
      let made = new_adapter-supported c.adapter.kind c.adapter.options (validate-supported c h) in
      (_, ap (with_adapter ops args false c) made.1, refl, refl, made.2, refl)

  -- When --config names a file whose configuration has no errors, the run is prepared and not refused. Its adapter is
  -- the one that the configuration names and its telemetry the one asked for; with --dry-run it is the fake adapter
  -- and the telemetry that does nothing, whatever the configuration says.
  pub prepare-ready :
      (load : (path : String) → Option (Config ops.Float)) (args : List String)
      (c : Config ops.Float)
      → str_eq (parse_flag args "--config") "" ≡ false
      → load (parse_flag args "--config") ≡ some c
      → validate c ≡ []
      → (p : Prepared ops) × (prepare ops load args ≡ ready p)
        × (p.dry_run ≡ has_flag args "--dry-run")
        × (p.config ≡ (if has_flag args "--dry-run" then apply_dry_run c else c))
        × (adapter_name p.app ≡ (if has_flag args "--dry-run" then "fake" else c.adapter.kind))
        × (p.tel ≡ (if has_flag args "--dry-run" then noop else new_from_config c))
  unfolding prepare
  prepare-ready load args c named loaded valid =
      let made = prepare_valid-Readies args (has_flag args "--dry-run") c valid in
      (made.0, rw (named, loaded, valid) made.1, made.2, made.3, made.4, made.5)
