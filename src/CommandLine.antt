-- ===== src/CommandLine.antt =====
-- cmd/trimetry/main.go: the commands and their exit codes.
pub mod Supported
use trimetry.Base.{
  ℕ, String, Bool, true, false, ◌||◌, Option, none, some, List, [], ◌∷◌, any, is_empty, str_eq,
  if◌then◌else◌,
}
use trimetry.Base.Float.{FloatOps}
use trimetry.Config.Types.{Config}
use trimetry.Config.Defaults.{apply_dry_run}
use trimetry.Config.Validate.{ConfigError, validate}
use trimetry.Adapter.Factory.{ApplicationAdapter, new_adapter}
use trimetry.Telemetry.Factory.{TelemetryAdapter, new_from_config}
use trimetry.Model.Summary.{RunSummary}
use trimetry.Report.Write.{Generator, Outcome, summaries, failed, panicked}

-- The argument after the first one that is the name, unless that is the last.
unfoldable pub parse_flag : List String → (name : String) → String
parse_flag [] name = ""
parse_flag (arg ∷ []) name = ""
parse_flag (arg ∷ value ∷ rest) name =
    let later = parse_flag (value ∷ rest) name in if str_eq arg name then value else later

unfoldable pub has_flag : List String → (name : String) → Bool
has_flag args name = any (λ arg. str_eq arg name) args

-- What a command writes to the error output, by what it says.
pub data Complaint : Type 0 where
  config_required files_required load_failed adapter_unknown run_failed report_failed : Complaint
  invalid : List ConfigError → Complaint
  unknown_command : String → Complaint

-- What a run is made from.
pub record Prepared (ops : FloatOps) : Type 0 where
  pub config : Config ops.Float
  pub app : ApplicationAdapter ops.Float
  pub tel : TelemetryAdapter
  pub verbose : Bool
  pub dry_run : Bool

pub data Preparation (ops : FloatOps) : Type 0 where
  -- exit code 1
  refused : Complaint → Preparation ops
  ready : Prepared ops → Preparation ops

module _ (ops : FloatOps) where
  -- What follows NewAdapter.
  unfoldable pub with_adapter :
      List String
      → (dry_run : Bool) → Config ops.Float
      → Option (ApplicationAdapter ops.Float)
      → Preparation ops
  with_adapter args dry_run cfg none = refused adapter_unknown
  with_adapter args dry_run cfg (some app) = ready (record {
    config = cfg;
    app = app;
    tel = new_from_config cfg;
    verbose = has_flag args "--verbose";
    dry_run = dry_run;
  })

  -- For a configuration that was validated.
  unfoldable pub prepare_valid : List String → (dry_run : Bool) → Config ops.Float → Preparation ops
  unfolding with_adapter
  prepare_valid args dry_run c =
      let cfg = if dry_run then apply_dry_run c else c in
      with_adapter args dry_run cfg (new_adapter ops cfg.adapter.kind cfg.adapter.options)

  -- From the arguments up to the run. `load` reads a file of configuration, with its defaults.
  unfoldable pub prepare :
      (load : (path : String) → Option (Config ops.Float)) → List String → Preparation ops
  unfolding prepare_valid
  prepare load args =
      let path = parse_flag args "--config" in
      if str_eq path "" then refused config_required else elim (load path) [
        | none ↦ refused load_failed
        | some c ↦ elim (validate c) [
          | [] ↦ prepare_valid args (has_flag args "--dry-run") c
          | e ∷ errs ↦ refused (invalid (e ∷ errs))
        ]
      ]

  unfoldable pub generator_of : Config ops.Float → Generator
  generator_of c = record {
    output_dir = c.report.output_directory;
    formats = c.report.formats;
    mask_output = c.report.mask_output;
    scenarios = c.scenarios;
  }

  -- The exit code, `none` for a panic.
  unfoldable pub exit_code : Outcome ops.Float → Option ℕ
  exit_code (summaries ss) = some 0
  exit_code (failed e) = some 1
  exit_code panicked = none

  -- `perform` runs the trials and writes the report: Run never returns an error.
  unfoldable pub run_benchmark :
      (load : (path : String) → Option (Config ops.Float))
      → (perform : Prepared ops → Outcome ops.Float) → List String
      → Option ℕ
  run_benchmark load perform args = elim (prepare load args) [
    | refused complaint ↦ some 1
    | ready p ↦ exit_code (perform p)
  ]

  unfoldable pub run_validate :
      (load : (path : String) → Option (Config ops.Float)) → List String → ℕ
  run_validate load args =
      let path = parse_flag args "--config" in
      if str_eq path ""
      then 1
      else elim (load path) [ none ↦ 1 | some c ↦ if is_empty (validate c) then 0 else 1 ]

  -- `load_summary` reads a summary; the comparison itself cannot fail.
  unfoldable pub run_compare :
      (load_summary : (path : String) → Option (RunSummary ops.Float)) → List String → ℕ
  run_compare load_summary args =
      let baseline = parse_flag args "--baseline" in
      let candidate = parse_flag args "--candidate" in
      if str_eq baseline "" || str_eq candidate "" then 1 else elim (load_summary baseline) [
        | none ↦ 1
        | some b ↦ elim (load_summary candidate) [ none ↦ 1 | some c ↦ 0 ]
      ]

  -- The arguments after the program's name.
  unfoldable pub main :
      (load : (path : String) → Option (Config ops.Float))
      → (load_summary : (path : String) → Option (RunSummary ops.Float))
      → (perform : Prepared ops → Outcome ops.Float) → List String
      → Option ℕ
  main load load_summary perform [] = some 1
  main load load_summary perform (command ∷ args) =
      if str_eq command "run"
      then run_benchmark load perform args
      else if str_eq command "validate"
      then some (run_validate load args)
      else if str_eq command "compare"
      then some (run_compare load_summary args)
      else if str_eq command "version"
          || str_eq command "help"
          || str_eq command "--help"
          || str_eq command "-h"
      then some 0
      else some 1
