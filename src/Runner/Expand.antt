-- ===== src/Runner/Expand.antt =====
-- internal/runner/runner.go: every scenario is paired with every model, a number of times.
pub mod Positions
use trimetry.Base.{
  ℕ, zero, suc, ◌+◌, ◌*◌, ◌≡◌, String, Option, none, some, List, [], ◌∷◌, ◌++◌, length,
  length-append, arith,
}
use trimetry.Base.Int.{ℤ, pos, negsuc, pos_part}
use trimetry.Base.Clock.{zero_time}
use trimetry.Model.Trial.{Scenario, ModelConfig, Trial, ExecutionStatus}
use trimetry.Runner.Types.{TrialSpec}

module _ {F : Type 0} (new_trial_id : ℕ → String) (benchmark_run_id : String) where
  -- `serial` counts the calls of `id.NewTrialID()` so far.
  unfoldable pub new_spec : Scenario → ModelConfig F → (number serial : ℕ) → TrialSpec F
  new_spec scenario mdl number serial = record {
    trial = record {
      trial_id = new_trial_id serial;
      benchmark_run_id = benchmark_run_id;
      scenario_id = scenario.scenario_id;
      scenario_version = scenario.scenario_version;
      trial_number = number;
      model_name = mdl.name;
      model_provider = mdl.provider;
      model_parameters = mdl.parameters;
      started_at = zero_time;
      finished_at = none;
      execution_status = ExecutionStatus.pending;
      error_type = none;
      error_message = "";
      output = "";
      metrics = none;
      evaluations = [];
    };
    scenario = scenario;
    input = scenario.input;
    pricing = mdl.pricing;
  }

  -- for i := 1; i <= trials; i++
  unfoldable pub expand_numbers :
      Scenario → ModelConfig F → (left number serial : ℕ) → List (TrialSpec F)
  expand_numbers scenario mdl zero number serial = []
  expand_numbers scenario mdl (suc left) number serial =
      new_spec scenario mdl number serial
      ∷ expand_numbers scenario mdl left (suc number) (suc serial)

  unfoldable pub expand_models :
      Scenario → List (ModelConfig F) → (trials serial : ℕ) → List (TrialSpec F)
  expand_models scenario [] trials serial = []
  expand_models scenario (mdl ∷ models) trials serial =
      expand_numbers scenario mdl trials 1 serial
      ++ expand_models scenario models trials (serial + trials)

  unfoldable pub expand_scenarios :
      List Scenario → List (ModelConfig F) → (trials serial : ℕ) → List (TrialSpec F)
  expand_scenarios [] models trials serial = []
  expand_scenarios (scenario ∷ scenarios) models trials serial =
      expand_models scenario models trials serial
      ++ expand_scenarios scenarios models trials (serial + length models * trials)

  -- A number of trials that is not positive runs none.
  unfoldable pub expand_trials :
      List Scenario → List (ModelConfig F) → (trials : ℤ) → List (TrialSpec F)
  expand_trials scenarios models trials = expand_scenarios scenarios models (pos_part trials) 0
