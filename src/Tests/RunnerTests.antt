-- ===== src/Tests/RunnerTests.antt =====
-- The theorems about internal/runner at concrete inputs.
use trimetry.Base.{ℕ, ◌<◌, ◌≡◌, refl, true, false, ◌⊎◌, some, List, [], ◌∷◌, all, get_elem?, arith}
use trimetry.Base.Int.{pos, negsuc}
use trimetry.Model.Trial.{ExecutionStatus}
use trimetry.Adapter.Types.{no_output}
use trimetry.Adapter.Exec.{CommandRun, failed, exit_error, run_cli, to_execution_result}
use trimetry.Runner.Types.{TrialSpec}
use trimetry.Runner.Outcome.{apply_outcome}
use trimetry.Runner.Outcome.Commands.{apply_outcome-command_status}
use trimetry.Runner.Attempts.First.{IsFirst}
use trimetry.Runner.Trial.{try_trial, run_trial}
use trimetry.Runner.Trial.Verdict.{context_of, try_trial-IsFirst, run_trial-negative_retries}
use trimetry.Runner.Expand.{new_spec, expand_trials}
use trimetry.Runner.Expand.Positions.{get_elem?-expand_trials}
use trimetry.Runner.Pool.{
  waiting, busy, Pool, start_pool, capacity, Step, acquire, Reach, here, next,
}
use trimetry.Runner.Pool.Places.{
  PlacesKept, remaining, is_done, Reach-PlacesKept, Reach-goes_on, step-remaining,
}
use trimetry.Runner.Pool.Results.{Matches, Reach-Matches}
use trimetry.Config.Defaults.{apply_defaults, benchmark_defaults, or_positive}
use trimetry.Runner.Configured.{apply_defaults-goes_on}
use trimetry.Tests.Sample.{
  config, natural_ops, reasons, scenario, sonnet, trial, spec, executor, surroundings,
}

abbrev two_specs : List (TrialSpec ℕ)
two_specs = spec ∷ spec ∷ []

abbrev one_busy : Pool ℕ
one_busy = record { slots = busy spec ∷ waiting spec ∷ []; held = 1; cancelled = false }

first_step : Step natural_ops reasons (executor (pos 1)) (start_pool two_specs) one_busy
unfolding start_pool capacity
first_step = acquire (start_pool two_specs) 0 spec refl (omega arith)

one_reached : Reach natural_ops reasons (executor (pos 1)) (start_pool two_specs) one_busy
one_reached =
    next (start_pool two_specs) (start_pool two_specs) one_busy (here (start_pool two_specs))
      first_step

Reach-Matches_example : Matches natural_ops reasons (executor (pos 1)) two_specs one_busy.slots
Reach-Matches_example =
    Reach-Matches natural_ops reasons (executor (pos 1)) two_specs one_busy one_reached

Reach-PlacesKept_example : PlacesKept (capacity (executor (pos 1))) one_busy
Reach-PlacesKept_example =
    Reach-PlacesKept natural_ops reasons (executor (pos 1)) two_specs one_busy one_reached

Reach-goes_on_example :
    (all is_done one_busy.slots ≡ true)
    ⊎ ((q : Pool ℕ) × Step natural_ops reasons (executor (pos 1)) one_busy q
        × (q.cancelled ≡ false))
unfolding capacity
Reach-goes_on_example =
    Reach-goes_on natural_ops reasons (executor (pos 1)) two_specs one_busy surroundings
      (omega arith) one_reached

step-remaining_example : remaining one_busy < remaining (start_pool two_specs)
step-remaining_example =
    step-remaining natural_ops reasons (executor (pos 1)) (start_pool two_specs) one_busy first_step

try_trial-IsFirst_example :
    IsFirst "trial-1" "Say hello"
      (context_of (executor (pos 3)) spec surroundings)
      (pos 3)
      surroundings.answer
      3
      (try_trial (executor (pos 3)) spec surroundings)
try_trial-IsFirst_example = try_trial-IsFirst (executor (pos 3)) spec surroundings 3 refl

run_trial-negative_retries_example :
    ((try_trial (executor (negsuc 0)) spec surroundings).calls ≡ [])
    × ((run_trial natural_ops reasons (executor (negsuc 0)) spec surroundings).0.execution_status
        ≡ ExecutionStatus.failed)
    × ((run_trial natural_ops reasons (executor (negsuc 0)) spec surroundings).0.error_message
        ≡ "adapter returned nil result")
run_trial-negative_retries_example =
    run_trial-negative_retries natural_ops reasons (executor (negsuc 0)) spec surroundings 0 refl

-- A command that a signal ends.
abbrev killed : CommandRun
killed = record {
  stdout = "";
  stderr = "";
  started_at = pos 0;
  finished_at = pos 1;
  outcome = failed false (exit_error (negsuc 0));
  timeout_after = λ t. "timeout";
  exit_code_text = λ c s. "exit";
}

apply_outcome-command_status_example :
    (let (result, err) = to_execution_result (run_cli killed (pos 60)) no_output in
      (apply_outcome trial (some result) err).execution_status)
    ≡ ExecutionStatus.timeout
apply_outcome-command_status_example = apply_outcome-command_status trial killed (pos 60) no_output

get_elem?-expand_trials_example :
    get_elem? (expand_trials (λ n. "id") "run-1" (scenario ∷ []) (sonnet ∷ []) (pos 3)) 2
    ≡ some (new_spec (λ n. "id") "run-1" scenario sonnet 3 2)
get_elem?-expand_trials_example =
    get_elem?-expand_trials (λ n. "id") "run-1" (scenario ∷ []) scenario (sonnet ∷ []) sonnet 3 0 0
      2 refl refl (omega arith)

apply_defaults-goes_on_example :
    (all is_done one_busy.slots ≡ true)
    ⊎ ((q : Pool ℕ) × Step natural_ops reasons (executor (pos 1)) one_busy q
        × (q.cancelled ≡ false))
unfolding apply_defaults benchmark_defaults or_positive
apply_defaults-goes_on_example =
    apply_defaults-goes_on natural_ops reasons (executor (pos 1)) (λ name. "") config two_specs
      one_busy surroundings refl one_reached
