-- ===== src/Model/Status.antt =====
-- internal/model/helpers.go and key.go.
use Prim.Native.String.{◌++◌ as str_append}
use trimetry.Base.{ℕ, ◌+◌, String, Bool, true, false, List, [], ◌∷◌, if◌then◌else◌}
use trimetry.Model.Trial.{ExecutionStatus, Trial}

pub record StatusCounts : Type 0 where
  pub completed : ℕ
  pub failed : ℕ
  pub timeout : ℕ
  pub cancelled : ℕ

abbrev pub no_counts : StatusCounts
no_counts = record { completed = 0; failed = 0; timeout = 0; cancelled = 0 }

-- The `switch` of the loop.
unfoldable pub count_status : ExecutionStatus → StatusCounts → StatusCounts
count_status ExecutionStatus.completed c = record c { completed = c.completed + 1 }
count_status ExecutionStatus.failed c = record c { failed = c.failed + 1 }
count_status ExecutionStatus.timeout c = record c { timeout = c.timeout + 1 }
count_status ExecutionStatus.cancelled c = record c { cancelled = c.cancelled + 1 }
count_status _ c = c

module _ {F : Type 0} where
  unfoldable pub count_from : StatusCounts → List (Trial F) → StatusCounts
  unfolding count_status
  count_from c [] = c
  count_from c (t ∷ ts) = count_from (count_status t.execution_status c) ts

  unfoldable pub count_trial_statuses : List (Trial F) → StatusCounts
  unfolding count_from
  count_trial_statuses ts = count_from no_counts ts

-- t.ExecutionStatus == ExecStatusCompleted
unfoldable pub is_completed : ExecutionStatus → Bool
is_completed ExecutionStatus.completed = true
is_completed _ = false

-- The loop that returns at the first trial that has not completed.
unfoldable pub has_failed_trials : {F : Type 0} → List (Trial F) → Bool
unfolding is_completed
has_failed_trials [] = false
has_failed_trials (t ∷ ts) = if is_completed t.execution_status then has_failed_trials ts else true

-- fmt.Sprintf("%s/%s", scenarioID, modelName)
unfoldable pub scenario_model_key : String → String → String
scenario_model_key scenario_id model_name = str_append (str_append scenario_id "/") model_name
