-- ===== src/Runner/Pool.antt =====
-- internal/runner/executor.go: RunTrials, where each trial waits for a place among those that run.
pub mod Places
pub mod Results
use trimetry.Base.{
  ℕ, zero, suc, ◌+◌, ◌-◌, ◌≡◌, ◌<◌, String, Bool, true, false, Option, none, some, List, [], ◌∷◌,
  get_elem?, set, map,
}
use trimetry.Base.Int.{ℤ, pos_part}
use trimetry.Base.Float.{FloatOps}
use trimetry.Model.Trial.{Trial, ExecutionStatus, ErrorType}
use trimetry.Evaluator.{Reasons}
use trimetry.Runner.Types.{TrialSpec, Executor, Surroundings}
use trimetry.Runner.Trial.{run_trial}

-- A goroutine is at its `select`, holds a place in the semaphore, or has written its result.
pub data Slot (F : Type 0) : Type 0 where
  waiting : TrialSpec F → Slot F
  busy : TrialSpec F → Slot F
  done : Trial F → Slot F

-- `held` is the number of values in the channel `sem`.
pub record Pool (F : Type 0) : Type 0 where
  pub slots : List (Slot F)
  pub held : ℕ
  pub cancelled : Bool

unfoldable pub cancelled_trial : {F : Type 0} → TrialSpec F → Trial F
cancelled_trial s = record (s.trial) {
  execution_status = ExecutionStatus.cancelled;
  error_type = some ErrorType.cancelled;
  error_message = "context cancelled";
}

unfoldable pub start_pool : {F : Type 0} → List (TrialSpec F) → Pool F
start_pool specs = record { slots = map waiting specs; held = 0; cancelled = false }

-- The channel's capacity: a negative one panics before any step.
unfoldable pub capacity : Executor → ℕ
capacity e = pos_part e.concurrency

module _ (ops : FloatOps) (reasons : Reasons) (e : Executor) where
  -- The steps of the goroutines, and the cancellation of the context from outside.
  pub data Step : Pool ops.Float → Pool ops.Float → Type 0 where
    acquire :
        (p : Pool ops.Float) (idx : ℕ) (s : TrialSpec ops.Float)
        → get_elem? p.slots idx ≡ some (waiting s)
        → p.held < capacity e
        → Step p (record p { slots = set p.slots idx (busy s); held = p.held + 1 })
    give_up :
        (p : Pool ops.Float) (idx : ℕ) (s : TrialSpec ops.Float)
        → get_elem? p.slots idx ≡ some (waiting s)
        → p.cancelled ≡ true
        → Step p (record p { slots = set p.slots idx (done (cancelled_trial s)) })
    finish :
        (p : Pool ops.Float) (idx : ℕ) (s : TrialSpec ops.Float) (w : Surroundings ops.Float)
        → get_elem? p.slots idx ≡ some (busy s)
        → Step p (record p {
          slots = set p.slots idx (done (run_trial ops reasons e s w).0);
          held = p.held - 1;
        })
    cancel : (p : Pool ops.Float) → p.cancelled ≡ false → Step p (record p { cancelled = true })

  pub data Reach : Pool ops.Float → Pool ops.Float → Type 0 where
    here : (p : Pool ops.Float) → Reach p p
    next : (p q r : Pool ops.Float) → Reach p q → Step q r → Reach p r
