-- ===== src/Runner/Pool/Results.antt =====
-- What RunTrials (internal/runner/executor.go) returns: for each trial its own result, in its own place.
use trimetry.Base.{ℕ, zero, suc, ◌≡◌, refl, sym, ap, none, some, List, [], ◌∷◌, get_elem?, set, map}
use trimetry.Base.Float.{FloatOps}
use trimetry.Model.Trial.{Trial}
use trimetry.Evaluator.{Reasons}
use trimetry.Runner.Types.{TrialSpec, Executor, Surroundings}
use trimetry.Runner.Trial.{run_trial}
use trimetry.Runner.Pool.{
  Slot, waiting, busy, done, Pool, start_pool, cancelled_trial, Step, acquire, give_up, finish,
  cancel, Reach, here, next,
}

module _ (ops : FloatOps) (reasons : Reasons) (e : Executor) where
  -- A result of a trial: it was run, or it was cancelled while it waited.
  pub data ResultOf (s : TrialSpec ops.Float) : Trial ops.Float → Type 0 where
    was_run : (w : Surroundings ops.Float) → ResultOf s (run_trial ops reasons e s w).0
    was_cancelled : ResultOf s (cancelled_trial s)

  abbrev pub Serves : TrialSpec ops.Float → Slot ops.Float → Type 0
  Serves s (waiting t) = t ≡ s
  Serves s (busy t) = t ≡ s
  Serves s (done t) = ResultOf s t

  -- The slots stand for the trials one by one, in their order.
  pub data Matches : List (TrialSpec ops.Float) → List (Slot ops.Float) → Type 0 where
    none_left : Matches [] []
    and_then :
        (s : TrialSpec ops.Float) (t : Slot ops.Float) (ss : List (TrialSpec ops.Float))
        (ts : List (Slot ops.Float))
        → Serves s t
        → Matches ss ts
        → Matches (s ∷ ss) (t ∷ ts)

  Matches-set :
      (ss : List (TrialSpec ops.Float)) (ts : List (Slot ops.Float)) (i : ℕ) (t t' : Slot ops.Float)
      → get_elem? ts i ≡ some t
      → ((s : TrialSpec ops.Float) → Serves s t → Serves s t')
      → Matches ss ts
      → Matches ss (set ts i t')
  Matches-set _ _ i t t' h f none_left = none_left
  Matches-set _ _ zero t t' h f (and_then s u ss ts served rest) =
      let e : u ≡ t = ap (λ o. elim o [ none ↦ u | some x ↦ x ]) h in
      and_then s t' ss ts (f s (rw (sym e) served)) rest
  Matches-set _ _ (suc i) t t' h f (and_then s u ss ts served rest) =
      and_then s u ss (set ts i t') served (Matches-set ss ts i t t' h f rest)

  step-Matches :
      (specs : List (TrialSpec ops.Float)) (p q : Pool ops.Float)
      → Step ops reasons e p q
      → Matches specs p.slots
      → Matches specs q.slots
  step-Matches specs p _ (acquire _ idx s h free) m =
      Matches-set specs p.slots idx (waiting s) (busy s) h (λ t served. served) m
  step-Matches specs p _ (give_up _ idx s h c) m =
      Matches-set specs p.slots idx (waiting s) (done (cancelled_trial s)) h
        (λ t served. rw served was_cancelled) m
  step-Matches specs p _ (finish _ idx s w h) m =
      Matches-set specs p.slots idx (busy s) (done (run_trial ops reasons e s w).0) h
        (λ t served. rw served (was_run w)) m
  step-Matches specs p _ (cancel _ c) m = m

  start-Matches : (specs : List (TrialSpec ops.Float)) → Matches specs (map waiting specs)
  start-Matches [] = none_left
  start-Matches (s ∷ ss) = and_then s (waiting s) ss (map waiting ss) refl (start-Matches ss)

  steps-Matches :
      (specs : List (TrialSpec ops.Float)) (p q : Pool ops.Float)
      → Reach ops reasons e p q
      → Matches specs p.slots
      → Matches specs q.slots
  steps-Matches specs p _ (here _) m = m
  steps-Matches specs p r (next _ q _ reached s) m =
      step-Matches specs q r s (steps-Matches specs p q reached m)

  -- Whatever the order of the steps, there is one place for each trial, and what stands there as
  -- its result is the trial as it was run, or the trial marked as cancelled.
  pub Reach-Matches :
      (specs : List (TrialSpec ops.Float)) (p : Pool ops.Float)
      → Reach ops reasons e (start_pool specs) p
      → Matches specs p.slots
  unfolding start_pool
  Reach-Matches specs p r = steps-Matches specs (start_pool specs) p r (start-Matches specs)
