-- ===== src/Runner/Pool/Places.antt =====
-- The semaphore of RunTrials (internal/runner/executor.go): how many trials run, and that all come to an end.
use trimetry.Base.{
  ℕ, zero, suc, ◌+◌, ◌≡◌, refl, ap, ◌≤◌, ◌<◌, ◌⊎◌, inl, inr, Bool, true, false, none, some, List,
  [], ◌∷◌, get_elem?, set, all, map, arith, if◌then◌else◌,
}
use trimetry.Base.Float.{FloatOps}
use trimetry.Evaluator.{Reasons}
use trimetry.Runner.Types.{TrialSpec, Executor, Surroundings}
use trimetry.Runner.Trial.{run_trial}
use trimetry.Runner.Pool.{
  Slot, waiting, busy, done, Pool, start_pool, capacity, cancelled_trial, Step, acquire, give_up,
  finish, cancel, Reach, here, next,
}

module _ {F : Type 0} where
  abbrev weigh : (Slot F → ℕ) → List (Slot F) → ℕ
  weigh w [] = 0
  weigh w (s ∷ ss) = w s + weigh w ss

  weigh-set :
      (w : Slot F → ℕ) (ss : List (Slot F)) (i : ℕ) (s s' : Slot F)
      → get_elem? ss i ≡ some s
      → weigh w (set ss i s') + w s ≡ weigh w ss + w s'
  weigh-set w [] i s s' h = cc
  weigh-set w (t ∷ ss) zero s s' h =
      let e : w t ≡ w s = ap (λ o. elim o [ none ↦ 0 | some x ↦ w x ]) h in omega arith
  weigh-set w (t ∷ ss) (suc i) s s' h = let rest = weigh-set w ss i s s' h in omega arith

  abbrev running_weight : Slot F → ℕ
  running_weight (busy s) = 1
  running_weight _ = 0

  -- How many trials hold a place.
  unfoldable pub running : List (Slot F) → ℕ
  running ss = weigh running_weight ss

  abbrev left_weight : Slot F → ℕ
  left_weight (waiting s) = 2
  left_weight (busy s) = 1
  left_weight (done t) = 0

  -- How many steps there can still be.
  unfoldable pub remaining : Pool F → ℕ
  remaining p = weigh left_weight p.slots + (if p.cancelled then 0 else 1)

  running-waiting : (specs : List (TrialSpec F)) → running (map waiting specs) ≡ 0
  unfolding running
  running-waiting [] = refl
  running-waiting (s ∷ ss) = let rest = running-waiting ss in omega arith

  pub record PlacesKept (limit : ℕ) (p : Pool F) : Type 0 where
    pub counted : running p.slots ≡ p.held
    pub bounded : p.held ≤ limit

  abbrev pub is_done : Slot F → Bool
  is_done (done t) = true
  is_done _ = false

  -- A slot that is busy, or else one that waits while nothing runs, or else nothing is left.
  data Found (ss : List (Slot F)) : Type 0 where
    a_busy : (i : ℕ) (s : TrialSpec F) → get_elem? ss i ≡ some (busy s) → Found ss
    a_waiting :
        (i : ℕ) (s : TrialSpec F) → get_elem? ss i ≡ some (waiting s) → running ss ≡ 0 → Found ss
    all_done : all is_done ss ≡ true → Found ss

  all_done-running : (ss : List (Slot F)) → all is_done ss ≡ true → running ss ≡ 0
  unfolding running
  all_done-running [] h = refl
  all_done-running (waiting s ∷ ss) h = cc
  all_done-running (busy s ∷ ss) h = cc
  all_done-running (done t ∷ ss) h = let rest = all_done-running ss h in omega arith

  find_slot : (ss : List (Slot F)) → Found ss
  unfolding running
  find_slot [] = all_done refl
  find_slot (busy s ∷ ss) = a_busy 0 s refl
  find_slot (waiting s ∷ ss) = elim (find_slot ss) [
    | a_busy i t h ↦ a_busy (suc i) t h
    | a_waiting i t h none_run ↦ a_waiting 0 s refl (omega arith)
    | all_done h ↦ let none_run = all_done-running ss h in a_waiting 0 s refl (omega arith)
  ]
  find_slot (done t ∷ ss) = elim (find_slot ss) [
    | a_busy i s h ↦ a_busy (suc i) s h
    | a_waiting i s h none_run ↦ a_waiting (suc i) s h (omega arith)
    | all_done h ↦ all_done h
  ]

module _ (ops : FloatOps) (reasons : Reasons) (e : Executor) where
  step-PlacesKept :
      (p q : Pool ops.Float)
      → Step ops reasons e p q
      → PlacesKept (capacity e) p
      → PlacesKept (capacity e) q
  unfolding running
  step-PlacesKept p q (acquire _ idx s at_idx free) h =
      let moved = weigh-set running_weight p.slots idx (waiting s) (busy s) at_idx in
      let c = h.counted in record { counted = omega arith; bounded = omega arith }
  step-PlacesKept p q (give_up _ idx s at_idx c) h =
      let moved =
        weigh-set running_weight p.slots idx (waiting s) (done (cancelled_trial s)) at_idx in
      let c = h.counted in record { counted = omega arith; bounded = h.bounded }
  step-PlacesKept p q (finish _ idx s w at_idx) h =
      let moved =
        weigh-set running_weight p.slots idx (busy s) (done (run_trial ops reasons e s w).0)
          at_idx in
      let c = h.counted in
      let b = h.bounded in record { counted = omega arith; bounded = omega arith }
  step-PlacesKept p q (cancel _ c) h = record { counted = h.counted; bounded = h.bounded }

  steps-PlacesKept :
      (p q : Pool ops.Float)
      → Reach ops reasons e p q
      → PlacesKept (capacity e) p
      → PlacesKept (capacity e) q
  steps-PlacesKept p _ (here _) h = h
  steps-PlacesKept p r (next _ q _ reached s) h =
      step-PlacesKept q r s (steps-PlacesKept p q reached h)

  -- Whatever the order of the steps, the trials that hold a place are those that run, and there are
  -- never more of them than the executor's concurrency.
  pub Reach-PlacesKept :
      (specs : List (TrialSpec ops.Float)) (p : Pool ops.Float)
      → Reach ops reasons e (start_pool specs) p
      → PlacesKept (capacity e) p
  unfolding start_pool
  Reach-PlacesKept specs p r =
      steps-PlacesKept (start_pool specs) p r
        (record { counted = running-waiting specs; bounded = omega arith })

  -- Each step leaves fewer steps, so that no order of the steps goes on for ever.
  pub step-remaining : (p q : Pool ops.Float) → Step ops reasons e p q → remaining q < remaining p
  unfolding remaining
  step-remaining p q (acquire _ idx s at_idx free) =
      let moved = weigh-set left_weight p.slots idx (waiting s) (busy s) at_idx in omega arith
  step-remaining p q (give_up _ idx s at_idx c) =
      let moved = weigh-set left_weight p.slots idx (waiting s) (done (cancelled_trial s)) at_idx in
      omega arith
  step-remaining p q (finish _ idx s w at_idx) =
      let moved =
        weigh-set left_weight p.slots idx (busy s) (done (run_trial ops reasons e s w).0) at_idx in
      omega arith
  step-remaining p q (cancel _ c) = rw c (omega arith)

  -- With a concurrency of at least one nothing is stuck: until every goroutine has written its
  -- result, and whatever the adapter then answers, one of them can go on.
  pub Reach-goes_on :
      (specs : List (TrialSpec ops.Float)) (p : Pool ops.Float) (w : Surroundings ops.Float)
      → 0 < capacity e
      → Reach ops reasons e (start_pool specs) p
      → (all is_done p.slots ≡ true)
        ⊎ ((q : Pool ops.Float) × Step ops reasons e p q × (q.cancelled ≡ p.cancelled))
  Reach-goes_on specs p w room r = elim (find_slot p.slots) [
    | a_busy i s h ↦ inr (_, finish p i s w h, refl)
    | a_waiting i s h none_run ↦
        let kept = Reach-PlacesKept specs p r in
        let c = kept.counted in inr (_, acquire p i s h (omega arith), refl)
    | all_done h ↦ inl h
  ]
