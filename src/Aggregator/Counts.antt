-- ===== src/Aggregator/Counts.antt =====
-- What is counted of trials, by internal/model/helpers.go and internal/aggregator/aggregator.go.
use trimetry.Base.{
  ℕ, suc, ◌+◌, ◌≡◌, refl, sym, ◌≤◌, inl, inr, Bool, true, false, Bool-cases, ltb, List, [], ◌∷◌,
  length, take, take_all, all, arith,
}
use trimetry.Model.Trial.{ExecutionStatus, Trial}
use trimetry.Model.Status.{StatusCounts, count_status, count_from, count_trial_statuses, no_counts}
use trimetry.Aggregator.Summarize.{all_calls, max_tool_calls, collect_tool_calls}

abbrev total : StatusCounts → ℕ
total c = c.completed + c.failed + c.timeout + c.cancelled

abbrev pub is_finished : ExecutionStatus → Bool
is_finished ExecutionStatus.pending = false
is_finished ExecutionStatus.running = false
is_finished _ = true

count_status-total :
    (s : ExecutionStatus) (c : StatusCounts)
    → is_finished s ≡ true
    → total (count_status s c) ≡ suc (total c)
unfolding count_status
count_status-total ExecutionStatus.pending c h = cc
count_status-total ExecutionStatus.running c h = cc
count_status-total ExecutionStatus.completed c h = omega arith
count_status-total ExecutionStatus.failed c h = omega arith
count_status-total ExecutionStatus.timeout c h = omega arith
count_status-total ExecutionStatus.cancelled c h = omega arith

module _ {F : Type 0} where
  -- Each trial has come to an end.
  abbrev pub AllFinished : List (Trial F) → Type 0
  AllFinished ts = all (λ t. is_finished t.execution_status) ts ≡ true

  head_finished :
      (t : Trial F) (ts : List (Trial F))
      → AllFinished (t ∷ ts)
      → is_finished t.execution_status ≡ true
  head_finished t ts h = elim (Bool-cases (is_finished t.execution_status)) [
    | inl e ↦ e
    | inr e ↦ cc
  ]

  tail_finished : (t : Trial F) (ts : List (Trial F)) → AllFinished (t ∷ ts) → AllFinished ts
  tail_finished t ts h = rw (head_finished t ts h) at h

  count_from-total :
      (c : StatusCounts) (ts : List (Trial F))
      → AllFinished ts
      → total (count_from c ts) ≡ total c + length ts
  unfolding count_from
  count_from-total c [] h = omega arith
  count_from-total c (t ∷ ts) h =
      let one = count_status-total t.execution_status c (head_finished t ts h) in
      let rest = count_from-total (count_status t.execution_status c) ts (tail_finished t ts h) in
      omega arith

  -- Of trials that have all come to an end, each is counted under one status.
  pub count_trial_statuses-total :
      (ts : List (Trial F))
      → AllFinished ts
      → (let c = count_trial_statuses ts in c.completed + c.failed + c.timeout + c.cancelled)
        ≡ length ts
  unfolding count_trial_statuses
  count_trial_statuses-total ts h = let counted = count_from-total no_counts ts h in omega arith

  -- A summary has the first fifty of the tools that its trials called.
  pub collect_tool_calls-take :
      (ts : List (Trial F)) → collect_tool_calls ts ≡ take max_tool_calls (all_calls ts)
  unfolding collect_tool_calls
  collect_tool_calls-take ts = elim (Bool-cases (ltb max_tool_calls (length (all_calls ts)))) [
    | inl e ↦ rw e refl
    | inr e ↦
        rw e (sym (take_all max_tool_calls (all_calls ts) (not_more (length (all_calls ts)) e)))
  ]
    where
      not_more : (n : ℕ) → ltb max_tool_calls n ≡ false → n ≤ max_tool_calls
      not_more n h = ground arith
