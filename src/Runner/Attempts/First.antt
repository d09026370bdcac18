-- ===== src/Runner/Attempts/First.antt =====
-- Which attempt of runTrial's loop (internal/runner/executor.go) counts, and what was called until then.
use trimetry.Base.{
  ℕ, zero, suc, ◌+◌, ◌≡◌, refl, ◌≤◌, ◌<◌, ◌⊎◌, inl, inr, String, true, false, Bool-cases,
  lt_suc-cases, sym, List, [], ◌∷◌, ◌++◌, append_assoc, ltb, lt→ltb, arith, if◌then◌else◌,
}
use trimetry.Base.Int.{ℤ}
use trimetry.Adapter.Types.{ExecutionContext}
use trimetry.Runner.Types.{Answer, Call, on_retry, execute}
use trimetry.Runner.Attempts.{Attempted, attempts, attempt_once, retry_calls, not_attempted, stops}

module _ {F : Type 0} (trial_id input : String) (context : ExecutionContext) (retries : ℤ)
    (answer : ℕ → Answer F) where
  -- The calls of the attempts before the given one.
  abbrev pub expected_calls : ℕ → List (Call F)
  expected_calls zero = []
  expected_calls (suc zero) = execute input context ∷ []
  expected_calls (suc (suc n)) =
      expected_calls (suc n) ++ on_retry trial_id (suc n) retries ∷ execute input context ∷ []

  -- The outcome is that of attempt number `retry_count`, the first that ends the loop, or the last.
  pub record IsFirst (last : ℕ) (s : Attempted F) : Type 0 where
    pub bounded : s.retry_count ≤ last
    pub from_answer :
        (s.result ≡ (answer s.retry_count).result) × (s.exec_err ≡ (answer s.retry_count).exec_err)
    pub none_before : (j : ℕ) → j < s.retry_count → stops (answer j) ≡ false
    pub stopped : (stops (answer s.retry_count) ≡ true) ⊎ (s.retry_count ≡ last)
    pub called : s.calls ≡ expected_calls (suc s.retry_count)

  -- The state before an attempt: the calls of those before it, which have all failed.
  record Before (attempt : ℕ) (s : Attempted F) : Type 0 where
    counted : (if ltb 0 attempt then s.retry_count + 1 else s.retry_count) ≡ attempt
    called : s.calls ≡ expected_calls attempt
    failed : (j : ℕ) → j < attempt → stops (answer j) ≡ false

  abbrev once : ℕ → Attempted F → Attempted F
  once = attempt_once trial_id input context retries answer

  once-calls :
      (attempt : ℕ) (s : Attempted F)
      → s.calls ≡ expected_calls attempt
      → (once attempt s).calls ≡ expected_calls (suc attempt)
  unfolding attempt_once retry_calls
  once-calls zero s h = rw h refl
  once-calls (suc n) s h = rw (h, append_assoc) refl

  once-retry_count :
      (attempt : ℕ) (s : Attempted F) → Before attempt s → (once attempt s).retry_count ≡ attempt
  unfolding attempt_once
  once-retry_count attempt s h = h.counted

  -- The attempt that ends the loop.
  once-IsFirst :
      (attempt last : ℕ) (s : Attempted F)
      → attempt ≤ last
      → (stops (answer attempt) ≡ true) ⊎ (attempt ≡ last)
      → Before attempt s
      → IsFirst last (once attempt s)
  unfolding attempt_once
  once-IsFirst attempt last s le ends h = rw h.counted (record {
    bounded = le;
    from_answer = (refl, refl);
    none_before = h.failed;
    stopped = ends;
    called = once-calls attempt s h.called;
  })

  once-Before :
      (attempt : ℕ) (s : Attempted F)
      → stops (answer attempt) ≡ false
      → Before attempt s
      → Before (suc attempt) (once attempt s)
  once-Before attempt s goes_on h =
      let e = once-retry_count attempt s h in
      record {
        counted = rw (lt→ltb 0 (suc attempt) (omega arith)) (omega arith);
        called = once-calls attempt s h.called;
        failed = λ j below. elim (lt_suc-cases j attempt below) [
          | inl same ↦ rw same goes_on
          | inr before ↦ h.failed j before
        ];
      }

  attempts-IsFirst :
      (left attempt : ℕ) (s : Attempted F)
      → Before attempt s
      → IsFirst
          (attempt + left)
          (attempts trial_id input context retries answer (suc left) attempt s)
  unfolding attempts
  attempts-IsFirst zero attempt s h = elim (Bool-cases (stops (answer attempt))) [
    | inl e ↦ rw e (once-IsFirst attempt (attempt + 0) s (omega arith) (inl e) h)
    | inr e ↦ rw e (once-IsFirst attempt (attempt + 0) s (omega arith) (inr (omega arith)) h)
  ]
  attempts-IsFirst (suc left) attempt s h = elim (Bool-cases (stops (answer attempt))) [
    | inl e ↦ rw e (once-IsFirst attempt (attempt + suc left) s (omega arith) (inl e) h)
    | inr e ↦
        let same : suc attempt + left ≡ attempt + suc left = omega arith in
        rw (e, sym same)
          (attempts-IsFirst left (suc attempt) (once attempt s) (once-Before attempt s e h))
  ]

  pub attempts_from_zero :
      (n : ℕ) → IsFirst n (attempts trial_id input context retries answer (suc n) 0 not_attempted)
  attempts_from_zero n =
      let start : Before 0 not_attempted = record {
        counted = refl;
        called = refl;
        failed = λ j below. ground arith;
      } in
      let e : 0 + n ≡ n = omega arith in rw e at (attempts-IsFirst n 0 not_attempted start)
