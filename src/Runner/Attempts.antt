-- ===== src/Runner/Attempts.antt =====
-- internal/runner/executor.go: the loop of runTrial that executes a trial and retries it.
pub mod First
use trimetry.Base.{
  ℕ, zero, suc, ◌+◌, Bool, true, false, ◌&&◌, ◌||◌, String, Option, none, some, is_none, List, [],
  ◌∷◌, ◌++◌, ltb, if◌then◌else◌,
}
use trimetry.Base.Int.{ℤ, pos, negsuc}
use trimetry.Adapter.Types.{ExecutionResult, ExecutionContext}
use trimetry.Runner.Types.{Answer, Call, on_retry, execute}

pub record Attempted (F : Type 0) : Type 0 where
  pub result : Option (ExecutionResult F)
  pub exec_err : Option String
  pub retry_count : ℕ
  pub calls : List (Call F)

-- The values of `attempt` from 0 that are at most `e.Retries`.
abbrev pub most_attempts : ℤ → ℕ
most_attempts (pos n) = suc n
most_attempts (negsuc n) = 0

module _ {F : Type 0} where
  -- result != nil && result.Error == nil
  abbrev pub without_error : Option (ExecutionResult F) → Bool
  without_error none = false
  without_error (some r) = is_none r.error

  unfoldable pub succeeds : Answer F → Bool
  succeeds a = is_none a.exec_err && without_error a.result

  -- One of the two `break`s.
  unfoldable pub stops : Answer F → Bool
  unfolding succeeds
  stops a = succeeds a || a.ctx_err

  abbrev pub not_attempted : Attempted F
  not_attempted = record { result = none; exec_err = none; retry_count = 0; calls = [] }

  module _ (trial_id input : String) (context : ExecutionContext) (retries : ℤ)
      (answer : ℕ → Answer F) where
    unfoldable pub retry_calls : ℕ → List (Call F)
    retry_calls zero = []
    retry_calls (suc n) = on_retry trial_id (suc n) retries ∷ []

    unfoldable pub attempt_once : ℕ → Attempted F → Attempted F
    unfolding retry_calls
    attempt_once attempt s = record {
      result = (answer attempt).result;
      exec_err = (answer attempt).exec_err;
      retry_count = if ltb 0 attempt then s.retry_count + 1 else s.retry_count;
      calls = s.calls ++ retry_calls attempt ++ execute input context ∷ [];
    }

    unfoldable pub attempts : (left attempt : ℕ) → Attempted F → Attempted F
    attempts zero attempt s = s
    attempts (suc left) attempt s =
        let s' = attempt_once attempt s in
        let rest = attempts left (suc attempt) s' in if stops (answer attempt) then s' else rest
