-- ===== src/Runner/Outcome/Commands.antt =====
-- How the end of a command (internal/adapter/base.go) shows in the trial (internal/runner/executor.go).
use trimetry.Base.{
  ℕ, zero, suc, ◌≡◌, refl, ◌&&◌, String, true, false, Bool-cases, inl, inr, Option, none, some,
  is_none, arith,
}
use trimetry.Base.Int.{ℤ, pos, negsuc, eqb_ℤ}
use trimetry.Model.Trial.{Trial, ExecutionStatus}
use trimetry.Model.Status.{is_completed}
use trimetry.Adapter.Types.{ExecutionResult, ParsedOutput}
use trimetry.Adapter.Exec.{
  CommandRun, RunOutcome, succeeded, failed, Failure, exit_error, other_error, run_cli,
  to_execution_result,
}
use trimetry.Runner.Outcome.{apply_outcome}
use trimetry.Runner.Attempts.{without_error}

-- What is recorded of a command that failed before its deadline.
abbrev failure_status : Failure → ExecutionStatus
failure_status (exit_error (negsuc zero)) = ExecutionStatus.timeout
failure_status _ = ExecutionStatus.failed

abbrev command_status : RunOutcome → ExecutionStatus
command_status succeeded = ExecutionStatus.completed
command_status (failed true f) = ExecutionStatus.timeout
command_status (failed false f) = failure_status f

nonzero_code : (n : ℕ) → eqb_ℤ (pos (suc n)) (pos 0) ≡ false
nonzero_code n = ground arith

no_signal : (n : ℕ) → eqb_ℤ (pos (suc n)) (negsuc 0) ≡ false
no_signal n = ground arith

negative_code : (n : ℕ) → eqb_ℤ (negsuc (suc n)) (pos 0) ≡ false
negative_code n = ground arith

other_signal : (n : ℕ) → eqb_ℤ (negsuc (suc n)) (negsuc 0) ≡ false
other_signal n = ground arith

module _ {F : Type 0} where
  -- A trial whose command succeeds is completed, one whose command meets its deadline is a timeout,
  -- and so is one whose command a signal ended, whose exit code is -1; every other failure is failed.
  pub apply_outcome-command_status :
      (t : Trial F) (run : CommandRun) (timeout_seconds : ℤ) (parsed : ParsedOutput F)
      → (let (result, err) = to_execution_result (run_cli run timeout_seconds) parsed in
          (apply_outcome t (some result) err).execution_status)
        ≡ command_status run.outcome
  unfolding apply_outcome run_cli to_execution_result
  apply_outcome-command_status t run timeout_seconds parsed = go run.outcome
    where
      go :
          (o : RunOutcome)
          → (let (result, err) =
                to_execution_result (run_cli (record run { outcome = o }) timeout_seconds) parsed in
              (apply_outcome t (some result) err).execution_status)
            ≡ command_status o
      go succeeded = refl
      go (failed true f) = refl
      go (failed false (other_error m)) = refl
      go (failed false (exit_error (pos zero))) = refl
      go (failed false (exit_error (pos (suc n)))) = rw (nonzero_code n, no_signal n) refl
      go (failed false (exit_error (negsuc zero))) = refl
      go (failed false (exit_error (negsuc (suc n)))) = rw (negative_code n, other_signal n) refl

  pub apply_outcome-is_completed :
      (t : Trial F) (result : Option (ExecutionResult F)) (err : Option String)
      → is_completed (apply_outcome t result err).execution_status
        ≡ (is_none err && without_error result)
  unfolding apply_outcome is_completed
  apply_outcome-is_completed t result (some e) = refl
  apply_outcome-is_completed t none none = refl
  apply_outcome-is_completed t (some r) none = go r.error
    where
      go :
          (e : Option String)
          → is_completed (apply_outcome t (some (record r { error = e })) none).execution_status
            ≡ is_none e
      go none = refl
      go (some m) = elim (Bool-cases (eqb_ℤ r.exit_code (negsuc 0))) [
        | inl e ↦ rw e refl
        | inr e ↦ rw e refl
      ]
