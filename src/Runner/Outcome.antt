-- ===== src/Runner/Outcome.antt =====
-- internal/runner/executor.go: applyOutcome, and what it makes of the commands of internal/adapter/base.go.
pub mod Commands
use trimetry.Base.{ℕ, String, Bool, true, false, Option, none, some, ◌≡◌, refl, ◌↔◌, if◌then◌else◌}
use trimetry.Base.Int.{ℤ, pos, negsuc, eqb_ℤ}
use trimetry.Model.Trial.{Trial, ExecutionStatus, ErrorType}
use trimetry.Adapter.Types.{ExecutionResult, ParsedOutput}
use trimetry.Adapter.Exec.{
  CommandRun, RunOutcome, succeeded, failed, Failure, exit_error, other_error, run_cli,
  to_execution_result,
}

module _ {F : Type 0} where
  fail_with : ErrorType → ExecutionStatus → String → Trial F → Trial F
  fail_with kind status message t = record t {
    execution_status = status;
    error_type = some kind;
    error_message = message;
  }

  of_result : ExecutionResult F → Option String → Trial F → Trial F
  unfolding fail_with
  of_result r none t = record t { execution_status = ExecutionStatus.completed; output = r.output }
  of_result r (some message) t =
      if eqb_ℤ r.exit_code (negsuc 0)
      then fail_with ErrorType.timeout ExecutionStatus.timeout message t
      else fail_with ErrorType.application ExecutionStatus.failed message t

  unfoldable pub apply_outcome : Trial F → Option (ExecutionResult F) → Option String → Trial F
  unfolding fail_with of_result
  apply_outcome t result (some err) = fail_with ErrorType.application ExecutionStatus.failed err t
  apply_outcome t none none =
      fail_with ErrorType.application ExecutionStatus.failed "adapter returned nil result" t
  apply_outcome t (some r) none = of_result r r.error t
