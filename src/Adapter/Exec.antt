-- ===== src/Adapter/Exec.antt =====
-- internal/adapter/base.go: a command is run to its end or its timeout, and the outcome is recorded.
use Prim.Native.String.{◌++◌ as str_append}
use trimetry.Base.{◌*◌, String, Bool, true, false, not, ◌||◌, Option, none, some, if◌then◌else◌}
use trimetry.Base.Int.{ℤ, pos, negsuc, pos_part, neg_part, positive, wrap64, eqb_ℤ}
use trimetry.Base.Clock.{Time}
use trimetry.Adapter.Types.{ExecutionResult, ParsedOutput, RawExecResult}

-- `cmd.Run()`: an `*exec.ExitError` has an exit code, which is -1 for a process that a signal ended.
pub data Failure : Type 0 where
  exit_error : (exit_code : ℤ) → Failure
  other_error : (message : String) → Failure

pub data RunOutcome : Type 0 where
  succeeded : RunOutcome
  failed : (deadline_exceeded : Bool) → Failure → RunOutcome

-- What the system reports of a command, and the texts that `fmt` makes of the numbers in errors.
pub record CommandRun : Type 0 where
  pub stdout : String
  pub stderr : String
  pub started_at : Time
  pub finished_at : Time
  pub outcome : RunOutcome
  pub timeout_after : ℤ → String
  pub exit_code_text : ℤ → String → String

-- `time.Duration(seconds) * time.Second`, or five minutes if that is not positive.
unfoldable pub timeout_of : ℤ → ℤ
timeout_of seconds =
    let timeout = wrap64 (pos_part seconds * 1_000_000_000) (neg_part seconds * 1_000_000_000) in
    if positive timeout then timeout else pos 300_000_000_000

-- The fields that depend on the error: whether it is a timeout, the exit code, and the error.
failure_fields : CommandRun → ℤ → Bool → Failure → Bool × ℤ × String
failure_fields run timeout true failure = (true, negsuc 0, run.timeout_after timeout)
failure_fields run timeout false (exit_error exit_code) =
    (false, exit_code, run.exit_code_text exit_code run.stderr)
failure_fields run timeout false (other_error message) = (false, pos 0, message)

abbrev raw_result : CommandRun → ℤ → Bool → ℤ → Option String → RawExecResult
raw_result run timeout timed_out exit_code err = record {
  stdout = run.stdout;
  stderr = run.stderr;
  started_at = run.started_at;
  finished_at = run.finished_at;
  exit_code = exit_code;
  err = err;
  timed_out = timed_out;
  timeout = timeout;
}

run_cli_outcome : CommandRun → ℤ → RunOutcome → RawExecResult
unfolding failure_fields
run_cli_outcome run timeout succeeded = raw_result run timeout false (pos 0) none
run_cli_outcome run timeout (failed deadline_exceeded failure) =
    let (timed_out, exit_code, err) = failure_fields run timeout deadline_exceeded failure in
    raw_result run timeout timed_out exit_code (some err)

unfoldable pub run_cli : CommandRun → (timeout_seconds : ℤ) → RawExecResult
unfolding run_cli_outcome timeout_of
run_cli run timeout_seconds = run_cli_outcome run (timeout_of timeout_seconds) run.outcome

module _ {F : Type 0} where
  abbrev pub result_of : RawExecResult → ParsedOutput F → Option String → ExecutionResult F
  result_of raw parsed error = record {
    output = parsed.text;
    started_at = raw.started_at;
    finished_at = raw.finished_at;
    exit_code = raw.exit_code;
    stderr = raw.stderr;
    error = error;
    tokens = parsed.tokens;
    steps = parsed.steps;
    ttft_ms = parsed.ttft_ms;
    cost_usd = parsed.cost_usd;
    session_id = parsed.session_id;
  }

  classify : RawExecResult → ParsedOutput F → Option String → ExecutionResult F × Option String
  classify raw parsed none = (result_of raw parsed none, none)
  classify raw parsed (some err) =
      if raw.timed_out || not (eqb_ℤ raw.exit_code (pos 0))
      then (result_of raw parsed (some err), none)
      else (result_of raw parsed none, some (str_append "exec: " err))

  -- The second part is the error that goes back beside the result.
  unfoldable pub to_execution_result :
      RawExecResult → ParsedOutput F → ExecutionResult F × Option String
  unfolding classify
  to_execution_result raw parsed = classify raw parsed raw.err
