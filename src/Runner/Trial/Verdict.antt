-- ===== src/Runner/Trial/Verdict.antt =====
-- What runTrial (internal/runner/executor.go) returns, told from the answers of the adapter alone.
use trimetry.Base.{ℕ, suc, ◌≡◌, refl, ap, ◌∙◌, ◌&&◌, is_none, some, []}
use trimetry.Base.Int.{pos, negsuc}
use trimetry.Base.Float.{FloatOps}
use trimetry.Model.Trial.{ExecutionStatus}
use trimetry.Model.Status.{is_completed}
use trimetry.Adapter.Types.{ExecutionContext}
use trimetry.Evaluator.{Reasons}
use trimetry.Runner.Types.{TrialSpec, Executor, Surroundings}
use trimetry.Runner.Outcome.{apply_outcome}
use trimetry.Runner.Outcome.Commands.{apply_outcome-is_completed}
use trimetry.Runner.Attempts.{Attempted, attempts, most_attempts, succeeds, without_error}
use trimetry.Runner.Attempts.First.{IsFirst, attempts_from_zero}
use trimetry.Runner.Trial.{build_contexts, begin, try_trial, conclude, run_trial}

module _ {F : Type 0} where
  unfoldable pub context_of : Executor → TrialSpec F → Surroundings F → ExecutionContext
  context_of e spec w =
      (build_contexts (begin spec w) spec.input spec.scenario.timeout_seconds e.benchmark_name).1

  -- With retries that are not negative, the attempts go on until one succeeds, the context is cancelled or the retries are used up; the
  -- outcome is that of the last attempt, and the adapter and the retry callback are called as often
  -- as it says.
  pub try_trial-IsFirst :
      (e : Executor) (spec : TrialSpec F) (w : Surroundings F) (n : ℕ)
      → e.retries ≡ pos n
      → IsFirst spec.trial.trial_id spec.input
          (context_of e spec w)
          e.retries
          w.answer
          n
          (try_trial e spec w)
  unfolding try_trial context_of begin build_contexts
  try_trial-IsFirst e spec w n h =
      let most : most_attempts e.retries ≡ suc n = ap most_attempts h in
      rw most (
        attempts_from_zero spec.trial.trial_id spec.input (context_of e spec w) e.retries w.answer
          n)

module _ (ops : FloatOps) (reasons : Reasons) where
  conclude-is_completed :
      (spec : TrialSpec ops.Float) (w : Surroundings ops.Float) (a : Attempted ops.Float)
      → is_completed (conclude ops reasons spec w a).execution_status
        ≡ (is_none a.exec_err && without_error a.result)
  unfolding conclude
  conclude-is_completed spec w a =
      apply_outcome-is_completed (record (begin spec w) { finished_at = some (w.finished_at) })
        a.result a.exec_err

  -- With retries that are not negative, a trial is completed exactly if the attempt that the retry
  -- count names, the last one made, succeeds.
  pub run_trial-is_completed :
      (e : Executor) (spec : TrialSpec ops.Float) (w : Surroundings ops.Float) (n : ℕ)
      → e.retries ≡ pos n
      → is_completed (run_trial ops reasons e spec w).0.execution_status
        ≡ succeeds (w.answer (try_trial e spec w).retry_count)
  unfolding run_trial succeeds
  run_trial-is_completed e spec w n h =
      let first = try_trial-IsFirst e spec w n h in
      conclude-is_completed spec w (try_trial e spec w)
      ∙ ap (λ err. is_none err && without_error (try_trial e spec w).result) first.from_answer.1
      ∙ ap (λ r. is_none (w.answer (try_trial e spec w).retry_count).exec_err && without_error r)
          first.from_answer.0

  -- With negative retries the adapter is never asked, and every trial fails.
  pub run_trial-negative_retries :
      (e : Executor) (spec : TrialSpec ops.Float) (w : Surroundings ops.Float) (n : ℕ)
      → e.retries ≡ negsuc n
      → ((try_trial e spec w).calls ≡ [])
        × ((run_trial ops reasons e spec w).0.execution_status ≡ ExecutionStatus.failed)
        × ((run_trial ops reasons e spec w).0.error_message ≡ "adapter returned nil result")
  unfolding run_trial try_trial conclude apply_outcome attempts
  run_trial-negative_retries e spec w n h =
      let most : most_attempts e.retries ≡ 0 = ap most_attempts h in
      (rw most refl, rw most refl, rw most refl)
