-- ===== src/Evaluator.antt =====
-- internal/evaluator/evaluator.go.
pub mod Verdicts
use Prim.Native.String.{len}
use text.Mathlib.Text.{find?}
use trimetry.Base.{
  ℕ, String, Bool, Option, none, some, List, [], ◌∷◌, ltb, is_some, str_eq, if◌then◌else◌,
}
use trimetry.Base.Int.{pos}
use trimetry.Base.Float.{FloatOps}
use trimetry.Base.Trim.{trim_space}
use trimetry.Model.Value.{end}
use trimetry.Model.Trial.{ExecutionStatus, Scenario, Trial, EvaluationResult}
use trimetry.Model.Status.{is_completed}

-- The texts that `fmt.Sprintf` makes of the values in the reasons.
pub record Reasons : Type 0 where
  pub contains : String → String
  pub does_not_contain : String → String
  pub status : ExecutionStatus → String
  pub output_length : ℕ → String

pub record Accuracy (F : Type 0) : Type 0 where
  pub score : Option F
  pub method : String
  pub reason : String

module _ (ops : FloatOps) (reasons : Reasons) where
  unfoldable pub score_of : Bool → ops.Float
  score_of b = if b then ops.of_int (pos 1) else ops.of_int (pos 0)

  -- The answer to whether the output contains what is expected.
  unfoldable pub contained : String → Bool → Accuracy ops.Float
  unfolding score_of
  contained expected found = record {
    score = some (score_of found);
    method = "contains";
    reason = if found then reasons.contains expected else reasons.does_not_contain expected;
  }

  unfoldable pub evaluate_accuracy : Scenario → String → Accuracy ops.Float
  unfolding contained
  evaluate_accuracy scenario output =
      if str_eq scenario.expected_output ""
      then record { score = none; method = ""; reason = "" }
      else contained scenario.expected_output (is_some (find? output scenario.expected_output))

  unfoldable pub evaluation : String → Option ops.Float → Bool → String → EvaluationResult ops.Float
  evaluation name score passed reason = record {
    evaluator_name = name;
    evaluator_version = "1.0.0";
    score = score;
    label = "";
    passed = some passed;
    reason = reason;
    metadata = end;
  }

  unfoldable pub accuracy_evaluations :
      Option ops.Float → String → List (EvaluationResult ops.Float)
  unfolding evaluation
  accuracy_evaluations none reason = []
  accuracy_evaluations (some a) reason =
      evaluation "accuracy" (some a) (ops.eq a (ops.of_int (pos 1))) reason ∷ []

  unfoldable pub run_evaluations :
      Trial ops.Float
      → (accuracy : Option ops.Float) → (accuracy_reason : String)
      → List (EvaluationResult ops.Float)
  unfolding evaluation accuracy_evaluations
  run_evaluations trial accuracy accuracy_reason =
      let completed = is_completed trial.execution_status in
      let size = len (trim_space trial.output) in
      evaluation "completion" (some (score_of completed)) completed
        (reasons.status trial.execution_status)
      ∷ evaluation "non_empty" (some (score_of (ltb 0 size))) (ltb 0 size)
          (reasons.output_length size)
      ∷ accuracy_evaluations accuracy accuracy_reason
