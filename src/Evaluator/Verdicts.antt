-- ===== src/Evaluator/Verdicts.antt =====
-- Which evaluations a trial gets and which of them pass (internal/evaluator/evaluator.go).
use Prim.Native.String.{len}
use text.Mathlib.Text.{find?}
use trimetry.Base.{
  ◌≡◌, refl, inl, inr, String, Bool, true, false, Bool-cases, Option, some, is_some, [], ◌∷◌, map,
  ltb, str_eq, if◌then◌else◌,
}
use trimetry.Base.Int.{pos}
use trimetry.Base.Trim.{trim_space}
use trimetry.Base.Float.{FloatOps}
use trimetry.Model.Trial.{Scenario, Trial, EvaluationResult}
use trimetry.Model.Status.{is_completed}
use trimetry.Evaluator.{
  Reasons, score_of, contained, evaluate_accuracy, evaluation, accuracy_evaluations,
  run_evaluations,
}

-- The name of an evaluation, and whether it has passed.
abbrev pub verdict_of : {F : Type 0} → EvaluationResult F → String × Option Bool
verdict_of e = (e.evaluator_name, e.passed)

-- What is relied on of `float64`: one is one, and zero is not.
pub record LawfulScores (ops : FloatOps) : Type 0 where
  pub one : ops.eq (ops.of_int (pos 1)) (ops.of_int (pos 1)) ≡ true
  pub zero : ops.eq (ops.of_int (pos 0)) (ops.of_int (pos 1)) ≡ false

module _ (ops : FloatOps) (reasons : Reasons) where
  score_of-eq :
      LawfulScores ops → (b : Bool) → ops.eq (score_of ops reasons b) (ops.of_int (pos 1)) ≡ b
  unfolding score_of
  score_of-eq lawful true = lawful.one
  score_of-eq lawful false = lawful.zero

  -- Where one equals one as a `float64` and zero does not, a trial is evaluated for its completion, which passes if it is completed; for an output that is not only
  -- blank; and, if its scenario expects an output, for accuracy, which passes if the output contains that.
  pub run_evaluations_verdicts :
      LawfulScores ops
      → (scenario : Scenario) (t : Trial ops.Float)
      → (let accuracy = evaluate_accuracy ops reasons scenario t.output in
          map verdict_of (run_evaluations ops reasons t accuracy.score accuracy.reason))
        ≡ ("completion", some (is_completed t.execution_status))
          ∷ ("non_empty", some (ltb 0 (len (trim_space t.output))))
          ∷ (if str_eq scenario.expected_output ""
              then []
              else ("accuracy", some (is_some (find? t.output scenario.expected_output))) ∷ [])
  unfolding evaluate_accuracy contained run_evaluations evaluation accuracy_evaluations
  run_evaluations_verdicts lawful scenario t =
      elim (Bool-cases (str_eq scenario.expected_output "")) [
        | inl nothing ↦ rw nothing refl
        | inr expected ↦
            rw (expected, score_of-eq lawful (is_some (find? t.output scenario.expected_output)))
              refl
      ]
