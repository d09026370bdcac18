-- ===== src/Telemetry/Langfuse/Trials/Scores.antt =====
-- Which scores the end of a trial adds to the queue (internal/telemetry/langfuse.go).
use trimetry.Base.{
  ℕ, ◌≡◌, refl, ap, sym, ◌∙◌, String, Option, none, some, List, [], ◌∷◌, ◌++◌, map, arith, str_eq,
  append_assoc, map-append, append-nil, if◌then◌else◌, Bool-cases, inl, inr,
}
use trimetry.Base.Dict.{lookup, lookup-remove}
use trimetry.Model.Trial.{EvaluationResult}
use trimetry.Telemetry.Types.{TrialResult}
use trimetry.Telemetry.Langfuse.State.{ResolvedTrace, LangfuseAdapter}
use trimetry.Telemetry.Langfuse.Ingestion.{IngestionEvent}
use trimetry.Telemetry.Langfuse.Queue.{add_event}
use trimetry.Telemetry.Langfuse.Trials.{
  Api, resolve, forget_context, ensure_score_config, add_score, add_scored, next_id, add_scores,
  finish_trial,
}

-- What a score says: of which trace, under which name, and its value.
abbrev pub Score : Type 0 → Type 0
Score F = String × String × F

module _ {F : Type 0} where
  abbrev pub score_of : IngestionEvent F → Score F
  score_of ev = (ev.body.trace_id, ev.body.name, ev.body.value)

  abbrev score_if : String → EvaluationResult F → Option F → List (Score F)
  score_if trace_id eval none = []
  score_if trace_id eval (some v) = (trace_id, eval.evaluator_name, v) ∷ []

  -- The scores that a trial's evaluations should give.
  abbrev pub scores_of : String → List (EvaluationResult F) → List (Score F)
  scores_of trace_id [] = []
  scores_of trace_id (eval ∷ evals) = score_if trace_id eval eval.score ++ scores_of trace_id evals

  ensure_score_config-batch :
      (api : Api) (name : String) (a : LangfuseAdapter F)
      → (ensure_score_config api name a).1.batch ≡ a.batch
  unfolding ensure_score_config
  ensure_score_config-batch api name a = ground arith

  add_score-batch :
      (api : Api) (n : ℕ) (trace_id : String) (eval : EvaluationResult F) (score : F)
      (a : LangfuseAdapter F)
      → map score_of (add_score api n trace_id eval score a).batch
        ≡ map score_of a.batch ++ (trace_id, eval.evaluator_name, score) ∷ []
  unfolding add_score add_event
  add_score-batch api n trace_id eval score a =
      rw (ensure_score_config-batch api eval.evaluator_name a, map-append) refl

  add_scored-batch :
      (api : Api) (n : ℕ) (trace_id : String) (eval : EvaluationResult F) (score : Option F)
      (a : LangfuseAdapter F)
      → map score_of (add_scored api n trace_id eval score a).batch
        ≡ map score_of a.batch ++ score_if trace_id eval score
  unfolding add_scored
  add_scored-batch api n trace_id eval none a = sym (append-nil (map score_of a.batch))
  add_scored-batch api n trace_id eval (some v) a = add_score-batch api n trace_id eval v a

  add_scores-batch :
      (api : Api) (n : ℕ) (trace_id : String) (evals : List (EvaluationResult F))
      (a : LangfuseAdapter F)
      → map score_of (add_scores api n trace_id evals a).batch
        ≡ map score_of a.batch ++ scores_of trace_id evals
  unfolding add_scores
  add_scores-batch api n trace_id [] a = sym (append-nil (map score_of a.batch))
  add_scores-batch api n trace_id (eval ∷ evals) a =
      let b = add_scored api n trace_id eval eval.score a in
      add_scores-batch api (next_id n eval.score) trace_id evals b
      ∙ ap (λ l. l ++ scores_of trace_id evals) (add_scored-batch api n trace_id eval eval.score a)
      ∙ append_assoc (map score_of a.batch) (score_if trace_id eval eval.score)
          (scores_of trace_id evals)

  resolve_keeps :
      (api : Api) (direct : TrialResult F → ResolvedTrace) (result : TrialResult F)
      (a : LangfuseAdapter F)
      → ((resolve api direct result a).1.batch ≡ a.batch)
        × ((resolve api direct result a).1.trial_contexts ≡ a.trial_contexts)
  unfolding resolve
  resolve_keeps api direct result a = ground arith

  resolve-forget_context :
      (api : Api) (direct : TrialResult F → ResolvedTrace) (result : TrialResult F)
      (trial_id : String) (a : LangfuseAdapter F)
      → (resolve api direct result (forget_context trial_id a)).0 ≡ (resolve api direct result a).0
  unfolding resolve forget_context
  resolve-forget_context api direct result trial_id a = ground arith

  add_score-trial_contexts :
      (api : Api) (n : ℕ) (trace_id : String) (eval : EvaluationResult F) (score : F)
      (a : LangfuseAdapter F)
      → (add_score api n trace_id eval score a).trial_contexts ≡ a.trial_contexts
  unfolding add_score add_event ensure_score_config
  add_score-trial_contexts api n trace_id eval score a = ground arith

  add_scored-trial_contexts :
      (api : Api) (n : ℕ) (trace_id : String) (eval : EvaluationResult F) (score : Option F)
      (a : LangfuseAdapter F)
      → (add_scored api n trace_id eval score a).trial_contexts ≡ a.trial_contexts
  unfolding add_scored
  add_scored-trial_contexts api n trace_id eval none a = refl
  add_scored-trial_contexts api n trace_id eval (some v) a =
      add_score-trial_contexts api n trace_id eval v a

  add_scores-trial_contexts :
      (api : Api) (n : ℕ) (trace_id : String) (evals : List (EvaluationResult F))
      (a : LangfuseAdapter F)
      → (add_scores api n trace_id evals a).trial_contexts ≡ a.trial_contexts
  unfolding add_scores
  add_scores-trial_contexts api n trace_id [] a = refl
  add_scores-trial_contexts api n trace_id (eval ∷ evals) a =
      add_scores-trial_contexts api (next_id n eval.score) trace_id evals
        (add_scored api n trace_id eval eval.score a)
      ∙ add_scored-trial_contexts api n trace_id eval eval.score a

  -- The end of a trial adds to the queue the scores of its evaluations, each with its name and value
  -- and for the trace found, in their order; it adds nothing where no trace is found. The trial's
  -- context is forgotten, and that of every other trial is kept.
  pub finish_trial_lem :
      (api : Api) (direct : TrialResult F → ResolvedTrace) (result : TrialResult F)
      (a : LangfuseAdapter F)
      → let trace = (resolve api direct result a).0.trace_id in
        (map score_of (finish_trial api direct result a).batch
          ≡ map score_of a.batch
            ++ (if str_eq trace "" then [] else scores_of trace result.evaluations))
        × ((id : String)
            → lookup id (finish_trial api direct result a).trial_contexts
              ≡ (if str_eq result.trial_id id then none else lookup id a.trial_contexts))
  unfolding finish_trial
  finish_trial_lem api direct result a =
      let b = forget_context result.trial_id a in
      let r = resolve api direct result b in
      let kept = resolve_keeps api direct result b in
      let same = resolve-forget_context api direct result result.trial_id a in
      let gone = λ (id : String). lookup-remove result.trial_id id a.trial_contexts in
      elim (Bool-cases (str_eq r.0.trace_id "")) [
        | inl absent ↦
            rw (← same, absent, kept.0)
              (
                sym (append-nil (map score_of a.batch)),
                λ id. ap (λ m. lookup id m) kept.1 ∙ gone id,
              )
        | inr found ↦
            rw (← same, found)
              (
                add_scores-batch api 0 r.0.trace_id result.evaluations r.1
                    ∙ ap (λ l. map score_of l ++ scores_of r.0.trace_id result.evaluations) kept.0,
                λ id.
                    ap (λ m. lookup id m)
                      (add_scores-trial_contexts api 0 r.0.trace_id result.evaluations r.1 ∙ kept.1)
                    ∙ gone id,
              )
      ]
