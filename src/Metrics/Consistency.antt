-- ===== src/Metrics/Consistency.antt =====
-- The metrics of a trial (internal/metrics/builder.go) agree with each other and with its steps.
use trimetry.Base.{
  ℕ, ◌+◌, ◌≡◌, refl, sym, ap, ◌∙◌, inl, inr, ◌⊎◌, Bool, true, false, Bool-cases, Option, none, some,
  List, [], ◌∷◌, ◌++◌, append_assoc, append-nil, ltb, length, select, map, str_eq, String, arith,
  if◌then◌else◌,
}
use trimetry.Base.Int.{ℤ, positive}
use trimetry.Base.Float.{FloatOps}
use trimetry.Model.Trial.{TrialMetrics, ModelPricing}
use trimetry.Adapter.Types.{ExecutionResult, TokenInfo, StepDetail, StepType, generation, tool}
use trimetry.Metrics.Build.{
  Input, tool_call_of, StepTotals, no_totals, add_step, total_steps, with_tokens, with_steps,
  with_output, with_result, with_ratio, with_estimate, with_provider_cost, result_cost,
  base_metrics, build_trial_metrics,
}

abbrev pub is_tool : StepDetail → Bool
is_tool s = elim s.kind [ tool ↦ true | generation ↦ false ]

abbrev pub is_generation : StepDetail → Bool
is_generation s = elim s.kind [ tool ↦ false | generation ↦ true ]

abbrev pub if_any : ℕ → Option ℕ
if_any n = if ltb 0 n then some n else none

kind-cases : (k : StepType) → (k ≡ generation) ⊎ (k ≡ tool)
kind-cases generation = inl refl
kind-cases tool = inr refl

total_steps-tool_calls :
    (steps : List StepDetail) (t : StepTotals)
    → (total_steps steps t).tool_calls ≡ t.tool_calls ++ map tool_call_of (select is_tool steps)
unfolding total_steps add_step tool_call_of
total_steps-tool_calls [] t = sym (append-nil t.tool_calls)
total_steps-tool_calls (s ∷ ss) t = elim (kind-cases s.kind) [
  | inl e ↦ rw e (total_steps-tool_calls ss (add_step generation s t))
  | inr e ↦ rw e (
      total_steps-tool_calls ss (add_step tool s t)
      ∙ append_assoc t.tool_calls (tool_call_of s ∷ []) (map tool_call_of (select is_tool ss)))
]

total_steps-generations :
    (steps : List StepDetail) (t : StepTotals)
    → (total_steps steps t).generations ≡ t.generations + length (select is_generation steps)
unfolding total_steps add_step tool_call_of
total_steps-generations [] t = omega arith
total_steps-generations (s ∷ ss) t = elim (kind-cases s.kind) [
  | inl e ↦ rw e (let rest = total_steps-generations ss (add_step generation s t) in omega arith)
  | inr e ↦ rw e (let rest = total_steps-generations ss (add_step tool s t) in omega arith)
]

module _ {F : Type 0} where
  -- What the stages after the result leave alone.
  record Kept (m n : TrialMetrics F) : Type 0 where
    calls : n.tool_calls ≡ m.tool_calls
    generations : n.generation_count ≡ m.generation_count
    retries : n.retry_count ≡ m.retry_count
    wall : n.wall_time_ms ≡ m.wall_time_ms

  Kept-refl : (m : TrialMetrics F) → Kept m m
  Kept-refl m = record { calls = refl; generations = refl; retries = refl; wall = refl }

  Kept-trans : (l m n : TrialMetrics F) → Kept l m → Kept m n → Kept l n
  Kept-trans l m n h k = record {
    calls = k.calls ∙ h.calls;
    generations = k.generations ∙ h.generations;
    retries = k.retries ∙ h.retries;
    wall = k.wall ∙ h.wall;
  }

  with_output-Kept : (output : String) (m : TrialMetrics F) → Kept m (with_output output m)
  unfolding with_output
  with_output-Kept output m = elim (Bool-cases (str_eq output "")) [
    | inl e ↦ rw e (Kept-refl m)
    | inr e ↦ rw e (record { calls = refl; generations = refl; retries = refl; wall = refl })
  ]

  with_provider_cost-Kept :
      (cost : Option F) (m : TrialMetrics F) → Kept m (with_provider_cost cost m)
  unfolding with_provider_cost
  with_provider_cost-Kept none m = Kept-refl m
  with_provider_cost-Kept (some c) m = record {
    calls = refl;
    generations = refl;
    retries = refl;
    wall = refl;
  }

  abbrev pub steps_of : Option (ExecutionResult F) → List StepDetail
  steps_of none = []
  steps_of (some r) = r.steps

  with_tokens-Kept : (t : Option TokenInfo) (m : TrialMetrics F) → Kept m (with_tokens t m)
  unfolding with_tokens
  with_tokens-Kept none m = Kept-refl m
  with_tokens-Kept (some t) m = record {
    calls = refl;
    generations = refl;
    retries = refl;
    wall = refl;
  }

  -- The counts that come from the steps.
  pub record Counted (steps : List StepDetail) (retries : ℕ) (m : TrialMetrics F) : Type 0 where
    pub calls : m.tool_calls ≡ map tool_call_of (select is_tool steps)
    pub generations : m.generation_count ≡ if_any (length (select is_generation steps))
    pub retried : m.retry_count ≡ retries

  Counted-Kept :
      (steps : List StepDetail) (n : ℕ) (m m' : TrialMetrics F)
      → Kept m m'
      → Counted steps n m
      → Counted steps n m'
  Counted-Kept steps n m m' k c = record {
    calls = k.calls ∙ c.calls;
    generations = k.generations ∙ c.generations;
    retried = k.retries ∙ c.retried;
  }

  with_steps-Counted :
      (steps : List StepDetail) (n : ℕ) (m : TrialMetrics F)
      → Counted [] n m
      → Counted steps n (with_steps steps m)
  unfolding with_steps
  with_steps-Counted [] n m c = c
  with_steps-Counted (s ∷ ss) n m c =
      let total : (total_steps (s ∷ ss) no_totals).generations
          ≡ length (select is_generation (s ∷ ss)) =
        (let g = total_steps-generations (s ∷ ss) no_totals in omega arith) in
      record {
        calls = total_steps-tool_calls (s ∷ ss) no_totals;
        generations = ap if_any total;
        retried = c.retried;
      }

  with_result-Counted :
      (r : Option (ExecutionResult F)) (n : ℕ) (m : TrialMetrics F)
      → Counted [] n m
      → Counted (steps_of r) n (with_result r m)
  unfolding with_result
  with_result-Counted none n m c = c
  with_result-Counted (some r) n m c =
      let tokens = Counted-Kept [] n m (with_tokens r.tokens m) (with_tokens-Kept r.tokens m) c in
      let steps = with_steps-Counted r.steps n (with_tokens r.tokens m) tokens in
      record { calls = steps.calls; generations = steps.generations; retried = steps.retried }

module _ (ops : FloatOps) where
  with_ratio-Kept : (l : Option ℤ) (m : TrialMetrics ops.Float) → Kept m (with_ratio ops l m)
  unfolding with_ratio
  with_ratio-Kept none m = Kept-refl m
  with_ratio-Kept (some l) m = elim (Bool-cases (positive m.wall_time_ms)) [
    | inl e ↦ rw e (record { calls = refl; generations = refl; retries = refl; wall = refl })
    | inr e ↦ rw e (Kept-refl m)
  ]

  with_estimate-Kept :
      (p : Option (ModelPricing ops.Float)) (a b : Option ℤ) (m : TrialMetrics ops.Float)
      → Kept m (with_estimate ops p a b m)
  unfolding with_estimate
  with_estimate-Kept (some p) (some a) (some b) m = record {
    calls = refl;
    generations = refl;
    retries = refl;
    wall = refl;
  }
  with_estimate-Kept none a b m = Kept-refl m
  with_estimate-Kept (some p) none b m = Kept-refl m
  with_estimate-Kept (some p) (some a) none m = Kept-refl m

  -- The tools that a trial is said to have called are the tool steps of its result, in their order;
  -- its generations are the other steps, left out if there are none; and the retries are those given.
  pub build_trial_metrics-Counted :
      (i : Input ops.Float) → Counted (steps_of i.result) i.retry_count (build_trial_metrics ops i)
  unfolding build_trial_metrics
  build_trial_metrics-Counted i =
      let m = with_result i.result (base_metrics i) in
      let n = with_output i.output m in
      let q = with_ratio ops n.llm_latency_ms n in
      let r = with_estimate ops i.pricing q.input_tokens q.output_tokens q in
      let s = with_provider_cost (result_cost i.result) r in
      Counted-Kept (steps_of i.result) i.retry_count m s
        (Kept-trans m n s (with_output-Kept i.output m) (
          Kept-trans n q s (with_ratio-Kept n.llm_latency_ms n) (
            Kept-trans q r s (with_estimate-Kept i.pricing q.input_tokens q.output_tokens q)
              (with_provider_cost-Kept (result_cost i.result) r))))
        (with_result-Counted i.result i.retry_count (base_metrics i)
          (record { calls = refl; generations = refl; retried = refl }))
