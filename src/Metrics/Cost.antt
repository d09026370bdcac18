-- ===== src/Metrics/Cost.antt =====
-- Where the cost of a trial comes from (internal/metrics/builder.go).
use trimetry.Base.{
  ◌≡◌, refl, inl, inr, String, Bool-cases, Option, none, some, List, [], ◌∷◌, str_eq,
}
use trimetry.Base.Int.{ℤ, positive}
use trimetry.Base.Float.{FloatOps}
use trimetry.Model.Trial.{TrialMetrics, ModelPricing}
use trimetry.Adapter.Types.{ExecutionResult, TokenInfo, StepDetail}
use trimetry.Metrics.Build.{
  Input, with_tokens, with_steps, with_output, with_result, with_ratio, with_estimate,
  with_provider_cost, result_cost, base_metrics, build_trial_metrics,
}

module _ {F : Type 0} where
  -- Where the cost of a trial comes from, with what its source is called.
  pub data CostFrom (cost : Option F) (pricing : Option (ModelPricing F)) (m : TrialMetrics F)
      : Type 0 where
    from_provider :
        (c : F)
        → cost ≡ some c
        → m.estimated_cost ≡ some c
        → m.cost_source ≡ "provider"
        → CostFrom cost pricing m
    from_pricing :
        (p : ModelPricing F) (c : F)
        → cost ≡ none
        → pricing ≡ some p
        → m.estimated_cost ≡ some c
        → m.cost_source ≡ "estimated"
        → CostFrom cost pricing m
    from_nowhere :
        cost ≡ none → m.estimated_cost ≡ none → m.cost_source ≡ "unknown" → CostFrom cost pricing m

  record Unpriced (m : TrialMetrics F) : Type 0 where
    no_cost : m.estimated_cost ≡ none
    no_source : m.cost_source ≡ "unknown"

  with_tokens-Unpriced :
      (t : Option TokenInfo) (m : TrialMetrics F) → Unpriced m → Unpriced (with_tokens t m)
  unfolding with_tokens
  with_tokens-Unpriced none m u = u
  with_tokens-Unpriced (some t) m u = record { no_cost = u.no_cost; no_source = u.no_source }

  with_steps-Unpriced :
      (steps : List StepDetail) (m : TrialMetrics F) → Unpriced m → Unpriced (with_steps steps m)
  unfolding with_steps
  with_steps-Unpriced [] m u = u
  with_steps-Unpriced (s ∷ ss) m u = record { no_cost = u.no_cost; no_source = u.no_source }

  with_result-Unpriced :
      (r : Option (ExecutionResult F)) (m : TrialMetrics F)
      → Unpriced m
      → Unpriced (with_result r m)
  unfolding with_result
  with_result-Unpriced none m u = u
  with_result-Unpriced (some r) m u =
      let v =
        with_steps-Unpriced r.steps (with_tokens r.tokens m) (with_tokens-Unpriced r.tokens m u) in
      record { no_cost = v.no_cost; no_source = v.no_source }

  with_output-Unpriced :
      (output : String) (m : TrialMetrics F) → Unpriced m → Unpriced (with_output output m)
  unfolding with_output
  with_output-Unpriced output m u = elim (Bool-cases (str_eq output "")) [
    | inl e ↦ rw e u
    | inr e ↦ rw e (record { no_cost = u.no_cost; no_source = u.no_source })
  ]

module _ (ops : FloatOps) where
  with_ratio-Unpriced :
      (l : Option ℤ) (m : TrialMetrics ops.Float) → Unpriced m → Unpriced (with_ratio ops l m)
  unfolding with_ratio
  with_ratio-Unpriced none m u = u
  with_ratio-Unpriced (some l) m u = elim (Bool-cases (positive m.wall_time_ms)) [
    | inl e ↦ rw e (record { no_cost = u.no_cost; no_source = u.no_source })
    | inr e ↦ rw e u
  ]

  priced-CostFrom :
      (cost : Option ops.Float) (pricing : Option (ModelPricing ops.Float)) (a b : Option ℤ)
      (m : TrialMetrics ops.Float)
      → Unpriced m
      → CostFrom cost pricing (with_provider_cost cost (with_estimate ops pricing a b m))
  unfolding with_provider_cost with_estimate
  priced-CostFrom (some c) pricing a b m u = from_provider c refl refl refl
  priced-CostFrom none (some p) (some a) (some b) m u = from_pricing p _ refl refl refl refl
  priced-CostFrom none none a b m u = from_nowhere refl u.no_cost u.no_source
  priced-CostFrom none (some p) none b m u = from_nowhere refl u.no_cost u.no_source
  priced-CostFrom none (some p) (some a) none m u = from_nowhere refl u.no_cost u.no_source

  -- The cost that the provider reports is taken whenever there is one, an estimate only of a model with
  -- a price, and the source says which; a trial without a cost has the source "unknown".
  pub build_trial_metrics-CostFrom :
      (i : Input ops.Float) → CostFrom (result_cost i.result) i.pricing (build_trial_metrics ops i)
  unfolding build_trial_metrics
  build_trial_metrics-CostFrom i =
      let m = with_result i.result (base_metrics i) in
      let n = with_output i.output m in
      let q = with_ratio ops n.llm_latency_ms n in
      priced-CostFrom (result_cost i.result) i.pricing q.input_tokens q.output_tokens q (
        with_ratio-Unpriced n.llm_latency_ms n (
          with_output-Unpriced i.output m (
            with_result-Unpriced i.result (base_metrics i)
              (record { no_cost = refl; no_source = refl }))))
