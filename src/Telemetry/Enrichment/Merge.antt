-- ===== src/Telemetry/Enrichment/Merge.antt =====
-- What mergeEnrichmentIntoSteps (internal/telemetry/shared.go) leaves alone, and what it adds.
use trimetry.Base.{
  ◌≡◌, refl, ap, sym, ◌∙◌, ◌⊎◌, inl, inr, String, Bool, true, false, Bool-cases, List, [], ◌∷◌, map,
  select, str_eq,
}
use trimetry.Adapter.Types.{StepDetail, StepType, generation, tool}
use trimetry.Telemetry.Types.{ReasoningInfo}
use trimetry.Metrics.Consistency.{is_tool, is_generation}
use trimetry.Telemetry.Enrichment.{
  enrich, enrich_next, tail_of, default_model_of, merge_step, merge_enrichment_into_steps,
}

kind-cases : (k : StepType) → (k ≡ generation) ⊎ (k ≡ tool)
kind-cases generation = inl refl
kind-cases tool = inr refl

default_model_of-kind : (m : String) (s : StepDetail) → (default_model_of m s).kind ≡ s.kind
default_model_of-kind m s = elim (Bool-cases (str_eq s.model "")) [
  | inl e ↦ rw e refl
  | inr e ↦ rw e refl
]

enrich_next-kind : (rs : List ReasoningInfo) (s : StepDetail) → (enrich_next rs s).kind ≡ s.kind
unfolding enrich
enrich_next-kind [] s = refl
enrich_next-kind (r ∷ rs) s = refl

-- The first generation gets the first reasoning, and so on, as far as there are both.
abbrev pub enrich_all : List ReasoningInfo → List StepDetail → List StepDetail
enrich_all rs [] = []
enrich_all [] (g ∷ gs) = g ∷ gs
enrich_all (r ∷ rs) (g ∷ gs) = enrich r g ∷ enrich_all rs gs

enrich_all-cons :
    (rs : List ReasoningInfo) (g : StepDetail) (gs : List StepDetail)
    → enrich_all rs (g ∷ gs) ≡ enrich_next rs g ∷ enrich_all (tail_of rs) gs
enrich_all-cons [] g [] = refl
enrich_all-cons [] g (h ∷ gs) = refl
enrich_all-cons (r ∷ rs) g gs = refl

merged-generation :
    (m : String) (rs : List ReasoningInfo) (s : StepDetail)
    → s.kind ≡ generation
    → merge_step s.kind s rs m ≡ (enrich_next rs (default_model_of m s), tail_of rs)
unfolding merge_step
merged-generation m rs s e = ap (λ k. merge_step k s rs m) e

merged-tool :
    (m : String) (rs : List ReasoningInfo) (s : StepDetail)
    → s.kind ≡ tool
    → merge_step s.kind s rs m ≡ (s, rs)
unfolding merge_step
merged-tool m rs s e = ap (λ k. merge_step k s rs m) e

select-cons_of {ℓ} :
    {A : Type ℓ} (p : A → Bool) (x : A) (xs : List A)
    → p x ≡ true
    → select p (x ∷ xs) ≡ x ∷ select p xs
select-cons_of p x xs h = rw h refl

select-cons_not {ℓ} :
    {A : Type ℓ} (p : A → Bool) (x : A) (xs : List A)
    → p x ≡ false
    → select p (x ∷ xs) ≡ select p xs
select-cons_not p x xs h = rw h refl

generation-tests :
    (s : StepDetail) → s.kind ≡ generation → (is_tool s ≡ false) × (is_generation s ≡ true)
generation-tests s e = (
  ap (λ k. elim k [ tool ↦ true | generation ↦ false ]) e,
  ap (λ k. elim k [ tool ↦ false | generation ↦ true ]) e,
)

tool-tests : (s : StepDetail) → s.kind ≡ tool → (is_tool s ≡ true) × (is_generation s ≡ false)
tool-tests s e = (
  ap (λ k. elim k [ tool ↦ true | generation ↦ false ]) e,
  ap (λ k. elim k [ tool ↦ false | generation ↦ true ]) e,
)

-- What becomes of the steps.
pub record Merged (m : String) (rs : List ReasoningInfo) (before after : List StepDetail)
    : Type 0 where
  pub kinds : map (λ s. s.kind) after ≡ map (λ s. s.kind) before
  pub tools : select is_tool after ≡ select is_tool before
  pub generations :
      select is_generation after
      ≡ enrich_all rs (map (default_model_of m) (select is_generation before))

enriched-kind :
    (m : String) (rs : List ReasoningInfo) (s : StepDetail)
    → (enrich_next rs (default_model_of m s)).kind ≡ s.kind
enriched-kind m rs s = enrich_next-kind rs (default_model_of m s) ∙ default_model_of-kind m s

generation-Merged :
    (m : String) (rs : List ReasoningInfo) (s : StepDetail) (before after : List StepDetail)
    → s.kind ≡ generation
    → Merged m (tail_of rs) before after
    → Merged m rs (s ∷ before) (enrich_next rs (default_model_of m s) ∷ after)
generation-Merged m rs s before after e h =
    let s' = enrich_next rs (default_model_of m s) in
    let old = generation-tests s e in
    let new = generation-tests s' (enriched-kind m rs s ∙ e) in
    record {
      kinds =
          ap (λ k. k ∷ map (λ t. t.kind) after) (enriched-kind m rs s)
          ∙ ap (λ ks. s.kind ∷ ks) h.kinds;
      tools =
          select-cons_not is_tool s' after new.0
          ∙ h.tools
          ∙ sym (select-cons_not is_tool s before old.0);
      generations =
          select-cons_of is_generation s' after new.1
          ∙ ap (λ gs. s' ∷ gs) h.generations
          ∙ sym (
              enrich_all-cons rs (default_model_of m s)
                (map (default_model_of m) (select is_generation before)))
          ∙ ap (λ gs. enrich_all rs (map (default_model_of m) gs))
              (sym (select-cons_of is_generation s before old.1));
    }

tool-Merged :
    (m : String) (rs : List ReasoningInfo) (s : StepDetail) (before after : List StepDetail)
    → s.kind ≡ tool
    → Merged m rs before after
    → Merged m rs (s ∷ before) (s ∷ after)
tool-Merged m rs s before after e h =
    let tests = tool-tests s e in
    record {
      kinds = ap (λ ks. s.kind ∷ ks) h.kinds;
      tools =
          select-cons_of is_tool s after tests.0
          ∙ ap (λ ts. s ∷ ts) h.tools
          ∙ sym (select-cons_of is_tool s before tests.0);
      generations =
          select-cons_not is_generation s after tests.1
          ∙ h.generations
          ∙ ap (λ gs. enrich_all rs (map (default_model_of m) gs))
              (sym (select-cons_not is_generation s before tests.1));
    }

-- The kinds of the steps stay as they are, and so do the tools; the first generation is enriched with the
-- first reasoning, and so on, as far as there are both, and every generation without a model gets the
-- trial's.
pub merge_enrichment_into_steps-Merged :
    (steps : List StepDetail) (rs : List ReasoningInfo) (m : String)
    → Merged m rs steps (merge_enrichment_into_steps steps rs m)
unfolding merge_enrichment_into_steps
merge_enrichment_into_steps-Merged [] rs m = record {
  kinds = refl;
  tools = refl;
  generations = refl;
}
merge_enrichment_into_steps-Merged (s ∷ steps) rs m = elim (kind-cases s.kind) [
  | inl e ↦ rw (merged-generation m rs s e) (
      generation-Merged m rs s steps (merge_enrichment_into_steps steps (tail_of rs) m) e
        (merge_enrichment_into_steps-Merged steps (tail_of rs) m))
  | inr e ↦ rw (merged-tool m rs s e) (
      tool-Merged m rs s steps (merge_enrichment_into_steps steps rs m) e
        (merge_enrichment_into_steps-Merged steps rs m))
]
