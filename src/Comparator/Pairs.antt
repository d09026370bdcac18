-- ===== src/Comparator/Pairs.antt =====
-- How many scenarios a comparison (internal/comparator/comparator.go) compares.
use trimetry.Base.{
  suc, ◌+◌, ◌≡◌, refl, ap, ◌∙◌, inl, inr, String, Bool, Bool-cases, none, some, Option-cases,
  is_some, List, [], ◌∷◌, length, length-append, select, arith,
}
use Prim.Native.String.{compare}
use text.Mathlib.Text.{is_lt}
use trimetry.Base.Dict.{Dict, lookup}
use trimetry.Base.Float.{FloatOps}
use trimetry.Model.Summary.{ScenarioSummary, RunSummary}
use trimetry.Comparator.{
  ScenarioComparison, Compared, index_scenarios, sort_key, insert_sorted, sort_comparisons,
  comparison_of, visit, visit_all, compare_runs,
}

length-insert_sorted :
    {F : Type 0} (c : ScenarioComparison F) (cs : List (ScenarioComparison F))
    → length (insert_sorted c cs) ≡ suc (length cs)
unfolding insert_sorted
length-insert_sorted c [] = refl
length-insert_sorted c (d ∷ ds) = elim (Bool-cases (is_lt (compare (sort_key d) (sort_key c)))) [
  | inl e ↦ rw e (ap suc (length-insert_sorted c ds))
  | inr e ↦ rw e refl
]

length-sort_comparisons :
    {F : Type 0} (cs : List (ScenarioComparison F)) → length (sort_comparisons cs) ≡ length cs
unfolding sort_comparisons
length-sort_comparisons [] = refl
length-sort_comparisons (c ∷ cs) =
    length-insert_sorted c (sort_comparisons cs) ∙ ap suc (length-sort_comparisons cs)

-- Whether the candidate has a summary with the key of the entry.
abbrev pub in_both : {F : Type 0} → Dict (ScenarioSummary F) → String × ScenarioSummary F → Bool
in_both cand entry = is_some (lookup entry.0 cand)

module _ (ops : FloatOps) where
  length-visit_all :
      (base cand : Dict (ScenarioSummary ops.Float)) (r : Compared ops.Float)
      → length (visit_all ops base cand r).comparisons
        ≡ length r.comparisons + length (select (in_both cand) base)
  unfolding visit_all visit
  length-visit_all [] cand r = omega arith
  length-visit_all ((key, bs) ∷ base) cand r = elim (Option-cases (lookup key cand)) [
    | inl e ↦ rw (e, visit_all, visit) (length-visit_all base cand (visit ops key bs none r))
    | inr (cs, e) ↦
        let rest = length-visit_all base cand (visit ops key bs (some cs) r) in
        let one = length-append r.comparisons (comparison_of ops bs cs ∷ []) in
        rw (e, visit_all, visit) (omega arith)
  ]

  -- There are as many comparisons as keys of a scenario and model under which both runs have a summary.
  pub length-compare_runs :
      (baseline candidate : RunSummary ops.Float)
      → length (compare_runs ops baseline candidate).comparisons
        ≡ length (
            select
              (in_both (index_scenarios candidate.scenarios))
              (index_scenarios baseline.scenarios))
  unfolding compare_runs
  length-compare_runs baseline candidate =
      length-sort_comparisons _
      ∙ length-visit_all (index_scenarios baseline.scenarios) (index_scenarios candidate.scenarios)
          (record { comparisons = []; warnings = [] })
      ∙ omega arith
