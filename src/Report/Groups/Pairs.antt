-- ===== src/Report/Groups/Pairs.antt =====
-- internal/report/report.go: where the joined keys tell scenarios and models apart, a summary is that of one scenario and
-- model.
use trimetry.Base.{
  suc, String, Bool, true, false, ◌&&◌, ◌≡◌, refl, sym, ap, ◌∙◌, ◌⊎◌, Option, some, ◌>>=◌, List, [],
  ◌∷◌, map, select, length, All, All-imp, arith, str_eq, eq_iff, eq_refl, inl, inr, Bool-cases,
  if◌then◌else◌,
}
use trimetry.Base.Dict.{Dict}
use trimetry.Base.Float.{FloatOps}
use trimetry.Model.Trial.{Scenario, Trial}
use trimetry.Model.Summary.{ScenarioSummary}
use trimetry.Model.Status.{scenario_model_key}
use trimetry.Aggregator.Summarize.{summarize}
use trimetry.Report.Summaries.{key_of, named, scenario_map, build_summaries}
use trimetry.Report.Groups.{trials_of, occurrences, has_key, summaries_of, build_summaries-Groups}

module _ {A : Type 0} where
  abbrev Among : A → List A → Type 0
  Among a [] = ⊥
  Among a (x ∷ xs) = (a ≡ x) ⊎ Among a xs

  All-Among : (xs : List A) → All (λ a. Among a xs) xs
  All-Among [] = tt
  All-Among (x ∷ xs) = (inl refl, All-imp xs (λ a h. inr h) (All-Among xs))

  All-at : (P : A → Type 0) (a : A) (xs : List A) → Among a xs → All P xs → P a
  All-at P a [] k h = elim k [ ]
  All-at P a (x ∷ xs) (inl e) h = rw e h.0
  All-at P a (x ∷ xs) (inr k) h = All-at P a xs k h.1

  select-same : (p q : A → Bool) (xs : List A) → All (λ a. p a ≡ q a) xs → select p xs ≡ select q xs
  select-same p q [] h = refl
  select-same p q (x ∷ xs) h = rw (h.0, select-same p q xs h.1) refl

module _ {F : Type 0} where
  -- The trials are of one scenario and one model.
  unfoldable pub same_pair : Trial F → Trial F → Bool
  same_pair t u = str_eq t.scenario_id u.scenario_id && str_eq t.model_name u.model_name

  -- Trials that share a joined key are of one scenario and one model.
  abbrev pub TellsApart : List (Trial F) → Type 0
  TellsApart ts = All (λ t. All (λ u. key_of u ≡ key_of t → same_pair t u ≡ true) ts) ts

  same_pair-key : (t u : Trial F) → same_pair t u ≡ true → key_of u ≡ key_of t
  unfolding same_pair key_of
  same_pair-key t u h =
      let one : str_eq t.scenario_id u.scenario_id ≡ true = ground arith in
      let two : str_eq t.model_name u.model_name ≡ true = ground arith in
      sym (
        ap (λ id. scenario_model_key id t.model_name) ((eq_iff t.scenario_id u.scenario_id).0 one)
        ∙ ap (scenario_model_key u.scenario_id) ((eq_iff t.model_name u.model_name).0 two))

  same_test :
      (t u : Trial F)
      → (key_of u ≡ key_of t → same_pair t u ≡ true)
      → str_eq (key_of u) (key_of t) ≡ same_pair t u
  same_test t u apart = elim (Bool-cases (same_pair t u)) [
    | inl e ↦ (eq_iff (key_of u) (key_of t)).1 (same_pair-key t u e) ∙ sym e
    | inr e ↦ elim (Bool-cases (str_eq (key_of u) (key_of t))) [
      | inl k ↦ let same = apart ((eq_iff (key_of u) (key_of t)).0 k) in cc
      | inr k ↦ k ∙ sym e
    ]
  ]

  same_tests :
      (trials : List (Trial F)) (t : Trial F)
      → TellsApart trials
      → Among t trials
      → All (λ u. str_eq (key_of u) (key_of t) ≡ same_pair t u) trials
  same_tests trials t apart among =
      All-imp trials (λ u. same_test t u)
        (All-at (λ t. All (λ u. key_of u ≡ key_of t → same_pair t u ≡ true) trials) t trials among
          apart)

  first_of :
      (key : String) (ts : List (Trial F))
      → has_key key ts ≡ true
      → (t : Trial F) × (key_of t ≡ key) × Among t ts
  first_of key [] h = cc
  first_of key (t ∷ ts) h = elim (Bool-cases (str_eq (key_of t) key)) [
    | inl e ↦ (t, (eq_iff (key_of t) key).0 e, inl refl)
    | inr e ↦
        let later : has_key key ts ≡ true = ground arith in
        let (u, same, among) = first_of key ts later in (u, same, inr among)
  ]

  has_own : (t : Trial F) (ts : List (Trial F)) → Among t ts → has_key (key_of t) ts ≡ true
  has_own t [] k = elim k [ ]
  has_own t (u ∷ ts) (inl e) = rw (sym e, eq_refl (key_of t)) refl
  has_own t (u ∷ ts) (inr k) = let later = has_own t ts k in ground arith

  firsts_of :
      (trials : List (Trial F)) (ks : List String)
      → All (λ k. has_key k trials ≡ true) ks
      → (firsts : List (Trial F)) × (map key_of firsts ≡ ks) × All (λ f. Among f trials) firsts
  firsts_of trials [] h = ([], refl, tt)
  firsts_of trials (k ∷ ks) h =
      let (f, e, among) = first_of k trials h.0 in
      let (fs, es, all_among) = firsts_of trials ks h.1 in
      (f ∷ fs, rw (e, es) refl, (among, all_among))

  length-select-pair :
      (trials : List (Trial F)) (t : Trial F)
      → TellsApart trials
      → Among t trials
      → (firsts : List (Trial F)) → All (λ f. Among f trials) firsts
      → length (select (same_pair t) firsts) ≡ occurrences (key_of t) (map key_of firsts)
  unfolding occurrences
  length-select-pair trials t apart among [] h = refl
  length-select-pair trials t apart among (f ∷ fs) h =
      let rest = length-select-pair trials t apart among fs h.1 in
      let test =
        All-at (λ u. str_eq (key_of u) (key_of t) ≡ same_pair t u) f trials h.0
          (same_tests trials t apart among) in
      elim (Bool-cases (same_pair t f)) [
        | inl e ↦ rw (test, e) (ap suc rest)
        | inr e ↦ rw (test, e) rest
      ]

All-wanted :
    (wanted : String → Bool) (ks : List String)
    → ((key : String) → wanted key ≡ false → occurrences key ks ≡ 0)
    → All (λ k. wanted k ≡ true) ks
unfolding occurrences
All-wanted wanted [] h = tt
All-wanted wanted (k ∷ ks) h = (
  elim (Bool-cases (wanted k)) [
    | inl e ↦ e
    | inr e ↦ let none_ = h k e in let same = eq_refl k in ground arith
  ],
  All-wanted wanted ks (λ key e. let none_ = h key e in ground arith),
)

module _ (ops : FloatOps) where
  -- A summary for each given trial, of all trials of its scenario and model.
  unfoldable pub pair_summaries :
      Dict Scenario
      → List (Trial ops.Float)
      → List (Trial ops.Float)
      → Option (List (ScenarioSummary ops.Float))
  pair_summaries scenarios trials [] = some []
  pair_summaries scenarios trials (t ∷ ts) = do
    s ← summarize ops (select (same_pair t) trials)
    ss ← pair_summaries scenarios trials ts
    some (named scenarios s ∷ ss)

  summaries_of-pairs :
      (scenarios : Dict Scenario) (trials firsts : List (Trial ops.Float))
      → TellsApart trials
      → All (λ f. Among f trials) firsts
      → summaries_of ops scenarios trials (map key_of firsts)
        ≡ pair_summaries scenarios trials firsts
  unfolding summaries_of pair_summaries trials_of
  summaries_of-pairs scenarios trials [] apart h = refl
  summaries_of-pairs scenarios trials (f ∷ fs) apart h =
      let same : trials_of (key_of f) trials ≡ select (same_pair f) trials =
        select-same _ (same_pair f) trials (same_tests trials f apart h.0) in
      rw (same, summaries_of-pairs scenarios trials fs apart h.1) refl

  -- Where trials of different scenarios or models have different joined keys, each summary is the one of all
  -- trials of one scenario and model, in their order, named after the scenario; and for every trial there is exactly one
  -- summary of its scenario and model.
  pub build_summaries-Pairs :
      (trials : List (Trial ops.Float)) (scenarios : List Scenario)
      → TellsApart trials
      → (firsts : List (Trial ops.Float)) × (build_summaries ops trials scenarios
          ≡ pair_summaries (scenario_map scenarios []) trials firsts)
        × All (λ t. length (select (same_pair t) firsts) ≡ 1) trials
  build_summaries-Pairs trials scenarios apart =
      let (ks, made, once) = build_summaries-Groups ops trials scenarios in
      let wanted =
        All-wanted (λ key. has_key key trials) ks
          (λ key e. once key ∙ ap (λ b. if b then 1 else 0) e) in
      let (firsts, same, among) = firsts_of trials ks wanted in
      (
        firsts,
        made
            ∙ ap (summaries_of ops (scenario_map scenarios []) trials) (sym same)
            ∙ summaries_of-pairs (scenario_map scenarios []) trials firsts apart among,
        All-imp trials
            (λ t here.
              length-select-pair trials t apart here firsts among
              ∙ ap (occurrences (key_of t)) same
              ∙ once (key_of t)
              ∙ ap (λ b. if b then 1 else 0) (has_own t trials here))
            (All-Among trials),
      )
