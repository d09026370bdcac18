-- ===== src/Runner/Expand/Positions.antt =====
-- Where the trials stand that expandTrials (internal/runner/runner.go) makes.
use trimetry.Base.{
  ℕ, zero, suc, ◌+◌, ◌*◌, ◌<◌, ◌≡◌, refl, sym, ap, ◌∙◌, String, none, some, List, [], ◌∷◌, ◌++◌,
  length, length-append, get_elem?, arith,
}
use trimetry.Base.Int.{pos}
use trimetry.Model.Trial.{Scenario, ModelConfig}
use trimetry.Runner.Types.{TrialSpec}
use trimetry.Runner.Expand.{
  new_spec, expand_numbers, expand_models, expand_scenarios, expand_trials,
}

get_elem?-append_left {ℓ} :
    {A : Type ℓ} (xs ys : List A) (i : ℕ) → i < length xs → get_elem? (xs ++ ys) i ≡ get_elem? xs i
get_elem?-append_left [] ys i h = ground arith
get_elem?-append_left (x ∷ xs) ys zero h = refl
get_elem?-append_left (x ∷ xs) ys (suc i) h = get_elem?-append_left xs ys i (omega arith)

get_elem?-append_right {ℓ} :
    {A : Type ℓ} (xs ys : List A) (i : ℕ) → get_elem? (xs ++ ys) (length xs + i) ≡ get_elem? ys i
get_elem?-append_right [] ys i = let e : 0 + i ≡ i = omega arith in ap (λ k. get_elem? ys k) e
get_elem?-append_right (x ∷ xs) ys i =
    let e : suc (length xs) + i ≡ suc (length xs + i) = omega arith in
    ap (λ k. get_elem? (x ∷ (xs ++ ys)) k) e ∙ get_elem?-append_right xs ys i

module _ {F : Type 0} (new_trial_id : ℕ → String) (benchmark_run_id : String) where
  abbrev spec : Scenario → ModelConfig F → ℕ → ℕ → TrialSpec F
  spec = new_spec new_trial_id benchmark_run_id

  length-numbers :
      (s : Scenario) (m : ModelConfig F) (left number serial : ℕ)
      → length (expand_numbers new_trial_id benchmark_run_id s m left number serial) ≡ left
  unfolding expand_numbers
  length-numbers s m zero number serial = refl
  length-numbers s m (suc left) number serial =
      ap suc (length-numbers s m left (suc number) (suc serial))

  get_elem?-numbers :
      (s : Scenario) (m : ModelConfig F) (left number serial k : ℕ)
      → k < left
      → get_elem? (expand_numbers new_trial_id benchmark_run_id s m left number serial) k
        ≡ some (spec s m (number + k) (serial + k))
  unfolding expand_numbers
  get_elem?-numbers s m zero number serial k h = ground arith
  get_elem?-numbers s m (suc left) number serial zero h =
      let a : number + 0 ≡ number = omega arith in
      let b : serial + 0 ≡ serial = omega arith in rw (a, b) refl
  get_elem?-numbers s m (suc left) number serial (suc k) h =
      let a : suc number + k ≡ number + suc k = omega arith in
      let b : suc serial + k ≡ serial + suc k = omega arith in
      rw (a, b) at (get_elem?-numbers s m left (suc number) (suc serial) k (omega arith))

  length-models :
      (s : Scenario) (ms : List (ModelConfig F)) (trials serial : ℕ)
      → length (expand_models new_trial_id benchmark_run_id s ms trials serial) ≡ length ms * trials
  unfolding expand_models
  length-models s [] trials serial = omega arith
  length-models s (m ∷ ms) trials serial =
      let rest = length-models s ms trials (serial + trials) in
      let first = length-numbers s m trials 1 serial in
      let both =
        length-append (expand_numbers new_trial_id benchmark_run_id s m trials 1 serial)
          (expand_models new_trial_id benchmark_run_id s ms trials (serial + trials)) in
      let product : suc (length ms) * trials ≡ trials + length ms * trials = ground arith in
      omega arith

  get_elem?-models :
      (s : Scenario) (ms : List (ModelConfig F)) (m : ModelConfig F) (trials serial j k : ℕ)
      → get_elem? ms j ≡ some m
      → k < trials
      → get_elem? (expand_models new_trial_id benchmark_run_id s ms trials serial) (j * trials + k)
        ≡ some (spec s m (1 + k) (serial + (j * trials + k)))
  unfolding expand_models
  get_elem?-models s [] m trials serial j k h lt = cc
  get_elem?-models s (n ∷ ms) m trials serial zero k h lt =
      let here : 0 * trials + k ≡ k = ground arith in
      let same : n ≡ m = ap (λ o. elim o [ none ↦ n | some x ↦ x ]) h in
      let inside = length-numbers s n trials 1 serial in
      rw (here, sym same)
        (get_elem?-append_left (expand_numbers new_trial_id benchmark_run_id s n trials 1 serial)
            (expand_models new_trial_id benchmark_run_id s ms trials (serial + trials)) k
            (omega arith)
          ∙ get_elem?-numbers s n trials 1 serial k lt)
  get_elem?-models s (n ∷ ms) m trials serial (suc j) k h lt =
      let first = expand_numbers new_trial_id benchmark_run_id s n trials 1 serial in
      let rest = expand_models new_trial_id benchmark_run_id s ms trials (serial + trials) in
      let inside = length-numbers s n trials 1 serial in
      let past : suc j * trials + k ≡ length first + (j * trials + k) = ground (arith, inside) in
      let serials : serial + trials + (j * trials + k) ≡ serial + (suc j * trials + k) =
        ground arith in
      ap (λ i. get_elem? (first ++ rest) i) past
      ∙ get_elem?-append_right first rest (j * trials + k)
      ∙ get_elem?-models s ms m trials (serial + trials) j k h lt
      ∙ ap (λ i. some (spec s m (1 + k) i)) serials

  length-scenarios :
      (ss : List Scenario) (ms : List (ModelConfig F)) (trials serial : ℕ)
      → length (expand_scenarios new_trial_id benchmark_run_id ss ms trials serial)
        ≡ length ss * (length ms * trials)
  unfolding expand_scenarios
  length-scenarios [] ms trials serial = omega arith
  length-scenarios (s ∷ ss) ms trials serial =
      let rest = length-scenarios ss ms trials (serial + length ms * trials) in
      let first = length-models s ms trials serial in
      let both = length-append (expand_models new_trial_id benchmark_run_id s ms trials serial) (
        expand_scenarios new_trial_id benchmark_run_id ss ms trials
          (serial + length ms * trials)) in
      let product : suc (length ss) * (length ms * trials)
          ≡ length ms * trials + length ss * (length ms * trials) =
        ground arith in
      omega arith

  get_elem?-scenarios :
      (ss : List Scenario) (s : Scenario) (ms : List (ModelConfig F)) (m : ModelConfig F)
      (trials serial i j k : ℕ)
      → get_elem? ss i ≡ some s
      → get_elem? ms j ≡ some m
      → k < trials
      → j * trials + k < length ms * trials
      → get_elem?
          (expand_scenarios new_trial_id benchmark_run_id ss ms trials serial)
          (i * (length ms * trials) + (j * trials + k))
        ≡ some (spec s m (1 + k) (serial + (i * (length ms * trials) + (j * trials + k))))
  unfolding expand_scenarios
  get_elem?-scenarios [] s ms m trials serial i j k at_i at_j lt inside = cc
  get_elem?-scenarios (r ∷ ss) s ms m trials serial zero j k at_i at_j lt inside =
      let here : 0 * (length ms * trials) + (j * trials + k) ≡ j * trials + k = ground arith in
      let same : r ≡ s = ap (λ o. elim o [ none ↦ r | some x ↦ x ]) at_i in
      let size = length-models r ms trials serial in
      rw (here, sym same)
        (get_elem?-append_left (expand_models new_trial_id benchmark_run_id r ms trials serial)
            (expand_scenarios new_trial_id benchmark_run_id ss ms trials
              (serial + length ms * trials))
            (j * trials + k) (rw size inside)
          ∙ get_elem?-models r ms m trials serial j k at_j lt)
  get_elem?-scenarios (r ∷ ss) s ms m trials serial (suc i) j k at_i at_j lt inside =
      let first = expand_models new_trial_id benchmark_run_id r ms trials serial in
      let rest =
        expand_scenarios new_trial_id benchmark_run_id ss ms trials (serial + length ms * trials) in
      let size = length-models r ms trials serial in
      let past : suc i * (length ms * trials) + (j * trials + k)
          ≡ length first + (i * (length ms * trials) + (j * trials + k)) =
        ground (arith, size) in
      let serials : serial + length ms * trials + (i * (length ms * trials) + (j * trials + k))
          ≡ serial + (suc i * (length ms * trials) + (j * trials + k)) =
        ground arith in
      ap (λ n. get_elem? (first ++ rest) n) past
      ∙ get_elem?-append_right first rest (i * (length ms * trials) + (j * trials + k))
      ∙ get_elem?-scenarios ss s ms m trials (serial + length ms * trials) i j k at_i at_j lt inside
      ∙ ap (λ n. some (spec s m (1 + k) n)) serials

  inside_block :
      (ms : List (ModelConfig F)) (m : ModelConfig F) (trials j k : ℕ)
      → get_elem? ms j ≡ some m
      → k < trials
      → j * trials + k < length ms * trials
  inside_block [] m trials j k at_j lt = cc
  inside_block (n ∷ ms) m trials zero k at_j lt = ground arith
  inside_block (n ∷ ms) m trials (suc j) k at_j lt =
      let rest = inside_block ms m trials j k at_j lt in ground arith

  -- There is one trial for each scenario, model and number up to the configured trials.
  pub length-expand_trials :
      (ss : List Scenario) (ms : List (ModelConfig F)) (trials : ℕ)
      → length (expand_trials new_trial_id benchmark_run_id ss ms (pos trials))
        ≡ length ss * (length ms * trials)
  unfolding expand_trials
  length-expand_trials ss ms trials = length-scenarios ss ms trials 0

  -- The trial with number `k + 1` of scenario `i` and model `j` stands where its number in the order
  -- of scenarios, models and repetitions says, and has the identifier that was drawn at that number.
  pub get_elem?-expand_trials :
      (ss : List Scenario) (s : Scenario) (ms : List (ModelConfig F)) (m : ModelConfig F)
      (trials i j k : ℕ)
      → get_elem? ss i ≡ some s
      → get_elem? ms j ≡ some m
      → k < trials
      → get_elem?
          (expand_trials new_trial_id benchmark_run_id ss ms (pos trials))
          (i * (length ms * trials) + (j * trials + k))
        ≡ some (
            new_spec new_trial_id benchmark_run_id s m
              (1 + k)
              (i * (length ms * trials) + (j * trials + k)))
  unfolding expand_trials
  get_elem?-expand_trials ss s ms m trials i j k at_i at_j lt =
      let position = i * (length ms * trials) + (j * trials + k) in
      let same : 0 + position ≡ position = omega arith in
      get_elem?-scenarios ss s ms m trials 0 i j k at_i at_j lt
        (inside_block ms m trials j k at_j lt)
      ∙ ap (λ n. some (spec s m (1 + k) n)) same
