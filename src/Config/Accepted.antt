-- ===== src/Config/Accepted.antt =====
-- What a configuration is that Validate of internal/config/config.go finds no error in.
use trimetry.Base.{
  ℕ, suc, ◌≡◌, refl, String, Bool, true, false, ◌||◌, List, [], ◌∷◌, ◌++◌, All, All-imp, is_empty,
  str_eq, if◌then◌else◌,
}
use trimetry.Model.Trial.{Scenario}
use trimetry.Config.Types.{Config}
use trimetry.Config.Validate.{
  ConfigError, error_if, was_seen, id_errors, now_seen, scenario_errors, benchmark_errors, validate,
  no_scenario,
}

pub nil-append_left {ℓ} : {A : Type ℓ} (xs ys : List A) → xs ++ ys ≡ [] → xs ≡ []
nil-append_left [] ys h = refl
nil-append_left (x ∷ xs) ys h = cc

pub nil-append_right {ℓ} : {A : Type ℓ} (xs ys : List A) → xs ++ ys ≡ [] → ys ≡ []
nil-append_right [] ys h = h
nil-append_right (x ∷ xs) ys h = cc

pub error_if-nil : (b : Bool) (e : ConfigError) → error_if b e ≡ [] → b ≡ false
error_if-nil true e h = cc
error_if-nil false e h = refl

-- Each scenario has an identifier, which no later one has.
pub data Distinct : List Scenario → Type 0 where
  no_more : Distinct []
  one_more :
      (s : Scenario) (ss : List Scenario)
      → str_eq s.scenario_id "" ≡ false
      → All (λ t. str_eq s.scenario_id t.scenario_id ≡ false) ss
      → Distinct ss
      → Distinct (s ∷ ss)

record IsFresh (id : String) (seen : List String) : Type 0 where
  named : str_eq id "" ≡ false
  unseen : was_seen id seen ≡ false

id_errors-nil :
    (i : ℕ) (id : String) (seen : List String) → id_errors i id seen ≡ [] → IsFresh id seen
unfolding id_errors
id_errors-nil i id seen = go (str_eq id "") (was_seen id seen) refl refl
  where
    go :
        (a b : Bool)
        → str_eq id "" ≡ a
        → was_seen id seen ≡ b
        → (if a
            then ConfigError.scenario_id_required i ∷ []
            else if b
            then ConfigError.duplicate_scenario_id id ∷ []
            else [])
          ≡ []
        → IsFresh id seen
    go true b named unseen h = cc
    go false true named unseen h = cc
    go false false named unseen h = record { named = named; unseen = unseen }

now_seen-fresh : (id : String) (seen : List String) → IsFresh id seen → now_seen id seen ≡ id ∷ seen
unfolding now_seen
now_seen-fresh id seen f = rw (f.named, f.unseen) refl

or-false_left : (a b : Bool) → (a || b) ≡ false → a ≡ false
or-false_left true b h = h
or-false_left false b h = refl

or-false_right : (a b : Bool) → (a || b) ≡ false → b ≡ false
or-false_right true b h = cc
or-false_right false b h = h

-- None of the scenarios has an identifier that was seen, and the identifiers differ.
record AllFresh (seen : List String) (ss : List Scenario) : Type 0 where
  unseen : All (λ s. was_seen s.scenario_id seen ≡ false) ss
  distinct : Distinct ss

scenario_errors-nil :
    (i : ℕ) (seen : List String) (ss : List Scenario)
    → scenario_errors i seen ss ≡ []
    → AllFresh seen ss
unfolding scenario_errors
scenario_errors-nil i seen [] h = record { unseen = tt; distinct = no_more }
scenario_errors-nil i seen (s ∷ ss) h =
    let fresh =
      id_errors-nil i s.scenario_id seen (nil-append_left (id_errors i s.scenario_id seen) _ h) in
    let rest = nil-append_right (id_errors i s.scenario_id seen) _ h in
    let later =
      nil-append_right (error_if (str_eq s.scenario_version "") _ ++ error_if (str_eq s.input "") _)
        _ rest in
    let ih =
      scenario_errors-nil (suc i) (s.scenario_id ∷ seen) ss
        (rw (now_seen-fresh s.scenario_id seen fresh) at later) in
    record {
      unseen = (
        fresh.unseen,
        All-imp ss (λ t. or-false_right (str_eq s.scenario_id t.scenario_id) _) ih.unseen,
      );
      distinct =
          one_more s ss fresh.named
            (All-imp ss (λ t. or-false_left (str_eq s.scenario_id t.scenario_id) _) ih.unseen)
            ih.distinct;
    }

-- A configuration in which no error is found has at least one scenario, and the identifiers (`scenario_id`) of its
-- scenarios are not empty and all different.
pub validate-Distinct :
    {F : Type 0} (c : Config F)
    → validate c ≡ []
    → (is_empty c.scenarios ≡ false) × Distinct c.scenarios
unfolding validate
validate-Distinct c h =
    let a = nil-append_right (benchmark_errors c.benchmark) _ h in
    let b = nil-append_right (error_if (is_empty c.scenarios) no_scenario) _ a in
    (
      error_if-nil (is_empty c.scenarios) no_scenario
          (nil-append_left (error_if (is_empty c.scenarios) no_scenario) _ a),
      (scenario_errors-nil 0 [] c.scenarios
          (nil-append_left (scenario_errors 0 [] c.scenarios) _ b)).distinct,
    )
