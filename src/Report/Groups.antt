-- ===== src/Report/Groups.antt =====
-- internal/report/report.go: the trials of a summary are those of one key, which joins scenario and model, and each is
-- in one summary.
pub mod Pairs
use trimetry.Base.{
  ℕ, suc, String, Bool, true, ◌≡◌, refl, sym, ap, ◌∙◌, ◌==◌, Option, none, some, ◌>>=◌, List, [],
  ◌∷◌, ◌++◌, select, any, All, All-imp, ◌≤◌, append-nil, append_assoc, arith, str_eq, eq_iff,
  eq_refl, inl, inr, Bool-cases, if◌then◌else◌,
}
use trimetry.Base.Dict.{Dict, insert, lookup, lookup-insert}
use trimetry.Base.Float.{FloatOps}
use trimetry.Model.Trial.{Scenario, Trial}
use trimetry.Model.Summary.{ScenarioSummary}
use trimetry.Aggregator.Summarize.{summarize}
use trimetry.Report.Summaries.{
  key_of, group_at, group_trials, keys, insert_sorted, sort_strings, named, scenario_map,
  summarize_keys, build_summaries,
}

-- The trials whose joined key is the given text, in their order.
unfoldable pub trials_of : {F : Type 0} → String → List (Trial F) → List (Trial F)
trials_of key ts = select (λ t. str_eq (key_of t) key) ts

module _ {F : Type 0} where
  or_nil : Option (List (Trial F)) → List (Trial F)
  or_nil none = []
  or_nil (some ts) = ts

  group_at-insert :
      (key asked : String) (ts : List (Trial F)) (groups : Dict (List (Trial F)))
      → group_at asked (insert key ts groups)
        ≡ (if str_eq key asked then ts else group_at asked groups)
  unfolding group_at or_nil
  group_at-insert key asked ts groups =
      ap or_nil (lookup-insert key asked ts groups)
      ∙ elim (Bool-cases (str_eq key asked)) [ inl e ↦ rw e refl | inr e ↦ rw e refl ]

  pub group_at-group_trials :
      (key : String) (ts : List (Trial F)) (groups : Dict (List (Trial F)))
      → group_at key (group_trials ts groups) ≡ group_at key groups ++ trials_of key ts
  unfolding group_trials trials_of
  group_at-group_trials key [] groups = sym (append-nil (group_at key groups))
  group_at-group_trials key (t ∷ ts) groups =
      let own = group_at (key_of t) groups ++ (t ∷ []) in
      group_at-group_trials key ts (insert (key_of t) own groups)
      ∙ ap (λ g. g ++ trials_of key ts) (group_at-insert (key_of t) key own groups)
      ∙ elim (Bool-cases (str_eq (key_of t) key)) [
        | inl e ↦ rw e (
            ap (λ k. (group_at k groups ++ (t ∷ [])) ++ trials_of key ts)
              ((eq_iff (key_of t) key).0 e)
            ∙ append_assoc (group_at key groups) (t ∷ []) (trials_of key ts))
        | inr e ↦ rw e refl
      ]

unfoldable pub occurrences : String → List String → ℕ
occurrences key [] = 0
occurrences key (k ∷ ks) = let rest = occurrences key ks in if str_eq k key then suc rest else rest

occurrences-insert_sorted :
    (key s : String) (ss : List String)
    → occurrences key (insert_sorted s ss) ≡ occurrences key (s ∷ ss)
unfolding insert_sorted occurrences
occurrences-insert_sorted key s [] = refl
occurrences-insert_sorted key s (t ∷ ts) = ground (arith, occurrences-insert_sorted key s ts)

occurrences-sort_strings :
    (key : String) (ss : List String) → occurrences key (sort_strings ss) ≡ occurrences key ss
unfolding sort_strings occurrences
occurrences-sort_strings key [] = refl
occurrences-sort_strings key (s ∷ ss) =
    occurrences-insert_sorted key s (sort_strings ss)
    ∙ ap (λ n. if str_eq s key then suc n else n) (occurrences-sort_strings key ss)

module _ {V : Type 0} where
  -- A key is inserted once, whether it is new or not.
  occurrences-insert :
      (key k : String) (v : V) (m : Dict V)
      → occurrences key (keys (insert k v m)) ≡ (
          if str_eq k key
          then (if occurrences key (keys m) == 0 then 1 else occurrences key (keys m))
          else occurrences key (keys m))
  unfolding occurrences keys insert
  occurrences-insert key k v [] = ground arith
  occurrences-insert key k v ((name, held) ∷ m) =
      ground (arith, eq_iff k key, eq_iff name key, eq_iff name k, occurrences-insert key k v m)

module _ {F : Type 0} where
  -- The trials have the key.
  abbrev pub has_key : String → List (Trial F) → Bool
  has_key key ts = any (λ t. str_eq (key_of t) key) ts

  occurrences-group_trials :
      (key : String) (ts : List (Trial F)) (groups : Dict (List (Trial F)))
      → occurrences key (keys groups) ≤ 1
      → occurrences key (keys (group_trials ts groups))
        ≡ (if has_key key ts then 1 else occurrences key (keys groups))
  unfolding group_trials
  occurrences-group_trials key [] groups h = refl
  occurrences-group_trials key (t ∷ ts) groups h =
      let own = group_at (key_of t) groups ++ (t ∷ []) in
      let now = occurrences-insert key (key_of t) own groups in
      let bound : occurrences key (keys (insert (key_of t) own groups)) ≤ 1 = ground (arith, now) in
      let rest = occurrences-group_trials key ts (insert (key_of t) own groups) bound in
      rest ∙ ground (arith, now)

  pub occurrences-groups :
      (key : String) (ts : List (Trial F))
      → occurrences key (sort_strings (keys (group_trials ts [])))
        ≡ (if has_key key ts then 1 else 0)
  unfolding keys occurrences
  occurrences-groups key ts =
      occurrences-sort_strings key (keys (group_trials ts []))
      ∙ occurrences-group_trials key ts [] (omega arith)

module _ (ops : FloatOps) where
  -- A summary for each key, of the trials that have it.
  unfoldable pub summaries_of :
      Dict Scenario
      → List (Trial ops.Float)
      → List String
      → Option (List (ScenarioSummary ops.Float))
  summaries_of scenarios trials [] = some []
  summaries_of scenarios trials (key ∷ rest) = do
    s ← summarize ops (trials_of key trials)
    ss ← summaries_of scenarios trials rest
    some (named scenarios s ∷ ss)

  summarize_keys-summaries_of :
      (scenarios : Dict Scenario) (trials : List (Trial ops.Float)) (ks : List String)
      → summarize_keys ops scenarios (group_trials trials []) ks ≡ summaries_of scenarios trials ks
  unfolding summarize_keys summaries_of group_at lookup
  summarize_keys-summaries_of scenarios trials [] = refl
  summarize_keys-summaries_of scenarios trials (key ∷ ks) =
      rw (group_at-group_trials key trials [], summarize_keys-summaries_of scenarios trials ks) refl

  -- The summaries of a run are made for a list of keys `scenario/model`, one for each: exactly the keys that some trial
  -- has, each once. The summary of a key is the one of all trials that have this key, in their order,
  -- named after the scenario; so every trial counts in one summary. Different scenarios and models whose
  -- joined keys are the same text share a summary.
  pub build_summaries-Groups :
      (trials : List (Trial ops.Float)) (scenarios : List Scenario)
      → (ks : List String) × (build_summaries ops trials scenarios
          ≡ summaries_of (scenario_map scenarios []) trials ks)
        × ((key : String) → occurrences key ks ≡ (if has_key key trials then 1 else 0))
  unfolding build_summaries
  build_summaries-Groups trials scenarios =
      let groups = group_trials trials [] in
      (
        sort_strings (keys groups),
        summarize_keys-summaries_of (scenario_map scenarios []) trials (sort_strings (keys groups)),
        λ key. occurrences-groups key trials,
      )
