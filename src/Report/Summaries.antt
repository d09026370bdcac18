-- ===== src/Report/Summaries.antt =====
-- internal/report/report.go: buildSummaries.
use Prim.Native.String.{compare}
use text.Mathlib.Text.{is_le}
use trimetry.Base.{String, Option, none, some, ◌>>=◌, List, [], ◌∷◌, ◌++◌, if◌then◌else◌}
use trimetry.Base.Dict.{Dict, insert, lookup}
use trimetry.Base.Float.{FloatOps}
use trimetry.Model.Trial.{Scenario, Trial}
use trimetry.Model.Summary.{ScenarioSummary}
use trimetry.Model.Status.{scenario_model_key}
use trimetry.Aggregator.Summarize.{summarize}

unfoldable pub scenario_map : List Scenario → Dict Scenario → Dict Scenario
scenario_map [] m = m
scenario_map (s ∷ ss) m = scenario_map ss (insert s.scenario_id s m)

unfoldable pub key_of : {F : Type 0} → Trial F → String
key_of t = scenario_model_key t.scenario_id t.model_name

-- groups[key], nil where there is none
unfoldable pub group_at : {F : Type 0} → String → Dict (List (Trial F)) → List (Trial F)
group_at key groups = elim (lookup key groups) [ none ↦ [] | some ts ↦ ts ]

unfoldable pub group_trials :
    {F : Type 0} → List (Trial F) → Dict (List (Trial F)) → Dict (List (Trial F))
unfolding group_at key_of
group_trials [] groups = groups
group_trials (t ∷ ts) groups =
    group_trials ts (insert (key_of t) (group_at (key_of t) groups ++ (t ∷ [])) groups)

unfoldable pub keys : {V : Type 0} → Dict V → List String
keys [] = []
keys ((k, v) ∷ m) = k ∷ keys m

-- sort.Strings, by insertion
unfoldable pub insert_sorted : String → List String → List String
insert_sorted s [] = s ∷ []
insert_sorted s (t ∷ ts) =
    let rest = insert_sorted s ts in if is_le (compare s t) then s ∷ t ∷ ts else t ∷ rest

unfoldable pub sort_strings : List String → List String
unfolding insert_sorted
sort_strings [] = []
sort_strings (s ∷ ss) = insert_sorted s (sort_strings ss)

unfoldable pub named : {F : Type 0} → Dict Scenario → ScenarioSummary F → ScenarioSummary F
named scenarios s = elim (lookup s.scenario_id scenarios) [
  | none ↦ s
  | some sc ↦ record s { scenario_name = sc.name; input = sc.input }
]

module _ (ops : FloatOps) where
  -- `none` where Summarize panics.
  unfoldable pub summarize_keys :
      Dict Scenario
      → Dict (List (Trial ops.Float))
      → List String
      → Option (List (ScenarioSummary ops.Float))
  summarize_keys scenarios groups [] = some []
  summarize_keys scenarios groups (key ∷ rest) = do
    s ← summarize ops (group_at key groups)
    ss ← summarize_keys scenarios groups rest
    some (named scenarios s ∷ ss)

  unfoldable pub build_summaries :
      List (Trial ops.Float) → List Scenario → Option (List (ScenarioSummary ops.Float))
  build_summaries trials scenarios =
      let groups = group_trials trials [] in
      summarize_keys (scenario_map scenarios []) groups (sort_strings (keys groups))
