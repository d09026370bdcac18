-- ===== src/Comparator.antt =====
-- internal/comparator/comparator.go: the summaries of two runs are compared.
pub mod Pairs
use Prim.Native.String.{compare}
use text.Mathlib.Text.{is_lt}
use trimetry.Base.{
  ℕ, String, Bool, true, false, ◌||◌, Option, none, some, is_some, is_none, List, [], ◌∷◌, ◌++◌,
  ltb, str_eq, if◌then◌else◌,
}
use trimetry.Base.Int.{pos}
use trimetry.Base.Dict.{Dict, lookup, insert}
use trimetry.Base.Float.{FloatOps}
use trimetry.Model.Summary.{StatsSummary, MetricsSummary, ScenarioSummary, RunSummary}
use trimetry.Model.Status.{scenario_model_key}
use trimetry.Metrics.Fields.{Field, fields}

pub record ComparisonSide (F : Type 0) : Type 0 where
  pub trial_count : ℕ
  pub completed_count : ℕ
  pub failed_count : ℕ
  pub timeout_count : ℕ
  pub cancelled_count : ℕ
  pub failure_rate : F
  pub accuracy_rate : Option F

pub record MetricDiff (F : Type 0) : Type 0 where
  pub metric : String
  pub baseline_mean : F
  pub candidate_mean : F
  pub abs_diff : F
  pub change_percent : F
  pub baseline_p50 : F
  pub candidate_p50 : F
  pub baseline_p90 : F
  pub candidate_p90 : F
  pub baseline_p95 : F
  pub candidate_p95 : F
  pub baseline_std_dev : F
  pub candidate_std_dev : F
  pub baseline_min : F
  pub candidate_min : F
  pub baseline_max : F
  pub candidate_max : F

pub record ScenarioComparison (F : Type 0) : Type 0 where
  pub scenario_id : String
  pub baseline_model : String
  pub candidate_model : String
  pub baseline : ComparisonSide F
  pub candidate : ComparisonSide F
  pub diffs : List (MetricDiff F)

-- The warnings, each by what it says.
pub data Warning : Type 0 where
  not_in_candidate : (key : String) → Warning
  not_in_baseline : (key : String) → Warning
  version_differs : (scenario_id baseline_version candidate_version : String) → Warning
  small_sample : (scenario_id : String) (baseline_count candidate_count : ℕ) → Warning

pub record ComparisonReport (F : Type 0) : Type 0 where
  pub baseline : String
  pub baseline_run_id : String
  pub candidate : String
  pub candidate_run_id : String
  pub comparisons : List (ScenarioComparison F)
  pub warnings : List Warning

-- What the loop over the baseline's scenarios has made so far.
pub record Compared (F : Type 0) : Type 0 where
  pub comparisons : List (ScenarioComparison F)
  pub warnings : List Warning

module _ {F : Type 0} where
  -- The last of the summaries with a key stands for it.
  index_from : Dict (ScenarioSummary F) → List (ScenarioSummary F) → Dict (ScenarioSummary F)
  index_from m [] = m
  index_from m (s ∷ ss) = index_from (insert (scenario_model_key s.scenario_id s.model_name) s m) ss

  unfoldable pub index_scenarios : List (ScenarioSummary F) → Dict (ScenarioSummary F)
  unfolding index_from
  index_scenarios ss = index_from [] ss

  side_of : ScenarioSummary F → ComparisonSide F
  side_of s = record {
    trial_count = s.trial_count;
    completed_count = s.completed_count;
    failed_count = s.failed_count;
    timeout_count = s.timeout_count;
    cancelled_count = s.cancelled_count;
    failure_rate = s.failure_rate;
    accuracy_rate = s.accuracy_rate;
  }

  version_warnings : ScenarioSummary F → ScenarioSummary F → List Warning
  version_warnings bs cs =
      if str_eq bs.scenario_version cs.scenario_version
      then []
      else version_differs bs.scenario_id bs.scenario_version cs.scenario_version ∷ []

  abbrev sort_key : ScenarioComparison F → String
  sort_key c = scenario_model_key c.scenario_id c.baseline_model

  unfoldable pub insert_sorted :
      ScenarioComparison F → List (ScenarioComparison F) → List (ScenarioComparison F)
  insert_sorted c [] = c ∷ []
  insert_sorted c (d ∷ ds) =
      let later = insert_sorted c ds in
      if is_lt (compare (sort_key d) (sort_key c)) then d ∷ later else c ∷ d ∷ ds

  -- sort.Slice by the keys.
  unfoldable pub sort_comparisons : List (ScenarioComparison F) → List (ScenarioComparison F)
  sort_comparisons [] = []
  sort_comparisons (c ∷ cs) = insert_sorted c (sort_comparisons cs)

  -- The loop over the candidate's keys.
  unmatched : Dict (ScenarioSummary F) → Dict (ScenarioSummary F) → List Warning
  unmatched base [] = []
  unmatched base ((key, cs) ∷ cand) =
      let rest = unmatched base cand in
      if is_none (lookup key base) then not_in_baseline key ∷ rest else rest

  small_samples : List (ScenarioComparison F) → List Warning
  small_samples [] = []
  small_samples (c ∷ cs) =
      let rest = small_samples cs in
      if ltb c.baseline.trial_count 5 || ltb c.candidate.trial_count 5
      then small_sample c.scenario_id c.baseline.trial_count c.candidate.trial_count ∷ rest
      else rest

module _ (ops : FloatOps) where
  change_percent : ops.Float → ops.Float → ops.Float
  change_percent diff mean =
      if ops.eq mean (ops.of_int (pos 0))
      then ops.of_int (pos 0)
      else ops.mul (ops.div diff mean) (ops.of_int (pos 100))

  diff_of :
      String
      → Option (StatsSummary ops.Float)
      → Option (StatsSummary ops.Float)
      → List (MetricDiff ops.Float)
  unfolding change_percent
  diff_of key (some b) (some c) =
      let diff = ops.sub c.mean b.mean in
      record {
        metric = key;
        baseline_mean = b.mean;
        candidate_mean = c.mean;
        abs_diff = diff;
        change_percent = change_percent diff b.mean;
        baseline_p50 = b.median;
        candidate_p50 = c.median;
        baseline_p90 = b.p90;
        candidate_p90 = c.p90;
        baseline_p95 = b.p95;
        candidate_p95 = c.p95;
        baseline_std_dev = b.std_dev;
        candidate_std_dev = c.std_dev;
        baseline_min = b.minimum;
        candidate_min = c.minimum;
        baseline_max = b.maximum;
        candidate_max = c.maximum;
      }
      ∷ []
  diff_of key _ _ = []

  compare_fields :
      List (Field ops.Float)
      → MetricsSummary ops.Float
      → MetricsSummary ops.Float
      → List (MetricDiff ops.Float)
  unfolding diff_of
  compare_fields [] bs cs = []
  compare_fields (f ∷ fs) bs cs =
      diff_of f.key (f.extract bs) (f.extract cs) ++ compare_fields fs bs cs

  unfoldable pub compare_metrics :
      Option (MetricsSummary ops.Float)
      → Option (MetricsSummary ops.Float)
      → List (MetricDiff ops.Float)
  unfolding compare_fields
  compare_metrics (some bs) (some cs) = compare_fields (fields ops) bs cs
  compare_metrics _ _ = []

  unfoldable pub comparison_of :
      ScenarioSummary ops.Float → ScenarioSummary ops.Float → ScenarioComparison ops.Float
  unfolding side_of
  comparison_of bs cs = record {
    scenario_id = bs.scenario_id;
    baseline_model = bs.model_name;
    candidate_model = cs.model_name;
    baseline = side_of bs;
    candidate = side_of cs;
    diffs = compare_metrics bs.metrics cs.metrics;
  }

  -- The body of the loop over the baseline's scenarios.
  unfoldable pub visit :
      String
      → ScenarioSummary ops.Float
      → Option (ScenarioSummary ops.Float)
      → Compared ops.Float
      → Compared ops.Float
  unfolding version_warnings
  visit key bs none r = record r { warnings = r.warnings ++ not_in_candidate key ∷ [] }
  visit key bs (some cs) r = record {
    comparisons = r.comparisons ++ comparison_of bs cs ∷ [];
    warnings = r.warnings ++ version_warnings bs cs;
  }

  unfoldable pub visit_all :
      Dict (ScenarioSummary ops.Float)
      → Dict (ScenarioSummary ops.Float)
      → Compared ops.Float
      → Compared ops.Float
  visit_all [] cand r = r
  visit_all ((key, bs) ∷ base) cand r = visit_all base cand (visit key bs (lookup key cand) r)

  -- The maps are walked in the order of their lists, which stands for any order.
  unfoldable pub compare_runs :
      RunSummary ops.Float → RunSummary ops.Float → ComparisonReport ops.Float
  unfolding unmatched small_samples
  compare_runs baseline candidate =
      let base = index_scenarios baseline.scenarios in
      let cand = index_scenarios candidate.scenarios in
      let r = visit_all base cand (record { comparisons = []; warnings = [] }) in
      let sorted = sort_comparisons r.comparisons in
      record {
        baseline = baseline.name;
        baseline_run_id = baseline.benchmark_run_id;
        candidate = candidate.name;
        candidate_run_id = candidate.benchmark_run_id;
        comparisons = sorted;
        warnings = r.warnings ++ unmatched base cand ++ small_samples sorted;
      }
