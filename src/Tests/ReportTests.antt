-- ===== src/Tests/ReportTests.antt =====
-- The theorems about internal/report at concrete inputs.
use trimetry.Base.{
  ℕ, ◌≡◌, refl, Bool, true, false, List, [], ◌∷◌, String, All, select, length, str_eq, eq_iff,
  if◌then◌else◌,
}
use trimetry.Model.Trial.{Trial}
use trimetry.Model.Status.{scenario_model_key}
use trimetry.Report.Summaries.{build_summaries, key_of, scenario_map}
use trimetry.Report.Groups.Pairs.{same_pair, TellsApart, pair_summaries, build_summaries-Pairs}
use trimetry.Report.Groups.{has_key, occurrences, summaries_of, build_summaries-Groups}
use trimetry.Report.Write.{Generator, write}
use trimetry.Report.Returned.{Works, returned, write-returned}
use trimetry.Tests.Sample.{natural_ops, plain_formats, benchmark_run, scenario, trial, disk}

abbrev generator : Generator
generator = record {
  output_dir = "out";
  formats = "json" ∷ "markdown" ∷ [];
  mask_output = true;
  scenarios = scenario ∷ [];
}

disk-Works : Works disk
disk-Works = record {
  make_dir = λ dir. refl;
  create = λ path. refl;
  encode_manifest = λ m. refl;
  encode_trial = λ t. refl;
  encode_error = λ e. refl;
  encode_summary = λ s. refl;
}

build_summaries-Groups_example :
    (ks : List String) × (build_summaries natural_ops benchmark_run.trials (scenario ∷ [])
      ≡ summaries_of natural_ops (scenario_map (scenario ∷ []) []) benchmark_run.trials ks)
    × ((key : String) → occurrences key ks ≡ (if has_key key benchmark_run.trials then 1 else 0))
build_summaries-Groups_example =
    build_summaries-Groups natural_ops benchmark_run.trials (scenario ∷ [])

-- Two trials of one scenario and one of another.
abbrev two_scenarios : List (Trial ℕ)
two_scenarios = trial ∷ record trial { scenario_id = "other" } ∷ trial ∷ []

not_equal : (b : Bool) (s t : String) → str_eq s t ≡ false → s ≡ t → b ≡ true
not_equal b s t h e = let same = (eq_iff s t).1 e in cc

two_scenarios-TellsApart : TellsApart two_scenarios
unfolding same_pair key_of scenario_model_key
two_scenarios-TellsApart = (
  (λ _. refl, (λ e. not_equal false "other/sonnet" "greet/sonnet" refl e, (λ _. refl, tt))),
  (
    (
      λ e. not_equal false "greet/sonnet" "other/sonnet" refl e,
      (λ _. refl, (λ e. not_equal false "greet/sonnet" "other/sonnet" refl e, tt)),
    ),
    ((λ _. refl, (λ e. not_equal false "other/sonnet" "greet/sonnet" refl e, (λ _. refl, tt))), tt),
  ),
)

build_summaries-Pairs_example :
    (firsts : List (Trial ℕ)) × (build_summaries natural_ops two_scenarios (scenario ∷ [])
      ≡ pair_summaries natural_ops (scenario_map (scenario ∷ []) []) two_scenarios firsts)
    × All (λ t. length (select (same_pair t) firsts) ≡ 1) two_scenarios
build_summaries-Pairs_example =
    build_summaries-Pairs natural_ops two_scenarios (scenario ∷ []) two_scenarios-TellsApart

write-returned_example :
    (write plain_formats disk generator benchmark_run 0).1
    ≡ returned (build_summaries natural_ops benchmark_run.trials generator.scenarios)
write-returned_example = write-returned plain_formats disk disk-Works generator benchmark_run 0
