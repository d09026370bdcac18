-- ===== src/Config/Bounds.antt =====
-- What the defaults of internal/config/config.go make sure of.
use trimetry.Base.{◌≡◌, refl, inl, inr, String, true, Bool-cases, List, [], ◌∷◌, map, All}
use trimetry.Base.Int.{ℤ, pos, positive}
use trimetry.Model.Trial.{Scenario}
use trimetry.Config.Types.{Config}
use trimetry.Config.Defaults.{or_positive, benchmark_defaults, scenario_defaults, apply_defaults}

or_positive-positive : (v d : ℤ) → positive d ≡ true → positive (or_positive v d) ≡ true
unfolding or_positive
or_positive-positive v d h = elim (Bool-cases (positive v)) [ inl e ↦ rw e e | inr e ↦ rw e h ]

-- The numbers that a run needs to be positive.
pub record Bounded {F : Type 0} (c : Config F) : Type 0 where
  pub trials : positive c.benchmark.trials ≡ true
  pub concurrency : positive c.benchmark.concurrency ≡ true
  pub timeout : positive c.benchmark.timeout_seconds ≡ true
  pub timeouts : All (λ s. positive s.timeout_seconds ≡ true) c.scenarios

timeouts-positive :
    (timeout : ℤ) (ss : List Scenario)
    → positive timeout ≡ true
    → All (λ s. positive s.timeout_seconds ≡ true) (map (scenario_defaults timeout) ss)
unfolding scenario_defaults
timeouts-positive timeout [] h = tt
timeouts-positive timeout (s ∷ ss) h =
    (or_positive-positive s.timeout_seconds timeout h, timeouts-positive timeout ss h)

-- Whatever the file says, the defaults leave a positive number of trials, of places and of seconds
-- for the benchmark, and a positive timeout for each scenario.
pub apply_defaults-Bounded :
    {F : Type 0} (getenv : String → String) (c : Config F) → Bounded (apply_defaults getenv c)
unfolding apply_defaults benchmark_defaults
apply_defaults-Bounded getenv c =
    let timeout = or_positive-positive c.benchmark.timeout_seconds (pos 300) refl in
    record {
      trials = or_positive-positive c.benchmark.trials (pos 5) refl;
      concurrency = or_positive-positive c.benchmark.concurrency (pos 1) refl;
      timeout = timeout;
      timeouts =
          timeouts-positive (or_positive c.benchmark.timeout_seconds (pos 300)) c.scenarios timeout;
    }
