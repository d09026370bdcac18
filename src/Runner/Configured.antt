-- ===== src/Runner/Configured.antt =====
-- A run with the concurrency of a loaded configuration (internal/config/config.go, internal/runner/executor.go).
use trimetry.Base.{◌<◌, ◌≡◌, ◌⊎◌, String, true, List, all, ltb→lt, ap, ◌∙◌}
use trimetry.Base.Int.{ℤ, pos, negsuc, pos_part, positive}
use trimetry.Base.Float.{FloatOps}
use trimetry.Evaluator.{Reasons}
use trimetry.Config.Types.{Config}
use trimetry.Config.Defaults.{apply_defaults}
use trimetry.Config.Bounds.{apply_defaults-Bounded}
use trimetry.Runner.Types.{TrialSpec, Executor, Surroundings}
use trimetry.Runner.Pool.{Pool, start_pool, capacity, Step, Reach}
use trimetry.Runner.Pool.Places.{is_done, Reach-goes_on}

positive_lt : (a : ℤ) → positive a ≡ true → 0 < pos_part a
positive_lt (pos n) h = ltb→lt 0 n h
positive_lt (negsuc n) h = cc

module _ (ops : FloatOps) (reasons : Reasons) (e : Executor) where
  capacity-apply_defaults :
      (getenv : String → String) (c : Config ops.Float)
      → e.concurrency ≡ (apply_defaults getenv c).benchmark.concurrency
      → 0 < capacity e
  unfolding capacity
  capacity-apply_defaults getenv c same =
      positive_lt e.concurrency (ap positive same ∙ (apply_defaults-Bounded getenv c).concurrency)

  -- With the concurrency that the defaults leave in a configuration, whatever the file says, no run is
  -- ever stuck: until every trial has its result, some trial can go on.
  pub apply_defaults-goes_on :
      (getenv : String → String) (c : Config ops.Float) (specs : List (TrialSpec ops.Float))
      (p : Pool ops.Float) (w : Surroundings ops.Float)
      → e.concurrency ≡ (apply_defaults getenv c).benchmark.concurrency
      → Reach ops reasons e (start_pool specs) p
      → (all is_done p.slots ≡ true)
        ⊎ ((q : Pool ops.Float) × Step ops reasons e p q × (q.cancelled ≡ p.cancelled))
  apply_defaults-goes_on getenv c specs p w same r =
      Reach-goes_on ops reasons e specs p w (capacity-apply_defaults getenv c same) r
