-- ===== src/Aggregator/Stats.antt =====
-- internal/aggregator/aggregator.go: the statistics of a list of values.
use trimetry.Base.{
  ℕ, ◌-◌, ◌||◌, Option, none, some, ◌>>=◌, List, [], ◌∷◌, length, get_elem?, ltb, if◌then◌else◌,
}
use trimetry.Base.Int.{ℤ, pos, ltb_ℤ, eqb_ℤ, ◌-ℤ◌}
use trimetry.Base.Float.{FloatOps}
use trimetry.Model.Summary.{StatsSummary}

module _ (ops : FloatOps) where
  abbrev pub natural : ℕ → ops.Float
  natural n = ops.of_int (pos n)

  unfoldable pub sum_from : ops.Float → List ops.Float → ops.Float
  sum_from acc [] = acc
  sum_from acc (v ∷ vs) = sum_from (ops.add acc v) vs

  -- The loop that adds the squares of the distances to the mean.
  unfoldable pub variance_from : ops.Float → ops.Float → List ops.Float → ops.Float
  variance_from mean acc [] = acc
  variance_from mean acc (v ∷ vs) =
      let d = ops.sub v mean in variance_from mean (ops.add acc (ops.mul d d)) vs

  rounded : ops.Float → ops.Float
  rounded v =
      let digits = pos 2 -ℤ ops.floor (ops.log10 (ops.abs v)) in
      let shift =
        ops.pow (natural 10) (ops.of_int (if ltb_ℤ digits (pos 2) then pos 2 else digits)) in
      ops.div (ops.round (ops.mul v shift)) shift

  unfoldable pub round_sig : ops.Float → ops.Float
  unfolding rounded
  round_sig v =
      if ops.eq v (natural 0)
      then natural 0
      else if ops.is_nan v || ops.is_inf v
      then v
      else rounded v

  -- `sorted[i]`: out of range the program panics, which is `none`.
  unfoldable pub at : List ops.Float → ℤ → Option ops.Float
  at sorted (pos i) = get_elem? sorted i
  at sorted _ = none

  unfoldable pub interpolate : List ops.Float → ops.Float → Option ops.Float
  unfolding at
  interpolate sorted rank =
      let lower = ops.floor rank in
      let upper = ops.ceil rank in
      let frac = ops.sub rank (ops.of_int lower) in
      if eqb_ℤ lower upper then at sorted lower else do
        a ← at sorted lower
        b ← at sorted upper
        some (ops.add (ops.mul a (ops.sub (natural 1) frac)) (ops.mul b frac))

  unfoldable pub percentile : List ops.Float → ops.Float → Option ops.Float
  unfolding interpolate
  percentile [] p = some (natural 0)
  percentile (v ∷ []) p = some v
  percentile (v ∷ w ∷ vs) p =
      interpolate (v ∷ w ∷ vs)
        (ops.mul (ops.div p (natural 100)) (ops.of_int (pos (length (v ∷ w ∷ vs)) -ℤ pos 1)))

  abbrev no_stats : StatsSummary ops.Float
  no_stats = record {
    mean = natural 0;
    median = natural 0;
    std_dev = natural 0;
    minimum = natural 0;
    maximum = natural 0;
    p90 = natural 0;
    p95 = natural 0;
    count = 0;
  }

  -- `sorted` is the sorted copy of the `n` values, of which there is at least one.
  unfoldable pub stats_of_sorted : ℕ → List ops.Float → Option (StatsSummary ops.Float)
  stats_of_sorted n sorted =
      let mean = ops.div (sum_from (natural 0) sorted) (natural n) in
      let squares = variance_from mean (natural 0) sorted in
      let variance = if ltb 1 n then ops.div squares (natural (n - 1)) else squares in
      do
        median ← percentile sorted (natural 50)
        minimum ← get_elem? sorted 0
        maximum ← get_elem? sorted (n - 1)
        p90 ← percentile sorted (natural 90)
        p95 ← percentile sorted (natural 95)
        some (record {
          mean = round_sig mean;
          median = median;
          std_dev = round_sig (ops.sqrt variance);
          minimum = minimum;
          maximum = maximum;
          p90 = p90;
          p95 = p95;
          count = n;
        })

  unfoldable pub compute_stats : List ops.Float → Option (StatsSummary ops.Float)
  unfolding stats_of_sorted
  compute_stats [] = some no_stats
  compute_stats (v ∷ vs) = stats_of_sorted (length (v ∷ vs)) (ops.sort (v ∷ vs))
