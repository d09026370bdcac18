-- ===== src/Aggregator/Total.antt =====
-- When the statistics of internal/aggregator/aggregator.go read no element out of range.
use mathlib.Core.Path.{subst}
use trimetry.Base.{
  ℕ, suc, ◌-◌, ◌≡◌, refl, sym, ◌<◌, ◌≤◌, ◌||◌, true, Bool-cases, inl, inr, some, List, [], ◌∷◌,
  length, get_elem?-of_lt, arith,
}
use trimetry.Base.Int.{ℤ, pos, eqb_ℤ, ◌-ℤ◌, wrap64}
use trimetry.Base.Float.{FloatOps}
use trimetry.Model.Summary.{StatsSummary}
use trimetry.Aggregator.Stats.{natural, at, interpolate, percentile, stats_of_sorted, compute_stats}

-- 2 ^ 53: up to this number every natural number is a `float64`.
abbrev pub exact : ℕ
exact = 9_007_199_254_740_992

last_index : (m : ℕ) → m < exact → (pos (suc m) -ℤ pos 1) ≡ pos m
unfolding ◌-ℤ◌ wrap64
last_index m h = ground arith

module _ (ops : FloatOps) where
  abbrev pub rank : ops.Float → ℕ → ops.Float
  rank p n = ops.mul (ops.div p (natural ops 100)) (ops.of_int (pos n -ℤ pos 1))

  -- A position that stands within a list of the given length.
  abbrev pub Within : ℕ → ℤ → Type 0
  Within n i = (k : ℕ) × (i ≡ pos k) × (k < n)

  pub data IsPercent : ops.Float → Type 0 where
    fifty : IsPercent (natural ops 50)
    ninety : IsPercent (natural ops 90)
    ninety_five : IsPercent (natural ops 95)

  -- Both are numbers, and the first one is not greater.
  abbrev pub AtMost : ops.Float → ops.Float → Type 0
  AtMost a b = (ops.lt a b || ops.eq a b) ≡ true

  -- The integer is a natural number up to the given one.
  abbrev pub UpTo : ℕ → ℤ → Type 0
  UpTo m i = (k : ℕ) × (i ≡ pos k) × (k ≤ m)

  -- What is relied on: sorting keeps the number of elements, and for natural numbers up to 2 ^ 53, which are exact, a percentage is
  -- a fraction between 0 and 1, such a fraction of a number stands between 0 and the number, and so does what is
  -- between 0 and the number when it is rounded down or up.
  pub record LawfulRanks : Type 0 where
    pub length-sort : (vs : List ops.Float) → length (ops.sort vs) ≡ length vs
    pub fraction :
        (a : ℕ)
        → a ≤ 100
        → AtMost (natural ops 0) (ops.div (natural ops a) (natural ops 100))
          × AtMost (ops.div (natural ops a) (natural ops 100)) (natural ops 1)
    pub part :
        (x : ops.Float) (m : ℕ)
        → m ≤ exact
        → AtMost (natural ops 0) x
        → AtMost x (natural ops 1)
        → AtMost (natural ops 0) (ops.mul x (natural ops m))
          × AtMost (ops.mul x (natural ops m)) (natural ops m)
    pub floor_within :
        (r : ops.Float) (m : ℕ)
        → m ≤ exact
        → AtMost (natural ops 0) r
        → AtMost r (natural ops m)
        → UpTo m (ops.floor r)
    pub ceil_within :
        (r : ops.Float) (m : ℕ)
        → m ≤ exact
        → AtMost (natural ops 0) r
        → AtMost r (natural ops m)
        → UpTo m (ops.ceil r)

  at-some :
      (vs : List ops.Float) (i : ℤ)
      → Within (length vs) i
      → (v : ops.Float) × (at ops vs i ≡ some v)
  unfolding at
  at-some vs i (k, e, lt) = rw e (get_elem?-of_lt vs k lt)

  interpolate-some :
      (vs : List ops.Float) (r : ops.Float)
      → Within (length vs) (ops.floor r)
      → Within (length vs) (ops.ceil r)
      → (v : ops.Float) × (interpolate ops vs r ≡ some v)
  unfolding interpolate
  interpolate-some vs r down up =
      let (a, at_a) = at-some vs (ops.floor r) down in
      let (b, at_b) = at-some vs (ops.ceil r) up in
      elim (Bool-cases (eqb_ℤ (ops.floor r) (ops.ceil r))) [
        | inl e ↦ rw (e, at_a) (a, refl)
        | inr e ↦ rw (e, at_a, at_b) (_, refl)
      ]

  module _ (lawful : LawfulRanks) where
    percent_fraction :
        (p : ops.Float)
        → IsPercent p
        → AtMost (natural ops 0) (ops.div p (natural ops 100))
          × AtMost (ops.div p (natural ops 100)) (natural ops 1)
    percent_fraction _ fifty = lawful.fraction 50 (omega arith)
    percent_fraction _ ninety = lawful.fraction 90 (omega arith)
    percent_fraction _ ninety_five = lawful.fraction 95 (omega arith)

    rank_within :
        (p : ops.Float) (m : ℕ)
        → IsPercent p
        → m < exact
        → AtMost (natural ops 0) (rank p (suc m)) × AtMost (rank p (suc m)) (natural ops m)
    rank_within p m h lt =
        let (low, high) = percent_fraction p h in
        let share = ops.div p (natural ops 100) in
        subst
          (λ i.
            AtMost (natural ops 0) (ops.mul share (ops.of_int i))
            × AtMost (ops.mul share (ops.of_int i)) (natural ops m))
          (sym (last_index m lt)) (lawful.part share m (omega arith) low high)

    percentile-some :
        (vs : List ops.Float) (p : ops.Float)
        → IsPercent p
        → length vs ≤ exact
        → (v : ops.Float) × (percentile ops vs p ≡ some v)
    unfolding percentile
    percentile-some [] p h small = (_, refl)
    percentile-some (v ∷ []) p h small = (v, refl)
    percentile-some (v ∷ w ∷ vs) p h small =
        let m = length (w ∷ vs) in
        let (low, high) = rank_within p m h (omega arith) in
        let (i, at_i, i_le) = lawful.floor_within (rank p (suc m)) m (omega arith) low high in
        let (j, at_j, j_le) = lawful.ceil_within (rank p (suc m)) m (omega arith) low high in
        interpolate-some (v ∷ w ∷ vs) (rank p (suc m)) (i, at_i, omega arith) (j, at_j, omega arith)

    -- Up to 2 ^ 53 values, the statistics can be computed whatever the values are: no index is out of
    -- range; and their count is the number of the values. Of `float64` this relies on what LawfulRanks lists: sorting
    -- keeps the number of elements, and percentages of numbers up to 2 ^ 53 and their rounding stay within bounds.
    pub compute_stats-total :
        (vs : List ops.Float)
        → length vs ≤ exact
        → (s : StatsSummary ops.Float) × (compute_stats ops vs ≡ some s) × (s.count ≡ length vs)
    unfolding compute_stats stats_of_sorted
    compute_stats-total [] small = (_, refl, refl)
    compute_stats-total (v ∷ vs) small =
        let sorted = ops.sort (v ∷ vs) in
        let same = lawful.length-sort (v ∷ vs) in
        let fits : length sorted ≤ exact = omega arith in
        let (median, at_median) = percentile-some sorted (natural ops 50) fifty fits in
        let (p90, at_p90) = percentile-some sorted (natural ops 90) ninety fits in
        let (p95, at_p95) = percentile-some sorted (natural ops 95) ninety_five fits in
        let (minimum, at_minimum) = get_elem?-of_lt sorted 0 (omega arith) in
        let (maximum, at_maximum) = get_elem?-of_lt sorted (length (v ∷ vs) - 1) (omega arith) in
        rw (at_median, at_minimum, at_maximum, at_p90, at_p95) (_, refl, refl)
