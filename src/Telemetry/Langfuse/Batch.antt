-- ===== src/Telemetry/Langfuse/Batch.antt =====
-- internal/telemetry/langfuse.go: a queue cut into chunks, and the delay between two attempts.
use trimetry.Base.{
  ℕ, zero, suc, ◌+◌, ◌-◌, ◌*◌, ◌/◌, ◌^◌, ◌≤◌, ◌<◌, ◌≡◌, refl, inl, inr, List, [], ◌∷◌, ◌++◌,
  append-nil, arith, ltb, if◌then◌else◌, Bool-cases, length, take, drop, concat, take-append-drop,
  take_all, drop_all, drop-drop, tests, sym, min, length-take, length-drop, All,
}
use trimetry.Base.Int.{ℤ, positive, pos_part}

-- The chunk size in force: 50 where the configured one is not positive.
abbrev pub effective : ℤ → ℕ
effective chunk_size = if positive chunk_size then pos_part chunk_size else 50

effective_pos : (chunk_size : ℤ) → 0 < effective chunk_size
effective_pos chunk_size = ground arith

-- Nanoseconds, as in `time.Second`.
abbrev pub second : ℕ
second = 1_000_000_000

-- events[i:end]
abbrev pub slice {ℓ} : {A : Type ℓ} → ℕ → ℕ → List A → List A
slice i end xs = take (end - i) (drop i xs)

module _ {ℓ} {A : Type ℓ} where
  -- The loop from index `i`, with fuel for its rounds.
  split_from : ℕ → List A → ℕ → ℕ → List (List A)
  split_from zero events chunk_size i = []
  split_from (suc fuel) events chunk_size i =
      let next =
        slice i (if ltb (length events) (i + chunk_size) then length events else i + chunk_size)
          events
        ∷ split_from fuel events chunk_size (i + chunk_size) in
      if ltb i (length events) then next else []

  -- As many rounds as there are events are enough, since `i` grows in each.
  unfoldable pub split_batch : List A → ℤ → List (List A)
  unfolding split_from
  split_batch events chunk_size = split_from (length events) events (effective chunk_size) 0

  length-slice :
      (events : List A) (c i : ℕ)
      → length (slice i (if ltb (length events) (i + c) then length events else i + c) events)
        ≡ min c (length events - i)
  length-slice events c i =
      let e = if ltb (length events) (i + c) then length events else i + c in
      ground (arith, length-take (e - i) (drop i events), length-drop i events)

  -- One chunk and what follows it are what was left before it.
  slice-append-drop :
      (events : List A) (c i end : ℕ)
      → end ≡ (if ltb (length events) (i + c) then length events else i + c)
      → slice i end events ++ drop (i + c) events ≡ drop i events
  slice-append-drop events c i end e = elim (Bool-cases (ltb (length events) (i + c))) [
    | inl past ↦
        let chunk : slice i end events ≡ drop i events =
          take_all (end - i) (drop i events) (ground (arith, length-drop i events, past, e)) in
        rw (chunk, drop_all (i + c) events (omega tests)) (append-nil (drop i events))
    | inr within ↦
        let size : end - i ≡ c = ground (arith, e, within) in
        rw (size, ← (drop-drop i c events)) (take-append-drop c (drop i events))
  ]

  split_from-concat :
      (fuel : ℕ) (events : List A) (c i : ℕ)
      → 0 < c
      → length events ≤ fuel + i
      → concat (split_from fuel events c i) ≡ drop i events
  unfolding split_from
  split_from-concat zero events c i h k = sym (drop_all i events (omega arith))
  split_from-concat (suc fuel) events c i h k = elim (Bool-cases (ltb i (length events))) [
    | inl more ↦
        rw (more, split_from-concat fuel events c (i + c) h (omega arith))
          (slice-append-drop events c i _ refl)
    | inr done ↦ rw done (sym (drop_all i events (ground arith)))
  ]

  split_from-sizes :
      (fuel : ℕ) (events : List A) (c i : ℕ)
      → 0 < c
      → All (λ chunk. (0 < length chunk) × (length chunk ≤ c)) (split_from fuel events c i)
  unfolding split_from
  split_from-sizes zero events c i h = tt
  split_from-sizes (suc fuel) events c i h = elim (Bool-cases (ltb i (length events))) [
    | inl more ↦ rw more (
      (ground (arith, length-slice events c i), ground (arith, length-slice events c i)),
      split_from-sizes fuel events c (i + c) h,
    )
    | inr done ↦ rw done tt
  ]

  -- The chunks, put together, are the queue in its order; none is empty, and none is longer than
  -- the chunk size, which is 50 where the configured one is not positive.
  pub split_batch_partition :
      (events : List A) (chunk_size : ℤ)
      → (concat (split_batch events chunk_size) ≡ events)
        × All
            (λ chunk. (0 < length chunk) × (length chunk ≤ effective chunk_size))
            (split_batch events chunk_size)
  unfolding split_batch
  split_batch_partition events chunk_size = (
    split_from-concat (length events) events (effective chunk_size) 0 (effective_pos chunk_size)
        (omega arith),
    split_from-sizes (length events) events (effective chunk_size) 0 (effective_pos chunk_size),
  )

-- `rand.Int64N(n)`, a number below `n`, is `rand n`.
jittered : (ℕ → ℕ) → ℕ → ℕ
jittered rand shift = let delay = min (second * 2 ^ shift) (30 * second) in delay + rand (delay / 5)

unfoldable pub backoff_delay : (ℕ → ℕ) → ℤ → ℕ
unfolding jittered
backoff_delay rand attempt =
    if positive attempt then jittered rand (min (pos_part attempt - 1) 4) else second

jittered_bounds :
    (rand : ℕ → ℕ) (shift : ℕ)
    → ((n : ℕ) → 0 < n → rand n < n)
    → shift ≤ 4
    → (second ≤ jittered rand shift) × (jittered rand shift < 19_200_000_000)
unfolding jittered
jittered_bounds rand zero h k = omega (arith, h 200_000_000)
jittered_bounds rand (suc zero) h k = omega (arith, h 400_000_000)
jittered_bounds rand (suc (suc zero)) h k = omega (arith, h 800_000_000)
jittered_bounds rand (suc (suc (suc zero))) h k = omega (arith, h 1_600_000_000)
jittered_bounds rand (suc (suc (suc (suc zero)))) h k = omega (arith, h 3_200_000_000)
jittered_bounds rand (suc (suc (suc (suc (suc n))))) h k = absurd (omega arith)

-- Where a random number below n is less than n, a delay is at least a second and less than 19.2 seconds: the shift is capped
-- before the limit of 30 seconds can count.
pub backoff_delay_bounds :
    (rand : ℕ → ℕ) (attempt : ℤ)
    → ((n : ℕ) → 0 < n → rand n < n)
    → (second ≤ backoff_delay rand attempt) × (backoff_delay rand attempt < 19_200_000_000)
unfolding backoff_delay
backoff_delay_bounds rand attempt h = elim (Bool-cases (positive attempt)) [
  | inl p ↦ rw p (jittered_bounds rand (min (pos_part attempt - 1) 4) h (omega arith))
  | inr n ↦ rw n (omega arith)
]
