-- ===== src/Telemetry/Langfuse/Retry/Failed.antt =====
-- internal/telemetry/langfuse.go: what `sendWithRetry` hands back are events of requests that failed.
use mathlib.Core.List.Sublist
use trimetry.Base.{
  ℕ, zero, suc, ◌≡◌, refl, String, Bool, true, ◌&&◌, ◌||◌, inl, inr, List, [], ◌∷◌, is_empty,
  select, any, take, All, All-imp, All-append, Bool-cases, Sublist, nil-sublist, arith,
}
use trimetry.Base.Int.{ℤ}
use trimetry.Telemetry.Langfuse.Ingestion.{
  IngestionEvent, IngestionErrorItem, IngestionResponse, SendError, SendResult, ok, err, Http,
  is_retryable, is_retryable_status, send_batch_parsed, extract_retryable_failures, has_id,
}
use trimetry.Telemetry.Langfuse.Batch.{split_batch}
use trimetry.Telemetry.Langfuse.Retry.{
  again, verdict, attempt, send_attempts, send_chunk_with_retry, send_chunks, send_with_retry,
}
use trimetry.Telemetry.Langfuse.Retry.Attempts.{Attempt-cases}

module _ {ℓ} {A : Type ℓ} where
  All-alone : (xs : List A) → All (λ x. Sublist (x ∷ []) xs) xs
  All-alone [] = tt
  All-alone (x ∷ xs) =
      (Sublist.cons-cons x (nil-sublist xs), All-imp xs (λ y h. Sublist.cons x h) (All-alone xs))

  any-select : (p q : A → Bool) (xs : List A) → any p (select q xs) ≡ any (λ x. p x && q x) xs
  any-select p q [] = refl
  any-select p q (x ∷ xs) = ground (arith, any-select p q xs)

  pub All-take {κ} : (P : A → Type κ) (n : ℕ) (xs : List A) → All P xs → All P (take n xs)
  All-take P zero xs h = tt
  All-take P (suc n) [] h = h
  All-take P (suc n) (x ∷ xs) h = (h.0, All-take P n xs h.1)

All-select {ℓ κ} :
    {A : Type ℓ} (P : A → Type κ) (p : A → Bool) (xs : List A)
    → All P xs
    → All (λ x. P x × (p x ≡ true)) (select p xs)
All-select P p [] h = tt
All-select P p (x ∷ xs) h = elim (Bool-cases (p x)) [
  | inl e ↦ rw e ((h.0, e), All-select P p xs h.1)
  | inr e ↦ rw e (All-select P p xs h.1)
]

-- The answer names the event in an error that is worth a retry.
unfoldable pub is_refused : String → List IngestionErrorItem → Bool
is_refused id errors = any (λ item. has_id id item && is_retryable_status item.status) errors

-- The event was in a request that ended in an error worth a retry, or whose answer refused the event.
pub data HasFailed {F : Type 0} (http : Http F) : IngestionEvent F → Type 0 where
  unanswered :
      (event : IngestionEvent F) (n : ℕ) (batch : List (IngestionEvent F)) (error : SendError)
      → send_batch_parsed http n batch ≡ err error
      → is_retryable error ≡ true
      → Sublist (event ∷ []) batch
      → HasFailed http event
  refused :
      (event : IngestionEvent F) (n : ℕ) (batch : List (IngestionEvent F))
      (answer : IngestionResponse)
      → send_batch_parsed http n batch ≡ ok answer
      → is_refused event.id answer.errors ≡ true
      → Sublist (event ∷ []) batch
      → HasFailed http event

module _ {F : Type 0} (http : Http F) where
  extracted-HasFailed :
      (n : ℕ) (batch : List (IngestionEvent F)) (answer : IngestionResponse)
      → send_batch_parsed http n batch ≡ ok answer
      → All (HasFailed http) (extract_retryable_failures batch answer)
  unfolding extract_retryable_failures is_refused
  extracted-HasFailed n batch answer sent =
      let failed = select (λ item. is_retryable_status item.status) answer.errors in
      elim (Bool-cases (is_empty answer.errors || is_empty failed)) [
        | inl quiet ↦ rw quiet tt
        | inr some_failed ↦ rw some_failed (
            All-imp _
              (λ event h.
                refused event n batch answer sent
                  (rw (any-select (has_id event.id) _ answer.errors) at h.1) h.0)
              (All-select (λ event. Sublist (event ∷ []) batch) _ batch (All-alone batch)))
      ]

  attempt-HasFailed :
      (n : ℕ) (batch : List (IngestionEvent F)) {failed : List (IngestionEvent F)}
      → attempt http n batch ≡ again failed
      → All (HasFailed http) failed
  unfolding attempt
  attempt-HasFailed n batch {failed} = go (send_batch_parsed http n batch) refl
    where
      go :
          (r : SendResult)
          → send_batch_parsed http n batch ≡ r
          → verdict batch r ≡ again failed
          → All (HasFailed http) failed
      go (err e) sent h =
          unfold verdict in
          let retried : is_retryable e ≡ true = ground arith in
          let same : failed ≡ batch = ground arith in
          rw same
            (All-imp batch (λ event k. unanswered event n batch e sent retried k) (All-alone batch))
      go (ok answer) sent h =
          unfold verdict in
          let same : failed ≡ extract_retryable_failures batch answer = ground arith in
          rw same (extracted-HasFailed n batch answer sent)

  send_attempts-HasFailed :
      (left call : ℕ) (events : List (IngestionEvent F))
      → All (HasFailed http) events
      → All (HasFailed http) (send_attempts http left call events).0
  unfolding send_attempts
  send_attempts-HasFailed zero call events h = h
  send_attempts-HasFailed (suc left) call events h =
      elim (Attempt-cases (attempt http call events)) [
        | inl e ↦ rw (e, send_attempts) tt
        | inr (failed, e) ↦
            rw (e, send_attempts)
              (send_attempts-HasFailed left (suc call) failed (attempt-HasFailed call events e))
      ]

  -- The first attempt is always made.
  send_chunk-HasFailed :
      (max_retries call : ℕ) (events : List (IngestionEvent F))
      → All (HasFailed http) (send_chunk_with_retry http max_retries call events).0
  unfolding send_chunk_with_retry send_attempts
  send_chunk-HasFailed max_retries call events = elim (Attempt-cases (attempt http call events)) [
    | inl e ↦ rw (e, send_attempts) tt
    | inr (failed, e) ↦
        rw (e, send_attempts)
          (send_attempts-HasFailed max_retries (suc call) failed (attempt-HasFailed call events e))
  ]

  send_chunks-HasFailed :
      (max_retries call : ℕ) (chunks : List (List (IngestionEvent F)))
      → All (HasFailed http) (send_chunks http max_retries call chunks).0
  unfolding send_chunks
  send_chunks-HasFailed max_retries call [] = tt
  send_chunks-HasFailed max_retries call (chunk ∷ chunks) =
      All-append (HasFailed http) _ _ (send_chunk-HasFailed max_retries call chunk) (
        send_chunks-HasFailed max_retries (send_chunk_with_retry http max_retries call chunk).1
          chunks)

  pub send_with_retry-HasFailed :
      (max_retries : ℕ) (chunk_size : ℤ) (call : ℕ) (events : List (IngestionEvent F))
      → All (HasFailed http) (send_with_retry http max_retries chunk_size call events).0
  unfolding send_with_retry
  send_with_retry-HasFailed max_retries chunk_size call events =
      send_chunks-HasFailed max_retries call (split_batch events chunk_size)
