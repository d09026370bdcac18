-- ===== src/Telemetry/Langfuse/Retry/Attempts.antt =====
-- What the retry loop of internal/telemetry/langfuse.go returns: which events, after how many
-- attempts.
use mathlib.Core.List.Sublist
use trimetry.Base.{
  ℕ, zero, suc, ◌+◌, ◌≤◌, ◌≡◌, ◌≢◌, ◌⊎◌, refl, ◌∙◌, true, inl, inr, List, [], ◌∷◌, arith, is_empty,
  concat, Bool-cases, Sublist, select-sublist, nil-sublist, ◌||◌, select, any,
}
use trimetry.Base.Int.{ℤ}
use trimetry.Telemetry.Langfuse.Ingestion.{
  IngestionEvent, IngestionResponse, SendResult, ok, err, Http, is_retryable, is_retryable_status,
  send_batch_parsed, extract_retryable_failures, has_id,
}
use trimetry.Telemetry.Langfuse.Batch.{split_batch, split_batch_partition}
use trimetry.Telemetry.Langfuse.Retry.{
  Attempt, stop, again, verdict, attempt, send_attempts, send_chunk_with_retry, send_chunks,
  send_with_retry,
}

extract_retryable_failures-sublist :
    {F : Type 0} (sent : List (IngestionEvent F)) (result : IngestionResponse)
    → Sublist (extract_retryable_failures sent result) sent
unfolding extract_retryable_failures
extract_retryable_failures-sublist sent result =
    let failed = select (λ e. is_retryable_status e.status) result.errors in
    elim (Bool-cases (is_empty result.errors || is_empty failed)) [
      | inl quiet ↦ rw quiet (nil-sublist sent)
      | inr some_failed ↦ rw some_failed (select-sublist (λ ev. any (has_id ev.id) failed) sent)
    ]

pub Attempt-cases :
    {F : Type 0} (a : Attempt F)
    → (a ≡ stop) ⊎ ((events : List (IngestionEvent F)) × (a ≡ again events))
Attempt-cases stop = inl refl
Attempt-cases (again events) = inr (events, refl)

verdict-sublist :
    {F : Type 0} (sent : List (IngestionEvent F)) (r : SendResult)
    {failed : List (IngestionEvent F)}
    → verdict sent r ≡ again failed
    → Sublist failed sent
unfolding verdict
verdict-sublist sent (err e) {failed} h =
    let same : failed ≡ sent = ground arith in rw same (Sublist.refl sent)
verdict-sublist sent (ok result) {failed} h =
    let same : failed ≡ extract_retryable_failures sent result = ground arith in
    rw same (extract_retryable_failures-sublist sent result)

-- A request that ends in an error worth a retry, which may be another one each time.
abbrev pub IsRetried : SendResult → Type 0
IsRetried (ok answer) = ⊥
IsRetried (err e) = is_retryable e ≡ true

verdict-IsRetried :
    {F : Type 0} (sent : List (IngestionEvent F)) (r : SendResult)
    → IsRetried r
    → verdict sent r ≡ again sent
unfolding verdict
verdict-IsRetried sent (ok answer) h = elim h [ ]
verdict-IsRetried sent (err e) h = rw h refl

module _ {F : Type 0} (http : Http F) where
  attempt-sublist :
      (call : ℕ) (events : List (IngestionEvent F)) {failed : List (IngestionEvent F)}
      → attempt http call events ≡ again failed
      → Sublist failed events
  unfolding attempt
  attempt-sublist call events h = verdict-sublist events (send_batch_parsed http call events) h

  send_attempts-sublist :
      (left call : ℕ) (events : List (IngestionEvent F))
      → Sublist (send_attempts http left call events).0 events
  unfolding send_attempts
  send_attempts-sublist zero call events = Sublist.refl events
  send_attempts-sublist (suc left) call events = elim (Attempt-cases (attempt http call events)) [
    | inl e ↦ rw (e, send_attempts) (nil-sublist events)
    | inr (failed, e) ↦
        rw (e, send_attempts)
          (Sublist.trans (send_attempts-sublist left (suc call) failed)
            (attempt-sublist call events e))
  ]

  -- A loop that stops early has nothing left; one that has something left made every attempt.
  send_attempts_calls :
      (left call : ℕ) (events : List (IngestionEvent F))
      → ((send_attempts http left call events).1 ≤ left + call)
        × ((send_attempts http left call events).0 ≢ []
            → (send_attempts http left call events).1 ≡ left + call)
  unfolding send_attempts
  send_attempts_calls zero call events = (omega arith, λ _. omega arith)
  send_attempts_calls (suc left) call events = elim (Attempt-cases (attempt http call events)) [
    | inl e ↦ rw (e, send_attempts) (omega arith, λ h. absurd (h refl))
    | inr (failed, e) ↦
        let ih = send_attempts_calls left (suc call) failed in
        rw (e, send_attempts) (omega arith, λ h. omega (arith, ih.1 h))
  ]

  send_chunks-sublist :
      (max_retries call : ℕ) (chunks : List (List (IngestionEvent F)))
      → Sublist (send_chunks http max_retries call chunks).0 (concat chunks)
  unfolding send_chunks send_chunk_with_retry
  send_chunks-sublist max_retries call [] = Sublist.refl []
  send_chunks-sublist max_retries call (chunk ∷ chunks) =
      Sublist.append (send_attempts-sublist (suc max_retries) call chunk) (
        send_chunks-sublist max_retries (send_chunk_with_retry http max_retries call chunk).1
          chunks)

  -- What a flush has to queue again is part of what it sent, in the same order, whatever the server
  -- answers.
  pub send_with_retry-sublist :
      (max_retries : ℕ) (chunk_size : ℤ) (call : ℕ) (events : List (IngestionEvent F))
      → Sublist (send_with_retry http max_retries chunk_size call events).0 events
  unfolding send_with_retry
  send_with_retry-sublist max_retries chunk_size call events =
      rw (split_batch_partition events chunk_size).0 at
        (send_chunks-sublist max_retries call (split_batch events chunk_size))

  -- A chunk takes at most one attempt more than the configured retries, and all of them before any
  -- of its events is handed back.
  pub send_chunk_with_retry_calls :
      (max_retries call : ℕ) (events : List (IngestionEvent F))
      → ((send_chunk_with_retry http max_retries call events).1 ≤ call + max_retries + 1)
        × ((send_chunk_with_retry http max_retries call events).0 ≢ []
            → (send_chunk_with_retry http max_retries call events).1 ≡ call + max_retries + 1)
  unfolding send_chunk_with_retry
  send_chunk_with_retry_calls max_retries call events =
      let calls = send_attempts_calls (suc max_retries) call events in
      (omega (arith, calls.0), λ h. omega (arith, calls.1 h))

  attempts-unreachable :
      ((n : ℕ) (batch : List (IngestionEvent F)) → IsRetried (send_batch_parsed http n batch))
      → (left call : ℕ) (events : List (IngestionEvent F))
      → (send_attempts http left call events).0 ≡ events
  unfolding attempt send_attempts
  attempts-unreachable down zero call events = refl
  attempts-unreachable down (suc left) call events =
      let again_all : attempt http call events ≡ again events =
        verdict-IsRetried events (send_batch_parsed http call events) (down call events) in
      rw (again_all, send_attempts) (attempts-unreachable down left (suc call) events)

  chunks-unreachable :
      ((n : ℕ) (batch : List (IngestionEvent F)) → IsRetried (send_batch_parsed http n batch))
      → (max_retries call : ℕ) (chunks : List (List (IngestionEvent F)))
      → (send_chunks http max_retries call chunks).0 ≡ concat chunks
  unfolding send_chunks send_chunk_with_retry
  chunks-unreachable down max_retries call [] = refl
  chunks-unreachable down max_retries call (chunk ∷ chunks) = cc (
    attempts-unreachable down (suc max_retries) call chunk,
    chunks-unreachable down max_retries (send_chunk_with_retry http max_retries call chunk).1
        chunks,
  )

  -- While no request gets through and the errors are worth a retry, nothing is lost: all events come
  -- back, in their order.
  pub send_with_retry-unreachable :
      (max_retries : ℕ) (chunk_size : ℤ) (call : ℕ) (events : List (IngestionEvent F))
      → ((n : ℕ) (batch : List (IngestionEvent F)) → IsRetried (send_batch_parsed http n batch))
      → (send_with_retry http max_retries chunk_size call events).0 ≡ events
  unfolding send_with_retry
  send_with_retry-unreachable max_retries chunk_size call events down =
      chunks-unreachable down max_retries call (split_batch events chunk_size)
      ∙ (split_batch_partition events chunk_size).0
