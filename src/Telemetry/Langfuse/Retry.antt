-- ===== src/Telemetry/Langfuse/Retry.antt =====
-- internal/telemetry/langfuse.go: a chunk is sent again until its events are taken, the error is
-- final, or the attempts are used up.
pub mod Attempts
pub mod Failed
use trimetry.Base.{
  ℕ, zero, suc, ◌+◌, ◌≤◌, ◌≡◌, refl, Bool, true, false, inl, inr, List, [], ◌∷◌, ◌++◌, arith,
  is_empty, if◌then◌else◌, length, concat, Bool-cases,
}
use trimetry.Base.Int.{ℤ}
use trimetry.Telemetry.Langfuse.Ingestion.{
  IngestionEvent, SendResult, ok, err, Http, is_retryable, send_batch_parsed,
  extract_retryable_failures,
}
use trimetry.Telemetry.Langfuse.Batch.{split_batch}

pub data Attempt (F : Type 0) : Type 0 where
  stop : Attempt F
  again : List (IngestionEvent F) → Attempt F

-- What an attempt's error or answer leaves to the next one, if anything.
pub verdict : {F : Type 0} → List (IngestionEvent F) → SendResult → Attempt F
verdict remaining (err e) = if is_retryable e then again remaining else stop
verdict remaining (ok result) =
    let failed = extract_retryable_failures remaining result in
    if is_empty failed then stop else again failed

module _ {F : Type 0} (http : Http F) where
  -- What a call returns: the events to queue again, and the number of the next attempt.
  abbrev pub Sent : Type 0
  Sent = List (IngestionEvent F) × ℕ

  pub attempt : ℕ → List (IngestionEvent F) → Attempt F
  attempt call remaining = verdict remaining (send_batch_parsed http call remaining)

  -- The loop with `left` attempts to go; the sleeps between them only pass time.
  unfoldable pub send_attempts : ℕ → ℕ → List (IngestionEvent F) → Sent
  send_attempts zero call remaining = (remaining, call)
  send_attempts (suc left) call remaining = elim (attempt call remaining) [
    | stop ↦ ([], suc call)
    | again failed ↦ send_attempts left (suc call) failed
  ]

  unfoldable pub send_chunk_with_retry : ℕ → ℕ → List (IngestionEvent F) → Sent
  unfolding send_attempts
  send_chunk_with_retry max_retries call events = send_attempts (suc max_retries) call events

  unfoldable pub send_chunks : ℕ → ℕ → List (List (IngestionEvent F)) → Sent
  send_chunks max_retries call [] = ([], call)
  send_chunks max_retries call (chunk ∷ chunks) =
      let (failed, call') = send_chunk_with_retry max_retries call chunk in
      let (rest, call'') = send_chunks max_retries call' chunks in (failed ++ rest, call'')

  unfoldable pub send_with_retry : ℕ → ℤ → ℕ → List (IngestionEvent F) → Sent
  unfolding send_chunks
  send_with_retry max_retries chunk_size call events =
      send_chunks max_retries call (split_batch events chunk_size)
