-- ===== src/Telemetry/Langfuse/Queue/Flush.antt =====
-- What a flush of internal/telemetry/langfuse.go leaves in the queue.
use mathlib.Core.List.Sublist
use trimetry.Base.{
  ℕ, ◌+◌, ◌-◌, ◌≤◌, ◌≡◌, ◌≢◌, refl, ap, sym, leb, append-nil, ◌∙◌, false, inl, inr, List, [], ◌∷◌,
  ◌++◌, arith, ltb, is_empty, length, take, take_all, length-take, All, Bool-cases, Sublist,
  take-sublist, is_empty_sound,
}
use trimetry.Telemetry.Langfuse.Ingestion.{IngestionEvent, Http, send_batch_parsed}
use trimetry.Telemetry.Langfuse.Retry.{send_with_retry}
use trimetry.Telemetry.Langfuse.Retry.Attempts.{
  send_with_retry-sublist, send_with_retry-unreachable, IsRetried,
}
use trimetry.Telemetry.Langfuse.Retry.Failed.{HasFailed, All-take, send_with_retry-HasFailed}
use trimetry.Telemetry.Langfuse.State.{LangfuseAdapter}
use trimetry.Telemetry.Langfuse.Queue.{take_batch, requeue, flush, fitting, put_back}

module _ {F : Type 0} where
  fitting_lem : (n : ℕ) (failed : List (IngestionEvent F)) → fitting n failed ≡ take n failed
  unfolding fitting
  fitting_lem n failed = elim (Bool-cases (ltb n (length failed))) [
    | inl over ↦ rw over refl
    | inr fits ↦ rw (fits, take_all n failed (ground arith)) refl
  ]

  put_back-batch :
      (kept : List (IngestionEvent F)) (a : LangfuseAdapter F)
      → (put_back kept a).batch ≡ kept ++ a.batch
  unfolding put_back
  put_back-batch [] a = refl
  put_back-batch (e ∷ kept) a = refl

  requeue-batch :
      (failed : List (IngestionEvent F)) (a : LangfuseAdapter F)
      → (requeue failed a).batch ≡ take (a.max_batch_queue - length a.batch) failed ++ a.batch
  unfolding requeue
  requeue-batch [] a =
      ap (λ k. k ++ a.batch) (sym (take_all (a.max_batch_queue - length a.batch) [] (omega arith)))
  requeue-batch (e ∷ failed) a =
      put_back-batch _ a
      ∙ ap (λ k. k ++ a.batch) (fitting_lem (a.max_batch_queue - length a.batch) (e ∷ failed))

  flush_lem :
      (http : Http F) (meanwhile : LangfuseAdapter F → LangfuseAdapter F) (call : ℕ)
      (a : LangfuseAdapter F)
      → a.batch ≢ []
      → (flush http meanwhile call a).0
        ≡ requeue
            (send_with_retry http a.max_retries a.batch_chunk_size call a.batch).0
            (meanwhile (take_batch a).1)
  unfolding flush
  flush_lem http meanwhile call a h = elim (Bool-cases (is_empty a.batch)) [
    | inl e ↦ absurd (h (is_empty_sound a.batch e))
    | inr e ↦ rw e refl
  ]

  within_limit :
      (limit added : ℕ) (failed : List (IngestionEvent F))
      → take (limit - added) failed ≢ []
      → length (take (limit - added) failed) + added ≤ limit
  within_limit limit added failed h = elim (Bool-cases (leb added limit)) [
    | inl room ↦ ground (arith, length-take (limit - added) failed)
    | inr full ↦
        let none_left : limit - added ≡ 0 = ground arith in
        absurd (h (ap (λ n. take n failed) none_left))
  ]

  -- After a flush with something to send, the queue is what was added meanwhile, behind the events that are put
  -- back: as many of the first ones that sending has handed back as there is room for within the limit
  -- on the queue. Each of them was in a request that ended in an error worth a retry, or whose answer refused it by
  -- such an error; they stand in their old order, and where there are any, the whole stays within the limit.
  pub flush-batch :
      (http : Http F) (meanwhile : LangfuseAdapter F → LangfuseAdapter F) (call : ℕ)
      (a : LangfuseAdapter F)
      → a.batch ≢ []
      → let b = meanwhile (take_batch a).1 in
        (kept : List (IngestionEvent F)) × (kept
          ≡ take
              (b.max_batch_queue - length b.batch)
              (send_with_retry http a.max_retries a.batch_chunk_size call a.batch).0)
        × All (HasFailed http) kept
        × Sublist kept a.batch
        × ((flush http meanwhile call a).0.batch ≡ kept ++ b.batch)
        × (kept ≢ [] → length kept + length b.batch ≤ b.max_batch_queue)
  flush-batch http meanwhile call a h =
      let b = meanwhile (take_batch a).1 in
      let failed = (send_with_retry http a.max_retries a.batch_chunk_size call a.batch).0 in
      (
        take (b.max_batch_queue - length b.batch) failed,
        refl,
        All-take (HasFailed http) _ failed
            (send_with_retry-HasFailed http a.max_retries a.batch_chunk_size call a.batch),
        Sublist.trans (take-sublist (b.max_batch_queue - length b.batch) failed)
            (send_with_retry-sublist http a.max_retries a.batch_chunk_size call a.batch),
        ap (λ c. c.batch) (flush_lem http meanwhile call a h) ∙ requeue-batch failed b,
        λ some_kept. within_limit (b.max_batch_queue) (length b.batch) failed some_kept,
      )

  requeue_all :
      (a : LangfuseAdapter F)
      → is_empty a.batch ≡ false
      → length a.batch ≤ a.max_batch_queue
      → requeue a.batch (record a { batch = [] }) ≡ a
  unfolding requeue put_back
  requeue_all a something room =
      let all : fitting (a.max_batch_queue - 0) a.batch ≡ a.batch =
        fitting_lem (a.max_batch_queue - 0) a.batch
        ∙ take_all (a.max_batch_queue - 0) a.batch (omega arith) in
      rw (something, all, something) (λ i. record a { batch = append-nil a.batch i })

  -- A flush of a queue within its limit changes nothing, when nothing is added meanwhile and every request ends in
  -- some error that is worth a retry, which may be another error at each request.
  pub flush-unreachable :
      (http : Http F) (call : ℕ) (a : LangfuseAdapter F)
      → ((n : ℕ) (batch : List (IngestionEvent F)) → IsRetried (send_batch_parsed http n batch))
      → length a.batch ≤ a.max_batch_queue
      → (flush http (λ b. b) call a).0 ≡ a
  unfolding flush take_batch
  flush-unreachable http call a down room = elim (Bool-cases (is_empty a.batch)) [
    | inl nothing ↦
        let same : (flush http (λ b. b) call a).0 ≡ record a { batch = [] } =
          rw (nothing, flush) refl in
        same ∙ (λ i. record a { batch = sym (is_empty_sound a.batch nothing) i })
    | inr something ↦
        let back =
          send_with_retry-unreachable http a.max_retries a.batch_chunk_size call a.batch down in
        rw (something, flush, back) (requeue_all a something room)
  ]
