-- ===== src/Telemetry/Langfuse/Queue.antt =====
-- internal/telemetry/langfuse.go: the queue of events, between `addEvent` and `Flush`.
pub mod Flush
use trimetry.Base.{
  ℕ, ◌+◌, ◌-◌, ◌≤◌, ◌≡◌, refl, Bool, true, false, List, [], ◌∷◌, ◌++◌, ltb, if◌then◌else◌, is_empty,
  length, take,
}
use trimetry.Telemetry.Langfuse.Ingestion.{IngestionEvent, Http}
use trimetry.Telemetry.Langfuse.Retry.{send_with_retry}
use trimetry.Telemetry.Langfuse.State.{LangfuseAdapter}

module _ {F : Type 0} where
  unfoldable pub add_event : IngestionEvent F → LangfuseAdapter F → LangfuseAdapter F
  add_event event a = record a { batch = a.batch ++ event ∷ [] }

  -- The first critical section of `Flush`: the events are copied, and the queue is emptied.
  unfoldable pub take_batch : LangfuseAdapter F → List (IngestionEvent F) × LangfuseAdapter F
  take_batch a = (a.batch, record a { batch = [] })

  -- The second one: what failed is put before what has been added meanwhile, as far as it fits.
  fitting : ℕ → List (IngestionEvent F) → List (IngestionEvent F)
  fitting capacity failed = if ltb capacity (length failed) then take capacity failed else failed

  put_back : List (IngestionEvent F) → LangfuseAdapter F → LangfuseAdapter F
  put_back kept a = if is_empty kept then a else record a { batch = kept ++ a.batch }

  unfoldable pub requeue : List (IngestionEvent F) → LangfuseAdapter F → LangfuseAdapter F
  unfolding fitting put_back
  requeue failed a =
      if is_empty failed
      then a
      else put_back (fitting (a.max_batch_queue - length a.batch) failed) a

  -- `meanwhile` is what other trials do to the adapter while the requests are made, with no lock
  -- held. The flush returns the number of the next attempt with the adapter.
  unfoldable pub flush :
      Http F
      → (LangfuseAdapter F → LangfuseAdapter F)
      → ℕ
      → LangfuseAdapter F
      → LangfuseAdapter F × ℕ
  unfolding take_batch requeue
  flush http meanwhile call a =
      let (events, emptied) = take_batch a in
      let (failed, call') = send_with_retry http a.max_retries a.batch_chunk_size call events in
      if is_empty events then (emptied, call) else (requeue failed (meanwhile emptied), call')
