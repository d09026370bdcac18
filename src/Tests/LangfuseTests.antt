-- ===== src/Tests/LangfuseTests.antt =====
-- The theorems about internal/telemetry/langfuse.go at concrete inputs.
use trimetry.Base.{
  ℕ, ◌+◌, ◌<◌, ◌≤◌, ◌≡◌, ◌≢◌, refl, String, true, none, some, List, [], ◌∷◌, ◌++◌, map, length,
  concat, All, Sublist, take, str_eq, if◌then◌else◌, arith,
}
use trimetry.Base.Int.{pos}
use trimetry.Base.Clock.{zero_time}
use trimetry.Base.Dict.{lookup}
use trimetry.Model.Value.{end}
use trimetry.Model.Trial.{ExecutionStatus, EvaluationResult}
use trimetry.Telemetry.Types.{TrialResult}
use trimetry.Telemetry.Langfuse.Ingestion.{
  IngestionEvent, Http, no_response, send_batch_parsed, is_retryable,
}
use trimetry.Telemetry.Langfuse.Batch.{
  split_batch, split_batch_partition, effective, second, backoff_delay, backoff_delay_bounds,
}
use trimetry.Telemetry.Langfuse.Retry.{send_with_retry, send_chunk_with_retry}
use trimetry.Telemetry.Langfuse.Retry.Attempts.{
  send_with_retry-sublist, send_chunk_with_retry_calls,
}
use trimetry.Telemetry.Langfuse.Retry.Failed.{HasFailed}
use trimetry.Telemetry.Langfuse.State.{LangfuseAdapter, ResolvedTrace}
use trimetry.Telemetry.Langfuse.Queue.{take_batch, flush}
use trimetry.Telemetry.Langfuse.Queue.Flush.{flush-batch, flush-unreachable}
use trimetry.Telemetry.Langfuse.Spans.{direct_spans}
use trimetry.Telemetry.Langfuse.Spans.Tree.{IsTree, direct_spans-IsTree}
use trimetry.Telemetry.Langfuse.Trials
use trimetry.Telemetry.Langfuse.Trials.{Api, resolve, finish_trial}
use trimetry.Telemetry.Langfuse.Trials.Scores.{score_of, scores_of, finish_trial_lem}
use trimetry.Tests.Sample.{steps}

abbrev score_event : String → IngestionEvent ℕ
score_event id = record {
  id = id;
  kind = "score-create";
  timestamp = pos 0;
  body = record {
    id = "score";
    trace_id = "trace";
    name = "accuracy";
    value = 1;
    comment = "";
    data_type = "NUMERIC";
    config_id = "";
    observation_id = "";
  };
}

abbrev queue : List (IngestionEvent ℕ)
queue = score_event "a" ∷ score_event "b" ∷ score_event "c" ∷ []

-- A server that is not reached.
abbrev no_server : Http ℕ
no_server = record {
  marshal = λ es. some "batch";
  url_valid = true;
  post = λ n s. no_response;
  decode = λ s. none;
}

abbrev adapter : LangfuseAdapter ℕ
adapter = record {
  batch = queue;
  score_configs = [];
  batch_chunk_size = pos 2;
  max_retries = 1;
  max_batch_queue = 3;
  trace_cache = [];
  trial_contexts = [];
}

something : queue ≢ []
something h = cc

flush-batch_example :
    (kept : List (IngestionEvent ℕ)) × (kept
      ≡ take 3 (send_with_retry no_server 1 (pos 2) 0 queue).0)
    × All (HasFailed no_server) kept
    × Sublist kept queue
    × ((flush no_server (λ b. b) 0 adapter).0.batch ≡ kept ++ (take_batch adapter).1.batch)
    × (kept ≢ []
        → length kept + length (take_batch adapter).1.batch
          ≤ (take_batch adapter).1.max_batch_queue)
unfolding send_with_retry take_batch
flush-batch_example = flush-batch no_server (λ b. b) 0 adapter something

flush-unreachable_example : (flush no_server (λ b. b) 0 adapter).0 ≡ adapter
unfolding send_batch_parsed is_retryable
flush-unreachable_example = flush-unreachable no_server 0 adapter (λ n batch. refl) (omega arith)

send_with_retry-sublist_example : Sublist (send_with_retry no_server 2 (pos 2) 0 queue).0 queue
send_with_retry-sublist_example = send_with_retry-sublist no_server 2 (pos 2) 0 queue

send_chunk_with_retry_calls_example :
    ((send_chunk_with_retry no_server 2 0 queue).1 ≤ 3)
    × ((send_chunk_with_retry no_server 2 0 queue).0 ≢ []
        → (send_chunk_with_retry no_server 2 0 queue).1 ≡ 3)
send_chunk_with_retry_calls_example = send_chunk_with_retry_calls no_server 2 0 queue

split_batch_partition_example :
    (concat (split_batch queue (pos 2)) ≡ queue)
    × All
        (λ chunk. (0 < length chunk) × (length chunk ≤ effective (pos 2)))
        (split_batch queue (pos 2))
split_batch_partition_example = split_batch_partition queue (pos 2)

at_zero : (n : ℕ) → 0 < n → 0 < n
at_zero n h = h

backoff_delay_bounds_example :
    (second ≤ backoff_delay (λ n. 0) (pos 7)) × (backoff_delay (λ n. 0) (pos 7) < 19_200_000_000)
backoff_delay_bounds_example = backoff_delay_bounds (λ n. 0) (pos 7) at_zero

abbrev api : Api
api = record {
  lookup = λ n s. Trials.no_response;
  create_config = λ name. some "config";
  event_id = λ n. "event";
  now = pos 0;
}

abbrev evaluation : EvaluationResult ℕ
evaluation = record {
  evaluator_name = "completion";
  evaluator_version = "1.0.0";
  score = some 1;
  label = "";
  passed = some true;
  reason = "";
  metadata = end;
}

abbrev ended_trial : TrialResult ℕ
ended_trial = record {
  trial_id = "trial-1";
  started_at = zero_time;
  adapter_name = "claude";
  execution_status = ExecutionStatus.completed;
  output = "hello";
  model_name = "sonnet";
  metrics = none;
  steps = steps;
  evaluations = evaluation ∷ [];
  session_id = "session";
  enrichment_dir = "";
}

abbrev traced : TrialResult ℕ → ResolvedTrace
traced r = record { trace_id = "trace"; root_span_id = "turn" }

finish_trial_lem_example :
    (map score_of (finish_trial api traced ended_trial adapter).batch
      ≡ map score_of queue
        ++ (if str_eq (resolve api traced ended_trial adapter).0.trace_id ""
            then []
            else scores_of (resolve api traced ended_trial adapter).0.trace_id (evaluation ∷ [])))
    × ((id : String)
        → lookup id (finish_trial api traced ended_trial adapter).trial_contexts
          ≡ (if str_eq "trial-1" id then none else lookup id adapter.trial_contexts))
finish_trial_lem_example = finish_trial_lem api traced ended_trial adapter

direct_spans-IsTree_example :
    IsTree (direct_spans (λ n. "span") ended_trial steps)
    × (length (direct_spans (λ n. "span") ended_trial steps) ≡ length steps + 2)
direct_spans-IsTree_example = direct_spans-IsTree (λ n. "span") ended_trial steps
