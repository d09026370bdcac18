-- ===== src/Metrics/Fields.antt =====
-- internal/metrics/fields.go: the metrics, each with how it is read of a trial, and where its summary is kept.
use trimetry.Base.{ℕ, ◌+◌, String, Option, none, some, List, [], ◌∷◌, length, ltb, if◌then◌else◌}
use trimetry.Base.Int.{ℤ, pos}
use trimetry.Base.Float.{FloatOps}
use trimetry.Model.Trial.{TrialMetrics, ToolCall}
use trimetry.Model.Summary.{StatsSummary, MetricsSummary}

pub record Field (F : Type 0) : Type 0 where
  pub key : String
  pub label : String
  pub extract : MetricsSummary F → Option (StatsSummary F)
  pub store : MetricsSummary F → Option (StatsSummary F) → MetricsSummary F
  pub collect : TrialMetrics F → Option F

module _ (ops : FloatOps) where
  abbrev Summary : Type 0
  Summary = MetricsSummary ops.Float

  abbrev Metrics : Type 0
  Metrics = TrialMetrics ops.Float

  abbrev Stats : Type 0
  Stats = Option (StatsSummary ops.Float)

  unfoldable collect_int64 : Option ℤ → Option ops.Float
  collect_int64 none = none
  collect_int64 (some v) = some (ops.of_int v)

  unfoldable collect_int : Option ℕ → Option ops.Float
  collect_int none = none
  collect_int (some v) = some (ops.of_int (pos v))

  -- The generations that the tokens are divided by: those counted, else one more than the tools.
  by_tools : List ToolCall → ℕ
  by_tools [] = 1
  by_tools (c ∷ cs) = length (c ∷ cs) + 1

  generations : Option ℕ → List ToolCall → ℕ
  unfolding by_tools
  generations none calls = by_tools calls
  generations (some n) calls = if ltb 0 n then n else by_tools calls

  per_generation : Option ℤ → ℕ → Option ops.Float
  per_generation none n = none
  per_generation (some total) n = some (ops.div (ops.of_int total) (ops.of_int (pos n)))

  unfoldable pub tokens_per_generation : Metrics → Option ops.Float
  unfolding per_generation generations
  tokens_per_generation t =
      per_generation t.total_tokens (generations t.generation_count t.tool_calls)

  abbrev field :
      String
      → String
      → (Summary → Stats)
      → (Summary → Stats → Summary)
      → (Metrics → Option ops.Float)
      → Field ops.Float
  field key label extract store collect = record {
    key = key;
    label = label;
    extract = extract;
    store = store;
    collect = collect;
  }

  unfoldable pub fields : List (Field ops.Float)
  unfolding collect_int64 collect_int tokens_per_generation
  fields =
      field "wallTimeMs" "Wall Time (ms)" (λ m. m.wall_time_ms)
        (λ m s. record m { wall_time_ms = s }) (λ t. some (ops.of_int t.wall_time_ms))
      ∷ field "llmLatencyMs" "LLM Latency (ms)" (λ m. m.llm_latency_ms)
          (λ m s. record m { llm_latency_ms = s }) (λ t. collect_int64 t.llm_latency_ms)
      ∷ field "idleMs" "Idle Time (ms)" (λ m. m.idle_ms) (λ m s. record m { idle_ms = s })
          (λ t. collect_int64 t.idle_ms)
      ∷ field "ttftMs" "TTFT (ms)" (λ m. m.ttft_ms) (λ m s. record m { ttft_ms = s })
          (λ t. collect_int64 t.ttft_ms)
      ∷ field "llmTimeRatio" "LLM Time Ratio" (λ m. m.llm_time_ratio)
          (λ m s. record m { llm_time_ratio = s }) (λ t. t.llm_time_ratio)
      ∷ field "inputTokens" "Input Tokens" (λ m. m.input_tokens)
          (λ m s. record m { input_tokens = s }) (λ t. collect_int64 t.input_tokens)
      ∷ field "outputTokens" "Output Tokens" (λ m. m.output_tokens)
          (λ m s. record m { output_tokens = s }) (λ t. collect_int64 t.output_tokens)
      ∷ field "totalTokens" "Total Tokens" (λ m. m.total_tokens)
          (λ m s. record m { total_tokens = s }) (λ t. collect_int64 t.total_tokens)
      ∷ field "reasoningTokens" "Reasoning Tokens" (λ m. m.reasoning_tokens)
          (λ m s. record m { reasoning_tokens = s }) (λ t. collect_int64 t.reasoning_tokens)
      ∷ field "cacheReadTokens" "Cache Read Tokens" (λ m. m.cache_read_tokens)
          (λ m s. record m { cache_read_tokens = s }) (λ t. collect_int64 t.cache_read_tokens)
      ∷ field "cacheWriteTokens" "Cache Write Tokens" (λ m. m.cache_write_tokens)
          (λ m s. record m { cache_write_tokens = s }) (λ t. collect_int64 t.cache_write_tokens)
      ∷ field "outputLength" "Output Length (chars)" (λ m. m.output_length)
          (λ m s. record m { output_length = s }) (λ t. collect_int t.output_length)
      ∷ field "tokensPerGeneration" "Tokens/Generation" (λ m. m.tokens_per_gen)
          (λ m s. record m { tokens_per_gen = s }) tokens_per_generation
      ∷ field "estimatedCost" "Estimated Cost ($)" (λ m. m.estimated_cost)
          (λ m s. record m { estimated_cost = s }) (λ t. t.estimated_cost)
      ∷ field "accuracyScore" "Accuracy Score" (λ m. m.accuracy_score)
          (λ m s. record m { accuracy_score = s }) (λ t. t.accuracy_score)
      ∷ []
