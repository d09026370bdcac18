-- ===== src/Lib.antt =====
-- Verification of trimetry, a runner of benchmarks for coding agents (https://github.com/konono/trimetry).
--
-- A configuration names scenarios and models. The runner expands them into trials and runs the trials side by
-- side. For each one an adapter runs an agent's command line and parses the events that it prints into steps;
-- metrics and evaluations are made of the result, and the telemetry is told, which queues scores for Langfuse and
-- sends spans. In the end the trials are summarised by scenario and model.
--
-- Base: numbers, lists, maps, texts, the clock and `float64` as the program uses them. An `int64` is an integer
-- whose sums wrap around; `float64` is the record FloatOps of the operations called, of which no law is assumed
-- but where a theorem names one. A text is a sequence of characters, whose length is that of its UTF-8.
-- Model: internal/model. Value is `any` with what JSON decodes to, Trial and Summary are types.go, Status is
-- helpers.go and key.go.
-- Adapter: internal/adapter. Types is adapter.go, Exec is runCLI and toExecutionResult of base.go, Lines is
-- jsonlines.go, Claude, Codex, Cursor, Opencode and Fake are the agents, Factory is factory.go. The parsers take
-- decoded events; a panic of parseClaudeJSON is `none`. Steps says what a well-grouped list of steps is.
-- Telemetry: internal/telemetry. Enrichment is enrichment.go and shared.go. Langfuse is langfuse.go: State has the
-- adapter's fields, Queue is addEvent and Flush, Batch is splitBatch and backoffDelay, Retry is sendWithRetry and
-- sendChunkWithRetry, Ingestion is sendBatchParsed and extractRetryableFailures, Trials is StartTrial and
-- FinishTrial with their helpers, Spans is createDirectTrace without the attributes of its spans.
-- Metrics and Evaluator: internal/metrics and internal/evaluator.
-- Aggregator: internal/aggregator. An index out of range is `none`.
-- Config: internal/config. Secrets is RedactOptions and the hashes, Defaults is applyDefaults, Validate is Validate.
-- Runner: internal/runner. Outcome is applyOutcome, Attempts is the loop of retries in runTrial, Trial is the rest of
-- runTrial, Pool is RunTrials, Expand is expandTrials. RunTrials is a step relation: each goroutine waits, runs or is
-- done, and a step takes a place in the semaphore, gives up on a cancelled context, or writes a result; a trial's
-- run is one step, whose answers from outside are arguments. Every order of such steps is allowed. The callback of a
-- trial that is cancelled while it waits is left out.
-- Runner.Run: what Run and BuildManifest do around RunTrials.
-- Display: internal/ui/display.go. State has the fields of Display, with the output as lines and cursor movements;
-- Start is NewDisplay, Progress the bars, Trials the two callbacks, Summary is Finalize. A panic of strings.Repeat is
-- `none`. Screen is a terminal that carries the output out, which the theorems are about; it has rows of any width and
-- no last row, so lines that a real terminal would wrap or scroll away are not covered.
-- Report: internal/report/report.go. Summaries is buildSummaries, which groups by the joined key of model/key.go,
-- Markdown the text of summary.md, Write the order of the files and their errors. CommandLine:
-- cmd/trimetry/main.go.
-- Comparator: internal/comparator/comparator.go. The maps are walked in the order of their lists.
-- Tests: the theorems at concrete inputs.
--
-- Loops are recursions on the list that they walk or on the number of rounds left: splitBatch has as many rounds as
-- there are events, which is enough since a chunk has at least one; the retries have one round more than the limit.
--
-- Code outside the repository is a parameter: JSON, YAML and hashes, HTTP, the clock, random numbers, the texts that
-- `fmt` makes, and the agents' processes. A random number below n is assumed to be below n; of sorting,
-- dividing, multiplying and rounding of `float64` only what LawfulRanks says is assumed, up to 2 ^ 53 and only for the
-- statistics.
--
-- Not modelled: the MLflow telemetry, most of which is calls of the OpenTelemetry SDK; the output of a comparison;
-- log lines and waiting; locks, since each critical section is one step here; the attributes of spans and the
-- annotation of traces.
pub mod Base
pub mod Model
pub mod Adapter
pub mod Telemetry
pub mod Metrics
pub mod Evaluator
pub mod Aggregator
pub mod Config
pub mod Display
pub mod Report
pub mod Runner
pub mod Comparator
pub mod CommandLine
pub mod Tests
