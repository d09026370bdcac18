-- ===== src/Report/Markdown.antt =====
-- internal/report/report.go: the lines of summary.md.
use Prim.Native.Char.{code}
use Prim.Native.String.{len, slice, ◌++◌ as str_append}
use text.Mathlib.TextBridge.{of_list, to_list}
use trimetry.Base.{
  ℕ, suc, ◌/◌, ◌%◌, String, Bool, true, false, ◌||◌, Option, none, some, List, [], ◌∷◌, ◌++◌, map,
  ltb, ◌==◌, is_empty, str_eq, if◌then◌else◌,
}
use trimetry.Base.Text.{join, or_text}
use trimetry.Base.Int.{ℤ, pos, negsuc, pos_part, ltb_ℤ, ◌+ℤ◌}
use trimetry.Base.Clock.{milliseconds, sub_time}
use trimetry.Base.Float.{FloatOps}
use trimetry.Base.Decimal.{decimal, signed_decimal}
use trimetry.Model.Trial.{BenchmarkRun, RunStatus, ToolCall}
use trimetry.Model.Summary.{StatsSummary, MetricsSummary, OutputSample, ScenarioSummary}
use trimetry.Metrics.Fields.{Field, fields}
use trimetry.Display.Format.{Formats, two_digits}

unfoldable pub status_text : RunStatus → String
status_text RunStatus.running = "running"
status_text RunStatus.completed = "completed"

-- `if b { … }`
abbrev when : Bool → List String → List String
when b lines = if b then lines else []

-- `s[:n] + "..."`: a character that the cut would split is left out, where the program keeps its first bytes.
abbrev cut_at : ℕ → String → String
cut_at n s = if ltb n (len s) then str_append (slice s 0 n) "..." else s

-- strings.ReplaceAll(s, "\n", " ")
abbrev one_line : String → String
one_line s = of_list (map (λ c. if code c == 10 then " " else c) (to_list s))

-- The loop over s.ToolCalls, from the one with index i.
unfoldable pub tool_call_lines : ℕ → List ToolCall → List String
tool_call_lines i [] = []
tool_call_lines i (tc ∷ tcs) =
    join (
      "| "
      ∷ decimal (suc i)
      ∷ " | "
      ∷ tc.tool
      ∷ " | `"
      ∷ cut_at 80 tc.command
      ∷ "` | "
      ∷ signed_decimal tc.duration_ms
      ∷ " | "
      ∷ one_line (cut_at 50 tc.output)
      ∷ " |"
      ∷ [])
    ∷ tool_call_lines (suc i) tcs

accuracy_mark : Option Bool → String
accuracy_mark none = ""
accuracy_mark (some true) = " [ACCURATE]"
accuracy_mark (some false) = " [INACCURATE]"

unfoldable pub sample_lines : List OutputSample → List String
unfolding accuracy_mark
sample_lines [] = []
sample_lines (s ∷ ss) =
    join ("**Trial " ∷ decimal s.trial_number ∷ "**" ∷ accuracy_mark s.accurate ∷ ":" ∷ [])
    ∷ "```"
    ∷ s.output
    ∷ "```"
    ∷ ""
    ∷ sample_lines ss

module _ {ops : FloatOps} (formats : Formats ops) where
  -- The function formatDuration of this file.
  unfoldable pub report_duration : ℤ → String
  report_duration d =
      if ltb_ℤ d (pos 1_000_000_000)
      then str_append (signed_decimal (milliseconds d)) "ms"
      else if ltb_ℤ d (pos 60_000_000_000)
      then str_append (formats.fixed 1 (formats.seconds d)) "s"
      else elim d [
        | pos n ↦
            join
              (decimal (n / 60_000_000_000) ∷ "m" ∷ two_digits (n / 1_000_000_000 % 60) ∷ "s" ∷ [])
        | negsuc n ↦ ""
      ]

  -- More digits for smaller values.
  unfoldable pub format_metric_value : ops.Float → String
  format_metric_value v =
      let zero = ops.of_int (pos 0) in
      let one = ops.of_int (pos 1) in
      let abs = ops.abs v in
      if ops.eq v zero
      then "0.00"
      else if ops.lt one abs || ops.eq abs one
      then formats.fixed 2 v
      else formats.fixed (pos_part (ops.ceil (ops.sub zero (ops.log10 abs)) +ℤ pos 2)) v

  -- The function `row`.
  unfoldable pub metric_row : String → Option (StatsSummary ops.Float) → List String
  unfolding format_metric_value
  metric_row name none = []
  metric_row name (some s) =
      join (
        "| "
        ∷ name
        ∷ " | "
        ∷ format_metric_value s.mean
        ∷ " | "
        ∷ format_metric_value s.median
        ∷ " | "
        ∷ format_metric_value s.std_dev
        ∷ " | "
        ∷ format_metric_value s.minimum
        ∷ " | "
        ∷ format_metric_value s.maximum
        ∷ " | "
        ∷ format_metric_value s.p90
        ∷ " | "
        ∷ format_metric_value s.p95
        ∷ " | "
        ∷ decimal s.count
        ∷ " |"
        ∷ [])
      ∷ []

  metric_rows : List (Field ops.Float) → MetricsSummary ops.Float → List String
  metric_rows [] m = []
  metric_rows (f ∷ fs) m = metric_row f.label (f.extract m) ++ metric_rows fs m

  unfoldable pub metric_table : MetricsSummary ops.Float → List String
  unfolding metric_rows
  metric_table m =
      "| Metric | Mean | Median | StdDev | Min | Max | P90 | P95 | N |"
      ∷ "|--------|------|--------|--------|-----|-----|-----|-----|---|"
      ∷ metric_rows (fields ops) m

  percent_of : ops.Float → String
  percent_of x = str_append (formats.fixed 1 (ops.mul x (ops.of_int (pos 100)))) "%"

  count_lines : ScenarioSummary ops.Float → List String
  unfolding percent_of
  count_lines s =
      (join ("| Trials | " ∷ decimal s.trial_count ∷ " |" ∷ [])
        ∷ join ("| Completed | " ∷ decimal s.completed_count ∷ " |" ∷ [])
        ∷ join ("| Failed | " ∷ decimal s.failed_count ∷ " |" ∷ [])
        ∷ join ("| Timeout | " ∷ decimal s.timeout_count ∷ " |" ∷ [])
        ∷ [])
      ++ (when (ltb 0 s.cancelled_count)
            (join ("| Cancelled | " ∷ decimal s.cancelled_count ∷ " |" ∷ []) ∷ [])
          ++ ((join ("| Failure Rate | " ∷ percent_of s.failure_rate ∷ " |" ∷ []) ∷ [])
              ++ (elim s.accuracy_rate [
                | none ↦ []
                | some rate ↦
                    join ("| Accuracy Rate | " ∷ percent_of rate ∷ " |" ∷ [])
                    ∷ join ("| Accuracy Method | " ∷ s.accuracy_method ∷ " |" ∷ [])
                    ∷ []
              ])))

  -- The body of the loop over the summaries.
  unfoldable pub scenario_lines : ScenarioSummary ops.Float → List String
  unfolding count_lines
  scenario_lines s =
      (join ("## " ∷ or_text s.scenario_name s.scenario_id ∷ " (model: " ∷ s.model_name ∷ ")" ∷ [])
        ∷ ""
        ∷ [])
      ++ (when (if str_eq s.input "" then false else true)
            (join ("> **Prompt**: `" ∷ s.input ∷ "`" ∷ []) ∷ "" ∷ [])
          ++ (("| Metric | Value |" ∷ "|--------|-------|" ∷ [])
              ++ (count_lines s
                  ++ (("" ∷ [])
                      ++ ((elim s.metrics [ none ↦ [] | some m ↦ metric_table m ])
                          ++ (("" ∷ [])
                              ++ (when (if is_empty s.tool_calls then false else true) (
                                    "### Tool Calls"
                                    ∷ ""
                                    ∷ "| # | Tool | Command | Duration (ms) | Output |"
                                    ∷ "|---|------|---------|---------------|--------|"
                                    ∷ (tool_call_lines 0 s.tool_calls ++ ("" ∷ [])))
                                  ++ when (if is_empty s.output_samples then false else true) (
                                      "### Output Samples"
                                      ∷ ""
                                      ∷ sample_lines s.output_samples))))))))

  all_scenario_lines : List (ScenarioSummary ops.Float) → List String
  all_scenario_lines [] = []
  all_scenario_lines (s ∷ ss) = scenario_lines s ++ all_scenario_lines ss

  unfoldable pub markdown_summary :
      BenchmarkRun ops.Float → List (ScenarioSummary ops.Float) → List String
  unfolding report_duration all_scenario_lines
  markdown_summary run summaries =
      (str_append "# Benchmark Report: " run.name
        ∷ ""
        ∷ join ("- **Run ID**: `" ∷ run.benchmark_run_id ∷ "`" ∷ [])
        ∷ str_append "- **Status**: " (status_text run.status)
        ∷ str_append "- **Started**: " (formats.time "2006-01-02 15:04:05" run.started_at)
        ∷ [])
      ++ ((elim run.finished_at [
        | none ↦ []
        | some at ↦
            str_append "- **Finished**: " (formats.time "2006-01-02 15:04:05" at)
            ∷ str_append "- **Duration**: " (report_duration (sub_time at run.started_at))
            ∷ []
      ])
          ++ (str_append "- **Environment**: " run.environment
              ∷ str_append "- **Git Commit**: " run.git_commit
              ∷ str_append "- **Config Hash**: " run.config_hash
              ∷ str_append "- **Runner Version**: " run.runner_version
              ∷ ""
              ∷ all_scenario_lines summaries))
