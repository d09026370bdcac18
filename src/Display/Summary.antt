-- ===== src/Display/Summary.antt =====
-- internal/ui/display.go: Finalize, and the summaries that it prints.
use Prim.Native.String.{◌++◌ as str_append}
use trimetry.Base.{
  ℕ, ◌+◌, String, Bool, Option, none, some, ◌>>=◌, List, [], ◌∷◌, ◌++◌, ltb, is_empty,
  if◌then◌else◌,
}
use trimetry.Base.Text.{join, or_text}
use trimetry.Base.Int.{ℤ, pos}
use trimetry.Base.Clock.{sub_time}
use trimetry.Base.Float.{FloatOps}
use trimetry.Base.Decimal.{decimal}
use trimetry.Model.Trial.{BenchmarkRun}
use trimetry.Model.Summary.{StatsSummary, MetricsSummary, ScenarioSummary}
use trimetry.Display.Format.{
  Formats, format_duration, format_ms, format_number, duration_of_ms, join_with, repeat,
}
use trimetry.Display.State.{
  ComboProgress, Written, line, Display, coloured, wrapped, ansi_bold, ansi_cyan, ansi_dim,
  ansi_green, ansi_red, ansi_reset, ansi_yellow,
}
use trimetry.Display.Progress.{draw_progress, erase_progress}

-- `if n > 0 { … }`
abbrev when_counted : ℕ → String → List String
when_counted n s = if ltb 0 n then s ∷ [] else []

-- `if x != nil { … }`
abbrev when_some : {A : Type 0} → Option A → (A → List String) → List String
when_some none f = []
when_some (some a) f = f a

unfoldable pub sum_of : (ComboProgress → ℕ) → List ComboProgress → ℕ
sum_of f [] = 0
sum_of f (c ∷ cs) = f c + sum_of f cs

-- `name := s.ScenarioID; if s.ScenarioName != "" { name = s.ScenarioName }`
abbrev shown_name : {F : Type 0} → ScenarioSummary F → String
shown_name s = or_text s.scenario_name s.scenario_id

module _ {ops : FloatOps} (formats : Formats ops) where
  abbrev is_positive : ops.Float → Bool
  is_positive x = ops.lt (ops.of_int (pos 0)) x

  abbrev ms : ops.Float → String
  ms x = format_duration formats (duration_of_ms formats x)

  abbrev percentage : ops.Float → String
  percentage x = str_append (formats.fixed 1 (ops.mul x (ops.of_int (pos 100)))) "%"

  plain_summary : ScenarioSummary ops.Float → Written
  plain_summary s = line (
      join (
        ("[trimetry]   "
          ∷ s.model_name
          ∷ " × "
          ∷ shown_name s
          ∷ ": "
          ∷ decimal s.completed_count
          ∷ "/"
          ∷ decimal s.trial_count
          ∷ " completed"
          ∷ [])
        ++ (when_counted s.failed_count (join (", " ∷ decimal s.failed_count ∷ " failed" ∷ []))
            ++ (when_counted s.timeout_count
                  (join (", " ∷ decimal s.timeout_count ∷ " timeout" ∷ []))
                ++ (when_counted s.cancelled_count
                      (join (", " ∷ decimal s.cancelled_count ∷ " cancelled" ∷ []))
                    ++ (when_some s.accuracy_rate
                          (λ rate. str_append ", accuracy " (percentage rate) ∷ [])
                        ++ when_some s.metrics (λ m.
                          when_some m.wall_time_ms
                            (λ w. str_append ", avg " (ms w.mean) ∷ []))))))))

  plain_summaries : List (ScenarioSummary ops.Float) → List Written
  unfolding plain_summary
  plain_summaries [] = []
  plain_summaries (s ∷ ss) = plain_summary s ∷ plain_summaries ss

  elapsed_text : BenchmarkRun ops.Float → Option String
  elapsed_text run = elim run.finished_at [
    | none ↦ none
    | some at ↦ some (format_duration formats (sub_time at run.started_at))
  ]

  -- The lines of finalizePlain.
  unfoldable pub finalize_plain :
      BenchmarkRun ops.Float → List (ScenarioSummary ops.Float) → Display → List Written
  unfolding elapsed_text plain_summaries
  finalize_plain run summaries d =
      let timeout = sum_of (λ c. c.timeout) d.combos in
      let cancelled = sum_of (λ c. c.cancelled) d.combos in
      line (
        join (
          ("[trimetry] completed "
            ∷ decimal d.completed
            ∷ "/"
            ∷ decimal d.total
            ∷ " in "
            ∷ (elim (elapsed_text run) [ none ↦ "" | some s ↦ s ])
            ∷ " ("
            ∷ decimal (sum_of (λ c. c.completed) d.combos)
            ∷ " passed, "
            ∷ decimal (sum_of (λ c. c.failed) d.combos)
            ∷ " failed"
            ∷ [])
          ++ (when_counted timeout (join (", " ∷ decimal timeout ∷ " timeout" ∷ []))
              ++ (when_counted cancelled (join (", " ∷ decimal cancelled ∷ " cancelled" ∷ []))
                  ++ (")" ∷ [])))))
      ∷ plain_summaries summaries

  status_parts : Bool → ScenarioSummary ops.Float → List String
  status_parts is_tty s =
      wrapped is_tty ansi_green
        (join ("✓ " ∷ decimal s.completed_count ∷ "/" ∷ decimal s.trial_count ∷ " completed" ∷ []))
      ∷ (when_counted s.failed_count
            (wrapped is_tty ansi_red (join ("✗ " ∷ decimal s.failed_count ∷ " failed" ∷ [])))
          ++ (when_counted s.timeout_count (
                wrapped is_tty ansi_yellow
                  (join ("⏱ " ∷ decimal s.timeout_count ∷ " timeout" ∷ [])))
              ++ (when_counted s.cancelled_count (
                    wrapped is_tty ansi_dim
                      (join ("⊘ " ∷ decimal s.cancelled_count ∷ " cancelled" ∷ [])))
                  ++ when_some s.accuracy_rate
                      (λ rate. str_append "Accuracy: " (percentage rate) ∷ []))))

  -- formatNumber(int64(math.Round(mean)))
  abbrev tokens : String → StatsSummary ops.Float → List String
  tokens name s = str_append name (format_number (formats.truncate (ops.round s.mean))) ∷ []

  abbrev positive_tokens : String → StatsSummary ops.Float → List String
  positive_tokens name s = if is_positive s.mean then tokens name s else []

  token_parts : MetricsSummary ops.Float → List String
  token_parts m =
      when_some m.input_tokens (tokens "in ")
      ++ (when_some m.output_tokens (tokens "out ")
          ++ (when_some m.reasoning_tokens (positive_tokens "reasoning ")
              ++ (when_some m.total_tokens (tokens "total ")
                  ++ (when_some m.cache_read_tokens (positive_tokens "cache-r ")
                      ++ when_some m.cache_write_tokens (positive_tokens "cache-w ")))))

  latency_lines : Bool → StatsSummary ops.Float → List String
  latency_lines is_tty w =
      join (
        "    "
        ∷ wrapped is_tty ansi_dim "Latency"
        ∷ "   mean "
        ∷ ms w.mean
        ∷ "   median "
        ∷ ms w.median
        ∷ "   p90 "
        ∷ ms w.p90
        ∷ "   min "
        ∷ ms w.minimum
        ∷ "   max "
        ∷ ms w.maximum
        ∷ "   σ "
        ∷ format_ms formats w.std_dev
        ∷ [])
      ∷ []

  token_lines : Bool → List String → List String
  token_lines is_tty parts =
      if is_empty parts
      then []
      else join (
          "    "
          ∷ wrapped is_tty ansi_dim "Tokens"
          ∷ "    "
          ∷ join_with "   " parts
          ∷ "  "
          ∷ wrapped is_tty ansi_dim "(mean/trial)"
          ∷ [])
        ∷ []

  cost_lines : Bool → StatsSummary ops.Float → List String
  cost_lines is_tty cost =
      let per_trial = if is_positive cost.mean then cost.mean else cost.median in
      if is_positive cost.maximum
      then join (
          "    "
          ∷ wrapped is_tty ansi_dim "Cost"
          ∷ "      $"
          ∷ formats.fixed 4 per_trial
          ∷ "/trial   $"
          ∷ formats.fixed 4 (ops.mul per_trial (ops.of_int (pos cost.count)))
          ∷ " total"
          ∷ [])
        ∷ []
      else []

  ttft_lines : Bool → StatsSummary ops.Float → List String
  ttft_lines is_tty ttft =
      join (
        "    "
        ∷ wrapped is_tty ansi_dim "TTFT"
        ∷ "      mean "
        ∷ ms ttft.mean
        ∷ "   p90 "
        ∷ ms ttft.p90
        ∷ [])
      ∷ []

  metric_lines : Bool → MetricsSummary ops.Float → List String
  unfolding latency_lines token_lines token_parts cost_lines ttft_lines
  metric_lines is_tty m =
      when_some m.wall_time_ms (latency_lines is_tty)
      ++ (token_lines is_tty (token_parts m)
          ++ (when_some m.estimated_cost (cost_lines is_tty)
              ++ when_some m.ttft_ms (ttft_lines is_tty)))

  -- The lines of printScenarioSummary.
  unfoldable pub summary_lines : Bool → ScenarioSummary ops.Float → List String
  unfolding status_parts metric_lines
  summary_lines is_tty s =
      ""
      ∷ join
          ("  " ∷ wrapped is_tty ansi_bold (join (s.model_name ∷ " × " ∷ shown_name s ∷ [])) ∷ [])
      ∷ str_append "    " (join_with "   " (status_parts is_tty s))
      ∷ when_some s.metrics (metric_lines is_tty)

  all_summary_lines : Bool → List (ScenarioSummary ops.Float) → List String
  all_summary_lines is_tty [] = []
  all_summary_lines is_tty (s ∷ ss) = summary_lines is_tty s ++ all_summary_lines is_tty ss

  abbrev as_lines : List String → List Written
  as_lines [] = []
  as_lines (s ∷ ss) = line s ∷ as_lines ss

  -- What Finalize prints under the bars.
  unfoldable pub results_lines :
      BenchmarkRun ops.Float
      → List (ScenarioSummary ops.Float)
      → (output_dir : String) → (is_tty : Bool) → List Written
  unfolding elapsed_text all_summary_lines
  results_lines run summaries output_dir is_tty =
      let cyan = coloured is_tty ansi_cyan in
      let reset = coloured is_tty ansi_reset in
      let edge = repeat "─" 62 in
      as_lines (
        ""
        ∷ join (cyan ∷ "╭" ∷ edge ∷ "╮" ∷ reset ∷ [])
        ∷ join (
            cyan
            ∷ "│  "
            ∷ wrapped is_tty ansi_bold "Results"
            ∷ cyan
            ∷ repeat " " 53
            ∷ "│"
            ∷ reset
            ∷ [])
        ∷ join (cyan ∷ "╰" ∷ edge ∷ "╯" ∷ reset ∷ [])
        ∷ (all_summary_lines is_tty summaries
            ++ (wrapped is_tty ansi_dim (str_append "  " (repeat "─" 61))
                ∷ ""
                ∷ (when_some (elapsed_text run) (λ s. str_append "  Duration: " s ∷ [])
                    ++ (join ("  Reports:  " ∷ output_dir ∷ "/" ∷ run.benchmark_run_id ∷ "/" ∷ [])
                        ∷ [])))))

  unfoldable pub finalize :
      (elapsed : ℤ)
      → BenchmarkRun ops.Float
      → List (ScenarioSummary ops.Float)
      → (output_dir : String) → Display
      → Option Display
  finalize elapsed run summaries output_dir d =
      if d.is_tty
      then (draw_progress formats elapsed (erase_progress d) >>= λ shown. some (record shown {
        output = shown.output ++ results_lines run summaries output_dir d.is_tty;
      }))
      else some (record d { output = d.output ++ finalize_plain run summaries d })
