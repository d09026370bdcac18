-- ===== src/Display/Trials.antt =====
-- internal/ui/display.go: what the display does when a trial ends or is tried again.
use Prim.Native.String.{len, slice, ◌++◌ as str_append}
use trimetry.Base.{
  ℕ, ◌+◌, String, Bool, true, Option, none, some, ◌>>=◌, List, [], ◌∷◌, ◌++◌, get_elem?, set, ltb,
  if◌then◌else◌,
}
use trimetry.Base.Text.{join}
use trimetry.Base.Int.{ℤ, pos}
use trimetry.Base.Clock.{of_milliseconds}
use trimetry.Base.Dict.{Dict, lookup}
use trimetry.Base.Float.{FloatOps}
use trimetry.Base.Decimal.{decimal}
use trimetry.Model.Trial.{Trial, TrialMetrics, ExecutionStatus}
use trimetry.Model.Status.{scenario_model_key}
use trimetry.Display.Format.{Formats, format_duration, format_number}
use trimetry.Display.State.{
  ComboProgress, Written, line, Display, wrapped, status_icon, ansi_dim, ansi_yellow,
}
use trimetry.Display.Progress.{draw_progress, erase_progress}

-- The `switch` over the status.
unfoldable pub count_combo : ExecutionStatus → ComboProgress → ComboProgress
count_combo ExecutionStatus.completed c = record c { completed = c.completed + 1 }
count_combo ExecutionStatus.failed c = record c { failed = c.failed + 1 }
count_combo ExecutionStatus.timeout c = record c { timeout = c.timeout + 1 }
count_combo ExecutionStatus.cancelled c = record c { cancelled = c.cancelled + 1 }
count_combo _ c = c

unfoldable pub count_at : ExecutionStatus → ℕ → List ComboProgress → List ComboProgress
unfolding count_combo
count_at status i cs = elim (get_elem? cs i) [
  | none ↦ cs
  | some c ↦ set cs i (count_combo status c)
]

-- The counters after a trial, before anything is drawn.
unfoldable pub count_trial : {F : Type 0} → Trial F → Display → Display
unfolding count_at
count_trial t d = record d {
  combos = elim (lookup (scenario_model_key t.scenario_id t.model_name) d.combo_idx) [
    | none ↦ d.combos
    | some i ↦ count_at t.execution_status i d.combos
  ];
  completed = d.completed + 1;
}

-- `msg[:60]`: a character that the cut would split is left out, where the program keeps its first bytes.
unfoldable pub short_message : String → String
short_message msg = if ltb 60 (len msg) then str_append (slice msg 0 60) "..." else msg

unfoldable pub trial_label : {F : Type 0} → Dict String → Trial F → String
trial_label names t = join (
    t.model_name
    ∷ " × "
    ∷ (elim (lookup t.scenario_id names) [ none ↦ t.scenario_id | some name ↦ name ])
    ∷ [])

unfoldable pub retry_line_tty :
    (trial_id : String) → (attempt max_retries : ℕ) → (is_tty : Bool) → Written
retry_line_tty trial_id attempt max_retries is_tty = line (
    join (
      "  "
      ∷ wrapped is_tty ansi_yellow (
          join ("↻ retry " ∷ decimal attempt ∷ "/" ∷ decimal max_retries ∷ " for " ∷ trial_id ∷ []))
      ∷ []))

module _ {ops : FloatOps} (formats : Formats ops) where
  wall_time : TrialMetrics ops.Float → String
  wall_time m = format_duration formats (of_milliseconds m.wall_time_ms)

  completed_detail : TrialMetrics ops.Float → String
  completed_detail m = join (
      wall_time m
      ∷ (elim m.total_tokens [ none ↦ "" | some n ↦ join ("  " ∷ format_number n ∷ " tok" ∷ []) ])
      ∷ (elim m.estimated_cost [
        | none ↦ ""
        | some cost ↦
            if ops.lt (ops.of_int (pos 0)) cost then str_append "  $" (formats.fixed 3 cost) else ""
      ])
      ∷ [])

  unfoldable pub trial_detail : Trial ops.Float → String
  unfolding wall_time completed_detail
  trial_detail t = elim t.execution_status [
    | ExecutionStatus.completed ↦ elim t.metrics [ none ↦ "" | some m ↦ completed_detail m ]
    | ExecutionStatus.failed ↦ str_append "failed: " (short_message t.error_message)
    | ExecutionStatus.timeout ↦ elim t.metrics [
      | none ↦ ""
      | some m ↦ str_append "timeout " (wall_time m)
    ]
    | ExecutionStatus.cancelled ↦ "cancelled"
    | _ ↦ ""
  ]

  -- printTrialLineTTY
  unfoldable pub trial_line_tty : Trial ops.Float → (is_tty : Bool) → Dict String → Written
  trial_line_tty t is_tty names =
      let finished_at : String = elim t.finished_at [
        | none ↦ ""
        | some at ↦ formats.time "15:04:05" at
      ] in
      line (
        join (
          "  "
          ∷ wrapped is_tty ansi_dim finished_at
          ∷ " "
          ∷ status_icon is_tty t.execution_status
          ∷ "  "
          ∷ trial_label names t
          ∷ "  #"
          ∷ decimal t.trial_number
          ∷ "  "
          ∷ wrapped is_tty ansi_dim (trial_detail t)
          ∷ []))

  -- printTrialLine
  unfoldable pub trial_line : Trial ops.Float → Display → Written
  trial_line t d = line (
      join (
        "[trimetry] "
        ∷ status_icon d.is_tty t.execution_status
        ∷ " trial "
        ∷ decimal d.completed
        ∷ "/"
        ∷ decimal d.total
        ∷ "  "
        ∷ trial_label d.scenario_name t
        ∷ "  #"
        ∷ decimal t.trial_number
        ∷ "  "
        ∷ trial_detail t
        ∷ []))

  -- Above the bars, which are drawn again under the lines that are put in.
  unfoldable pub redraw : List Written → (elapsed : ℤ) → Display → Option Display
  redraw lines elapsed d = do
    let erased = erase_progress d
    drawn ← draw_progress formats elapsed (record erased { output = erased.output ++ lines })
    some (record drawn { drawn = true })

  -- The lock is held throughout, so that calls follow one another. A panic is `none`.
  unfoldable pub on_trial_complete : (elapsed : ℤ) → Trial ops.Float → Display → Option Display
  unfolding redraw
  on_trial_complete elapsed t d =
      let counted = count_trial t d in
      if d.is_tty
      then redraw
          (if d.verbose then trial_line_tty t counted.is_tty counted.scenario_name ∷ [] else [])
          elapsed counted
      else some (record counted { output = counted.output ++ (trial_line t counted ∷ []) })

  unfoldable pub on_retry :
      (elapsed : ℤ) → (trial_id : String) → (attempt max_retries : ℕ) → Display → Option Display
  unfolding redraw retry_line_tty
  on_retry elapsed trial_id attempt max_retries d =
      if d.is_tty
      then redraw (retry_line_tty trial_id attempt max_retries d.is_tty ∷ []) elapsed d
      else some (record d {
        output =
            d.output
            ++ (line (
                  join (
                    "[trimetry] ↻ retry "
                    ∷ decimal attempt
                    ∷ "/"
                    ∷ decimal max_retries
                    ∷ " for "
                    ∷ trial_id
                    ∷ []))
                ∷ []);
      })
