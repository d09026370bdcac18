-- ===== src/Display/Progress.antt =====
-- internal/ui/display.go: the block of progress bars, drawn and erased.
use Prim.Native.String.{◌++◌ as str_append}
use trimetry.Base.{
  ℕ, zero, suc, ◌+◌, ◌-◌, ◌*◌, ◌/◌, String, Bool, ◌&&◌, ◌||◌, Option, none, some, ◌>>=◌, List, [],
  ◌∷◌, ◌++◌, length, ltb, ◌==◌, if◌then◌else◌,
}
use trimetry.Base.Text.{join}
use trimetry.Base.Int.{ℤ}
use trimetry.Base.Float.{FloatOps}
use trimetry.Base.Decimal.{decimal}
use trimetry.Model.Trial.{ExecutionStatus}
use trimetry.Display.Format.{Formats, pad, repeat, join_with, format_duration}
use trimetry.Display.State.{
  ComboProgress, done, Written, line, up, clear_line, Display, wrapped, status_icon, ansi_dim,
  ansi_green, ansi_red, ansi_yellow,
}

abbrev pub bar_width : ℕ
bar_width = 16

-- `strings.Repeat` panics on a negative count: `none`.
unfoldable pub progress_bar : Bool → (completed total : ℕ) → Option String
progress_bar is_tty completed total =
    if total == 0
    then some (repeat "░" bar_width)
    else let filled = completed * bar_width / total in
      if ltb bar_width filled
      then none
      else some (
          str_append (wrapped is_tty ansi_green (repeat "█" filled))
            (wrapped is_tty ansi_dim (repeat "░" (bar_width - filled))))

unfoldable pub status_type : ComboProgress → ExecutionStatus
status_type c =
    if ltb 0 c.failed
    then ExecutionStatus.failed
    else if ltb 0 c.timeout
    then ExecutionStatus.timeout
    else if ltb 0 c.cancelled
    then ExecutionStatus.cancelled
    else ExecutionStatus.completed

unfoldable pub has_mixed : ComboProgress → Bool
has_mixed c =
    ltb 0 c.completed && (ltb 0 c.failed || ltb 0 c.timeout || ltb 0 c.cancelled)
    || ltb 0 c.failed && (ltb 0 c.timeout || ltb 0 c.cancelled)
    || ltb 0 c.timeout && ltb 0 c.cancelled

-- `if n > 0 { parts = append(parts, …) }`
abbrev counted : Bool → String → String → ℕ → List String
counted is_tty colour icon n =
    if ltb 0 n then wrapped is_tty colour (str_append icon (decimal n)) ∷ [] else []

unfoldable pub mixed_parts : Bool → ComboProgress → List String
mixed_parts is_tty c =
    counted is_tty ansi_green "✓" c.completed
    ++ (counted is_tty ansi_red "✗" c.failed
        ++ (counted is_tty ansi_yellow "⏱" c.timeout ++ counted is_tty ansi_dim "⊘" c.cancelled))

unfoldable pub combo_status : Bool → ComboProgress → String
combo_status is_tty c =
    let n = done c in
    let end = if n == c.total then str_append "  " (wrapped is_tty ansi_dim "done") else "" in
    if n == 0
    then wrapped is_tty ansi_dim "wait"
    else if has_mixed c
    then str_append (join_with " " (mixed_parts is_tty c)) end
    else str_append (status_icon is_tty (status_type c)) end

-- The branch that a combination hangs on: i is its index, of n.
unfoldable pub branch : (i n : ℕ) → String
branch i n = if i == n - 1 then "└" else if (i == 0) && ltb 1 n then "┌" else "├"

unfoldable pub combo_line : (is_tty : Bool) → (n max_label : ℕ) → ℕ → ComboProgress → Option Written
unfolding branch
combo_line is_tty n max_label i c = do
  bar ← progress_bar is_tty (done c) c.total
  some (
      line (
        join (
          "  "
          ∷ branch i n
          ∷ " "
          ∷ pad c.label max_label
          ∷ "  "
          ∷ bar
          ∷ "  "
          ∷ decimal (done c)
          ∷ "/"
          ∷ decimal c.total
          ∷ "  "
          ∷ combo_status is_tty c
          ∷ [])))

unfoldable pub combo_lines :
    (is_tty : Bool) → (n max_label : ℕ) → ℕ → List ComboProgress → Option (List Written)
combo_lines is_tty n max_label i [] = some []
combo_lines is_tty n max_label i (c ∷ cs) = do
  first ← combo_line is_tty n max_label i c
  rest ← combo_lines is_tty n max_label (suc i) cs
  some (first ∷ rest)

-- d.completed * 100 / d.total
unfoldable pub percent : (completed total : ℕ) → ℕ
percent completed total = if total == 0 then 0 else completed * 100 / total

module _ {ops : FloatOps} (formats : Formats ops) where
  unfoldable pub overall_line :
      (is_tty : Bool) → (completed total : ℕ) → (elapsed : ℤ) → Option Written
  unfolding percent
  overall_line is_tty completed total elapsed = do
    bar ← progress_bar is_tty completed total
    some (
        line (
          join (
            "  ▸ "
            ∷ decimal completed
            ∷ "/"
            ∷ decimal total
            ∷ " completed ("
            ∷ decimal (percent completed total)
            ∷ "%)  "
            ∷ bar
            ∷ "  Elapsed: "
            ∷ format_duration formats elapsed
            ∷ [])))

  -- The lines of drawProgress; `elapsed` is time.Since(d.startTime). A panic is `none`.
  unfoldable pub progress_block : Display → (elapsed : ℤ) → Option (List Written)
  progress_block d elapsed = do
    lines ← combo_lines d.is_tty (length d.combos) d.max_label 0 d.combos
    overall ← overall_line d.is_tty d.completed d.total elapsed
    some (lines ++ (line "" ∷ overall ∷ []))

  unfoldable pub draw_progress : (elapsed : ℤ) → Display → Option Display
  draw_progress elapsed d = do
    lines ← progress_block d elapsed
    some (record d { output = d.output ++ lines })

unfoldable pub progress_lines : Display → ℕ
progress_lines d = length d.combos + 2

unfoldable pub clear_lines : ℕ → List Written
clear_lines zero = []
clear_lines (suc n) = clear_line ∷ clear_lines n

unfoldable pub erase_progress : Display → Display
unfolding progress_lines
erase_progress d =
    let n = progress_lines d in
    if d.drawn then record d { output = d.output ++ (up n ∷ (clear_lines n ++ (up n ∷ []))) } else d
