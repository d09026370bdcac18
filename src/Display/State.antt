-- ===== src/Display/State.antt =====
-- internal/ui/display.go: the state of the display. What is written is a list of pieces: each is one call that
-- writes a line, or an escape sequence that moves the cursor. Write errors are ignored, as in the program.
use Prim.Native.String.{◌++◌ as str_append}
use trimetry.Base.{ℕ, ◌+◌, String, Bool, List, if◌then◌else◌}
use trimetry.Base.Dict.{Dict}
use trimetry.Base.Clock.{Time}
use trimetry.Model.Trial.{ExecutionStatus}

-- The counters are those that a switch over the status increases.
pub record ComboProgress : Type 0 where
  pub label : String
  pub model_name : String
  pub scenario_id : String
  pub total : ℕ
  pub completed : ℕ
  pub failed : ℕ
  pub timeout : ℕ
  pub cancelled : ℕ

unfoldable pub done : ComboProgress → ℕ
done c = c.completed + c.failed + c.timeout + c.cancelled

pub data Written : Type 0 where
  -- a text with the newline that ends it
  line : String → Written
  -- "\033[nA": n rows up
  up : ℕ → Written
  -- "\033[2K\n": the row is emptied, and the cursor moves to the next one
  clear_line : Written

pub record Display : Type 0 where
  pub output : List Written
  pub combos : List ComboProgress
  pub combo_idx : Dict ℕ
  pub scenario_name : Dict String
  pub total : ℕ
  pub completed : ℕ
  pub max_label : ℕ
  pub start_time : Time
  pub is_tty : Bool
  pub verbose : Bool
  pub drawn : Bool

abbrev pub ansi_reset : String
ansi_reset = "\u{1b}[0m"

abbrev pub ansi_bold : String
ansi_bold = "\u{1b}[1m"

abbrev pub ansi_dim : String
ansi_dim = "\u{1b}[2m"

abbrev pub ansi_red : String
ansi_red = "\u{1b}[31m"

abbrev pub ansi_green : String
ansi_green = "\u{1b}[32m"

abbrev pub ansi_yellow : String
ansi_yellow = "\u{1b}[33m"

abbrev pub ansi_cyan : String
ansi_cyan = "\u{1b}[36m"

-- The function `c`: colours are for terminals.
abbrev pub coloured : Bool → String → String
coloured is_tty code = if is_tty then code else ""

abbrev pub wrapped : Bool → String → String → String
wrapped is_tty code s =
    str_append (coloured is_tty code) (str_append s (coloured is_tty ansi_reset))

unfoldable pub status_icon : Bool → ExecutionStatus → String
status_icon is_tty ExecutionStatus.failed = wrapped is_tty ansi_red "✗"
status_icon is_tty ExecutionStatus.timeout = wrapped is_tty ansi_yellow "⏱"
status_icon is_tty ExecutionStatus.cancelled = wrapped is_tty ansi_dim "⊘"
status_icon is_tty _ = wrapped is_tty ansi_green "✓"
