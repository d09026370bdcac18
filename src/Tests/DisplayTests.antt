-- ===== src/Tests/DisplayTests.antt =====
-- The theorems about internal/ui at concrete inputs.
use Prim.Native.Char.{Char}
use Prim.Native.String.{count}
use trimetry.Base.{
  ℕ, ◌*◌, ◌<◌, ◌≤◌, String, Bool, true, false, ◌≡◌, refl, none, some, ◌>>=◌, List, [], ◌∷◌, arith,
  concat,
}
use trimetry.Base.Decimal.{digits, digits_within, digit}
use trimetry.Base.Int.{pos, negsuc}
use trimetry.Base.Dict.{insert, lookup}
use trimetry.Model.Trial.{ExecutionStatus}
use trimetry.Model.Status.{scenario_model_key}
use trimetry.Display.Format.{format_number, group_digits, split_groups, with_commas}
use trimetry.Display.State.{done}
use trimetry.Display.Start.{
  new_display, initial_display, scenario_names, combos_of, combos_of_model, combo_of, index_combos,
}
use trimetry.Display.Progress.{
  progress_bar, draw_progress, progress_block, combo_lines, combo_line, overall_line,
  erase_progress,
}
use trimetry.Display.Trials.{count_trial, count_at, count_combo, on_trial_complete, redraw}
use trimetry.Display.Sequence.{Event, trial_ended, retried, handle, run_events}
use trimetry.Display.Survival.{Fits, InBounds, count_events, count_event}
use trimetry.Display.Run.{Shows, run_events-Shows}
use trimetry.Display.Bars.{progress_bar-width}
use trimetry.Display.Grouping.{
  IsGrouped, read_number, read_number-format_number, group_digits-IsGrouped,
}
use trimetry.Tests.Sample.{plain_formats, benchmark_run, scenario, sonnet, trial}

abbrev events : List (Event ℕ)
events =
    trial_ended (pos 1_000_000) trial
    ∷ retried (pos 2_000_000) "trial-2" 1 3
    ∷ trial_ended (pos 3_000_000) (record trial { execution_status = ExecutionStatus.failed })
    ∷ []

events-Fits : Fits (
    count_events plain_formats events
      (initial_display plain_formats benchmark_run (scenario ∷ []) (sonnet ∷ []) 2 1 true true))
unfolding Fits InBounds count_events count_event count_trial count_at count_combo initial_display
    combos_of combos_of_model combo_of scenario_names index_combos insert lookup scenario_model_key
    done
events-Fits = ((omega arith, tt), omega arith)

run_events-Shows_example :
    Shows plain_formats events
      (initial_display plain_formats benchmark_run (scenario ∷ []) (sonnet ∷ []) 2 1 true true)
      (new_display plain_formats (pos 0) benchmark_run (scenario ∷ []) (sonnet ∷ []) 2 1 true true
        >>= run_events plain_formats events)
run_events-Shows_example =
    run_events-Shows plain_formats (pos 0) benchmark_run (scenario ∷ []) (sonnet ∷ []) 2 1 true
      events events-Fits

progress_bar-width_example :
    (1 * 16 < 17 * 3 → (bar : String) × (progress_bar false 1 3 ≡ some bar) × (count bar ≡ 16))
    × (17 * 3 ≤ 1 * 16 → (is_tty : Bool) → progress_bar is_tty 1 3 ≡ none)
progress_bar-width_example = progress_bar-width 1 3 (omega arith)

read_number-format_number_example :
    read_number (format_number (negsuc 1_234_566)) ≡ negsuc 1_234_566
read_number-format_number_example = read_number-format_number (negsuc 1_234_566)

grouped : format_number (negsuc 1_234_566) ≡ "-1,234,567"
unfolding format_number group_digits split_groups with_commas digits digits_within digit
grouped = refl

abbrev seven_digits : List Char
seven_digits = "1" ∷ "2" ∷ "3" ∷ "4" ∷ "5" ∷ "6" ∷ "7" ∷ []

group_digits-IsGrouped_example :
    (groups : List (List Char)) × (group_digits seven_digits ≡ with_commas groups)
    × (concat groups ≡ seven_digits)
    × IsGrouped groups
group_digits-IsGrouped_example = group_digits-IsGrouped seven_digits (omega arith)

-- Two models of one name share their counters, and the bar of the one that is counted for both overflows.
two_of_one_name :
    (new_display plain_formats
        (pos 0)
        benchmark_run
        (scenario ∷ [])
        (sonnet ∷ sonnet ∷ [])
        1
        1
        true
        false
      >>= run_events plain_formats (trial_ended (pos 0) trial ∷ trial_ended (pos 0) trial ∷ []))
    ≡ none
unfolding new_display initial_display run_events handle on_trial_complete count_trial count_at
    count_combo combos_of combos_of_model combo_of scenario_names index_combos insert lookup
    scenario_model_key done redraw draw_progress progress_block combo_lines combo_line overall_line
    progress_bar erase_progress
two_of_one_name = refl
