-- ===== src/Display/Run.antt =====
-- internal/ui/display.go: from NewDisplay on, through any sequence of calls.
use mathlib.Core.Path.{subst}
use trimetry.Base.{
  ℕ, ◌+◌, ◌*◌, Bool, true, false, ◌≡◌, refl, sym, ap, ◌∙◌, Option, some, ◌>>=◌, Holds-some, List,
  [], ◌++◌, length, arith,
}
use trimetry.Base.Int.{ℤ}
use trimetry.Base.Float.{FloatOps}
use trimetry.Model.Trial.{Scenario, ModelConfig, BenchmarkRun}
use trimetry.Display.Format.{Formats}
use trimetry.Display.State.{Written, Display}
use trimetry.Display.Start.{
  new_display, initial_display, header_lines, box, combos_of, scenario_names,
}
use trimetry.Display.Progress.{draw_progress, progress_block}
use trimetry.Display.Screen.{blank, show, AllLines, rows, blanks}
use trimetry.Display.Redraw.{show-lines, AllLines-append}
use trimetry.Display.Shown.{IsShown, AreLines, block-AreLines}
use trimetry.Display.Sequence.{Event, run_events, logs, IsShowing, run_events-IsShowing}
use trimetry.Display.Survival.{
  Fits, Survives, block_of, count_events, count_events-Fits, run_events-Survives, written,
  count_events-record, Fits-record,
}

module _ {ops : FloatOps} (formats : Formats ops) where
  header_lines-AllLines :
      (run : BenchmarkRun ops.Float) (s m k c total : ℕ) (is_tty : Bool)
      → AllLines (header_lines formats run s m k c total is_tty)
  unfolding header_lines box
  header_lines-AllLines run s m k c total true = tt
  header_lines-AllLines run s m k c total false = tt

  first-IsShowing :
      (elapsed : ℤ) (d : Display) (block : List Written)
      → d.is_tty ≡ true
      → AllLines d.output
      → AllLines block
      → progress_block formats d elapsed ≡ some block
      → IsShowing formats d.verbose d.scenario_name d.output (written d (d.output ++ block) true)
  unfolding IsShowing IsShown progress_block blanks
  first-IsShowing elapsed d block h are_lines are_block k = (
    h,
    refl,
    refl,
    (
      refl,
      (
        elapsed,
        block,
        k,
        show-lines (d.output ++ block) [] 0 (AllLines-append d.output block are_lines are_block)
            (omega arith),
      ),
    ),
  )

  -- The first drawing, of a display that has written lines only.
  draw_first : (elapsed : ℤ) → Display → Option Display
  draw_first elapsed d = do
    shown ← draw_progress formats elapsed d
    some (record shown { drawn = true })

  draw_first-written :
      (elapsed : ℤ) (d : Display) (block : List Written)
      → progress_block formats d elapsed ≡ some block
      → draw_first elapsed d ≡ some (written d (d.output ++ block) true)
  unfolding draw_first draw_progress
  draw_first-written elapsed d block h = rw h refl

  -- What is on the screen at the end, and that there is an end.
  unfoldable pub Shows : List (Event ops.Float) → Display → Option Display → Type 0
  Shows es start result =
      (end : Display) × (elapsed : ℤ) × (block : List Written) × (result ≡ some end)
      × (progress_block formats (count_events formats es start) elapsed ≡ some block)
      × (show end.output blank
          ≡ some (record {
            above =
                rows ((start.output ++ logs formats start.verbose start.scenario_name es) ++ block)
                  [];
            below = [];
          }))

  run_from :
      (elapsed : ℤ) (start : Display) (es : List (Event ops.Float))
      → start.is_tty ≡ true
      → AllLines start.output
      → Fits (count_events formats es start)
      → Shows es start (draw_first elapsed start >>= run_events formats es)
  unfolding Shows IsShowing IsShown progress_block Survives AreLines
  run_from elapsed start es h are_lines fits =
      let block = block_of formats elapsed start (count_events-Fits formats es start fits) in
      let are_block =
        Holds-some (AreLines (length start.combos + 2)) block.1
          (block-AreLines formats start elapsed) in
      let d = written start (start.output ++ block.0) true in
      let drawn = draw_first-written elapsed start block.0 block.1 in
      let same = count_events-record formats es start (start.output ++ block.0) true in
      let fits_d =
        subst Fits (sym same) (
          Fits-record formats (count_events formats es start) (start.output ++ block.0) true
            fits) in
      let last = run_events-Survives formats es d fits_d in
      let showing =
        Holds-some
          (IsShowing formats start.verbose start.scenario_name
            (start.output ++ logs formats start.verbose start.scenario_name es))
          last.2
          (run_events-IsShowing formats start.verbose start.scenario_name start.output es d
            (first-IsShowing elapsed start block.0 h are_lines are_block.0 block.1)) in
      (
        written (count_events formats es d) last.0 last.1,
        showing.3.1.0,
        showing.3.1.1,
        ap (λ m. m >>= run_events formats es) drawn ∙ last.2,
        ap (λ x. progress_block formats x showing.3.1.0) (sym same) ∙ showing.3.1.2,
        showing.3.1.3,
      )

  new_display-draws :
      (elapsed : ℤ) (run : BenchmarkRun ops.Float) (scenarios : List Scenario)
      (models : List (ModelConfig ops.Float)) (trials_per_combo concurrency : ℕ) (verbose : Bool)
      → new_display formats elapsed run scenarios models trials_per_combo concurrency true verbose
        ≡ draw_first elapsed
            (initial_display formats run scenarios models trials_per_combo concurrency true verbose)
  unfolding new_display draw_first
  new_display-draws elapsed run scenarios models trials_per_combo concurrency verbose = refl

  initial_display-is_tty :
      (run : BenchmarkRun ops.Float) (scenarios : List Scenario)
      (models : List (ModelConfig ops.Float)) (trials_per_combo concurrency : ℕ) (verbose : Bool)
      → ((initial_display formats run scenarios models trials_per_combo concurrency true
            verbose).is_tty
          ≡ true)
        × AllLines
            (initial_display formats run scenarios models trials_per_combo concurrency true
              verbose).output
  unfolding initial_display
  initial_display-is_tty run scenarios models trials_per_combo concurrency verbose = (
    refl,
    header_lines-AllLines run (length scenarios) (length models) trials_per_combo concurrency
        (length (combos_of (scenario_names scenarios []) trials_per_combo models scenarios)
          * trials_per_combo)
        true,
  )

  -- A display on a terminal survives every sequence of ended trials and retries that counts no more trials than
  -- were announced, for each combination and in all. In the end the screen shows the header, the line of each event
  -- that leaves one, in order, and then the bars, once, with the counts of the ended trials; nothing else is left.
  pub run_events-Shows :
      (elapsed : ℤ) (run : BenchmarkRun ops.Float) (scenarios : List Scenario)
      (models : List (ModelConfig ops.Float)) (trials_per_combo concurrency : ℕ) (verbose : Bool)
      (es : List (Event ops.Float))
      → Fits (
          count_events formats es (
            initial_display formats run scenarios models trials_per_combo concurrency true verbose))
      → Shows es
          (initial_display formats run scenarios models trials_per_combo concurrency true verbose)
          (new_display formats elapsed run scenarios models trials_per_combo concurrency true
              verbose
            >>= run_events formats es)
  run_events-Shows elapsed run scenarios models trials_per_combo concurrency verbose es fits =
      let start =
        initial_display formats run scenarios models trials_per_combo concurrency true verbose in
      let facts =
        initial_display-is_tty run scenarios models trials_per_combo concurrency verbose in
      subst (λ m. Shows es start (m >>= run_events formats es))
        (sym (new_display-draws elapsed run scenarios models trials_per_combo concurrency verbose))
        (run_from elapsed start es facts.0 facts.1 fits)
