-- ===== src/Display/Start.antt =====
-- internal/ui/display.go: NewDisplay, and the header that it prints.
use Prim.Native.String.{◌++◌ as str_append}
use trimetry.Base.{
  ℕ, ◌+◌, ◌*◌, String, Bool, true, false, Option, none, some, ◌>>=◌, List, [], ◌∷◌, ◌++◌, length,
  ltb, ◌==◌, if◌then◌else◌,
}
use trimetry.Base.Text.{join, or_text}
use trimetry.Base.Int.{ℤ}
use trimetry.Base.Dict.{Dict, insert, lookup}
use trimetry.Base.Float.{FloatOps}
use trimetry.Base.Decimal.{decimal}
use trimetry.Model.Trial.{Scenario, ModelConfig, BenchmarkRun}
use trimetry.Model.Status.{scenario_model_key}
use trimetry.Display.Format.{Formats, display_width, pad, repeat}
use trimetry.Display.State.{
  ComboProgress, Written, line, Display, coloured, wrapped, ansi_bold, ansi_cyan, ansi_reset,
}
use trimetry.Display.Progress.{draw_progress}

unfoldable pub scenario_names : List Scenario → Dict String → Dict String
scenario_names [] names = names
scenario_names (s ∷ ss) names =
    scenario_names ss (insert s.scenario_id (or_text s.name s.scenario_id) names)

-- A name that is missing is the empty text.
unfoldable pub combo_of :
    {F : Type 0} → Dict String → (trials_per_combo : ℕ) → ModelConfig F → Scenario → ComboProgress
combo_of names trials_per_combo m s = record {
  label =
      join (
        m.name ∷ " × " ∷ (elim (lookup s.scenario_id names) [ none ↦ "" | some name ↦ name ]) ∷ []);
  model_name = m.name;
  scenario_id = s.scenario_id;
  total = trials_per_combo;
  completed = 0;
  failed = 0;
  timeout = 0;
  cancelled = 0;
}

module _ {F : Type 0} where
  -- The inner loop, over the scenarios of one model.
  unfoldable pub combos_of_model :
      Dict String → ℕ → ModelConfig F → List Scenario → List ComboProgress
  combos_of_model names k m [] = []
  combos_of_model names k m (s ∷ ss) = combo_of names k m s ∷ combos_of_model names k m ss

  unfoldable pub combos_of :
      Dict String → ℕ → List (ModelConfig F) → List Scenario → List ComboProgress
  unfolding combos_of_model
  combos_of names k [] ss = []
  combos_of names k (m ∷ ms) ss = combos_of_model names k m ss ++ combos_of names k ms ss

-- idx[key] = len(combos), in the order of the combinations: a key that comes again is overwritten.
unfoldable pub index_combos : ℕ → List ComboProgress → Dict ℕ → Dict ℕ
index_combos i [] idx = idx
index_combos i (c ∷ cs) idx =
    index_combos (i + 1) cs (insert (scenario_model_key c.scenario_id c.model_name) i idx)

unfoldable pub max_width : ℕ → List ComboProgress → ℕ
max_width widest [] = widest
max_width widest (c ∷ cs) =
    let w = display_width c.label in max_width (if ltb widest w then w else widest) cs

-- `if n == 1`
abbrev pub plural : ℕ → String → String
plural n word = if n == 1 then word else str_append word "s"

abbrev larger : ℕ → ℕ → ℕ
larger a b = if ltb a b then b else a

-- A text without a newline is put in front of the next line.
unfoldable pub box : Bool → (width : ℕ) → (line1 line2 line3 line4 : String) → List Written
box is_tty width line1 line2 line3 line4 =
    let row : String → Written = λ s. line (join ("│" ∷ pad s width ∷ "│" ∷ [])) in
    line (join (coloured is_tty ansi_cyan ∷ "╭" ∷ repeat "─" width ∷ "╮" ∷ []))
    ∷ row line1
    ∷ row ""
    ∷ row line2
    ∷ row line3
    ∷ row line4
    ∷ line (join ("╰" ∷ repeat "─" width ∷ "╯" ∷ []))
    ∷ line (coloured is_tty ansi_reset)
    ∷ []

module _ {ops : FloatOps} (formats : Formats ops) where
  unfoldable pub header_lines :
      BenchmarkRun ops.Float
      → (num_scenarios num_models trials_per_combo concurrency total : ℕ) → (is_tty : Bool)
      → List Written
  unfolding box
  header_lines run num_scenarios num_models trials_per_combo concurrency total is_tty =
      let counts =
        decimal num_scenarios
        ∷ " "
        ∷ plural num_scenarios "scenario"
        ∷ " × "
        ∷ decimal num_models
        ∷ " "
        ∷ plural num_models "model"
        ∷ " × "
        ∷ decimal trials_per_combo
        ∷ " trials = "
        ∷ [] in
      let line1 = str_append "  ▲ trimetry " run.runner_version in
      let line2 = str_append "  " run.name in
      let line3 = join (
        "  Run: " ∷ run.benchmark_run_id ∷ "   Git: " ∷ run.git_commit ∷ "   Env: "
        ∷ run.environment ∷ []) in
      let line4 = str_append "  Started: " (formats.time "2006-01-02 15:04:05" run.started_at) in
      let widest =
        larger (display_width line1)
          (larger (display_width line2) (larger (display_width line3) (display_width line4)))
        + 4 in
      if is_tty
      then line ""
        ∷ (box is_tty (if ltb widest 62 then 62 else widest) line1 line2 line3 line4
            ++ (line (
                  join (
                    "  "
                    ∷ join counts
                    ∷ wrapped is_tty ansi_bold (str_append (decimal total) " total")
                    ∷ "  (concurrency "
                    ∷ decimal concurrency
                    ∷ ")"
                    ∷ []))
                ∷ line ""
                ∷ []))
      else line (
          join (
            "[trimetry] "
            ∷ run.name
            ∷ " ("
            ∷ run.benchmark_run_id
            ∷ ") — "
            ∷ join counts
            ∷ decimal total
            ∷ " total (concurrency "
            ∷ decimal concurrency
            ∷ ")"
            ∷ []))
        ∷ []

  unfoldable pub initial_display :
      BenchmarkRun ops.Float
      → List Scenario
      → List (ModelConfig ops.Float)
      → (trials_per_combo concurrency : ℕ) → (is_tty verbose : Bool) → Display
  unfolding header_lines
  initial_display run scenarios models trials_per_combo concurrency is_tty verbose =
      let names = scenario_names scenarios [] in
      let combos = combos_of names trials_per_combo models scenarios in
      let total = length combos * trials_per_combo in
      record {
        output =
            header_lines run (length scenarios) (length models) trials_per_combo concurrency total
              is_tty;
        combos = combos;
        combo_idx = index_combos 0 combos [];
        scenario_name = names;
        total = total;
        completed = 0;
        max_label = max_width 0 combos;
        start_time = run.started_at;
        is_tty = is_tty;
        verbose = verbose;
        drawn = false;
      }

  -- isTerminal(w) is asked of the system, and is an argument.
  unfoldable pub new_display :
      (elapsed : ℤ)
      → BenchmarkRun ops.Float
      → List Scenario
      → List (ModelConfig ops.Float)
      → (trials_per_combo concurrency : ℕ) → (is_tty verbose : Bool) → Option Display
  unfolding initial_display
  new_display elapsed run scenarios models trials_per_combo concurrency is_tty verbose =
      let d = initial_display run scenarios models trials_per_combo concurrency is_tty verbose in
      if is_tty
      then (draw_progress formats elapsed d >>= λ shown. some (record shown { drawn = true }))
      else some d
