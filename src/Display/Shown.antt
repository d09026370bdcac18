-- ===== src/Display/Shown.antt =====
-- internal/ui/display.go: the screen shows the header, the lines logged so far and the bars once.
use trimetry.Base.{
  ℕ, suc, ◌+◌, Bool, true, ◌≡◌, refl, sym, ap, ◌∙◌, some, ◌>>=◌, Holds, Holds-step, Holds-any,
  Holds-some, Holds-found, map-step, List, [], ◌∷◌, ◌++◌, length, length-append, arith,
}
use trimetry.Base.Int.{ℤ}
use trimetry.Base.Float.{FloatOps}
use trimetry.Display.Format.{Formats}
use trimetry.Display.State.{ComboProgress, done, Written, line, up, clear_line, Display}
use trimetry.Display.Progress.{
  combo_line, combo_lines, overall_line, progress_bar, progress_block, progress_lines,
  draw_progress, erase_progress,
}
use trimetry.Display.Trials.{redraw}
use trimetry.Display.Screen.{blank, show, AllLines, rows}
use trimetry.Display.Redraw.{erasing, show-redrawn, rows-append, AllLines-append}

IsLine : Written → Type 0
IsLine (line text) = Unit
IsLine (up n) = ⊥
IsLine clear_line = ⊥

combo_line-IsLine :
    (is_tty : Bool) (n w i : ℕ) (c : ComboProgress) → Holds IsLine (combo_line is_tty n w i c)
unfolding combo_line IsLine
combo_line-IsLine is_tty n w i c =
    Holds-step (λ _. Unit {0}) IsLine (progress_bar is_tty (done c) c.total) _
      (Holds-any (progress_bar is_tty (done c) c.total)) (λ _ _. tt)

unfoldable pub AreLines : ℕ → List Written → Type 0
AreLines n ws = AllLines ws × (length ws ≡ n)

AreLines-cons :
    (n : ℕ) (first : Written) (rest : List Written)
    → IsLine first
    → AreLines n rest
    → AreLines (suc n) (first ∷ rest)
unfolding IsLine AreLines
AreLines-cons n (line text) rest h k = (k.0, ap suc k.1)
AreLines-cons n (up m) rest h k = elim h [ ]
AreLines-cons n clear_line rest h k = elim h [ ]

combo_lines-AreLines :
    (is_tty : Bool) (n w i : ℕ) (cs : List ComboProgress)
    → Holds (AreLines (length cs)) (combo_lines is_tty n w i cs)
unfolding combo_lines AreLines
combo_lines-AreLines is_tty n w i [] = (tt, refl)
combo_lines-AreLines is_tty n w i (c ∷ cs) =
    let size = suc (length cs) in
    Holds-step IsLine (AreLines size) (combo_line is_tty n w i c) _
      (combo_line-IsLine is_tty n w i c)
      λ first h.
        Holds-step (AreLines (length cs)) (AreLines size) (combo_lines is_tty n w (suc i) cs) _
          (combo_lines-AreLines is_tty n w (suc i) cs)
          (λ rest k. AreLines-cons (length cs) first rest h k)

AreLines-block :
    (n : ℕ) (lines : List Written) (overall : Written)
    → AreLines n lines
    → IsLine overall
    → AreLines (n + 2) (lines ++ (line "" ∷ overall ∷ []))
unfolding AreLines IsLine
AreLines-block n lines (line text) h k = (
  AllLines-append lines (line "" ∷ line text ∷ []) h.0 tt,
  omega (arith, h.1, length-append lines (line "" ∷ line text ∷ [])),
)
AreLines-block n lines (up m) h k = elim k [ ]
AreLines-block n lines clear_line h k = elim k [ ]

module _ {ops : FloatOps} (formats : Formats ops) where
  overall_line-IsLine :
      (is_tty : Bool) (completed total : ℕ) (elapsed : ℤ)
      → Holds IsLine (overall_line formats is_tty completed total elapsed)
  unfolding overall_line IsLine
  overall_line-IsLine is_tty completed total elapsed =
      Holds-step (λ _. Unit {0}) IsLine (progress_bar is_tty completed total) _
        (Holds-any (progress_bar is_tty completed total)) (λ _ _. tt)

  pub block-AreLines :
      (d : Display) (elapsed : ℤ)
      → Holds (AreLines (length d.combos + 2)) (progress_block formats d elapsed)
  unfolding progress_block
  block-AreLines d elapsed =
      let size = length d.combos + 2 in
      Holds-step (AreLines (length d.combos)) (AreLines size)
        (combo_lines d.is_tty (length d.combos) d.max_label 0 d.combos) _
        (combo_lines-AreLines d.is_tty (length d.combos) d.max_label 0 d.combos)
        λ lines h.
          Holds-step IsLine (AreLines size)
            (overall_line formats d.is_tty d.completed d.total elapsed) _
            (overall_line-IsLine d.is_tty d.completed d.total elapsed)
            (λ overall k. AreLines-block (length d.combos) lines overall h k)

  -- The rows of `log` and then those of bars that count what the display has counted, and nothing below them.
  unfoldable pub IsShown : List Written → Display → Type 0
  IsShown log d =
      (d.drawn ≡ true)
      × ((elapsed : ℤ) × (block : List Written) × (progress_block formats d elapsed ≡ some block)
          × (show d.output blank ≡ some (record { above = rows (log ++ block) []; below = [] })))

  erase_drawn :
      (d : Display)
      → d.drawn ≡ true
      → erase_progress d ≡ record d { output = d.output ++ erasing (length d.combos + 2) }
  unfolding erase_progress progress_lines erasing
  erase_drawn d h = rw h refl

  redraw_drawn :
      (lines : List Written) (elapsed : ℤ) (d : Display)
      → d.drawn ≡ true
      → redraw formats lines elapsed d ≡ (
          progress_block formats d elapsed >>= λ block. some (record d {
            output = ((d.output ++ erasing (length d.combos + 2)) ++ lines) ++ block;
            drawn = true;
          }))
  unfolding redraw draw_progress progress_block
  redraw_drawn lines elapsed d h =
      rw (erase_drawn d h) (map-step (progress_block formats d elapsed) _ _)

  -- What a display is after another one, of which it keeps the settings.
  unfoldable pub IsAfter : Display → List Written → Display → Type 0
  unfolding IsShown
  IsAfter d log after =
      (after.is_tty ≡ d.is_tty)
      × (after.verbose ≡ d.verbose)
      × (after.scenario_name ≡ d.scenario_name)
      × IsShown log after

  pub redraw-IsShown :
      (lines log : List Written) (elapsed : ℤ) (before d : Display)
      → IsShown log before
      → d.output ≡ before.output
      → d.drawn ≡ before.drawn
      → length d.combos ≡ length before.combos
      → AllLines lines
      → Holds (IsAfter d (log ++ lines)) (redraw formats lines elapsed d)
  unfolding IsAfter IsShown AreLines progress_block
  redraw-IsShown lines log elapsed before d shown same_output same_drawn same_size are_lines =
      let n = length d.combos + 2 in
      let old =
        Holds-some (AreLines (length before.combos + 2)) shown.1.2
          (block-AreLines before shown.1.0) in
      rw (redraw_drawn lines elapsed d (same_drawn ∙ shown.0)) (
        Holds-step (λ block. (progress_block formats d elapsed ≡ some block) × AreLines n block)
          (IsAfter d (log ++ lines)) (progress_block formats d elapsed) _
          (Holds-found (AreLines n) (progress_block formats d elapsed) (block-AreLines d elapsed))
          λ block h. (
            refl,
            refl,
            refl,
            (
              refl,
              (
                elapsed,
                block,
                h.0,
                show-redrawn d.output lines shown.1.1 block (rows log []) n
                      (ap (λ out. show out blank) same_output
                        ∙ shown.1.3
                        ∙ ap (λ a. some (record { above = a; below = [] }))
                            (rows-append log shown.1.1 []))
                      old.0 (old.1 ∙ sym (ap (λ k. k + 2) same_size)) are_lines h.1.0 h.1.1
                    ∙ ap (λ a. some (record { above = a; below = [] })) (sym (rows_log block)),
              ),
            ),
          ))
    where
      rows_log :
          (block : List Written)
          → rows ((log ++ lines) ++ block) [] ≡ rows block (rows lines (rows log []))
      rows_log block =
          rows-append (log ++ lines) block [] ∙ ap (rows block) (rows-append log lines [])
