-- ===== src/Display/Survival.antt =====
-- internal/ui/display.go: the display survives every sequence of calls that counts no more trials than announced.
use trimetry.Base.{
  found-step, ℕ, zero, suc, ◌≤◌, Bool, true, false, ◌≡◌, refl, sym, ap, ◌∙◌, Option, none, some,
  List, [], ◌∷◌, ◌++◌, length, get_elem?, set, arith, if◌then◌else◌, All,
}
use mathlib.Core.Path.{subst}
use trimetry.Base.Int.{ℤ}
use trimetry.Base.Dict.{lookup}
use trimetry.Base.Float.{FloatOps}
use trimetry.Model.Trial.{ExecutionStatus}
use trimetry.Model.Status.{scenario_model_key}
use trimetry.Display.Format.{Formats}
use trimetry.Display.State.{ComboProgress, done, Written, Display}
use trimetry.Display.Progress.{
  combo_line, combo_lines, overall_line, progress_block, draw_progress, erase_progress,
  progress_bar,
}
use trimetry.Display.Trials.{
  redraw, on_trial_complete, on_retry, count_at, count_combo, count_trial,
}
use trimetry.Display.Bars.{bar_of_le}
use trimetry.Display.Sequence.{Event, trial_ended, retried, handle, run_events}

unfoldable pub InBounds : ComboProgress → Type 0
unfolding done
InBounds c = done c ≤ c.total

-- No more trials are counted than there are, for each combination and in all.
unfoldable pub Fits : Display → Type 0
unfolding InBounds
Fits d = All InBounds d.combos × (d.completed ≤ d.total)

-- The display with other output.
abbrev pub written : Display → List Written → Bool → Display
written d out drawn = record d { output = out; drawn = drawn }

line_of_bar :
    (is_tty : Bool) (n w i : ℕ) (c : ComboProgress)
    → InBounds c
    → (l : Written) × (combo_line is_tty n w i c ≡ some l)
unfolding combo_line InBounds done
line_of_bar is_tty n w i c h =
    found-step (progress_bar is_tty (done c) c.total) _ (bar_of_le is_tty (done c) c.total h)
      (λ bar. (_, refl))

lines_of_bars :
    (is_tty : Bool) (n w i : ℕ) (cs : List ComboProgress)
    → All InBounds cs
    → (ls : List Written) × (combo_lines is_tty n w i cs ≡ some ls)
unfolding combo_lines
lines_of_bars is_tty n w i [] h = ([], refl)
lines_of_bars is_tty n w i (c ∷ cs) h =
    found-step (combo_line is_tty n w i c) _ (line_of_bar is_tty n w i c h.0) λ first.
      found-step (combo_lines is_tty n w (suc i) cs) _ (lines_of_bars is_tty n w (suc i) cs h.1)
        (λ rest. (first ∷ rest, refl))

count_combo-le :
    (status : ExecutionStatus) (c : ComboProgress) → InBounds (count_combo status c) → InBounds c
unfolding count_combo InBounds done
count_combo-le ExecutionStatus.pending c h = h
count_combo-le ExecutionStatus.running c h = h
count_combo-le ExecutionStatus.completed c h = omega arith
count_combo-le ExecutionStatus.failed c h = omega arith
count_combo-le ExecutionStatus.timeout c h = omega arith
count_combo-le ExecutionStatus.cancelled c h = omega arith

count_at-suc :
    (status : ExecutionStatus) (i : ℕ) (c : ComboProgress) (cs : List ComboProgress)
    → count_at status (suc i) (c ∷ cs) ≡ c ∷ count_at status i cs
unfolding count_at
count_at-suc status i c cs =
    elim (get_elem? cs i)
      as (λ m.
        elim m [ none ↦ c ∷ cs | some x ↦ c ∷ set cs i (count_combo status x) ]
        ≡ c ∷ elim m [ none ↦ cs | some x ↦ set cs i (count_combo status x) ]) [
          | none ↦ refl
          | some x ↦ refl
        ]

count_at-le :
    (status : ExecutionStatus) (i : ℕ) (cs : List ComboProgress)
    → All InBounds (count_at status i cs)
    → All InBounds cs
unfolding count_at
count_at-le status i [] h = tt
count_at-le status zero (c ∷ cs) h = (count_combo-le status c h.0, h.1)
count_at-le status (suc i) (c ∷ cs) h =
    let rest = subst (All InBounds) (count_at-suc status i c cs) h in
    (rest.0, count_at-le status i cs rest.1)

counted-le :
    (found : Option ℕ) (status : ExecutionStatus) (cs : List ComboProgress)
    → All InBounds (elim found [ none ↦ cs | some i ↦ count_at status i cs ])
    → All InBounds cs
counted-le none status cs h = h
counted-le (some i) status cs h = count_at-le status i cs h

output_if :
    (b : Bool) (d : Display) (erased : List Written)
    → (out : List Written) × ((if b then record d { output = erased } else d)
        ≡ record d { output = out })
output_if true d erased = (erased, refl)
output_if false d erased = (d.output, refl)

erase_output : (d : Display) → (out : List Written) × (erase_progress d ≡ record d { output = out })
unfolding erase_progress
erase_output d = output_if d.drawn d _

module _ {ops : FloatOps} (formats : Formats ops) where
  pub block_of :
      (elapsed : ℤ) (d : Display)
      → Fits d
      → (block : List Written) × (progress_block formats d elapsed ≡ some block)
  unfolding progress_block overall_line Fits
  block_of elapsed d h =
      found-step (combo_lines d.is_tty (length d.combos) d.max_label 0 d.combos) _
        (lines_of_bars d.is_tty (length d.combos) d.max_label 0 d.combos h.0)
        λ lines.
          found-step (overall_line formats d.is_tty d.completed d.total elapsed) _
            (found-step (progress_bar d.is_tty d.completed d.total) _
              (bar_of_le d.is_tty d.completed d.total h.1) (λ bar. (_, refl)))
            (λ overall. (_, refl))

  -- What a call counts, whatever it draws.
  unfoldable pub count_event : Event ops.Float → Display → Display
  count_event (trial_ended elapsed t) d = count_trial t d
  count_event (retried elapsed trial_id attempt max_retries) d = d

  unfoldable pub count_events : List (Event ops.Float) → Display → Display
  unfolding count_event
  count_events [] d = d
  count_events (e ∷ es) d = count_events es (count_event e d)

  count_event-Fits : (e : Event ops.Float) (d : Display) → Fits (count_event e d) → Fits d
  unfolding count_event Fits count_trial
  count_event-Fits (retried elapsed trial_id attempt max_retries) d h = h
  count_event-Fits (trial_ended elapsed t) d h = (
    counted-le (lookup (scenario_model_key t.scenario_id t.model_name) d.combo_idx)
        t.execution_status d.combos h.0,
    omega (arith, h.1),
  )

  pub count_events-Fits :
      (es : List (Event ops.Float)) (d : Display) → Fits (count_events es d) → Fits d
  unfolding count_events
  count_events-Fits [] d h = h
  count_events-Fits (e ∷ es) d h = count_event-Fits e d (count_events-Fits es (count_event e d) h)

  -- The display after a call counts what was counted, whatever it has written.
  unfoldable pub Survives : Option Display → Display → Type 0
  Survives result d =
      (out : List Written) × (drawn : Bool) × (result
        ≡ some (record d { output = out; drawn = drawn }))

  redraw-Survives :
      (lines : List Written) (elapsed : ℤ) (d : Display)
      → Fits d
      → Survives (redraw formats lines elapsed d) d
  unfolding redraw draw_progress progress_block Survives
  redraw-Survives lines elapsed d h =
      let erased = erase_output d in
      let block = block_of elapsed d h in
      ((erased.0 ++ lines) ++ block.0, true, rw (erased.1, block.1) refl)

  if_Survives :
      (b : Bool) (d : Display) (x y : Option Display)
      → Survives x d
      → Survives y d
      → Survives (if b then x else y) d
  if_Survives true d x y h k = h
  if_Survives false d x y h k = k

  handle-Survives :
      (e : Event ops.Float) (d : Display)
      → Fits (count_event e d)
      → Survives (handle formats e d) (count_event e d)
  unfolding handle count_event on_trial_complete on_retry redraw count_trial Survives
  handle-Survives (trial_ended elapsed t) d h =
      if_Survives d.is_tty (count_trial t d) _ _ (redraw-Survives _ elapsed (count_trial t d) h)
        (_, (count_trial t d).drawn, refl)
  handle-Survives (retried elapsed trial_id attempt max_retries) d h =
      if_Survives d.is_tty d _ _ (redraw-Survives _ elapsed d h) (_, d.drawn, refl)

  pub count_events-record :
      (es : List (Event ops.Float)) (d : Display) (out : List Written) (drawn : Bool)
      → count_events es (record d { output = out; drawn = drawn })
        ≡ record (count_events es d) { output = out; drawn = drawn }
  unfolding count_events count_event count_trial
  count_events-record [] d out drawn = refl
  count_events-record (trial_ended elapsed t ∷ es) d out drawn =
      count_events-record es (count_trial t d) out drawn
  count_events-record (retried elapsed trial_id attempt max_retries ∷ es) d out drawn =
      count_events-record es d out drawn

  pub Fits-record :
      (d : Display) (out : List Written) (drawn : Bool)
      → Fits d
      → Fits (record d { output = out; drawn = drawn })
  unfolding Fits
  Fits-record d out drawn h = h

  pub run_events-Survives :
      (es : List (Event ops.Float)) (d : Display)
      → Fits (count_events es d)
      → Survives (run_events formats es d) (count_events es d)
  unfolding run_events count_events Survives
  run_events-Survives [] d h = (d.output, d.drawn, refl)
  run_events-Survives (e ∷ es) d h =
      let first = handle-Survives e d (count_events-Fits es (count_event e d) h) in
      let after = record (count_event e d) { output = first.0; drawn = first.1 } in
      let same = count_events-record es (count_event e d) first.0 first.1 in
      let fits = Fits-record (count_events es (count_event e d)) first.0 first.1 h in
      let rest = run_events-Survives es after (subst Fits (sym same) fits) in
      (rest.0, rest.1, rw first.2 (rest.2 ∙ ap (λ x. some (written x rest.0 rest.1)) same))
