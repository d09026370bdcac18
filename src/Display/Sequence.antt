-- ===== src/Display/Sequence.antt =====
-- internal/ui/display.go: calls of OnTrialComplete and OnRetry, one after the other under the lock.
use trimetry.Base.{
  ℕ, String, Bool, true, false, ◌≡◌, refl, ap, ◌∙◌, Option, none, some, ◌>>=◌, Holds, Holds-step,
  Holds-imp, List, [], ◌∷◌, ◌++◌, length, get_elem?, set, append-nil, append_assoc, if◌then◌else◌,
  length-set,
}
use trimetry.Base.Int.{ℤ}
use trimetry.Base.Dict.{Dict, lookup}
use trimetry.Base.Float.{FloatOps}
use trimetry.Model.Trial.{Trial, ExecutionStatus}
use trimetry.Model.Status.{scenario_model_key}
use trimetry.Display.Format.{Formats}
use trimetry.Display.State.{ComboProgress, Written, Display}
use trimetry.Display.Trials.{
  redraw, on_trial_complete, on_retry, count_at, count_combo, count_trial, trial_line_tty,
  retry_line_tty,
}
use trimetry.Display.Screen.{AllLines}
use trimetry.Display.Shown.{IsShown, IsAfter, redraw-IsShown}

pub data Event (F : Type 0) : Type 0 where
  trial_ended : (elapsed : ℤ) → Trial F → Event F
  retried : (elapsed : ℤ) → (trial_id : String) → (attempt max_retries : ℕ) → Event F

length-count_at :
    (status : ExecutionStatus) (i : ℕ) (cs : List ComboProgress)
    → length (count_at status i cs) ≡ length cs
unfolding count_at
length-count_at status i cs =
    elim (get_elem? cs i)
      as (λ m.
        length (elim m [ none ↦ cs | some c ↦ set cs i (count_combo status c) ]) ≡ length cs) [
          | none ↦ refl
          | some c ↦ length-set cs i (count_combo status c)
        ]

length-count_trial :
    {F : Type 0} (t : Trial F) (d : Display) → length (count_trial t d).combos ≡ length d.combos
unfolding count_trial
length-count_trial t d =
    elim (lookup (scenario_model_key t.scenario_id t.model_name) d.combo_idx)
      as (λ m.
        length (elim m [ none ↦ d.combos | some i ↦ count_at t.execution_status i d.combos ])
        ≡ length d.combos) [ none ↦ refl | some i ↦ length-count_at t.execution_status i d.combos ]

module _ {ops : FloatOps} (formats : Formats ops) where
  unfoldable pub handle : Event ops.Float → Display → Option Display
  handle (trial_ended elapsed t) d = on_trial_complete formats elapsed t d
  handle (retried elapsed trial_id attempt max_retries) d =
      on_retry formats elapsed trial_id attempt max_retries d

  unfoldable pub run_events : List (Event ops.Float) → Display → Option Display
  unfolding handle
  run_events [] d = some d
  run_events (e ∷ es) d = do d' ← handle e d; run_events es d'

  -- The line that an event leaves on a terminal.
  unfoldable pub log_of : (verbose : Bool) → Dict String → Event ops.Float → List Written
  log_of verbose names (trial_ended elapsed t) =
      if verbose then trial_line_tty formats t true names ∷ [] else []
  log_of verbose names (retried elapsed trial_id attempt max_retries) =
      retry_line_tty trial_id attempt max_retries true ∷ []

  unfoldable pub logs : (verbose : Bool) → Dict String → List (Event ops.Float) → List Written
  unfolding log_of
  logs verbose names [] = []
  logs verbose names (e ∷ es) = log_of verbose names e ++ logs verbose names es

  -- A display on a terminal that shows `log`, with the settings given.
  unfoldable pub IsShowing : (verbose : Bool) → Dict String → List Written → Display → Type 0
  IsShowing verbose names log d =
      (d.is_tty ≡ true) × (d.verbose ≡ verbose) × (d.scenario_name ≡ names) × IsShown formats log d

  log_of-AllLines :
      (verbose : Bool) (names : Dict String) (e : Event ops.Float)
      → AllLines (log_of verbose names e)
  unfolding log_of trial_line_tty retry_line_tty
  log_of-AllLines true names (trial_ended elapsed t) = tt
  log_of-AllLines false names (trial_ended elapsed t) = tt
  log_of-AllLines verbose names (retried elapsed trial_id attempt max_retries) = tt

  count_trial_keeps :
      (t : Trial ops.Float) (d : Display)
      → ((count_trial t d).is_tty ≡ d.is_tty)
        × ((count_trial t d).verbose ≡ d.verbose)
        × ((count_trial t d).scenario_name ≡ d.scenario_name)
        × ((count_trial t d).output ≡ d.output)
        × ((count_trial t d).drawn ≡ d.drawn)
  unfolding count_trial
  count_trial_keeps t d = (refl, refl, refl, refl, refl)

  if_true : {A : Type 0} (x y : A) (b : Bool) → b ≡ true → (if b then x else y) ≡ x
  if_true x y b h = rw h refl

  trial_redraws :
      (verbose : Bool) (names : Dict String) (elapsed : ℤ) (t : Trial ops.Float) (d : Display)
      → d.is_tty ≡ true
      → d.verbose ≡ verbose
      → d.scenario_name ≡ names
      → on_trial_complete formats elapsed t d
        ≡ redraw formats (log_of verbose names (trial_ended elapsed t)) elapsed (count_trial t d)
  unfolding on_trial_complete log_of
  trial_redraws verbose names elapsed t d h k l =
      let kept = count_trial_keeps t d in
      if_true _ _ d.is_tty h
      ∙ ap (λ v. shown v (count_trial t d).is_tty (count_trial t d).scenario_name) k
      ∙ ap (λ b. shown verbose b (count_trial t d).scenario_name) (kept.0 ∙ h)
      ∙ ap (λ n. shown verbose true n) (kept.2 ∙ l)
    where
      shown : Bool → Bool → Dict String → Option Display
      shown v b n =
          redraw formats (if v then trial_line_tty formats t b n ∷ [] else []) elapsed
            (count_trial t d)

  retry_redraws :
      (elapsed : ℤ) (trial_id : String) (attempt max_retries : ℕ) (d : Display)
      → d.is_tty ≡ true
      → on_retry formats elapsed trial_id attempt max_retries d
        ≡ redraw formats (retry_line_tty trial_id attempt max_retries true ∷ []) elapsed d
  unfolding on_retry
  retry_redraws elapsed trial_id attempt max_retries d h =
      if_true _ _ d.is_tty h
      ∙ ap (λ b. redraw formats (retry_line_tty trial_id attempt max_retries b ∷ []) elapsed d) h

  after-IsShowing :
      (verbose : Bool) (names : Dict String) (log : List Written) (d after : Display)
      → d.is_tty ≡ true
      → d.verbose ≡ verbose
      → d.scenario_name ≡ names
      → IsAfter formats d log after
      → IsShowing verbose names log after
  unfolding IsAfter IsShowing
  after-IsShowing verbose names log d after h k l a = (a.0 ∙ h, a.1 ∙ k, a.2 ∙ l, a.3)

  handle-IsShowing :
      (verbose : Bool) (names : Dict String) (log : List Written) (e : Event ops.Float)
      (d : Display)
      → IsShowing verbose names log d
      → Holds (IsShowing verbose names (log ++ log_of verbose names e)) (handle e d)
  unfolding handle IsShowing log_of
  handle-IsShowing verbose names log (trial_ended elapsed t) d h =
      let kept = count_trial_keeps t d in
      let lines = log_of verbose names (trial_ended elapsed t) in
      rw (trial_redraws verbose names elapsed t d h.0 h.1 h.2) (
        Holds-imp (redraw formats lines elapsed (count_trial t d))
          (λ after.
            after-IsShowing verbose names (log ++ lines) (count_trial t d) after (kept.0 ∙ h.0)
              (kept.1 ∙ h.1) (kept.2 ∙ h.2))
          (redraw-IsShown formats lines log elapsed d (count_trial t d) h.3 kept.3 kept.4
            (length-count_trial t d) (log_of-AllLines verbose names (trial_ended elapsed t))))
  handle-IsShowing verbose names log (retried elapsed trial_id attempt max_retries) d h =
      let lines = retry_line_tty trial_id attempt max_retries true ∷ [] in
      rw (retry_redraws elapsed trial_id attempt max_retries d h.0) (
        Holds-imp (redraw formats lines elapsed d)
          (λ after. after-IsShowing verbose names (log ++ lines) d after h.0 h.1 h.2)
          (redraw-IsShown formats lines log elapsed d d h.3 refl refl refl
            (log_of-AllLines verbose names (retried elapsed trial_id attempt max_retries))))

  pub run_events-IsShowing :
      (verbose : Bool) (names : Dict String) (log : List Written) (es : List (Event ops.Float))
      (d : Display)
      → IsShowing verbose names log d
      → Holds (IsShowing verbose names (log ++ logs verbose names es)) (run_events es d)
  unfolding run_events logs
  run_events-IsShowing verbose names log [] d h = rw (append-nil log) h
  run_events-IsShowing verbose names log (e ∷ es) d h =
      rw⁻¹ (append_assoc log (log_of verbose names e) (logs verbose names es)) (
        Holds-step (IsShowing verbose names (log ++ log_of verbose names e))
          (IsShowing verbose names ((log ++ log_of verbose names e) ++ logs verbose names es))
          (handle e d) _ (handle-IsShowing verbose names log e d h)
          (run_events-IsShowing verbose names (log ++ log_of verbose names e) es))
