-- ===== src/Report/Contents.antt =====
-- internal/report/report.go: what the files of a run hold, whatever the system answers.
use trimetry.Base.{Bool, false, ◌≡◌, List, [], ◌∷◌, All, if◌then◌else◌}
use trimetry.Model.Trial.{Trial}
use trimetry.Model.Status.{is_completed}
use trimetry.Report.Write.{
  Content, manifest, trial_lines, error_lines, summary, markdown, empty, ErrorEntry, Files,
}

-- The lines are the first of the trials, in their order, each as it is but for its output, which is replaced if it
-- has to be hidden.
abbrev pub IsHidden : {F : Type 0} → (mask : Bool) → (written trials : List (Trial F)) → Type 0
IsHidden mask [] ts = Unit
IsHidden mask (w ∷ ws) [] = ⊥
IsHidden mask (w ∷ ws) (t ∷ ts) =
    (w ≡ (if mask then record t { output = "[MASKED]" } else t)) × IsHidden mask ws ts

abbrev IsError : ErrorEntry → Type 0
IsError e = is_completed e.execution_status ≡ false

module _ {M F : Type 0} (mask : Bool) (trials : List (Trial F)) where
  -- What is asked of the two files of lines; the manifest and the summaries are left open.
  unfoldable pub Hides : Content M F → Type 0
  Hides (manifest m) = Unit
  Hides (trial_lines ts) = IsHidden mask ts trials
  Hides (error_lines es) = All IsError es
  Hides (summary s) = Unit
  Hides (markdown lines) = Unit
  Hides empty = Unit

  unfoldable pub AllHide : Files M F → Type 0
  unfolding Hides
  AllHide files = All (λ file. Hides file.1) files.written
