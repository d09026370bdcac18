-- ===== src/Report/Returned.antt =====
-- internal/report/report.go: what Write returns when the system does everything it is asked for.
use trimetry.Base.{
  String, Bool, true, false, ◌≡◌, refl, ap, ◌∙◌, Option, none, some, List, [], ◌∷◌, str_eq,
  if◌then◌else◌,
}
use trimetry.Base.Float.{FloatOps}
use trimetry.Model.Trial.{BenchmarkRun, Trial}
use trimetry.Model.Summary.{RunSummary, ScenarioSummary}
use trimetry.Display.Format.{Formats}
use trimetry.Report.Summaries.{build_summaries}
use trimetry.Report.Write.{
  Generator, Content, manifest, trial_lines, error_lines, summary, ErrorEntry, Disk, Files, Outcome,
  summaries, panicked, no_files, masked_all, error_entries, encode_until, write_lines, write_json,
  write_markdown, write_format, and_then, write_formats, write_records, write_summaries,
  finish_write, outcome_of, write, join_path, run_summary,
}

-- Every file and directory can be made, and every value can be encoded.
pub record Works {M F : Type 0} (disk : Disk M F) : Type 0 where
  pub make_dir : (dir : String) → disk.make_dir dir ≡ true
  pub create : (path : String) → disk.create path ≡ true
  pub encode_manifest : (m : M) → disk.encode_manifest m ≡ true
  pub encode_trial : (t : Trial F) → disk.encode_trial t ≡ true
  pub encode_error : (e : ErrorEntry) → disk.encode_error e ≡ true
  pub encode_summary : (s : RunSummary F) → disk.encode_summary s ≡ true

encode_until_all :
    {A : Type 0} (ok : A → Bool) (values : List A)
    → ((a : A) → ok a ≡ true)
    → (encode_until ok values).1 ≡ true
unfolding encode_until
encode_until_all ok [] f = refl
encode_until_all ok (v ∷ vs) f = rw (f v) (encode_until_all ok vs f)

module _ {M F : Type 0} where
  and_then-error :
      (files : Files M F) (next : Files M F → Files M F)
      → files.error ≡ none
      → (next files).error ≡ none
      → (and_then files next).error ≡ none
  unfolding and_then
  and_then-error files next h k =
      elim files.error
        as (λ m. (elim m as (λ _. Files M F) [ none ↦ next files | some e ↦ files ]).error ≡ none) [
          | none ↦ k
          | some e ↦ h
        ]

-- What Write returns of the summaries: they are missing only when making them panics.
unfoldable pub returned : {F : Type 0} → Option (List (ScenarioSummary F)) → Outcome F
returned none = panicked
returned (some ss) = summaries ss

module _ {M : Type 0} {ops : FloatOps} (formats : Formats ops) (disk : Disk M ops.Float)
    (works : Works disk) where
  write_json-works :
      (ok : Bool) (path : String) (content : Content M ops.Float) (files : Files M ops.Float)
      → ok ≡ true
      → (write_json disk ok path content files).error ≡ none
  unfolding write_json
  write_json-works ok path content files h = rw (works.create path, h) refl

  write_lines-works :
      {A : Type 0} (content : List A → Content M ops.Float) (ok : A → Bool) (path : String)
      (values : List A) (files : Files M ops.Float)
      → ((a : A) → ok a ≡ true)
      → (write_lines disk content ok path values files).error ≡ none
  unfolding write_lines
  write_lines-works content ok path values files f =
      rw (works.create path, encode_until_all ok values f) refl

  write_records-works :
      (gen : Generator) (dir : String) (run : BenchmarkRun ops.Float) (m : M)
      → (write_records formats disk gen dir run m).error ≡ none
  unfolding write_records
  write_records-works gen dir run m =
      and_then-error _ _
        (and_then-error _ _
          (write_json-works (disk.encode_manifest m) (join_path dir "run-manifest.json")
            (manifest m) no_files (works.encode_manifest m))
          (write_lines-works trial_lines disk.encode_trial (join_path dir "trials.jsonl")
            (masked_all gen.mask_output run.trials) _ works.encode_trial))
        (write_lines-works error_lines disk.encode_error (join_path dir "errors.jsonl")
          (error_entries run.trials) _ works.encode_error)

  if-error :
      (b : Bool) (x y : Files M ops.Float)
      → x.error ≡ none
      → y.error ≡ none
      → (if b then x else y).error ≡ none
  if-error true x y h k = h
  if-error false x y h k = k

  write_format-works :
      (dir : String) (run : BenchmarkRun ops.Float) (ss : List (ScenarioSummary ops.Float))
      (format : String) (files : Files M ops.Float)
      → files.error ≡ none
      → (write_format formats disk dir run ss format files).error ≡ none
  unfolding write_format write_markdown
  write_format-works dir run ss format files h =
      if-error (str_eq format "json") _ _
        (write_json-works (disk.encode_summary (run_summary run ss)) (join_path dir "summary.json")
          (summary (run_summary run ss)) files (works.encode_summary (run_summary run ss)))
        (if-error (str_eq format "markdown") _ _ (rw (works.create (join_path dir "summary.md")) h)
          h)

  write_formats-works :
      (dir : String) (run : BenchmarkRun ops.Float) (ss : List (ScenarioSummary ops.Float))
      (fs : List String) (files : Files M ops.Float)
      → files.error ≡ none
      → (write_formats formats disk dir run ss fs files).error ≡ none
  unfolding write_formats
  write_formats-works dir run ss [] files h = h
  write_formats-works dir run ss (format ∷ fs) files h =
      let first = write_format-works dir run ss format files h in
      and_then-error _ _ first (
        write_formats-works dir run ss fs (write_format formats disk dir run ss format files) first)

  finish_write-works :
      (dir : String) (run : BenchmarkRun ops.Float) (fs : List String) (files : Files M ops.Float)
      (built : Option (List (ScenarioSummary ops.Float)))
      → files.error ≡ none
      → (finish_write formats disk dir run fs files built).1 ≡ returned built
  unfolding finish_write returned outcome_of
  finish_write-works dir run fs files none h = refl
  finish_write-works dir run fs files (some ss) h =
      ap (λ e. outcome_of e ss) (write_formats-works dir run ss fs files h)

  -- When the system does all that it is asked for, Write returns the summaries of the trials with their outputs,
  -- whether outputs are to be masked or not; it has no other result unless making the summaries panics.
  pub write-returned :
      (gen : Generator) (run : BenchmarkRun ops.Float) (m : M)
      → (write formats disk gen run m).1 ≡ returned (build_summaries ops run.trials gen.scenarios)
  unfolding write write_summaries
  write-returned gen run m =
      let dir = join_path gen.output_dir run.benchmark_run_id in
      let records = write_records formats disk gen dir run m in
      let ok = write_records-works gen dir run m in
      rw (works.make_dir dir) (
        ap (λ e. (write_summaries formats disk gen dir run records e).1) ok
        ∙ finish_write-works dir run gen.formats records
            (build_summaries ops run.trials gen.scenarios) ok)
