-- ===== src/Report/Write.antt =====
-- internal/report/report.go: Write, and what each file holds.
use trimetry.Base.{
  ℕ, String, Bool, true, false, Option, none, some, List, [], ◌∷◌, str_eq, if◌then◌else◌,
}
use trimetry.Base.Text.{join}
use trimetry.Base.Float.{FloatOps}
use trimetry.Model.Trial.{BenchmarkRun, ExecutionStatus, ErrorType, Scenario, Trial}
use trimetry.Model.Summary.{RunSummary, ScenarioSummary}
use trimetry.Model.Status.{is_completed}
use trimetry.Display.Format.{Formats}
use trimetry.Report.Summaries.{build_summaries}
use trimetry.Report.Markdown.{markdown_summary, status_text}

pub record Generator : Type 0 where
  pub output_dir : String
  pub formats : List String
  pub mask_output : Bool
  pub scenarios : List Scenario

-- The map that is written for a trial that has not completed.
pub record ErrorEntry : Type 0 where
  pub trial_id : String
  pub scenario_id : String
  pub trial_number : ℕ
  pub execution_status : ExecutionStatus
  pub error_type : Option ErrorType
  pub error_message : String

-- What is written into a file: the value that is encoded as JSON, a value on each line, or lines of text.
pub data Content (M F : Type 0) : Type 0 where
  manifest : M → Content M F
  trial_lines : List (Trial F) → Content M F
  error_lines : List ErrorEntry → Content M F
  summary : RunSummary F → Content M F
  markdown : List String → Content M F
  -- the file of a value that could not be encoded
  empty : Content M F

-- What the system answers: which directory and which files can be made, and which values can be encoded and
-- written. The texts of JSON are left to the library.
pub record Disk (M F : Type 0) : Type 0 where
  pub make_dir : String → Bool
  pub create : (path : String) → Bool
  pub encode_manifest : M → Bool
  pub encode_trial : Trial F → Bool
  pub encode_error : ErrorEntry → Bool
  pub encode_summary : RunSummary F → Bool

pub data WriteError : Type 0 where
  dir_failed file_failed encode_failed : (path : String) → WriteError

-- The files written so far, the last one first, and an error that ended the writing.
pub record Files (M F : Type 0) : Type 0 where
  pub written : List (String × Content M F)
  pub error : Option WriteError

unfoldable pub masked : {F : Type 0} → Bool → Trial F → Trial F
masked mask t = if mask then record t { output = "[MASKED]" } else t

-- for _, t := range trials
unfoldable pub masked_all : {F : Type 0} → Bool → List (Trial F) → List (Trial F)
unfolding masked
masked_all mask [] = []
masked_all mask (t ∷ ts) = masked mask t ∷ masked_all mask ts

unfoldable pub error_entry : {F : Type 0} → Trial F → ErrorEntry
error_entry t = record {
  trial_id = t.trial_id;
  scenario_id = t.scenario_id;
  trial_number = t.trial_number;
  execution_status = t.execution_status;
  error_type = t.error_type;
  error_message = t.error_message;
}

-- The loop with its `continue`.
unfoldable pub error_entries : {F : Type 0} → List (Trial F) → List ErrorEntry
unfolding error_entry
error_entries [] = []
error_entries (t ∷ ts) =
    let rest = error_entries ts in
    if is_completed t.execution_status then rest else error_entry t ∷ rest

-- The values up to the first one that cannot be encoded, and whether there is one.
unfoldable pub encode_until : {A : Type 0} → (A → Bool) → List A → List A × Bool
encode_until ok [] = ([], true)
encode_until ok (a ∷ rest) =
    let (done, all_done) = encode_until ok rest in
    if ok a then (a ∷ done, all_done) else ([], false)

-- filepath.Join of clean paths
unfoldable pub join_path : String → String → String
join_path dir name = join (dir ∷ "/" ∷ name ∷ [])

module _ {M F : Type 0} where
  unfoldable pub no_files : Files M F
  no_files = record { written = []; error = none }

  -- os.Create(path), and one value after the other until one fails.
  unfoldable pub write_lines :
      {A : Type 0}
      → Disk M F
      → (List A → Content M F)
      → (A → Bool)
      → (path : String) → List A
      → Files M F
      → Files M F
  write_lines disk content ok path values files =
      let (done, all_done) = encode_until ok values in
      if disk.create path
      then record {
        written = (path, content done) ∷ files.written;
        error = if all_done then none else some (encode_failed path);
      }
      else record files { error = some (file_failed path) }

  -- fileutil.WriteJSON
  unfoldable pub write_json :
      Disk M F → Bool → (path : String) → Content M F → Files M F → Files M F
  write_json disk ok path content files =
      if disk.create path
      then if ok
        then record { written = (path, content) ∷ files.written; error = none }
        else record { written = (path, empty) ∷ files.written; error = some (encode_failed path) }
      else record files { error = some (file_failed path) }

  -- `if err := …; err != nil { return nil, err }`
  unfoldable pub and_then : Files M F → (Files M F → Files M F) → Files M F
  and_then files next = elim files.error [ none ↦ next files | some e ↦ files ]

unfoldable pub run_summary : {F : Type 0} → BenchmarkRun F → List (ScenarioSummary F) → RunSummary F
run_summary run summaries = record {
  benchmark_run_id = run.benchmark_run_id;
  name = run.name;
  status = status_text run.status;
  started_at = run.started_at;
  finished_at = run.finished_at;
  scenarios = summaries;
}

pub data Outcome (F : Type 0) : Type 0 where
  summaries : List (ScenarioSummary F) → Outcome F
  failed : WriteError → Outcome F
  -- Summarize reads an element out of range
  panicked : Outcome F

-- The end of Write: what its error says, or the summaries.
unfoldable pub outcome_of : {F : Type 0} → Option WriteError → List (ScenarioSummary F) → Outcome F
outcome_of none ss = summaries ss
outcome_of (some e) ss = failed e

module _ {M : Type 0} {ops : FloatOps} (formats : Formats ops) (disk : Disk M ops.Float) where
  -- writeMarkdownSummary, which does not look at the errors of its writes
  unfoldable pub write_markdown :
      (path : String) → List String → Files M ops.Float → Files M ops.Float
  write_markdown path lines files =
      if disk.create path
      then record files { written = (path, markdown lines) ∷ files.written }
      else record files { error = some (file_failed path) }

  unfoldable pub write_format :
      (dir : String)
      → BenchmarkRun ops.Float
      → List (ScenarioSummary ops.Float)
      → (format : String) → Files M ops.Float
      → Files M ops.Float
  unfolding write_markdown
  write_format dir run ss format files =
      let data_of_run = run_summary run ss in
      if str_eq format "json"
      then write_json disk (disk.encode_summary data_of_run) (join_path dir "summary.json")
          (summary data_of_run) files
      else if str_eq format "markdown"
      then write_markdown (join_path dir "summary.md") (markdown_summary formats run ss) files
      else files

  -- for _, format := range g.Formats
  unfoldable pub write_formats :
      (dir : String)
      → BenchmarkRun ops.Float
      → List (ScenarioSummary ops.Float)
      → List String
      → Files M ops.Float
      → Files M ops.Float
  unfolding write_format
  write_formats dir run ss [] files = files
  write_formats dir run ss (format ∷ rest) files =
      and_then (write_format dir run ss format files) (write_formats dir run ss rest)

  -- The files that are written before the summaries are made.
  unfoldable pub write_records :
      Generator → (dir : String) → BenchmarkRun ops.Float → M → Files M ops.Float
  unfolding no_files
  write_records gen dir run m =
      let first =
        write_json disk (disk.encode_manifest m) (join_path dir "run-manifest.json") (manifest m)
          no_files in
      let trials = masked_all gen.mask_output run.trials in
      let second =
        and_then first
          (write_lines disk trial_lines disk.encode_trial (join_path dir "trials.jsonl") trials) in
      and_then second (
        write_lines disk error_lines disk.encode_error (join_path dir "errors.jsonl")
          (error_entries run.trials))

  -- What follows buildSummaries.
  unfoldable pub finish_write :
      (dir : String)
      → BenchmarkRun ops.Float
      → List String
      → Files M ops.Float
      → Option (List (ScenarioSummary ops.Float))
      → Files M ops.Float × Outcome ops.Float
  finish_write dir run fs records none = (records, panicked)
  finish_write dir run fs records (some ss) =
      let files = write_formats dir run ss fs records in (files, outcome_of files.error ss)

  -- From buildSummaries on, unless a file before could not be written.
  unfoldable pub write_summaries :
      Generator
      → (dir : String) → BenchmarkRun ops.Float
      → Files M ops.Float
      → Option WriteError
      → Files M ops.Float × Outcome ops.Float
  write_summaries gen dir run records (some e) = (records, failed e)
  write_summaries gen dir run records none =
      finish_write dir run gen.formats records (build_summaries ops run.trials gen.scenarios)

  -- The files that Write leaves, and what it returns.
  unfoldable pub write :
      Generator → BenchmarkRun ops.Float → M → Files M ops.Float × Outcome ops.Float
  unfolding no_files
  write gen run m =
      let dir = join_path gen.output_dir run.benchmark_run_id in
      let records = write_records gen dir run m in
      let no_dir = record no_files { error = some (dir_failed dir) } in
      if disk.make_dir dir
      then write_summaries gen dir run records records.error
      else (no_dir, failed (dir_failed dir))
