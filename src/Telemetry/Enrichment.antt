-- ===== src/Telemetry/Enrichment.antt =====
-- internal/telemetry/shared.go and enrichment.go: what a plugin's file adds to the steps of a trial.
pub mod Merge
use trimetry.Base.{
  String, ◌&&◌, not, Option, none, some, List, [], ◌∷◌, ◌++◌, if◌then◌else◌, str_eq,
}
use trimetry.Model.Value.{text, object, Fields, end, field, put}
use trimetry.Adapter.Types.{StepDetail, StepType, generation, tool}
use trimetry.Telemetry.Types.{TrialResult, EnvironmentInfo, ReasoningInfo, EnrichmentResult}

abbrev pub no_enrichment : EnrichmentResult
no_enrichment = record { reasonings = []; environment = none }

-- A line of the file, where it is JSON.
pub record Entry : Type 0 where
  pub reasoning : String
  pub finish_reason : String
  pub timestamp : String
  pub ai_settings : Fields
  pub host_name : String
  pub host_arch : String

-- The environment is that of the first entry that names a host.
abbrev first_environment : Option EnvironmentInfo → Entry → Option EnvironmentInfo
first_environment (some env) e = some env
first_environment none e =
    if str_eq e.host_name "" && str_eq e.host_arch ""
    then none
    else some
        (record { host_name = e.host_name; host_arch = e.host_arch; ai_settings = e.ai_settings })

abbrev add_entry : EnrichmentResult → Entry → EnrichmentResult
add_entry out e = record {
  reasonings =
      out.reasonings
      ++ record {
        reasoning = e.reasoning;
        finish_reason = e.finish_reason;
        timestamp = e.timestamp;
        ai_settings = e.ai_settings;
      }
        ∷ [];
  environment = first_environment out.environment e;
}

-- The loop over the file's lines; `decode` is the JSON library.
read_lines : (String → Option Entry) → EnrichmentResult → List String → EnrichmentResult
read_lines decode out [] = out
read_lines decode out (line ∷ lines) =
    let next =
      if str_eq line ""
      then out
      else elim (decode line) [ none ↦ out | some e ↦ add_entry out e ] in
    read_lines decode next lines

-- The file's lines, or `none` if it cannot be read. The file is removed afterwards.
pub collect_file_enrichment : (String → Option Entry) → Option (List String) → EnrichmentResult
unfolding read_lines
collect_file_enrichment decode none = no_enrichment
collect_file_enrichment decode (some lines) = read_lines decode no_enrichment lines

abbrev ai_settings_into : Option Fields → Fields → Option Fields
ai_settings_into metadata end = metadata
ai_settings_into none settings = some (field "aiSettings" (object settings) end)
ai_settings_into (some fs) settings = some (put "aiSettings" (object settings) fs)

unfoldable pub enrich : ReasoningInfo → StepDetail → StepDetail
enrich r step = record step {
  output = object (
      field "text" step.output
        (field "reasoning" (text r.reasoning) (field "finishReason" (text r.finish_reason) end)));
  metadata = ai_settings_into step.metadata r.ai_settings;
}

abbrev default_model_of : String → StepDetail → StepDetail
default_model_of default_model step =
    if str_eq step.model "" then record step { model = default_model } else step

abbrev enrich_next : List ReasoningInfo → StepDetail → StepDetail
enrich_next [] step = step
enrich_next (r ∷ rs) step = enrich r step

abbrev tail_of : List ReasoningInfo → List ReasoningInfo
tail_of [] = []
tail_of (r ∷ rs) = rs

-- One round: a tool's step is passed over.
unfoldable pub merge_step :
    StepType → StepDetail → List ReasoningInfo → String → StepDetail × List ReasoningInfo
unfolding enrich
merge_step tool step reasonings default_model = (step, reasonings)
merge_step generation step reasonings default_model =
    (enrich_next reasonings (default_model_of default_model step), tail_of reasonings)

-- The loop over the steps; the list holds the reasonings from `genIndex` on.
unfoldable pub merge_enrichment_into_steps :
    List StepDetail → List ReasoningInfo → String → List StepDetail
unfolding merge_step
merge_enrichment_into_steps [] reasonings default_model = []
merge_enrichment_into_steps (step ∷ steps) reasonings default_model =
    let (step', rest) = merge_step step.kind step reasonings default_model in
    step' ∷ merge_enrichment_into_steps steps rest default_model

-- `file` is what is read of `<EnrichmentDir>/<TrialID>.jsonl`.
unfoldable pub prepare_enriched_steps :
    {F : Type 0}
    → (String → Option Entry)
    → Option (List String)
    → TrialResult F
    → List StepDetail × EnrichmentResult
unfolding collect_file_enrichment
prepare_enriched_steps decode file result =
    let enrichment =
      if str_eq result.adapter_name "opencode" && not (str_eq result.enrichment_dir "")
      then collect_file_enrichment decode file
      else no_enrichment in
    (merge_enrichment_into_steps result.steps enrichment.reasonings result.model_name, enrichment)
