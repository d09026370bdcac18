-- ===== src/Adapter/Claude/Command.antt =====
-- internal/adapter/claude.go: the options of the agent, its command line, and the times that its events leave out.
use trimetry.Base.{
  ◌≡◌, String, Bool, true, false, not, ◌&&◌, Option, none, some, List, [], ◌∷◌, ◌++◌, All, inl, inr,
  Bool-cases, str_eq, if◌then◌else◌,
}
use trimetry.Base.Int.{ℤ, pos, positive, ltb_ℤ, ◌-ℤ◌}
use trimetry.Base.Text.{or_text}
use trimetry.Base.Dict.{Dict, lookup}
use trimetry.Base.Clock.{unix_milli}
use trimetry.Adapter.Types.{
  ExecutionContext, ExecutionResult, StepDetail, StepType, generation, tool,
}
use trimetry.Adapter.Exec.{CommandRun, run_cli, to_execution_result}
use trimetry.Adapter.Claude.Event.{ClaudeEvent}
use trimetry.Adapter.Claude.Parser.{parse_claude_json}

pub record ClaudeAdapter : Type 0 where
  pub command : String
  pub working_dir : String
  pub permission_mode : String
  pub model : String
  pub effort : String
  pub max_budget_usd : String
  pub bare : Bool
  pub continue : Bool

-- `if v, ok := options[key]; ok { … = v }`
abbrev option_else : String → Option String → String
option_else d none = d
option_else d (some v) = v

abbrev is_on : Dict String → String → Bool
is_on options key = str_eq (option_else "" (lookup key options)) "true"

unfoldable pub new_claude_adapter : String → String → Dict String → ClaudeAdapter
new_claude_adapter command working_dir options = record {
  command = or_text command "claude";
  working_dir = working_dir;
  permission_mode = option_else "bypassPermissions" (lookup "permission_mode" options);
  model = option_else "" (lookup "model" options);
  effort = option_else "" (lookup "effort" options);
  max_budget_usd = option_else "" (lookup "max_budget_usd" options);
  bare = is_on options "bare";
  continue = is_on options "continue_session";
}

-- `if v != "" { args = append(args, flag, v) }`
abbrev flag_with : String → String → List String
flag_with flag v = if str_eq v "" then [] else flag ∷ v ∷ []

unfoldable pub claude_args : ClaudeAdapter → (input model_name : String) → List String
claude_args a input model_name =
    (a.command ∷ "-p" ∷ "--output-format" ∷ "stream-json" ∷ "--verbose" ∷ "--permission-mode"
      ∷ a.permission_mode ∷ [])
    ++ ((if a.bare then "--bare" ∷ [] else [])
        ++ ((if a.continue then "--continue" ∷ [] else [])
            ++ (flag_with "--model" (or_text a.model model_name)
                ++ (flag_with "--effort" a.effort
                    ++ (flag_with "--max-budget-usd" a.max_budget_usd ++ (input ∷ []))))))

-- `if v <= 0 { v = at }`
abbrev or_time : ℤ → ℤ → ℤ
or_time v at = if positive v then v else at

-- LLMInferenceMs, for a duration that is filled in
abbrev inference_of : ℤ → ℤ → ℤ
inference_of duration tool_time =
    let rest = duration -ℤ tool_time in if ltb_ℤ rest (pos 0) then pos 0 else rest

-- The duration of a step, and for a generation the time that its tools leave.
unfoldable pub refill : StepType → StepDetail → StepDetail
refill generation s =
    let duration = s.end_ms -ℤ s.start_ms in
    record s { duration_ms = duration; llm_inference_ms = inference_of duration s.tool_time_ms }
refill tool s = record s { duration_ms = s.end_ms -ℤ s.start_ms }

unfoldable pub backfill_step : (start_ms end_ms : ℤ) → StepDetail → StepDetail
unfolding refill
backfill_step start_ms end_ms s =
    let timed = record s {
      start_ms = or_time s.start_ms start_ms;
      end_ms = or_time s.end_ms end_ms;
    } in
    if not (positive s.start_ms && positive s.end_ms) && not (positive s.duration_ms)
    then refill s.kind timed
    else timed

unfoldable pub backfill_steps : (start_ms end_ms : ℤ) → List StepDetail → List StepDetail
unfolding backfill_step
backfill_steps start_ms end_ms [] = []
backfill_steps start_ms end_ms (s ∷ ss) =
    backfill_step start_ms end_ms s ∷ backfill_steps start_ms end_ms ss

-- Execute: `command` is what the system answers to an argument list, and `decode` splits its output into events.
-- A panic of the parser is `none`.
unfoldable pub claude_execute :
    {F : Type 0}
    → (command : List String → CommandRun) → (decode : String → List (ClaudeEvent F))
    → (time_ms : String → ℤ) → ClaudeAdapter
    → (input : String) → ExecutionContext
    → Option (ExecutionResult F × Option String)
claude_execute command decode time_ms a input ec =
    let raw = run_cli (command (claude_args a input ec.model_name)) ec.timeout_seconds in
    elim (parse_claude_json time_ms (decode raw.stdout)) [
      | none ↦ none
      | some parsed ↦ some (
          to_execution_result raw (record parsed {
            steps =
                backfill_steps (unix_milli raw.started_at) (unix_milli raw.finished_at)
                  parsed.steps;
          }))
    ]

-- A step that says when it began and ended.
unfoldable pub IsTimed : StepDetail → Type 0
IsTimed s = (positive s.start_ms ≡ true) × (positive s.end_ms ≡ true)

or_time-positive : (v at : ℤ) → positive at ≡ true → positive (or_time v at) ≡ true
or_time-positive v at h = elim (Bool-cases (positive v)) [ inl e ↦ rw e e | inr e ↦ rw e h ]

timed_lem :
    (start_ms end_ms : ℤ) (s : StepDetail)
    → positive start_ms ≡ true
    → positive end_ms ≡ true
    → IsTimed
        (record s { start_ms = or_time s.start_ms start_ms; end_ms = or_time s.end_ms end_ms })
unfolding IsTimed
timed_lem start_ms end_ms s h k =
    (or_time-positive s.start_ms start_ms h, or_time-positive s.end_ms end_ms k)

refill-IsTimed : (kind : StepType) (s : StepDetail) → IsTimed s → IsTimed (refill kind s)
unfolding refill IsTimed
refill-IsTimed generation s h = h
refill-IsTimed tool s h = h

if-IsTimed : (b : Bool) (s t : StepDetail) → IsTimed s → IsTimed t → IsTimed (if b then s else t)
if-IsTimed true s t h k = h
if-IsTimed false s t h k = k

backfill_step-IsTimed :
    (start_ms end_ms : ℤ) (s : StepDetail)
    → positive start_ms ≡ true
    → positive end_ms ≡ true
    → IsTimed (backfill_step start_ms end_ms s)
unfolding backfill_step
backfill_step-IsTimed start_ms end_ms s h k =
    let timed : StepDetail = record s {
      start_ms = or_time s.start_ms start_ms;
      end_ms = or_time s.end_ms end_ms;
    } in
    if-IsTimed _ (refill s.kind timed) timed
      (refill-IsTimed s.kind timed (timed_lem start_ms end_ms s h k))
      (timed_lem start_ms end_ms s h k)

-- After filling in, every step of the agent says when it began and when it ended, if the run itself does.
pub backfill_steps-IsTimed :
    (start_ms end_ms : ℤ) (steps : List StepDetail)
    → positive start_ms ≡ true
    → positive end_ms ≡ true
    → All IsTimed (backfill_steps start_ms end_ms steps)
unfolding backfill_steps
backfill_steps-IsTimed start_ms end_ms [] h k = tt
backfill_steps-IsTimed start_ms end_ms (s ∷ ss) h k =
    (backfill_step-IsTimed start_ms end_ms s h k, backfill_steps-IsTimed start_ms end_ms ss h k)
