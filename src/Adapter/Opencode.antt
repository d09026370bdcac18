-- ===== src/Adapter/Opencode.antt =====
-- internal/adapter/opencode.go: the agent's events, and the parser that turns them into steps.
pub mod Parser
pub mod Groups
use Prim.Native.String.{◌++◌ as str_append}
use trimetry.Base.{
  ℕ, String, Bool, true, false, ◌&&◌, Option, none, some, List, [], ◌∷◌, ◌++◌, map, if◌then◌else◌,
  str_eq, is_empty,
}
use trimetry.Base.Int.{ℤ, pos, ◌+ℤ◌, ◌-ℤ◌, positive, eqb_ℤ}
use trimetry.Base.Text.{join, or_text}
use trimetry.Model.Value.{
  Value, null, text, list, object, values, Fields, end, field, texts, is_null, member,
}
use trimetry.Adapter.Types.{
  TokenInfo, no_tokens, StepDetail, StepType, generation, tool, completed_step, ToolDisplay,
  ParsedOutput, no_output,
}

unfoldable pub opencode_args : (command input model_name : String) → List String
opencode_args command input model_name =
    (command ∷ "run" ∷ "--format" ∷ "json" ∷ [])
    ++ ((if str_eq model_name "" then [] else "--model" ∷ model_name ∷ []) ++ (input ∷ []))

pub record TimeRange : Type 0 where
  pub start : ℤ
  pub end_ : ℤ

pub record ToolState : Type 0 where
  pub status : String
  pub input : Value
  pub output : Value
  pub title : String
  pub metadata : Option Fields
  pub time : Option TimeRange

pub record CacheTokens : Type 0 where
  pub read : ℤ
  pub write : ℤ

pub record PartTokens : Type 0 where
  pub total : ℤ
  pub input : ℤ
  pub output : ℤ
  pub reasoning : ℤ
  pub cache : Option CacheTokens

pub record OpencodeEvent : Type 0 where
  pub kind : String
  pub timestamp : ℤ
  pub session_id : String
  pub part_text : String
  pub part_name : String
  pub part_tool : String
  pub part_call_id : String
  pub part_reason : String
  pub part_state : Option ToolState
  pub part_tokens : Option PartTokens

pub record OpencodeState (F : Type 0) : Type 0 where
  pub result : ParsedOutput F
  pub text_parts : List String
  pub pending_tools : List StepDetail
  pub step_start_ms : ℤ
  pub step_text_parts : List String
  pub first_text_event_ts : ℤ
  pub last_tool_outputs : List Value

abbrev pub initial : {F : Type 0} → OpencodeState F
initial = record {
  result = no_output;
  text_parts = [];
  pending_tools = [];
  step_start_ms = pos 0;
  step_text_parts = [];
  first_text_event_ts = pos 0;
  last_tool_outputs = [];
}

-- `extractDisplay`; `read_display` is the JSON library, there and back.
accept_display : Option ToolDisplay → Option ToolDisplay
accept_display none = none
accept_display (some d) = if str_eq d.kind "" && str_eq d.path "" then none else some d

pub extract_display : (Value → Option ToolDisplay) → Option Fields → Option ToolDisplay
unfolding accept_display
extract_display read_display none = none
extract_display read_display (some metadata) = elim (member "display" metadata) [
  | none ↦ none
  | some raw ↦ accept_display (read_display raw)
]

with_time : Option TimeRange → StepDetail → StepDetail
with_time none step = step
with_time (some t) step = record step {
  start_ms = t.start;
  end_ms = t.end_;
  duration_ms = t.end_ -ℤ t.start;
}

with_state : (Value → Option ToolDisplay) → Option ToolState → StepDetail → StepDetail
unfolding with_time extract_display
with_state read_display none step = step
with_state read_display (some s) step = with_time s.time (record step {
  status = if str_eq s.status "" then step.status else s.status;
  input = s.input;
  output = s.output;
  title = s.title;
  metadata = s.metadata;
  display = extract_display read_display s.metadata;
})

unfoldable pub tool_step : (Value → Option ToolDisplay) → OpencodeEvent → StepDetail
unfolding with_state
tool_step read_display e =
    with_state read_display e.part_state
      (record (completed_step tool (or_text e.part_tool e.part_name)) { call_id = e.part_call_id })

abbrev pub or_no_tokens : Option TokenInfo → TokenInfo
or_no_tokens none = no_tokens
or_no_tokens (some t) = t

abbrev cache_of : Option CacheTokens → CacheTokens
cache_of none = record { read = pos 0; write = pos 0 }
cache_of (some c) = c

unfoldable pub add_tokens : PartTokens → TokenInfo → TokenInfo
add_tokens p t = record {
  input = t.input +ℤ p.input;
  output = t.output +ℤ p.output;
  total = t.total +ℤ p.total;
  reasoning = t.reasoning +ℤ p.reasoning;
  cache_read = elim p.cache [ none ↦ t.cache_read | some c ↦ t.cache_read +ℤ c.read ];
  cache_write = elim p.cache [ none ↦ t.cache_write | some c ↦ t.cache_write +ℤ c.write ];
}

abbrev pub step_tokens : PartTokens → TokenInfo
step_tokens p = record {
  input = p.input;
  output = p.output;
  total = p.total;
  reasoning = p.reasoning;
  cache_read = (cache_of p.cache).read;
  cache_write = (cache_of p.cache).write;
}
