-- ===== src/Adapter/Types.antt =====
-- internal/adapter/adapter.go, and the two records of base.go that its adapters share.
use trimetry.Base.{ℕ, String, Bool, Option, none, List, []}
use trimetry.Base.Int.{ℤ, pos}
use trimetry.Base.Clock.{Time}
use trimetry.Model.Value.{Value, null, Fields}

pub record ExecutionContext : Type 0 where
  pub benchmark_run_id : String
  pub scenario_id : String
  pub scenario_version : String
  pub trial_id : String
  pub trial_number : ℕ
  pub model_name : String
  pub model_provider : String
  pub model_parameters : Fields
  pub timeout_seconds : ℤ

pub record TokenInfo : Type 0 where
  pub input : ℤ
  pub output : ℤ
  pub total : ℤ
  pub reasoning : ℤ
  pub cache_read : ℤ
  pub cache_write : ℤ

abbrev pub no_tokens : TokenInfo
no_tokens = record {
  input = pos 0;
  output = pos 0;
  total = pos 0;
  reasoning = pos 0;
  cache_read = pos 0;
  cache_write = pos 0;
}

pub data StepType : Type 0 where
  generation tool : StepType

pub record ToolDisplay : Type 0 where
  pub kind : String
  pub path : String
  pub line_start : ℤ
  pub line_end : ℤ
  pub total_lines : ℤ
  pub truncated : Bool

pub record StepDetail : Type 0 where
  pub kind : StepType
  pub name : String
  pub start_ms : ℤ
  pub end_ms : ℤ
  pub duration_ms : ℤ
  pub llm_inference_ms : ℤ
  pub tool_time_ms : ℤ
  pub status : String
  pub reason : String
  pub input : Value
  pub output : Value
  pub metadata : Option Fields
  pub tokens : Option TokenInfo
  pub model : String
  pub tools_called : List String
  pub call_id : String
  pub title : String
  pub display : Option ToolDisplay
  pub thinking_parts : List String
  pub ttft_ms : Option ℤ

-- `StepDetail{Type: kind, Name: name, Status: "completed"}`
abbrev pub completed_step : StepType → String → StepDetail
completed_step kind name = record {
  kind = kind;
  name = name;
  start_ms = pos 0;
  end_ms = pos 0;
  duration_ms = pos 0;
  llm_inference_ms = pos 0;
  tool_time_ms = pos 0;
  status = "completed";
  reason = "";
  input = null;
  output = null;
  metadata = none;
  tokens = none;
  model = "";
  tools_called = [];
  call_id = "";
  title = "";
  display = none;
  thinking_parts = [];
  ttft_ms = none;
}

-- An `error` is the text of its message.
pub record ExecutionResult (F : Type 0) : Type 0 where
  pub output : String
  pub started_at : Time
  pub finished_at : Time
  pub exit_code : ℤ
  pub stderr : String
  pub error : Option String
  pub tokens : Option TokenInfo
  pub steps : List StepDetail
  pub ttft_ms : Option ℤ
  pub cost_usd : Option F
  pub session_id : String

pub record ParsedOutput (F : Type 0) : Type 0 where
  pub text : String
  pub tokens : Option TokenInfo
  pub cost_usd : Option F
  pub steps : List StepDetail
  pub ttft_ms : Option ℤ
  pub session_id : String

abbrev pub no_output : {F : Type 0} → ParsedOutput F
no_output = record {
  text = "";
  tokens = none;
  cost_usd = none;
  steps = [];
  ttft_ms = none;
  session_id = "";
}

pub record RawExecResult : Type 0 where
  pub stdout : String
  pub stderr : String
  pub started_at : Time
  pub finished_at : Time
  pub exit_code : ℤ
  pub err : Option String
  pub timed_out : Bool
  pub timeout : ℤ
