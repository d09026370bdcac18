-- ===== src/Adapter/Claude/Event.antt =====
-- internal/adapter/claude.go: the JSON lines of the agent, decoded.
use trimetry.Base.{String, Bool, Option, List, [], ◌∷◌, if◌then◌else◌, str_eq}
use trimetry.Base.Int.{ℤ}
use trimetry.Model.Value.{Value, boolean, text, list, object, Values, nil, cons, end, field}

pub record Content : Type 0 where
  pub kind : String
  pub text : String
  pub thinking : String
  pub name : String
  pub id : String
  pub tool_use_id : String
  pub content : String
  pub is_error : Bool
  pub input : Value

pub record MessageUsage : Type 0 where
  pub input_tokens : ℤ
  pub output_tokens : ℤ
  pub cache_read_input_tokens : ℤ
  pub cache_creation_input_tokens : ℤ

pub record Message : Type 0 where
  pub model : String
  pub content : List Content
  pub usage : Option MessageUsage

pub record ToolUseResult : Type 0 where
  pub stdout : String
  pub stderr : String
  pub interrupted : Bool

pub record RunUsage : Type 0 where
  pub input_tokens : ℤ
  pub output_tokens : ℤ
  pub cache_read_input_tokens : ℤ
  pub cache_creation_input_tokens : ℤ
  pub thinking_tokens : Option ℤ

-- `num_turns`, `duration_ms` and `duration_api_ms`, which nothing reads, are left out.
pub record ClaudeEvent (F : Type 0) : Type 0 where
  pub kind : String
  pub subtype : String
  pub session_id : String
  pub timestamp : String
  pub message : Option Message
  pub tool_use_result : Option ToolUseResult
  pub result : String
  pub total_cost_usd : Option F
  pub ttft_ms : Option ℤ
  pub usage : Option RunUsage

-- The cases of the `switch` on an event's type.
pub data EventKind : Type 0 where
  system assistant user result unknown : EventKind

unfoldable pub kind_of : String → EventKind
kind_of kind =
    if str_eq kind "system"
    then system
    else if str_eq kind "assistant"
    then assistant
    else if str_eq kind "user"
    then user
    else if str_eq kind "result"
    then result
    else unknown

-- The cases of the `switch` on a content's type.
pub data ContentKind : Type 0 where
  thinking spoken tool_use other : ContentKind

unfoldable pub content_kind_of : String → ContentKind
content_kind_of kind =
    if str_eq kind "thinking"
    then thinking
    else if str_eq kind "text"
    then spoken
    else if str_eq kind "tool_use"
    then tool_use
    else other

-- A message's content where it is stored in an `any`: each part as the object of its fields.
content_value : Content → Value
content_value c = object (
    field "type" (text c.kind) (
      field "text" (text c.text) (
        field "thinking" (text c.thinking) (
          field "name" (text c.name) (
            field "id" (text c.id) (
              field "tool_use_id" (text c.tool_use_id) (
                field "content" (text c.content)
                  (field "is_error" (boolean c.is_error) (field "input" c.input end)))))))))

content_items : List Content → Values
unfolding content_value
content_items [] = nil
content_items (c ∷ cs) = cons (content_value c) (content_items cs)

unfoldable pub content_values : List Content → Value
unfolding content_items
content_values cs = list (content_items cs)
