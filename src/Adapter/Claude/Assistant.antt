-- ===== src/Adapter/Claude/Assistant.antt =====
-- internal/adapter/claude.go: an assistant's message, read into the pending generation.
use trimetry.Base.{
  ℕ, String, Option, none, some, List, [], ◌∷◌, ◌++◌, if◌then◌else◌, str_eq, length,
}
use trimetry.Base.Int.{ℤ, ◌+ℤ◌}
use trimetry.Base.Dict.{Dict, insert}
use trimetry.Adapter.Types.{TokenInfo, no_tokens, StepDetail, tool, completed_step}
use trimetry.Adapter.Claude.Event.{
  Content, MessageUsage, Message, ClaudeEvent, ContentKind, thinking, spoken, tool_use, other,
  content_kind_of,
}
use trimetry.Adapter.Claude.Generation.{
  PendingGeneration, ParserState, finalize_generation, is_thinking_only, new_generation,
}

-- What the loop over a message's content changes.
pub record Reading : Type 0 where
  pub gen : PendingGeneration
  pub text_parts : List String
  pub tool_map : Dict ℕ

read_thinking : String → Reading → Reading
read_thinking t r =
    if str_eq t ""
    then r
    else record r { gen = record r.gen { thinking_parts = r.gen.thinking_parts ++ t ∷ [] } }

read_text : String → Reading → Reading
read_text t r = record r {
  text_parts = r.text_parts ++ t ∷ [];
  gen = record r.gen { text_parts = r.gen.text_parts ++ t ∷ [] };
}

abbrev pub tool_step : ℤ → Content → StepDetail
tool_step event_ms c = record (completed_step tool c.name) {
  call_id = c.id;
  start_ms = event_ms;
  input = c.input;
}

read_tool_use : ℤ → Content → Reading → Reading
read_tool_use event_ms c r = if str_eq c.name "" then r else record r {
  gen = record r.gen {
    tools_called = r.gen.tools_called ++ c.name ∷ [];
    tools = r.gen.tools ++ tool_step event_ms c ∷ [];
  };
  tool_map = insert c.id (length r.gen.tools) r.tool_map;
}

-- The `switch` on a content's type.
unfoldable pub read_content : ℤ → Content → ContentKind → Reading → Reading
unfolding read_thinking read_text read_tool_use
read_content event_ms c thinking r = read_thinking c.thinking r
read_content event_ms c spoken r = read_text c.text r
read_content event_ms c tool_use r = read_tool_use event_ms c r
read_content event_ms c other r = r

unfoldable pub read_contents : ℤ → List Content → Reading → Reading
unfolding read_content
read_contents event_ms [] r = r
read_contents event_ms (c ∷ cs) r =
    read_contents event_ms cs (read_content event_ms c (content_kind_of c.kind) r)

abbrev or_no_tokens : Option TokenInfo → TokenInfo
or_no_tokens none = no_tokens
or_no_tokens (some t) = t

add_usage : MessageUsage → TokenInfo → TokenInfo
add_usage u t =
    let input = t.input +ℤ u.input_tokens in
    let output = t.output +ℤ u.output_tokens in
    record t {
      input = input;
      output = output;
      total = input +ℤ output;
      cache_read = t.cache_read +ℤ u.cache_read_input_tokens;
      cache_write = t.cache_write +ℤ u.cache_creation_input_tokens;
    }

unfoldable pub with_usage : Option MessageUsage → PendingGeneration → PendingGeneration
unfolding add_usage
with_usage none gen = gen
with_usage (some u) gen = record gen {
  step = record gen.step { tokens = some (add_usage u (or_no_tokens gen.step.tokens)) };
}

abbrev pub with_model : String → PendingGeneration → PendingGeneration
with_model model gen =
    if str_eq model "" then gen else record gen { step = record gen.step { model = model } }

module _ {F : Type 0} where
  -- A pending generation that is more than a thought is closed before the next message.
  unfoldable pub close_before : ℤ → ParserState F → Option PendingGeneration → ParserState F
  unfolding finalize_generation
  close_before event_ms s none = s
  close_before event_ms s (some gen) = if is_thinking_only gen then s else record s {
    result = finalize_generation gen event_ms s.result;
    pending_gen = none;
    pending_tool_map = [];
  }

  abbrev pub gen_or_new : ℤ → ParserState F → Option PendingGeneration → PendingGeneration
  gen_or_new event_ms s none = new_generation event_ms s.last_user_input
  gen_or_new event_ms s (some gen) = gen

  unfoldable pub read_message :
      ℤ → Option Message → PendingGeneration → ParserState F → ParserState F
  unfolding read_contents
  read_message event_ms none gen s = record s { pending_gen = some gen }
  read_message event_ms (some m) gen s =
      let r = read_contents event_ms m.content (record {
        gen = with_model m.model gen;
        text_parts = s.text_parts;
        tool_map = s.pending_tool_map;
      }) in
      record s {
        pending_gen = some (with_usage m.usage r.gen);
        text_parts = r.text_parts;
        pending_tool_map = r.tool_map;
      }

  unfoldable pub on_assistant : ℤ → ClaudeEvent F → ParserState F → ParserState F
  unfolding close_before read_message
  on_assistant event_ms e s =
      let s' = close_before event_ms s s.pending_gen in
      read_message event_ms e.message (gen_or_new event_ms s' s'.pending_gen) s'
