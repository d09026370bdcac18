-- ===== src/Adapter/Claude/Parser.antt =====
-- internal/adapter/claude.go: `parseClaudeJSON`, as a state machine over the decoded events.
use trimetry.Base.{
  String, not, ◌&&◌, Option, none, some, List, [], ◌∷◌, ◌++◌, if◌then◌else◌, str_eq, is_empty,
}
use trimetry.Base.Int.{ℤ, pos, ◌+ℤ◌}
use trimetry.Base.Text.{join}
use trimetry.Adapter.Types.{TokenInfo, ParsedOutput}
use trimetry.Adapter.Claude.Event.{
  RunUsage, ClaudeEvent, EventKind, system, assistant, user, result, unknown, kind_of,
}
use trimetry.Adapter.Claude.Generation.{ParserState, initial, finalize_pending}
use trimetry.Base.Clock.{Time, unix_milli}
use trimetry.Adapter.Claude.Assistant.{on_assistant}
use trimetry.Adapter.Claude.User.{on_user}

-- `parse_nano` and `parse_milli` are `time.Parse` with the two layouts.
unfoldable pub parse_timestamp_ms : (parse_nano parse_milli : String → Option Time) → String → ℤ
parse_timestamp_ms parse_nano parse_milli ts =
    if str_eq ts "" then pos 0 else elim (parse_nano ts) [
      | some t ↦ unix_milli t
      | none ↦ elim (parse_milli ts) [ some t ↦ unix_milli t | none ↦ pos 0 ]
    ]

abbrev thinking_of : Option ℤ → ℤ
thinking_of none = pos 0
thinking_of (some n) = n

abbrev run_tokens : RunUsage → TokenInfo
run_tokens u = record {
  input = u.input_tokens;
  output = u.output_tokens;
  total = u.input_tokens +ℤ u.output_tokens;
  reasoning = thinking_of u.thinking_tokens;
  cache_read = u.cache_read_input_tokens;
  cache_write = u.cache_creation_input_tokens;
}

-- `if p != nil { v = p }`
abbrev or_else {ℓ} : {A : Type ℓ} → Option A → Option A → Option A
or_else none v = v
or_else (some p) v = some p

abbrev run_usage : Option RunUsage → Option TokenInfo → Option TokenInfo
run_usage none t = t
run_usage (some u) t = some (run_tokens u)

module _ {F : Type 0} where
  unfoldable pub with_session : String → ParserState F → ParserState F
  with_session session_id s =
      if str_eq session_id ""
      then s
      else record s { result = record s.result { session_id = session_id } }

  -- The map of the pending tools is not reset here, as it is where an assistant's message closes one.
  unfoldable pub on_result : ℤ → ClaudeEvent F → ParserState F → ParserState F
  unfolding finalize_pending with_session
  on_result event_ms e s =
      let t = finalize_pending event_ms s s.pending_gen in
      let parts =
        if is_empty t.text_parts && not (str_eq e.result "")
        then t.text_parts ++ e.result ∷ []
        else t.text_parts in
      with_session e.session_id (record t {
        text_parts = parts;
        result = record t.result {
          cost_usd = or_else e.total_cost_usd t.result.cost_usd;
          tokens = run_usage e.usage t.result.tokens;
          ttft_ms = or_else e.ttft_ms t.result.ttft_ms;
        };
      })

  -- The `switch` on an event's type.
  unfoldable pub dispatch : ℤ → ClaudeEvent F → EventKind → ParserState F → Option (ParserState F)
  unfolding on_result with_session
  dispatch event_ms e system s = some (with_session e.session_id s)
  dispatch event_ms e assistant s = some (on_assistant event_ms e s)
  dispatch event_ms e user s = on_user event_ms e s e.message
  dispatch event_ms e result s = some (on_result event_ms e s)
  dispatch event_ms e unknown s = some s

  -- `time_ms` is `parseTimestampMs`.
  unfoldable pub run_events :
      (time_ms : String → ℤ) → List (ClaudeEvent F) → ParserState F → Option (ParserState F)
  unfolding dispatch
  run_events time_ms [] s = some s
  run_events time_ms (e ∷ es) s = elim (dispatch (time_ms e.timestamp) e (kind_of e.kind) s) [
    | none ↦ none
    | some s' ↦ run_events time_ms es s'
  ]

  unfoldable pub finish : ParserState F → ParsedOutput F
  unfolding finalize_pending
  finish s =
      let t = finalize_pending (pos 0) s s.pending_gen in
      record t.result { text = join t.text_parts }

  -- `none` is a panic.
  unfoldable pub parse_claude_json :
      (time_ms : String → ℤ) → List (ClaudeEvent F) → Option (ParsedOutput F)
  unfolding run_events finish
  parse_claude_json time_ms events = elim (run_events time_ms events initial) [
    | none ↦ none
    | some s ↦ some (finish s)
  ]
