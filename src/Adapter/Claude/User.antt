-- ===== src/Adapter/Claude/User.antt =====
-- internal/adapter/claude.go: the results of tools, in a message of the user.
use trimetry.Base.{
  ℕ, String, Option, none, some, List, [], ◌∷◌, if◌then◌else◌, str_eq, get_elem?, set,
}
use trimetry.Base.Int.{ℤ, ◌+ℤ◌, ◌-ℤ◌}
use trimetry.Base.Dict.{Dict, lookup}
use trimetry.Model.Value.{Value, text}
use trimetry.Adapter.Types.{StepDetail}
use trimetry.Adapter.Claude.Event.{Content, Message, ToolUseResult, ClaudeEvent, content_values}
use trimetry.Adapter.Claude.Generation.{PendingGeneration, ParserState}

-- The tool's step, as a result completes it.
abbrev result_output : Option ToolUseResult → String → Value → Value
result_output (some r) content output = text r.stdout
result_output none content output = if str_eq content "" then output else text content

unfoldable pub complete_tool : ℤ → Option ToolUseResult → Content → StepDetail → StepDetail
complete_tool event_ms tool_result c t = record t {
  end_ms = event_ms;
  duration_ms = event_ms -ℤ t.start_ms;
  output = result_output tool_result c.content t.output;
  status = if c.is_error then "error" else t.status;
}

-- `pendingGen.tools[idx]`: `none` is the panic of an index out of range.
unfoldable pub complete_at :
    ℤ → Option ToolUseResult → Content → PendingGeneration → ℕ → Option PendingGeneration
complete_at event_ms tool_result c gen idx = elim (get_elem? gen.tools idx) [
  | none ↦ none
  | some t ↦
      let t' = complete_tool event_ms tool_result c t in
      some
        (record gen { tools = set gen.tools idx t'; tool_time = gen.tool_time +ℤ t'.duration_ms })
]

unfoldable pub read_result :
    ℤ → Option ToolUseResult → Dict ℕ → Content → PendingGeneration → Option PendingGeneration
unfolding complete_at
read_result event_ms tool_result tool_map c gen =
    if str_eq c.kind "tool_result"
    then elim (lookup c.tool_use_id tool_map) [
      | none ↦ some gen
      | some idx ↦ complete_at event_ms tool_result c gen idx
    ]
    else some gen

unfoldable pub read_results :
    ℤ → Option ToolUseResult → Dict ℕ → List Content → PendingGeneration → Option PendingGeneration
unfolding read_result
read_results event_ms tool_result tool_map [] gen = some gen
read_results event_ms tool_result tool_map (c ∷ cs) gen =
    elim (read_result event_ms tool_result tool_map c gen) [
      | none ↦ none
      | some gen' ↦ read_results event_ms tool_result tool_map cs gen'
    ]

module _ {F : Type 0} where
  unfoldable pub read_user :
      ℤ
      → ClaudeEvent F
      → Message
      → ParserState F
      → Option PendingGeneration
      → Option (ParserState F)
  unfolding read_results
  read_user event_ms e m s none = some s
  read_user event_ms e m s (some gen) =
      elim (read_results event_ms e.tool_use_result s.pending_tool_map m.content gen) [
        | none ↦ none
        | some gen' ↦ some (record s { pending_gen = some gen' })
      ]

  unfoldable pub on_user :
      ℤ → ClaudeEvent F → ParserState F → Option Message → Option (ParserState F)
  unfolding read_user
  on_user event_ms e s none = some s
  on_user event_ms e s (some m) =
      let s' = record s { last_user_input = content_values m.content } in
      read_user event_ms e m s' s'.pending_gen
