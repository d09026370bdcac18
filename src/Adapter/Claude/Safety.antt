-- ===== src/Adapter/Claude/Safety.antt =====
-- When the parser of internal/adapter/claude.go indexes its pending tools within their bounds.
use trimetry.Base.{
  ℕ, ◌<◌, ◌≡◌, refl, ap, sym, ◌∙◌, String, Bool, true, false, Option, none, some, List, [], ◌∷◌,
  arith, length, length-append, length-set, get_elem?-of_lt, set, str_eq, inl, inr, Bool-cases,
  Option-cases,
}
use trimetry.Base.Int.{ℤ, ◌+ℤ◌}
use trimetry.Base.Dict.{Dict, lookup, lookup-insert}
use trimetry.Adapter.Types.{ParsedOutput}
use trimetry.Adapter.Claude.Event.{
  Content, MessageUsage, Message, ToolUseResult, ClaudeEvent, EventKind, system, assistant, user,
  result, unknown, kind_of, content_values, ContentKind, thinking, spoken, tool_use, other,
  content_kind_of,
}
use trimetry.Adapter.Claude.Generation.{
  PendingGeneration, ParserState, initial, finalize_pending, is_thinking_only,
}
use trimetry.Adapter.Claude.Assistant.{
  Reading, tool_step, read_content, read_contents, with_usage, with_model, close_before,
  read_message, gen_or_new, on_assistant,
}
use trimetry.Adapter.Claude.User.{
  complete_tool, complete_at, read_result, read_results, read_user, on_user,
}
use trimetry.Adapter.Claude.Parser.{
  on_result, with_session, dispatch, run_events, finish, parse_claude_json,
}

-- Every index that the map gives is below `n`.
abbrev Bounded : Dict ℕ → ℕ → Type 0
Bounded m n = (id : String) (idx : ℕ) → lookup id m ≡ some idx → idx < n

abbrev tool_count : Option PendingGeneration → ℕ
tool_count none = 0
tool_count (some gen) = length gen.tools

read_content-Bounded :
    (event_ms : ℤ) (c : Content) (kind : ContentKind) (r : Reading)
    → Bounded r.tool_map (length r.gen.tools)
    → Bounded
        (read_content event_ms c kind r).tool_map
        (length (read_content event_ms c kind r).gen.tools)
unfolding read_content
read_content-Bounded event_ms c thinking r h id idx e = ground (arith, h id idx)
read_content-Bounded event_ms c spoken r h id idx e = ground (arith, h id idx)
read_content-Bounded event_ms c tool_use r h id idx e = ground (
  arith,
  h id idx,
  lookup-insert c.id id (length r.gen.tools) r.tool_map,
  length-append r.gen.tools (tool_step event_ms c ∷ []),
)
read_content-Bounded event_ms c other r h id idx e = h id idx e

read_contents-Bounded :
    (event_ms : ℤ) (cs : List Content) (r : Reading)
    → Bounded r.tool_map (length r.gen.tools)
    → Bounded
        (read_contents event_ms cs r).tool_map
        (length (read_contents event_ms cs r).gen.tools)
unfolding read_contents
read_contents-Bounded event_ms [] r h = h
read_contents-Bounded event_ms (c ∷ cs) r h =
    read_contents-Bounded event_ms cs (read_content event_ms c (content_kind_of c.kind) r)
      (read_content-Bounded event_ms c (content_kind_of c.kind) r h)

with_model-tools :
    (model : String) (gen : PendingGeneration) → (with_model model gen).tools ≡ gen.tools
with_model-tools model gen = ground arith

with_usage-tools :
    (u : Option MessageUsage) (gen : PendingGeneration) → (with_usage u gen).tools ≡ gen.tools
unfolding with_usage
with_usage-tools none gen = refl
with_usage-tools (some u) gen = refl

module _ {F : Type 0} where
  abbrev IsSound : ParserState F → Type 0
  IsSound s = Bounded s.pending_tool_map (tool_count s.pending_gen)

  read_message-IsSound :
      (event_ms : ℤ) (m : Option Message) (gen : PendingGeneration) (s : ParserState F)
      → Bounded s.pending_tool_map (length gen.tools)
      → IsSound (read_message event_ms m gen s)
  unfolding read_message
  read_message-IsSound event_ms none gen s h = h
  read_message-IsSound event_ms (some m) gen s h =
      let start : Reading = record {
        gen = with_model m.model gen;
        text_parts = s.text_parts;
        tool_map = s.pending_tool_map;
      } in
      let r = read_contents event_ms m.content start in
      rw (with_usage-tools m.usage r.gen)
        (read_contents-Bounded event_ms m.content start (rw (with_model-tools m.model gen) h))

  close_before-IsSound :
      (event_ms : ℤ) (s : ParserState F) (p : Option PendingGeneration)
      → p ≡ s.pending_gen
      → IsSound s
      → IsSound (close_before event_ms s p)
  unfolding close_before lookup
  close_before-IsSound event_ms s none e h = h
  close_before-IsSound event_ms s (some gen) e h = elim (Bool-cases (is_thinking_only gen)) [
    | inl thought ↦ rw (thought, ← e) (rw (← e) at h)
    | inr more ↦ rw more (λ id idx found. cc)
  ]

  gen_or_new-Bounded :
      (event_ms : ℤ) (s : ParserState F) (p : Option PendingGeneration)
      → Bounded s.pending_tool_map (tool_count p)
      → Bounded s.pending_tool_map (length (gen_or_new event_ms s p).tools)
  gen_or_new-Bounded event_ms s none h = h
  gen_or_new-Bounded event_ms s (some gen) h = h

  on_assistant-IsSound :
      (event_ms : ℤ) (e : ClaudeEvent F) (s : ParserState F)
      → IsSound s
      → IsSound (on_assistant event_ms e s)
  unfolding on_assistant
  on_assistant-IsSound event_ms e s h =
      let s' = close_before event_ms s s.pending_gen in
      read_message-IsSound event_ms e.message (gen_or_new event_ms s' s'.pending_gen) s' (
        gen_or_new-Bounded event_ms s' s'.pending_gen
          (close_before-IsSound event_ms s s.pending_gen refl h))

complete_at-ok :
    (event_ms : ℤ) (tool_result : Option ToolUseResult) (c : Content) (gen : PendingGeneration)
    (idx : ℕ)
    → idx < length gen.tools
    → (gen' : PendingGeneration) × (complete_at event_ms tool_result c gen idx ≡ some gen')
      × (length gen'.tools ≡ length gen.tools)
unfolding complete_at
complete_at-ok event_ms tool_result c gen idx h =
    let found = get_elem?-of_lt gen.tools idx h in
    let t' = complete_tool event_ms tool_result c found.0 in
    (
      record gen { tools = set gen.tools idx t'; tool_time = gen.tool_time +ℤ t'.duration_ms },
      rw (found.1, complete_at) refl,
      length-set gen.tools idx t',
    )

read_result-ok :
    (event_ms : ℤ) (tool_result : Option ToolUseResult) (m : Dict ℕ) (c : Content)
    (gen : PendingGeneration)
    → Bounded m (length gen.tools)
    → (gen' : PendingGeneration) × (read_result event_ms tool_result m c gen ≡ some gen')
      × (length gen'.tools ≡ length gen.tools)
unfolding read_result
read_result-ok event_ms tool_result m c gen h = elim (Bool-cases (str_eq c.kind "tool_result")) [
  | inr other_kind ↦ (gen, rw other_kind refl, refl)
  | inl is_result ↦ elim (Option-cases (lookup c.tool_use_id m)) [
    | inl absent ↦ (gen, rw (is_result, absent, read_result) refl, refl)
    | inr (idx, found) ↦
        let done = complete_at-ok event_ms tool_result c gen idx (h c.tool_use_id idx found) in
        (done.0, rw (is_result, found, read_result) done.1, done.2)
  ]
]

read_results-ok :
    (event_ms : ℤ) (tool_result : Option ToolUseResult) (m : Dict ℕ) (cs : List Content)
    (gen : PendingGeneration)
    → Bounded m (length gen.tools)
    → (gen' : PendingGeneration) × (read_results event_ms tool_result m cs gen ≡ some gen')
      × (length gen'.tools ≡ length gen.tools)
unfolding read_results
read_results-ok event_ms tool_result m [] gen h = (gen, refl, refl)
read_results-ok event_ms tool_result m (c ∷ cs) gen h =
    let one = read_result-ok event_ms tool_result m c gen h in
    let rest = read_results-ok event_ms tool_result m cs one.0 (rw one.2 h) in
    (rest.0, rw (one.1, read_results) rest.1, rest.2 ∙ one.2)

module _ {F : Type 0} where
  -- A message of the user finds its tools, or none is pending.
  read_user-ok :
      (event_ms : ℤ) (e : ClaudeEvent F) (m : Message) (s : ParserState F)
      (p : Option PendingGeneration)
      → p ≡ s.pending_gen
      → Bounded s.pending_tool_map (tool_count p)
      → (s' : ParserState F) × (read_user event_ms e m s p ≡ some s')
        × (s'.pending_tool_map ≡ s.pending_tool_map)
        × (tool_count s'.pending_gen ≡ tool_count p)
  unfolding read_user
  read_user-ok event_ms e m s none q h = (s, refl, refl, ap tool_count (sym q))
  read_user-ok event_ms e m s (some gen) q h =
      let done = read_results-ok event_ms e.tool_use_result s.pending_tool_map m.content gen h in
      (record s { pending_gen = some done.0 }, rw (done.1, read_user) refl, refl, done.2)

  finalize_pending-pending_gen :
      (end_ms : ℤ) (s : ParserState F) (p : Option PendingGeneration)
      → p ≡ s.pending_gen
      → (finalize_pending end_ms s p).pending_gen ≡ none
  unfolding finalize_pending
  finalize_pending-pending_gen end_ms s none q = sym q
  finalize_pending-pending_gen end_ms s (some gen) q = refl

-- Before the first `result` event the map is sound; from then on no generation is pending.
abbrev Safe : {F : Type 0} → Bool → ParserState F → Type 0
Safe false s = IsSound s
Safe true s = s.pending_gen ≡ none

abbrev pub ended_by : EventKind → Bool → Bool
ended_by result ended = true
ended_by _ ended = ended

abbrev pub Allowed : EventKind → Bool → Type 0
Allowed assistant true = ⊥
Allowed _ _ = Unit

-- No message of the assistant comes after a `result` event.
abbrev pub IsOrdered : {F : Type 0} → Bool → List (ClaudeEvent F) → Type 0
IsOrdered ended [] = Unit
IsOrdered ended (e ∷ es) =
    Allowed (kind_of e.kind) ended × IsOrdered (ended_by (kind_of e.kind) ended) es

module _ {F : Type 0} where
  read_user-idle :
      (event_ms : ℤ) (e : ClaudeEvent F) (m : Message) (s : ParserState F)
      (p : Option PendingGeneration)
      → p ≡ none
      → read_user event_ms e m s p ≡ some s
  unfolding read_user
  read_user-idle event_ms e m s none q = refl
  read_user-idle event_ms e m s (some gen) q = cc

  on_user-ok :
      (event_ms : ℤ) (e : ClaudeEvent F) (ended : Bool) (s : ParserState F) (m : Option Message)
      → Safe ended s
      → (s' : ParserState F) × (on_user event_ms e s m ≡ some s') × Safe ended s'
  unfolding on_user
  on_user-ok event_ms e ended s none h = (s, refl, h)
  on_user-ok event_ms e true s (some m) h =
      let t = record s { last_user_input = content_values m.content } in
      (t, read_user-idle event_ms e m t t.pending_gen h, h)
  on_user-ok event_ms e false s (some m) h =
      let t = record s { last_user_input = content_values m.content } in
      let done = read_user-ok event_ms e m t t.pending_gen refl h in
      (
        done.0,
        done.1,
        λ id idx found. rw done.3 (h id idx (ap (λ n. lookup id n) (sym done.2) ∙ found)),
      )

  on_result-pending_gen :
      (event_ms : ℤ) (e : ClaudeEvent F) (s : ParserState F)
      → (on_result event_ms e s).pending_gen ≡ none
  unfolding on_result with_session
  on_result-pending_gen event_ms e s =
      ground (arith, finalize_pending-pending_gen event_ms s s.pending_gen refl)

  dispatch-ok :
      (event_ms : ℤ) (e : ClaudeEvent F) (k : EventKind) (ended : Bool) (s : ParserState F)
      → Allowed k ended
      → Safe ended s
      → (s' : ParserState F) × (dispatch event_ms e k s ≡ some s') × Safe (ended_by k ended) s'
  unfolding dispatch
  dispatch-ok event_ms e system ended s a h =
      (with_session e.session_id s, refl, session_safe ended s h)
    where
      session_safe :
          (ended : Bool) (s : ParserState F)
          → Safe ended s
          → Safe ended (with_session e.session_id s)
      session_safe true s h = ground (arith, h)
      session_safe false s h = λ id idx found. ground (arith, h id idx)
  dispatch-ok event_ms e assistant true s a h = absurd a
  dispatch-ok event_ms e assistant false s a h =
      (on_assistant event_ms e s, refl, on_assistant-IsSound event_ms e s h)
  dispatch-ok event_ms e user ended s a h = on_user-ok event_ms e ended s e.message h
  dispatch-ok event_ms e result ended s a h =
      (on_result event_ms e s, refl, on_result-pending_gen event_ms e s)
  dispatch-ok event_ms e unknown ended s a h = (s, refl, h)

  run_events-ok :
      (time_ms : String → ℤ) (ended : Bool) (events : List (ClaudeEvent F)) (s : ParserState F)
      → IsOrdered ended events
      → Safe ended s
      → (s' : ParserState F) × (run_events time_ms events s ≡ some s')
  unfolding run_events
  run_events-ok time_ms ended [] s o h = (s, refl)
  run_events-ok time_ms ended (e ∷ es) s o h =
      let one = dispatch-ok (time_ms e.timestamp) e (kind_of e.kind) ended s o.0 h in
      let rest = run_events-ok time_ms (ended_by (kind_of e.kind) ended) es one.0 o.1 one.2 in
      (rest.0, rw (one.1, run_events) rest.1)

  -- The parser returns a result, with no index out of range, for every output of the agent in which
  -- no message of the assistant comes after the `result` event.
  pub parse_claude_json_total :
      (time_ms : String → ℤ) (events : List (ClaudeEvent F))
      → IsOrdered false events
      → (out : ParsedOutput F) × (parse_claude_json time_ms events ≡ some out)
  unfolding parse_claude_json
  parse_claude_json_total time_ms events o =
      let done =
        run_events-ok time_ms false events initial o (unfold lookup in λ id idx found. cc) in
      (finish done.0, rw (done.1, parse_claude_json) refl)
