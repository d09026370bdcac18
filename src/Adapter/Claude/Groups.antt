-- ===== src/Adapter/Claude/Groups.antt =====
-- The steps that the parser of internal/adapter/claude.go returns are generations with their tools.
use trimetry.Base.{
  ℕ, ◌≡◌, refl, ap, ◌∙◌, String, Option, none, some, List, [], ◌∷◌, ◌++◌, Holds, Holds-bind, Holds,
  Holds-bind, arith, get_elem?, str_eq, inl, inr, Bool-cases, Option-cases, All, All-append,
}
use trimetry.Base.Int.{ℤ, pos}
use trimetry.Base.Dict.{Dict, lookup}
use trimetry.Adapter.Types.{generation, ParsedOutput}
use trimetry.Adapter.Steps.{
  IsTool, IsGrouped, none_yet, then_group, names, names-append, names-set, IsTool-set,
  IsTool-get_elem?,
}
use trimetry.Adapter.Claude.Event.{
  Content, MessageUsage, Message, ToolUseResult, ClaudeEvent, EventKind, system, assistant, user,
  result, unknown, kind_of, content_values, ContentKind, thinking, spoken, tool_use, other,
  content_kind_of,
}
use trimetry.Adapter.Claude.Generation.{
  PendingGeneration, ParserState, initial, final_step, finalize_generation, finalize_pending,
  is_thinking_only,
}
use trimetry.Adapter.Claude.Assistant.{
  Reading, tool_step, read_content, read_contents, with_usage, with_model, close_before,
  read_message, gen_or_new, on_assistant,
}
use trimetry.Adapter.Claude.User.{
  complete_tool, complete_at, read_result, read_results, read_user, on_user,
}
use trimetry.Adapter.Claude.Parser.{
  on_result, with_session, dispatch, run_events, finish, parse_claude_json,
}

-- The pending generation has a step for each tool that it called.
record IsPaired (gen : PendingGeneration) : Type 0 where
  is_generation : gen.step.kind ≡ generation
  called : names gen.tools ≡ gen.tools_called
  are_tools : All IsTool gen.tools

abbrev PendingIsPaired : Option PendingGeneration → Type 0
PendingIsPaired none = Unit
PendingIsPaired (some gen) = IsPaired gen

read_content-IsPaired :
    (event_ms : ℤ) (c : Content) (kind : ContentKind) (r : Reading)
    → IsPaired r.gen
    → IsPaired (read_content event_ms c kind r).gen
unfolding read_content
read_content-IsPaired event_ms c thinking r h = ground arith
read_content-IsPaired event_ms c spoken r h = ground arith
read_content-IsPaired event_ms c tool_use r h = elim (Bool-cases (str_eq c.name "")) [
  | inl unnamed ↦ rw unnamed h
  | inr named ↦ rw named (record {
    is_generation = h.is_generation;
    called =
        names-append r.gen.tools (tool_step event_ms c ∷ []) ∙ ap (λ l. l ++ c.name ∷ []) h.called;
    are_tools = All-append IsTool r.gen.tools (tool_step event_ms c ∷ []) h.are_tools (refl, tt);
  })
]
read_content-IsPaired event_ms c other r h = h

read_contents-IsPaired :
    (event_ms : ℤ) (cs : List Content) (r : Reading)
    → IsPaired r.gen
    → IsPaired (read_contents event_ms cs r).gen
unfolding read_contents
read_contents-IsPaired event_ms [] r h = h
read_contents-IsPaired event_ms (c ∷ cs) r h =
    read_contents-IsPaired event_ms cs (read_content event_ms c (content_kind_of c.kind) r)
      (read_content-IsPaired event_ms c (content_kind_of c.kind) r h)

with_model-IsPaired :
    (model : String) (gen : PendingGeneration) → IsPaired gen → IsPaired (with_model model gen)
with_model-IsPaired model gen h = ground arith

with_usage-IsPaired :
    (u : Option MessageUsage) (gen : PendingGeneration) → IsPaired gen → IsPaired (with_usage u gen)
unfolding with_usage
with_usage-IsPaired none gen h = h
with_usage-IsPaired (some u) gen h = record {
  is_generation = h.is_generation;
  called = h.called;
  are_tools = h.are_tools;
}

complete_at-IsPaired :
    (event_ms : ℤ) (tool_result : Option ToolUseResult) (c : Content) (gen : PendingGeneration)
    (idx : ℕ)
    → IsPaired gen
    → Holds IsPaired (complete_at event_ms tool_result c gen idx)
unfolding complete_at
complete_at-IsPaired event_ms tool_result c gen idx h =
    elim (Option-cases (get_elem? gen.tools idx)) [
      | inl out_of_range ↦ rw (out_of_range, complete_at) tt
      | inr (t, found) ↦
          let t' = complete_tool event_ms tool_result c t in
          let is_tool : IsTool t' =
            unfold complete_tool in IsTool-get_elem? gen.tools idx t found h.are_tools in
          rw (found, complete_at)
            (record {
              is_generation = h.is_generation;
              called = names-set gen.tools idx t t' found (unfold complete_tool in refl) ∙ h.called;
              are_tools = IsTool-set gen.tools idx t' is_tool h.are_tools;
            })
    ]

read_result-IsPaired :
    (event_ms : ℤ) (tool_result : Option ToolUseResult) (m : Dict ℕ) (c : Content)
    (gen : PendingGeneration)
    → IsPaired gen
    → Holds IsPaired (read_result event_ms tool_result m c gen)
unfolding read_result
read_result-IsPaired event_ms tool_result m c gen h =
    elim (Bool-cases (str_eq c.kind "tool_result")) [
      | inr other_kind ↦ rw other_kind h
      | inl is_result ↦ elim (Option-cases (lookup c.tool_use_id m)) [
        | inl absent ↦ rw (is_result, absent, read_result) h
        | inr (idx, found) ↦
            rw (is_result, found, read_result)
              (complete_at-IsPaired event_ms tool_result c gen idx h)
      ]
    ]

read_results-IsPaired :
    (event_ms : ℤ) (tool_result : Option ToolUseResult) (m : Dict ℕ) (cs : List Content)
    (gen : PendingGeneration)
    → IsPaired gen
    → Holds IsPaired (read_results event_ms tool_result m cs gen)
unfolding read_results
read_results-IsPaired event_ms tool_result m [] gen h = h
read_results-IsPaired event_ms tool_result m (c ∷ cs) gen h =
    Holds-bind IsPaired IsPaired (read_result event_ms tool_result m c gen)
      (read_results event_ms tool_result m cs) (read_result-IsPaired event_ms tool_result m c gen h)
      (λ gen'. read_results-IsPaired event_ms tool_result m cs gen')

module _ {F : Type 0} where
  -- The steps so far are grouped, and the pending generation is ready to join them.
  record GroupsKept (s : ParserState F) : Type 0 where
    grouped : IsGrouped s.result.steps
    pending : PendingIsPaired s.pending_gen

  finalize_generation-IsGrouped :
      (gen : PendingGeneration) (end_ms : ℤ) (out : ParsedOutput F)
      → IsGrouped out.steps
      → IsPaired gen
      → IsGrouped (finalize_generation gen end_ms out).steps
  unfolding finalize_generation
  finalize_generation-IsGrouped gen end_ms out before h =
      then_group out.steps (final_step gen end_ms) gen.tools before
        (record {
          is_generation = ground (arith, h.is_generation);
          called = h.called;
          are_tools = h.are_tools;
        })
        refl

  close_before-GroupsKept :
      (event_ms : ℤ) (s : ParserState F) (p : Option PendingGeneration)
      → p ≡ s.pending_gen
      → GroupsKept s
      → GroupsKept (close_before event_ms s p)
  unfolding close_before
  close_before-GroupsKept event_ms s none e h = h
  close_before-GroupsKept event_ms s (some gen) e h = elim (Bool-cases (is_thinking_only gen)) [
    | inl thought ↦ rw thought h
    | inr more ↦ rw more (record {
      grouped =
          finalize_generation-IsGrouped gen event_ms s.result h.grouped (rw (← e) at h.pending);
      pending = tt;
    })
  ]

  finalize_pending-GroupsKept :
      (end_ms : ℤ) (s : ParserState F) (p : Option PendingGeneration)
      → p ≡ s.pending_gen
      → GroupsKept s
      → GroupsKept (finalize_pending end_ms s p)
  unfolding finalize_pending
  finalize_pending-GroupsKept end_ms s none e h = h
  finalize_pending-GroupsKept end_ms s (some gen) e h = record {
    grouped = finalize_generation-IsGrouped gen end_ms s.result h.grouped (rw (← e) at h.pending);
    pending = tt;
  }

  read_message-GroupsKept :
      (event_ms : ℤ) (m : Option Message) (gen : PendingGeneration) (s : ParserState F)
      → IsGrouped s.result.steps
      → IsPaired gen
      → GroupsKept (read_message event_ms m gen s)
  unfolding read_message
  read_message-GroupsKept event_ms none gen s g h = record { grouped = g; pending = h }
  read_message-GroupsKept event_ms (some m) gen s g h =
      let start : Reading = record {
        gen = with_model m.model gen;
        text_parts = s.text_parts;
        tool_map = s.pending_tool_map;
      } in
      record {
        grouped = g;
        pending =
            with_usage-IsPaired m.usage (read_contents event_ms m.content start).gen
              (read_contents-IsPaired event_ms m.content start (with_model-IsPaired m.model gen h));
      }

  gen_or_new-IsPaired :
      (event_ms : ℤ) (s : ParserState F) (p : Option PendingGeneration)
      → PendingIsPaired p
      → IsPaired (gen_or_new event_ms s p)
  gen_or_new-IsPaired event_ms s none h = record {
    is_generation = refl;
    called = refl;
    are_tools = tt;
  }
  gen_or_new-IsPaired event_ms s (some gen) h = h

  on_assistant-GroupsKept :
      (event_ms : ℤ) (e : ClaudeEvent F) (s : ParserState F)
      → GroupsKept s
      → GroupsKept (on_assistant event_ms e s)
  unfolding on_assistant
  on_assistant-GroupsKept event_ms e s h =
      let s' = close_before event_ms s s.pending_gen in
      let kept = close_before-GroupsKept event_ms s s.pending_gen refl h in
      read_message-GroupsKept event_ms e.message (gen_or_new event_ms s' s'.pending_gen) s'
        kept.grouped (gen_or_new-IsPaired event_ms s' s'.pending_gen kept.pending)

  read_user-GroupsKept :
      (event_ms : ℤ) (e : ClaudeEvent F) (m : Message) (s : ParserState F)
      (p : Option PendingGeneration)
      → PendingIsPaired p
      → GroupsKept s
      → Holds GroupsKept (read_user event_ms e m s p)
  unfolding read_user
  read_user-GroupsKept event_ms e m s none h g = g
  read_user-GroupsKept event_ms e m s (some gen) h g =
      Holds-bind IsPaired GroupsKept
        (read_results event_ms e.tool_use_result s.pending_tool_map m.content gen)
        (λ gen'. some (record s { pending_gen = some gen' }))
        (read_results-IsPaired event_ms e.tool_use_result s.pending_tool_map m.content gen h)
        (λ gen' paired. record { grouped = g.grouped; pending = paired })

  on_user-GroupsKept :
      (event_ms : ℤ) (e : ClaudeEvent F) (s : ParserState F) (m : Option Message)
      → GroupsKept s
      → Holds GroupsKept (on_user event_ms e s m)
  unfolding on_user
  on_user-GroupsKept event_ms e s none h = h
  on_user-GroupsKept event_ms e s (some m) h =
      read_user-GroupsKept event_ms e m (record s { last_user_input = content_values m.content })
        s.pending_gen h.pending (record { grouped = h.grouped; pending = h.pending })

  with_session-GroupsKept :
      (session_id : String) (s : ParserState F)
      → GroupsKept s
      → GroupsKept (with_session session_id s)
  unfolding with_session
  with_session-GroupsKept session_id s h = elim (Bool-cases (str_eq session_id "")) [
    | inl absent ↦ rw absent h
    | inr given ↦ rw given (record { grouped = h.grouped; pending = h.pending })
  ]

  dispatch-GroupsKept :
      (event_ms : ℤ) (e : ClaudeEvent F) (k : EventKind) (s : ParserState F)
      → GroupsKept s
      → Holds GroupsKept (dispatch event_ms e k s)
  unfolding dispatch on_result
  dispatch-GroupsKept event_ms e system s h = with_session-GroupsKept e.session_id s h
  dispatch-GroupsKept event_ms e assistant s h = on_assistant-GroupsKept event_ms e s h
  dispatch-GroupsKept event_ms e user s h = on_user-GroupsKept event_ms e s e.message h
  dispatch-GroupsKept event_ms e result s h =
      let t = finalize_pending-GroupsKept event_ms s s.pending_gen refl h in
      with_session-GroupsKept e.session_id _ (record { grouped = t.grouped; pending = t.pending })
  dispatch-GroupsKept event_ms e unknown s h = h

  run_events-GroupsKept :
      (time_ms : String → ℤ) (events : List (ClaudeEvent F)) (s : ParserState F)
      → GroupsKept s
      → Holds GroupsKept (run_events time_ms events s)
  unfolding run_events
  run_events-GroupsKept time_ms [] s h = h
  run_events-GroupsKept time_ms (e ∷ es) s h =
      Holds-bind GroupsKept GroupsKept (dispatch (time_ms e.timestamp) e (kind_of e.kind) s)
        (run_events time_ms es) (dispatch-GroupsKept (time_ms e.timestamp) e (kind_of e.kind) s h)
        (run_events-GroupsKept time_ms es)

  -- The steps of every result are generations, each followed by one tool step for every tool that
  -- it called, under the tools' names and in the order of the calls.
  pub parse_claude_json-IsGrouped :
      (time_ms : String → ℤ) (events : List (ClaudeEvent F))
      → Holds (λ out. IsGrouped out.steps) (parse_claude_json time_ms events)
  unfolding parse_claude_json
  parse_claude_json-IsGrouped time_ms events =
      Holds-bind GroupsKept (λ out. IsGrouped out.steps) (run_events time_ms events initial)
        (λ s. some (finish s))
        (run_events-GroupsKept time_ms events initial
          (record { grouped = none_yet refl; pending = tt }))
        (λ s kept.
          unfold finish in (finalize_pending-GroupsKept (pos 0) s s.pending_gen refl kept).grouped)
