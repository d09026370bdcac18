-- ===== src/Adapter/Opencode/Groups.antt =====
-- The steps that the parser of internal/adapter/opencode.go returns are generations with their tools.
use mathlib.Core.Path.{subst}
use trimetry.Base.{
  ◌≡◌, refl, sym, ap, ◌∙◌, String, Bool, true, false, not, ◌&&◌, Option, none, some, List, [], ◌∷◌,
  ◌++◌, All, All-append, append-nil, append_assoc, str_eq, eq_iff, inl, inr, Bool-cases, arith,
  if◌then◌else◌,
}
use trimetry.Base.Text.{or_text}
use trimetry.Model.Value.{Value}
use trimetry.Adapter.Types.{StepDetail, tool, completed_step, ToolDisplay}
use trimetry.Adapter.Steps.{IsTool, IsGroup, names}
use trimetry.Adapter.Opencode.{
  OpencodeEvent, OpencodeState, initial, tool_step, TimeRange, ToolState, with_time, with_state,
}
use trimetry.Adapter.Opencode.Parser.{
  EventKind, step_start, spoken, tool_use, step_finish, unknown, kind_of, generation_step,
  on_step_finish, on_text, dispatch, with_session, run_events, parse_opencode_json,
}

with_time-kind :
    (time : Option TimeRange) (step : StepDetail) → (with_time time step).kind ≡ step.kind
unfolding with_time
with_time-kind none step = refl
with_time-kind (some t) step = refl

tool_step-IsTool :
    (read_display : Value → Option ToolDisplay) (e : OpencodeEvent)
    → IsTool (tool_step read_display e)
unfolding tool_step
tool_step-IsTool read_display e = go e.part_state
  where
    go :
        (s : Option ToolState)
        → (with_state read_display s
            (record (completed_step tool (or_text e.part_tool e.part_name)) {
              call_id = e.part_call_id;
            })).kind
          ≡ tool
    go none = refl
    go (some s) = with_time-kind s.time _

-- Is the event the use of a tool, or the end of a step?
unfoldable pub is_use : OpencodeEvent → Bool
is_use e = str_eq e.kind "tool_use"

unfoldable pub is_finish : OpencodeEvent → Bool
is_finish e = str_eq e.kind "step_finish"

abbrev pub NotFinish : OpencodeEvent → Type 0
NotFinish e = is_finish e ≡ false

-- The kinds as the parser tells them apart agree with the texts.
kind_is_use : EventKind → Bool
kind_is_use tool_use = true
kind_is_use step_start = false
kind_is_use spoken = false
kind_is_use step_finish = false
kind_is_use unknown = false

kind_is_finish : EventKind → Bool
kind_is_finish step_finish = true
kind_is_finish step_start = false
kind_is_finish spoken = false
kind_is_finish tool_use = false
kind_is_finish unknown = false

finish_kind : (k : EventKind) → kind_is_finish k ≡ true → k ≡ step_finish
unfolding kind_is_finish
finish_kind step_finish h = refl
finish_kind step_start h = cc
finish_kind spoken h = cc
finish_kind tool_use h = cc
finish_kind unknown h = cc

is_use_kind : (e : OpencodeEvent) → is_use e ≡ kind_is_use (kind_of e.kind)
unfolding is_use kind_of kind_is_use
is_use_kind e = elim (Bool-cases (str_eq e.kind "tool_use")) [
  | inl yes_use ↦ rw ((eq_iff e.kind "tool_use").0 yes_use) refl
  | inr other ↦ ground arith
]

is_finish_kind : (e : OpencodeEvent) → is_finish e ≡ kind_is_finish (kind_of e.kind)
unfolding is_finish kind_of kind_is_finish
is_finish_kind e = elim (Bool-cases (str_eq e.kind "step_finish")) [
  | inl yes_finish ↦ rw ((eq_iff e.kind "step_finish").0 yes_finish) refl
  | inr other ↦ ground arith
]

module _ (read_display : Value → Option ToolDisplay) where
  -- The steps of the tools that are used in the events, in their order.
  unfoldable pub tools_of : List OpencodeEvent → List StepDetail
  tools_of [] = []
  tools_of (e ∷ es) =
      let rest = tools_of es in if is_use e then tool_step read_display e ∷ rest else rest

  -- The steps belong to the events: each end of a step gives a generation that ends with it, followed by
  -- the steps of the tools used since the end before it, under the names that it lists. Events after the last end give no step.
  pub data IsOf : List StepDetail → List OpencodeEvent → Type 0 where
    unfinished :
        {steps : List StepDetail} {events : List OpencodeEvent}
        → All NotFinish events
        → steps ≡ []
        → IsOf steps events
    finished :
        {steps : List StepDetail} {events : List OpencodeEvent} (before : List OpencodeEvent)
        (finish : OpencodeEvent) (later : List OpencodeEvent) (g : StepDetail)
        (more : List StepDetail)
        → All NotFinish before
        → is_finish finish ≡ true
        → IsGroup g (tools_of before)
        → g.end_ms ≡ finish.timestamp
        → IsOf more later
        → steps ≡ g ∷ (tools_of before ++ more)
        → events ≡ before ++ (finish ∷ later)
        → IsOf steps events

  own : OpencodeEvent → EventKind → List StepDetail
  own e tool_use = tool_step read_display e ∷ []
  own e step_start = []
  own e spoken = []
  own e step_finish = []
  own e unknown = []

  tools_of-append_one :
      (before : List OpencodeEvent) (e : OpencodeEvent)
      → tools_of (before ++ (e ∷ [])) ≡ tools_of before ++ own e (kind_of e.kind)
  unfolding tools_of kind_is_use own
  tools_of-append_one [] e = rw (is_use_kind e) (go (kind_of e.kind))
    where
      go : (k : EventKind) → (if kind_is_use k then tool_step read_display e ∷ [] else []) ≡ own e k
      go tool_use = refl
      go step_start = refl
      go spoken = refl
      go step_finish = refl
      go unknown = refl
  tools_of-append_one (b ∷ before) e = elim (Bool-cases (is_use b)) [
    | inl use_ ↦ rw (use_, tools_of-append_one before e) refl
    | inr other ↦ rw (other, tools_of-append_one before e) refl
  ]

  tools_of-IsTool : (events : List OpencodeEvent) → All IsTool (tools_of events)
  unfolding tools_of
  tools_of-IsTool [] = tt
  tools_of-IsTool (e ∷ es) = elim (Bool-cases (is_use e)) [
    | inl use_ ↦ rw use_ (tool_step-IsTool read_display e, tools_of-IsTool es)
    | inr other ↦ rw other (tools_of-IsTool es)
  ]

  module _ {F : Type 0} where
    -- What an event that ends no step leaves.
    record Goes (s : OpencodeState F) (own_steps : List StepDetail) (s' : OpencodeState F)
        : Type 0 where
      same_steps : s'.result.steps ≡ s.result.steps
      pending : s'.pending_tools ≡ s.pending_tools ++ own_steps

    dispatch-Goes :
        (e : OpencodeEvent) (k : EventKind) (s : OpencodeState F)
        → kind_is_finish k ≡ false
        → Goes s (own e k) (dispatch read_display e k s)
    unfolding dispatch on_text own kind_is_finish
    dispatch-Goes e step_start s h = record {
      same_steps = refl;
      pending = sym (append-nil s.pending_tools);
    }
    dispatch-Goes e spoken s h = record {
      same_steps = refl;
      pending = sym (append-nil s.pending_tools);
    }
    dispatch-Goes e tool_use s h = record { same_steps = refl; pending = refl }
    dispatch-Goes e step_finish s h = cc
    dispatch-Goes e unknown s h = record {
      same_steps = refl;
      pending = sym (append-nil s.pending_tools);
    }

    with_session-Goes : (id : String) (s : OpencodeState F) → Goes s [] (with_session id s)
    unfolding with_session
    with_session-Goes id s =
        elim (Bool-cases (str_eq s.result.session_id "" && not (str_eq id ""))) [
          | inl first ↦
              rw first (record { same_steps = refl; pending = sym (append-nil s.pending_tools) })
          | inr later ↦
              rw later (record { same_steps = refl; pending = sym (append-nil s.pending_tools) })
        ]

    step : OpencodeEvent → OpencodeState F → OpencodeState F
    step e s = dispatch read_display e (kind_of e.kind) (with_session e.session_id s)

    step-Goes :
        (e : OpencodeEvent) (s : OpencodeState F)
        → is_finish e ≡ false
        → Goes s (own e (kind_of e.kind)) (step e s)
    unfolding step
    step-Goes e s h =
        let first = with_session-Goes e.session_id s in
        let then_ =
          dispatch-Goes e (kind_of e.kind) (with_session e.session_id s)
            (sym (is_finish_kind e) ∙ h) in
        record {
          same_steps = then_.same_steps ∙ first.same_steps;
          pending =
              then_.pending
              ∙ ap (λ p. p ++ own e (kind_of e.kind)) (first.pending ∙ append-nil s.pending_tools);
        }

    record Ends (e : OpencodeEvent) (s s' : OpencodeState F) : Type 0 where
      g : StepDetail
      group :
          (tools : List StepDetail) → tools ≡ s.pending_tools → All IsTool tools → IsGroup g tools
      at_end : g.end_ms ≡ e.timestamp
      all_steps : s'.result.steps ≡ s.result.steps ++ (g ∷ s.pending_tools)
      none_pending : s'.pending_tools ≡ []

    finish-Ends :
        (e : OpencodeEvent) (s : OpencodeState F) → Ends e s (dispatch read_display e step_finish s)
    unfolding dispatch on_step_finish generation_step
    finish-Ends e s = record {
      g = generation_step e s;
      group = λ tools same are_tools. record {
        is_generation = refl;
        called = ap names same;
        are_tools = are_tools;
      };
      at_end = refl;
      all_steps = refl;
      none_pending = refl;
    }

    step-Ends : (e : OpencodeEvent) (s : OpencodeState F) → is_finish e ≡ true → Ends e s (step e s)
    unfolding step
    step-Ends e s h =
        let first = with_session-Goes e.session_id s in
        let same = first.pending ∙ append-nil s.pending_tools in
        let last = finish-Ends e (with_session e.session_id s) in
        rw (finish_kind (kind_of e.kind) (sym (is_finish_kind e) ∙ h)) (record {
          g = last.g;
          group = λ tools is_same. last.group tools (is_same ∙ sym same);
          at_end = last.at_end;
          all_steps =
              last.all_steps
              ∙ ap (λ t. t ++ (last.g ∷ (with_session e.session_id s).pending_tools))
                  first.same_steps
              ∙ ap (λ p. s.result.steps ++ (last.g ∷ p)) same;
          none_pending = last.none_pending;
        })

    -- Events read before, whose tools are pending, and those to come give the steps to come.
    run_events-IsOf :
        (events before : List OpencodeEvent) (s : OpencodeState F)
        → s.pending_tools ≡ tools_of before
        → All NotFinish before
        → (more : List StepDetail) × ((run_events read_display events s).result.steps
            ≡ s.result.steps ++ more)
          × IsOf more (before ++ events)
    unfolding run_events step tools_of
    run_events-IsOf [] before s pending open_ =
        ([], sym (append-nil s.result.steps), unfinished (rw (append-nil before) open_) refl)
    run_events-IsOf (e ∷ es) before s pending open_ = elim (Bool-cases (is_finish e)) [
      | inl ends ↦
          let now = step-Ends e s ends in
          let (more, e1, of_) = run_events-IsOf es [] (step e s) now.none_pending tt in
          (
            now.g ∷ (tools_of before ++ more),
            e1
                ∙ ap (λ t. t ++ more) now.all_steps
                ∙ append_assoc s.result.steps (now.g ∷ s.pending_tools) more
                ∙ ap (λ p. s.result.steps ++ (now.g ∷ (p ++ more))) pending,
            finished before e es now.g more open_ ends
                (now.group (tools_of before) (sym pending) (tools_of-IsTool before)) now.at_end of_
                refl refl,
          )
      | inr goes_on ↦
          let now = step-Goes e s goes_on in
          let (more, e1, of_) =
            run_events-IsOf es (before ++ (e ∷ [])) (step e s)
              (now.pending
                ∙ ap (λ p. p ++ own e (kind_of e.kind)) pending
                ∙ sym (tools_of-append_one before e))
              (All-append NotFinish before (e ∷ []) open_ (goes_on, tt)) in
          (
            more,
            e1 ∙ ap (λ t. t ++ more) now.same_steps,
            subst (IsOf more) (append_assoc before (e ∷ []) es) of_,
          )
    ]

-- The steps belong to the events: each `step_finish` event gives a generation that ends at its time, followed by the
-- steps of exactly the `tool_use` events since the `step_finish` before it, in their order and under the names that
-- the generation lists; the events after the last `step_finish` give no steps.
pub parse_opencode_json-IsOf :
    (F : Type 0) (read_display : Value → Option ToolDisplay) (events : List OpencodeEvent)
    → IsOf read_display (parse_opencode_json {F = F} read_display events).steps events
unfolding parse_opencode_json
parse_opencode_json-IsOf F read_display events =
    let (more, e, of_) =
      run_events-IsOf read_display {F = F} events [] initial (unfold tools_of in refl) tt in
    subst (λ steps. IsOf read_display steps events) (sym e) of_
