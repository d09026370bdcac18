-- ===== src/Telemetry/Langfuse/Trials.antt =====
-- internal/telemetry/langfuse.go: what the adapter does when a trial starts and when it ends.
pub mod Scores
use trimetry.Base.{
  ℕ, zero, suc, ◌+◌, String, Bool, true, false, Option, none, some, List, [], ◌∷◌, ◌++◌,
  if◌then◌else◌, str_eq, ◌==◌,
}
use trimetry.Base.Clock.{Time}
use trimetry.Base.Dict.{Dict, lookup, insert, remove}
use trimetry.Base.Float.{FloatOps}
use trimetry.Model.Trial.{EvaluationResult}
use trimetry.Telemetry.Types.{TrialContext, TrialResult}
use trimetry.Telemetry.Langfuse.Ingestion.{IngestionEvent}
use trimetry.Telemetry.Langfuse.State.{ResolvedTrace, no_trace, LangfuseAdapter}
use trimetry.Telemetry.Langfuse.Queue.{add_event}

pub record Observation : Type 0 where
  pub id : String
  pub trace_id : String
  pub session_id : String

-- The answer to a lookup: none, or a status with the observations, if they can be decoded.
pub data LookupReply : Type 0 where
  no_response : LookupReply
  response : (status_code : ℕ) (found : Option (List Observation)) → LookupReply

-- The server and the clock, as far as they are asked. `lookup n` is the answer to the n-th lookup,
-- `create_config` the ID that the server gives a new score configuration, `none` if the request
-- fails or its answer is no JSON, and `event_id n` the n-th answer of `id.NewEventID`.
pub record Api : Type 0 where
  pub lookup : ℕ → String → LookupReply
  pub create_config : String → Option String
  pub event_id : ℕ → String
  pub now : Time

first_observation : String → List Observation → ResolvedTrace
first_observation session_id [] = no_trace
first_observation session_id (obs ∷ _) =
    if str_eq obs.session_id session_id
    then record { trace_id = obs.trace_id; root_span_id = obs.id }
    else no_trace

unfoldable pub lookup_trace_by_session : LookupReply → String → ResolvedTrace
unfolding first_observation
lookup_trace_by_session no_response session_id = no_trace
lookup_trace_by_session (response status_code none) session_id = no_trace
lookup_trace_by_session (response status_code (some found)) session_id =
    if status_code == 200 then first_observation session_id found else no_trace

-- The loop of lookups, with `left` to go: the first that finds a trace ends it.
unfoldable pub lookup_loop : Api → ℕ → ℕ → String → ResolvedTrace
unfolding lookup_trace_by_session
lookup_loop api zero n session_id = no_trace
lookup_loop api (suc left) n session_id =
    let resolved = lookup_trace_by_session (api.lookup n session_id) session_id in
    let later = lookup_loop api left (suc n) session_id in
    if str_eq resolved.trace_id "" then later else resolved

module _ {F : Type 0} where
  unfoldable pub start_trial : TrialContext → LangfuseAdapter F → LangfuseAdapter F
  start_trial tc a = record a { trial_contexts = insert tc.trial_id tc a.trial_contexts }

  cache_trace : String → ResolvedTrace → LangfuseAdapter F → LangfuseAdapter F
  cache_trace session_id resolved a =
      if str_eq resolved.trace_id ""
      then a
      else record a { trace_cache = insert session_id resolved a.trace_cache }

  unfoldable pub resolve_trace :
      Api → TrialResult F → LangfuseAdapter F → ResolvedTrace × LangfuseAdapter F
  unfolding cache_trace
  resolve_trace api result a =
      if str_eq result.session_id ""
      then (no_trace, a)
      else elim (lookup result.session_id a.trace_cache) [
        | some cached ↦ (cached, a)
        | none ↦
            let resolved = lookup_loop api 10 0 result.session_id in
            (resolved, cache_trace result.session_id resolved a)
      ]

  unfoldable pub ensure_score_config : Api → String → LangfuseAdapter F → String × LangfuseAdapter F
  ensure_score_config api name a = elim (lookup name a.score_configs) [
    | some cid ↦ (cid, a)
    | none ↦ elim (api.create_config name) [
      | none ↦ ("", a)
      | some cid ↦ (cid, record a { score_configs = insert name cid a.score_configs })
    ]
  ]

  -- The score's event, with the `n`-th and the next ID.
  score_event : Api → ℕ → String → String → EvaluationResult F → F → IngestionEvent F
  score_event api n trace_id config_id eval score = record {
    id = api.event_id (suc n);
    kind = "score-create";
    timestamp = api.now;
    body = record {
      id = api.event_id n;
      trace_id = trace_id;
      name = eval.evaluator_name;
      value = score;
      comment = eval.reason;
      data_type = "NUMERIC";
      config_id = config_id;
      observation_id = "";
    };
  }

  -- It is called with a score that is not nil.
  unfoldable pub add_score :
      Api → ℕ → String → EvaluationResult F → F → LangfuseAdapter F → LangfuseAdapter F
  unfolding score_event
  add_score api n trace_id eval score a =
      let (config_id, a') = ensure_score_config api eval.evaluator_name a in
      add_event (score_event api n trace_id config_id eval score) a'

  add_scored :
      Api → ℕ → String → EvaluationResult F → Option F → LangfuseAdapter F → LangfuseAdapter F
  add_scored api n trace_id eval none a = a
  add_scored api n trace_id eval (some score) a = add_score api n trace_id eval score a

  abbrev pub next_id : ℕ → Option F → ℕ
  next_id n none = n
  next_id n (some score) = n + 2

  -- The loop over the evaluations.
  unfoldable pub add_scores :
      Api → ℕ → String → List (EvaluationResult F) → LangfuseAdapter F → LangfuseAdapter F
  unfolding add_scored
  add_scores api n trace_id [] a = a
  add_scores api n trace_id (eval ∷ evals) a =
      add_scores api (next_id n eval.score) trace_id evals
        (add_scored api n trace_id eval eval.score a)

  -- The trial's trace: a new one that `direct` makes, which is `createDirectTrace`, or one found.
  unfoldable pub resolve :
      Api
      → (direct : TrialResult F → ResolvedTrace) → TrialResult F
      → LangfuseAdapter F
      → ResolvedTrace × LangfuseAdapter F
  unfolding resolve_trace
  resolve api direct result a =
      if str_eq result.adapter_name "claude" then (direct result, a) else resolve_trace api result a

  unfoldable pub forget_context : String → LangfuseAdapter F → LangfuseAdapter F
  forget_context trial_id a = record a { trial_contexts = remove trial_id a.trial_contexts }

  -- The annotation of a trace that is found is one more request, which changes nothing here.
  unfoldable pub finish_trial :
      Api
      → (direct : TrialResult F → ResolvedTrace) → TrialResult F
      → LangfuseAdapter F
      → LangfuseAdapter F
  unfolding add_scores forget_context
  finish_trial api direct result a =
      let (resolved, b) = resolve api direct result (forget_context result.trial_id a) in
      if str_eq resolved.trace_id ""
      then b
      else add_scores api 0 resolved.trace_id result.evaluations b
