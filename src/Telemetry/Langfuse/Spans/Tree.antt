-- ===== src/Telemetry/Langfuse/Spans/Tree.antt =====
-- The spans of a trial (internal/telemetry/langfuse.go) form one tree.
use trimetry.Base.{
  ℕ, suc, ◌+◌, ◌≡◌, refl, ap, String, Bool, true, Option, none, some, List, [], ◌∷◌, arith, str_eq,
  eq_refl, any, length,
}
use trimetry.Adapter.Types.{StepDetail, StepType, generation, tool}
use trimetry.Telemetry.Types.{TrialResult}
use trimetry.Telemetry.Langfuse.Spans.{Span, step_span, step_spans, direct_spans}

abbrev pub known : List String → String → Bool
known seen id = any (str_eq id) seen

abbrev ParentKnown : List String → Option String → Type 0
ParentKnown seen none = ⊥
ParentKnown seen (some p) = known seen p ≡ true

-- Each span has a parent among the spans before it, whose IDs are `seen` at first.
abbrev pub HasParents : List String → List Span → Type 0
HasParents seen [] = Unit
HasParents seen (s ∷ ss) = ParentKnown seen s.parent_span_id × HasParents (s.span_id ∷ seen) ss

-- One root, which stands first, and below it only spans whose parents stand before them.
abbrev pub IsTree : List Span → Type 0
IsTree [] = ⊥
IsTree (s ∷ ss) = (s.parent_span_id ≡ none) × HasParents (s.span_id ∷ []) ss

abbrev GenerationKnown : List String → Option String → Type 0
GenerationKnown seen none = Unit
GenerationKnown seen (some g) = known seen g ≡ true

-- One step keeps both: the turn is known, and so is the generation that tools belong to.
step_span-known :
    (name turn id : String) (current : Option String) (seen : List String) (step : StepDetail)
    (kind : StepType)
    → known seen turn ≡ true
    → GenerationKnown seen current
    → ParentKnown seen (step_span name turn current id step kind).0.parent_span_id
      × GenerationKnown
          ((step_span name turn current id step kind).0.span_id ∷ seen)
          (step_span name turn current id step kind).1
unfolding step_span
step_span-known name turn id current seen step generation h g = (h, ground (arith, eq_refl id))
step_span-known name turn id none seen step tool h g = (h, tt)
step_span-known name turn id (some c) seen step tool h g = (g, ground (arith, g))

known_cons : (seen : List String) (id p : String) → known seen p ≡ true → known (id ∷ seen) p ≡ true
known_cons seen id p h = ground arith

step_span_id :
    (name turn id : String) (current : Option String) (step : StepDetail) (kind : StepType)
    → (step_span name turn current id step kind).0.span_id ≡ id
unfolding step_span
step_span_id name turn id current step generation = refl
step_span_id name turn id current step tool = refl

step_spans-HasParents :
    (hex_id : ℕ → String) (name turn : String) (current : Option String) (n : ℕ)
    (seen : List String) (steps : List StepDetail)
    → known seen turn ≡ true
    → GenerationKnown seen current
    → HasParents seen (step_spans hex_id name turn current n steps)
unfolding step_spans
step_spans-HasParents hex_id name turn current n seen [] h g = tt
step_spans-HasParents hex_id name turn current n seen (step ∷ steps) h g =
    let s = step_span name turn current (hex_id n) step step.kind in
    let now = step_span-known name turn (hex_id n) current seen step step.kind h g in
    (
      now.0,
      step_spans-HasParents hex_id name turn s.1 (suc n) (s.0.span_id ∷ seen) steps
          (known_cons seen s.0.span_id turn h) now.1,
    )

length-step_spans :
    (hex_id : ℕ → String) (name turn : String) (current : Option String) (n : ℕ)
    (steps : List StepDetail)
    → length (step_spans hex_id name turn current n steps) ≡ length steps
unfolding step_spans
length-step_spans hex_id name turn current n [] = refl
length-step_spans hex_id name turn current n (step ∷ steps) = ap suc (
    length-step_spans hex_id name turn (step_span name turn current (hex_id n) step step.kind).1
      (suc n) steps)

-- The trace of a trial is one tree: the turn is its only root, and every other span has its parent
-- before it. It has a span for each step, and two more.
pub direct_spans-IsTree :
    {F : Type 0} (hex_id : ℕ → String) (result : TrialResult F) (steps : List StepDetail)
    → IsTree (direct_spans hex_id result steps)
      × (length (direct_spans hex_id result steps) ≡ length steps + 2)
unfolding direct_spans
direct_spans-IsTree hex_id result steps =
    let turn_known : known (hex_id 2 ∷ hex_id 1 ∷ []) (hex_id 1) ≡ true =
      ground (arith, eq_refl (hex_id 1)) in
    (
      (
        refl,
        (
          ground (arith, eq_refl (hex_id 1)),
          step_spans-HasParents hex_id result.adapter_name (hex_id 1) none 3
              (hex_id 2 ∷ hex_id 1 ∷ []) steps turn_known tt,
        ),
      ),
      omega (arith, length-step_spans hex_id result.adapter_name (hex_id 1) none 3 steps),
    )
