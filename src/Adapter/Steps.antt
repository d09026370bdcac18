-- ===== src/Adapter/Steps.antt =====
-- How the steps of an execution are grouped (internal/adapter): each generation is followed by the
-- tools that it called.
use trimetry.Base.{
  ℕ, zero, suc, ◌≡◌, refl, ap, sym, ◌∙◌, String, some, List, [], ◌∷◌, ◌++◌, map, arith, get_elem?,
  set, All,
}
use trimetry.Adapter.Types.{StepDetail, generation, tool}

abbrev pub IsTool : StepDetail → Type 0
IsTool s = s.kind ≡ tool

abbrev pub names : List StepDetail → List String
names = map (λ s. s.name)

-- A generation with the tools that it called, in the order of the calls.
pub record IsGroup (g : StepDetail) (tools : List StepDetail) : Type 0 where
  pub is_generation : g.kind ≡ generation
  pub called : names tools ≡ g.tools_called
  pub are_tools : All IsTool tools

-- The steps are groups, one after the other.
pub data IsGrouped : List StepDetail → Type 0 where
  none_yet : {steps : List StepDetail} → steps ≡ [] → IsGrouped steps
  then_group :
      {steps : List StepDetail} (before : List StepDetail) (g : StepDetail)
      (tools : List StepDetail)
      → IsGrouped before
      → IsGroup g tools
      → steps ≡ before ++ (g ∷ tools)
      → IsGrouped steps

pub names-append : (xs ys : List StepDetail) → names (xs ++ ys) ≡ names xs ++ names ys
names-append [] ys = refl
names-append (x ∷ xs) ys = ap (λ t. x.name ∷ t) (names-append xs ys)

-- A tool's step may be replaced by one of the same name.
pub names-set :
    (ts : List StepDetail) (i : ℕ) (t t' : StepDetail)
    → get_elem? ts i ≡ some t
    → t'.name ≡ t.name
    → names (set ts i t') ≡ names ts
names-set [] i t t' h e = refl
names-set (x ∷ ts) zero t t' h e =
    let same : x ≡ t = ground arith in ap (λ n. n ∷ names ts) (e ∙ ap (λ s. s.name) (sym same))
names-set (x ∷ ts) (suc i) t t' h e = ap (λ l. x.name ∷ l) (names-set ts i t t' h e)

pub IsTool-set :
    (ts : List StepDetail) (i : ℕ) (t' : StepDetail)
    → IsTool t'
    → All IsTool ts
    → All IsTool (set ts i t')
IsTool-set [] i t' k h = tt
IsTool-set (x ∷ ts) zero t' k h = (k, h.1)
IsTool-set (x ∷ ts) (suc i) t' k h = (h.0, IsTool-set ts i t' k h.1)

pub IsTool-get_elem? :
    (ts : List StepDetail) (i : ℕ) (t : StepDetail)
    → get_elem? ts i ≡ some t
    → All IsTool ts
    → IsTool t
IsTool-get_elem? [] i t e h = cc
IsTool-get_elem? (x ∷ ts) zero t e h =
    let same : x ≡ t = ground arith in ap (λ s. s.kind) (sym same) ∙ h.0
IsTool-get_elem? (x ∷ ts) (suc i) t e h = IsTool-get_elem? ts i t e h.1
