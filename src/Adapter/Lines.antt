-- ===== src/Adapter/Lines.antt =====
-- internal/adapter/jsonlines.go: the lines of an agent's output, as decoded events.
use trimetry.Base.{String, Option, none, some, List, [], ◌∷◌, if◌then◌else◌, str_eq}

-- `lines` are those that the scanner gives, and `decode` is the JSON library. A line that is empty or
-- no JSON is passed over. The handler is a fold over the events.
unfoldable pub scan_json_lines {ℓ} :
    {T : Type ℓ} → (decode : String → Option T) → List String → List T
scan_json_lines decode [] = []
scan_json_lines decode (line ∷ lines) =
    let rest = scan_json_lines decode lines in
    if str_eq line "" then rest else elim (decode line) [ none ↦ rest | some event ↦ event ∷ rest ]
