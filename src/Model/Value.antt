-- ===== src/Model/Value.antt =====
-- Values of type `any`: decoded JSON, and the maps and slices that the program itself stores there.
use trimetry.Base.{
  String, Bool, true, false, Option, none, some, List, [], ◌∷◌, if◌then◌else◌, str_eq,
}

-- `null` is the nil interface. A JSON number, which no code reads, is kept as its text.
mutual
  pub data Value : Type 0 where
    null : Value
    boolean : Bool → Value
    number : String → Value
    text : String → Value
    list : Values → Value
    object : Fields → Value

  pub data Values : Type 0 where
    nil : Values
    cons : Value → Values → Values

  pub data Fields : Type 0 where
    end : Fields
    field : String → Value → Fields → Fields

abbrev pub values : List Value → Values
values [] = nil
values (v ∷ vs) = cons v (values vs)

abbrev pub texts : List String → Value
texts ss = list (go ss)
  where
    go : List String → Values
    go [] = nil
    go (s ∷ rest) = cons (text s) (go rest)

-- v == nil
abbrev pub is_null : Value → Bool
is_null null = true
is_null _ = false

-- v, ok := m[key]
unfoldable pub member : String → Fields → Option Value
member key end = none
member key (field k v fs) = if str_eq k key then some v else member key fs

-- m[key] = v
unfoldable pub put : String → Value → Fields → Fields
put key v end = field key v end
put key v (field k w fs) = if str_eq k key then field key v fs else field k w (put key v fs)

-- s, ok := v.(string)
abbrev pub as_text : Value → Option String
as_text (text s) = some s
as_text _ = none
