-- ===== src/Display/Grouping.antt =====
-- internal/ui/display.go: formatNumber, and reading back what it makes.
use Prim.Native.Char.{Char, code}
use text.Mathlib.TextBridge.{to_list, to_list-of_list}
use trimetry.Base.{
  ℕ, zero, suc, ◌-◌, ◌≤◌, ◌<◌, String, Bool, true, false, not, ◌≡◌, refl, sym, ap, ◌∙◌, List, [],
  ◌∷◌, ◌++◌, length, take, drop, take-append-drop, length-take, length-drop, append-nil,
  append_assoc, select, all, ltb, leb, ltb→lt, leb→le, All, ◌==◌, arith, inl, inr, Bool-cases,
  if◌then◌else◌, concat,
}
use trimetry.Base.Int.{ℤ, pos, negsuc}
use trimetry.Base.Decimal.{digits, is_digit, read_from, read_from-digits, all-digits}
use trimetry.Display.Format.{split_groups, with_commas, group_digits, format_number}

is_comma : Char → Bool
is_comma c = code c == b','

is_minus : Char → Bool
is_minus c = code c == b'-'

-- The number that a text spells, whatever commas are in it.
abbrev negated : ℕ → ℤ
negated zero = pos 0
negated (suc n) = negsuc n

read_signed : List Char → ℤ
read_signed [] = pos 0
read_signed (c ∷ cs) = if is_minus c then negated (read_from 0 cs) else pos (read_from 0 (c ∷ cs))

unfoldable pub read_number : String → ℤ
unfolding is_comma is_minus read_signed
read_number s = read_signed (select (λ c. not (is_comma c)) (to_list s))

without_commas : List Char → List Char
without_commas s = select (λ c. not (is_comma c)) s

select-append :
    (p : Char → Bool) (xs ys : List Char) → select p (xs ++ ys) ≡ select p xs ++ select p ys
select-append p [] ys = refl
select-append p (x ∷ xs) ys = elim (Bool-cases (p x)) [
  | inl e ↦ rw (e, select-append p xs ys) refl
  | inr e ↦ rw (e, select-append p xs ys) refl
]

without_commas-digits : (s : List Char) → all is_digit s ≡ true → without_commas s ≡ s
unfolding without_commas is_comma is_digit
without_commas-digits [] h = refl
without_commas-digits (c ∷ s) h =
    let none_here : (code c == b',') ≡ false = ground arith in
    let rest : all is_digit s ≡ true = ground arith in
    rw none_here (ap (λ t. c ∷ t) (without_commas-digits s rest))

concat-no_rounds :
    (s : List Char) (parts : List (List Char))
    → concat (split_groups zero s parts) ≡ s ++ concat parts
unfolding split_groups
concat-no_rounds s parts = refl

without_commas-append :
    (s t : List Char) → without_commas (s ++ t) ≡ without_commas s ++ without_commas t
unfolding without_commas
without_commas-append s t = select-append (λ c. not (is_comma c)) s t

-- Commas are put between the groups and nowhere else.
without_commas-groups :
    (groups : List (List Char))
    → without_commas (with_commas groups) ≡ without_commas (concat groups)
unfolding with_commas without_commas is_comma
without_commas-groups [] = refl
without_commas-groups (g ∷ []) = rw (append-nil g) refl
without_commas-groups (g ∷ h ∷ rest) =
    without_commas-append g ("," ∷ with_commas (h ∷ rest))
    ∙ ap (λ t. without_commas g ++ t) (without_commas-groups (h ∷ rest))
    ∙ sym (without_commas-append g (h ++ concat rest))

split_short :
    (rounds : ℕ) (s : List Char) (parts : List (List Char))
    → ltb 3 (length s) ≡ false
    → split_groups (suc rounds) s parts ≡ s ∷ parts
unfolding split_groups
split_short rounds s parts h = ground arith

split_long :
    (rounds : ℕ) (s : List Char) (parts : List (List Char))
    → ltb 3 (length s) ≡ true
    → split_groups (suc rounds) s parts
      ≡ split_groups rounds (take (length s - 3) s) (drop (length s - 3) s ∷ parts)
unfolding split_groups
split_long rounds s parts h = ground arith

concat-split_groups :
    (rounds : ℕ) (s : List Char) (parts : List (List Char))
    → concat (split_groups rounds s parts) ≡ s ++ concat parts
concat-split_groups zero s parts = concat-no_rounds s parts
concat-split_groups (suc rounds) s parts = elim (Bool-cases (ltb 3 (length s))) [
  | inl e ↦
      let k = length s - 3 in
      ap concat (split_long rounds s parts e)
      ∙ concat-split_groups rounds (take k s) (drop k s ∷ parts)
      ∙ sym (append_assoc (take k s) (drop k s) (concat parts))
      ∙ ap (λ t. t ++ concat parts) (take-append-drop k s)
  | inr e ↦ ap concat (split_short rounds s parts e)
]

without_commas-group_digits : (s : List Char) → without_commas (group_digits s) ≡ without_commas s
unfolding group_digits
without_commas-group_digits s = elim (Bool-cases (leb (length s) 3)) [
  | inl e ↦ rw e refl
  | inr e ↦ rw e (
      without_commas-groups (split_groups (length s) s [])
      ∙ ap without_commas (concat-split_groups (length s) s [] ∙ append-nil s))
]

read_signed-spelled :
    (s : List Char) (n : ℕ) → all is_digit s ≡ true → read_from 0 s ≡ n → read_signed s ≡ pos n
unfolding read_signed is_minus is_digit read_from
read_signed-spelled [] n h e = ap pos e
read_signed-spelled (c ∷ s) n h e =
    let unsigned : (code c == b'-') ≡ false = ground arith in rw unsigned (ap pos e)

plain_digits : (n : ℕ) → without_commas (group_digits (digits n)) ≡ digits n
plain_digits n =
    without_commas-group_digits (digits n) ∙ without_commas-digits (digits n) (all-digits n)

-- Reading back what formatNumber makes of an `int64`, leaving out its commas, gives the number.
pub read_number-format_number : (n : ℤ) → read_number (format_number n) ≡ n
unfolding read_number format_number read_signed is_comma is_minus without_commas
read_number-format_number (pos n) =
    ap (λ s. read_signed (without_commas s)) (to_list-of_list (group_digits (digits n)))
    ∙ ap read_signed (plain_digits n)
    ∙ read_signed-spelled (digits n) n (all-digits n) (read_from-digits n)
read_number-format_number (negsuc n) =
    ap (λ s. read_signed (without_commas s)) (to_list-of_list ("-" ∷ group_digits (digits (suc n))))
    ∙ ap (λ s. negated (read_from 0 s)) (plain_digits (suc n))
    ∙ ap negated (read_from-digits (suc n))

abbrev IsTriple : List Char → Type 0
IsTriple part = length part ≡ 3

-- One to three characters, and then three in each group.
unfoldable pub IsGrouped : List (List Char) → Type 0
IsGrouped [] = ⊥
IsGrouped (first ∷ rest) = (0 < length first) × (length first ≤ 3) × All IsTriple rest

split_groups-IsGrouped :
    (rounds : ℕ) (s : List Char) (parts : List (List Char))
    → 0 < length s
    → length s ≤ rounds
    → All IsTriple parts
    → IsGrouped (split_groups rounds s parts)
unfolding IsGrouped
split_groups-IsGrouped zero s parts p h k = absurd (omega arith)
split_groups-IsGrouped (suc rounds) s parts p h k = elim (Bool-cases (ltb 3 (length s))) [
  | inl e ↦
      let big = ltb→lt 3 (length s) e in
      let cut = length s - 3 in
      let size = length-take cut s in
      rw (split_long rounds s parts e) (
        split_groups-IsGrouped rounds (take cut s) (drop cut s ∷ parts) (omega (arith, size, big))
          (omega (arith, size, big)) (omega (arith, length-drop cut s, big), k))
  | inr e ↦ rw (split_short rounds s parts e) (p, ground arith, k)
]

-- Digits are grouped by threes from the right: what is printed are groups with a comma between any two, the first
-- of one to three characters and all others of three, that make up the digits in their order.
pub group_digits-IsGrouped :
    (s : List Char)
    → 0 < length s
    → (groups : List (List Char)) × (group_digits s ≡ with_commas groups)
      × (concat groups ≡ s)
      × IsGrouped groups
unfolding group_digits with_commas IsGrouped
group_digits-IsGrouped s p = elim (Bool-cases (leb (length s) 3)) [
  | inl e ↦ (s ∷ [], rw e refl, append-nil s, (p, leb→le (length s) 3 e, tt))
  | inr e ↦ (
    split_groups (length s) s [],
    rw e refl,
    concat-split_groups (length s) s [] ∙ append-nil s,
    split_groups-IsGrouped (length s) s [] p (omega arith) tt,
  )
]
