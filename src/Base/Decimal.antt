-- ===== src/Base/Decimal.antt =====
-- `fmt.Sprintf("%d", n)`: numbers in decimal, as lists of characters and as texts.
use Prim.Native.Char.{Char, code}
use Prim.Native.Nat.{ℕ, zero, suc, ◌+◌, ◌-◌, ◌*◌, ◌/◌, ◌%◌, ◌<◌, ◌≤◌}
use Prim.Native.String.{String}
use mathlib.Core.Path.{◌≡◌, refl, ap}
use mathlib.Core.Bool.{Bool, true, false, ◌&&◌}
use mathlib.Core.Logic.{inl, inr}
use mathlib.Core.List.{List, [], ◌∷◌, ◌++◌}
use native.Mathlib.Omega.{arith}
use text.Mathlib.TextBridge.{of_list}
use trimetry.Base.Tests.{ltb, leb, ltb→lt, Bool-cases}
use trimetry.Base.Lists.{all}
use trimetry.Base.Int.{ℤ, pos, negsuc}

-- The character of a digit below ten.
unfoldable pub digit : ℕ → Char
digit zero = "0"
digit (suc zero) = "1"
digit (suc (suc zero)) = "2"
digit (suc (suc (suc zero))) = "3"
digit (suc (suc (suc (suc zero)))) = "4"
digit (suc (suc (suc (suc (suc zero))))) = "5"
digit (suc (suc (suc (suc (suc (suc zero)))))) = "6"
digit (suc (suc (suc (suc (suc (suc (suc zero))))))) = "7"
digit (suc (suc (suc (suc (suc (suc (suc (suc zero)))))))) = "8"
digit (suc (suc (suc (suc (suc (suc (suc (suc (suc d))))))))) = "9"

-- With a bound on the number of digits.
unfoldable pub digits_within : ℕ → ℕ → List Char
digits_within zero n = []
digits_within (suc bound) n = elim (ltb n 10) [
  | true ↦ digit n ∷ []
  | false ↦ digits_within bound (n / 10) ++ (digit (n % 10) ∷ [])
]

unfoldable pub digits : ℕ → List Char
digits n = digits_within (suc n) n

unfoldable pub decimal : ℕ → String
decimal n = of_list (digits n)

unfoldable pub signed_decimal : ℤ → String
signed_decimal (pos n) = of_list (digits n)
signed_decimal (negsuc n) = of_list ("-" ∷ digits (suc n))

-- The number that digits spell after others that spell n.
unfoldable pub read_from : ℕ → List Char → ℕ
read_from n [] = n
read_from n (c ∷ cs) = read_from (n * 10 + (code c - 48)) cs

unfoldable pub is_digit : Char → Bool
is_digit c = leb 48 (code c) && leb (code c) 57

pub code-digit : (d : ℕ) → d < 10 → code (digit d) ≡ 48 + d
unfolding digit
code-digit zero h = refl
code-digit (suc zero) h = refl
code-digit (suc (suc zero)) h = refl
code-digit (suc (suc (suc zero))) h = refl
code-digit (suc (suc (suc (suc zero)))) h = refl
code-digit (suc (suc (suc (suc (suc zero))))) h = refl
code-digit (suc (suc (suc (suc (suc (suc zero)))))) h = refl
code-digit (suc (suc (suc (suc (suc (suc (suc zero))))))) h = refl
code-digit (suc (suc (suc (suc (suc (suc (suc (suc zero)))))))) h = refl
code-digit (suc (suc (suc (suc (suc (suc (suc (suc (suc d))))))))) h = omega arith

digits_none : (n : ℕ) → digits_within zero n ≡ []
unfolding digits_within
digits_none n = refl

digits_within_small : (bound n : ℕ) → ltb n 10 ≡ true → digits_within (suc bound) n ≡ digit n ∷ []
unfolding digits_within
digits_within_small bound n h = ground arith

digits_within_large :
    (bound n : ℕ)
    → ltb n 10 ≡ false
    → digits_within (suc bound) n ≡ digits_within bound (n / 10) ++ (digit (n % 10) ∷ [])
unfolding digits_within
digits_within_large bound n h = ground arith

pub read_from-append :
    (n : ℕ) (xs ys : List Char) → read_from n (xs ++ ys) ≡ read_from (read_from n xs) ys
unfolding read_from
read_from-append n [] ys = refl
read_from-append n (c ∷ xs) ys = read_from-append (n * 10 + (code c - 48)) xs ys

-- One digit more than the number is always enough.
pub read_from-digits_within : (bound n : ℕ) → n < bound → read_from 0 (digits_within bound n) ≡ n
unfolding read_from
read_from-digits_within zero n h = elim h [ ]
read_from-digits_within (suc bound) n h = elim (Bool-cases (ltb n 10)) [
  | inl e ↦ rw (digits_within_small bound n e) (omega (arith, code-digit n (ltb→lt n 10 e)))
  | inr e ↦
      rw (digits_within_large bound n e)
        let big : 10 ≤ n = ground arith in
          let last = code-digit (n % 10) (omega arith) in
          let before = read_from-digits_within bound (n / 10) (omega arith) in
          rw (read_from-append 0 (digits_within bound (n / 10)) (digit (n % 10) ∷ []), before)
            (omega (arith, last))
]

is_digit-digit : (d : ℕ) → d < 10 → is_digit (digit d) ≡ true
unfolding is_digit
is_digit-digit d h = rw (code-digit d h) (ground arith)

all-append :
    (p : Char → Bool) (xs ys : List Char)
    → all p xs ≡ true
    → all p ys ≡ true
    → all p (xs ++ ys) ≡ true
all-append p [] ys h k = k
all-append p (x ∷ xs) ys h k = ground (arith, all-append p xs ys)

are-digits : (bound n : ℕ) → all is_digit (digits_within bound n) ≡ true
are-digits zero n = ap (all is_digit) (digits_none n)
are-digits (suc bound) n = elim (Bool-cases (ltb n 10)) [
  | inl e ↦ rw (digits_within_small bound n e) (ground (arith, is_digit-digit n (ltb→lt n 10 e)))
  | inr e ↦ rw (digits_within_large bound n e) (
      all-append is_digit (digits_within bound (n / 10)) (digit (n % 10) ∷ [])
        (are-digits bound (n / 10)) (ground (arith, is_digit-digit (n % 10) (omega arith))))
]

pub read_from-digits : (n : ℕ) → read_from 0 (digits n) ≡ n
unfolding digits
read_from-digits n = read_from-digits_within (suc n) n (omega arith)

pub all-digits : (n : ℕ) → all is_digit (digits n) ≡ true
unfolding digits
all-digits n = are-digits (suc n) n
