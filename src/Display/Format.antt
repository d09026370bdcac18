-- ===== src/Display/Format.antt =====
-- internal/ui/display.go: widths, durations and numbers as texts.
use Prim.Native.Char.{Char}
use Prim.Native.String.{count, ◌++◌ as str_append}
use text.Mathlib.TextBridge.{of_list}
use trimetry.Base.{
  ℕ, zero, suc, ◌-◌, ◌/◌, ◌%◌, String, true, false, List, [], ◌∷◌, ◌++◌, length, take, drop, ltb,
  leb, if◌then◌else◌,
}
use trimetry.Base.Text.{join}
use trimetry.Base.Int.{ℤ, pos, negsuc, ltb_ℤ}
use trimetry.Base.Clock.{Time, milliseconds}
use trimetry.Base.Float.{FloatOps}
use trimetry.Base.Decimal.{digits, decimal}

-- What `fmt` and `time` make of numbers that are no integers, and of instants.
pub record Formats (ops : FloatOps) : Type 0 where
  -- "%.nf"
  pub fixed : ℕ → ops.Float → String
  -- `int64(x)`
  pub truncate : ops.Float → ℤ
  -- `d.Seconds()`, and `int(d.Seconds())`, `int(d.Minutes())` of a duration that is not negative
  pub seconds : ℤ → ops.Float
  -- `t.Format(layout)`
  pub time : (layout : String) → Time → String

-- strings.Repeat(s, n)
unfoldable pub repeat : String → ℕ → String
repeat s zero = ""
repeat s (suc n) = str_append s (repeat s n)

-- strings.Join(parts, sep)
unfoldable pub join_with : String → List String → String
join_with sep [] = ""
join_with sep (s ∷ []) = s
join_with sep (s ∷ t ∷ rest) = str_append s (str_append sep (join_with sep (t ∷ rest)))

abbrev pub display_width : String → ℕ
display_width s = count s

unfoldable pub pad : String → ℕ → String
unfolding repeat
pad s width =
    let w = display_width s in if leb width w then s else str_append s (repeat " " (width - w))

-- time.Second and time.Minute
abbrev second : ℕ
second = 1_000_000_000

abbrev minute : ℕ
minute = 60_000_000_000

-- "%02d" of a number below sixty
unfoldable pub two_digits : ℕ → String
two_digits n = if ltb n 10 then str_append "0" (decimal n) else decimal n

module _ {ops : FloatOps} (formats : Formats ops) where
  unfoldable pub format_duration : ℤ → String
  unfolding two_digits
  format_duration d =
      if ltb_ℤ d (pos second)
      then str_append (formats.fixed 0 (ops.of_int (milliseconds d))) "ms"
      else if ltb_ℤ d (pos minute)
      then str_append (formats.fixed 1 (formats.seconds d)) "s"
      else elim d [
        | pos n ↦ join (decimal (n / minute) ∷ "m" ∷ two_digits (n / second % 60) ∷ "s" ∷ [])
        | negsuc n ↦ ""
      ]

  -- time.Duration(x * float64(time.Millisecond))
  abbrev pub duration_of_ms : ops.Float → ℤ
  duration_of_ms x = formats.truncate (ops.mul x (ops.of_int (pos 1_000_000)))

  unfoldable pub format_ms : ops.Float → String
  format_ms x =
      if ops.lt x (ops.of_int (pos 1))
      then str_append (formats.fixed 2 x) "ms"
      else if ops.lt x (ops.of_int (pos 10))
      then str_append (formats.fixed 1 x) "ms"
      else format_duration (duration_of_ms x)

-- `for len(s) > 3`, which moves the last three characters in front of the parts. Each round shortens s, so as
-- many rounds as s has characters are enough.
unfoldable pub split_groups : ℕ → List Char → List (List Char) → List (List Char)
split_groups zero s parts = s ∷ parts
split_groups (suc rounds) s parts = elim (ltb 3 (length s)) [
  | true ↦ let k = length s - 3 in split_groups rounds (take k s) (drop k s ∷ parts)
  | false ↦ s ∷ parts
]

-- strings.Join(parts, ",")
unfoldable pub with_commas : List (List Char) → List Char
with_commas [] = []
with_commas (part ∷ []) = part
with_commas (part ∷ next ∷ parts) = part ++ ("," ∷ with_commas (next ∷ parts))

unfoldable pub group_digits : List Char → List Char
unfolding split_groups with_commas
group_digits s = if leb (length s) 3 then s else with_commas (split_groups (length s) s [])

unfoldable pub format_number : ℤ → String
unfolding group_digits
format_number (pos n) = of_list (group_digits (digits n))
format_number (negsuc n) = of_list ("-" ∷ group_digits (digits (suc n)))
