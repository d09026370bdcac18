-- ===== src/Display/Bars.antt =====
-- internal/ui/display.go: how wide the bars and their labels are.
use Prim.Native.String.{count, ◌++◌ as str_append}
use native.Mathlib.Nat.{div-lt_iff_lt-mul, le-div_iff_mul-le}
use text.Mathlib.TextLemmas.{length-append as count-append}
use trimetry.Base.{
  ℕ, zero, suc, ◌-◌, ◌*◌, ◌/◌, ◌≤◌, ◌<◌, String, Bool, true, false, ◌≡◌, refl, none, some, ltb,
  ◌==◌, arith,
}
use trimetry.Display.Format.{repeat}
use trimetry.Display.State.{wrapped, ansi_green, ansi_dim}
use trimetry.Display.Progress.{progress_bar, bar_width}

pub count-repeat : (s : String) (n : ℕ) → count s ≡ 1 → count (repeat s n) ≡ n
unfolding repeat
count-repeat s zero h = refl
count-repeat s (suc n) h = omega (arith, count-append s (repeat s n), count-repeat s n h)

abbrev bar_text : Bool → ℕ → String
bar_text is_tty filled =
    str_append (wrapped is_tty ansi_green (repeat "█" filled))
      (wrapped is_tty ansi_dim (repeat "░" (bar_width - filled)))

bar_fits :
    (completed total : ℕ)
    → 0 < total
    → completed * 16 < 17 * total
    → completed * bar_width / total < 17
bar_fits completed total p h = (div-lt_iff_lt-mul p).1 h

bar_drawn :
    (is_tty : Bool) (completed total : ℕ)
    → 0 < total
    → completed * 16 < 17 * total
    → progress_bar is_tty completed total ≡ some (bar_text is_tty (completed * bar_width / total))
unfolding progress_bar
bar_drawn is_tty completed total p h =
    let small : ltb bar_width (completed * bar_width / total) ≡ false =
      ground (arith, bar_fits completed total p h) in
    let some_total : (total == 0) ≡ false = ground arith in rw (some_total, small) refl

bar_panics :
    (is_tty : Bool) (completed total : ℕ)
    → 0 < total
    → 17 * total ≤ completed * 16
    → progress_bar is_tty completed total ≡ none
unfolding progress_bar
bar_panics is_tty completed total p h =
    let large = (le-div_iff_mul-le {x = 17} {y = completed * bar_width} p).1 h in
    let over : ltb bar_width (completed * bar_width / total) ≡ true = ground (arith, large) in
    let some_total : (total == 0) ≡ false = ground arith in rw (some_total, over) refl

count-wrapped : (colour s : String) → count (wrapped false colour s) ≡ count s
count-wrapped colour s = omega (arith, count-append "" (str_append s ""), count-append s "")

count-bar_text : (filled : ℕ) → filled ≤ bar_width → count (bar_text false filled) ≡ bar_width
count-bar_text filled h = omega (
  arith,
  count-append (wrapped false ansi_green (repeat "█" filled))
      (wrapped false ansi_dim (repeat "░" (bar_width - filled))),
  count-wrapped ansi_green (repeat "█" filled),
  count-wrapped ansi_dim (repeat "░" (bar_width - filled)),
  count-repeat "█" filled refl,
  count-repeat "░" (bar_width - filled) refl,
)

-- A bar without colours is sixteen characters wide as long as what is completed exceeds the total, which is
-- positive, by less than a sixteenth; beyond that, drawing it panics.
pub progress_bar-width :
    (completed total : ℕ)
    → 0 < total
    → (completed * 16 < 17 * total
        → (bar : String) × (progress_bar false completed total ≡ some bar) × (count bar ≡ 16))
      × (17 * total ≤ completed * 16 → (is_tty : Bool) → progress_bar is_tty completed total ≡ none)
progress_bar-width completed total p = (
  λ h. (
    bar_text false (completed * bar_width / total),
    bar_drawn false completed total p h,
    count-bar_text (completed * bar_width / total) (omega (arith, bar_fits completed total p h)),
  ),
  λ h is_tty. bar_panics is_tty completed total p h,
)

-- A bar can be drawn when no more is completed than there is.
pub bar_of_le :
    (is_tty : Bool) (completed total : ℕ)
    → completed ≤ total
    → (bar : String) × (progress_bar is_tty completed total ≡ some bar)
unfolding progress_bar
bar_of_le is_tty completed zero h = (repeat "░" bar_width, refl)
bar_of_le is_tty completed (suc total) h = (
  bar_text is_tty (completed * bar_width / suc total),
  bar_drawn is_tty completed (suc total) (omega arith) (omega arith),
)
