-- ===== src/Display/Screen.antt =====
-- What a terminal shows of what the display writes, for a terminal that is wide and high enough: no line wraps,
-- and no row leaves the screen. Texts are taken to have no newlines of their own.
use trimetry.Base.{
  ℕ, zero, suc, String, ◌≡◌, refl, Option, none, some, ◌>>=◌, List, [], ◌∷◌, ◌++◌, str_eq,
  if◌then◌else◌,
}
use trimetry.Display.State.{Written, line, up, clear_line}

-- The rows above the cursor, the nearest first, and those from the cursor's row on.
pub record Screen : Type 0 where
  pub above : List String
  pub below : List String

abbrev pub blank : Screen
blank = record { above = []; below = [] }

-- `none` where a text is written over another, which would leave the end of the longer one.
unfoldable pub put_line : String → List String → List String → Option Screen
put_line s above [] = some (record { above = s ∷ above; below = [] })
put_line s above (row ∷ below) =
    if str_eq row "" then some (record { above = s ∷ above; below = below }) else none

-- `none` where the cursor would have to leave the screen.
unfoldable pub move_up : ℕ → List String → List String → Option Screen
move_up zero above below = some (record { above = above; below = below })
move_up (suc n) [] below = none
move_up (suc n) (row ∷ above) below = move_up n above (row ∷ below)

unfoldable pub clear_row : List String → List String → Screen
clear_row above [] = record { above = "" ∷ above; below = [] }
clear_row above (row ∷ below) = record { above = "" ∷ above; below = below }

unfoldable pub show : List Written → Screen → Option Screen
unfolding put_line move_up clear_row
show [] s = some s
show (line text ∷ ws) s = do t ← put_line text s.above s.below; show ws t
show (up n ∷ ws) s = do t ← move_up n s.above s.below; show ws t
show (clear_line ∷ ws) s = show ws (clear_row s.above s.below)

pub show-append : (ws vs : List Written) (s : Screen) → show (ws ++ vs) s ≡ (show ws s >>= show vs)
unfolding show
show-append [] vs s = refl
show-append (line text ∷ ws) vs s =
    elim (put_line text s.above s.below)
      as (λ m. (m >>= show (ws ++ vs)) ≡ (m >>= show ws >>= show vs)) [
        | none ↦ refl
        | some t ↦ show-append ws vs t
      ]
show-append (up n ∷ ws) vs s =
    elim (move_up n s.above s.below)
      as (λ m. (m >>= show (ws ++ vs)) ≡ (m >>= show ws >>= show vs)) [
        | none ↦ refl
        | some t ↦ show-append ws vs t
      ]
show-append (clear_line ∷ ws) vs s = show-append ws vs (clear_row s.above s.below)

-- Lines only, and the rows that they fill, the last one first.
abbrev pub AllLines : List Written → Type 0
AllLines [] = Unit
AllLines (line text ∷ ws) = AllLines ws
AllLines (up n ∷ ws) = ⊥
AllLines (clear_line ∷ ws) = ⊥

unfoldable pub rows : List Written → List String → List String
rows [] above = above
rows (line text ∷ ws) above = rows ws (text ∷ above)
rows (up n ∷ ws) above = rows ws above
rows (clear_line ∷ ws) above = rows ws above

unfoldable pub blanks : ℕ → List String
blanks zero = []
blanks (suc n) = "" ∷ blanks n
