-- ===== src/Display/Redraw.antt =====
-- internal/ui/display.go: the bars are erased and drawn again where they stood.
use trimetry.Base.{
  ℕ, zero, suc, ◌+◌, ◌≤◌, String, ◌≡◌, refl, sym, ap, ◌∙◌, some, ◌>>=◌, List, [], ◌∷◌, ◌++◌, length,
  append_assoc, length-append, arith,
}
use trimetry.Display.State.{Written, line, up, clear_line}
use trimetry.Display.Progress.{clear_lines}
use trimetry.Display.Screen.{
  Screen, blank, put_line, move_up, clear_row, show, show-append, AllLines, rows, blanks,
}

-- Lines that are put on empty rows, at least as many as the rows.
pub show-lines :
    (ws : List Written) (above : List String) (k : ℕ)
    → AllLines ws
    → k ≤ length ws
    → show ws (record { above = above; below = blanks k })
      ≡ some (record { above = rows ws above; below = [] })
unfolding show rows blanks put_line
show-lines [] above zero h le = refl
show-lines [] above (suc k) h le = elim le [ ]
show-lines (line text ∷ ws) above zero h le = show-lines ws (text ∷ above) zero h (omega arith)
show-lines (line text ∷ ws) above (suc k) h le = show-lines ws (text ∷ above) k h (omega arith)
show-lines (up n ∷ ws) above k h le = elim h [ ]
show-lines (clear_line ∷ ws) above k h le = elim h [ ]

pub rows-append :
    (ws vs : List Written) (above : List String) → rows (ws ++ vs) above ≡ rows vs (rows ws above)
unfolding rows
rows-append [] vs above = refl
rows-append (line text ∷ ws) vs above = rows-append ws vs (text ∷ above)
rows-append (up n ∷ ws) vs above = rows-append ws vs above
rows-append (clear_line ∷ ws) vs above = rows-append ws vs above

-- Rows that are passed on the way up lie below the cursor.
passed : List String → List String → List String
passed [] below = below
passed (row ∷ top) below = passed top (row ∷ below)

length-passed : (top below : List String) → length (passed top below) ≡ length top + length below
unfolding passed
length-passed [] below = omega arith
length-passed (row ∷ top) below = omega (arith, length-passed top (row ∷ below))

move_up-append :
    (top above below : List String)
    → move_up (length top) (top ++ above) below
      ≡ some (record { above = above; below = passed top below })
unfolding move_up passed
move_up-append [] above below = refl
move_up-append (row ∷ top) above below = move_up-append top above (row ∷ below)

-- The rows that lines fill are put in front of those above them.
rows_top :
    (ws : List Written) (above : List String)
    → AllLines ws
    → (top : List String) × (rows ws above ≡ top ++ above) × (length top ≡ length ws)
unfolding rows
rows_top [] above h = ([], refl, refl)
rows_top (line text ∷ ws) above h =
    let before = rows_top ws (text ∷ above) h in
    (
      before.0 ++ (text ∷ []),
      before.1 ∙ sym (append_assoc before.0 (text ∷ []) above),
      omega (arith, before.2, length-append before.0 (text ∷ [])),
    )
rows_top (up n ∷ ws) above h = elim h [ ]
rows_top (clear_line ∷ ws) above h = elim h [ ]

passed-blanks : (n k : ℕ) → passed (blanks n) (blanks k) ≡ blanks (n + k)
unfolding passed blanks
passed-blanks zero k = ap blanks (omega arith)
passed-blanks (suc n) k = passed-blanks n (suc k) ∙ ap blanks (omega arith)

length-blanks : (n : ℕ) → length (blanks n) ≡ n
unfolding blanks
length-blanks zero = refl
length-blanks (suc n) = ap suc (length-blanks n)

blanks-append : (n : ℕ) (above : List String) → blanks n ++ ("" ∷ above) ≡ "" ∷ (blanks n ++ above)
unfolding blanks
blanks-append zero above = refl
blanks-append (suc n) above = ap (λ t. "" ∷ t) (blanks-append n above)

cleared : ℕ → List String → Screen
cleared n above = record { above = blanks n ++ above; below = [] }

show-clear_lines :
    (below above : List String) (ws : List Written)
    → show (clear_lines (length below) ++ ws) (record { above = above; below = below })
      ≡ show ws (cleared (length below) above)
unfolding show clear_lines blanks cleared clear_row
show-clear_lines [] above ws = refl
show-clear_lines (row ∷ below) above ws =
    show-clear_lines below ("" ∷ above) ws
    ∙ ap (λ a. show ws (record { above = a; below = [] })) (blanks-append (length below) above)

show-up :
    (top above below : List String) (ws : List Written)
    → show (up (length top) ∷ ws) (record { above = top ++ above; below = below })
      ≡ show ws (record { above = above; below = passed top below })
unfolding show
show-up top above below ws = rw (move_up-append top above below) refl

show-up_cleared :
    (n : ℕ) (base : List String)
    → show (up n ∷ []) (cleared n base) ≡ some (record { above = base; below = blanks n })
unfolding cleared show blanks
show-up_cleared n base =
    ap (λ k. show (up k ∷ []) (cleared n base)) (sym (length-blanks n))
    ∙ show-up (blanks n) base [] []
    ∙ ap (λ b. some (record { above = base; below = b })) (passed-blanks n 0)
    ∙ ap (λ k. some (record { above = base; below = blanks k })) (omega arith)

show-cleared :
    (n : ℕ) (below base : List String)
    → length below ≡ n
    → show (clear_lines n ++ (up n ∷ [])) (record { above = base; below = below })
      ≡ some (record { above = base; below = blanks n })
show-cleared n below base h =
    ap (λ k. show (clear_lines k ++ (up n ∷ [])) (record { above = base; below = below })) (sym h)
    ∙ show-clear_lines below base (up n ∷ [])
    ∙ ap (λ k. show (up n ∷ []) (cleared k base)) h
    ∙ show-up_cleared n base

show-erased :
    (n : ℕ) (top base : List String)
    → length top ≡ n
    → show (up n ∷ (clear_lines n ++ (up n ∷ []))) (record { above = top ++ base; below = [] })
      ≡ some (record { above = base; below = blanks n })
show-erased n top base h =
    ap
      (λ k.
        show (up k ∷ (clear_lines n ++ (up n ∷ []))) (record { above = top ++ base; below = [] }))
      (sym h)
    ∙ show-up top base [] (clear_lines n ++ (up n ∷ []))
    ∙ show-cleared n (passed top []) base (omega (arith, length-passed top [], h))

-- The bars that stand above the cursor make way for as many empty rows.
pub show-erase :
    (n : ℕ) (block : List Written) (base : List String)
    → AllLines block
    → length block ≡ n
    → show (up n ∷ (clear_lines n ++ (up n ∷ []))) (record { above = rows block base; below = [] })
      ≡ some (record { above = base; below = blanks n })
show-erase n block base h k =
    let top = rows_top block base h in
    ap (λ a. show (up n ∷ (clear_lines n ++ (up n ∷ []))) (record { above = a; below = [] })) top.1
    ∙ show-erased n top.0 base (top.2 ∙ k)

pub AllLines-append : (ws vs : List Written) → AllLines ws → AllLines vs → AllLines (ws ++ vs)
AllLines-append [] vs h k = k
AllLines-append (line text ∷ ws) vs h k = AllLines-append ws vs h k
AllLines-append (up n ∷ ws) vs h k = elim h [ ]
AllLines-append (clear_line ∷ ws) vs h k = elim h [ ]

-- Erasing n rows of bars, and writing lines and at least as many rows in their place.
unfoldable pub erasing : ℕ → List Written
erasing n = up n ∷ (clear_lines n ++ (up n ∷ []))

show_next :
    (ws : List Written) (s : Screen) {t : Screen} (vs : List Written)
    → show ws s ≡ some t
    → show (ws ++ vs) s ≡ show vs t
show_next ws s vs h = show-append ws vs s ∙ ap (λ m. m >>= show vs) h

pub show-redrawn :
    (out lines old new : List Written) (base : List String) (n : ℕ)
    → show out blank ≡ some (record { above = rows old base; below = [] })
    → AllLines old
    → length old ≡ n
    → AllLines lines
    → AllLines new
    → length new ≡ n
    → show (((out ++ erasing n) ++ lines) ++ new) blank
      ≡ some (record { above = rows new (rows lines base); below = [] })
unfolding erasing
show-redrawn out lines old new base n h are_old size are_lines are_new k =
    ap (λ ws. show ws blank) (append_assoc (out ++ erasing n) lines new)
    ∙ show_next (out ++ erasing n) blank (lines ++ new)
        (show_next out blank (erasing n) h ∙ show-erase n old base are_old size)
    ∙ show-lines (lines ++ new) base n (AllLines-append lines new are_lines are_new)
        (omega (arith, length-append lines new, k))
    ∙ ap (λ a. some (record { above = a; below = [] })) (rows-append lines new base)
