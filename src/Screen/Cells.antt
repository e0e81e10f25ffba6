-- ===== src/Screen/Cells.antt =====
-- What the loops over the cells of the screen do to each byte of video memory.
use illinix_operating_system.Base.{
  ℕ, zero, suc, ◌+◌, ◌*◌, ◌%◌, ◌≤◌, ◌<◌, ◌≡◌, ◌⊎◌, refl, arith, ltb, leb, ◌==◌, if◌then◌else◌, ◌∙◌,
  inl, inr, Bool-cases,
}
use illinix_operating_system.Screen.{blank_cells, move_up, scroll_up, update, write_cell, cell}

-- The bytes of a blank cell: a space and the attribute.
pub blank_byte : ℕ → ℕ
blank_byte a = if a % 2 == 0 then b' ' else 0x7

pub blank_cells_outside :
    (left i : ℕ) (f : ℕ → ℕ) (a : ℕ)
    → (a < 2 * i) ⊎ (2 * (i + left) ≤ a)
    → blank_cells left i f a ≡ f a
unfolding blank_cells
blank_cells_outside zero i f a h = refl
blank_cells_outside (suc left) i f a h =
    blank_cells_outside left (i + 1) (write_cell f i b' ') a
      (elim h [ inl p ↦ inl (omega arith) | inr p ↦ inr (omega arith) ])
    ∙ ground arith

pub blank_cells_inside :
    (left i : ℕ) (f : ℕ → ℕ) (a : ℕ)
    → 2 * i ≤ a
    → a < 2 * (i + left)
    → blank_cells left i f a ≡ blank_byte a
unfolding blank_cells blank_byte
blank_cells_inside zero i f a p q = absurd (omega arith)
blank_cells_inside (suc left) i f a p q = ground (
  arith,
  blank_cells_inside left (i + 1) (write_cell f i b' ') a,
  blank_cells_outside left (i + 1) (write_cell f i b' ') a,
)

-- A row is 160 bytes.
move_up_outside :
    (left i : ℕ) (f : ℕ → ℕ) (a : ℕ) → (a < 2 * i) ⊎ (2 * (i + left) ≤ a) → move_up left i f a ≡ f a
unfolding move_up
move_up_outside zero i f a h = refl
move_up_outside (suc left) i f a h =
    let g = update f (cell i) (f (cell (i + 80))) in
    move_up_outside left (i + 1) (update g (cell i + 1) (g (cell (i + 80) + 1))) a
      (elim h [ inl p ↦ inl (omega arith) | inr p ↦ inr (omega arith) ])
    ∙ ground arith

move_up_inside :
    (left i : ℕ) (f : ℕ → ℕ) (a : ℕ)
    → 2 * i ≤ a
    → a < 2 * (i + left)
    → move_up left i f a ≡ f (a + 160)
unfolding move_up
move_up_inside zero i f a p q = absurd (omega arith)
move_up_inside (suc left) i f a p q =
    let g = update f (cell i) (f (cell (i + 80))) in
    let h = update g (cell i + 1) (g (cell (i + 80) + 1)) in
    elim (Bool-cases (leb (2 * (i + 1)) a)) [
      | inl later ↦ move_up_inside left (i + 1) h a (ground arith) (omega arith) ∙ ground arith
      | inr now ↦ move_up_outside left (i + 1) h a (inl (ground arith)) ∙ ground arith
    ]

-- The screen after it scrolls by a row, byte by byte.
unfoldable pub scrolled : (ℕ → ℕ) → ℕ → ℕ
scrolled f a = if ltb a 3840 then f (a + 160) else if ltb a 4000 then blank_byte a else f a

-- Scrolling moves every row up by one, blanks the last row and writes nothing outside the 4000
-- bytes of the screen.
pub scroll_up_lem : (f : ℕ → ℕ) (a : ℕ) → scroll_up f a ≡ scrolled f a
unfolding scroll_up scrolled
scroll_up_lem f a = ground (
  arith,
  blank_cells_inside 80 1920 (move_up 1920 0 f) a,
  blank_cells_outside 80 1920 (move_up 1920 0 f) a,
  move_up_inside 1920 0 f a,
  move_up_outside 1920 0 f a,
)
