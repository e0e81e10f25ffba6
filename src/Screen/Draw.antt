-- ===== src/Screen/Draw.antt =====
-- What a character does to the screen, and how a backspace undoes it.
use illinix_operating_system.Base.{ℕ, ◌+◌, ◌-◌, ◌*◌, ◌==◌, if◌then◌else◌, ◌<◌, ◌≡◌, ◌≢◌, arith, ◌∙◌}
use illinix_operating_system.Screen.{Screen, putc, bksp, write_cell}
use illinix_operating_system.Screen.Cells.{scroll_up_lem, scrolled}
use illinix_operating_system.Screen.Valid.{bksp_cell}

-- The characters that are drawn.
pub record IsPrintable (c : ℕ) : Type 0 where
  pub not_null : c ≢ 0
  pub not_newline : c ≢ b'\n'
  pub not_return : c ≢ b'\r'
  pub not_tab : c ≢ b'\t'

-- With the cursor on one of the 25 rows and 80 columns of the screen, a printable character is
-- drawn in the cell under the cursor, every other byte stays, and the cursor moves right on its
-- row, or from the last column to the first one of the next row.
pub putc_draws :
    (c : ℕ) (s : Screen)
    → IsPrintable c
    → s.screen_x < 80
    → s.screen_y < 25
    → ((a : ℕ) → (putc c s).video_mem a ≡ write_cell s.video_mem (80 * s.screen_y + s.screen_x) c a)
      × ((putc c s).screen_x ≡ (if s.screen_x == 79 then 0 else s.screen_x + 1))
      × ((putc c s).screen_y ≡ (if s.screen_x == 79 then s.screen_y + 1 else s.screen_y))
unfolding putc
putc_draws c s p hx hy = (λ a. ground arith, ground arith, ground arith)

-- On the row below the screen a printable character first scrolls: it is drawn at the start of
-- the last row, below the rows that moved up.
pub putc_scrolls :
    (c : ℕ) (s : Screen) (a : ℕ)
    → IsPrintable c
    → s.screen_x ≡ 0
    → s.screen_y ≡ 25
    → ((putc c s).video_mem a ≡ write_cell (scrolled s.video_mem) 1920 c a)
      × ((putc c s).screen_x ≡ 1)
      × ((putc c s).screen_y ≡ 24)
unfolding putc
putc_scrolls c s a p hx hy = ground (arith, scroll_up_lem s.video_mem a)

-- Away from the last column the cursor moves right by one.
putc_position :
    (c : ℕ) (s : Screen)
    → IsPrintable c
    → s.screen_x < 79
    → s.screen_y < 25
    → ((putc c s).screen_x ≡ s.screen_x + 1) × ((putc c s).screen_y ≡ s.screen_y)
unfolding putc
putc_position c s p hx hy = (ground arith, ground arith)

-- Away from the first column a backspace moves left by one.
bksp_position_left :
    (s : Screen)
    → s.screen_x ≢ 0
    → ((bksp s).screen_x ≡ s.screen_x - 1) × ((bksp s).screen_y ≡ s.screen_y)
unfolding bksp
bksp_position_left s ne = (ground arith, ground arith)

-- With the cursor on one of the 25 rows and before the last column, a backspace after a printable
-- character puts the cursor back, clears
-- the cell of the character and leaves every other byte as it was.
pub bksp-putc :
    (c : ℕ) (s : Screen)
    → IsPrintable c
    → s.screen_x < 79
    → s.screen_y < 25
    → ((a : ℕ)
        → (bksp (putc c s)).video_mem a
          ≡ write_cell s.video_mem (80 * s.screen_y + s.screen_x) b' ' a)
      × ((bksp (putc c s)).screen_x ≡ s.screen_x)
      × ((bksp (putc c s)).screen_y ≡ s.screen_y)
bksp-putc c s p hx hy =
    let (px, py) = putc_position c s p hx hy in
    let (bx, by) = bksp_position_left (putc c s) (omega (arith, px)) in
    let (drawn, column, row) = putc_draws c s p (omega arith) hy in
    (
      λ a. bksp_cell (putc c s) a ∙ cleared a (omega (arith, bx, px)) (by ∙ py) (drawn a),
      omega (arith, bx, px),
      by ∙ py,
    )
  where
    cleared :
        (a : ℕ)
        → (bksp (putc c s)).screen_x ≡ s.screen_x
        → (bksp (putc c s)).screen_y ≡ s.screen_y
        → (putc c s).video_mem a ≡ write_cell s.video_mem (80 * s.screen_y + s.screen_x) c a
        → write_cell
            (putc c s).video_mem
            (80 * (bksp (putc c s)).screen_y + (bksp (putc c s)).screen_x)
            b' '
            a
          ≡ write_cell s.video_mem (80 * s.screen_y + s.screen_x) b' ' a
    cleared a ex ey e = rw (ex, ey) (ground arith)
