-- ===== src/Screen/Valid.antt =====
-- The cursor stays on the screen, and nothing is written outside of it.
use illinix_operating_system.Base.{
  ℕ, zero, suc, ◌+◌, ◌-◌, ◌*◌, ◌≤◌, ◌<◌, ◌≡◌, ◌⊎◌, refl, arith, ◌∙◌,
}
use illinix_operating_system.Screen.{Screen, putc, bksp, clear, back_over, write_cell}
use illinix_operating_system.Screen.Cells.{scroll_up_lem, scrolled}

-- Where the cursor may stand between two calls: on the screen, or at the start of the row below
-- it, where the next character scrolls first.
pub record IsValid (s : Screen) : Type 0 where
  pub column : s.screen_x < 80
  pub row : (s.screen_y < 25) ⊎ ((s.screen_y ≡ 25) × (s.screen_x ≡ 0))

back_over-le : (f : ℕ → ℕ) (y x : ℕ) → back_over f y x ≤ x
unfolding back_over
back_over-le f y zero = omega arith
back_over-le f y (suc x) = ground (arith, back_over-le f y x)

-- Every character leaves the cursor of a valid screen valid.
pub putc-IsValid : (c : ℕ) {s : Screen} → IsValid s → IsValid (putc c s)
unfolding putc
putc-IsValid c {s} v = ground arith

-- A backspace leaves the cursor of a valid screen on the screen.
pub bksp-IsValid : {s : Screen} → IsValid s → ((bksp s).screen_x < 80) × ((bksp s).screen_y < 25)
unfolding bksp
bksp-IsValid {s} v = ground (arith, back_over-le s.video_mem (s.screen_y - 1) 79)

pub clear-IsValid : (s : Screen) → IsValid (clear s)
unfolding clear
clear-IsValid s = omega arith

-- On a valid screen `putc` writes nothing outside the 4000 bytes of video memory.
pub putc_in_bounds :
    (c : ℕ) {s : Screen} (a : ℕ) → IsValid s → 4000 ≤ a → (putc c s).video_mem a ≡ s.video_mem a
unfolding putc scrolled
putc_in_bounds c {s} a v h = ground (arith, scroll_up_lem s.video_mem a)

-- The cell that `bksp` clears is the one that it moves the cursor to.
pub bksp_cell :
    (s : Screen) (a : ℕ)
    → (bksp s).video_mem a
      ≡ write_cell s.video_mem (80 * (bksp s).screen_y + (bksp s).screen_x) b' ' a
unfolding bksp
bksp_cell s a = refl

pub bksp_in_bounds :
    {s : Screen} (a : ℕ) → IsValid s → 4000 ≤ a → (bksp s).video_mem a ≡ s.video_mem a
bksp_in_bounds {s} a v h = bksp_cell s a ∙ outside (bksp-IsValid v)
  where
    outside :
        ((bksp s).screen_x < 80) × ((bksp s).screen_y < 25)
        → write_cell s.video_mem (80 * (bksp s).screen_y + (bksp s).screen_x) b' ' a ≡ s.video_mem a
    outside p = ground arith
