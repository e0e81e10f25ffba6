-- ===== src/Screen/Switch.antt =====
-- Switching to another terminal and back restores the screen.
use illinix_operating_system.Base.{ℕ, ◌<◌, ◌≡◌, ◌≢◌, arith}
use illinix_operating_system.Screen.{Screen, switch_screen}
use illinix_operating_system.Screen.Valid.{IsValid}

-- Leaving terminal `a` for `b` and coming back restores the cursor and every byte of the screen
-- of `a`, if the position was valid.
pub switch_back :
    (a b : ℕ) {s : Screen}
    → a ≢ b
    → IsValid s
    → let back = switch_screen b a (switch_screen a b s) in
      ((i : ℕ) → i < 4000 → back.video_mem i ≡ s.video_mem i)
      × (back.screen_x ≡ s.screen_x)
      × (back.screen_y ≡ s.screen_y)
unfolding switch_screen
switch_back a b {s} ne v = (λ i h. ground arith, ground arith, ground arith)

-- Switching keeps what is saved of the other terminals.
pub switch_keeps :
    (a b t : ℕ) (s : Screen) (i : ℕ)
    → t ≢ a
    → ((switch_screen a b s).screen_buf t i ≡ s.screen_buf t i)
      × ((switch_screen a b s).screen_loc_buf t ≡ s.screen_loc_buf t)
unfolding switch_screen
switch_keeps a b t s i ne = ground arith
