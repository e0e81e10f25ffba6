-- ===== src/Base/Table.antt =====
-- Facts about the values of a small range, by evaluation of a test at each of them.
use Prim.Native.Nat.{ℕ, zero, suc, ◌<◌}
use mathlib.Core.Path.{◌≡◌}
use mathlib.Core.Bool.{Bool, true, ◌&&◌}
use native.Mathlib.Omega.{arith}

-- Whether the test holds at every number below the bound.
unfoldable pub holds_below : ℕ → (ℕ → Bool) → Bool
holds_below zero test = true
holds_below (suc bound) test = holds_below bound test && test bound

module _ (test : ℕ → Bool) (i : ℕ) where
  pub holds_below-at : (bound : ℕ) → i < bound → holds_below bound test ≡ true → test i ≡ true
  unfolding holds_below
  holds_below-at zero small all = absurd (omega arith)
  holds_below-at (suc bound) small all = ground (arith, holds_below-at bound)
