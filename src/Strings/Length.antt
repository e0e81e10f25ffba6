-- ===== src/Strings/Length.antt =====
-- What `strlen` returns on a string.
use illinix_operating_system.Base.{ℕ, zero, suc, ◌+◌, ◌^◌, ◌<◌, ◌≡◌, ◌≢◌, some, arith, Reader}
use illinix_operating_system.Strings.{strlen_from, strlen, address_space}

-- The `n` bytes before the first 0 byte, which is at `n`.
pub record IsString (s : Reader) (n : ℕ) : Type 0 where
  pub body : (j : ℕ) → j < n → (b : ℕ) × (s j ≡ some b) × (b ≢ 0)
  pub ends : s n ≡ some 0

strlen_from_lem :
    (fuel : ℕ) (s : Reader) (left len n : ℕ)
    → IsString s n
    → len + left ≡ n
    → left < fuel
    → strlen_from fuel s len ≡ some n
unfolding strlen_from
strlen_from_lem zero s left len n h e lt = absurd (omega arith)
strlen_from_lem (suc fuel) s zero len n h e lt =
    let at_end : len ≡ n = omega arith in ground (arith, h.ends)
strlen_from_lem (suc fuel) s (suc left) len n h e lt =
    let (b, eq, ne) = h.body len (omega arith) in
    ground (arith, eq, strlen_from_lem fuel s left (len + 1) n h (omega arith) (omega arith))

-- On a string of length `n` below 2 ^ 32, `strlen` terminates and returns `n`, reading nothing
-- beyond the 0 byte.
pub strlen_lem : (s : Reader) (n : ℕ) → IsString s n → n < 2 ^ 32 → strlen s ≡ some n
unfolding strlen
strlen_lem s n h lt = strlen_from_lem address_space s n 0 n h (omega arith) lt
