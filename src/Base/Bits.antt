-- ===== src/Base/Bits.antt =====
-- The binary digits of a number, and what `&` and `|` do to each of them.
use Prim.Native.Nat.{ℕ, zero, suc, ◌+◌, ◌*◌, ◌/◌, ◌%◌, ◌^◌, ◌≤◌, ◌<◌, min, max}
use Prim.Native.Nat.{bit_and, bit_or, digits, bit_and-bitwise, bit_or-bitwise}
use mathlib.Core.Path.{◌≡◌, refl, ap, ◌∙◌}
use native.Mathlib.Nat.{pow-suc, le_refl}
use native.Mathlib.Omega.{arith}

-- Digit `j`, the lowest first.
unfoldable pub bit : ℕ → ℕ → ℕ
bit n zero = n % 2
bit n (suc j) = bit (n / 2) j

pub bit-zero : (j : ℕ) → bit 0 j ≡ 0
unfolding bit
bit-zero zero = refl
bit-zero (suc j) = bit-zero j

pub bit-le-one : (n j : ℕ) → bit n j ≤ 1
unfolding bit
bit-le-one n zero = omega arith
bit-le-one n (suc j) = bit-le-one (n / 2) j

bit_push : (d m j : ℕ) → m < 2 → bit (d * 2 + m) (suc j) ≡ bit d j
unfolding bit
bit_push d m j h = ap (λ k. bit k j) (omega arith)

bit_low : (d m : ℕ) → m < 2 → bit (d * 2 + m) 0 ≡ m
unfolding bit
bit_low d m h = omega arith

and_digit : (n a b j : ℕ) → a ≤ n → bit (digits (λ y. 0) min n a b) j ≡ min (bit a j) (bit b j)
and_digit zero zero b j h = omega (arith, bit-zero j)
and_digit zero (suc a) b j h = absurd (omega arith)
and_digit (suc n) zero b j h = omega (arith, bit-zero j)
and_digit (suc n) (suc a) b zero h = bit_low _ _ (omega arith) ∙ unfold bit in omega arith
and_digit (suc n) (suc a) b (suc j) h =
    bit_push _ _ j (omega arith)
    ∙ and_digit n (suc a / 2) (b / 2) j (omega arith)
    ∙ unfold bit in refl

or_digit : (n a b j : ℕ) → a ≤ n → bit (digits (λ y. y) max n a b) j ≡ max (bit a j) (bit b j)
or_digit zero zero b j h = omega (arith, bit-zero j)
or_digit zero (suc a) b j h = absurd (omega arith)
or_digit (suc n) zero b j h = omega (arith, bit-zero j)
or_digit (suc n) (suc a) b zero h = bit_low _ _ (omega arith) ∙ unfold bit in omega arith
or_digit (suc n) (suc a) b (suc j) h =
    bit_push _ _ j (omega arith)
    ∙ or_digit n (suc a / 2) (b / 2) j (omega arith)
    ∙ unfold bit in refl

pub bit-bit_and : (a b j : ℕ) → bit (bit_and a b) j ≡ min (bit a j) (bit b j)
bit-bit_and a b j = ap (λ k. bit k j) (bit_and-bitwise a b) ∙ and_digit a a b j (le_refl a)

pub bit-bit_or : (a b j : ℕ) → bit (bit_or a b) j ≡ max (bit a j) (bit b j)
bit-bit_or a b j = ap (λ k. bit k j) (bit_or-bitwise a b) ∙ or_digit a a b j (le_refl a)

-- No digit is set in both.
abbrev pub Disjoint : ℕ → ℕ → Type 0
Disjoint a b = (j : ℕ) → min (bit a j) (bit b j) ≡ 0

or_as_sum : (n a b : ℕ) → a ≤ n → Disjoint a b → digits (λ y. y) max n a b ≡ a + b
or_as_sum zero zero b h d = omega arith
or_as_sum zero (suc a) b h d = absurd (omega arith)
or_as_sum (suc n) zero b h d = omega arith
or_as_sum (suc n) (suc a) b h d =
    let rest = or_as_sum n (suc a / 2) (b / 2) (omega arith) (λ j. unfold bit in d (suc j)) in
    let low : min (suc a % 2) (b % 2) ≡ 0 = unfold bit in d 0 in omega (arith, rest, low)

-- `|` of numbers that share no digit is their sum.
pub bit_or-eq-add : (a b : ℕ) → Disjoint a b → bit_or a b ≡ a + b
bit_or-eq-add a b d = bit_or-bitwise a b ∙ or_as_sum a a b (le_refl a) d

fields_apart : (k q r j : ℕ) → r < 2 ^ k → min (bit (q * 2 ^ k) j) (bit r j) ≡ 0
unfolding bit
fields_apart zero q r j h =
    let e : r ≡ 0 = omega arith in omega (arith, ap (λ n. bit n j) e, bit-zero j)
fields_apart (suc k) q r zero h =
    let e = pow-suc 2 k in
    let low : q * 2 ^ suc k % 2 ≡ 0 = omega (arith, ap (λ (t : ℕ). q * t) e) in omega (arith, low)
fields_apart (suc k) q r (suc j) h =
    let e = pow-suc 2 k in
    let half : q * 2 ^ suc k / 2 ≡ q * 2 ^ k = omega (arith, ap (λ (t : ℕ). q * t) e) in
    let rest = fields_apart k q (r / 2) j (omega arith) in
    omega (arith, rest, ap (λ n. bit n j) half)

-- `(q << k) | r` is a sum where `r` fits below bit `k`.
pub bit_or_fields : (k q r : ℕ) → r < 2 ^ k → bit_or (q * 2 ^ k) r ≡ q * 2 ^ k + r
bit_or_fields k q r h = bit_or-eq-add (q * 2 ^ k) r (λ j. fields_apart k q r j h)

-- A number is determined by its digits.
bits_ext_below : (n a b : ℕ) → a ≤ n → b ≤ n → ((j : ℕ) → bit a j ≡ bit b j) → a ≡ b
bits_ext_below zero a b p q h = omega arith
bits_ext_below (suc n) a b p q h =
    let low : a % 2 ≡ b % 2 = unfold bit in h 0 in
    let high : a / 2 ≡ b / 2 =
      bits_ext_below n (a / 2) (b / 2) (omega arith) (omega arith) (λ j. unfold bit in h (suc j)) in
    omega (arith, low, high)

pub bits_ext : (a b : ℕ) → ((j : ℕ) → bit a j ≡ bit b j) → a ≡ b
bits_ext a b = bits_ext_below (a + b) a b (omega arith) (omega arith)

pub bit_or_assoc : (a b c : ℕ) → bit_or (bit_or a b) c ≡ bit_or a (bit_or b c)
bit_or_assoc a b c = bits_ext _ _ λ j.
    rw
      (bit-bit_or (bit_or a b) c j, bit-bit_or a b j, bit-bit_or a (bit_or b c) j, bit-bit_or b c j)
      (omega arith)
