-- ===== src/Blocks/Fill.antt =====
-- `memset` against what a filled block is.
use illinix_operating_system.Base.{
  ℕ, zero, suc, ◌+◌, ◌*◌, ◌/◌, ◌%◌, ◌^◌, ◌<◌, ◌≡◌, inl, inr, refl, arith, true, ◌&&◌, ltb, leb,
  bit_or, ◌==◌, if◌then◌else◌, Bool-cases,
}
use illinix_operating_system.Base.Table.{holds_below, holds_below-at}
use illinix_operating_system.Blocks.{
  byte_of, store8, store32, stosl, memset, memset_top, memset_aligned, memset_bottom,
}

-- The `n` bytes from `s` on are `v`, and the rest is as it was.
abbrev pub filled : (ℕ → ℕ) → ℕ → ℕ → ℕ → ℕ → ℕ
filled mem s v n a = if leb s a && ltb a (s + n) then v else mem a

abbrev IsFilled : (ℕ → ℕ) → ℕ → ℕ → ℕ → (ℕ → ℕ) → Type 0
IsFilled mem s v n mem' = (a : ℕ) → mem' a ≡ filled mem s v n a

IsFilled-none : (mem : ℕ → ℕ) (s v : ℕ) → IsFilled mem s v 0 mem
IsFilled-none mem s v a = ground arith

IsFilled-join :
    (mem mem1 mem2 : ℕ → ℕ) (s v k n m : ℕ)
    → k + n ≡ m
    → IsFilled mem s v k mem1
    → IsFilled mem1 (s + k) v n mem2
    → IsFilled mem s v m mem2
IsFilled-join mem mem1 mem2 s v k n m e first second a = ground (arith, first a, second a)

-- A register whose four bytes are `v`.
record IsSpread (v eax : ℕ) : Type 0 where
  byte0 : byte_of eax 0 ≡ v
  byte1 : byte_of eax 1 ≡ v
  byte2 : byte_of eax 2 ≡ v
  byte3 : byte_of eax 3 ≡ v

module _ (v eax : ℕ) (spread : IsSpread v eax) where
  store8-IsFilled : (mem : ℕ → ℕ) (s : ℕ) → IsFilled mem s v 1 (store8 mem s (byte_of eax 0))
  store8-IsFilled mem s a = ground (arith, spread.byte0)

  store32-IsFilled : (mem : ℕ → ℕ) (s : ℕ) → IsFilled mem s v 4 (store32 mem s eax)
  store32-IsFilled mem s a = ground (arith, spread.byte0, spread.byte1, spread.byte2, spread.byte3)

  stosl-IsFilled : (n : ℕ) (mem : ℕ → ℕ) (s : ℕ) → IsFilled mem s v (4 * n) (stosl n mem s eax)
  unfolding stosl
  stosl-IsFilled zero mem s = IsFilled-none mem s v
  stosl-IsFilled (suc n) mem s =
      IsFilled-join mem (store32 mem s eax) _ s v 4 (4 * n) (4 * suc n) (omega arith)
        (store32-IsFilled mem s) (stosl-IsFilled n (store32 mem s eax) (s + 4))

  memset_bottom-IsFilled :
      (n : ℕ) (mem : ℕ → ℕ) (s : ℕ) → IsFilled mem s v n (memset_bottom n mem s eax)
  unfolding memset_bottom
  memset_bottom-IsFilled zero mem s = IsFilled-none mem s v
  memset_bottom-IsFilled (suc n) mem s =
      let next = store8 mem s (byte_of eax 0) in
      IsFilled-join mem next _ s v 1 n (suc n) (omega arith) (store8-IsFilled mem s)
        (memset_bottom-IsFilled n next (s + 1))

  memset_aligned-IsFilled :
      (n : ℕ) (mem : ℕ → ℕ) (s : ℕ) → IsFilled mem s v n (memset_aligned n mem s eax)
  unfolding memset_aligned
  memset_aligned-IsFilled n mem s =
      let words = stosl (n / 4) mem s eax in
      IsFilled-join mem words _ s v (4 * (n / 4)) (n % 4) n (omega arith)
        (stosl-IsFilled (n / 4) mem s) (memset_bottom-IsFilled (n % 4) words (s + 4 * (n / 4)))

  memset_top-IsFilled : (n : ℕ) (mem : ℕ → ℕ) (s : ℕ) → IsFilled mem s v n (memset_top n mem s eax)
  unfolding memset_top
  memset_top-IsFilled zero mem s a = IsFilled-none mem s v a
  memset_top-IsFilled (suc n) mem s a = elim (Bool-cases (s % 4 == 0)) [
    | inl aligned ↦ ground (arith, aligned, memset_aligned-IsFilled (suc n) mem s a)
    | inr unaligned ↦
        let next = store8 mem s (byte_of eax 0) in
        let rest =
          IsFilled-join mem next _ s v 1 n (suc n) (omega arith) (store8-IsFilled mem s)
            (memset_top-IsFilled n next (s + 1)) a in
        ground (arith, unaligned, rest)
  ]

abbrev spread_over : ℕ → ℕ
spread_over b = bit_or (bit_or (bit_or (b * 2 ^ 24) (b * 2 ^ 16)) (b * 2 ^ 8)) b

spread_table :
    holds_below 256 (λ b.
      byte_of (spread_over b) 0 == b
      && byte_of (spread_over b) 1 == b
      && byte_of (spread_over b) 2 == b
      && byte_of (spread_over b) 3 == b)
    ≡ true
unfolding holds_below
spread_table = refl

spread_over-IsSpread : (b : ℕ) → b < 256 → IsSpread b (spread_over b)
spread_over-IsSpread b h =
    let row = holds_below-at _ b 256 h spread_table in
    record {
      byte0 = ground (arith, row);
      byte1 = ground (arith, row);
      byte2 = ground (arith, row);
      byte3 = ground (arith, row);
    }

-- `memset` sets each of the `n` bytes from `s` on to the low byte of `c` and no other byte,
-- whatever the alignment of `s`: the single bytes up to a multiple of 4, the words and the last
-- bytes together make up the block.
pub memset_lem : (mem : ℕ → ℕ) (s c n a : ℕ) → memset mem s c n a ≡ filled mem s (c % 256) n a
unfolding memset
memset_lem mem s c n a =
    memset_top-IsFilled (c % 256) (spread_over (c % 256))
      (spread_over-IsSpread (c % 256) (omega arith)) n mem s a
