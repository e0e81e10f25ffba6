-- ===== src/Blocks/Move.antt =====
-- `memcpy` and `memmove` against what a move of a block is.
use illinix_operating_system.Base.{
  ℕ, true, zero, suc, ◌+◌, ◌-◌, ◌*◌, ◌/◌, ◌%◌, ◌≤◌, ◌<◌, ◌≡◌, ◌⊎◌, inl, inr, refl, arith, ◌&&◌, ltb,
  leb, ◌==◌, if◌then◌else◌, Bool-cases, ◌∙◌, ap, sym,
}
use illinix_operating_system.Blocks.{
  move8, move32, movsb, movsl, movsb_down, memcpy, memcpy_top, memcpy_aligned, memmove,
}

-- The move itself: the `n` bytes that were at `src` are at `dest`, and the rest is as it was.
abbrev pub moved : (ℕ → ℕ) → ℕ → ℕ → ℕ → ℕ → ℕ
moved mem dest src n a = if leb dest a && ltb a (dest + n) then mem (src + (a - dest)) else mem a

-- A copy upwards finds each byte of the source before it is written over.
abbrev IsClear : ℕ → ℕ → ℕ → Type 0
IsClear dest src n = (dest ≤ src) ⊎ (src + n ≤ dest)

-- `mem'` is the result of a move.
abbrev IsMoved : (ℕ → ℕ) → ℕ → ℕ → ℕ → (ℕ → ℕ) → Type 0
IsMoved mem dest src n mem' = (a : ℕ) → mem' a ≡ moved mem dest src n a

IsMoved-none : (mem : ℕ → ℕ) (dest src : ℕ) → IsMoved mem dest src 0 mem
IsMoved-none mem dest src a = ground arith

-- A move of `k` bytes, and then one of the `n` bytes behind them, is one of `m` bytes.
module _ (mem mem1 mem2 : ℕ → ℕ) (dest src k n m : ℕ) (whole : k + n ≡ m)
    (clear : IsClear dest src m) where
  IsMoved-join :
      IsMoved mem dest src k mem1
      → IsMoved mem1 (dest + k) (src + k) n mem2
      → IsMoved mem dest src m mem2
  IsMoved-join first second a = elim (Bool-cases (leb (dest + k) a && ltb a (dest + k + n))) [
    | inl late ↦
        let from : src + k + (a - (dest + k)) ≡ src + (a - dest) = ground arith in
        ground (arith, second a, late)
        ∙ ap mem1 from
        ∙ first (src + (a - dest))
        ∙ ground (arith, late)
    | inr early ↦ ground (arith, first a, second a, early)
  ]

move8-IsMoved : (mem : ℕ → ℕ) (dest src : ℕ) → IsMoved mem dest src 1 (move8 mem dest src)
move8-IsMoved mem dest src a = elim (Bool-cases (dest == a)) [
  | inl here ↦
      let at : src + (a - dest) ≡ src = ground arith in
      ground (arith, here) ∙ ap mem (sym at) ∙ ground (arith, here)
  | inr apart ↦ ground (arith, apart)
]

-- The byte that a move puts `k` bytes behind `dest`.
moved_at :
    (mem : ℕ → ℕ) (dest src n k a : ℕ)
    → (dest + k == a) ≡ true
    → k < n
    → mem (src + k) ≡ moved mem dest src n a
moved_at mem dest src n k a here h =
    let at : src + k ≡ src + (a - dest) = ground arith in ap mem at ∙ ground (arith, here)

move32-IsMoved : (mem : ℕ → ℕ) (dest src : ℕ) → IsMoved mem dest src 4 (move32 mem dest src)
move32-IsMoved mem dest src a =
    let zero_lem : src + 0 ≡ src = omega arith in
    elim (Bool-cases (dest + 3 == a)) [
      | inl b3 ↦ ground (arith, b3) ∙ moved_at mem dest src 4 3 a b3 (omega arith)
      | inr c3 ↦ elim (Bool-cases (dest + 2 == a)) [
        | inl b2 ↦ ground (arith, b2, c3) ∙ moved_at mem dest src 4 2 a b2 (omega arith)
        | inr c2 ↦ elim (Bool-cases (dest + 1 == a)) [
          | inl b1 ↦ ground (arith, b1, c2, c3) ∙ moved_at mem dest src 4 1 a b1 (omega arith)
          | inr c1 ↦ elim (Bool-cases (dest == a)) [
            | inl b0 ↦
                ground (arith, b0, c1, c2, c3)
                ∙ ap mem (sym zero_lem)
                ∙ moved_at mem dest src 4 0 a (ground arith) (omega arith)
            | inr c0 ↦ ground (arith, c0, c1, c2, c3)
          ]
        ]
      ]
    ]

IsClear-next :
    (dest src k n m : ℕ) → k + n ≡ m → IsClear dest src m → IsClear (dest + k) (src + k) n
IsClear-next dest src k n m e c = ground arith

movsb-IsMoved :
    (n : ℕ) (mem : ℕ → ℕ) (dest src : ℕ)
    → IsClear dest src n
    → IsMoved mem dest src n (movsb n mem dest src)
unfolding movsb
movsb-IsMoved zero mem dest src c = IsMoved-none mem dest src
movsb-IsMoved (suc n) mem dest src c =
    let e : 1 + n ≡ suc n = omega arith in
    IsMoved-join mem (move8 mem dest src) _ dest src 1 n (suc n) e c (move8-IsMoved mem dest src) (
      movsb-IsMoved n (move8 mem dest src) (dest + 1) (src + 1)
        (IsClear-next dest src 1 n (suc n) e c))

movsl-IsMoved :
    (n : ℕ) (mem : ℕ → ℕ) (dest src : ℕ)
    → IsClear dest src (4 * n)
    → IsMoved mem dest src (4 * n) (movsl n mem dest src)
unfolding movsl
movsl-IsMoved zero mem dest src c = IsMoved-none mem dest src
movsl-IsMoved (suc n) mem dest src c =
    let e : 4 + 4 * n ≡ 4 * suc n = omega arith in
    IsMoved-join mem (move32 mem dest src) _ dest src 4 (4 * n) (4 * suc n) e c
      (move32-IsMoved mem dest src)
      (movsl-IsMoved n (move32 mem dest src) (dest + 4) (src + 4)
        (IsClear-next dest src 4 (4 * n) (4 * suc n) e c))

IsClear-less : (dest src k n : ℕ) → k ≤ n → IsClear dest src n → IsClear dest src k
IsClear-less dest src k n h c = ground arith

memcpy_aligned-IsMoved :
    (n : ℕ) (mem : ℕ → ℕ) (dest src : ℕ)
    → IsClear dest src n
    → IsMoved mem dest src n (memcpy_aligned n mem dest src)
unfolding memcpy_aligned
memcpy_aligned-IsMoved n mem dest src c =
    let k = 4 * (n / 4) in
    let e : k + n % 4 ≡ n = omega arith in
    let words = movsl (n / 4) mem dest src in
    IsMoved-join mem words _ dest src k (n % 4) n e c
      (movsl-IsMoved (n / 4) mem dest src (IsClear-less dest src k n (omega arith) c))
      (movsb-IsMoved (n % 4) words (dest + k) (src + k) (IsClear-next dest src k (n % 4) n e c))

memcpy_top-IsMoved :
    (n : ℕ) (mem : ℕ → ℕ) (dest src : ℕ)
    → IsClear dest src n
    → IsMoved mem dest src n (memcpy_top n mem dest src)
unfolding memcpy_top
memcpy_top-IsMoved zero mem dest src c a = IsMoved-none mem dest src a
memcpy_top-IsMoved (suc n) mem dest src c a = elim (Bool-cases (dest % 4 == 0)) [
  | inl aligned ↦ ground (arith, aligned, memcpy_aligned-IsMoved (suc n) mem dest src c a)
  | inr unaligned ↦
      let e : 1 + n ≡ suc n = omega arith in
      let rest =
        IsMoved-join mem (move8 mem dest src) _ dest src 1 n (suc n) e c
          (move8-IsMoved mem dest src)
          (memcpy_top-IsMoved n (move8 mem dest src) (dest + 1) (src + 1)
            (IsClear-next dest src 1 n (suc n) e c))
          a in
      ground (arith, unaligned, rest)
]

-- On blocks that do not overlap, or where the destination lies below the source, `memcpy` is a
-- move of the block, whatever the alignment of the destination: the copy of single bytes up to
-- a multiple of 4, of words and of the last bytes agree with it at every address.
pub memcpy_lem :
    (mem : ℕ → ℕ) (dest src n : ℕ)
    → (dest ≤ src) ⊎ (src + n ≤ dest)
    → (a : ℕ) → memcpy mem dest src n a ≡ moved mem dest src n a
unfolding memcpy
memcpy_lem mem dest src n c = memcpy_top-IsMoved n mem dest src c

movsb_down-IsMoved :
    (n : ℕ) (mem : ℕ → ℕ) (dest src edi esi : ℕ)
    → src < dest
    → edi ≡ dest + n - 1
    → esi ≡ src + n - 1
    → IsMoved mem dest src n (movsb_down n mem edi esi)
unfolding movsb_down
movsb_down-IsMoved zero mem dest src edi esi h ed es a = IsMoved-none mem dest src a
movsb_down-IsMoved (suc n) mem dest src edi esi h ed es a =
    let next = move8 mem edi esi in
    let rest =
      movsb_down-IsMoved n next dest src (edi - 1) (esi - 1) h (omega arith) (omega arith) a in
    elim (Bool-cases (edi == a)) [
      | inl last ↦
          let from : esi ≡ src + (a - dest) = ground arith in
          rest ∙ ground (arith, last) ∙ ap mem from ∙ ground (arith, last)
      | inr other ↦ rest ∙ ground (arith, other)
    ]

-- `memmove` is a move of the block however the two blocks overlap.
pub memmove_lem :
    (mem : ℕ → ℕ) (dest src n a : ℕ) → memmove mem dest src n a ≡ moved mem dest src n a
unfolding memmove
memmove_lem mem dest src n a = elim (Bool-cases (leb dest src)) [
  | inl up ↦ ground (arith, up, movsb-IsMoved n mem dest src (inl (ground arith)) a)
  | inr down ↦
      ground (arith, down, movsb_down-IsMoved n mem dest src _ _ (ground arith) refl refl a)
]
