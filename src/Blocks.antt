-- ===== src/Blocks.antt =====
-- The block operations of student-distrib/lib.c, in inline assembly: memset and its two forms for
-- words, memcpy and memmove. Memory is a function from addresses to bytes. The blocks lie below
-- the end of the address space, so that no address wraps; eax, ecx, edi and esi are arguments.
pub mod Fill
pub mod Move
use illinix_operating_system.Base.{
  ℕ, zero, suc, ◌+◌, ◌-◌, ◌*◌, ◌/◌, ◌%◌, ◌^◌, leb, ◌==◌, if◌then◌else◌, bit_or, u32,
}

-- `movb`: one byte to memory.
abbrev pub store8 : (ℕ → ℕ) → ℕ → ℕ → ℕ → ℕ
store8 mem a v b = if a == b then v else mem b

-- Byte `k` of a register, the lowest first.
abbrev pub byte_of : ℕ → ℕ → ℕ
byte_of w k = w / 2 ^ (8 * k) % 256

-- `movl` of a register, and `movw`.
abbrev pub store32 : (ℕ → ℕ) → ℕ → ℕ → ℕ → ℕ
store32 mem a w =
    store8
      (store8 (store8 (store8 mem a (byte_of w 0)) (a + 1) (byte_of w 1)) (a + 2) (byte_of w 2))
      (a + 3) (byte_of w 3)

abbrev pub store16 : (ℕ → ℕ) → ℕ → ℕ → ℕ → ℕ
store16 mem a w = store8 (store8 mem a (byte_of w 0)) (a + 1) (byte_of w 1)

-- `rep stosl` and `rep stosw`, upwards.
unfoldable pub stosl : ℕ → (ℕ → ℕ) → ℕ → ℕ → ℕ → ℕ
stosl zero mem edi eax = mem
stosl (suc ecx) mem edi eax = stosl ecx (store32 mem edi eax) (edi + 4) eax

unfoldable pub stosw : ℕ → (ℕ → ℕ) → ℕ → ℕ → ℕ → ℕ
stosw zero mem edi eax = mem
stosw (suc ecx) mem edi eax = stosw ecx (store16 mem edi eax) (edi + 2) eax

-- The loop at `.memset_bottom`.
unfoldable pub memset_bottom : ℕ → (ℕ → ℕ) → ℕ → ℕ → ℕ → ℕ
memset_bottom zero mem edi eax = mem
memset_bottom (suc edx) mem edi eax =
    memset_bottom edx (store8 mem edi (byte_of eax 0)) (edi + 1) eax

-- From `.memset_aligned` on.
unfoldable pub memset_aligned : ℕ → (ℕ → ℕ) → ℕ → ℕ → ℕ → ℕ
memset_aligned ecx mem edi eax =
    memset_bottom (ecx % 4) (stosl (ecx / 4) mem edi eax) (edi + 4 * (ecx / 4)) eax

-- The loop at `.memset_top`.
unfoldable pub memset_top : ℕ → (ℕ → ℕ) → ℕ → ℕ → ℕ → ℕ
memset_top zero mem edi eax = mem
memset_top (suc ecx) mem edi eax =
    let rest = memset_top ecx (store8 mem edi (byte_of eax 0)) (edi + 1) eax in
    if edi % 4 == 0 then memset_aligned (suc ecx) mem edi eax else rest

unfoldable pub memset : (ℕ → ℕ) → ℕ → ℕ → ℕ → ℕ → ℕ
memset mem s c n =
    let b = c % 256 in
    memset_top n mem s (bit_or (bit_or (bit_or (b * 2 ^ 24) (b * 2 ^ 16)) (b * 2 ^ 8)) b)

unfoldable pub memset_word : (ℕ → ℕ) → ℕ → ℕ → ℕ → ℕ → ℕ
memset_word mem s c n = stosw n mem s c

unfoldable pub memset_dword : (ℕ → ℕ) → ℕ → ℕ → ℕ → ℕ → ℕ
memset_dword mem s c n = stosl n mem s c

-- One step of `movsb` and of `movsl`: the four bytes are read before any is written.
abbrev pub move8 : (ℕ → ℕ) → ℕ → ℕ → ℕ → ℕ
move8 mem edi esi = store8 mem edi (mem esi)

abbrev pub move32 : (ℕ → ℕ) → ℕ → ℕ → ℕ → ℕ
move32 mem edi esi =
    store8
      (store8 (store8 (store8 mem edi (mem esi)) (edi + 1) (mem (esi + 1))) (edi + 2)
        (mem (esi + 2)))
      (edi + 3) (mem (esi + 3))

-- `rep movsl` upwards, and `rep movsb` upwards and downwards.
unfoldable pub movsl : ℕ → (ℕ → ℕ) → ℕ → ℕ → ℕ → ℕ
movsl zero mem edi esi = mem
movsl (suc ecx) mem edi esi = movsl ecx (move32 mem edi esi) (edi + 4) (esi + 4)

unfoldable pub movsb : ℕ → (ℕ → ℕ) → ℕ → ℕ → ℕ → ℕ
movsb zero mem edi esi = mem
movsb (suc ecx) mem edi esi = movsb ecx (move8 mem edi esi) (edi + 1) (esi + 1)

unfoldable pub movsb_down : ℕ → (ℕ → ℕ) → ℕ → ℕ → ℕ → ℕ
movsb_down zero mem edi esi = mem
movsb_down (suc ecx) mem edi esi = movsb_down ecx (move8 mem edi esi) (edi - 1) (esi - 1)

-- The loop at `.memcpy_bottom`, by single bytes, is `movsb` with edx as its counter.
unfoldable pub memcpy_aligned : ℕ → (ℕ → ℕ) → ℕ → ℕ → ℕ → ℕ
memcpy_aligned ecx mem edi esi =
    let words = ecx / 4 in
    movsb (ecx % 4) (movsl words mem edi esi) (edi + 4 * words) (esi + 4 * words)

-- The loop at `.memcpy_top`.
unfoldable pub memcpy_top : ℕ → (ℕ → ℕ) → ℕ → ℕ → ℕ → ℕ
memcpy_top zero mem edi esi = mem
memcpy_top (suc ecx) mem edi esi =
    let rest = memcpy_top ecx (move8 mem edi esi) (edi + 1) (esi + 1) in
    if edi % 4 == 0 then memcpy_aligned (suc ecx) mem edi esi else rest

unfoldable pub memcpy : (ℕ → ℕ) → ℕ → ℕ → ℕ → ℕ → ℕ
memcpy mem dest src n = memcpy_top n mem dest src

-- The copy runs downwards from the last byte if the source lies below the destination. The last
-- step down may leave the pointers one below 0, where they are not used.
unfoldable pub memmove : (ℕ → ℕ) → ℕ → ℕ → ℕ → ℕ → ℕ
memmove mem dest src n =
    if leb dest src then movsb n mem dest src else movsb_down n mem (dest + n - 1) (src + n - 1)
