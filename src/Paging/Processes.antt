-- ===== src/Paging/Processes.antt =====
-- Each process sees its own 4 MB at 128 MB, and the video page where `set_vidmap` says.
use illinix_operating_system.Base.{
  ℕ, ◌+◌, ◌*◌, ◌/◌, ◌%◌, ◌^◌, ◌<◌, ◌≡◌, ◌≢◌, some, arith, bit_or, u32, ◌∙◌, sym, eq_of_some,
}
use illinix_operating_system.Base.Bits.{bit_or_fields, bit_or_assoc}
use illinix_operating_system.Paging.{Paging, create_page, set_vidmap}
use illinix_operating_system.Paging.Walk.{translate}

-- The flags are added below a frame address.
user_large : (q : ℕ) → bit_or (bit_or (bit_or (q * 2 ^ 22) 0x80) 0x7) 0x1 ≡ q * 2 ^ 22 + 0x87
user_large q =
    rw (bit_or_assoc (bit_or (q * 2 ^ 22) 0x80) 0x7 0x1, bit_or_assoc (q * 2 ^ 22) 0x80 0x7)
      (bit_or_fields 22 q 0x87 (omega arith))

pub user_table : (q : ℕ) → bit_or (bit_or (q * 2 ^ 12) 0x7) 0x1 ≡ q * 2 ^ 12 + 0x7
user_table q = rw bit_or_assoc (bit_or_fields 12 q 0x7 (omega arith))

pub user_table_swap : (q : ℕ) → bit_or (bit_or (q * 2 ^ 12) 0x1) 0x7 ≡ q * 2 ^ 12 + 0x7
user_table_swap q = rw bit_or_assoc (bit_or_fields 12 q 0x7 (omega arith))

pub kernel_table : (q : ℕ) → bit_or (q * 2 ^ 12) 0x1 ≡ q * 2 ^ 12 + 0x1
kernel_table q = bit_or_fields 12 q 0x1 (omega arith)

-- Where process number `process` has its 4 MB.
abbrev pub process_base : ℕ → ℕ
process_base process = 0x800000 + process * 0x400000

pub process_entry :
    (process : ℕ)
    → process < 1022
    → bit_or (bit_or (bit_or (u32 (0x800000 + process * 0x400000)) 0x80) 0x7) 0x1
      ≡ process_base process + 0x87
process_entry process h =
    let frame : u32 (0x800000 + process * 0x400000) ≡ (process + 2) * 2 ^ 22 = omega arith in
    rw frame (user_large (process + 2) ∙ omega arith)

pub entry_translates :
    (table_at process x : ℕ) (p : Paging)
    → p.page_dir 32 ≡ process_base process + 0x87
    → x < 0x400000
    → translate table_at p (0x8000000 + x) ≡ some (process_base process + x)
unfolding translate
entry_translates table_at process x p e h =
    let slot : (0x8000000 + x) / 2 ^ 22 ≡ 32 = omega arith in rw (slot, e) (ground arith)

-- After `create_page` every address of the 4 MB from 128 MB on leads to the same place in the
-- 4 MB of the process.
pub create_page_translates :
    (table_at process x : ℕ) (p : Paging)
    → process < 1022
    → x < 0x400000
    → translate table_at (create_page table_at process p) (0x8000000 + x)
      ≡ some (process_base process + x)
unfolding create_page
create_page_translates table_at process x p hp hx =
    entry_translates table_at process x (create_page table_at process p) (process_entry process hp)
      hx

-- Two processes never share a byte of their 4 MB.
pub processes_apart :
    (table_at a b x y : ℕ) (p q : Paging)
    → a < 1022
    → b < 1022
    → a ≢ b
    → x < 0x400000
    → y < 0x400000
    → translate table_at (create_page table_at a p) (0x8000000 + x)
      ≢ translate table_at (create_page table_at b q) (0x8000000 + y)
processes_apart table_at a b x y p q ha hb ne hx hy e =
    let same = eq_of_some (
      sym (create_page_translates table_at a x p ha hx)
      ∙ e
      ∙ create_page_translates table_at b y q hb hy) in
    absurd (omega (arith, same))

-- After `set_vidmap` the page at the address that it returns is the video page.
pub set_vidmap_translates :
    (frame x : ℕ) (p : Paging)
    → x < 0x1000
    → let table_at = frame * 2 ^ 12 in
      translate table_at (set_vidmap table_at p).1 ((set_vidmap table_at p).0 + x)
      ≡ some (0xb8000 + x)
unfolding set_vidmap translate
set_vidmap_translates frame x p h =
    let dir : (33 * 2 ^ 12 + x) / 2 ^ 22 ≡ 0 = omega arith in
    let slot : (33 * 2 ^ 12 + x) / 2 ^ 12 % 1024 ≡ 33 = omega arith in
    rw (dir, slot, user_table frame) (ground arith)
