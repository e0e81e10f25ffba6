-- ===== src/Kernel/Descriptors.antt =====
-- The descriptors of student-distrib/x86_desc.h that `entry` of student-distrib/kernel.c makes
-- for the LDT and the TSS. A field of `w` bits keeps the low `w` bits of what it is given.
use illinix_operating_system.Base.{ℕ, ◌+◌, ◌*◌, ◌/◌, ◌%◌, ◌^◌, ◌<◌, ◌≡◌, arith}

-- `seg_desc_t`.
pub record SegDesc : Type 0 where
  pub seg_lim_15_00 : ℕ
  pub base_15_00 : ℕ
  pub base_23_16 : ℕ
  pub type : ℕ
  pub sys : ℕ
  pub dpl : ℕ
  pub present : ℕ
  pub seg_lim_19_16 : ℕ
  pub avail : ℕ
  pub reserved : ℕ
  pub opsize : ℕ
  pub granularity : ℕ
  pub base_31_24 : ℕ

-- `SET_LDT_PARAMS` and `SET_TSS_PARAMS`, which are alike.
unfoldable pub set_params : SegDesc → ℕ → ℕ → SegDesc
set_params str addr lim = record str {
  base_31_24 = addr / 2 ^ 24 % 2 ^ 8;
  base_23_16 = addr / 2 ^ 16 % 2 ^ 8;
  base_15_00 = addr % 2 ^ 16;
  seg_lim_19_16 = lim / 2 ^ 16 % 2 ^ 4;
  seg_lim_15_00 = lim % 2 ^ 16;
}

abbrev pub tss_size_const : ℕ
tss_size_const = 104

-- The descriptor of the LDT; `desc` is uninitialised.
pub the_ldt_desc : SegDesc → ℕ → ℕ → SegDesc
the_ldt_desc desc ldt ldt_size =
    set_params
      (record desc {
        granularity = 0;
        opsize = 1;
        reserved = 0;
        avail = 0;
        present = 1;
        dpl = 0;
        sys = 0;
        type = 2;
      })
      ldt ldt_size

pub the_tss_desc : SegDesc → ℕ → ℕ → SegDesc
the_tss_desc desc tss tss_size =
    set_params
      (record desc {
        granularity = 0;
        opsize = 0;
        reserved = 0;
        avail = 0;
        seg_lim_19_16 = tss_size_const / 2 ^ 16 * 2 ^ 16 % 2 ^ 4;
        present = 1;
        dpl = 0;
        sys = 0;
        type = 9;
        seg_lim_15_00 = tss_size_const % 2 ^ 16;
      })
      tss tss_size

-- The address and the limit that the processor reads from a descriptor.
abbrev pub base : SegDesc → ℕ
base desc = desc.base_31_24 * 2 ^ 24 + desc.base_23_16 * 2 ^ 16 + desc.base_15_00

abbrev pub limit : SegDesc → ℕ
limit desc = desc.seg_lim_19_16 * 2 ^ 16 + desc.seg_lim_15_00

-- The processor reads from a descriptor the 32-bit address and the 20-bit limit that
-- `SET_LDT_PARAMS` and `SET_TSS_PARAMS` were given.
pub set_params_lem :
    (desc : SegDesc) (addr lim : ℕ)
    → addr < 2 ^ 32
    → lim < 2 ^ 20
    → (base (set_params desc addr lim) ≡ addr) × (limit (set_params desc addr lim) ≡ lim)
unfolding set_params
set_params_lem desc addr lim a l = (omega arith, omega arith)
