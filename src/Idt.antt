-- ===== src/Idt.antt =====
-- student-distrib/idt.c: the interrupt descriptor table, and the handlers of the processor's
-- exceptions. The keyboard's handler is in `Keyboard`.
pub mod Gates
pub mod Exceptions
use illinix_operating_system.Base.{
  ℕ, zero, suc, ◌+◌, Bool, true, ◌||◌, List, [], ◌∷◌, ltb, ◌==◌, if◌then◌else◌,
}

abbrev pub num_vec : ℕ
num_vec = 256

abbrev pub num_reserved_vec : ℕ
num_reserved_vec = 32

abbrev pub sys_call_entry : ℕ
sys_call_entry = 0x80

abbrev pub kernel_cs : ℕ
kernel_cs = 0x10

-- The routines whose address `SET_IDT_ENTRY` stores.
pub data Handler : Type 0 where
  divide_zero_exception single_step_exception nmi_exception : Handler
  breakpoint_exception overflow_exception bounds_exception : Handler
  invalid_opcode_exception coprocessor_exception double_fault_exception : Handler
  segment_overrun_exception invalid_tss_exception segment_not_present_exception : Handler
  stack_fault_exception general_protection_exception page_fault_exception : Handler
  math_fault_exception alignment_check_exception machine_check_exception : Handler
  simd_exception : Handler
  kb_interrupt rtc_interrupt pit_interrupt sys_call : Handler

-- `idt_desc_t`; `handler` stands for the two halves of the offset.
pub record IdtDesc : Type 0 where
  pub handler : Handler
  pub seg_selector : ℕ
  pub reserved4 : ℕ
  pub reserved3 : ℕ
  pub reserved2 : ℕ
  pub reserved1 : ℕ
  pub size : ℕ
  pub reserved0 : ℕ
  pub dpl : ℕ
  pub present : ℕ

-- The descriptor of vector `i` after the body of the loop.
unfoldable pub describe : ℕ → IdtDesc → IdtDesc
describe i old =
    let default = record old {
      seg_selector = kernel_cs;
      dpl = 0;
      present = 1;
      size = 1;
      reserved4 = 0;
      reserved3 = 0;
      reserved2 = 1;
      reserved1 = 1;
      reserved0 = 0;
    } in
    let trap = if ltb i num_reserved_vec then record default { reserved3 = 1 } else default in
    if i == 33 || i == 40 || i == 32
    then record trap {
      seg_selector = kernel_cs;
      present = 1;
      dpl = 0;
      reserved3 = 0;
      reserved2 = 1;
      reserved1 = 1;
      reserved0 = 0;
      size = 1;
    }
    else if i == sys_call_entry
    then record trap { dpl = 3; reserved3 = 1; reserved2 = 1; reserved1 = 1; size = 1 }
    else trap

-- The body of the loop of `load_idt` at vector `i`; it skips 15.
unfoldable pub fill_vector : ℕ → (ℕ → IdtDesc) → ℕ → IdtDesc
unfolding describe
fill_vector i idt j = if i == 15 then idt j else (if i == j then describe i (idt i) else idt j)

-- The loop from vector `i` on.
unfoldable pub fill_vectors : ℕ → ℕ → (ℕ → IdtDesc) → ℕ → IdtDesc
fill_vectors zero i idt = idt
fill_vectors (suc left) i idt = fill_vectors left (i + 1) (fill_vector i idt)

-- The calls of `SET_IDT_ENTRY`, in order.
unfoldable pub entries : List (ℕ × Handler)
entries =
    (0, divide_zero_exception)
    ∷ (1, single_step_exception)
    ∷ (2, nmi_exception)
    ∷ (3, breakpoint_exception)
    ∷ (4, overflow_exception)
    ∷ (5, bounds_exception)
    ∷ (6, invalid_opcode_exception)
    ∷ (7, coprocessor_exception)
    ∷ (8, double_fault_exception)
    ∷ (9, segment_overrun_exception)
    ∷ (10, invalid_tss_exception)
    ∷ (11, segment_not_present_exception)
    ∷ (12, stack_fault_exception)
    ∷ (13, general_protection_exception)
    ∷ (14, page_fault_exception)
    ∷ (16, math_fault_exception)
    ∷ (17, alignment_check_exception)
    ∷ (18, machine_check_exception)
    ∷ (19, simd_exception)
    ∷ (33, kb_interrupt)
    ∷ (40, rtc_interrupt)
    ∷ (0x20, pit_interrupt)
    ∷ (sys_call_entry, sys_call)
    ∷ []

unfoldable pub set_entries : List (ℕ × Handler) → (ℕ → IdtDesc) → ℕ → IdtDesc
set_entries [] idt = idt
set_entries ((v, h) ∷ more) idt =
    set_entries more (λ j. if v == j then record (idt v) { handler = h } else idt j)

unfoldable pub load_idt : (ℕ → IdtDesc) → ℕ → IdtDesc
load_idt idt = set_entries entries (fill_vectors num_vec 0 idt)
