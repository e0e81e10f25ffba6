-- ===== src/Idt/Exceptions.antt =====
-- The exception handlers of student-distrib/idt.c: each turns the interrupts off, prints its
-- message and halts the process with status 1.
use Prim.Native.String.{String}
use illinix_operating_system.Base.{ℕ, Bool, true, none, some, Option}
use illinix_operating_system.Idt as idt

-- What a handler does before it calls `halt`, and the status it passes.
pub record Handled : Type 0 where
  pub interrupts_off : Bool
  pub message : String
  pub status : ℕ

abbrev halts : String → Handled
halts m = record { interrupts_off = true; message = m; status = 1 }

unfoldable pub divide_zero_exception : Handled
divide_zero_exception = halts "divide by zero exception.\n"

unfoldable pub single_step_exception : Handled
single_step_exception = halts "Single step exception.\n"

unfoldable pub nmi_exception : Handled
nmi_exception = halts "NMI exception.\n"

unfoldable pub breakpoint_exception : Handled
breakpoint_exception = halts "Breakpoint exception.\n"

unfoldable pub overflow_exception : Handled
overflow_exception = halts "Overflow exception.\n"

unfoldable pub bounds_exception : Handled
bounds_exception = halts "Bounds exception.\n"

unfoldable pub invalid_opcode_exception : Handled
invalid_opcode_exception = halts "Invalid opcode exception.\n"

unfoldable pub coprocessor_exception : Handled
coprocessor_exception = halts "Coprocessor exception.\n"

unfoldable pub double_fault_exception : Handled
double_fault_exception = halts "Double fault exception.\n"

unfoldable pub segment_overrun_exception : Handled
segment_overrun_exception = halts "Segment overrun exception.\n"

unfoldable pub invalid_tss_exception : Handled
invalid_tss_exception = halts "Invalid tss exception.\n"

unfoldable pub segment_not_present_exception : Handled
segment_not_present_exception = halts "Segment not present exception.\n"

unfoldable pub stack_fault_exception : Handled
stack_fault_exception = halts "Stack fault exception.\n"

unfoldable pub general_protection_exception : Handled
general_protection_exception = halts "General protection exception.\n"

unfoldable pub page_fault_exception : Handled
page_fault_exception = halts "Page fault exception.\n"

unfoldable pub math_fault_exception : Handled
math_fault_exception = halts "Math fault exception.\n"

unfoldable pub alignment_check_exception : Handled
alignment_check_exception = halts "Alignment check exception.\n"

unfoldable pub machine_check_exception : Handled
machine_check_exception = halts "Machine check exception.\n"

unfoldable pub simd_exception : Handled
simd_exception = halts "Simd exception.\n"

-- The handler of a gate, where it is one of an exception.
unfoldable pub handle : idt.Handler → Option Handled
unfolding divide_zero_exception single_step_exception nmi_exception breakpoint_exception
    overflow_exception bounds_exception invalid_opcode_exception coprocessor_exception
    double_fault_exception segment_overrun_exception invalid_tss_exception
    segment_not_present_exception stack_fault_exception general_protection_exception
    page_fault_exception math_fault_exception alignment_check_exception machine_check_exception
    simd_exception
handle idt.kb_interrupt = none
handle idt.rtc_interrupt = none
handle idt.pit_interrupt = none
handle idt.sys_call = none
handle idt.divide_zero_exception = some divide_zero_exception
handle idt.single_step_exception = some single_step_exception
handle idt.nmi_exception = some nmi_exception
handle idt.breakpoint_exception = some breakpoint_exception
handle idt.overflow_exception = some overflow_exception
handle idt.bounds_exception = some bounds_exception
handle idt.invalid_opcode_exception = some invalid_opcode_exception
handle idt.coprocessor_exception = some coprocessor_exception
handle idt.double_fault_exception = some double_fault_exception
handle idt.segment_overrun_exception = some segment_overrun_exception
handle idt.invalid_tss_exception = some invalid_tss_exception
handle idt.segment_not_present_exception = some segment_not_present_exception
handle idt.stack_fault_exception = some stack_fault_exception
handle idt.general_protection_exception = some general_protection_exception
handle idt.page_fault_exception = some page_fault_exception
handle idt.math_fault_exception = some math_fault_exception
handle idt.alignment_check_exception = some alignment_check_exception
handle idt.machine_check_exception = some machine_check_exception
handle idt.simd_exception = some simd_exception
