-- ===== src/Lib.antt =====
-- The kernel of the Illinix operating system: a 32-bit x86 kernel with a text screen, a keyboard,
-- three terminals, a read-only file system, processes in 4 MB pages and ten system calls.
--
-- The interrupt table (`Idt`) leads to the handlers of the exceptions, the keyboard, the clock
-- and the timer, and to the system calls. The keyboard's handler turns scan codes into calls of
-- the terminal's write. The calls on descriptors go through the jump table of the descriptor to
-- the terminal, the clock, a directory or a file; `execute` finds a program in the file system,
-- maps the page of its process and loads it, and `halt` returns to the parent.
--
-- Each file models one part of the directory student-distrib, or of syscalls:
--   Base           shared: tests, lists as C arrays, memory, machine words, port writes
--   Strings        lib.c: strlen, strncmp, strcpy, strncpy, strrev, itoa
--   Screen         lib.c: switch_screen, update_cursor, clear, bksp, puts, putc, putc_at,
--                  test_interrupts
--   Printf         lib.c: printf
--   Blocks         lib.c: memset, memset_word, memset_dword, memcpy, memmove, as their assembly
--   Pcb            pcb.h and pcb.c: the control block, create_pcb
--   Filesys        filesys.c: every function
--   Pic            i8259.c: every function
--   Paging         paging.c: paging_init, create_page, set_vidmap; `Paging/Walk` is what the
--                  processor does with the tables
--   Rtc            rtc.c: every function
--   Pit            pit.c: pit_init
--   Terminal       dev/terminal.c: every function
--   Keyboard       idt.c: kb_interrupt_do
--   Idt            idt.c: load_idt and the exception handlers
--   Calls          system.c: read, write, open (`open_descriptor`), close, getargs, vidmap,
--                  set_handler, sigreturn
--   Program        system.c: parse_args, check_validity, load_file
--   Processes      system.c: execute, halt
--   Scheduling     scheduling.c, task_switch.c and pit_handler of pit.c
--   Kernel         kernel.c: entry, with the structures of multiboot.h and x86_desc.h, and the
--                  steps that the kernel takes from there
--   Programs       the programs of syscalls: `Cat`, `Ls`, `Shell`, `Hello` (with testprint),
--                  `Counter`, `Grep`, `Pingpong` and `Syserr` are ece391cat.c and so on,
--                  `Support` is ece391support.c; `Actions` is the calls of the kernel as a
--                  program makes them, and sys_call of student-distrib/handlers.S stands in `Syserr`
--   Tests          the properties at concrete inputs
--
-- An `int` or `uint32_t` is its bit pattern, a number below 2 ^ 32. Memory that is read through a
-- pointer is a function to bytes that may be missing, a buffer that is written is a list, and an
-- access outside of either is `none`, a fault. State is a record that the operations take and
-- return; what is sent to a port is a list of writes. What lies uninitialised on the stack, and
-- what the code takes from registers, are arguments.
--
-- Fuel: `strlen` and `strcpy` have 2 ^ 32 rounds, the size of the address space; `itoa` has as
-- many rounds as its value, which falls at each; `rtc_write` has 11, for frequencies below 2 ^ 11;
-- `load_file` has one more than the length of the file; `get_next_process` has 4, which visit
-- every terminal. The spin of `rtc_read` takes the list of the turns that pass.
-- `printf` and `specifier` have 2 ^ 32 rounds too; the loop over the boot loader's memory map has
-- one more than there are addresses, since an entry may lead back. `cat` and `ls` run on as
-- many rounds as they are given; one more than the bytes of the file, or the entries, is enough.
-- `shell` has a round for each line. `ece391_strcmp` and `ece391_strcpy` have 2 ^ 32
-- rounds. For a file `grep` has as many rounds as it is given, two when the file fits into its
-- array, and for the lines in the array one more than the array holds characters. The loop of
-- `pingpong` has no end.
--
-- Not modelled: paging_enable, which sets control registers; get_pcb, which reads esp; the
-- assembly files apart from the dispatch of the system calls; tests.c; of the programs, sigtest,
-- fish and the emulation on Linux. What the
-- program does that the shell starts is an argument of it. The interrupt flag is not part of the states, and an interrupt between sti and the first shell is
-- left out. `load_file` states the effect of its memcpy, which faults behind the one page of 4 MB.
-- What lies around the array of the terminals' lines is not known: a read that comes into it, for
-- a negative count, is a fault.
pub mod Base
pub mod Strings
pub mod Screen
pub mod Printf
pub mod Blocks
pub mod Pcb
pub mod Filesys
pub mod Pic
pub mod Paging
pub mod Rtc
pub mod Pit
pub mod Terminal
pub mod Keyboard
pub mod Calls
pub mod Idt
pub mod Program
pub mod Processes
pub mod Scheduling
pub mod Kernel
pub mod Programs
pub mod Tests
