-- ===== src/Tests/Kernel.antt =====
-- Witnesses for the start of the kernel and the refusal of descriptors.
use illinix_operating_system.Base.{
  ℕ, ◌≡◌, inl, inr, refl, arith, true, false, some, List, [], ◌∷◌, ◌++◌, replicate, Reader,
  minus_one,
}
use illinix_operating_system.Base.Int.{pos}
use illinix_operating_system.Base.Text.{text, codes}
use illinix_operating_system.Screen.{Screen, clear}
use illinix_operating_system.Screen.Texts.{show_all}
use illinix_operating_system.Calls.{Devices, call_returns, read, write, close}
use illinix_operating_system.Calls.Transfer.{refused}
use illinix_operating_system.Program.{parse_args}
use illinix_operating_system.Strings.{strlen, itoa}
use illinix_operating_system.Base.{store}
use illinix_operating_system.Screen.{puts}
use illinix_operating_system.Processes.{Processes, put, enters, execute, find_process, child_state}
use illinix_operating_system.Scheduling.{switch_process, stays, get_next_process, skip_unopened}
use illinix_operating_system.Tests.Image.{
  junk_pcb, junk_dentry, context, image, disk, program, loaded_page, entry_point, stack_top,
  image_enters,
}
use illinix_operating_system.Processes.Soundness.{IsSound}
use illinix_operating_system.Idt.{IdtDesc, divide_zero_exception}
use illinix_operating_system.Printf.{Buffers, printf, specifier, printf_from, convert}
use illinix_operating_system.Kernel.Descriptors.{SegDesc}
use illinix_operating_system.Kernel.Multiboot.{MultibootInfo, check_boot, check_flags, passed}
use illinix_operating_system.Kernel.Entry.{Machine, Linked, started, start, entry}
use illinix_operating_system.Kernel.Steps.{IsLive, executes, stays_on, here, next}
use illinix_operating_system.Printf.Formats.{IsPadded, IsRoomy}
use illinix_operating_system.Kernel.Entry.{returned, with_screen}
use illinix_operating_system.Kernel.Entry.Refused.{message, entry_refused}
use illinix_operating_system.Kernel.Entry.Started.{IsReady, entry-IsReady, entry-IsSound}

abbrev screen : Screen
screen = record {
  screen_x = 0;
  screen_y = 0;
  video_mem = λ a. 0;
  screen_buf = λ t a. 0;
  screen_loc_buf = λ t. (0, 0);
  ports = [];
}

abbrev devices : Devices
devices = record {
  terminal = record {
    terminal_buffer = λ i. 0;
    tail = λ t. pos 0;
    enter_status = false;
    active_tty = 2;
    screen = screen;
  };
  irq_mask = 0xffff;
  ports = [];
}

refused_example :
    (read
        (λ i. some 0)
        (record {
          rtc_register = 0;
          rtc_flag = 1;
          rtc_turns = [];
          junk_rate = 0;
          junk_dentry = junk_dentry;
        })
        junk_pcb
        devices
        8
        (1 ∷ [])
        1
      ≡ call_returns minus_one (1 ∷ []) junk_pcb devices)
    × (write
          (record {
            rtc_register = 0;
            rtc_flag = 1;
            rtc_turns = [];
            junk_rate = 0;
            junk_dentry = junk_dentry;
          })
          junk_pcb
          devices
          8
          (λ i. some 0)
          1
        ≡ some (minus_one, devices))
    × (close junk_pcb devices 8 ≡ (minus_one, junk_pcb, devices))
refused_example =
    refused (λ i. some 0)
      (record {
        rtc_register = 0;
        rtc_flag = 1;
        rtc_turns = [];
        junk_rate = 0;
        junk_dentry = junk_dentry;
      })
      junk_pcb devices 8 (1 ∷ []) (λ i. some 0) 1 (inl (omega arith))

abbrev buffers : Buffers
buffers = record { conv_64 = replicate 64 7; conv_36 = replicate 36 7 }

buffers-IsRoomy : IsRoomy buffers
buffers-IsRoomy = record { room_64 = omega arith; room_36 = omega arith }

abbrev processes : Processes
processes = record {
  processes = λ i. 7;
  curr_process = 0;
  pcbs = λ n. junk_pcb;
  memory = λ n a. 0;
  tty_top_pid = λ t. 0;
  active_tty = 9;
  next_one_is_root_shell = false;
  paging = record { page_dir = λ i. 0; page_table = λ i. 0 };
  ss0 = 0;
  esp0 = 0;
}

abbrev junk_desc : SegDesc
junk_desc = record {
  seg_lim_15_00 = 1;
  base_15_00 = 1;
  base_23_16 = 1;
  type = 1;
  sys = 1;
  dpl = 1;
  present = 0;
  seg_lim_19_16 = 1;
  avail = 1;
  reserved = 1;
  opsize = 1;
  granularity = 1;
  base_31_24 = 1;
}

abbrev idt_desc : IdtDesc
idt_desc = record {
  handler = divide_zero_exception;
  seg_selector = 0;
  reserved4 = 0;
  reserved3 = 0;
  reserved2 = 0;
  reserved1 = 0;
  size = 0;
  reserved0 = 0;
  dpl = 0;
  present = 0;
}

abbrev machine : Machine
machine = record {
  devices = devices;
  processes = processes;
  idt = λ i. idt_desc;
  ldt_desc_ptr = junk_desc;
  tss_desc_ptr = junk_desc;
  ldt_segment_selector = 0;
  boot_block = 0;
}

abbrev linked : Linked
linked = record {
  ldt = 0x40_1000;
  ldt_size = 7;
  tss = 0x40_2000;
  tss_size = 103;
  junk_desc = junk_desc;
  rtc_register = 0;
}

-- A boot loader that says nothing. The memory holds the image.
abbrev mbi : MultibootInfo
mbi = record {
  flags = 0;
  mem_lower = 0;
  mem_upper = 0;
  boot_device = 0;
  cmdline = 0;
  mods_count = 0;
  mods_addr = 0;
  elf_sec = record { num = 0; size = 0; addr = 0; shndx = 0 };
  mmap_length = 0;
  mmap_addr = 0;
}

abbrev shown_screen : Screen
shown_screen =
    show_all (codes "Enabling Interrupts\n")
      (show_all (codes "flags = 0x00000000\n") (clear screen))

checked :
    check_boot image buffers 0 0x2bad_b002 mbi screen
    ≡ some (passed 0 (show_all (codes "flags = 0x00000000\n") (clear screen)))
unfolding check_boot check_flags printf printf_from specifier convert puts itoa strlen store
checked = refl

abbrev shell_path : Reader
shell_path = text "shell\0"

is_masked : machine.devices.irq_mask ≡ 0xffff
is_masked = refl

ready : Machine
ready = start linked 0x50_0000 machine 0 shown_screen

free_process : find_process 6 ready.processes.processes 0 ≡ some 0
unfolding ready start find_process
free_process = refl

no_args : parse_args shell_path ≡ some (program, replicate 140 0)
unfolding parse_args store
no_args = refl

-- The processes once the first shell is entered.
shell_runs : Processes
shell_runs =
    child_state context ready.processes 0 (replicate 140 0) (loaded_page (ready.processes.memory 0))

has_shell :
    execute disk context ready.processes shell_path ≡ some (enters entry_point stack_top shell_runs)
unfolding shell_runs
has_shell = image_enters ready.processes shell_path (replicate 140 0) 0 no_args free_process

booted :
    entry image shell_path linked context buffers machine 0x2bad_b002 mbi
    ≡ some (started ready (enters entry_point stack_top shell_runs))
unfolding entry printf printf_from ready
booted = rw (checked, has_shell) refl

entry-IsReady_example : IsReady ready
entry-IsReady_example =
    entry-IsReady image shell_path linked context buffers machine ready 0x2bad_b002 mbi
      (enters entry_point stack_top shell_runs) booted is_masked

-- The shell is live, and the timer finds no other process: it saves ebp and esp.
shell-IsLive : IsLive shell_runs 0
unfolding shell_runs child_state
shell-IsLive = record { in_table = omega arith; marked = λ e. ground (arith, e) }

ticked : Processes
ticked = record shell_runs {
  pcbs = put shell_runs.pcbs 0 (record (shell_runs.pcbs 0) { ebp = 0; esp = 0 });
}

ticks : switch_process context shell_runs ≡ some (stays ticked)
unfolding ticked shell_runs child_state ready start switch_process get_next_process skip_unopened
ticks = refl

-- The first shell is entered, and then the timer interrupts it.
entry-IsSound_example : IsSound ticked
entry-IsSound_example =
    entry-IsSound image shell_path linked context buffers machine ready 0x2bad_b002 mbi
      (enters entry_point stack_top shell_runs) disk ticked booted
      (next (next here (executes context shell_path entry_point stack_top (inr root) has_shell))
        (stays_on context shell-IsLive ticks))
  where
    root : ready.processes.next_one_is_root_shell ≡ true
    root = unfold ready start in refl

entry_refused_example :
    (cs : List ℕ) × (entry image shell_path linked context buffers machine 5 mbi
      ≡ some (
          returned (record machine {
            devices = with_screen (show_all (message ++ (cs ++ b'\n' ∷ [])) (clear screen)) devices;
          })))
    × IsPadded 5 cs
entry_refused_example =
    entry_refused image shell_path linked context buffers machine 5 mbi buffers-IsRoomy
      (omega arith) (λ e. ground (arith, e))
