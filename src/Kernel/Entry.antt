-- ===== src/Kernel/Entry.antt =====
-- The second half of `entry` of student-distrib/kernel.c, and `entry` as a whole: the kernel sets
-- up the processor, the devices and the first terminal and starts the shell. `cli`, `sti`,
-- `lidt`, `lldt`, `ltr` and `paging_enable` only talk to the processor. No interrupt comes between
-- `sti` and the shell.
pub mod Sent
pub mod Started
pub mod Refused
use illinix_operating_system.Base.{
  ℕ, zero, suc, ◌+◌, ◌-◌, ◌*◌, ◌%◌, ◌^◌, Bool, true, false, Option, none, some, List, [], ◌∷◌, ◌++◌,
  ltb, ◌==◌, if◌then◌else◌, Reader, ◌>>=◌, offset_by,
}
use illinix_operating_system.Base.Ports.{PortWrite}
use illinix_operating_system.Base.Text.{text}
use illinix_operating_system.Screen.{Screen}
use illinix_operating_system.Printf.{Buffers, printf}
use illinix_operating_system.Kernel.Descriptors.{SegDesc, the_ldt_desc, the_tss_desc}
use illinix_operating_system.Kernel.Multiboot.{MultibootInfo, Checked, refused, passed, check_boot}
use illinix_operating_system.Idt.{IdtDesc, load_idt}
use illinix_operating_system.Pic.{i8259_init, enable_irq}
use illinix_operating_system.Rtc.{init_rtc}
use illinix_operating_system.Pit.{pit_init}
use illinix_operating_system.Paging.{paging_init}
use illinix_operating_system.Terminal.{terminal_open}
use illinix_operating_system.Calls.{Devices}
use illinix_operating_system.Processes.{
  Processes, Context, Executed, execute, kernel_ds, max_num_processes,
}
use illinix_operating_system.Scheduling.{tty_unopened}

abbrev pub kernel_ldt : ℕ
kernel_ldt = 0x38

-- What the kernel keeps; `tss` of x86_desc.S has its other fields in `processes`.
pub record Machine : Type 0 where
  pub devices : Devices
  pub processes : Processes
  pub idt : ℕ → IdtDesc
  pub ldt_desc_ptr : SegDesc
  pub tss_desc_ptr : SegDesc
  pub ldt_segment_selector : ℕ
  pub boot_block : ℕ

-- What x86_desc.S and the linker give, and the byte that `init_rtc` reads from the clock.
pub record Linked : Type 0 where
  pub ldt : ℕ
  pub ldt_size : ℕ
  pub tss : ℕ
  pub tss_size : ℕ
  pub junk_desc : SegDesc
  pub rtc_register : ℕ

abbrev pub with_screen : Screen → Devices → Devices
with_screen s d = record d { terminal = record d.terminal { screen = s } }

-- Interrupt `irq_num` is enabled.
enable : ℕ → Devices → Devices
enable irq_num d =
    let (mask, sent) = enable_irq d.irq_mask irq_num in
    record d { irq_mask = mask; ports = d.ports ++ sent }

abbrev send : List PortWrite → Devices → Devices
send sent d = record d { ports = d.ports ++ sent }

-- The interrupt controller and the clock.
start_devices : ℕ → Devices → Devices
start_devices rtc_register d =
    enable 8 (enable 2 (enable 1 (send (init_rtc rtc_register) (send i8259_init d))))

-- The timer and the terminals, which all show terminal 0.
start_terminal : Devices → Devices
start_terminal d =
    let timed = enable 0 (send pit_init d) in
    let terminal = (terminal_open timed.terminal).1 in
    record timed { terminal = record terminal { active_tty = 0 } }

-- The processes before the first shell, with the stack of the TSS.
start_processes : ℕ → Processes → Processes
start_processes table_at s = record s {
  ss0 = kernel_ds;
  esp0 = 0x80_0000;
  processes = λ i. if ltb i max_num_processes then 0 else s.processes i;
  paging = paging_init table_at s.paging;
  active_tty = 0;
  tty_top_pid = λ tty. if ltb tty 3 then tty_unopened else s.tty_top_pid tty;
  next_one_is_root_shell = true;
}

-- The state at the call of `sys_execute`; `s` is the screen after the last line.
unfoldable pub start : Linked → ℕ → Machine → ℕ → Screen → Machine
unfolding enable start_devices start_terminal start_processes
start linked table_at m boot_block s =
    let started = start_devices linked.rtc_register m.devices in
    record {
      ldt_desc_ptr = the_ldt_desc linked.junk_desc linked.ldt linked.ldt_size;
      tss_desc_ptr = the_tss_desc linked.junk_desc linked.tss linked.tss_size;
      ldt_segment_selector = kernel_ldt;
      idt = load_idt m.idt;
      devices = start_terminal (with_screen s started);
      processes = start_processes table_at m.processes;
      boot_block = boot_block;
    }

-- `entry` returns, or has called `sys_execute` for the shell and spins if that fails.
pub data Entered : Type 0 where
  returned : Machine → Entered
  started : Machine → Executed → Entered

-- `entry` after `check_boot`. `shell` leads to the text "shell" and on to what lies behind it,
-- where `parse_args` looks for arguments.
enter : Reader → Reader → Linked → Context → Buffers → Machine → Checked → Option Entered
enter memory shell linked w b m (refused s) =
    some (returned (record m { devices = with_screen s m.devices }))
enter memory shell linked w b m (passed boot_block s) = do
  (shown, s') ← printf b (text "Enabling Interrupts\n") [] s
  let ready = start linked w.table_at m boot_block s'
  x ← execute (offset_by memory boot_block) w ready.processes shell
  some (started ready x)

unfoldable pub entry :
    Reader → Reader → Linked → Context → Buffers → Machine → ℕ → MultibootInfo → Option Entered
unfolding enter
entry memory shell linked w b m magic mbi = do
  checked ← check_boot memory b m.boot_block magic mbi m.devices.terminal.screen
  enter memory shell linked w b m checked
