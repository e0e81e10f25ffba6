-- ===== src/Scheduling.antt =====
-- Which process runs: student-distrib/scheduling.c, task_switch.c and the handler of pit.c.
pub mod Turns
use illinix_operating_system.Base.{
  ℕ, zero, suc, ◌+◌, ◌-◌, ◌%◌, ◌^◌, Bool, ◌||◌, Option, none, some, List, ltb, ◌==◌, if◌then◌else◌,
  Reader, ◌>>=◌, u32, minus_one,
}
use illinix_operating_system.Base.Ports.{PortWrite}
use illinix_operating_system.Pic.{send_eoi}
use illinix_operating_system.Screen.{Screen, switch_screen, clear}
use illinix_operating_system.Paging.{create_page}
use illinix_operating_system.Processes.{
  Processes, Context, Executed, failed, enters, put, kernel_ds, kernel_stack_of, execute,
}

abbrev pub max_tty : ℕ
max_tty = 3

abbrev pub tty_unopened : ℕ
tty_unopened = 255

-- The loop of `get_next_process`, on fuel. `tops` is `tty_top_pid` and what lies behind it in
-- memory: the first index may be 3.
unfoldable pub skip_unopened : ℕ → (ℕ → ℕ) → ℕ → Option ℕ
skip_unopened zero tops next_tty = none
skip_unopened (suc fuel) tops next_tty =
    let rest = skip_unopened fuel tops ((next_tty + 1) % max_tty) in
    if tops next_tty == tty_unopened then rest else some next_tty

-- The index that the loop finds is not used. Four rounds visit every terminal.
unfoldable pub get_next_process : (ℕ → ℕ) → ℕ → Option ℕ
get_next_process tops curr_tty =
    skip_unopened 4 tops (curr_tty + 1) >>= λ next_tty. some (tops curr_tty)

-- The return of `switch_process`, or the ebp and esp of the process it goes on with.
pub data Switched : Type 0 where
  stays : Processes → Switched
  goes_to : ℕ → ℕ → Processes → Switched

-- The processor's state for another process: its page and its kernel stack.
unfoldable pub enter_process : ℕ → ℕ → Processes → Processes
enter_process table_at n s = record s {
  paging = create_page table_at n s.paging;
  ss0 = kernel_ds;
  esp0 = kernel_stack_of n;
}

-- `switch_process` on the kernel stack of `w.caller`. `next_pcb` is the block of that number.
unfoldable pub switch_process : Context → Processes → Option Switched
unfolding enter_process
switch_process w s =
    let curr = s.pcbs w.caller in
    let saved = record s {
      pcbs = put s.pcbs w.caller (record curr { ebp = w.ebp; esp = w.esp });
    } in
    get_next_process s.tty_top_pid curr.tty >>= λ next.
    let next_pcb = saved.pcbs next in
    some (
      if next == minus_one || next == curr.process_num
      then stays saved
      else goes_to next_pcb.ebp next_pcb.esp (enter_process w.table_at next saved))

-- `pit_handler`.
unfoldable pub pit_handler : Context → Processes → Option (List PortWrite × Switched)
pit_handler w s = switch_process w s >>= λ r. some (send_eoi 0, r)

-- `switch_to_tty` starts a shell on a terminal without one, or goes on with the process there. If
-- the shell cannot be started it returns, and the processes are as at the call of `sys_execute`.
pub data TtySwitch : Type 0 where
  starts : ℕ → ℕ → Processes → Screen → TtySwitch
  cannot_start : ℕ → Processes → Screen → TtySwitch
  shows : ℕ → ℕ → Processes → Screen → TtySwitch

-- The return of `sys_execute` to `switch_to_tty`, or the start of the program.
unfoldable pub start_tty : Processes → Screen → Executed → TtySwitch
start_tty fresh screen (failed r) = cannot_start r fresh screen
start_tty fresh screen (enters eip esp s) = starts eip esp s screen

-- `shell` is the text "shell".
unfoldable pub switch_to_tty : Reader → Context → Reader → ℕ → Processes → Screen → Option TtySwitch
unfolding enter_process
switch_to_tty disk w shell tty s screen =
    let screen' = switch_screen s.active_tty tty screen in
    let active = record s { active_tty = tty } in
    let fresh = record active { next_one_is_root_shell = Bool.true } in
    let started = execute disk w fresh shell >>= λ e. some (start_tty fresh (clear screen') e) in
    let next = s.tty_top_pid tty in
    let pcb = s.pcbs next in
    if next == tty_unopened
    then started
    else some (shows pcb.ebp pcb.esp (enter_process w.table_at next active) screen')
