-- ===== src/Processes.antt =====
-- Starting and ending processes: `execute` and `halt` of student-distrib/system.c, with the
-- process table of pcb.h and the terminals' processes of task_switch.h.
pub mod Lifecycle
pub mod Soundness
pub mod Shown
pub mod Ending
use illinix_operating_system.Base.{
  ℕ, zero, suc, ◌+◌, ◌-◌, ◌*◌, ◌%◌, ◌^◌, Bool, true, false, not, ◌&&◌, ◌||◌, Option, none, some,
  List, ltb, leb, ◌==◌, if◌then◌else◌, Reader, ◌>>=◌, store, minus_one, get_elem?, u32, get_or,
  load32, replicate, bytes_at,
}
use illinix_operating_system.Pcb.{Pcb, create_pcb}
use illinix_operating_system.Calls.{Devices, close}
use illinix_operating_system.Paging.{Paging, create_page, four_meg, kernel_bottom}
use illinix_operating_system.Filesys.{Dentry, read_dentry_by_name, read_data, inode_at}
use illinix_operating_system.Program.{parse_args, check_validity, load_file}

abbrev pub max_num_processes : ℕ
max_num_processes = 6

abbrev pub kernel_ds : ℕ
kernel_ds = 0x18

-- The state of the processes. `pcbs n` is the control block of process `n`, and `memory n` what
-- the user page of process `n` holds, by virtual address.
pub record Processes : Type 0 where
  pub processes : ℕ → ℕ
  pub curr_process : ℕ
  pub pcbs : ℕ → Pcb
  pub memory : ℕ → ℕ → ℕ
  pub tty_top_pid : ℕ → ℕ
  pub active_tty : ℕ
  pub next_one_is_root_shell : Bool
  pub paging : Paging
  pub ss0 : ℕ
  pub esp0 : ℕ

abbrev pub put : {A : Type 0} → (ℕ → A) → ℕ → A → ℕ → A
put f i v j = if i == j then v else f j

-- `tss.ss0` and `tss.esp0` for a process.
abbrev pub kernel_stack_of : ℕ → ℕ
kernel_stack_of n = u32 (kernel_bottom + 2 ^ 32 - n * 8192 - 4)

-- The loops of `execute` over the table, from process `i` on.
unfoldable pub find_process : ℕ → (ℕ → ℕ) → ℕ → Option ℕ
find_process zero processes i = none
find_process (suc left) processes i =
    let rest = find_process left processes (i + 1) in if processes i == 0 then some i else rest

-- What the processor and the uninitialised stack give to `execute`: the process whose kernel
-- stack it runs on, ebp and esp, the page table's address, and the stack's junk.
pub record Context : Type 0 where
  pub caller : ℕ
  pub ebp : ℕ
  pub esp : ℕ
  pub table_at : ℕ
  pub junk_dentry : Dentry
  pub junk_bytes : List ℕ
  pub junk_file_data : List ℕ
  pub junk_pcb : Pcb
  pub junk_header : List ℕ

-- `execute` fails, or enters the program at `eip` with the stack at `esp`.
pub data Executed : Type 0 where
  failed : ℕ → Executed
  enters : ℕ → ℕ → Processes → Executed

-- What `execute` leaves for the new process `n`, with its page loaded.
unfoldable pub child_state : Context → Processes → ℕ → List ℕ → (ℕ → ℕ) → Processes
child_state w s n args loaded =
    let is_root = n == 0 || s.next_one_is_root_shell in
    let parent = if is_root then n else w.caller in
    let curr_pcb = record (create_pcb w.junk_pcb) {
      parent = parent;
      process_num = n;
      tty = s.active_tty;
      args = args;
    } in
    let saved = put s.pcbs parent (record (s.pcbs parent) { ebp = w.ebp; esp = w.esp }) in
    record s {
      processes = put s.processes n 1;
      curr_process = n;
      paging = create_page w.table_at n s.paging;
      memory = put s.memory n loaded;
      tty_top_pid = put s.tty_top_pid s.active_tty n;
      next_one_is_root_shell = if is_root then false else s.next_one_is_root_shell;
      pcbs = put saved n curr_pcb;
      ss0 = kernel_ds;
      esp0 = kernel_stack_of n;
    }

-- Steps 2 to 8 of `execute` after the checks: `n` is the process that is free.
unfoldable pub start_process : Reader → Context → Processes → ℕ → List ℕ → Dentry → Option Executed
start_process disk w s n args dentry = do
  loaded ← load_file disk dentry.inode_num w.junk_file_data (s.memory n)
  (header_read, header) ← read_data disk dentry.inode_num 0 w.junk_header 40
  eip ← load32 (bytes_at header) 24
  some (enters eip (u32 (0x8000000 + four_meg - 4)) (child_state w s n args loaded))

-- `execute` once the table has been searched.
unfoldable pub execute_in :
    Option ℕ → Reader → Context → Processes → List ℕ → List ℕ → Option Executed
execute_in none disk w s program args = some (failed minus_one)
execute_in (some n) disk w s program args = do
  (r, dentry) ← check_validity disk (bytes_at program) w.junk_dentry w.junk_bytes
  let started = start_process disk w s n args dentry
  if not (r == 0) then some (failed minus_one) else started

unfoldable pub execute : Reader → Context → Processes → Reader → Option Executed
unfolding execute_in start_process
execute disk w s command = do
  (program, args) ← parse_args command
  execute_in (find_process max_num_processes s.processes 0) disk w s program args

-- The loop of `halt` that closes. It passes `i` in eax, and `close` reads ebx, which holds `ebx`
-- at every turn.
unfoldable pub close_all : ℕ → ℕ → Pcb → Devices → Pcb × Devices
close_all zero ebx pcb d = (pcb, d)
close_all (suc left) ebx pcb d = let (r, pcb', d') = close pcb d ebx in close_all left ebx pcb' d'

-- The rest of `halt`, for a process whose block is `pcb`.
unfoldable pub return_to_parent : Context → Pcb → Processes → Processes
return_to_parent w pcb s =
    let parent = (s.pcbs pcb.parent).process_num in
    record s {
      processes = put (put s.processes pcb.process_num 0) parent 1;
      tty_top_pid = put s.tty_top_pid pcb.tty parent;
      curr_process = parent;
      ss0 = kernel_ds;
      esp0 = kernel_stack_of parent;
      paging = create_page w.table_at parent s.paging;
    }

-- `halt` enters another shell, or goes on in the `execute` of the parent with its ebp and esp.
-- There `execute` returns 0: the status is not used.
pub data Halted : Type 0 where
  restarts : ℕ → ℕ → Processes → Halted
  resumes : ℕ → ℕ → Processes → Halted

resume : Context → Pcb → Processes → Halted
resume w pcb s =
    let parent = s.pcbs pcb.parent in resumes parent.ebp parent.esp (return_to_parent w pcb s)

-- `sys_execute("shell")` in `halt`: a failure falls through to the rest.
restart : Context → Pcb → Processes → Executed → Halted
restart w pcb s (failed r) = resume w pcb s
restart w pcb s (enters eip esp s') = restarts eip esp s'

-- `halt` of the process on whose kernel stack it runs; `shell` is the text "shell".
unfoldable pub halt :
    Reader → Context → Reader → ℕ → ℕ → Processes → Devices → Option (Halted × Devices)
unfolding resume restart
halt disk w shell ebx status s d =
    let (pcb, d') = close_all 8 ebx (s.pcbs w.caller) d in
    let closed = record s { pcbs = put s.pcbs w.caller pcb } in
    let root = record closed {
      processes = put s.processes pcb.process_num 0;
      next_one_is_root_shell = true;
    } in
    let again = execute disk w root shell >>= λ e. some (restart w pcb root e, d') in
    if pcb.parent == w.caller then again else some (resume w pcb closed, d')
