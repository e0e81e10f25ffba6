-- ===== src/Kernel/Steps.antt =====
-- A step of the kernel: a system call of a running process, the timer or a switch of terminals.
use illinix_operating_system.Base.{ℕ, ◌<◌, ◌≡◌, ◌≢◌, ◌⊎◌, some, Reader, true}
use illinix_operating_system.Pcb.{Pcb}
use illinix_operating_system.Screen.{Screen}
use illinix_operating_system.Calls.{Devices, Surroundings, open_descriptor, close}
use illinix_operating_system.Processes.{
  Processes, Context, enters, restarts, resumes, put, execute, halt,
}
use illinix_operating_system.Scheduling.{
  stays, goes_to, switch_process, starts, cannot_start, shows, switch_to_tty,
}

-- A process that is marked in the table.
pub record IsLive (s : Processes) (n : ℕ) : Type 0 where
  pub in_table : n < 6
  pub marked : s.processes n ≢ 0

-- `w` is the place that runs: for a system call or the timer, a process of the table. At the
-- start of a terminal's shell no process need run yet.
pub data Step (disk shell : Reader) (s s' : Processes) : Type 0 where
  executes :
      (w : Context) (command : Reader) (eip esp : ℕ)
      → IsLive s w.caller ⊎ (s.next_one_is_root_shell ≡ true)
      → execute disk w s command ≡ some (enters eip esp s')
      → Step disk shell s s'
  halts :
      (w : Context) (ebx status ebp esp : ℕ) (d d' : Devices)
      → IsLive s w.caller
      → halt disk w shell ebx status s d ≡ some (resumes ebp esp s', d')
      → Step disk shell s s'
  halts_root :
      (w : Context) (ebx status eip esp : ℕ) (d d' : Devices)
      → IsLive s w.caller
      → halt disk w shell ebx status s d ≡ some (restarts eip esp s', d')
      → Step disk shell s s'
  opens :
      (w : Context) (u : Surroundings) (d d' : Devices) (filename : Reader) (r : ℕ) (p : Pcb)
      → IsLive s w.caller
      → open_descriptor disk u (s.pcbs w.caller) d filename ≡ some (r, p, d')
      → s' ≡ record s { pcbs = put s.pcbs w.caller p }
      → Step disk shell s s'
  closes :
      (w : Context) (d : Devices) (fd : ℕ)
      → IsLive s w.caller
      → s' ≡ record s { pcbs = put s.pcbs w.caller ((close (s.pcbs w.caller) d fd).1) }
      → Step disk shell s s'
  stays_on :
      (w : Context)
      → IsLive s w.caller
      → switch_process w s ≡ some (stays s')
      → Step disk shell s s'
  switches :
      (w : Context) (ebp esp : ℕ)
      → IsLive s w.caller
      → switch_process w s ≡ some (goes_to ebp esp s')
      → Step disk shell s s'
  shows_tty :
      (w : Context) (tty ebp esp : ℕ) (screen screen' : Screen)
      → tty < 3
      → switch_to_tty disk w shell tty s screen ≡ some (shows ebp esp s' screen')
      → Step disk shell s s'
  starts_tty :
      (w : Context) (tty eip esp : ℕ) (screen screen' : Screen)
      → tty < 3
      → switch_to_tty disk w shell tty s screen ≡ some (starts eip esp s' screen')
      → Step disk shell s s'
  cannot_start_tty :
      (w : Context) (tty r : ℕ) (screen screen' : Screen)
      → tty < 3
      → switch_to_tty disk w shell tty s screen ≡ some (cannot_start r s' screen')
      → Step disk shell s s'

-- The states after any number of steps.
pub data Reaches (disk shell : Reader) (s : Processes) : Processes → Type 0 where
  here : Reaches disk shell s s
  next : {t u : Processes} → Reaches disk shell s t → Step disk shell t u → Reaches disk shell s u
