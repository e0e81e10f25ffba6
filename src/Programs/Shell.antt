-- ===== src/Programs/Shell.antt =====
-- syscalls/ece391shell.c: the shell.
pub mod Commands
pub mod Rounds
use illinix_operating_system.Base.{
  ℕ, zero, suc, ◌+◌, ◌-◌, Bool, true, false, not, Option, none, some, List, Reader, bytes_at, store,
  get_elem?, ◌==◌, if◌then◌else◌, minus_one,
}
use illinix_operating_system.Base.Int.{ℤ, pos, negsuc}
use illinix_operating_system.Base.Text.{text}
use illinix_operating_system.Pcb.{Pcb}
use illinix_operating_system.Calls.{Devices, Surroundings}
use illinix_operating_system.Processes.{Processes, Context, Executed, failed, enters, put, execute}
use illinix_operating_system.Programs.{Outcome, gives, faults}
use illinix_operating_system.Programs.Actions.{
  Action, ◌>>=◌, pure, out_of_fuel, in_memory, tell, ece391_read,
}
use illinix_operating_system.Programs.Support.{is_same, ece391_strcmp}

-- What a call of `execute` comes back with: the status, the block of the caller and the devices.
pub record Finished : Type 0 where
  pub status : ℕ
  pub block : Pcb
  pub left : Devices

-- The process `w.caller` with its own block.
abbrev pub with_block : Context → Processes → Pcb → Processes
with_block w s p = record s { pcbs = put s.pcbs w.caller p }

-- `execute` fails at once, or enters a program. That program is not known: `child` gives, from the
-- state in which it is entered, the status with which it ends and the devices then. The block of
-- the caller is as `execute` left it, with ebp and esp stored.
unfoldable pub finish :
    Context → (Processes → Devices → ℕ × Devices) → Pcb → Devices → Executed → Finished
finish w child p d (failed r) = record { status = r; block = p; left = d }
finish w child p d (enters eip esp s) = record {
  status = (child s d).0;
  block = s.pcbs w.caller;
  left = (child s d).1;
}

unfoldable pub come_back :
    Context → (Processes → Devices → ℕ × Devices) → Pcb → Devices → Option Executed → Outcome ℕ
come_back w child p d none = faults
come_back w child p d (some x) = let f = finish w child p d x in gives f.status f.block f.left

-- `ece391_execute`, a call of `execute` of `Processes` from the process `w.caller`.
unfoldable pub ece391_execute :
    Reader → Context → Processes → (Processes → Devices → ℕ × Devices) → Reader → Action ℕ
ece391_execute disk w s child command p d =
    come_back w child p d (execute disk w (with_block w s p) command)

-- `if (cnt > 0 && '\n' == buf[cnt - 1]) cnt--;`
unfoldable pub without_newline : List ℕ → ℕ → Action ℕ
without_newline line zero = pure 0
without_newline line (suc n) = do
  c ← in_memory (get_elem? line n)
  pure (if c == b'\n' then n else suc n)

-- What the shell says about the status of a command.
unfoldable pub tell_status : Surroundings → ℕ → Action (Unit {0})
tell_status w rval =
    let missing = tell w "no such command\n" in
    let exception = tell w "program terminated by exception\n" in
    let abnormal = tell w "program terminated abnormally\n" in
    if rval == minus_one
    then missing
    else if rval == 256
    then exception
    else if not (rval == 0)
    then abnormal
    else pure tt

-- A command that is typed; `execute` is the call that runs it. The result is the status with
-- which the shell ends, if it does.
unfoldable pub run_command : Surroundings → (Reader → Action ℕ) → List ℕ → Action (Option ℕ)
run_command w execute command = do
  z ← in_memory (ece391_strcmp (bytes_at command) (text "exit"))
  c ← in_memory (get_elem? command 0)
  let runs = (do rval ← execute (bytes_at command); u ← tell_status w rval; pure none)
  if is_same z then pure (some 0) else if c == 0 then pure none else runs

-- A round of the loop of `main`, with the buffer as it leaves it.
unfoldable pub shell_round :
    Reader → Surroundings → (Reader → Action ℕ) → List ℕ → Action (Option ℕ × List ℕ)
shell_round disk w execute buf = do
  u ← tell w "391OS> "
  (cnt, line) ← ece391_read disk w 0 buf 1023
  let failed = tell w "read from keyboard failed\n" >>= λ v. pure (some 3, line)
  let runs = (do
    n ← without_newline line cnt
    command ← in_memory (store line n 0)
    status ← run_command w execute command
    pure (status, command))
  if cnt == minus_one then failed else runs

-- The end of the loop with a status, or its next round.
abbrev pub ends_or : Option ℕ → Action ℕ → Action ℕ
ends_or none again = again
ends_or (some r) again = pure r

-- The loop, on fuel.
unfoldable pub shell_loop : ℕ → Reader → Surroundings → (Reader → Action ℕ) → List ℕ → Action ℕ
shell_loop zero disk w execute buf = out_of_fuel
shell_loop (suc fuel) disk w execute buf = do
  (status, buf') ← shell_round disk w execute buf
  ends_or status (shell_loop fuel disk w execute buf')

-- `main`, with its array of 1024 bytes.
unfoldable pub shell : ℕ → Reader → Surroundings → (Reader → Action ℕ) → List ℕ → Action ℕ
shell fuel disk w execute buf = do
  u ← tell w "Starting 391 Shell\n"
  shell_loop fuel disk w execute buf
