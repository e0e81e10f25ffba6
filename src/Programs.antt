-- ===== src/Programs.antt =====
-- The user programs of syscalls/ that run on the kernel: what they share. The wrappers of the
-- system calls are assembly that loads the arguments into ebx, ecx and edx, so that a call of a
-- program is the function of `Calls` with the same arguments.
pub mod Actions
pub mod Cat
pub mod Ls
pub mod Support
pub mod Hello
pub mod Shell
pub mod Counter
pub mod Grep
pub mod Pingpong
pub mod Syserr
use illinix_operating_system.Base.{ℕ, ◌==◌, Option, none, some, List, Reader, ◌>>=◌, if◌then◌else◌}
use illinix_operating_system.Strings.{strlen}
use illinix_operating_system.Pcb.{Pcb}
use illinix_operating_system.Calls.{
  Devices, Surroundings, CallResult, call_waits, call_faults, call_returns, write,
}

-- What a part of a program does: it gives a result, with its control block and the devices; it
-- waits in a call; it faults; or it needs more rounds than its fuel.
pub data Outcome (A : Type 0) : Type 0 where
  gives : A → Pcb → Devices → Outcome A
  waits : Outcome A
  faults : Outcome A
  runs_on : Outcome A

-- A program gives the status that `main` returns.
abbrev pub Ran : Type 0
Ran = Outcome ℕ

-- A program after a call of `read`, and after another call.
unfoldable pub after_reading : CallResult → (ℕ → List ℕ → Pcb → Devices → Ran) → Ran
after_reading call_waits next = waits
after_reading call_faults next = faults
after_reading (call_returns r buf pcb d) next = next r buf pcb d

unfoldable pub after : {A : Type 0} → Option A → (A → Ran) → Ran
after none next = faults
after (some a) next = next a

-- `ece391_strlen` is the loop of `strlen`. `ece391_fdputs` drops the result of its write.
unfoldable pub fdputs : Surroundings → Pcb → Devices → ℕ → Reader → Option Devices
fdputs w pcb d fd s = do len ← strlen s; (r, d') ← write w pcb d fd s len; some d'

-- A message on the terminal, and the end of the program with a status.
unfoldable pub fails : Surroundings → Pcb → Devices → Reader → ℕ → Ran
fails w pcb d message status = after (fdputs w pcb d 1 message) (λ d'. gives status pcb d')
