-- ===== src/Programs/Actions.antt =====
-- What the user programs of syscalls/ do, as actions on a process: its control block and the
-- devices change with each call, and a call may wait or fault. The wrappers of the system calls
-- are assembly that passes the arguments on in registers.
pub mod Output
pub mod Input
use illinix_operating_system.Base.{
  ℕ, zero, suc, ◌+◌, Bool, true, false, Option, none, some, List, Reader, ◌==◌, if◌then◌else◌,
  minus_one, store,
}
use Prim.Native.String.{String}
use illinix_operating_system.Base.Text.{text}
use illinix_operating_system.Pcb.{Pcb}
use illinix_operating_system.Calls.{
  Devices, Surroundings, CallResult, call_waits, call_faults, call_returns, read, write,
  open_descriptor, close, getargs,
}
use illinix_operating_system.Programs.{Outcome, gives, waits, faults, runs_on, fdputs}

abbrev pub Action : Type 0 → Type 0
Action A = Pcb → Devices → Outcome A

abbrev pub and_then : {A B : Type 0} → Outcome A → (A → Action B) → Outcome B
and_then (gives a p d) f = f a p d
and_then waits f = waits
and_then faults f = faults
and_then runs_on f = runs_on

infixl 5 ◌>>=◌
abbrev pub ◌>>=◌ : {A B : Type 0} → Action A → (A → Action B) → Action B
◌>>=◌ m f p d = and_then (m p d) f

abbrev pub pure : {A : Type 0} → A → Action A
pure a p d = gives a p d

abbrev pub out_of_fuel : {A : Type 0} → Action A
out_of_fuel p d = runs_on

-- A computation in memory, which faults or not.
abbrev pub in_memory : {A : Type 0} → Option A → Action A
in_memory none p d = faults
in_memory (some a) p d = gives a p d

abbrev pub outcome_of_read : CallResult → Outcome (ℕ × List ℕ)
outcome_of_read call_waits = waits
outcome_of_read call_faults = faults
outcome_of_read (call_returns r buf p d) = gives (r, buf) p d

-- `ece391_read`: the return value, and the buffer.
unfoldable pub ece391_read : Reader → Surroundings → ℕ → List ℕ → ℕ → Action (ℕ × List ℕ)
ece391_read disk w fd buf nbytes p d = outcome_of_read (read disk w p d fd buf nbytes)

abbrev outcome_of_write : Pcb → Option (ℕ × Devices) → Outcome ℕ
outcome_of_write p none = faults
outcome_of_write p (some (r, d)) = gives r p d

unfoldable pub ece391_write : Surroundings → ℕ → Reader → ℕ → Action ℕ
ece391_write w fd buf nbytes p d = outcome_of_write p (write w p d fd buf nbytes)

abbrev outcome_of_open : Option (ℕ × Pcb × Devices) → Outcome ℕ
outcome_of_open none = faults
outcome_of_open (some (r, p, d)) = gives r p d

unfoldable pub ece391_open : Reader → Surroundings → Reader → Action ℕ
ece391_open disk w filename p d = outcome_of_open (open_descriptor disk w p d filename)

unfoldable pub ece391_close : ℕ → Action ℕ
ece391_close fd p d = let (r, p', d') = close p d fd in gives r p' d'

unfoldable pub ece391_getargs : List ℕ → ℕ → Action (ℕ × List ℕ)
ece391_getargs buf nbytes p d = in_memory (getargs p buf nbytes) p d

abbrev outcome_of_puts : Pcb → Option Devices → Outcome (Unit {0})
outcome_of_puts p none = faults
outcome_of_puts p (some d) = gives tt p d

unfoldable pub ece391_fdputs : Surroundings → ℕ → Reader → Action (Unit {0})
ece391_fdputs w fd s p d = outcome_of_puts p (fdputs w p d fd s)

-- A text of the program on descriptor 1.
abbrev pub tell : Surroundings → String → Action (Unit {0})
tell w s = ece391_fdputs w 1 (text s)
