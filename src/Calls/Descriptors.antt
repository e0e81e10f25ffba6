-- ===== src/Calls/Descriptors.antt =====
-- What the calls make of the descriptors of a process.
use illinix_operating_system.Base.{ℕ, ◌≤◌, ◌<◌, ◌≡◌, ◌≢◌, ◌⊎◌, refl, arith}
use illinix_operating_system.Pcb.{
  Pcb, FdStruct, null, terminal_input, terminal_output, create_pcb, set_fd,
}

-- A control block in order: each descriptor is free or in use, one in use has a jump table, and
-- the first two are in use and lead to the terminal.
pub record IsValid (p : Pcb) : Type 0 where
  pub flags : (fd : ℕ) → fd < 8 → ((p.fd_array fd).flags ≡ 0) ⊎ ((p.fd_array fd).flags ≡ 1)
  pub operations :
      (fd : ℕ) → fd < 8 → (p.fd_array fd).flags ≡ 1 → (p.fd_array fd).file_operations ≢ null
  pub input : (p.fd_array 0).file_operations ≡ terminal_input
  pub input_open : (p.fd_array 0).flags ≡ 1
  pub output : (p.fd_array 1).file_operations ≡ terminal_output
  pub output_open : (p.fd_array 1).flags ≡ 1

input_not_null : terminal_input ≢ null
input_not_null h = ground arith

output_not_null : terminal_output ≢ null
output_not_null h = ground arith

-- `create_pcb` makes such a block of whatever lay on the stack.
pub create_pcb-IsValid : (junk : Pcb) → IsValid (create_pcb junk)
unfolding create_pcb
create_pcb-IsValid junk = record {
  flags = λ fd h. ground arith;
  operations = λ fd h used. ground arith;
  input = refl;
  input_open = refl;
  output = refl;
  output_open = refl;
}

-- Opening at the right place keeps a block in order.
pub set_fd-IsValid :
    (p : Pcb) (fd : ℕ) (v : FdStruct)
    → IsValid p
    → 2 ≤ fd
    → (v.flags ≡ 0) ⊎ ((v.flags ≡ 1) × (v.file_operations ≢ null))
    → IsValid (set_fd p fd v)
set_fd-IsValid p fd v w h c = record {
  flags = λ i lt. ground (arith, w.flags i lt);
  operations = λ i lt used. ground (arith, w.operations i lt);
  input = ground (arith, w.input);
  input_open = ground (arith, w.input_open);
  output = ground (arith, w.output);
  output_open = ground (arith, w.output_open);
}
