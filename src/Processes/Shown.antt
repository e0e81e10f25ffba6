-- ===== src/Processes/Shown.antt =====
-- `execute` keeps the caller's descriptor 1 on the terminal.
use illinix_operating_system.Base.{ℕ, ◌≡◌, inl, inr, some, Reader, ◌==◌, Bool-cases}
use illinix_operating_system.Pcb.{terminal_output}
use illinix_operating_system.Processes.{Processes, Context, enters, execute}
use illinix_operating_system.Processes.Soundness.{execute_lem, child_others, child_itself}

-- A block whose descriptor 1 is the terminal's output still has it after `execute`.
pub execute-output :
    (disk : Reader) (w : Context) (s s' : Processes) (command : Reader) (eip esp : ℕ)
    → execute disk w s command ≡ some (enters eip esp s')
    → (i : ℕ) → ((s.pcbs i).fd_array 1).flags ≡ 1
    → ((s.pcbs i).fd_array 1).file_operations ≡ terminal_output
    → (((s'.pcbs i).fd_array 1).flags ≡ 1)
      × (((s'.pcbs i).fd_array 1).file_operations ≡ terminal_output)
execute-output disk w s s' command eip esp e i used operations =
    let at = execute_lem disk w s s' command eip esp e in
    elim (Bool-cases (at.n == i)) [
      | inl new ↦
          let valid = (child_itself w s at.n i at.args at.loaded new).descriptors in
          rw at.result (valid.output_open, valid.output)
      | inr kept ↦
          let same = (child_others w s at.n at.args at.loaded i kept).fd_array 1 in
          rw (at.result, same) (used, operations)
    ]
