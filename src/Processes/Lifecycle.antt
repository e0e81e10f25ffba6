-- ===== src/Processes/Lifecycle.antt =====
-- A child process from `execute` to `halt`.
use illinix_operating_system.Base.{
  ℕ, zero, suc, ◌+◌, ◌≤◌, ◌<◌, ◌≡◌, ◌≢◌, ◌⊎◌, inl, inr, refl, arith, true, false, List, none, some,
  Reader, ◌>>=◌, ◌==◌, if◌then◌else◌, minus_one, sym, ap, ◌∙◌,
}
use illinix_operating_system.Pcb.{Pcb}
use illinix_operating_system.Calls.{Devices}
use illinix_operating_system.Calls.Closing.{close_refused}
use illinix_operating_system.Program.{parse_args}
use illinix_operating_system.Processes.{
  Processes, Context, failed, resumes, put, kernel_ds, kernel_stack_of, find_process, execute,
  execute_in, child_state, return_to_parent, halt, close_all, resume,
}

find_process-none :
    (left i : ℕ) (processes : ℕ → ℕ)
    → ((n : ℕ) → i ≤ n → n < i + left → processes n ≢ 0)
    → find_process left processes i ≡ none
unfolding find_process
find_process-none zero i processes used = refl
find_process-none (suc left) i processes used =
    let ne = used i (omega arith) (omega arith) in
    let rest =
      find_process-none left (i + 1) processes (λ n a b. used n (omega arith) (omega arith)) in
    ground (arith, ne, rest)

-- With six processes `execute` returns -1, whatever the command and the disk; no process is
-- started.
pub execute_full :
    (disk : Reader) (w : Context) (s : Processes) (command : Reader) (program args : List ℕ)
    → ((n : ℕ) → n < 6 → s.processes n ≢ 0)
    → parse_args command ≡ some (program, args)
    → execute disk w s command ≡ some (failed minus_one)
unfolding execute execute_in
execute_full disk w s command program args used parsed =
    rw (parsed, ◌>>=◌, find_process-none 6 0 s.processes (λ n a b. used n (omega arith))) refl

close_all_refused :
    (left ebx : ℕ) (p : Pcb) (d : Devices) → (ebx < 2) ⊎ (8 ≤ ebx) → close_all left ebx p d ≡ (p, d)
unfolding close_all
close_all_refused zero ebx p d h = refl
close_all_refused (suc left) ebx p d h =
    let e = close_refused p d ebx (elim h [ inl a ↦ inl a | inr b ↦ inr (inl b) ]) in
    rw e (close_all_refused left ebx p d h)

halt_child :
    (disk : Reader) (w : Context) (shell : Reader) (ebx status : ℕ) (s : Processes) (d : Devices)
    → (ebx < 2) ⊎ (8 ≤ ebx)
    → (s.pcbs w.caller).parent ≢ w.caller
    → let pcb = s.pcbs w.caller in
      let closed = record s { pcbs = put s.pcbs w.caller pcb } in
      halt disk w shell ebx status s d ≡ some (resume w pcb closed, d)
unfolding halt
halt_child disk w shell ebx status s d h ne =
    let e = close_all_refused 8 ebx (s.pcbs w.caller) d h in
    let f : ((s.pcbs w.caller).parent == w.caller) ≡ false = ground arith in rw (e, f) refl

-- The state before `execute` and the state after the child's `halt` agree.
pub record IsRestored (s s' : Processes) : Type 0 where
  pub processes : (i : ℕ) → s'.processes i ≡ s.processes i
  pub curr_process : s'.curr_process ≡ s.curr_process
  pub tty_top_pid : (t : ℕ) → s'.tty_top_pid t ≡ s.tty_top_pid t
  pub ss0 : s'.ss0 ≡ s.ss0
  pub esp0 : s'.esp0 ≡ s.esp0

-- A process `p` in the middle of a call, on its own stack, on the terminal that is shown.
pub record IsRunning (p : ℕ) (s : Processes) : Type 0 where
  pub marked : s.processes p ≡ 1
  pub current : s.curr_process ≡ p
  pub numbered : (s.pcbs p).process_num ≡ p
  pub top : s.tty_top_pid s.active_tty ≡ p
  pub segment : s.ss0 ≡ kernel_ds
  pub stack : s.esp0 ≡ kernel_stack_of p
  pub no_root : s.next_one_is_root_shell ≡ false

-- What the child finds in the state that `execute` leaves.
record IsChild (w : Context) (s c : Processes) (n : ℕ) : Type 0 where
  parent : (c.pcbs n).parent ≡ w.caller
  number : (c.pcbs n).process_num ≡ n
  tty : (c.pcbs n).tty ≡ s.active_tty
  parent_number : (c.pcbs w.caller).process_num ≡ w.caller
  parent_ebp : (c.pcbs w.caller).ebp ≡ w.ebp
  parent_esp : (c.pcbs w.caller).esp ≡ w.esp
  processes : (i : ℕ) → c.processes i ≡ (if n == i then 1 else s.processes i)
  tops : (t : ℕ) → c.tty_top_pid t ≡ (if s.active_tty == t then n else s.tty_top_pid t)

IsChild-fields :
    (w : Context) (s : Processes) (n : ℕ) (args : List ℕ) (loaded : ℕ → ℕ)
    → IsRunning w.caller s
    → s.processes n ≡ 0
    → n ≢ 0
    → IsChild w s (child_state w s n args loaded) n
unfolding child_state
IsChild-fields w s n args loaded r free pos =
    let apart : n ≢ w.caller = λ e. ground (arith, e, r.marked, free) in
    let not_zero : (n == 0) ≡ false = ground arith in
    let same : (n == n) ≡ true = ground arith in
    let other : (n == w.caller) ≡ false = ground arith in
    let own : (w.caller == w.caller) ≡ true = ground arith in
    record {
      parent = rw (not_zero, r.no_root, same) refl;
      number = rw (not_zero, r.no_root, same) refl;
      tty = rw (not_zero, r.no_root, same) refl;
      parent_number = rw (not_zero, r.no_root, other, own) r.numbered;
      parent_ebp = rw (not_zero, r.no_root, other, own) refl;
      parent_esp = rw (not_zero, r.no_root, other, own) refl;
      processes = λ i. refl;
      tops = λ t. refl;
    }

restored_lem :
    (w w' : Context) (s c : Processes) (n : ℕ)
    → IsRunning w.caller s
    → s.processes n ≡ 0
    → IsChild w s c n
    → IsRestored s (return_to_parent w' (c.pcbs n) (record c { pcbs = put c.pcbs n (c.pcbs n) }))
unfolding return_to_parent
restored_lem w w' s c n r free f =
    let apart : n ≢ w.caller = λ e. ground (arith, e, r.marked, free) in
    let other : (n == w.caller) ≡ false = ground arith in
    let parent : (put c.pcbs n (c.pcbs n) (c.pcbs n).parent).process_num ≡ w.caller =
      rw (f.parent, other) f.parent_number in
    record {
      processes = λ i. rw (parent, f.number, f.processes i) (ground (arith, r.marked, free));
      curr_process = rw (parent, r.current) refl;
      tty_top_pid = λ t. rw (parent, f.tty, f.tops t) (ground (arith, r.top));
      ss0 = sym r.segment;
      esp0 = rw (parent, r.stack) refl;
    }

resume_child :
    (w w' : Context) (s c : Processes) (n : ℕ)
    → n ≢ w.caller
    → IsChild w s c n
    → let closed = record c { pcbs = put c.pcbs n (c.pcbs n) } in
      resume w' (c.pcbs n) closed ≡ resumes w.ebp w.esp (return_to_parent w' (c.pcbs n) closed)
unfolding resume
resume_child w w' s c n ne f =
    let closed = record c { pcbs = put c.pcbs n (c.pcbs n) } in
    let other : (n == w.caller) ≡ false = ground arith in
    let base : (closed.pcbs (c.pcbs n).parent).ebp ≡ w.ebp = rw (f.parent, other) f.parent_ebp in
    let top : (closed.pcbs (c.pcbs n).parent).esp ≡ w.esp = rw (f.parent, other) f.parent_esp in
    rw (base, top) refl

-- A child that a running process starts, and that halts at once, gives everything back: the
-- process table, the current process, the terminal's process and the kernel stack are as before
-- the start, and the parent goes on with the ebp and esp that it had in `execute`. The child is
-- not process 0, and ebx holds no descriptor from 2 on when it halts.
pub execute-halt :
    (disk : Reader) (w w' : Context) (s : Processes) (args : List ℕ) (loaded : ℕ → ℕ)
    (shell : Reader) (ebx status : ℕ) (d : Devices)
    → IsRunning w.caller s
    → s.processes w'.caller ≡ 0
    → w'.caller ≢ 0
    → (ebx < 2) ⊎ (8 ≤ ebx)
    → (s' : Processes) × (halt disk w' shell ebx status (child_state w s w'.caller args loaded) d
        ≡ some (resumes w.ebp w.esp s', d))
      × IsRestored s s'
execute-halt disk w w' s args loaded shell ebx status d r free pos h =
    let c = child_state w s w'.caller args loaded in
    let f = IsChild-fields w s w'.caller args loaded r free pos in
    let apart : w'.caller ≢ w.caller = λ e. ground (arith, e, r.marked, free) in
    let halted = halt_child disk w' shell ebx status c d h (λ e. apart (sym e ∙ f.parent)) in
    (
      _,
      halted ∙ ap (λ x. some (x, d)) (resume_child w w' s c w'.caller apart f),
      restored_lem w w' s c w'.caller r free f,
    )
