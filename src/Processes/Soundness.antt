-- ===== src/Processes/Soundness.antt =====
-- The invariant of the processes, and that `execute` and `halt` keep it.
use illinix_operating_system.Base.{
  ℕ, zero, suc, ◌+◌, ◌<◌, ◌≡◌, ◌≢◌, ◌⊎◌, inl, inr, refl, arith, Bool, true, false, some, List,
  Reader, ◌==◌, if◌then◌else◌, Bool-cases, Option-cases, ◌∙◌, bytes_at, load32,
}
use illinix_operating_system.Pcb.{Pcb, create_pcb}
use illinix_operating_system.Calls.Descriptors.{IsValid, create_pcb-IsValid}
use illinix_operating_system.Program.{parse_args, check_validity, load_file}
use illinix_operating_system.Filesys.{Dentry, read_data}
use illinix_operating_system.Processes.{
  Processes, Context, enters, execute, execute_in, start_process, find_process, child_state,
}

-- `started n` says that the control block of process `n` has been set up. A process of the
-- table has one, and so has its parent; such a block holds its own number, a terminal of the
-- three, and descriptors in order.
pub record IsSound (s : Processes) : Type 0 where
  pub started : ℕ → Bool
  pub live : (n : ℕ) → n < 6 → s.processes n ≢ 0 → started n ≡ true
  pub number : (n : ℕ) → started n ≡ true → (s.pcbs n).process_num ≡ n
  pub in_table : (n : ℕ) → started n ≡ true → n < 6
  pub parent : (n : ℕ) → started n ≡ true → started (s.pcbs n).parent ≡ true
  pub descriptors : (n : ℕ) → started n ≡ true → IsValid (s.pcbs n)
  pub terminal : (n : ℕ) → started n ≡ true → (s.pcbs n).tty < 3
  pub active : s.active_tty < 3

-- The order of a block rests on its descriptors only.
pub IsValid-same : (p q : Pcb) → ((fd : ℕ) → q.fd_array fd ≡ p.fd_array fd) → IsValid p → IsValid q
IsValid-same p q same v = record {
  flags = λ fd h. rw (same fd) (v.flags fd h);
  operations = λ fd h. rw (same fd) (v.operations fd h);
  input = rw (same 0) v.input;
  input_open = rw (same 0) v.input_open;
  output = rw (same 1) v.output;
  output_open = rw (same 1) v.output_open;
}

-- What `execute` did when it entered a program: process `n` was free and got a new block.
pub record IsEntered (w : Context) (s s' : Processes) : Type 0 where
  pub n : ℕ
  pub args : List ℕ
  pub loaded : ℕ → ℕ
  pub below : n < 6
  pub result : s' ≡ child_state w s n args loaded

find_process_lt :
    (left i : ℕ) (processes : ℕ → ℕ) (n : ℕ) → find_process left processes i ≡ some n → n < i + left
unfolding find_process
find_process_lt zero i processes n e = absurd (ground arith)
find_process_lt (suc left) i processes n e = elim (Bool-cases (processes i == 0)) [
  | inl free ↦ ground arith
  | inr used ↦ let later = find_process_lt left (i + 1) processes n (ground arith) in omega arith
]

start_process_lem :
    (disk : Reader) (w : Context) (s s' : Processes) (n : ℕ) (args : List ℕ) (dentry : Dentry)
    (eip esp : ℕ)
    → n < 6
    → start_process disk w s n args dentry ≡ some (enters eip esp s')
    → IsEntered w s s'
unfolding start_process
start_process_lem disk w s s' n args dentry eip esp h e =
    elim (Option-cases (load_file disk dentry.inode_num w.junk_file_data (s.memory n))) [
      | inl bad ↦ absurd (ground (arith, e, bad))
      | inr (loaded, e1) ↦
          elim (Option-cases (read_data disk dentry.inode_num 0 w.junk_header 40)) [
            | inl bad ↦ absurd (ground (arith, e, e1, bad))
            | inr ((k, header), e2) ↦ elim (Option-cases (load32 (bytes_at header) 24)) [
              | inl bad ↦ absurd (ground (arith, e, e1, e2, bad))
              | inr (at, e3) ↦ record {
                n = n;
                args = args;
                loaded = loaded;
                below = h;
                result = ground (arith, e, e1, e2, e3);
              }
            ]
          ]
    ]

pub execute_lem :
    (disk : Reader) (w : Context) (s s' : Processes) (command : Reader) (eip esp : ℕ)
    → execute disk w s command ≡ some (enters eip esp s')
    → IsEntered w s s'
unfolding execute execute_in
execute_lem disk w s s' command eip esp e = elim (Option-cases (parse_args command)) [
  | inl bad ↦ absurd (ground (arith, e, bad))
  | inr ((program, args), e1) ↦ elim (Option-cases (find_process 6 s.processes 0)) [
    | inl full ↦ absurd (ground (arith, e, e1, full))
    | inr (n, e2) ↦
        elim (Option-cases (check_validity disk (bytes_at program) w.junk_dentry w.junk_bytes)) [
          | inl bad ↦ absurd (ground (arith, e, e1, e2, bad))
          | inr ((r, dentry), e3) ↦ elim (Bool-cases (r == 0)) [
            | inl valid ↦
                start_process_lem disk w s s' n args dentry eip esp
                  (find_process_lt 6 0 s.processes n e2) (ground (arith, e, e1, e2, e3, valid))
            | inr invalid ↦ absurd (ground (arith, e, e1, e2, e3, invalid))
          ]
        ]
  ]
]

-- Two blocks that agree in all that `IsSound` reads.
pub record IsAlike (p q : Pcb) : Type 0 where
  pub process_num : q.process_num ≡ p.process_num
  pub parent : q.parent ≡ p.parent
  pub tty : q.tty ≡ p.tty
  pub fd_array : (fd : ℕ) → q.fd_array fd ≡ p.fd_array fd

pub child_others :
    (w : Context) (s : Processes) (n : ℕ) (args : List ℕ) (loaded : ℕ → ℕ) (i : ℕ)
    → (n == i) ≡ false
    → IsAlike (s.pcbs i) ((child_state w s n args loaded).pcbs i)
unfolding child_state
child_others w s n args loaded i h = record {
  process_num = ground (arith, h);
  parent = ground (arith, h);
  tty = ground (arith, h);
  fd_array = λ fd. ground (arith, h);
}

-- The new block itself.
pub record IsNew (w : Context) (s : Processes) (n : ℕ) (q : Pcb) : Type 0 where
  pub process_num : q.process_num ≡ n
  pub parent : (q.parent ≡ n) ⊎ ((q.parent ≡ w.caller) × (s.next_one_is_root_shell ≡ false))
  pub tty : q.tty ≡ s.active_tty
  pub descriptors : IsValid q

pub child_itself :
    (w : Context) (s : Processes) (n i : ℕ) (args : List ℕ) (loaded : ℕ → ℕ)
    → (n == i) ≡ true
    → IsNew w s n ((child_state w s n args loaded).pcbs i)
unfolding child_state
child_itself w s n i args loaded h = record {
  process_num = ground (arith, h);
  parent = ground (arith, h);
  tty = ground (arith, h);
  descriptors =
      rw h (IsValid-same (create_pcb w.junk_pcb) _ (λ fd. refl) (create_pcb-IsValid w.junk_pcb));
}

-- The process that runs is one of the table, or the next one is the shell of a terminal.
abbrev pub MayExecute : Context → Processes → Type 0
MayExecute w s = ((w.caller < 6) × (s.processes w.caller ≢ 0)) ⊎ (s.next_one_is_root_shell ≡ true)

child_table :
    (w : Context) (s : Processes) (n : ℕ) (args : List ℕ) (loaded : ℕ → ℕ) (i : ℕ)
    → (child_state w s n args loaded).processes i ≡ (if n == i then 1 else s.processes i)
unfolding child_state
child_table w s n args loaded i = refl

child_active :
    (w : Context) (s : Processes) (n : ℕ) (args : List ℕ) (loaded : ℕ → ℕ)
    → (child_state w s n args loaded).active_tty ≡ s.active_tty
unfolding child_state
child_active w s n args loaded = refl

module _ (w : Context) (s : Processes) (n : ℕ) (args : List ℕ) (loaded : ℕ → ℕ) (v : IsSound s)
    (below : n < 6) (may : MayExecute w s) where
  abbrev child : Processes
  child = child_state w s n args loaded

  abbrev started' : ℕ → Bool
  started' i = if n == i then true else v.started i

  child_parent : (i : ℕ) → started' i ≡ true → started' (child.pcbs i).parent ≡ true
  child_parent i h = elim (Bool-cases (n == i)) [
    | inl new ↦
        let c = child_itself w s n i args loaded new in
        elim c.parent [
          | inl own ↦ rw own (ground arith)
          | inr (caller, no_root) ↦
              let run : v.started w.caller ≡ true = elim may [
                | inl (small, marked) ↦ v.live w.caller small marked
                | inr root ↦ absurd (ground (arith, root, no_root))
              ] in
              rw caller (ground (arith, run))
        ]
    | inr old ↦
        let c = child_others w s n args loaded i old in
        let was : v.started i ≡ true = ground (arith, h, old) in
        rw c.parent (ground (arith, v.parent i was))
  ]

  child_fields_sound :
      (i : ℕ)
      → started' i ≡ true
      → ((child.pcbs i).process_num ≡ i)
        × (i < 6)
        × IsValid (child.pcbs i)
        × ((child.pcbs i).tty < 3)
  child_fields_sound i h = elim (Bool-cases (n == i)) [
    | inl new ↦
        let c = child_itself w s n i args loaded new in
        (
          ground (arith, c.process_num, new),
          ground (arith, new, below),
          c.descriptors,
          omega (arith, c.tty, v.active),
        )
    | inr old ↦
        let c = child_others w s n args loaded i old in
        let was : v.started i ≡ true = ground (arith, h, old) in
        (
          c.process_num ∙ v.number i was,
          v.in_table i was,
          IsValid-same (s.pcbs i) _ c.fd_array (v.descriptors i was),
          omega (arith, c.tty, v.terminal i was),
        )
  ]

  child_state-IsSound : IsSound child
  child_state-IsSound = record {
    started = started';
    live =
        λ i small marked. ground (arith, child_table w s n args loaded i, v.live i small, marked);
    number = λ i h. (child_fields_sound i h).0;
    in_table = λ i h. (child_fields_sound i h).1;
    parent = child_parent;
    descriptors = λ i h. (child_fields_sound i h).2;
    terminal = λ i h. (child_fields_sound i h).3;
    active = omega (arith, child_active w s n args loaded, v.active);
  }

-- A program that `execute` enters, started by a process of the table or as the shell of a
-- terminal, leaves the processes sound.
pub execute-IsSound :
    (disk : Reader) (w : Context) (s s' : Processes) (command : Reader) (eip esp : ℕ)
    → IsSound s
    → MayExecute w s
    → execute disk w s command ≡ some (enters eip esp s')
    → IsSound s'
execute-IsSound disk w s s' command eip esp v may e =
    let c = execute_lem disk w s s' command eip esp e in
    rw c.result (child_state-IsSound w s c.n c.args c.loaded v c.below may)
