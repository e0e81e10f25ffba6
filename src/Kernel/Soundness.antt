-- ===== src/Kernel/Soundness.antt =====
-- Every state that the kernel reaches is sound.
use illinix_operating_system.Base.{
  ℕ, ◌<◌, ◌≡◌, inl, inr, refl, arith, Bool, true, false, ◌||◌, some, Reader, ◌==◌, Bool-cases,
  Option-cases, sym, minus_one,
}
use illinix_operating_system.Screen.{Screen, switch_screen, clear}
use illinix_operating_system.Calls.Keeping.{open-IsValid, open-keeps}
use illinix_operating_system.Processes.{
  Processes, Context, Executed, failed, enters, restarts, resumes, put, execute,
}
use illinix_operating_system.Processes.Soundness.{IsSound, IsValid-same, execute-IsSound}
use illinix_operating_system.Processes.Ending.{close-IsChanged, put-IsSound, halt-IsSound}
use illinix_operating_system.Scheduling.{
  Switched, stays, goes_to, switch_process, TtySwitch, starts, cannot_start, shows, start_tty,
  switch_to_tty, enter_process, get_next_process, tty_unopened,
}
use illinix_operating_system.Kernel.Steps.{
  IsLive, Step, executes, halts, halts_root, opens, closes, stays_on, switches, shows_tty,
  starts_tty, cannot_start_tty, Reaches, here, next,
}

-- The processes that `switch_process` goes on with.
abbrev switched_state : Switched → Processes
switched_state (stays s) = s
switched_state (goes_to ebp esp s) = s

enter_process-IsSound :
    (table_at n : ℕ) (s : Processes) → IsSound s → IsSound (enter_process table_at n s)
unfolding enter_process
enter_process-IsSound table_at n s v = record {
  started = v.started;
  live = v.live;
  number = v.number;
  in_table = v.in_table;
  parent = v.parent;
  descriptors = v.descriptors;
  terminal = v.terminal;
  active = v.active;
}

active-IsSound :
    (s : Processes) (tty : ℕ) (flag : Bool)
    → tty < 3
    → IsSound s
    → IsSound (record s { active_tty = tty; next_one_is_root_shell = flag })
active-IsSound s tty flag h v = record {
  started = v.started;
  live = v.live;
  number = v.number;
  in_table = v.in_table;
  parent = v.parent;
  descriptors = v.descriptors;
  terminal = v.terminal;
  active = h;
}

saved-IsSound :
    (w : Context) (s : Processes)
    → IsSound s
    → IsLive s w.caller
    → IsSound (record s {
      pcbs = put s.pcbs w.caller (record (s.pcbs w.caller) { ebp = w.ebp; esp = w.esp });
    })
saved-IsSound w s v l =
    let at = v.live w.caller l.in_table l.marked in
    put-IsSound s w.caller _ v (record {
      process_num = refl;
      parent = refl;
      tty = refl;
      descriptors = IsValid-same (s.pcbs w.caller) _ (λ fd. refl) (v.descriptors w.caller at);
    })

switch_process-IsSound :
    (w : Context) (s : Processes) (r : Switched)
    → IsSound s
    → IsLive s w.caller
    → switch_process w s ≡ some r
    → IsSound (switched_state r)
unfolding switch_process
switch_process-IsSound w s r v l e =
    let curr = s.pcbs w.caller in
    let saved = record s {
      pcbs = put s.pcbs w.caller (record curr { ebp = w.ebp; esp = w.esp });
    } in
    let kept = saved-IsSound w s v l in
    elim (Option-cases (get_next_process s.tty_top_pid curr.tty)) [
      | inl bad ↦ absurd (ground (arith, e, bad))
      | inr (n, at) ↦ elim (Bool-cases (n == minus_one || n == curr.process_num)) [
        | inl same ↦
            let result : stays saved ≡ r = ground (arith, e, at, same) in rw (sym result) kept
        | inr other ↦
            let result : goes_to (saved.pcbs n).ebp (saved.pcbs n).esp
                  (enter_process w.table_at n saved)
                ≡ r =
              ground (arith, e, at, other) in
            rw (sym result) (enter_process-IsSound w.table_at n saved kept)
      ]
    ]

-- The processes after a switch of terminals.
abbrev tty_state : TtySwitch → Processes
tty_state (starts eip esp s screen) = s
tty_state (cannot_start r s screen) = s
tty_state (shows ebp esp s screen) = s

start_tty-IsSound :
    (disk : Reader) (w : Context) (fresh : Processes) (shell : Reader) (x : Executed)
    (screen : Screen)
    → IsSound fresh
    → fresh.next_one_is_root_shell ≡ true
    → execute disk w fresh shell ≡ some x
    → IsSound (tty_state (start_tty fresh screen x))
unfolding start_tty
start_tty-IsSound disk w fresh shell (failed r) screen v root e = v
start_tty-IsSound disk w fresh shell (enters eip esp s') screen v root e =
    execute-IsSound disk w fresh s' shell eip esp v (inr root) e

switch_to_tty-IsSound :
    (disk : Reader) (w : Context) (shell : Reader) (tty : ℕ) (s : Processes) (screen : Screen)
    (r : TtySwitch)
    → IsSound s
    → tty < 3
    → switch_to_tty disk w shell tty s screen ≡ some r
    → IsSound (tty_state r)
unfolding switch_to_tty
switch_to_tty-IsSound disk w shell tty s screen r v h e =
    let screen1 = switch_screen s.active_tty tty screen in
    let n = s.tty_top_pid tty in
    let active = record s { active_tty = tty } in
    elim (Bool-cases (n == tty_unopened)) [
      | inl fresh ↦
          let root = record active { next_one_is_root_shell = true } in
          elim (Option-cases (execute disk w root shell)) [
            | inl bad ↦ absurd (ground (arith, e, fresh, bad))
            | inr (x, run) ↦
                let result : start_tty root (clear screen1) x ≡ r = ground (arith, e, fresh, run) in
                rw (sym result) (
                  start_tty-IsSound disk w root shell x (clear screen1)
                    (active-IsSound s tty true h v) refl run)
          ]
      | inr there ↦
          let result : shows (s.pcbs n).ebp (s.pcbs n).esp (enter_process w.table_at n active)
                screen1
              ≡ r =
            ground (arith, e, there) in
          rw (sym result) (
            enter_process-IsSound w.table_at n active
              (active-IsSound s tty s.next_one_is_root_shell h v))
    ]

-- Every step of the kernel keeps the processes sound.
Step-IsSound :
    (disk shell : Reader) {s s' : Processes} → Step disk shell s s' → IsSound s → IsSound s'
Step-IsSound disk shell {s} {s'} (executes w command eip esp (inl l) e) v =
    execute-IsSound disk w s s' command eip esp v (inl (l.in_table, l.marked)) e
Step-IsSound disk shell {s} {s'} (executes w command eip esp (inr root) e) v =
    execute-IsSound disk w s s' command eip esp v (inr root) e
Step-IsSound disk shell {s} {s'} (halts w ebx status ebp esp d d' l e) v =
    halt-IsSound disk w shell ebx status s d d' (resumes ebp esp s') v l.in_table l.marked e
Step-IsSound disk shell {s} {s'} (halts_root w ebx status eip esp d d' l e) v =
    halt-IsSound disk w shell ebx status s d d' (restarts eip esp s') v l.in_table l.marked e
Step-IsSound disk shell {s} {s'} (opens w u d d' filename r p l e same) v =
    let at = v.live w.caller l.in_table l.marked in
    let (num, parent, tty) = open-keeps disk u (s.pcbs w.caller) p d d' filename r e in
    rw same (
      put-IsSound s w.caller p v (record {
        process_num = num;
        parent = parent;
        tty = tty;
        descriptors =
            open-IsValid disk u (s.pcbs w.caller) p d d' filename r (v.descriptors w.caller at) e;
      }))
Step-IsSound disk shell {s} {s'} (closes w d fd l same) v =
    let at = v.live w.caller l.in_table l.marked in
    rw same (
      put-IsSound s w.caller _ v
        (close-IsChanged (s.pcbs w.caller) d fd (v.descriptors w.caller at)))
Step-IsSound disk shell {s} {s'} (stays_on w l e) v = switch_process-IsSound w s (stays s') v l e
Step-IsSound disk shell {s} {s'} (switches w ebp esp l e) v =
    switch_process-IsSound w s (goes_to ebp esp s') v l e
Step-IsSound disk shell {s} {s'} (shows_tty w tty ebp esp screen screen' h e) v =
    switch_to_tty-IsSound disk w shell tty s screen (shows ebp esp s' screen') v h e
Step-IsSound disk shell {s} {s'} (starts_tty w tty eip esp screen screen' h e) v =
    switch_to_tty-IsSound disk w shell tty s screen (starts eip esp s' screen') v h e
Step-IsSound disk shell {s} {s'} (cannot_start_tty w tty r screen screen' h e) v =
    switch_to_tty-IsSound disk w shell tty s screen (cannot_start r s' screen') v h e

Reaches-IsSound :
    (disk shell : Reader) {s s' : Processes} → IsSound s → Reaches disk shell s s' → IsSound s'
Reaches-IsSound disk shell v here = v
Reaches-IsSound disk shell v (next r step) =
    Step-IsSound disk shell step (Reaches-IsSound disk shell v r)

-- The processes before the first shell: none is in the table.
pub record IsBoot (s : Processes) : Type 0 where
  pub no_process : (n : ℕ) → n < 6 → s.processes n ≡ 0
  pub terminal : s.active_tty < 3

-- In every state that any sequence of programs started, programs ended, files opened and closed,
-- interrupts of the timer and switches of terminals leads to from the boot of the kernel, each
-- process of the table has a control block of its own number and of one of the three terminals,
-- with its descriptors in order, whose parent has such a block too.
pub boot-IsSound :
    (disk shell : Reader) (s s' : Processes) → IsBoot s → Reaches disk shell s s' → IsSound s'
boot-IsSound disk shell s s' b r =
    Reaches-IsSound disk shell
      (record {
        started = λ n. false;
        live = λ n h marked. absurd (marked (b.no_process n h));
        number = λ n h. absurd (ground (arith, h));
        in_table = λ n h. absurd (ground (arith, h));
        parent = λ n h. absurd (ground (arith, h));
        descriptors = λ n h. absurd (ground (arith, h));
        terminal = λ n h. absurd (ground (arith, h));
        active = b.terminal;
      })
      r
