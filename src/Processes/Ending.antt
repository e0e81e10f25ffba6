-- ===== src/Processes/Ending.antt =====
-- `halt` keeps the invariant of the processes.
use illinix_operating_system.Base.{
  ℕ, zero, suc, ◌<◌, ◌≡◌, ◌≢◌, inl, inr, refl, arith, Bool, true, some, Reader, ◌==◌, Bool-cases,
  Option-cases, ◌∙◌, sym,
}
use mathlib.Core.Path.{subst}
use illinix_operating_system.Pcb.{Pcb}
use illinix_operating_system.Calls.{Devices, close}
use illinix_operating_system.Calls.Descriptors.{IsValid}
use illinix_operating_system.Calls.Closing.{close-IsValid}
use illinix_operating_system.Processes.{
  Processes, Context, Executed, failed, enters, Halted, restarts, resumes, put, execute, halt,
  close_all, resume, restart, return_to_parent,
}
use illinix_operating_system.Processes.Soundness.{IsSound, execute-IsSound}

-- `q` is `p` with other descriptors, in order.
pub record IsChanged (p q : Pcb) : Type 0 where
  pub process_num : q.process_num ≡ p.process_num
  pub parent : q.parent ≡ p.parent
  pub tty : q.tty ≡ p.tty
  pub descriptors : IsValid q

pub close-IsChanged : (p : Pcb) (d : Devices) (fd : ℕ) → IsValid p → IsChanged p ((close p d fd).1)
close-IsChanged p d fd v = record {
  process_num = unfold close in ground arith;
  parent = unfold close in ground arith;
  tty = unfold close in ground arith;
  descriptors = close-IsValid p d fd v;
}

close_all-IsChanged :
    (left ebx : ℕ) (p : Pcb) (d : Devices) → IsValid p → IsChanged p ((close_all left ebx p d).0)
unfolding close_all
close_all-IsChanged zero ebx p d v = record {
  process_num = refl;
  parent = refl;
  tty = refl;
  descriptors = v;
}
close_all-IsChanged (suc left) ebx p d v =
    let (r, p', d') = close p d ebx in
    let c = close-IsChanged p d ebx v in
    let rest = close_all-IsChanged left ebx ((close p d ebx).1) ((close p d ebx).2) c.descriptors in
    record {
      process_num = rest.process_num ∙ c.process_num;
      parent = rest.parent ∙ c.parent;
      tty = rest.tty ∙ c.tty;
      descriptors = rest.descriptors;
    }

put-IsChanged :
    (s : Processes) (n : ℕ) (q : Pcb) (i : ℕ)
    → IsChanged (s.pcbs n) q
    → IsValid (s.pcbs i)
    → IsChanged (s.pcbs i) (put s.pcbs n q i)
put-IsChanged s n q i c v = elim (Bool-cases (n == i)) [
  | inl here ↦ let at : n ≡ i = ground arith in rw here (subst (λ k. IsChanged (s.pcbs k) q) at c)
  | inr other ↦ rw other (record { process_num = refl; parent = refl; tty = refl; descriptors = v })
]

-- A process with changed descriptors leaves the processes sound.
pub put-IsSound :
    (s : Processes) (n : ℕ) (q : Pcb)
    → IsSound s
    → IsChanged (s.pcbs n) q
    → IsSound (record s { pcbs = put s.pcbs n q })
put-IsSound s n q v c =
    let at = λ (i : ℕ) (h : v.started i ≡ true). put-IsChanged s n q i c (v.descriptors i h) in
    record {
      started = v.started;
      live = v.live;
      number = λ i h. (at i h).process_num ∙ v.number i h;
      in_table = v.in_table;
      parent = λ i h. rw ((at i h).parent) (v.parent i h);
      descriptors = λ i h. (at i h).descriptors;
      terminal = λ i h. omega (arith, (at i h).tty, v.terminal i h);
      active = v.active;
    }

module _ (w : Context) (pcb : Pcb) (s : Processes) (v : IsSound s) where
  return_to_parent-IsSound : v.started pcb.parent ≡ true → IsSound (return_to_parent w pcb s)
  unfolding return_to_parent
  return_to_parent-IsSound up = record {
    started = v.started;
    live = λ i small marked. ground (arith, v.number pcb.parent up, v.live i small, up, marked);
    number = v.number;
    in_table = v.in_table;
    parent = v.parent;
    descriptors = v.descriptors;
    terminal = v.terminal;
    active = v.active;
  }

root-IsSound :
    (s : Processes) (n : ℕ) (flag : Bool)
    → (v : IsSound s)
    → (v' : IsSound (record s { processes = put s.processes n 0; next_one_is_root_shell = flag }))
      × ((k : ℕ) → v.started k ≡ true → v'.started k ≡ true)
root-IsSound s n flag v = (
  record {
    started = v.started;
    live = λ i small marked. v.live i small (ground (arith, marked));
    number = v.number;
    in_table = v.in_table;
    parent = v.parent;
    descriptors = v.descriptors;
    terminal = v.terminal;
    active = v.active;
  },
  λ k h. h,
)

-- The processes that `halt` goes on with.
abbrev pub state_of : Halted → Processes
state_of (restarts eip esp s) = s
state_of (resumes ebp esp s) = s

module _ (w : Context) (s : Processes) (pcb : Pcb) (v : IsSound s)
    (up : v.started pcb.parent ≡ true) where
  resume-IsSound : IsSound (state_of (resume w pcb s))
  unfolding resume
  resume-IsSound = return_to_parent-IsSound w pcb s v up

restart-IsSound :
    (disk : Reader) (w : Context) (shell : Reader) (pcb : Pcb) (s : Processes) (x : Executed)
    (v : IsSound s)
    → v.started pcb.parent ≡ true
    → s.next_one_is_root_shell ≡ true
    → execute disk w s shell ≡ some x
    → IsSound (state_of (restart w pcb s x))
unfolding restart
restart-IsSound disk w shell pcb s (failed r) v up root e = resume-IsSound w s pcb v up
restart-IsSound disk w shell pcb s (enters eip esp s') v up root e =
    execute-IsSound disk w s s' shell eip esp v (inr root) e

-- Whatever a process of the table has open, and whether it is the shell of a terminal or a
-- child, its `halt` leaves the processes sound.
pub halt-IsSound :
    (disk : Reader) (w : Context) (shell : Reader) (ebx status : ℕ) (s : Processes) (d d' : Devices)
    (h : Halted)
    → IsSound s
    → w.caller < 6
    → s.processes w.caller ≢ 0
    → halt disk w shell ebx status s d ≡ some (h, d')
    → IsSound (state_of h)
unfolding halt
halt-IsSound disk w shell ebx status s d d' h v small marked e =
    let closes = close_all 8 ebx (s.pcbs w.caller) d in
    let pcb = closes.0 in
    let own = v.live w.caller small marked in
    let c = close_all-IsChanged 8 ebx (s.pcbs w.caller) d (v.descriptors w.caller own) in
    let closed = record s { pcbs = put s.pcbs w.caller pcb } in
    let v1 = put-IsSound s w.caller pcb v c in
    let same : (w.caller == w.caller) ≡ true = ground arith in
    let block : closed.pcbs w.caller ≡ pcb = rw same refl in
    let up : v1.started pcb.parent ≡ true =
      subst (λ (p : Pcb). v1.started p.parent ≡ true) block
        (v1.parent w.caller (v1.live w.caller small marked)) in
    elim (Bool-cases (pcb.parent == w.caller)) [
      | inl root ↦
          let fresh = record closed {
            processes = put s.processes pcb.process_num 0;
            next_one_is_root_shell = true;
          } in
          let (v2, more) = root-IsSound closed pcb.process_num true v1 in
          elim (Option-cases (execute disk w fresh shell)) [
            | inl bad ↦ absurd (ground (arith, e, root, bad))
            | inr (x, run) ↦
                let result : restart w pcb fresh x ≡ h = ground (arith, e, root, run) in
                rw (sym result)
                  (restart-IsSound disk w shell pcb fresh x v2 (more pcb.parent up) refl run)
          ]
      | inr child ↦
          let result : resume w pcb closed ≡ h = ground (arith, e, child) in
          rw (sym result) (resume-IsSound w closed pcb v1 up)
    ]
