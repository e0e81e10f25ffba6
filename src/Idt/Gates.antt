-- ===== src/Idt/Gates.antt =====
-- The gates after `load_idt`.
use illinix_operating_system.Base.{
  ℕ, zero, suc, ◌+◌, ◌≤◌, ◌<◌, ◌≡◌, ◌≢◌, refl, arith, Bool, true, false, ◌&&◌, ◌||◌, List, [], ◌∷◌,
  ltb, ◌==◌, if◌then◌else◌, Option, none, some, ◌∙◌, Bool-cases, inl, inr, ◌⊎◌,
}
use illinix_operating_system.Base.Table.{holds_below, holds_below-at}
use illinix_operating_system.Idt.{
  Handler, IdtDesc, kernel_cs, describe, fill_vector, fill_vectors, set_entries, entries, load_idt,
}
use illinix_operating_system.Idt.Exceptions.{Handled, handle}

fill_vectors_before :
    (left i : ℕ) (idt : ℕ → IdtDesc) (j : ℕ)
    → (j < i) ⊎ (j ≡ 15)
    → fill_vectors left i idt j ≡ idt j
unfolding fill_vectors fill_vector
fill_vectors_before zero i idt j h = refl
fill_vectors_before (suc left) i idt j h =
    fill_vectors_before left (i + 1) (fill_vector i idt) j (omega arith) ∙ ground arith

here_lem : (i j : ℕ) (idt : ℕ → IdtDesc) → i ≡ j → j ≢ 15 → fill_vector i idt j ≡ describe j (idt j)
unfolding fill_vector
here_lem i j idt e ne = rw e (ground arith)

skipped_lem : (i j : ℕ) (idt : ℕ → IdtDesc) → (i == j) ≡ false → fill_vector i idt j ≡ idt j
unfolding fill_vector
skipped_lem i j idt h = ground arith

fill_vectors_lem :
    (left i : ℕ) (idt : ℕ → IdtDesc) (j : ℕ)
    → i ≤ j
    → j < i + left
    → j ≢ 15
    → fill_vectors left i idt j ≡ describe j (idt j)
unfolding fill_vectors fill_vector
fill_vectors_lem zero i idt j h l ne = absurd (omega arith)
fill_vectors_lem (suc left) i idt j h l ne = elim (Bool-cases (i == j)) [
  | inl here ↦
      let e : i ≡ j = ground arith in
      fill_vectors_before left (i + 1) (fill_vector i idt) j (inl (omega arith))
      ∙ here_lem i j idt e ne
  | inr later ↦
      fill_vectors_lem left (i + 1) (fill_vector i idt) j (ground arith) (omega arith) ne
      ∙ rw (skipped_lem i j idt later) refl
]

-- Two descriptors that differ in the handler at most.
pub record SameGate (a b : IdtDesc) : Type 0 where
  pub seg_selector : a.seg_selector ≡ b.seg_selector
  pub reserved3 : a.reserved3 ≡ b.reserved3
  pub dpl : a.dpl ≡ b.dpl
  pub present : a.present ≡ b.present

set_entries_lem :
    (hs : List (ℕ × Handler)) (idt : ℕ → IdtDesc) (j : ℕ) → SameGate (set_entries hs idt j) (idt j)
unfolding set_entries
set_entries_lem [] idt j = record {
  seg_selector = refl;
  reserved3 = refl;
  dpl = refl;
  present = refl;
}
set_entries_lem ((v, h) ∷ more) idt j =
    let next : ℕ → IdtDesc = λ j'. if v == j' then record (idt v) { handler = h } else idt j' in
    let s = set_entries_lem more next j in
    record {
      seg_selector = s.seg_selector ∙ ground arith;
      reserved3 = s.reserved3 ∙ ground arith;
      dpl = s.dpl ∙ ground arith;
      present = s.present ∙ ground arith;
    }

-- What the processor reads of a gate apart from its handler: it is present in the kernel's code
-- segment, user programs may call it (`dpl` 3) for a system call only, and interrupts stay on
-- behind it (`reserved3`) for the exceptions and the system call only.
pub record IsGate (i : ℕ) (d : IdtDesc) : Type 0 where
  pub seg_selector : d.seg_selector ≡ kernel_cs
  pub present : d.present ≡ 1
  pub dpl : d.dpl ≡ (if i == 0x80 then 3 else 0)
  pub reserved3 : d.reserved3 ≡ (if ltb i 32 || i == 0x80 then 1 else 0)

describe-IsGate : (i : ℕ) (old : IdtDesc) → IsGate i (describe i old)
unfolding describe
describe-IsGate i old = record {
  seg_selector = ground arith;
  present = ground arith;
  dpl = ground arith;
  reserved3 = ground arith;
}

-- After `load_idt` every vector below 256 but 15 has such a gate, whatever the table held.
pub load_idt-IsGate : (idt : ℕ → IdtDesc) (i : ℕ) → i < 256 → i ≢ 15 → IsGate i (load_idt idt i)
unfolding load_idt
load_idt-IsGate idt i h ne =
    let s = set_entries_lem entries (fill_vectors 256 0 idt) i in
    let e = fill_vectors_lem 256 0 idt i (omega arith) (omega arith) ne in
    let g = describe-IsGate i (idt i) in
    record {
      seg_selector = s.seg_selector ∙ rw e g.seg_selector;
      present = s.present ∙ rw e g.present;
      dpl = s.dpl ∙ rw e g.dpl;
      reserved3 = s.reserved3 ∙ rw e g.reserved3;
    }

stops : Option Handled → Bool
stops none = false
stops (some e) = e.status == 1 && e.interrupts_off

exceptions_table :
    (idt : ℕ → IdtDesc)
    → holds_below 20 (λ i. i == 15 || stops (handle ((load_idt idt i).handler))) ≡ true
unfolding holds_below stops load_idt entries set_entries handle
exceptions_table idt = refl

stops_lem :
    (o : Option Handled)
    → stops o ≡ true
    → (e : Handled) × (o ≡ some e) × (e.status ≡ 1) × (e.interrupts_off ≡ true)
unfolding stops
stops_lem none h = absurd (ground arith)
stops_lem (some e) h = (e, refl, ground arith, ground arith)

-- Every vector of an exception, those below 20 but 15, leads to a handler that turns the
-- interrupts off and halts the process with status 1.
pub load_idt_handles :
    (idt : ℕ → IdtDesc) (i : ℕ)
    → i < 20
    → i ≢ 15
    → (e : Handled) × (handle ((load_idt idt i).handler) ≡ some e)
      × (e.status ≡ 1)
      × (e.interrupts_off ≡ true)
load_idt_handles idt i h ne =
    let row =
      holds_below-at (λ i. i == 15 || stops (handle ((load_idt idt i).handler))) i 20 h
        (exceptions_table idt) in
    stops_lem (handle ((load_idt idt i).handler)) (ground (arith, row))
