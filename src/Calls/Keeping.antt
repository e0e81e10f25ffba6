-- ===== src/Calls/Keeping.antt =====
-- What a call of `open` leaves of the control block.
use illinix_operating_system.Base.{
  ℕ, ◌≤◌, ◌≡◌, ◌⊎◌, inl, inr, refl, arith, Option, none, some, ◌==◌, Reader, minus_one, Bool-cases,
  ap, Option-cases, sym,
}
use illinix_operating_system.Pcb.{Pcb}
use illinix_operating_system.Filesys.{Dentry, read_dentry_by_name}
use illinix_operating_system.Calls.{
  Devices, Surroundings, open_descriptor, find_free, open_as, open_at, opened,
}
use illinix_operating_system.Calls.Descriptors.{IsValid, set_fd-IsValid}
use illinix_operating_system.Calls.Opening.{find_free_at_least}

open_as-IsValid :
    (w : Surroundings) (p : Pcb) (d : Devices) (fd : ℕ) (dentry : Dentry)
    → IsValid p
    → 2 ≤ fd
    → IsValid ((open_as w p d fd dentry).1)
unfolding open_as opened
open_as-IsValid w p d fd dentry v h = elim (Bool-cases (dentry.file_type == 0)) [
  | inl clock ↦ rw clock (set_fd-IsValid p fd _ v h (inr (refl, λ e. ground arith)))
  | inr later ↦ elim (Bool-cases (dentry.file_type == 1)) [
    | inl listing ↦ rw (later, listing) (set_fd-IsValid p fd _ v h (inr (refl, λ e. ground arith)))
    | inr more ↦ elim (Bool-cases (dentry.file_type == 2)) [
      | inl regular ↦
          rw (later, more, regular) (set_fd-IsValid p fd _ v h (inr (refl, λ e. ground arith)))
      | inr other ↦ rw (later, more, other) v
    ]
  ]
]

open_at_cases :
    (o : Option ℕ) (disk : Reader) (w : Surroundings) (p p' : Pcb) (d d' : Devices)
    (filename : Reader) (r : ℕ)
    → open_at o disk w p d filename ≡ some (r, p', d')
    → (p ≡ p') ⊎ ((fd : ℕ) × (dentry : Dentry) × (o ≡ some fd) × ((open_as w p d fd dentry).1 ≡ p'))
unfolding open_at
open_at_cases none disk w p p' d d' filename r e = inl cc
open_at_cases (some fd) disk w p p' d d' filename r e =
    elim (Option-cases (read_dentry_by_name disk filename w.junk_dentry)) [
      | inl fault ↦ absurd (ground (arith, e, fault))
      | inr ((found, dentry), eq) ↦ elim (Bool-cases (found == minus_one)) [
        | inl missing ↦ inl (ground (arith, e, eq, missing))
        | inr there ↦
            let same : open_as w p d fd dentry ≡ (r, p', d') = ground (arith, e, eq, there) in
            inr (fd, dentry, refl, ap (λ x. x.1) same)
      ]
    ]

-- Whatever the file is, a call of `open` that returns keeps the control block in order.
pub open-IsValid :
    (disk : Reader) (w : Surroundings) (p p' : Pcb) (d d' : Devices) (filename : Reader) (r : ℕ)
    → IsValid p
    → open_descriptor disk w p d filename ≡ some (r, p', d')
    → IsValid p'
unfolding open_descriptor
open-IsValid disk w p p' d d' filename r v e =
    elim (open_at_cases (find_free 6 p 2) disk w p p' d d' filename r e) [
      | inl same ↦ rw (sym same) v
      | inr (fd, dentry, at, result) ↦
          rw (sym result) (open_as-IsValid w p d fd dentry v (find_free_at_least 6 2 p fd at))
    ]

open_as-keeps :
    (w : Surroundings) (p : Pcb) (d : Devices) (fd : ℕ) (dentry : Dentry)
    → let q = (open_as w p d fd dentry).1 in
      (q.process_num ≡ p.process_num) × (q.parent ≡ p.parent) × (q.tty ≡ p.tty)
unfolding open_as
open_as-keeps w p d fd dentry = ground arith

-- `open` changes the descriptors of a process only.
pub open-keeps :
    (disk : Reader) (w : Surroundings) (p p' : Pcb) (d d' : Devices) (filename : Reader) (r : ℕ)
    → open_descriptor disk w p d filename ≡ some (r, p', d')
    → (p'.process_num ≡ p.process_num) × (p'.parent ≡ p.parent) × (p'.tty ≡ p.tty)
unfolding open_descriptor
open-keeps disk w p p' d d' filename r e =
    elim (open_at_cases (find_free 6 p 2) disk w p p' d d' filename r e) [
      | inl same ↦ rw (sym same) (refl, refl, refl)
      | inr (fd, dentry, at, result) ↦ rw (sym result) (open_as-keeps w p d fd dentry)
    ]
