-- ===== src/Calls/Opening.antt =====
-- What `open` does to the descriptors.
use illinix_operating_system.Base.{
  ℕ, zero, suc, ◌+◌, ◌≤◌, ◌<◌, ◌≡◌, ◌≢◌, inl, inr, refl, arith, true, none, some, ◌==◌,
  if◌then◌else◌, Reader, minus_one, ◌>>=◌, Bool-cases, ◌++◌,
}
use illinix_operating_system.Pcb.{Pcb, FileOperations, rtc, directory, file, set_fd}
use illinix_operating_system.Filesys.{Dentry, read_dentry_by_name}
use illinix_operating_system.Rtc.{rtc_open}
use illinix_operating_system.Calls.{
  Devices, Surroundings, open_descriptor, find_free, open_as, open_at, opened,
}

pub find_free_lem :
    (left i : ℕ) (p : Pcb) (fd : ℕ)
    → i ≤ fd
    → fd < i + left
    → (p.fd_array fd).flags ≡ 0
    → ((j : ℕ) → i ≤ j → j < fd → (p.fd_array j).flags ≢ 0)
    → find_free left p i ≡ some fd
unfolding find_free
find_free_lem zero i p fd h l free used = absurd (omega arith)
find_free_lem (suc left) i p fd h l free used = elim (Bool-cases (i == fd)) [
  | inl here ↦ let e : fd ≡ i = ground arith in ground (arith, e, free)
  | inr later ↦
      let ne = used i (omega arith) (ground arith) in
      let rest =
        find_free_lem left (i + 1) p fd (ground arith) (omega arith) free
          (λ j a b. used j (omega arith) b) in
      ground (arith, ne, rest)
]

pub find_free-none :
    (left i : ℕ) (p : Pcb)
    → ((j : ℕ) → i ≤ j → j < i + left → (p.fd_array j).flags ≢ 0)
    → find_free left p i ≡ none
unfolding find_free
find_free-none zero i p used = refl
find_free-none (suc left) i p used =
    let ne = used i (omega arith) (omega arith) in
    let rest = find_free-none left (i + 1) p (λ j a b. used j (omega arith) (omega arith)) in
    ground (arith, ne, rest)

pub find_free_at_least : (left i : ℕ) (p : Pcb) (fd : ℕ) → find_free left p i ≡ some fd → i ≤ fd
unfolding find_free
find_free_at_least zero i p fd h = absurd (ground arith)
find_free_at_least (suc left) i p fd h = elim (Bool-cases ((p.fd_array i).flags == 0)) [
  | inl free ↦ ground arith
  | inr used ↦ let next = find_free_at_least left (i + 1) p fd (ground arith) in omega arith
]

-- The jump table for a type of file: the clock, a directory or a regular file.
unfoldable pub operations_of : ℕ → FileOperations
operations_of t = if t == 0 then rtc else if t == 1 then directory else file

-- The first free descriptor from 2 on.
pub record IsFirstFree (p : Pcb) (fd : ℕ) : Type 0 where
  pub from_two : 2 ≤ fd
  pub in_array : fd < 8
  pub free : (p.fd_array fd).flags ≡ 0
  pub used_before : (j : ℕ) → 2 ≤ j → j < fd → (p.fd_array j).flags ≢ 0

-- `p'` is `p` with `fd` opened for a file.
pub record IsOpened (p p' : Pcb) (fd : ℕ) (dentry : Dentry) : Type 0 where
  pub flags : (p'.fd_array fd).flags ≡ 1
  pub position : (p'.fd_array fd).file_pos ≡ 0
  pub operations : (p'.fd_array fd).file_operations ≡ operations_of (dentry.file_type)
  pub inode : (p'.fd_array fd).inode_num ≡ (if dentry.file_type == 2 then dentry.inode_num else 0)
  pub others : (j : ℕ) → j ≢ fd → p'.fd_array j ≡ p.fd_array j

opened_lem :
    (p : Pcb) (fd inode : ℕ) (ops : FileOperations) (dentry : Dentry)
    → ops ≡ operations_of dentry.file_type
    → inode ≡ (if dentry.file_type == 2 then dentry.inode_num else 0)
    → IsOpened p (set_fd p fd (opened (p.fd_array fd) inode ops)) fd dentry
unfolding opened
opened_lem p fd inode ops dentry eo ei = record {
  flags = ground arith;
  position = ground arith;
  operations = ground (arith, eo);
  inode = ground (arith, ei);
  others = λ j ne. ground arith;
}

open_as_lem :
    (w : Surroundings) (p : Pcb) (d : Devices) (fd : ℕ) (dentry : Dentry)
    → dentry.file_type ≤ 2
    → (p' : Pcb) × (d' : Devices) × (open_as w p d fd dentry ≡ (fd, p', d'))
      × IsOpened p p' fd dentry
unfolding open_as operations_of
open_as_lem w p d fd dentry h = elim (Bool-cases (dentry.file_type == 0)) [
  | inl clock ↦
      let fresh = opened (p.fd_array fd) 0 rtc in
      let sent = (rtc_open w.rtc_register).1 in
      (
        set_fd p fd fresh,
        record d { ports = d.ports ++ sent },
        rw clock refl,
        opened_lem p fd 0 rtc dentry (ground arith) (ground arith),
      )
  | inr later ↦ elim (Bool-cases (dentry.file_type == 1)) [
    | inl listing ↦ (
      set_fd p fd (opened (p.fd_array fd) 0 directory),
      d,
      rw (later, listing) refl,
      opened_lem p fd 0 directory dentry (ground arith) (ground arith),
    )
    | inr regular ↦
        let two : (dentry.file_type == 2) ≡ true = ground arith in
        (
          set_fd p fd (opened (p.fd_array fd) dentry.inode_num file),
          d,
          rw (later, regular, two) refl,
          opened_lem p fd dentry.inode_num file dentry (ground arith) (ground arith),
        )
  ]
]

-- With a free descriptor and a file of a known type under the name, `open` takes the first free
-- descriptor from 2 on: it returns it, sets it up for the type of the file at position 0, and
-- leaves the other descriptors alone.
pub open_lem :
    (disk : Reader) (w : Surroundings) (p : Pcb) (d : Devices) (filename : Reader) (dentry : Dentry)
    (fd : ℕ)
    → IsFirstFree p fd
    → read_dentry_by_name disk filename w.junk_dentry ≡ some (0, dentry)
    → dentry.file_type ≤ 2
    → (p' : Pcb) × (d' : Devices) × (open_descriptor disk w p d filename ≡ some (fd, p', d'))
      × IsOpened p p' fd dentry
unfolding open_descriptor open_at
open_lem disk w p d filename dentry fd f found h =
    let first =
      find_free_lem 6 2 p fd f.from_two (omega (arith, f.in_array)) f.free f.used_before in
    let (p', d', e, o) = open_as_lem w p d fd dentry h in
    (p', d', rw (first, found, ◌>>=◌) (ground (arith, e)), o)

-- For a regular file no device is touched.
pub open_regular :
    (disk : Reader) (w : Surroundings) (p : Pcb) (d : Devices) (filename : Reader) (dentry : Dentry)
    (fd : ℕ)
    → IsFirstFree p fd
    → read_dentry_by_name disk filename w.junk_dentry ≡ some (0, dentry)
    → dentry.file_type ≡ 2
    → (p' : Pcb) × (open_descriptor disk w p d filename ≡ some (fd, p', d))
      × IsOpened p p' fd dentry
unfolding open_descriptor open_at open_as operations_of
open_regular disk w p d filename dentry fd f found regular =
    let first =
      find_free_lem 6 2 p fd f.from_two (omega (arith, f.in_array)) f.free f.used_before in
    (
      set_fd p fd (opened (p.fd_array fd) dentry.inode_num file),
      rw (first, found, ◌>>=◌, regular) refl,
      opened_lem p fd dentry.inode_num file dentry (ground (arith, regular))
          (ground (arith, regular)),
    )

-- For the directory no device is touched.
pub open_listing :
    (disk : Reader) (w : Surroundings) (p : Pcb) (d : Devices) (filename : Reader) (dentry : Dentry)
    (fd : ℕ)
    → IsFirstFree p fd
    → read_dentry_by_name disk filename w.junk_dentry ≡ some (0, dentry)
    → dentry.file_type ≡ 1
    → (p' : Pcb) × (open_descriptor disk w p d filename ≡ some (fd, p', d))
      × IsOpened p p' fd dentry
unfolding open_descriptor open_at open_as operations_of
open_listing disk w p d filename dentry fd f found listing =
    let first =
      find_free_lem 6 2 p fd f.from_two (omega (arith, f.in_array)) f.free f.used_before in
    (
      set_fd p fd (opened (p.fd_array fd) 0 directory),
      rw (first, found, ◌>>=◌, listing) refl,
      opened_lem p fd 0 directory dentry (ground (arith, listing)) (ground (arith, listing)),
    )

-- For the clock something is sent, and nothing else changes.
pub open_clock :
    (disk : Reader) (w : Surroundings) (p : Pcb) (d : Devices) (filename : Reader) (dentry : Dentry)
    (fd : ℕ)
    → IsFirstFree p fd
    → read_dentry_by_name disk filename w.junk_dentry ≡ some (0, dentry)
    → dentry.file_type ≡ 0
    → (p' : Pcb) × (d' : Devices) × (open_descriptor disk w p d filename ≡ some (fd, p', d'))
      × IsOpened p p' fd dentry
      × (d'.terminal ≡ d.terminal)
unfolding open_descriptor open_at open_as operations_of
open_clock disk w p d filename dentry fd f found clock =
    let first =
      find_free_lem 6 2 p fd f.from_two (omega (arith, f.in_array)) f.free f.used_before in
    (
      set_fd p fd (opened (p.fd_array fd) 0 rtc),
      record d { ports = d.ports ++ (rtc_open w.rtc_register).1 },
      rw (first, found, ◌>>=◌, clock) refl,
      opened_lem p fd 0 rtc dentry (ground (arith, clock)) (ground (arith, clock)),
      refl,
    )

-- With every descriptor from 2 on in use, `open` returns -1 without a look at the disk.
pub open_full :
    (disk : Reader) (w : Surroundings) (p : Pcb) (d : Devices) (filename : Reader)
    → ((j : ℕ) → 2 ≤ j → j < 8 → (p.fd_array j).flags ≢ 0)
    → open_descriptor disk w p d filename ≡ some (minus_one, p, d)
unfolding open_descriptor open_at
open_full disk w p d filename used =
    rw (find_free-none 6 2 p (λ j a b. used j a (omega arith))) refl

-- Nor does a name that is not in the directory change anything.
pub open_missing :
    (disk : Reader) (w : Surroundings) (p : Pcb) (d : Devices) (filename : Reader) (dentry : Dentry)
    (fd : ℕ)
    → IsFirstFree p fd
    → read_dentry_by_name disk filename w.junk_dentry ≡ some (minus_one, dentry)
    → open_descriptor disk w p d filename ≡ some (minus_one, p, d)
unfolding open_descriptor open_at
open_missing disk w p d filename dentry fd f missing =
    let first =
      find_free_lem 6 2 p fd f.from_two (omega (arith, f.in_array)) f.free f.used_before in
    rw (first, missing, ◌>>=◌) refl
