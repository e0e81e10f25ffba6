-- ===== src/Calls/Closing.antt =====
-- What `close` does to the descriptors.
use illinix_operating_system.Base.{
  ℕ, ◌≤◌, ◌<◌, ◌≡◌, ◌≢◌, ◌⊎◌, inl, inr, refl, arith, false, ◌||◌, ltb, leb, ◌==◌, minus_one,
  is_negative, Bool-cases,
}
use illinix_operating_system.Pcb.{
  Pcb, FileOperations, null, terminal_input, terminal_output, rtc, directory, file, set_fd,
}
use illinix_operating_system.Filesys.{Dentry, dir_close, file_close}
use illinix_operating_system.Rtc.{rtc_close}
use illinix_operating_system.Terminal.{terminal_close}
use illinix_operating_system.Calls.{Devices, close, close_through}
use illinix_operating_system.Calls.Descriptors.{IsValid, set_fd-IsValid}
use illinix_operating_system.Calls.Opening.{IsFirstFree, IsOpened}

-- `close` refuses the first two descriptors, those that do not exist and those that are free:
-- it returns -1 and changes nothing.
pub close_refused :
    (p : Pcb) (d : Devices) (fd : ℕ)
    → fd < 2 ⊎ 8 ≤ fd ⊎ ((p.fd_array fd).flags ≡ 0)
    → close p d fd ≡ (minus_one, p, d)
unfolding close
close_refused p d fd h = ground arith

close_through_lem :
    (ops : FileOperations) (fd : ℕ) (d : Devices)
    → fd < 8
    → (d' : Devices) × (close_through ops fd d ≡ (false, d'))
unfolding close_through terminal_close rtc_close file_close dir_close
close_through_lem null fd d h = (_, refl)
close_through_lem terminal_input fd d h = (_, refl)
close_through_lem terminal_output fd d h = (_, refl)
close_through_lem rtc fd d h = (_, refl)
close_through_lem directory fd d h = (d, ground arith)
close_through_lem file fd d h = (_, refl)

-- On a descriptor from 2 on that is in use `close` returns 0 and frees it, keeps its other
-- fields and leaves the other descriptors alone.
pub close_lem :
    (p : Pcb) (d : Devices) (fd : ℕ)
    → 2 ≤ fd
    → fd < 8
    → (p.fd_array fd).flags ≢ 0
    → (d' : Devices) × (close p d fd ≡ (0, set_fd p fd (record (p.fd_array fd) { flags = 0 }), d'))
unfolding close
close_lem p d fd h l used =
    let (d', e) = close_through_lem (p.fd_array fd).file_operations fd d l in
    (d', ground (arith, e))

-- For a regular file no device is touched.
pub close_regular :
    (p : Pcb) (d : Devices) (fd : ℕ)
    → 2 ≤ fd
    → fd < 8
    → (p.fd_array fd).flags ≡ 1
    → (p.fd_array fd).file_operations ≡ file
    → close p d fd ≡ (0, set_fd p fd (record (p.fd_array fd) { flags = 0 }), d)
unfolding close close_through file_close
close_regular p d fd h l used regular = rw regular (ground (arith, used))

-- For the directory no device is touched.
pub close_listing :
    (p : Pcb) (d : Devices) (fd : ℕ)
    → 2 ≤ fd
    → fd < 8
    → (p.fd_array fd).flags ≡ 1
    → (p.fd_array fd).file_operations ≡ directory
    → close p d fd ≡ (0, set_fd p fd (record (p.fd_array fd) { flags = 0 }), d)
unfolding close close_through dir_close
close_listing p d fd h l used listing = rw (listing) (ground (arith, used))

-- `close` keeps the control block in order, whatever the descriptor.
pub close-IsValid : (p : Pcb) (d : Devices) (fd : ℕ) → IsValid p → IsValid ((close p d fd).1)
unfolding close
close-IsValid p d fd v = elim (Bool-cases (is_negative fd || ltb fd 2 || leb 8 fd)) [
  | inl bad ↦ rw bad v
  | inr good ↦ elim (Bool-cases ((p.fd_array fd).flags == 0)) [
    | inl free ↦ rw (good, free) v
    | inr used ↦ rw (good, used) (set_fd-IsValid p fd _ v (ground arith) (inl refl))
  ]
]

-- A descriptor that `open` took and `close` freed is again the first free one, so that the next
-- `open` takes it.
pub close-IsFirstFree :
    (p p1 : Pcb) (d : Devices) (fd : ℕ) (dentry : Dentry)
    → IsFirstFree p fd
    → IsOpened p p1 fd dentry
    → IsFirstFree ((close p1 d fd).1) fd
close-IsFirstFree p p1 d fd dentry f o =
    let (d', e) = close_lem p1 d fd f.from_two f.in_array (ground (arith, o.flags)) in
    record {
      from_two = f.from_two;
      in_array = f.in_array;
      free = rw e (ground arith);
      used_before = λ j a b. rw e (ground (arith, f.used_before j a b, o.others j));
    }
