-- ===== src/Programs/Syserr/Refusals.antt =====
-- The tests of syserr whose calls the kernel refuses at once.
use Prim.Native.String.{String}
use illinix_operating_system.Base.{
  ℕ, zero, suc, ◌+◌, ◌≤◌, ◌<◌, ◌≡◌, ◌⊎◌, inl, inr, refl, arith, true, List, bytes_at, ap,
  Bool-cases, minus_one, ltb,
}
use illinix_operating_system.Base.Text.{codes}
use illinix_operating_system.Terminal.{null_func}
use illinix_operating_system.Pcb.{Pcb}
use illinix_operating_system.Calls.{Devices, read, write, vidmap}
use illinix_operating_system.Calls.Closing.{close_refused}
use illinix_operating_system.Calls.Transfer.{HasOutput, refused}
use illinix_operating_system.Programs.{gives}
use illinix_operating_system.Programs.Actions.{
  outcome_of_read, ece391_read, ece391_write, ece391_close,
}
use illinix_operating_system.Programs.Actions.Output.{shows, is_literal, tell_lem}
use illinix_operating_system.Programs.Actions.Input.{HasInput}
use illinix_operating_system.Programs.Syserr.{
  Setting, neg_fd, big_fd, sys_call, expect_refusal, report, err_neg_fd, err_big_fd, close_unopened,
  read_unopened, write_unopened, err_unopened, err_vidmap, err_stdin_out, err_syscall_num,
}

-- The descriptors of a process that has opened nothing.
pub record IsFresh (p : Pcb) : Type 0 where
  pub input : HasInput p
  pub output : HasOutput p
  pub free : (j : ℕ) → 2 ≤ j → j < 8 → (p.fd_array j).flags ≡ 0

module _ (e : Setting) (p : Pcb) (d : Devices) where
  read_refused :
      (fd : ℕ) (buf : List ℕ)
      → (8 ≤ fd) ⊎ ((p.fd_array fd).flags ≡ 0)
      → ece391_read e.disk e.surroundings fd buf 31 p d ≡ gives (minus_one, buf) p d
  unfolding ece391_read
  read_refused fd buf h =
      let (r, w, c) = refused e.disk e.surroundings p d fd buf (bytes_at buf) 31 h in
      ap outcome_of_read r

  write_refused :
      (fd : ℕ) (buf : List ℕ)
      → (8 ≤ fd) ⊎ ((p.fd_array fd).flags ≡ 0)
      → ece391_write e.surroundings fd (bytes_at buf) 31 p d ≡ gives minus_one p d
  unfolding ece391_write
  write_refused fd buf h =
      let (r, w, c) = refused e.disk e.surroundings p d fd buf (bytes_at buf) 31 h in rw w refl

  close_is_refused :
      (fd : ℕ)
      → fd < 2 ⊎ 8 ≤ fd ⊎ ((p.fd_array fd).flags ≡ 0)
      → ece391_close fd p d ≡ gives minus_one p d
  unfolding ece391_close
  close_is_refused fd h = rw (close_refused p d fd h) refl

  pub expect_lem :
      (message : String) (fail : ℕ) → expect_refusal e minus_one message fail p d ≡ gives fail p d
  unfolding expect_refusal
  expect_lem message fail = refl

  pub report_lem :
      (bad good : String)
      → HasOutput p
      → is_literal good ≡ true
      → report e 0 bad good p d ≡ gives 0 p (shows (codes good) d)
  unfolding report
  report_lem bad good o h = rw (tell_lem e.surroundings good p d o h) refl

  pub err_neg_fd_lem :
      HasOutput p → err_neg_fd e p d ≡ gives 0 p (shows (codes "err_neg_fd: PASS\n") d)
  unfolding err_neg_fd is_literal
  err_neg_fd_lem o =
      rw
        (
          read_refused neg_fd e.junk (inl (omega arith)),
          expect_lem,
          write_refused neg_fd e.junk (inl (omega arith)),
          expect_lem,
          close_is_refused neg_fd (inr (inl (omega arith))),
          expect_lem,
        )
        (report_lem "err_neg_fd: FAIL\n" "err_neg_fd: PASS\n" o refl)

  pub err_big_fd_lem :
      HasOutput p → err_big_fd e p d ≡ gives 0 p (shows (codes "err_big_fd: PASS\n") d)
  unfolding err_big_fd is_literal
  err_big_fd_lem o =
      rw
        (
          read_refused big_fd e.junk (inl (omega arith)),
          expect_lem,
          write_refused big_fd e.junk (inl (omega arith)),
          expect_lem,
          close_is_refused big_fd (inr (inl (omega arith))),
          expect_lem,
        )
        (report_lem "err_big_fd: FAIL\n" "err_big_fd: PASS\n" o refl)

  pub err_syscall_num_lem :
      HasOutput p → err_syscall_num e p d ≡ gives 0 p (shows (codes "err_syscall_num: PASS\n") d)
  unfolding err_syscall_num is_literal sys_call
  err_syscall_num_lem o =
      rw
        (
          expect_lem "syscall 0 fail\n",
          expect_lem "big num syscall fail\n",
          expect_lem "neg num syscall fail\n",
        )
        (report_lem "err_syscall_num: FAIL\n" "err_syscall_num: PASS\n" o refl)

  pub err_vidmap_lem :
      HasOutput p → err_vidmap e p d ≡ gives 0 p (shows (codes "err_vidmap: PASS\n") d)
  unfolding err_vidmap is_literal vidmap
  err_vidmap_lem o =
      rw (expect_lem "Null pointer fail\n", expect_lem "Kernel pointer fail fail\n")
        (report_lem "err_vidmap: FAIL\n" "err_vidmap: PASS\n" o refl)

  module _ (fresh : IsFresh p) where
    close_unopened_lem : (left i : ℕ) → i + left ≡ 8 → close_unopened e left i 0 p d ≡ gives 0 p d
    unfolding close_unopened
    close_unopened_lem zero i h = refl
    close_unopened_lem (suc left) i h =
        rw (close_is_refused i (closed i (omega arith)), expect_lem)
          (close_unopened_lem left (i + 1) (omega arith))
      where
        closed : (i : ℕ) → i < 8 → i < 2 ⊎ 8 ≤ i ⊎ ((p.fd_array i).flags ≡ 0)
        closed i l = elim (Bool-cases (ltb i 2)) [
          | inl first ↦ inl (ground arith)
          | inr later ↦ inr (inr (fresh.free i (ground arith) l))
        ]

    read_unopened_lem :
        (left i : ℕ) (buf : List ℕ)
        → 2 ≤ i
        → i + left ≡ 8
        → read_unopened e left i buf 0 p d ≡ gives (0, buf) p d
    unfolding read_unopened
    read_unopened_lem zero i buf l h = refl
    read_unopened_lem (suc left) i buf l h =
        rw (read_refused i buf (inr (fresh.free i l (omega arith))), expect_lem)
          (read_unopened_lem left (i + 1) buf (omega arith) (omega arith))

    write_unopened_lem :
        (left i : ℕ) (buf : List ℕ)
        → 2 ≤ i
        → i + left ≡ 8
        → write_unopened e left i buf 0 p d ≡ gives 0 p d
    unfolding write_unopened
    write_unopened_lem zero i buf l h = refl
    write_unopened_lem (suc left) i buf l h =
        rw (write_refused i buf (inr (fresh.free i l (omega arith))), expect_lem)
          (write_unopened_lem left (i + 1) buf (omega arith) (omega arith))

    pub err_unopened_lem : err_unopened e p d ≡ gives 0 p (shows (codes "err_unopened: PASS\n") d)
    unfolding err_unopened is_literal
    err_unopened_lem =
        rw
          (
            close_unopened_lem 8 0 (omega arith),
            read_unopened_lem 6 2 e.junk (omega arith) (omega arith),
            write_unopened_lem 6 2 e.junk (omega arith) (omega arith),
          )
          (report_lem "err_unopened: FAIL\n" "err_unopened: PASS\n" fresh.output refl)

    write_input : ece391_write e.surroundings 0 (bytes_at e.junk) 31 p d ≡ gives minus_one p d
    unfolding ece391_write write null_func
    write_input = rw (fresh.input.used, fresh.input.operations) refl

    read_output : ece391_read e.disk e.surroundings 1 e.junk 31 p d ≡ gives (minus_one, e.junk) p d
    unfolding ece391_read read null_func
    read_output = rw (fresh.output.used, fresh.output.operations) refl

    pub err_stdin_out_lem :
        err_stdin_out e p d ≡ gives 0 p (shows (codes "err_stdin_out: PASS\n") d)
    unfolding err_stdin_out is_literal
    err_stdin_out_lem =
        rw (write_input, expect_lem, read_output, expect_lem)
          (report_lem "err_stdin_out: FAIL\n" "err_stdin_out: PASS\n" fresh.output refl)
