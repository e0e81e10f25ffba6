-- ===== src/Programs/Syserr/Opening.antt =====
-- The tests of syserr that open files.
use Prim.Native.String.{String}
use illinix_operating_system.Base.{
  ℕ, zero, suc, ◌+◌, ◌≤◌, ◌<◌, ◌≡◌, refl, arith, some, minus_one, ◌==◌, Bool-cases, inl, inr, false,
}
use mathlib.Core.Path.{subst}
use illinix_operating_system.Base.Text.{text, codes}
use illinix_operating_system.Pcb.{Pcb, directory, set_fd}
use illinix_operating_system.Filesys.{Dentry, read_dentry_by_name}
use illinix_operating_system.Calls.{Devices}
use illinix_operating_system.Calls.Opening.{
  IsFirstFree, open_listing, open_full, open_missing, operations_of,
}
use illinix_operating_system.Calls.Closing.{close_listing}
use illinix_operating_system.Calls.Transfer.{HasOutput}
use illinix_operating_system.Programs.{gives}
use illinix_operating_system.Programs.Actions.{ece391_open, ece391_close}
use illinix_operating_system.Programs.Actions.Output.{shows, is_literal, tell_lem}
use illinix_operating_system.Programs.Actions.Input.{HasInput}
use illinix_operating_system.Programs.Syserr.{
  Setting, open_lots, close_lots, err_open_lots, err_open,
}
use illinix_operating_system.Programs.Syserr.Refusals.{IsFresh, expect_lem, report_lem}

-- The directory is open on the descriptors from `lo` to `hi`, and the others are free.
record HasListings (p : Pcb) (lo hi : ℕ) : Type 0 where
  input : HasInput p
  output : HasOutput p
  used : (j : ℕ) → lo ≤ j → j < hi → (p.fd_array j).flags ≡ 1
  listing : (j : ℕ) → lo ≤ j → j < hi → (p.fd_array j).file_operations ≡ directory
  free_before : (j : ℕ) → 2 ≤ j → j < lo → (p.fd_array j).flags ≡ 0
  free_after : (j : ℕ) → hi ≤ j → j < 8 → (p.fd_array j).flags ≡ 0

-- The name stands for the directory, or for nothing.
abbrev pub IsListed : Setting → String → Type 0
IsListed e name =
    (dentry : Dentry) × (read_dentry_by_name e.disk (text name) e.surroundings.junk_dentry
      ≡ some (0, dentry))
    × (dentry.file_type ≡ 1)

abbrev pub IsMissing : Setting → String → Type 0
IsMissing e name =
    (dentry : Dentry) × (read_dentry_by_name e.disk (text name) e.surroundings.junk_dentry
      ≡ some (minus_one, dentry))

IsFresh-HasListings : (p : Pcb) → IsFresh p → HasListings p 2 2
IsFresh-HasListings p f = record {
  input = f.input;
  output = f.output;
  used = λ j a b. absurd (omega arith);
  listing = λ j a b. absurd (omega arith);
  free_before = λ j a b. absurd (omega arith);
  free_after = f.free;
}

HasListings-IsFresh : (p : Pcb) → HasListings p 8 8 → IsFresh p
HasListings-IsFresh p h = record { input = h.input; output = h.output; free = h.free_before }

module _ (e : Setting) (d : Devices) where
  open_next :
      (p : Pcb) (fd : ℕ)
      → IsListed e "."
      → HasListings p 2 fd
      → 2 ≤ fd
      → fd < 8
      → (p' : Pcb) × (ece391_open e.disk e.surroundings (text ".") p d ≡ gives fd p' d)
        × HasListings p' 2 (fd + 1)
  unfolding ece391_open operations_of
  open_next p fd (dentry, found, is) h l m =
      let first : IsFirstFree p fd = record {
        from_two = l;
        in_array = m;
        free = h.free_after fd (omega arith) m;
        used_before = λ j a b. ground (arith, h.used j a b);
      } in
      let (p', eq, o) =
        open_listing e.disk e.surroundings p d (text ".") dentry fd first found is in
      (
        p',
        rw eq refl,
        record {
          input = record {
            used = ground (arith, l, o.others 0, h.input.used);
            operations = ground (arith, l, o.others 0, h.input.operations);
          };
          output = record {
            used = ground (arith, l, o.others 1, h.output.used);
            operations = ground (arith, l, o.others 1, h.output.operations);
          };
          used = λ j a b. elim (Bool-cases (j == fd)) [
            | inl here ↦ ground (arith, here, o.flags)
            | inr before ↦ ground (arith, before, b, o.others j, h.used j a)
          ];
          listing = λ j a b. elim (Bool-cases (j == fd)) [
            | inl here ↦ ground (arith, here, o.operations, is)
            | inr before ↦ ground (arith, before, b, o.others j, h.listing j a)
          ];
          free_before = λ j a b. absurd (omega arith);
          free_after = λ j a b. ground (arith, a, o.others j, h.free_after j (omega arith) b);
        },
      )

  open_last :
      (p : Pcb)
      → HasListings p 2 8
      → ece391_open e.disk e.surroundings (text ".") p d ≡ gives minus_one p d
  unfolding ece391_open
  open_last p h =
      rw (open_full e.disk e.surroundings p d (text ".") (λ j x y. ground (arith, h.used j x y)))
        refl

  -- The calls that find a free descriptor, and one that does not.
  open_lots_lem :
      (left fd cnt : ℕ) (p : Pcb)
      → IsListed e "."
      → HasListings p 2 fd
      → 2 ≤ fd
      → fd + left ≡ 8
      → (p' : Pcb) × (open_lots e (suc left) cnt p d ≡ gives (cnt + 1) p' d) × HasListings p' 2 8
  unfolding open_lots
  open_lots_lem zero fd cnt p l h a b =
      let at : fd ≡ 8 = omega arith in
      let all = subst (λ k. HasListings p 2 k) at h in (p, rw (open_last p all) refl, all)
  open_lots_lem (suc left) fd cnt p l h a b =
      let (p1, e1, h1) = open_next p fd l h a (omega arith) in
      let (p2, e2, h2) = open_lots_lem left (fd + 1) cnt p1 l h1 (omega arith) (omega arith) in
      let valid : (fd == minus_one) ≡ false = ground arith in (p2, rw (e1, valid, e2) refl, h2)

  close_next :
      (p : Pcb) (fd : ℕ)
      → HasListings p fd 8
      → 2 ≤ fd
      → fd < 8
      → (p' : Pcb) × (ece391_close fd p d ≡ gives 0 p' d) × HasListings p' (fd + 1) 8
  unfolding ece391_close
  close_next p fd h a b =
      let closed = set_fd p fd (record (p.fd_array fd) { flags = 0 }) in
      let eq =
        close_listing p d fd a b (h.used fd (omega arith) b) (h.listing fd (omega arith) b) in
      (
        closed,
        rw eq refl,
        record {
          input = record {
            used = ground (arith, a, h.input.used);
            operations = ground (arith, a, h.input.operations);
          };
          output = record {
            used = ground (arith, a, h.output.used);
            operations = ground (arith, a, h.output.operations);
          };
          used = λ j x y. ground (arith, x, h.used j (omega arith) y);
          listing = λ j x y. ground (arith, x, h.listing j (omega arith) y);
          free_before = λ j x y. elim (Bool-cases (fd == j)) [
            | inl here ↦ ground (arith, here)
            | inr before ↦ ground (arith, before, h.free_before j x (ground arith))
          ];
          free_after = λ j x y. absurd (omega arith);
        },
      )

  close_lots_lem :
      (left fd : ℕ) (p : Pcb)
      → HasListings p fd 8
      → 2 ≤ fd
      → fd + left ≡ 8
      → (p' : Pcb) × (close_lots left fd p d ≡ gives tt p' d) × IsFresh p'
  unfolding close_lots
  close_lots_lem zero fd p h a b =
      let at : fd ≡ 8 = omega arith in
      (p, refl, HasListings-IsFresh p (subst (λ k. HasListings p k 8) at h))
  close_lots_lem (suc left) fd p h a b =
      let (p1, e1, h1) = close_next p fd h a (omega arith) in
      let (p2, e2, f2) = close_lots_lem left (fd + 1) p1 h1 (omega arith) (omega arith) in
      (p2, rw (e1, e2) refl, f2)

  pub err_open_lots_lem :
      (p : Pcb)
      → IsListed e "."
      → IsFresh p
      → (p' : Pcb) × (err_open_lots e p d ≡ gives 0 p' (shows (codes "err_open_lots: PASS\n") d))
        × IsFresh p'
  unfolding err_open_lots is_literal
  err_open_lots_lem p l f =
      let (p1, e1, h1) = open_lots_lem 6 2 0 p l (IsFresh-HasListings p f) (omega arith) refl in
      let (p2, e2, f2) = close_lots_lem 6 2 p1 h1 (omega arith) refl in
      (
        p2,
        rw (e1, e2, tell_lem e.surroundings "err_open_lots: PASS\n" p2 d f2.output refl) refl,
        f2,
      )

  open_no_file :
      (p : Pcb) (name : String)
      → IsFresh p
      → IsMissing e name
      → ece391_open e.disk e.surroundings (text name) p d ≡ gives minus_one p d
  unfolding ece391_open
  open_no_file p name f (dentry, missing) =
      let first : IsFirstFree p 2 = record {
        from_two = omega arith;
        in_array = omega arith;
        free = f.free 2 (omega arith) (omega arith);
        used_before = λ j a b. absurd (omega arith);
      } in
      rw (open_missing e.disk e.surroundings p d (text name) dentry 2 first missing) refl

  pub err_open_lem :
      (p : Pcb)
      → IsFresh p
      → IsMissing e "helloo"
      → IsMissing e "shel"
      → IsMissing e ""
      → err_open e p d ≡ gives 0 p (shows (codes "err_open: PASS\n") d)
  unfolding err_open is_literal
  err_open_lem p f m1 m2 m3 =
      rw
        (
          open_no_file p "helloo" f m1,
          expect_lem,
          open_no_file p "shel" f m2,
          expect_lem,
          open_no_file p "" f m3,
          expect_lem,
        )
        (report_lem e p d "err_open: FAIL\n" "err_open: PASS\n" f.output refl)
