-- ===== src/Programs/Grep/Files.antt =====
-- The search of one file.
use illinix_operating_system.Base.{
  ℕ, suc, ◌+◌, ◌-◌, ◌^◌, ◌<◌, ◌≤◌, ◌≡◌, refl, arith, true, false, some, List, [], ◌∷◌, length,
  Reader, get_elem?, get_or, store_lem, set, ◌==◌, ap, ◌∙◌, minus_one, min, Bool-cases, inl, inr,
}
use mathlib.Core.Path.{subst}
use illinix_operating_system.Strings.Length.{strlen_lem}
use illinix_operating_system.Pcb.{Pcb, set_fd}
use illinix_operating_system.Filesys.{Dentry, read_dentry_by_name, move_to}
use illinix_operating_system.Filesys.Content.{IsFile, IsChunk}
use illinix_operating_system.Calls.{Devices, Surroundings, read, call_returns}
use illinix_operating_system.Calls.Transfer.{HasOutput, read-file}
use illinix_operating_system.Calls.Opening.{IsFirstFree, open_regular, operations_of}
use illinix_operating_system.Calls.Closing.{close_regular}
use illinix_operating_system.Programs.{gives}
use illinix_operating_system.Programs.Actions.{
  ece391_read, ece391_open, ece391_close, outcome_of_read,
}
use illinix_operating_system.Programs.Actions.Output.{Spells-IsString}
use illinix_operating_system.Programs.Cat.Printing.{IsReading, move_to-IsReading}
use illinix_operating_system.Programs.Grep.Searching.{IsSearch}
use illinix_operating_system.Programs.Grep.Scanning.{
  length-append, length-content, Holds, are_lines, content, shows_matches, scan_lines_lem,
}
use illinix_operating_system.Programs.Grep.{
  Search, find_end, search_line, scan_lines, close_file, read_rounds, do_one_file,
}

-- Byte `j` of the lines.
abbrev pub content_byte : List (List ℕ) → ℕ → ℕ
content_byte ls j = get_or (content ls) j 0

-- A read of up to 1024 bytes reads `n`, what is left of the file.
read_part :
    (disk : Reader) (w : Surroundings) (fd inode size : ℕ) (bytes : ℕ → ℕ) (buf : List ℕ) (p : Pcb)
    (d : Devices) (position n : ℕ)
    → fd < 8
    → IsFile disk inode size bytes
    → length buf ≡ 1025
    → IsReading p fd inode position
    → min 1024 (size - position) ≡ n
    → (out : List ℕ) × (ece391_read disk w fd buf 1024 p d
        ≡ gives (n, out) (move_to p fd (position + n)) d)
      × IsChunk bytes position 0 n buf out
unfolding ece391_read
read_part disk w fd inode size bytes buf p d position n l f len r e =
    let f' : IsFile disk (p.fd_array fd).inode_num size bytes = rw (r.inode_num) f in
    let (out, eq, c) : (out : List ℕ) × (read disk w p d fd buf 1024
          ≡ call_returns (min 1024 (size - position)) out
              (move_to p fd (position + min 1024 (size - position))) d)
        × IsChunk bytes position 0 (min 1024 (size - position)) buf out =
      rw (← r.file_pos) (
        read-file disk w p d fd size bytes buf 1024 l r.used r.operations f'
          (omega (arith, len))) in
    (
      out,
      ap outcome_of_read eq
          ∙ ap (λ k. outcome_of_read (call_returns k out (move_to p fd (position + k)) d)) e,
      subst (λ k. IsChunk bytes position 0 k buf out) e c,
    )

Holds-of :
    (buf : List ℕ) (i : ℕ) (cs : List ℕ)
    → ((j : ℕ) → j < length cs → get_elem? buf (i + j) ≡ some (get_or cs j 0))
    → Holds buf i cs
Holds-of buf i [] h = tt
Holds-of buf i (c ∷ cs) h =
    let e : i ≡ i + 0 = omega arith in
    (
      ap (get_elem? buf) e ∙ h 0 (omega arith),
      Holds-of buf (i + 1) cs (λ j l.
          let a : i + 1 + j ≡ i + suc j = omega arith in
          ap (get_elem? buf) a ∙ h (suc j) (omega arith)),
    )

-- The last round has read nothing.
scan_nothing :
    (e : Search) (buf : List ℕ) (p : Pcb) (d : Devices)
    → 0 < length buf
    → scan_lines 1 e 0 buf 0 0 p d ≡ gives (set buf 0 0, 0) p d
unfolding scan_lines find_end search_line
scan_nothing e [] p d h = absurd (omega arith)
scan_nothing e (c ∷ buf) p d h =
    let stored = store_lem (c ∷ buf) 0 0 h in
    elim (Bool-cases (c == b'\n')) [
      | inl feed ↦ rw (feed, stored) refl
      | inr other ↦ rw (other, stored) refl
    ]

close_file_lem :
    (w : Surroundings) (fd inode position : ℕ) (p : Pcb) (d : Devices)
    → 2 ≤ fd
    → fd < 8
    → IsReading p fd inode position
    → (p' : Pcb) × (close_file w fd p d ≡ gives 0 p' d)
unfolding close_file ece391_close
close_file_lem w fd inode position p d h l r = (
  set_fd p fd (record (p.fd_array fd) { flags = 0 }),
  rw (close_regular p d fd h l r.used r.operations) refl,
)

module _ (disk : Reader) (e : Search) (ps name : List ℕ) (s : IsSearch e ps name) (fd inode : ℕ)
    (from_two : 2 ≤ fd) (in_array : fd < 8) (l : List ℕ) (ls : List (List ℕ))
    (lines : are_lines (l ∷ ls) ≡ true) (short : length (content (l ∷ ls)) ≤ 1024)
    (f : IsFile disk inode (length (content (l ∷ ls))) (content_byte (l ∷ ls))) where
  -- The first round reads the whole file and searches its lines.
  first_round :
      (fuel : ℕ) (buf : List ℕ) (p : Pcb) (d : Devices)
      → length buf ≡ 1025
      → IsReading p fd inode 0
      → let n = length (content (l ∷ ls)) in
        (out : List ℕ) × (length out ≡ 1025)
        × (read_rounds (suc fuel) disk e fd buf 0 p d
            ≡ read_rounds fuel disk e fd out 0 (move_to p fd n) (shows_matches ps name (l ∷ ls) d))
  unfolding read_rounds
  first_round fuel buf p d len r =
      let n = length (content (l ∷ ls)) in
      let bytes = content_byte (l ∷ ls) in
      let (out, eq, c) =
        read_part disk e.surroundings fd inode n bytes buf p d 0 n in_array f len r
          (omega (arith, short)) in
      let p1 = move_to p fd n in
      let there : 0 + n ≡ n = omega arith in
      let size = length-append l (b'\n' ∷ content ls) in
      let held : Holds out 0 (content (l ∷ ls)) =
        Holds-of out 0 (content (l ∷ ls))
          (λ j h. let at : 0 + j ≡ j = omega arith in c.inside j h ∙ ap (λ k. some (bytes k)) at) in
      let r1 = move_to-IsReading p fd inode 0 n from_two (omega (arith, short)) r in
      let kept : length out ≡ 1025 = c.same_length ∙ len in
      let (out', scanned, same) =
        scan_lines_lem (suc (0 + n)) e ps name n out (0 + n) 0 l ls (move_to p fd (0 + n)) d s
          r1.output lines held refl (omega (arith, short, kept)) (omega (arith, kept))
          (omega (arith, size, length-content ls)) in
      let good : (n == minus_one) ≡ false = ground (arith, short) in
      let some_left : (n == 0) ≡ false = ground (arith, size) in
      (
        out',
        same ∙ kept,
        rw (eq, good, scanned, some_left)
            (ap
              (λ k.
                read_rounds fuel disk e fd out' 0 (move_to p fd k)
                  (shows_matches ps name (l ∷ ls) d))
              there),
      )

  -- The second finds the end of the file and closes it.
  last_round :
      (fuel : ℕ) (buf : List ℕ) (p : Pcb) (d : Devices)
      → length buf ≡ 1025
      → IsReading p fd inode (length (content (l ∷ ls)))
      → (p' : Pcb) × (read_rounds (suc fuel) disk e fd buf 0 p d ≡ gives 0 p' d)
  unfolding read_rounds
  last_round fuel buf p d len r =
      let size = length (content (l ∷ ls)) in
      let (out, eq, c) =
        read_part disk e.surroundings fd inode size (content_byte (l ∷ ls)) buf p d size 0 in_array
          f len r (omega arith) in
      let p1 = move_to p fd (size + 0) in
      let r1 = move_to-IsReading p fd inode size 0 from_two (omega (arith, short)) r in
      let scanned = scan_nothing e out p1 d (omega (arith, c.same_length, len)) in
      let (p2, closed) =
        close_file_lem e.surroundings fd inode (size + 0) p1 d from_two in_array r1 in
      (p2, rw (eq, scanned, closed) refl)

-- For a text that is not empty and begins with a byte below 128, with the terminal on descriptor 1, a free descriptor, an array
-- of 1025 bytes and, under the name, a regular file of whole lines, at least one and together at
-- most 1024 bytes, none of them 0, the text and the name below 2 ^ 31 characters, `do_one_file`
-- returns 0, and the screen has exactly the lines in which the text occurs, in order and each
-- once, behind the name of the file. Nothing else of the devices changes. Two rounds are enough.
pub do_one_file_lem :
    (fuel : ℕ) (disk : Reader) (w : Surroundings) (s fname : Reader) (ps name : List ℕ)
    (buf : List ℕ) (dentry : Dentry) (fd : ℕ) (l : List ℕ) (ls : List (List ℕ)) (p : Pcb)
    (d : Devices)
    → IsSearch (record { surroundings = w; s = s; s_len = length ps; fname = fname }) ps name
    → length ps < 2 ^ 31
    → HasOutput p
    → IsFirstFree p fd
    → read_dentry_by_name disk fname w.junk_dentry ≡ some (0, dentry)
    → dentry.file_type ≡ 2
    → are_lines (l ∷ ls) ≡ true
    → length (content (l ∷ ls)) ≤ 1024
    → IsFile disk dentry.inode_num (length (content (l ∷ ls))) (content_byte (l ∷ ls))
    → length buf ≡ 1025
    → (p' : Pcb) × (do_one_file (suc (suc fuel)) disk w s fname buf p d
        ≡ gives 0 p' (shows_matches ps name (l ∷ ls) d))
unfolding do_one_file ece391_open operations_of
do_one_file_lem fuel disk w s fname ps name buf dentry fd l ls p d is small o free found regular
      lines short f len =
    let e : Search = record { surroundings = w; s = s; s_len = length ps; fname = fname } in
    let (p1, opened, q) = open_regular disk w p d fname dentry fd free found regular in
    let size = strlen_lem s (length ps) (Spells-IsString s ps is.text) (omega (arith, small)) in
    let reading : IsReading p1 fd dentry.inode_num 0 = record {
      used = q.flags;
      operations = ground (arith, q.operations, regular);
      inode_num = ground (arith, q.inode, regular);
      file_pos = q.position;
      output = record {
        used = ground (arith, free.from_two, q.others 1, o.used);
        operations = ground (arith, free.from_two, q.others 1, o.operations);
      };
    } in
    let n = length (content (l ∷ ls)) in
    let (out, kept, first) =
      first_round disk e ps name is fd dentry.inode_num free.from_two free.in_array l ls lines short
        f (suc fuel) buf p1 d len reading in
    let moved =
      move_to-IsReading p1 fd dentry.inode_num 0 n free.from_two (omega (arith, short)) reading in
    let again : IsReading (move_to p1 fd n) fd dentry.inode_num n =
      subst (λ k. IsReading (move_to p1 fd k) fd dentry.inode_num k) (omega arith) moved in
    let (p2, last) =
      last_round disk e ps name is fd dentry.inode_num free.from_two free.in_array l ls lines short
        f fuel out (move_to p1 fd n) (shows_matches ps name (l ∷ ls) d) kept again in
    let good : (fd == minus_one) ≡ false = ground (arith, free.in_array) in
    (p2, rw (size, opened, good, first) last)
