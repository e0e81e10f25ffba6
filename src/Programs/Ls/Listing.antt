-- ===== src/Programs/Ls/Listing.antt =====
-- `ls` shows the names of the directory.
use illinix_operating_system.Base.{
  ℕ, zero, suc, ◌+◌, ◌^◌, ◌≤◌, ◌<◌, ◌≡◌, refl, arith, false, inl, inr, some, List, length, set,
  Reader, bytes_at, get_elem?, get_elem?-set_self, get_elem?-set_ne, length-set, store_lem, ◌==◌,
  if◌then◌else◌, ap, ◌∙◌, sym, minus_one, min, Bool-cases,
}
use illinix_operating_system.Base.Text.{text}
use illinix_operating_system.Screen.{Screen}
use illinix_operating_system.Terminal.Shown.{shown}
use illinix_operating_system.Pcb.{Pcb, directory}
use illinix_operating_system.Filesys.{Dentry, dentry_at, read_dentry_by_name, move_to}
use illinix_operating_system.Filesys.Reading.{IsEntry}
use illinix_operating_system.Calls.{Devices, Surroundings, read, call_returns}
use illinix_operating_system.Calls.Descriptors.{IsValid}
use illinix_operating_system.Calls.Opening.{IsFirstFree, open_listing, operations_of}
use illinix_operating_system.Calls.Transfer.{HasOutput, write-shown, read-directory}
use illinix_operating_system.Programs.{gives, after_reading, after}
use illinix_operating_system.Programs.Cat.Printing.{showing}
use illinix_operating_system.Programs.Ls.{ls, ls_loop}

-- The directory: `count` entries with names of `size i` characters `char i j`, and one with an
-- empty name behind them.
pub record IsDirectory (disk : Reader) (count : ℕ) (size : ℕ → ℕ) (char : ℕ → ℕ → ℕ) : Type 0 where
  pub file_type : ℕ → ℕ
  pub inode_num : ℕ → ℕ
  pub entry : (i : ℕ) → i ≤ count → IsEntry disk i (size i) (file_type i) (inode_num i)
  pub named : (i : ℕ) → i < count → 0 < size i
  pub empty : size count ≡ 0
  pub room : count ≤ 63
  pub chars : (i j : ℕ) → i < count → j < size i → disk (dentry_at i + j) ≡ some (char i j)

-- The character `j` of the line of entry `i`.
abbrev pub line_char : (ℕ → ℕ) → (ℕ → ℕ → ℕ) → ℕ → ℕ → ℕ
line_char size char i j = if j == size i then b'\n' else char i j

-- The screen after the lines of the entries from `i` on, `left` of them.
unfoldable pub listed : ℕ → (ℕ → ℕ) → (ℕ → ℕ → ℕ) → ℕ → Screen → Screen
listed zero size char i s = s
listed (suc left) size char i s =
    listed left size char (i + 1) (shown (size i + 1) (line_char size char i) 0 s)

-- Descriptor `fd` is in use for the directory, at an entry.
record IsListing (p : Pcb) (fd position : ℕ) : Type 0 where
  used : (p.fd_array fd).flags ≡ 1
  operations : (p.fd_array fd).file_operations ≡ directory
  file_pos : (p.fd_array fd).file_pos ≡ position
  output : HasOutput p

move_to-IsListing :
    (p : Pcb) (fd position next : ℕ)
    → 2 ≤ fd
    → next < 2 ^ 32
    → IsListing p fd position
    → IsListing (move_to p fd next) fd next
move_to-IsListing p fd position next h small r = record {
  used = ground (arith, r.used);
  operations = ground (arith, r.operations);
  file_pos = ground arith;
  output = record {
    used = ground (arith, r.output.used);
    operations = ground (arith, r.output.operations);
  };
}

module _ (disk : Reader) (w : Surroundings) (fd count : ℕ) (size : ℕ → ℕ) (char : ℕ → ℕ → ℕ)
    (from_two : 2 ≤ fd) (in_array : fd < 8) (room : 32 ≤ length w.junk_dentry.file_name)
    (dir : IsDirectory disk count size char) where
  -- One read, at entry `i`.
  read_at :
      (buf : List ℕ) (p : Pcb) (d : Devices) (i : ℕ)
      → i ≤ count
      → length buf ≡ 33
      → IsListing p fd i
      → (out : List ℕ) × (read disk w p d fd buf 32
          ≡ call_returns (size i) out (move_to p fd (i + 1)) d)
        × (length out ≡ 33)
        × ((j : ℕ) → j < size i → get_elem? out j ≡ disk (dentry_at i + j))
  read_at buf p d i le len l =
      let e = dir.entry i le in
      let short : min (size i) 32 ≡ size i = omega (arith, e.name.fits) in
      let at : IsEntry disk (p.fd_array fd).file_pos (size i) (dir.file_type i) (dir.inode_num i) =
        rw (l.file_pos) e in
      let (out, name, eq, field, list) =
        read-directory disk w p d fd (size i) (dir.file_type i) (dir.inode_num i) buf 32 in_array
          l.used l.operations (omega (arith, l.file_pos, dir.room)) room at (omega arith)
          (omega (arith, len)) in
      (
        out,
        eq
            ∙ ap (λ n. call_returns n out (move_to p fd ((p.fd_array fd).file_pos + 1)) d) short
            ∙ ap (λ n. call_returns (size i) out (move_to p fd (n + 1)) d) l.file_pos,
        list.same_length ∙ len,
        λ j h.
            list.text j (omega arith) (omega arith)
            ∙ field.text j h
            ∙ ap (λ n. disk (dentry_at n + j)) l.file_pos,
      )

  -- The empty name ends the loop.
  ls_loop_end :
      (fuel : ℕ) (buf : List ℕ) (p : Pcb) (d : Devices)
      → length buf ≡ 33
      → IsListing p fd count
      → ls_loop (suc fuel) disk w fd buf p d ≡ gives 0 (move_to p fd (count + 1)) d
  unfolding ls_loop after_reading
  ls_loop_end fuel buf p d len l =
      let (out, eq, same, text') = read_at buf p d count (omega arith) len l in
      rw (eq, dir.empty) refl

  -- The name with its line feed, as it stands in the buffer.
  line_lem :
      (out : List ℕ) (i : ℕ)
      → i < count
      → length out ≡ 33
      → ((j : ℕ) → j < size i → get_elem? out j ≡ disk (dentry_at i + j))
      → (j : ℕ) → j < size i + 1
      → get_elem? (set out (size i) b'\n') j ≡ some (line_char size char i (0 + j))
  line_lem out i lt same chars j h =
      let small : size i ≤ 32 = omega (arith, (dir.entry i (omega arith)).name.fits) in
      let at : 0 + j ≡ j = omega arith in
      let shown_char : get_elem? (set out (size i) b'\n') j ≡ some (line_char size char i j) =
        elim (Bool-cases (j == size i)) [
          | inl last ↦
              let e : j ≡ size i = ground arith in
              ap (get_elem? (set out (size i) b'\n')) e
              ∙ get_elem?-set_self {0} out (size i) b'\n' (omega arith)
              ∙ ground (arith, last)
          | inr inside ↦
              get_elem?-set_ne {0} out {i = size i} {j = j} b'\n' (ground arith)
              ∙ chars j (ground arith)
              ∙ dir.chars i j lt (ground arith)
              ∙ ground (arith, inside)
        ] in
      shown_char ∙ ap (λ n. some (line_char size char i n)) (sym at)

  -- Any other name is shown on a line.
  ls_loop_next :
      (fuel : ℕ) (buf : List ℕ) (p : Pcb) (d : Devices) (i : ℕ)
      → i < count
      → length buf ≡ 33
      → IsListing p fd i
      → (line : List ℕ) × (length line ≡ 33)
        × (ls_loop (suc fuel) disk w fd buf p d
            ≡ ls_loop fuel disk w fd line
                (move_to p fd (i + 1))
                (showing d (shown (size i + 1) (line_char size char i) 0 d.terminal.screen)))
  unfolding ls_loop after_reading after
  ls_loop_next fuel buf p d i lt len l =
      let (out, eq, same, chars) = read_at buf p d i (omega arith) len l in
      let small : size i ≤ 32 = omega (arith, (dir.entry i (omega arith)).name.fits) in
      let some_left : (size i == 0) ≡ false = ground (arith, dir.named i lt) in
      let good : (size i == minus_one) ≡ false = ground (arith, small) in
      let good' : (size i + 1 == minus_one) ≡ false = ground (arith, small) in
      let line = set out (size i) b'\n' in
      let p1 = move_to p fd (i + 1) in
      let l1 = move_to-IsListing p fd i (i + 1) from_two (omega (arith, dir.room)) l in
      let shows =
        write-shown w p1 d (bytes_at line) (line_char size char i) 0 (size i + 1) l1.output
          (omega arith) (line_lem out i lt same chars) in
      (
        line,
        length-set {0} out (size i) b'\n' ∙ same,
        rw (eq, some_left, good, store_lem out (size i) b'\n' (omega arith), shows, good') refl,
      )

  ls_loop_lem :
      (left fuel : ℕ) (buf : List ℕ) (p : Pcb) (d : Devices) (i : ℕ)
      → i + left ≡ count
      → left < fuel
      → length buf ≡ 33
      → IsListing p fd i
      → (p' : Pcb) × (ls_loop fuel disk w fd buf p d
          ≡ gives 0 p' (showing d (listed left size char i d.terminal.screen)))
  unfolding listed
  ls_loop_lem left zero buf p d i e f len l = absurd (omega arith)
  ls_loop_lem zero (suc fuel) buf p d i e f len l =
      let at : i ≡ count = omega arith in
      let l' : IsListing p fd count = rw (← at) l in
      (move_to p fd (count + 1), ls_loop_end fuel buf p d len l')
  ls_loop_lem (suc left) (suc fuel) buf p d i e f len l =
      let (line, same, eq) = ls_loop_next fuel buf p d i (omega arith) len l in
      let (p', eq') =
        ls_loop_lem left fuel line (move_to p fd (i + 1))
          (showing d (shown (size i + 1) (line_char size char i) 0 d.terminal.screen)) (i + 1)
          (omega arith) (omega arith) same
          (move_to-IsListing p fd i (i + 1) from_two (omega (arith, dir.room)) l) in
      (p', eq ∙ eq')

-- With a control block in order and a free descriptor, a buffer of 33 bytes, room for 32 bytes
-- in the kernel's copy of an entry, and a directory under the name "." of at most 63 entries
-- with an empty name behind them, `ls` ends with status 0 and has shown on the screen, in their
-- order, the name of each entry and a line feed; nothing else of the devices changes. One round
-- more than there are entries is enough.
pub ls_lem :
    (disk : Reader) (w : Surroundings) (p : Pcb) (d : Devices) (junk : List ℕ) (dentry : Dentry)
    (fd count : ℕ) (size : ℕ → ℕ) (char : ℕ → ℕ → ℕ)
    → length junk ≡ 33
    → 32 ≤ length w.junk_dentry.file_name
    → IsValid p
    → IsFirstFree p fd
    → read_dentry_by_name disk (text ".") w.junk_dentry ≡ some (0, dentry)
    → dentry.file_type ≡ 1
    → IsDirectory disk count size char
    → (p' : Pcb) × (ls (suc count) disk w junk p d
        ≡ gives 0 p' (showing d (listed count size char 0 d.terminal.screen)))
unfolding ls after operations_of
ls_lem disk w p d junk dentry fd count size char len room v free found listing dir =
    let (p1, eq, o) = open_listing disk w p d (text ".") dentry fd free found listing in
    let h = free.from_two in
    let l = free.in_array in
    let first : IsListing p1 fd 0 = record {
      used = o.flags;
      operations = ground (arith, o.operations, listing);
      file_pos = o.position;
      output = record {
        used = ground (arith, o.others 1 (omega (arith, h)), v.output_open);
        operations = ground (arith, o.others 1 (omega (arith, h)), v.output);
      };
    } in
    let (p', eq') =
      ls_loop_lem disk w fd count size char h l room dir count (suc count) junk p1 d 0 (omega arith)
        (omega arith) len first in
    let good : (fd == minus_one) ≡ false = ground (arith, l) in (p', rw (eq, good) eq')
