-- ===== src/Programs/Cat/Printing.antt =====
-- `cat` shows the file that is its argument.
use illinix_operating_system.Base.{
  ℕ, zero, suc, ◌+◌, ◌-◌, ◌^◌, ◌≤◌, ◌<◌, ◌≡◌, refl, arith, false, inl, inr, some, List, length,
  Reader, bytes_at, get_elem?, ◌==◌, ap, ◌∙◌, sym, minus_one, min, Bool-cases,
}
use illinix_operating_system.Screen.{Screen}
use illinix_operating_system.Terminal.Shown.{shown, shown-join}
use illinix_operating_system.Pcb.{Pcb, file}
use illinix_operating_system.Filesys.{Dentry, read_dentry_by_name, move_to}
use illinix_operating_system.Filesys.Content.{IsFile, IsChunk}
use illinix_operating_system.Calls.{Devices, Surroundings, read, getargs, call_returns}
use illinix_operating_system.Calls.Descriptors.{IsValid}
use illinix_operating_system.Calls.Opening.{IsFirstFree, open_regular, operations_of}
use illinix_operating_system.Calls.Transfer.{HasOutput, write-shown, read-file}
use illinix_operating_system.Programs.{gives, after_reading, after}
use illinix_operating_system.Programs.Cat.{cat, cat_loop}

-- The devices after a program showed characters.
abbrev pub showing : Devices → Screen → Devices
showing d s = record d { terminal = record d.terminal { screen = s } }

-- Descriptor `fd` is in use for a file, at a position.
pub record IsReading (p : Pcb) (fd inode position : ℕ) : Type 0 where
  pub used : (p.fd_array fd).flags ≡ 1
  pub operations : (p.fd_array fd).file_operations ≡ file
  pub inode_num : (p.fd_array fd).inode_num ≡ inode
  pub file_pos : (p.fd_array fd).file_pos ≡ position
  pub output : HasOutput p

pub move_to-IsReading :
    (p : Pcb) (fd inode position n : ℕ)
    → 2 ≤ fd
    → position + n < 2 ^ 32
    → IsReading p fd inode position
    → IsReading (move_to p fd (position + n)) fd inode (position + n)
move_to-IsReading p fd inode position n h small r = record {
  used = ground (arith, r.used);
  operations = ground (arith, r.operations);
  inode_num = ground (arith, r.inode_num);
  file_pos = ground arith;
  output = record {
    used = ground (arith, r.output.used);
    operations = ground (arith, r.output.operations);
  };
}

module _ (disk : Reader) (w : Surroundings) (fd inode size : ℕ) (content : ℕ → ℕ)
    (from_two : 2 ≤ fd) (in_array : fd < 8) (small : size < 2 ^ 31)
    (f : IsFile disk inode size content) where
  read_at :
      (buf : List ℕ) (p : Pcb) (d : Devices) (position : ℕ)
      → length buf ≡ 1024
      → IsReading p fd inode position
      → let n = min 1024 (size - position) in
        (out : List ℕ) × (read disk w p d fd buf 1024
          ≡ call_returns n out (move_to p fd (position + n)) d)
        × IsChunk content position 0 n buf out
  read_at buf p d position len r =
      let f' : IsFile disk (p.fd_array fd).inode_num size content = rw (r.inode_num) f in
      rw (← r.file_pos) (
        read-file disk w p d fd size content buf 1024 in_array r.used r.operations f'
          (omega (arith, len)))

  -- The last round finds nothing to read.
  cat_loop_end :
      (fuel : ℕ) (buf : List ℕ) (p : Pcb) (d : Devices) (position : ℕ)
      → length buf ≡ 1024
      → IsReading p fd inode position
      → min 1024 (size - position) ≡ 0
      → cat_loop (suc fuel) disk w fd buf p d ≡ gives 0 (move_to p fd (position + 0)) d
  unfolding cat_loop after_reading
  cat_loop_end fuel buf p d position len r none_left =
      let (out, eq, c) = read_at buf p d position len r in rw (eq, none_left) refl

  -- Any other shows what it read.
  cat_loop_next :
      (fuel : ℕ) (buf : List ℕ) (p : Pcb) (d : Devices) (position : ℕ)
      → length buf ≡ 1024
      → IsReading p fd inode position
      → position < size
      → let n = min 1024 (size - position) in
        (out : List ℕ) × (length out ≡ 1024)
        × (cat_loop (suc fuel) disk w fd buf p d
            ≡ cat_loop fuel disk w fd out
                (move_to p fd (position + n))
                (showing d (shown n content position d.terminal.screen)))
  unfolding cat_loop after_reading after
  cat_loop_next fuel buf p d position len r more =
      let n = min 1024 (size - position) in
      let (out, eq, c) = read_at buf p d position len r in
      let p1 = move_to p fd (position + n) in
      let r1 = move_to-IsReading p fd inode position n from_two (omega arith) r in
      let shows =
        write-shown w p1 d (bytes_at out) content position n r1.output (omega arith)
          (λ j h. let e : 0 + j ≡ j = omega arith in ap (get_elem? out) (sym e) ∙ c.inside j h) in
      let some_left : (n == 0) ≡ false = ground arith in
      let good : (n == minus_one) ≡ false = ground arith in
      (out, c.same_length ∙ len, rw (eq, some_left, good, shows, good) refl)

  cat_loop_lem :
      (fuel : ℕ) (buf : List ℕ) (p : Pcb) (d : Devices) (position : ℕ)
      → length buf ≡ 1024
      → IsReading p fd inode position
      → position ≤ size
      → size - position < fuel
      → (p' : Pcb) × (cat_loop fuel disk w fd buf p d
          ≡ gives 0 p' (showing d (shown (size - position) content position d.terminal.screen)))
  cat_loop_lem zero buf p d position len r le enough = absurd (omega arith)
  cat_loop_lem (suc fuel) buf p d position len r le enough =
      elim (Bool-cases (size - position == 0)) [
        | inl done ↦
            let z : size - position ≡ 0 = ground arith in
            (
              move_to p fd (position + 0),
              cat_loop_end fuel buf p d position len r (omega arith) ∙ unfold shown in rw z refl,
            )
        | inr more ↦
            let n = min 1024 (size - position) in
            let lt : position < size = ground arith in
            let (out, len', eq) = cat_loop_next fuel buf p d position len r lt in
            let d1 = showing d (shown n content position d.terminal.screen) in
            let (p', eq') =
              cat_loop_lem fuel out (move_to p fd (position + n)) d1 (position + n) len'
                (move_to-IsReading p fd inode position n from_two (omega arith) r) (omega arith)
                (omega arith) in
            let join =
              shown-join n (size - (position + n)) (size - position) content position
                d.terminal.screen (omega arith) in
            (p', eq ∙ eq' ∙ ap (λ x. gives 0 p' (showing d x)) (sym join))
      ]

-- With a control block in order and a free descriptor, and a regular file of `size` bytes, below
-- 2 ^ 31, under the name that `getargs` puts into the buffer of 1024 bytes, `cat` ends with
-- status 0 and the bytes of the file on the screen, each once and in order; nothing else of the
-- devices changes. `size + 1` rounds are enough.
pub cat_lem :
    (disk : Reader) (w : Surroundings) (p : Pcb) (d : Devices) (junk buf : List ℕ) (dentry : Dentry)
    (fd size : ℕ) (content : ℕ → ℕ)
    → getargs p junk 1024 ≡ some (0, buf)
    → length buf ≡ 1024
    → IsValid p
    → IsFirstFree p fd
    → read_dentry_by_name disk (bytes_at buf) w.junk_dentry ≡ some (0, dentry)
    → dentry.file_type ≡ 2
    → IsFile disk dentry.inode_num size content
    → size < 2 ^ 31
    → (p' : Pcb) × (cat (suc size) disk w junk p d
        ≡ gives 0 p' (showing d (shown size content 0 d.terminal.screen)))
unfolding cat after operations_of
cat_lem disk w p d junk buf dentry fd size content args len v free found regular f small =
    let (p1, eq, o) = open_regular disk w p d (bytes_at buf) dentry fd free found regular in
    let h = free.from_two in
    let l = free.in_array in
    let reading : IsReading p1 fd dentry.inode_num 0 = record {
      used = o.flags;
      operations = ground (arith, o.operations, regular);
      inode_num = ground (arith, o.inode, regular);
      file_pos = o.position;
      output = record {
        used = ground (arith, o.others 1 (omega (arith, h)), v.output_open);
        operations = ground (arith, o.others 1 (omega (arith, h)), v.output);
      };
    } in
    let (p', eq') =
      cat_loop_lem disk w fd dentry.inode_num size content h l small f (suc size) buf p1 d 0 len
        reading (omega arith) (omega arith) in
    let good : (fd == minus_one) ≡ false = ground (arith, l) in
    let whole : size - 0 ≡ size = omega arith in
    (
      p',
      rw (args, eq, good)
          (eq' ∙ ap (λ k. gives 0 p' (showing d (shown k content 0 d.terminal.screen))) whole),
    )
