-- ===== src/Filesys/Reading.antt =====
-- The reads of a file descriptor: a file by position, a directory by entry.
use illinix_operating_system.Base.{
  load32, ℕ, zero, suc, ◌+◌, ◌-◌, ◌≤◌, ◌<◌, ◌≡◌, ◌≢◌, ◌⊎◌, ◌^◌, inl, inr, refl, arith, some, List,
  length, get_elem?, set, store_lem, length-set, get_elem?-set_self, get_elem?-set_ne, Reader, min,
  minus_one, ltb, ◌==◌, ◌>>=◌, ◌∙◌, offset_by, not, ◌&&◌, is_negative, Bool-cases, true, false,
}
use illinix_operating_system.Pcb.{Pcb, bad_fd}
use illinix_operating_system.Strings.Copy.{IsText, IsField, strncpy_lem}
use illinix_operating_system.Filesys.{
  Dentry, dentry_at, read_dentry_by_index, file_read, dir_read, dir_read_loop, move_to,
}
use illinix_operating_system.Filesys.Content.{IsFile, IsChunk, read_data_lem}

-- A read of `count` bytes through a descriptor of a file delivers the bytes at its position, as
-- many as there are, returns how many, moves the position past them and changes no other
-- descriptor.
pub file_read_lem :
    (disk : Reader) (pcb : Pcb) (fd size : ℕ) (content : ℕ → ℕ) (buf : List ℕ) (count : ℕ)
    → fd < 8
    → IsFile disk (pcb.fd_array fd).inode_num size content
    → let offset = (pcb.fd_array fd).file_pos in
      let n = min count (size - offset) in
      n ≤ length buf
      → (out : List ℕ) × (file_read disk pcb fd buf count
          ≡ some (n, move_to pcb fd (offset + n), out))
        × IsChunk content offset 0 n buf out
unfolding file_read
file_read_lem disk pcb fd size content buf count h f fits =
    let offset = (pcb.fd_array fd).file_pos in
    let (out, eq, c) =
      read_data_lem disk (pcb.fd_array fd).inode_num size content offset buf count f fits in
    (out, ground (arith, eq), c)

-- A descriptor number outside the array is refused: -1, and nothing changes.
pub file_read_bad_fd :
    (disk : Reader) (pcb : Pcb) (fd : ℕ) (buf : List ℕ) (count : ℕ)
    → 8 ≤ fd
    → file_read disk pcb fd buf count ≡ some (minus_one, pcb, buf)
unfolding file_read
file_read_bad_fd disk pcb fd buf count h = ground arith

-- Entry `index` of the directory, with a name of `size` bytes.
pub record IsEntry (disk : Reader) (index size file_type inode_num : ℕ) : Type 0 where
  pub name : IsText (offset_by disk (dentry_at index)) 32 size
  pub has_type : load32 disk (dentry_at index + 32) ≡ some file_type
  pub has_inode : load32 disk (dentry_at index + 36) ≡ some inode_num

-- The entry as it is copied out: its type and inode, and its name, filled with 0.
pub record IsCopyOf (disk : Reader) (index size file_type inode_num : ℕ) (old out : Dentry)
    : Type 0 where
  pub same_type : out.file_type ≡ file_type
  pub same_inode : out.inode_num ≡ inode_num
  pub name : IsField (offset_by disk (dentry_at index)) 32 size old.file_name out.file_name

-- Reading an entry by index succeeds with its name, type and inode, if the 32 bytes for the name
-- are there.
pub read_dentry_by_index_lem :
    (disk : Reader) (index size file_type inode_num : ℕ) (old : Dentry)
    → index ≤ 63
    → 32 ≤ length old.file_name
    → IsEntry disk index size file_type inode_num
    → (out : Dentry) × (read_dentry_by_index disk index old ≡ some (0, out))
      × IsCopyOf disk index size file_type inode_num old out
unfolding read_dentry_by_index
read_dentry_by_index_lem disk index size file_type inode_num old le room e =
    let (name, eq, field) =
      strncpy_lem old.file_name (offset_by disk (dentry_at index)) 32 size room e.name in
    let in_range : ltb 63 index ≡ false = ground arith in
    (
      record { file_name = name; file_type = file_type; inode_num = inode_num },
      rw (in_range, eq, e.has_type, e.has_inode, ◌>>=◌),
      record { same_type = refl; same_inode = refl; name = field },
    )

-- `out` is `buf` with the first `k` characters of the name and 0 behind them, from `i` on.
pub record IsListed (name : List ℕ) (i k : ℕ) (buf out : List ℕ) : Type 0 where
  pub same_length : length out ≡ length buf
  pub text : (j : ℕ) → i ≤ j → j < k → get_elem? out j ≡ get_elem? name j
  pub padding : (j : ℕ) → i ≤ j → k ≤ j → j < 32 → get_elem? out j ≡ some 0
  pub rest : (j : ℕ) → (j < i) ⊎ (32 ≤ j) → get_elem? out j ≡ get_elem? buf j

IsListed-next :
    (name : List ℕ) (i k c : ℕ) (buf out : List ℕ)
    → i < 32
    → i < length buf
    → k ≤ 32
    → (i < k → get_elem? name i ≡ some c)
    → (k ≤ i → c ≡ 0)
    → IsListed name (i + 1) k (set buf i c) out
    → IsListed name i k buf out
IsListed-next name i k c buf out lt fits le before after l = record {
  same_length = l.same_length ∙ length-set {0} buf i c;
  text = λ j p q. ground (arith, l.text j, l.rest j, before, get_elem?-set_self {0} buf i c);
  padding = λ j p q r. ground (arith, l.padding j, l.rest j, after, get_elem?-set_self {0} buf i c);
  rest = λ j p. ground (arith, l.rest j, get_elem?-set_ne {0} buf {i = i} {j = j} c);
}

-- The name: `m` characters and then 0.
record IsNameField (name : List ℕ) (m : ℕ) : Type 0 where
  pub body : (j : ℕ) → j < m → (c : ℕ) × (get_elem? name j ≡ some c) × (c ≢ 0)
  pub padding : (j : ℕ) → m ≤ j → j < 32 → get_elem? name j ≡ some 0

is_copied :
    (c i nbytes : ℕ)
    → c ≢ 0
    → i < nbytes
    → nbytes < 2 ^ 31
    → (not (c == 0) && not (is_negative nbytes) && ltb i nbytes) ≡ true
is_copied c i nbytes ne p lt = ground arith

not_copied_byte :
    (name : List ℕ) (i m nbytes : ℕ)
    → IsNameField name m
    → i < 32
    → min m nbytes ≤ i
    → nbytes < 2 ^ 31
    → (c : ℕ) × (get_elem? name i ≡ some c)
      × ((not (c == 0) && not (is_negative nbytes) && ltb i nbytes) ≡ false)
not_copied_byte name i m nbytes f h p lt = elim (Bool-cases (ltb i m)) [
  | inl inside ↦
      let (c, e, ne) = f.body i (ground arith) in
      let beyond : nbytes ≤ i = ground arith in (c, e, ground arith)
  | inr outside ↦ (0, f.padding i (ground arith) h, refl)
]

dir_read_loop_lem :
    (left i m nbytes r : ℕ) (name buf : List ℕ)
    → i + left ≡ 32
    → m ≤ 32
    → nbytes < 2 ^ 31
    → 32 ≤ length buf
    → r ≡ min i (min m nbytes)
    → IsNameField name m
    → (out : List ℕ) × (dir_read_loop left name nbytes buf i r ≡ some (min m nbytes, out))
      × IsListed name i (min m nbytes) buf out
unfolding dir_read_loop
dir_read_loop_lem zero i m nbytes r name buf e le lt room count f =
    let all : r ≡ min m nbytes = omega arith in
    (
      buf,
      rw all refl,
      record {
        same_length = refl;
        text = λ j p q. absurd (omega arith);
        padding = λ j p q h. absurd (omega arith);
        rest = λ j p. refl;
      },
    )
dir_read_loop_lem (suc left) i m nbytes r name buf e le lt room count f =
    let k = min m nbytes in
    elim (Bool-cases (ltb i k)) [
      | inl more ↦
          let below : i < k = ground arith in
          let (c, at, ne) = f.body i (omega arith) in
          let copied = is_copied c i nbytes ne (omega arith) lt in
          let (out, eq, l) =
            dir_read_loop_lem left (i + 1) m nbytes (r + 1) name (set buf i c) (omega arith) le lt
              (omega (arith, length-set {0} buf i c)) (omega arith) f in
          (
            out,
            rw (at, ◌>>=◌, copied, store_lem buf i c (omega arith), ◌>>=◌) eq,
            IsListed-next name i k c buf out (omega arith) (omega arith) (omega arith) (λ p. at)
                (λ p. absurd (omega arith)) l,
          )
      | inr less ↦
          let above : k ≤ i = ground arith in
          let (c, at, why) = not_copied_byte name i m nbytes f (omega arith) above lt in
          let (out, eq, l) =
            dir_read_loop_lem left (i + 1) m nbytes r name (set buf i 0) (omega arith) le lt
              (omega (arith, length-set {0} buf i 0)) (omega arith) f in
          (
            out,
            rw (at, ◌>>=◌, why, store_lem buf i 0 (omega arith), ◌>>=◌) eq,
            IsListed-next name i k 0 buf out (omega arith) (omega arith) (omega arith)
                (λ p. absurd (omega arith)) (λ p. refl) l,
          )
    ]

-- The name that the field of an entry holds, as a field of the copy.
field-IsNameField :
    (src : Reader) (m : ℕ) (old out : List ℕ)
    → IsText src 32 m
    → IsField src 32 m old out
    → IsNameField out m
field-IsNameField src m old out t f = record {
  body = λ j h. let (c, e, ne) = t.body j h in (c, f.text j h ∙ e, ne);
  padding = f.padding;
}

fd_in_array : (fd : ℕ) → fd < 8 → bad_fd fd ≡ false
fd_in_array fd h = ground arith

-- A read of a directory at an entry that is there returns the length of its name, or `nbytes` if
-- that is less, and moves to the next entry. Whatever `nbytes` is, it fills 32 bytes of the
-- buffer: the characters that it counted, and 0 behind them.
pub dir_read_lem :
    (disk : Reader) (pcb : Pcb) (fd m file_type inode_num : ℕ) (buf : List ℕ) (nbytes : ℕ)
    (junk : Dentry)
    → fd < 8
    → let position = (pcb.fd_array fd).file_pos in
      position ≤ 63
      → 32 ≤ length junk.file_name
      → IsEntry disk position m file_type inode_num
      → nbytes < 2 ^ 31
      → 32 ≤ length buf
      → (out name : List ℕ) × (dir_read disk pcb fd buf nbytes junk
          ≡ some (min m nbytes, move_to pcb fd (position + 1), out))
        × IsField (offset_by disk (dentry_at position)) 32 m junk.file_name name
        × IsListed name 0 (min m nbytes) buf out
unfolding dir_read
dir_read_lem disk pcb fd m file_type inode_num buf nbytes junk h le room e lt fits =
    let position = (pcb.fd_array fd).file_pos in
    let (d, eq, c) = read_dentry_by_index_lem disk position m file_type inode_num junk le room e in
    let field =
      field-IsNameField (offset_by disk (dentry_at position)) m junk.file_name d.file_name e.name
        c.name in
    let (out, loop, l) =
      dir_read_loop_lem 32 0 m nbytes 0 d.file_name buf (omega arith) e.name.fits lt fits
        (omega arith) field in
    (out, d.file_name, rw (fd_in_array fd h, eq, ◌>>=◌, loop, ◌>>=◌) refl, c.name, l)
