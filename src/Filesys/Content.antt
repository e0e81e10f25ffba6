-- ===== src/Filesys/Content.antt =====
-- What a file holds, and that `read_data` delivers it.
use illinix_operating_system.Base.{
  load32, ℕ, zero, suc, ◌+◌, ◌-◌, ◌≤◌, ◌<◌, ◌≡◌, ◌⊎◌, inl, inr, refl, arith, Bool-cases, some, List,
  length, get_elem?, set, store_lem, length-set, get_elem?-set_self, get_elem?-set_ne, Reader, min,
  minus_one, ltb, ◌∙◌,
}
use illinix_operating_system.Filesys.{num_inodes_at, inode_at, file_byte, read_data, read_data_loop}

-- The inode holds a file with these bytes.
pub record IsFile (disk : Reader) (inode size : ℕ) (content : ℕ → ℕ) : Type 0 where
  pub num_inodes : ℕ
  pub has_inodes : load32 disk num_inodes_at ≡ some num_inodes
  pub in_range : inode ≤ num_inodes
  pub has_size : load32 disk (inode_at inode) ≡ some size
  pub has_bytes : (k : ℕ) → k < size → file_byte disk inode k ≡ some (content k)

-- `out` is `buf` with the bytes of the file from `offset` on at `i ..< i + n`.
pub record IsChunk (content : ℕ → ℕ) (offset i n : ℕ) (buf out : List ℕ) : Type 0 where
  pub same_length : length out ≡ length buf
  pub inside : (j : ℕ) → j < n → get_elem? out (i + j) ≡ some (content (offset + j))
  pub outside : (j : ℕ) → (j < i) ⊎ (i + n ≤ j) → get_elem? out j ≡ get_elem? buf j

IsChunk-empty :
    (content : ℕ → ℕ) (offset i n : ℕ) (buf : List ℕ) → n ≡ 0 → IsChunk content offset i n buf buf
IsChunk-empty content offset i n buf z = record {
  same_length = refl;
  inside = λ j h. absurd (omega arith);
  outside = λ j h. refl;
}

IsChunk-next :
    (content : ℕ → ℕ) (offset i n n' : ℕ) (buf out : List ℕ)
    → i < length buf
    → n ≡ suc n'
    → IsChunk content (offset + 1) (i + 1) n' (set buf i (content offset)) out
    → IsChunk content offset i n buf out
IsChunk-next content offset i n n' buf out fits e c = record {
  same_length = c.same_length ∙ length-set {0} buf i (content offset);
  inside = elim [
    | zero ↦ λ h.
        let at : i + 0 ≡ i = omega arith in
        let from : offset + 0 ≡ offset = omega arith in
        rw (at, from)
          (c.outside i (inl (omega arith)) ∙ get_elem?-set_self {0} buf i (content offset) fits)
    | suc j ↦ λ h.
        let at : i + suc j ≡ i + 1 + j = omega arith in
        let from : offset + suc j ≡ offset + 1 + j = omega arith in
        rw (at, from) (c.inside j (omega arith))
  ];
  outside =
      λ j h. ground (arith, c.outside j, get_elem?-set_ne {0} buf {i = i} {j = j} (content offset));
}

module _ (disk : Reader) (inode size : ℕ) (content : ℕ → ℕ)
    (f : IsFile disk inode size content) where
  read_data_loop_lem :
      (left offset : ℕ) (buf : List ℕ) (i n : ℕ)
      → n ≡ min left (size - offset)
      → i + n ≤ length buf
      → (out : List ℕ) × (read_data_loop left disk inode offset buf i ≡ some (i + n, out))
        × IsChunk content offset i n buf out
  unfolding read_data_loop
  read_data_loop_lem zero offset buf i n e fits =
      let z : n ≡ 0 = omega arith in
      let at : i + n ≡ i = omega arith in
      (buf, ground (arith, f.has_size, at), IsChunk-empty content offset i n buf z)
  read_data_loop_lem (suc left) offset buf i n e fits = elim (Bool-cases (ltb offset size)) [
    | inr done ↦
        let z : n ≡ 0 = ground arith in
        let at : i + n ≡ i = omega arith in
        (buf, ground (arith, f.has_size, done, at), IsChunk-empty content offset i n buf z)
    | inl more ↦
        let lt : offset < size = ground arith in
        let next = set buf i (content offset) in
        let n' = min left (size - (offset + 1)) in
        let step : n ≡ suc n' = omega arith in
        let (out, eq, c) =
          read_data_loop_lem left (offset + 1) next (i + 1) n' refl
            (omega (arith, length-set {0} buf i (content offset))) in
        let at : i + 1 + n' ≡ i + n = omega arith in
        (
          out,
          ground (
            arith,
            f.has_size,
            more,
            f.has_bytes offset lt,
            store_lem buf i (content offset),
            eq,
            at,
          ),
          IsChunk-next content offset i n n' buf out (omega arith) step c,
        )
  ]

-- Reading `length` bytes at `offset` from a file terminates without a fault, if the buffer has
-- room for the bytes that there are: it returns how many that is, the smaller of `length` and
-- what the file has left, puts exactly those bytes at the start of the buffer and leaves the
-- rest of the buffer alone.
pub read_data_lem :
    (disk : Reader) (inode size : ℕ) (content : ℕ → ℕ) (offset : ℕ) (buf : List ℕ) (count : ℕ)
    → IsFile disk inode size content
    → min count (size - offset) ≤ length buf
    → (out : List ℕ) × (read_data disk inode offset buf count
        ≡ some (min count (size - offset), out))
      × IsChunk content offset 0 (min count (size - offset)) buf out
unfolding read_data
read_data_lem disk inode size content offset buf count f fits =
    let n = min count (size - offset) in
    let (out, eq, c) =
      read_data_loop_lem disk inode size content f count offset buf 0 n refl (omega arith) in
    let at : 0 + n ≡ n = omega arith in (out, ground (arith, f.has_inodes, f.in_range, eq, at), c)

-- An inode number above `num_inodes` is refused: -1, with the buffer untouched.
pub read_data_bad_inode :
    (disk : Reader) (inode offset num_inodes : ℕ) (buf : List ℕ) (count : ℕ)
    → load32 disk num_inodes_at ≡ some num_inodes
    → num_inodes < inode
    → read_data disk inode offset buf count ≡ some (minus_one, buf)
unfolding read_data
read_data_bad_inode disk inode offset num_inodes buf count h lt = ground (arith, h)
