-- ===== src/Program/Loading.antt =====
-- `load_file` puts the whole file where the program expects it.
use illinix_operating_system.Base.{
  ℕ, zero, suc, ◌+◌, ◌-◌, ◌≤◌, ◌<◌, ◌≡◌, ◌⊎◌, inl, inr, refl, arith, true, List, [], ◌∷◌, length,
  get_elem?, get_or, some, Reader, ◌>>=◌, min, ltb, leb, ◌==◌, Bool-cases, u32, ◌∙◌, sym, ap,
  if◌then◌else◌, ◌&&◌,
}
use illinix_operating_system.Filesys.Content.{IsFile, IsChunk, read_data_lem}
use illinix_operating_system.Program.{load_file, load_file_loop, copy_to, virtual_addr, page_end}

-- `memory'` is `memory` with the bytes of the file from `from` on in their place.
pub record IsLoaded (content : ℕ → ℕ) (from size : ℕ) (memory memory' : ℕ → ℕ) : Type 0 where
  pub inside : (k : ℕ) → from ≤ k → k < size → memory' (virtual_addr + k) ≡ content k
  pub outside :
      (a : ℕ) → (a < virtual_addr + from) ⊎ (virtual_addr + size ≤ a) → memory' a ≡ memory a

get_or_of : (xs : List ℕ) (i v : ℕ) → get_elem? xs i ≡ some v → get_or xs i 0 ≡ v
get_or_of [] i v h = absurd (ground arith)
get_or_of (x ∷ xs) zero v h = ground arith
get_or_of (x ∷ xs) (suc i) v h = get_or_of xs i v h

-- `memory'` is `memory` with `n` bytes of the array from `virtual_addr + from` on.
record IsCopied (from n : ℕ) (out : List ℕ) (memory memory' : ℕ → ℕ) : Type 0 where
  inside : (k : ℕ) → from ≤ k → k < from + n → memory' (virtual_addr + k) ≡ get_or out (k - from) 0
  outside :
      (a : ℕ) → (a < virtual_addr + from) ⊎ (virtual_addr + from + n ≤ a) → memory' a ≡ memory a

copied_byte :
    (memory : ℕ → ℕ) (out : List ℕ) (from n k : ℕ)
    → from ≤ k
    → k < from + n
    → (if leb (virtual_addr + from) (virtual_addr + k)
          && ltb (virtual_addr + k) (virtual_addr + from + n)
        then get_or out (virtual_addr + k - (virtual_addr + from)) 0
        else memory (virtual_addr + k))
      ≡ get_or out (k - from) 0
copied_byte memory out from n k a b =
    let e : (virtual_addr + k) - (virtual_addr + from) ≡ k - from = omega arith in
    let lo : leb (virtual_addr + from) (virtual_addr + k) ≡ true = ground arith in
    let hi : ltb (virtual_addr + k) (virtual_addr + from + n) ≡ true = ground arith in
    rw (lo, hi, e) refl

-- Inside the page the copy does not fault.
copied_lem :
    (memory : ℕ → ℕ) (out : List ℕ) (from n : ℕ)
    → virtual_addr + from + n ≤ page_end
    → (memory' : ℕ → ℕ) × (copy_to memory (virtual_addr + from) out n ≡ some memory')
      × IsCopied from n out memory memory'
unfolding copy_to
copied_lem memory out from n fits =
    let inside : leb (virtual_addr + from + n) page_end ≡ true = ground arith in
    (
      λ a.
          if leb (virtual_addr + from) a && ltb a (virtual_addr + from + n)
          then get_or out (a - (virtual_addr + from)) 0
          else memory a,
      ground (arith, inside),
      record {
        inside = λ k a b. copied_byte memory out from n k a b;
        outside = λ a h. ground (arith, h);
      },
    )

IsLoaded-next :
    (content : ℕ → ℕ) (from n size : ℕ) (buf out : List ℕ) (memory memory1 memory' : ℕ → ℕ)
    → from + n ≤ size
    → IsChunk content from 0 n buf out
    → IsCopied from n out memory memory1
    → IsLoaded content (from + n) size memory1 memory'
    → IsLoaded content from size memory memory'
IsLoaded-next content from n size buf out memory memory1 memory' le c m l = record {
  inside = λ k a b. elim (Bool-cases (ltb k (from + n))) [
    | inl now ↦
        let lt : k - from < n = ground arith in
        let whole : from + (k - from) ≡ k = omega arith in
        let zeroed : 0 + (k - from) ≡ k - from = omega arith in
        let byte =
          get_or_of out (k - from) (content (from + (k - from)))
            (ap (get_elem? out) (sym zeroed) ∙ c.inside (k - from) lt) in
        l.outside (virtual_addr + k) (inl (ground arith))
        ∙ m.inside k a (ground arith)
        ∙ byte
        ∙ ap content whole
    | inr later ↦ l.inside k (ground arith) b
  ];
  outside = λ a h. l.outside a (omega arith) ∙ m.outside a (omega arith);
}

load_file_loop_lem :
    (fuel : ℕ) (disk : Reader) (inode size : ℕ) (content : ℕ → ℕ) (chunk : List ℕ) (memory : ℕ → ℕ)
    (from : ℕ)
    → IsFile disk inode size content
    → virtual_addr + size ≤ page_end
    → length chunk ≡ 100
    → from ≤ size
    → size - from < fuel
    → (memory' : ℕ → ℕ) × (load_file_loop fuel disk inode size chunk memory from ≡ some memory')
      × IsLoaded content from size memory memory'
unfolding load_file_loop
load_file_loop_lem zero disk inode size content chunk memory from f small len le enough =
    absurd (omega arith)
load_file_loop_lem (suc fuel) disk inode size content chunk memory from f small len le enough =
    elim (Bool-cases (from == size)) [
      | inl done ↦ (
        memory,
        ground (arith, done),
        record { inside = λ k a b. absurd (ground arith); outside = λ a h. refl },
      )
      | inr more ↦
          let lt : from < size = ground arith in
          let n = min 100 (size - from) in
          let (chunk', eq, c) =
            read_data_lem disk inode size content from chunk 100 f (omega arith) in
          let (memory1, copied, m) = copied_lem memory chunk' from n (omega (arith, small)) in
          let (memory', eq', l) =
            load_file_loop_lem fuel disk inode size content chunk' memory1 (from + n) f small
              (c.same_length ∙ len) (omega arith) (omega arith) in
          let next : u32 (from + n) ≡ from + n = ground arith in
          (
            memory',
            rw (more, eq, ◌>>=◌, copied, ◌>>=◌, next) eq',
            IsLoaded-next content from n size chunk chunk' memory memory1 memory' (omega arith) c m
                l,
          )
    ]

-- Loading a file of at most 0x3b8000 bytes, which fit behind `virtual_addr` into the page of the
-- program, with a buffer of 100 bytes, terminates without a fault: every byte of the file is at
-- its place from `virtual_addr` on, and the rest of memory is as it was.
pub load_file_lem :
    (disk : Reader) (inode size : ℕ) (content : ℕ → ℕ) (file_data : List ℕ) (memory : ℕ → ℕ)
    → IsFile disk inode size content
    → virtual_addr + size ≤ page_end
    → length file_data ≡ 100
    → (memory' : ℕ → ℕ) × (load_file disk inode file_data memory ≡ some memory')
      × IsLoaded content 0 size memory memory'
unfolding load_file
load_file_lem disk inode size content file_data memory f small len =
    let (memory', eq, l) =
      load_file_loop_lem (suc size) disk inode size content file_data memory 0 f small len
        (omega arith) (omega arith) in
    (memory', rw (f.has_size, ◌>>=◌) eq, l)
