-- ===== src/Filesys/Names.antt =====
-- `read_dentry_by_name` finds the first entry of that name.
use illinix_operating_system.Base.{
  load32, ℕ, zero, suc, ◌+◌, ◌≤◌, ◌<◌, ◌≡◌, ◌⊎◌, ◌↔◌, inl, inr, refl, arith, Option, some, Reader,
  offset_by, minus_one, ltb, ◌>>=◌, ◌∙◌, ap, sym, Bool, true, false, Bool-cases, ◌^◌, ◌==◌,
  eq_of_some,
}
use illinix_operating_system.Base.Int.{ℤ, pos, negsuc}
use illinix_operating_system.Strings.Length.{IsString, strlen_lem}
use illinix_operating_system.Strings.Compare.{
  SameText, IsBytes, strncmp-zero_iff, strncmp_total, same_bytes, same_text,
}
use illinix_operating_system.Filesys.{
  Dentry, dentry_at, num_dir_at, compare_length, is_zero, entry_matches, find_dentry,
  read_dentry_by_index, read_dentry_by_name,
}

-- The name field of entry `i` holds this name of `n` bytes: with a 0 byte behind it, unless it
-- fills the 32 bytes of the field.
pub record IsNamed (disk fname : Reader) (n i : ℕ) : Type 0 where
  pub text : (j : ℕ) → j < n → fname j ≡ disk (dentry_at i + j)
  pub ends : (n ≡ 32) ⊎ (disk (dentry_at i + n) ≡ some 0)

-- The image can be read from the name of entry `i` to the next 0 byte, `size` bytes further.
pub record IsReadable (disk : Reader) (i size : ℕ) : Type 0 where
  pub string : IsString (offset_by disk (dentry_at i)) size
  pub size_lt : size < 2 ^ 32

is_zero_iff : (r : ℤ) → (is_zero r ≡ true) ↔ (r ≡ pos 0)
unfolding is_zero
is_zero_iff (pos zero) = (λ h. refl, λ h. refl)
is_zero_iff (pos (suc n)) = (λ h. ground arith, λ h. ground arith)
is_zero_iff (negsuc n) = (λ h. ground arith, λ h. ground arith)

compare_length_lem :
    (n size : ℕ)
    → n ≤ 32
    → let m = compare_length n size in (n ≤ m) × (m ≤ 32) × ((m ≡ 32) ⊎ (size ≤ m))
unfolding compare_length
compare_length_lem n size h = ground arith

module _ (disk fname : Reader) (n i size : ℕ) (str : IsString fname n) (fits : n ≤ 32)
    (entry : IsReadable disk i size) where
  abbrev name : Reader
  name = offset_by disk (dentry_at i)

  abbrev compared : ℕ
  compared = compare_length n size

  -- Where the field ends: behind the name, or the name fills it.
  field_end : ((j : ℕ) → j < compared → j ≤ n → fname j ≡ name j) → (n ≡ 32) ⊎ (name n ≡ some 0)
  field_end same =
      let (low, high, why) = compare_length_lem n size fits in
      elim (Bool-cases (ltb n compared)) [
        | inl inside ↦ inr (sym (same n (ground arith) (omega arith)) ∙ str.ends)
        | inr not_inside ↦
            let at : compared ≡ n = ground arith in
            elim why [
              | inl full ↦ inl (omega arith)
              | inr short ↦ elim (Bool-cases (size == n)) [
                | inl exact ↦ let e : size ≡ n = ground arith in inr (rw (← e) entry.string.ends)
                | inr shorter ↦
                    let lt : size < n = ground arith in
                    let (b, e, ne) = str.body size lt in
                    let agree = same size (omega arith) (omega arith) in
                    absurd (ground (arith, e, ne, agree, entry.string.ends))
              ]
            ]
      ]

  IsNamed-of_same : SameText compared fname name 0 → IsNamed disk fname n i
  IsNamed-of_same t =
      let (low, high, why) = compare_length_lem n size fits in
      let same : (j : ℕ) → j < compared → j ≤ n → fname j ≡ name j =
        λ j p q. same_bytes compared 0 n fname name j str t (omega arith) (omega arith) q in
      record { text = λ j h. same j (omega arith) (omega arith); ends = field_end same }

  same_of_named : IsNamed disk fname n i → SameText compared fname name 0
  same_of_named h =
      let (low, high, why) = compare_length_lem n size fits in
      same_text compared 0 n fname name str (omega arith) λ j p q r. elim (Bool-cases (j == n)) [
        | inl last ↦
            let at : j ≡ n = ground arith in
            elim h.ends [ inl full ↦ absurd (omega arith) | inr z ↦ rw at (str.ends ∙ sym z) ]
        | inr before ↦ h.text j (ground arith)
      ]

  -- The test on an entry decides whether it has the name.
  entry_matches_lem :
      IsBytes fname
      → IsBytes disk
      → n < 2 ^ 32
      → (b : Bool) × (entry_matches disk fname n i ≡ some b) × ((b ≡ true) ↔ IsNamed disk fname n i)
  unfolding entry_matches
  entry_matches_lem bytes1 bytes2 lt =
      let (r, e) = strncmp_total fname name compared n size str entry.string in
      let zero_iff = strncmp-zero_iff fname name compared bytes1 (λ k c h. bytes2 _ c h) in
      (
        is_zero r,
        rw (strlen_lem name size entry.string entry.size_lt, e, ◌>>=◌),
        (
          λ z. IsNamed-of_same (zero_iff.0 (e ∙ ap some ((is_zero_iff r).0 z))),
          λ h. (is_zero_iff r).1 (eq_of_some (sym e ∙ zero_iff.1 (same_of_named h))),
        ),
      )

-- What the search returns: the first entry of the name, or -1 if no entry has it.
pub data Finds (disk fname : Reader) (n lo hi : ℕ) (dentry : Dentry) (result : Option (ℕ × Dentry))
    : Type 0 where
  found :
      (i : ℕ)
      → lo ≤ i
      → i < hi
      → IsNamed disk fname n i
      → ((k : ℕ) → lo ≤ k → k < i → ¬ (IsNamed disk fname n k))
      → result ≡ read_dentry_by_index disk i dentry
      → Finds disk fname n lo hi dentry result
  absent :
      ((k : ℕ) → lo ≤ k → k < hi → ¬ (IsNamed disk fname n k))
      → result ≡ some (minus_one, dentry)
      → Finds disk fname n lo hi dentry result

-- Every name of the directory can be read.
abbrev pub IsDirectory : Reader → ℕ → Type 0
IsDirectory disk entries = (i : ℕ) → i < entries → (size : ℕ) × IsReadable disk i size

module _ (disk fname : Reader) (n : ℕ) (dentry : Dentry) (str : IsString fname n) (fits : n ≤ 32)
    (bytes1 : IsBytes fname) (bytes2 : IsBytes disk) where
  finds_later :
      (i hi : ℕ) (result : Option (ℕ × Dentry))
      → ¬ (IsNamed disk fname n i)
      → Finds disk fname n (i + 1) hi dentry result
      → Finds disk fname n i hi dentry result
  finds_later i hi result none_here (found k lo lt named first e) =
      found k (omega arith) lt named
        (λ j p q. elim (Bool-cases (j == i)) [
          | inl here ↦ let at : j ≡ i = ground arith in rw at none_here
          | inr later ↦ first j (ground arith) q
        ])
        e
  finds_later i hi result none_here (absent none_later e) =
      absent
        (λ j p q. elim (Bool-cases (j == i)) [
          | inl here ↦ let at : j ≡ i = ground arith in rw at none_here
          | inr later ↦ none_later j (ground arith) q
        ])
        e

  find_dentry_lem :
      (left i hi : ℕ)
      → i + left ≡ hi
      → IsDirectory disk hi
      → Finds disk fname n i hi dentry (find_dentry left disk fname n i dentry)
  unfolding find_dentry
  find_dentry_lem zero i hi e dir = absent (λ k p q. absurd (omega arith)) refl
  find_dentry_lem (suc left) i hi e dir =
      let (size, entry) = dir i (omega arith) in
      let (b, eq, iff) =
        entry_matches_lem disk fname n i size str fits entry bytes1 bytes2 (omega arith) in
      elim (Bool-cases b) [
        | inl yes_here ↦
            found i (omega arith) (omega arith) (iff.0 yes_here) (λ k p q. absurd (omega arith))
              (ground (arith, eq, yes_here))
        | inr not_here ↦
            rw (eq, not_here, ◌>>=◌)
              (finds_later i hi _ (λ h. cc (iff.1 h, not_here))
                (find_dentry_lem left (i + 1) hi (omega arith) dir))
      ]

-- With a name of at most 32 bytes and a directory whose names can be read, the search ends
-- without a fault in the entries: it returns what `read_dentry_by_index` gives for the first
-- entry of that name, and -1 if no entry has it.
pub read_dentry_by_name_lem :
    (disk fname : Reader) (n entries : ℕ) (dentry : Dentry)
    → IsString fname n
    → n ≤ 32
    → IsBytes fname
    → IsBytes disk
    → load32 disk num_dir_at ≡ some entries
    → IsDirectory disk entries
    → Finds disk fname n 0 entries dentry (read_dentry_by_name disk fname dentry)
unfolding read_dentry_by_name
read_dentry_by_name_lem disk fname n entries dentry str fits bytes1 bytes2 has_dir dir =
    let short : ltb 32 n ≡ false = ground arith in
    rw (strlen_lem fname n str (omega arith), has_dir, short, ◌>>=◌)
      (find_dentry_lem disk fname n dentry str fits bytes1 bytes2 entries 0 entries (omega arith)
        dir)

-- A longer name is refused: -1, before any entry is read.
pub read_dentry_by_name_long :
    (disk fname : Reader) (n entries : ℕ) (dentry : Dentry)
    → IsString fname n
    → 32 < n
    → n < 2 ^ 32
    → load32 disk num_dir_at ≡ some entries
    → read_dentry_by_name disk fname dentry ≡ some (minus_one, dentry)
unfolding read_dentry_by_name
read_dentry_by_name_long disk fname n entries dentry str long lt has_dir =
    ground (arith, strlen_lem fname n str lt, has_dir)
