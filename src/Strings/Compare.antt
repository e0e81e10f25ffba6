-- ===== src/Strings/Compare.antt =====
-- When `strncmp` returns 0.
use illinix_operating_system.Base.{
  ℕ, zero, suc, ◌+◌, ◌<◌, ◌≡◌, ◌≢◌, ◌↔◌, ◌⊎◌, inl, inr, refl, sym, ◌∙◌, ◌≤◌, some, arith, Reader,
  Bool-cases, Option-cases, ◌==◌, not, ◌||◌,
}
use illinix_operating_system.Base.Int.{ℤ, pos, ◌-ℤ◌}
use illinix_operating_system.Strings.Length.{IsString}
use illinix_operating_system.Strings.{strncmp_from, strncmp, char_value}

-- From index `i` on the two texts hold the same bytes, up to a 0 byte or for `n` bytes.
abbrev pub SameText : ℕ → Reader → Reader → ℕ → Type 0
SameText zero s1 s2 i = Unit {0}
SameText (suc n) s1 s2 i =
    (c : ℕ) × (s1 i ≡ some c) × (s2 i ≡ some c) × ((c ≡ 0) ⊎ SameText n s1 s2 (i + 1))

-- Every byte that can be read is below 256.
abbrev pub IsBytes : Reader → Type 0
IsBytes s = (i c : ℕ) → s i ≡ some c → c < 256

char_value_injective : (a b : ℕ) → a < 256 → b < 256 → char_value a -ℤ char_value b ≡ pos 0 → a ≡ b
unfolding char_value ◌-ℤ◌
char_value_injective a b ha hb e = ground arith

char_value_self : (a : ℕ) → char_value a -ℤ char_value a ≡ pos 0
unfolding char_value ◌-ℤ◌
char_value_self a = ground arith

module _ (s1 s2 : Reader) (bytes1 : IsBytes s1) (bytes2 : IsBytes s2) where
  step_same :
      (n i a b : ℕ)
      → s1 i ≡ some a
      → s2 i ≡ some b
      → strncmp_from (suc n) s1 s2 i ≡ some (pos 0)
      → (a ≡ b) × ((a ≡ 0) ⊎ (strncmp_from n s1 s2 (i + 1) ≡ some (pos 0)))
  unfolding strncmp_from
  step_same n i a b e1 e2 h = ground (arith, char_value_injective a b, bytes1 i a e1, bytes2 i b e2)

  same_of_zero : (n i : ℕ) → strncmp_from n s1 s2 i ≡ some (pos 0) → SameText n s1 s2 i
  unfolding strncmp_from
  same_of_zero zero i h = tt
  same_of_zero (suc n) i h = elim (Option-cases (s1 i)) [
    | inl e ↦ ground (arith, e)
    | inr (a, e1) ↦ elim (Option-cases (s2 i)) [
      | inl e ↦ ground (arith, e1, e)
      | inr (b, e2) ↦
          let (same, rest) = step_same n i a b e1 e2 h in
          (a, e1, rw same e2, elim rest [ inl z ↦ inl z | inr r ↦ inr (same_of_zero n (i + 1) r) ])
    ]
  ]

  zero_of_same : (n i : ℕ) → SameText n s1 s2 i → strncmp_from n s1 s2 i ≡ some (pos 0)
  unfolding strncmp_from
  zero_of_same zero i h = refl
  zero_of_same (suc n) i (c, e1, e2, inl z) = ground (arith, char_value_self c)
  zero_of_same (suc n) i (c, e1, e2, inr r) =
      ground (arith, char_value_self c, zero_of_same n (i + 1) r)

-- `strncmp` returns 0 exactly when the texts hold the same bytes, up to a 0 byte or for `n`
-- bytes.
pub strncmp-zero_iff :
    (s1 s2 : Reader) (n : ℕ)
    → IsBytes s1
    → IsBytes s2
    → (strncmp s1 s2 n ≡ some (pos 0)) ↔ SameText n s1 s2 0
unfolding strncmp
strncmp-zero_iff s1 s2 n b1 b2 = (same_of_zero s1 s2 b1 b2 n 0, zero_of_same s1 s2 b1 b2 n 0)

-- Against a string of `n` bytes, the texts are the same when every byte up to the 0 byte is.
pub same_bytes :
    (m i n : ℕ) (s1 s2 : Reader) (j : ℕ)
    → IsString s1 n
    → SameText m s1 s2 i
    → i ≤ j
    → j < i + m
    → j ≤ n
    → s1 j ≡ s2 j
same_bytes zero i n s1 s2 j str h p q r = absurd (omega arith)
same_bytes (suc m) i n s1 s2 j str (c, e1, e2, rest) p q r = elim (Bool-cases (i == j)) [
  | inl here ↦ let at : j ≡ i = ground arith in rw at (e1 ∙ sym e2)
  | inr later ↦
      let lt : i < j = ground arith in
      let (b, e, ne) = str.body i (omega arith) in
      elim rest [
        | inl z ↦ absurd (ground (arith, e1, e, ne, z))
        | inr t ↦ same_bytes m (i + 1) n s1 s2 j str t (omega arith) (omega arith) r
      ]
]

pub same_text :
    (m i n : ℕ) (s1 s2 : Reader)
    → IsString s1 n
    → i ≤ n
    → ((j : ℕ) → i ≤ j → j < i + m → j ≤ n → s1 j ≡ s2 j)
    → SameText m s1 s2 i
same_text zero i n s1 s2 str le h = tt
same_text (suc m) i n s1 s2 str le h = elim (Bool-cases (i == n)) [
  | inl done ↦
      let at : i ≡ n = ground arith in
      let e : s1 i ≡ some 0 = rw at str.ends in
      (0, e, sym (h i (omega arith) (omega arith) le) ∙ e, inl refl)
  | inr more ↦
      let lt : i < n = ground arith in
      let (b, e, ne) = str.body i lt in
      (
        b,
        e,
        sym (h i (omega arith) (omega arith) le) ∙ e,
        inr (
            same_text m (i + 1) n s1 s2 str (omega arith)
              (λ j p q r. h j (omega arith) (omega arith) r)),
      )
]

-- A string can be read up to its 0 byte, where alone it is 0.
string_byte : (s : Reader) (n i : ℕ) → IsString s n → i ≤ n → (b : ℕ) × (s i ≡ some b)
string_byte s n i str le = elim (Bool-cases (i == n)) [
  | inl done ↦ let at : i ≡ n = ground arith in (0, rw at str.ends)
  | inr more ↦ let (b, e, _) = str.body i (ground arith) in (b, e)
]

string_next : (s : Reader) (n i b : ℕ) → IsString s n → i ≤ n → s i ≡ some b → b ≢ 0 → i + 1 ≤ n
string_next s n i b str le e ne = elim (Bool-cases (i == n)) [
  | inl done ↦
      let at : i ≡ n = ground arith in
      let z : s i ≡ some 0 = rw at str.ends in absurd (ground (arith, e, z, ne))
  | inr more ↦ ground arith
]

strncmp_from_total :
    (left i n m : ℕ) (s1 s2 : Reader)
    → IsString s1 n
    → IsString s2 m
    → i ≤ n
    → i ≤ m
    → (r : ℤ) × (strncmp_from left s1 s2 i ≡ some r)
unfolding strncmp_from
strncmp_from_total zero i n m s1 s2 str1 str2 p q = (pos 0, refl)
strncmp_from_total (suc left) i n m s1 s2 str1 str2 p q =
    let (a, e1) = string_byte s1 n i str1 p in
    let (b, e2) = string_byte s2 m i str2 q in
    elim (Bool-cases (not (a == b) || a == 0)) [
      | inl stop ↦ (char_value a -ℤ char_value b, ground (arith, e1, e2, stop))
      | inr more ↦
          let (r, e) =
            strncmp_from_total left (i + 1) n m s1 s2 str1 str2
              (string_next s1 n i a str1 p e1 (ground arith))
              (string_next s2 m i b str2 q e2 (ground arith)) in
          (r, ground (arith, e1, e2, more, e))
    ]

-- On two strings `strncmp` returns a number, without a fault.
pub strncmp_total :
    (s1 s2 : Reader) (k n m : ℕ)
    → IsString s1 n
    → IsString s2 m
    → (r : ℤ) × (strncmp s1 s2 k ≡ some r)
unfolding strncmp
strncmp_total s1 s2 k n m str1 str2 =
    strncmp_from_total k 0 n m s1 s2 str1 str2 (omega arith) (omega arith)
