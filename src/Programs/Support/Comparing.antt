-- ===== src/Programs/Support/Comparing.antt =====
-- What the comparisons of strings find.
use illinix_operating_system.Base.{
  Bool, true, ◌&&◌, ℕ, zero, suc, ◌+◌, ◌^◌, ◌<◌, ◌≡◌, ◌≢◌, ◌↔◌, refl, arith, some, false, ap, ◌∙◌,
  drop, get_or, List, [], ◌∷◌, length, Reader, ◌==◌, Bool-cases, Option-cases, inl, inr,
}
use illinix_operating_system.Base.Int.{ℤ, pos, negsuc, ◌-ℤ◌}
use illinix_operating_system.Screen.Texts.{Spells}
use illinix_operating_system.Strings.{strncmp, strncmp_from, char_value}
use illinix_operating_system.Programs.Support.{
  is_same, address_space, strcmp_loop, strncmp_loop, ece391_strcmp, ece391_strncmp,
}

different : (a b : ℕ) → a ≢ b → pos a -ℤ pos b ≢ pos 0
unfolding ◌-ℤ◌
different a b ne h = ground (arith, ne, h)

strcmp_loop_lem :
    (fuel : ℕ) (s1 s2 : Reader) (i : ℕ) (cs ds : List ℕ)
    → Spells s1 i cs
    → Spells s2 i ds
    → length cs < fuel
    → (z : ℤ) × (strcmp_loop fuel s1 s2 i ≡ some z) × ((z ≡ pos 0) ↔ (cs ≡ ds))
unfolding strcmp_loop
strcmp_loop_lem zero s1 s2 i cs ds h1 h2 l = absurd (omega arith)
strcmp_loop_lem (suc fuel) s1 s2 i [] [] h1 h2 l = (pos 0, rw (h1, h2) refl, (λ e. refl, λ e. refl))
strcmp_loop_lem (suc fuel) s1 s2 i [] (x ∷ ds) h1 (at, ne, h2) l =
    let d : (0 == x) ≡ false = ground (arith, ne) in
    (
      pos 0 -ℤ pos x,
      rw (h1, at, d) refl,
      (
        λ e. absurd (different 0 x (ground (arith, ne)) e),
        λ e. let n : 0 ≡ suc (length ds) = ap length e in absurd (omega arith),
      ),
    )
strcmp_loop_lem (suc fuel) s1 s2 i (c ∷ cs) [] (at, ne, h1) h2 l =
    let d : (c == 0) ≡ false = ground (arith, ne) in
    (
      pos c -ℤ pos 0,
      rw (at, h2, d) refl,
      (
        λ e. absurd (different c 0 ne e),
        λ e. let n : suc (length cs) ≡ 0 = ap length e in absurd (omega arith),
      ),
    )
strcmp_loop_lem (suc fuel) s1 s2 i (c ∷ cs) (x ∷ ds) (at1, ne1, h1) (at2, ne2, h2) l =
    elim (Bool-cases (c == x)) [
      | inl same ↦
          let (z, eq, (to, from)) = strcmp_loop_lem fuel s1 s2 (i + 1) cs ds h1 h2 (omega arith) in
          let more : (c == 0) ≡ false = ground (arith, ne1) in
          let e : c ≡ x = ground arith in
          (
            z,
            rw (at1, at2, same, more, eq) refl,
            (λ p. ap (λ y. y ∷ cs) e ∙ ap (λ ys. x ∷ ys) (to p), λ p. from (ap (drop 1) p)),
          )
      | inr other ↦
          let ne : c ≢ x = ground arith in
          (
            pos c -ℤ pos x,
            rw (at1, at2, other) refl,
            (λ p. absurd (different c x ne p), λ p. absurd (ne (ap (λ ys. get_or ys 0 0) p))),
          )
    ]

-- Two strings, the first below 2 ^ 32 characters: `ece391_strcmp` terminates without a fault, and
-- returns 0 exactly when they are the same.
pub ece391_strcmp_lem :
    (s1 s2 : Reader) (cs ds : List ℕ)
    → Spells s1 0 cs
    → Spells s2 0 ds
    → length cs < 2 ^ 32
    → (z : ℤ) × (ece391_strcmp s1 s2 ≡ some z) × ((z ≡ pos 0) ↔ (cs ≡ ds))
unfolding ece391_strcmp address_space
ece391_strcmp_lem s1 s2 cs ds h1 h2 l = strcmp_loop_lem (2 ^ 32) s1 s2 0 cs ds h1 h2 l

-- Bytes of ASCII only.
abbrev pub IsAscii : Reader → Type 0
IsAscii s = (i c : ℕ) → s i ≡ some c → c < 128

same_value : (a b : ℕ) → a < 128 → b < 128 → char_value a -ℤ char_value b ≡ pos a -ℤ pos b
unfolding char_value
same_value a b ha hb = ground arith

no_difference : (a : ℕ) → pos a -ℤ pos a ≡ pos 0
unfolding ◌-ℤ◌
no_difference a = ground arith

module _ (s1 s2 : Reader) (ascii1 : IsAscii s1) (ascii2 : IsAscii s2) where
  strncmp_loop_lem : (n i : ℕ) → strncmp_loop n s1 s2 i ≡ strncmp_from (suc n) s1 s2 i
  unfolding strncmp_loop strncmp_from
  strncmp_loop_lem zero i = elim (Option-cases (s1 i)) [
    | inl e ↦ rw e refl
    | inr (a, e1) ↦ elim (Option-cases (s2 i)) [
      | inl e ↦ rw (e1, e) refl
      | inr (b, e2) ↦
          let values = same_value a b (ascii1 i a e1) (ascii2 i b e2) in
          let none_left = no_difference a in rw (e1, e2, values) (ground (arith, none_left))
    ]
  ]
  strncmp_loop_lem (suc n) i = elim (Option-cases (s1 i)) [
    | inl e ↦ rw e refl
    | inr (a, e1) ↦ elim (Option-cases (s2 i)) [
      | inl e ↦ rw (e1, e) refl
      | inr (b, e2) ↦
          let values = same_value a b (ascii1 i a e1) (ascii2 i b e2) in
          let none_left = no_difference a in
          let rest = strncmp_loop_lem n (i + 1) in
          rw (e1, e2, values) (ground (arith, none_left, rest))
    ]
  ]

-- On ASCII texts `ece391_strncmp` is the kernel's `strncmp`: it returns the same difference, or
-- faults at the same byte.
pub ece391_strncmp_lem :
    (s1 s2 : Reader) (n : ℕ) → IsAscii s1 → IsAscii s2 → ece391_strncmp s1 s2 n ≡ strncmp s1 s2 n
unfolding ece391_strncmp strncmp
ece391_strncmp_lem s1 s2 zero a1 a2 = refl
ece391_strncmp_lem s1 s2 (suc n) a1 a2 = strncmp_loop_lem s1 s2 a1 a2 n 0

pub is_same_lem : (z : ℤ) → is_same z ≡ true → z ≡ pos 0
is_same_lem (pos n) h = ap pos (ground (arith, h))
is_same_lem (negsuc n) h = absurd (ground (arith, h))

is_same_not : (a b : ℕ) → (a == b) ≡ false → is_same (pos a -ℤ pos b) ≡ false
unfolding ◌-ℤ◌
is_same_not a b h = ground (arith, h)

-- The text begins with the other.
unfoldable pub starts_with : List ℕ → List ℕ → Bool
starts_with [] cs = true
starts_with (p ∷ ps) [] = false
starts_with (p ∷ ps) (c ∷ cs) = c == p && starts_with ps cs

strncmp_loop_text :
    (p : ℕ) (ps cs : List ℕ) (s1 s2 : Reader) (i : ℕ)
    → Spells s1 i cs
    → Spells s2 i (p ∷ ps)
    → (z : ℤ) × (strncmp_loop (length ps) s1 s2 i ≡ some z) × (is_same z ≡ starts_with (p ∷ ps) cs)
unfolding strncmp_loop starts_with
strncmp_loop_text p [] [] s1 s2 i h (at, ne, k) =
    let d : (0 == p) ≡ false = ground (arith, ne) in
    (pos 0 -ℤ pos p, rw (h, at, d) refl, is_same_not 0 p d)
strncmp_loop_text p [] (c ∷ cs) s1 s2 i (is, le, h) (at, ne, k) = elim (Bool-cases (c == p)) [
  | inl same ↦ (pos 0, rw (is, at, same) refl, rw same refl)
  | inr other ↦ (pos c -ℤ pos p, rw (is, at, other) refl, rw other (is_same_not c p other))
]
strncmp_loop_text p (q ∷ ps) [] s1 s2 i h (at, ne, k) =
    let d : (0 == p) ≡ false = ground (arith, ne) in
    (pos 0 -ℤ pos p, rw (h, at, d) refl, is_same_not 0 p d)
strncmp_loop_text p (q ∷ ps) (c ∷ cs) s1 s2 i (is, le, h) (at, ne, k) = elim (Bool-cases (c == p)) [
  | inl same ↦
      let (z, eq, says) = strncmp_loop_text q ps cs s1 s2 (i + 1) h k in
      let more : (c == 0) ≡ false = ground (arith, le) in
      (z, rw (is, at, same, more, eq) refl, rw same says)
  | inr other ↦ (pos c -ℤ pos p, rw (is, at, other) refl, rw other (is_same_not c p other))
]

-- For the length of a text that is not empty, `ece391_strncmp` returns 0 on a string exactly when
-- it begins with the text.
pub strncmp-starts_with :
    (s1 s2 : Reader) (cs ps : List ℕ)
    → Spells s1 0 cs
    → Spells s2 0 ps
    → 0 < length ps
    → (z : ℤ) × (ece391_strncmp s1 s2 (length ps) ≡ some z) × (is_same z ≡ starts_with ps cs)
unfolding ece391_strncmp
strncmp-starts_with s1 s2 cs [] h k l = absurd (omega arith)
strncmp-starts_with s1 s2 cs (p ∷ ps) h k l = strncmp_loop_text p ps cs s1 s2 0 h k
