-- ===== src/Printf/Padding.antt =====
-- What `printf` shows for `%#x`.
use mathlib.Core.Path.{subst}
use illinix_operating_system.Base.{
  ℕ, zero, suc, ◌+◌, ◌-◌, ◌^◌, ◌≤◌, ◌<◌, ◌≡◌, inl, inr, refl, arith, some, List, [], ◌∷◌, ◌++◌,
  Bool-cases, length, take, drop, replicate, length-take, length-drop, length-append, length-set,
  length-replicate, get_elem?, set, get_elem?-set_self, get_elem?-set_ne, store_lem, Reader, ◌>>=◌,
  bytes_at, ◌==◌, ap, ◌∙◌, sym,
}
use illinix_operating_system.Strings.Length.{strlen_lem}
use illinix_operating_system.Strings.Numerals.{itoa_lem}
use illinix_operating_system.Screen.{Screen}
use illinix_operating_system.Screen.Texts.{show_all, Spells, puts_lem, IsString-spelled}
use illinix_operating_system.Printf.{Buffers, puts_only, print_padded, zeros_to_8}
use illinix_operating_system.Printf.Formats.{IsPadded, IsRoomy}

get_elem?-drop : (n : ℕ) (xs : List ℕ) (i : ℕ) → get_elem? (drop n xs) i ≡ get_elem? xs (n + i)
get_elem?-drop zero xs i = ap (get_elem? xs) (omega arith)
get_elem?-drop (suc n) [] i = refl
get_elem?-drop (suc n) (x ∷ xs) i =
    let e : suc n + i ≡ suc (n + i) = omega arith in
    get_elem?-drop n xs i ∙ ap (get_elem? (x ∷ xs)) (sym e)

get_elem?-behind :
    (xs ys : List ℕ) (n i : ℕ) → length xs ≡ n → get_elem? (xs ++ ys) (n + i) ≡ get_elem? ys i
get_elem?-behind [] ys n i e = let z : n + i ≡ i = omega arith in ap (get_elem? ys) z
get_elem?-behind (x ∷ xs) ys zero i e = absurd (omega arith)
get_elem?-behind (x ∷ xs) ys (suc n) i e =
    let s : suc n + i ≡ suc (n + i) = omega arith in
    ap (get_elem? ((x ∷ xs) ++ ys)) s ∙ get_elem?-behind xs ys n i (omega arith)

-- The loop leaves zeros at `i ..< i + left` and nothing else changed.
record IsZeroed (left i : ℕ) (buf out : List ℕ) : Type 0 where
  zeros : (j : ℕ) → i ≤ j → j < i + left → get_elem? out j ≡ some b'0'
  rest : (j : ℕ) → i + left ≤ j → get_elem? out j ≡ get_elem? buf j

zeros_to_8_lem :
    (left : ℕ) (buf : List ℕ) (i : ℕ)
    → i + left ≤ length buf
    → (out : List ℕ) × (zeros_to_8 left buf i ≡ some out)
      × IsZeroed left i buf out
      × ((j : ℕ) → j < i → get_elem? out j ≡ get_elem? buf j)
unfolding zeros_to_8
zeros_to_8_lem zero buf i h =
    (buf, refl, record { zeros = λ j a b. absurd (omega arith); rest = λ j a. refl }, λ j a. refl)
zeros_to_8_lem (suc left) buf i h =
    let b = set buf i b'0' in
    let (out, eq, z, before) =
      zeros_to_8_lem left b (i + 1) (omega (arith, length-set {0} buf i b'0')) in
    (
      out,
      rw (store_lem buf i b'0' (omega arith), ◌>>=◌) eq,
      record {
        zeros = λ j a c. elim (Bool-cases (i == j)) [
          | inl same ↦
              let e : j ≡ i = ground arith in
              before j (omega arith)
              ∙ ap (get_elem? b) e
              ∙ get_elem?-set_self {0} buf i b'0' (omega arith)
          | inr other ↦ z.zeros j (ground arith) (omega arith)
        ];
        rest = λ j a.
            z.rest j (omega arith) ∙ get_elem?-set_ne {0} buf {i = i} {j = j} b'0' (omega arith);
      },
      λ j a. before j (omega arith) ∙ get_elem?-set_ne {0} buf {i = i} {j = j} b'0' (omega arith),
    )

Spells-same :
    (p q : Reader) (i i' : ℕ) (cs : List ℕ)
    → ((j : ℕ) → q (i' + j) ≡ p (i + j))
    → Spells p i cs
    → Spells q i' cs
Spells-same p q i i' [] h s =
    let e : i' ≡ i' + 0 = omega arith in
    let e' : i + 0 ≡ i = omega arith in ap q e ∙ h 0 ∙ ap p e' ∙ s
Spells-same p q i i' (c ∷ cs) h (at, ne, s) =
    let e : i' ≡ i' + 0 = omega arith in
    let e' : i + 0 ≡ i = omega arith in
    (
      ap q e ∙ h 0 ∙ ap p e' ∙ at,
      ne,
      Spells-same p q (i + 1) (i' + 1) cs
          (λ j.
            let f : i' + 1 + j ≡ i' + (1 + j) = omega arith in
            let f' : i + (1 + j) ≡ i + 1 + j = omega arith in ap q f ∙ h (1 + j) ∙ ap p f')
          s,
    )

Spells-zeros :
    (k : ℕ) (q : Reader) (i : ℕ) (cs : List ℕ)
    → ((j : ℕ) → i ≤ j → j < i + k → q j ≡ some b'0')
    → Spells q (i + k) cs
    → Spells q i (replicate k b'0' ++ cs)
Spells-zeros zero q i cs h s = let e : i + 0 ≡ i = omega arith in subst (λ n. Spells q n cs) e s
Spells-zeros (suc k) q i cs h s =
    let e : i + suc k ≡ i + 1 + k = omega arith in
    (
      h i (omega arith) (omega arith),
      (omega arith),
      Spells-zeros k q (i + 1) cs (λ j a b. h j (omega arith) (omega arith))
          (subst (λ n. Spells q n cs) e s),
    )

padded_Spells :
    (b : Buffers) (digits cs out : List ℕ) (k : ℕ)
    → k ≤ 8
    → length (take 8 b.conv_64) ≡ 8
    → IsZeroed (8 - k) k (take 8 b.conv_64 ++ digits) out
    → Spells (bytes_at digits) 0 cs
    → Spells (bytes_at (drop k out)) 0 (replicate (8 - k) b'0' ++ cs)
padded_Spells b digits cs out k small eight z spelled =
    Spells-zeros (8 - k) (bytes_at (drop k out)) 0 cs
      (λ j h l. get_elem?-drop k out j ∙ z.zeros (k + j) (omega arith) (omega arith))
      (Spells-same (bytes_at digits) (bytes_at (drop k out)) 0 (0 + (8 - k)) cs
        (λ j.
          let e : k + (0 + (8 - k) + j) ≡ 8 + j = omega arith in
          get_elem?-drop k out (0 + (8 - k) + j)
          ∙ z.rest (k + (0 + (8 - k) + j)) (omega arith)
          ∙ ap (get_elem? (take 8 b.conv_64 ++ digits)) e
          ∙ get_elem?-behind (take 8 b.conv_64) digits 8 j eight
          ∙ ap (get_elem? digits) (omega arith))
        spelled)

pub print_padded_lem :
    (b : Buffers) (v : ℕ) (s : Screen)
    → IsRoomy b
    → v < 2 ^ 32
    → (cs : List ℕ) × (print_padded b v s ≡ some (show_all cs s)) × IsPadded v cs
unfolding print_padded puts_only
print_padded_lem b v s roomy h =
    let (digits, eq, n) =
      itoa_lem v 16 (drop 8 b.conv_64) h (omega arith) (omega arith)
        (omega (arith, length-drop 8 b.conv_64, roomy.room_64)) in
    let (cs, len, spelled) = IsString-spelled (bytes_at digits) n.size n.string in
    let k = n.size in
    let small : k ≤ 8 = n.shortest 8 (omega arith) (omega arith) in
    let eight : length (take 8 b.conv_64) ≡ 8 =
      omega (arith, length-take 8 b.conv_64, roomy.room_64) in
    let (out, filled, z, before) =
      zeros_to_8_lem (8 - k) (take 8 b.conv_64 ++ digits) k
        (omega (arith, length-append {0} (take 8 b.conv_64) digits)) in
    let all = padded_Spells b digits cs out k small eight z spelled in
    let long : length (replicate (8 - k) b'0' ++ cs) < 2 ^ 32 = omega (
      arith,
      length-append {0} (replicate (8 - k) b'0') cs,
      length-replicate {A = ℕ} (8 - k) b'0',
      len,
    ) in
    let shown = puts_lem (bytes_at (drop k out)) (replicate (8 - k) b'0' ++ cs) s all long in
    (
      replicate (8 - k) b'0' ++ cs,
      rw (eq, ◌>>=◌, strlen_lem (bytes_at digits) k n.string (omega arith), filled)
          (ap (λ r. r >>= λ (m, s'). some s') shown),
      record {
        digits = cs;
        few = omega arith;
        zeros = ap (λ m. replicate (8 - m) b'0' ++ cs) (sym len);
        are_digits = record { buffer = digits; numeral = n; spells = spelled };
      },
    )
