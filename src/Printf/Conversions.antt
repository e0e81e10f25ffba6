-- ===== src/Printf/Conversions.antt =====
-- What each specifier of `printf` shows.
use illinix_operating_system.Base.{
  ℕ, ◌-◌, ◌%◌, ◌^◌, ◌≤◌, ◌<◌, ◌≡◌, inl, inr, refl, arith, true, false, some, List, [], ◌∷◌, length,
  drop, length-drop, Reader, ◌>>=◌, bytes_at, ap, ◌∙◌, is_negative, Bool-cases,
}
use illinix_operating_system.Strings.{itoa}
use illinix_operating_system.Strings.Numerals.{itoa_lem}
use illinix_operating_system.Screen.{Screen}
use illinix_operating_system.Screen.Texts.{
  show_all, Spells, puts_lem, IsString-spelled, Spells-shift,
}
use illinix_operating_system.Printf.{Arg, word, pointer, Buffers, convert, puts_only, print_signed}
use illinix_operating_system.Printf.Padding.{print_padded_lem}
use illinix_operating_system.Printf.Formats.{IsPadded, IsDigits, IsSigned, IsRoomy}

number_lem :
    (v radix : ℕ) (buf : List ℕ) (s : Screen)
    → v < 2 ^ 32
    → 2 ≤ radix
    → radix ≤ 36
    → 33 ≤ length buf
    → (cs : List ℕ) × (digits : List ℕ) × (itoa v buf radix ≡ some digits)
      × (puts_only (bytes_at digits) s ≡ some (show_all cs s))
      × (length cs ≤ 32)
      × Spells (bytes_at digits) 0 cs
      × IsDigits v radix cs
unfolding puts_only
number_lem v radix buf s h low high room =
    let (digits, eq, n) = itoa_lem v radix buf h low high room in
    let (cs, len, spelled) = IsString-spelled (bytes_at digits) n.size n.string in
    (
      cs,
      digits,
      eq,
      rw (puts_lem (bytes_at digits) cs s spelled (omega (arith, len, n.size_le)), ◌>>=◌) refl,
      omega (arith, len, n.size_le),
      spelled,
      record { buffer = digits; numeral = n; spells = spelled },
    )

module _ (b : Buffers) (roomy : IsRoomy b) (args : List Arg) (s : Screen) where
  pub convert_percent : convert b b'%' false args s ≡ some (args, show_all (b'%' ∷ []) s)
  unfolding convert
  convert_percent = refl

  pub convert_character :
      (c : ℕ) → convert b b'c' false (word c ∷ args) s ≡ some (args, show_all (c % 256 ∷ []) s)
  unfolding convert
  convert_character c = refl

  pub convert_string :
      (p : Reader) (cs : List ℕ)
      → Spells p 0 cs
      → length cs < 2 ^ 32
      → convert b b's' false (pointer p ∷ args) s ≡ some (args, show_all cs s)
  unfolding convert puts_only
  convert_string p cs h l = rw (puts_lem p cs s h l, ◌>>=◌) refl

  pub convert_hexadecimal :
      (v : ℕ)
      → v < 2 ^ 32
      → (cs : List ℕ) × (convert b b'x' false (word v ∷ args) s ≡ some (args, show_all cs s))
        × IsDigits v 16 cs
  unfolding convert
  convert_hexadecimal v h =
      let (cs, digits, eq, shows, len, spelled, d) =
        number_lem v 16 b.conv_64 s h (omega arith) (omega arith) (omega (arith, roomy.room_64)) in
      (cs, rw (eq, ◌>>=◌, shows) refl, d)

  pub convert_unsigned :
      (v : ℕ)
      → v < 2 ^ 32
      → (cs : List ℕ) × (convert b b'u' false (word v ∷ args) s ≡ some (args, show_all cs s))
        × IsDigits v 10 cs
  unfolding convert
  convert_unsigned v h =
      let (cs, digits, eq, shows, len, spelled, d) =
        number_lem v 10 b.conv_36 s h (omega arith) (omega arith) (omega (arith, roomy.room_36)) in
      (cs, rw (eq, ◌>>=◌, shows) refl, d)

  pub convert_alternate :
      (v : ℕ)
      → v < 2 ^ 32
      → (cs : List ℕ) × (convert b b'x' true (word v ∷ args) s ≡ some (args, show_all cs s))
        × IsPadded v cs
  unfolding convert
  convert_alternate v h =
      let (cs, eq, d) = print_padded_lem b v s roomy h in (cs, rw (eq, ◌>>=◌) refl, d)

  print_signed_lem :
      (v : ℕ)
      → v < 2 ^ 32
      → (cs : List ℕ) × (print_signed b v s ≡ some (show_all cs s)) × IsSigned v cs
  unfolding print_signed puts_only
  print_signed_lem v h = elim (Bool-cases (is_negative v)) [
    | inl negative ↦
        let less : (2 ^ 32 - v) % 2 ^ 32 ≡ 2 ^ 32 - v = ground arith in
        let room : 33 ≤ length (drop 1 b.conv_36) =
          omega (arith, length-drop 1 b.conv_36, roomy.room_36) in
        let (cs, digits, eq, shows, len, spelled, d) =
          number_lem (2 ^ 32 - v) 10 (drop 1 b.conv_36) s (ground arith) (omega arith) (omega arith)
            room in
        let spelled' : Spells (bytes_at (b'-' ∷ digits)) 0 (b'-' ∷ cs) =
          (refl, omega arith, Spells-shift b'-' digits 0 cs spelled) in
        let shown =
          puts_lem (bytes_at (b'-' ∷ digits)) (b'-' ∷ cs) s spelled' (omega (arith, len)) in
        (
          b'-' ∷ cs,
          rw negative (
              ap (λ n. itoa n (drop 1 b.conv_36) 10 >>= λ ds. puts_only (bytes_at (b'-' ∷ ds)) s)
                less
              ∙ ap (λ r. r >>= λ ds. puts_only (bytes_at (b'-' ∷ ds)) s) eq
              ∙ ap (λ r. r >>= λ (n, s'). some s') shown),
          inr (ground arith, cs, refl, d),
        )
    | inr positive ↦
        let (cs, digits, eq, shows, len, spelled, d) =
          number_lem v 10 b.conv_36 s h (omega arith) (omega arith)
            (omega (arith, roomy.room_36)) in
        (cs, rw (positive, eq, ◌>>=◌) shows, inl (ground arith, d))
  ]

  pub convert_int :
      (v : ℕ)
      → v < 2 ^ 32
      → (cs : List ℕ) × (convert b b'd' false (word v ∷ args) s ≡ some (args, show_all cs s))
        × IsSigned v cs
  unfolding convert
  convert_int v h = let (cs, eq, d) = print_signed_lem v h in (cs, rw (eq, ◌>>=◌) refl, d)
