-- ===== src/Printf/Output.antt =====
-- What `printf` shows for a format of characters and specifiers.
use illinix_operating_system.Base.{
  ℕ, zero, suc, ◌+◌, ◌-◌, ◌%◌, ◌^◌, ◌≤◌, ◌≡◌, ◌≢◌, refl, arith, true, false, some, List, [], length,
  ◌∷◌, ◌++◌, Reader, ◌>>=◌, ◌==◌, ap, ◌∙◌, sym,
}
use illinix_operating_system.Screen.{Screen, putc}
use illinix_operating_system.Screen.Texts.{show_all, show_all-append}
use illinix_operating_system.Printf.{
  Arg, word, pointer, Buffers, convert, printf, printf_from, specifier, address_space,
}
use illinix_operating_system.Printf.Formats.{
  Formats, finish, plain, percent, character, string, hexadecimal, padded, unsigned, signed, Output,
  IsRoomy, Formats-le,
}
use illinix_operating_system.Printf.Conversions.{
  convert_percent, convert_character, convert_string, convert_hexadecimal, convert_alternate,
  convert_unsigned, convert_int,
}

printf_conversion :
    (fuel : ℕ) (b : Buffers) (format : Reader) (i c : ℕ) (args args' : List Arg) (s s' : Screen)
    → format i ≡ some b'%'
    → format (i + 1) ≡ some c
    → c ≢ b'#'
    → convert b c false args s ≡ some (args', s')
    → printf_from (suc (suc fuel)) b format i args s
      ≡ printf_from (suc fuel) b format (i + 1 + 1) args' s'
unfolding printf_from specifier
printf_conversion fuel b format i c args args' s s' e x ne conv =
    let no_hash : (c == b'#') ≡ false = ground arith in rw (e, ◌>>=◌, x, no_hash, conv) refl

pub printf_plain :
    (fuel : ℕ) (b : Buffers) (format : Reader) (i c : ℕ) (args : List Arg) (s : Screen)
    → format i ≡ some c
    → c ≢ 0
    → c ≢ b'%'
    → printf_from (suc fuel) b format i args s ≡ printf_from fuel b format (i + 1) args (putc c s)
unfolding printf_from
printf_plain fuel b format i c args s e x y =
    let no_end : (c == 0) ≡ false = ground arith in
    let no_percent : (c == b'%') ≡ false = ground arith in rw (e, ◌>>=◌, no_end, no_percent) refl

pub printf_alternate :
    (fuel : ℕ) (b : Buffers) (format : Reader) (i c : ℕ) (args args' : List Arg) (s s' : Screen)
    → format i ≡ some b'%'
    → format (i + 1) ≡ some b'#'
    → format (i + 1 + 1) ≡ some c
    → c ≢ b'#'
    → convert b c true args s ≡ some (args', s')
    → printf_from (suc (suc (suc fuel))) b format i args s
      ≡ printf_from (suc (suc fuel)) b format (i + 1 + 1 + 1) args' s'
unfolding printf_from specifier
printf_alternate fuel b format i c args args' s s' e x y ne conv =
    let no_hash : (c == b'#') ≡ false = ground arith in rw (e, ◌>>=◌, x, y, no_hash, conv) refl

-- Plain characters of a format from index `i` on.
abbrev pub IsText : Reader → ℕ → List ℕ → Type 0
IsText format i [] = Unit
IsText format i (c ∷ cs) = (format i ≡ some c) × (c ≢ 0) × (c ≢ b'%') × IsText format (i + 1) cs

pub printf_text :
    (n fuel : ℕ) (b : Buffers) (format : Reader) (i : ℕ) (cs : List ℕ) (args : List Arg)
    (s : Screen)
    → fuel + length cs ≡ n
    → IsText format i cs
    → printf_from n b format i args s
      ≡ printf_from fuel b format (i + length cs) args (show_all cs s)
printf_text n fuel b format i [] args s e h =
    let same : n ≡ fuel = omega arith in
    let at : i ≡ i + 0 = omega arith in
    ap (λ k. printf_from k b format i args s) same ∙ ap (λ k. printf_from fuel b format k args s) at
printf_text zero fuel b format i (c ∷ cs) args s e h = absurd (omega arith)
printf_text (suc n) fuel b format i (c ∷ cs) args s e (x, ne, np, h) =
    let at : i + 1 + length cs ≡ i + suc (length cs) = omega arith in
    printf_plain n b format i c args s x ne np
    ∙ printf_text n fuel b format (i + 1) cs args (putc c s) (omega arith) h
    ∙ ap (λ k. printf_from fuel b format k args (show_all cs (putc c s))) at

-- The loop shows the output of the format from `i` on, and ends at its 0 byte.
abbrev Shows :
    {format : Reader} {end i : ℕ} {args : List Arg}
    → ℕ
    → Buffers
    → Screen
    → Formats format end i args
    → Type 0
Shows {format} {end} {i} {args} fuel b s r =
    (out : List ℕ) × (printf_from fuel b format i args s ≡ some (end, show_all out s))
    × Output r out

printf_converts :
    (fuel : ℕ) (b : Buffers) (format : Reader) (end i c : ℕ) (args args' : List Arg)
    (cs rest : List ℕ) (s : Screen)
    → format i ≡ some b'%'
    → format (i + 1) ≡ some c
    → c ≢ b'#'
    → convert b c false args s ≡ some (args', show_all cs s)
    → printf_from (suc fuel) b format (i + 1 + 1) args' (show_all cs s)
      ≡ some (end, show_all rest (show_all cs s))
    → printf_from (suc (suc fuel)) b format i args s ≡ some (end, show_all (cs ++ rest) s)
printf_converts fuel b format end i c args args' cs rest s e x ne conv eq =
    printf_conversion fuel b format i c args args' s (show_all cs s) e x ne conv
    ∙ eq
    ∙ ap (λ s'. some (end, s')) (sym (show_all-append cs rest s))

module _ (b : Buffers) (roomy : IsRoomy b) {format : Reader} {end : ℕ} where
  printf_from_lem :
      (fuel : ℕ) {i : ℕ} {args : List Arg} (r : Formats format end i args) (s : Screen)
      → end - i + 2 ≤ fuel
      → Shows fuel b s r
  unfolding printf_from
  printf_from_lem zero r s f = absurd (omega arith)
  printf_from_lem (suc zero) r s f = absurd (omega arith)
  printf_from_lem (suc (suc fuel)) (finish e z) s f =
      ([], rw (e, ◌>>=◌) (ap (λ k. some (k, s)) z), refl)
  printf_from_lem (suc (suc fuel)) {i} {args} (plain c e x y r) s f =
      let (rest, eq, o) = printf_from_lem (suc fuel) r (putc c s) (omega (arith, Formats-le r)) in
      (c ∷ rest, printf_plain (suc fuel) b format i c args s e x y ∙ eq, (rest, refl, o))
  printf_from_lem (suc (suc fuel)) {i} {args} (percent e x r) s f =
      let (rest, eq, o) =
        printf_from_lem (suc fuel) r (putc b'%' s) (omega (arith, Formats-le r)) in
      let conv = convert_percent b roomy args s in
      (
        b'%' ∷ rest,
        printf_converts fuel b format end i b'%' args args (b'%' ∷ []) rest s e x (omega arith) conv
            eq,
        (rest, refl, o),
      )
  printf_from_lem (suc (suc fuel)) {i} (character {args = args} c e x r) s f =
      let (rest, eq, o) =
        printf_from_lem (suc fuel) r (putc (c % 256) s) (omega (arith, Formats-le r)) in
      let conv = convert_character b roomy args s c in
      (
        c % 256 ∷ rest,
        printf_converts fuel b format end i b'c' (word c ∷ args) args (c % 256 ∷ []) rest s e x
            (omega arith) conv eq,
        (rest, refl, o),
      )
  printf_from_lem (suc (suc fuel)) {i} (string {args = args} p cs e x h l r) s f =
      let (rest, eq, o) =
        printf_from_lem (suc fuel) r (show_all cs s) (omega (arith, Formats-le r)) in
      let conv = convert_string b roomy args s p cs h l in
      (
        cs ++ rest,
        printf_converts fuel b format end i b's' (pointer p ∷ args) args cs rest s e x (omega arith)
            conv eq,
        (rest, refl, o),
      )
  printf_from_lem (suc (suc fuel)) {i} (hexadecimal {args = args} v e x h r) s f =
      let (cs, conv, d) = convert_hexadecimal b roomy args s v h in
      let (rest, eq, o) =
        printf_from_lem (suc fuel) r (show_all cs s) (omega (arith, Formats-le r)) in
      (
        cs ++ rest,
        printf_converts fuel b format end i b'x' (word v ∷ args) args cs rest s e x (omega arith)
            conv eq,
        (cs, rest, refl, d, o),
      )
  printf_from_lem (suc (suc zero)) (padded v e x y h r) s f = absurd (omega (arith, Formats-le r))
  printf_from_lem (suc (suc (suc fuel))) {i} (padded {args = args} v e x y h r) s f =
      let (cs, conv, d) = convert_alternate b roomy args s v h in
      let (rest, eq, o) =
        printf_from_lem (suc (suc fuel)) r (show_all cs s) (omega (arith, Formats-le r)) in
      (
        cs ++ rest,
        printf_alternate fuel b format i b'x' (word v ∷ args) args s (show_all cs s) e x y
              (omega arith) conv
            ∙ eq
            ∙ ap (λ s'. some (end, s')) (sym (show_all-append cs rest s)),
        (cs, rest, refl, d, o),
      )
  printf_from_lem (suc (suc fuel)) {i} (unsigned {args = args} v e x h r) s f =
      let (cs, conv, d) = convert_unsigned b roomy args s v h in
      let (rest, eq, o) =
        printf_from_lem (suc fuel) r (show_all cs s) (omega (arith, Formats-le r)) in
      (
        cs ++ rest,
        printf_converts fuel b format end i b'u' (word v ∷ args) args cs rest s e x (omega arith)
            conv eq,
        (cs, rest, refl, d, o),
      )
  printf_from_lem (suc (suc fuel)) {i} (signed {args = args} v e x h r) s f =
      let (cs, conv, d) = convert_int b roomy args s v h in
      let (rest, eq, o) =
        printf_from_lem (suc fuel) r (show_all cs s) (omega (arith, Formats-le r)) in
      (
        cs ++ rest,
        printf_converts fuel b format end i b'd' (word v ∷ args) args cs rest s e x (omega arith)
            conv eq,
        (cs, rest, refl, d, o),
      )

  -- For buffers of 64 and 36 bytes and a format, shorter than 2 ^ 32 - 1, of plain characters
  -- and of the specifiers `%`, `c`, `s`, `x`, `#x`, `u` and `d`, with an argument of the right
  -- kind for each, the numbers below 2 ^ 32 and the strings shorter than that, `printf` returns
  -- the length of the format and shows on the screen, in their order, the characters, the low
  -- bytes of the characters given, the strings, and the digits of the numbers in their radix,
  -- behind a sign for a negative one (`%d`) and behind zeros up to 8 characters for `%#x`.
  pub printf_lem :
      {args : List Arg} (r : Formats format end 0 args) (s : Screen)
      → end + 2 ≤ 2 ^ 32
      → (out : List ℕ) × (printf b format args s ≡ some (end, show_all out s)) × Output r out
  unfolding printf
  printf_lem r s h = printf_from_lem address_space r s (omega arith)
