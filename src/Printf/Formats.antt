-- ===== src/Printf/Formats.antt =====
-- The formats of `printf` of student-distrib/lib.c, and what each stands for.
use illinix_operating_system.Base.{
  ℕ, ◌+◌, ◌-◌, ◌%◌, ◌^◌, ◌≤◌, ◌<◌, ◌≡◌, ◌≢◌, ◌⊎◌, arith, some, List, [], ◌∷◌, ◌++◌, length,
  replicate, Reader, bytes_at,
}
use illinix_operating_system.Strings.Numerals.{IsNumeral}
use illinix_operating_system.Screen.Texts.{Spells}
use illinix_operating_system.Printf.{Arg, word, pointer, Buffers}

-- A format from index `i` on, with its arguments, up to the 0 byte at index `end`.
pub data Formats (format : Reader) (end : ℕ) : ℕ → List Arg → Type 0 where
  finish : {i : ℕ} → format i ≡ some 0 → i ≡ end → Formats format end i []
  plain :
      {i : ℕ} {args : List Arg} (c : ℕ)
      → format i ≡ some c
      → c ≢ 0
      → c ≢ b'%'
      → Formats format end (i + 1) args
      → Formats format end i args
  percent :
      {i : ℕ} {args : List Arg}
      → format i ≡ some b'%'
      → format (i + 1) ≡ some b'%'
      → Formats format end (i + 1 + 1) args
      → Formats format end i args
  character :
      {i : ℕ} {args : List Arg} (c : ℕ)
      → format i ≡ some b'%'
      → format (i + 1) ≡ some b'c'
      → Formats format end (i + 1 + 1) args
      → Formats format end i (word c ∷ args)
  string :
      {i : ℕ} {args : List Arg} (p : Reader) (cs : List ℕ)
      → format i ≡ some b'%'
      → format (i + 1) ≡ some b's'
      → Spells p 0 cs
      → length cs < 2 ^ 32
      → Formats format end (i + 1 + 1) args
      → Formats format end i (pointer p ∷ args)
  hexadecimal :
      {i : ℕ} {args : List Arg} (v : ℕ)
      → format i ≡ some b'%'
      → format (i + 1) ≡ some b'x'
      → v < 2 ^ 32
      → Formats format end (i + 1 + 1) args
      → Formats format end i (word v ∷ args)
  padded :
      {i : ℕ} {args : List Arg} (v : ℕ)
      → format i ≡ some b'%'
      → format (i + 1) ≡ some b'#'
      → format (i + 1 + 1) ≡ some b'x'
      → v < 2 ^ 32
      → Formats format end (i + 1 + 1 + 1) args
      → Formats format end i (word v ∷ args)
  unsigned :
      {i : ℕ} {args : List Arg} (v : ℕ)
      → format i ≡ some b'%'
      → format (i + 1) ≡ some b'u'
      → v < 2 ^ 32
      → Formats format end (i + 1 + 1) args
      → Formats format end i (word v ∷ args)
  signed :
      {i : ℕ} {args : List Arg} (v : ℕ)
      → format i ≡ some b'%'
      → format (i + 1) ≡ some b'd'
      → v < 2 ^ 32
      → Formats format end (i + 1 + 1) args
      → Formats format end i (word v ∷ args)

-- The digits of a value in a radix.
pub record IsDigits (v radix : ℕ) (cs : List ℕ) : Type 0 where
  pub buffer : List ℕ
  pub numeral : IsNumeral v radix buffer
  pub spells : Spells (bytes_at buffer) 0 cs

-- The hexadecimal digits of a value, with zeros before them up to 8 characters.
pub record IsPadded (v : ℕ) (cs : List ℕ) : Type 0 where
  pub digits : List ℕ
  pub few : length digits ≤ 8
  pub zeros : cs ≡ replicate (8 - length digits) b'0' ++ digits
  pub are_digits : IsDigits v 16 digits

-- The digits of an `int`, behind a sign if it is negative.
abbrev pub IsSigned : ℕ → List ℕ → Type 0
IsSigned v cs =
    ((v < 2 ^ 31) × IsDigits v 10 cs)
    ⊎ ((2 ^ 31 ≤ v) × (ds : List ℕ) × (cs ≡ b'-' ∷ ds) × IsDigits (2 ^ 32 - v) 10 ds)

-- What the format stands for: each part in its turn.
abbrev pub Output :
    {format : Reader} {end i : ℕ} {args : List Arg} → Formats format end i args → List ℕ → Type 0
Output (finish e z) out = out ≡ []
Output (plain c e x y r) out = (rest : List ℕ) × (out ≡ c ∷ rest) × Output r rest
Output (percent e x r) out = (rest : List ℕ) × (out ≡ b'%' ∷ rest) × Output r rest
Output (character c e x r) out = (rest : List ℕ) × (out ≡ c % 256 ∷ rest) × Output r rest
Output (string p cs e x h l r) out = (rest : List ℕ) × (out ≡ cs ++ rest) × Output r rest
Output (hexadecimal v e x h r) out =
    (cs rest : List ℕ) × (out ≡ cs ++ rest) × IsDigits v 16 cs × Output r rest
Output (padded v e x y h r) out =
    (cs : List ℕ) × (rest : List ℕ) × (out ≡ cs ++ rest) × IsPadded v cs × Output r rest
Output (unsigned v e x h r) out =
    (cs rest : List ℕ) × (out ≡ cs ++ rest) × IsDigits v 10 cs × Output r rest
Output (signed v e x h r) out =
    (cs rest : List ℕ) × (out ≡ cs ++ rest) × IsSigned v cs × Output r rest

-- The two buffers have their sizes.
pub record IsRoomy (b : Buffers) : Type 0 where
  pub room_64 : 64 ≤ length b.conv_64
  pub room_36 : 36 ≤ length b.conv_36

pub Formats-le :
    {format : Reader} {end i : ℕ} {args : List Arg} → Formats format end i args → i ≤ end
Formats-le (finish e z) = omega arith
Formats-le (plain c e x y r) = omega (arith, Formats-le r)
Formats-le (percent e x r) = omega (arith, Formats-le r)
Formats-le (character c e x r) = omega (arith, Formats-le r)
Formats-le (string p cs e x h l r) = omega (arith, Formats-le r)
Formats-le (hexadecimal v e x h r) = omega (arith, Formats-le r)
Formats-le (padded v e x y h r) = omega (arith, Formats-le r)
Formats-le (unsigned v e x h r) = omega (arith, Formats-le r)
Formats-le (signed v e x h r) = omega (arith, Formats-le r)
