-- ===== src/Strings/Digits.antt =====
-- The digits that the loop of `itoa` writes.
use native.Mathlib.Nat.{div-add-mod, mod-lt, pow-suc, pow-zero, mul_comm, div-lt_iff_lt-mul}
use illinix_operating_system.Base.{
  ℕ, zero, suc, ◌+◌, ◌-◌, ◌*◌, ◌/◌, ◌%◌, ◌^◌, ◌≤◌, ◌<◌, ◌≡◌, ◌≢◌, refl, some, arith, List, length,
  get_elem?, set, store_lem, length-set, get_elem?-set_self, get_elem?-set_ne, ltb, if◌then◌else◌,
  ◌==◌, Bool-cases, inl, inr, ap,
}
use illinix_operating_system.Strings.{itoa_loop, lookup, digit_char}

-- `value` divided `k` times by the radix.
unfoldable pub quotient : ℕ → ℕ → ℕ → ℕ
quotient value radix zero = value
quotient value radix (suc k) = quotient (value / radix) radix k

pub quotient-suc :
    (value radix k : ℕ) → quotient value radix (suc k) ≡ quotient value radix k / radix
unfolding quotient
quotient-suc value radix zero = refl
quotient-suc value radix (suc k) = quotient-suc (value / radix) radix k

unfoldable pub digit_value : ℕ → ℕ
digit_value c = if ltb c 58 then c - b'0' else c - 55

pub digit_value-digit_char : (d : ℕ) → digit_value (digit_char d) ≡ d
unfolding digit_value digit_char
digit_value-digit_char d = ground arith

pub digit_char_ne_zero : (d : ℕ) → digit_char d ≢ 0
unfolding digit_char
digit_char_ne_zero d = ground arith

div_half : (v r : ℕ) → 2 ≤ r → 2 * (v / r) ≤ v
div_half v r h = grind (arith, div-add-mod v r)

-- From index `i` the loop writes `n` digits, the lowest first.
pub record IsWritten (value radix i n : ℕ) (buf out : List ℕ) : Type 0 where
  pub same_length : length out ≡ length buf
  pub all_digits : quotient value radix n ≡ 0
  pub no_leading : (k : ℕ) → k < n → quotient value radix k ≢ 0
  pub digits :
      (k : ℕ) → k < n → get_elem? out (i + k) ≡ some (digit_char (quotient value radix k % radix))
  pub outside : (j : ℕ) → j < i → get_elem? out j ≡ get_elem? buf j

IsWritten-digit :
    (v radix i n : ℕ) (buf out : List ℕ)
    → v ≢ 0
    → i < length buf
    → IsWritten (v / radix) radix (i + 1) n (set buf i (digit_char (v % radix))) out
    → IsWritten v radix i (suc n) buf out
unfolding quotient
IsWritten-digit v radix i n buf out ne fits w = record {
  same_length = omega (arith, w.same_length, length-set {0} buf i (digit_char (v % radix)));
  all_digits = w.all_digits;
  no_leading = elim [ zero ↦ λ p. ne | suc k ↦ λ p. w.no_leading k (omega arith) ];
  digits = elim [
    | zero ↦ λ p.
        let at : i + 0 ≡ i = omega arith in
        ground (arith, at, w.outside i, get_elem?-set_self {0} buf i (digit_char (v % radix)))
    | suc k ↦ λ p. let at : i + suc k ≡ i + 1 + k = omega arith in ground (arith, at, w.digits k)
  ];
  outside = λ j p.
      ground
        (arith, w.outside j, get_elem?-set_ne {0} buf {i = i} {j = j} (digit_char (v % radix)));
}

IsWritten-none : (v radix i : ℕ) (buf : List ℕ) → v ≡ 0 → IsWritten v radix i 0 buf buf
unfolding quotient
IsWritten-none v radix i buf z = record {
  same_length = refl;
  all_digits = z;
  no_leading = λ k p. absurd (omega arith);
  digits = λ k p. absurd (omega arith);
  outside = λ j p. refl;
}

lookup_lem : (v radix : ℕ) → 2 ≤ radix → radix ≤ 36 → lookup v radix ≡ some (digit_char (v % radix))
unfolding lookup
lookup_lem v radix h1 h2 = ground (arith, mod-lt v {m = radix})

pub itoa_loop_lem :
    (width fuel v : ℕ) (buf : List ℕ) (i radix : ℕ)
    → 2 ≤ radix
    → radix ≤ 36
    → v < 2 ^ width
    → v ≤ fuel
    → i + width ≤ length buf
    → (n : ℕ) × (n ≤ width)
      × (out : List ℕ) × (itoa_loop fuel v buf i radix ≡ some (i + n, out))
      × IsWritten v radix i n buf out
unfolding itoa_loop quotient
itoa_loop_lem width zero v buf i radix hr h36 hw hf fits =
    let z : v ≡ 0 = omega arith in
    (0, omega arith, buf, ground arith, IsWritten-none v radix i buf z)
itoa_loop_lem zero (suc fuel) v buf i radix hr h36 hw hf fits =
    let z : v ≡ 0 = omega arith in
    (0, omega arith, buf, ground arith, IsWritten-none v radix i buf z)
itoa_loop_lem (suc width) (suc fuel) v buf i radix hr h36 hw hf fits = elim (Bool-cases (v == 0)) [
  | inl done ↦ (0, omega arith, buf, ground arith, IsWritten-none v radix i buf (ground arith))
  | inr more ↦
      let ne : v ≢ 0 = ground arith in
      let c = digit_char (v % radix) in
      let half = div_half v radix hr in
      let (n, le, out, eq, w) =
        itoa_loop_lem width fuel (v / radix) (set buf i c) (i + 1) radix hr h36
          (omega (arith, pow-suc 2 width)) (omega arith) (omega (arith, length-set {0} buf i c)) in
      let shift : i + 1 + n ≡ i + suc n = omega arith in
      (
        suc n,
        omega arith,
        out,
        ground (arith, more, lookup_lem v radix hr h36, store_lem buf i c (omega arith), eq, shift),
        IsWritten-digit v radix i n buf out ne (omega arith) w,
      )
]

div_below : (v r q : ℕ) → v < r * q → v / r < q
div_below v r q h = elim (Bool-cases (r == 0)) [
  | inl none ↦ let z : r ≡ 0 = ground arith in absurd (omega (arith, h, ap (λ k. k * q) z))
  | inr some_left ↦
      let pos : 0 < r = ground arith in (div-lt_iff_lt-mul pos).1 (omega (arith, h, mul_comm r q))
]

quotient_below : (value radix k : ℕ) → value < radix ^ k → quotient value radix k ≡ 0
unfolding quotient
quotient_below value radix zero h = omega (arith, h, pow-zero radix)
quotient_below value radix (suc k) h =
    quotient_below (value / radix) radix k
      (div_below value radix (radix ^ k) (omega (arith, h, pow-suc radix k)))

pub no_longer :
    (value radix n k : ℕ)
    → ((j : ℕ) → j < n → quotient value radix j ≢ 0)
    → value < radix ^ k
    → n ≤ k
no_longer value radix n k no_leading less = elim (Bool-cases (ltb k n)) [
  | inl longer ↦ absurd (no_leading k (ground arith) (quotient_below value radix k less))
  | inr fine ↦ ground arith
]
