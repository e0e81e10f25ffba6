-- ===== src/Strings/Numerals.antt =====
-- `itoa` prints a number so that reading its digits gives the number back.
use native.Mathlib.Nat.{div-add-mod'}
use illinix_operating_system.Base.{
  ℕ, zero, suc, ◌+◌, ◌-◌, ◌*◌, ◌%◌, ◌^◌, ◌≤◌, ◌<◌, ◌≡◌, refl, some, arith, List, length, get_elem?,
  set, store_lem, length-set, get_elem?-set_self, get_elem?-set_ne, bytes_at, Option, ◌>>=◌, Reader,
  ap, ◌∙◌, sym,
}
use illinix_operating_system.Strings.{itoa, digit_char}
use illinix_operating_system.Strings.Length.{IsString}
use illinix_operating_system.Strings.Reverse.{strrev_lem, IsReverse}
use illinix_operating_system.Strings.Digits.{
  IsWritten, quotient, quotient-suc, digit_value, digit_value-digit_char, digit_char_ne_zero,
  itoa_loop_lem, no_longer,
}

-- Reading a text of digits from the left, as one does on paper.
abbrev horner : ℕ → ℕ → ℕ → Reader → ℕ → Option ℕ
horner radix acc zero s j = some acc
horner radix acc (suc left) s j =
    s j >>= λ c. horner radix (acc * radix + digit_value c) left s (j + 1)

-- The number that the first `n` characters stand for.
pub number_at : ℕ → ℕ → Reader → Option ℕ
number_at radix n s = horner radix 0 n s 0

-- Character `j` of the text is the digit of weight `n - 1 - j`.
IsPositional : ℕ → ℕ → ℕ → Reader → Type 0
IsPositional value radix n s =
    (j k : ℕ) → j + suc k ≡ n → s j ≡ some (digit_char (quotient value radix k % radix))

horner_step :
    (value radix k : ℕ)
    → quotient value radix (suc k) * radix
        + digit_value (digit_char (quotient value radix k % radix))
      ≡ quotient value radix k
horner_step value radix k =
    let q = quotient value radix k in
    rw (quotient-suc, digit_value-digit_char) (div-add-mod' q radix)

horner_lem :
    (value radix n : ℕ) (s : Reader)
    → IsPositional value radix n s
    → (left j : ℕ) → j + left ≡ n
    → horner radix (quotient value radix left) left s j ≡ some value
unfolding IsPositional
horner_lem value radix n s h zero j e = unfold quotient in refl
horner_lem value radix n s h (suc left) j e =
    rw (h j left e, horner_step) (horner_lem value radix n s h left (j + 1) (omega arith))

written_at :
    (value radix n k : ℕ) (buf mid : List ℕ)
    → IsWritten value radix 0 n buf mid
    → k < n
    → get_elem? mid k ≡ some (digit_char (quotient value radix k % radix))
written_at value radix n k buf mid w h =
    let at : k ≡ 0 + k = omega arith in ap (λ x. get_elem? mid x) at ∙ w.digits k h

digit_at :
    (value radix n : ℕ) (buf mid out : List ℕ)
    → IsWritten value radix 0 n buf mid
    → n < length mid
    → IsReverse n (set mid n 0) out
    → IsPositional value radix n (bytes_at out)
unfolding IsPositional
digit_at value radix n buf mid out w fits r j k e =
    r.text j (omega arith)
    ∙ ap (λ x. get_elem? (set mid n 0) x) (omega arith)
    ∙ get_elem?-set_ne {0} mid {i = n} {j = k} 0 (omega arith)
    ∙ written_at value radix n k buf mid w (omega arith)

number_at_lem :
    (value radix n : ℕ) (s : Reader)
    → IsPositional value radix n s
    → quotient value radix n ≡ 0
    → number_at radix n s ≡ some value
unfolding number_at
number_at_lem value radix n s h z =
    ap (λ q. horner radix q n s 0) (sym z) ∙ horner_lem value radix n s h n 0 (omega arith)

written-IsString :
    (value radix n : ℕ) (buf mid : List ℕ)
    → IsWritten value radix 0 n buf mid
    → n < length mid
    → IsString (bytes_at (set mid n 0)) n
written-IsString value radix n buf mid w fits = record {
  body = λ j p. (
    digit_char (quotient value radix j % radix),
    get_elem?-set_ne {0} mid {i = n} {j = j} 0 (omega arith)
        ∙ written_at value radix n j buf mid w p,
    digit_char_ne_zero _,
  );
  ends = get_elem?-set_self {0} mid n 0 fits;
}

positional-IsString :
    (value radix n : ℕ) (out : List ℕ)
    → IsPositional value radix n (bytes_at out)
    → get_elem? out n ≡ some 0
    → IsString (bytes_at out) n
unfolding IsPositional
positional-IsString value radix n out h e = record {
  body = λ j p. (
    digit_char (quotient value radix (n - 1 - j) % radix),
    h j (n - 1 - j) (omega arith),
    digit_char_ne_zero _,
  );
  ends = e;
}

-- What `itoa` leaves in the buffer: a string of at most 32 digits that reads as the value, of no
-- more digits than a number below that power of the radix needs.
pub record IsNumeral (value radix : ℕ) (out : List ℕ) : Type 0 where
  pub size : ℕ
  pub size_le : size ≤ 32
  pub string : IsString (bytes_at out) size
  pub reads_back : number_at radix size (bytes_at out) ≡ some value
  pub shortest : (k : ℕ) → 0 < k → value < radix ^ k → size ≤ k

IsNumeral-zero :
    (radix : ℕ) (buf : List ℕ) → 33 ≤ length buf → IsNumeral 0 radix (set (set buf 0 b'0') 1 0)
unfolding number_at digit_value
IsNumeral-zero radix buf h =
    let first : get_elem? (set (set buf 0 b'0') 1 0) 0 ≡ some b'0' =
      get_elem?-set_ne {0} (set buf 0 b'0') {i = 1} {j = 0} 0 (omega arith)
      ∙ get_elem?-set_self {0} buf 0 b'0' (omega arith) in
    record {
      size = 1;
      size_le = omega arith;
      string = record {
        body = λ j p. let z : j ≡ 0 = omega arith in (b'0', rw z first, omega arith);
        ends =
            get_elem?-set_self {0} (set buf 0 b'0') 1 0 (omega (arith, length-set {0} buf 0 b'0'));
      };
      reads_back = rw first (ground arith);
      shortest = λ k pos less. omega arith;
    }

itoa_pos :
    (value radix : ℕ) (buf : List ℕ)
    → 0 < value
    → value < 2 ^ 32
    → 2 ≤ radix
    → radix ≤ 36
    → 33 ≤ length buf
    → (out : List ℕ) × (itoa value buf radix ≡ some out)
      × IsNumeral value radix out
      × (length out ≡ length buf)
unfolding itoa
itoa_pos value radix buf hv hw hr h36 fits =
    let (n, le, mid, eq, w) =
      itoa_loop_lem 32 value value buf 0 radix hr h36 hw (omega arith) (omega arith) in
    let room : n < length mid = omega (arith, w.same_length) in
    let at : 0 + n ≡ n = omega arith in
    let (out, back, r) =
      strrev_lem (set mid n 0) n (written-IsString value radix n buf mid w room) (omega arith) in
    let digits = digit_at value radix n buf mid out w room r in
    (
      out,
      ground (arith, eq, at, store_lem mid n 0 room, back),
      record {
        size = n;
        size_le = le;
        string =
            positional-IsString value radix n out digits
              (r.rest n (omega arith) ∙ get_elem?-set_self {0} mid n 0 room);
        reads_back = number_at_lem value radix n (bytes_at out) digits w.all_digits;
        shortest = λ k pos less. no_longer value radix n k w.no_leading less;
      },
      r.same_length ∙ length-set {0} mid n 0 ∙ w.same_length,
    )

-- `itoa`, with the length of what it leaves.
pub itoa_kept :
    (value radix : ℕ) (buf : List ℕ)
    → value < 2 ^ 32
    → 2 ≤ radix
    → radix ≤ 36
    → 33 ≤ length buf
    → (out : List ℕ) × (itoa value buf radix ≡ some out)
      × IsNumeral value radix out
      × (length out ≡ length buf)
unfolding itoa
itoa_kept zero radix buf hw hr h36 fits = (
  set (set buf 0 b'0') 1 0,
  ground (arith, store_lem buf 0 b'0', store_lem (set buf 0 b'0') 1 0, length-set {0} buf 0 b'0'),
  IsNumeral-zero radix buf fits,
  length-set {0} (set buf 0 b'0') 1 0 ∙ length-set {0} buf 0 b'0',
)
itoa_kept (suc v) radix buf hw hr h36 fits = itoa_pos (suc v) radix buf (omega arith) hw hr h36 fits

-- For a 32-bit value, a radix from 2 to 36 and a buffer of at least 33 bytes, `itoa` terminates
-- without a fault and leaves a string of at most 32 digits that reads, in that radix, as the
-- value; below the power `k` of the radix, where `k` is not 0, the digits are at most `k`.
pub itoa_lem :
    (value radix : ℕ) (buf : List ℕ)
    → value < 2 ^ 32
    → 2 ≤ radix
    → radix ≤ 36
    → 33 ≤ length buf
    → (out : List ℕ) × (itoa value buf radix ≡ some out) × IsNumeral value radix out
itoa_lem value radix buf hw hr h36 fits =
    let (out, eq, n, same) = itoa_kept value radix buf hw hr h36 fits in (out, eq, n)
