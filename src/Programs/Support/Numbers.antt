-- ===== src/Programs/Support/Numbers.antt =====
-- `ece391_itoa` is the kernel's `itoa`.
use illinix_operating_system.Base.{
  ℕ, ◌-◌, ◌≡◌, refl, arith, List, bytes_at, ap, ◌>>=◌, ◌==◌, Bool-cases, Option-cases, inl, inr,
  Option, store, if◌then◌else◌,
}
use std.Path.{fun_ext}
use illinix_operating_system.Strings.{strlen, strrev, itoa, strrev_loop, itoa_loop}
use illinix_operating_system.Programs.Support.{ece391_strrev, ece391_itoa}

pub ece391_strrev_lem : (s : List ℕ) → ece391_strrev s ≡ strrev s
unfolding ece391_strrev strrev strrev_loop
ece391_strrev_lem s = elim (Option-cases (strlen (bytes_at s))) [
  | inl e ↦ rw e refl
  | inr (n, e) ↦ elim (Bool-cases (n - 1 == 0)) [
    | inl short ↦ let z : n - 1 ≡ 0 = ground arith in rw (e, z) refl
    | inr long ↦ rw (e, long) refl
  ]
]

-- On every value, buffer and radix `ece391_itoa` does what the kernel's `itoa` does, faults
-- included; so does its reversal of a string.
pub ece391_itoa_lem :
    (value : ℕ) (buf : List ℕ) (radix : ℕ) → ece391_itoa value buf radix ≡ itoa value buf radix
unfolding ece391_itoa itoa
ece391_itoa_lem value buf radix =
    let with_reversal : (List ℕ → Option (List ℕ)) → Option (List ℕ) = λ rev.
      let zero_text = store buf 0 b'0' >>= λ b. store b 1 0 in
      let text = itoa_loop value value buf 0 radix >>= λ (i, b). store b i 0 >>= λ b'. rev b' in
      if value == 0 then zero_text else text in
    ap with_reversal (fun_ext ece391_strrev_lem)
