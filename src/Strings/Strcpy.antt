-- ===== src/Strings/Strcpy.antt =====
-- What `strcpy` leaves in its destination.
use mathlib.Core.Path.{subst}
use illinix_operating_system.Base.{
  ℕ, zero, suc, ◌+◌, ◌^◌, ◌≤◌, ◌<◌, ◌≡◌, ◌⊎◌, some, false, inl, inr, arith, Reader, ◌∙◌, sym, ap,
  List, length, get_elem?, set, store_lem, length-set, get_elem?-set_self, get_elem?-set_ne, ◌==◌,
  Bool-cases,
}
use illinix_operating_system.Strings.Length.{IsString}
use illinix_operating_system.Strings.{strcpy, strcpy_from, address_space}

-- `out` is `dest` with the `n` bytes of the string from `i` on and its 0 byte.
pub record IsStored (src : Reader) (i n : ℕ) (dest out : List ℕ) : Type 0 where
  pub same_length : length out ≡ length dest
  pub text : (j : ℕ) → i ≤ j → j ≤ i + n → get_elem? out j ≡ src j
  pub others : (j : ℕ) → (j < i) ⊎ (i + n < j) → get_elem? out j ≡ get_elem? dest j

strcpy_from_lem :
    (fuel : ℕ) (dest : List ℕ) (src : Reader) (i n : ℕ)
    → IsString src (i + n)
    → i + n < length dest
    → n < fuel
    → (out : List ℕ) × (strcpy_from fuel dest src i ≡ some out) × IsStored src i n dest out
unfolding strcpy_from
strcpy_from_lem zero dest src i n h room l = absurd (omega arith)
strcpy_from_lem (suc fuel) dest src i zero h room l =
    let e : i + 0 ≡ i = omega arith in
    let at : src i ≡ some 0 = ap src (sym e) ∙ h.ends in
    (
      set dest i 0,
      rw at (store_lem dest i 0 (omega arith)),
      record {
        same_length = length-set {0} dest i 0;
        text = λ j a b.
            let here : j ≡ i = omega arith in
            rw here (get_elem?-set_self {0} dest i 0 (omega arith) ∙ sym at);
        others = λ j a. get_elem?-set_ne {0} dest {i = i} {j = j} 0 (ground (arith, a));
      },
    )
strcpy_from_lem (suc fuel) dest src i (suc n) h room l =
    let (c, at, ne) = h.body i (omega arith) in
    let next = set dest i c in
    let more : (c == 0) ≡ false = ground (arith, ne) in
    let e : i + suc n ≡ i + 1 + n = omega arith in
    let kept = length-set {0} dest i c in
    let (out, eq, k) =
      strcpy_from_lem fuel next src (i + 1) n (subst (λ m. IsString src m) e h)
        (omega (arith, kept)) (omega arith) in
    (
      out,
      rw (at, more, store_lem dest i c (omega arith)) eq,
      record {
        same_length = k.same_length ∙ kept;
        text = λ j a b. elim (Bool-cases (j == i)) [
          | inl here ↦
              let z : j ≡ i = ground arith in
              rw z (
                k.others i (inl (omega arith))
                ∙ get_elem?-set_self {0} dest i c (omega arith)
                ∙ sym at)
          | inr later ↦ k.text j (ground arith) (omega arith)
        ];
        others = λ j a.
            k.others j (ground (arith, a))
            ∙ get_elem?-set_ne {0} dest {i = i} {j = j} c (ground (arith, a));
      },
    )

-- With room for a string of `n` bytes, below 2 ^ 32, and its 0 byte, `strcpy` terminates without
-- a fault, copies them and changes nothing else.
pub strcpy_lem :
    (dest : List ℕ) (src : Reader) (n : ℕ)
    → IsString src n
    → n < length dest
    → n < 2 ^ 32
    → (out : List ℕ) × (strcpy dest src ≡ some out) × IsStored src 0 n dest out
unfolding strcpy address_space
strcpy_lem dest src n h room small =
    let e : n ≡ 0 + n = omega arith in
    strcpy_from_lem (2 ^ 32) dest src 0 n (subst (λ m. IsString src m) e h) (omega arith) small
