-- ===== src/Strings/Copy.antt =====
-- What `strncpy` leaves in its destination.
use illinix_operating_system.Base.{
  ℕ, zero, suc, ◌+◌, ◌-◌, ◌≤◌, ◌<◌, ◌≡◌, ◌≢◌, ◌⊎◌, refl, some, inl, inr, arith, Reader, ◌∙◌, List,
  length, get_elem?, set, store_lem, length-set, get_elem?-set_self, get_elem?-set_ne,
}
use illinix_operating_system.Strings.{strncpy, strncpy_text, strncpy_pad}

-- `out` is `dest` with 0 in `lo ..< hi`.
record IsPadded (lo hi : ℕ) (dest out : List ℕ) : Type 0 where
  same_length : length out ≡ length dest
  inside : (j : ℕ) → lo ≤ j → j < hi → get_elem? out j ≡ some 0
  outside : (j : ℕ) → (j < lo) ⊎ (hi ≤ j) → get_elem? out j ≡ get_elem? dest j

strncpy_pad_lem :
    (left : ℕ) (dest : List ℕ) (i hi : ℕ)
    → i + left ≡ hi
    → hi ≤ length dest
    → (out : List ℕ) × (strncpy_pad left dest i ≡ some out) × IsPadded i hi dest out
unfolding strncpy_pad
strncpy_pad_lem zero dest i hi e h = (
  dest,
  refl,
  record { same_length = refl; inside = λ j p q. absurd (omega arith); outside = λ j p. refl },
)
strncpy_pad_lem (suc left) dest i hi e h =
    let (out, eq, p) =
      strncpy_pad_lem left (set dest i 0) (i + 1) hi (omega arith)
        (omega (arith, length-set {0} dest i 0)) in
    (
      out,
      ground (arith, store_lem dest i 0 (omega arith), eq),
      record {
        same_length = omega (arith, p.same_length, length-set {0} dest i 0);
        inside = λ j q r. ground (arith, p.inside j, p.outside j, get_elem?-set_self {0} dest i 0);
        outside = λ j q. ground (arith, p.outside j, get_elem?-set_ne {0} dest {i = i} {j = j} 0);
      },
    )

-- `out` is `dest` with the bytes of `src` in `lo ..< hi`.
record IsCopied (lo hi : ℕ) (src : Reader) (dest out : List ℕ) : Type 0 where
  same_length : length out ≡ length dest
  inside : (j : ℕ) → lo ≤ j → j < hi → get_elem? out j ≡ src j
  outside : (j : ℕ) → (j < lo) ⊎ (hi ≤ j) → get_elem? out j ≡ get_elem? dest j

IsCopied-none : (i hi : ℕ) (src : Reader) (dest : List ℕ) → i ≡ hi → IsCopied i hi src dest dest
IsCopied-none i hi src dest e = record {
  same_length = refl;
  inside = λ j p q. absurd (omega arith);
  outside = λ j p. refl;
}

-- From index `i` the first loop copies `more` bytes, and stops at the 0 byte or at its bound.
strncpy_text_lem :
    (more left : ℕ) (dest : List ℕ) (src : Reader) (i hi : ℕ)
    → i + more ≡ hi
    → hi ≤ length dest
    → more ≤ left
    → ((j : ℕ) → i ≤ j → j < hi → (b : ℕ) × (src j ≡ some b) × (b ≢ 0))
    → (b : ℕ) × (src hi ≡ some b) × ((b ≡ 0) ⊎ (more ≡ left))
    → (out : List ℕ) × (strncpy_text left dest src i ≡ some (hi, out)) × IsCopied i hi src dest out
unfolding strncpy_text
strncpy_text_lem zero zero dest src i hi e h le body (b, ends, why) =
    let same : i ≡ hi = omega arith in
    (dest, ground (arith, same, ends), IsCopied-none i hi src dest same)
strncpy_text_lem zero (suc left) dest src i hi e h le body (b, ends, why) =
    let same : i ≡ hi = omega arith in
    (dest, ground (arith, same, ends), IsCopied-none i hi src dest same)
strncpy_text_lem (suc more) zero dest src i hi e h le body why = absurd (omega arith)
strncpy_text_lem (suc more) (suc left) dest src i hi e h le body (b, ends, why) =
    let (c, at, ne) = body i (omega arith) (omega arith) in
    let (out, eq, p) =
      strncpy_text_lem more left (set dest i c) src (i + 1) hi (omega arith)
        (omega (arith, length-set {0} dest i c)) (omega arith) (λ j p q. body j (omega arith) q)
        (b, ends, elim why [ inl z ↦ inl z | inr r ↦ inr (omega arith) ]) in
    (
      out,
      ground (arith, at, store_lem dest i c (omega arith), eq),
      record {
        same_length = omega (arith, p.same_length, length-set {0} dest i c);
        inside =
            λ j q r. ground (arith, p.inside j, p.outside j, get_elem?-set_self {0} dest i c, at);
        outside = λ j q. ground (arith, p.outside j, get_elem?-set_ne {0} dest {i = i} {j = j} c);
      },
    )

-- The text that `strncpy` copies for `n`: `m` bytes before a 0 byte, or the first `n` bytes.
pub record IsText (src : Reader) (n m : ℕ) : Type 0 where
  pub fits : m ≤ n
  pub body : (j : ℕ) → j < m → (b : ℕ) × (src j ≡ some b) × (b ≢ 0)
  pub ends : (b : ℕ) × (src m ≡ some b) × ((b ≡ 0) ⊎ (m ≡ n))

-- The destination after the copy: the text, 0 up to `n`, and the rest as it was.
pub record IsField (src : Reader) (n m : ℕ) (dest out : List ℕ) : Type 0 where
  pub same_length : length out ≡ length dest
  pub text : (j : ℕ) → j < m → get_elem? out j ≡ src j
  pub padding : (j : ℕ) → m ≤ j → j < n → get_elem? out j ≡ some 0
  pub rest : (j : ℕ) → n ≤ j → get_elem? out j ≡ get_elem? dest j

-- On a text of `m` bytes and a destination of at least `n`, `strncpy` terminates without a
-- fault: it copies the text, fills with 0 up to `n` and leaves what follows alone.
pub strncpy_lem :
    (dest : List ℕ) (src : Reader) (n m : ℕ)
    → n ≤ length dest
    → IsText src n m
    → (out : List ℕ) × (strncpy dest src n ≡ some out) × IsField src n m dest out
unfolding strncpy
strncpy_lem dest src n m h t =
    let (mid, eq, c) =
      strncpy_text_lem m n dest src 0 m (omega arith) (omega (arith, t.fits)) t.fits
        (λ j p q. t.body j q) t.ends in
    let (out, eq', p) =
      strncpy_pad_lem (n - m) mid m n (omega (arith, t.fits)) (omega (arith, c.same_length)) in
    (
      out,
      ground (arith, eq, eq'),
      record {
        same_length = p.same_length ∙ c.same_length;
        text = λ j q. ground (arith, p.outside j, c.inside j);
        padding = λ j q r. p.inside j q r;
        rest = λ j q. ground (arith, p.outside j, c.outside j, t.fits);
      },
    )
