-- ===== src/Strings/Reverse.antt =====
-- `strrev` reverses in place.
use illinix_operating_system.Base.{
  ℕ, zero, suc, ◌+◌, ◌-◌, ◌^◌, ◌≤◌, ◌<◌, ◌≡◌, ◌⊎◌, refl, some, arith, List, [], ◌∷◌, length,
  get_elem?, set, store_lem, length-set, get_elem?-set_self, get_elem?-set_ne, bytes_at, ltb,
  Bool-cases, inl, inr, ◌∙◌, ap,
}
use illinix_operating_system.Strings.{strrev, strrev_loop}
use illinix_operating_system.Strings.Length.{IsString, strlen_lem}

pub lt-length_of_some : (s : List ℕ) (i b : ℕ) → get_elem? s i ≡ some b → i < length s
lt-length_of_some [] i b h = absurd (ground arith)
lt-length_of_some (x ∷ s) zero b h = omega arith
lt-length_of_some (x ∷ s) (suc i) b h = omega (arith, lt-length_of_some s i b h)

pub some_of_lt-length : (s : List ℕ) (i : ℕ) → i < length s → (b : ℕ) × (get_elem? s i ≡ some b)
some_of_lt-length [] i h = absurd (omega arith)
some_of_lt-length (x ∷ s) zero h = (x, refl)
some_of_lt-length (x ∷ s) (suc i) h = some_of_lt-length s i (omega arith)

-- `out` is `s` with the bytes at `beg ..= end` in the opposite order.
record IsReversed (beg end : ℕ) (s out : List ℕ) : Type 0 where
  same_length : length out ≡ length s
  inside : (j : ℕ) → beg ≤ j → j ≤ end → get_elem? out j ≡ get_elem? s (beg + end - j)
  outside : (j : ℕ) → (j < beg) ⊎ (end < j) → get_elem? out j ≡ get_elem? s j

IsReversed-short : (beg end : ℕ) (s : List ℕ) → end ≤ beg → IsReversed beg end s s
IsReversed-short beg end s h = record {
  same_length = refl;
  inside = λ j p q. let e : beg + end - j ≡ j = omega arith in ground (arith, e);
  outside = λ j p. refl;
}

-- One round: the swap of the two ends, and the rest reversed.
IsReversed-swap :
    (beg end a b : ℕ) (s out : List ℕ)
    → beg < suc end
    → suc end < length s
    → get_elem? s beg ≡ some a
    → get_elem? s (suc end) ≡ some b
    → IsReversed (beg + 1) end (set (set s (suc end) a) beg b) out
    → IsReversed beg (suc end) s out
IsReversed-swap beg end a b s out lt fits ea eb r = record {
  same_length = omega (
    arith,
    r.same_length,
    length-set {0} s (suc end) a,
    length-set {0} (set s (suc end) a) beg b,
  );
  inside = λ j p q. ground (
    arith,
    r.inside j,
    r.outside j,
    length-set {0} s (suc end) a,
    get_elem?-set_self {0} (set s (suc end) a) beg b,
    get_elem?-set_self {0} s (suc end) a,
    get_elem?-set_ne {0} (set s (suc end) a) {i = beg} {j = suc end} b,
    get_elem?-set_ne {0} (set s (suc end) a) {i = beg} {j = beg + suc end - j} b,
    get_elem?-set_ne {0} s {i = suc end} {j = beg + suc end - j} a,
  );
  outside = λ j p. ground (
    arith,
    r.outside j,
    get_elem?-set_ne {0} (set s (suc end) a) {i = beg} {j = j} b,
    get_elem?-set_ne {0} s {i = suc end} {j = j} a,
  );
}

strrev_loop_lem :
    (end : ℕ) (s : List ℕ) (beg : ℕ)
    → end < length s
    → (out : List ℕ) × (strrev_loop s beg end ≡ some out) × IsReversed beg end s out
unfolding strrev_loop
strrev_loop_lem zero s beg h = (s, refl, IsReversed-short beg 0 s (omega arith))
strrev_loop_lem (suc end) s beg h = elim (Bool-cases (ltb beg (suc end))) [
  | inr stop ↦ (s, rw stop, IsReversed-short beg (suc end) s (ground arith))
  | inl go ↦
      let lt : beg < suc end = ground arith in
      let (b, eb) = some_of_lt-length s (suc end) h in
      let (a, ea) = some_of_lt-length s beg (omega arith) in
      let mid = set (set s (suc end) a) beg b in
      let (out, eq, r) =
        strrev_loop_lem end mid (beg + 1)
          (omega (arith, length-set {0} s (suc end) a, length-set {0} (set s (suc end) a) beg b)) in
      (
        out,
        ground (
          arith,
          go,
          ea,
          eb,
          eq,
          length-set {0} s (suc end) a,
          store_lem s (suc end) a,
          store_lem (set s (suc end) a) beg b,
        ),
        IsReversed-swap beg end a b s out lt h ea eb r,
      )
]

-- The string in `out` is that of `s` backwards.
pub record IsReverse (n : ℕ) (s out : List ℕ) : Type 0 where
  pub same_length : length out ≡ length s
  pub text : (j : ℕ) → j < n → get_elem? out j ≡ get_elem? s (n - 1 - j)
  pub rest : (j : ℕ) → n ≤ j → get_elem? out j ≡ get_elem? s j

reversed_rest :
    (n : ℕ) (s out : List ℕ) (j : ℕ)
    → IsReversed 0 (n - 1) s out
    → n ≤ j
    → get_elem? out j ≡ get_elem? s j
reversed_rest n s out zero r p =
    r.inside 0 (omega arith) (omega arith) ∙ ap (λ k. get_elem? s k) (omega arith)
reversed_rest n s out (suc j) r p = r.outside (suc j) (inr (omega arith))

-- On a string of `n` bytes in a buffer, `strrev` terminates without a fault, reverses the `n`
-- bytes and leaves the 0 byte and what follows it alone.
pub strrev_lem :
    (s : List ℕ) (n : ℕ)
    → IsString (bytes_at s) n
    → n < 2 ^ 32
    → (out : List ℕ) × (strrev s ≡ some out) × IsReverse n s out
unfolding strrev
strrev_lem s n h lt =
    let fits = lt-length_of_some s n 0 h.ends in
    let (out, eq, r) = strrev_loop_lem (n - 1) s 0 (omega arith) in
    (
      out,
      ground (arith, strlen_lem (bytes_at s) n h lt, eq),
      record {
        same_length = r.same_length;
        text =
            λ j p. r.inside j (omega arith) (omega arith) ∙ ap (λ k. get_elem? s k) (omega arith);
        rest = λ j p. reversed_rest n s out j r p;
      },
    )
