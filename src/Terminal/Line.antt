-- ===== src/Terminal/Line.antt =====
-- The line that a terminal holds, and what the loops over it do.
use illinix_operating_system.Base.{
  ℕ, zero, suc, ◌+◌, ◌-◌, ◌≤◌, ◌<◌, ◌≡◌, ◌⊎◌, inl, inr, refl, some, arith, List, [], ◌∷◌, ◌++◌,
  get_elem?, drop, ap, ◌∙◌, leb, Bool-cases,
}
use illinix_operating_system.Screen.{update}
use illinix_operating_system.Terminal.{Terminal, buffer_at, line_length, shift_line}

-- `n` characters of row `t` from index `i` on.
abbrev pub line_from : (ℕ → ℕ) → ℕ → ℕ → ℕ → List ℕ
line_from b t i zero = []
line_from b t i (suc n) = b (buffer_at t i) ∷ line_from b t (i + 1) n

-- What has been typed on terminal `u` and not read.
abbrev pub line : Terminal → ℕ → List ℕ
line t u = line_from t.terminal_buffer u 0 (line_length (t.tail u))

pub line_from_ext :
    (b c : ℕ → ℕ) (t i k n : ℕ)
    → ((j : ℕ) → j < n → b (buffer_at t (i + j)) ≡ c (buffer_at t (k + j)))
    → line_from b t i n ≡ line_from c t k n
line_from_ext b c t i k zero h = refl
line_from_ext b c t i k (suc n) h =
    let at_i : i + 0 ≡ i = omega arith in
    let at_k : k + 0 ≡ k = omega arith in
    let first : b (buffer_at t i) ≡ c (buffer_at t k) = rw (at_i, at_k) at (h 0 (omega arith)) in
    rw first (
      ap (λ l. c (buffer_at t k) ∷ l)
        (line_from_ext b c t (i + 1) (k + 1) n λ j p.
          let e : i + 1 + j ≡ i + suc j = omega arith in
          let e' : k + 1 + j ≡ k + suc j = omega arith in rw (e, e') (h (suc j) (omega arith))))

pub get_elem?-line_from :
    (b : ℕ → ℕ) (t i n j : ℕ)
    → j < n
    → get_elem? (line_from b t i n) j ≡ some (b (buffer_at t (i + j)))
get_elem?-line_from b t i zero j h = absurd (omega arith)
get_elem?-line_from b t i (suc n) zero h = ap (λ k. some (b (buffer_at t k))) (omega arith)
get_elem?-line_from b t i (suc n) (suc j) h =
    get_elem?-line_from b t (i + 1) n j (omega arith)
    ∙ ap (λ k. some (b (buffer_at t k))) (omega arith)

pub drop-line_from :
    (b : ℕ → ℕ) (t i n k : ℕ) → k ≤ n → drop k (line_from b t i n) ≡ line_from b t (i + k) (n - k)
drop-line_from b t i n zero h =
    let e : i + 0 ≡ i = omega arith in let e' : n - 0 ≡ n = omega arith in rw (e, e') refl
drop-line_from b t i zero (suc k) h = absurd (omega arith)
drop-line_from b t i (suc n) (suc k) h =
    let e : i + suc k ≡ i + 1 + k = omega arith in
    let e' : suc n - suc k ≡ n - k = omega arith in
    rw (e, e') (drop-line_from b t (i + 1) n k (omega arith))

pub line_from-append :
    (b : ℕ → ℕ) (t i n : ℕ)
    → line_from b t i (suc n) ≡ line_from b t i n ++ b (buffer_at t (i + n)) ∷ []
line_from-append b t i zero = ap (λ k. b (buffer_at t k) ∷ []) (omega arith)
line_from-append b t i (suc n) =
    ap (λ l. b (buffer_at t i) ∷ l)
      (line_from-append b t (i + 1) n
        ∙ ap (λ k. line_from b t (i + 1) n ++ b (buffer_at t k) ∷ []) (omega arith))

-- Moving the rest of a line down changes nothing outside the places that it moves to.
pub shift_line_outside :
    (left t k : ℕ) (b : ℕ → ℕ) (i a : ℕ)
    → k ≤ i
    → (a < buffer_at t (i - k)) ⊎ (buffer_at t (i - k) + left ≤ a)
    → shift_line left t k b i a ≡ b a
unfolding shift_line
shift_line_outside zero t k b i a le h = refl
shift_line_outside (suc left) t k b i a le h =
    shift_line_outside left t k _ (i + 1) a (omega arith)
      (elim h [ inl p ↦ inl (omega arith) | inr p ↦ inr (omega arith) ])
    ∙ ground arith

moved_later :
    (t k i a v : ℕ) (b : ℕ → ℕ)
    → buffer_at t (i + 1 - k) ≤ a
    → k ≤ i
    → update b (buffer_at t (i - k)) v (a + k) ≡ b (a + k)
moved_later t k i a v b h le = ground arith

moved_first :
    (t k i a : ℕ) (b : ℕ → ℕ)
    → k ≤ i
    → buffer_at t (i - k) ≤ a
    → a < buffer_at t (i + 1 - k)
    → update b (buffer_at t (i - k)) (b (buffer_at t i)) a ≡ b (a + k)
moved_first t k i a b le p q = let e : a + k ≡ buffer_at t i = omega arith in rw e (ground arith)

pub shift_line_inside :
    (left t k : ℕ) (b : ℕ → ℕ) (i a : ℕ)
    → k ≤ i
    → buffer_at t (i - k) ≤ a
    → a < buffer_at t (i - k) + left
    → shift_line left t k b i a ≡ b (a + k)
unfolding shift_line
shift_line_inside zero t k b i a le p q = absurd (omega arith)
shift_line_inside (suc left) t k b i a le p q =
    let moved = update b (buffer_at t (i - k)) (b (buffer_at t i)) in
    elim (Bool-cases (leb (buffer_at t (i + 1 - k)) a)) [
      | inl later ↦
          shift_line_inside left t k moved (i + 1) a (omega arith) (ground arith) (omega arith)
          ∙ moved_later t k i a (b (buffer_at t i)) b (ground arith) le
      | inr now ↦
          shift_line_outside left t k moved (i + 1) a (omega arith) (inl (ground arith))
          ∙ moved_first t k i a b le p (ground arith)
    ]
