-- ===== src/Calls/Arguments.antt =====
-- What `getargs` and `vidmap` give to a user program.
use illinix_operating_system.Base.{
  ℕ, zero, suc, ◌+◌, ◌≤◌, ◌<◌, ◌≡◌, ◌⊎◌, refl, arith, List, false, length, get_elem?, set,
  store_lem, length-set, get_elem?-set_self, get_elem?-set_ne, none, some, ◌>>=◌, ◌∙◌, min, ltb,
  is_negative, if◌then◌else◌, minus_one,
}
use illinix_operating_system.Pcb.{Pcb}
use illinix_operating_system.Paging.{Paging}
use illinix_operating_system.Calls.{getargs, getargs_loop, vidmap}

-- `out` is `buf` with the bytes of `args` at `i ..< i + n`.
pub record IsGiven (args : List ℕ) (i n : ℕ) (buf out : List ℕ) : Type 0 where
  pub same_length : length out ≡ length buf
  pub inside : (j : ℕ) → i ≤ j → j < i + n → get_elem? out j ≡ get_elem? args j
  pub outside : (j : ℕ) → (j < i) ⊎ (i + n ≤ j) → get_elem? out j ≡ get_elem? buf j

getargs_loop_lem :
    (n : ℕ) (args buf : List ℕ) (i : ℕ)
    → i + n ≤ length buf
    → ((j : ℕ) → i ≤ j → j < i + n → (c : ℕ) × (get_elem? args j ≡ some c))
    → (out : List ℕ) × (getargs_loop n args buf i ≡ some out) × IsGiven args i n buf out
unfolding getargs_loop
getargs_loop_lem zero args buf i h has = (
  buf,
  refl,
  record { same_length = refl; inside = λ j p q. absurd (omega arith); outside = λ j p. refl },
)
getargs_loop_lem (suc n) args buf i h has =
    let (c, at) = has i (omega arith) (omega arith) in
    let (out, eq, g) =
      getargs_loop_lem n args (set buf i c) (i + 1) (omega (arith, length-set {0} buf i c))
        (λ j p q. has j (omega arith) (omega arith)) in
    (
      out,
      rw (at, store_lem buf i c (omega arith), ◌>>=◌) eq,
      record {
        same_length = g.same_length ∙ length-set {0} buf i c;
        inside =
            λ j p q. ground (arith, g.inside j, g.outside j, get_elem?-set_self {0} buf i c, at);
        outside = λ j p. ground (arith, g.outside j, get_elem?-set_ne {0} buf {i = i} {j = j} c);
      },
    )

-- With room in the buffer, `getargs` returns 0, copies the first `nbytes` of the arguments, 140
-- at most, and leaves the rest of the buffer alone.
pub getargs_lem :
    (p : Pcb) (buf : List ℕ) (nbytes n : ℕ)
    → is_negative nbytes ≡ false
    → n ≡ min nbytes 140
    → n ≤ length buf
    → ((j : ℕ) → j < 140 → (c : ℕ) × (get_elem? p.args j ≡ some c))
    → (out : List ℕ) × (getargs p buf nbytes ≡ some (0, out)) × IsGiven p.args 0 n buf out
unfolding getargs
getargs_lem p buf nbytes n s e h has =
    let (out, eq, g) =
      getargs_loop_lem n p.args buf 0 (omega arith) (λ j a b. has j (omega arith)) in
    let bound : (if ltb 140 nbytes then 140 else nbytes) ≡ n = ground arith in
    (out, rw (s, bound, eq, ◌>>=◌) refl, g)

-- `vidmap` refuses a place outside of the user page: it returns -1, stores nothing and leaves
-- the tables as they are.
pub vidmap_refused :
    (table_at : ℕ) (t : Paging) (screen_start : ℕ)
    → (screen_start < 0x8000000) ⊎ (0x8400000 < screen_start)
    → vidmap table_at t screen_start ≡ (minus_one, none, t)
unfolding vidmap
vidmap_refused table_at t screen_start h = ground arith
