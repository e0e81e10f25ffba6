-- ===== src/Program/Command.antt =====
-- How `parse_args` splits a command.
use illinix_operating_system.Base.{
  ℕ, suc, ◌+◌, ◌-◌, ◌<◌, ◌≡◌, ◌≢◌, ◌⊎◌, inl, inr, refl, arith, List, length, get_elem?, set, Reader,
  ◌>>=◌, some, store_lem, length-set, get_elem?-set_self, get_elem?-set_ne, ◌∙◌, replicate, ap, sym,
  zero,
}
use illinix_operating_system.Program.{copy_program, copy_args, parse_args}

-- `out` is `dest` with the bytes of `src` from `from` on at `i ..< i + n`, and a 0 byte behind.
pub record IsWord (src : Reader) (from i n : ℕ) (dest out : List ℕ) : Type 0 where
  pub same_length : length out ≡ length dest
  pub text : (j : ℕ) → j < n → get_elem? out (i + j) ≡ src (from + j)
  pub terminator : get_elem? out (i + n) ≡ some 0
  pub rest : (j : ℕ) → (j < i) ⊎ (i + n < j) → get_elem? out j ≡ get_elem? dest j

IsWord-end :
    (src : Reader) (from i at n : ℕ) (dest : List ℕ)
    → n ≡ 0
    → at ≡ i
    → i < length dest
    → IsWord src from i n dest (set dest at 0)
IsWord-end src from i at n dest z same h = record {
  same_length = length-set {0} dest at 0;
  text = λ j l. absurd (omega arith);
  terminator =
      let here : i + n ≡ at = omega arith in
      ap (get_elem? (set dest at 0)) here ∙ get_elem?-set_self {0} dest at 0 (omega arith);
  rest = λ j c. get_elem?-set_ne {0} dest {i = at} {j = j} 0 (λ e. ground (arith, e, c, z, same));
}

IsWord-next :
    (src : Reader) (from i n c : ℕ) (dest out : List ℕ)
    → i < length dest
    → src from ≡ some c
    → IsWord src (from + 1) (i + 1) n (set dest i c) out
    → IsWord src from i (suc n) dest out
IsWord-next src from i n c dest out h at w = record {
  same_length = w.same_length ∙ length-set {0} dest i c;
  text = elim [
    | zero ↦ λ l.
        let e : i + 0 ≡ i = omega arith in
        let e' : from + 0 ≡ from = omega arith in
        ap (get_elem? out) e
        ∙ w.rest i (inl (omega arith))
        ∙ get_elem?-set_self {0} dest i c h
        ∙ sym (ap src e' ∙ at)
    | suc j ↦ λ l.
        let e : i + suc j ≡ i + 1 + j = omega arith in
        let e' : from + suc j ≡ from + 1 + j = omega arith in
        ap (get_elem? out) e ∙ w.text j (omega arith) ∙ sym (ap src e')
  ];
  terminator = let e : i + suc n ≡ i + 1 + n = omega arith in ap (get_elem? out) e ∙ w.terminator;
  rest = λ j k.
      w.rest j (omega arith)
      ∙ get_elem?-set_ne {0} dest {i = i} {j = j} c (λ e. ground (arith, e, k));
}

copy_program_lem :
    (n left : ℕ) (command : Reader) (program : List ℕ) (i hi e : ℕ)
    → i + n ≡ hi
    → n < left
    → hi < length program
    → ((j : ℕ) → j < n → (c : ℕ) × (command (i + j) ≡ some c) × (c ≢ 0) × (c ≢ b' '))
    → command hi ≡ some e
    → (e ≡ 0) ⊎ (e ≡ b' ')
    → (mid : List ℕ) × (copy_program left command program i ≡ some (hi, mid))
      × (hi < length mid)
      × IsWord command i i n program (set mid hi 0)
unfolding copy_program
copy_program_lem n zero command program i hi e to l h body at why = absurd (omega arith)
copy_program_lem zero (suc left) command program i hi e to l h body at why =
    let same : hi ≡ i = omega arith in
    let at' : command i ≡ some e = ap command (sym same) ∙ at in
    (
      program,
      rw (at', ◌>>=◌) (ground (arith, why, same)),
      h,
      IsWord-end command i i hi 0 program refl same (omega arith),
    )
copy_program_lem (suc n) (suc left) command program i hi e to l h body at why =
    let same : i + 0 ≡ i = omega arith in
    let (c, first, not_null, not_space) = body 0 (omega arith) in
    let first' : command i ≡ some c = ap command (sym same) ∙ first in
    let (mid, eq, room, w) =
      copy_program_lem n left command (set program i c) (i + 1) hi e (omega arith) (omega arith)
        (omega (arith, length-set {0} program i c))
        (λ j m.
          let (b, x, y, z) = body (suc j) (omega arith) in
          let shift : i + suc j ≡ i + 1 + j = omega arith in (b, ap command (sym shift) ∙ x, y, z))
        at why in
    (
      mid,
      rw (first', ◌>>=◌, store_lem program i c (omega arith))
          (ground (arith, not_null, not_space, eq)),
      room,
      IsWord-next command i i n c program (set mid hi 0) (omega arith) first' w,
    )

copy_args_lem :
    (n left : ℕ) (command : Reader) (args : List ℕ) (i ai : ℕ)
    → n < left
    → ai + n < length args
    → ((j : ℕ) → j < n → (c : ℕ) × (command (i + j) ≡ some c) × (c ≢ 0))
    → command (i + n) ≡ some 0
    → (out : List ℕ) × (copy_args left command args i ai ≡ some out)
      × IsWord command i ai n args out
unfolding copy_args
copy_args_lem n zero command args i ai l h body at = absurd (omega arith)
copy_args_lem zero (suc left) command args i ai l h body at =
    let same : i + 0 ≡ i = omega arith in
    let at' : command i ≡ some 0 = ap command (sym same) ∙ at in
    (
      set args ai 0,
      rw (at', ◌>>=◌) (store_lem args ai 0 (omega arith)),
      IsWord-end command i ai ai 0 args refl refl (omega arith),
    )
copy_args_lem (suc n) (suc left) command args i ai l h body at =
    let same : i + 0 ≡ i = omega arith in
    let (c, first, not_null) = body 0 (omega arith) in
    let first' : command i ≡ some c = ap command (sym same) ∙ first in
    let next : i + suc n ≡ i + 1 + n = omega arith in
    let (out, eq, w) =
      copy_args_lem n left command (set args ai c) (i + 1) (ai + 1) (omega arith)
        (omega (arith, length-set {0} args ai c))
        (λ j m.
          let (b, x, y) = body (suc j) (omega arith) in
          let to : i + suc j ≡ i + 1 + j = omega arith in (b, ap command (sym to) ∙ x, y))
        (ap command (sym next) ∙ at) in
    (
      out,
      rw (first', ◌>>=◌, store_lem args ai c (omega arith)) (ground (arith, not_null, eq)),
      IsWord-next command i ai n c args out (omega arith) first' w,
    )

-- A command of a name of `n` bytes, below 32, without spaces, a space, `k` further bytes and a 0
-- byte, 133 bytes at most, is split without a fault: `program` holds the name and `args` the
-- bytes behind the space, each with 0 behind it.
pub parse_args_lem :
    (command : Reader) (n k : ℕ)
    → n < 32
    → n + 1 + k < 133
    → ((j : ℕ) → j < n → (c : ℕ) × (command j ≡ some c) × (c ≢ 0) × (c ≢ b' '))
    → command n ≡ some b' '
    → ((j : ℕ) → j < k → (c : ℕ) × (command (n + 1 + j) ≡ some c) × (c ≢ 0))
    → command (n + 1 + k) ≡ some 0
    → (program args : List ℕ) × (parse_args command ≡ some (program, args))
      × IsWord command 0 0 n (replicate 32 0) program
      × IsWord command (n + 1) 0 k (replicate 140 0) args
unfolding parse_args
parse_args_lem command n k hn hk name space rest ends =
    let (mid, eq, room, w) =
      copy_program_lem n 133 command (replicate 32 0) 0 n b' ' (omega arith) (omega arith)
        (omega arith)
        (λ j l.
          let (b, x, y, z) = name j l in
          let here : 0 + j ≡ j = omega arith in (b, ap command here ∙ x, y, z))
        space (inr refl) in
    let (args, eq', w') =
      copy_args_lem k (133 - (n + 1)) command (replicate 140 0) (n + 1) 0 (omega arith)
        (omega arith) rest ends in
    (set mid n 0, args, rw (eq, ◌>>=◌, store_lem mid n 0 room, eq') refl, w, w')
