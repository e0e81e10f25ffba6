-- ===== src/Programs/Pingpong/Picture.antt =====
-- The array of pingpong as a picture.
use illinix_operating_system.Base.{
  ℕ, zero, suc, ◌+◌, ◌≤◌, ◌<◌, ◌≡◌, ◌≢◌, refl, arith, ◌||◌, some, List, length, get_elem?,
  store_lem, set, length-set, get_elem?-set_self, get_elem?-set_ne, ◌==◌, if◌then◌else◌, ◌∙◌,
  Bool-cases, inl, inr, ltb,
}
use illinix_operating_system.Pcb.{Pcb}
use illinix_operating_system.Calls.{Devices}
use illinix_operating_system.Programs.{gives}
use illinix_operating_system.Programs.Pingpong.{clear_places}

-- Character `i` of the picture with `c` at place `j`.
unfoldable pub picture : ℕ → ℕ → ℕ → ℕ
picture c j i =
    if i == j then c else if i == 1 || i == 78 then b'|' else if i == 79 then b'\n' else b' '

-- The array has the walls, whatever lies between them.
pub record IsWalled (buf : List ℕ) : Type 0 where
  pub size : length buf ≡ 81
  pub ends : get_elem? buf 80 ≡ some 0
  pub feed : get_elem? buf 79 ≡ some b'\n'
  pub right : get_elem? buf 78 ≡ some b'|'
  pub left : get_elem? buf 1 ≡ some b'|'
  pub margin : get_elem? buf 0 ≡ some b' '

-- `out` is `buf` with blanks at `i ..< i + n`.
pub record IsCleared (i n : ℕ) (buf out : List ℕ) : Type 0 where
  pub same_length : length out ≡ length buf
  pub inside : (k : ℕ) → i ≤ k → k < i + n → get_elem? out k ≡ some b' '
  pub below : (k : ℕ) → k < i → get_elem? out k ≡ get_elem? buf k
  pub above : (k : ℕ) → i + n ≤ k → get_elem? out k ≡ get_elem? buf k

pub clear_places_lem :
    (n i : ℕ) (buf : List ℕ) (p : Pcb) (d : Devices)
    → i + n ≤ length buf
    → (out : List ℕ) × (clear_places n i buf p d ≡ gives out p d) × IsCleared i n buf out
unfolding clear_places
clear_places_lem zero i buf p d h = (
  buf,
  refl,
  record {
    same_length = refl;
    inside = λ k a b. absurd (omega arith);
    below = λ k a. refl;
    above = λ k a. refl;
  },
)
clear_places_lem (suc n) i buf p d h =
    let next = set buf i b' ' in
    let (out, eq, c) =
      clear_places_lem n (i + 1) next p d (omega (arith, length-set {0} buf i b' ')) in
    (
      out,
      rw (store_lem buf i b' ' (omega arith)) eq,
      record {
        same_length = c.same_length ∙ length-set {0} buf i b' ';
        inside = λ k a b. elim (Bool-cases (k == i)) [
          | inl here ↦
              let e : k ≡ i = ground arith in
              rw e (c.below i (omega arith) ∙ get_elem?-set_self {0} buf i b' ' (omega arith))
          | inr later ↦ c.inside k (ground arith) (omega arith)
        ];
        below = λ k a.
            c.below k (omega arith) ∙ get_elem?-set_ne {0} buf {i = i} {j = k} b' ' (omega arith);
        above = λ k a.
            c.above k (omega arith) ∙ get_elem?-set_ne {0} buf {i = i} {j = k} b' ' (omega arith);
      },
    )

-- The array holds the picture as a string.
pub record IsDrawn (c j : ℕ) (buf : List ℕ) : Type 0 where
  pub walled : IsWalled buf
  pub pictured : (i : ℕ) → i < 80 → get_elem? buf i ≡ some (picture c j i)

clear-picture :
    (c j i : ℕ) (buf out : List ℕ)
    → i < 80
    → i ≢ j
    → IsWalled buf
    → IsCleared 2 76 buf out
    → get_elem? out i ≡ some (picture c j i)
unfolding picture
clear-picture c j zero buf out h ne w k = k.below 0 (omega arith) ∙ w.margin ∙ ground (arith, ne)
clear-picture c j (suc zero) buf out h ne w k =
    k.below 1 (omega arith) ∙ w.left ∙ ground (arith, ne)
clear-picture c j (suc (suc i)) buf out h ne w k = elim (Bool-cases (ltb i 76)) [
  | inl blank ↦ k.inside (suc (suc i)) (omega arith) (ground arith) ∙ ground (arith, ne)
  | inr wall ↦ elim (Bool-cases (i == 76)) [
    | inl right ↦
        let e : i ≡ 76 = ground arith in
        rw e (k.above 78 (omega arith) ∙ w.right ∙ ground (arith, ne, e))
    | inr feed ↦
        let e : i ≡ 77 = ground arith in
        rw e (k.above 79 (omega arith) ∙ w.feed ∙ ground (arith, ne, e))
  ]
]

pub drawn_lem :
    (c j : ℕ) (buf out : List ℕ)
    → 2 ≤ j
    → j < 78
    → IsWalled buf
    → IsCleared 2 76 buf out
    → IsDrawn c j (set out j c)
drawn_lem c j buf out l h w k = record {
  walled = record {
    size = length-set {0} out j c ∙ k.same_length ∙ w.size;
    ends = other 80 (omega arith) ∙ k.above 80 (omega arith) ∙ w.ends;
    feed = other 79 (omega arith) ∙ k.above 79 (omega arith) ∙ w.feed;
    right = other 78 (omega arith) ∙ k.above 78 (omega arith) ∙ w.right;
    left = other 1 (omega arith) ∙ k.below 1 (omega arith) ∙ w.left;
    margin = other 0 (omega arith) ∙ k.below 0 (omega arith) ∙ w.margin;
  };
  pictured = λ i b. elim (Bool-cases (i == j)) [
    | inl here ↦
        let e : i ≡ j = ground arith in
        let at : picture c j j ≡ c = unfold picture in ground arith in
        rw (e, at) (get_elem?-set_self {0} out j c (omega (arith, k.same_length, w.size)))
    | inr elsewhere ↦ other i (ground arith) ∙ clear-picture c j i buf out b (ground arith) w k
  ];
}
  where
    other : (i : ℕ) → i ≢ j → get_elem? (set out j c) i ≡ get_elem? out i
    other i ne = get_elem?-set_ne {0} out {i = j} {j = i} c (omega (arith, ne))
