-- ===== src/Programs/Support/Moving.antt =====
-- What `ece391_strcpy` does inside one array.
use illinix_operating_system.Base.{
  ℕ, zero, suc, ◌+◌, ◌^◌, ◌≤◌, ◌<◌, ◌≡◌, refl, some, false, arith, ◌∙◌, List, [], ◌∷◌, length,
  get_elem?, set, store_lem, length-set, get_elem?-set_self, get_elem?-set_ne, ◌==◌, bytes_at,
}
use illinix_operating_system.Strings.Reverse.{lt-length_of_some}
use illinix_operating_system.Screen.Texts.{Spells}
use illinix_operating_system.Programs.Support.{address_space, strcpy_loop, ece391_strcpy}

Spells-later :
    (buf : List ℕ) (k v i : ℕ) (cs : List ℕ)
    → k < i
    → Spells (bytes_at buf) i cs
    → Spells (bytes_at (set buf k v)) i cs
Spells-later buf k v i [] l h = get_elem?-set_ne {0} buf {i = k} {j = i} v (omega arith) ∙ h
Spells-later buf k v i (c ∷ cs) l (at, ne, h) = (
  get_elem?-set_ne {0} buf {i = k} {j = i} v (omega arith) ∙ at,
  ne,
  Spells-later buf k v (i + 1) cs (omega arith) h,
)

-- `out` has the string at `dst`, and nothing below it is changed.
pub record IsMoved (dst : ℕ) (cs buf out : List ℕ) : Type 0 where
  pub same_length : length out ≡ length buf
  pub string : Spells (bytes_at out) dst cs
  pub below : (j : ℕ) → j < dst → get_elem? out j ≡ get_elem? buf j

strcpy_loop_lem :
    (fuel : ℕ) (buf : List ℕ) (dst src : ℕ) (cs : List ℕ)
    → dst ≤ src
    → Spells (bytes_at buf) src cs
    → length cs < fuel
    → (out : List ℕ) × (strcpy_loop fuel buf dst src ≡ some out) × IsMoved dst cs buf out
unfolding strcpy_loop
strcpy_loop_lem zero buf dst src cs le h l = absurd (omega arith)
strcpy_loop_lem (suc fuel) buf dst src [] le h l =
    let inside = lt-length_of_some buf src 0 h in
    (
      set buf dst 0,
      rw (h, store_lem buf dst 0 (omega (arith, inside))) refl,
      record {
        same_length = length-set {0} buf dst 0;
        string = get_elem?-set_self {0} buf dst 0 (omega (arith, inside));
        below = λ j a. get_elem?-set_ne {0} buf {i = dst} {j = j} 0 (omega arith);
      },
    )
strcpy_loop_lem (suc fuel) buf dst src (c ∷ cs) le (at, ne, h) l =
    let inside = lt-length_of_some buf src c at in
    let next = set buf dst c in
    let more : (c == 0) ≡ false = ground (arith, ne) in
    let (out, eq, k) =
      strcpy_loop_lem fuel next (dst + 1) (src + 1) cs (omega arith)
        (Spells-later buf dst c (src + 1) cs (omega arith) h) (omega arith) in
    (
      out,
      rw (at, store_lem buf dst c (omega (arith, inside)), more) eq,
      record {
        same_length = k.same_length ∙ length-set {0} buf dst c;
        string = (
          k.below dst (omega arith) ∙ get_elem?-set_self {0} buf dst c (omega (arith, inside)),
          ne,
          k.string,
        );
        below = λ j a.
            k.below j (omega arith) ∙ get_elem?-set_ne {0} buf {i = dst} {j = j} c (omega arith);
      },
    )

-- A string in an array, of fewer than 2 ^ 32 characters, that is copied down inside the array, or
-- onto itself: `ece391_strcpy` terminates without a fault, and the string is at the new place,
-- although the two places may overlap.
pub ece391_strcpy_lem :
    (buf : List ℕ) (dst src : ℕ) (cs : List ℕ)
    → dst ≤ src
    → Spells (bytes_at buf) src cs
    → length cs < 2 ^ 32
    → (out : List ℕ) × (ece391_strcpy buf dst src ≡ some out) × IsMoved dst cs buf out
unfolding ece391_strcpy address_space
ece391_strcpy_lem buf dst src cs le h l = strcpy_loop_lem (2 ^ 32) buf dst src cs le h l
