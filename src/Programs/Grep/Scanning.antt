-- ===== src/Programs/Grep/Scanning.antt =====
-- The search of the lines that lie in the array.
use mathlib.Core.Path.{subst}
use illinix_operating_system.Base.{
  ℕ, zero, suc, ◌+◌, ◌-◌, ◌^◌, ◌<◌, ◌≤◌, ◌≡◌, refl, arith, Bool, true, false, not, ◌&&◌, some, List,
  [], ◌∷◌, ◌++◌, length, bytes_at, get_elem?, store_lem, set, length-set, get_elem?-set_self,
  get_elem?-set_ne, leb, ◌==◌, if◌then◌else◌, ap, ◌∙◌,
}
use illinix_operating_system.Screen.Texts.{Spells}
use illinix_operating_system.Pcb.{Pcb}
use illinix_operating_system.Calls.{Devices}
use illinix_operating_system.Calls.Transfer.{HasOutput}
use illinix_operating_system.Programs.{gives}
use illinix_operating_system.Programs.Actions.{pure}
use illinix_operating_system.Programs.Grep.Searching.{occurs, shows_line, IsSearch, search_line_lem}
use illinix_operating_system.Programs.Grep.{Search, find_end, scan_lines}

-- The array holds these bytes from index `i` on.
abbrev pub Holds : List ℕ → ℕ → List ℕ → Type 0
Holds buf i [] = Unit {0}
Holds buf i (c ∷ cs) = (get_elem? buf i ≡ some c) × Holds buf (i + 1) cs

-- Neither a 0 byte nor a line feed.
unfoldable pub is_line : List ℕ → Bool
is_line [] = true
is_line (c ∷ cs) = not (c == 0) && not (c == b'\n') && is_line cs

unfoldable pub are_lines : List (List ℕ) → Bool
unfolding is_line
are_lines [] = true
are_lines (l ∷ ls) = is_line l && are_lines ls

-- The lines, each with its line feed.
abbrev pub content : List (List ℕ) → List ℕ
content [] = []
content (l ∷ ls) = l ++ b'\n' ∷ content ls

-- The devices after the lines that hold the text are shown.
abbrev pub shows_matches : List ℕ → List ℕ → List (List ℕ) → Devices → Devices
shows_matches ps name [] d = d
shows_matches ps name (l ∷ ls) d =
    shows_matches ps name ls (if occurs ps l then shows_line name l d else d)

Holds-append :
    (buf : List ℕ) (i : ℕ) (xs ys : List ℕ)
    → Holds buf i (xs ++ ys)
    → Holds buf i xs × Holds buf (i + length xs) ys
Holds-append buf i [] ys h =
    let e : i ≡ i + 0 = omega arith in (tt, subst (λ k. Holds buf k ys) e h)
Holds-append buf i (x ∷ xs) ys (at, h) =
    let (first, second) = Holds-append buf (i + 1) xs ys h in
    let e : i + 1 + length xs ≡ i + suc (length xs) = omega arith in
    ((at, first), subst (λ k. Holds buf k ys) e second)

Holds-after :
    (buf : List ℕ) (k v i : ℕ) (cs : List ℕ) → k < i → Holds buf i cs → Holds (set buf k v) i cs
Holds-after buf k v i [] l h = tt
Holds-after buf k v i (c ∷ cs) l (at, h) = (
  get_elem?-set_ne {0} buf {i = k} {j = i} v (omega arith) ∙ at,
  Holds-after buf k v (i + 1) cs (omega arith) h,
)

-- A line with a 0 byte stored behind it is a string.
Holds-Spells :
    (buf : List ℕ) (i k : ℕ) (cs : List ℕ)
    → k < length buf
    → i + length cs ≡ k
    → is_line cs ≡ true
    → Holds buf i cs
    → Spells (bytes_at (set buf k 0)) i cs
unfolding is_line
Holds-Spells buf i k [] l e line h =
    let at : i ≡ k = omega arith in
    ap (bytes_at (set buf k 0)) at ∙ get_elem?-set_self {0} buf k 0 l
Holds-Spells buf i k (c ∷ cs) l e line (at, h) = (
  get_elem?-set_ne {0} buf {i = k} {j = i} 0 (omega arith) ∙ at,
  ground (arith, line),
  Holds-Spells buf (i + 1) k cs l (omega arith) (ground (arith, line)) h,
)

find_end_lem :
    (left : ℕ) (buf : List ℕ) (i : ℕ) (cs : List ℕ) (p : Pcb) (d : Devices)
    → is_line cs ≡ true
    → Holds buf i cs
    → get_elem? buf (i + length cs) ≡ some b'\n'
    → length cs < left
    → find_end left buf i p d ≡ gives (i + length cs) p d
unfolding find_end is_line
find_end_lem zero buf i cs p d line h feed l = absurd (omega arith)
find_end_lem (suc left) buf i [] p d line h feed l =
    let e : i ≡ i + 0 = omega arith in rw (ap (get_elem? buf) e ∙ feed) (ap (λ k. gives k p d) e)
find_end_lem (suc left) buf i (c ∷ cs) p d line (at, h) feed l =
    let e : i + 1 + length cs ≡ i + suc (length cs) = omega arith in
    let other : (c == b'\n') ≡ false = ground (arith, line) in
    let rest =
      find_end_lem left buf (i + 1) cs p d (ground (arith, line)) h (ap (get_elem? buf) e ∙ feed)
        (omega arith) in
    rw (at, other) (rest ∙ ap (λ k. gives k p d) e)

pub length-append : (xs ys : List ℕ) → length (xs ++ ys) ≡ length xs + length ys
length-append [] ys = omega arith
length-append (x ∷ xs) ys = let e = length-append xs ys in omega (arith, e)

pub length-content : (ls : List (List ℕ)) → length ls ≤ length (content ls)
length-content [] = omega arith
length-content (l ∷ ls) =
    let size = length-append l (b'\n' ∷ content ls) in
    let rest = length-content ls in omega (arith, size, rest)

-- The round for one line: it is searched, and the scan goes on behind it or ends.
scan_line_lem :
    (fuel : ℕ) (e : Search) (ps name : List ℕ) (cnt : ℕ) (buf : List ℕ) (last i : ℕ) (l : List ℕ)
    (p : Pcb) (d : Devices)
    → IsSearch e ps name
    → HasOutput p
    → is_line l ≡ true
    → Holds buf i l
    → get_elem? buf (i + length l) ≡ some b'\n'
    → i + length l < last
    → last ≤ length buf
    → length buf < 2 ^ 31
    → let k = i + length l in
      let d1 = if occurs ps l then shows_line name l d else d in
      scan_lines (suc fuel) e cnt buf last i p d
      ≡ (if leb last (k + 1)
            then pure (set buf k 0, 0)
            else scan_lines fuel e cnt (set buf k 0) last (k + 1))
          p d1
unfolding scan_lines
scan_line_lem fuel e ps name cnt buf last i l p d s o line text feed inside room small =
    let k = i + length l in
    let ended = set buf k 0 in
    let found = find_end_lem (last - i) buf i l p d line text feed (omega arith) in
    let stored = store_lem buf k 0 (omega arith) in
    let width : k - i ≡ length l = omega arith in
    let string = Holds-Spells buf i k l (omega arith) refl line text in
    let searched = search_line_lem e ps name s ended l i string (omega arith) p o l i d string in
    rw (found, feed, stored, width, searched) refl

-- Whole lines in the array, each at most 2 ^ 31 characters, and a text that is not empty: the
-- inner loop of `do_one_file` ends, with nothing left in the array, and has shown exactly the
-- lines in which the text occurs, in order and each once, behind the name of the file. As many
-- rounds as there are lines are enough.
pub scan_lines_lem :
    (fuel : ℕ) (e : Search) (ps name : List ℕ) (cnt : ℕ) (buf : List ℕ) (last line_start : ℕ)
    (l : List ℕ) (ls : List (List ℕ)) (p : Pcb) (d : Devices)
    → IsSearch e ps name
    → HasOutput p
    → are_lines (l ∷ ls) ≡ true
    → Holds buf line_start (content (l ∷ ls))
    → line_start + length (content (l ∷ ls)) ≡ last
    → last ≤ length buf
    → length buf < 2 ^ 31
    → length ls < fuel
    → (out : List ℕ) × (scan_lines fuel e cnt buf last line_start p d
        ≡ gives (out, 0) p (shows_matches ps name (l ∷ ls) d))
      × (length out ≡ length buf)
unfolding are_lines
scan_lines_lem zero e ps name cnt buf last i l ls p d s o lines h end room small enough =
    absurd (omega arith)
scan_lines_lem (suc fuel) e ps name cnt buf last i l [] p d s o lines h end room small enough =
    let (text, (feed, rest)) = Holds-append buf i l (b'\n' ∷ []) h in
    let size = length-append l (b'\n' ∷ []) in
    let line : is_line l ≡ true = ground (arith, lines) in
    let round =
      scan_line_lem fuel e ps name cnt buf last i l p d s o line text feed
        (omega (arith, size, end)) room small in
    let over : leb last (i + length l + 1) ≡ true = ground (arith, size, end) in
    (set buf (i + length l) 0, round ∙ rw over refl, length-set {0} buf (i + length l) 0)
scan_lines_lem (suc fuel) e ps name cnt buf last i l (m ∷ ms) p d s o lines h end room small
      enough =
    let (text, (feed, rest)) = Holds-append buf i l (b'\n' ∷ content (m ∷ ms)) h in
    let size = length-append l (b'\n' ∷ content (m ∷ ms)) in
    let next = length-append m (b'\n' ∷ content ms) in
    let k = i + length l in
    let ended = set buf k 0 in
    let kept = length-set {0} buf k 0 in
    let line : is_line l ≡ true = ground (arith, lines) in
    let round =
      scan_line_lem fuel e ps name cnt buf last i l p d s o line text feed
        (omega (arith, size, end)) room small in
    let more : leb last (k + 1) ≡ false = ground (arith, size, next, end) in
    let d1 = if occurs ps l then shows_line name l d else d in
    let (out, eq, same) =
      scan_lines_lem fuel e ps name cnt ended last (k + 1) m ms p d1 s o (ground (arith, lines))
        (Holds-after buf k 0 (k + 1) (content (m ∷ ms)) (omega arith) rest)
        (omega (arith, size, end)) (omega (arith, kept, room)) (omega (arith, kept, small))
        (omega arith) in
    (out, round ∙ rw more eq, same ∙ kept)
