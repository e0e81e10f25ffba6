-- ===== src/Screen/Texts.antt =====
-- What `puts` shows.
use illinix_operating_system.Base.{
  ℕ, zero, suc, ◌+◌, ◌^◌, ◌<◌, ◌≡◌, ◌≢◌, refl, arith, some, List, [], ◌∷◌, ◌++◌, length, Reader,
  bytes_at, ap, ◌∙◌,
}
use illinix_operating_system.Strings.Length.{IsString}
use illinix_operating_system.Screen.{Screen, putc, puts, puts_from, address_space}

-- The screen after these characters.
abbrev pub show_all : List ℕ → Screen → Screen
show_all [] s = s
show_all (c ∷ cs) s = show_all cs (putc c s)

pub show_all-append :
    (xs ys : List ℕ) (s : Screen) → show_all (xs ++ ys) s ≡ show_all ys (show_all xs s)
show_all-append [] ys s = refl
show_all-append (c ∷ cs) ys s = show_all-append cs ys (putc c s)

-- The pointer leads from index `i` on to these characters and a 0 byte.
abbrev pub Spells : Reader → ℕ → List ℕ → Type 0
Spells p i [] = p i ≡ some 0
Spells p i (c ∷ cs) = (p i ≡ some c) × (c ≢ 0) × Spells p (i + 1) cs

puts_from-Spells :
    (fuel : ℕ) (p : Reader) (i : ℕ) (cs : List ℕ) (s : Screen)
    → Spells p i cs
    → length cs < fuel
    → puts_from fuel p i s ≡ some (i + length cs, show_all cs s)
unfolding puts_from
puts_from-Spells zero p i cs s h l = absurd (omega arith)
puts_from-Spells (suc fuel) p i [] s h l = let e : i + 0 ≡ i = omega arith in ground (arith, h, e)
puts_from-Spells (suc fuel) p i (c ∷ cs) s (at, ne, h) l =
    let e : i + suc (length cs) ≡ i + 1 + length cs = omega arith in
    let rest = puts_from-Spells fuel p (i + 1) cs (putc c s) h (omega arith) in
    ground (arith, at, ne, rest, e)

-- `puts` shows the characters of a string, as many as it returns.
pub puts_lem :
    (p : Reader) (cs : List ℕ) (s : Screen)
    → Spells p 0 cs
    → length cs < 2 ^ 32
    → puts p s ≡ some (length cs, show_all cs s)
unfolding puts
puts_lem p cs s h l =
    let e : 0 + length cs ≡ length cs = omega arith in
    puts_from-Spells address_space p 0 cs s h (omega arith) ∙ ap (λ n. some (n, show_all cs s)) e

spelled_from :
    (left : ℕ) (p : Reader) (i n : ℕ)
    → IsString p n
    → i + left ≡ n
    → (cs : List ℕ) × (length cs ≡ left) × Spells p i cs
spelled_from zero p i n h e = let at : i ≡ n = omega arith in ([], refl, ap p at ∙ h.ends)
spelled_from (suc left) p i n h e =
    let (b, at, ne) = h.body i (omega arith) in
    let (cs, len, rest) = spelled_from left p (i + 1) n h (omega arith) in
    (b ∷ cs, ap suc len, (at, ne, rest))

-- The characters of a string.
pub IsString-spelled :
    (p : Reader) (n : ℕ) → IsString p n → (cs : List ℕ) × (length cs ≡ n) × Spells p 0 cs
IsString-spelled p n h = spelled_from n p 0 n h (omega arith)

pub Spells-shift :
    (b : ℕ) (buf : List ℕ) (i : ℕ) (cs : List ℕ)
    → Spells (bytes_at buf) i cs
    → Spells (bytes_at (b ∷ buf)) (i + 1) cs
Spells-shift b buf i [] h = let e : i + 1 ≡ suc i = omega arith in rw e h
Spells-shift b buf i (c ∷ cs) (at, ne, h) =
    let e : i + 1 ≡ suc i = omega arith in
    (ap (bytes_at (b ∷ buf)) e ∙ at, ne, Spells-shift b buf (i + 1) cs h)
