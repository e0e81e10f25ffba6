-- ===== src/Programs/Actions/Output.antt =====
-- What the actions show.
use illinix_operating_system.Base.{
  ℕ, zero, suc, ◌+◌, ◌^◌, ◌<◌, ◌≡◌, ◌≢◌, refl, arith, Bool, true, not, ◌&&◌, some, List, [], ◌∷◌,
  ◌++◌, length, Reader, bytes_at, ltb, ◌==◌, ◌>>=◌, get_elem?, get_or, ap, ◌∙◌,
}
use illinix_operating_system.Base.Text.{text, codes}
use Prim.Native.String.{String}
use illinix_operating_system.Strings.Length.{IsString, strlen_lem}
use illinix_operating_system.Terminal.Shown.{shown}
use illinix_operating_system.Screen.{Screen, putc}
use illinix_operating_system.Screen.Texts.{show_all, Spells, Spells-shift}
use illinix_operating_system.Pcb.{Pcb}
use illinix_operating_system.Calls.{Devices, Surroundings, write}
use illinix_operating_system.Calls.Transfer.{HasOutput, write-shown}
use illinix_operating_system.Programs.{fdputs}
use illinix_operating_system.Programs.{gives}
use illinix_operating_system.Programs.Actions.{ece391_fdputs, tell}

-- The devices after these characters on the screen.
abbrev pub shows : List ℕ → Devices → Devices
shows cs d = record d { terminal = record d.terminal { screen = show_all cs d.terminal.screen } }

get_elem?-get_or : (cs : List ℕ) (j : ℕ) → j < length cs → get_elem? cs j ≡ some (get_or cs j 0)
get_elem?-get_or [] j h = absurd (omega arith)
get_elem?-get_or (c ∷ cs) zero h = refl
get_elem?-get_or (c ∷ cs) (suc j) h = get_elem?-get_or cs j (omega arith)

shown-show_all :
    (cs : List ℕ) (c : ℕ → ℕ) (k : ℕ) (s : Screen)
    → ((j : ℕ) → j < length cs → c (k + j) ≡ get_or cs j 0)
    → shown (length cs) c k s ≡ show_all cs s
unfolding shown
shown-show_all [] c k s h = refl
shown-show_all (x ∷ cs) c k s h =
    let k0 : k ≡ k + 0 = omega arith in
    let first : c k ≡ x = ap c k0 ∙ h 0 (omega arith) in
    ap (λ y. shown (length cs) c (k + 1) (putc y s)) first
    ∙ shown-show_all cs c (k + 1) (putc x s)
        (λ j l. let e : k + 1 + j ≡ k + suc j = omega arith in ap c e ∙ h (suc j) (omega arith))

-- A write of these characters on descriptor 1 shows them.
pub write-shows :
    (w : Surroundings) (p : Pcb) (d : Devices) (buf : Reader) (cs : List ℕ)
    → HasOutput p
    → length cs < 2 ^ 31
    → ((j : ℕ) → j < length cs → buf j ≡ get_elem? cs j)
    → write w p d 1 buf (length cs) ≡ some (length cs, shows cs d)
write-shows w p d buf cs o small h =
    let c : ℕ → ℕ = λ j. get_or cs j 0 in
    let e = write-shown w p d buf c 0 (length cs) o small (λ j l.
      let at : j ≡ 0 + j = omega arith in
      h j l ∙ get_elem?-get_or cs j l ∙ ap (λ i. some (c i)) at) in
    e
    ∙ ap (λ s. some (length cs, record d { terminal = record d.terminal { screen = s } }))
        (shown-show_all cs c 0 d.terminal.screen
          (λ j l. let at : 0 + j ≡ j = omega arith in ap c at))

Spells-at :
    (s : Reader) (i : ℕ) (cs : List ℕ) (j : ℕ)
    → Spells s i cs
    → j < length cs
    → (s (i + j) ≡ get_elem? cs j) × (b : ℕ) × (s (i + j) ≡ some b) × (b ≢ 0)
Spells-at s i [] j h l = absurd (omega arith)
Spells-at s i (c ∷ cs) zero (at, ne, h) l =
    let e : i + 0 ≡ i = omega arith in (ap s e ∙ at, c, ap s e ∙ at, ne)
Spells-at s i (c ∷ cs) (suc j) (at, ne, h) l =
    let e : i + suc j ≡ i + 1 + j = omega arith in
    let (same, b, is, not_end) = Spells-at s (i + 1) cs j h (omega arith) in
    (ap s e ∙ same, b, ap s e ∙ is, not_end)

Spells-last : (s : Reader) (i : ℕ) (cs : List ℕ) → Spells s i cs → s (i + length cs) ≡ some 0
Spells-last s i [] h = let e : i + 0 ≡ i = omega arith in ap s e ∙ h
Spells-last s i (c ∷ cs) (at, ne, h) =
    let e : i + suc (length cs) ≡ i + 1 + length cs = omega arith in
    ap s e ∙ Spells-last s (i + 1) cs h

pub Spells-IsString : (s : Reader) (cs : List ℕ) → Spells s 0 cs → IsString s (length cs)
Spells-IsString s cs h = record {
  body = λ j l.
      let e : j ≡ 0 + j = omega arith in
      let (same, b, is, ne) = Spells-at s 0 cs j h l in (b, ap s e ∙ is, ne);
  ends = let e : length cs ≡ 0 + length cs = omega arith in ap s e ∙ Spells-last s 0 cs h;
}

-- `ece391_fdputs` shows a string.
pub fdputs_lem :
    (w : Surroundings) (p : Pcb) (d : Devices) (s : Reader) (cs : List ℕ)
    → HasOutput p
    → Spells s 0 cs
    → length cs < 2 ^ 31
    → ece391_fdputs w 1 s p d ≡ gives tt p (shows cs d)
unfolding ece391_fdputs fdputs
fdputs_lem w p d s cs o h small =
    let len = strlen_lem s (length cs) (Spells-IsString s cs h) (omega arith) in
    let shown_all = write-shows w p d s cs o small (λ j l.
      let e : j ≡ 0 + j = omega arith in
      let (same, b, is, ne) = Spells-at s 0 cs j h l in ap s e ∙ same) in
    rw (len, ◌>>=◌, shown_all, ◌>>=◌) refl

-- No 0 byte.
unfoldable pub no_zero : List ℕ → Bool
no_zero [] = true
no_zero (c ∷ cs) = not (c == 0) && no_zero cs

pub Spells-codes : (cs rest : List ℕ) → no_zero cs ≡ true → Spells (bytes_at (cs ++ 0 ∷ rest)) 0 cs
unfolding no_zero
Spells-codes [] rest h = refl
Spells-codes (c ∷ cs) rest h = (
  refl,
  ground (arith, h),
  Spells-shift c (cs ++ 0 ∷ rest) 0 cs (Spells-codes cs rest (ground (arith, h))),
)

-- A text that a program can hold.
unfoldable pub is_literal : String → Bool
unfolding no_zero
is_literal t = no_zero (codes t) && ltb (length (codes t)) 1000

pub tell_lem :
    (w : Surroundings) (t : String) (p : Pcb) (d : Devices)
    → HasOutput p
    → is_literal t ≡ true
    → tell w t p d ≡ gives tt p (shows (codes t) d)
unfolding is_literal
tell_lem w t p d o h =
    fdputs_lem w p d (text t) (codes t) o (Spells-codes (codes t) [] (ground (arith, h)))
      (ground (arith, h))

-- The screen, and the devices, after these texts.
abbrev pub show_texts : List String → Screen → Screen
show_texts [] s = s
show_texts (t ∷ ts) s = show_texts ts (show_all (codes t) s)

abbrev pub shows_texts : List String → Devices → Devices
shows_texts [] d = d
shows_texts (t ∷ ts) d = shows_texts ts (shows (codes t) d)

pub shows_texts-screen :
    (ts : List String) (d : Devices)
    → (shows_texts ts d).terminal.screen ≡ show_texts ts d.terminal.screen
shows_texts-screen [] d = refl
shows_texts-screen (t ∷ ts) d = shows_texts-screen ts (shows (codes t) d)
