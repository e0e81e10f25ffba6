-- ===== src/Programs/Grep/Searching.antt =====
-- The search of one line.
use illinix_operating_system.Base.{
  ℕ, suc, ◌+◌, ◌^◌, ◌<◌, ◌≡◌, ◌≢◌, sym, refl, arith, Bool, true, false, ltb, ◌||◌, some, List, [],
  ◌∷◌, length, Reader, bytes_at, offset_by, get_elem?, ◌==◌, if◌then◌else◌, ap, ◌∙◌, Bool-cases,
  inl, inr,
}
use mathlib.Core.Path.{subst}
use illinix_operating_system.Base.Text.{codes}
use illinix_operating_system.Screen.Texts.{Spells}
use illinix_operating_system.Pcb.{Pcb}
use illinix_operating_system.Calls.{Devices}
use illinix_operating_system.Calls.Transfer.{HasOutput}
use illinix_operating_system.Programs.{gives}
use illinix_operating_system.Programs.Actions.Output.{shows, is_literal, tell_lem, fdputs_lem}
use illinix_operating_system.Programs.Support.{is_same, ece391_strncmp}
use illinix_operating_system.Programs.Support.Comparing.{starts_with, strncmp-starts_with}
use illinix_operating_system.Programs.Grep.{Search, show_line, search_line}

-- The text occurs in the line.
unfoldable pub occurs : List ℕ → List ℕ → Bool
occurs ps [] = false
occurs ps (c ∷ cs) = starts_with ps (c ∷ cs) || occurs ps cs

-- The devices after a line is shown behind the name of its file.
abbrev pub shows_line : List ℕ → List ℕ → Devices → Devices
shows_line name cs d = shows (codes "\n") (shows cs (shows (codes ":") (shows name d)))

pub Spells-offset_by :
    (r : Reader) (k i : ℕ) (cs : List ℕ) → Spells r (k + i) cs → Spells (offset_by r k) i cs
Spells-offset_by r k i [] h = h
Spells-offset_by r k i (c ∷ cs) (at, ne, h) =
    let e : k + i + 1 ≡ k + (i + 1) = omega arith in
    (at, ne, Spells-offset_by r k (i + 1) cs (subst (λ n. Spells r n cs) e h))

starts_otherwise :
    (q c : ℕ) (qs rest : List ℕ) → (q == c) ≡ false → starts_with (q ∷ qs) (c ∷ rest) ≡ false
unfolding starts_with
starts_otherwise q c qs rest h = let other : (c == q) ≡ false = ground arith in rw other refl

-- What is searched for, and in which file. The text begins with a byte below 128.
pub record IsSearch (e : Search) (ps name : List ℕ) : Type 0 where
  pub text : Spells e.s 0 ps
  pub size : e.s_len ≡ length ps
  pub some_text : 0 < length ps
  pub signed : (c : ℕ) → get_elem? ps 0 ≡ some c → c < 128
  pub file : Spells e.fname 0 name
  pub short : length name < 2 ^ 31

module _ (e : Search) (ps name : List ℕ) (is : IsSearch e ps name) (buf cs : List ℕ)
    (line_start : ℕ) (line : Spells (bytes_at buf) line_start cs) (small : length cs < 2 ^ 31)
    (p : Pcb) (o : HasOutput p) where
  from_start :
      (k : ℕ) (xs : List ℕ) → Spells (bytes_at buf) k xs → Spells (offset_by (bytes_at buf) k) 0 xs
  from_start k xs h =
      let at : k ≡ k + 0 = omega arith in
      Spells-offset_by (bytes_at buf) k 0 xs (subst (λ n. Spells (bytes_at buf) n xs) at h)

  show_line_lem : (d : Devices) → show_line e buf line_start p d ≡ gives tt p (shows_line name cs d)
  unfolding show_line is_literal
  show_line_lem d =
      let w = e.surroundings in
      let d1 = shows name d in
      let d2 = shows (codes ":") d1 in
      let d3 = shows cs d2 in
      rw
        (
          fdputs_lem w p d e.fname name o is.file is.short,
          tell_lem w ":" p d1 o refl,
          fdputs_lem w p d2 (offset_by (bytes_at buf) line_start) cs o
              (from_start line_start cs line) small,
          tell_lem w "\n" p d3 o refl,
        )
        refl

  search_step :
      (c : ℕ) (rest : List ℕ) (check : ℕ) (d : Devices) (qs : List ℕ)
      → qs ≡ ps
      → get_elem? buf check ≡ some c
      → c ≢ 0
      → Spells (bytes_at buf) (check + 1) rest
      → search_line (length rest) e buf line_start (check + 1) p d
        ≡ gives tt p (if occurs ps rest then shows_line name cs d else d)
      → search_line (suc (length rest)) e buf line_start check p d
        ≡ gives tt p (if occurs ps (c ∷ rest) then shows_line name cs d else d)
  unfolding search_line occurs
  search_step c rest check d [] same at ne h later =
      let z : 0 ≡ length ps = ap length same in absurd (omega (arith, is.some_text))
  search_step c rest check d (q ∷ qs) same at ne h later =
      let first : e.s 0 ≡ some q = (subst (λ xs. Spells e.s 0 xs) (sym same) is.text).0 in
      let (z, eq, says) =
        strncmp-starts_with (offset_by (bytes_at buf) check) e.s (c ∷ rest) ps
          (from_start check (c ∷ rest) (at, ne, h)) is.text is.some_text in
      let compared = ap (ece391_strncmp (offset_by (bytes_at buf) check) e.s) is.size ∙ eq in
      let positive : ltb q 128 ≡ true =
        ground (arith, is.signed q (ap (λ xs. get_elem? xs 0) (sym same))) in
      elim (Bool-cases (q == c)) [
        | inl alike ↦ elim (Bool-cases (is_same z)) [
          | inl found ↦
              rw (first, at, positive, alike, compared, found, show_line_lem d, sym says ∙ found)
                refl
          | inr other ↦ rw (first, at, positive, alike, compared, other, sym says ∙ other) later
        ]
        | inr differs ↦
            let no : starts_with ps (c ∷ rest) ≡ false =
              ap (λ xs. starts_with xs (c ∷ rest)) (sym same)
              ∙ starts_otherwise q c qs rest differs in
            rw (first, at, positive, differs, no) later
      ]

  -- From any place on, the line is shown exactly when the text occurs from there on.
  pub search_line_lem :
      (rest : List ℕ) (check : ℕ) (d : Devices)
      → Spells (bytes_at buf) check rest
      → search_line (length rest) e buf line_start check p d
        ≡ gives tt p (if occurs ps rest then shows_line name cs d else d)
  unfolding search_line occurs
  search_line_lem [] check d h = refl
  search_line_lem (c ∷ rest) check d (at, ne, h) =
      search_step c rest check d ps refl at ne h (search_line_lem rest (check + 1) d h)
