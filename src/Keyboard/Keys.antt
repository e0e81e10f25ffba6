-- ===== src/Keyboard/Keys.antt =====
-- What the keys do.
use mathlib.Core.Bool.{xor}
use illinix_operating_system.Base.{
  ℕ, ◌-◌, not, ap, ◌∙◌, ◌≤◌, ◌<◌, ◌≡◌, inl, inr, Bool, true, false, ◌&&◌, ◌||◌, Option, none, some,
  ltb, leb, ◌==◌, if◌then◌else◌, ◌>>=◌, get_elem?, arith, refl, Bool-cases, Option-cases,
}
use illinix_operating_system.Base.Table.{holds_below, holds_below-at}
use illinix_operating_system.Keyboard.{
  char_map, char_map_caps, Modifiers, Action, type_char, typed, kb_interrupt_do,
}

both_maps : ℕ → Bool
both_maps i = elim (get_elem? char_map i) [
  | none ↦ false
  | some a ↦ elim (get_elem? char_map_caps i) [ none ↦ false | some b ↦ true ]
]

maps_table : holds_below 58 both_maps ≡ true
unfolding holds_below both_maps char_map char_map_caps
maps_table = refl

maps_hold :
    (i : ℕ)
    → i < 58
    → (a b : ℕ) × (get_elem? char_map i ≡ some a) × (get_elem? char_map_caps i ≡ some b)
unfolding both_maps
maps_hold i h =
    let row = holds_below-at both_maps i 58 h maps_table in
    elim (Option-cases (get_elem? char_map i)) [
      | inl e ↦ absurd (ground (arith, row, e))
      | inr (a, ea) ↦ elim (Option-cases (get_elem? char_map_caps i)) [
        | inl e ↦ absurd (ground (arith, row, ea, e))
        | inr (b, eb) ↦ (a, b, ea, eb)
      ]
    ]

typed_total : (i : ℕ) (m : Modifiers) → i < 58 → (a : Action) × (typed i m ≡ some a)
unfolding typed
typed_total i m h =
    let (a, b, ea, eb) = maps_hold i h in
    let letter = leb a b'z' && leb b'a' a in
    let upper = if letter then xor m.shift_pressed m.caps_enabled else m.shift_pressed in
    (type_char (if upper then b else a), rw (ea, eb, ◌>>=◌) refl)

is_some : {A : Type 0} → Option A → Bool
is_some none = false
is_some (some a) = true

kb_interrupt_small :
    (input : ℕ) (m : Modifiers) (a : Action)
    → typed input m ≡ some a
    → is_some (kb_interrupt_do input m) ≡ true
unfolding kb_interrupt_do is_some
kb_interrupt_small input m a e = rw (e, ◌>>=◌) (ground arith)

kb_interrupt_large :
    (input : ℕ) (m : Modifiers) → 58 ≤ input → is_some (kb_interrupt_do input m) ≡ true
unfolding kb_interrupt_do is_some
kb_interrupt_large input m h = ground arith

is_some_lem : {A : Type 0} (o : Option A) → is_some o ≡ true → (a : A) × (o ≡ some a)
unfolding is_some
is_some_lem none h = absurd (ground arith)
is_some_lem (some a) h = (a, refl)

-- The handler never reads outside the two maps of 58 characters, whatever the scan code and the
-- modifiers.
pub kb_interrupt_total :
    (input : ℕ) (m : Modifiers) → (r : Action × Modifiers) × (kb_interrupt_do input m ≡ some r)
kb_interrupt_total input m =
    is_some_lem (kb_interrupt_do input m) (elim (Bool-cases (ltb input 58)) [
      | inl h ↦ let (a, e) = typed_total input m (ground arith) in kb_interrupt_small input m a e
      | inr h ↦ kb_interrupt_large input m (ground arith)
    ])

typed_lem :
    (input : ℕ) (m : Modifiers) (plain shifted : ℕ)
    → get_elem? char_map input ≡ some plain
    → get_elem? char_map_caps input ≡ some shifted
    → let letter = leb plain b'z' && leb b'a' plain in
      let upper = if letter then xor m.shift_pressed m.caps_enabled else m.shift_pressed in
      typed input m ≡ some (type_char (if upper then shifted else plain))
unfolding typed
typed_lem input m plain shifted ep es = rw (ep, es, ◌>>=◌) refl

-- The small letters.
abbrev pub is_letter : ℕ → Bool
is_letter c = leb c b'z' && leb b'a' c

-- The keys that the handler treats before it looks at the maps.
is_special : ℕ → Bool
is_special input =
    input == 42
    || input == 54
    || input == 0x38
    || input == 0x36
    || input == 0x1d
    || input == 0xe0
    || input == 0x1c
    || input == 0x3a
    || input == 0x0e

kb_interrupt_typed :
    (input : ℕ) (m : Modifiers) (a : Action)
    → input < 58
    → is_special input ≡ false
    → (m.alt_pressed || m.ctrl_pressed || m.meta_pressed) ≡ false
    → typed input m ≡ some a
    → kb_interrupt_do input m ≡ some (a, m)
unfolding kb_interrupt_do is_special
kb_interrupt_typed input m a h keys mods e = rw (e, ◌>>=◌) (ground arith)

-- The key of a letter is none of these, and has its capital in the second map.
has_capital : ℕ → Bool
has_capital i = elim (get_elem? char_map i) [
  | none ↦ false
  | some a ↦ elim (get_elem? char_map_caps i) [
    | none ↦ false
    | some b ↦ not (is_letter a) || (not (is_special i) && b == a - 32)
  ]
]

capitals_table : holds_below 58 has_capital ≡ true
unfolding holds_below has_capital is_special char_map char_map_caps
capitals_table = refl

capital_lem :
    (i c : ℕ)
    → i < 58
    → get_elem? char_map i ≡ some c
    → is_letter c ≡ true
    → (is_special i ≡ false) × (get_elem? char_map_caps i ≡ some (c - 32))
unfolding has_capital
capital_lem i c h e letter =
    let row = holds_below-at has_capital i 58 h capitals_table in
    elim (Option-cases (get_elem? char_map_caps i)) [
      | inl bad ↦ absurd (ground (arith, row, e, bad))
      | inr (b, eb) ↦ (ground (arith, row, e, eb, letter), ground (arith, row, e, eb, letter))
    ]

-- The key of a letter types, with no Alt, Ctrl or Meta held, the small letter, or its capital, 32
-- below it, when exactly one of Shift and Caps Lock is on.
pub kb_interrupt_types :
    (input : ℕ) (m : Modifiers) (c : ℕ)
    → input < 58
    → get_elem? char_map input ≡ some c
    → is_letter c ≡ true
    → (m.alt_pressed || m.ctrl_pressed || m.meta_pressed) ≡ false
    → kb_interrupt_do input m
      ≡ some (type_char (if xor m.shift_pressed m.caps_enabled then c - 32 else c), m)
kb_interrupt_types input m c h e letter mods =
    let (plain, capital) = capital_lem input c h e letter in
    kb_interrupt_typed input m _ h plain mods (
      typed_lem input m c (c - 32) e capital
      ∙ ap (λ u. some (type_char (if u then c - 32 else c)))
          (ap (λ l. if l then xor m.shift_pressed m.caps_enabled else m.shift_pressed) letter))
