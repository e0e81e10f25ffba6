-- ===== src/Keyboard.antt =====
-- The keyboard interrupt of student-distrib/idt.c: which character or action a scan code stands
-- for. The terminal and the screen are those of `Terminal`.
pub mod Keys
use illinix_operating_system.Base.{
  ℕ, zero, suc, ◌+◌, ◌-◌, Bool, true, false, not, ◌&&◌, ◌||◌, Option, none, some, List, [], ◌∷◌,
  ltb, leb, ◌==◌, if◌then◌else◌, ◌>>=◌, get_elem?, map,
}
use mathlib.Core.Bool.{xor}
use illinix_operating_system.Base.Text.{codes}

-- `char_map` and `char_map_caps`, of 58 characters each.
unfoldable pub char_map : List ℕ
char_map = codes "??1234567890-=? qwertyuiop[]\n?asdfghjkl;'`?\\zxcvbnm,./??? "

unfoldable pub char_map_caps : List ℕ
char_map_caps = codes "??!@#$%^&*()_+? QWERTYUIOP{}\n?ASDFGHJKL:\"~?|ZXCVBNM,.???? "

-- The modifiers; a key that is held is `true`.
pub record Modifiers : Type 0 where
  pub caps_enabled : Bool
  pub shift_pressed : Bool
  pub ctrl_pressed : Bool
  pub alt_pressed : Bool
  pub meta_pressed : Bool
  pub enter_pressed : Bool

-- What the handler does besides: `type_char` is `terminal_write(0, &character, 1)`. Every path
-- ends with `send_eoi(1)`, and a switch sends another before it.
pub data Action : Type 0 where
  nothing : Action
  type_char : ℕ → Action
  clear_screen : Action
  switch_tty : ℕ → Action
  clear_and_switch : ℕ → Action

abbrev pub any_released : ℕ → Bool
any_released input = leb 0x81 input && leb input 0xd8

release : ℕ → Modifiers → Modifiers
release input m =
    let m1 = if input == 0x9d then record m { ctrl_pressed = false } else m in
    let m2 = if input == 0xaa || input == 0xb6 then record m1 { shift_pressed = false } else m1 in
    if input == 0xb8 then record m2 { alt_pressed = false } else m2

-- With Alt, Ctrl or Meta held.
command : ℕ → Modifiers → Action
command input m =
    let cleared = m.ctrl_pressed && input == 0x26 in
    let switched = leb input 61 && leb 59 input && m.alt_pressed in
    if switched
    then (if cleared then clear_and_switch (input - 59) else switch_tty (input - 59))
    else (if cleared then clear_screen else nothing)

-- The last branch, where `input` is an index of the maps; `none` is a read outside of them.
typed : ℕ → Modifiers → Option Action
typed input m = do
  plain ← get_elem? char_map input
  shifted ← get_elem? char_map_caps input
  let letter = leb plain b'z' && leb b'a' plain
  let upper = (if letter then xor m.shift_pressed m.caps_enabled else m.shift_pressed)
  some (type_char (if upper then shifted else plain))

-- `kb_interrupt_do` on the scan code that `inb(0x60)` read.
unfoldable pub kb_interrupt_do : ℕ → Modifiers → Option (Action × Modifiers)
unfolding release command typed
kb_interrupt_do input m =
    let later = typed input m >>= λ a. some (a, m) in
    if any_released input
    then some (nothing, release input m)
    else if input == 42 || input == 54
    then some (nothing, record m { shift_pressed = true })
    else if input == 0x38 || input == 0x36
    then some (nothing, record m { alt_pressed = true })
    else if input == 0x1d || input == 0xe0
    then some (nothing, record m { ctrl_pressed = true })
    else if input == 0x1c
    then some (type_char b'\n', record m { enter_pressed = true })
    else if input == 0x3a
    then some (nothing, record m { caps_enabled = not m.caps_enabled })
    else if input == 0x0e
    then some (type_char 8, m)
    else if m.alt_pressed || m.ctrl_pressed || m.meta_pressed
    then some (command input m, m)
    else if ltb 58 input
    then some (nothing, m)
    else later
