-- ===== src/Programs/Hello.antt =====
-- syscalls/ece391hello.c and syscalls/ece391testprint.c: two programs that print on the terminal.
use Prim.Native.String.{String}
use illinix_operating_system.Base.{
  ℕ, ◌<◌, ◌≡◌, refl, arith, true, false, List, [], ◌∷◌, length, Reader, bytes_at, store, ◌==◌,
  if◌then◌else◌, minus_one, ap,
}
use illinix_operating_system.Base.Text.{codes}
use illinix_operating_system.Screen.Texts.{show_all}
use illinix_operating_system.Pcb.{Pcb}
use illinix_operating_system.Calls.{Devices, Surroundings}
use illinix_operating_system.Calls.Transfer.{HasOutput}
use illinix_operating_system.Programs.{gives}
use illinix_operating_system.Programs.Actions.{
  Action, ◌>>=◌, pure, in_memory, tell, ece391_read, ece391_fdputs,
}
use illinix_operating_system.Programs.Actions.Output.{
  no_zero, is_literal, tell_lem, fdputs_lem, shows, show_texts, shows_texts,
}
use illinix_operating_system.Programs.Actions.Input.{HasInput, HasLine, read_line, terminate_line}

-- `main` of ece391testprint.c.
unfoldable pub testprint : Surroundings → Action ℕ
testprint w = do u ← tell w "Hello, if this ran, the program was correct. Yay!\n"; pure 0

-- `main` of ece391hello.c, with its array of 1024 bytes.
unfoldable pub hello : Reader → Surroundings → List ℕ → Action ℕ
hello disk w buf = do
  u ← tell w "Hi, what's your name? "
  (cnt, line) ← ece391_read disk w 0 buf 1023
  let failed = tell w "Can't read name from keyboard.\n" >>= λ v. pure 3
  let greets = (do
    named ← in_memory (store line cnt 0)
    v ← tell w "Hello, "
    v' ← ece391_fdputs w 1 (bytes_at named)
    pure 0)
  if cnt == minus_one then failed else greets

-- With the terminal on descriptors 0 and 1, a buffer of 1024 bytes and a line of fewer than 1024
-- characters typed, none of them 0, the program hello ends with status 0, and the screen shows
-- the question, the greeting and the line that was typed.
pub hello_lem :
    (disk : Reader) (w : Surroundings) (p : Pcb) (d : Devices) (buf name : List ℕ)
    → HasInput p
    → HasOutput p
    → HasLine d name
    → no_zero name ≡ true
    → length name < 1024
    → length buf ≡ 1024
    → (d' : Devices) × (hello disk w buf p d ≡ gives 0 p d')
      × (d'.terminal.screen
          ≡ show_all name
              (show_texts ("Hi, what's your name? " ∷ "Hello, " ∷ []) d.terminal.screen))
unfolding hello is_literal
hello_lem disk w p d buf name i o l z short size =
    let question : String = "Hi, what's your name? " in
    let d1 = shows (codes question) d in
    let l1 : HasLine d1 name = record {
      pressed = l.pressed;
      typed = l.typed;
      some_line = l.some_line;
    } in
    let (out, t, asked, k) =
      read_line disk w p d1 buf name 1023 i l1 (omega (arith, short)) (omega arith)
        (omega (arith, size)) in
    let (named, ended, spells, same) =
      terminate_line d1 buf name out t k z (omega (arith, short, size)) in
    let d2 = record d1 { terminal = t } in
    let d3 = shows_texts ("Hello, " ∷ []) d2 in
    let good : (length name == minus_one) ≡ false = ground (arith, short) in
    (
      shows name d3,
      rw
          (
            tell_lem w question p d o refl,
            asked,
            good,
            ended,
            tell_lem w "Hello, " p d2 o refl,
            fdputs_lem w p d3 (bytes_at named) name o spells (omega (arith, short)),
          )
          refl,
      ap (λ s. show_all name (show_texts ("Hello, " ∷ []) s)) k.same_screen,
    )
