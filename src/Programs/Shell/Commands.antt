-- ===== src/Programs/Shell/Commands.antt =====
-- What the shell does with one command.
use Prim.Native.String.{String}
use illinix_operating_system.Base.{
  ℕ, zero, suc, ◌<◌, ◌≡◌, ◌≢◌, refl, arith, false, none, some, List, [], ◌∷◌, length, Reader,
  bytes_at, get_elem?, ◌==◌, not, if◌then◌else◌, minus_one, Bool-cases, inl, inr,
}
use illinix_operating_system.Base.Int.{pos}
use illinix_operating_system.Base.Text.{text, codes}
use illinix_operating_system.Screen.Texts.{Spells}
use illinix_operating_system.Strings.Reverse.{some_of_lt-length}
use illinix_operating_system.Pcb.{Pcb}
use illinix_operating_system.Calls.{Devices, Surroundings}
use illinix_operating_system.Calls.Transfer.{HasOutput}
use illinix_operating_system.Programs.{gives}
use illinix_operating_system.Programs.Actions.{Action}
use illinix_operating_system.Programs.Actions.Output.{
  no_zero, is_literal, tell_lem, Spells-codes, shows_texts,
}
use illinix_operating_system.Programs.Support.Comparing.{ece391_strcmp_lem, is_same_lem}
use illinix_operating_system.Programs.Support.{is_same}
use illinix_operating_system.Programs.Shell.{without_newline, tell_status, run_command}

-- The line does not end with a newline: the terminal does not pass it on.
abbrev pub EndsPlain : List ℕ → Type 0
EndsPlain cs = (n c : ℕ) → suc n ≡ length cs → get_elem? cs n ≡ some c → c ≢ b'\n'

-- What the shell says about a status.
unfoldable pub status_text : ℕ → List String
status_text r =
    if r == minus_one
    then "no such command\n" ∷ []
    else if r == 256
    then "program terminated by exception\n" ∷ []
    else if not (r == 0)
    then "program terminated abnormally\n" ∷ []
    else []

tell_status_lem :
    (w : Surroundings) (r : ℕ) (p : Pcb) (d : Devices)
    → HasOutput p
    → tell_status w r p d ≡ gives tt p (shows_texts (status_text r) d)
unfolding tell_status status_text is_literal
tell_status_lem w r p d o = elim (Bool-cases (r == minus_one)) [
  | inl missing ↦ rw (missing, tell_lem w "no such command\n" p d o refl) refl
  | inr found ↦ elim (Bool-cases (r == 256)) [
    | inl exception ↦
        rw (found, exception, tell_lem w "program terminated by exception\n" p d o refl) refl
    | inr ended ↦ elim (Bool-cases (r == 0)) [
      | inl good ↦ rw (found, ended, good) refl
      | inr bad ↦
          rw (found, ended, bad, tell_lem w "program terminated abnormally\n" p d o refl) refl
    ]
  ]
]

pub without_newline_lem :
    (out cs : List ℕ) (m : ℕ) (p : Pcb) (d : Devices)
    → ((j : ℕ) → j < length cs → get_elem? out j ≡ get_elem? cs j)
    → EndsPlain cs
    → m ≡ length cs
    → without_newline out m p d ≡ gives m p d
unfolding without_newline
without_newline_lem out cs zero p d same plain e = refl
without_newline_lem out cs (suc n) p d same plain e =
    let (c, at) = some_of_lt-length cs n (omega arith) in
    let other : (c == b'\n') ≡ false = ground (arith, plain n c e at) in
    rw (same n (omega arith), at, other) refl

exit-Spells : Spells (text "exit") 0 (codes "exit")
unfolding no_zero
exit-Spells = Spells-codes (codes "exit") [] refl

module _ (w : Surroundings) (execute : Reader → Action ℕ) (p : Pcb) (d : Devices) where
  -- The command `exit` ends the shell.
  pub run_exit :
      (command : List ℕ)
      → Spells (bytes_at command) 0 (codes "exit")
      → run_command w execute command p d ≡ gives (some 0) p d
  unfolding run_command
  run_exit command h =
      let (z, eq, (to, from)) =
        ece391_strcmp_lem (bytes_at command) (text "exit") (codes "exit") (codes "exit") h
          exit-Spells (omega arith) in
      let zero_result : z ≡ pos 0 = from refl in rw (eq, zero_result, h.0) refl

  -- Any other is run.
  pub run_other :
      (command : List ℕ) (c : ℕ) (cs : List ℕ) (r : ℕ) (p' : Pcb) (d' : Devices)
      → Spells (bytes_at command) 0 (c ∷ cs)
      → length cs < 1023
      → (c ∷ cs) ≢ codes "exit"
      → execute (bytes_at command) p d ≡ gives r p' d'
      → HasOutput p'
      → run_command w execute command p d ≡ gives none p' (shows_texts (status_text r) d')
  unfolding run_command
  run_other command c cs r p' d' h short other runs o =
      let (z, eq, (to, from)) =
        ece391_strcmp_lem (bytes_at command) (text "exit") (c ∷ cs) (codes "exit") h exit-Spells
          (omega (arith, short)) in
      let no_exit : is_same z ≡ false = elim (Bool-cases (is_same z)) [
        | inl same ↦ absurd (other (to (is_same_lem z same)))
        | inr differs ↦ differs
      ] in
      let some_text : (c == 0) ≡ false = ground (arith, h.1) in
      rw (eq, no_exit, h.0, some_text, runs, tell_status_lem w r p' d' o) refl
