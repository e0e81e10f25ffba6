-- ===== src/Programs/Shell/Rounds.antt =====
-- A round of the shell, and its end.
use Prim.Native.String.{String}
use illinix_operating_system.Base.{
  ℕ, suc, ◌<◌, ◌≡◌, refl, arith, true, false, List, [], ◌∷◌, length, Reader, bytes_at, ◌==◌,
  minus_one, ◌∙◌,
}
use illinix_operating_system.Base.Text.{codes}
use illinix_operating_system.Screen.Texts.{Spells}
use illinix_operating_system.Pcb.{Pcb}
use illinix_operating_system.Calls.{Devices, Surroundings}
use illinix_operating_system.Calls.Transfer.{HasOutput}
use illinix_operating_system.Programs.{gives}
use illinix_operating_system.Programs.Actions.{Action, ◌>>=◌, pure}
use illinix_operating_system.Programs.Actions.Output.{
  no_zero, is_literal, tell_lem, show_texts, shows, shows_texts,
}
use illinix_operating_system.Programs.Actions.Input.{HasInput, HasLine, read_line, terminate_line}
use illinix_operating_system.Programs.Shell.Commands.{EndsPlain, without_newline_lem, run_exit}
use illinix_operating_system.Programs.Shell.{run_command, shell_round, shell_loop, shell}
use illinix_operating_system.Processes.{Processes, execute}

-- What the terminal, the program and the line must be like for a round of the shell.
pub record IsPrompted (p : Pcb) (d : Devices) (buf cs : List ℕ) : Type 0 where
  pub input : HasInput p
  pub output : HasOutput p
  pub typed : HasLine d cs
  pub no_end : no_zero cs ≡ true
  pub plain : EndsPlain cs
  pub short : length cs < 1024
  pub size : length buf ≡ 1024

abbrev prompt : List String
prompt = "391OS> " ∷ []

-- A round prompts, takes the line and runs it as a command.
round_lem :
    (disk : Reader) (w : Surroundings) (execute : Reader → Action ℕ) (p : Pcb) (d : Devices)
    (buf cs : List ℕ)
    → IsPrompted p d buf cs
    → (command : List ℕ) × (d1 : Devices) × (shell_round disk w execute buf p d
        ≡ (run_command w execute command >>= λ status. pure (status, command)) p d1)
      × Spells (bytes_at command) 0 cs
      × (length command ≡ 1024)
      × (d1.terminal.screen ≡ show_texts prompt d.terminal.screen)
unfolding shell_round is_literal
round_lem disk w execute p d buf cs i =
    let d0 = shows_texts prompt d in
    let line0 : HasLine d0 cs = record {
      pressed = i.typed.pressed;
      typed = i.typed.typed;
      some_line = i.typed.some_line;
    } in
    let (out, t, asked, k) =
      read_line disk w p d0 buf cs 1023 i.input line0 (omega (arith, i.short)) (omega arith)
        (omega (arith, i.size)) in
    let (command, ended, spells, same) =
      terminate_line d0 buf cs out t k i.no_end (omega (arith, i.short, i.size)) in
    let d1 = record d0 { terminal = t } in
    let stripped = without_newline_lem out cs (length cs) p d1 k.text i.plain refl in
    let good : (length cs == minus_one) ≡ false = ground (arith, i.short) in
    (
      command,
      d1,
      rw (tell_lem w "391OS> " p d i.output refl, asked, good, stripped, ended) refl,
      spells,
      same ∙ i.size,
      k.same_screen,
    )

-- With the terminal on descriptors 0 and 1, a buffer of 1024 bytes and the line "exit" typed, the
-- shell ends with status 0, whatever `execute` does, and the screen shows the start line and one
-- prompt. One round is enough.
pub shell_exit :
    (fuel : ℕ) (disk : Reader) (w : Surroundings) (execute : Reader → Action ℕ) (p : Pcb)
    (d : Devices) (buf : List ℕ)
    → IsPrompted p d buf (codes "exit")
    → (d' : Devices) × (shell (suc fuel) disk w execute buf p d ≡ gives 0 p d')
      × (d'.terminal.screen
          ≡ show_texts ("Starting 391 Shell\n" ∷ "391OS> " ∷ []) d.terminal.screen)
unfolding shell shell_loop is_literal
shell_exit fuel disk w execute p d buf i =
    let d0 = shows (codes "Starting 391 Shell\n") d in
    let ready : IsPrompted p d0 buf (codes "exit") = record {
      input = i.input;
      output = i.output;
      typed = record {
        pressed = i.typed.pressed;
        typed = i.typed.typed;
        some_line = i.typed.some_line;
      };
      no_end = i.no_end;
      plain = i.plain;
      short = i.short;
      size = i.size;
    } in
    let (command, d1, round, spells, size, screen) =
      round_lem disk w execute p d0 buf (codes "exit") ready in
    (
      d1,
      rw
          (
            tell_lem w "Starting 391 Shell\n" p d i.output refl,
            round,
            run_exit w execute p d1 command spells,
          )
          refl,
      screen,
    )
