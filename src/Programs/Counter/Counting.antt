-- ===== src/Programs/Counter/Counting.antt =====
-- What the counter shows.
use Prim.Native.String.{String}
use illinix_operating_system.Base.{
  ℕ, zero, suc, ◌+◌, ◌^◌, ◌≤◌, ◌<◌, ◌≡◌, ◌≢◌, refl, arith, List, [], ◌∷◌, length, Reader, bytes_at,
  ap, ◌∙◌, sym,
}
use mathlib.Core.Path.{subst}
use illinix_operating_system.Base.Text.{codes}
use illinix_operating_system.Strings.Numerals.{itoa_kept}
use illinix_operating_system.Strings.Length.{strlen_lem}
use illinix_operating_system.Screen.{Screen}
use illinix_operating_system.Screen.Texts.{show_all, IsString-spelled}
use illinix_operating_system.Printf.Formats.{IsDigits}
use illinix_operating_system.Pcb.{Pcb}
use illinix_operating_system.Calls.{Devices, Surroundings}
use illinix_operating_system.Calls.Transfer.{HasOutput}
use illinix_operating_system.Programs.{gives}
use illinix_operating_system.Programs.Actions.Output.{
  no_zero, is_literal, tell_lem, fdputs_lem, show_texts, shows, Spells-IsString,
}
use illinix_operating_system.Programs.Actions.Input.{HasInput, HasLine, read_line, terminate_line}
use illinix_operating_system.Programs.Support.Numbers.{ece391_itoa_lem}
use illinix_operating_system.Programs.Counter.{counter_loop, max_of, counter}

-- The second screen is the first with the numbers above `i` up to `max`, each in decimal digits
-- on a line of its own.
pub data Counts (max : ℕ) : ℕ → Screen → Screen → Type 0 where
  counted : {s : Screen} → Counts max max s s
  counts :
      {i : ℕ} {s s' : Screen} (digits : List ℕ)
      → IsDigits (i + 1) 10 digits
      → Counts max (i + 1) (show_all (codes "\n") (show_all digits s)) s'
      → Counts max i s s'

counter_loop_lem :
    (left max : ℕ) (w : Surroundings) (i : ℕ) (buf : List ℕ) (p : Pcb) (d : Devices)
    → HasOutput p
    → i + left ≡ max
    → max < 2 ^ 31
    → 33 ≤ length buf
    → (d' : Devices) × (counter_loop left w i buf p d ≡ gives 0 p d')
      × Counts max i d.terminal.screen d'.terminal.screen
unfolding counter_loop is_literal
counter_loop_lem zero max w i buf p d o e small room =
    let at : i ≡ max = omega arith in
    (d, refl, subst (λ k. Counts max k d.terminal.screen d.terminal.screen) (sym at) counted)
counter_loop_lem (suc left) max w i buf p d o e small room =
    let (out, made, n, same) =
      itoa_kept (i + 1) 10 buf (omega arith) (omega arith) (omega arith) room in
    let (ds, len, spelled) = IsString-spelled (bytes_at out) n.size n.string in
    let d1 = shows ds d in
    let d2 = shows (codes "\n") d1 in
    let (d', rest, c) =
      counter_loop_lem left max w (i + 1) out p d2 o (omega arith) small (omega (arith, same)) in
    (
      d',
      rw
          (
            ece391_itoa_lem (i + 1) buf 10,
            made,
            fdputs_lem w p d (bytes_at out) ds o spelled (omega (arith, len, n.size_le)),
            tell_lem w "\n" p d1 o refl,
            rest,
          )
          refl,
      counts ds (record { buffer = out; numeral = n; spells = spelled }) c,
    )

-- The choices, and how far they count.
pub data IsChoice : ℕ → ℕ → Type 0 where
  hundred : IsChoice b'0' 100
  ten_thousand : IsChoice b'1' 10000
  hundred_thousand : IsChoice b'2' 100000

choice-max : {c max : ℕ} → IsChoice c max → (max_of c ≡ max) × (c ≢ 0) × (max < 2 ^ 31)
unfolding max_of
choice-max hundred = (refl, omega arith, omega arith)
choice-max ten_thousand = (refl, omega arith, omega arith)
choice-max hundred_thousand = (refl, omega arith, omega arith)

-- With the terminal on descriptors 0 and 1, a buffer of 1024 bytes and a line typed of the one
-- character 0, 1 or 2, the counter ends with status 0, and shows the question and then, in order
-- and each in decimal digits on a line of its own, the numbers from 1 to 100, 10000 or 100000.
pub counter_lem :
    (disk : Reader) (w : Surroundings) (p : Pcb) (d : Devices) (buf : List ℕ) (c max : ℕ)
    → HasInput p
    → HasOutput p
    → HasLine d (c ∷ [])
    → IsChoice c max
    → length buf ≡ 1024
    → (d' : Devices) × (counter disk w buf p d ≡ gives 0 p d')
      × Counts max 0
          (show_texts
            ("Enter the Test Number: (0): 100, (1): 10000, (2): 100000\n" ∷ [])
            d.terminal.screen)
          d'.terminal.screen
unfolding counter is_literal no_zero
counter_lem disk w p d buf c max i o l choice size =
    let question : String = "Enter the Test Number: (0): 100, (1): 10000, (2): 100000\n" in
    let (limit, no_end, small) = choice-max choice in
    let d0 = shows (codes question) d in
    let l0 : HasLine d0 (c ∷ []) = record {
      pressed = l.pressed;
      typed = l.typed;
      some_line = l.some_line;
    } in
    let (out, t, asked, k) =
      read_line disk w p d0 buf (c ∷ []) 1023 i l0 (omega arith) (omega arith)
        (omega (arith, size)) in
    let (named, ended, spells, same) =
      terminate_line d0 buf (c ∷ []) out t k (ground (arith, no_end)) (omega (arith, size)) in
    let d1 = record d0 { terminal = t } in
    let len =
      strlen_lem (bytes_at named) 1 (Spells-IsString (bytes_at named) (c ∷ []) spells)
        (omega arith) in
    let (d', done, numbers) =
      counter_loop_lem max max w 0 named p d1 o (omega arith) small (omega (arith, same, size)) in
    let finishes = ap (λ m. counter_loop m w 0 named p d1) limit ∙ done in
    (
      d',
      rw (tell_lem w question p d o refl, asked, ended, len, spells.0, finishes) refl,
      subst (λ s. Counts max 0 s d'.terminal.screen) k.same_screen numbers,
    )
