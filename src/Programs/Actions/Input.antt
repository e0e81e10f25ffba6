-- ===== src/Programs/Actions/Input.antt =====
-- What a program reads from the terminal.
use illinix_operating_system.Base.{
  ℕ, zero, suc, ◌+◌, ◌^◌, ◌≤◌, ◌<◌, ◌≡◌, refl, arith, true, some, List, [], ◌∷◌, length, Reader,
  bytes_at, get_elem?, ap, ◌∙◌, sym, min, store, store_lem, set, length-set, get_elem?-set_self,
  get_elem?-set_ne,
}
use illinix_operating_system.Terminal.{Terminal, line_length}
use illinix_operating_system.Terminal.Input.{terminal_read_lem}
use illinix_operating_system.Terminal.Line.{line, line_from}
use illinix_operating_system.Screen.Texts.{Spells}
use illinix_operating_system.Pcb.{Pcb, terminal_input}
use illinix_operating_system.Calls.{Devices, Surroundings, read, call_returns}
use illinix_operating_system.Programs.{gives}
use illinix_operating_system.Programs.Actions.{ece391_read, outcome_of_read}
use illinix_operating_system.Programs.Actions.Output.{no_zero}

-- A line with these characters is typed on the terminal.
pub record HasLine (d : Devices) (cs : List ℕ) : Type 0 where
  pub pressed : d.terminal.enter_status ≡ true
  pub typed : line d.terminal d.terminal.active_tty ≡ cs
  pub some_line : 0 < length cs

-- Descriptor 0 is the keyboard.
pub record HasInput (p : Pcb) : Type 0 where
  pub used : (p.fd_array 0).flags ≡ 1
  pub operations : (p.fd_array 0).file_operations ≡ terminal_input

length-line_from : (b : ℕ → ℕ) (t i n : ℕ) → length (line_from b t i n) ≡ n
length-line_from b t i zero = refl
length-line_from b t i (suc n) = ap suc (length-line_from b t (i + 1) n)

-- What the read leaves in the buffer and on the terminal.
pub record IsTaken (d : Devices) (buf cs out : List ℕ) (t : Terminal) : Type 0 where
  pub same_length : length out ≡ length buf
  pub text : (j : ℕ) → j < length cs → get_elem? out j ≡ get_elem? cs j
  pub same_screen : t.screen ≡ d.terminal.screen

-- `ece391_read` on descriptor 0 takes the line.
pub read_line :
    (disk : Reader) (w : Surroundings) (p : Pcb) (d : Devices) (buf cs : List ℕ) (nbytes : ℕ)
    → HasInput p
    → HasLine d cs
    → length cs ≤ nbytes
    → nbytes < 2 ^ 31
    → nbytes < length buf
    → (out : List ℕ) × (t : Terminal) × (ece391_read disk w 0 buf nbytes p d
        ≡ gives (length cs, out) p (record d { terminal = t }))
      × IsTaken d buf cs out t
unfolding ece391_read read
read_line disk w p d buf cs nbytes i l fits positive room =
    let u = d.terminal.active_tty in
    let size : line_length (d.terminal.tail u) ≡ length cs =
      sym (length-line_from d.terminal.terminal_buffer u 0 (line_length (d.terminal.tail u)))
      ∙ ap length l.typed in
    let n = min nbytes (line_length (d.terminal.tail u)) in
    let all : n ≡ length cs = omega (arith, size) in
    let (out, t, eq, r) =
      terminal_read_lem d.terminal buf nbytes positive l.pressed (omega (arith, size, l.some_line))
        (omega (arith, room)) in
    (
      out,
      t,
      rw (i.used, i.operations, eq)
          (ap (λ k. outcome_of_read (call_returns k out p (record d { terminal = t }))) all),
      record {
        same_length = r.same_length;
        text = λ j h. r.text j (omega (arith, all, h)) ∙ ap (λ xs. get_elem? xs j) l.typed;
        same_screen = r.same_screen;
      },
    )

Spells-of :
    (s : Reader) (i : ℕ) (cs : List ℕ)
    → no_zero cs ≡ true
    → ((j : ℕ) → j < length cs → s (i + j) ≡ get_elem? cs j)
    → s (i + length cs) ≡ some 0
    → Spells s i cs
unfolding no_zero
Spells-of s i [] z h e = let at : i ≡ i + 0 = omega arith in ap s at ∙ e
Spells-of s i (c ∷ cs) z h e =
    let at : i ≡ i + 0 = omega arith in
    (
      ap s at ∙ h 0 (omega arith),
      ground (arith, z),
      Spells-of s (i + 1) cs (ground (arith, z))
          (λ j l. let k : i + 1 + j ≡ i + suc j = omega arith in ap s k ∙ h (suc j) (omega arith))
          (let k : i + 1 + length cs ≡ i + suc (length cs) = omega arith in ap s k ∙ e),
    )

-- With a 0 byte behind it, the buffer holds the line as a string.
pub terminate_line :
    (d : Devices) (buf cs out : List ℕ) (t : Terminal)
    → IsTaken d buf cs out t
    → no_zero cs ≡ true
    → length cs < length buf
    → (named : List ℕ) × (store out (length cs) 0 ≡ some named)
      × Spells (bytes_at named) 0 cs
      × (length named ≡ length buf)
terminate_line d buf cs out t k z l =
    let n = length cs in
    let room : n < length out = omega (arith, k.same_length) in
    (
      set out n 0,
      store_lem out n 0 room,
      Spells-of (bytes_at (set out n 0)) 0 cs z
          (λ j h.
            let at : 0 + j ≡ j = omega arith in
            ap (bytes_at (set out n 0)) at
            ∙ get_elem?-set_ne {0} out {i = n} {j = j} 0 (omega arith)
            ∙ k.text j h)
          (let at : 0 + n ≡ n = omega arith in
            ap (bytes_at (set out n 0)) at ∙ get_elem?-set_self {0} out n 0 room),
      length-set {0} out n 0 ∙ k.same_length,
    )
