-- ===== src/Terminal/Input.antt =====
-- Reading a line.
use illinix_operating_system.Base.{
  ℕ, zero, suc, ◌+◌, ◌-◌, ◌^◌, ◌≤◌, ◌<◌, ◌≡◌, ◌⊎◌, inl, inr, refl, some, arith, List, length,
  get_elem?, drop, set, store_lem, length-set, get_elem?-set_self, get_elem?-set_ne, ap, ◌∙◌, sym,
  ltb, ◌==◌, if◌then◌else◌, Bool-cases, true, false, min, ◌>>=◌, is_negative,
}
use illinix_operating_system.Base.Int.{ℤ, pos, negsuc, ◌-ℤ◌}
use illinix_operating_system.Terminal.{
  Terminal, buffer_at, line_length, copy_line, after_read, terminal_read, returns,
}
use illinix_operating_system.Terminal.Line.{
  line, line_from, line_from_ext, get_elem?-line_from, drop-line_from, shift_line_inside,
}

-- `out` is `dest` with the row's characters at `i ..< i + n`.
record IsCopied (b : ℕ → ℕ) (t i n : ℕ) (dest out : List ℕ) : Type 0 where
  same_length : length out ≡ length dest
  inside : (j : ℕ) → i ≤ j → j < i + n → get_elem? out j ≡ some (b (buffer_at t j))
  outside : (j : ℕ) → (j < i) ⊎ (i + n ≤ j) → get_elem? out j ≡ get_elem? dest j

copy_line_lem :
    (n : ℕ) (b : ℕ → ℕ) (t : ℕ) (dest : List ℕ) (i : ℕ)
    → i + n ≤ length dest
    → (out : List ℕ) × (copy_line n b t dest i ≡ some out) × IsCopied b t i n dest out
unfolding copy_line
copy_line_lem zero b t dest i h = (
  dest,
  refl,
  record { same_length = refl; inside = λ j p q. absurd (omega arith); outside = λ j p. refl },
)
copy_line_lem (suc n) b t dest i h =
    let c = b (buffer_at t i) in
    let (out, eq, p) =
      copy_line_lem n b t (set dest i c) (i + 1) (omega (arith, length-set {0} dest i c)) in
    (
      out,
      rw (store_lem dest i c (omega arith), ◌>>=◌) eq,
      record {
        same_length = p.same_length ∙ length-set {0} dest i c;
        inside = λ j q r. copied_inside c n b t i j dest out h p q r;
        outside = λ j q. ground (arith, p.outside j, get_elem?-set_ne {0} dest {i = i} {j = j} c);
      },
    )
  where
    copied_inside :
        (c n : ℕ) (b : ℕ → ℕ) (t i j : ℕ) (dest out : List ℕ)
        → i + suc n ≤ length dest
        → IsCopied b t (i + 1) n (set dest i (b (buffer_at t i))) out
        → i ≤ j
        → j < i + suc n
        → get_elem? out j ≡ some (b (buffer_at t j))
    copied_inside c n b t i j dest out h p q r = elim (Bool-cases (i == j)) [
      | inl here ↦
          let e : j ≡ i = ground arith in
          rw e (
            p.outside i (inl (omega arith))
            ∙ get_elem?-set_self {0} dest i (b (buffer_at t i)) (omega arith))
      | inr later ↦ p.inside j (ground arith) (omega arith)
    ]

-- What a read of up to `nbytes` characters leaves: `n` of them and a 0 byte in the buffer, and
-- the rest of the line on the terminal.
pub record IsRead (t : Terminal) (n : ℕ) (buf out : List ℕ) (t' : Terminal) : Type 0 where
  pub same_length : length out ≡ length buf
  pub text : (j : ℕ) → j < n → get_elem? out j ≡ get_elem? (line t t.active_tty) j
  pub terminator : get_elem? out n ≡ some 0
  pub beyond : (j : ℕ) → n < j → get_elem? out j ≡ get_elem? buf j
  pub left_over : line t' t.active_tty ≡ drop n (line t t.active_tty)
  pub wants_enter : t'.enter_status ≡ false
  pub same_screen : t'.screen ≡ t.screen

line_length-sub : (z : ℤ) (n : ℕ) → n ≤ line_length z → line_length (z -ℤ pos n) ≡ line_length z - n
unfolding ◌-ℤ◌
line_length-sub (pos m) n h = ground arith
line_length-sub (negsuc m) n h = ground arith

tail_after_read : (t : Terminal) (u n : ℕ) → (after_read t u n).tail u ≡ t.tail u -ℤ pos n
unfolding after_read
tail_after_read t u n = ground arith

rest_of_line :
    (t : Terminal) (u n : ℕ)
    → n ≤ line_length (t.tail u)
    → line (after_read t u n) u ≡ drop n (line t u)
rest_of_line t u n h =
    let left = line_length (t.tail u) - n in
    let b = (after_read t u n).terminal_buffer in
    let size : line_length ((after_read t u n).tail u) ≡ left =
      ap line_length (tail_after_read t u n) ∙ line_length-sub (t.tail u) n h in
    ap (line_from b u 0) size
    ∙ line_from_ext b t.terminal_buffer u 0 (0 + n) left (λ j p. moved_byte t u n j p)
    ∙ sym (drop-line_from t.terminal_buffer u 0 (line_length (t.tail u)) n h)
  where
    moved_byte :
        (t : Terminal) (u n j : ℕ)
        → j < line_length (t.tail u) - n
        → (after_read t u n).terminal_buffer (buffer_at u (0 + j))
          ≡ t.terminal_buffer (buffer_at u (0 + n + j))
    moved_byte t u n j p =
        unfold after_read in
        shift_line_inside (line_length (t.tail u) - n) u n t.terminal_buffer n (buffer_at u (0 + j))
          (omega arith) (omega arith) (omega arith)
        ∙ ap t.terminal_buffer (omega arith)

-- With a line typed, `nbytes` below 2 ^ 31, that is, not negative, and the buffer large enough for
-- the 0 byte too, a read terminates without a fault: it returns the smaller of `nbytes` and the length of the line, copies that many
-- characters of the line, puts a 0 byte behind them, leaves the rest of the line to be read and
-- does not touch the screen.
pub terminal_read_lem :
    (t : Terminal) (buf : List ℕ) (nbytes : ℕ)
    → nbytes < 2 ^ 31
    → t.enter_status ≡ true
    → let n = min nbytes (line_length (t.tail t.active_tty)) in
      0 < line_length (t.tail t.active_tty)
      → n < length buf
      → (out : List ℕ) × (t' : Terminal) × (terminal_read t buf nbytes ≡ returns n out t')
        × IsRead t n buf out t'
unfolding terminal_read
terminal_read_lem t buf nbytes positive pressed some_line room =
    let u = t.active_tty in
    let len = line_length (t.tail u) in
    let n = min nbytes len in
    let (mid, eq, c) = copy_line_lem n t.terminal_buffer u buf 0 (omega arith) in
    let space : n < length mid = omega (arith, c.same_length) in
    let not_negative : is_negative nbytes ≡ false = ground arith in
    let not_empty : (len == 0) ≡ false = ground arith in
    let count : (if ltb nbytes len then nbytes else len) ≡ n = ground arith in
    (
      set mid n 0,
      after_read t u n,
      rw (pressed, not_empty, not_negative, count, eq, ◌>>=◌, store_lem mid n 0 space) refl,
      read_result t n buf mid c space (omega arith),
    )
  where
    read_result :
        (t : Terminal) (n : ℕ) (buf mid : List ℕ)
        → IsCopied t.terminal_buffer t.active_tty 0 n buf mid
        → n < length mid
        → n ≤ line_length (t.tail t.active_tty)
        → IsRead t n buf (set mid n 0) (after_read t t.active_tty n)
    read_result t n buf mid c space le = record {
      same_length = length-set {0} mid n 0 ∙ c.same_length;
      text = λ j h.
          get_elem?-set_ne {0} mid {i = n} {j = j} 0 (omega arith)
          ∙ c.inside j (omega arith) (omega arith)
          ∙ ap (λ k. some (t.terminal_buffer (buffer_at t.active_tty k))) (omega arith)
          ∙ sym (
              get_elem?-line_from t.terminal_buffer t.active_tty 0
                (line_length (t.tail t.active_tty)) j (omega arith));
      terminator = get_elem?-set_self {0} mid n 0 space;
      beyond = λ j h.
          get_elem?-set_ne {0} mid {i = n} {j = j} 0 (omega arith)
          ∙ c.outside j (inr (omega arith));
      left_over = rest_of_line t t.active_tty n le;
      wants_enter = unfold after_read in refl;
      same_screen = unfold after_read in refl;
    }
