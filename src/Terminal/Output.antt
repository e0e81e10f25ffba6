-- ===== src/Terminal/Output.antt =====
-- Typing into a line.
use illinix_operating_system.Base.{
  ℕ, suc, ◌+◌, ◌≤◌, ◌<◌, ◌≡◌, ◌≢◌, refl, some, arith, [], ◌∷◌, ◌++◌, ap, ◌∙◌, sym, ◌==◌,
  if◌then◌else◌, true,
}
use illinix_operating_system.Base.Int.{ℤ, pos, negsuc, ◌-ℤ◌, ◌+ℤ◌, ltb_ℤ, sub_ℕ}
use illinix_operating_system.Screen.{update, update_row, putc}
use illinix_operating_system.Terminal.{
  Terminal, buffer_at, line_length, append_char, erase_char, terminal_write,
}
use illinix_operating_system.Terminal.Line.{line, line_from, line_from_ext, line_from-append}

tail_next : (z : ℤ) (n : ℕ) → z ≡ sub_ℕ n 1 → z +ℤ pos 1 ≡ pos n
unfolding ◌+ℤ◌
tail_next z n e = ground arith

tail_before : (z : ℤ) (n : ℕ) → z ≡ pos n → z -ℤ pos 1 ≡ sub_ℕ n 1
unfolding ◌-ℤ◌
tail_before z n e = ground arith

line_length_lem : (n : ℕ) → line_length (sub_ℕ n 1) ≡ n
line_length_lem n = ground arith

-- Each of the three lines lies within its row of 1025 characters.
pub record IsValid (t : Terminal) : Type 0 where
  pub size : ℕ → ℕ
  pub tails : (u : ℕ) → u < 3 → t.tail u ≡ sub_ℕ (size u) 1
  pub fits : (u : ℕ) → u < 3 → size u ≤ 1025

length-line :
    (t : Terminal) (u n : ℕ) → t.tail u ≡ sub_ℕ n 1 → line t u ≡ line_from t.terminal_buffer u 0 n
length-line t u n e = ap (line_from t.terminal_buffer u 0) (ap line_length e ∙ line_length_lem n)

update_outside :
    (b : ℕ → ℕ) (a c u n : ℕ)
    → ((j : ℕ) → j < n → a ≢ buffer_at u (0 + j))
    → line_from (update b a c) u 0 n ≡ line_from b u 0 n
update_outside b a c u n h =
    line_from_ext (update b a c) b u 0 0 n λ j p. other b a c (buffer_at u (0 + j)) (h j p)
  where
    other : (b : ℕ → ℕ) (a c k : ℕ) → a ≢ k → update b a c k ≡ b k
    other b a c k ne = ground arith

appended_own :
    (b : ℕ → ℕ) (u n c : ℕ)
    → line_from (update b (buffer_at u n) c) u 0 (suc n) ≡ line_from b u 0 n ++ c ∷ []
appended_own b u n c =
    line_from-append (update b (buffer_at u n) c) u 0 n
    ∙ ap (λ l. l ++ update b (buffer_at u n) c (buffer_at u (0 + n)) ∷ [])
        (update_outside b (buffer_at u n) c u n (λ j p. omega arith))
    ∙ ap (λ x. line_from b u 0 n ++ x ∷ []) (own b u n c)
  where
    own : (b : ℕ → ℕ) (u n c : ℕ) → update b (buffer_at u n) c (buffer_at u (0 + n)) ≡ c
    own b u n c = ground arith

-- The fields after a character is appended at a line with room.
appended :
    (t : Terminal) (n c : ℕ)
    → t.tail t.active_tty ≡ sub_ℕ n 1
    → n ≤ 1025
    → append_char t c ≡ record t {
      tail = update_row t.tail t.active_tty (pos n);
      terminal_buffer = update t.terminal_buffer (buffer_at t.active_tty n) c;
    }
unfolding append_char
appended t n c e le =
    let test : ltb_ℤ (t.tail t.active_tty) (pos 1025) ≡ true = rw e (ground arith) in
    rw (test, tail_next (t.tail t.active_tty) n e) refl

tail_self : (f : ℕ → ℤ) (u : ℕ) (z : ℤ) → update_row f u z u ≡ z
tail_self f u z = ground arith

tail_other : (f : ℕ → ℤ) (u v : ℕ) (z : ℤ) → u ≢ v → update_row f u z v ≡ f v
tail_other f u v z ne = ground arith

-- With each line within its row (`IsValid`), a key typed on a line of fewer than 1025 characters
-- is added at its end, and the lines of the
-- other terminals stay as they are.
pub append_char_lem :
    (t : Terminal) (c : ℕ) (v : IsValid t)
    → t.active_tty < 3
    → v.size t.active_tty < 1025
    → (line (append_char t c) t.active_tty ≡ line t t.active_tty ++ c ∷ [])
      × ((u : ℕ) → u < 3 → u ≢ t.active_tty → line (append_char t c) u ≡ line t u)
append_char_lem t c v active room =
    let n = v.size t.active_tty in
    let e = v.tails t.active_tty active in
    let t' = append_char t c in
    let same = appended t n c e (omega arith) in
    (
      ap (λ (s : Terminal). line s t.active_tty) same
          ∙ ap
              (λ z.
                line_from (update t.terminal_buffer (buffer_at t.active_tty n) c) t.active_tty 0
                  (line_length z))
              (tail_self t.tail t.active_tty (pos n))
          ∙ appended_own t.terminal_buffer t.active_tty n c
          ∙ ap (λ l. l ++ c ∷ []) (sym (length-line t t.active_tty n e)),
      λ u h ne.
          ap (λ (s : Terminal). line s u) same
          ∙ ap
              (λ z.
                line_from (update t.terminal_buffer (buffer_at t.active_tty n) c) u 0
                  (line_length z))
              (tail_other t.tail t.active_tty u (pos n) (λ q. ne (sym q)) ∙ v.tails u h)
          ∙ ap (line_from (update t.terminal_buffer (buffer_at t.active_tty n) c) u 0)
              (line_length_lem (v.size u))
          ∙ update_outside t.terminal_buffer (buffer_at t.active_tty n) c u (v.size u)
              (λ j p. apart t.active_tty u n j (v.size u) ne room (v.fits u h) p)
          ∙ sym (length-line t u (v.size u) (v.tails u h)),
    )
  where
    apart :
        (a u n j size : ℕ)
        → u ≢ a
        → n < 1025
        → size ≤ 1025
        → j < size
        → buffer_at a n ≢ buffer_at u (0 + j)
    apart a u n j size ne hn hs hj = omega arith

-- On a line of 1025 characters a further key is stored behind the row: over the first character
-- of the next terminal's row.
pub append_char_overflow :
    (t : Terminal) (c : ℕ) (v : IsValid t)
    → t.active_tty < 3
    → v.size t.active_tty ≡ 1025
    → (append_char t c).terminal_buffer (buffer_at (suc t.active_tty) 0) ≡ c
append_char_overflow t c v active full =
    let n = v.size t.active_tty in
    ap (λ (s : Terminal). s.terminal_buffer (buffer_at (suc t.active_tty) 0))
      (appended t n c (v.tails t.active_tty active) (omega arith))
    ∙ hit t.terminal_buffer (buffer_at t.active_tty n) (buffer_at (suc t.active_tty) 0) c
        (omega arith)
  where
    hit : (b : ℕ → ℕ) (a k c : ℕ) → a ≡ k → update b a c k ≡ c
    hit b a k c e = ground arith

erased :
    (t : Terminal) (u n : ℕ)
    → t.active_tty ≡ u
    → t.tail u ≡ pos n
    → line (erase_char t) u ≡ line_from t.terminal_buffer u 0 n
unfolding erase_char
erased t u n e at =
    let at' : t.tail t.active_tty ≡ pos n = rw e at in
    let test : ltb_ℤ (negsuc 0) (t.tail t.active_tty) ≡ true = rw at' (ground arith) in
    rw (test, tail_before (t.tail t.active_tty) n at', e)
      (ap (λ z. line_from t.terminal_buffer u 0 (line_length z)) (tail_self t.tail u (sub_ℕ n 1))
        ∙ ap (line_from t.terminal_buffer u 0) (line_length_lem n))

-- With each line within its row (`IsValid`), a backspace after a key on a line of fewer than 1025
-- characters gives the line back.
pub erase-append :
    (t : Terminal) (c : ℕ) (v : IsValid t)
    → t.active_tty < 3
    → v.size t.active_tty < 1025
    → line (erase_char (append_char t c)) t.active_tty ≡ line t t.active_tty
erase-append t c v active room =
    let u = t.active_tty in
    let n = v.size u in
    let e = v.tails u active in
    let same = appended t n c e (omega arith) in
    erased (append_char t c) u n (ap (λ (s : Terminal). s.active_tty) same)
      (ap (λ (s : Terminal). s.tail u) same ∙ tail_self t.tail u (pos n))
    ∙ ap (λ (s : Terminal). line_from s.terminal_buffer u 0 n) same
    ∙ update_outside t.terminal_buffer (buffer_at u n) c u n (λ j p. omega arith)
    ∙ sym (length-line t u n e)

-- The keyboard's call of `terminal_write`: a character is appended and shown, a newline shown and
-- made known to the reader, a backspace takes the last character back.
pub keyboard_write :
    (t : Terminal) (c : ℕ)
    → terminal_write 0 (λ i. some c) 1 t
      ≡ some (
          if c == 8
          then (0, erase_char t)
          else if c == b'\n'
          then (1, record t { enter_status = true; screen = putc c t.screen })
          else (1, record (append_char t c) { screen = putc c (append_char t c).screen }))
unfolding terminal_write
keyboard_write t c = ground arith
