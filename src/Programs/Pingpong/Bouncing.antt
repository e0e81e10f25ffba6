-- ===== src/Programs/Pingpong/Bouncing.antt =====
-- What a bounce shows.
use illinix_operating_system.Base.{
  ℕ, zero, suc, ◌+◌, ◌%◌, ◌≤◌, ◌<◌, ◌≡◌, ◌≢◌, refl, arith, Bool, true, false, some, List, ◌∷◌, ◌++◌,
  bytes_at, store_lem, set, replicate, ap, ◌∙◌, ◌>>=◌,
}
use illinix_operating_system.Strings.Length.{IsString, strlen_lem}
use illinix_operating_system.Terminal.Shown.{shown}
use illinix_operating_system.Screen.{Screen}
use illinix_operating_system.Pcb.{Pcb, rtc, bad_fd}
use illinix_operating_system.Rtc.Wait.{rtc_read_lem}
use illinix_operating_system.Calls.{Devices, Surroundings, read}
use illinix_operating_system.Calls.Transfer.{HasOutput, write-shown}
use illinix_operating_system.Programs.{gives, fdputs}
use illinix_operating_system.Programs.Actions.{ece391_fdputs, ece391_read}
use illinix_operating_system.Programs.Pingpong.Picture.{
  picture, IsWalled, IsDrawn, clear_places_lem, drawn_lem,
}
use illinix_operating_system.Programs.Pingpong.{
  next_char, pingpong_loop, Table, draw_char, move_out, move_back, bounce,
}

-- The clock is open on the descriptor, and ticks after a number of turns.
pub record HasClock (e : Table) (p : Pcb) : Type 0 where
  pub in_array : e.rtc_fd < 8
  pub used : (p.fd_array e.rtc_fd).flags ≡ 1
  pub operations : (p.fd_array e.rtc_fd).file_operations ≡ rtc
  pub turns : ℕ
  pub later : List Bool
  pub ticks : e.surroundings.rtc_turns ≡ replicate turns false ++ true ∷ later

-- A tick comes, and nothing is shown.
read_tick :
    (e : Table) (p : Pcb) (d : Devices) (garbage : List ℕ)
    → HasClock e p
    → (d' : Devices) × (ece391_read e.disk e.surroundings e.rtc_fd garbage 4 p d
        ≡ gives (0, garbage) p d')
      × (d'.terminal ≡ d.terminal)
unfolding ece391_read read
read_tick e p d garbage k =
    let (c, eq, zero_result, set, rest, sent) =
      rtc_read_lem d.irq_mask e.surroundings.rtc_flag k.turns k.later in
    let good : bad_fd e.rtc_fd ≡ false = ground (arith, k.in_array) in
    (
      record d { irq_mask = c.mask; ports = d.ports ++ c.ports },
      rw (good, k.used, k.operations, k.ticks, eq, zero_result) refl,
      refl,
    )

picture-byte : (c j i : ℕ) → c ≢ 0 → picture c j i ≢ 0
unfolding picture
picture-byte c j i ne e = ground (arith, ne, e)

-- A string of which each character is known is shown.
fdputs_picture :
    (w : Surroundings) (c j : ℕ) (buf : List ℕ) (p : Pcb) (d : Devices)
    → HasOutput p
    → c ≢ 0
    → IsDrawn c j buf
    → ece391_fdputs w 1 (bytes_at buf) p d
      ≡ gives tt p (record d {
        terminal = record d.terminal { screen = shown 80 (picture c j) 0 d.terminal.screen };
      })
unfolding ece391_fdputs fdputs
fdputs_picture w c j buf p d o ne k =
    let string : IsString (bytes_at buf) 80 = record {
      body = λ i h. (picture c j i, k.pictured i h, picture-byte c j i ne);
      ends = k.walled.ends;
    } in
    let len = strlen_lem (bytes_at buf) 80 string (omega arith) in
    let all = write-shown w p d (bytes_at buf) (picture c j) 0 80 o (omega arith) (λ i h.
      let at : i ≡ 0 + i = omega arith in k.pictured i h ∙ ap (λ x. some (picture c j x)) at) in
    rw (len, ◌>>=◌, all, ◌>>=◌) refl

draw_char_lem :
    (e : Table) (c j : ℕ) (buf garbage : List ℕ) (p : Pcb) (d : Devices)
    → HasOutput p
    → HasClock e p
    → c ≢ 0
    → 2 ≤ j
    → j < 78
    → IsWalled buf
    → (out : List ℕ) × (d' : Devices) × (draw_char e c j (buf, garbage) p d
        ≡ gives (out, garbage) p d')
      × IsWalled out
      × (d'.terminal.screen ≡ shown 80 (picture c j) 0 d.terminal.screen)
unfolding draw_char
draw_char_lem e c j buf garbage p d o k ne l h w =
    let (cleared, eq, blank) = clear_places_lem 76 2 buf p d (omega (arith, w.size)) in
    let drawn = drawn_lem c j buf cleared l h w blank in
    let stored = store_lem cleared j c (omega (arith, blank.same_length, w.size)) in
    let d1 = record d {
      terminal = record d.terminal { screen = shown 80 (picture c j) 0 d.terminal.screen };
    } in
    let (d2, tick, same) = read_tick e p d1 garbage k in
    (
      set cleared j c,
      d2,
      rw (eq, stored, fdputs_picture e.surroundings c j (set cleared j c) p d o ne drawn, tick)
          refl,
      drawn.walled,
      ap (λ t. t.screen) same,
    )

-- The screen after `n` pictures with `c` at place `j`, the next place and so on.
abbrev pub show_out : ℕ → ℕ → ℕ → Screen → Screen
show_out zero c j s = s
show_out (suc n) c j s = show_out n c (j + 1) (shown 80 (picture c j) 0 s)

-- The screen after `n` pictures, the last with `c` at place 2, the one before at place 3 and so on.
abbrev pub show_back : ℕ → ℕ → Screen → Screen
show_back zero c s = s
show_back (suc n) c s = show_back n c (shown 80 (picture c (n + 2)) 0 s)

module _ (e : Table) (c : ℕ) (garbage : List ℕ) (p : Pcb) (o : HasOutput p) (k : HasClock e p)
    (ne : c ≢ 0) where
  move_out_lem :
      (n j : ℕ) (buf : List ℕ) (d : Devices)
      → 2 ≤ j
      → j + n ≤ 78
      → IsWalled buf
      → (out : List ℕ) × (d' : Devices) × (move_out n e c j (buf, garbage) p d
          ≡ gives (out, garbage) p d')
        × IsWalled out
        × (d'.terminal.screen ≡ show_out n c j d.terminal.screen)
  unfolding move_out
  move_out_lem zero j buf d l h w = (buf, d, refl, w, refl)
  move_out_lem (suc n) j buf d l h w =
      let (b1, d1, e1, w1, s1) = draw_char_lem e c j buf garbage p d o k ne l (omega arith) w in
      let (b2, d2, e2, w2, s2) = move_out_lem n (j + 1) b1 d1 (omega arith) (omega arith) w1 in
      (b2, d2, rw (e1, e2) refl, w2, s2 ∙ ap (show_out n c (j + 1)) s1)

  move_back_lem :
      (n : ℕ) (buf : List ℕ) (d : Devices)
      → n ≤ 76
      → IsWalled buf
      → (out : List ℕ) × (d' : Devices) × (move_back n e c (buf, garbage) p d
          ≡ gives (out, garbage) p d')
        × IsWalled out
        × (d'.terminal.screen ≡ show_back n c d.terminal.screen)
  unfolding move_back
  move_back_lem zero buf d h w = (buf, d, refl, w, refl)
  move_back_lem (suc n) buf d h w =
      let (b1, d1, e1, w1, s1) =
        draw_char_lem e c (n + 2) buf garbage p d o k ne (omega arith) (omega arith) w in
      let (b2, d2, e2, w2, s2) = move_back_lem n b1 d1 (omega arith) w1 in
      (b2, d2, rw (e1, e2) refl, w2, s2 ∙ ap (show_back n c) s1)

  bounce_lem :
      (buf : List ℕ) (d : Devices)
      → IsWalled buf
      → (out : List ℕ) × (d' : Devices) × (bounce e c (buf, garbage) p d
          ≡ gives (out, garbage) p d')
        × IsWalled out
        × (d'.terminal.screen ≡ show_back 76 c (show_out 76 c 2 d.terminal.screen))
  unfolding bounce
  bounce_lem buf d w =
      let (b1, d1, e1, w1, s1) = move_out_lem 76 2 buf d (omega arith) (omega arith) w in
      let (b2, d2, e2, w2, s2) = move_back_lem 76 b1 d1 (omega arith) w1 in
      (b2, d2, rw (e1, e2) refl, w2, s2 ∙ ap (show_back 76 c) s1)

-- The letters from A to Z, round and round.
abbrev pub letter : ℕ → ℕ
letter k = b'A' + k % 26

-- The screen after `n` bounces, with the letters from number `k` on.
abbrev pub show_bounces : ℕ → ℕ → Screen → Screen
show_bounces zero k s = s
show_bounces (suc n) k s =
    show_bounces n (k + 1) (show_back 76 (letter k) (show_out 76 (letter k) 2 s))

next_char-letter : (k : ℕ) → next_char (letter k) ≡ letter (k + 1)
unfolding next_char
next_char-letter k = ground arith

-- With the walls in the array, the terminal on descriptor 1 and on `rtc_fd` a clock that ticks,
-- the loop of pingpong does not end or stop: after any number `n` of rounds it goes on, and each
-- round has shown a letter at every place between the walls, from left to right and back, the
-- next letter in each round and A after Z.
pub pingpong_loop_lem :
    (n fuel : ℕ) (e : Table) (k : ℕ) (buf garbage : List ℕ) (p : Pcb) (d : Devices)
    → HasOutput p
    → HasClock e p
    → IsWalled buf
    → (out : List ℕ) × (d' : Devices) × (pingpong_loop (n + fuel) e (letter k) (buf, garbage) p d
        ≡ pingpong_loop fuel e (letter (k + n)) (out, garbage) p d')
      × IsWalled out
      × (d'.terminal.screen ≡ show_bounces n k d.terminal.screen)
unfolding pingpong_loop
pingpong_loop_lem zero fuel e k buf garbage p d o c w =
    let none_left : 0 + fuel ≡ fuel = omega arith in
    let same : k + 0 ≡ k = omega arith in (buf, d, rw (none_left, same) refl, w, refl)
pingpong_loop_lem (suc n) fuel e k buf garbage p d o c w =
    let more : suc n + fuel ≡ suc (n + fuel) = omega arith in
    let on : k + suc n ≡ k + 1 + n = omega arith in
    let (b1, d1, e1, w1, s1) = bounce_lem e (letter k) garbage p o c (λ z. omega arith) buf d w in
    let (b2, d2, e2, w2, s2) = pingpong_loop_lem n fuel e (k + 1) b1 garbage p d1 o c w1 in
    (
      b2,
      d2,
      rw (more, on, e1, next_char-letter k, e2) refl,
      w2,
      s2 ∙ ap (show_bounces n (k + 1)) s1,
    )
