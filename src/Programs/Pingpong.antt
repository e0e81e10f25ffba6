-- ===== src/Programs/Pingpong.antt =====
-- syscalls/ece391pingpong.c: a character that bounces between two walls, a step at each tick.
pub mod Picture
pub mod Bouncing
pub mod Starting
use illinix_operating_system.Base.{
  ℕ, zero, suc, ◌+◌, ◌%◌, List, [], ◌∷◌, Reader, bytes_at, store, ◌==◌, if◌then◌else◌, replicate,
}
use illinix_operating_system.Base.Text.{text}
use illinix_operating_system.Calls.{Surroundings}
use illinix_operating_system.Programs.Actions.{
  Action, ◌>>=◌, pure, out_of_fuel, in_memory, ece391_read, ece391_write, ece391_open,
  ece391_fdputs,
}

-- What stays the same in the loops: the image, the surroundings of the calls, the descriptor of
-- the clock.
pub record Table : Type 0 where
  pub disk : Reader
  pub surroundings : Surroundings
  pub rtc_fd : ℕ

-- A loop that stores blanks from index `i` on.
unfoldable pub clear_places : ℕ → ℕ → List ℕ → Action (List ℕ)
clear_places zero i buf = pure buf
clear_places (suc left) i buf = do
  buf' ← in_memory (store buf i b' ')
  clear_places left (i + 1) buf'

-- The walls, the line feed and the 0 byte. `BUFMAX-3` is 79 + 2 - 3.
unfoldable pub build_walls : List ℕ → Action (List ℕ)
build_walls buf = do
  b1 ← in_memory (store buf 80 0)
  b2 ← in_memory (store b1 79 b'\n')
  b3 ← in_memory (store b2 78 b'|')
  in_memory (store b3 1 b'|')

-- The body of the inner loops at place `j`: the buffer, and `garbage`.
unfoldable pub draw_char : Table → ℕ → ℕ → List ℕ × List ℕ → Action (List ℕ × List ℕ)
draw_char e curchar j (buf, garbage) = do
  cleared ← clear_places 76 2 buf
  drawn ← in_memory (store cleared j curchar)
  u ← ece391_fdputs e.surroundings 1 (bytes_at drawn)
  (r, garbage') ← ece391_read e.disk e.surroundings e.rtc_fd garbage 4
  pure (drawn, garbage')

-- The loop outwards from place `j` on.
unfoldable pub move_out : ℕ → Table → ℕ → ℕ → List ℕ × List ℕ → Action (List ℕ × List ℕ)
move_out zero e curchar j s = pure s
move_out (suc left) e curchar j s =
    draw_char e curchar j s >>= λ s'. move_out left e curchar (j + 1) s'

-- The loop back, with `left` places to go: the next is the last of them.
unfoldable pub move_back : ℕ → Table → ℕ → List ℕ × List ℕ → Action (List ℕ × List ℕ)
move_back zero e curchar s = pure s
move_back (suc left) e curchar s =
    draw_char e curchar (left + 2) s >>= λ s'. move_back left e curchar s'

unfoldable pub next_char : ℕ → ℕ
next_char curchar = if curchar == b'Z' then b'A' else (curchar + 1) % 256

-- The body of the outer loop.
unfoldable pub bounce : Table → ℕ → List ℕ × List ℕ → Action (List ℕ × List ℕ)
bounce e curchar s = do s1 ← move_out 76 e curchar 2 s; move_back 76 e curchar s1

-- The outer loop has no end: it runs on, on any fuel.
unfoldable pub pingpong_loop : ℕ → Table → ℕ → List ℕ × List ℕ → Action ℕ
pingpong_loop zero e curchar s = out_of_fuel
pingpong_loop (suc fuel) e curchar s =
    bounce e curchar s >>= λ s'. pingpong_loop fuel e (next_char curchar) s'

-- `main`, with its array of 81 bytes and `garbage`.
unfoldable pub pingpong : ℕ → Reader → Surroundings → List ℕ → List ℕ → Action ℕ
pingpong fuel disk w buf garbage = do
  blank ← clear_places 81 0 buf
  walled ← build_walls blank
  rtc_fd ← ece391_open disk w (text "rtc")
  ret_val ← ece391_write w rtc_fd (bytes_at (32 ∷ 0 ∷ 0 ∷ 0 ∷ [])) 4
  pingpong_loop fuel (record { disk = disk; surroundings = w; rtc_fd = rtc_fd }) b'A'
      (walled, garbage)
