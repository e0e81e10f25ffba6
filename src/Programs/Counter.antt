-- ===== src/Programs/Counter.antt =====
-- syscalls/ece391counter.c: a program that counts on the terminal.
pub mod Counting
use illinix_operating_system.Base.{
  ℕ, zero, suc, ◌+◌, Bool, ◌&&◌, ◌||◌, List, Reader, bytes_at, store, get_elem?, ltb, ◌==◌,
  if◌then◌else◌, minus_one,
}
use illinix_operating_system.Calls.{Surroundings}
use illinix_operating_system.Programs.Actions.{
  Action, ◌>>=◌, pure, in_memory, tell, ece391_read, ece391_fdputs,
}
use illinix_operating_system.Programs.Support.{ece391_strlen, ece391_itoa}

-- The loop of `main` from `i` on, with `max - i` rounds left.
unfoldable pub counter_loop : ℕ → Surroundings → ℕ → List ℕ → Action ℕ
counter_loop zero w i buf = pure 0
counter_loop (suc left) w i buf = do
  digits ← in_memory (ece391_itoa (i + 1) buf 10)
  u ← ece391_fdputs w 1 (bytes_at digits)
  v ← tell w "\n"
  counter_loop left w (i + 1) digits

-- The `switch` on the first character.
unfoldable pub max_of : ℕ → ℕ
max_of c = if c == b'0' then 100 else if c == b'1' then 10000 else if c == b'2' then 100000 else 0

-- `main`, with its array of 1024 bytes.
unfoldable pub counter : Reader → Surroundings → List ℕ → Action ℕ
counter disk w buf = do
  u ← tell w "Enter the Test Number: (0): 100, (1): 10000, (2): 100000\n"
  (cnt, line) ← ece391_read disk w 0 buf 1023
  let failed = tell w "Can't read the number from keyboard.\n" >>= λ v. pure 3
  let counts = (do
    named ← in_memory (store line cnt 0)
    n ← in_memory (ece391_strlen (bytes_at named))
    c ← in_memory (get_elem? named 0)
    let wrong = tell w "Wrong Choice!\n" >>= λ v. pure 0
    let max = max_of c
    let counted = counter_loop max w 0 named
    if ltb 2 n || (n == 2 && (ltb c b'0' || ltb b'2' c)) then wrong else counted)
  if cnt == minus_one then failed else counts
