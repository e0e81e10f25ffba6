-- ===== src/Programs/Grep.antt =====
-- syscalls/ece391grep.c: the lines of the files that contain a text.
pub mod Searching
pub mod Scanning
pub mod Files
use illinix_operating_system.Base.{
  ℕ, zero, suc, ◌+◌, ◌-◌, Bool, not, ◌&&◌, List, Reader, bytes_at, offset_by, store, get_elem?,
  take, drop, ◌++◌, ltb, leb, ◌==◌, if◌then◌else◌, minus_one,
}
use illinix_operating_system.Base.Text.{text}
use illinix_operating_system.Calls.{Surroundings}
use illinix_operating_system.Programs.Actions.{
  Action, ◌>>=◌, pure, out_of_fuel, in_memory, tell, ece391_read, ece391_open, ece391_close,
  ece391_getargs, ece391_fdputs,
}
use illinix_operating_system.Programs.Support.{
  is_same, ece391_strlen, ece391_strncmp, ece391_strcpy,
}

-- The arguments of `do_one_file`, with the length of the text.
pub record Search : Type 0 where
  pub surroundings : Surroundings
  pub s : Reader
  pub s_len : ℕ
  pub fname : Reader

-- The loop that looks for the end of the line, with `last - line_end` rounds left.
unfoldable pub find_end : ℕ → List ℕ → ℕ → Action ℕ
find_end zero buf line_end = pure line_end
find_end (suc left) buf line_end = do
  c ← in_memory (get_elem? buf line_end)
  let rest = find_end left buf (line_end + 1)
  if c == b'\n' then pure line_end else rest

unfoldable pub show_line : Search → List ℕ → ℕ → Action (Unit {0})
show_line e buf line_start = do
  u1 ← ece391_fdputs e.surroundings 1 e.fname
  u2 ← tell e.surroundings ":"
  u3 ← ece391_fdputs e.surroundings 1 (offset_by (bytes_at buf) line_start)
  tell e.surroundings "\n"

-- The loop over the places of the line, with `line_end - check` rounds left. `s[0]` is a signed
-- `char`, negative from 128 on, and is compared with a byte, which is not.
unfoldable pub search_line : ℕ → Search → List ℕ → ℕ → ℕ → Action (Unit {0})
search_line zero e buf line_start check = pure tt
search_line (suc left) e buf line_start check = do
  first ← in_memory (e.s 0)
  c ← in_memory (get_elem? buf check)
  let rest = search_line left e buf line_start (check + 1)
  let compared = (do
    z ← in_memory (ece391_strncmp (offset_by (bytes_at buf) check) e.s e.s_len)
    if is_same z then show_line e buf line_start else rest)
  if ltb first 128 && first == c then compared else rest

-- The inner `while (1)`, on fuel: the array and `last` as it leaves them. `line_start` grows at
-- each round.
unfoldable pub scan_lines : ℕ → Search → ℕ → List ℕ → ℕ → ℕ → Action (List ℕ × ℕ)
scan_lines zero e cnt buf last line_start = out_of_fuel
scan_lines (suc fuel) e cnt buf last line_start = do
  line_end ← find_end (last - line_start) buf line_start
  c ← in_memory (get_elem? buf line_end)
  ended ← in_memory (store buf line_end 0)
  let moved = in_memory (ece391_strcpy ended 0 line_start) >>= λ b. pure (b, last - line_start)
  let again = scan_lines fuel e cnt ended last (line_end + 1)
  let searched = (do
    u ← search_line (line_end - line_start) e ended line_start line_start
    if leb last (line_end + 1) then pure (ended, 0) else again)
  if not (c == b'\n') && not (cnt == 0) && not (line_start == 0) then moved else searched

-- The end of `do_one_file`.
unfoldable pub close_file : Surroundings → ℕ → Action ℕ
close_file w fd = do
  r ← ece391_close fd
  let failed = tell w "file close failed\n" >>= λ u. pure minus_one
  if r == minus_one then failed else pure 0

-- The outer `while (1)`, on fuel.
unfoldable pub read_rounds : ℕ → Reader → Search → ℕ → List ℕ → ℕ → Action ℕ
read_rounds zero disk e fd buf last = out_of_fuel
read_rounds (suc fuel) disk e fd buf last = do
  (cnt, chunk) ← ece391_read disk e.surroundings fd (drop last buf) (1024 - last)
  let failed = tell e.surroundings "file read failed\n" >>= λ u. pure minus_one
  let scanned = (do
    (buf', last') ← scan_lines (suc (last + cnt)) e cnt (take last buf ++ chunk) (last + cnt) 0
    let again = read_rounds fuel disk e fd buf' last'
    if cnt == 0 then close_file e.surroundings fd else again)
  if cnt == minus_one then failed else scanned

-- `do_one_file`, with its array of 1025 bytes.
unfoldable pub do_one_file : ℕ → Reader → Surroundings → Reader → Reader → List ℕ → Action ℕ
do_one_file fuel disk w s fname buf = do
  s_len ← in_memory (ece391_strlen s)
  fd ← ece391_open disk w fname
  let failed = tell w "file open failed\n" >>= λ u. pure minus_one
  let e : Search = record { surroundings = w; s = s; s_len = s_len; fname = fname }
  if fd == minus_one then failed else read_rounds fuel disk e fd buf 0

-- The loop of `main`, on fuel, with `rounds` for each file; `stack` is what lies in the array of `do_one_file` at each call.
unfoldable pub search_files :
    ℕ → ℕ → Reader → Surroundings → Reader → (ℕ → List ℕ) → ℕ → List ℕ → Action ℕ
search_files zero rounds disk w search stack fd buf = out_of_fuel
search_files (suc fuel) rounds disk w search stack fd buf = do
  (cnt, buf') ← ece391_read disk w fd buf 32
  let failed = tell w "directory entry read failed\n" >>= λ u. pure 3
  let again = search_files fuel rounds disk w search stack fd buf'
  let searched = (do
    named ← in_memory (store buf' cnt 0)
    r ← do_one_file rounds disk w search (bytes_at named) (stack fuel)
    let next = search_files fuel rounds disk w search stack fd named
    if not (r == 0) then pure 3 else next)
  let entered = (do c ← in_memory (get_elem? buf' 0); if c == b'.' then again else searched)
  if cnt == 0 then pure 0 else if cnt == minus_one then failed else entered

-- `main`, with its arrays of 33 and 1024 bytes.
unfoldable pub grep : ℕ → ℕ → Reader → Surroundings → List ℕ → List ℕ → (ℕ → List ℕ) → Action ℕ
grep fuel rounds disk w buf search stack = do
  (r, search') ← ece391_getargs search 1024
  let no_argument = tell w "could not read argument\n" >>= λ u. pure 3
  let no_directory = tell w "directory open failed\n" >>= λ u. pure 2
  let searched = (do
    fd ← ece391_open disk w (text ".")
    let found = search_files fuel rounds disk w (bytes_at search') stack fd buf
    if fd == minus_one then no_directory else found)
  if not (r == 0) then no_argument else searched
