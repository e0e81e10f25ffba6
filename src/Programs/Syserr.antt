-- ===== src/Programs/Syserr.antt =====
-- syscalls/ece391syserr.c: a program that makes wrong system calls and says whether the kernel
-- refuses them, and the dispatch of student-distrib/handlers.S that it calls directly.
pub mod Refusals
pub mod Opening
pub mod Passing
use Prim.Native.String.{String}
use illinix_operating_system.Base.{
  ℕ, zero, suc, ◌+◌, ◌-◌, ◌%◌, ◌^◌, Bool, ◌||◌, List, Reader, bytes_at, get_elem?, ltb, ◌==◌,
  if◌then◌else◌, minus_one, is_negative,
}
use illinix_operating_system.Base.Text.{text}
use illinix_operating_system.Paging.{Paging}
use illinix_operating_system.Calls.{Surroundings, vidmap}
use illinix_operating_system.Programs.Actions.{
  Action, ◌>>=◌, pure, in_memory, tell, ece391_read, ece391_write, ece391_open, ece391_close,
}

-- The numbers -1073741823 and 1073741823.
abbrev pub neg_fd : ℕ
neg_fd = 0xc000_0001

abbrev pub big_fd : ℕ
big_fd = 0x3fff_ffff

-- `sys_call` of handlers.S: the routine of the jump table, for a number from 1 to 10.
unfoldable pub sys_call : (ℕ → ℕ) → ℕ → ℕ
sys_call routine eax = if is_negative eax || eax == 0 || ltb 10 eax then minus_one else routine eax

-- `call_sys`: no argument is passed on.
abbrev pub call_sys : (ℕ → ℕ) → ℕ → Action ℕ
call_sys routine num = pure (sys_call routine num)

-- What a test of the eight calls is given: the image, the surroundings of the calls, the array of
-- 32 bytes that lies uninitialised on the stack, the tables of the pages and the routines behind
-- the jump table.
pub record Setting : Type 0 where
  pub disk : Reader
  pub surroundings : Surroundings
  pub junk : List ℕ
  pub table_at : ℕ
  pub paging : Paging
  pub routine : ℕ → ℕ

-- `if (-1 != r) { fail = 2; … }`.
unfoldable pub expect_refusal : Setting → ℕ → String → ℕ → Action ℕ
expect_refusal e r message fail =
    let failed = tell e.surroundings message >>= λ u. pure 2 in
    if r == minus_one then pure fail else failed

-- The last lines of a test.
unfoldable pub report : Setting → ℕ → String → String → Action ℕ
report e fail bad good =
    let result = if fail == 0 then good else bad in tell e.surroundings result >>= λ u. pure fail

unfoldable pub err_neg_fd : Setting → Action ℕ
err_neg_fd e = do
  (r1, buf) ← ece391_read e.disk e.surroundings neg_fd e.junk 31
  f1 ← expect_refusal e r1 "read fail\n" 0
  r2 ← ece391_write e.surroundings neg_fd (bytes_at buf) 31
  f2 ← expect_refusal e r2 "write fail\n" f1
  r3 ← ece391_close neg_fd
  f3 ← expect_refusal e r3 "close fail\n" f2
  report e f3 "err_neg_fd: FAIL\n" "err_neg_fd: PASS\n"

unfoldable pub err_big_fd : Setting → Action ℕ
err_big_fd e = do
  (r1, buf) ← ece391_read e.disk e.surroundings big_fd e.junk 31
  f1 ← expect_refusal e r1 "read fail\n" 0
  r2 ← ece391_write e.surroundings big_fd (bytes_at buf) 31
  f2 ← expect_refusal e r2 "write fail\n" f1
  r3 ← ece391_close big_fd
  f3 ← expect_refusal e r3 "close fail\n" f2
  report e f3 "err_big_fd: FAIL\n" "err_big_fd: PASS\n"

-- The loop that opens the directory, with the count of the calls that failed.
unfoldable pub open_lots : Setting → ℕ → ℕ → Action ℕ
open_lots e zero cnt = pure cnt
open_lots e (suc left) cnt = ece391_open e.disk e.surroundings (text ".") >>= λ r.
    open_lots e left (if r == minus_one then cnt + 1 else cnt)

-- The loop that closes the descriptors from `i` on.
unfoldable pub close_lots : ℕ → ℕ → Action (Unit {0})
close_lots zero i = pure tt
close_lots (suc left) i = ece391_close i >>= λ r. close_lots left (i + 1)

unfoldable pub err_open_lots : Setting → Action ℕ
err_open_lots e = do
  cnt ← open_lots e 7 0
  u ← close_lots 6 2
  let good = tell e.surroundings "err_open_lots: PASS\n" >>= λ v. pure 0
  let bad = tell e.surroundings "err_open_lots: FAIL\n" >>= λ v. pure 2
  if cnt == 1 then good else bad

unfoldable pub err_open : Setting → Action ℕ
err_open e = do
  r1 ← ece391_open e.disk e.surroundings (text "helloo")
  f1 ← expect_refusal e r1 "'helloo' fail\n" 0
  r2 ← ece391_open e.disk e.surroundings (text "shel")
  f2 ← expect_refusal e r2 "'shel' fail\n" f1
  r3 ← ece391_open e.disk e.surroundings (text "")
  f3 ← expect_refusal e r3 "empty string fail\n" f2
  report e f3 "err_open: FAIL\n" "err_open: PASS\n"

-- The three loops of `err_unopened` from descriptor `i` on.
unfoldable pub close_unopened : Setting → ℕ → ℕ → ℕ → Action ℕ
close_unopened e zero i fail = pure fail
close_unopened e (suc left) i fail = do
  r ← ece391_close i
  f ← expect_refusal e r "close unopened or invalid fd fail\n" fail
  close_unopened e left (i + 1) f

unfoldable pub read_unopened : Setting → ℕ → ℕ → List ℕ → ℕ → Action (ℕ × List ℕ)
read_unopened e zero i buf fail = pure (fail, buf)
read_unopened e (suc left) i buf fail = do
  (r, buf') ← ece391_read e.disk e.surroundings i buf 31
  f ← expect_refusal e r "read from unopened fd fail\n" fail
  read_unopened e left (i + 1) buf' f

unfoldable pub write_unopened : Setting → ℕ → ℕ → List ℕ → ℕ → Action ℕ
write_unopened e zero i buf fail = pure fail
write_unopened e (suc left) i buf fail = do
  r ← ece391_write e.surroundings i (bytes_at buf) 31
  f ← expect_refusal e r "write to unopened fd fail\n" fail
  write_unopened e left (i + 1) buf f

unfoldable pub err_unopened : Setting → Action ℕ
err_unopened e = do
  f1 ← close_unopened e 8 0 0
  (f2, buf) ← read_unopened e 6 2 e.junk f1
  f3 ← write_unopened e 6 2 buf f2
  report e f3 "err_unopened: FAIL\n" "err_unopened: PASS\n"

-- A call of `vidmap` that is refused stores nothing; of one that is not, what it stores is left
-- out, since the test fails then.
unfoldable pub err_vidmap : Setting → Action ℕ
err_vidmap e = do
  let (r1, start1, paging1) = vidmap e.table_at e.paging 0
  f1 ← expect_refusal e r1 "Null pointer fail\n" 0
  let (r2, start2, paging2) = vidmap e.table_at paging1 0x40_0000
  f2 ← expect_refusal e r2 "Kernel pointer fail fail\n" f1
  report e f2 "err_vidmap: FAIL\n" "err_vidmap: PASS\n"

unfoldable pub err_stdin_out : Setting → Action ℕ
err_stdin_out e = do
  r1 ← ece391_write e.surroundings 0 (bytes_at e.junk) 31
  f1 ← expect_refusal e r1 "write to stdin fail\n" 0
  (r2, buf) ← ece391_read e.disk e.surroundings 1 e.junk 31
  f2 ← expect_refusal e r2 "read from stdout fail\n" f1
  report e f2 "err_stdin_out: FAIL\n" "err_stdin_out: PASS\n"

unfoldable pub err_syscall_num : Setting → Action ℕ
err_syscall_num e = do
  r1 ← call_sys e.routine big_fd
  f1 ← expect_refusal e r1 "syscall 0 fail\n" 0
  r2 ← call_sys e.routine neg_fd
  f2 ← expect_refusal e r2 "big num syscall fail\n" f1
  r3 ← call_sys e.routine 0
  f3 ← expect_refusal e r3 "neg num syscall fail\n" f2
  report e f3 "err_syscall_num: FAIL\n" "err_syscall_num: PASS\n"

-- `case 0` of `main`: all the tests.
unfoldable pub run_all : Setting → Action ℕ
run_all e = do
  f1 ← err_neg_fd e
  f2 ← err_big_fd e
  f3 ← err_open_lots e
  f4 ← err_open e
  f5 ← err_unopened e
  f6 ← err_vidmap e
  f7 ← err_stdin_out e
  f8 ← err_syscall_num e
  let fail = f1 + f2 + f3 + f4 + f5 + f6 + f7 + f8
  u ←
      tell e.surroundings
        (if fail == 0 then "\nOverall Tests: PASS\n" else "\nOverall Tests: FAIL\n")
  pure fail

-- The `switch` of `main`; `select` is the character that stands for it.
unfoldable pub run_test : Setting → ℕ → Action ℕ
run_test e c =
    let invalid =
      tell e.surroundings "Invalid test number. Choose from tests 1-8 or 0" >>= λ u. pure 0 in
    if c == b'0'
    then run_all e
    else if c == b'1'
    then err_neg_fd e
    else if c == b'2'
    then err_big_fd e
    else if c == b'3'
    then err_open_lots e
    else if c == b'4'
    then err_open e
    else if c == b'5'
    then err_unopened e
    else if c == b'6'
    then err_vidmap e
    else if c == b'7'
    then err_stdin_out e
    else if c == b'8'
    then err_syscall_num e
    else invalid

-- `main`, with its array of 128 bytes.
unfoldable pub syserr : Setting → List ℕ → Action ℕ
syserr e buf = do
  u ← tell e.surroundings "Choose from tests 1-8. 0 to run all: "
  (cnt, line) ← ece391_read e.disk e.surroundings 0 buf 127
  let chosen = in_memory (get_elem? line 0) >>= λ c. run_test e c
  let failed = tell e.surroundings "Can't read test #\n" >>= λ v. pure 2
  if cnt == minus_one then failed else chosen
