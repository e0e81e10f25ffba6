-- ===== src/Terminal.antt =====
-- student-distrib/dev/terminal.c: the line buffers of the three terminals and the screen.
-- `terminal_buffer[t][i]` is at `t * 1025 + i` of one function, so that an index beyond a row
-- meets the next row, as it does in memory.
pub mod Line
pub mod Input
pub mod Output
pub mod Shown
use illinix_operating_system.Base.{
  ℕ, zero, suc, ◌+◌, ◌-◌, ◌*◌, ◌^◌, Bool, true, false, not, ◌&&◌, ◌||◌, Option, none, some, List,
  ltb, leb, ◌==◌, if◌then◌else◌, Reader, ◌>>=◌, store, minus_one, is_negative,
}
use illinix_operating_system.Base.Int.{ℤ, pos, negsuc, ◌+ℤ◌, ◌-ℤ◌, ltb_ℤ}
use illinix_operating_system.Screen.{Screen, putc, bksp, clear, update, update_row}

abbrev pub max_tty : ℕ
max_tty = 3

abbrev pub max_buffer_size : ℕ
max_buffer_size = 1025

-- The globals of terminal.c, with the active terminal and the screen. `tail` is the index of the
-- last character of a line, or -1.
pub record Terminal : Type 0 where
  pub terminal_buffer : ℕ → ℕ
  pub tail : ℕ → ℤ
  pub enter_status : Bool
  pub active_tty : ℕ
  pub screen : Screen

abbrev pub buffer_at : ℕ → ℕ → ℕ
buffer_at t i = t * max_buffer_size + i

-- An index as a number; it is used where the index is not below 0.
abbrev pub index : ℤ → ℕ
index (pos n) = n
index (negsuc n) = 0

-- `tail + 1`, the number of characters of a line.
abbrev pub line_length : ℤ → ℕ
line_length (pos n) = suc n
line_length (negsuc n) = 0

-- The first loop of `terminal_read`, from index `i` on: it copies into `dest`.
pub copy_line : ℕ → (ℕ → ℕ) → ℕ → List ℕ → ℕ → Option (List ℕ)
copy_line zero buffer target dest i = some dest
copy_line (suc left) buffer target dest i =
    store dest i (buffer (buffer_at target i)) >>= λ d. copy_line left buffer target d (i + 1)

-- The second loop, from index `i` on: it moves the rest of the line down.
pub shift_line : ℕ → ℕ → ℕ → (ℕ → ℕ) → ℕ → ℕ → ℕ
shift_line zero target actual_copy buffer i = buffer
shift_line (suc left) target actual_copy buffer i =
    shift_line left target actual_copy
      (update buffer (buffer_at target (i - actual_copy)) (buffer (buffer_at target i))) (i + 1)

-- What a read does: it goes on waiting, it returns, or it faults.
pub data ReadResult : Type 0 where
  waits : ReadResult
  returns : ℕ → List ℕ → Terminal → ReadResult
  faults : ReadResult

-- `tail[target] -= actual_copy`, and the moved rest.
after_read : Terminal → ℕ → ℕ → Terminal
after_read t target actual_copy =
    let length = line_length (t.tail target) in
    record t {
      enter_status = false;
      terminal_buffer =
          shift_line (length - actual_copy) target actual_copy t.terminal_buffer actual_copy;
      tail = update_row t.tail target (t.tail target -ℤ pos actual_copy);
    }

-- The return of `terminal_read` after the first loop and its 0 byte.
finish_read : Terminal → ℕ → ℕ → Option (List ℕ) → ReadResult
finish_read t target actual_copy none = faults
finish_read t target actual_copy (some dest) =
    returns actual_copy dest (after_read t target actual_copy)

-- The second loop for a negative `actual_copy`, which is `back` below 0: it moves what lies at
-- `at` of `terminal_buffer`, and further on, up.
unfoldable pub shift_up : ℕ → ℕ → (ℕ → ℕ) → ℕ → ℕ → ℕ
shift_up zero back buffer at = buffer
shift_up (suc left) back buffer at =
    shift_up left back (update buffer (at + back) (buffer at)) (at + 1)

-- `terminal_read` for `nbytes` that is `back` below 0. The line becomes longer by what lies before
-- it. What lies outside `terminal_buffer` is not known, and the read faults if it comes into it.
read_backwards : Terminal → ℕ → ℕ → Option (List ℕ) → ReadResult
read_backwards t target back none = faults
read_backwards t target back (some dest) =
    let length = line_length (t.tail target) in
    let start = buffer_at target 0 in
    let longer = record t {
      enter_status = false;
      terminal_buffer = shift_up (length + back) back t.terminal_buffer (start - back);
      tail = update_row t.tail target (t.tail target +ℤ pos back);
    } in
    if leb back start && leb (start + length + back) (max_tty * max_buffer_size)
    then returns (2 ^ 32 - back) dest longer
    else faults

-- `nbytes` is an `int`: from 2 ^ 31 on it is negative, and no character is copied. The read spins
-- until `enter_status` is set. The 0 byte goes behind the last character that is copied.
unfoldable pub terminal_read : Terminal → List ℕ → ℕ → ReadResult
unfolding after_read finish_read read_backwards
terminal_read t buf nbytes =
    let target = t.active_tty in
    let length = line_length (t.tail target) in
    let actual_copy = if ltb nbytes length then nbytes else length in
    let copied =
      copy_line actual_copy t.terminal_buffer target buf 0 >>= λ dest. store dest actual_copy 0 in
    let result = finish_read t target actual_copy copied in
    let backwards = read_backwards t target (2 ^ 32 - nbytes) (store buf 0 0) in
    if t.enter_status
    then (if length == 0
        then returns 0 buf (record t { enter_status = false })
        else if is_negative nbytes
        then backwards
        else result)
    else waits

-- One character of `terminal_write` through a descriptor other than 1, the keyboard's path, when
-- it is neither a backspace nor a newline.
unfoldable pub append_char : Terminal → ℕ → Terminal
append_char t input =
    let target = t.active_tty in
    let next = t.tail target +ℤ pos 1 in
    let kept = record t {
      tail = update_row t.tail target next;
      terminal_buffer = update t.terminal_buffer (buffer_at target (index next)) input;
    } in
    if ltb_ℤ (t.tail target) (pos max_buffer_size) then kept else t

-- A backspace on the keyboard's path.
unfoldable pub erase_char : Terminal → Terminal
erase_char t =
    let target = t.active_tty in
    let erased = record t {
      tail = update_row t.tail target (t.tail target -ℤ pos 1);
      screen = bksp t.screen;
    } in
    if ltb_ℤ (negsuc 0) (t.tail target) then erased else t

-- The loop of `terminal_write` at index `i - 1` of the buffer, with the return value of the
-- whole call.
terminal_write_from : ℕ → ℕ → Reader → ℕ → ℕ → Terminal → Option (ℕ × Terminal)
terminal_write_from zero fd buf nbytes i t = some (nbytes, t)
terminal_write_from (suc left) fd buf nbytes i t = do
  input ← buf i
  let keyboard = not (fd == 1)
  let kept = (if keyboard then append_char t input else t)
  let rest =
      terminal_write_from left fd buf nbytes (i + 1)
        (record kept { screen = putc input kept.screen })
  if keyboard && input == 8
      then some (0, erase_char t)
      else if keyboard && input == b'\n'
      then some (1, record t { enter_status = true; screen = putc input t.screen })
      else rest

-- `i <= nbytes` fails at once for a negative `nbytes`.
unfoldable pub terminal_write : ℕ → Reader → ℕ → Terminal → Option (ℕ × Terminal)
unfolding terminal_write_from append_char erase_char
terminal_write fd buf nbytes t =
    if is_negative nbytes then some (nbytes, t) else terminal_write_from nbytes fd buf nbytes 0 t

unfoldable pub terminal_open : Terminal → ℕ × Terminal
terminal_open t = (
  0,
  record t { screen = clear t.screen; tail = λ i. if ltb i max_tty then negsuc 0 else t.tail i },
)

unfoldable pub terminal_close : Terminal → ℕ × Terminal
terminal_close t = (0, record t { tail = update_row t.tail t.active_tty (negsuc 0) })

unfoldable pub null_func : ℕ
null_func = minus_one
