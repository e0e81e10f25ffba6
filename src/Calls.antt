-- ===== src/Calls.antt =====
-- The system calls on descriptors, arguments and video memory of student-distrib/system.c. A
-- call reads its arguments from the registers ebx, ecx and edx; they are the arguments here, so
-- that `close fd` is the call with `fd` in ebx.
pub mod Descriptors
pub mod Opening
pub mod Keeping
pub mod Closing
pub mod Arguments
pub mod Transfer
use illinix_operating_system.Base.{
  ℕ, zero, suc, ◌+◌, ◌-◌, Bool, true, false, not, ◌&&◌, ◌||◌, Option, none, some, List, [], ◌++◌,
  ltb, leb, ◌==◌, if◌then◌else◌, Reader, ◌>>=◌, store, minus_one, is_negative, get_elem?, u32,
}
use illinix_operating_system.Base.Ports.{PortWrite}
use illinix_operating_system.Pcb.{
  Pcb, FdStruct, FileOperations, null, terminal_input, terminal_output, rtc, directory, file,
  fd_array_size, bad_fd, set_fd,
}
use illinix_operating_system.Filesys.{
  Dentry, read_dentry_by_name, read_data, file_read, file_write, file_close, dir_read, dir_write,
  dir_close,
}
use illinix_operating_system.Rtc.{Waited, rtc_open, rtc_close, rtc_read, rtc_write}
use illinix_operating_system.Terminal.{
  Terminal, ReadResult, waits, returns, faults, terminal_read, terminal_write, terminal_close,
  null_func,
}
use illinix_operating_system.Paging.{Paging, set_vidmap, four_meg}

abbrev pub args_arr_size : ℕ
args_arr_size = 140

abbrev pub user_prog_loc : ℕ
user_prog_loc = 0x8000000

-- The devices that a descriptor may reach: the terminal, and the clock through its ports and the
-- interrupt mask.
pub record Devices : Type 0 where
  pub terminal : Terminal
  pub irq_mask : ℕ
  pub ports : List PortWrite

-- What the world gives to a call: the clock's register, what its interrupts left in `flag` and
-- whether they come while a read waits, and
-- what lies uninitialised on the stack.
pub record Surroundings : Type 0 where
  pub rtc_register : ℕ
  pub rtc_flag : ℕ
  pub rtc_turns : List Bool
  pub junk_rate : ℕ
  pub junk_dentry : Dentry

-- A call goes on waiting, faults, or returns a value with what it leaves.
pub data CallResult : Type 0 where
  call_waits : CallResult
  call_faults : CallResult
  call_returns : ℕ → List ℕ → Pcb → Devices → CallResult

or_fault : List ℕ → Devices → Option (ℕ × Pcb × List ℕ) → CallResult
or_fault buf d none = call_faults
or_fault buf d (some (r, pcb, out)) = call_returns r out pcb d

read_terminal : Pcb → Devices → ReadResult → CallResult
read_terminal pcb d waits = call_waits
read_terminal pcb d faults = call_faults
read_terminal pcb d (returns r out t) = call_returns r out pcb (record d { terminal = t })

read_clock : Pcb → List ℕ → Devices → Option Waited → CallResult
read_clock pcb buf d none = call_waits
read_clock pcb buf d (some w) =
    call_returns w.result buf pcb (record d { irq_mask = w.mask; ports = d.ports ++ w.ports })

-- The path of `read` without a jump table.
read_plain : Reader → Pcb → ℕ → List ℕ → ℕ → Option (ℕ × Pcb × List ℕ)
read_plain disk pcb fd buf nbytes =
    let f = pcb.fd_array fd in
    let read = (do
      (n, out) ← read_data disk f.inode_num f.file_pos buf nbytes
      some (n, set_fd pcb fd (record f { file_pos = u32 (f.file_pos + n) }), out)) in
    if f.file_type == 1 then read else some (0, pcb, buf)

-- `file_operations->read(fd, buf, nbytes)`.
read_through : FileOperations → Reader → Surroundings → Pcb → Devices → ℕ → List ℕ → ℕ → CallResult
read_through null disk w pcb d fd buf nbytes = or_fault buf d (read_plain disk pcb fd buf nbytes)
read_through terminal_input disk w pcb d fd buf nbytes =
    read_terminal pcb d (terminal_read d.terminal buf nbytes)
read_through terminal_output disk w pcb d fd buf nbytes = call_returns null_func buf pcb d
read_through rtc disk w pcb d fd buf nbytes =
    read_clock pcb buf d (rtc_read d.irq_mask w.rtc_flag w.rtc_turns)
read_through directory disk w pcb d fd buf nbytes =
    or_fault buf d (dir_read disk pcb fd buf nbytes w.junk_dentry)
read_through file disk w pcb d fd buf nbytes = or_fault buf d (file_read disk pcb fd buf nbytes)

unfoldable pub read : Reader → Surroundings → Pcb → Devices → ℕ → List ℕ → ℕ → CallResult
unfolding read_through read_terminal read_clock read_plain or_fault
read disk w pcb d fd buf nbytes =
    let f = pcb.fd_array fd in
    let through = read_through f.file_operations disk w pcb d fd buf nbytes in
    if bad_fd fd
    then call_returns minus_one buf pcb d
    else if f.flags == 0
    then call_returns minus_one buf pcb d
    else through

-- `file_operations->write(fd, buf, nbytes)`; a null pointer is a fault.
write_through : FileOperations → Surroundings → Devices → ℕ → Reader → ℕ → Option (ℕ × Devices)
write_through null w d fd buf nbytes = none
write_through terminal_input w d fd buf nbytes = some (null_func, d)
write_through terminal_output w d fd buf nbytes =
    terminal_write fd buf nbytes d.terminal >>= λ (r, t). some (r, record d { terminal = t })
write_through rtc w d fd buf nbytes =
    rtc_write w.rtc_register w.junk_rate buf nbytes >>= λ (r, sent).
    some (r, record d { ports = d.ports ++ sent })
write_through directory w d fd buf nbytes = some (dir_write fd, d)
write_through file w d fd buf nbytes = some (file_write fd, d)

unfoldable pub write : Surroundings → Pcb → Devices → ℕ → Reader → ℕ → Option (ℕ × Devices)
unfolding write_through
write w pcb d fd buf nbytes =
    let f = pcb.fd_array fd in
    let through = write_through f.file_operations w d fd buf nbytes in
    if bad_fd fd then some (minus_one, d) else if f.flags == 1 then through else some (minus_one, d)

-- The loop of `open` over the descriptors from `i` on, up to the first that is free.
pub find_free : ℕ → Pcb → ℕ → Option ℕ
find_free zero pcb i = none
find_free (suc left) pcb i =
    let rest = find_free left pcb (i + 1) in if (pcb.fd_array i).flags == 0 then some i else rest

-- The four assignments of a case of the `switch` in `open`.
opened : FdStruct → ℕ → FileOperations → FdStruct
opened old inode ops = record old {
  inode_num = inode;
  file_pos = 0;
  flags = 1;
  file_operations = ops;
}

-- The `switch` of `open` on the type of the file.
open_as : Surroundings → Pcb → Devices → ℕ → Dentry → ℕ × Pcb × Devices
open_as w pcb d fd dentry =
    let old = pcb.fd_array fd in
    let (r, sent) = rtc_open w.rtc_register in
    if dentry.file_type == 0
    then (fd, set_fd pcb fd (opened old 0 rtc), record d { ports = d.ports ++ sent })
    else if dentry.file_type == 1
    then (fd, set_fd pcb fd (opened old 0 directory), d)
    else if dentry.file_type == 2
    then (fd, set_fd pcb fd (opened old dentry.inode_num file), d)
    else (0, pcb, d)

-- `open` with the descriptor that the loop found.
open_at : Option ℕ → Reader → Surroundings → Pcb → Devices → Reader → Option (ℕ × Pcb × Devices)
open_at none disk w pcb d filename = some (minus_one, pcb, d)
open_at (some fd) disk w pcb d filename = do
  (r, dentry) ← read_dentry_by_name disk filename w.junk_dentry
  if r == minus_one then some (minus_one, pcb, d) else some (open_as w pcb d fd dentry)

-- `open`.
unfoldable pub open_descriptor :
    Reader → Surroundings → Pcb → Devices → Reader → Option (ℕ × Pcb × Devices)
unfolding find_free open_at open_as opened
open_descriptor disk w pcb d filename =
    open_at (find_free (fd_array_size - 2) pcb 2) disk w pcb d filename

-- `file_operations && 0 != file_operations->close(fd)`, with what the call does to the terminal.
close_through : FileOperations → ℕ → Devices → Bool × Devices
close_through null fd d = (false, d)
close_through terminal_input fd d =
    let (r, t) = terminal_close d.terminal in (not (r == 0), record d { terminal = t })
close_through terminal_output fd d =
    let (r, t) = terminal_close d.terminal in (not (r == 0), record d { terminal = t })
close_through rtc fd d = (not (rtc_close fd == 0), d)
close_through directory fd d = (not (dir_close fd == 0), d)
close_through file fd d = (not (file_close fd == 0), d)

unfoldable pub close : Pcb → Devices → ℕ → ℕ × Pcb × Devices
unfolding close_through
close pcb d fd =
    let f = pcb.fd_array fd in
    let (failed, d') = close_through f.file_operations fd d in
    if is_negative fd || ltb fd 2 || leb fd_array_size fd
    then (minus_one, pcb, d)
    else if f.flags == 0
    then (minus_one, pcb, d)
    else (if failed then minus_one else 0, set_fd pcb fd (record f { flags = 0 }), d')

-- The loop of `getargs` from index `i` on.
getargs_loop : ℕ → List ℕ → List ℕ → ℕ → Option (List ℕ)
getargs_loop zero args buf i = some buf
getargs_loop (suc left) args buf i = do
  c ← get_elem? args i
  b ← store buf i c
  getargs_loop left args b (i + 1)

unfoldable pub getargs : Pcb → List ℕ → ℕ → Option (ℕ × List ℕ)
unfolding getargs_loop
getargs pcb buf nbytes =
    let positive = if ltb args_arr_size nbytes then args_arr_size else nbytes in
    let toread = if is_negative nbytes then 0 else positive in
    getargs_loop toread pcb.args buf 0 >>= λ out. some (0, out)

-- The result: the return value, what is stored at `*screen_start`, if anything, and the tables.
unfoldable pub vidmap : ℕ → Paging → ℕ → ℕ × Option ℕ × Paging
vidmap table_at p screen_start =
    let (start, p') = set_vidmap table_at p in
    if screen_start == 0
      || ltb screen_start user_prog_loc
      || ltb (user_prog_loc + four_meg) screen_start
    then (minus_one, none, p)
    else (0, some start, p')

pub set_handler : ℕ → ℕ → ℕ
set_handler signum handler_address = minus_one

pub sigreturn : ℕ
sigreturn = minus_one
