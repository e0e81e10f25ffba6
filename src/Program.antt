-- ===== src/Program.antt =====
-- The helpers of `execute` in student-distrib/system.c: parsing the command, checking the file
-- and loading it.
pub mod Loading
pub mod Command
use illinix_operating_system.Base.{
  ℕ, zero, suc, ◌+◌, ◌-◌, ◌*◌, ◌%◌, ◌^◌, Bool, true, false, not, ◌&&◌, ◌||◌, Option, none, some,
  List, ltb, leb, ◌==◌, if◌then◌else◌, Reader, ◌>>=◌, store, minus_one, get_elem?, u32, get_or,
  load32, replicate, bytes_at,
}
use illinix_operating_system.Pcb.{Pcb, create_pcb}
use illinix_operating_system.Calls.{Devices, close}
use illinix_operating_system.Paging.{Paging, create_page, four_meg, kernel_bottom}
use illinix_operating_system.Filesys.{Dentry, read_dentry_by_name, read_data, inode_at}

abbrev pub command_size : ℕ
command_size = 133

abbrev pub virtual_addr : ℕ
virtual_addr = 0x8048000

-- The first loop of `parse_args` that copies, from index `i` on: the name of the program, up to
-- a space or a 0 byte. `fi` is `i`.
unfoldable pub copy_program : ℕ → Reader → List ℕ → ℕ → Option (ℕ × List ℕ)
copy_program zero command program i = some (i, program)
copy_program (suc left) command program i = do
  c ← command i
  let rest = store program i c >>= λ p. copy_program left command p (i + 1)
  if c == b' ' || c == 0 then some (i, program) else rest

-- The second, and the 0 byte after it.
unfoldable pub copy_args : ℕ → Reader → List ℕ → ℕ → ℕ → Option (List ℕ)
copy_args zero command args i ai = store args ai 0
copy_args (suc left) command args i ai = do
  c ← command i
  let rest = store args ai c >>= λ a. copy_args left command a (i + 1) (ai + 1)
  if c == 0 then store args ai 0 else rest

-- `program` has 32 bytes and `args` 140, all 0 after the first two loops.
unfoldable pub parse_args : Reader → Option (List ℕ × List ℕ)
unfolding copy_program copy_args
parse_args command = do
  (fi, program) ← copy_program command_size command (replicate 32 0) 0
  program' ← store program fi 0
  args ← copy_args (command_size - (fi + 1)) command (replicate 140 0) (fi + 1) 0
  some (program', args)

-- The test of the magic number on the four bytes.
is_executable : List ℕ → Bool
is_executable b =
    get_or b 0 0 == 0x7f && get_or b 1 0 == 0x45 && get_or b 2 0 == 0x4c && get_or b 3 0 == 0x46

-- `exe_check` holds `junk` where the file is shorter than four bytes.
unfoldable pub check_validity : Reader → Reader → Dentry → List ℕ → Option (ℕ × Dentry)
unfolding is_executable
check_validity disk program dentry junk = do
  (read_dentry_fail, found) ← read_dentry_by_name disk program dentry
  let valid = (do
    (n, exe_check) ← read_data disk found.inode_num 0 junk 4
    some (
      if not (found.file_type == 2) || not (is_executable exe_check) then minus_one else 0,
      found,
    ))
  if not (read_dentry_fail == 0) then some (minus_one, found) else valid

-- The end of the one page of 4 MB that `create_page` maps for the program.
abbrev pub page_end : ℕ
page_end = 0x840_0000

-- `memcpy(at, bytes, n)`, on the memory that the new program sees, from `virtual_addr` on: a byte
-- behind the page is a fault.
unfoldable pub copy_to : (ℕ → ℕ) → ℕ → List ℕ → ℕ → Option (ℕ → ℕ)
copy_to memory at bytes n =
    let copied : ℕ → ℕ =
      λ a. if leb at a && ltb a (at + n) then get_or bytes (a - at) 0 else memory a in
    if n == 0 || leb (at + n) page_end then some copied else none

-- The loop of `load_file`, on fuel. The -1 of a failed `read_data` is 2 ^ 32 - 1 bytes for
-- `memcpy`.
unfoldable pub load_file_loop : ℕ → Reader → ℕ → ℕ → List ℕ → (ℕ → ℕ) → ℕ → Option (ℕ → ℕ)
load_file_loop zero disk inode length file_data memory read_sofar = none
load_file_loop (suc fuel) disk inode length file_data memory read_sofar =
    let next = (do
      (bytes_read, data') ← read_data disk inode read_sofar file_data 100
      memory' ← copy_to memory (virtual_addr + read_sofar) data' bytes_read
      load_file_loop fuel disk inode length data' memory' (u32 (read_sofar + bytes_read))) in
    if read_sofar == length then some memory else next

-- Each round but the last reads a byte at least, so that a fuel of `length + 1` is enough.
unfoldable pub load_file : Reader → ℕ → List ℕ → (ℕ → ℕ) → Option (ℕ → ℕ)
load_file disk inode file_data memory = do
  length ← load32 disk (inode_at inode)
  load_file_loop (suc length) disk inode length file_data memory 0
