-- ===== src/Filesys.antt =====
-- student-distrib/filesys.c: the read-only file system. The image is a `Reader` from
-- `boot_block`: a byte of it may be missing, and reading it is a fault (`none`). The result of a
-- function is its return value, with what it leaves behind its pointer arguments.
pub mod Content
pub mod Names
pub mod Reading
use illinix_operating_system.Base.{
  ℕ, zero, suc, ◌+◌, ◌-◌, ◌*◌, ◌/◌, ◌%◌, ◌^◌, Bool, true, false, not, ◌&&◌, ◌||◌, Option, none,
  some, List, ltb, leb, ◌==◌, if◌then◌else◌, Reader, offset_by, ◌>>=◌, store, get_elem?, u32,
  minus_one, is_negative, load32,
}
use illinix_operating_system.Base.Int.{ℤ, pos, negsuc}
use illinix_operating_system.Strings.{strlen, strncmp, strncpy}
use illinix_operating_system.Pcb.{Pcb, FdStruct, bad_fd, set_fd}

abbrev pub file_name_size : ℕ
file_name_size = 32

abbrev pub num_dir : ℕ
num_dir = 63

abbrev pub data_block_size : ℕ
data_block_size = 4096

-- `dentry_t`.
pub record Dentry : Type 0 where
  pub file_name : List ℕ
  pub file_type : ℕ
  pub inode_num : ℕ

-- `boot_block->num_dir` and `boot_block->num_inodes`.
abbrev pub num_dir_at : ℕ
num_dir_at = 0

abbrev pub num_inodes_at : ℕ
num_inodes_at = 4

-- `&boot_block->directories[index]`, an entry of 64 bytes.
abbrev pub dentry_at : ℕ → ℕ
dentry_at index = 64 + 64 * index

-- `(void*)boot_block + (inode + 1) * DATA_BLOCK_SIZE`, in 32-bit arithmetic.
abbrev pub inode_at : ℕ → ℕ
inode_at inode = u32 ((inode + 1) * data_block_size)

-- The place of a data block: the boot block and the inodes come first.
abbrev pub data_block_at : ℕ → ℕ → ℕ
data_block_at num_inodes block_index = u32 ((1 + num_inodes + block_index) * data_block_size)

unfoldable pub read_dentry_by_index : Reader → ℕ → Dentry → Option (ℕ × Dentry)
read_dentry_by_index disk index dentry =
    let found = (do
      name ← strncpy dentry.file_name (offset_by disk (dentry_at index)) file_name_size
      file_type ← load32 disk (dentry_at index + 32)
      inode_num ← load32 disk (dentry_at index + 36)
      some (0, record { file_name = name; file_type = file_type; inode_num = inode_num })) in
    if ltb num_dir index then some (minus_one, dentry) else found

is_zero : ℤ → Bool
is_zero (pos n) = n == 0
is_zero (negsuc n) = false

-- How many bytes are compared: the longer name decides, up to the size of the field.
compare_length : ℕ → ℕ → ℕ
compare_length name_length file_name_length =
    let longer = if ltb file_name_length name_length then name_length else file_name_length in
    if ltb file_name_size longer then file_name_size else longer

-- Whether entry `i` has the name.
unfoldable pub entry_matches : Reader → Reader → ℕ → ℕ → Option Bool
unfolding compare_length is_zero
entry_matches disk fname name_length i = do
  file_name_length ← strlen (offset_by disk (dentry_at i))
  r ← strncmp fname (offset_by disk (dentry_at i)) (compare_length name_length file_name_length)
  some (is_zero r)

-- The loop over the directory, from entry `i` on.
find_dentry : ℕ → Reader → Reader → ℕ → ℕ → Dentry → Option (ℕ × Dentry)
find_dentry zero disk fname name_length i dentry = some (minus_one, dentry)
find_dentry (suc left) disk fname name_length i dentry = do
  same ← entry_matches disk fname name_length i
  let rest = find_dentry left disk fname name_length (i + 1) dentry
  if same then read_dentry_by_index disk i dentry else rest

-- The test for a null `fname` comes after `strlen` has read through the pointer: a null pointer
-- is a reader without bytes here, and faults before the test. No caller passes a null `dentry`.
unfoldable pub read_dentry_by_name : Reader → Reader → Dentry → Option (ℕ × Dentry)
unfolding find_dentry
read_dentry_by_name disk fname dentry = do
  name_length ← strlen fname
  entries ← load32 disk num_dir_at
  if ltb file_name_size name_length
      then some (minus_one, dentry)
      else find_dentry entries disk fname name_length 0 dentry

-- The byte at a position of a file, as the body of the loop of `read_data` finds it.
unfoldable pub file_byte : Reader → ℕ → ℕ → Option ℕ
file_byte disk inode offset = do
  block_index ← load32 disk (inode_at inode + 4 + 4 * (offset / data_block_size))
  num_inodes ← load32 disk num_inodes_at
  disk (data_block_at num_inodes block_index + offset % data_block_size)

-- The loop of `read_data` at index `i` of the buffer, with `length - i` rounds left. `offset`
-- stays below the length of the file, so `offset++` does not wrap.
read_data_loop : ℕ → Reader → ℕ → ℕ → List ℕ → ℕ → Option (ℕ × List ℕ)
read_data_loop zero disk inode offset buf i = do size ← load32 disk (inode_at inode); some (i, buf)
read_data_loop (suc left) disk inode offset buf i = do
  size ← load32 disk (inode_at inode)
  let rest = (do
    b ← file_byte disk inode offset
    buf' ← store buf i b
    read_data_loop left disk inode (offset + 1) buf' (i + 1))
  if ltb offset size then rest else some (i, buf)

unfoldable pub read_data : Reader → ℕ → ℕ → List ℕ → ℕ → Option (ℕ × List ℕ)
unfolding read_data_loop
read_data disk inode offset buf length = do
  num_inodes ← load32 disk num_inodes_at
  if ltb num_inodes inode
      then some (minus_one, buf)
      else read_data_loop length disk inode offset buf 0

-- `curr_pcb->fd_array[fd].file_pos = …`.
abbrev pub move_to : Pcb → ℕ → ℕ → Pcb
move_to pcb fd p = set_fd pcb fd (record (pcb.fd_array fd) { file_pos = u32 p })

unfoldable pub file_read : Reader → Pcb → ℕ → List ℕ → ℕ → Option (ℕ × Pcb × List ℕ)
file_read disk pcb fd buf nbytes =
    let open_file = pcb.fd_array fd in
    let read = (do
      (bytes_read, buf') ← read_data disk open_file.inode_num open_file.file_pos buf nbytes
      some (bytes_read, move_to pcb fd (open_file.file_pos + bytes_read), buf')) in
    if bad_fd fd then some (minus_one, pcb, buf) else read

pub file_write : ℕ → ℕ
file_write fd = if bad_fd fd then minus_one else minus_one

pub file_open : ℕ
file_open = 0

unfoldable pub file_close : ℕ → ℕ
file_close fd = 0

-- The loop of `dir_read` at index `i`: the result counts the characters copied.
dir_read_loop : ℕ → List ℕ → ℕ → List ℕ → ℕ → ℕ → Option (ℕ × List ℕ)
dir_read_loop zero name nbytes temp i bytes_read = some (bytes_read, temp)
dir_read_loop (suc left) name nbytes temp i bytes_read = do
  c ← get_elem? name i
  let copied = not (c == 0) && not (is_negative nbytes) && ltb i nbytes
  temp' ← store temp i (if copied then c else 0)
  dir_read_loop left name nbytes temp' (i + 1) (if copied then bytes_read + 1 else bytes_read)

-- `dentry` is the entry that lies uninitialised on the stack.
unfoldable pub dir_read : Reader → Pcb → ℕ → List ℕ → ℕ → Dentry → Option (ℕ × Pcb × List ℕ)
unfolding dir_read_loop
dir_read disk pcb fd buf nbytes junk =
    let position = (pcb.fd_array fd).file_pos in
    let read = (do
      (success, dentry) ← read_dentry_by_index disk position junk
      let name = (do
        (bytes_read, buf') ← dir_read_loop file_name_size dentry.file_name nbytes buf 0 0
        some (bytes_read, move_to pcb fd (position + 1), buf'))
      if success == minus_one then some (minus_one, pcb, buf) else name) in
    if bad_fd fd then some (minus_one, pcb, buf) else read

pub dir_write : ℕ → ℕ
dir_write fd = if bad_fd fd then minus_one else minus_one

pub dir_open : ℕ
dir_open = 0

unfoldable pub dir_close : ℕ → ℕ
dir_close fd = if bad_fd fd then minus_one else 0
