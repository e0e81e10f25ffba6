-- ===== src/Tests/Image.antt =====
-- A file system image with one program, for the witnesses.
use illinix_operating_system.Base.{
  ℕ, ◌-◌, ◌<◌, ◌≡◌, refl, arith, some, List, ◌∷◌, ◌++◌, replicate, Reader, Bool, true, false,
  Option, none, ap, ◌==◌, ◌&&◌, ◌||◌, ltb, leb, if◌then◌else◌, get_or, bytes_at, offset_by, load32,
  store, ◌>>=◌,
}
use illinix_operating_system.Base.Text.{codes}
use illinix_operating_system.Base.Table.{holds_below, holds_below-at}
use illinix_operating_system.Pcb.{Pcb, FdStruct, null}
use illinix_operating_system.Filesys.{
  Dentry, read_dentry_by_name, read_data, file_byte, entry_matches, read_dentry_by_index,
}
use illinix_operating_system.Filesys.Content.{IsFile}
use illinix_operating_system.Strings.{strlen, strncmp, strncpy}
use illinix_operating_system.Program.{parse_args, check_validity, load_file}
use illinix_operating_system.Program.Loading.{IsLoaded, load_file_lem}
use illinix_operating_system.Processes.{
  Processes, Context, enters, execute, execute_in, start_process, find_process, child_state,
}

abbrev pub junk_fd : FdStruct
junk_fd = record { file_operations = null; inode_num = 9; file_pos = 9; flags = 9; file_type = 0 }

abbrev pub junk_pcb : Pcb
junk_pcb = record {
  fd_array = λ i. junk_fd;
  parent = 0;
  process_num = 0;
  ebp = 0;
  esp = 0;
  args = replicate 140 7;
  tty = 0;
}

abbrev pub junk_dentry : Dentry
junk_dentry = record { file_name = replicate 32 0; file_type = 9; inode_num = 9 }

abbrev pub context : Context
context = record {
  caller = 0;
  ebp = 0;
  esp = 0;
  table_at = 0x50_0000;
  junk_dentry = junk_dentry;
  junk_bytes = replicate 4 0;
  junk_file_data = replicate 100 0;
  junk_pcb = junk_pcb;
  junk_header = replicate 40 0;
}

-- The file "shell" of 28 bytes, a program that starts at 0x8048100.
abbrev header : List ℕ
header = (0x7f ∷ 0x45 ∷ 0x4c ∷ 0x46 ∷ replicate 20 0) ++ (0 ∷ 0x81 ∷ 4 ∷ 8 ∷ replicate 12 0)

abbrev pub entry_point : ℕ
entry_point = 0x804_8100

abbrev pub stack_top : ℕ
stack_top = 0x83f_fffc

-- One entry and one inode.
abbrev pub image : Reader
image i = some (
    if i == 0 || i == 4
    then 1
    else if leb 64 i && ltb i 69
    then get_or (codes "shell") (i - 64) 0
    else if i == 96
    then 2
    else if i == 4096
    then 28
    else if leb 8192 i && ltb i 8220
    then get_or header (i - 8192) 0
    else 0)

abbrev pub disk : Reader
disk = offset_by image 0

abbrev content : ℕ → ℕ
content k = get_or header k 0

is_byte : Option ℕ → ℕ → Bool
is_byte none c = false
is_byte (some v) c = v == c

is_byte_lem : (o : Option ℕ) (c : ℕ) → is_byte o c ≡ true → o ≡ some c
unfolding is_byte
is_byte_lem none c h = absurd (ground arith)
is_byte_lem (some v) c h = ap some (ground arith)

bytes_table : holds_below 28 (λ k. is_byte (file_byte disk 0 k) (content k)) ≡ true
unfolding holds_below is_byte load32 file_byte
bytes_table = refl

has_byte : (k : ℕ) → k < 28 → file_byte disk 0 k ≡ some (content k)
has_byte k h =
    is_byte_lem (file_byte disk 0 k) (content k)
      (holds_below-at (λ k. is_byte (file_byte disk 0 k) (content k)) k 28 h bytes_table)

image-IsFile : IsFile disk 0 28 content
unfolding load32 file_byte
image-IsFile = record {
  num_inodes = 1;
  has_inodes = refl;
  in_range = omega arith;
  has_size = refl;
  has_bytes = has_byte;
}

loading :
    (memory : ℕ → ℕ)
    → (memory' : ℕ → ℕ) × (load_file disk 0 (replicate 100 0) memory ≡ some memory')
      × IsLoaded content 0 28 memory memory'
loading memory =
    load_file_lem disk 0 28 content (replicate 100 0) memory image-IsFile (omega arith) refl

pub loaded_page : (ℕ → ℕ) → ℕ → ℕ
loaded_page memory = (loading memory).0

abbrev pub program : List ℕ
program = codes "shell" ++ replicate 27 0

abbrev found : Dentry
found = record { file_name = program; file_type = 2; inode_num = 0 }

is_valid : check_validity disk (bytes_at program) junk_dentry (replicate 4 0) ≡ some (0, found)
unfolding check_validity read_dentry_by_name strlen load32 store entry_matches strncmp
    read_dentry_by_index strncpy read_data file_byte
is_valid = refl

has_header : read_data disk 0 0 (replicate 40 0) 40 ≡ some (28, header)
unfolding load32 store read_data file_byte
has_header = refl

-- `execute` enters the program in any free process.
pub image_enters :
    (s : Processes) (command : Reader) (args : List ℕ) (n : ℕ)
    → parse_args command ≡ some (program, args)
    → find_process 6 s.processes 0 ≡ some n
    → execute disk context s command
      ≡ some
          (enters entry_point stack_top (child_state context s n args (loaded_page (s.memory n))))
unfolding execute execute_in start_process loaded_page load32
image_enters s command args n parsed free =
    rw (parsed, ◌>>=◌, free, is_valid, (loading (s.memory n)).1, has_header) refl
