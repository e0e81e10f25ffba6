-- ===== src/Tests/Files.antt =====
-- Witnesses for the strings, the file system and the loading of programs.
use illinix_operating_system.Base.{
  ℕ, zero, suc, ◌+◌, ◌-◌, ◌<◌, ◌≡◌, ◌≢◌, inl, refl, arith, ◌&&◌, ◌||◌, some, List, [], ◌∷◌,
  replicate, if◌then◌else◌, ◌==◌, leb, ltb, Reader, bytes_at, load32,
}
use illinix_operating_system.Strings.{strncpy, itoa}
use illinix_operating_system.Strings.Copy.{IsField, strncpy_lem}
use illinix_operating_system.Strings.Numerals.{IsNumeral, itoa_lem}
use illinix_operating_system.Pcb.{Pcb, FdStruct, file}
use illinix_operating_system.Filesys.{read_data, file_read, file_byte, move_to}
use illinix_operating_system.Filesys.Content.{IsFile, IsChunk, read_data_lem}
use illinix_operating_system.Filesys.Reading.{file_read_lem}
use illinix_operating_system.Program.{load_file, parse_args}
use illinix_operating_system.Program.Command.{IsWord, parse_args_lem}
use illinix_operating_system.Program.Loading.{IsLoaded, load_file_lem}

-- An image with one inode and one file "a" of three bytes, in the first data block.
abbrev disk : Reader
disk i = some (
    if i == 0 || i == 4
    then 1
    else if i == 64
    then b'a'
    else if i == 96
    then 2
    else if i == 4096
    then 3
    else if leb 8192 i && ltb i 8195
    then i - 8127
    else 0)

abbrev content : ℕ → ℕ
content k = 65 + k

disk-IsFile : IsFile disk 0 3 content
unfolding load32 file_byte
disk-IsFile = record {
  num_inodes = 1;
  has_inodes = refl;
  in_range = omega arith;
  has_size = refl;
  has_bytes = elim [
    | zero ↦ λ h. refl
    | suc zero ↦ λ h. refl
    | suc (suc zero) ↦ λ h. refl
    | suc (suc (suc k)) ↦ λ h. absurd (omega arith)
  ];
}

read_data_lem_example :
    (out : List ℕ) × (read_data disk 0 1 (0 ∷ 0 ∷ 0 ∷ 0 ∷ []) 4 ≡ some (2, out))
    × IsChunk content 1 0 2 (0 ∷ 0 ∷ 0 ∷ 0 ∷ []) out
read_data_lem_example =
    read_data_lem disk 0 3 content 1 (0 ∷ 0 ∷ 0 ∷ 0 ∷ []) 4 disk-IsFile (omega arith)

load_file_lem_example :
    (memory' : ℕ → ℕ) × (load_file disk 0 (replicate 100 0) (λ a. 0) ≡ some memory')
    × IsLoaded content 0 3 (λ a. 0) memory'
load_file_lem_example =
    load_file_lem disk 0 3 content (replicate 100 0) (λ a. 0) disk-IsFile (omega arith) refl

abbrev fd_struct : FdStruct
fd_struct = record { file_operations = file; inode_num = 0; file_pos = 1; flags = 1; file_type = 2 }

abbrev pcb : Pcb
pcb = record {
  fd_array = λ i. fd_struct;
  parent = 0;
  process_num = 0;
  ebp = 0;
  esp = 0;
  args = [];
  tty = 0;
}

file_read_lem_example :
    (out : List ℕ) × (file_read disk pcb 2 (0 ∷ 0 ∷ []) 2 ≡ some (2, move_to pcb 2 3, out))
    × IsChunk content 1 0 2 (0 ∷ 0 ∷ []) out
file_read_lem_example =
    file_read_lem disk pcb 2 3 content (0 ∷ 0 ∷ []) 2 (omega arith) disk-IsFile (omega arith)

itoa_lem_example : (out : List ℕ) × (itoa 391 (replicate 40 0) 16 ≡ some out) × IsNumeral 391 16 out
itoa_lem_example =
    itoa_lem 391 16 (replicate 40 0) (omega arith) (omega arith) (omega arith) (omega arith)

abbrev word : List ℕ
word = b'a' ∷ b'b' ∷ 0 ∷ 7 ∷ []

word_body : (j : ℕ) → j < 2 → (b : ℕ) × (bytes_at word j ≡ some b) × (b ≢ 0)
word_body zero h = (b'a', refl, λ e. ground (arith, e))
word_body (suc zero) h = (b'b', refl, λ e. ground (arith, e))
word_body (suc (suc j)) h = absurd (omega arith)

strncpy_lem_example :
    (out : List ℕ) × (strncpy (9 ∷ 9 ∷ 9 ∷ 9 ∷ []) (bytes_at word) 3 ≡ some out)
    × IsField (bytes_at word) 3 2 (9 ∷ 9 ∷ 9 ∷ 9 ∷ []) out
strncpy_lem_example =
    strncpy_lem (9 ∷ 9 ∷ 9 ∷ 9 ∷ []) (bytes_at word) 3 2 (omega arith)
      (record { fits = omega arith; body = word_body; ends = (0, refl, inl refl) })

-- The command "a bc".
abbrev typed_line : Reader
typed_line i = some (
    if i == 0
    then b'a'
    else if i == 1
    then b' '
    else if i == 2
    then b'b'
    else if i == 3
    then b'c'
    else 0)

parse_args_lem_example :
    (program args : List ℕ) × (parse_args typed_line ≡ some (program, args))
    × IsWord typed_line 0 0 1 (replicate 32 0) program
    × IsWord typed_line 2 0 2 (replicate 140 0) args
parse_args_lem_example =
    parse_args_lem typed_line 1 2 (omega arith) (omega arith)
      (elim [
        | zero ↦ λ h. (b'a', refl, (λ e. ground (arith, e)), λ e. ground (arith, e))
        | suc j ↦ λ h. absurd (omega arith)
      ])
      refl
      (elim [
        | zero ↦ λ h. (b'b', refl, λ e. ground (arith, e))
        | suc zero ↦ λ h. (b'c', refl, λ e. ground (arith, e))
        | suc (suc j) ↦ λ h. absurd (omega arith)
      ])
      refl
