-- ===== src/Tests/Programs.antt =====
-- Witnesses for `cat` and `ls`.
use illinix_operating_system.Base.{
  ℕ, zero, suc, ◌+◌, ◌-◌, ◌≡◌, refl, arith, false, ◌&&◌, ◌||◌, some, List, [], ◌∷◌, replicate,
  if◌then◌else◌, ◌==◌, leb, ltb, Reader, bytes_at, load32, store,
}
use illinix_operating_system.Base.Int.{pos}
use illinix_operating_system.Screen.{Screen}
use illinix_operating_system.Terminal.Shown.{shown}
use illinix_operating_system.Strings.{strlen, strncmp, strncpy}
use illinix_operating_system.Pcb.{Pcb, FdStruct, create_pcb, null}
use illinix_operating_system.Filesys.{
  Dentry, file_byte, entry_matches, read_dentry_by_index, read_dentry_by_name,
}
use illinix_operating_system.Filesys.Content.{IsFile}
use illinix_operating_system.Calls.{Devices, Surroundings, getargs}
use illinix_operating_system.Calls.Descriptors.{create_pcb-IsValid}
use illinix_operating_system.Calls.Opening.{IsFirstFree}
use illinix_operating_system.Programs.{gives}
use illinix_operating_system.Programs.Cat.{cat}
use illinix_operating_system.Base.Text.{text}
use illinix_operating_system.Strings.Copy.{IsText}
use illinix_operating_system.Base.{offset_by, inl, ◌<◌}
use illinix_operating_system.Filesys.{dentry_at}
use illinix_operating_system.Programs.Ls.{ls}
use illinix_operating_system.Programs.Ls.Listing.{IsDirectory, listed, ls_lem}
use illinix_operating_system.Programs.Cat.Printing.{showing, cat_lem}

-- An image with one inode and one file "a" of three bytes, in the first data block.
abbrev disk : Reader
disk i = some (
    if i == 0 || i == 4
    then 1
    else if i == 64
    then b'a'
    else if i == 96
    then 2
    else if i == 4096
    then 3
    else if leb 8192 i && ltb i 8195
    then i - 8127
    else 0)

abbrev content : ℕ → ℕ
content k = 65 + k

disk-IsFile : IsFile disk 0 3 content
unfolding load32 file_byte
disk-IsFile = record {
  num_inodes = 1;
  has_inodes = refl;
  in_range = omega arith;
  has_size = refl;
  has_bytes = elim [
    | zero ↦ λ h. refl
    | suc zero ↦ λ h. refl
    | suc (suc zero) ↦ λ h. refl
    | suc (suc (suc k)) ↦ λ h. absurd (omega arith)
  ];
}

abbrev pub junk_fd : FdStruct
junk_fd = record { file_operations = null; inode_num = 9; file_pos = 9; flags = 9; file_type = 0 }

-- The argument of the program is "a".
abbrev pub junk_pcb : Pcb
junk_pcb = record {
  fd_array = λ i. junk_fd;
  parent = 0;
  process_num = 0;
  ebp = 0;
  esp = 0;
  args = b'a' ∷ replicate 139 0;
  tty = 0;
}

abbrev pub junk_dentry : Dentry
junk_dentry = record { file_name = replicate 32 0; file_type = 9; inode_num = 9 }

abbrev pub surroundings : Surroundings
surroundings = record {
  rtc_register = 0;
  rtc_flag = 1;
  rtc_turns = [];
  junk_rate = 0;
  junk_dentry = junk_dentry;
}

abbrev pub screen : Screen
screen = record {
  screen_x = 0;
  screen_y = 0;
  video_mem = λ a. 0;
  screen_buf = λ t a. 0;
  screen_loc_buf = λ t. (0, 0);
  ports = [];
}

abbrev devices : Devices
devices = record {
  terminal = record {
    terminal_buffer = λ i. 0;
    tail = λ t. pos 0;
    enter_status = false;
    active_tty = 0;
    screen = screen;
  };
  irq_mask = 0;
  ports = [];
}

abbrev buffer : List ℕ
buffer = b'a' ∷ replicate 1023 0

has_args : getargs (create_pcb junk_pcb) (replicate 1024 0) 1024 ≡ some (0, buffer)
unfolding getargs create_pcb store
has_args = refl

abbrev found : Dentry
found = record { file_name = b'a' ∷ replicate 31 0; file_type = 2; inode_num = 0 }

has_name : read_dentry_by_name disk (bytes_at buffer) junk_dentry ≡ some (0, found)
unfolding read_dentry_by_name strlen load32 entry_matches strncmp read_dentry_by_index strncpy store
has_name = refl

pub two-IsFirstFree : IsFirstFree (create_pcb junk_pcb) 2
unfolding create_pcb
two-IsFirstFree = record {
  from_two = omega arith;
  in_array = omega arith;
  free = refl;
  used_before = λ j a b. absurd (omega arith);
}

cat_lem_example :
    (p' : Pcb) × (cat 4 disk surroundings (replicate 1024 0) (create_pcb junk_pcb) devices
      ≡ gives 0 p' (showing devices (shown 3 content 0 screen)))
cat_lem_example =
    cat_lem disk surroundings (create_pcb junk_pcb) devices (replicate 1024 0) buffer found 2 3
      content has_args refl (create_pcb-IsValid junk_pcb) two-IsFirstFree has_name refl disk-IsFile
      (omega arith)

-- A directory of itself and the file "a".
abbrev pub listing : Reader
listing i = some (
    if i == 0 || i == 4 || i == 96
    then (if i == 0 then 2 else 1)
    else if i == 64
    then b'.'
    else if i == 128
    then b'a'
    else if i == 160
    then 2
    else 0)

abbrev pub here : Dentry
here = record { file_name = b'.' ∷ replicate 31 0; file_type = 1; inode_num = 0 }

pub has_here : read_dentry_by_name listing (text ".") junk_dentry ≡ some (0, here)
unfolding read_dentry_by_name strlen load32 entry_matches strncmp read_dentry_by_index strncpy store
has_here = refl

abbrev size : ℕ → ℕ
size i = if i == 2 then 0 else 1

abbrev char : ℕ → ℕ → ℕ
char i j = if i == 0 then b'.' else b'a'

one-IsText : (i : ℕ) → i < 2 → IsText (offset_by listing (dentry_at i)) 32 1
one-IsText zero h = record {
  fits = omega arith;
  body = elim [
    | zero ↦ λ l. (b'.', refl, λ e. ground (arith, e))
    | suc j ↦ λ l. absurd (omega arith)
  ];
  ends = (0, refl, inl refl);
}
one-IsText (suc zero) h = record {
  fits = omega arith;
  body = elim [
    | zero ↦ λ l. (b'a', refl, λ e. ground (arith, e))
    | suc j ↦ λ l. absurd (omega arith)
  ];
  ends = (0, refl, inl refl);
}
one-IsText (suc (suc i)) h = absurd (omega arith)

listing-IsDirectory : IsDirectory listing 2 size char
unfolding load32
listing-IsDirectory = record {
  file_type = λ i. if i == 0 then 1 else if i == 1 then 2 else 0;
  inode_num = λ i. 0;
  entry = elim [
    | zero ↦ λ h. record { name = one-IsText 0 (omega arith); has_type = refl; has_inode = refl }
    | suc zero ↦
        λ h. record { name = one-IsText 1 (omega arith); has_type = refl; has_inode = refl }
    | suc (suc zero) ↦ λ h. record {
      name = record {
        fits = omega arith;
        body = λ j l. absurd (omega arith);
        ends = (0, refl, inl refl);
      };
      has_type = refl;
      has_inode = refl;
    }
    | suc (suc (suc i)) ↦ λ h. absurd (omega arith)
  ];
  named = λ i h. ground arith;
  empty = refl;
  room = omega arith;
  chars = elim [
    | zero ↦ λ j h l. let z : j ≡ 0 = omega arith in rw z refl
    | suc zero ↦ λ j h l. let z : j ≡ 0 = omega arith in rw z refl
    | suc (suc i) ↦ λ j h l. absurd (omega arith)
  ];
}

ls_lem_example :
    (p' : Pcb) × (ls 3 listing surroundings (replicate 33 0) (create_pcb junk_pcb) devices
      ≡ gives 0 p' (showing devices (listed 2 size char 0 screen)))
ls_lem_example =
    ls_lem listing surroundings (create_pcb junk_pcb) devices (replicate 33 0) here 2 2 size char
      refl (omega arith) (create_pcb-IsValid junk_pcb) two-IsFirstFree has_here refl
      listing-IsDirectory
