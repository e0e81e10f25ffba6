-- ===== src/Tests/Rounds.antt =====
-- Witnesses for pingpong and grep.
use illinix_operating_system.Base.{
  ◌||◌, some, false, ◌+◌, ◌==◌, if◌then◌else◌, ℕ, zero, suc, ◌≡◌, refl, arith, true, List, [], ◌∷◌,
  replicate, Reader, load32, store,
}
use illinix_operating_system.Base.Text.{text, codes}
use illinix_operating_system.Strings.{strlen, strncmp, strncpy}
use illinix_operating_system.Pcb.{Pcb}
use illinix_operating_system.Filesys.{
  Dentry, file_byte, entry_matches, read_dentry_by_index, read_dentry_by_name,
}
use illinix_operating_system.Calls.{Devices, Surroundings}
use illinix_operating_system.Programs.{gives}
use illinix_operating_system.Programs.Pingpong.{pingpong, pingpong_loop}
use illinix_operating_system.Programs.Pingpong.Bouncing.{letter, show_bounces}
use illinix_operating_system.Programs.Pingpong.Starting.{HasRtc, pingpong_lem}
use illinix_operating_system.Filesys.Content.{IsFile}
use illinix_operating_system.Programs.Grep.{do_one_file}
use illinix_operating_system.Programs.Grep.Searching.{IsSearch}
use illinix_operating_system.Programs.Grep.Scanning.{is_line, are_lines, shows_matches}
use illinix_operating_system.Programs.Grep.Files.{content_byte, do_one_file_lem}
use illinix_operating_system.Tests.Programs.{two-IsFirstFree, screen, surroundings, junk_dentry}
use illinix_operating_system.Tests.Userland.{typing, process, process-HasOutput}

-- An image with the clock as its only file, and a clock that ticks at the second turn.
abbrev clock_disk : Reader
clock_disk i = some (
    if i == 0
    then 1
    else if i == 64
    then b'r'
    else if i == 65
    then b't'
    else if i == 66
    then b'c'
    else 0)

abbrev ticking : Surroundings
ticking = record surroundings { rtc_turns = false ∷ true ∷ [] }

clock-HasRtc : HasRtc clock_disk ticking
unfolding read_dentry_by_name strlen load32 entry_matches strncmp read_dentry_by_index strncpy store
clock-HasRtc = record {
  dentry = record { file_name = b'r' ∷ b't' ∷ b'c' ∷ replicate 29 0; file_type = 0; inode_num = 0 };
  found = refl;
  clock = refl;
  register = omega arith;
  turns = 1;
  later = [];
  ticks = refl;
}

pingpong_lem_example :
    (out : List ℕ) × (p' : Pcb) × (d' : Devices) × (pingpong
        (2 + 1)
        clock_disk
        ticking
        (replicate 81 0)
        (replicate 4 0)
        process
        (typing "a")
      ≡ pingpong_loop 1
          (record { disk = clock_disk; surroundings = ticking; rtc_fd = 2 })
          (letter 2)
          (out, replicate 4 0)
          p'
          d')
    × (d'.terminal.screen ≡ show_bounces 2 0 screen)
pingpong_lem_example =
    pingpong_lem 2 1 clock_disk ticking 2 (replicate 81 0) (replicate 4 0) process (typing "a")
      process-HasOutput two-IsFirstFree clock-HasRtc refl

-- An image with one file "a", which holds the line "ab".
abbrev line_disk : Reader
line_disk i = some (
    if i == 0 || i == 4
    then 1
    else if i == 64 || i == 8192
    then b'a'
    else if i == 96
    then 2
    else if i == 4096
    then 3
    else if i == 8193
    then b'b'
    else if i == 8194
    then b'\n'
    else 0)

line-IsFile : IsFile line_disk 0 3 (content_byte (codes "ab" ∷ []))
unfolding load32 file_byte
line-IsFile = record {
  num_inodes = 1;
  has_inodes = refl;
  in_range = omega arith;
  has_size = refl;
  has_bytes = elim [
    | zero ↦ λ h. refl
    | suc zero ↦ λ h. refl
    | suc (suc zero) ↦ λ h. refl
    | suc (suc (suc k)) ↦ λ h. absurd (omega arith)
  ];
}

abbrev line_dentry : Dentry
line_dentry = record { file_name = b'a' ∷ replicate 31 0; file_type = 2; inode_num = 0 }

has_line_file : read_dentry_by_name line_disk (text "a") junk_dentry ≡ some (0, line_dentry)
unfolding read_dentry_by_name strlen load32 entry_matches strncmp read_dentry_by_index strncpy store
has_line_file = refl

letter-IsSearch :
    IsSearch
      (record { surroundings = surroundings; s = text "b"; s_len = 1; fname = text "a" })
      (codes "b")
      (codes "a")
letter-IsSearch = record {
  text = (refl, omega arith, refl);
  size = refl;
  some_text = omega arith;
  signed = λ c e. ground (arith, e);
  file = (refl, omega arith, refl);
  short = omega arith;
}

only_line : are_lines (codes "ab" ∷ []) ≡ true
unfolding is_line are_lines
only_line = refl

do_one_file_lem_example :
    (p' : Pcb) × (do_one_file 2 line_disk surroundings
        (text "b")
        (text "a")
        (replicate 1025 0)
        process
        (typing "x")
      ≡ gives 0 p' (shows_matches (codes "b") (codes "a") (codes "ab" ∷ []) (typing "x")))
do_one_file_lem_example =
    do_one_file_lem 0 line_disk surroundings (text "b") (text "a") (codes "b") (codes "a")
      (replicate 1025 0) line_dentry 2 (codes "ab") [] process (typing "x") letter-IsSearch
      (omega arith) process-HasOutput two-IsFirstFree has_line_file refl only_line (omega arith)
      line-IsFile refl
