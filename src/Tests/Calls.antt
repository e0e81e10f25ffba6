-- ===== src/Tests/Calls.antt =====
-- Witnesses for the terminal, the calls on descriptors, the processes and the scheduler.
use illinix_operating_system.Base.{
  ℕ, zero, suc, ◌+◌, ◌<◌, ◌≡◌, ◌≢◌, inl, refl, arith, true, false, ◌||◌, some, List, [], ◌∷◌, ◌++◌,
  replicate, if◌then◌else◌, ◌==◌, Reader, load32,
}
use illinix_operating_system.Base.Int.{pos}
use illinix_operating_system.Screen.{Screen}
use illinix_operating_system.Terminal.{Terminal, terminal_read, returns, append_char}
use illinix_operating_system.Terminal.Line.{line}
use illinix_operating_system.Terminal.Input.{IsRead, terminal_read_lem}
use illinix_operating_system.Terminal.Output.{append_char_lem, erase-append, append_char_overflow}
use illinix_operating_system.Terminal.Output as output
use illinix_operating_system.Pcb.{Pcb, FdStruct, create_pcb, file, null, set_fd}
use illinix_operating_system.Filesys.{
  Dentry, entry_matches, read_dentry_by_index, read_dentry_by_name,
}
use illinix_operating_system.Filesys.Names.{Finds, read_dentry_by_name_lem}
use illinix_operating_system.Strings.Length.{IsString}
use illinix_operating_system.Strings.{strlen, strncmp, strncpy}
use illinix_operating_system.Calls.{Devices, Surroundings, open_descriptor, close}
use illinix_operating_system.Calls.Descriptors.{IsValid, create_pcb-IsValid}
use illinix_operating_system.Calls.Opening.{operations_of, IsFirstFree, IsOpened, open_lem}
use illinix_operating_system.Calls.Keeping.{open-IsValid}
use illinix_operating_system.Calls.Closing.{close-IsFirstFree}
use illinix_operating_system.Processes.{Processes, Context, child_state, halt, resumes}
use illinix_operating_system.Processes.Lifecycle.{IsRestored, execute-halt}

abbrev screen : Screen
screen = record {
  screen_x = 0;
  screen_y = 0;
  video_mem = λ a. 0;
  screen_buf = λ t a. 0;
  screen_loc_buf = λ t. (0, 0);
  ports = [];
}

-- Each terminal holds the two characters "hi".
abbrev terminal : Terminal
terminal = record {
  terminal_buffer = λ i. if i == 0 then b'h' else b'i';
  tail = λ t. pos 1;
  enter_status = true;
  active_tty = 0;
  screen = screen;
}

abbrev terminal-IsValid : output.IsValid terminal
terminal-IsValid = record { size = λ u. 2; tails = λ u h. refl; fits = λ u h. omega arith }

terminal_read_lem_example :
    (out : List ℕ) × (t' : Terminal) × (terminal_read terminal (0 ∷ 0 ∷ 0 ∷ []) 1
      ≡ returns 1 out t')
    × IsRead terminal 1 (0 ∷ 0 ∷ 0 ∷ []) out t'
terminal_read_lem_example =
    terminal_read_lem terminal (0 ∷ 0 ∷ 0 ∷ []) 1 (omega arith) refl (omega arith) (omega arith)

append_char_lem_example :
    (line (append_char terminal 33) 0 ≡ line terminal 0 ++ 33 ∷ [])
    × ((u : ℕ) → u < 3 → u ≢ 0 → line (append_char terminal 33) u ≡ line terminal u)
append_char_lem_example = append_char_lem terminal 33 terminal-IsValid (omega arith) (omega arith)

abbrev junk_fd : FdStruct
junk_fd = record { file_operations = null; inode_num = 9; file_pos = 9; flags = 9; file_type = 0 }

abbrev junk_pcb : Pcb
junk_pcb = record {
  fd_array = λ i. junk_fd;
  parent = 0;
  process_num = 0;
  ebp = 0;
  esp = 0;
  args = replicate 140 7;
  tty = 0;
}

abbrev junk_dentry : Dentry
junk_dentry = record { file_name = replicate 32 0; file_type = 9; inode_num = 9 }

abbrev surroundings : Surroundings
surroundings = record {
  rtc_register = 0;
  rtc_flag = 1;
  rtc_turns = [];
  junk_rate = 0;
  junk_dentry = junk_dentry;
}

abbrev devices : Devices
devices = record { terminal = terminal; irq_mask = 0; ports = [] }

-- An image whose only entry is the regular file "a" of inode 0.
abbrev disk : Reader
disk i = some (if i == 0 || i == 4 then 1 else if i == 64 then b'a' else if i == 96 then 2 else 0)

abbrev filename : Reader
filename i = some (if i == 0 then b'a' else 0)

abbrev found : Dentry
found = record { file_name = b'a' ∷ replicate 31 0; file_type = 2; inode_num = 0 }

filename-IsString : IsString filename 1
filename-IsString = record {
  body = elim [
    | zero ↦ λ h. (b'a', refl, λ e. ground (arith, e))
    | suc j ↦ λ h. absurd (omega arith)
  ];
  ends = refl;
}

entry-IsString : IsString (λ j. disk (64 + j)) 1
entry-IsString = record {
  body = elim [
    | zero ↦ λ h. (b'a', refl, λ e. ground (arith, e))
    | suc j ↦ λ h. absurd (omega arith)
  ];
  ends = refl;
}

read_dentry_by_name_lem_example :
    Finds disk filename 1 0 1 junk_dentry (read_dentry_by_name disk filename junk_dentry)
unfolding load32
read_dentry_by_name_lem_example =
    read_dentry_by_name_lem disk filename 1 1 junk_dentry filename-IsString (omega arith)
      (λ i c h. ground (arith, h)) (λ i c h. ground (arith, h)) refl
      (elim [
        | zero ↦ λ h. (1, record { string = entry-IsString; size_lt = omega arith })
        | suc i ↦ λ h. absurd (omega arith)
      ])

two-IsFirstFree : IsFirstFree (create_pcb junk_pcb) 2
unfolding create_pcb
two-IsFirstFree = record {
  from_two = omega arith;
  in_array = omega arith;
  free = refl;
  used_before = λ j a b. absurd (omega arith);
}

name_found : read_dentry_by_name disk filename junk_dentry ≡ some (0, found)
unfolding read_dentry_by_name strlen load32 entry_matches strncmp read_dentry_by_index strncpy
name_found = refl

open_lem_example :
    (p' : Pcb) × (d' : Devices) × (open_descriptor disk surroundings
        (create_pcb junk_pcb)
        devices
        filename
      ≡ some (2, p', d'))
    × IsOpened (create_pcb junk_pcb) p' 2 found
open_lem_example =
    open_lem disk surroundings (create_pcb junk_pcb) devices filename found 2 two-IsFirstFree
      name_found (omega arith)

abbrev parent_state : Processes
parent_state = record {
  processes = λ i. if i == 0 then 1 else 0;
  curr_process = 0;
  pcbs = λ n. junk_pcb;
  memory = λ n a. 0;
  tty_top_pid = λ t. 0;
  active_tty = 0;
  next_one_is_root_shell = false;
  paging = record { page_dir = λ i. 0; page_table = λ i. 0 };
  ss0 = 0x18;
  esp0 = 0x7ffffc;
}

abbrev context : ℕ → Context
context n = record {
  caller = n;
  ebp = 0x7ffe00;
  esp = 0x7ffd00;
  table_at = 0x500000;
  junk_dentry = junk_dentry;
  junk_bytes = replicate 4 0;
  junk_file_data = replicate 100 0;
  junk_pcb = junk_pcb;
  junk_header = replicate 40 0;
}

execute-halt_example :
    (s' : Processes) × (halt disk
        (context 1)
        filename
        0
        0
        (child_state (context 0) parent_state 1 [] (λ a. 0))
        devices
      ≡ some (resumes 0x7ffe00 0x7ffd00 s', devices))
    × IsRestored parent_state s'
execute-halt_example =
    execute-halt disk (context 0) (context 1) parent_state [] (λ a. 0) filename 0 0 devices
      (record {
        marked = refl;
        current = refl;
        numbered = refl;
        top = refl;
        segment = refl;
        stack = refl;
        no_root = refl;
      })
      refl (λ e. ground (arith, e)) (inl (omega arith))

abbrev opened_pcb : Pcb
opened_pcb =
    let p = create_pcb junk_pcb in
    set_fd p 2
      (record (p.fd_array 2) { inode_num = 0; file_pos = 0; flags = 1; file_operations = file })

a_opened :
    open_descriptor disk surroundings (create_pcb junk_pcb) devices filename
    ≡ some (2, opened_pcb, devices)
unfolding open_descriptor create_pcb read_dentry_by_name strlen load32 entry_matches strncmp
    read_dentry_by_index strncpy
a_opened = refl

open-IsValid_example : IsValid opened_pcb
open-IsValid_example =
    open-IsValid disk surroundings (create_pcb junk_pcb) opened_pcb devices devices filename 2
      (create_pcb-IsValid junk_pcb) a_opened

a_IsOpened : IsOpened (create_pcb junk_pcb) opened_pcb 2 found
unfolding operations_of
a_IsOpened = record {
  flags = refl;
  position = refl;
  operations = refl;
  inode = refl;
  others = λ j ne. ground arith;
}

close-IsFirstFree_example : IsFirstFree ((close opened_pcb devices 2).1) 2
close-IsFirstFree_example =
    close-IsFirstFree (create_pcb junk_pcb) opened_pcb devices 2 found two-IsFirstFree a_IsOpened
