-- ===== src/Tests/Userland.antt =====
-- Witnesses for the programs that read a line from the terminal.
use Prim.Native.String.{String}
use illinix_operating_system.Base.{
  Reader, store, if◌then◌else◌, ◌==◌, true, false, ℕ, zero, suc, ◌-◌, ◌≡◌, refl, arith, true, List,
  [], ◌∷◌, replicate, get_or, length, Reader, load32, store, minus_one,
}
use illinix_operating_system.Base.Int.{pos}
use illinix_operating_system.Base.Text.{codes}
use illinix_operating_system.Strings.{strlen, strncmp, strncpy}
use illinix_operating_system.Pcb.{Pcb, create_pcb}
use illinix_operating_system.Filesys.{entry_matches, read_dentry_by_index, read_dentry_by_name}
use illinix_operating_system.Calls.{Devices}
use illinix_operating_system.Calls.Transfer.{HasOutput}
use illinix_operating_system.Programs.{gives}
use illinix_operating_system.Programs.Actions.{Action}
use illinix_operating_system.Programs.Actions.Output.{no_zero, show_texts}
use illinix_operating_system.Programs.Actions.Input.{HasInput}
use illinix_operating_system.Programs.Syserr.{Setting, syserr}
use illinix_operating_system.Programs.Syserr.Refusals.{IsFresh}
use illinix_operating_system.Programs.Syserr.Passing.{IsSuitable, passes, syserr_lem}
use illinix_operating_system.Programs.Shell.{shell, with_block}
use illinix_operating_system.Processes.{Processes, Executed, enters, child_state}
use illinix_operating_system.Tests.Image.{context, disk, loaded_page, entry_point, stack_top}
use illinix_operating_system.Programs.Shell.Rounds.{IsPrompted, shell_exit}
use illinix_operating_system.Programs.Counter.{counter}
use illinix_operating_system.Programs.Counter.Counting.{Counts, hundred, counter_lem}
use illinix_operating_system.Tests.Programs.{
  screen, junk_pcb, surroundings, listing, here, has_here, junk_dentry,
}

-- The devices with a line typed on terminal 0.
abbrev pub typing : String → Devices
typing t = record {
  terminal = record {
    terminal_buffer = λ i. get_or (codes t) i 0;
    tail = λ u. pos (length (codes t) - 1);
    enter_status = true;
    active_tty = 0;
    screen = screen;
  };
  irq_mask = 0;
  ports = [];
}

abbrev pub process : Pcb
process = create_pcb junk_pcb

process-HasInput : HasInput process
unfolding create_pcb
process-HasInput = record { used = refl; operations = refl }

pub process-HasOutput : HasOutput process
unfolding create_pcb
process-HasOutput = record { used = refl; operations = refl }

process-IsFresh : IsFresh process
unfolding create_pcb
process-IsFresh = record {
  input = process-HasInput;
  output = process-HasOutput;
  free = λ j a b. ground (arith, a, b);
}

abbrev setting : Setting
setting = record {
  disk = listing;
  surroundings = surroundings;
  junk = replicate 32 0;
  table_at = 0;
  paging = record { page_dir = λ i. 0; page_table = λ i. 0 };
  routine = λ n. 0;
}

setting-IsSuitable : IsSuitable setting
unfolding read_dentry_by_name strlen load32 entry_matches strncmp read_dentry_by_index strncpy store
setting-IsSuitable = record {
  listed = (here, has_here, refl);
  longer = (junk_dentry, refl);
  shorter = (junk_dentry, refl);
  empty = (junk_dentry, refl);
}

syserr_lem_example :
    (p' : Pcb) × (d' : Devices) × (syserr setting (replicate 128 0) process (typing "0")
      ≡ gives 0 p' d')
    × (d'.terminal.screen ≡ show_texts ("Choose from tests 1-8. 0 to run all: " ∷ passes) screen)
    × IsFresh p'
syserr_lem_example =
    syserr_lem setting (replicate 128 0) [] process (typing "0") setting-IsSuitable process-IsFresh
      (record { pressed = refl; typed = refl; some_line = omega arith }) (omega arith) refl

-- Process 0 runs the shell of terminal 0.
abbrev running : Processes
running = record {
  processes = λ i. if i == 0 then 1 else 0;
  curr_process = 0;
  pcbs = λ n. junk_pcb;
  memory = λ n a. 0;
  tty_top_pid = λ t. 0;
  active_tty = 0;
  next_one_is_root_shell = false;
  paging = record { page_dir = λ i. 0; page_table = λ i. 0 };
  ss0 = 0x18;
  esp0 = 0x7ffffc;
}

abbrev arguments : List ℕ
arguments = b'x' ∷ replicate 139 0

abbrev entered : Executed
entered =
    enters entry_point stack_top
      (child_state context (with_block context running process) 1 arguments (loaded_page (λ a. 0)))

-- A program that ends at once with status 3.
abbrev ends_badly : Processes → Devices → ℕ × Devices
ends_badly s d = (3, d)

-- A call that finds no command.
abbrev finds_none : Reader → Action ℕ
finds_none command p d = gives minus_one p d

exit-IsPrompted : IsPrompted process (typing "exit") (replicate 1024 0) (codes "exit")
unfolding no_zero
exit-IsPrompted = record {
  input = process-HasInput;
  output = process-HasOutput;
  typed = record { pressed = refl; typed = refl; some_line = omega arith };
  no_end = refl;
  plain = elim [
    | zero ↦ λ c e. absurd (omega arith)
    | suc zero ↦ λ c e. absurd (omega arith)
    | suc (suc zero) ↦ λ c e. absurd (omega arith)
    | suc (suc (suc zero)) ↦ λ c e at. ground (arith, at)
    | suc (suc (suc (suc n))) ↦ λ c e. absurd (omega arith)
  ];
  short = omega arith;
  size = refl;
}

shell_exit_example :
    (d' : Devices) × (shell 1 listing surroundings finds_none
        (replicate 1024 0)
        process
        (typing "exit")
      ≡ gives 0 process d')
    × (d'.terminal.screen ≡ show_texts ("Starting 391 Shell\n" ∷ "391OS> " ∷ []) screen)
shell_exit_example =
    shell_exit 0 listing surroundings finds_none process (typing "exit") (replicate 1024 0)
      exit-IsPrompted

counter_lem_example :
    (d' : Devices) × (counter listing surroundings (replicate 1024 0) process (typing "0")
      ≡ gives 0 process d')
    × Counts 100 0
        (show_texts ("Enter the Test Number: (0): 100, (1): 10000, (2): 100000\n" ∷ []) screen)
        d'.terminal.screen
counter_lem_example =
    counter_lem listing surroundings process (typing "0") (replicate 1024 0) b'0' 100
      process-HasInput process-HasOutput
      (record { pressed = refl; typed = refl; some_line = omega arith }) hundred refl
