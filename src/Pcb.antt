-- ===== src/Pcb.antt =====
-- student-distrib/pcb.h and pcb.c: the process control block and its file descriptors.
use illinix_operating_system.Base.{ℕ, List, ltb, leb, ◌==◌, if◌then◌else◌, Bool, ◌||◌, is_negative}

abbrev pub fd_array_size : ℕ
fd_array_size = 8

-- Which jump table `file_operations` points to; `null` is a null pointer.
pub data FileOperations : Type 0 where
  null terminal_input terminal_output rtc directory file : FileOperations

-- `fd_struct_t`. Of its `dentry` the code reads the file type only.
pub record FdStruct : Type 0 where
  pub file_operations : FileOperations
  pub inode_num : ℕ
  pub file_pos : ℕ
  pub flags : ℕ
  pub file_type : ℕ

-- `struct pcb`. The stack pointers of the parent (`parent_esp0` and so on) are stored and never
-- read; `parent` is the number of the process whose control block the pointer names.
pub record Pcb : Type 0 where
  pub fd_array : ℕ → FdStruct
  pub parent : ℕ
  pub process_num : ℕ
  pub ebp : ℕ
  pub esp : ℕ
  pub args : List ℕ
  pub tty : ℕ

-- `fd < 0 || fd >= FD_ARRAY_SIZE`.
abbrev pub bad_fd : ℕ → Bool
bad_fd fd = is_negative fd || leb fd_array_size fd

-- `pcb->fd_array[fd] = …`.
abbrev pub set_fd : Pcb → ℕ → FdStruct → Pcb
set_fd p fd v = record p { fd_array = λ i. if fd == i then v else p.fd_array i }

-- An element of the array after the loop of `create_pcb`; the type in its `dentry` is not set.
closed_fd : FdStruct → FdStruct
closed_fd old = record old { file_operations = null; inode_num = 0; file_pos = 0; flags = 0 }

-- `create_pcb`, on the block that lies uninitialised on the stack.
unfoldable pub create_pcb : Pcb → Pcb
unfolding closed_fd
create_pcb junk = record junk {
  fd_array = λ i.
      let fresh = if ltb i fd_array_size then closed_fd (junk.fd_array i) else junk.fd_array i in
      if i == 0
      then record fresh { file_operations = terminal_input; flags = 1 }
      else if i == 1
      then record fresh { file_operations = terminal_output; flags = 1 }
      else fresh;
}
