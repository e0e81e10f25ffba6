-- ===== src/Programs/Ls.antt =====
-- syscalls/ece391ls.c: the names of the files on the terminal.
pub mod Listing
use illinix_operating_system.Base.{
  ℕ, zero, suc, ◌+◌, List, Reader, bytes_at, store, ◌==◌, if◌then◌else◌, minus_one,
}
use illinix_operating_system.Base.Text.{text}
use illinix_operating_system.Pcb.{Pcb}
use illinix_operating_system.Calls.{Devices, Surroundings, read, write, open_descriptor}
use illinix_operating_system.Programs.{Ran, gives, runs_on, after_reading, after, fails}

-- The loop of `main`, on fuel.
unfoldable pub ls_loop : ℕ → Reader → Surroundings → ℕ → List ℕ → Pcb → Devices → Ran
ls_loop zero disk w fd buf p d = runs_on
ls_loop (suc fuel) disk w fd buf p d = after_reading (read disk w p d fd buf 32) (λ cnt buf' p' d'.
    let rest = after (store buf' cnt b'\n') (λ line.
      after (write w p' d' 1 (bytes_at line) (cnt + 1)) (λ (r, d2).
        let again = ls_loop fuel disk w fd line p' d2 in
        if r == minus_one then gives 3 p' d2 else again)) in
    if cnt == 0
    then gives 0 p' d'
    else if cnt == minus_one
    then fails w p' d' (text "directory entry read failed\n") 3
    else rest)

-- `main`, with the buffer of 33 bytes that lies uninitialised on the stack.
unfoldable pub ls : ℕ → Reader → Surroundings → List ℕ → Pcb → Devices → Ran
ls fuel disk w junk p d = after (open_descriptor disk w p d (text ".")) (λ (fd, p', d').
    let lists = ls_loop fuel disk w fd junk p' d' in
    if fd == minus_one then fails w p' d' (text "directory open failed\n") 2 else lists)
