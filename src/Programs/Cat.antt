-- ===== src/Programs/Cat.antt =====
-- syscalls/ece391cat.c: a file on the terminal.
pub mod Printing
use illinix_operating_system.Base.{
  ℕ, zero, suc, not, List, Reader, bytes_at, ◌==◌, if◌then◌else◌, minus_one,
}
use illinix_operating_system.Base.Text.{text}
use illinix_operating_system.Pcb.{Pcb}
use illinix_operating_system.Calls.{Devices, Surroundings, read, write, open_descriptor, getargs}
use illinix_operating_system.Programs.{Ran, gives, runs_on, after_reading, after, fails}

-- The loop of `main`, on fuel.
unfoldable pub cat_loop : ℕ → Reader → Surroundings → ℕ → List ℕ → Pcb → Devices → Ran
cat_loop zero disk w fd buf p d = runs_on
cat_loop (suc fuel) disk w fd buf p d =
    after_reading (read disk w p d fd buf 1024) (λ cnt buf' p' d'.
      let rest = after (write w p' d' 1 (bytes_at buf') cnt) (λ (r, d2).
        let again = cat_loop fuel disk w fd buf' p' d2 in
        if r == minus_one then gives 3 p' d2 else again) in
      if cnt == 0
      then gives 0 p' d'
      else if cnt == minus_one
      then fails w p' d' (text "file read failed\n") 3
      else rest)

-- `main`, with the buffer of 1024 bytes that lies uninitialised on the stack.
unfoldable pub cat : ℕ → Reader → Surroundings → List ℕ → Pcb → Devices → Ran
cat fuel disk w junk p d = after (getargs p junk 1024) (λ (r, buf).
    let opens = after (open_descriptor disk w p d (bytes_at buf)) (λ (fd, p', d').
      let shows = cat_loop fuel disk w fd buf p' d' in
      if fd == minus_one then fails w p' d' (text "file not found\n") 2 else shows) in
    if not (r == 0) then fails w p d (text "could not read arguments\n") 3 else opens)
