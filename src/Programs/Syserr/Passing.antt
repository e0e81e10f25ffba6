-- ===== src/Programs/Syserr/Passing.antt =====
-- The run of all the tests of syserr.
use Prim.Native.String.{String}
use illinix_operating_system.Base.{
  ℕ, suc, ◌<◌, ◌≡◌, refl, arith, ◌∙◌, some, List, [], ◌∷◌, length, take, get_elem?, ap, minus_one,
  ◌==◌, false,
}
use illinix_operating_system.Pcb.{Pcb}
use illinix_operating_system.Calls.{Devices}
use illinix_operating_system.Programs.{gives}
use illinix_operating_system.Programs.Actions.Output.{
  is_literal, tell_lem, show_texts, shows_texts, shows_texts-screen,
}
use illinix_operating_system.Programs.Actions.Input.{HasLine, read_line}
use illinix_operating_system.Programs.Syserr.{Setting, run_all, run_test, syserr}
use illinix_operating_system.Programs.Syserr.Refusals.{
  IsFresh, err_neg_fd_lem, err_big_fd_lem, err_unopened_lem, err_vidmap_lem, err_stdin_out_lem,
  err_syscall_num_lem,
}
use illinix_operating_system.Programs.Syserr.Opening.{
  IsListed, IsMissing, err_open_lots_lem, err_open_lem,
}

-- What a file system holds for the tests: the directory, and none of the three names.
pub record IsSuitable (e : Setting) : Type 0 where
  pub listed : IsListed e "."
  pub longer : IsMissing e "helloo"
  pub shorter : IsMissing e "shel"
  pub empty : IsMissing e ""

abbrev pub passes : List String
passes =
    "err_neg_fd: PASS\n" ∷ "err_big_fd: PASS\n" ∷ "err_open_lots: PASS\n" ∷ "err_open: PASS\n"
    ∷ "err_unopened: PASS\n" ∷ "err_vidmap: PASS\n" ∷ "err_stdin_out: PASS\n"
    ∷ "err_syscall_num: PASS\n" ∷ "\nOverall Tests: PASS\n" ∷ []

run_all_lem :
    (e : Setting) (p : Pcb) (d : Devices)
    → IsSuitable e
    → IsFresh p
    → (p' : Pcb) × (run_all e p d ≡ gives 0 p' (shows_texts passes d)) × IsFresh p'
unfolding run_all is_literal
run_all_lem e p d s f =
    let at : ℕ → Devices = λ k. shows_texts (take k passes) d in
    let (p', lots, f') = err_open_lots_lem e (at 2) p s.listed f in
    (
      p',
      rw
          (
            err_neg_fd_lem e p d f.output,
            err_big_fd_lem e p (at 1) f.output,
            lots,
            err_open_lem e (at 3) p' f' s.longer s.shorter s.empty,
            err_unopened_lem e p' (at 4) f',
            err_vidmap_lem e p' (at 5) f'.output,
            err_stdin_out_lem e p' (at 6) f',
            err_syscall_num_lem e p' (at 7) f'.output,
            tell_lem e.surroundings "\nOverall Tests: PASS\n" p' (at 8) f'.output refl,
          )
          refl,
      f',
    )

-- In a process with the terminal on descriptors 0 and 1 and nothing opened, with a line of at
-- most 127 characters typed that starts with 0, a buffer of 128 bytes, a file system that has
-- the directory "." and none of the files "helloo", "shel" and "", the program syserr ends with
-- status 0: the kernel refuses every wrong call that it makes, with -1 and without a fault, it
-- opens the directory six times and no seventh time, and the screen shows the prompt, a PASS
-- line for each of the eight tests and the PASS of them all. The process has no open file
-- afterwards.
pub syserr_lem :
    (e : Setting) (buf rest : List ℕ) (p : Pcb) (d : Devices)
    → IsSuitable e
    → IsFresh p
    → HasLine d (b'0' ∷ rest)
    → length rest < 127
    → length buf ≡ 128
    → (p' : Pcb) × (d' : Devices) × (syserr e buf p d ≡ gives 0 p' d')
      × (d'.terminal.screen
          ≡ show_texts ("Choose from tests 1-8. 0 to run all: " ∷ passes) d.terminal.screen)
      × IsFresh p'
unfolding syserr run_test is_literal
syserr_lem e buf rest p d s f typed short size =
    let prompt : String = "Choose from tests 1-8. 0 to run all: " in
    let d1 = shows_texts (prompt ∷ []) d in
    let line1 : HasLine d1 (b'0' ∷ rest) = record {
      pressed = typed.pressed;
      typed = typed.typed;
      some_line = typed.some_line;
    } in
    let (out, t, asked, k) =
      read_line e.disk e.surroundings p d1 buf (b'0' ∷ rest) 127 f.input line1
        (omega (arith, short)) (omega arith) (omega (arith, size)) in
    let d2 = record d1 { terminal = t } in
    let selected : get_elem? out 0 ≡ some b'0' = k.text 0 (omega arith) in
    let good : (suc (length rest) == minus_one) ≡ false = ground (arith, short) in
    let (p', passed, f') = run_all_lem e p d2 s f in
    (
      p',
      shows_texts passes d2,
      rw (tell_lem e.surroundings prompt p d f.output refl, asked, good, selected, passed) refl,
      shows_texts-screen passes d2 ∙ ap (show_texts passes) k.same_screen,
      f',
    )
