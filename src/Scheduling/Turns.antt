-- ===== src/Scheduling/Turns.antt =====
-- What the timer's interrupt does to the running process.
use illinix_operating_system.Base.{ℕ, ◌<◌, ◌≡◌, ◌≢◌, arith, some, ◌>>=◌}
use illinix_operating_system.Processes.{Processes, Context, put}
use illinix_operating_system.Scheduling.{get_next_process, skip_unopened, switch_process, stays}

-- If some terminal is open, the search ends within its four rounds, whatever lies behind the
-- table, and the result is the process of the terminal that asked.
pub get_next_process_lem :
    (tops : ℕ → ℕ) (curr_tty open_tty : ℕ)
    → curr_tty < 3
    → open_tty < 3
    → tops open_tty ≢ 255
    → get_next_process tops curr_tty ≡ some (tops curr_tty)
unfolding get_next_process skip_unopened
get_next_process_lem tops curr_tty open_tty h l used = ground arith

-- A process that is the one of its terminal, as `execute` leaves it, keeps running at every
-- interrupt of the timer: the only change is that its ebp and esp are saved.
pub switch_process_stays :
    (w : Context) (s : Processes)
    → (s.pcbs w.caller).tty < 3
    → s.tty_top_pid ((s.pcbs w.caller).tty) ≡ (s.pcbs w.caller).process_num
    → (s.pcbs w.caller).process_num ≢ 255
    → switch_process w s
      ≡ some (
          stays (record s {
            pcbs = put s.pcbs w.caller (record (s.pcbs w.caller) { ebp = w.ebp; esp = w.esp });
          }))
unfolding switch_process
switch_process_stays w s h top used =
    let next =
      get_next_process_lem s.tty_top_pid ((s.pcbs w.caller).tty) ((s.pcbs w.caller).tty) h h
        (λ e. used (ground (arith, e, top))) in
    rw (next, ◌>>=◌) (ground (arith, top))
