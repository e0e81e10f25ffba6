-- ===== src/Kernel/Entry/Started.antt =====
-- The state in which `entry` starts the first shell, and what the kernel reaches from it.
use mathlib.Core.Path.{subst}
use illinix_operating_system.Base.{
  ℕ, ◌<◌, ◌≡◌, inl, inr, refl, sym, ap, ◌∙◌, arith, true, ◌||◌, some, [], Reader, ◌>>=◌, ◌==◌,
  if◌then◌else◌, Option-cases, offset_by,
}
use illinix_operating_system.Base.Bits.{bit}
use illinix_operating_system.Base.Table.{holds_below, holds_below-at}
use illinix_operating_system.Idt.Gates.{IsGate, load_idt-IsGate}
use illinix_operating_system.Base.Text.{text}
use illinix_operating_system.Screen.{Screen}
use illinix_operating_system.Printf.{Buffers, printf}
use illinix_operating_system.Idt.{
  IdtDesc, pit_interrupt, kb_interrupt, rtc_interrupt, load_idt, set_entries, entries,
}
use illinix_operating_system.Pic.{enable_irq}
use illinix_operating_system.Pic.Masks.{enable_irq_mask}
use illinix_operating_system.Processes.{Processes, Context, Executed, execute}
use illinix_operating_system.Kernel.Entry.Sent.{IsTold, is_open, start-IsTold}
use illinix_operating_system.Processes.Soundness.{IsSound}
use illinix_operating_system.Kernel.Steps.{Reaches}
use illinix_operating_system.Kernel.Soundness.{IsBoot, boot-IsSound}
use illinix_operating_system.Kernel.Multiboot.{MultibootInfo, Checked, refused, passed, check_boot}
use illinix_operating_system.Kernel.Entry.{
  Machine, Linked, started, start, enter, entry, enable, start_devices, start_terminal,
  start_processes,
}

start-IsBoot :
    (linked : Linked) (table_at : ℕ) (m : Machine) (block : ℕ) (s : Screen)
    → IsBoot (start linked table_at m block s).processes
unfolding start start_processes
start-IsBoot linked table_at m block s = record {
  no_process = λ n h. ground arith;
  terminal = omega arith;
}

-- Where the machine comes from that starts the shell.
record IsStart (linked : Linked) (table_at : ℕ) (m m' : Machine) : Type 0 where
  block : ℕ
  screen : Screen
  state : m' ≡ start linked table_at m block screen

enter-IsStart :
    (memory shell : Reader) (linked : Linked) (w : Context) (b : Buffers) (m m' : Machine)
    (c : Checked) (x : Executed)
    → enter memory shell linked w b m c ≡ some (started m' x)
    → IsStart linked w.table_at m m'
unfolding enter
enter-IsStart memory shell linked w b m m' (refused s) x e = absurd (ground (arith, e))
enter-IsStart memory shell linked w b m m' (passed block s) x e =
    elim (Option-cases (printf b (text "Enabling Interrupts\n") [] s)) [
      | inl bad ↦ absurd (ground (arith, e, bad))
      | inr ((shown, s'), at) ↦
          let ready = start linked w.table_at m block s' in
          elim (Option-cases (execute (offset_by memory block) w ready.processes shell)) [
            | inl bad ↦ absurd (ground (arith, e, at, bad))
            | inr (y, run) ↦ record {
              block = block;
              screen = s';
              state = ground (arith, e, at, run);
            }
          ]
    ]

entry-IsStart :
    (memory shell : Reader) (linked : Linked) (w : Context) (b : Buffers) (m m' : Machine)
    (magic : ℕ) (mbi : MultibootInfo) (x : Executed)
    → entry memory shell linked w b m magic mbi ≡ some (started m' x)
    → IsStart linked w.table_at m m'
unfolding entry
entry-IsStart memory shell linked w b m m' magic mbi x e =
    elim (Option-cases (check_boot memory b m.boot_block magic mbi m.devices.terminal.screen)) [
      | inl bad ↦ absurd (ground (arith, e, bad))
      | inr (c, at) ↦
          enter-IsStart memory shell linked w b m m' c x
            (sym (ap (λ o. o >>= enter memory shell linked w b m) at) ∙ e)
    ]

-- From the state in which `entry` calls `sys_execute` for the first shell, every state that the
-- kernel reaches by programs started and ended, files opened and closed, interrupts of the timer
-- and switches of terminals is sound: each process of the table has a control block of its own
-- number and of one of the three terminals, with its descriptors in order, whose parent has such
-- a block too.
pub entry-IsSound :
    (memory shell : Reader) (linked : Linked) (w : Context) (b : Buffers) (m m' : Machine)
    (magic : ℕ) (mbi : MultibootInfo) (x : Executed) (disk : Reader) (s : Processes)
    → entry memory shell linked w b m magic mbi ≡ some (started m' x)
    → Reaches disk shell m'.processes s
    → IsSound s
entry-IsSound memory shell linked w b m m' magic mbi x disk s e r =
    let at = entry-IsStart memory shell linked w b m m' magic mbi x e in
    boot-IsSound disk shell m'.processes s
      (subst (λ k. IsBoot k.processes) (sym at.state)
        (start-IsBoot linked w.table_at m at.block at.screen))
      r

start_irqs :
    (linked : Linked) (table_at : ℕ) (m : Machine) (block : ℕ) (s : Screen) (k : ℕ)
    → k < 16
    → bit (start linked table_at m block s).devices.irq_mask k
      ≡ (if k == 0 || k == 1 || k == 2 || k == 8 then 0 else bit m.devices.irq_mask k)
unfolding start start_devices start_terminal enable
start_irqs linked table_at m block s k h =
    let mask1 = (enable_irq m.devices.irq_mask 1).0 in
    let mask2 = (enable_irq mask1 2).0 in
    let mask8 = (enable_irq mask2 8).0 in
    ground (
      arith,
      enable_irq_mask m.devices.irq_mask 1 k (omega arith) h,
      enable_irq_mask mask1 2 k (omega arith) h,
      enable_irq_mask mask2 8 k (omega arith) h,
      enable_irq_mask mask8 0 k (omega arith) h,
    )

start_handlers :
    (idt : ℕ → IdtDesc)
    → ((load_idt idt 32).handler ≡ pit_interrupt)
      × ((load_idt idt 33).handler ≡ kb_interrupt)
      × ((load_idt idt 40).handler ≡ rtc_interrupt)
unfolding load_idt set_entries entries
start_handlers idt = (refl, refl, refl)

all_masked : (k : ℕ) → k < 16 → bit 0xffff k ≡ 1
unfolding bit holds_below
all_masked k h =
    let row = holds_below-at (λ k. bit 0xffff k == 1) k 16 h mask_row in ground (arith, row)
  where
    mask_row : holds_below 16 (λ k. bit 0xffff k == 1) ≡ true
    mask_row = refl

-- The controllers were told to let exactly the timer, the keyboard, the clock and the line between
-- the two controllers through, the kernel keeps the same mask, and each of the three devices has
-- its handler behind a gate for the kernel only.
pub record IsReady (m : Machine) : Type 0 where
  pub told : (k : ℕ) → k < 16 → IsTold m k
  pub enabled : (k : ℕ) → k < 16 → bit m.devices.irq_mask k ≡ (if is_open k then 0 else 1)
  pub timer : (IsGate 32 (m.idt 32)) × ((m.idt 32).handler ≡ pit_interrupt)
  pub keyboard : (IsGate 33 (m.idt 33)) × ((m.idt 33).handler ≡ kb_interrupt)
  pub clock : (IsGate 40 (m.idt 40)) × ((m.idt 40).handler ≡ rtc_interrupt)

start-IsReady :
    (linked : Linked) (table_at : ℕ) (m : Machine) (block : ℕ) (s : Screen)
    → m.devices.irq_mask ≡ 0xffff
    → IsReady (start linked table_at m block s)
unfolding start
start-IsReady linked table_at m block s e =
    let (pit, kb, rtc) = start_handlers m.idt in
    record {
      told = λ k h. start-IsTold linked table_at m block s k e h;
      enabled = λ k h.
          start_irqs linked table_at m block s k h
          ∙ ap (λ n. if k == 0 || k == 1 || k == 2 || k == 8 then 0 else n)
              (ap (λ mask. bit mask k) e ∙ all_masked k h);
      timer = (load_idt-IsGate m.idt 32 (omega arith) (omega arith), pit);
      keyboard = (load_idt-IsGate m.idt 33 (omega arith) (omega arith), kb);
      clock = (load_idt-IsGate m.idt 40 (omega arith) (omega arith), rtc);
    }

-- When `entry` calls `sys_execute` for the first shell, and all interrupts were masked before, the
-- last mask byte that each interrupt controller was sent, and the mask that the kernel keeps, let
-- exactly the lines 0, 1, 2 and 8 through, and the vectors of the timer, the keyboard and the clock have their handlers behind present gates that user programs
-- cannot call.
pub entry-IsReady :
    (memory shell : Reader) (linked : Linked) (w : Context) (b : Buffers) (m m' : Machine)
    (magic : ℕ) (mbi : MultibootInfo) (x : Executed)
    → entry memory shell linked w b m magic mbi ≡ some (started m' x)
    → m.devices.irq_mask ≡ 0xffff
    → IsReady m'
entry-IsReady memory shell linked w b m m' magic mbi x e masked =
    let at = entry-IsStart memory shell linked w b m m' magic mbi x e in
    subst IsReady (sym at.state) (start-IsReady linked w.table_at m at.block at.screen masked)
