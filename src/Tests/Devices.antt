-- ===== src/Tests/Devices.antt =====
-- Witnesses for the devices: screen, keyboard, clock, interrupts and paging.
use illinix_operating_system.Base.{
  ℕ, ◌+◌, ◌*◌, ◌/◌, ◌%◌, ◌^◌, ◌≡◌, ◌≢◌, inl, refl, arith, true, false, some, [], ◌∷◌, if◌then◌else◌,
  ◌==◌, load32,
}
use mathlib.Core.Bool.{xor}
use illinix_operating_system.Base.Ports.{outb}
use illinix_operating_system.Screen.{Screen, putc, bksp, write_cell}
use illinix_operating_system.Screen.Valid.{IsValid, putc-IsValid}
use illinix_operating_system.Screen.Draw.{IsPrintable, putc_draws, bksp-putc}
use illinix_operating_system.Keyboard.{char_map, Modifiers, Action, type_char, kb_interrupt_do}
use illinix_operating_system.Keyboard.Keys.{kb_interrupt_total, kb_interrupt_types}
use illinix_operating_system.Rtc.{rtc_write, cmosport1, cmosport2}
use illinix_operating_system.Rtc.Frequency.{rtc_write_lem}
use illinix_operating_system.Paging.{Paging, create_page, paging_init, set_vidmap}
use illinix_operating_system.Paging.Walk.{translate}
use illinix_operating_system.Paging.Processes.{processes_apart}
use illinix_operating_system.Paging.Reach.{
  IsUserView, create_page-IsUserView, set_vidmap-IsUserView,
}
use illinix_operating_system.Idt.{IdtDesc, kb_interrupt, load_idt}
use illinix_operating_system.Idt.Gates.{IsGate, load_idt-IsGate}

abbrev screen : Screen
screen = record {
  screen_x = 3;
  screen_y = 2;
  video_mem = λ a. 0;
  screen_buf = λ t a. 0;
  screen_loc_buf = λ t. (0, 0);
  ports = [];
}

screen-IsValid : IsValid screen
screen-IsValid = record { column = omega arith; row = inl (omega arith) }

letter-IsPrintable : IsPrintable 65
letter-IsPrintable = record {
  not_null = λ e. ground (arith, e);
  not_newline = λ e. ground (arith, e);
  not_return = λ e. ground (arith, e);
  not_tab = λ e. ground (arith, e);
}

putc_draws_example :
    ((a : ℕ) → (putc 65 screen).video_mem a ≡ write_cell (λ b. 0) 163 65 a)
    × ((putc 65 screen).screen_x ≡ 4)
    × ((putc 65 screen).screen_y ≡ 2)
putc_draws_example = putc_draws 65 screen letter-IsPrintable (omega arith) (omega arith)

putc-IsValid_example : IsValid (putc 65 screen)
putc-IsValid_example = putc-IsValid 65 screen-IsValid

bksp-putc_example :
    ((a : ℕ) → (bksp (putc 65 screen)).video_mem a ≡ write_cell (λ b. 0) 163 b' ' a)
    × ((bksp (putc 65 screen)).screen_x ≡ 3)
    × ((bksp (putc 65 screen)).screen_y ≡ 2)
bksp-putc_example = bksp-putc 65 screen letter-IsPrintable (omega arith) (omega arith)

abbrev shifted : Modifiers
shifted = record {
  caps_enabled = true;
  shift_pressed = false;
  ctrl_pressed = false;
  alt_pressed = false;
  meta_pressed = false;
  enter_pressed = false;
}

kb_interrupt_total_example : (r : Action × Modifiers) × (kb_interrupt_do 0xe1 shifted ≡ some r)
kb_interrupt_total_example = kb_interrupt_total 0xe1 shifted

kb_interrupt_types_example : kb_interrupt_do 30 shifted ≡ some (type_char b'A', shifted)
unfolding char_map xor
kb_interrupt_types_example = kb_interrupt_types 30 shifted b'a' (omega arith) refl refl refl

rtc_write_lem_example :
    (byte : ℕ) × (rtc_write 0x26 0 (λ i. some (if i == 0 then 4 else 0)) 4
      ≡ some (4, outb 0x8a cmosport1 ∷ outb 0x8a cmosport1 ∷ outb byte cmosport2 ∷ []))
    × (byte % 16 ≡ 14)
    × (byte / 16 ≡ 2)
unfolding load32
rtc_write_lem_example =
    rtc_write_lem 0x26 0 2 (λ i. some (if i == 0 then 4 else 0)) (omega arith) (omega arith)
      (omega arith) refl

abbrev tables : Paging
tables = record { page_dir = λ i. 0; page_table = λ i. 0 }

processes_apart_example :
    translate 0x500000 (create_page 0x500000 1 tables) (0x8000000 + 0x48000)
    ≢ translate 0x500000 (create_page 0x500000 2 tables) (0x8000000 + 0x48000)
processes_apart_example =
    processes_apart 0x500000 1 2 0x48000 0x48000 tables tables (omega arith) (omega arith)
      (λ e. ground (arith, e)) (omega arith) (omega arith)

create_page-IsUserView_example :
    IsUserView 0x500 2 (create_page (0x500 * 2 ^ 12) 2 (paging_init (0x500 * 2 ^ 12) tables))
create_page-IsUserView_example = create_page-IsUserView 0x500 2 tables (omega arith)

set_vidmap-IsUserView_example :
    IsUserView 0x500 2
      (set_vidmap
        (0x500 * 2 ^ 12)
        (create_page (0x500 * 2 ^ 12) 2 (paging_init (0x500 * 2 ^ 12) tables))).1
set_vidmap-IsUserView_example =
    set_vidmap-IsUserView 0x500 2 (create_page-IsUserView 0x500 2 tables (omega arith))

abbrev blank : IdtDesc
blank = record {
  handler = kb_interrupt;
  seg_selector = 0;
  reserved4 = 0;
  reserved3 = 0;
  reserved2 = 0;
  reserved1 = 0;
  size = 0;
  reserved0 = 0;
  dpl = 0;
  present = 0;
}

load_idt-IsGate_example : IsGate 0x80 (load_idt (λ i. blank) 0x80)
load_idt-IsGate_example = load_idt-IsGate (λ i. blank) 0x80 (omega arith) (λ e. ground (arith, e))
