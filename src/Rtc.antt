-- ===== src/Rtc.antt =====
-- student-distrib/rtc.c: the real-time clock. What is sent to the ports is returned; `prev` is
-- the value that `inb` read from the clock's register.
pub mod Frequency
pub mod Wait
use illinix_operating_system.Base.{
  ℕ, zero, suc, ◌+◌, ◌-◌, ◌*◌, ◌/◌, ◌%◌, ◌^◌, Bool, true, false, not, ◌&&◌, ◌||◌, Option, none,
  some, List, [], ◌∷◌, ◌++◌, ltb, leb, ◌==◌, if◌then◌else◌, bit_and, bit_or, u32, minus_one,
  is_negative, load32, ◌>>=◌, Reader,
}
use illinix_operating_system.Base.Ports.{PortWrite, outb}
use illinix_operating_system.Pic.{enable_irq, disable_irq, send_eoi}

abbrev pub cmosport1 : ℕ
cmosport1 = 0x70

abbrev pub cmosport2 : ℕ
cmosport2 = 0x71

pub init_rtc : ℕ → List PortWrite
init_rtc prev =
    outb 0x8a cmosport1
    ∷ outb 0x2f cmosport2
    ∷ outb 0x8b cmosport1
    ∷ outb 0x8b cmosport1
    ∷ outb (bit_or prev 0x40 % 256) cmosport2
    ∷ []

-- The handler sets `flag`.
unfoldable pub rtc_interrupt_handler : List PortWrite × ℕ
rtc_interrupt_handler = (send_eoi 8 ++ outb 0x0c cmosport1 ∷ [], 1)

unfoldable pub rtc_close : ℕ → ℕ
rtc_close fd = 0

-- Register A with another rate: the sequence of `rtc_open` and of `rtc_write`.
abbrev pub set_rate : ℕ → ℕ → List PortWrite
set_rate prev rate =
    outb 0x8a cmosport1
    ∷ outb 0x8a cmosport1
    ∷ outb (bit_or (bit_and prev 0xf0) rate % 256) cmosport2
    ∷ []

unfoldable pub rtc_open : ℕ → ℕ × List PortWrite
rtc_open prev = (0, set_rate prev 0x0f)

-- `(!(freq & (freq - 1)) == 1) && (freq < 1025) && (freq > 0)`, on an `int`.
unfoldable pub is_valid_frequency : ℕ → Bool
is_valid_frequency freq =
    bit_and freq (u32 (freq + 0xffff_ffff)) == 0
    && (is_negative freq || ltb freq 1025)
    && (not (is_negative freq) && ltb 0 freq)

-- The loop that halves the frequency until it is 1, on fuel; the result is `counter`.
unfoldable pub count_halvings : ℕ → ℕ → ℕ → Option ℕ
count_halvings zero freq counter = none
count_halvings (suc fuel) freq counter =
    let rest = count_halvings fuel (freq / 2) (counter + 1) in
    if freq == 1 then some counter else rest

-- `rate` holds `junk`, whatever lay on the stack, unless the frequency is valid. A valid
-- frequency is below 2 ^ 11, so that 11 rounds are enough.
unfoldable pub rtc_write : ℕ → ℕ → Reader → ℕ → Option (ℕ × List PortWrite)
rtc_write prev junk buf nbytes =
    let sent = (do
      freq ← load32 buf 0
      rate ←
          (if is_valid_frequency freq
            then (count_halvings 11 freq 0 >>= λ counter. some (16 - counter))
            else some junk)
      some (nbytes, set_rate prev rate)) in
    if nbytes == 4 then sent else some (minus_one, [])

-- The spin on `flag` in `rtc_read`. At each turn an interrupt of the clock, whose handler sets
-- `flag`, has come or not. The result is `flag` and the turns that are left; `none` if no
-- interrupt comes, and the loop goes on for ever.
unfoldable pub wait_for_flag : ℕ → List Bool → Option (ℕ × List Bool)
wait_for_flag (suc flag) turns = some (suc flag, turns)
wait_for_flag zero [] = none
wait_for_flag zero (came ∷ later) =
    wait_for_flag (if came then rtc_interrupt_handler.1 else 0) later

-- What `rtc_read` returns and leaves: the interrupt mask, what it sends to the ports, `flag`, and
-- the rest of the turns.
pub record Waited : Type 0 where
  pub result : ℕ
  pub mask : ℕ
  pub ports : List PortWrite
  pub flag_after : ℕ
  pub later : List Bool

-- `flag` is what earlier interrupts left. It is reset before the spin.
unfoldable pub rtc_read : ℕ → ℕ → List Bool → Option Waited
rtc_read cached flag turns = do
  let (masked, ports) = disable_irq cached 1
  (flag', later) ← wait_for_flag 0 turns
  let (restored, ports') = enable_irq masked 1
  some (record {
    result = 0;
    mask = restored;
    ports = ports ++ ports';
    flag_after = flag';
    later = later;
  })
