-- ===== src/Rtc/Wait.antt =====
-- How long `rtc_read` waits, and what it does to the interrupt mask.
use illinix_operating_system.Base.{
  ℕ, zero, suc, ◌<◌, ◌≡◌, Bool, true, false, none, some, List, ◌∷◌, ◌++◌, ◌==◌, if◌then◌else◌,
  ◌>>=◌, arith, refl, replicate, ◌∙◌, [],
}
use illinix_operating_system.Base.Ports.{outb}
use illinix_operating_system.Base.Bits.{bit}
use illinix_operating_system.Pic.{enable_irq, disable_irq, master_port_config}
use illinix_operating_system.Pic.Masks.{enable_irq_mask, disable_irq_mask, serving_port, irq-IsSent}
use illinix_operating_system.Rtc.{wait_for_flag, rtc_interrupt_handler, Waited, rtc_read}

wait_for_flag_lem :
    (n : ℕ) (later : List Bool)
    → wait_for_flag 0 (replicate n false ++ true ∷ later) ≡ some (1, later)
unfolding wait_for_flag rtc_interrupt_handler
wait_for_flag_lem zero later = refl
wait_for_flag_lem (suc n) later = wait_for_flag_lem n later

-- The controller of the interrupts 0 to 7 is told twice: first that interrupt 1 is masked, then
-- that it is not, and each time that the others are as in `cached`. The mask that the kernel
-- keeps has interrupt 1 enabled, and every other interrupt as it was.
pub record IsWaited (cached : ℕ) (w : Waited) : Type 0 where
  pub masking : ℕ
  pub unmasking : ℕ
  pub two_writes :
      w.ports ≡ outb masking master_port_config ∷ outb unmasking master_port_config ∷ []
  pub keyboard_off : (j : ℕ) → j < 8 → bit masking j ≡ (if 1 == j then 1 else bit cached j)
  pub keyboard_on : (j : ℕ) → j < 8 → bit unmasking j ≡ (if 1 == j then 0 else bit cached j)
  pub restored : (j : ℕ) → j < 16 → bit w.mask j ≡ (if 1 == j then 0 else bit cached j)

restored_bit :
    (cached j : ℕ)
    → j < 16
    → bit (enable_irq (disable_irq cached 1).0 1).0 j ≡ (if 1 == j then 0 else bit cached j)
restored_bit cached j h = ground (
  arith,
  enable_irq_mask (disable_irq cached 1).0 1 j (omega arith) h,
  disable_irq_mask cached 1 j (omega arith) h,
)

pub rtc_read_lem :
    (cached flag n : ℕ) (later : List Bool)
    → (w : Waited) × (rtc_read cached flag (replicate n false ++ true ∷ later) ≡ some w)
      × (w.result ≡ 0)
      × (w.flag_after ≡ 1)
      × (w.later ≡ later)
      × IsWaited cached w
unfolding rtc_read serving_port
rtc_read_lem cached flag n later =
    let masked = (disable_irq cached 1).0 in
    let off = (irq-IsSent cached 1 (omega arith)).1 in
    let on = (irq-IsSent masked 1 (omega arith)).0 in
    (
      record {
        result = 0;
        mask = (enable_irq masked 1).0;
        ports = (disable_irq cached 1).1 ++ (enable_irq masked 1).1;
        flag_after = 1;
        later = later;
      },
      rw (wait_for_flag_lem n later, ◌>>=◌) refl,
      refl,
      refl,
      refl,
      record {
        masking = off.byte;
        unmasking = on.byte;
        two_writes = rw (off.one_write, on.one_write) refl;
        keyboard_off =
            λ j h. off.digits j h ∙ disable_irq_mask cached 1 j (omega arith) (omega arith);
        keyboard_on = λ j h. on.digits j h ∙ restored_bit cached j (omega arith);
        restored = λ j h. restored_bit cached j h;
      },
    )

-- Without an interrupt of the clock after its call it does not return, even if `flag` was set.
pub rtc_read_blocks : (cached flag n : ℕ) → rtc_read cached flag (replicate n false) ≡ none
unfolding rtc_read wait_for_flag
rtc_read_blocks cached flag zero = refl
rtc_read_blocks cached flag (suc n) = rtc_read_blocks cached flag n
