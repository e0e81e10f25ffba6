-- ===== src/Pic/Masks.antt =====
-- What enabling and disabling do to each interrupt, and what the controllers are told.
use illinix_operating_system.Base.{
  ℕ, zero, suc, ◌+◌, ◌-◌, ◌/◌, ◌^◌, ◌<◌, ◌≡◌, true, false, ◌&&◌, List, [], ◌∷◌, ltb, ◌==◌,
  if◌then◌else◌, bit_and, arith, refl, ◌∙◌, not, ap, sym, Bool-cases, inl, inr,
}
use illinix_operating_system.Base.Bits.{bit, bit-le-one, bit-bit_and, bit-bit_or}
use illinix_operating_system.Base.Table.{holds_below, holds_below-at}
use illinix_operating_system.Base.Ports.{PortWrite, outb}
use illinix_operating_system.Pic.{
  enable_irq, disable_irq, send_mask, cached_21, cached_a1, master_port_config, slave_port_config,
}

-- Digit `j` of `1 << k` and of its complement, over all the interrupts.
mask_table :
    holds_below 16 (λ k. holds_below 16 (λ j.
      (bit (2 ^ k) j == (if k == j then 1 else 0))
      && (bit (0xffff_ffff - 2 ^ k) j == (if k == j then 0 else 1))))
    ≡ true
unfolding holds_below bit
mask_table = refl

mask_bits :
    (k j : ℕ)
    → k < 16
    → j < 16
    → (bit (2 ^ k) j ≡ (if k == j then 1 else 0))
      × (bit (0xffff_ffff - 2 ^ k) j ≡ (if k == j then 0 else 1))
mask_bits k j hk hj =
    let row = holds_below-at _ k 16 hk mask_table in
    let cell = holds_below-at _ j 16 hj row in ground arith

-- Enabling an interrupt clears its digit of the mask and no other.
pub enable_irq_mask :
    (cached k j : ℕ)
    → k < 16
    → j < 16
    → bit (enable_irq cached k).0 j ≡ (if k == j then 0 else bit cached j)
unfolding enable_irq
enable_irq_mask cached k j hk hj =
    let in_range : ltb 15 k ≡ false = ground arith in
    rw (in_range, bit-bit_and) (ground (arith, mask_bits k j hk hj, bit-le-one cached j))

-- Disabling an interrupt sets its digit of the mask and no other.
pub disable_irq_mask :
    (cached k j : ℕ)
    → k < 16
    → j < 16
    → bit (disable_irq cached k).0 j ≡ (if k == j then 1 else bit cached j)
unfolding disable_irq
disable_irq_mask cached k j hk hj =
    let in_range : ltb 15 k ≡ false = ground arith in
    rw (in_range, bit-bit_or) (ground (arith, mask_bits k j hk hj, bit-le-one cached j))

low_byte_bit : (n j : ℕ) → j < 8 → bit (cached_21 n) j ≡ bit n j
unfolding bit
low_byte_bit n zero h = omega arith
low_byte_bit n (suc zero) h = omega arith
low_byte_bit n (suc (suc zero)) h = omega arith
low_byte_bit n (suc (suc (suc zero))) h = omega arith
low_byte_bit n (suc (suc (suc (suc zero)))) h = omega arith
low_byte_bit n (suc (suc (suc (suc (suc zero))))) h = omega arith
low_byte_bit n (suc (suc (suc (suc (suc (suc zero)))))) h = omega arith
low_byte_bit n (suc (suc (suc (suc (suc (suc (suc zero))))))) h = omega arith
low_byte_bit n (suc (suc (suc (suc (suc (suc (suc (suc j)))))))) h = absurd (omega arith)

high_bits : (n j : ℕ) → bit n (suc (suc (suc (suc (suc (suc (suc (suc j)))))))) ≡ bit (n / 256) j
unfolding bit
high_bits n j = ap (λ m. bit m j) (omega arith)

-- The controller that serves interrupt `k`, and the digit of `k` in its byte.
unfoldable pub serving_port : ℕ → ℕ
serving_port k = if ltb k 8 then master_port_config else slave_port_config

irq_table :
    holds_below 16 (λ k. if ltb k 8 then bit_and k 8 == 0 else not (bit_and k 8 == 0)) ≡ true
unfolding holds_below
irq_table = refl

-- One byte is sent, to the controller that serves the interrupt, and it holds the digits of the
-- mask for the eight interrupts of that controller.
pub record IsSent (mask k : ℕ) (ports : List PortWrite) : Type 0 where
  pub byte : ℕ
  pub one_write : ports ≡ outb byte (serving_port k) ∷ []
  pub digits : (j : ℕ) → j < 8 → bit byte j ≡ bit mask (if ltb k 8 then j else 8 + j)

sent : (mask k : ℕ) → k < 16 → IsSent mask k (send_mask mask k)
unfolding send_mask serving_port
sent mask k hk =
    let side = holds_below-at _ k 16 hk irq_table in
    elim (Bool-cases (ltb k 8)) [
      | inl low ↦ record {
        byte = cached_21 mask;
        one_write = ground arith;
        digits = λ j h. rw low (low_byte_bit mask j h);
      }
      | inr high ↦ record {
        byte = cached_a1 mask;
        one_write = ground arith;
        digits = λ j h. rw high (low_byte_bit (mask / 256) j h ∙ sym (shifted j));
      }
    ]
  where
    shifted : (j : ℕ) → bit mask (8 + j) ≡ bit (mask / 256) j
    shifted j = ap (bit mask) (omega arith) ∙ high_bits mask j

-- Enabling or disabling an interrupt of the two controllers sends one byte, to the controller
-- that serves it, which holds the new mask of that controller.
pub irq-IsSent :
    (cached k : ℕ)
    → k < 16
    → IsSent (enable_irq cached k).0 k (enable_irq cached k).1
      × IsSent (disable_irq cached k).0 k (disable_irq cached k).1
unfolding enable_irq disable_irq
irq-IsSent cached k hk =
    let in_range : ltb 15 k ≡ false = ground arith in
    (rw in_range (sent _ k hk), rw in_range (sent _ k hk))

-- A number above 15 changes no mask and sends nothing.
pub irq_out_of_range :
    (cached k : ℕ)
    → 15 < k
    → (enable_irq cached k ≡ (cached, [])) × (disable_irq cached k ≡ (cached, []))
unfolding enable_irq disable_irq
irq_out_of_range cached k h = (ground arith, ground arith)
