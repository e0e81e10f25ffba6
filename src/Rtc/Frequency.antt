-- ===== src/Rtc/Frequency.antt =====
-- Which rate `rtc_write` sets.
use illinix_operating_system.Base.{
  ℕ, ◌-◌, ◌/◌, ◌%◌, ◌^◌, ◌≤◌, ◌<◌, ◌≡◌, ◌≢◌, true, false, ◌&&◌, none, some, [], ◌∷◌, ◌==◌, bit_and,
  bit_or, Reader, load32, ◌>>=◌, minus_one, arith, refl,
}
use illinix_operating_system.Base.Table.{holds_below, holds_below-at}
use illinix_operating_system.Base.Ports.{outb}
use illinix_operating_system.Rtc.{
  is_valid_frequency, count_halvings, rtc_write, set_rate, cmosport1, cmosport2,
}

-- The byte that is written to register A.
abbrev pub register_a : ℕ → ℕ → ℕ
register_a prev rate = bit_or (bit_and prev 0xf0) rate % 256

valid_table :
    holds_below 11 (λ k.
      is_valid_frequency (2 ^ k)
      && (elim (count_halvings 11 (2 ^ k) 0) [ none ↦ false | some c ↦ c == k ]))
    ≡ true
unfolding holds_below is_valid_frequency count_halvings
valid_table = refl

register_table :
    holds_below 16 (λ rate.
      holds_below 256
        (λ prev. (register_a prev rate % 16 == rate) && (register_a prev rate / 16 == prev / 16)))
    ≡ true
unfolding holds_below
register_table = refl

-- A power of two from 1 to 1024 is accepted, and `counter` is its exponent.
valid_power :
    (k : ℕ) → k ≤ 10 → (is_valid_frequency (2 ^ k) ≡ true) × (count_halvings 11 (2 ^ k) 0 ≡ some k)
valid_power k h = let row = holds_below-at _ k 11 (omega arith) valid_table in ground arith

-- Writing the frequency 2 ^ k, for k from 1 to 10, terminates, returns 4 and sends one new byte
-- for register A: its low four digits are the rate 16 - k, which stands for that frequency, and
-- its high four digits are kept.
pub rtc_write_lem :
    (prev junk k : ℕ) (buf : Reader)
    → prev < 256
    → 1 ≤ k
    → k ≤ 10
    → load32 buf 0 ≡ some (2 ^ k)
    → (byte : ℕ) × (rtc_write prev junk buf 4
        ≡ some (4, outb 0x8a cmosport1 ∷ outb 0x8a cmosport1 ∷ outb byte cmosport2 ∷ []))
      × (byte % 16 ≡ 16 - k)
      × (byte / 16 ≡ prev / 16)
unfolding rtc_write
rtc_write_lem prev junk k buf hp low high e =
    let (valid, count) = valid_power k high in
    let row = holds_below-at _ (16 - k) 16 (omega arith) register_table in
    let cell = holds_below-at _ prev 256 hp row in
    (register_a prev (16 - k), rw (e, ◌>>=◌, valid, count, ◌>>=◌) refl, ground arith, ground arith)

-- For a value that is no power of two up to 1024 the rate that is sent is whatever lay on the
-- stack: the write is not refused.
pub rtc_write_invalid :
    (prev junk freq : ℕ) (buf : Reader)
    → load32 buf 0 ≡ some freq
    → is_valid_frequency freq ≡ false
    → rtc_write prev junk buf 4 ≡ some (4, set_rate prev junk)
unfolding rtc_write
rtc_write_invalid prev junk freq buf e bad = rw (e, ◌>>=◌, bad, ◌>>=◌) refl

-- Another size than 4 is refused: -1, and nothing is sent.
pub rtc_write_size :
    (prev junk nbytes : ℕ) (buf : Reader)
    → nbytes ≢ 4
    → rtc_write prev junk buf nbytes ≡ some (minus_one, [])
unfolding rtc_write
rtc_write_size prev junk nbytes buf ne = ground arith
