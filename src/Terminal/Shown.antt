-- ===== src/Terminal/Shown.antt =====
-- What `terminal_write` shows through descriptor 1.
use illinix_operating_system.Base.{
  ℕ, zero, suc, ◌+◌, ◌<◌, ◌≡◌, refl, arith, false, some, Reader, ◌>>=◌, is_negative, ap, ◌∙◌, sym,
  ◌^◌,
}
use illinix_operating_system.Screen.{Screen, putc}
use illinix_operating_system.Terminal.{Terminal, terminal_write, terminal_write_from}

-- The screen after the characters `c k`, `c (k + 1)` and so on, `n` of them.
unfoldable pub shown : ℕ → (ℕ → ℕ) → ℕ → Screen → Screen
shown zero c k s = s
shown (suc n) c k s = shown n c (k + 1) (putc (c k) s)

terminal_write_from-shown :
    (left : ℕ) (buf : Reader) (c : ℕ → ℕ) (nbytes i k : ℕ) (t : Terminal)
    → ((j : ℕ) → j < left → buf (i + j) ≡ some (c (k + j)))
    → terminal_write_from left 1 buf nbytes i t
      ≡ some (nbytes, record t { screen = shown left c k t.screen })
unfolding terminal_write_from shown
terminal_write_from-shown zero buf c nbytes i k t h = refl
terminal_write_from-shown (suc left) buf c nbytes i k t h =
    let i0 : i + 0 ≡ i = omega arith in
    let k0 : k + 0 ≡ k = omega arith in
    let first : buf i ≡ some (c k) =
      ap buf (sym i0) ∙ h 0 (omega arith) ∙ ap (λ m. some (c m)) k0 in
    rw (first, ◌>>=◌)
      (terminal_write_from-shown left buf c nbytes (i + 1) (k + 1)
        (record t { screen = putc (c k) t.screen })
        (λ j l.
          let e : i + 1 + j ≡ i + suc j = omega arith in
          let e' : k + 1 + j ≡ k + suc j = omega arith in
          ap buf e ∙ h (suc j) (omega arith) ∙ ap (λ m. some (c m)) (sym e')))

-- A write of `n` characters through descriptor 1 shows each of them in turn, leaves the lines of
-- the terminals alone and returns `n`.
pub terminal_write-shown :
    (n : ℕ) (buf : Reader) (c : ℕ → ℕ) (k : ℕ) (t : Terminal)
    → n < 2 ^ 31
    → ((j : ℕ) → j < n → buf j ≡ some (c (k + j)))
    → terminal_write 1 buf n t ≡ some (n, record t { screen = shown n c k t.screen })
unfolding terminal_write
terminal_write-shown n buf c k t small h =
    let positive : is_negative n ≡ false = ground arith in
    rw positive (
      terminal_write_from-shown n buf c n 0 k t
        (λ j l. let e : 0 + j ≡ j = omega arith in ap buf e ∙ h j l))

-- Characters shown in two parts.
pub shown-join :
    (n m t : ℕ) (c : ℕ → ℕ) (k : ℕ) (s : Screen)
    → n + m ≡ t
    → shown t c k s ≡ shown m c (k + n) (shown n c k s)
unfolding shown
shown-join zero m t c k s e =
    let e' : m ≡ t = omega arith in let k0 : k + 0 ≡ k = omega arith in rw (e', k0) refl
shown-join (suc n) m zero c k s e = absurd (omega arith)
shown-join (suc n) m (suc t) c k s e =
    let k1 : k + suc n ≡ k + 1 + n = omega arith in
    rw k1 (shown-join n m t c (k + 1) (putc (c k) s) (omega arith))
