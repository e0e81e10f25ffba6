-- ===== src/Programs/Support.antt =====
-- syscalls/ece391support.c: the string routines that the user programs share.
pub mod Comparing
pub mod Moving
pub mod Numbers
use illinix_operating_system.Base.{
  ℕ, Bool, false, zero, suc, ◌+◌, ◌-◌, ◌^◌, Option, none, some, List, Reader, bytes_at, get_elem?,
  store, ltb, ◌==◌, if◌then◌else◌, ◌>>=◌,
}
use illinix_operating_system.Base.Int.{ℤ, pos, ◌-ℤ◌, negsuc}
use illinix_operating_system.Strings.{strlen, itoa_loop, strrev_loop}

-- A pointer is 32 bits wide: no string is longer.
address_space : ℕ
address_space = 2 ^ 32

-- Whether the result of a comparison is 0.
abbrev pub is_same : ℤ → Bool
is_same (pos n) = n == 0
is_same (negsuc n) = false

-- The loop of the kernel's `strlen`.
abbrev pub ece391_strlen : Reader → Option ℕ
ece391_strlen s = strlen s

-- `uint8_t` is unsigned, unlike the `char` of the kernel's routines.
strcmp_loop : ℕ → Reader → Reader → ℕ → Option ℤ
strcmp_loop zero s1 s2 i = none
strcmp_loop (suc fuel) s1 s2 i = do
  a ← s1 i
  b ← s2 i
  let rest = strcmp_loop fuel s1 s2 (i + 1)
  if a == b then if a == 0 then some (pos 0) else rest else some (pos a -ℤ pos b)

unfoldable pub ece391_strcmp : Reader → Reader → Option ℤ
unfolding strcmp_loop address_space ◌-ℤ◌
ece391_strcmp s1 s2 = strcmp_loop address_space s1 s2 0

-- The loop of `ece391_strncmp`, with `n` at `suc left`: when `--n` is 0 the texts are the same.
strncmp_loop : ℕ → Reader → Reader → ℕ → Option ℤ
strncmp_loop zero s1 s2 i = do
  a ← s1 i
  b ← s2 i
  if a == b then some (pos 0) else some (pos a -ℤ pos b)
strncmp_loop (suc left) s1 s2 i = do
  a ← s1 i
  b ← s2 i
  let rest = strncmp_loop left s1 s2 (i + 1)
  if a == b then if a == 0 then some (pos 0) else rest else some (pos a -ℤ pos b)

unfoldable pub ece391_strncmp : Reader → Reader → ℕ → Option ℤ
unfolding strncmp_loop ◌-ℤ◌
ece391_strncmp s1 s2 zero = some (pos 0)
ece391_strncmp s1 s2 (suc n) = strncmp_loop n s1 s2 0

-- `ece391_strcpy` from index `src` of an array to index `dst` of the same array, as `grep` calls it.
strcpy_loop : ℕ → List ℕ → ℕ → ℕ → Option (List ℕ)
strcpy_loop zero buf dst src = none
strcpy_loop (suc fuel) buf dst src = do
  c ← get_elem? buf src
  b ← store buf dst c
  let rest = strcpy_loop fuel b (dst + 1) (src + 1)
  if c == 0 then some b else rest

unfoldable pub ece391_strcpy : List ℕ → ℕ → ℕ → Option (List ℕ)
unfolding strcpy_loop address_space store
ece391_strcpy buf dst src = strcpy_loop address_space buf dst src

-- The loop is the kernel's; here `end <= 0` returns before it.
unfoldable pub ece391_strrev : List ℕ → Option (List ℕ)
unfolding strrev_loop store
ece391_strrev s = do
  n ← ece391_strlen (bytes_at s)
  let reversed = strrev_loop s 0 (n - 1)
  if n - 1 == 0 then some s else reversed

-- The loop and its table are the kernel's.
unfoldable pub ece391_itoa : ℕ → List ℕ → ℕ → Option (List ℕ)
unfolding store
ece391_itoa value buf radix =
    let zero_text = store buf 0 b'0' >>= λ b. store b 1 0 in
    let text =
      itoa_loop value value buf 0 radix >>= λ (i, b). store b i 0 >>= λ b'. ece391_strrev b' in
    if value == 0 then zero_text else text
