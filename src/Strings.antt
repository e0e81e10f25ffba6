-- ===== src/Strings.antt =====
-- The string routines of student-distrib/lib.c. A string that is read is a `Reader`; a buffer
-- that is written is a list, and an access outside either is `none`.
pub mod Length
pub mod Compare
pub mod Copy
pub mod Strcpy
pub mod Reverse
pub mod Digits
pub mod Numerals
use illinix_operating_system.Base.{
  ℕ, zero, suc, ◌+◌, ◌-◌, ◌/◌, ◌%◌, ◌^◌, Bool, not, ◌||◌, Option, none, some, List, [], ◌∷◌, ltb,
  leb, ◌==◌, if◌then◌else◌, Reader, ◌>>=◌, bytes_at, get_elem?, store,
}
use illinix_operating_system.Base.Int.{ℤ, pos, negsuc, ◌-ℤ◌}

-- A pointer is 32 bits wide: no string is longer.
address_space : ℕ
address_space = 2 ^ 32

strlen_from : ℕ → Reader → ℕ → Option ℕ
strlen_from zero s len = none
strlen_from (suc fuel) s len = do
  c ← s len
  let rest = strlen_from fuel s (len + 1)
  if c == 0 then some len else rest

unfoldable pub strlen : Reader → Option ℕ
unfolding strlen_from address_space
strlen s = strlen_from address_space s 0

-- A `char` is signed.
unfoldable pub char_value : ℕ → ℤ
char_value c = if ltb c 128 then pos c else negsuc (255 - c)

-- The loop from index `i`, with `n - i` rounds left.
unfoldable pub strncmp_from : ℕ → Reader → Reader → ℕ → Option ℤ
strncmp_from zero s1 s2 i = some (pos 0)
strncmp_from (suc left) s1 s2 i = do
  a ← s1 i
  b ← s2 i
  let rest = strncmp_from left s1 s2 (i + 1)
  if not (a == b) || a == 0 then some (char_value a -ℤ char_value b) else rest

unfoldable pub strncmp : Reader → Reader → ℕ → Option ℤ
unfolding strncmp_from char_value ◌-ℤ◌
strncmp s1 s2 n = strncmp_from n s1 s2 0

strcpy_from : ℕ → List ℕ → Reader → ℕ → Option (List ℕ)
strcpy_from zero dest src i = none
strcpy_from (suc fuel) dest src i = do
  c ← src i
  let rest = store dest i c >>= λ d. strcpy_from fuel d src (i + 1)
  if c == 0 then store dest i 0 else rest

unfoldable pub strcpy : List ℕ → Reader → Option (List ℕ)
unfolding address_space strcpy_from store
strcpy dest src = strcpy_from address_space dest src 0

-- The first loop of `strncpy`, with `n - i` rounds left: it reads `src[i]` before it compares
-- `i` with `n`. The result holds `i` at its end.
strncpy_text : ℕ → List ℕ → Reader → ℕ → Option (ℕ × List ℕ)
strncpy_text zero dest src i = src i >>= λ c. some (i, dest)
strncpy_text (suc left) dest src i = do
  c ← src i
  let rest = store dest i c >>= λ d. strncpy_text left d src (i + 1)
  if c == 0 then some (i, dest) else rest

-- The second loop.
strncpy_pad : ℕ → List ℕ → ℕ → Option (List ℕ)
strncpy_pad zero dest i = some dest
strncpy_pad (suc left) dest i = store dest i 0 >>= λ d. strncpy_pad left d (i + 1)

unfoldable pub strncpy : List ℕ → Reader → ℕ → Option (List ℕ)
unfolding strncpy_text strncpy_pad store
strncpy dest src n = strncpy_text n dest src 0 >>= λ (i, d). strncpy_pad (n - i) d i

-- The loop of `strrev` at `beg` and `end`; `end` falls by one in each round.
unfoldable pub strrev_loop : List ℕ → ℕ → ℕ → Option (List ℕ)
strrev_loop s beg zero = some s
strrev_loop s beg (suc end) =
    let swapped = (do
      tmp ← get_elem? s (suc end)
      x ← get_elem? s beg
      s' ← store s (suc end) x
      s'' ← store s' beg tmp
      strrev_loop s'' (beg + 1) end) in
    if ltb beg (suc end) then swapped else some s

-- For the empty string `end` is -1 in the source and 0 here: the loop ends at once in both.
unfoldable pub strrev : List ℕ → Option (List ℕ)
unfolding strrev_loop store
strrev s = strlen (bytes_at s) >>= λ n. strrev_loop s 0 (n - 1)

-- The 36 characters of `lookup`: the digits, and the letters from `A` on.
unfoldable pub digit_char : ℕ → ℕ
digit_char i = if ltb i 10 then i + b'0' else i + 55

-- `lookup[newval % radix]`: a fault on division by 0 or beyond the end of `lookup`.
lookup : ℕ → ℕ → Option ℕ
lookup newval radix =
    if radix == 0 || leb 36 (newval % radix) then none else some (digit_char (newval % radix))

-- The loop of `itoa`, which writes the lowest digit first. `newval` falls at each round, so that
-- the value itself is fuel enough; the result holds the index of the next character.
pub itoa_loop : ℕ → ℕ → List ℕ → ℕ → ℕ → Option (ℕ × List ℕ)
itoa_loop zero newval buf i radix = if newval == 0 then some (i, buf) else none
itoa_loop (suc fuel) newval buf i radix =
    let rest = (do
      c ← lookup newval radix
      b ← store buf i c
      itoa_loop fuel (newval / radix) b (i + 1) radix) in
    if newval == 0 then some (i, buf) else rest

unfoldable pub itoa : ℕ → List ℕ → ℕ → Option (List ℕ)
unfolding itoa_loop lookup digit_char store
itoa value buf radix =
    let zero_text = store buf 0 b'0' >>= λ b. store b 1 0 in
    let text = itoa_loop value value buf 0 radix >>= λ (i, b). store b i 0 >>= λ b'. strrev b' in
    if value == 0 then zero_text else text
