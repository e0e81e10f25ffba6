-- ===== src/Printf.antt =====
-- `printf` of student-distrib/lib.c, on a screen. The stack words behind the format are a list:
-- a number, or a pointer to a string. The two buffers for digits lie uninitialised on the stack.
pub mod Formats
pub mod Padding
pub mod Conversions
pub mod Output
use illinix_operating_system.Base.{
  ℕ, zero, suc, ◌+◌, ◌-◌, ◌%◌, ◌^◌, Bool, true, false, Option, none, some, List, [], ◌∷◌, ◌++◌, ltb,
  ◌==◌, if◌then◌else◌, Reader, ◌>>=◌, bytes_at, store, take, drop, is_negative,
}
use illinix_operating_system.Screen.{Screen, putc, puts}
use illinix_operating_system.Strings.{strlen, itoa}

pub data Arg : Type 0 where
  word : ℕ → Arg
  pointer : Reader → Arg

-- The buffers `conv_buf[64]` and `conv_buf[36]`.
pub record Buffers : Type 0 where
  pub conv_64 : List ℕ
  pub conv_36 : List ℕ

-- `*(uint32_t*)esp` and `esp++`, and the same for a pointer; a fault where the stack holds the
-- other kind or nothing.
abbrev pub next_word : List Arg → Option (ℕ × List Arg)
next_word [] = none
next_word (word w ∷ args) = some (w, args)
next_word (pointer p ∷ args) = none

abbrev pub next_pointer : List Arg → Option (Reader × List Arg)
next_pointer [] = none
next_pointer (word w ∷ args) = none
next_pointer (pointer p ∷ args) = some (p, args)

-- `puts`, whose result `printf` drops.
puts_only : Reader → Screen → Option Screen
puts_only p s = puts p s >>= λ (n, s'). some s'

-- The loop that fills with `0` up to index 8.
zeros_to_8 : ℕ → List ℕ → ℕ → Option (List ℕ)
zeros_to_8 zero buf i = some buf
zeros_to_8 (suc left) buf i = store buf i b'0' >>= λ b. zeros_to_8 left b (i + 1)

-- `%#x`: the digits go to index 8, and what is shown starts as far from it as they are many.
pub print_padded : Buffers → ℕ → Screen → Option Screen
print_padded b value s = do
  digits ← itoa value (drop 8 b.conv_64) 16
  starting_index ← strlen (bytes_at digits)
  conv ← zeros_to_8 (8 - starting_index) (take 8 b.conv_64 ++ digits) starting_index
  puts_only (bytes_at (drop starting_index conv)) s

-- `%d`: a negative value is shown behind a sign.
print_signed : Buffers → ℕ → Screen → Option Screen
print_signed b value s =
    let negative = itoa ((2 ^ 32 - value) % 2 ^ 32) (drop 1 b.conv_36) 10 >>= λ digits.
    puts_only (bytes_at (b'-' ∷ digits)) s in
    let positive = itoa value b.conv_36 10 >>= λ digits. puts_only (bytes_at digits) s in
    if is_negative value then negative else positive

-- The conversion of one specifier.
unfoldable pub convert : Buffers → ℕ → Bool → List Arg → Screen → Option (List Arg × Screen)
unfolding puts_only print_padded print_signed zeros_to_8
convert b c alternate args s =
    let hexadecimal = (do
      (value, args') ← next_word args
      let plain = (do digits ← itoa value b.conv_64 16; puts_only (bytes_at digits) s)
      s' ← (if alternate then print_padded b value s else plain)
      some (args', s')) in
    let unsigned = (do
      (value, args') ← next_word args
      digits ← itoa value b.conv_36 10
      s' ← puts_only (bytes_at digits) s
      some (args', s')) in
    let signed = (do
      (value, args') ← next_word args
      s' ← print_signed b value s
      some (args', s')) in
    let character = next_word args >>= λ (value, args'). some (args', putc (value % 256) s) in
    let string = (do (p, args') ← next_pointer args; s' ← puts_only p s; some (args', s')) in
    if c == b'%'
    then some (args, putc b'%' s)
    else if c == b'x'
    then hexadecimal
    else if c == b'u'
    then unsigned
    else if c == b'd'
    then signed
    else if c == b'c'
    then character
    else if c == b's'
    then string
    else some (args, s)

-- From `format_char_switch` on: the specifier behind any number of `#`, and its index.
unfoldable pub specifier : ℕ → Reader → ℕ → Bool → Option (ℕ × ℕ × Bool)
specifier zero format i alternate = none
specifier (suc fuel) format i alternate = do
  c ← format i
  let rest = specifier fuel format (i + 1) true
  if c == b'#' then rest else some (c, i, alternate)

-- The loop over the format, on fuel. A `%` at the end of the format takes the 0 byte for its
-- specifier, and the loop goes on behind it.
unfoldable pub printf_from : ℕ → Buffers → Reader → ℕ → List Arg → Screen → Option (ℕ × Screen)
printf_from zero b format i args s = none
printf_from (suc fuel) b format i args s = do
  c ← format i
  let plain = printf_from fuel b format (i + 1) args (putc c s)
  let conversion = (do
    (c', at, alternate) ← specifier fuel format (i + 1) false
    (args', s') ← convert b c' alternate args s
    printf_from fuel b format (at + 1) args' s')
  if c == 0 then some (i, s) else if c == b'%' then conversion else plain

address_space : ℕ
address_space = 2 ^ 32

unfoldable pub printf : Buffers → Reader → List Arg → Screen → Option (ℕ × Screen)
unfolding address_space
printf b format args s = printf_from address_space b format 0 args s
