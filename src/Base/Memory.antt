-- ===== src/Base/Memory.antt =====
-- Memory as the C code sees it through a pointer: the byte at an index, or `none` where the
-- object ends and the access would be a fault. Buffers that are written are lists.
use Prim.Native.Nat.{ℕ, ◌+◌, ◌*◌, ◌%◌, ◌^◌, ◌<◌}
use mathlib.Core.Path.{◌≡◌}
use mathlib.Core.Bool.{Bool}
use mathlib.Core.Option.{Option, none, some}
use mathlib.Core.List.{List}
use native.Mathlib.Omega.{arith}
use illinix_operating_system.Base.Tests.{ltb, lt→ltb, if◌then◌else◌}
use illinix_operating_system.Base.Lists.{length, get_elem?, set}

abbrev pub Reader : Type 0
Reader = ℕ → Option ℕ

infixl 5 ◌>>=◌
abbrev pub ◌>>=◌ {ℓ κ} : {A : Type ℓ} {B : Type κ} → Option A → (A → Option B) → Option B
none >>= f = none
some a >>= f = f a

-- A buffer read through a pointer to its first byte.
abbrev pub bytes_at : List ℕ → Reader
bytes_at xs i = get_elem? xs i

-- `p + n`.
abbrev pub offset_by : Reader → ℕ → Reader
offset_by p n i = p (n + i)

-- `buf[i] = v`.
unfoldable pub store : List ℕ → ℕ → ℕ → Option (List ℕ)
store buf i v = if ltb i (length buf) then some (set buf i v) else none

pub store_lem : (buf : List ℕ) (i v : ℕ) → i < length buf → store buf i v ≡ some (set buf i v)
unfolding store
store_lem buf i v h = ground (arith, lt→ltb i (length buf))

-- A `uint32_t` in memory, the lowest byte first.
unfoldable pub load32 : Reader → ℕ → Option ℕ
load32 m a = do
  b0 ← m a
  b1 ← m (a + 1)
  b2 ← m (a + 2)
  b3 ← m (a + 3)
  some (b0 + b1 * 2 ^ 8 + b2 * 2 ^ 16 + b3 * 2 ^ 24)

-- The results of the C code: an `int` or `uint32_t` is its bit pattern, below 2 ^ 32.
abbrev pub u32 : ℕ → ℕ
u32 n = n % 2 ^ 32

abbrev pub minus_one : ℕ
minus_one = 0xffff_ffff

-- The sign of an `int`.
abbrev pub is_negative : ℕ → Bool
is_negative w = ltb 0x7fff_ffff w
