-- ===== src/Base/Ports.antt =====
-- `outb` of student-distrib/lib.h: the bytes that the kernel sends to the hardware, as values.
use Prim.Native.Nat.{ℕ}

pub record PortWrite : Type 0 where
  pub port : ℕ
  pub value : ℕ

abbrev pub outb : ℕ → ℕ → PortWrite
outb value port = record { port = port; value = value }
