-- ===== src/Pit.antt =====
-- student-distrib/pit.c: the interval timer. `pit_handler` acknowledges its interrupt and calls
-- `switch_process` of `Scheduling`.
use illinix_operating_system.Base.{ℕ, ◌/◌, ◌%◌, ◌^◌, List, [], ◌∷◌}
use illinix_operating_system.Base.Ports.{PortWrite, outb}

abbrev pub pit_freq : ℕ
pit_freq = 1193182

abbrev pub pit_count : ℕ
pit_count = 100

-- The divisor goes out low byte first.
unfoldable pub pit_init : List PortWrite
pit_init =
    outb 0x36 0x43
    ∷ outb (pit_freq / pit_count % 256) 0x40
    ∷ outb (pit_freq / pit_count / 2 ^ 8) 0x40
    ∷ []
