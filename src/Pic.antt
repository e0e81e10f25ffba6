-- ===== src/Pic.antt =====
-- student-distrib/i8259.c: the interrupt controller. The state is `cached_irq_mask`; what is
-- sent to the ports is returned.
pub mod Masks
use illinix_operating_system.Base.{
  ℕ, zero, suc, ◌+◌, ◌-◌, ◌*◌, ◌/◌, ◌%◌, ◌^◌, Bool, List, [], ◌∷◌, ltb, leb, ◌==◌, if◌then◌else◌,
  bit_and, bit_or,
}
use illinix_operating_system.Base.Ports.{PortWrite, outb}

abbrev pub master_port : ℕ
master_port = 0x20

abbrev pub slave_port : ℕ
slave_port = 0xa0

abbrev pub master_port_config : ℕ
master_port_config = 0x21

abbrev pub slave_port_config : ℕ
slave_port_config = 0xa1

abbrev pub eoi : ℕ
eoi = 0x60

-- All interrupts are masked at first.
abbrev pub cached_irq_mask_init : ℕ
cached_irq_mask_init = 0xffff

-- Both masks are 0xff, and stay so.
pub i8259_init : List PortWrite
i8259_init =
    outb 0xff master_port_config
    ∷ outb 0xff slave_port_config
    ∷ outb 0x11 master_port
    ∷ outb 0x20 master_port_config
    ∷ outb 0x04 master_port_config
    ∷ outb 0x01 master_port_config
    ∷ outb 0x11 slave_port
    ∷ outb 0x28 slave_port_config
    ∷ outb 0x02 slave_port_config
    ∷ outb 0x01 slave_port_config
    ∷ []

-- `cached_21` and `cached_A1`, the two low bytes of the mask.
abbrev pub cached_21 : ℕ → ℕ
cached_21 mask = mask % 256

abbrev pub cached_a1 : ℕ → ℕ
cached_a1 mask = mask / 2 ^ 8 % 256

-- The byte that holds the interrupt goes to the controller that serves it.
unfoldable pub send_mask : ℕ → ℕ → List PortWrite
send_mask mask irq_num =
    if bit_and irq_num 8 == 0
    then outb (cached_21 mask) master_port_config ∷ []
    else outb (cached_a1 mask) slave_port_config ∷ []

unfoldable pub enable_irq : ℕ → ℕ → ℕ × List PortWrite
unfolding send_mask
enable_irq cached irq_num =
    let mask = 0xffff_ffff - 2 ^ irq_num in
    let masked = bit_and cached mask in
    if ltb 15 irq_num then (cached, []) else (masked, send_mask masked irq_num)

unfoldable pub disable_irq : ℕ → ℕ → ℕ × List PortWrite
unfolding send_mask
disable_irq cached irq_num =
    let mask = 2 ^ irq_num in
    let masked = bit_or cached mask in
    if ltb 15 irq_num then (cached, []) else (masked, send_mask masked irq_num)

unfoldable pub send_eoi : ℕ → List PortWrite
send_eoi irq_num =
    if leb 8 irq_num
    then outb (eoi + 2) master_port ∷ outb (bit_or eoi (irq_num - 8)) slave_port ∷ []
    else outb (bit_or eoi irq_num) master_port ∷ []
