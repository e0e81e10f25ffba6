-- ===== src/Kernel/Entry/Sent.antt =====
-- What the interrupt controllers were sent last when `entry` starts the first shell.
use illinix_operating_system.Base.{
  ℕ, ◌<◌, ◌≡◌, inl, inr, refl, ◌∙◌, arith, true, Bool, Bool-cases, Option, none, List, ◌∷◌, ◌++◌,
  ◌-◌, ltb, ◌||◌, some, [], ◌==◌, if◌then◌else◌,
}
use illinix_operating_system.Base.Bits.{bit}
use illinix_operating_system.Base.Table.{holds_below, holds_below-at}
use illinix_operating_system.Base.Ports.{PortWrite, outb}
use illinix_operating_system.Pit.{pit_init}
use illinix_operating_system.Rtc.{init_rtc}
use illinix_operating_system.Screen.{Screen}
use illinix_operating_system.Pic.{
  i8259_init, enable_irq, send_mask, master_port_config, slave_port_config,
}
use illinix_operating_system.Pic.Masks.{serving_port}
use illinix_operating_system.Kernel.Entry.{
  Machine, Linked, start, enable, start_devices, start_terminal,
}

-- The byte that was sent last to a port.
pub last_sent : ℕ → List PortWrite → Option ℕ
last_sent port [] = none
last_sent port (w ∷ ws) = elim (last_sent port ws) [
  | none ↦ if w.port == port then some w.value else none
  | some v ↦ some v
]

last_sent-append :
    (port : ℕ) (xs ys : List PortWrite) (v : ℕ)
    → last_sent port ys ≡ some v
    → last_sent port (xs ++ ys) ≡ some v
unfolding last_sent
last_sent-append port [] ys v h = h
last_sent-append port (x ∷ xs) ys v h = rw (last_sent-append port xs ys v h) refl

last_sent-skip :
    (port : ℕ) (xs ys : List PortWrite)
    → last_sent port ys ≡ none
    → last_sent port (xs ++ ys) ≡ last_sent port xs
unfolding last_sent
last_sent-skip port [] ys h = h
last_sent-skip port (x ∷ xs) ys h = rw (last_sent-skip port xs ys h) refl

-- The lines that are in use: the timer, the keyboard, the second controller and the clock.
abbrev pub is_open : ℕ → Bool
is_open k = k == 0 || k == 1 || k == 2 || k == 8

-- The two mask bytes that the controllers were sent last, when all was masked before.
start_sent :
    (linked : Linked) (table_at : ℕ) (m : Machine) (block : ℕ) (s : Screen)
    → m.devices.irq_mask ≡ 0xffff
    → let ports = (start linked table_at m block s).devices.ports in
      (last_sent master_port_config ports ≡ some 0xf8)
      × (last_sent slave_port_config ports ≡ some 0xfe)
unfolding start start_devices start_terminal enable enable_irq send_mask pit_init last_sent
start_sent linked table_at m block s e =
    let to_master : ℕ → List PortWrite = λ v. outb v master_port_config ∷ [] in
    let before = (m.devices.ports ++ i8259_init) ++ init_rtc linked.rtc_register in
    let with_two = (before ++ to_master 0xfd) ++ to_master 0xf9 in
    let clock = outb 0xfe slave_port_config ∷ [] in
    let timed = (with_two ++ clock) ++ pit_init in
    rw e (
      last_sent-append master_port_config timed (to_master 0xf8) 0xf8 refl,
      last_sent-skip slave_port_config timed (to_master 0xf8) refl
          ∙ last_sent-skip slave_port_config (with_two ++ clock) pit_init refl
          ∙ last_sent-append slave_port_config with_two clock 0xfe refl,
    )

sent_table :
    holds_below 16 (λ k.
      bit (if ltb k 8 then 0xf8 else 0xfe) (if ltb k 8 then k else k - 8)
      == (if is_open k then 0 else 1))
    ≡ true
unfolding holds_below bit
sent_table = refl

-- The controller that serves an interrupt was last sent a byte that lets it through or not.
pub record IsTold (m : Machine) (k : ℕ) : Type 0 where
  pub byte : ℕ
  pub last : last_sent (serving_port k) m.devices.ports ≡ some byte
  pub digit : bit byte (if ltb k 8 then k else k - 8) ≡ (if is_open k then 0 else 1)

pub start-IsTold :
    (linked : Linked) (table_at : ℕ) (m : Machine) (block : ℕ) (s : Screen) (k : ℕ)
    → m.devices.irq_mask ≡ 0xffff
    → k < 16
    → IsTold (start linked table_at m block s) k
unfolding serving_port
start-IsTold linked table_at m block s k e h =
    let row = holds_below-at _ k 16 h sent_table in
    let (master, slave) = start_sent linked table_at m block s e in
    elim (Bool-cases (ltb k 8)) [
      | inl low ↦ record { byte = 0xf8; last = rw low master; digit = ground (arith, row, low) }
      | inr high ↦ record { byte = 0xfe; last = rw high slave; digit = ground (arith, row, high) }
    ]
