-- ===== src/Programs/Pingpong/Starting.antt =====
-- Pingpong from its start.
use illinix_operating_system.Base.{
  ℕ, ◌+◌, ◌<◌, ◌≡◌, refl, arith, Bool, true, false, some, List, [], ◌∷◌, ◌++◌, length, Reader,
  bytes_at, load32, store_lem, set, length-set, get_elem?-set_self, get_elem?-set_ne, replicate, ap,
  ◌∙◌, ◌>>=◌,
}
use illinix_operating_system.Base.Text.{text}
use illinix_operating_system.Pcb.{Pcb, bad_fd}
use illinix_operating_system.Base.Ports.{PortWrite, outb}
use illinix_operating_system.Rtc.{cmosport1, cmosport2}
use illinix_operating_system.Rtc.Frequency.{rtc_write_lem}
use illinix_operating_system.Filesys.{Dentry, read_dentry_by_name}
use illinix_operating_system.Calls.{Devices, Surroundings, write}
use illinix_operating_system.Calls.Transfer.{HasOutput}
use illinix_operating_system.Calls.Opening.{IsFirstFree, open_clock, operations_of}
use illinix_operating_system.Programs.{gives}
use illinix_operating_system.Programs.Actions.{ece391_open, ece391_write}
use illinix_operating_system.Programs.Pingpong.Picture.{IsWalled, IsCleared, clear_places_lem}
use illinix_operating_system.Programs.Pingpong.Bouncing.{
  HasClock, show_bounces, letter, pingpong_loop_lem,
}
use illinix_operating_system.Programs.Pingpong.{Table, build_walls, pingpong_loop, pingpong}

build_walls_lem :
    (buf blank : List ℕ) (p : Pcb) (d : Devices)
    → length buf ≡ 81
    → IsCleared 0 81 buf blank
    → (walled : List ℕ) × (build_walls blank p d ≡ gives walled p d) × IsWalled walled
unfolding build_walls
build_walls_lem buf blank p d size c =
    let b1 = set blank 80 0 in
    let b2 = set b1 79 b'\n' in
    let b3 = set b2 78 b'|' in
    let n0 : length blank ≡ 81 = c.same_length ∙ size in
    let n1 : length b1 ≡ 81 = length-set {0} blank 80 0 ∙ n0 in
    let n2 : length b2 ≡ 81 = length-set {0} b1 79 b'\n' ∙ n1 in
    let n3 : length b3 ≡ 81 = length-set {0} b2 78 b'|' ∙ n2 in
    (
      set b3 1 b'|',
      rw
          (
            store_lem blank 80 0 (omega arith),
            store_lem b1 79 b'\n' (omega arith),
            store_lem b2 78 b'|' (omega arith),
            store_lem b3 1 b'|' (omega arith),
          )
          refl,
      record {
        size = length-set {0} b3 1 b'|' ∙ n3;
        ends =
            get_elem?-set_ne {0} b3 {i = 1} {j = 80} b'|' (omega arith)
            ∙ get_elem?-set_ne {0} b2 {i = 78} {j = 80} b'|' (omega arith)
            ∙ get_elem?-set_ne {0} b1 {i = 79} {j = 80} b'\n' (omega arith)
            ∙ get_elem?-set_self {0} blank 80 0 (omega arith);
        feed =
            get_elem?-set_ne {0} b3 {i = 1} {j = 79} b'|' (omega arith)
            ∙ get_elem?-set_ne {0} b2 {i = 78} {j = 79} b'|' (omega arith)
            ∙ get_elem?-set_self {0} b1 79 b'\n' (omega arith);
        right =
            get_elem?-set_ne {0} b3 {i = 1} {j = 78} b'|' (omega arith)
            ∙ get_elem?-set_self {0} b2 78 b'|' (omega arith);
        left = get_elem?-set_self {0} b3 1 b'|' (omega arith);
        margin =
            get_elem?-set_ne {0} b3 {i = 1} {j = 0} b'|' (omega arith)
            ∙ get_elem?-set_ne {0} b2 {i = 78} {j = 0} b'|' (omega arith)
            ∙ get_elem?-set_ne {0} b1 {i = 79} {j = 0} b'\n' (omega arith)
            ∙ get_elem?-set_ne {0} blank {i = 80} {j = 0} 0 (omega arith)
            ∙ c.inside 0 (omega arith) (omega arith);
      },
    )

-- The file "rtc" is the clock, which ticks after a number of turns.
pub record HasRtc (disk : Reader) (w : Surroundings) : Type 0 where
  pub dentry : Dentry
  pub found : read_dentry_by_name disk (text "rtc") w.junk_dentry ≡ some (0, dentry)
  pub clock : dentry.file_type ≡ 0
  pub register : w.rtc_register < 256
  pub turns : ℕ
  pub later : List Bool
  pub ticks : w.rtc_turns ≡ replicate turns false ++ true ∷ later

-- The frequency is set, and nothing is shown.
set_rate_lem :
    (disk : Reader) (w : Surroundings) (fd : ℕ) (p : Pcb) (d : Devices)
    → HasClock (record { disk = disk; surroundings = w; rtc_fd = fd }) p
    → w.rtc_register < 256
    → (d' : Devices) × (ece391_write w fd (bytes_at (32 ∷ 0 ∷ 0 ∷ 0 ∷ [])) 4 p d ≡ gives 4 p d')
      × (d'.terminal ≡ d.terminal)
unfolding ece391_write write load32
set_rate_lem disk w fd p d k register =
    let (byte, eq, low, high) =
      rtc_write_lem w.rtc_register w.junk_rate 5 (bytes_at (32 ∷ 0 ∷ 0 ∷ 0 ∷ [])) register
        (omega arith) (omega arith) refl in
    let good : bad_fd fd ≡ false = ground (arith, k.in_array) in
    let sent : List PortWrite =
      outb 0x8a cmosport1 ∷ outb 0x8a cmosport1 ∷ outb byte cmosport2 ∷ [] in
    (record d { ports = d.ports ++ sent }, rw (good, k.used, k.operations, eq, ◌>>=◌) refl, refl)

-- With a free descriptor, the terminal on descriptor 1, an array of 81 bytes and the clock under
-- the name "rtc", a clock with a byte in its register that ticks after some turns of each wait,
-- pingpong neither faults nor waits for ever nor ends: after any number `n` of rounds it is in
-- its loop, and has shown, in each round, a letter at every place between the walls, from left
-- to right and back, from A on and A after Z.
pub pingpong_lem :
    (n fuel : ℕ) (disk : Reader) (w : Surroundings) (fd : ℕ) (buf garbage : List ℕ) (p : Pcb)
    (d : Devices)
    → HasOutput p
    → IsFirstFree p fd
    → HasRtc disk w
    → length buf ≡ 81
    → (out : List ℕ) × (p' : Pcb) × (d' : Devices) × (pingpong (n + fuel) disk w buf garbage p d
        ≡ pingpong_loop fuel
            (record { disk = disk; surroundings = w; rtc_fd = fd })
            (letter n)
            (out, garbage)
            p'
            d')
      × (d'.terminal.screen ≡ show_bounces n 0 d.terminal.screen)
unfolding pingpong ece391_open operations_of
pingpong_lem n fuel disk w fd buf garbage p d o f r size =
    let (blank, e1, c) = clear_places_lem 81 0 buf p d (omega (arith, size)) in
    let (walled, e2, k) = build_walls_lem buf blank p d size c in
    let (p1, d1, e3, q, t1) = open_clock disk w p d (text "rtc") r.dentry fd f r.found r.clock in
    let e : Table = record { disk = disk; surroundings = w; rtc_fd = fd } in
    let o1 : HasOutput p1 = record {
      used = ground (arith, f.from_two, q.others 1, o.used);
      operations = ground (arith, f.from_two, q.others 1, o.operations);
    } in
    let clock : HasClock e p1 = record {
      in_array = f.in_array;
      used = q.flags;
      operations = ground (arith, q.operations, r.clock);
      turns = r.turns;
      later = r.later;
      ticks = r.ticks;
    } in
    let (d2, e4, t2) = set_rate_lem disk w fd p1 d1 clock r.register in
    let (out, d3, e5, w3, shows) = pingpong_loop_lem n fuel e 0 walled garbage p1 d2 o1 clock k in
    (
      out,
      p1,
      d3,
      rw (e1, e2, e3, e4)
          (e5 ∙ ap (λ m. pingpong_loop fuel e (letter m) (out, garbage) p1 d3) (omega arith)),
      shows ∙ ap (λ t. show_bounces n 0 t.screen) (t2 ∙ t1),
    )
