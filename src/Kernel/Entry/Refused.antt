-- ===== src/Kernel/Entry/Refused.antt =====
-- What `entry` does when no Multiboot loader has started it.
use illinix_operating_system.Base.{
  ℕ, suc, ◌+◌, ◌-◌, ◌^◌, ◌<◌, ◌≡◌, ◌≢◌, refl, sym, ap, ◌∙◌, arith, true, Bool, false, not, ◌&&◌,
  bytes_at, some, List, [], ◌∷◌, ◌++◌, Reader, ◌>>=◌, ◌==◌,
}
use illinix_operating_system.Base.Text.{text, codes}
use illinix_operating_system.Screen.{Screen, clear, putc}
use illinix_operating_system.Screen.Texts.{show_all, show_all-append}
use illinix_operating_system.Printf.{word, Buffers, printf, printf_from}
use illinix_operating_system.Printf.Output.{IsText, printf_text, printf_alternate}
use illinix_operating_system.Printf.Formats.{IsPadded, IsRoomy}
use illinix_operating_system.Printf.Conversions.{convert_alternate}
use illinix_operating_system.Processes.{Context}
use illinix_operating_system.Kernel.Multiboot.{
  MultibootInfo, refused, check_boot, refuse_magic, multiboot_bootloader_magic,
}
use illinix_operating_system.Kernel.Entry.{Machine, Linked, returned, entry, enter, with_screen}

abbrev pub message : List ℕ
message = codes "Invalid magic number: 0x"

all_plain : List ℕ → Bool
all_plain [] = true
all_plain (c ∷ cs) = not (c == 0) && not (c == b'%') && all_plain cs

IsText-cons :
    (b : ℕ) (buf : List ℕ) (i : ℕ) (cs : List ℕ)
    → IsText (bytes_at buf) i cs
    → IsText (bytes_at (b ∷ buf)) (i + 1) cs
IsText-cons b buf i [] h = h
IsText-cons b buf i (c ∷ cs) (at, ne, np, h) =
    let e : i + 1 ≡ suc i = omega arith in
    (ap (bytes_at (b ∷ buf)) e ∙ at, ne, np, IsText-cons b buf (i + 1) cs h)

IsText-codes : (cs rest : List ℕ) → all_plain cs ≡ true → IsText (bytes_at (cs ++ rest)) 0 cs
unfolding all_plain
IsText-codes [] rest h = tt
IsText-codes (c ∷ cs) rest h = (
  refl,
  ground (arith, h),
  ground (arith, h),
  IsText-cons c (cs ++ rest) 0 cs (IsText-codes cs rest (ground (arith, h))),
)

message-IsText : IsText (text "Invalid magic number: 0x%#x\n") 0 message
unfolding all_plain
message-IsText = IsText-codes message (codes "%#x\n" ++ 0 ∷ []) refl

abbrev format : Reader
format = text "Invalid magic number: 0x%#x\n"

printf_end :
    (fuel : ℕ) (b : Buffers) (s : Screen)
    → printf_from (suc (suc fuel)) b format 27 [] s ≡ some (28, putc b'\n' s)
unfolding printf_from
printf_end fuel b s = refl

printf_message :
    (b : Buffers) (v : ℕ) (s : Screen)
    → IsRoomy b
    → v < 2 ^ 32
    → (cs : List ℕ) × (printf b format (word v ∷ []) s
        ≡ some (28, show_all (message ++ (cs ++ b'\n' ∷ [])) s))
      × IsPadded v cs
unfolding printf
printf_message b v s roomy h =
    let fuel : ℕ = 2 ^ 32 - 27 in
    let before = show_all message s in
    let (cs, conv, p) = convert_alternate b roomy [] before v h in
    (
      cs,
      printf_text _ (suc (suc (suc fuel))) b format 0 message (word v ∷ []) s (omega arith)
            message-IsText
          ∙ printf_alternate fuel b format 24 b'x' (word v ∷ []) [] before (show_all cs before) refl
              refl refl (omega arith) conv
          ∙ printf_end fuel b (show_all cs before)
          ∙ ap (λ s'. some (28, s')) (sym (show_all-append cs (b'\n' ∷ []) before)),
      p,
    )

refuse_magic_lem :
    (b : Buffers) (magic : ℕ) (s : Screen)
    → IsRoomy b
    → magic < 2 ^ 32
    → (cs : List ℕ) × (refuse_magic b magic s
        ≡ some (refused (show_all (message ++ (cs ++ b'\n' ∷ [])) s)))
      × IsPadded magic cs
unfolding refuse_magic
refuse_magic_lem b magic s roomy h =
    let (cs, shown, p) = printf_message b magic s roomy h in
    (cs, ap (λ r. (r >>= λ (n, s'). some s') >>= λ s2. some (refused s2)) shown, p)

-- With buffers of 64 and 36 bytes for `printf`, a start with another 32-bit magic number ends at
-- once: `entry` shows the message with the number, in hexadecimal digits behind zeros up to 8,
-- on the cleared screen, and returns; nothing else has changed and no program runs.
pub entry_refused :
    (memory shell : Reader) (linked : Linked) (w : Context) (b : Buffers) (m : Machine) (magic : ℕ)
    (mbi : MultibootInfo)
    → IsRoomy b
    → magic < 2 ^ 32
    → magic ≢ multiboot_bootloader_magic
    → (cs : List ℕ) × (entry memory shell linked w b m magic mbi
        ≡ some (
            returned (record m {
              devices =
                  with_screen
                    (show_all (message ++ (cs ++ b'\n' ∷ [])) (clear m.devices.terminal.screen))
                    m.devices;
            })))
      × IsPadded magic cs
unfolding entry enter check_boot
entry_refused memory shell linked w b m magic mbi roomy h ne =
    let (cs, at, p) = refuse_magic_lem b magic (clear m.devices.terminal.screen) roomy h in
    let other : (magic == multiboot_bootloader_magic) ≡ false = ground arith in
    (cs, rw (other, at, ◌>>=◌) refl, p)
