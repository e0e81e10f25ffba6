-- ===== src/Kernel/Multiboot.antt =====
-- The first half of `entry` of student-distrib/kernel.c: it shows what the boot loader left, whose
-- structures are those of student-distrib/multiboot.h, and finds the file system in memory.
use illinix_operating_system.Base.{
  ℕ, zero, suc, ◌+◌, ◌-◌, ◌^◌, Bool, not, ◌&&◌, Option, none, some, List, [], ◌∷◌, ltb, ◌==◌,
  if◌then◌else◌, Reader, ◌>>=◌, offset_by, load32, u32, bit_and,
}
use illinix_operating_system.Base.Text.{text}
use illinix_operating_system.Screen.{Screen, clear}
use illinix_operating_system.Printf.{Arg, word, pointer, Buffers, printf}

abbrev pub multiboot_bootloader_magic : ℕ
multiboot_bootloader_magic = 0x2bad_b002

-- `elf_section_header_table_t` and `multiboot_info_t` of multiboot.h.
pub record ElfSection : Type 0 where
  pub num : ℕ
  pub size : ℕ
  pub addr : ℕ
  pub shndx : ℕ

pub record MultibootInfo : Type 0 where
  pub flags : ℕ
  pub mem_lower : ℕ
  pub mem_upper : ℕ
  pub boot_device : ℕ
  pub cmdline : ℕ
  pub mods_count : ℕ
  pub mods_addr : ℕ
  pub elf_sec : ElfSection
  pub mmap_length : ℕ
  pub mmap_addr : ℕ

abbrev pub check_flag : ℕ → ℕ → Bool
check_flag flags bit = not (bit_and flags (2 ^ bit) == 0)

-- `printf`, whose result `entry` drops. Its buffers lie uninitialised on the stack.
say : Buffers → Reader → List Arg → Screen → Option Screen
say b format args s = printf b format args s >>= λ (n, s'). some s'

-- A `char` becomes an `int` with its sign.
abbrev int_of_char : ℕ → ℕ
int_of_char c = if ltb 127 c then 2 ^ 32 - 256 + c else c

-- The loop over the bytes 128 to 143 of a module, from byte `i` on.
print_bytes : ℕ → Reader → Buffers → ℕ → ℕ → Screen → Option Screen
print_bytes zero memory b mod_start i s = some s
print_bytes (suc left) memory b mod_start i s = do
  c ← memory (u32 (mod_start + i))
  s' ← say b (text "0x%x ") (word (int_of_char c) ∷ []) s
  print_bytes left memory b mod_start (i + 1) s'

-- The loop over the modules, from number `mod_count` on, whose `module_t` is at `at`.
print_modules : ℕ → Reader → Buffers → ℕ → ℕ → Screen → Option Screen
unfolding say print_bytes
print_modules zero memory b mod_count at s = some s
print_modules (suc left) memory b mod_count at s = do
  mod_start ← load32 memory at
  s1 ← say b (text "Module %d loaded at address: 0x%#x\n") (word mod_count ∷ word mod_start ∷ []) s
  mod_end ← load32 memory (at + 4)
  s2 ← say b (text "Module %d ends at address: 0x%#x\n") (word mod_count ∷ word mod_end ∷ []) s1
  s3 ← say b (text "First few bytes of module:\n") [] s2
  s4 ← print_bytes 16 memory b mod_start 128 s3
  s5 ← say b (text "\n") [] s4
  print_modules left memory b (mod_count + 1) (u32 (at + 16)) s5

-- The loop over the memory map, on fuel: it reads an entry at `at` as long as `at` is below
-- `end`. The next entry is as far as the field `size` says, which may lead back.
print_map : ℕ → Reader → Buffers → ℕ → ℕ → Screen → Option Screen
unfolding say
print_map zero memory b end at s = none
print_map (suc fuel) memory b end at s =
    let more = (do
      size ← load32 memory at
      base_addr_low ← load32 memory (at + 4)
      base_addr_high ← load32 memory (at + 8)
      length_low ← load32 memory (at + 12)
      length_high ← load32 memory (at + 16)
      type ← load32 memory (at + 20)
      s' ←
          say b
            (text "    size = 0x%x, base_addr = 0x%#x%#x\n    type = 0x%x,  length    = 0x%#x%#x\n")
            (word size
              ∷ word base_addr_high
              ∷ word base_addr_low
              ∷ word type
              ∷ word length_high
              ∷ word length_low
              ∷ [])
            s
      print_map fuel memory b end (u32 (at + size + 4)) s') in
    if ltb at end then more else some s

-- More turns than there are addresses.
map_fuel : ℕ
map_fuel = 2 ^ 32 + 1

-- The first module, if the boot loader says there are modules: where the file system lies.
-- `boot_block` is what the pointer of that name holds before.
find_modules : Reader → Buffers → ℕ → MultibootInfo → Screen → Option (ℕ × Screen)
unfolding print_modules
find_modules memory b boot_block mbi s =
    let found = (do
      mod_start ← load32 memory mbi.mods_addr
      s' ← print_modules mbi.mods_count memory b 0 mbi.mods_addr s
      some (mod_start, s')) in
    if check_flag mbi.flags 3 then found else some (boot_block, s)

-- The lines on the flags 0 to 2.
print_fields : Reader → Buffers → MultibootInfo → Screen → Option Screen
unfolding say
print_fields memory b mbi s = do
  s1 ← say b (text "flags = 0x%#x\n") (word mbi.flags ∷ []) s
  let mem =
      say b (text "mem_lower = %uKB, mem_upper = %uKB\n")
        (word mbi.mem_lower ∷ word mbi.mem_upper ∷ []) s1
  s2 ← (if check_flag mbi.flags 0 then mem else some s1)
  let device = say b (text "boot_device = 0x%#x\n") (word mbi.boot_device ∷ []) s2
  s3 ← (if check_flag mbi.flags 1 then device else some s2)
  let line = say b (text "cmdline = %s\n") (pointer (offset_by memory mbi.cmdline) ∷ []) s3
  if check_flag mbi.flags 2 then line else some s3

-- The lines on the flags 5 and 6.
print_tables : Reader → Buffers → MultibootInfo → Screen → Option Screen
unfolding say print_map map_fuel
print_tables memory b mbi s = do
  let elf =
      say b (text "elf_sec: num = %u, size = 0x%#x, addr = 0x%#x, shndx = 0x%#x\n")
        (word mbi.elf_sec.num
          ∷ word mbi.elf_sec.size
          ∷ word mbi.elf_sec.addr
          ∷ word mbi.elf_sec.shndx
          ∷ [])
        s
  s1 ← (if check_flag mbi.flags 5 then elf else some s)
  let mmap = (do
    s2 ←
        say b (text "mmap_addr = 0x%#x, mmap_length = 0x%x\n")
          (word mbi.mmap_addr ∷ word mbi.mmap_length ∷ []) s1
    print_map map_fuel memory b (u32 (mbi.mmap_addr + mbi.mmap_length)) mbi.mmap_addr s2)
  if check_flag mbi.flags 6 then mmap else some s1

-- `entry` returns at once, or goes on with the file system at an address.
pub data Checked : Type 0 where
  refused : Screen → Checked
  passed : ℕ → Screen → Checked

-- `entry` up to the descriptors, for a loader that is no Multiboot loader, and for one that is.
unfoldable pub refuse_magic : Buffers → ℕ → Screen → Option Checked
unfolding say
refuse_magic b magic s = do
  s' ← say b (text "Invalid magic number: 0x%#x\n") (word magic ∷ []) s
  some (refused s')

unfoldable pub check_flags : Reader → Buffers → ℕ → MultibootInfo → Screen → Option Checked
unfolding say find_modules print_fields print_tables
check_flags memory b boot_block mbi s = do
  s1 ← print_fields memory b mbi s
  (block, s2) ← find_modules memory b boot_block mbi s1
  let both = say b (text "Both bits 4 and 5 are set.\n") [] s2 >>= λ s3. some (refused s3)
  let tables = print_tables memory b mbi s2 >>= λ s3. some (passed block s3)
  if check_flag mbi.flags 4 && check_flag mbi.flags 5 then both else tables

unfoldable pub check_boot : Reader → Buffers → ℕ → ℕ → MultibootInfo → Screen → Option Checked
check_boot memory b boot_block magic mbi s =
    let valid = check_flags memory b boot_block mbi (clear s) in
    let invalid = refuse_magic b magic (clear s) in
    if magic == multiboot_bootloader_magic then valid else invalid
