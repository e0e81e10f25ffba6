-- ===== src/Paging.antt =====
-- student-distrib/paging.c: the page directory and the one page table. The functions take the
-- tables and return them; `table_at` is the physical address of `page_table`, which the linker
-- chooses. `paging_enable` and the reloads of cr3 only talk to the processor.
pub mod Walk
pub mod Processes
pub mod Reach
use illinix_operating_system.Base.{
  ℕ, zero, suc, ◌+◌, ◌-◌, ◌*◌, ◌/◌, ◌%◌, ◌^◌, ltb, ◌==◌, if◌then◌else◌, bit_or, u32,
}

abbrev pub table_size : ℕ
table_size = 1024

abbrev pub present_page : ℕ
present_page = 0x1

abbrev pub enable_kernel : ℕ
enable_kernel = 0x80

abbrev pub enable_user : ℕ
enable_user = 0x7

abbrev pub video : ℕ
video = 0xb8000

abbrev pub kernel : ℕ
kernel = 0x400000

abbrev pub kernel_bottom : ℕ
kernel_bottom = 0x800000

abbrev pub four_meg : ℕ
four_meg = 0x400000

abbrev pub user_program_pdir_loc : ℕ
user_program_pdir_loc = 32

abbrev pub vid_map_loc : ℕ
vid_map_loc = 33

-- The two arrays.
pub record Paging : Type 0 where
  pub page_dir : ℕ → ℕ
  pub page_table : ℕ → ℕ

abbrev pub write_entry : (ℕ → ℕ) → ℕ → ℕ → ℕ → ℕ
write_entry t i v j = if i == j then v else t j

-- The loop of `paging_init`, from entry `i` on.
unfoldable pub clear_tables : ℕ → ℕ → Paging → Paging
clear_tables zero i p = p
clear_tables (suc left) i p =
    clear_tables left (i + 1)
      (record { page_dir = write_entry p.page_dir i 0; page_table = write_entry p.page_table i 0 })

unfoldable pub paging_init : ℕ → Paging → Paging
paging_init table_at p =
    let empty = clear_tables table_size 0 p in
    record {
      page_table = write_entry empty.page_table (video / 4096) (bit_or video present_page);
      page_dir =
          write_entry (write_entry empty.page_dir 0 (bit_or table_at present_page)) 1
            (bit_or (bit_or kernel enable_kernel) present_page);
    }

unfoldable pub create_page : ℕ → ℕ → Paging → Paging
create_page table_at curr_process p =
    let location = u32 (kernel_bottom + curr_process * four_meg) in
    record p {
      page_dir =
          write_entry
            (write_entry p.page_dir user_program_pdir_loc
              (bit_or (bit_or (bit_or location enable_kernel) enable_user) present_page))
            31 (bit_or (bit_or table_at present_page) enable_user);
    }

-- The result is the address that the user program is given, and the tables.
unfoldable pub set_vidmap : ℕ → Paging → ℕ × Paging
set_vidmap table_at p = (
  vid_map_loc * 2 ^ 12,
  record {
    page_dir = write_entry p.page_dir 0 (bit_or (bit_or table_at enable_user) present_page);
    page_table =
        write_entry p.page_table vid_map_loc (bit_or (bit_or video enable_user) present_page);
  },
)
