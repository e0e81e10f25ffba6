-- ===== src/Paging/Walk.antt =====
-- How the processor translates an address, as its manual describes it: the directory entry of
-- the upper ten bits maps 4 MB, or names a table whose entry maps 4 KB.
use illinix_operating_system.Base.{
  ℕ, ◌+◌, ◌*◌, ◌/◌, ◌%◌, ◌^◌, ◌==◌, if◌then◌else◌, Option, none, some, Bool, ◌&&◌,
}
use illinix_operating_system.Paging.{Paging}

-- Digit `k` of an entry: 0 present, 1 writable, 2 for the user, 7 a page of 4 MB.
abbrev pub is_set : ℕ → ℕ → Bool
is_set entry k = entry / 2 ^ k % 2 == 1

-- What a user program can reach.
abbrev pub user_page : ℕ → Bool
user_page entry = is_set entry 0 && is_set entry 2

-- The physical address of a user access, with `page_table` as the only table: it must stand at
-- the address that the directory entry names.
unfoldable pub translate : ℕ → Paging → ℕ → Option ℕ
translate table_at p virtual =
    let entry = p.page_dir (virtual / 2 ^ 22) in
    let slot = p.page_table (virtual / 2 ^ 12 % 1024) in
    let small = if user_page slot then some (slot / 2 ^ 12 * 2 ^ 12 + virtual % 2 ^ 12) else none in
    let large = some (entry / 2 ^ 22 * 2 ^ 22 + virtual % 2 ^ 22) in
    let named = if entry / 2 ^ 12 * 2 ^ 12 == table_at then small else none in
    if user_page entry then (if is_set entry 7 then large else named) else none
