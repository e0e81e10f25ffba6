-- ===== src/Paging/Reach.antt =====
-- A user program reaches nothing but its own 4 MB and, after `set_vidmap`, the video page.
use illinix_operating_system.Base.{
  ℕ, zero, suc, ◌+◌, ◌*◌, ◌/◌, ◌%◌, ◌^◌, ◌≤◌, ◌<◌, ◌≡◌, ◌≢◌, ◌==◌, if◌then◌else◌, Option, none,
  some, arith, refl, ◌∙◌, ap, ◌⊎◌, inl, inr, sym, eq_of_some, true, false, Bool-cases, ◌||◌,
}
use illinix_operating_system.Paging.{Paging, clear_tables, create_page, set_vidmap, paging_init}
use illinix_operating_system.Paging.Walk.{translate, is_set, user_page}
use illinix_operating_system.Paging.Processes.{
  entry_translates, process_base, process_entry, kernel_table, user_table, user_table_swap,
}

clear_tables_outside :
    (left i : ℕ) (p : Paging) (j : ℕ)
    → (j < i) ⊎ (i + left ≤ j)
    → ((clear_tables left i p).page_dir j ≡ p.page_dir j)
      × ((clear_tables left i p).page_table j ≡ p.page_table j)
unfolding clear_tables
clear_tables_outside zero i p j h = (refl, refl)
clear_tables_outside (suc left) i p j h =
    let (d, t) =
      clear_tables_outside left (i + 1) _ j
        (elim h [ inl a ↦ inl (omega arith) | inr b ↦ inr (omega arith) ]) in
    (d ∙ ground arith, t ∙ ground arith)

clear_tables_inside :
    (left i : ℕ) (p : Paging) (j : ℕ)
    → i ≤ j
    → j < i + left
    → ((clear_tables left i p).page_dir j ≡ 0) × ((clear_tables left i p).page_table j ≡ 0)
unfolding clear_tables
clear_tables_inside zero i p j h k = absurd (omega arith)
clear_tables_inside (suc left) i p j h k = elim (Bool-cases (i == j)) [
  | inl here ↦
      let at : i ≡ j = ground arith in
      let (d, t) = clear_tables_outside left (i + 1) _ j (inl (omega arith)) in
      (d ∙ ground arith, t ∙ ground arith)
  | inr later ↦ clear_tables_inside left (i + 1) _ j (ground arith) (omega arith)
]

create_page_keeps :
    (table_at process : ℕ) (p : Paging) (d : ℕ)
    → d ≢ 31
    → d ≢ 32
    → (create_page table_at process p).page_dir d ≡ p.page_dir d
unfolding create_page
create_page_keeps table_at process p d n31 n32 = ground arith

init_others :
    (table_at : ℕ) (p : Paging) (d : ℕ)
    → d < 1024
    → d ≢ 0
    → d ≢ 1
    → (paging_init table_at p).page_dir d ≡ 0
unfolding paging_init
init_others table_at p d lt n0 n1 =
    let (empty, _) = clear_tables_inside 1024 0 p d (omega arith) (omega arith) in
    ground (arith, empty)

init_slots :
    (table_at : ℕ) (p : Paging) (t : ℕ)
    → t < 1024
    → t ≢ 184
    → (paging_init table_at p).page_table t ≡ 0
unfolding paging_init
init_slots table_at p t lt n184 =
    let (_, empty) = clear_tables_inside 1024 0 p t (omega arith) (omega arith) in
    ground (arith, empty)

vidmap_keeps_dir :
    (table_at : ℕ) (p : Paging) (d : ℕ)
    → d ≢ 0
    → (set_vidmap table_at p).1.page_dir d ≡ p.page_dir d
unfolding set_vidmap
vidmap_keeps_dir table_at p d n0 = ground arith

vidmap_keeps_slot :
    (table_at : ℕ) (p : Paging) (t : ℕ)
    → t ≢ 33
    → (set_vidmap table_at p).1.page_table t ≡ p.page_table t
unfolding set_vidmap
vidmap_keeps_slot table_at p t n33 = ground arith

-- The entries of the tables that a user program of `process` may meet.
pub record IsUserView (frame process : ℕ) (p : Paging) : Type 0 where
  pub own : p.page_dir 32 ≡ process_base process + 0x87
  pub kernel_entry : p.page_dir 1 ≡ 0x400081
  pub low : (p.page_dir 0 ≡ frame * 2 ^ 12 + 0x1) ⊎ (p.page_dir 0 ≡ frame * 2 ^ 12 + 0x7)
  pub above : p.page_dir 31 ≡ frame * 2 ^ 12 + 0x7
  pub others : (d : ℕ) → d < 1024 → d ≢ 0 → d ≢ 1 → d ≢ 31 → d ≢ 32 → p.page_dir d ≡ 0
  pub screen : p.page_table 184 ≡ 0xb8001
  pub shared : (p.page_table 33 ≡ 0) ⊎ (p.page_table 33 ≡ 0xb8007)
  pub slots : (t : ℕ) → t < 1024 → t ≢ 33 → t ≢ 184 → p.page_table t ≡ 0

-- After `paging_init` and `create_page`, in a 4 KB frame for the page table and for a process
-- below 1022, the tables let a user program through to the page of the process only, or to the
-- video page (`IsUserView`).
pub create_page-IsUserView :
    (frame process : ℕ) (p : Paging)
    → process < 1022
    → IsUserView frame process
        (create_page (frame * 2 ^ 12) process (paging_init (frame * 2 ^ 12) p))
unfolding create_page paging_init
create_page-IsUserView frame process p h = record {
  own = process_entry process h;
  kernel_entry = refl;
  low = inl (kernel_table frame);
  above = user_table_swap frame;
  others = λ d lt n0 n1 n31 n32.
      create_page_keeps (frame * 2 ^ 12) process (paging_init (frame * 2 ^ 12) p) d n31 n32
      ∙ init_others (frame * 2 ^ 12) p d lt n0 n1;
  screen = refl;
  shared = inl (clear_tables_inside 1024 0 p 33 (omega arith) (omega arith)).1;
  slots = λ t lt n33 n184. init_slots (frame * 2 ^ 12) p t lt n184;
}

-- Tables that let a user program through to its page and the video page only (`IsUserView`) stay
-- so when `set_vidmap` maps the video page for it.
pub set_vidmap-IsUserView :
    (frame process : ℕ) {p : Paging}
    → IsUserView frame process p
    → IsUserView frame process (set_vidmap (frame * 2 ^ 12) p).1
unfolding set_vidmap
set_vidmap-IsUserView frame process {p} v = record {
  own = v.own;
  kernel_entry = v.kernel_entry;
  low = inr (user_table frame);
  above = v.above;
  others =
      λ d lt n0 n1 n31 n32. vidmap_keeps_dir (frame * 2 ^ 12) p d n0 ∙ v.others d lt n0 n1 n31 n32;
  screen = v.screen;
  shared = inr refl;
  slots = λ t lt n33 n184. vidmap_keeps_slot (frame * 2 ^ 12) p t n33 ∙ v.slots t lt n33 n184;
}

none_ne_some : {A : Type 0} {a : A} → none ≡ some a → ⊥
none_ne_some h = cc

abbrev pub InOwn : ℕ → ℕ → Type 0
InOwn process a = (process_base process ≤ a) × (a < process_base process + 0x400000)

abbrev pub InVideo : ℕ → Type 0
InVideo a = (0xb8000 ≤ a) × (a < 0xb9000)

-- What a page table entry lets a user program reach.
abbrev through : ℕ → ℕ → Option ℕ
through slot virtual =
    if user_page slot then some (slot / 2 ^ 12 * 2 ^ 12 + virtual % 2 ^ 12) else none

slot_reach :
    (frame process virtual a : ℕ) (p : Paging)
    → IsUserView frame process p
    → through (p.page_table (virtual / 2 ^ 12 % 1024)) virtual ≡ some a
    → InVideo a
slot_reach frame process virtual a p v e =
    let t = virtual / 2 ^ 12 % 1024 in
    elim (Bool-cases (t == 33)) [
      | inl at33 ↦
          let here : t ≡ 33 = ground arith in
          let e' = rw here at e in
          elim v.shared [
            | inl z ↦ absurd (ground (arith, rw z at e'))
            | inr z ↦ let e'' = rw z at e' in video_page virtual a e''
          ]
      | inr not33 ↦ elim (Bool-cases (t == 184)) [
        | inl at184 ↦
            let here : t ≡ 184 = ground arith in
            absurd (ground (arith, rw v.screen at (rw here at e)))
        | inr not184 ↦
            let z = v.slots t (omega arith) (ground arith) (ground arith) in
            absurd (ground (arith, rw z at e))
      ]
    ]
  where
    video_page : (virtual a : ℕ) → through 0xb8007 virtual ≡ some a → InVideo a
    video_page virtual a e = let same = eq_of_some e in omega (arith, same)

-- A directory entry that names the table leads no further than the table does.
table_reach :
    (frame process virtual a entry : ℕ) (p : Paging)
    → IsUserView frame process p
    → (entry ≡ frame * 2 ^ 12 + 0x1) ⊎ (entry ≡ frame * 2 ^ 12 + 0x7)
    → p.page_dir (virtual / 2 ^ 22) ≡ entry
    → translate (frame * 2 ^ 12) p virtual ≡ some a
    → InVideo a
unfolding translate
table_reach frame process virtual a entry p v (inl low) at' e =
    let at = at' ∙ low in
    let no_user : user_page (frame * 2 ^ 12 + 0x1) ≡ false = ground arith in
    absurd (none_ne_some (rw (at, no_user) at e))
table_reach frame process virtual a entry p v (inr low) at' e =
    let at = at' ∙ low in
    let user : user_page (frame * 2 ^ 12 + 0x7) ≡ true = ground arith in
    let is_table : is_set (frame * 2 ^ 12 + 0x7) 7 ≡ false = ground arith in
    let named : ((frame * 2 ^ 12 + 0x7) / 2 ^ 12 * 2 ^ 12 == frame * 2 ^ 12) ≡ true =
      ground arith in
    slot_reach frame process virtual a p v (rw (at, user, is_table, named) at e)

own_reach :
    (frame process virtual a : ℕ) (p : Paging)
    → IsUserView frame process p
    → process < 1022
    → virtual / 2 ^ 22 ≡ 32
    → translate (frame * 2 ^ 12) p virtual ≡ some a
    → InOwn process a
own_reach frame process virtual a p v hp here e =
    let from : 0x8000000 + virtual % 2 ^ 22 ≡ virtual = omega arith in
    let there =
      entry_translates (frame * 2 ^ 12) process (virtual % 2 ^ 22) p v.own (omega arith) in
    let same = eq_of_some (sym (rw from at there) ∙ e) in omega (arith, same)

-- The other entries lead nowhere.
other_entries :
    (frame process virtual a : ℕ) (p : Paging)
    → IsUserView frame process p
    → virtual / 2 ^ 22 ≢ 0
    → virtual / 2 ^ 22 ≢ 31
    → virtual / 2 ^ 22 ≢ 32
    → virtual / 2 ^ 22 < 1024
    → translate (frame * 2 ^ 12) p virtual ≢ some a
unfolding translate
other_entries frame process virtual a p v n0 n31 n32 lt e =
    elim (Bool-cases (virtual / 2 ^ 22 == 1)) [
      | inl at1 ↦
          let here : virtual / 2 ^ 22 ≡ 1 = ground arith in
          none_ne_some (rw (here, v.kernel_entry) at e)
      | inr not1 ↦
          let z = v.others (virtual / 2 ^ 22) lt n0 (ground arith) n31 n32 in
          none_ne_some (rw z at e)
    ]

-- With such tables of a process (`IsUserView`), a user access that is translated at all leads into the 4 MB of
-- that process or into the video page: never into the kernel or another process.
pub user_reach :
    (frame process virtual a : ℕ) (p : Paging)
    → IsUserView frame process p
    → process < 1022
    → virtual < 2 ^ 32
    → translate (frame * 2 ^ 12) p virtual ≡ some a
    → InOwn process a ⊎ InVideo a
user_reach frame process virtual a p v hp h e =
    let d = virtual / 2 ^ 22 in
    elim (Bool-cases (d == 32)) [
      | inl at32 ↦
          let here : d ≡ 32 = ground arith in inl (own_reach frame process virtual a p v hp here e)
      | inr not32 ↦ elim (Bool-cases (d == 0 || d == 31)) [
        | inl table ↦ inr (elim (Bool-cases (d == 0)) [
          | inl at0 ↦
              let here : d ≡ 0 = ground arith in
              table_reach frame process virtual a (p.page_dir 0) p v v.low (ap p.page_dir here) e
          | inr not0 ↦
              let here : d ≡ 31 = ground arith in
              table_reach frame process virtual a (p.page_dir 31) p v (inr v.above)
                (ap p.page_dir here) e
        ])
        | inr no_table ↦ absurd (
            other_entries frame process virtual a p v (ground arith) (ground arith) (ground arith)
              (omega arith) e)
      ]
    ]
