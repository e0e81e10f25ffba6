-- ===== src/Screen.antt =====
-- The text screen of student-distrib/lib.c: 80 columns, 25 rows, two bytes for each cell in
-- video memory. Video memory is a function from the offset from `video_mem` to the byte there,
-- on which every offset can be written, so that a write outside the 4000 bytes would show.
use illinix_operating_system.Base.Ports.{PortWrite, outb}
pub mod Cells
pub mod Valid
pub mod Draw
pub mod Switch
pub mod Texts
use illinix_operating_system.Base.{
  ℕ, zero, suc, ◌+◌, ◌-◌, ◌*◌, ◌/◌, ◌%◌, ◌^◌, Bool, not, ◌&&◌, ◌||◌, List, [], ◌∷◌, ◌++◌, ltb, leb,
  ◌==◌, if◌then◌else◌, Reader, Option, none, some, ◌>>=◌,
}

abbrev pub num_cols : ℕ
num_cols = 80

abbrev pub num_rows : ℕ
num_rows = 25

abbrev pub screen_size : ℕ
screen_size = 4000

-- The globals of lib.c. `screen_x` and `screen_y` never fall below 0: the one decrement is
-- tested. `ports` holds the bytes sent to the hardware, in order.
pub record Screen : Type 0 where
  pub screen_x : ℕ
  pub screen_y : ℕ
  pub video_mem : ℕ → ℕ
  pub screen_buf : ℕ → ℕ → ℕ
  pub screen_loc_buf : ℕ → ℕ × ℕ
  pub ports : List PortWrite

-- A store to one address.
abbrev pub update : (ℕ → ℕ) → ℕ → ℕ → ℕ → ℕ
update f a v b = if a == b then v else f b

-- The offset of the character of cell `i`; its attribute follows.
abbrev pub cell : ℕ → ℕ
cell i = 2 * i

abbrev pub write_cell : (ℕ → ℕ) → ℕ → ℕ → ℕ → ℕ
write_cell f i c = update (update f (cell i) c) (cell i + 1) 0x7

unfoldable pub update_cursor : Screen → Screen
update_cursor s =
    let pos = (s.screen_y * num_cols + s.screen_x) % 2 ^ 16 in
    record s {
      ports =
          s.ports
          ++ (outb 0x0e 0x3d4
              ∷ outb (pos / 2 ^ 8 % 256) 0x3d5
              ∷ outb 0x0f 0x3d4
              ∷ outb (pos % 256) 0x3d5
              ∷ []);
    }

-- The loop of `clear`, and the last loop of `putc`: `left` cells from cell `i` on.
unfoldable pub blank_cells : ℕ → ℕ → (ℕ → ℕ) → ℕ → ℕ
blank_cells zero i f = f
blank_cells (suc left) i f = blank_cells left (i + 1) (write_cell f i b' ')

unfoldable pub clear : Screen → Screen
unfolding update_cursor
clear s = update_cursor (record s {
  video_mem = blank_cells (num_rows * num_cols) 0 s.video_mem;
  screen_x = 0;
  screen_y = 0;
})

-- The `while` of `bksp`: `x` falls while the cell before it is a space.
back_over : (ℕ → ℕ) → ℕ → ℕ → ℕ
back_over f y zero = zero
back_over f y (suc x) =
    let rest = back_over f y x in
    if ltb 1 (suc x) && f (cell (num_cols * y + x)) == b' ' then rest else suc x

-- Where `bksp` moves the cursor. The first test is that `screen_x--` would leave it below 0.
bksp_position : Screen → ℕ × ℕ
unfolding back_over
bksp_position s =
    if s.screen_x == 0
    then (if s.screen_y == 0
        then (0, 0)
        else (back_over s.video_mem (s.screen_y - 1) (num_cols - 1), s.screen_y - 1))
    else (s.screen_x - 1, s.screen_y)

unfoldable pub bksp : Screen → Screen
unfolding update_cursor bksp_position
bksp s =
    let (x, y) = bksp_position s in
    update_cursor (record s {
      screen_x = x;
      screen_y = y;
      video_mem = write_cell s.video_mem (num_cols * y + x) b' ';
    })

-- The loop of `putc` that moves every row up by one, from cell `i` on.
unfoldable pub move_up : ℕ → ℕ → (ℕ → ℕ) → ℕ → ℕ
move_up zero i f = f
move_up (suc left) i f =
    let g = update f (cell i) (f (cell (i + num_cols))) in
    move_up left (i + 1) (update g (cell i + 1) (g (cell (i + num_cols) + 1)))

pub scroll_up : (ℕ → ℕ) → ℕ → ℕ
scroll_up f =
    blank_cells num_cols ((num_rows - 1) * num_cols) (move_up ((num_rows - 1) * num_cols) 0 f)

is_newline : ℕ → Bool
is_newline c = c == b'\n' || c == b'\r'

-- The first tests of `putc`, which move the cursor before anything is drawn.
newline : ℕ → Screen → Screen
newline c s = if is_newline c then record s { screen_y = s.screen_y + 1; screen_x = 0 } else s

tab : ℕ → Screen → Screen
tab c s = if c == b'\t' then record s { screen_x = s.screen_x + 4 } else s

wrap : Screen → Screen
wrap s = if leb num_cols s.screen_x then record s { screen_y = s.screen_y + 1; screen_x = 0 } else s

scroll : Screen → Screen
scroll s =
    if leb num_rows s.screen_y
    then record s { video_mem = scroll_up s.video_mem; screen_y = s.screen_y - 1; screen_x = 0 }
    else s

draw : ℕ → Screen → Screen
draw c s =
    let next = s.screen_x + 1 in
    let drawn = write_cell s.video_mem (num_cols * s.screen_y + s.screen_x) c in
    if is_newline c || c == b'\t'
    then s
    else if next == num_cols
    then record s { video_mem = drawn; screen_y = s.screen_y + 1; screen_x = 0 }
    else record s { video_mem = drawn; screen_x = next }

unfoldable pub putc : ℕ → Screen → Screen
unfolding newline tab wrap scroll draw is_newline update_cursor
putc c s = if c == 0 then s else update_cursor (draw c (scroll (wrap (tab c (newline c s)))))

pub putc_at : ℕ → ℕ → ℕ → Screen → Screen
putc_at c x y s = record s { video_mem = write_cell s.video_mem (num_cols * y + x) c }

-- `puts`: the characters up to the 0 byte, on fuel; `none` is a read outside the string.
puts_from : ℕ → Reader → ℕ → Screen → Option (ℕ × Screen)
puts_from zero str index s = none
puts_from (suc fuel) str index s = do
  c ← str index
  let rest = puts_from fuel str (index + 1) (putc c s)
  if c == 0 then some (index, s) else rest

address_space : ℕ
address_space = 2 ^ 32

unfoldable pub puts : Reader → Screen → Option (ℕ × Screen)
unfolding puts_from address_space
puts str s = puts_from address_space str 0 s

-- `memcpy` of `n` bytes to offset 0 of `dest`.
abbrev pub copy_bytes : ℕ → (ℕ → ℕ) → (ℕ → ℕ) → ℕ → ℕ
copy_bytes n src dest a = if ltb a n then src a else dest a

abbrev pub update_row {ℓ} : {A : Type ℓ} → (ℕ → A) → ℕ → A → ℕ → A
update_row f t v u = if t == u then v else f u

-- `switch_screen` at the current `active_tty`. The saved position is a `char`, which holds every
-- position of a valid screen.
unfoldable pub switch_screen : ℕ → ℕ → Screen → Screen
unfolding clear update_cursor
switch_screen active_tty new_tty s =
    let saved = record s {
      screen_buf =
          update_row s.screen_buf active_tty
            (copy_bytes screen_size s.video_mem (s.screen_buf active_tty));
      screen_loc_buf = update_row s.screen_loc_buf active_tty (s.screen_x % 256, s.screen_y % 256);
    } in
    let blank = clear saved in
    update_cursor (record blank {
      video_mem = copy_bytes screen_size (blank.screen_buf new_tty) blank.video_mem;
      screen_x = (blank.screen_loc_buf new_tty).0;
      screen_y = (blank.screen_loc_buf new_tty).1;
    })

-- `test_interrupts`: every character is incremented, as an unsigned byte.
bump_cells : ℕ → ℕ → (ℕ → ℕ) → ℕ → ℕ
bump_cells zero i f = f
bump_cells (suc left) i f = bump_cells left (i + 1) (update f (cell i) ((f (cell i) + 1) % 256))

pub test_interrupts : Screen → Screen
unfolding bump_cells
test_interrupts s = record s { video_mem = bump_cells (num_rows * num_cols) 0 s.video_mem }
