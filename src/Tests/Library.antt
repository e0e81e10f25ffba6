-- ===== src/Tests/Library.antt =====
-- Witnesses for the block operations and `printf`.
use illinix_operating_system.Base.{
  ℕ, ◌-◌, ◌%◌, ◌^◌, ◌≡◌, refl, arith, some, List, [], ◌∷◌, replicate, Reader,
}
use illinix_operating_system.Base.Text.{text, codes}
use illinix_operating_system.Screen.{Screen}
use illinix_operating_system.Screen.Texts.{show_all}
use illinix_operating_system.Printf.{Arg, word, pointer, Buffers, printf}
use illinix_operating_system.Screen.Texts.{Spells}
use illinix_operating_system.Printf.Formats.{Formats, finish, plain, signed, string, Output}
use illinix_operating_system.Printf.Output.{printf_lem}
use illinix_operating_system.Printf.Formats.{IsRoomy}
use illinix_operating_system.Blocks.{memset, memmove}
use illinix_operating_system.Blocks.Fill.{filled, memset_lem}
use illinix_operating_system.Blocks.Move.{moved, memmove_lem}

memset_lem_example : memset (λ a. a) 5 0x141 10 7 ≡ filled (λ a. a) 5 (0x141 % 256) 10 7
memset_lem_example = memset_lem (λ a. a) 5 0x141 10 7

memmove_lem_example : memmove (λ a. a) 6 5 3 8 ≡ moved (λ a. a) 6 5 3 8
memmove_lem_example = memmove_lem (λ a. a) 6 5 3 8

abbrev screen : Screen
screen = record {
  screen_x = 0;
  screen_y = 0;
  video_mem = λ a. 0;
  screen_buf = λ t a. 0;
  screen_loc_buf = λ t. (0, 0);
  ports = [];
}

abbrev buffers : Buffers
buffers = record { conv_64 = replicate 64 7; conv_36 = replicate 36 7 }

buffers-IsRoomy : IsRoomy buffers
buffers-IsRoomy = record { room_64 = omega arith; room_36 = omega arith }

-- "n=%d%s" with -5 and "ok".
abbrev format : Reader
format = text "n=%d%s"

abbrev arguments : List Arg
arguments = word (2 ^ 32 - 5) ∷ pointer (text "ok") ∷ []

format-Formats : Formats format 6 0 arguments
format-Formats = plain b'n' refl (omega arith) (omega arith) (
    plain b'=' refl (omega arith) (omega arith) (
      signed (2 ^ 32 - 5) refl refl (omega arith)
        (string (text "ok") (codes "ok") refl refl ok-Spells (omega arith) (finish refl refl))))
  where
    ok-Spells : Spells (text "ok") 0 (codes "ok")
    ok-Spells = (refl, omega arith, (refl, omega arith, refl))

printf_lem_example :
    (out : List ℕ) × (printf buffers format arguments screen ≡ some (6, show_all out screen))
    × Output format-Formats out
printf_lem_example = printf_lem buffers buffers-IsRoomy format-Formats screen (omega arith)
