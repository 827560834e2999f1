-- ===== src/Console.antt =====
-- The text console of src/arch/x86/drivers/vga.{hpp,cpp}: the screen here, number formatting in
-- Numbers and `vprintf` in Format. A character is a byte; the frame buffer is indexed by cell.
pub mod Numbers
pub mod Format
pub mod Screen
pub mod Edges
pub mod Reverse
pub mod Written
pub mod Digits
pub mod Numerals
pub mod Text
pub mod Shown
pub mod Phrases
mod Tests
use another_os.Base.{
  ℕ, zero, suc, ◌+◌, ◌-◌, ◌*◌, ◌/◌, ◌%◌, ◌^◌, bit_and, bit_or, Bool, true, false, List, [], ◌∷◌,
  if◌then◌else◌, ltb, leb, ◌==◌,
}

-- The members of `class VGA`, the port writes of `update_cursor` (the newest first), and the static
-- buffer `tmp` of `vprintf`.
pub record Vga : Type 0 where
  pub fb : ℕ → ℕ
  pub x : ℕ
  pub y : ℕ
  pub cur_color : ℕ
  pub width : ℕ
  pub height : ℕ
  pub out : List (ℕ × ℕ)
  pub tmp : ℕ → ℕ

unfoldable pub update_cursor : ℕ → ℕ → Vga → Vga
update_cursor x y v =
    let pos = (y * 80 + x) % 2 ^ 16 in
    record v {
      out =
          (0x3D5, bit_and (pos / 2 ^ 8) 0xFF)
          ∷ (0x3D4, 0x0E)
          ∷ (0x3D5, bit_and pos 0xFF)
          ∷ (0x3D4, 0x0F)
          ∷ v.out;
    }

unfoldable pub vga_color : ℕ → ℕ → ℕ
vga_color fg bg = bit_or fg (bg * 2 ^ 4) % 2 ^ 8

-- `char` is signed, so a byte of 128 or more is extended by ones.
unfoldable pub vga_entry : ℕ → ℕ → ℕ
vga_entry c color = bit_or (if ltb c 128 then c else 0xFF00 + c) (color * 2 ^ 8) % 2 ^ 16

-- The loops of `Init`: `n` cells of a row, then `rows` rows.
pub blank_row : ℕ → ℕ → Vga → Vga
blank_row zero cur_y v = v
blank_row (suc n) cur_y v =
    let v = blank_row n cur_y v in
    record v { fb = λ i. if cur_y * v.width + n == i then vga_entry 32 v.cur_color else v.fb i }

pub blank_rows : ℕ → Vga → Vga
blank_rows zero v = v
blank_rows (suc rows) v = let v = blank_rows rows v in blank_row v.width rows v

pub init : Vga → Vga
init v =
    let v = record v { x = 0; y = 0; cur_color = vga_color 15 0; width = 80; height = 25 } in
    let v = blank_rows v.height v in update_cursor 0 0 v

-- `while (x++ % 4);` on the byte `x`. It ends within four rounds.
unfoldable pub tab_from : ℕ → ℕ → ℕ
tab_from zero x = x
tab_from (suc rounds) x =
    let rest = tab_from rounds ((x + 1) % 2 ^ 8) in if x % 4 == 0 then (x + 1) % 2 ^ 8 else rest

-- The last branch of `_put`.
unfoldable pub put_cell : ℕ → Vga → Vga
put_cell c v =
    let index = v.y * v.width + v.x in
    let v = record v { fb = λ i. if index == i then vga_entry c v.cur_color else v.fb i } in
    let v = record v { x = (v.x + 1) % 2 ^ 8 } in
    let v = if leb v.width v.x then record v { x = 0; y = (v.y + 1) % 2 ^ 8 } else v in
    if leb v.height v.y then record v { x = 0; y = 0 } else v

unfoldable pub put : ℕ → Vga → Vga
put c v =
    let v =
      if c == 10
      then record v { x = 0; y = (v.y + 1) % 2 ^ 8 }
      else if c == 13
      then record v { x = 0 }
      else if c == 9
      then record v { x = tab_from 4 v.x }
      else put_cell c v in
    update_cursor v.x v.y v

unfoldable pub put_str : List ℕ → Vga → Vga
put_str [] v = v
put_str (c ∷ cs) v = put_str cs (put c v)

pub set_cur_color : ℕ → ℕ → Vga → Vga
set_cur_color fg bg v = record v { cur_color = vga_color fg bg }

-- `GoToXY`; the arguments are narrowed to a byte.
unfoldable pub go_to_xy : ℕ → ℕ → Vga → Vga
go_to_xy nx ny v = record v { x = nx % 2 ^ 8; y = ny % 2 ^ 8 }
