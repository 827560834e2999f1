-- ===== src/Console/Screen.antt =====
-- The cursor and the cells that `_put` and `_put_str` write (src/arch/x86/drivers/vga.cpp).
use another_os.Base.{
  ℕ, suc, ◌+◌, ◌*◌, ◌%◌, ◌^◌, ◌<◌, ◌≤◌, ◌≡◌, ◌≢◌, ◌∙◌, refl, sym, arith, true, false, List, [], ◌∷◌,
  length, All, if◌then◌else◌, ltb, leb, ◌==◌, ==_false, Bool-cases, inl, inr,
}
use another_os.Console.{Vga, put, put_cell, put_str, update_cursor, vga_entry}

-- The console that `Init` sets up, with its cursor on the screen.
pub record OnScreen (v : Vga) : Type 0 where
  pub width_80 : v.width ≡ 80
  pub height_25 : v.height ≡ 25
  pub column : v.x < 80
  pub row : v.y < 25

abbrev pub position : Vga → ℕ
position v = v.y * 80 + v.x

abbrev pub IsPrinted : ℕ → Type 0
IsPrinted c = (c ≢ 10) × (c ≢ 13) × (c ≢ 9)

-- What one printed character does: the cell at the cursor alone is written, inside the frame buffer of
-- 2,000 cells, and the cursor goes to the next cell, from the last one to the first.
pub record Printed (c : ℕ) (v w : Vga) : Type 0 where
  pub on_screen : OnScreen w
  pub moved : position w ≡ (position v + 1) % 2000
  pub color : w.cur_color ≡ v.cur_color
  pub cells : (i : ℕ) → w.fb i ≡ (if position v == i then vga_entry c v.cur_color else v.fb i)

put_cell_lem : (c : ℕ) (v : Vga) → OnScreen v → Printed c v (put_cell c v)
unfolding put_cell
put_cell_lem c v o = elim (Bool-cases (ltb (v.x + 1) 80)) [
  | inl inside ↦
      let same_row : leb v.width ((v.x + 1) % 2 ^ 8) ≡ false = ground (arith, o.width_80, inside) in
      let above : leb v.height v.y ≡ false = ground (arith, o.height_25) in
      rw (same_row, above)
        (record {
          on_screen = record {
            width_80 = o.width_80;
            height_25 = o.height_25;
            column = ground (arith, inside);
            row = o.row;
          };
          moved = ground (arith, inside);
          color = refl;
          cells = λ i. rw o.width_80 refl;
        })
  | inr edge ↦
      let next_row : leb v.width ((v.x + 1) % 2 ^ 8) ≡ true = ground (arith, o.width_80, edge) in
      elim (Bool-cases (leb v.height ((v.y + 1) % 2 ^ 8))) [
        | inl bottom ↦
            rw (next_row, bottom)
              (record {
                on_screen = record {
                  width_80 = o.width_80;
                  height_25 = o.height_25;
                  column = omega arith;
                  row = omega arith;
                };
                moved = ground (arith, edge, bottom, o.height_25);
                color = refl;
                cells = λ i. rw o.width_80 refl;
              })
        | inr above ↦
            rw (next_row, above)
              (record {
                on_screen = record {
                  width_80 = o.width_80;
                  height_25 = o.height_25;
                  column = omega arith;
                  row = ground (arith, above, o.height_25);
                };
                moved = ground (arith, edge, above, o.height_25);
                color = refl;
                cells = λ i. rw o.width_80 refl;
              })
      ]
]

-- A character other than newline, return and tab, put with the cursor on the screen, is written to the
-- cell at the cursor and to no other, and moves the cursor on by one cell of the 2,000.
pub put-Printed : (c : ℕ) (v : Vga) → OnScreen v → IsPrinted c → Printed c v (put c v)
unfolding put update_cursor
put-Printed c v o (n, r, t) =
    let cell = put_cell_lem c v o in
    rw (==_false c 10 n, ==_false c 13 r, ==_false c 9 t)
      (record {
        on_screen = record {
          width_80 = cell.on_screen.width_80;
          height_25 = cell.on_screen.height_25;
          column = cell.on_screen.column;
          row = cell.on_screen.row;
        };
        moved = cell.moved;
        color = cell.color;
        cells = cell.cells;
      })

-- The string stands in the cells from `p` on, in the given color.
abbrev pub Shows : (ℕ → ℕ) → ℕ → ℕ → List ℕ → Type 0
Shows fb color p [] = Unit
Shows fb color p (c ∷ cs) = (fb p ≡ vga_entry c color) × Shows fb color (suc p) cs

Shows-at :
    (fb : ℕ → ℕ) (cs : List ℕ) {color color' p p' : ℕ}
    → color ≡ color'
    → p ≡ p'
    → Shows fb color p cs
    → Shows fb color' p' cs
Shows-at fb cs e f h = rw (sym e, sym f) h

-- A string of printed characters, put with the cursor on the screen and not reaching past the last
-- cell, stands in the cells from the cursor on; those before the cursor are kept, and the cursor goes
-- to the cell behind the string, which is the first cell when the string ends in the last one.
pub put_str-Shows :
    (cs : List ℕ) (v : Vga)
    → OnScreen v
    → All IsPrinted cs
    → position v + length cs ≤ 2000
    → OnScreen (put_str cs v)
      × (position (put_str cs v) ≡ (position v + length cs) % 2000)
      × Shows (put_str cs v).fb v.cur_color (position v) cs
      × ((j : ℕ) → j < position v → (put_str cs v).fb j ≡ v.fb j)
unfolding put_str
put_str-Shows [] v o a h = (o, omega (arith, o.row, o.column), tt, λ j l. refl)
put_str-Shows (c ∷ []) v o a h =
    let one = put-Printed c v o a.0 in
    (
      one.on_screen,
      one.moved,
      (ground (arith, one.cells (position v)), tt),
      λ j l. ground (arith, one.cells j),
    )
put_str-Shows (c ∷ d ∷ cs) v o a h =
    let one = put-Printed c v o a.0 in
    let next : position (put c v) ≡ suc (position v) = omega (arith, one.moved) in
    let (on, moved, shows, kept) =
      put_str-Shows (d ∷ cs) (put c v) one.on_screen a.1 (omega (arith, next)) in
    let first : (put_str (d ∷ cs) (put c v)).fb (position v) ≡ vga_entry c v.cur_color =
      kept (position v) (omega (arith, next)) ∙ ground (arith, one.cells (position v)) in
    (
      on,
      omega (arith, moved, next),
      (first, Shows-at _ (d ∷ cs) one.color next shows),
      λ j l. kept j (omega (arith, next)) ∙ ground (arith, one.cells j),
    )
