-- ===== src/Console/Edges.antt =====
-- Where the cursor can leave the screen (`_put` of src/arch/x86/drivers/vga.cpp).
use another_os.Base.{
  ℕ, ◌+◌, ◌*◌, ◌/◌, ◌%◌, ◌^◌, ◌<◌, ◌≤◌, ◌≡◌, ◌≢◌, ◌⊎◌, ◌↔◌, refl, arith, true, false, [], ◌∷◌,
  if◌then◌else◌, leb, ◌==◌, ==_false, inl, inr,
}
use another_os.Console.{Vga, put, put_cell, put_str, tab_from, update_cursor, vga_entry}
use another_os.Console.Screen.{OnScreen, IsPrinted, position, put-Printed}
use native.Mathlib.Decide.{ℕ_discrete as dec_eq}

-- A newline in the last row, or a tab in one of the last three columns.
abbrev pub Leaves : ℕ → Vga → Type 0
Leaves c v = ((c ≡ 10) × (v.y ≡ 24)) ⊎ ((c ≡ 9) × (77 ≤ v.x))

-- A tab goes to the next column behind a multiple of 4.
tab_from-stop : (x : ℕ) → x < 80 → tab_from 4 x ≡ (x + 3) / 4 * 4 + 1
unfolding tab_from
tab_from-stop x h = ground arith

abbrev newline : Vga → Vga
newline v = record v { x = 0; y = (v.y + 1) % 2 ^ 8 }

put-newline : (v : Vga) → put 10 v ≡ update_cursor 0 ((v.y + 1) % 2 ^ 8) (newline v)
unfolding put
put-newline v = refl

put-tab : (v : Vga) → put 9 v ≡ update_cursor (tab_from 4 v.x) v.y (record v { x = tab_from 4 v.x })
unfolding put
put-tab v = refl

-- What `_put` does to the cursor, and to the cells behind the frame buffer.
record Placed (c : ℕ) (v w : Vga) : Type 0 where
  stays : ¬ Leaves c v → OnScreen w
  leaves : Leaves c v → ¬ OnScreen w
  beyond : (i : ℕ) → 2000 ≤ i → w.fb i ≡ v.fb i

last_row : (v : Vga) → Leaves 10 v → v.y ≡ 24
last_row v (inl (e, row)) = row
last_row v (inr (e, column)) = absurd (omega (arith, e))

last_columns : (v : Vga) → Leaves 9 v → 77 ≤ v.x
last_columns v (inl (e, row)) = absurd (omega (arith, e))
last_columns v (inr (e, column)) = column

never : (c : ℕ) (v : Vga) → c ≢ 10 → c ≢ 9 → ¬ Leaves c v
never c v n t (inl (e, row)) = n e
never c v n t (inr (e, column)) = t e

newline-Placed : (v : Vga) → OnScreen v → Placed 10 v (put 10 v)
unfolding put update_cursor
newline-Placed v o = record {
  stays = λ n. record {
    width_80 = o.width_80;
    height_25 = o.height_25;
    column = omega arith;
    row = let above : v.y ≢ 24 = λ e. n (inl (refl, e)) in omega (arith, o.row, above);
  };
  leaves = λ l on. omega (arith, on.row, last_row v l);
  beyond = λ i h. refl;
}

tab-Placed : (v : Vga) → OnScreen v → Placed 9 v (put 9 v)
unfolding put update_cursor
tab-Placed v o = record {
  stays = λ n. record {
    width_80 = o.width_80;
    height_25 = o.height_25;
    column =
        let left : ¬ (77 ≤ v.x) = λ e. n (inr (refl, e)) in
        omega (arith, tab_from-stop v.x o.column, left);
    row = o.row;
  };
  leaves = λ l on. omega (arith, on.column, tab_from-stop v.x o.column, last_columns v l);
  beyond = λ i h. refl;
}

return-Placed : (v : Vga) → OnScreen v → Placed 13 v (put 13 v)
unfolding put update_cursor
return-Placed v o = record {
  stays = λ n. record {
    width_80 = o.width_80;
    height_25 = o.height_25;
    column = omega arith;
    row = o.row;
  };
  leaves = λ l on. never 13 v (λ e. omega (arith, e)) (λ e. omega (arith, e)) l;
  beyond = λ i h. refl;
}

printed-Placed : (c : ℕ) (v : Vga) → OnScreen v → IsPrinted c → Placed c v (put c v)
printed-Placed c v o p =
    let one = put-Printed c v o p in
    record {
      stays = λ n. one.on_screen;
      leaves = λ l on. never c v (p.0) (p.2) l;
      beyond = λ i h. ground (arith, one.cells i, o.row, o.column);
    }

put-Placed : (c : ℕ) (v : Vga) → OnScreen v → Placed c v (put c v)
put-Placed c v o = elim (dec_eq c 10) [
  | yes line ↦ rw line (newline-Placed v o)
  | no n ↦ elim (dec_eq c 13) [
    | yes back ↦ rw back (return-Placed v o)
    | no r ↦ elim (dec_eq c 9) [
      | yes tab ↦ rw tab (tab-Placed v o)
      | no t ↦ printed-Placed c v o (n, r, t)
    ]
  ]
]

-- With the cursor on the screen, `_put` writes nothing behind the frame buffer of 2,000 cells, and the
-- cursor is on the screen afterwards exactly if the character was no newline in the last row and no
-- tab in one of the last three columns.
pub put-OnScreen :
    (c : ℕ) (v : Vga)
    → OnScreen v
    → (OnScreen (put c v) ↔ ¬ Leaves c v) × ((i : ℕ) → 2000 ≤ i → (put c v).fb i ≡ v.fb i)
put-OnScreen c v o =
    let placed = put-Placed c v o in ((λ on l. placed.leaves l on, placed.stays), placed.beyond)

-- A printed character behind a newline in the last row is written to the cell behind the frame buffer
-- and to no other; the cursor is at the first cell then.
pub newline-overruns :
    (c : ℕ) (v : Vga)
    → OnScreen v
    → v.y ≡ 24
    → IsPrinted c
    → let w = put_str (10 ∷ c ∷ []) v in
      OnScreen w
      × (position w ≡ 0)
      × ((i : ℕ) → w.fb i ≡ (if 2000 == i then vga_entry c v.cur_color else v.fb i))
unfolding put_str put put_cell update_cursor
newline-overruns c v o last (n, r, t) =
    let row : (v.y + 1) % 2 ^ 8 ≡ 25 = omega (arith, last) in
    let inside : leb v.width 1 ≡ false = ground (arith, o.width_80) in
    let below : leb v.height 25 ≡ true = ground (arith, o.height_25) in
    rw (==_false c 10 n, ==_false c 13 r, ==_false c 9 t, row, inside, below)
      (
        record {
          width_80 = o.width_80;
          height_25 = o.height_25;
          column = omega arith;
          row = omega arith;
        },
        omega arith,
        λ i. rw o.width_80 refl,
      )
