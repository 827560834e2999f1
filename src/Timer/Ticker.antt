-- ===== src/Timer/Ticker.antt =====
-- The ticker in the corner of the screen (src/arch/x86/drivers/pit.cpp).
use another_os.Base.{
  ℕ, zero, suc, ◌+◌, ◌%◌, ◌^◌, ◌<◌, ◌≡◌, ◌≢◌, ◌∙◌, inl, inr, refl, ap, arith, [], ◌∷◌,
  if◌then◌else◌, ltb, ◌==◌, Bool-cases, ==_false, add32, Run, ok, ◌>>=◌,
}
use another_os.Console.{Vga, put, put_cell, update_cursor, go_to_xy, vga_entry}
use another_os.Console.Format.{int, directive_of, convert, vprintf}
use another_os.Console.Screen.{OnScreen, Printed, IsPrinted, put-Printed}
use another_os.Timer.{Pit, ticker, show_tick}

-- The picture at each index: a slash, a dash, a backslash, a bar.
abbrev pub picture : ℕ → ℕ
picture i = if i == 0 then 47 else if i == 1 then 45 else if i == 2 then 92 else 124

-- What one tick leaves: only the corner is written, the cursor of the console is where it was, and
-- the hardware cursor is sent to cell 80, the first of the second row.
pub record Turned (t t' : Pit) : Type 0 where
  pub index : t'.index ≡ (t.index + 1) % 4
  pub ticks : t'.ticks ≡ add32 t.ticks 1
  pub x : t'.console.x ≡ t.console.x
  pub y : t'.console.y ≡ t.console.y
  pub on_screen : OnScreen t'.console
  pub color : t'.console.cur_color ≡ t.console.cur_color
  pub cells :
      (i : ℕ)
      → t'.console.fb i
        ≡ (if 79 == i then vga_entry (picture t.index) t.console.cur_color else t.console.fb i)
  pub cursor :
      t'.console.out ≡ (0x3D5, 0) ∷ (0x3D4, 0x0E) ∷ (0x3D5, 80) ∷ (0x3D4, 0x0F) ∷ t.console.out
  pub set : t'.scheduler_set ≡ t.scheduler_set
  pub scheduler : t'.scheduler ≡ t.scheduler

ticker-picture : (i : ℕ) → i < 4 → ticker i ≡ ok (picture i)
unfolding ticker
ticker-picture zero h = refl
ticker-picture (suc zero) h = refl
ticker-picture (suc (suc zero)) h = refl
ticker-picture (suc (suc (suc zero))) h = refl
ticker-picture (suc (suc (suc (suc i)))) h = absurd (omega arith)

picture-IsPrinted : (i : ℕ) → IsPrinted (picture i)
picture-IsPrinted i = (λ e. ground (arith, e), λ e. ground (arith, e), λ e. ground (arith, e))

vprintf-char : (c : ℕ) (v : Vga) → c < 2 ^ 8 → vprintf (37 ∷ 99 ∷ []) (int c ∷ []) v ≡ ok (put c v)
unfolding vprintf convert directive_of
vprintf-char c v h = ap (λ n. ok (put n v)) (omega arith)

-- The hardware cursor after a character has been put in the corner.
put-corner :
    (c : ℕ) (v : Vga)
    → OnScreen v
    → IsPrinted c
    → (put c (go_to_xy 79 0 v)).out
      ≡ (0x3D5, 0) ∷ (0x3D4, 0x0E) ∷ (0x3D5, 80) ∷ (0x3D4, 0x0F) ∷ v.out
unfolding put put_cell update_cursor go_to_xy
put-corner c v o (n, r, t) =
    rw (==_false c 10 n, ==_false c 13 r, ==_false c 9 t, o.width_80, o.height_25) refl

-- The state after one tick.
abbrev turned : Pit → Pit
turned t = record t {
  ticks = add32 t.ticks 1;
  index = (t.index + 1) % 4;
  console = go_to_xy t.console.x t.console.y (put (picture t.index) (go_to_xy 79 0 t.console));
}

show_tick-turned : (t : Pit) → t.index < 4 → show_tick t ≡ ok (turned t)
unfolding show_tick
show_tick-turned t h =
    let small : picture t.index < 2 ^ 8 = ground arith in
    elim (Bool-cases (ltb 3 (t.index + 1))) [
      | inl around ↦
          let index : (t.index + 1) % 4 ≡ 0 = ground (arith, around) in
          rw
            (
              ticker-picture t.index h,
              vprintf-char (picture t.index) (go_to_xy 79 0 t.console) small,
              around,
              index,
            )
            refl
      | inr further ↦
          let index : (t.index + 1) % 4 ≡ t.index + 1 = ground (arith, further) in
          rw
            (
              ticker-picture t.index h,
              vprintf-char (picture t.index) (go_to_xy 79 0 t.console) small,
              further,
              index,
            )
            refl
    ]

turned-Turned : (t : Pit) → OnScreen t.console → Turned t (turned t)
unfolding go_to_xy
turned-Turned t o =
    let corner = go_to_xy 79 0 t.console in
    let there : OnScreen corner = record {
      width_80 = o.width_80;
      height_25 = o.height_25;
      column = omega arith;
      row = omega arith;
    } in
    let one : Printed (picture t.index) corner (put (picture t.index) corner) =
      put-Printed (picture t.index) corner there (picture-IsPrinted t.index) in
    record {
      index = refl;
      ticks = refl;
      x = omega (arith, o.column);
      y = omega (arith, o.row);
      on_screen = record {
        width_80 = one.on_screen.width_80;
        height_25 = one.on_screen.height_25;
        column = omega (arith, o.column);
        row = omega (arith, o.row);
      };
      color = one.color;
      cells = one.cells;
      cursor = put-corner (picture t.index) t.console o (picture-IsPrinted t.index);
      set = refl;
      scheduler = refl;
    }

-- A timer interrupt with the cursor on the screen and one of the four pictures next puts this
-- picture into the last cell of the first row, in the current color, and goes on to the next
-- picture, from the last to the first. No other cell changes, and the cursor of the console ends
-- where it was; the hardware cursor is sent to the start of the second row.
pub show_tick-Turned :
    (t : Pit) → OnScreen t.console → t.index < 4 → (t' : Pit) × (show_tick t ≡ ok t') × Turned t t'
show_tick-Turned t o h = (turned t, show_tick-turned t h, turned-Turned t o)

-- Any number of ticks.
unfoldable pub show_ticks : ℕ → Pit → Run Pit
show_ticks zero t = ok t
show_ticks (suc n) t = show_tick t >>= λ t. show_ticks n t

-- After any number `n` of ticks, from a state with the cursor on the screen and one of the four
-- pictures next, the picture has turned `n` times, modulo 4, the cursor of the console is where it
-- was, and of the screen at most the corner has changed.
pub show_ticks-index :
    (n : ℕ) (t : Pit)
    → OnScreen t.console
    → t.index < 4
    → (t' : Pit) × (show_ticks n t ≡ ok t')
      × (t'.index ≡ (t.index + n) % 4)
      × (t'.console.x ≡ t.console.x)
      × (t'.console.y ≡ t.console.y)
      × ((i : ℕ) → i ≢ 79 → t'.console.fb i ≡ t.console.fb i)
unfolding show_ticks
show_ticks-index zero t o h = (t, refl, omega arith, refl, refl, λ i l. refl)
show_ticks-index (suc n) t o h =
    let (m, step, turn) = show_tick-Turned t o h in
    let (r, run, index, x, y, kept) =
      show_ticks-index n m turn.on_screen (omega (arith, turn.index)) in
    (
      r,
      rw step run,
      omega (arith, index, turn.index),
      x ∙ turn.x,
      y ∙ turn.y,
      λ i l. kept i l ∙ ground (arith, turn.cells i, l),
    )
