-- ===== src/Console/Tests.antt =====
-- Runs of src/arch/x86/drivers/vga.cpp.
use another_os.Base.{
  ℕ, ◌+◌, ◌-◌, ◌^◌, ◌<◌, ◌≤◌, ◌≡◌, arith, refl, List, [], ◌∷◌, ◌↔◌, if◌then◌else◌, ◌==◌, ok,
}
use another_os.Console.{
  Vga, put, put_str, vga_entry, vga_color, update_cursor, blank_row, blank_rows, init,
}
use another_os.Console.Edges.{Leaves, put-OnScreen, newline-overruns}
use another_os.Console.Screen.{OnScreen, position}
use another_os.Console.Numbers.{Bytes, uint_to_str, int_to_string}
use another_os.Console.Format.{Arg, int, str, vprintf}
use another_os.Console.Numerals.{numeral}
use another_os.Console.Text.{text_of, meaning, expand, vprintf-expand}
use another_os.Console.Digits.{Reads, uint_to_str-Reads, int_to_string-Reads}

abbrev blank : Bytes
blank i = 0

abbrev at_end : Vga
at_end = record {
  fb = λ i. 0;
  x = 78;
  y = 24;
  cur_color = 15;
  width = 80;
  height = 25;
  out = [];
  tmp = blank;
}

at_end-OnScreen : OnScreen at_end
at_end-OnScreen = record {
  width_80 = refl;
  height_25 = refl;
  column = omega arith;
  row = omega arith;
}

abbrev text : List ℕ
text = 79 ∷ 75 ∷ []

-- Two rows of a screen of three columns: the first cell of the third row is left.
blanked :
    let v = blank_rows 2 (record at_end { width = 3; fb = λ i. 7 }) in
    (v.fb 0 ≡ 0xF20) × (v.fb 5 ≡ 0xF20) × (v.fb 6 ≡ 7)
unfolding blank_rows blank_row vga_entry
blanked = (refl, refl, refl)

-- White on black, from the first cell on.
started : ((init at_end).x ≡ 0) × ((init at_end).y ≡ 0) × ((init at_end).cur_color ≡ 15)
unfolding init update_cursor blank_rows blank_row vga_color
started = (refl, refl, refl)

abbrev letters : Bytes
letters i = 65 + i

uint_to_str-Reads_example :
    (n : ℕ) × (str' : Bytes) × (0 < n)
    × (n ≤ 32)
    × (uint_to_str blank 0xBEEF 16 ≡ ok str')
    × Reads 0xBEEF 16 0 n str'
uint_to_str-Reads_example =
    uint_to_str-Reads blank 0xBEEF 16 (omega arith) (omega arith) (omega arith)

int_to_string-Reads_example :
    (n : ℕ) × (str' : Bytes) × (0 < n)
    × (n ≤ 32)
    × (int_to_string blank 0xFFFFFFD6 10 ≡ ok str')
    × (0xFFFFFFD6 < 2 ^ 31 → Reads 0xFFFFFFD6 10 0 n str')
    × (2 ^ 31 < 0xFFFFFFD6 → (str' 0 ≡ 45) × Reads (2 ^ 32 - 0xFFFFFFD6) 10 1 n str')
int_to_string-Reads_example =
    int_to_string-Reads blank 0xFFFFFFD6 10 (omega arith) (omega arith) (omega arith) (omega arith)

-- "%d%s%x%%" of the `int` -42, the string "ok" and 255.
abbrev format : List ℕ
format = 37 ∷ 100 ∷ 37 ∷ 115 ∷ 37 ∷ 120 ∷ 37 ∷ 37 ∷ []

abbrev arguments : List Arg
arguments = int 0xFFFFFFD6 ∷ str text ∷ int 255 ∷ []

abbrev printed : List ℕ
printed = 45 ∷ 52 ∷ 50 ∷ 79 ∷ 75 ∷ 70 ∷ 70 ∷ 37 ∷ []

expanded : expand format arguments ≡ ok printed
unfolding expand text_of meaning numeral
expanded = refl

vprintf-expand_example :
    (b : Bytes) × (vprintf format arguments at_end
      ≡ ok (record (put_str printed at_end) { tmp = b }))
vprintf-expand_example =
    vprintf-expand format arguments at_end printed (omega arith, (omega arith, tt)) expanded

-- A tab in column 78.
put-OnScreen_example :
    (OnScreen (put 9 at_end) ↔ ¬ Leaves 9 at_end)
    × ((i : ℕ) → 2000 ≤ i → (put 9 at_end).fb i ≡ at_end.fb i)
put-OnScreen_example = put-OnScreen 9 at_end at_end-OnScreen

newline-overruns_example :
    let w = put_str (10 ∷ 65 ∷ []) at_end in
    OnScreen w
    × (position w ≡ 0)
    × ((i : ℕ) → w.fb i ≡ (if 2000 == i then vga_entry 65 15 else at_end.fb i))
newline-overruns_example =
    newline-overruns 65 at_end at_end-OnScreen refl (omega arith, omega arith, omega arith)
