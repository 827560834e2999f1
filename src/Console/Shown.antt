-- ===== src/Console/Shown.antt =====
-- What a sequence of messages and colors leaves on the console (src/arch/x86/drivers/vga.cpp).
use another_os.Base.{ℕ, ◌≡◌, ◌∙◌, refl, sym, ap, List, [], ◌∷◌, ◌++◌, Run, ok, ◌>>=◌}
use another_os.Console.{Vga, put_str, set_cur_color}
use another_os.Console.Format.{Arg, print}
use another_os.Console.Numbers.{Bytes}
use another_os.Console.Text.{Words, expand, vprintf-expand, put_str-tmp}

-- A text, or a change of the color to one on black.
pub data Line : Type 0 where
  text : List ℕ → Line
  color : ℕ → Line

unfoldable pub show_line : Line → Vga → Vga
show_line (text cs) v = put_str cs v
show_line (color c) v = set_cur_color c 0 v

unfoldable pub show : List Line → Vga → Vga
show [] v = v
show (l ∷ ls) v = show ls (show_line l v)

abbrev pub leave_tmp : Bytes → Vga → Vga
leave_tmp b v = record v { tmp = b }

-- The run returns, and the console shows these lines; only `tmp` may differ.
abbrev pub Shown : List Line → Vga → Run Vga → Type 0
Shown ls v run = (b : Bytes) × (run ≡ ok (leave_tmp b (show ls v)))

show_line-tmp :
    (l : Line) (v : Vga) (b : Bytes) → show_line l (leave_tmp b v) ≡ leave_tmp b (show_line l v)
unfolding show_line set_cur_color
show_line-tmp (text cs) v b = put_str-tmp cs v b
show_line-tmp (color c) v b = refl

pub show-tmp :
    (ls : List Line) (v : Vga) (b : Bytes) → show ls (leave_tmp b v) ≡ leave_tmp b (show ls v)
unfolding show
show-tmp [] v b = refl
show-tmp (l ∷ ls) v b = ap (show ls) (show_line-tmp l v b) ∙ show-tmp ls (show_line l v) b

pub show-append : (ls ms : List Line) (v : Vga) → show (ls ++ ms) v ≡ show ms (show ls v)
unfolding show
show-append [] ms v = refl
show-append (l ∷ ls) ms v = show-append ls ms (show_line l v)

pub Shown-nothing : (v : Vga) → Shown [] v (ok v)
unfolding show
Shown-nothing v = (v.tmp, refl)

-- Lines behind lines.
pub Shown-then :
    (ls ms : List Line) (v : Vga) (run : Run Vga) (f : Vga → Run Vga)
    → Shown ls v run
    → ((w : Vga) → Shown ms w (f w))
    → Shown (ls ++ ms) v (run >>= f)
Shown-then ls ms v run f (b, e) rest =
    let (b', e') = rest (leave_tmp b (show ls v)) in
    (
      b',
      ap (λ q. q >>= f) e
          ∙ e'
          ∙ ap (λ w. ok (leave_tmp b' w)) (show-tmp ms (show ls v) b)
          ∙ ap (λ w. ok (leave_tmp b' w)) (sym (show-append ls ms v)),
    )

-- `printf`, where the format and its arguments stand for a text.
pub print-Shown :
    (fmt : List ℕ) (args : List Arg) (cs : List ℕ) (v : Vga)
    → Words args
    → expand fmt args ≡ ok cs
    → Shown (text cs ∷ []) v (print fmt args v)
unfolding print show show_line
print-Shown fmt args cs v words e = vprintf-expand fmt args v cs words e
