-- ===== src/Kernel/Screen.antt =====
-- What the start of the kernel shows (src/arch/x86/kernel/kernel.cpp).
use another_os.Base.{ℕ, ◌≡◌, ◌∙◌, refl, sym, ap, true, List, [], ◌∷◌, ◌++◌, codes, Run, ok, ◌>>=◌}
use another_os.Console.{Vga, set_cur_color}
use another_os.Console.Numbers.{Bytes}
use another_os.Console.Phrases.{plain_text, print-plain}
use another_os.Console.Shown.{Line, text, color, leave_tmp, show, show_line, show-tmp, show-append}
use another_os.Kernel.{Kernel, with_console, announce, recolor, print_ok}

-- `k'` shows these lines behind what `k` shows.
pub record Goes (ls : List Line) (k k' : Kernel) : Type 0 where
  pub tmp : Bytes
  pub screen : k'.pit.console ≡ leave_tmp tmp (show ls k.pit.console)

pub Goes-then :
    (ls ms : List Line) (k k1 k2 : Kernel) → Goes ls k k1 → Goes ms k1 k2 → Goes (ls ++ ms) k k2
Goes-then ls ms k k1 k2 g h = record {
  tmp = h.tmp;
  screen =
      h.screen
      ∙ ap (λ v. leave_tmp h.tmp (show ms v)) g.screen
      ∙ ap (leave_tmp h.tmp) (show-tmp ms (show ls k.pit.console) g.tmp)
      ∙ ap (leave_tmp h.tmp) (sym (show-append ls ms k.pit.console));
}

-- A step that returns, leaves the heap alone and shows these lines.
abbrev pub Keeps : List Line → Kernel → Run Kernel → Type 0
Keeps ls k run = (k' : Kernel) × (run ≡ ok k') × (k'.heap ≡ k.heap) × Goes ls k k'

-- `announce` changes the console alone.
pub announce-ok :
    (msg : List ℕ) (k : Kernel)
    → plain_text msg ≡ true
    → (v : Vga) × (announce msg k ≡ ok (with_console k v))
      × Goes (text msg ∷ []) k (with_console k v)
unfolding announce
announce-ok msg k plain =
    let (b, run) = print-plain msg k.pit.console plain in
    (
      leave_tmp b (show (text msg ∷ []) k.pit.console),
      ap (λ q. q >>= λ v. ok (with_console k v)) run,
      record { tmp = b; screen = refl },
    )

abbrev pub ok_lines : List Line
ok_lines = color 2 ∷ text (codes "[OK]\n") ∷ color 15 ∷ []

pub recolor-Goes : (c : ℕ) (k : Kernel) → Goes (color c ∷ []) k (recolor c k)
unfolding show show_line
recolor-Goes c k = record { tmp = (set_cur_color c 0 k.pit.console).tmp; screen = refl }

-- So does `PrintOK`.
pub print_ok-ok :
    (k : Kernel)
    → (v : Vga) × (print_ok k ≡ ok (with_console k v)) × Goes ok_lines k (with_console k v)
unfolding print_ok
print_ok-ok k =
    let (v, run, g) = announce-ok (codes "[OK]\n") (recolor 2 k) refl in
    (
      set_cur_color 15 0 v,
      ap (λ q. q >>= λ k. ok (recolor 15 k)) run,
      Goes-then (color 2 ∷ []) (text (codes "[OK]\n") ∷ color 15 ∷ []) k (recolor 2 k) _
          (recolor-Goes 2 k)
          (Goes-then (text (codes "[OK]\n") ∷ []) (color 15 ∷ []) (recolor 2 k) (with_console k v) _
            g (recolor-Goes 15 (with_console k v))),
    )

-- The lines of a step: what it announces, and `[OK]`.
abbrev pub step_lines : List ℕ → List Line
step_lines msg = text msg ∷ ok_lines

-- A step that changes neither the console nor the heap between its message and `[OK]`.
pub step-Keeps :
    (msg : List ℕ) (k : Kernel) (f : Kernel → Kernel)
    → plain_text msg ≡ true
    → ((k : Kernel) → (f k).pit.console ≡ k.pit.console)
    → ((k : Kernel) → (f k).heap ≡ k.heap)
    → Keeps (step_lines msg) k (announce msg k >>= λ k. print_ok (f k))
unfolding show
step-Keeps msg k f plain same kept =
    let (v, run, g) = announce-ok msg k plain in
    let k1 = with_console k v in
    let (w, printed, h) = print_ok-ok (f k1) in
    let moved : Goes [] k1 (f k1) = record { tmp = v.tmp; screen = same k1 } in
    (
      with_console (f k1) w,
      ap (λ q. q >>= λ k. print_ok (f k)) run ∙ printed,
      kept k1,
      Goes-then (text msg ∷ []) ok_lines k k1 _ g (Goes-then [] ok_lines k1 (f k1) _ moved h),
    )
