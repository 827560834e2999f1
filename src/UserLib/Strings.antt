-- ===== src/UserLib/Strings.antt =====
-- `strlen` and `puts` on a string (libc/string.c, libc/stdio.h).
use mathlib.Core.Path.{subst}
use another_os.Base.{
  ℕ, zero, suc, ◌+◌, ◌-◌, ◌≡◌, ◌≢◌, ◌∙◌, inl, inr, refl, ap, arith, List, [], ◌∷◌, length, All,
  ◌==◌, ==_false, ==_iff, Bool-cases, Run, ok, halt, undefined, out_of_fuel, ◌>>=◌, ◌<◌, ◌≤◌,
}
use another_os.Console.Format.{c_string}
use another_os.Console.Numbers.{Bytes}
use another_os.UserLib.{strlen_from, strlen, bytes_at, memory_of, Program, write, puts}

-- The bytes from `s` on are those of `cs`, none of them NUL, and a NUL.
abbrev pub Holds : Bytes → ℕ → List ℕ → Type 0
Holds b s [] = b s ≡ 0
Holds b s (c ∷ cs) = (b s ≡ c) × (c ≢ 0) × Holds b (suc s) cs

bytes_at-Holds : (cs : List ℕ) (s : ℕ) (b : Bytes) → Holds b s cs → bytes_at (length cs) s b ≡ cs
unfolding bytes_at
bytes_at-Holds [] s b h = refl
bytes_at-Holds (c ∷ cs) s b h = rw (h.0, bytes_at-Holds cs (suc s) b h.2) refl

strlen_from-Holds :
    (cs : List ℕ) (fuel s start : ℕ) (b : Bytes)
    → Holds b s cs
    → length cs < fuel
    → start ≤ s
    → strlen_from fuel b start s ≡ ok (s - start + length cs)
unfolding strlen_from
strlen_from-Holds cs zero s start b h enough below = absurd (omega arith)
strlen_from-Holds [] (suc fuel) s start b h enough below = rw h (ap (λ n. ok n) (omega arith))
strlen_from-Holds (c ∷ cs) (suc fuel) s start b h enough below =
    rw
      (
        h.0,
        ==_false c 0 h.1,
        strlen_from-Holds cs fuel (suc s) start b h.2 (omega arith) (omega arith),
      )
      (ap (λ n. ok n) (omega arith))

-- `strlen` of a string returns with its length, with any fuel above it.
pub strlen-length :
    (cs : List ℕ) (fuel start : ℕ) (b : Bytes)
    → Holds b start cs
    → length cs < fuel
    → strlen fuel b start ≡ ok (length cs)
unfolding strlen
strlen-length cs fuel start b h enough =
    strlen_from-Holds cs fuel start start b h enough (omega arith) ∙ ap (λ n. ok n) (omega arith)

-- `puts` of a string writes its bytes in one call.
pub puts-Holds :
    (cs : List ℕ) (fuel : ℕ) (b : Bytes) (u : Program)
    → Holds b 0 cs
    → length cs < fuel
    → puts fuel b u ≡ ok (write 1 cs (length cs) u)
unfolding puts
puts-Holds cs fuel b u h enough =
    rw (strlen-length cs fuel 0 b h enough, bytes_at-Holds cs 0 b h) refl

memory_of-from :
    (cs : List ℕ) (s : ℕ) (b : Bytes)
    → All (λ c. c ≢ 0) cs
    → ((i : ℕ) → b (i + s) ≡ memory_of cs i)
    → Holds b s cs
unfolding memory_of
memory_of-from [] s b set same = ap b (omega arith) ∙ same 0
memory_of-from (c ∷ cs) s b set same = (
  ap b (omega arith) ∙ same 0,
  set.0,
  memory_of-from cs (suc s) b set.1 (λ i. ap b (omega arith) ∙ same (suc i)),
)

-- A string without a NUL, as memory.
pub memory_of-Holds : (cs : List ℕ) → All (λ c. c ≢ 0) cs → Holds (memory_of cs) 0 cs
memory_of-Holds cs set =
    memory_of-from cs 0 (memory_of cs) set (λ i. ap (memory_of cs) (omega arith))

abbrev Reading : Bytes → ℕ → ℕ → Run (List ℕ) → Type 0
Reading b s fuel (ok cs) = Holds b s cs × (length cs < fuel)
Reading b s fuel halt = Unit
Reading b s fuel undefined = Unit
Reading b s fuel out_of_fuel = Unit

Reading-more :
    (b : Bytes) (s fuel : ℕ) (r : Run (List ℕ))
    → b s ≢ 0
    → Reading b (suc s) fuel r
    → Reading b s (suc fuel) (r >>= λ cs. ok (b s ∷ cs))
Reading-more b s fuel (ok cs) set (h, enough) = ((refl, set, h), omega arith)
Reading-more b s fuel halt set h = tt
Reading-more b s fuel undefined set h = tt
Reading-more b s fuel out_of_fuel set h = tt

c_string-Reading : (fuel s : ℕ) (b : Bytes) → Reading b s fuel (c_string fuel b s)
unfolding c_string
c_string-Reading zero s b = tt
c_string-Reading (suc fuel) s b = elim (Bool-cases (b s == 0)) [
  | inl end ↦ rw (end, Reading) ((==_iff (b s) 0).0 end, omega arith)
  | inr more ↦
      rw (more, Reading)
        (Reading-more b s fuel (c_string fuel b (suc s)) (ground (arith, more))
          (c_string-Reading fuel (suc s) b))
]

-- What the console reads as a string is one.
pub c_string-Holds :
    (cs : List ℕ) (fuel s : ℕ) (b : Bytes)
    → c_string fuel b s ≡ ok cs
    → Holds b s cs × (length cs < fuel)
c_string-Holds cs fuel s b h = subst (Reading b s fuel) h (c_string-Reading fuel s b)
