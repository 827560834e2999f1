-- ===== src/Processes/Memory.antt =====
-- What `memcpy` and `memset` leave in memory (src/arch/x86/scheduler/process.cpp).
use another_os.Base.{
  ℕ, zero, suc, ◌+◌, ◌%◌, ◌^◌, ◌≡◌, ◌≤◌, ◌<◌, ◌∙◌, refl, ap, arith, ==_false, ==_iff, ◌&&◌,
  if◌then◌else◌, ltb, leb,
}
use native.Mathlib.Decide.{ℕ_discrete as dec_eq}
use another_os.Processes.{Bytes, copy_from, memcpy, fill_from, memset}

fill_from_lem :
    (n i buffer value : ℕ) (m : Bytes) (a : ℕ)
    → fill_from n i buffer value m a
      ≡ (if leb (buffer + i) a && ltb a (buffer + i + n) then value % 2 ^ 8 else m a)
unfolding fill_from
fill_from_lem zero i buffer value m a = ground arith
fill_from_lem (suc n) i buffer value m a = fill_from_lem n (suc i) buffer value _ a ∙ ground arith

-- `memset` stores the low byte of the value in the `size` bytes from the buffer on, and nothing else.
pub memset_lem :
    (buffer value size : ℕ) (m : Bytes) (a : ℕ)
    → memset buffer value size m a
      ≡ (if leb buffer a && ltb a (buffer + size) then value % 2 ^ 8 else m a)
unfolding memset
memset_lem buffer value size m a = ground (arith, fill_from_lem size 0 buffer value m a)

copy_from-outside :
    (n i dst src : ℕ) (m : Bytes) (a : ℕ) → a < dst + i → copy_from n i dst src m a ≡ m a
unfolding copy_from
copy_from-outside zero i dst src m a l = refl
copy_from-outside (suc n) i dst src m a l =
    copy_from-outside n (suc i) dst src _ a (omega (arith, l)) ∙ ground (arith, l)

copy_from-inside :
    (n i dst src : ℕ) (m : Bytes) (k : ℕ)
    → src + i + n ≤ dst
    → i ≤ k
    → k < i + n
    → copy_from n i dst src m (dst + k) ≡ m (src + k)
unfolding copy_from
copy_from-inside zero i dst src m k apart l u = absurd (omega (arith, l, u))
copy_from-inside (suc n) i dst src m k apart l u = elim (dec_eq i k) [
  | yes e ↦
      copy_from-outside n (suc i) dst src _ (dst + k) (omega (arith, e))
      ∙ rw ((==_iff (dst + i) (dst + k)).1 (ap (λ j. dst + j) e)) (ap (λ j. m (src + j)) e)
  | no d ↦
      copy_from-inside n (suc i) dst src _ k (omega (arith, apart)) (omega (arith, l, d))
        (omega (arith, u))
      ∙ rw (==_false (dst + i) (src + k) (omega (arith, apart, l, u))) refl
]

-- `memcpy` to a place behind its source.
pub memcpy_lem :
    (dst src size : ℕ) (m : Bytes) (k : ℕ)
    → src + size ≤ dst
    → k < size
    → memcpy dst src size m (dst + k) ≡ m (src + k)
unfolding memcpy
memcpy_lem dst src size m k apart l =
    copy_from-inside size 0 dst src m k (omega (arith, apart)) (omega arith) (omega (arith, l))
