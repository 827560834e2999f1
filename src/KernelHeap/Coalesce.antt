-- ===== src/KernelHeap/Coalesce.antt =====
-- The two joins of `Heap::free` of src/arch/x86/mem/heap.cpp, as steps on the list of blocks.
use mathlib.Core.Path.{fun_ext}
use another_os.Base.{
  ℕ, ◌+◌, ◌^◌, ◌≤◌, ◌<◌, ◌≡◌, ◌≢◌, ◌⊎◌, refl, ◌∙◌, Bool, true, false, [], ◌∷◌, ◌++◌, arith, All,
  add32, ◌==◌, ==_false,
}
use another_os.Base.Links.{head_or, last_or}
use another_os.KernelHeap.{Mem, Heap, store, set_prev, join_prev, join_next, page_size}
use another_os.KernelHeap.Header
use another_os.KernelHeap.Header.{header_size}
use another_os.KernelHeap.Blocks.{block, Blocks, HeaderAt, Tiled, IsHeap, PayloadKept}
use another_os.KernelHeap.Spec.{absorb}
use another_os.KernelHeap.Join.{
  Joined, join_bounds, join_read, join-IsHeap, join_kept, mark_read, behind_read,
}
use another_os.KernelHeap.Splice.{kept_self}

pub store_eq : (m : Mem) (a v : ℕ) → store m a v a ≡ v
unfolding store
store_eq m a v = ground arith

store_ne : (m : Mem) (a v b : ℕ) → a ≢ b → store m a v b ≡ m b
unfolding store
store_ne m a v b h = ground arith

store_swap : (m : Mem) (a v b w : ℕ) → a ≢ b → store (store m a v) b w ≡ store (store m b w) a v
unfolding store
store_swap m a v b w h = fun_ext λ c. ground arith

-- `join_next` where a free block lies behind.
join_next-Joined :
    (m : Mem) (p q n k after before : ℕ)
    → HeaderAt m p q before (block false n)
    → HeaderAt m q after p (block false k)
    → page_size ≤ p
    → p + header_size + n ≤ q
    → q + header_size + k < 2 ^ 32
    → join_next m p ≡ Joined m p (n + k + header_size) after
unfolding join_next
join_next-Joined m p q n k after before hp hq low apart room =
    let some : (q == 0) ≡ false = ==_false _ _ (omega arith) in
    let sum : add32 n (add32 k header_size) ≡ n + k + header_size = omega arith in
    rw (
      hp.next,
      some,
      hq.allocated,
      hp.size,
      hq.size,
      sum,
      store_ne m (Header.size p) (n + k + header_size) (Header.next p) (omega arith),
      hp.next,
      store_ne m (Header.size p) (n + k + header_size) (Header.next q) (omega arith),
      hq.next,
      store_eq,
    )

-- Where nothing free lies behind, `join_next` writes nothing.
join_next_none : (m : Mem) (p : ℕ) → m (Header.next p) ≡ 0 → join_next m p ≡ m
unfolding join_next
join_next_none m p e = rw e

join_next_used :
    (m : Mem) (p q : ℕ) → m (Header.next p) ≡ q → m (Header.allocated q) ≡ 1 → join_next m p ≡ m
unfolding join_next
join_next_used m p q e u = ground arith

set_prev_ne :
    (m : Mem) (after v a : ℕ) → (after ≢ 0 → a ≢ Header.prev after) → set_prev m after v a ≡ m a
unfolding set_prev
set_prev_ne m after v a h = ground arith

pub join_prev-Joined :
    (m : Mem) (p q n k after before : ℕ)
    → HeaderAt m p q before (block false n)
    → HeaderAt m q after p (block false k)
    → page_size ≤ p
    → p + header_size + n ≤ q
    → q + header_size + k < 2 ^ 32
    → (after ≡ 0) ⊎ (q + header_size ≤ after)
    → join_prev m q ≡ (Joined m p (n + k + header_size) after, p)
unfolding join_prev
join_prev-Joined m p q n k after before hp hq low apart room far =
    let some : (p == 0) ≡ false = ==_false _ _ (omega arith) in
    let sum : add32 n (add32 k header_size) ≡ n + k + header_size = omega arith in
    let m1 = store m (Header.next p) after in
    let m2 = store m1 (Header.size p) (n + k + header_size) in
    let r1 : m1 (Header.size p) ≡ n = store_ne m _ _ _ (omega arith) ∙ hp.size in
    let r2 : m1 (Header.size q) ≡ k = store_ne m _ _ _ (omega arith) ∙ hq.size in
    let r3 : m2 (Header.next q) ≡ after =
      store_ne m1 _ _ _ (omega arith) ∙ store_ne m _ _ _ (omega arith) ∙ hq.next in
    let r4 : m2 (Header.prev q) ≡ p =
      store_ne m1 _ _ _ (omega arith) ∙ store_ne m _ _ _ (omega arith) ∙ hq.prev in
    let r5 : set_prev m2 after p (Header.prev q) ≡ p =
      set_prev_ne m2 after p _ (λ d. omega arith) ∙ r4 in
    rw (
      hq.prev,
      some,
      hp.allocated,
      hq.next,
      r1,
      r2,
      sum,
      r3,
      r4,
      r5,
      store_swap m (Header.next p) after (Header.size p) (n + k + header_size) (omega arith),
    )

pub join_prev_none : (m : Mem) (p : ℕ) → m (Header.prev p) ≡ 0 → join_prev m p ≡ (m, p)
unfolding join_prev
join_prev_none m p e = rw e

pub join_prev_used :
    (m : Mem) (p q : ℕ)
    → m (Header.prev p) ≡ q
    → m (Header.allocated q) ≡ 1
    → join_prev m p ≡ (m, p)
unfolding join_prev
join_prev_used m p q e u = ground arith

-- What a stage of `free` does to the heap around the blocks `xs` and `ys`; `flag` is a word of the
-- freed header, which later stages leave alone.
pub record Stage (h : Heap) (m' : Mem) (bs xs ys : Blocks) (flag : ℕ) : Type 0 where
  pub heap : IsHeap (record h { mem = m' }) bs
  pub front : All (PayloadKept h.mem m') xs
  pub back : All (PayloadKept h.mem m') ys
  pub same : m' flag ≡ h.mem flag

unchanged : (h : Heap) (bs xs ys : Blocks) (flag : ℕ) → IsHeap h bs → Stage h h.mem bs xs ys flag
unchanged h bs xs ys flag v = record {
  heap = v;
  front = kept_self h.mem xs;
  back = kept_self h.mem ys;
  same = refl;
}

pub Joined_same :
    (m : Mem) (p n e flag : ℕ) (ys : Blocks) (hi : ℕ)
    → Tiled e ys hi
    → flag < e
    → flag ≢ Header.size p
    → flag ≢ Header.next p
    → Joined m p n (head_or ys 0) flag ≡ m flag
unfolding store set_prev
Joined_same m p n e flag [] hi t k c d = ground arith
Joined_same m p n e flag ((q, b) ∷ ys) hi t k c d = ground arith

join_next_behind :
    (h : Heap) (xs ys : Blocks) (p n q e flag : ℕ) (u : Bool) (k : ℕ)
    → IsHeap h (xs ++ ((p, block false n) ∷ (q, block u k) ∷ ys))
    → Tiled e ((q, block u k) ∷ ys) h.end_address
    → flag < e
    → flag ≢ Header.size p
    → flag ≢ Header.next p
    → Stage h
        (join_next h.mem p)
        (xs ++ absorb p n ((q, block u k) ∷ ys))
        xs
        ((q, block u k) ∷ ys)
        flag
unfolding absorb
join_next_behind h xs ys p n q e flag true k v t f c d =
    rw
      (join_next_used h.mem p q (mark_read h xs _ p n false v).next
        (behind_read h xs ys p q _ (block true k) v).allocated)
      (unchanged h _ xs _ flag v)
join_next_behind h xs ys p n q e flag false k v t f c d =
    let (low, apart, room) = join_bounds h xs ys p q n k v in
    let (hp, hq) = join_read h xs ys p q n k v in
    let (front, back) = join_kept h xs ys p q n k v in
    rw (join_next-Joined h.mem p q n k (head_or ys 0) (last_or xs 0) hp hq low apart room) (record {
      heap = join-IsHeap h xs ys p q n k v;
      front = front;
      back = ((λ i. cc), back);
      same =
          Joined_same h.mem p (n + k + header_size) (q + header_size + k) flag ys h.end_address t.3
            (omega (arith, t.0)) c d;
    })

-- The block at `p` takes in a free one behind it; `flag` lies in front of the blocks `ys`.
pub join_next-absorb :
    (h : Heap) (xs ys : Blocks) (p n e flag : ℕ)
    → IsHeap h (xs ++ ((p, block false n) ∷ ys))
    → Tiled e ys h.end_address
    → flag < e
    → flag ≢ Header.size p
    → flag ≢ Header.next p
    → Stage h (join_next h.mem p) (xs ++ absorb p n ys) xs ys flag
unfolding absorb
join_next-absorb h xs [] p n e flag v t k c d =
    rw (join_next_none h.mem p (mark_read h xs [] p n false v).next) (unchanged h _ xs [] flag v)
join_next-absorb h xs ((q, b) ∷ ys) p n e flag v t k c d =
    join_next_behind h xs ys p n q e flag b.used b.size v t k c d
