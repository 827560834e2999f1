-- ===== src/Queue/Iterator.antt =====
-- The iterators of a queue, and what a loop over them visits (libc/queue.h).
use mathlib.Core.Path.{subst}
use mathlib.Core.Bool.{true≢false}
use another_os.Base.{
  ℕ, ◌≡◌, refl, sym, ap, Bool, true, false, not, List, [], ◌∷◌, map, if◌then◌else◌, ◌==◌, ==_false,
  Run, ok, undefined,
}
use another_os.Base.Links.{head_or, Links}
use another_os.Queue.{Queue}
use another_os.Queue.Chains.{Nodes, NodeAt, Distinct, IsQueue}

-- An iterator is `pos_`: the node, or null behind the last one.
unfoldable pub begin : Queue → ℕ
begin q = q.head

unfoldable pub end : ℕ
end = 0

-- `operator!=`.
unfoldable pub differs : ℕ → ℕ → Bool
differs it rhs = not (it == rhs)

-- `operator*` and `operator->`.
pub dereference : ℕ → Queue → Run ℕ
dereference it q = if it == 0 then undefined else ok (q.data_of it)

-- `operator++` and `operator--`, each with the new `pos_`.
pub increment : ℕ → Queue → Run ℕ
increment it q = if it == 0 then undefined else ok (q.next it)

pub decrement : ℕ → Queue → Run ℕ
decrement it q = if it == 0 then undefined else ok (q.prev it)

-- A loop from `it` on, while it differs from `end()`, reads these elements; each step forward that
-- does not end the loop is undone by a step back.
pub data Visits (q : Queue) : ℕ → List ℕ → Type 0 where
  stop : (it : ℕ) → differs it end ≡ false → Visits q it []
  visit :
      (it it' v : ℕ) {vs : List ℕ}
      → differs it end ≡ true
      → dereference it q ≡ ok v
      → increment it q ≡ ok it'
      → (differs it' end ≡ true → decrement it' q ≡ ok it)
      → Visits q it' vs
      → Visits q it (v ∷ vs)

Links-Visits :
    (before : ℕ) (xs : Nodes) (q : Queue)
    → Links (NodeAt q) before xs 0
    → Distinct xs
    → Visits q (head_or xs 0) (map (λ x. x.1) xs)
unfolding dereference increment decrement differs end
Links-Visits before [] q l d = stop 0 refl
Links-Visits before ((p, v) ∷ []) q l d =
    visit p 0 v (rw (==_false p 0 d.0) refl) (rw (==_false p 0 d.0) (ap (λ r. ok r) l.0.2))
      (rw (==_false p 0 d.0) (ap (λ r. ok r) l.0.0)) (λ h. absurd (true≢false (sym h)))
      (stop 0 refl)
Links-Visits before ((p, v) ∷ (p', v') ∷ xs) q l d =
    visit p p' v (rw (==_false p 0 d.0) refl) (rw (==_false p 0 d.0) (ap (λ r. ok r) l.0.2))
      (rw (==_false p 0 d.0) (ap (λ r. ok r) l.0.0))
      (λ h. rw (==_false p' 0 d.2.0) (ap (λ r. ok r) l.1.0.1))
      (Links-Visits p ((p', v') ∷ xs) q l.1 d.2)

-- A loop from begin() until end() reads the elements of the list that the queue stands for, in
-- order, ends behind the last, and each step within it is undone by a step back.
pub begin-Visits : (xs : Nodes) (q : Queue) → IsQueue q xs → Visits q (begin q) (map (λ x. x.1) xs)
unfolding begin
begin-Visits xs q i =
    subst (λ a. Visits q a (map (λ x. x.1) xs)) (sym i.head)
      (Links-Visits 0 xs q i.links i.distinct)
