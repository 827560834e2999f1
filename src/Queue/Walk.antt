-- ===== src/Queue/Walk.antt =====
-- `GetAt` and `Remove(index)` reach the element at the index (libc/queue.h).
use another_os.Base.{ℕ, ◌≡◌, ◌∙◌, refl, ap, [], ◌∷◌, ◌++◌, length, ==_false, ok}
use another_os.Base.Links.{head_or, Links, Links-append_right}
use another_os.Queue.{Queue, walk, get_at, remove, remove_internal}
use another_os.Queue.Chains.{Nodes, NodeAt, Distinct, IsQueue, Distinct-right}
use another_os.Queue.Remove.{remove_internal-IsQueue}

walk_lem :
    (p v before : ℕ) (xs ys : Nodes) (q : Queue)
    → Links (NodeAt q) before (xs ++ (p, v) ∷ ys) 0
    → Distinct (xs ++ (p, v) ∷ ys)
    → walk (length xs) (head_or (xs ++ (p, v) ∷ ys) 0) q ≡ ok p
unfolding walk
walk_lem p v before [] ys q l d = refl
walk_lem p v before ((x, w) ∷ xs) ys q l d =
    rw (==_false x 0 d.0, l.0.0) (walk_lem p v x xs ys q l.1 d.2)

module _ (p v : ℕ) (xs ys : Nodes) (q : Queue) (i : IsQueue q (xs ++ (p, v) ∷ ys)) where
  reached : walk (length xs) q.head q ≡ ok p
  reached = ap (λ a. walk (length xs) a q) i.head ∙ walk_lem p v 0 xs ys q i.links i.distinct

  -- At an index inside the queue, `GetAt` returns the element there, and `Remove` takes it out of the
  -- list, deletes its node alone and leaves the others in order.
  pub remove-IsQueue :
      (get_at (length xs) q ≡ ok v)
      × (q' : Queue) × (remove (length xs) q ≡ ok q')
      × IsQueue q' (xs ++ ys)
      × (q'.deleted ≡ p ∷ q.deleted)
  unfolding get_at remove
  remove-IsQueue =
      let node = Links-append_right (NodeAt q) 0 xs ((p, v) ∷ ys) 0 i.links in
      let nonnull = Distinct-right xs ((p, v) ∷ ys) i.distinct in
      let (valid, deleted) = remove_internal-IsQueue p v xs ys q i in
      (
        rw (reached, ==_false p 0 nonnull.0) (ap (λ d. ok d) node.0.2),
        remove_internal p q,
        rw reached refl,
        valid,
        deleted,
      )
