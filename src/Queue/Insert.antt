-- ===== src/Queue/Insert.antt =====
-- `insertInternal`, `push_back` and `push_front` insert into the list (libc/queue.h).
use another_os.Base.{
  ℕ, ◌+◌, ◌≡◌, ◌≢◌, ◌∙◌, refl, sym, arith, true, false, [], ◌∷◌, ◌++◌, length-append, append-nil,
  if◌then◌else◌, ◌==◌, Bool-cases, inl, inr, ==_false,
}
use another_os.Base.Links.{
  head_or, last_or, last_or-append, Links-append, Links-append_left, Links-append_right,
}
use another_os.Queue.{Queue, set, new_node, insert_internal, push_back, push_front}
use another_os.Queue.Chains.{
  Distinct-left, Distinct-right, Distinct-append, Distinct-apart, has-other, left-nonnull,
  right-nonnull, left-head, right-last, last-nonnull, outside-head, outside-last, Nodes, NodeAt,
  has, Distinct, IsQueue, has-append, Links-successor, Links-predecessor,
}

pub set-same : (f : ℕ → ℕ) (a v : ℕ) → set f a v a ≡ v
unfolding set
set-same f a v = ground arith

pub set-other : (f : ℕ → ℕ) (a v b : ℕ) → a ≢ b → set f a v b ≡ f b
unfolding set
set-other f a v b h = ground arith

-- The queue after an insertion between `before` and `pos`, written out.
module _ (e pos n before : ℕ) (q : Queue) where
  abbrev inserted : Queue
  inserted = record q {
    size = q.size + 1;
    data_of = set q.data_of n e;
    next =
        if before == 0
        then set (set q.next n 0) n pos
        else set (set (set q.next n 0) n pos) before n;
    prev =
        if pos == 0
        then set (set q.prev n 0) n before
        else set (set (set q.prev n 0) n before) pos n;
    head = if before == 0 then n else q.head;
    tail = if pos == 0 then n else q.tail;
  }

  insert_internal-inserted :
      (if pos == 0 then q.tail else q.prev pos) ≡ before
      → n ≢ pos
      → insert_internal e pos n q ≡ inserted
  unfolding insert_internal new_node
  insert_internal-inserted linked other = elim (Bool-cases (pos == 0)) [
    | inl end ↦
        let last : q.tail ≡ before = ground (arith, end, linked) in
        rw (end, last, set-same (set q.prev n 0) n before)
          (elim (Bool-cases (before == 0)) [
            | inl first ↦ rw first refl
            | inr later ↦ rw later refl
          ])
    | inr inner ↦
        let last : set q.prev n 0 pos ≡ before =
          set-other q.prev n 0 pos other ∙ ground (arith, inner, linked) in
        let new : set (set (set q.prev n 0) n before) pos n n ≡ before =
          set-other _ pos n n (λ h. other (sym h)) ∙ set-same (set q.prev n 0) n before in
        rw (inner, last, new)
          (elim (Bool-cases (before == 0)) [
            | inl first ↦ rw first refl
            | inr later ↦ rw later refl
          ])
  ]

-- What stands on either side of the place between `xs` and `ys`.
linked_between :
    (xs ys : Nodes) (q : Queue)
    → IsQueue q (xs ++ ys)
    → (if head_or ys 0 == 0 then q.tail else q.prev (head_or ys 0)) ≡ last_or xs 0
linked_between xs [] q i = i.tail ∙ last_or-append xs [] 0
linked_between xs ((y, v) ∷ ys) q i =
    let there : (y == 0) ≡ false = ==_false y 0 (Distinct-right xs ((y, v) ∷ ys) i.distinct).0 in
    rw there (Links-append_right (NodeAt q) 0 xs ((y, v) ∷ ys) 0 i.links).0.1

head_after :
    (e n : ℕ) (xs ys : Nodes) {h : ℕ}
    → Distinct (xs ++ ys)
    → h ≡ head_or (xs ++ ys) 0
    → (if last_or xs 0 == 0 then n else h) ≡ head_or (xs ++ (n, e) ∷ ys) 0
head_after e n [] ys u s = refl
head_after e n (x ∷ xs) ys u s =
    rw (==_false (last_or (x ∷ xs) 0) 0 (last-nonnull x xs 0 (Distinct-left (x ∷ xs) ys u))) s

tail_after :
    (e n : ℕ) (xs ys : Nodes) {t : ℕ}
    → Distinct (xs ++ ys)
    → t ≡ last_or (xs ++ ys) 0
    → (if head_or ys 0 == 0 then n else t) ≡ last_or (xs ++ (n, e) ∷ ys) 0
tail_after e n xs [] u s = sym (last_or-append xs ((n, e) ∷ []) 0)
tail_after e n xs (y ∷ ys) u s =
    rw (==_false (y.0) 0 (Distinct-right xs (y ∷ ys) u).0)
      (s ∙ last_or-append xs (y ∷ ys) 0 ∙ sym (last_or-append xs ((n, e) ∷ y ∷ ys) 0))

-- An insertion at the first node of `ys`, or at the end, puts the new node in front of `ys`; the node
-- is not null and not in use.
module _ (e n : ℕ) (xs ys : Nodes) (q : Queue) (i : IsQueue q (xs ++ ys)) (nonnull : n ≢ 0)
    (fresh : has n (xs ++ ys) ≡ false) where
  abbrev after : Queue
  after = inserted e (head_or ys 0) n (last_or xs 0) q

  out_left : has n xs ≡ false
  out_left = ground (arith, fresh, has-append n xs ys)

  out_right : has n ys ≡ false
  out_right = ground (arith, fresh, has-append n xs ys)

  not_head : n ≢ head_or ys 0
  not_head = outside-head n ys nonnull out_right

  same_left :
      (p : ℕ)
      → has p xs ≡ true
      → (after.next p ≡ (if p == last_or xs 0 then n else q.next p))
        × (after.prev p ≡ q.prev p)
        × (after.data_of p ≡ q.data_of p)
  unfolding set
  same_left p h =
      let a = has-other p n xs h out_left in
      let b = left-head p xs ys i.distinct h in
      let c = left-nonnull p xs ys i.distinct h in
      (ground (arith, a, c), ground (arith, a, b), ground (arith, a))

  same_right :
      (p : ℕ)
      → has p ys ≡ true
      → (after.next p ≡ q.next p)
        × (after.prev p ≡ (if p == head_or ys 0 then n else q.prev p))
        × (after.data_of p ≡ q.data_of p)
  unfolding set
  same_right p h =
      let a = has-other p n ys h out_right in
      let b = right-last p xs ys i.distinct h in
      let c = right-nonnull p xs ys i.distinct h in
      (ground (arith, a, b), ground (arith, a, c), ground (arith, a))

  node : NodeAt after n (head_or ys 0) (last_or xs 0) e
  unfolding set
  node =
      (ground (arith, outside-last n xs nonnull out_left), ground (arith, not_head), ground arith)

  pub insert_internal-IsQueue : IsQueue (insert_internal e (head_or ys 0) n q) (xs ++ (n, e) ∷ ys)
  insert_internal-IsQueue =
      rw
        (insert_internal-inserted e (head_or ys 0) n (last_or xs 0) q (linked_between xs ys q i)
          not_head)
        (record {
          links =
              Links-append (NodeAt after) 0 xs ((n, e) ∷ ys) 0
                (Links-successor q after xs 0 (head_or ys 0) n 0 (Distinct-left xs ys i.distinct)
                  same_left (Links-append_left (NodeAt q) 0 xs ys 0 i.links))
                (
                  node,
                  Links-predecessor q after ys (last_or xs 0) n 0 (Distinct-right xs ys i.distinct)
                      same_right (Links-append_right (NodeAt q) 0 xs ys 0 i.links),
                );
          distinct =
              Distinct-append xs ((n, e) ∷ ys) (Distinct-left xs ys i.distinct)
                (nonnull, out_right, Distinct-right xs ys i.distinct)
                (λ p h.
                  ground (arith, has-other p n xs h out_left, Distinct-apart xs ys i.distinct p h));
          head = head_after e n xs ys i.distinct i.head;
          tail = tail_after e n xs ys i.distinct i.tail;
          size = omega (arith, i.size, length-append xs ys, length-append xs ((n, e) ∷ ys));
        })

-- `push_back` puts the element behind the others and `push_front` before them, in a node that is not
-- null and not in use.
pub push-IsQueue :
    (e n : ℕ) (xs : Nodes) (q : Queue)
    → IsQueue q xs
    → n ≢ 0
    → has n xs ≡ false
    → IsQueue (push_back e n q) (xs ++ (n, e) ∷ []) × IsQueue (push_front e n q) ((n, e) ∷ xs)
unfolding push_back push_front
push-IsQueue e n xs q i nonnull fresh =
    let no_more = append-nil xs in
    let insert_at : (pos : ℕ)
        → pos ≡ head_or xs 0
        → IsQueue (insert_internal e pos n q) ((n, e) ∷ xs) =
      λ pos h. rw h (insert_internal-IsQueue e n [] xs q i nonnull fresh) in
    (
      insert_internal-IsQueue e n xs [] q (rw no_more i) nonnull (rw no_more fresh),
      insert_at q.head i.head,
    )
