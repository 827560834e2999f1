-- ===== src/Queue/Remove.antt =====
-- `removeInternal` takes a node out of the list (libc/queue.h).
use another_os.Base.{
  ℕ, ◌-◌, ◌≡◌, ◌≢◌, refl, sym, ap, arith, true, false, [], ◌∷◌, ◌++◌, length-append, if◌then◌else◌,
  ◌==◌, Bool-cases, inl, inr, ==_refl, ==_false,
}
use another_os.Base.Links.{
  head_or, last_or, Links, last_or-append, Links-append, Links-append_left, Links-append_right,
}
use another_os.Queue.{Queue, set, remove_internal, bypass, drop_node}
use another_os.Queue.Insert.{set-other}
use another_os.Queue.Chains.{
  Distinct-left, Distinct-right, Distinct-append, Distinct-apart, left-nonnull, right-nonnull,
  left-head, right-last, last-other, outside-head, outside-last, Distinct-apart_right, Nodes,
  NodeAt, has, Distinct, IsQueue, Links-successor, Links-predecessor,
}

-- The queue after the neighbours `before` and `behind` of the node at `p` are linked to each other.
module _ (p before behind : ℕ) (q : Queue) where
  abbrev bypassed : Queue
  bypassed = record q {
    next = if before == 0 then q.next else set q.next before behind;
    prev = if behind == 0 then q.prev else set q.prev behind before;
  }

  bypass-bypassed : q.prev p ≡ before → q.next p ≡ behind → before ≢ p → bypass p q ≡ bypassed
  unfolding bypass
  bypass-bypassed b a nb = rw b (elim (Bool-cases (before == 0)) [
    | inl first ↦
        rw (first, a, b)
          (elim (Bool-cases (behind == 0)) [ inl last ↦ rw last refl | inr inner ↦ rw inner refl ])
    | inr later ↦
        rw (later, a, set-other q.next before behind p nb, a, b)
          (elim (Bool-cases (behind == 0)) [ inl last ↦ rw last refl | inr inner ↦ rw inner refl ])
  ])

-- What is left to do, written out.
abbrev dropped : ℕ → Queue → Queue
dropped p q = record q {
  head = if p == q.head then q.next p else q.head;
  tail = if p == q.tail then q.prev p else q.tail;
  deleted = p ∷ q.deleted;
  size = q.size - 1;
}

drop_node-dropped : (p : ℕ) (q : Queue) → drop_node p q ≡ dropped p q
unfolding drop_node
drop_node-dropped p q = elim (Bool-cases (p == q.head)) [
  | inl h ↦ rw h (elim (Bool-cases (p == q.tail)) [ inl t ↦ rw t refl | inr t ↦ rw t refl ])
  | inr h ↦ rw h (elim (Bool-cases (p == q.tail)) [ inl t ↦ rw t refl | inr t ↦ rw t refl ])
]

head_without :
    (p v : ℕ) (xs ys : Nodes) {h : ℕ}
    → has p xs ≡ false
    → h ≡ head_or (xs ++ (p, v) ∷ ys) 0
    → (if p == h then head_or ys 0 else h) ≡ head_or (xs ++ ys) 0
head_without p v [] ys out e = rw (e, ==_refl p) refl
head_without p v ((x, w) ∷ xs) ys out e =
    let other : (p == x) ≡ false = ground (arith, out) in rw (e, other) refl

tail_without :
    (p v : ℕ) (xs ys : Nodes) {t : ℕ}
    → has p ys ≡ false
    → t ≡ last_or (xs ++ (p, v) ∷ ys) 0
    → (if p == t then last_or xs 0 else t) ≡ last_or (xs ++ ys) 0
tail_without p v xs [] out e =
    let last : last_or (xs ++ (p, v) ∷ []) 0 ≡ p = last_or-append xs ((p, v) ∷ []) 0 in
    rw (e, last, ==_refl p) (sym (last_or-append xs [] 0))
tail_without p v xs (y ∷ ys) out e =
    let last : last_or (xs ++ (p, v) ∷ y ∷ ys) 0 ≡ last_or ys (y.0) =
      last_or-append xs ((p, v) ∷ y ∷ ys) 0 in
    let other : (p == last_or ys (y.0)) ≡ false = last-other p y ys p out in
    rw (e, last, other) (sym (last_or-append xs (y ∷ ys) 0))

module _ (p v : ℕ) (xs ys : Nodes) (q : Queue) (i : IsQueue q (xs ++ (p, v) ∷ ys)) where
  abbrev after : Queue
  after = dropped p (bypassed p (last_or xs 0) (head_or ys 0) q)

  here : Distinct ((p, v) ∷ ys)
  here = Distinct-right xs ((p, v) ∷ ys) i.distinct

  rest : Links (NodeAt q) (last_or xs 0) ((p, v) ∷ ys) 0
  rest = Links-append_right (NodeAt q) 0 xs ((p, v) ∷ ys) 0 i.links

  out_left : has p xs ≡ false
  out_left = Distinct-apart_right xs ((p, v) ∷ ys) i.distinct p (ground arith)

  not_last : last_or xs 0 ≢ p
  not_last e = outside-last p xs here.0 out_left (sym e)

  not_head : head_or ys 0 ≢ p
  not_head e = outside-head p ys here.0 here.1 (sym e)

  still-Distinct : Distinct (xs ++ ys)
  still-Distinct =
      Distinct-append xs ys (Distinct-left xs ((p, v) ∷ ys) i.distinct) here.2
        (λ r h. ground (arith, Distinct-apart xs ((p, v) ∷ ys) i.distinct r h))

  same_left :
      (r : ℕ)
      → has r xs ≡ true
      → (after.next r ≡ (if r == last_or xs 0 then head_or ys 0 else q.next r))
        × (after.prev r ≡ q.prev r)
        × (after.data_of r ≡ q.data_of r)
  unfolding set
  same_left r h =
      let a = left-head r xs ys still-Distinct h in
      let c = left-nonnull r xs ys still-Distinct h in (ground (arith, c), ground (arith, a), refl)

  same_right :
      (r : ℕ)
      → has r ys ≡ true
      → (after.next r ≡ q.next r)
        × (after.prev r ≡ (if r == head_or ys 0 then last_or xs 0 else q.prev r))
        × (after.data_of r ≡ q.data_of r)
  unfolding set
  same_right r h =
      let a = right-last r xs ys still-Distinct h in
      let c = right-nonnull r xs ys still-Distinct h in (ground (arith, a), ground (arith, c), refl)

  next_read : (bypassed p (last_or xs 0) (head_or ys 0) q).next p ≡ head_or ys 0
  unfolding set
  next_read = ground (arith, not_last, rest.0.0)

  prev_read : (bypassed p (last_or xs 0) (head_or ys 0) q).prev p ≡ last_or xs 0
  unfolding set
  prev_read = ground (arith, not_head, rest.0.1)

  removed : remove_internal p q ≡ after
  unfolding remove_internal
  removed =
      rw
        (
          ==_false p 0 here.0,
          bypass-bypassed p (last_or xs 0) (head_or ys 0) q rest.0.1 rest.0.0 not_last,
        )
        (drop_node-dropped p _)

  after-IsQueue : IsQueue after (xs ++ ys)
  after-IsQueue = record {
    links =
        Links-append (NodeAt after) 0 xs ys 0
          (Links-successor q after xs 0 p (head_or ys 0) 0
            (Distinct-left xs ((p, v) ∷ ys) i.distinct) same_left
            (Links-append_left (NodeAt q) 0 xs ((p, v) ∷ ys) 0 i.links))
          (Links-predecessor q after ys p (last_or xs 0) 0 here.2 same_right rest.1);
    distinct = still-Distinct;
    head = rw next_read (head_without p v xs ys out_left i.head);
    tail = rw prev_read (tail_without p v xs ys here.1 i.tail);
    size = omega (arith, i.size, length-append xs ((p, v) ∷ ys), length-append xs ys);
  }

  -- `removeInternal` of a node of the queue takes its element out of the list, leaves the others in
  -- order, and deletes that node alone.
  pub remove_internal-IsQueue :
      IsQueue (remove_internal p q) (xs ++ ys) × ((remove_internal p q).deleted ≡ p ∷ q.deleted)
  remove_internal-IsQueue = (rw removed after-IsQueue, ap (λ r. r.deleted) removed)
