-- ===== src/Queue/Chains.antt =====
-- The chain of nodes of a queue (libc/queue.h): the list that it stands for.
use another_os.Base.{
  ℕ, ◌≡◌, ◌≢◌, ◌∙◌, refl, sym, ap, arith, Bool, true, false, ◌||◌, List, [], ◌∷◌, ◌++◌, length,
  if◌then◌else◌, ◌==◌, ==_iff, Bool-cases, inl, inr,
}
use mathlib.Core.Bool.{true≢false}
use another_os.Base.Links.{head_or, last_or, Links}
use another_os.Queue.{Queue}

abbrev pub Nodes : Type 0
Nodes = List (ℕ × ℕ)

-- The node at `p`.
abbrev pub NodeAt : Queue → ℕ → ℕ → ℕ → ℕ → Type 0
NodeAt q p next prev v = (q.next p ≡ next) × (q.prev p ≡ prev) × (q.data_of p ≡ v)

abbrev pub has : ℕ → Nodes → Bool
has a [] = false
has a ((p, v) ∷ xs) = (p == a) || has a xs

-- No node is the null pointer or occurs twice.
abbrev pub Distinct : Nodes → Type 0
Distinct [] = Unit
Distinct ((p, v) ∷ xs) = (p ≢ 0) × (has p xs ≡ false) × Distinct xs

-- The queue stands for the list of its nodes, each with its element.
pub record IsQueue (q : Queue) (xs : Nodes) : Type 0 where
  pub links : Links (NodeAt q) 0 xs 0
  pub distinct : Distinct xs
  pub head : q.head ≡ head_or xs 0
  pub tail : q.tail ≡ last_or xs 0
  pub size : q.size ≡ length xs

pub has-append : (a : ℕ) (xs ys : Nodes) → has a (xs ++ ys) ≡ (has a xs || has a ys)
has-append a [] ys = refl
has-append a ((p, v) ∷ xs) ys = ground (arith, has-append a xs ys)

pub has-last : (x : ℕ × ℕ) (xs : Nodes) (d : ℕ) → has (last_or (x ∷ xs) d) (x ∷ xs) ≡ true
has-last (p, v) [] d = ground arith
has-last (p, v) (y ∷ xs) d = ground (arith, has-last y xs p)

pub last-other :
    (a : ℕ) (x : ℕ × ℕ) (xs : Nodes) (d : ℕ)
    → has a (x ∷ xs) ≡ false
    → (a == last_or (x ∷ xs) d) ≡ false
last-other a x xs d h = elim (Bool-cases (a == last_or (x ∷ xs) d)) [
  | inl e ↦
      let there : has a (x ∷ xs) ≡ true =
        ap (λ b. has b (x ∷ xs)) ((==_iff a (last_or (x ∷ xs) d)).0 e) ∙ has-last x xs d in
      absurd (true≢false (sym there ∙ h))
  | inr e ↦ e
]

pub has-zero : (xs : Nodes) → Distinct xs → has 0 xs ≡ false
has-zero [] d = refl
has-zero ((p, v) ∷ xs) d = ground (arith, d.0, has-zero xs d.2)

module _ (q q' : Queue) where
  -- A chain survives a change elsewhere.
  pub Links-frame :
      (xs : Nodes) (before after : ℕ)
      → ((p : ℕ)
          → has p xs ≡ true
          → (q'.next p ≡ q.next p) × (q'.prev p ≡ q.prev p) × (q'.data_of p ≡ q.data_of p))
      → Links (NodeAt q) before xs after
      → Links (NodeAt q') before xs after
  Links-frame [] before after same l = tt
  Links-frame ((p, v) ∷ xs) before after same l =
      let (n, r, d) = same p (ground arith) in
      let ((n', r', d'), rest) = l in
      ((n ∙ n', r ∙ r', d ∙ d'), Links-frame xs p after (λ a h. same a (ground (arith, h))) rest)

  -- A new successor for the last node of a chain.
  pub Links-successor :
      (xs : Nodes) (before after after' d : ℕ)
      → Distinct xs
      → ((p : ℕ)
          → has p xs ≡ true
          → (q'.next p ≡ (if p == last_or xs d then after' else q.next p))
            × (q'.prev p ≡ q.prev p)
            × (q'.data_of p ≡ q.data_of p))
      → Links (NodeAt q) before xs after
      → Links (NodeAt q') before xs after'
  Links-successor [] before after after' d u same l = tt
  Links-successor ((p, v) ∷ []) before after after' d u same l =
      let (n, r, e) = same p (ground arith) in
      let (n', r', e') = l.0 in ((ground (arith, n), r ∙ r', e ∙ e'), tt)
  Links-successor ((p, v) ∷ x ∷ xs) before after after' d u same l =
      let (n, r, e) = same p (ground arith) in
      let ((n', r', e'), rest) = l in
      (
        (n ∙ rw (last-other p x xs p u.1) n', r ∙ r', e ∙ e'),
        Links-successor (x ∷ xs) p after after' p u.2 (λ a h. same a (ground (arith, h))) rest,
      )

  -- A new predecessor for the first one.
  pub Links-predecessor :
      (xs : Nodes) (before before' after : ℕ)
      → Distinct xs
      → ((p : ℕ)
          → has p xs ≡ true
          → (q'.next p ≡ q.next p)
            × (q'.prev p ≡ (if p == head_or xs 0 then before' else q.prev p))
            × (q'.data_of p ≡ q.data_of p))
      → Links (NodeAt q) before xs after
      → Links (NodeAt q') before' xs after
  Links-predecessor [] before before' after u same l = tt
  Links-predecessor ((p, v) ∷ xs) before before' after u same l =
      let (n, r, e) = same p (ground arith) in
      let ((n', r', e'), rest) = l in
      (
        (n ∙ n', ground (arith, r), e ∙ e'),
        Links-frame xs p after
            (λ a h. let (n, r, e) = same a (ground (arith, h)) in (n, ground (arith, r, h, u.1), e))
            rest,
      )

pub last-nonnull : (x : ℕ × ℕ) (xs : Nodes) (d : ℕ) → Distinct (x ∷ xs) → last_or (x ∷ xs) d ≢ 0
last-nonnull x xs d u h =
    absurd
      (true≢false (sym (ap (λ b. has b (x ∷ xs)) (sym h) ∙ has-last x xs d) ∙ has-zero (x ∷ xs) u))

pub Distinct-append :
    (xs ys : Nodes)
    → Distinct xs
    → Distinct ys
    → ((p : ℕ) → has p xs ≡ true → has p ys ≡ false)
    → Distinct (xs ++ ys)
Distinct-append [] ys u w apart = w
Distinct-append ((p, v) ∷ xs) ys u w apart = (
  u.0,
  ground (arith, has-append p xs ys, u.1, apart p (ground arith)),
  Distinct-append xs ys u.2 w (λ a h. apart a (ground (arith, h))),
)

pub Distinct-left : (xs ys : Nodes) → Distinct (xs ++ ys) → Distinct xs
Distinct-left [] ys u = tt
Distinct-left ((p, v) ∷ xs) ys u =
    (u.0, ground (arith, has-append p xs ys, u.1), Distinct-left xs ys u.2)

pub Distinct-right : (xs ys : Nodes) → Distinct (xs ++ ys) → Distinct ys
Distinct-right [] ys u = u
Distinct-right ((p, v) ∷ xs) ys u = Distinct-right xs ys u.2

pub Distinct-apart :
    (xs ys : Nodes) → Distinct (xs ++ ys) → (p : ℕ) → has p xs ≡ true → has p ys ≡ false
Distinct-apart [] ys u p h = absurd (true≢false (sym h))
Distinct-apart ((a, v) ∷ xs) ys u p h = elim (Bool-cases (a == p)) [
  | inl e ↦
      let there : has p (xs ++ ys) ≡ false =
        ap (λ b. has b (xs ++ ys)) (sym ((==_iff a p).0 e)) ∙ u.1 in
      ground (arith, has-append p xs ys, there)
  | inr e ↦ Distinct-apart xs ys u.2 p (ground (arith, e, h))
]

pub has-other : (a b : ℕ) (xs : Nodes) → has a xs ≡ true → has b xs ≡ false → a ≢ b
has-other a b xs h k e = absurd (true≢false (sym h ∙ ap (λ c. has c xs) e ∙ k))

module _ (p : ℕ) (xs ys : Nodes) (u : Distinct (xs ++ ys)) where
  pub left-nonnull : has p xs ≡ true → p ≢ 0
  left-nonnull h = has-other p 0 xs h (has-zero xs (Distinct-left xs ys u))

  pub right-nonnull : has p ys ≡ true → p ≢ 0
  right-nonnull h = has-other p 0 ys h (has-zero ys (Distinct-right xs ys u))

pub outside-head : (p : ℕ) (ys : Nodes) → p ≢ 0 → has p ys ≡ false → p ≢ head_or ys 0
outside-head p [] u h = u
outside-head p ((y, v) ∷ ys) u h = ground (arith, h)

pub outside-last : (p : ℕ) (xs : Nodes) → p ≢ 0 → has p xs ≡ false → p ≢ last_or xs 0
outside-last p [] u h e = u e
outside-last p (x ∷ xs) u h e = absurd (has-other _ p (x ∷ xs) (has-last x xs 0) h (sym e))

pub Distinct-apart_right :
    (xs ys : Nodes) → Distinct (xs ++ ys) → (p : ℕ) → has p ys ≡ true → has p xs ≡ false
Distinct-apart_right xs ys u p h = elim (Bool-cases (has p xs)) [
  | inl e ↦ absurd (true≢false (sym h ∙ Distinct-apart xs ys u p e))
  | inr e ↦ e
]

module _ (p : ℕ) (xs ys : Nodes) (u : Distinct (xs ++ ys)) where
  pub left-head : has p xs ≡ true → p ≢ head_or ys 0
  left-head h = outside-head p ys (left-nonnull p xs ys u h) (Distinct-apart xs ys u p h)

  pub right-last : has p ys ≡ true → p ≢ last_or xs 0
  right-last h = outside-last p xs (right-nonnull p xs ys u h) (Distinct-apart_right xs ys u p h)
