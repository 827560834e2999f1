-- ===== src/Base/Links.antt =====
-- Doubly linked chains, over whatever store holds the nodes: `At p next prev v` says that the node
-- at `p` holds `v` and the two pointers. The list of addresses and contents is the abstract view.
use Prim.Native.Nat.{ℕ}
use mathlib.Core.Path.{◌≡◌, refl}
use mathlib.Core.Logic.{◌≢◌}
use mathlib.Core.List.{List, [], ◌∷◌, ◌++◌}

module _ {V : Type 0} where
  -- The first address, or `d` where there is none.
  abbrev pub head_or : List (ℕ × V) → ℕ → ℕ
  head_or [] d = d
  head_or ((p, _) ∷ xs) d = p

  abbrev pub last_or : List (ℕ × V) → ℕ → ℕ
  last_or [] d = d
  last_or ((p, _) ∷ xs) d = last_or xs p

  pub head_or-append :
      (xs ys : List (ℕ × V)) (d : ℕ) → head_or (xs ++ ys) d ≡ head_or xs (head_or ys d)
  head_or-append [] ys d = refl
  head_or-append (x ∷ xs) ys d = refl

  pub last_or-append :
      (xs ys : List (ℕ × V)) (d : ℕ) → last_or (xs ++ ys) d ≡ last_or ys (last_or xs d)
  last_or-append [] ys d = refl
  last_or-append ((p, _) ∷ xs) ys d = last_or-append xs ys p

module _ {V : Type 0} where
  pub head_or-cons : (ys : List (ℕ × V)) (d d' : ℕ) → ys ≢ [] → head_or ys d ≡ head_or ys d'
  head_or-cons [] d d' h = absurd (h refl)
  head_or-cons (y ∷ ys) d d' h = refl

  pub head_or-ne_default :
      (ys : List (ℕ × V)) (d d' : ℕ) → head_or ys d ≢ d → head_or ys d ≡ head_or ys d'
  head_or-ne_default [] d d' h = absurd (h refl)
  head_or-ne_default (y ∷ ys) d d' h = refl

module _ {V : Type 0} (At : ℕ → ℕ → ℕ → V → Type 0) where
  abbrev pub Links : ℕ → List (ℕ × V) → ℕ → Type 0
  Links before [] after = Unit
  Links before ((p, v) ∷ xs) after = At p (head_or xs after) before v × Links p xs after

  pub Links-append_left :
      (before : ℕ) (xs ys : List (ℕ × V)) (after : ℕ)
      → Links before (xs ++ ys) after
      → Links before xs (head_or ys after)
  Links-append_left before [] ys after h = tt
  Links-append_left before ((p, v) ∷ []) ys after h = (h.0, tt)
  Links-append_left before ((p, v) ∷ x ∷ xs) ys after h =
      (h.0, Links-append_left p (x ∷ xs) ys after h.1)

  pub Links-append_right :
      (before : ℕ) (xs ys : List (ℕ × V)) (after : ℕ)
      → Links before (xs ++ ys) after
      → Links (last_or xs before) ys after
  Links-append_right before [] ys after h = h
  Links-append_right before ((p, v) ∷ xs) ys after h = Links-append_right p xs ys after h.1

  pub Links-append :
      (before : ℕ) (xs ys : List (ℕ × V)) (after : ℕ)
      → Links before xs (head_or ys after)
      → Links (last_or xs before) ys after
      → Links before (xs ++ ys) after
  Links-append before [] ys after h k = k
  Links-append before ((p, v) ∷ []) ys after h k = (h.0, k)
  Links-append before ((p, v) ∷ x ∷ xs) ys after h k = (h.0, Links-append p (x ∷ xs) ys after h.1 k)
