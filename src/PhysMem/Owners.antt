-- ===== src/PhysMem/Owners.antt =====
-- Blocks that are taken and given back in any order
-- (`AllocateBlock` and `FreeBlocks` of src/arch/x86/mem/phymem.cpp).
use mathlib.Core.Path.{subst}
use another_os.Base.{
  ℕ, ◌*◌, ◌/◌, ◌%◌, ◌^◌, ◌≤◌, ◌<◌, ◌≡◌, ◌≢◌, ◌∙◌, ◌⊎◌, inl, inr, sym, ap, arith, List, [], ◌∷◌,
  ◌++◌, All, All-append, All-append_left, All-append_right,
}
use another_os.PhysMem.{PhysicalMem, block_size, free_blocks, allocate_block, release_blocks}
use another_os.PhysMem.Bitmap.{used}
use another_os.PhysMem.Ranges.{used-unset_run}
use another_os.PhysMem.Allocate.{Taken, allocate_block_lem, allocate_block-exhausted}
use native.Mathlib.Decide.{ℕ_discrete as dec_eq}

-- The addresses that have been given out and not given back, the last one first.
pub data Live : PhysicalMem → List ℕ → Type 0 where
  start : (s : PhysicalMem) → s.maximum_blocks ≤ 2 ^ 15 → Live s []
  allocate :
      {s : PhysicalMem} {live : List ℕ}
      → Live s live
      → (p : ℕ) (s' : PhysicalMem) → allocate_block s ≡ (p, s')
      → p ≢ 0
      → Live s' (p ∷ live)
  refuse :
      {s : PhysicalMem} {live : List ℕ}
      → Live s live
      → (s' : PhysicalMem) → allocate_block s ≡ (0, s')
      → Live s' live
  release :
      (front behind : List ℕ) (p : ℕ) {s : PhysicalMem} {live : List ℕ}
      → Live s live
      → live ≡ front ++ p ∷ behind
      → Live (release_blocks p 1 s) (front ++ behind)

-- The address of a block, which is marked.
abbrev pub Marked : PhysicalMem → ℕ → Type 0
Marked s p = (p % block_size ≡ 0) × (p < 2 ^ 32) × (used s.words (p / block_size) ≡ 1)

abbrev pub Distinct : List ℕ → Type 0
Distinct [] = Unit
Distinct (p ∷ ps) = All (λ q. q ≢ p) ps × Distinct ps

pub record Owned (s : PhysicalMem) (live : List ℕ) : Type 0 where
  pub small : s.maximum_blocks ≤ 2 ^ 15
  pub distinct : Distinct live
  pub marked : All (Marked s) live

All-map {ℓ} :
    {A : Type 0} (P Q : A → Type ℓ) (xs : List A) → ((x : A) → P x → Q x) → All P xs → All Q xs
All-map P Q [] f h = tt
All-map P Q (x ∷ xs) f h = (f x h.0, All-map P Q xs f h.1)

-- The block that was taken was clear, so it is none of those.
module _ (s : PhysicalMem) (live : List ℕ) (p : ℕ) (s' : PhysicalMem) (o : Owned s live) (f : ℕ)
    (t : Taken s (s.maximum_blocks * 32) f (p, s')) where
  address : p ≡ f * block_size
  address = omega (arith, t.address, t.inside, o.small)

  other : (q : ℕ) → Marked s q → (q ≢ p) × Marked s' q
  other q m = (
    λ e.
        let same : q / block_size ≡ f = omega (arith, address, e) in
        ground (arith, ap (used s.words) same, m.2, t.was_clear),
    (m.0, m.1, ground (arith, t.marks (q / block_size), m.2)),
  )

  taken-Owned : Owned s' (p ∷ live)
  taken-Owned =
      let block : p / block_size ≡ f = omega (arith, address) in
      record {
        small = omega (arith, t.maximum, o.small);
        distinct =
            (All-map (Marked s) (λ q. q ≢ p) live (λ q m. (other q m).0) o.marked, o.distinct);
        marked = (
          (
            omega (arith, address),
            omega (arith, address, t.inside, o.small),
            ground (arith, ap (used s'.words) block, t.marks f),
          ),
          All-map (Marked s) (Marked s') live (λ q m. (other q m).1) o.marked,
        );
      }

Distinct-mid :
    (front behind : List ℕ) (p : ℕ)
    → Distinct (front ++ p ∷ behind)
    → All (λ q. q ≢ p) (front ++ behind) × Distinct (front ++ behind)
Distinct-mid [] behind p h = h
Distinct-mid (a ∷ front) behind p h =
    let (apart, rest) = Distinct-mid front behind p h.1 in
    let others = All-append_right (λ q. q ≢ a) front (p ∷ behind) h.0 in
    (
      ((λ e. others.0 (sym e)), apart),
      (
        All-append (λ q. q ≢ a) front behind (All-append_left (λ q. q ≢ a) front (p ∷ behind) h.0)
            others.1,
        rest,
      ),
    )

release-Marked :
    (s : PhysicalMem) (p q : ℕ) → Marked s p → Marked s q → q ≢ p → Marked (release_blocks p 1 s) q
unfolding release_blocks
release-Marked s p q mp mq d =
    let apart : q / block_size ≢ p / block_size = λ e. omega (arith, e, mp.0, mq.0, d) in
    (
      mq.0,
      mq.1,
      ground (
        arith,
        used-unset_run 1 (p / block_size) (q / block_size) s.words (omega (arith, mp.1)),
        mq.2,
        apart,
      ),
    )

All-both :
    (s : PhysicalMem) (p : ℕ) (qs : List ℕ)
    → Marked s p
    → All (Marked s) qs
    → All (λ q. q ≢ p) qs
    → All (Marked (release_blocks p 1 s)) qs
All-both s p [] mp m d = tt
All-both s p (q ∷ qs) mp m d = (release-Marked s p q mp m.0 d.0, All-both s p qs mp m.1 d.1)

released :
    (front behind : List ℕ) (p : ℕ) (s : PhysicalMem)
    → Owned s (front ++ p ∷ behind)
    → Owned (release_blocks p 1 s) (front ++ behind)
unfolding release_blocks
released front behind p s o =
    let (apart, distinct) = Distinct-mid front behind p o.distinct in
    let here = All-append_right (Marked s) front (p ∷ behind) o.marked in
    let others =
      All-append (Marked s) front behind (All-append_left (Marked s) front (p ∷ behind) o.marked)
        here.1 in
    record {
      small = o.small;
      distinct = distinct;
      marked = All-both s p (front ++ behind) here.0 others apart;
    }

null_not_taken :
    (s : PhysicalMem) (p : ℕ) (s' : PhysicalMem)
    → allocate_block s ≡ (0, s)
    → allocate_block s ≡ (p, s')
    → (0 ≡ p) × (s ≡ s')
null_not_taken s p s' e h =
    let same : (0, s) ≡ (p, s') = sym e ∙ h in (ap (λ r. r.0) same, ap (λ r. r.1) same)

-- A call gives a block, or null and leaves everything.
allocate-cases :
    (s : PhysicalMem) (live : List ℕ) (p : ℕ) (s' : PhysicalMem)
    → Owned s live
    → allocate_block s ≡ (p, s')
    → Owned s' (p ∷ live) ⊎ ((0 ≡ p) × (s ≡ s'))
allocate-cases s live p s' o e = elim (dec_eq (free_blocks s) 0) [
  | yes none ↦ inr (null_not_taken s p s' (allocate_block-exhausted s none) e)
  | no some ↦ elim (allocate_block_lem s (omega (arith, o.small)) some) [
    | inl (f, t) ↦ inl (taken-Owned s live p s' o f (subst (Taken s (s.maximum_blocks * 32) f) e t))
    | inr (null, all) ↦ inr (null_not_taken s p s' null e)
  ]
]

tail_Owned : (s : PhysicalMem) (p : ℕ) (live : List ℕ) → Owned s (p ∷ live) → Owned s live
tail_Owned s p live o = record { small = o.small; distinct = o.distinct.1; marked = o.marked.1 }

-- With at most 2^15 words of the bitmap searched: the addresses that AllocateBlock gave out and
-- that were not given back, in whatever order the two were called, are multiples of the block
-- size, pairwise different, and their blocks are marked. What a refused call leaves is such a
-- state too.
pub Live-Owned : {s : PhysicalMem} {live : List ℕ} → Live s live → Owned s live
Live-Owned (start s small) = record { small = small; distinct = tt; marked = tt }
Live-Owned (allocate {s} {live} l p s' e given) =
    elim (allocate-cases s live p s' (Live-Owned l) e) [
      | inl o ↦ o
      | inr (null, same) ↦ absurd (given (sym null))
    ]
Live-Owned (refuse {s} {live} l s' e) = elim (allocate-cases s live 0 s' (Live-Owned l) e) [
  | inl o ↦ tail_Owned s' 0 live o
  | inr (null, same) ↦ subst (λ s. Owned s live) same (Live-Owned l)
]
Live-Owned (release front behind p {s} l e) =
    released front behind p s (subst (Owned s) e (Live-Owned l))
