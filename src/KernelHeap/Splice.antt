-- ===== src/KernelHeap/Splice.antt =====
-- Replacing blocks in the middle of a chain: what a write does to the blocks before and behind.
use another_os.Base.{
  ℕ, ◌+◌, ◌≤◌, ◌<◌, ◌≡◌, ◌≢◌, ◌⊎◌, inl, inr, refl, ◌∙◌, [], ◌∷◌, ◌++◌, arith, All,
}
use another_os.Base.Links.{Links-append, head_or, last_or}
use another_os.KernelHeap.{Mem}
use another_os.KernelHeap.Header
use another_os.KernelHeap.Header.{header_size}
use another_os.KernelHeap.Blocks.{
  Blocks, HeaderAt, Tiled, Tiled-le, Chain, Chain-frame, finish, PayloadKept, Clear,
}

-- `m'` differs from `m` at most in `[p, e)` and in the `prev` field of the block behind.
abbrev pub SameBeside : Mem → Mem → ℕ → ℕ → Blocks → ℕ → Type 0
SameBeside m m' p e ys hi =
    (a : ℕ) → a < hi → (a < p) ⊎ (e ≤ a) → a ≢ Header.prev (head_or ys hi) → m' a ≡ m a

pub le-head : (e : ℕ) (ys : Blocks) (hi : ℕ) → Tiled e ys hi → e ≤ head_or ys hi
le-head e [] hi t = t
le-head e ((p, b) ∷ ys) hi t = t.0

-- The blocks behind stay linked when the first of them gets a new `prev`.
pub relink :
    (m m' : Mem) (before before' e : ℕ) (ys : Blocks) (hi : ℕ)
    → Tiled e ys hi
    → ((a : ℕ) → e ≤ a → a < hi → a ≢ Header.prev (head_or ys hi) → m' a ≡ m a)
    → (ys ≢ [] → m' (Header.prev (head_or ys hi)) ≡ before')
    → Chain m before ys 0
    → Chain m' before' ys 0
relink m m' before before' e [] hi t same set c = tt
relink m m' before before' e ((p, b) ∷ ys) hi t same set c =
    let room = Tiled-le (p + header_size + b.size) ys hi t.3 in
    let at = c.0 in
    let new_prev : m' (Header.prev p) ≡ before' = set (λ h. grind arith) in
    (
      ground (arith, room, new_prev, same p, same (p + 4), same (p + 12), same (p + 16)),
      Chain-frame m m' p (p + header_size + b.size) ys 0 hi t.3
          (λ a h k. same a (omega arith) k (omega arith)) c.1,
    )

pub prev-head :
    (m : Mem) (before hi : ℕ) (ys : Blocks)
    → Chain m before ys 0
    → ys ≢ []
    → m (Header.prev (head_or ys hi)) ≡ before
prev-head m before hi [] c h = absurd (h refl)
prev-head m before hi ((p, b) ∷ ys) c h = c.0.prev

pub head-pos : (e : ℕ) (ys : Blocks) (hi : ℕ) → 0 < e → Tiled e ys hi → ys ≢ [] → head_or ys 0 ≢ 0
head-pos e [] hi k t h = absurd (h refl)
head-pos e ((p, b) ∷ ys) hi k t h = omega arith

-- The blocks in `[p, e)` are replaced by `mid`, behind the block `before` and in front of `ys`.
pub record Replaced (m m' : Mem) (p before e hi : ℕ) (mid ys : Blocks) : Type 0 where
  pub chain : Chain m' before mid (head_or ys 0)
  pub beside : SameBeside m m' p e ys hi
  pub behind : ys ≢ [] → m' (Header.prev (head_or ys hi)) ≡ last_or mid before

pub splice :
    (m m' : Mem) (lo hi p e before : ℕ) (xs mid ys : Blocks)
    → Tiled lo xs (finish lo xs)
    → finish lo xs ≤ p
    → p ≤ e
    → Tiled e ys hi
    → Chain m 0 xs (head_or (mid ++ ys) 0)
    → Chain m before ys 0
    → Replaced m m' p (last_or xs 0) e hi mid ys
    → Chain m' 0 (xs ++ (mid ++ ys)) 0
splice m m' lo hi p e before xs mid ys front fits order back cx cy r =
    let room = Tiled-le e ys hi back in
    let beyond : (a : ℕ) → a < e → a ≢ Header.prev (head_or ys hi) =
      λ a h. omega (arith, le-head e ys hi back) in
    Links-append (HeaderAt m') 0 xs (mid ++ ys) 0
      (Chain-frame m m' 0 lo xs (head_or (mid ++ ys) 0) (finish lo xs) front
        (λ a h k. r.beside a (omega arith) (inl (omega arith)) (beyond a (omega arith))) cx)
      (Links-append (HeaderAt m') (last_or xs 0) mid ys 0 r.chain
        (relink m m' before _ e ys hi back (λ a h k ne. r.beside a k (inr h) ne) r.behind cy))

-- What stays as it was in the blocks in front of and behind the replaced ones.
kept_within :
    (m m' : Mem) (lo : ℕ) (xs : Blocks) (hi : ℕ)
    → Tiled lo xs hi
    → ((a : ℕ) → lo ≤ a → a < hi → m' a ≡ m a)
    → All (PayloadKept m m') xs
kept_within m m' lo [] hi t same = tt
kept_within m m' lo ((p, b) ∷ xs) hi t same =
    let room = Tiled-le (p + header_size + b.size) xs hi t.3 in
    (
      (λ u a h k. same a (omega arith) (omega arith)),
      kept_within m m' (p + header_size + b.size) xs hi t.3 (λ a h k. same a (omega arith) k),
    )

pub kept_front :
    (m m' : Mem) (lo p e : ℕ) (xs ys : Blocks) (hi : ℕ)
    → Tiled lo xs (finish lo xs)
    → finish lo xs ≤ p
    → p ≤ e
    → Tiled e ys hi
    → SameBeside m m' p e ys hi
    → All (PayloadKept m m') xs
kept_front m m' lo p e xs ys hi t fits order back same =
    let room = Tiled-le e ys hi back in
    let behind = le-head e ys hi back in
    kept_within m m' lo xs (finish lo xs) t
      (λ a h k. same a (omega arith) (inl (omega arith)) (omega arith))

pub kept_back :
    (m m' : Mem) (p e : ℕ) (ys : Blocks) (hi : ℕ)
    → Tiled e ys hi
    → SameBeside m m' p e ys hi
    → All (PayloadKept m m') ys
kept_back m m' p e [] hi t same = tt
kept_back m m' p e ((q, d) ∷ ys) hi t same =
    let room = Tiled-le (q + header_size + d.size) ys hi t.3 in
    (
      (λ u a h k. same a (omega arith) (inr (omega arith)) (omega arith)),
      kept_within m m' (q + header_size + d.size) ys hi t.3
          (λ a h k. same a k (inr (omega arith)) (omega arith)),
    )

pub Clear-front :
    (lo ptr n : ℕ) (xs : Blocks) (hi : ℕ) → Tiled lo xs hi → hi ≤ ptr → All (Clear ptr n) xs
Clear-front lo ptr n [] hi t h = tt
Clear-front lo ptr n ((p, b) ∷ xs) hi t h =
    let room = Tiled-le (p + header_size + b.size) xs hi t.3 in
    ((λ u. inl (omega arith)), Clear-front (p + header_size + b.size) ptr n xs hi t.3 h)

pub Clear-back :
    (lo ptr n : ℕ) (xs : Blocks) (hi : ℕ) → Tiled lo xs hi → ptr + n ≤ lo → All (Clear ptr n) xs
Clear-back lo ptr n [] hi t h = tt
Clear-back lo ptr n ((p, b) ∷ xs) hi t h =
    ((λ u. inr (omega arith)), Clear-back (p + header_size + b.size) ptr n xs hi t.3 (omega arith))

pub kept_self : (m : Mem) (xs : Blocks) → All (PayloadKept m m) xs
kept_self m [] = tt
kept_self m (x ∷ xs) = ((λ u a h k. refl), kept_self m xs)

pub kept_trans :
    (m m' m'' : Mem) (xs : Blocks)
    → All (PayloadKept m m') xs
    → All (PayloadKept m' m'') xs
    → All (PayloadKept m m'') xs
kept_trans m m' m'' [] h k = tt
kept_trans m m' m'' (x ∷ xs) h k =
    ((λ u a l r. k.0 u a l r ∙ h.0 u a l r), kept_trans m m' m'' xs h.1 k.1)
