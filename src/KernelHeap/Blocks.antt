-- ===== src/KernelHeap/Blocks.antt =====
-- The abstract view of the heap of src/arch/x86/mem/heap.cpp: its blocks in the order of their
-- addresses, and what memory holds for them.
use another_os.Base.{
  ℕ, ◌+◌, ◌%◌, ◌^◌, ◌≤◌, ◌<◌, ◌≡◌, ◌≢◌, ◌⊎◌, Bool, true, List, [], ◌∷◌, ◌++◌, arith, if◌then◌else◌,
}
use another_os.Base.Links.{Links, head_or}
use another_os.KernelHeap.{Mem, Heap, page_size}
use another_os.KernelHeap.Header
use another_os.KernelHeap.Header.{header_size, memory_header_magic}

-- The contents of a header: whether the block is allocated, and how many bytes follow the header.
pub record Block : Type 0 where
  pub used : Bool
  pub size : ℕ

abbrev pub block : Bool → ℕ → Block
block u n = record { used = u; size = n }

abbrev pub Blocks : Type 0
Blocks = List (ℕ × Block)

abbrev pub flag : Bool → ℕ
flag u = if u then 1 else 0

pub record HeaderAt (m : Mem) (p after before : ℕ) (b : Block) : Type 0 where
  pub magic : m (Header.magic p) ≡ memory_header_magic
  pub next : m (Header.next p) ≡ after
  pub prev : m (Header.prev p) ≡ before
  pub allocated : m (Header.allocated p) ≡ flag b.used
  pub size : m (Header.size p) ≡ b.size

-- The blocks lie one behind the other in `[lo, hi)`, at word boundaries, and none overlaps another.
abbrev pub Tiled : ℕ → Blocks → ℕ → Type 0
Tiled lo [] hi = lo ≤ hi
Tiled lo ((p, b) ∷ xs) hi =
    (lo ≤ p) × (p % 4 ≡ 0) × (b.size % 4 ≡ 0) × Tiled (p + header_size + b.size) xs hi

-- Where the last block ends.
abbrev pub finish : ℕ → Blocks → ℕ
finish lo [] = lo
finish lo ((p, b) ∷ xs) = finish (p + header_size + b.size) xs

pub Tiled-append_left :
    (lo : ℕ) (xs ys : Blocks) (hi : ℕ) → Tiled lo (xs ++ ys) hi → Tiled lo xs (finish lo xs)
Tiled-append_left lo [] ys hi t = omega arith
Tiled-append_left lo ((p, b) ∷ xs) ys hi t =
    (t.0, t.1, t.2, Tiled-append_left (p + header_size + b.size) xs ys hi t.3)

pub Tiled-append_right :
    (lo : ℕ) (xs ys : Blocks) (hi : ℕ) → Tiled lo (xs ++ ys) hi → Tiled (finish lo xs) ys hi
Tiled-append_right lo [] ys hi t = t
Tiled-append_right lo ((p, b) ∷ xs) ys hi t =
    Tiled-append_right (p + header_size + b.size) xs ys hi t.3

pub Tiled-append :
    (lo : ℕ) (xs ys : Blocks) (hi : ℕ)
    → Tiled lo xs (finish lo xs)
    → Tiled (finish lo xs) ys hi
    → Tiled lo (xs ++ ys) hi
Tiled-append lo [] ys hi t u = u
Tiled-append lo ((p, b) ∷ xs) ys hi t u =
    (t.0, t.1, t.2, Tiled-append (p + header_size + b.size) xs ys hi t.3 u)

pub Tiled-le : (lo : ℕ) (xs : Blocks) (hi : ℕ) → Tiled lo xs hi → lo ≤ hi
Tiled-le lo [] hi t = t
Tiled-le lo ((p, b) ∷ xs) hi t = omega (arith, Tiled-le (p + header_size + b.size) xs hi t.3)

pub le-finish : (lo : ℕ) (xs ys : Blocks) (hi : ℕ) → Tiled lo (xs ++ ys) hi → lo ≤ finish lo xs
le-finish lo xs ys hi t = Tiled-le lo xs (finish lo xs) (Tiled-append_left lo xs ys hi t)

-- A block list is what memory holds: the headers are linked in order, both ways.
abbrev pub Chain : Mem → ℕ → Blocks → ℕ → Type 0
Chain m = Links (HeaderAt m)

pub record IsHeap (h : Heap) (bs : Blocks) : Type 0 where
  pub low : page_size ≤ h.start_address
  pub in_range : h.end_address < 2 ^ 32
  pub first : h.first_header ≡ head_or bs 0
  pub nonempty : bs ≢ []
  pub chain : Chain h.mem 0 bs 0
  pub tiled : Tiled h.start_address bs h.end_address

-- Writes outside `[lo, hi)` leave the headers there alone.
pub Chain-frame :
    (m m' : Mem) (before lo : ℕ) (xs : Blocks) (after hi : ℕ)
    → Tiled lo xs hi
    → ((a : ℕ) → lo ≤ a → a < hi → m' a ≡ m a)
    → Chain m before xs after
    → Chain m' before xs after
Chain-frame m m' before lo [] after hi t same c = tt
Chain-frame m m' before lo ((p, b) ∷ xs) after hi t same c =
    let room = Tiled-le (p + header_size + b.size) xs hi t.3 in
    let at = c.0 in
    (
      ground (arith, room, same p, same (p + 4), same (p + 8), same (p + 12), same (p + 16)),
      Chain-frame m m' p (p + header_size + b.size) xs after hi t.3
          (λ a h k. same a (omega arith) k) c.1,
    )

-- The bytes of an allocated block are as they were.
abbrev pub PayloadKept : Mem → Mem → ℕ × Block → Type 0
PayloadKept m m' (p, b) =
    b.used ≡ true → (a : ℕ) → p + header_size ≤ a → a < p + header_size + b.size → m' a ≡ m a

-- `[ptr, ptr + n)` lies clear of an allocated block and of its header.
abbrev pub Clear : ℕ → ℕ → ℕ × Block → Type 0
Clear ptr n (p, b) = b.used ≡ true → (p + header_size + b.size ≤ ptr) ⊎ (ptr + n ≤ p)

pub Tiled-weaken : (lo lo' : ℕ) (xs : Blocks) (hi : ℕ) → lo' ≤ lo → Tiled lo xs hi → Tiled lo' xs hi
Tiled-weaken lo lo' [] hi h t = omega arith
Tiled-weaken lo lo' ((p, b) ∷ xs) hi h t = (omega arith, t.1, t.2, t.3)
