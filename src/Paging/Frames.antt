-- ===== src/Paging/Frames.antt =====
-- Which frames the page tables of src/arch/x86/mem/virtmem.cpp use, and what `GetPageForAddress` and
-- `AllocatePage` keep of it while the allocator has blocks.
use another_os.Base.{
  ℕ, suc, ◌∙◌, ◌<◌, ◌≤◌, ◌/◌, ◌%◌, ◌^◌, ◌≡◌, ◌≢◌, inl, inr, refl, sym, ap, arith, true, false, ◌==◌,
  ◌&&◌, ltb, ==_iff, ==_refl, ==_false, Bool-cases, bit_and,
}
use another_os.PhysMem.{PhysicalMem, allocate_block}
use another_os.PhysMem.Bitmap.{used}
use another_os.PhysMem.Room.{Room, Given, Room-Given}
use another_os.Paging.{
  page_size, VirtualMem, pagedir_index, pagetbl_index, set_directory, clear_table, entry_at,
  get_page_for_address,
}
use another_os.Paging.Mapping.{walk, translate, translate-walk, IsTable}
use another_os.Paging.Others.{Separate}
use native.Mathlib.Decide.{ℕ_discrete as dec_eq}

-- Each table that the directory names lies in a frame of the memory that is in use, no two in the same;
-- the memory has the blocks that are counted.
pub record Owned (m : VirtualMem) : Type 0 where
  pub tables :
      (i : ℕ)
      → IsTable (m.directory i)
      → (used m.phy_mem.words (m.directory i).frame ≡ 1) × ((m.directory i).frame < m.ram)
  pub separate : Separate m
  pub installed : m.phy_mem.maximum_blocks ≤ m.ram

pub same_page :
    (a b : ℕ)
    → a / page_size ≡ b / page_size
    → (pagedir_index a ≡ pagedir_index b) × (pagetbl_index a ≡ pagetbl_index b)
unfolding pagedir_index pagetbl_index
same_page a b e = (
  omega arith,
  ap (λ k. bit_and k 0x3ff) (let f : a / 2 ^ 12 ≡ b / 2 ^ 12 = omega (arith, e) in f),
)

-- The state with the block that a missing table is put in.
abbrev with_table : ℕ → ℕ → VirtualMem → VirtualMem
with_table i f m = clear_table i (
    set_directory i
      (record { present = 1; read_write = 1; is_user = 0; page_size_bit = 0; frame = f })
      (record m { phy_mem = (allocate_block m.phy_mem).1 }))

get_page-missing :
    (addr f lo n : ℕ) (m : VirtualMem)
    → ((m.directory (pagedir_index addr)).present == 0) ≡ true
    → Given m.phy_mem f lo n
    → get_page_for_address addr true true false m ≡ with_table (pagedir_index addr) f m
unfolding get_page_for_address
get_page-missing addr f lo n m missing g =
    let e : (allocate_block m.phy_mem).0 / page_size % 2 ^ 20 ≡ f =
      omega (arith, g.address, g.block) in
    rw (missing, e) refl

module _ (i f lo n : ℕ) (m : VirtualMem) (missing : ((m.directory i).present == 0) ≡ true)
    (g : Given m.phy_mem f lo n) (o : Owned m) where
  other_frame : (j : ℕ) → IsTable (m.directory j) → f ≢ (m.directory j).frame
  other_frame j p = λ e. ground (arith, (o.tables j p).0, g.was_free, ap (used m.phy_mem.words) e)

  with_table-used :
      (j : ℕ)
      → IsTable ((with_table i f m).directory j)
      → (used (with_table i f m).phy_mem.words ((with_table i f m).directory j).frame ≡ 1)
        × (((with_table i f m).directory j).frame < m.ram)
  unfolding set_directory clear_table
  with_table-used j p = elim (Bool-cases (i == j)) [
    | inl e ↦ rw e (ground (arith, g.marks f), omega (arith, g.inside, o.installed))
    | inr d ↦
        let old = o.tables j (rw d at p) in
        rw d (ground (arith, g.marks (m.directory j).frame, old.0), old.1)
  ]

  with_table-Separate : Separate (with_table i f m)
  unfolding set_directory clear_table
  with_table-Separate j k p q d = elim (Bool-cases (i == j)) [
    | inl e ↦
        let other : (i == k) ≡ false = ground (arith, e, d) in
        rw (e, other) (other_frame k (rw other at q))
    | inr e ↦ elim (Bool-cases (i == k)) [
      | inl e' ↦ rw (e, e') (λ h. other_frame j (rw e at p) (sym h))
      | inr e' ↦ rw (e, e') (o.separate j k (rw e at p) (rw e' at q) d)
    ]
  ]

  with_table-Owned : Owned (with_table i f m)
  unfolding set_directory clear_table
  with_table-Owned = record {
    tables = with_table-used;
    separate = with_table-Separate;
    installed = omega (arith, g.maximum, o.installed);
  }

  walk-with_table : (k l a : ℕ) → k ≢ 1023 → walk (with_table i f m) k l a ≡ walk m k l a
  unfolding walk entry_at set_directory clear_table
  walk-with_table k l a h =
      let real : ltb f m.ram ≡ true = let b = g.inside in ground (arith, o.installed, b) in
      let table : (k == 1023) ≡ false = ==_false k 1023 h in
      elim (dec_eq i k) [
        | yes e ↦ rw (← e) (
            let own : (i == 1023) ≡ false = ==_false i 1023 (λ z. h (sym e ∙ z)) in
            rw (missing, ==_refl i, own, real, ==_refl f) refl)
        | no d ↦ rw (==_false i k d) (elim (Bool-cases ((m.directory k).present == 0)) [
          | inl absent ↦ rw absent refl
          | inr there ↦ elim (Bool-cases ((m.directory k).page_size_bit == 0)) [
            | inr large ↦ rw (there, large) refl
            | inl small ↦
                let other : (f == (m.directory k).frame) ≡ false =
                  ==_false f (m.directory k).frame (
                    other_frame k
                      (ground (arith, there), (==_iff (m.directory k).page_size_bit 0).0 small)) in
                let kept : (ltb f m.ram && (f == (m.directory k).frame)) ≡ false =
                  ground (arith, other) in
                rw (there, small, table, ==_refl i, kept) refl
          ]
        ])
      ]

  translate-with_table :
      (a : ℕ) → pagedir_index a ≢ 1023 → translate (with_table i f m) a ≡ translate m a
  translate-with_table a h =
      translate-walk (with_table i f m) a
      ∙ walk-with_table (pagedir_index a) (pagetbl_index a) a h
      ∙ sym (translate-walk m a)

-- What `GetPageForAddress`, asked to create, leaves, where there is room for a table: the frames stay
-- apart, no address below the window stands for anything else than before, no block in use is given
-- back, and no entry becomes one of 4 MB.
pub record Kept (m m' : VirtualMem) (lo n : ℕ) : Type 0 where
  pub owned : Owned m'
  pub room : Room m'.phy_mem lo n
  pub marks : (c : ℕ) → used m.phy_mem.words c ≡ 1 → used m'.phy_mem.words c ≡ 1
  pub sizes : (i : ℕ) → (m.directory i).page_size_bit ≡ 0 → (m'.directory i).page_size_bit ≡ 0

pub record Fetched (addr : ℕ) (m m' : VirtualMem) (lo n : ℕ) : Type 0 where
  pub kept : Kept m m' lo n
  pub there : (m'.directory (pagedir_index addr)).present ≢ 0
  pub same : (a : ℕ) → pagedir_index a ≢ 1023 → translate m' a ≡ translate m a

pub Room-fewer : (s : PhysicalMem) (lo n : ℕ) → Room s lo (suc n) → Room s lo n
Room-fewer s lo n r = record {
  small = r.small;
  counted = omega (arith, r.counted);
  inside = omega (arith, r.inside);
  first_used = r.first_used;
  free = λ c a b. r.free c a (omega arith);
}

get_page-there :
    (addr : ℕ) (m : VirtualMem)
    → ((m.directory (pagedir_index addr)).present == 0) ≡ false
    → get_page_for_address addr true true false m ≡ m
unfolding get_page_for_address
get_page-there addr m h = rw h refl

Fetched-new :
    (addr f lo n : ℕ) (m : VirtualMem)
    → Owned m
    → ((m.directory (pagedir_index addr)).present == 0) ≡ true
    → Given m.phy_mem f lo n
    → Fetched addr m (with_table (pagedir_index addr) f m) lo n
unfolding set_directory clear_table
Fetched-new addr f lo n m o missing g =
    let i = pagedir_index addr in
    record {
      kept = record {
        owned = with_table-Owned i f lo n m missing g o;
        room = g.room;
        marks = λ c h. ground (arith, g.marks c, h);
        sizes = λ j h. ground (arith, h);
      };
      there = rw (==_refl i) (omega arith);
      same = translate-with_table i f lo n m missing g o;
    }

pub get_page-Fetched :
    (addr lo n : ℕ) (m : VirtualMem)
    → Owned m
    → Room m.phy_mem lo (suc n)
    → (lo' : ℕ) × Fetched addr m (get_page_for_address addr true true false m) lo' n
get_page-Fetched addr lo n m o r =
    elim (Bool-cases ((m.directory (pagedir_index addr)).present == 0)) [
      | inl missing ↦
          let (f, lo', g) = Room-Given m.phy_mem lo n r in
          (
            lo',
            rw (get_page-missing addr f lo' n m missing g) (Fetched-new addr f lo' n m o missing g),
          )
      | inr there ↦ (
        lo,
        rw (get_page-there addr m there) (record {
          kept = record {
            owned = o;
            room = Room-fewer m.phy_mem lo n r;
            marks = λ c h. h;
            sizes = λ j h. h;
          };
          there = ground (arith, there);
          same = λ a h. refl;
        }),
      )
    ]
