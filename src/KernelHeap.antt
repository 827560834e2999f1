-- ===== src/KernelHeap.antt =====
-- The kernel heap of src/arch/x86/mem/heap.{h,cpp}, over word-addressed memory: `mem a` is the
-- 32-bit word at the byte address `a`. A function that writes returns the new memory.
pub mod Header
pub mod Blocks
pub mod Splice
pub mod Spec
pub mod Allocate
pub mod FirstFit
pub mod Take
pub mod Malloc
pub mod Lives
pub mod Join
pub mod Coalesce
pub mod Free
pub mod Coalesced
pub mod Initialize
pub mod Write
pub mod Reach
pub mod Physical
pub mod Undo
mod Tests
pub use another_os.Base.{Run, ok, halt, out_of_fuel, ◌>>=◌}
use Header
use another_os.Paging.{VirtualMem, get_page_for_address, page_at}
use Header.{header_size, memory_header_magic}
use another_os.Base.{
  ℕ, zero, suc, ◌+◌, ◌-◌, ◌%◌, ◌^◌, bit_and, not, ◌&&◌, ◌||◌, if◌then◌else◌, ltb, leb, ◌==◌, add32,
  sub32, false, ◌*◌,
}

abbrev pub Mem : Type 0
Mem = ℕ → ℕ

unfoldable pub store : Mem → ℕ → ℕ → Mem
store m a v b = if a == b then v else m b

abbrev pub minimal_split_size : ℕ
minimal_split_size = 4

abbrev pub page_size : ℕ
page_size = 4096

-- The static members of `class Heap`, with the memory.
pub record Heap : Type 0 where
  pub start_address : ℕ
  pub end_address : ℕ
  pub first_header : ℕ
  pub mem : Mem

-- `align_up(num, align)`, for 32-bit operands.
unfoldable pub align_up : ℕ → ℕ → ℕ
align_up num align = bit_and (add32 num (sub32 align 1)) (2 ^ 32 - 1 - sub32 align 1)

pub initialize : ℕ → ℕ → Heap → Run Heap
initialize start end h =
    if not (start % page_size == 0) || not (end % page_size == 0)
    then halt
    else (let m = store h.mem (Header.allocated start) 0 in
        let m = store m (Header.prev start) 0 in
        let m = store m (Header.next start) 0 in
        let m = store m (Header.size start) (sub32 (sub32 end start) header_size) in
        let m = store m (Header.magic start) memory_header_magic in
        ok (record { start_address = start; end_address = end; first_header = start; mem = m }))

-- The loop of `FirstFree`, from `block` on; 0 is the null pointer.
pub first_free_from : ℕ → Mem → ℕ → ℕ → Run ℕ
first_free_from zero m size block = out_of_fuel
first_free_from (suc fuel) m size block =
    let rest = first_free_from fuel m size (m (Header.next block)) in
    if not (block == 0) && (m (Header.magic block) == memory_header_magic)
    then if not (m (Header.allocated block) == 0) || ltb (m (Header.size block)) size
      then rest
      else ok block
    else ok 0

pub first_free : ℕ → Heap → ℕ → Run ℕ
unfolding first_free_from
first_free fuel h size = first_free_from fuel h.mem size h.first_header

-- `if (block) block->prev = v`.
pub set_prev : Mem → ℕ → ℕ → Mem
set_prev m block v b = if not (block == 0) && (Header.prev block == b) then v else m b

-- The split of `InternalAllocate`: what is behind the first `size` bytes of `free_block` becomes a
-- block of its own.
split : Mem → ℕ → ℕ → Mem
split m free_block size =
    let next_block = add32 (add32 free_block size) header_size in
    let m = store m (Header.allocated next_block) 0 in
    let m =
      store m (Header.size next_block)
        (sub32 (sub32 (m (Header.size free_block)) size) header_size) in
    let m = store m (Header.prev next_block) free_block in
    let m = store m (Header.next next_block) (m (Header.next free_block)) in
    let m = set_prev m (m (Header.next free_block)) next_block in
    let m = store m (Header.magic next_block) memory_header_magic in
    store m (Header.next free_block) next_block

-- The rest of `InternalAllocate`, with the block that `FirstFree` found.
pub claim : Mem → ℕ → ℕ → Mem
unfolding split
claim m free_block size =
    let m =
      if leb (add32 (add32 size header_size) minimal_split_size) (m (Header.size free_block))
      then split m free_block size
      else m in
    let m = store m (Header.allocated free_block) 1 in store m (Header.size free_block) size

-- `InternalAllocate`, with `size` aligned. A null `free_block` is the panic.
pub allocate_aligned : ℕ → ℕ → Heap → Run (ℕ × Heap)
unfolding claim
allocate_aligned fuel size h = do
  free_block ← first_free fuel h size
  if free_block == 0
      then halt
      else ok (add32 free_block header_size, record h { mem = claim h.mem free_block size })

-- `Heap::malloc` with no `physReturn`, which is `InternalAllocate`.
pub malloc : ℕ → ℕ → Heap → Run (ℕ × Heap)
unfolding allocate_aligned
malloc fuel size h = allocate_aligned fuel (align_up size 4) h

-- `Heap::free`: the block joins a free neighbour before it, then one behind it.
pub join_prev : Mem → ℕ → Mem × ℕ
join_prev m block =
    if not (m (Header.prev block) == 0) && (m (Header.allocated (m (Header.prev block))) == 0)
    then (let p = m (Header.prev block) in
        let m = store m (Header.next p) (m (Header.next block)) in
        let m =
          store m (Header.size p)
            (add32 (m (Header.size p)) (add32 (m (Header.size block)) header_size)) in
        let m = set_prev m (m (Header.next block)) (m (Header.prev block)) in
        (m, m (Header.prev block)))
    else (m, block)

pub join_next : Mem → ℕ → Mem
join_next m block =
    if not (m (Header.next block) == 0) && (m (Header.allocated (m (Header.next block))) == 0)
    then (let n = m (Header.next block) in
        let m =
          store m (Header.size block)
            (add32 (m (Header.size block)) (add32 (m (Header.size n)) header_size)) in
        let m = store m (Header.next block) (m (Header.next (m (Header.next block)))) in
        set_prev m (m (Header.next block)) block)
    else m

pub release : Mem → ℕ → Mem
unfolding join_prev join_next
release m block =
    let (m, block) = join_prev (store m (Header.allocated block) 0) block in join_next m block

pub free : ℕ → Heap → Run Heap
unfolding release
free ptr h =
    let block = sub32 ptr header_size in
    if not (h.mem (Header.magic block) == memory_header_magic)
      || (h.mem (Header.allocated block) == 0)
    then halt
    else ok (record h { mem = release h.mem block })

-- `Heap::malloc` with a `physReturn`: the address, the physical address that the page tables say,
-- and the heap. `GetPageForAddress` creates nothing here.
pub malloc_physical : ℕ → ℕ → VirtualMem → Heap → Run (ℕ × ℕ × Heap)
malloc_physical fuel size vm h = malloc fuel size h >>= λ r.
    let vm = get_page_for_address (r.0) false false false vm in
    let phys = add32 ((page_at (r.0) vm).frame * page_size % 2 ^ 32) (bit_and (r.0) 0xFFF) in
    ok (r.0, phys, r.1)

-- The operators `new` and `new[]`, those with a place, and `delete` and `delete[]`.
unfoldable pub operator_new : ℕ → ℕ → Heap → Run (ℕ × Heap)
operator_new fuel size h = malloc fuel size h

pub operator_new_at : ℕ → ℕ → ℕ
operator_new_at size ptr = ptr

pub operator_delete : ℕ → Heap → Run Heap
operator_delete p h = free p h
