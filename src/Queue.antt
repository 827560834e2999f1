-- ===== src/Queue.antt =====
-- `std::queue` of libc/queue.h, for the elements that the kernel keeps in it, which are pointers. A
-- node is an address; its three fields are functions of the address, and 0 is the null pointer. `new`
-- is outside: an operation that allocates takes the address it was given.
pub mod Chains
pub mod Insert
pub mod Remove
pub mod Walk
pub mod Index
pub mod Sweep
pub mod Clear
pub mod Iterator
mod Tests
use another_os.Base.{
  ℕ, zero, suc, ◌+◌, ◌-◌, ◌^◌, Bool, true, false, List, [], ◌∷◌, if◌then◌else◌, ltb, ◌==◌, sub32,
  Run, ok, undefined, out_of_fuel, ◌>>=◌,
}

-- The members of `queue`, the fields of the nodes, and the nodes that were deleted (the last first).
-- `size` has no bound: 4 GB do not hold the nodes that the `int` would need to overflow.
pub record Queue : Type 0 where
  pub head : ℕ
  pub tail : ℕ
  pub size : ℕ
  pub data_of : ℕ → ℕ
  pub next : ℕ → ℕ
  pub prev : ℕ → ℕ
  pub deleted : List ℕ

unfoldable pub set : (ℕ → ℕ) → ℕ → ℕ → ℕ → ℕ
set f a v b = if a == b then v else f b

-- `new queue_node<T>(e)`, given its address.
pub new_node : ℕ → ℕ → Queue → Queue
new_node e n q = record q {
  data_of = set q.data_of n e;
  next = set q.next n 0;
  prev = set q.prev n 0;
}

-- `insertInternal`; `n` is the address of the new node.
pub insert_internal : ℕ → ℕ → ℕ → Queue → Queue
insert_internal e pos n q =
    let q = new_node e n q in
    let q = record q { size = q.size + 1 } in
    let q = record q { next = set q.next n pos } in
    let q =
      if pos == 0
      then record q { prev = set q.prev n q.tail; tail = n }
      else record q { prev = set (set q.prev n (q.prev pos)) pos n } in
    if q.prev n == 0 then record q { head = n } else record q { next = set q.next (q.prev n) n }

pub push_back : ℕ → ℕ → Queue → Queue
push_back e n q = insert_internal e 0 n q

pub push_front : ℕ → ℕ → Queue → Queue
push_front e n q = insert_internal e q.head n q

-- The first half of `removeInternal`: the neighbours are linked to each other.
pub bypass : ℕ → Queue → Queue
bypass pos q =
    let q =
      if q.prev pos == 0 then q else record q { next = set q.next (q.prev pos) (q.next pos) } in
    if q.next pos == 0 then q else record q { prev = set q.prev (q.next pos) (q.prev pos) }

-- The second half: the ends, `delete` and the size.
pub drop_node : ℕ → Queue → Queue
drop_node pos q =
    let q = if pos == q.head then record q { head = q.next pos } else q in
    let q = if pos == q.tail then record q { tail = q.prev pos } else q in
    record q { deleted = pos ∷ q.deleted; size = q.size - 1 }

pub remove_internal : ℕ → Queue → Queue
remove_internal pos q = if pos == 0 then q else drop_node pos (bypass pos q)

-- `index` steps along `next`, from `cur` on.
pub walk : ℕ → ℕ → Queue → Run ℕ
walk zero cur q = ok cur
walk (suc index) cur q =
    let rest = walk index (q.next cur) q in if cur == 0 then undefined else rest

pub remove : ℕ → Queue → Run Queue
remove index q = walk index q.head q >>= λ cur. ok (remove_internal cur q)

pub get_at : ℕ → Queue → Run ℕ
get_at index q = walk index q.head q >>= λ cur. if cur == 0 then undefined else ok (q.data_of cur)

-- The loop of `IndexOf`, from `i` on, with `left` rounds to go; -1 is its two's complement.
pub index_from : ℕ → ℕ → ℕ → Queue → Run ℕ
index_from zero i e q = ok (2 ^ 32 - 1)
index_from (suc left) i e q =
    get_at i q >>= λ d. let rest = index_from left (suc i) e q in if d == e then ok i else rest

pub index_of : ℕ → Queue → Run ℕ
index_of e q = index_from q.size 0 e q

-- The loop of `Remove(e)`, from `i` on. `size` falls while it runs.
pub remove_from : ℕ → ℕ → ℕ → Queue → Run Queue
remove_from zero i e q = out_of_fuel
remove_from (suc fuel) i e q =
    let round = get_at i q >>= λ d.
    (if d == e then remove i q else ok q) >>= λ q. remove_from fuel (suc i) e q in
    if ltb i q.size then round else ok q

pub remove_value : ℕ → Queue → Run Queue
remove_value e q = remove_from (suc (q.size)) 0 e q

-- The loop of `Clear`, from `current` on.
pub clear_from : ℕ → ℕ → Queue → Run Queue
clear_from zero current q = out_of_fuel
clear_from (suc fuel) current q =
    let rest = clear_from fuel (q.next current) (record q { deleted = current ∷ q.deleted }) in
    if current == 0 then ok q else rest

pub clear : ℕ → Queue → Run Queue
clear fuel q = clear_from fuel q.head q >>= λ q. ok (record q { size = 0; head = 0; tail = 0 })

-- The operators `[]`, `+=` and `-=`.
pub at_index : ℕ → Queue → Run ℕ
at_index index q = get_at index q

pub add_assign : ℕ → ℕ → Queue → Queue
add_assign e node q = push_back e node q

pub sub_assign : ℕ → Queue → Run Queue
sub_assign e q = remove_value e q
