-- ===== src/Slist.antt =====
-- The singly linked list of kernel/lib/ds/slist.c. The heap gives for the address of a node what
-- its `next` holds; the address 0 is NULL.
pub mod Chain
pub mod Last
mod Tests
use yaeos.Prelude.{
  unfinished, ℕ, zero, suc, Bool, not, ◌==◌, if◌then◌else◌, Outcome, ok, fault, ◌>>=◌, ◌>>◌,
  kassert,
}

abbrev pub Heap : Type 0
Heap = ℕ → ℕ

-- The assignment `node->next = v`.
abbrev pub assign : Heap → ℕ → ℕ → Heap
assign heap node v a = if a == node then v else heap a

abbrev pub is_null : ℕ → Bool
is_null p = p == 0

unfoldable pub init : Heap → ℕ → Outcome Heap
init heap node = kassert (not (is_null node)) >> ok (assign heap node 0)

unfoldable pub next : Heap → ℕ → Outcome ℕ
next heap node = kassert (not (is_null node)) >> ok (heap node)

unfoldable pub is_empty : Heap → ℕ → Outcome Bool
is_empty heap node = kassert (not (is_null node)) >> ok (is_null (heap node))

unfoldable pub insert : Heap → ℕ → ℕ → Outcome Heap
insert heap prev_node new_node = do
  kassert (not (is_null prev_node))
  kassert (not (is_null new_node))
  ok (assign (assign heap new_node (heap prev_node)) prev_node new_node)

unfoldable pub remove_next : Heap → ℕ → Outcome Heap
remove_next heap prev_node = do
  kassert (not (is_null prev_node))
  kassert (not (is_null (heap prev_node)))
  ok (assign heap prev_node (heap (heap prev_node)))

-- The loop of `slist_remove`: `cursor` is the node whose `next` the pointer points to. From a node
-- without a next one, it reads through NULL.
unfoldable pub remove_from : ℕ → Heap → ℕ → ℕ → Outcome Heap
remove_from zero heap cursor to_remove = unfinished
remove_from (suc fuel) heap cursor to_remove =
    let rest = remove_from fuel heap (heap cursor) to_remove in
    let more = (do kassert (not (is_null (heap (heap cursor)))); rest) in
    if heap cursor == to_remove
    then ok (assign heap cursor (heap (heap cursor)))
    else if is_null (heap cursor)
    then fault
    else more

-- With more rounds than the list has nodes.
unfoldable pub remove : ℕ → Heap → ℕ → ℕ → Outcome Heap
remove fuel heap list_head to_remove = do
  kassert (not (is_null list_head))
  kassert (not (is_null to_remove))
  remove_from fuel heap list_head to_remove
