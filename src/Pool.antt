-- ===== src/Pool.antt =====
-- The pool of kernel/lib/mm/pool.c, in the build with assertions: a list of the free elements, which
-- stands in the elements themselves. A node begins at the address of its element.
pub mod Elements
pub mod Thread
pub mod Fresh
mod Tests
use yaeos.Prelude.{
  unfinished, ℕ, zero, suc, ◌%◌, Bool, not, ltb, leb, ◌==◌, ◌&&◌, if◌then◌else◌, Option, none, some,
}
use yaeos.Prelude.{Outcome, ok, fault, ◌>>=◌, ◌>>◌, kassert}
use yaeos.Word.{◌+w◌}
use yaeos.Align.{align_roundup, check_align}
use yaeos.Slist.{Heap, is_null, init, insert, remove, next}

-- `struct mem_pool`: the address of its list head, and the memory that it was given.
pub record Pool : Type 0 where
  pub nodes : ℕ
  pub mem_start : ℕ
  pub mem_end : ℕ

-- The size and the alignment of `union node`.
abbrev pub node_size : ℕ
node_size = 4

abbrev pub node_aligned : ℕ → Bool
node_aligned p = check_align p node_size

-- The loop of `mem_pool_init`.
unfoldable pub thread : ℕ → Heap → ℕ → ℕ → ℕ → ℕ → Outcome Heap
thread zero heap mblock stride elem_size limit = unfinished
thread (suc fuel) heap mblock stride elem_size limit =
    let further = (do
      kassert (node_aligned mblock)
      kassert (node_aligned (mblock +w stride))
      heap' ← insert heap mblock (mblock +w stride)
      thread fuel heap' (mblock +w stride) stride elem_size limit) in
    if leb (mblock +w stride +w elem_size) limit then further else ok heap

-- A round moves by at least one byte, so that the size and one more rounds are enough.
unfoldable pub mem_pool_init : Heap → ℕ → ℕ → ℕ → ℕ → ℕ → Outcome (Pool × Heap)
mem_pool_init heap pool mem mem_size elem_size elem_align = do
  kassert (not (is_null pool))
  kassert (not (is_null mem))
  kassert (leb elem_size mem_size)
  let size = if ltb elem_size node_size then node_size else elem_size
  let mblock = align_roundup mem elem_align
  let stride = align_roundup size elem_align
  let limit = mem +w mem_size
  heap₁ ← init heap pool
  kassert (leb (mblock +w size) limit)
  kassert (node_aligned mblock)
  heap₂ ← insert heap₁ pool mblock
  heap₃ ← thread (suc mem_size) heap₂ mblock stride size limit
  ok (record { nodes = pool; mem_start = mem; mem_end = limit }, heap₃)

-- `slist_remove` meets its node, the first one, in its first round.
unfoldable pub mem_pool_alloc : Heap → Pool → Outcome (Option ℕ × Heap)
mem_pool_alloc heap pool = do
  kassert (not (is_null pool.nodes))
  n ← next heap pool.nodes
  kassert (node_aligned n)
  let taken = (remove 1 heap pool.nodes n >>= λ heap'. ok (some n, heap'))
  if is_null n then ok (none, heap) else taken

unfoldable pub mem_pool_free : Heap → Pool → ℕ → Outcome Heap
mem_pool_free heap pool mem = do
  kassert (not (is_null pool.nodes))
  kassert (not (is_null mem))
  kassert (leb pool.mem_start mem && ltb mem pool.mem_end)
  kassert (node_aligned mem)
  insert heap pool.nodes mem
