-- ===== src/Pool/Elements.antt =====
-- The free elements of a pool of kernel/lib/mm/pool.c as a stack.
use yaeos.Prelude.{ℕ, ◌≡◌, ◌≢◌, refl, arith, ◌<◌, ◌≤◌, ltb, leb}
use yaeos.Prelude.{true, List, [], ◌∷◌, ◌&&◌, ==_ne, Option, none, some, ok, ◌>>=◌}
use yaeos.Align.{check_align, align_rounddown}
use yaeos.Slist.{Heap, next, remove}
use yaeos.Slist.Chain.{Apart, Chain, end, link, Chain-start, insert_lem, remove_lem}
use yaeos.Pool.{Pool, node_aligned, mem_pool_alloc, mem_pool_free}

pub data AllAligned : List ℕ → Type 0 where
  no_node : AllAligned []
  and_node : {ns : List ℕ} (n : ℕ) → node_aligned n ≡ true → AllAligned ns → AllAligned (n ∷ ns)

-- The pool has these free elements.
pub record Frees (heap : Heap) (pool : Pool) (ns : List ℕ) : Type 0 where
  pub chain : Chain heap pool.nodes ns
  pub aligned : AllAligned ns

null_aligned : node_aligned 0 ≡ true
unfolding check_align align_rounddown
null_aligned = refl

abbrev pub first : List ℕ → Option ℕ
first [] = none
first (n ∷ ns) = some n

abbrev pub others : List ℕ → List ℕ
others [] = []
others (n ∷ ns) = ns

-- An element that may be given back to the pool.
pub record Belongs (pool : Pool) (ns : List ℕ) (mem : ℕ) : Type 0 where
  pub some_element : mem ≢ 0
  pub after_start : pool.mem_start ≤ mem
  pub before_end : mem < pool.mem_end
  pub is_aligned : node_aligned mem ≡ true
  pub not_head : mem ≢ pool.nodes
  pub not_free : Apart mem ns

alloc_run :
    (heap : Heap) (pool : Pool) (n : ℕ) (heap' : Heap)
    → pool.nodes ≢ 0
    → heap pool.nodes ≡ n
    → node_aligned n ≡ true
    → n ≢ 0
    → remove 1 heap pool.nodes n ≡ ok heap'
    → mem_pool_alloc heap pool ≡ ok (some n, heap')
unfolding mem_pool_alloc next
alloc_run heap pool n heap' h e is some_node run =
    rw (==_ne pool.nodes 0 h, e, is, run, ==_ne n 0 some_node) refl

alloc-Chain :
    (heap : Heap) (pool : Pool) (ns : List ℕ)
    → Chain heap pool.nodes ns
    → AllAligned ns
    → (heap' : Heap) × (mem_pool_alloc heap pool ≡ ok (first ns, heap'))
      × Frees heap' pool (others ns)
unfolding mem_pool_alloc next
alloc-Chain heap pool [] (end p h e) no_node = (
  heap,
  rw (==_ne pool.nodes 0 h, e, null_aligned) refl,
  record { chain = end pool.nodes h e; aligned = no_node },
)
alloc-Chain heap pool (n ∷ ns) (link p _ h e apart c) (and_node _ is more) =
    let (heap', run, c') =
      remove_lem heap pool.nodes n 1 [] ns (link pool.nodes n h e apart c) (omega arith) in
    (
      heap',
      alloc_run heap pool n heap' h e is (Chain-start c) run,
      record { chain = c'; aligned = more },
    )

-- `mem_pool_alloc` gives the first free element and keeps the others, and NULL if there is none.
pub mem_pool_alloc_lem :
    (heap : Heap) (pool : Pool) (ns : List ℕ)
    → Frees heap pool ns
    → (heap' : Heap) × (mem_pool_alloc heap pool ≡ ok (first ns, heap'))
      × Frees heap' pool (others ns)
mem_pool_alloc_lem heap pool ns f = alloc-Chain heap pool ns f.chain f.aligned

-- `mem_pool_free` of an element of the pool's memory that is not free makes it the first free one.
pub mem_pool_free_lem :
    (heap : Heap) (pool : Pool) (ns : List ℕ) (mem : ℕ)
    → Frees heap pool ns
    → Belongs pool ns mem
    → (heap' : Heap) × (mem_pool_free heap pool mem ≡ ok heap') × Frees heap' pool (mem ∷ ns)
unfolding mem_pool_free
mem_pool_free_lem heap pool ns mem f b =
    let (heap', run, c) =
      insert_lem heap pool.nodes mem ns f.chain b.some_element b.not_head b.not_free in
    let inside : (leb pool.mem_start mem && ltb mem pool.mem_end) ≡ true =
      ground (arith, b.after_start, b.before_end) in
    (
      heap',
      rw
          (
            ==_ne pool.nodes 0 (Chain-start f.chain),
            ==_ne mem 0 b.some_element,
            inside,
            b.is_aligned,
          )
          run,
      record { chain = c; aligned = and_node mem b.is_aligned f.aligned },
    )

-- An element that is given back is the next one that is handed out, and then the pool has the free
-- elements that it had.
pub free-alloc_same :
    (heap : Heap) (pool : Pool) (ns : List ℕ) (mem : ℕ)
    → Frees heap pool ns
    → Belongs pool ns mem
    → (heap' : Heap) × ((mem_pool_free heap pool mem >>= λ h. mem_pool_alloc h pool)
        ≡ ok (some mem, heap'))
      × Frees heap' pool ns
free-alloc_same heap pool ns mem f b =
    let (heap₁, freed, f₁) = mem_pool_free_lem heap pool ns mem f b in
    let (heap₂, taken, f₂) = mem_pool_alloc_lem heap₁ pool (mem ∷ ns) f₁ in
    (heap₂, rw (freed, taken) refl, f₂)
