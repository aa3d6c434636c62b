-- ===== src/Pool/Fresh.antt =====
-- The free elements that `mem_pool_init` of kernel/lib/mm/pool.c sets up.
use native.Mathlib.Nat.{suc-mul}
use yaeos.Prelude.{ℕ, zero, suc, ◌+◌, ◌*◌, ◌^◌, ◌<◌, ◌≤◌, ◌≡◌, ◌≢◌, ◌⊎◌, inl, inr, refl, sym, arith}
use yaeos.Prelude.{true, ltb, if◌then◌else◌, List, [], ◌∷◌, leb, ==_ne, ==_refl, ok}
use yaeos.Word.{◌+w◌}
use yaeos.Align.{align_roundup}
use yaeos.Slist.{Heap, assign, init, insert}
use yaeos.Slist.Chain.{nil, cons, Chain, end, link}
use yaeos.Pool.{node_aligned, node_size, thread, mem_pool_init}
use yaeos.Pool.Elements.{Frees, AllAligned, and_node}
use yaeos.Pool.Thread.{blocks, none_left, thread_lem}

-- The size of an element: at least that of a node.
abbrev pub whole_size : ℕ → ℕ
whole_size elem_size = if ltb elem_size node_size then node_size else elem_size

-- The memory holds `suc k` elements and no more, all of them aligned as nodes; the list head lies
-- outside, and no address wraps.
pub record Holds (pool mem mem_size elem_size elem_align k : ℕ) : Type 0 where
  pub some_pool : pool ≢ 0
  pub some_mem : 0 < mem
  pub some_room : elem_size ≤ mem_size
  pub some_stride : 0 < align_roundup (whole_size elem_size) elem_align
  pub inside : mem ≤ align_roundup mem elem_align
  pub outside : (pool < align_roundup mem elem_align) ⊎ (mem + mem_size ≤ pool)
  pub fits :
      align_roundup mem elem_align
        + k * align_roundup (whole_size elem_size) elem_align
        + whole_size elem_size
      ≤ mem + mem_size
  pub no_more :
      mem + mem_size
      < align_roundup mem elem_align
        + suc k * align_roundup (whole_size elem_size) elem_align
        + whole_size elem_size
  pub small : mem + mem_size + align_roundup (whole_size elem_size) elem_align < 2 ^ 32
  pub all_aligned : AllAligned (
      blocks
        (suc k)
        (align_roundup mem elem_align)
        (align_roundup (whole_size elem_size) elem_align))

head_aligned : {n : ℕ} {ns : List ℕ} → AllAligned (n ∷ ns) → node_aligned n ≡ true
head_aligned (and_node _ is al) = is

le-mul_right : (k s : ℕ) → 0 < s → k ≤ k * s
le-mul_right zero s h = omega arith
le-mul_right (suc k) s h = omega (arith, suc-mul k s, le-mul_right k s h)

start_lem :
    (heap : Heap) (pool m stride size limit mem_size k : ℕ)
    → pool ≢ 0
    → 0 < m
    → (pool < m) ⊎ (limit ≤ pool)
    → 0 < size
    → 0 < stride
    → m + k * stride + size ≤ limit
    → limit < m + suc k * stride + size
    → limit + stride < 2 ^ 32
    → AllAligned (blocks (suc k) m stride)
    → k < suc mem_size
    → (heap' : Heap) × (thread
          (suc mem_size)
          (assign (assign (assign heap pool 0) m (assign heap pool 0 pool)) pool m)
          m
          stride
          size
          limit
        ≡ ok heap')
      × Chain heap' pool (blocks (suc k) m stride)
start_lem heap pool m stride size limit mem_size k some_pool some_m out some_size some_stride fits
      over small al h =
    let other : m ≢ pool = elim out [ inl lt ↦ omega arith | inr le ↦ omega arith ] in
    let first : Chain (assign (assign (assign heap pool 0) m (assign heap pool 0 pool)) pool m) pool
        (m ∷ []) =
      link pool m some_pool (rw (==_refl pool) refl) (cons m (λ e. other (sym e)) nil)
        (end m (omega arith) (rw (==_ne m pool other, ==_refl m, ==_refl pool) refl)) in
    thread_lem k (suc mem_size) _ pool [] m stride size limit first none_left out some_size
      some_stride some_m fits over small al h

init_run :
    (heap : Heap) (pool mem mem_size elem_size elem_align : ℕ) (heap' : Heap)
    → pool ≢ 0
    → 0 < mem
    → elem_size ≤ mem_size
    → mem + mem_size < 2 ^ 32
    → align_roundup mem elem_align + whole_size elem_size ≤ mem + mem_size
    → 0 < align_roundup mem elem_align
    → node_aligned (align_roundup mem elem_align) ≡ true
    → thread
        (suc mem_size)
        (assign
          (assign (assign heap pool 0) (align_roundup mem elem_align) (assign heap pool 0 pool))
          pool
          (align_roundup mem elem_align))
        (align_roundup mem elem_align)
        (align_roundup (whole_size elem_size) elem_align)
        (whole_size elem_size)
        (mem + mem_size)
      ≡ ok heap'
    → mem_pool_init heap pool mem mem_size elem_size elem_align
      ≡ ok (record { nodes = pool; mem_start = mem; mem_end = mem + mem_size }, heap')
unfolding mem_pool_init init insert
init_run heap pool mem mem_size elem_size elem_align heap' some_pool some_mem room small fits
      some_block is run =
    let m = align_roundup mem elem_align in
    let limit : mem +w mem_size ≡ mem + mem_size = omega arith in
    let enough : leb elem_size mem_size ≡ true = ground arith in
    let first_fits : leb (m +w whole_size elem_size) (mem + mem_size) ≡ true = ground arith in
    rw
      (
        ==_ne pool 0 some_pool,
        ==_ne mem 0 (omega arith),
        enough,
        limit,
        first_fits,
        is,
        ==_ne m 0 (omega arith),
        run,
      )
      refl

-- `mem_pool_init` on memory that holds k + 1 elements and no more, all of them aligned as nodes, where no
-- address wraps and the list head lies outside, gives a pool whose free elements are these, one stride
-- apart from the first aligned address on, in this order.
pub mem_pool_init_lem :
    (heap : Heap) (pool mem mem_size elem_size elem_align k : ℕ)
    → Holds pool mem mem_size elem_size elem_align k
    → (heap' : Heap) × (mem_pool_init heap pool mem mem_size elem_size elem_align
        ≡ ok (record { nodes = pool; mem_start = mem; mem_end = mem + mem_size }, heap'))
      × Frees heap'
          (record { nodes = pool; mem_start = mem; mem_end = mem + mem_size })
          (blocks
            (suc k)
            (align_roundup mem elem_align)
            (align_roundup (whole_size elem_size) elem_align))
mem_pool_init_lem heap pool mem mem_size elem_size elem_align k h =
    let m = align_roundup mem elem_align in
    let size = whole_size elem_size in
    let stride = align_roundup size elem_align in
    let some_size : 0 < size = ground arith in
    let rounds : k ≤ k * stride = le-mul_right k stride h.some_stride in
    let (heap', run, c) =
      start_lem heap pool m stride size (mem + mem_size) mem_size k h.some_pool (omega arith)
        h.outside some_size h.some_stride h.fits h.no_more h.small h.all_aligned (omega arith) in
    (
      heap',
      init_run heap pool mem mem_size elem_size elem_align heap' h.some_pool h.some_mem h.some_room
          (omega arith) (omega arith) (omega arith) (head_aligned h.all_aligned) run,
      record { chain = c; aligned = h.all_aligned },
    )
