-- ===== src/Pool/Tests.antt =====
-- The pool of kernel/lib/mm/pool.c at a concrete heap.
use yaeos.Prelude.{◌≡◌, refl, inl, arith, [], ◌∷◌, some, ok, ◌>>=◌}
use yaeos.Pool.Thread.{blocks}
use yaeos.Pool.Fresh.{Holds, mem_pool_init_lem}
use yaeos.Align.{align_roundup, check_align, align_rounddown}
use yaeos.Slist.{Heap, assign}
use yaeos.Slist.Chain
use yaeos.Slist.Chain.{Chain, end, link}
use yaeos.Pool.{Pool, mem_pool_init, mem_pool_alloc, mem_pool_free}
use yaeos.Pool.Elements.{Frees, no_node, and_node, free-alloc_same}

-- A pool at 8 over the memory from 100 to 132, whose elements 112 and 104 are free.
abbrev pool : Pool
pool = record { nodes = 8; mem_start = 100; mem_end = 132 }

abbrev heap : Heap
heap = assign (assign (λ a. 0) 8 112) 112 104

pool-Frees : Frees heap pool (112 ∷ 104 ∷ [])
unfolding check_align align_rounddown
pool-Frees = record {
  chain =
      link 8 112 (omega arith) refl
        (Chain.cons 112 (omega arith) (Chain.cons 104 (omega arith) Chain.nil))
        (link 112 104 (omega arith) refl (Chain.cons 104 (omega arith) Chain.nil)
          (end 104 (omega arith) refl));
  aligned = and_node 112 refl (and_node 104 refl no_node);
}

free-alloc_same_example :
    (heap' : Heap) × ((mem_pool_free heap pool 120 >>= λ h. mem_pool_alloc h pool)
      ≡ ok (some 120, heap'))
    × Frees heap' pool (112 ∷ 104 ∷ [])
unfolding check_align align_rounddown
free-alloc_same_example = free-alloc_same heap pool (112 ∷ 104 ∷ []) 120 pool-Frees (record {
  some_element = omega arith;
  after_start = omega arith;
  before_end = omega arith;
  is_aligned = refl;
  not_head = omega arith;
  not_free = Chain.cons 112 (omega arith) (Chain.cons 104 (omega arith) Chain.nil);
})

-- 32 bytes from 100 on hold three elements of 8 bytes with alignment 8.
three-Holds : Holds 8 100 32 8 8 2
unfolding align_roundup check_align align_rounddown
three-Holds = record {
  some_pool = omega arith;
  some_mem = omega arith;
  some_room = omega arith;
  some_stride = omega arith;
  inside = omega arith;
  outside = inl (omega arith);
  fits = omega arith;
  no_more = omega arith;
  small = omega arith;
  all_aligned = and_node 104 refl (and_node 112 refl (and_node 120 refl no_node));
}

mem_pool_init_lem_example :
    (heap' : Heap) × (mem_pool_init (λ a. 0) 8 100 32 8 8
      ≡ ok (record { nodes = 8; mem_start = 100; mem_end = 132 }, heap'))
    × Frees heap' (record { nodes = 8; mem_start = 100; mem_end = 132 }) (blocks 3 104 8)
unfolding align_roundup
mem_pool_init_lem_example = mem_pool_init_lem (λ a. 0) 8 100 32 8 8 2 three-Holds
