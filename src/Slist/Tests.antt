-- ===== src/Slist/Tests.antt =====
-- The singly linked list of kernel/lib/ds/slist.c at a concrete heap.
use yaeos.Prelude.{◌≡◌, refl, arith, [], ◌∷◌, ok}
use yaeos.Slist.{Heap, assign, remove}
use yaeos.Slist.Chain.{Chain, end, link, nil, cons, remove_lem}

-- The list 1, 2, 3.
abbrev heap : Heap
heap = assign (assign (λ a. 0) 1 2) 2 3

heap-Chain : Chain heap 1 (2 ∷ 3 ∷ [])
heap-Chain =
    link 1 2 (omega arith) refl (cons 2 (omega arith) (cons 3 (omega arith) nil))
      (link 2 3 (omega arith) refl (cons 3 (omega arith) nil) (end 3 (omega arith) refl))

remove_lem_example : (heap' : Heap) × (remove 2 heap 1 3 ≡ ok heap') × Chain heap' 1 (2 ∷ [])
remove_lem_example = remove_lem heap 1 3 2 (2 ∷ []) [] heap-Chain (omega arith)
