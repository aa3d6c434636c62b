-- ===== src/Rbtree/RangeFrom.antt =====
-- `rbtree_iter_range` of kernel/lib/ds/rbtree.c from its search on.
use yaeos.Prelude.{
  ℕ, ◌*◌, ◌<◌, ◌≡◌, ◌≢◌, ◌⊎◌, inl, inr, refl, sym, arith, Bool, true, false, List, ◌∷◌, ◌++◌, ℤ,
  Outcome, ok, fault,
}
use mathlib.Core.Path.{subst}
use yaeos.Rbtree.{Colour, Store}
use yaeos.Rbtree.Shape.{Shape, fork, inorder, top}
use yaeos.Rbtree.Rotate.{StandsIn}
use yaeos.Rbtree.Graft.{Parted}
use yaeos.Rbtree.Attach.{size}
use yaeos.Rbtree.Walk.{each}
use yaeos.Rbtree.Range.{rest, rbtree_iter_range-each}
use yaeos.Rbtree.Update.{is_negative}
use yaeos.Rbtree.Found.{less_in, equal_in}
use yaeos.Rbtree.Least.{AllBelow}
use yaeos.Rbtree.LeastRound.{rbtree_search_min-Least}
use yaeos.Rbtree.Search.{rbtree_iter_range}

-- A loop over the nodes from one on that is equal to the lower bound or the first that is not less. When
-- all nodes are less than the lower bound, the run is a fault.
abbrev pub Ranged :
    {A : Type 0} → (ℕ → ℕ → ℤ) → (A → ℕ → A × Bool) → Store → ℕ → ℕ → A → Shape → Outcome A → Type 0
Ranged cmpf fn s value_from value_to data_ t run =
    ((run ≡ fault) × AllBelow (less_in cmpf s.node value_from) (inorder t))
    ⊎ ((lower : List ℕ) × (x : ℕ) × (upper : List ℕ) × (inorder t ≡ lower ++ x ∷ upper)
        × (less_in cmpf s.node value_from x ≡ false)
        × ((equal_in cmpf s.node value_from x ≡ true)
            ⊎ AllBelow (less_in cmpf s.node value_from) lower)
        × (run ≡ ok (each cmpf fn s value_to (x ∷ upper) data_)))

-- When the lower bound, which is not NULL, is below the upper one, in a tree of one node at least with the
-- nodes less than the lower bound first, `rbtree_iter_range` with more than three rounds for each node calls
-- the function on a node that is equal to the lower bound or the first that is not less, and on the nodes
-- after it from left to right, until one is above the upper bound or the function asks for no more. When all
-- nodes are less than the lower bound, it reads through NULL.
pub rbtree_iter_range-Ranged :
    {A : Type 0} (cmpf : ℕ → ℕ → ℤ) (fn : A → ℕ → A × Bool) (fuel : ℕ) (s : Store)
    (value_from value_to : ℕ) (data_ : A) (a : ℕ) (c : Colour) (l r : Shape)
    → value_from ≢ 0
    → is_negative (cmpf value_from value_to) ≡ true
    → StandsIn s top (fork a c l r)
    → Parted (less_in cmpf s.node value_from) (inorder (fork a c l r))
    → 3 * size (fork a c l r) < fuel
    → Ranged cmpf fn s value_from value_to data_
        (fork a c l r)
        (rbtree_iter_range cmpf fn fuel s value_from value_to data_)
unfolding rbtree_iter_range
rbtree_iter_range-Ranged cmpf fn fuel s value_from value_to data_ a c l r some order h parted
      enough =
    elim (rbtree_search_min-Least cmpf fuel s value_from a c l r some h parted (omega arith)) [
      | inl (run, less) ↦ inl (simp (order, run) refl, less)
      | inr (q, run, not_less, lower, nodes, first) ↦ inr (
        lower,
        q.node,
        inorder q.right ++ rest q.place,
        nodes,
        not_less,
        first,
        rbtree_iter_range-each cmpf fn fuel s value_from value_to data_ q.place q.node q.colour
            q.left q.right order q.stands run (subst (λ t. 3 * size t < fuel) (sym q.here) enough),
      )
    ]
