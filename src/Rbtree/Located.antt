-- ===== src/Rbtree/Located.antt =====
-- The place of a node in a tree of kernel/lib/ds/rbtree.c.
use yaeos.Prelude.{ℕ, ◌≤◌, ◌≡◌, ap, arith, inl, inr, Bool-cases, ◌==◌}
use yaeos.Rbtree.{Colour, Store}
use yaeos.Rbtree.Shape.{Shape, leaf, fork, count, Place, top, left_of, right_of, plug}
use yaeos.Rbtree.Rotate.{StandsIn}
use yaeos.Rbtree.Climb.{descend_left, descend_right}

pub locate :
    (x : ℕ) (t : Shape) (k : Place)
    → 1 ≤ count x t
    → (k' : Place) × (c : Colour) × (l r : Shape) × (plug k' (fork x c l r) ≡ plug k t)
unfolding count
locate x leaf k there = absurd (omega arith)
locate x (fork a c l r) k there = elim (Bool-cases (x == a)) [
  | inl e ↦ (k, c, l, r, ap (λ i. plug k (fork i c l r)) (ground arith))
  | inr e ↦ elim (Bool-cases (count x l == 0)) [
    | inl none ↦ locate x r (right_of a c l k) (ground arith)
    | inr some ↦ locate x l (left_of a c r k) (ground arith)
  ]
]

pub StandsIn-unplug :
    (s : Store) (k : Place) (t : Shape) → StandsIn s top (plug k t) → StandsIn s k t
StandsIn-unplug s top t h = h
StandsIn-unplug s (left_of a c r k) t h =
    descend_left s k a c t r (StandsIn-unplug s k (fork a c t r) h)
StandsIn-unplug s (right_of a c l k) t h =
    descend_right s k a c l t (StandsIn-unplug s k (fork a c l t) h)
