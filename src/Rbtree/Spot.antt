-- ===== src/Rbtree/Spot.antt =====
-- The loops of `rbtree_search_min` of kernel/lib/ds/rbtree.c on the nodes of a tree.
use yaeos.Prelude.{
  ℕ, zero, suc, ◌<◌, ◌≤◌, ◌≡◌, ◌≢◌, ◌⊎◌, inl, inr, refl, ◌∙◌, arith, true, false, Bool-cases, ==_ne,
  ℤ, pos, negsuc, ok,
}
use yaeos.Rbtree.{Colour, Store}
use yaeos.Rbtree.Shape.{Shape, leaf, fork, Place, top, left_of, right_of, plug}
use yaeos.Rbtree.Rotate.{StandsIn}
use yaeos.Rbtree.Climb.{descend_left, descend_right}
use yaeos.Rbtree.Attach.{size}
use yaeos.Rbtree.Update.{is_positive, is_negative}
use yaeos.Rbtree.Search.{leftward, rightward}

module _ (cmpf : ℕ → ℕ → ℤ) (s : Store) (limit : ℕ) (whole : Shape) where
  -- How a node compares with the limit.
  abbrev pub sign : ℕ → ℤ
  sign a = cmpf (s.node a).content limit

  -- The search went to the left below greater nodes and to the right below lesser ones.
  abbrev pub Bound : Place → Type 0
  Bound top = Unit {0}
  Bound (left_of a c r k) = (is_positive (sign a) ≡ true) × Bound k
  Bound (right_of a c l k) = (is_negative (sign a) ≡ true) × Bound k

  -- A node of the tree where the cursor may be.
  pub record Spot : Type 0 where
    pub place : Place
    pub node : ℕ
    pub colour : Colour
    pub left : Shape
    pub right : Shape
    pub stands : StandsIn s place (fork node colour left right)
    pub bound : Bound place
    pub here : plug place (fork node colour left right) ≡ whole

  abbrev pub nodes_below : Spot → ℕ
  nodes_below p = size (fork p.node p.colour p.left p.right)

  module _ (fuel a b : ℕ) (some_a : a ≢ 0) (some_b : b ≢ 0) where
    leftward-further :
        is_positive (sign a) ≡ true
        → (s.node a).left ≡ b
        → leftward cmpf s limit (suc fuel) a (sign a) ≡ leftward cmpf s limit fuel b (sign b)
    unfolding leftward
    leftward-further e link = simp (e, link, ==_ne b 0 some_b) refl

    rightward-further :
        is_negative (sign a) ≡ true
        → (s.node a).right ≡ b
        → rightward cmpf s limit (suc fuel) a (sign a) ≡ rightward cmpf s limit fuel b (sign b)
    unfolding rightward
    rightward-further e link = simp (e, link, ==_ne b 0 some_b) refl

  pub leftward-Spot :
      (fuel : ℕ) (k : Place) (a : ℕ) (c : Colour) (l r : Shape)
      → size (fork a c l r) ≤ fuel
      → StandsIn s k (fork a c l r)
      → Bound k
      → plug k (fork a c l r) ≡ whole
      → (q : Spot) × (leftward cmpf s limit fuel a (sign a) ≡ ok (q.node, sign q.node))
        × (nodes_below q ≤ size (fork a c l r))
        × (((q.node ≡ a) × (q.right ≡ r)) ⊎ (nodes_below q < size (fork a c l r)))
        × ((is_positive (sign q.node) ≡ false) ⊎ (q.left ≡ leaf))
  unfolding leftward
  leftward-Spot zero k a c l r enough h bound here = absurd (omega arith)
  leftward-Spot (suc fuel) k a c leaf r enough h bound here = (
    record {
      place = k;
      node = a;
      colour = c;
      left = leaf;
      right = r;
      stands = h;
      bound = bound;
      here = here;
    },
    elim (Bool-cases (is_positive (sign a))) [
      | inl e ↦ simp (e, h.held.0.left_link) refl
      | inr e ↦ simp e refl
    ],
    omega arith,
    inl (refl, refl),
    inr refl,
  )
  leftward-Spot (suc fuel) k a c (fork b d u v) r enough h bound here =
      elim (Bool-cases (is_positive (sign a))) [
        | inl e ↦
            let (q, run, less, moved, stop) =
              leftward-Spot fuel (left_of a c r k) b d u v (omega arith)
                (descend_left s k a c (fork b d u v) r h) (e, bound) here in
            (
              q,
              leftward-further fuel a b h.held.0.some_node h.held.1.0.some_node e h.held.0.left_link
                  ∙ run,
              omega arith,
              inr (omega arith),
              stop,
            )
        | inr e ↦ (
          record {
            place = k;
            node = a;
            colour = c;
            left = fork b d u v;
            right = r;
            stands = h;
            bound = bound;
            here = here;
          },
          simp e refl,
          omega arith,
          inl (refl, refl),
          inl e,
        )
      ]

  pub rightward-Spot :
      (fuel : ℕ) (k : Place) (a : ℕ) (c : Colour) (l r : Shape)
      → size (fork a c l r) ≤ fuel
      → StandsIn s k (fork a c l r)
      → Bound k
      → plug k (fork a c l r) ≡ whole
      → (q : Spot) × (rightward cmpf s limit fuel a (sign a) ≡ ok (q.node, sign q.node))
        × (nodes_below q ≤ size (fork a c l r))
        × (((q.node ≡ a) × (q.left ≡ l)) ⊎ (nodes_below q < size (fork a c l r)))
        × ((is_negative (sign q.node) ≡ false) ⊎ (q.right ≡ leaf))
  unfolding rightward
  rightward-Spot zero k a c l r enough h bound here = absurd (omega arith)
  rightward-Spot (suc fuel) k a c l leaf enough h bound here = (
    record {
      place = k;
      node = a;
      colour = c;
      left = l;
      right = leaf;
      stands = h;
      bound = bound;
      here = here;
    },
    elim (Bool-cases (is_negative (sign a))) [
      | inl e ↦ simp (e, h.held.0.right_link) refl
      | inr e ↦ simp e refl
    ],
    omega arith,
    inl (refl, refl),
    inr refl,
  )
  rightward-Spot (suc fuel) k a c l (fork b d u v) enough h bound here =
      elim (Bool-cases (is_negative (sign a))) [
        | inl e ↦
            let (q, run, at_most, less, stop) =
              rightward-Spot fuel (right_of a c l k) b d u v (omega arith)
                (descend_right s k a c l (fork b d u v) h) (e, bound) here in
            (
              q,
              rightward-further fuel a b h.held.0.some_node h.held.2.0.some_node e
                    h.held.0.right_link
                  ∙ run,
              omega arith,
              inr (omega arith),
              stop,
            )
        | inr e ↦ (
          record {
            place = k;
            node = a;
            colour = c;
            left = l;
            right = fork b d u v;
            stands = h;
            bound = bound;
            here = here;
          },
          simp e refl,
          omega arith,
          inl (refl, refl),
          inl e,
        )
      ]

  pub positive-not-negative : (z : ℤ) → is_positive z ≡ true → is_negative z ≡ false
  positive-not-negative (pos n) e = refl
  positive-not-negative (negsuc n) e = cc
