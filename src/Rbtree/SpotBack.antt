-- ===== src/Rbtree/SpotBack.antt =====
-- The ways back of `rbtree_search_min` and `rbtree_search_max` of kernel/lib/ds/rbtree.c.
use yaeos.Prelude.{
  ℕ, zero, suc, ◌<◌, ◌≡◌, ◌≢◌, ◌⊎◌, inl, inr, refl, ◌∙◌, arith, true, false, ==_ne, ◌++◌, ◌∷◌, [],
  ℤ, pos, negsuc, ok, fault,
}
use yaeos.Rbtree.{Store}
use yaeos.Rbtree.Shape.{Shape, fork, inorder, Place, top, left_of, right_of, above, plug}
use yaeos.Rbtree.Rotate.{StandsIn}
use yaeos.Rbtree.Climb.{climb_left, climb_right}
use yaeos.Rbtree.RedUncle.{depth}
use yaeos.Rbtree.Range.{before, rest}
use yaeos.Rbtree.Line.{rbt_get_parent-run}
use yaeos.Rbtree.Update.{is_positive, is_negative}
use yaeos.Rbtree.Search.{back_up}
use yaeos.Rbtree.Spot.{sign, Bound, Spot, positive-not-negative}
use yaeos.Rbtree.Search.{back_down}

module _ (cmpf : ℕ → ℕ → ℤ) (s : Store) (limit : ℕ) (whole : Shape) where
  back_up-further :
      (fuel a b : ℕ)
      → a ≢ 0
      → b ≢ 0
      → is_negative (sign cmpf s limit whole a) ≡ true
      → (s.node a).parent ≡ b
      → back_up cmpf s limit (suc fuel) a (sign cmpf s limit whole a)
        ≡ back_up cmpf s limit fuel b (sign cmpf s limit whole b)
  unfolding back_up
  back_up-further fuel a b some_a some_b e link =
      simp (e, rbt_get_parent-run s a b some_a link, ==_ne b 0 some_b) refl

  -- The way back ends at the node after the ones that it leaves, or past the root.
  pub back_up-Spot :
      (fuel : ℕ) (k : Place) (t : Shape) (a : ℕ)
      → depth k < fuel
      → a ≢ 0
      → is_negative (sign cmpf s limit whole a) ≡ true
      → (s.node a).parent ≡ above k
      → StandsIn s k t
      → Bound cmpf s limit whole k
      → plug k t ≡ whole
      → ((back_up cmpf s limit fuel a (sign cmpf s limit whole a) ≡ fault) × (rest k ≡ []))
        ⊎ ((q : Spot cmpf s limit whole) × (back_up cmpf s limit fuel a (sign cmpf s limit whole a)
              ≡ ok (q.node, sign cmpf s limit whole q.node))
            × (is_positive (sign cmpf s limit whole q.node) ≡ true)
            × (rest k ≡ q.node ∷ (inorder q.right ++ rest q.place)))
  unfolding back_up
  back_up-Spot zero k t a enough some e up h bound here = absurd (omega arith)
  back_up-Spot (suc fuel) top t a enough some e up h bound here =
      inl (simp (e, rbt_get_parent-run s a 0 some up) refl, refl)
  back_up-Spot (suc zero) (left_of b d r k) t a enough some e up h bound here = absurd (omega arith)
  back_up-Spot (suc (suc fuel)) (left_of b d r k) t a enough some e up h (e', bound) here =
      let h' = climb_left s k b d t r h in
      inr (
        record {
          place = k;
          node = b;
          colour = d;
          left = t;
          right = r;
          stands = h';
          bound = bound;
          here = here;
        },
        back_up-further (suc fuel) a b some h'.held.0.some_node e up
            ∙ simp (positive-not-negative cmpf s limit whole (sign cmpf s limit whole b) e') refl,
        e',
        refl,
      )
  back_up-Spot (suc fuel) (right_of b d l k) t a enough some e up h (e', bound) here =
      let h' = climb_right s k b d l t h in
      let further = back_up-further fuel a b some h'.held.0.some_node e up in
      elim (back_up-Spot fuel k (fork b d l t) b (omega arith) h'.held.0.some_node e'
        h'.held.0.parent_link h' bound here) [
          | inl (run, end) ↦ inl (further ∙ run, end)
          | inr (q, run, above_limit, next) ↦ inr (q, further ∙ run, above_limit, next)
        ]

  back_down-further :
      (fuel a b : ℕ)
      → a ≢ 0
      → b ≢ 0
      → is_positive (sign cmpf s limit whole a) ≡ true
      → (s.node a).parent ≡ b
      → back_down cmpf s limit (suc fuel) a (sign cmpf s limit whole a)
        ≡ back_down cmpf s limit fuel b (sign cmpf s limit whole b)
  unfolding back_down
  back_down-further fuel a b some_a some_b e link =
      simp (e, rbt_get_parent-run s a b some_a link, ==_ne b 0 some_b) refl

  pub negative-not-positive : (z : ℤ) → is_negative z ≡ true → is_positive z ≡ false
  negative-not-positive (pos n) e = cc
  negative-not-positive (negsuc n) e = refl

  -- The way back ends at the node before the ones that it leaves, or at the root.
  pub back_down-Spot :
      (fuel : ℕ) (k : Place) (t : Shape) (a : ℕ)
      → depth k < fuel
      → a ≢ 0
      → is_positive (sign cmpf s limit whole a) ≡ true
      → (s.node a).parent ≡ above k
      → StandsIn s k t
      → Bound cmpf s limit whole k
      → plug k t ≡ whole
      → ((b : ℕ) × (back_down cmpf s limit fuel a (sign cmpf s limit whole a)
            ≡ ok (b, sign cmpf s limit whole b))
          × (is_positive (sign cmpf s limit whole b) ≡ true)
          × (before k ≡ []))
        ⊎ ((q : Spot cmpf s limit whole) × (back_down cmpf s limit fuel a
                (sign cmpf s limit whole a)
              ≡ ok (q.node, sign cmpf s limit whole q.node))
            × (is_negative (sign cmpf s limit whole q.node) ≡ true)
            × (before k ≡ before q.place ++ (inorder q.left ++ q.node ∷ [])))
  unfolding back_down before
  back_down-Spot zero k t a enough some e up h bound here = absurd (omega arith)
  back_down-Spot (suc fuel) top t a enough some e up h bound here =
      inl (a, simp (e, rbt_get_parent-run s a 0 some up) refl, e, refl)
  back_down-Spot (suc zero) (right_of b d l k) t a enough some e up h bound here =
      absurd (omega arith)
  back_down-Spot (suc (suc fuel)) (right_of b d l k) t a enough some e up h (e', bound) here =
      let h' = climb_right s k b d l t h in
      inr (
        record {
          place = k;
          node = b;
          colour = d;
          left = l;
          right = t;
          stands = h';
          bound = bound;
          here = here;
        },
        back_down-further (suc fuel) a b some h'.held.0.some_node e up
            ∙ simp (negative-not-positive (sign cmpf s limit whole b) e') refl,
        e',
        refl,
      )
  back_down-Spot (suc fuel) (left_of b d r k) t a enough some e up h (e', bound) here =
      let h' = climb_left s k b d t r h in
      let further = back_down-further fuel a b some h'.held.0.some_node e up in
      elim (back_down-Spot fuel k (fork b d t r) b (omega arith) h'.held.0.some_node e'
        h'.held.0.parent_link h' bound here) [
          | inl (i, run, over, end) ↦ inl (i, further ∙ run, over, end)
          | inr (q, run, below_limit, next) ↦ inr (q, further ∙ run, below_limit, next)
        ]
