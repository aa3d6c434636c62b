-- ===== src/Rbtree/Swapped.antt =====
-- `rbt_swap_nodes` of kernel/lib/ds/rbtree.c, when the second node is the last of the first one's left subtree.
use yaeos.Prelude.{
  unfinished, ℕ, ◌+◌, ◌≡◌, ◌≢◌, ◌≤◌, refl, sym, ap, ◌∙◌, arith, false, ◌==◌, ==_ne, ==_refl,
  if◌then◌else◌, Outcome, ok, panic, fault, ◌>>=◌, ◌>>◌,
}
use mathlib.Core.Path.{subst}
use yaeos.Rbtree.{Colour, Store}
use yaeos.Rbtree.Shape.{
  Shape, leaf, fork, addr, count, Place, top, left_of, right_of, above, count_place, Linked,
}
use yaeos.Rbtree.Rotate.{StandsIn}
use yaeos.Rbtree.Climb.{Final, Final->>=, descend_left}
use yaeos.Rbtree.Line.{rbt_get_parent-run}
use yaeos.Rbtree.Spine.{
  Spine, tip, down, hang, head, bottom, count_spine, count-hang, addr-hang, Holds-hang, hang-Holds,
}
use yaeos.Rbtree.Swap.{SwapOnce}
use yaeos.Rbtree.SwapSteps.{PartsIn}
use yaeos.Rbtree.LiftOver.{lift_over-tip, lift_over-down}
use yaeos.Rbtree.PutDown.{put_down-tip, put_down-down}
use yaeos.Rbtree.WellLinked.{well_linked-StandsIn, place_of, StandsIn-place_of}
use yaeos.Rbtree.Delete.{lift_over, put_down, well_linked, rbt_swap_nodes}

above-ne : (k : Place) (y : ℕ) → y ≢ 0 → count_place y k ≡ 0 → above k ≢ y
unfolding count_place
above-ne top y some none e = some (sym e)
above-ne (left_of a c r k) y some none e = ground arith
above-ne (right_of a c l k) y some none e = ground arith

>>=-assoc :
    (o : Outcome Store) (f g : Store → Outcome Store) → (o >>= (λ s. f s >>= g)) ≡ (o >>= f >>= g)
>>=-assoc (ok s) f g = refl
>>=-assoc panic f g = refl
>>=-assoc fault f g = refl
>>=-assoc unfinished f g = refl

-- The assertions of the end.
abbrev closing : ℕ → ℕ → Store → Outcome Store
closing x y s = well_linked s x >> (well_linked s y >> ok s)

module _ (s : Store) (k : Place) (x y : ℕ) (c d : Colour) (tl tr : Shape) where
  -- The tree with the two nodes, and the tree with the nodes changed over.
  abbrev apart_by : Spine → ℕ → ℕ → Shape
  apart_by m first second = fork first c (hang m (fork second d tl leaf)) tr

  SwapOnce-apart_by :
      (m : Spine)
      → ((a : ℕ) → count_place a k + count a (apart_by m x y) ≤ 1)
      → SwapOnce k x y tl tr m
  unfolding count
  SwapOnce-apart_by m once a =
      let o = once a in let e = count-hang a m (fork y d tl leaf) in omega arith

  -- The parts before and after the exchange.
  abbrev Start : (m : Spine) → SwapOnce k x y tl tr m → Store → Type 0
  Start m once =
      PartsIn k x y tl tr m once x
        (record { left = head m y; right = addr tr; parent = above k; colour = c })
        (record { left = addr tl; right = 0; parent = bottom m x; colour = d }) y x x y

  abbrev End : (m : Spine) → SwapOnce k x y tl tr m → Store → Type 0
  End m once =
      PartsIn k x y tl tr m once y
        (record { left = addr tl; right = 0; parent = bottom m y; colour = d })
        (record { left = head m x; right = addr tr; parent = above k; colour = c }) x y y x

  Start-StandsIn :
      (m : Spine) (once : SwapOnce k x y tl tr m) → StandsIn s k (apart_by m x y) → Start m once s
  Start-StandsIn m once h =
      let (at_x, left, right) = h.held in
      let (along, below) = Holds-hang m (fork y d tl leaf) s.node x left in
      let (at_y, under, _) = below in
      record {
        around = h.around;
        first =
            subst (λ i. Linked s.node x i (addr tr) (above k) c) (addr-hang m (fork y d tl leaf))
              at_x;
        second = at_y;
        tree_l = under;
        tree_r = right;
        along = along;
      }

  StandsIn-End :
      (m : Spine) (once : SwapOnce k x y tl tr m) (s' : Store)
      → End m once s'
      → StandsIn s' k (apart_by m y x)
  unfolding count
  StandsIn-End m once s' p = record {
    around = p.around;
    held = (
      subst (λ i. Linked s'.node y i (addr tr) (above k) c) (sym (addr-hang m (fork x d tl leaf)))
          p.second,
      hang-Holds m (fork x d tl leaf) s'.node y p.along (p.first, p.tree_l, tt),
      p.tree_r,
    );
    once = λ a. let o = once a in let e = count-hang a m (fork x d tl leaf) in omega arith;
  }

  -- The two halves.
  abbrev exchange : Outcome Store
  exchange = lift_over s x y >>= (λ s₁. put_down s₁ x y (s.node y))

  exchange-tip :
      (once : SwapOnce k x y tl tr tip) → Start tip once s → Final s exchange (End tip once)
  exchange-tip once p =
      let e = ==_refl y in
      let h = p.second in
      Final->>= s (lift_over s x y) (λ s₁. put_down s₁ x y (s.node y)) _ _
        (lift_over-tip k x y tl tr c y x y x s
          (record { left = addr tl; right = 0; parent = x; colour = d }) once
          (record {
            around = p.around;
            first = p.first;
            second = h;
            tree_l = p.tree_l;
            tree_r = p.tree_r;
            along = tt;
          }))
        (λ s₁ p₁.
          put_down-tip k x y tl tr y
            (record { left = y; right = addr tr; parent = above k; colour = c })
            (record { left = x; right = addr tr; parent = above k; colour = c }) d y y y s₁
            (s.node y) x once h.left_link h.right_link h.parent_link h.has_colour
            (subst
              (λ b.
                PartsIn k x y tl tr tip once y
                  (record { left = y; right = addr tr; parent = above k; colour = c })
                  (record {
                    left = if b then x else y;
                    right = addr tr;
                    parent = above k;
                    colour = c;
                  })
                  y y y x s₁)
              e p₁))

  exchange-down :
      (a : ℕ) (e : Colour) (l : Shape) (m : Spine) (once : SwapOnce k x y tl tr (down a e l m))
      → Start (down a e l m) once s
      → Final s exchange (End (down a e l m) once)
  unfolding count_spine
  exchange-down a e l m once p =
      let o = once y in
      let r = ==_refl y in
      let other : (a == y) ≡ false = ==_ne a y (ground arith) in
      let h = p.second in
      Final->>= s (lift_over s x y) (λ s₁. put_down s₁ x y (s.node y)) _ _
        (lift_over-down k x y tl tr c y x x y s
          (record { left = addr tl; right = 0; parent = bottom m a; colour = d }) a e l m once p)
        (λ s₁ p₁.
          put_down-down k x y tl tr y
            (record { left = a; right = addr tr; parent = above k; colour = c })
            (record { left = a; right = addr tr; parent = above k; colour = c }) d y y y s₁
            (s.node y) a e l m once h.left_link h.right_link h.parent_link h.has_colour
            (subst
              (λ b.
                PartsIn k x y tl tr (down a e l m) once y
                  (record { left = a; right = addr tr; parent = above k; colour = c })
                  (record {
                    left = if b then x else a;
                    right = addr tr;
                    parent = above k;
                    colour = c;
                  })
                  y y y y s₁)
              other p₁))

  exchange-Final :
      (m : Spine) (once : SwapOnce k x y tl tr m) → Start m once s → Final s exchange (End m once)
  exchange-Final tip once p = exchange-tip once p
  exchange-Final (down a e l m) once p = exchange-down a e l m once p

  swap-start :
      x ≢ 0
      → y ≢ 0
      → above k ≢ y
      → (s.node x).parent ≡ above k
      → rbt_swap_nodes s x y
        ≡ (lift_over s x y >>= (λ s₁. put_down s₁ x y (s.node y) >>= closing x y))
  unfolding rbt_swap_nodes
  swap-start some_x some_y ne up =
      rw
        (
          ==_ne x 0 some_x,
          ==_ne y 0 some_y,
          rbt_get_parent-run s x (above k) some_x up,
          ==_ne (above k) y ne,
        )
        refl

  -- In the nodes that hold a tree, `rbt_swap_nodes` of a node and the last node of its left subtree ends
  -- without a fault or a failed assertion: the two nodes change places and colours, and the rest of the
  -- tree, and all contents, stay.
  pub rbt_swap_nodes-Final :
      (m : Spine)
      → StandsIn s k (fork x c (hang m (fork y d tl leaf)) tr)
      → Final s
          (rbt_swap_nodes s x y)
          (λ s'. StandsIn s' k (fork y c (hang m (fork x d tl leaf)) tr))
  rbt_swap_nodes-Final m h =
      let once = SwapOnce-apart_by m h.once in
      let p = Start-StandsIn m once h in
      let (s', run, q, same) = exchange-Final m once p in
      let h' = StandsIn-End m once s' q in
      let o = once y in
      let e = ==_refl y in
      let lower =
        StandsIn-place_of m s' (left_of y c tr k) (fork x d tl leaf)
          (descend_left s' k y c (hang m (fork x d tl leaf)) tr h') in
      (
        s',
        swap-start p.first.some_node p.second.some_node
              (above-ne k y p.second.some_node (ground arith)) p.first.parent_link
            ∙ >>=-assoc (lift_over s x y) (λ s₁. put_down s₁ x y (s.node y)) (closing x y)
            ∙ ap (λ r. r >>= closing x y) run
            ∙ rw
                (
                  well_linked-StandsIn s' (place_of m (left_of y c tr k)) x d tl leaf lower,
                  well_linked-StandsIn s' k y c (hang m (fork x d tl leaf)) tr h',
                )
                refl,
        h',
        same,
      )
