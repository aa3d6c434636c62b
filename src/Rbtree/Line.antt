-- ===== src/Rbtree/Line.antt =====
-- The rotations of `rbt_insert_fix` in kernel/lib/ds/rbtree.c: a triangle becomes a line, and the line turns.
use yaeos.Prelude.{ℕ, ◌≡◌, ◌≢◌, refl, sym, ap, ◌∙◌, ==_ne, ==_refl, Outcome, ok, ◌>>=◌}
use yaeos.Rbtree.{
  Colour, black, red, Store, rbt_set_colour, rbt_get_parent, rbt_get_grandparent, rbt_rotate_left,
  rbt_rotate_right,
}
use yaeos.Rbtree.Shape.{Shape, fork, Place, left_of, right_of}
use yaeos.Rbtree.Rotate.{StandsIn, rbt_rotate_left-Leaves, rbt_rotate_right-Leaves}
use yaeos.Rbtree.Climb.{
  Final, Final->>=, Final-weaken, climb_left, climb_right, descend_left, descend_right,
  rbt_set_colour-Final, children-apart_right,
}
use yaeos.Rbtree.Update.{rotate_line}

-- The two colours at the end of `rotate_line`.
abbrev paint : Store → ℕ → ℕ → Outcome Store
paint s parent grandparent =
    rbt_set_colour s parent black >>= (λ s'. rbt_set_colour s' grandparent red)

pub rbt_get_parent-run :
    (s : Store) (x p : ℕ) → x ≢ 0 → (s.node x).parent ≡ p → rbt_get_parent s x ≡ ok p
unfolding rbt_get_parent
rbt_get_parent-run s x p some up = rw (==_ne x 0 some) (ap ok up)

module _ (s : Store) (x p g : ℕ) (some_x : x ≢ 0) (some_p : p ≢ 0) (some_g : g ≢ 0) where
  module _ (up_x : (s.node x).parent ≡ p) (up_p : (s.node p).parent ≡ g) where
    pub rbt_get_grandparent-run : rbt_get_grandparent s x ≡ ok g
    unfolding rbt_get_grandparent
    rbt_get_grandparent-run =
        let ex = ==_ne x 0 some_x in
        let ep = ==_ne p 0 some_p in
        let eg = ==_ne g 0 some_g in
        simp
          (ex, ep, eg, rbt_get_parent-run s x p some_x up_x, rbt_get_parent-run s p g some_p up_p)
          refl

    rotate_line-right :
        (s.node p).left ≡ x
        → (s.node g).left ≡ p
        → rotate_line s x ≡ (rbt_rotate_right s g >>= (λ s'. paint s' p g))
    unfolding rotate_line
    rotate_line-right in_p in_g =
        let ep = ==_ne p 0 some_p in
        let eg = ==_ne g 0 some_g in
        let ux = rbt_get_parent-run s x p some_x up_x in
        simp (ux, rbt_get_grandparent-run, ep, eg, in_p, in_g, ==_refl x, ==_refl p) refl

    rotate_line-left :
        (s.node p).left ≢ x
        → (s.node p).right ≡ x
        → (s.node g).right ≡ p
        → rotate_line s x ≡ (rbt_rotate_left s g >>= (λ s'. paint s' p g))
    unfolding rotate_line
    rotate_line-left out_p in_p in_g =
        let ep = ==_ne p 0 some_p in
        let eg = ==_ne g 0 some_g in
        let ux = rbt_get_parent-run s x p some_x up_x in
        let other = ==_ne x (s.node p).left (λ e. out_p (sym e)) in
        simp (ux, rbt_get_grandparent-run, ep, eg, other, in_p, in_g, ==_refl x, ==_refl p) refl

module _ (s : Store) (k : Place) (p g : ℕ) (cp cg : Colour) (ta tb tc : Shape) where
  paint-Final_right :
      StandsIn s k (fork p cp ta (fork g cg tb tc))
      → Final s (paint s p g) (λ s'. StandsIn s' k (fork p black ta (fork g red tb tc)))
  paint-Final_right h =
      Final->>= s (rbt_set_colour s p black) (λ s'. rbt_set_colour s' g red)
        (λ s'. StandsIn s' k (fork p black ta (fork g cg tb tc)))
        (λ s'. StandsIn s' k (fork p black ta (fork g red tb tc)))
        (rbt_set_colour-Final s k p cp ta (fork g cg tb tc) black h)
        (λ s₁ h₁.
          Final-weaken s₁ (rbt_set_colour s₁ g red)
            (λ s'. StandsIn s' (right_of p black ta k) (fork g red tb tc))
            (λ s'. StandsIn s' k (fork p black ta (fork g red tb tc)))
            (rbt_set_colour-Final s₁ (right_of p black ta k) g cg tb tc red
              (descend_right s₁ k p black ta (fork g cg tb tc) h₁))
            (λ s'. climb_right s' k p black ta (fork g red tb tc)))

  paint-Final_left :
      StandsIn s k (fork p cp (fork g cg ta tb) tc)
      → Final s (paint s p g) (λ s'. StandsIn s' k (fork p black (fork g red ta tb) tc))
  paint-Final_left h =
      Final->>= s (rbt_set_colour s p black) (λ s'. rbt_set_colour s' g red)
        (λ s'. StandsIn s' k (fork p black (fork g cg ta tb) tc))
        (λ s'. StandsIn s' k (fork p black (fork g red ta tb) tc))
        (rbt_set_colour-Final s k p cp (fork g cg ta tb) tc black h)
        (λ s₁ h₁.
          Final-weaken s₁ (rbt_set_colour s₁ g red)
            (λ s'. StandsIn s' (left_of p black tc k) (fork g red ta tb))
            (λ s'. StandsIn s' k (fork p black (fork g red ta tb) tc))
            (rbt_set_colour-Final s₁ (left_of p black tc k) g cg ta tb red
              (descend_left s₁ k p black (fork g cg ta tb) tc h₁))
            (λ s'. climb_left s' k p black (fork g red ta tb) tc))

module _ (s : Store) (k : Place) (x p g : ℕ) (cx cp cg : Colour) (ta tb tc td : Shape) where
  -- A line on the left turns to the right.
  pub rotate_line-Final_right :
      StandsIn s k (fork g cg (fork p cp (fork x cx ta tb) tc) td)
      → Final s
          (rotate_line s x)
          (λ s'. StandsIn s' k (fork p black (fork x cx ta tb) (fork g red tc td)))
  rotate_line-Final_right h =
      let (at_g, (at_p, (at_x, _, _), _), _) = h.held in
      let run =
        rotate_line-right s x p g at_x.some_node at_p.some_node at_g.some_node at_x.parent_link
          at_p.parent_link at_p.left_link at_g.left_link in
      rw run (
        Final->>= s (rbt_rotate_right s g) (λ s'. paint s' p g)
          (λ s'. StandsIn s' k (fork p cp (fork x cx ta tb) (fork g cg tc td)))
          (λ s'. StandsIn s' k (fork p black (fork x cx ta tb) (fork g red tc td)))
          (rbt_rotate_right-Leaves k g p cg cp (fork x cx ta tb) tc td s h)
          (λ s'. paint-Final_right s' k p g cp cg (fork x cx ta tb) tc td))

  -- A line on the right turns to the left.
  pub rotate_line-Final_left :
      StandsIn s k (fork g cg td (fork p cp tc (fork x cx ta tb)))
      → Final s
          (rotate_line s x)
          (λ s'. StandsIn s' k (fork p black (fork g red td tc) (fork x cx ta tb)))
  rotate_line-Final_left h =
      let (at_g, _, (at_p, _, (at_x, _, _))) = h.held in
      let other =
        children-apart_right (right_of g cg td k) p x cp cx ta tb tc at_x.some_node
          (descend_right s k g cg td (fork p cp tc (fork x cx ta tb)) h).once in
      let run =
        rotate_line-left s x p g at_x.some_node at_p.some_node at_g.some_node at_x.parent_link
          at_p.parent_link (λ e. other (sym at_p.left_link ∙ e)) at_p.right_link at_g.right_link in
      rw run (
        Final->>= s (rbt_rotate_left s g) (λ s'. paint s' p g)
          (λ s'. StandsIn s' k (fork p cp (fork g cg td tc) (fork x cx ta tb)))
          (λ s'. StandsIn s' k (fork p black (fork g red td tc) (fork x cx ta tb)))
          (rbt_rotate_left-Leaves k g p cg cp td tc (fork x cx ta tb) s h)
          (λ s'. paint-Final_left s' k p g cp cg td tc (fork x cx ta tb)))
