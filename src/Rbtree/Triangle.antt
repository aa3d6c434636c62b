-- ===== src/Rbtree/Triangle.antt =====
-- The black uncle in `rbt_insert_fix` of kernel/lib/ds/rbtree.c, on each of the four ways down to the node.
use yaeos.Prelude.{ℕ, ◌≡◌, ◌≢◌, refl, sym, ap, ◌∙◌, ==_ne, ==_refl, Outcome, ok, ◌>>=◌}
use yaeos.Rbtree.{Colour, black, red, Store, rbt_rotate_left, rbt_rotate_right}
use yaeos.Rbtree.Shape.{Shape, fork, Place, left_of, right_of}
use yaeos.Rbtree.Rotate.{StandsIn, rbt_rotate_left-Leaves, rbt_rotate_right-Leaves}
use yaeos.Rbtree.Climb.{
  Final, climb_left, climb_right, descend_left, descend_right, children-apart, children-apart_right,
}
use yaeos.Rbtree.Line.{rotate_line-Final_left, rotate_line-Final_right}
use yaeos.Rbtree.Update.{straighten, rotate_line}

-- The statements for a black uncle.
abbrev pub turn : Store → ℕ → ℕ → ℕ → Outcome Store
turn s node parent grandparent = straighten s node parent grandparent >>= (λ r. rotate_line r.0 r.1)

module _ (s : Store) (x p g : ℕ) (some_x : x ≢ 0) (some_p : p ≢ 0) (some_g : g ≢ 0) where
  straighten-line_left :
      (s.node p).left ≡ x
      → (s.node p).right ≢ x
      → (s.node g).right ≢ p
      → straighten s x p g ≡ ok (s, x)
  unfolding straighten
  straighten-line_left in_x out_x out_p =
      let ep = ==_ne p 0 some_p in
      let eg = ==_ne g 0 some_g in
      let e₁ = ==_ne x (s.node p).right (λ e. out_x (sym e)) in
      let e₂ = ==_ne p (s.node g).right (λ e. out_p (sym e)) in
      simp (ep, eg, e₁, e₂, in_x, ==_refl x) refl

  straighten-line_right :
      (s.node p).right ≡ x
      → (s.node p).left ≢ x
      → (s.node g).left ≢ p
      → straighten s x p g ≡ ok (s, x)
  unfolding straighten
  straighten-line_right in_x out_x out_p =
      let ep = ==_ne p 0 some_p in
      let eg = ==_ne g 0 some_g in
      let e₁ = ==_ne x (s.node p).left (λ e. out_x (sym e)) in
      let e₂ = ==_ne p (s.node g).left (λ e. out_p (sym e)) in
      simp (ep, eg, e₁, e₂, in_x, ==_refl x) refl

  straighten-inner_right :
      (s₁ : Store)
      → (s.node p).right ≡ x
      → (s.node g).left ≡ p
      → rbt_rotate_left s p ≡ ok s₁
      → straighten s x p g ≡ ok (s₁, (s₁.node x).left)
  unfolding straighten
  straighten-inner_right s₁ in_p in_g run =
      let ex = ==_ne x 0 some_x in
      let ep = ==_ne p 0 some_p in
      let eg = ==_ne g 0 some_g in simp (ep, eg, in_p, in_g, ==_refl x, ==_refl p, run, ex) refl

  straighten-inner_left :
      (s₁ : Store)
      → (s.node p).right ≢ x
      → (s.node p).left ≡ x
      → (s.node g).right ≡ p
      → rbt_rotate_right s p ≡ ok s₁
      → straighten s x p g ≡ ok (s₁, (s₁.node x).right)
  unfolding straighten
  straighten-inner_left s₁ out_p in_p in_g run =
      let ex = ==_ne x 0 some_x in
      let ep = ==_ne p 0 some_p in
      let eg = ==_ne g 0 some_g in
      let other = ==_ne x (s.node p).right (λ e. out_p (sym e)) in
      simp (ep, eg, other, in_p, in_g, ==_refl x, ==_refl p, run, ex) refl

module _ (s : Store) (k : Place) (x p g : ℕ) (cx cp cg : Colour) (ta tb tc td : Shape) where
  pub turn-Final_left_left :
      StandsIn s k (fork g cg (fork p cp (fork x cx ta tb) tc) td)
      → Final s
          (turn s x p g)
          (λ s'. StandsIn s' k (fork p black (fork x cx ta tb) (fork g red tc td)))
  turn-Final_left_left h =
      let (at_g, (at_p, (at_x, _, _), _), _) = h.held in
      let below = descend_left s k g cg (fork p cp (fork x cx ta tb) tc) td h in
      let out_x = children-apart (left_of g cg td k) p x cp cx ta tb tc at_x.some_node below.once in
      let out_p = children-apart k g p cg cp (fork x cx ta tb) tc td at_p.some_node h.once in
      let run =
        straighten-line_left s x p g at_x.some_node at_p.some_node at_g.some_node at_p.left_link
          (λ e. out_x (sym at_p.right_link ∙ e)) (λ e. out_p (sym at_g.right_link ∙ e)) in
      rw run (rotate_line-Final_right s k x p g cx cp cg ta tb tc td h)

  pub turn-Final_right_right :
      StandsIn s k (fork g cg td (fork p cp tc (fork x cx ta tb)))
      → Final s
          (turn s x p g)
          (λ s'. StandsIn s' k (fork p black (fork g red td tc) (fork x cx ta tb)))
  turn-Final_right_right h =
      let (at_g, _, (at_p, _, (at_x, _, _))) = h.held in
      let below = descend_right s k g cg td (fork p cp tc (fork x cx ta tb)) h in
      let out_x =
        children-apart_right (right_of g cg td k) p x cp cx ta tb tc at_x.some_node below.once in
      let out_p = children-apart_right k g p cg cp tc (fork x cx ta tb) td at_p.some_node h.once in
      let run =
        straighten-line_right s x p g at_x.some_node at_p.some_node at_g.some_node at_p.right_link
          (λ e. out_x (sym at_p.left_link ∙ e)) (λ e. out_p (sym at_g.left_link ∙ e)) in
      rw run (rotate_line-Final_left s k x p g cx cp cg ta tb tc td h)

  pub turn-Final_left_right :
      StandsIn s k (fork g cg (fork p cp tc (fork x cx ta tb)) td)
      → Final s
          (turn s x p g)
          (λ s'. StandsIn s' k (fork x black (fork p cp tc ta) (fork g red tb td)))
  turn-Final_left_right h =
      let (at_g, (at_p, _, (at_x, _, _)), _) = h.held in
      let below = descend_left s k g cg (fork p cp tc (fork x cx ta tb)) td h in
      let (s₁, run, below₁, same) =
        rbt_rotate_left-Leaves (left_of g cg td k) p x cp cx tc ta tb s below in
      let (at_x₁, _, _) = below₁.held in
      let straight =
        straighten-inner_right s x p g at_x.some_node at_p.some_node at_g.some_node s₁
          at_p.right_link at_g.left_link run in
      let h₁ = climb_left s₁ k g cg (fork x cx (fork p cp tc ta) tb) td below₁ in
      let (s₂, ends, h₂, same₂) = rotate_line-Final_right s₁ k p x g cp cx cg tc ta tb td h₁ in
      (
        s₂,
        ap (λ o. o >>= (λ r. rotate_line r.0 r.1)) straight
            ∙ ap (rotate_line s₁) at_x₁.left_link
            ∙ ends,
        h₂,
        λ a. same₂ a ∙ same a,
      )

  pub turn-Final_right_left :
      StandsIn s k (fork g cg td (fork p cp (fork x cx ta tb) tc))
      → Final s
          (turn s x p g)
          (λ s'. StandsIn s' k (fork x black (fork g red td ta) (fork p cp tb tc)))
  turn-Final_right_left h =
      let (at_g, _, (at_p, (at_x, _, _), _)) = h.held in
      let below = descend_right s k g cg td (fork p cp (fork x cx ta tb) tc) h in
      let out_x =
        children-apart (right_of g cg td k) p x cp cx ta tb tc at_x.some_node below.once in
      let (s₁, run, below₁, same) =
        rbt_rotate_right-Leaves (right_of g cg td k) p x cp cx ta tb tc s below in
      let (at_x₁, _, _) = below₁.held in
      let straight =
        straighten-inner_left s x p g at_x.some_node at_p.some_node at_g.some_node s₁
          (λ e. out_x (sym at_p.right_link ∙ e)) at_p.left_link at_g.right_link run in
      let h₁ = climb_right s₁ k g cg td (fork x cx ta (fork p cp tb tc)) below₁ in
      let (s₂, ends, h₂, same₂) = rotate_line-Final_left s₁ k p x g cp cx cg tb tc ta td h₁ in
      (
        s₂,
        ap (λ o. o >>= (λ r. rotate_line r.0 r.1)) straight
            ∙ ap (rotate_line s₁) at_x₁.right_link
            ∙ ends,
        h₂,
        λ a. same₂ a ∙ same a,
      )
