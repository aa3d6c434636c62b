-- ===== src/Rbtree/Round.antt =====
-- One round of the loop of `rbt_insert_fix` in kernel/lib/ds/rbtree.c.
use yaeos.Prelude.{ℕ, suc, ◌≡◌, ◌≢◌, refl, ◌∙◌, ==_ne, ==_refl, Outcome, ok, ◌>>=◌}
use yaeos.Rbtree.{
  Colour, black, red, Store, rbt_set_colour, rbt_get_colour, rbt_get_sibling, rbt_get_uncle,
}
use yaeos.Rbtree.Shape.{Shape, fork, Place, left_of, right_of}
use yaeos.Rbtree.Rotate.{StandsIn}
use yaeos.Rbtree.Climb.{
  Final, Final->>=, climb_left, climb_right, descend_left, descend_right, rbt_set_colour-Final,
}
use yaeos.Rbtree.Line.{rbt_get_parent-run, rbt_get_grandparent-run}
use yaeos.Rbtree.Triangle.{turn}
use yaeos.Rbtree.Update.{rbt_insert_fix}

-- The colours for a red uncle.
abbrev pub recolour : Store → ℕ → ℕ → ℕ → (Store → Outcome Store) → Outcome Store
recolour s parent uncle grandparent next = do
  s₁ ← rbt_set_colour s parent black
  s₂ ← rbt_set_colour s₁ uncle black
  s₃ ← rbt_set_colour s₂ grandparent red
  next s₃

-- The other child of a node.
pub rbt_get_sibling-left :
    (s : Store) (p g u : ℕ)
    → p ≢ 0
    → g ≢ 0
    → (s.node p).parent ≡ g
    → (s.node g).left ≡ p
    → (s.node g).right ≡ u
    → rbt_get_sibling s p ≡ ok u
unfolding rbt_get_sibling
rbt_get_sibling-left s p g u some_p some_g up in_g other =
    simp
      (
        ==_ne p 0 some_p,
        rbt_get_parent-run s p g some_p up,
        ==_ne g 0 some_g,
        in_g,
        other,
        ==_refl p,
      )
      refl

pub rbt_get_sibling-right :
    (s : Store) (p g u : ℕ)
    → p ≢ 0
    → g ≢ 0
    → (s.node p).parent ≡ g
    → u ≢ p
    → (s.node g).left ≡ u
    → rbt_get_sibling s p ≡ ok u
unfolding rbt_get_sibling
rbt_get_sibling-right s p g u some_p some_g up ne other =
    simp
      (==_ne p 0 some_p, rbt_get_parent-run s p g some_p up, ==_ne g 0 some_g, other, ==_ne u p ne)
      refl

module _ (fuel : ℕ) (s : Store) (x p : ℕ) (some_x : x ≢ 0) (up_x : (s.node x).parent ≡ p) where
  pub rbt_insert_fix-root : p ≡ 0 → rbt_insert_fix (suc fuel) s x ≡ rbt_set_colour s x black
  unfolding rbt_insert_fix rbt_get_colour
  rbt_insert_fix-root none =
      simp (==_ne x 0 some_x, rbt_get_parent-run s x 0 some_x (up_x ∙ none)) refl

  pub rbt_insert_fix-black :
      p ≢ 0 → rbt_get_colour s p ≡ ok black → rbt_insert_fix (suc fuel) s x ≡ ok s
  unfolding rbt_insert_fix
  rbt_insert_fix-black some_p c =
      simp (==_ne x 0 some_x, rbt_get_parent-run s x p some_x up_x, c, ==_ne p 0 some_p) refl

  module _ (g u : ℕ) (some_p : p ≢ 0) (some_g : g ≢ 0) (up_p : (s.node p).parent ≡ g)
      (sibling : rbt_get_sibling s p ≡ ok u) where
    rbt_get_uncle-run : rbt_get_uncle s x ≡ ok u
    unfolding rbt_get_uncle
    rbt_get_uncle-run =
        let up = rbt_get_parent-run s x p some_x up_x in
        let upper = rbt_get_parent-run s p g some_p up_p in
        simp (==_ne x 0 some_x, up, ==_ne p 0 some_p, upper, ==_ne g 0 some_g, sibling) refl

    module _ (red_p : rbt_get_colour s p ≡ ok red) where
      pub rbt_insert_fix-red_uncle :
          rbt_get_colour s u ≡ ok red
          → rbt_insert_fix (suc fuel) s x ≡ recolour s p u g (λ s'. rbt_insert_fix fuel s' g)
      unfolding rbt_insert_fix
      rbt_insert_fix-red_uncle red_u =
          let up = rbt_get_parent-run s x p some_x up_x in
          let upper = rbt_get_grandparent-run s x p g some_x some_p some_g up_x up_p in
          simp (==_ne x 0 some_x, up, red_p, ==_ne p 0 some_p, rbt_get_uncle-run, red_u, upper) refl

      pub rbt_insert_fix-black_uncle :
          rbt_get_colour s u ≡ ok black → rbt_insert_fix (suc fuel) s x ≡ turn s x p g
      unfolding rbt_insert_fix
      rbt_insert_fix-black_uncle black_u =
          let up = rbt_get_parent-run s x p some_x up_x in
          let upper = rbt_get_grandparent-run s x p g some_x some_p some_g up_x up_p in
          simp (==_ne x 0 some_x, up, red_p, ==_ne p 0 some_p, rbt_get_uncle-run, black_u, upper)
            refl

-- The new colours of the two children, then of their parent.
module _ (s : Store) (k : Place) (g p u : ℕ) (cg cp cu : Colour) (tl tr ul ur : Shape) where
  module _ (next : Store → Outcome Store) (R : Store → Type 0) where
    pub recolour-Final_left :
        StandsIn s k (fork g cg (fork p cp tl tr) (fork u cu ul ur))
        → ((s' : Store)
            → StandsIn s' k (fork g red (fork p black tl tr) (fork u black ul ur))
            → Final s' (next s') R)
        → Final s (recolour s p u g next) R
    recolour-Final_left h after =
        Final->>= s (rbt_set_colour s p black) _
          (λ s'. StandsIn s' (left_of g cg (fork u cu ul ur) k) (fork p black tl tr)) R
          (rbt_set_colour-Final s (left_of g cg (fork u cu ul ur) k) p cp tl tr black
            (descend_left s k g cg (fork p cp tl tr) (fork u cu ul ur) h))
          (λ s₁ h₁.
            Final->>= s₁ (rbt_set_colour s₁ u black) _
              (λ s'. StandsIn s' (right_of g cg (fork p black tl tr) k) (fork u black ul ur)) R
              (rbt_set_colour-Final s₁ (right_of g cg (fork p black tl tr) k) u cu ul ur black (
                descend_right s₁ k g cg (fork p black tl tr) (fork u cu ul ur)
                  (climb_left s₁ k g cg (fork p black tl tr) (fork u cu ul ur) h₁)))
              (λ s₂ h₂.
                Final->>= s₂ (rbt_set_colour s₂ g red) next
                  (λ s'. StandsIn s' k (fork g red (fork p black tl tr) (fork u black ul ur))) R
                  (rbt_set_colour-Final s₂ k g cg (fork p black tl tr) (fork u black ul ur) red
                    (climb_right s₂ k g cg (fork p black tl tr) (fork u black ul ur) h₂))
                  after))

    pub recolour-Final_right :
        StandsIn s k (fork g cg (fork u cu ul ur) (fork p cp tl tr))
        → ((s' : Store)
            → StandsIn s' k (fork g red (fork u black ul ur) (fork p black tl tr))
            → Final s' (next s') R)
        → Final s (recolour s p u g next) R
    recolour-Final_right h after =
        Final->>= s (rbt_set_colour s p black) _
          (λ s'. StandsIn s' (right_of g cg (fork u cu ul ur) k) (fork p black tl tr)) R
          (rbt_set_colour-Final s (right_of g cg (fork u cu ul ur) k) p cp tl tr black
            (descend_right s k g cg (fork u cu ul ur) (fork p cp tl tr) h))
          (λ s₁ h₁.
            Final->>= s₁ (rbt_set_colour s₁ u black) _
              (λ s'. StandsIn s' (left_of g cg (fork p black tl tr) k) (fork u black ul ur)) R
              (rbt_set_colour-Final s₁ (left_of g cg (fork p black tl tr) k) u cu ul ur black (
                descend_left s₁ k g cg (fork u cu ul ur) (fork p black tl tr)
                  (climb_right s₁ k g cg (fork u cu ul ur) (fork p black tl tr) h₁)))
              (λ s₂ h₂.
                Final->>= s₂ (rbt_set_colour s₂ g red) next
                  (λ s'. StandsIn s' k (fork g red (fork u black ul ur) (fork p black tl tr))) R
                  (rbt_set_colour-Final s₂ k g cg (fork u black ul ur) (fork p black tl tr) red
                    (climb_left s₂ k g cg (fork u black ul ur) (fork p black tl tr) h₂))
                  after))
