-- ===== src/Rbtree/Turns.antt =====
-- The rotations of `rbt_delete_fix` in kernel/lib/ds/rbtree.c.
use yaeos.Prelude.{ℕ, ◌==◌, if◌then◌else◌, Outcome, ◌>>=◌, ◌>>◌, kassert}
use yaeos.Rbtree.{
  Colour, black, red, is_red, Store, rbt_set_colour, rbt_get_colour, rbt_rotate_left,
  rbt_rotate_right,
}
use yaeos.Rbtree.Shape.{Shape, leaf, fork, Place, left_of, right_of}
use yaeos.Rbtree.Rotate.{StandsIn, rbt_rotate_left-Leaves, rbt_rotate_right-Leaves}
use yaeos.Rbtree.Climb.{
  Final, Final->>=, Final-weaken, climb_left, climb_right, descend_left, descend_right,
  rbt_set_colour-Final,
}

-- The colour of a child of the root.
module _ (s : Store) (k : Place) (b : ℕ) (cb : Colour) (l r : Shape) (d : Colour) where
  pub paint_left-Final :
      (e : ℕ) (ce : Colour) (el er : Shape)
      → StandsIn s k (fork b cb (fork e ce el er) r)
      → Final s (rbt_set_colour s e d) (λ s'. StandsIn s' k (fork b cb (fork e d el er) r))
  paint_left-Final e ce el er h =
      Final-weaken s (rbt_set_colour s e d) (λ s'. StandsIn s' (left_of b cb r k) (fork e d el er))
        _
        (rbt_set_colour-Final s (left_of b cb r k) e ce el er d
          (descend_left s k b cb (fork e ce el er) r h))
        (λ s'. climb_left s' k b cb (fork e d el er) r)

  pub paint_right-Final :
      (e : ℕ) (ce : Colour) (el er : Shape)
      → StandsIn s k (fork b cb l (fork e ce el er))
      → Final s (rbt_set_colour s e d) (λ s'. StandsIn s' k (fork b cb l (fork e d el er)))
  paint_right-Final e ce el er h =
      Final-weaken s (rbt_set_colour s e d) (λ s'. StandsIn s' (right_of b cb l k) (fork e d el er))
        _
        (rbt_set_colour-Final s (right_of b cb l k) e ce el er d
          (descend_right s k b cb l (fork e ce el er) h))
        (λ s'. climb_right s' k b cb l (fork e d el er))

-- A red child on the inner side of the sibling moves outward.
abbrev pub outward_left : Store → ℕ → Outcome Store
outward_left s sibling = do
  s₁ ← rbt_set_colour s sibling red
  s₂ ← rbt_set_colour s₁ (s₁.node sibling).right black
  rbt_rotate_left s₂ sibling

abbrev pub outward_right : Store → ℕ → Outcome Store
outward_right s sibling = do
  s₁ ← rbt_set_colour s sibling red
  s₂ ← rbt_set_colour s₁ (s₁.node sibling).left black
  rbt_rotate_right s₂ sibling

-- The end of `settle_parent`.
abbrev pub last_turn : Store → ℕ → ℕ → ℕ → Outcome Store
last_turn s node parent sibling =
    let to_right = (do
      outer ← rbt_get_colour s (s.node sibling).left
      kassert (is_red outer)
      s₃ ← rbt_set_colour s (s.node sibling).left black
      rbt_rotate_right s₃ parent) in
    let to_left = (do
      outer ← rbt_get_colour s (s.node sibling).right
      kassert (is_red outer)
      s₃ ← rbt_set_colour s (s.node sibling).right black
      rbt_rotate_left s₃ parent) in
    if (s.node parent).right == node then to_right else to_left

module _ (s : Store) (k : Place) (b e : ℕ) (cb ce : Colour) (t el er : Shape) where
  pub outward_left-Final :
      StandsIn s k (fork b cb t (fork e ce el er))
      → Final s (outward_left s b) (λ s'. StandsIn s' k (fork e black (fork b red t el) er))
  outward_left-Final h =
      Final->>= s (rbt_set_colour s b red) _ (λ s'. StandsIn s' k (fork b red t (fork e ce el er)))
        _ (rbt_set_colour-Final s k b cb t (fork e ce el er) red h)
        (λ s₁ h₁.
          let (at_b, _, _) = h₁.held in
          rw at_b.right_link (
            Final->>= s₁ (rbt_set_colour s₁ e black) (λ s'. rbt_rotate_left s' b)
              (λ s'. StandsIn s' k (fork b red t (fork e black el er))) _
              (paint_right-Final s₁ k b red t leaf black e ce el er h₁)
              (λ s₂ h₂. rbt_rotate_left-Leaves k b e red black t el er s₂ h₂)))

  pub outward_right-Final :
      StandsIn s k (fork b cb (fork e ce el er) t)
      → Final s (outward_right s b) (λ s'. StandsIn s' k (fork e black el (fork b red er t)))
  outward_right-Final h =
      Final->>= s (rbt_set_colour s b red) _ (λ s'. StandsIn s' k (fork b red (fork e ce el er) t))
        _ (rbt_set_colour-Final s k b cb (fork e ce el er) t red h)
        (λ s₁ h₁.
          let (at_b, _, _) = h₁.held in
          rw at_b.left_link (
            Final->>= s₁ (rbt_set_colour s₁ e black) (λ s'. rbt_rotate_right s' b)
              (λ s'. StandsIn s' k (fork b red (fork e black el er) t)) _
              (paint_left-Final s₁ k b red leaf t black e ce el er h₁)
              (λ s₂ h₂. rbt_rotate_right-Leaves k b e red black el er t s₂ h₂)))
