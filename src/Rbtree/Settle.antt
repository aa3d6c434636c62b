-- ===== src/Rbtree/Settle.antt =====
-- The last steps of `rbt_delete_fix` in kernel/lib/ds/rbtree.c, at a black sibling with a red child.
use yaeos.Prelude.{ℕ, ◌≡◌, refl, true, false, ==_ne, ok, ◌>>=◌}
use yaeos.Rbtree.{Colour, black, red, Store, rbt_set_colour}
use yaeos.Rbtree.Sibling.{Siblings}
use yaeos.Rbtree.Turns.{outward_left, outward_right, last_turn}
use yaeos.Rbtree.Delete.{outward, settle_parent}

module _ (s : Store) (x p b bl br : ℕ) (cp : Colour) where
  -- Nothing to do when the red child is on the outer side.
  pub outward-outer_left :
      (cl : Colour) → Siblings s x p b bl br true black cp cl red → outward s x p b ≡ ok s
  unfolding outward
  outward-outer_left black f =
      simp (f.near_left, f.near_right, f.left, f.right, f.is_left, f.is_right) refl
  outward-outer_left red f =
      simp (f.near_left, f.near_right, f.left, f.right, f.is_left, f.is_right) refl

  pub outward-outer_right :
      (cr : Colour) → Siblings s x p b bl br false black cp red cr → outward s x p b ≡ ok s
  unfolding outward
  outward-outer_right black f =
      simp (f.near_left, f.near_right, f.left, f.right, f.is_left, f.is_right) refl
  outward-outer_right red f =
      simp (f.near_left, f.near_right, f.left, f.right, f.is_left, f.is_right) refl

  pub outward-inner_left :
      Siblings s x p b bl br true black cp red black → outward s x p b ≡ outward_right s b
  unfolding outward
  outward-inner_left f =
      simp (f.near_left, f.near_right, f.left, f.right, f.is_left, f.is_right) refl

  pub outward-inner_right :
      Siblings s x p b bl br false black cp black red → outward s x p b ≡ outward_left s b
  unfolding outward
  outward-inner_right f =
      simp (f.near_left, f.near_right, f.left, f.right, f.is_left, f.is_right) refl

  pub settle_parent-start_left :
      (cl : Colour)
      → Siblings s x p b bl br true black cp cl red
      → settle_parent s x ≡ (
          rbt_set_colour s b cp
          >>= (λ s₁. rbt_set_colour s₁ p black >>= (λ s₂. last_turn s₂ x p b)))
  unfolding settle_parent
  settle_parent-start_left black f =
      simp
        (
          f.sibling,
          f.parent,
          f.colour,
          ==_ne b 0 f.some_b,
          f.near_left,
          f.near_right,
          f.left,
          f.right,
          f.above,
          f.node_left,
          f.node_right,
        )
        refl
  settle_parent-start_left red f =
      simp
        (
          f.sibling,
          f.parent,
          f.colour,
          ==_ne b 0 f.some_b,
          f.near_left,
          f.near_right,
          f.left,
          f.right,
          f.above,
          f.node_left,
          f.node_right,
        )
        refl

  pub settle_parent-start_right :
      (cr : Colour)
      → Siblings s x p b bl br false black cp red cr
      → settle_parent s x ≡ (
          rbt_set_colour s b cp
          >>= (λ s₁. rbt_set_colour s₁ p black >>= (λ s₂. last_turn s₂ x p b)))
  unfolding settle_parent
  settle_parent-start_right black f =
      simp
        (
          f.sibling,
          f.parent,
          f.colour,
          ==_ne b 0 f.some_b,
          f.near_left,
          f.near_right,
          f.left,
          f.right,
          f.above,
          f.node_left,
          f.node_right,
        )
        refl
  settle_parent-start_right red f =
      simp
        (
          f.sibling,
          f.parent,
          f.colour,
          ==_ne b 0 f.some_b,
          f.near_left,
          f.near_right,
          f.left,
          f.right,
          f.above,
          f.node_left,
          f.node_right,
        )
        refl
