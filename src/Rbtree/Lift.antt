-- ===== src/Rbtree/Lift.antt =====
-- A black sibling with black children in `rbt_delete_fix` of kernel/lib/ds/rbtree.c.
use yaeos.Prelude.{ℕ, suc, ◌<◌, ◌≡◌, refl, ◌∙◌, true, false}
use mathlib.Core.Path.{subst}
use yaeos.Rbtree.{Colour, black, red, Store, rbt_set_colour}
use yaeos.Rbtree.Shape.{Shape, leaf, fork, addr, Place, left_of, right_of}
use yaeos.Rbtree.Rotate.{StandsIn}
use yaeos.Rbtree.Climb.{
  Final->>=, Final-weaken, descend_left, descend_right, rbt_set_colour-Final, colour_of,
}
use yaeos.Rbtree.Line.{rbt_get_parent-run}
use yaeos.Rbtree.Balance.{RedBlack, Fits, inorder-plug}
use yaeos.Rbtree.Sibling.{Siblings, left-Siblings, right-Siblings}
use yaeos.Rbtree.Turns.{paint_left-Final, paint_right-Final}
use yaeos.Rbtree.DeleteRound.{beside, beside-repaint, beside-up}
use yaeos.Rbtree.RedUncle.{depth}
use yaeos.Rbtree.Even.{Evened}
use yaeos.Rbtree.Delete.{rbt_delete_fix}

-- What the loop does for a node at the place.
abbrev pub DeleteTask : ℕ → Store → Place → Type 0
DeleteTask fuel s k =
    (x n : ℕ) (c : Colour) (l r : Shape)
    → depth k < fuel
    → StandsIn s k (fork x c l r)
    → Fits (suc n) k
    → Evened s (rbt_delete_fix fuel s x) k n (fork x c l r)

module _ (fuel : ℕ) (s : Store) (k : Place) (x p b n : ℕ) (cx : Colour) (xl xr bl br : Shape) where
  module _ (hl : RedBlack n bl) (hr : RedBlack n br) (cl : colour_of bl ≡ black)
      (cr : colour_of br ≡ black) where
    left-black :
        (cp : Colour)
        → StandsIn s k (fork p cp (fork x cx xl xr) (fork b black bl br))
        → Siblings s x p b (addr bl) (addr br) true black cp black black
    left-black cp h =
        subst (λ c. Siblings s x p b (addr bl) (addr br) true black cp c black) cl
          (subst (λ c. Siblings s x p b (addr bl) (addr br) true black cp (colour_of bl) c) cr
            (left-Siblings s k x p b cx cp black xl xr bl br h))

    pub repaint_left-Evened :
        Fits (suc n) (left_of p red (fork b black bl br) k)
        → StandsIn s k (fork p red (fork x cx xl xr) (fork b black bl br))
        → Evened s (beside fuel s x p b) (left_of p red (fork b black bl br) k) n (fork x cx xl xr)
    repaint_left-Evened (_, _, _, fits) h =
        rw (beside-repaint fuel s x p b (addr bl) (addr br) true (left-black red h)) (
          Final->>= s (rbt_set_colour s b red) (λ s'. rbt_set_colour s' p black)
            (λ s'. StandsIn s' k (fork p red (fork x cx xl xr) (fork b red bl br))) _
            (paint_right-Final s k p red (fork x cx xl xr) leaf red b black bl br h)
            (λ s₁ h₁.
              Final-weaken s₁ (rbt_set_colour s₁ p black)
                (λ s'. StandsIn s' k (fork p black (fork x cx xl xr) (fork b red bl br))) _
                (rbt_set_colour-Final s₁ k p red (fork x cx xl xr) (fork b red bl br) black h₁)
                (λ s' h'. (
                  left_of p black (fork b red bl br) k,
                  descend_left s' k p black (fork x cx xl xr) (fork b red bl br) h',
                  ((cl, cr, hl, hr), fits),
                  λ u.
                      inorder-plug k (fork p black u (fork b red bl br))
                        (fork p red u (fork b black bl br)) refl,
                ))))

    pub up_left-Evened :
        ((s' : Store) → DeleteTask fuel s' k)
        → depth k < fuel
        → Fits (suc n) (left_of p black (fork b black bl br) k)
        → StandsIn s k (fork p black (fork x cx xl xr) (fork b black bl br))
        → Evened s
            (beside fuel s x p b)
            (left_of p black (fork b black bl br) k)
            n
            (fork x cx xl xr)
    up_left-Evened next enough (_, fits) h =
        rw (beside-up fuel s x p b (addr bl) (addr br) true (left-black black h)) (
          Final->>= s (rbt_set_colour s b red) _
            (λ s'. StandsIn s' k (fork p black (fork x cx xl xr) (fork b red bl br))) _
            (paint_right-Final s k p black (fork x cx xl xr) leaf red b black bl br h)
            (λ s₁ h₁.
              let (at_x, _, _) =
                (descend_left s₁ k p black (fork x cx xl xr) (fork b red bl br) h₁).held in
              rw (rbt_get_parent-run s₁ x p at_x.some_node at_x.parent_link) (
                Final-weaken s₁ (rbt_delete_fix fuel s₁ p) _ _
                  (next s₁ p (suc n) black (fork x cx xl xr) (fork b red bl br) enough h₁ fits)
                  (λ s' m. (
                    left_of p black (fork b red bl br) m.0,
                    descend_left s' m.0 p black (fork x cx xl xr) (fork b red bl br) m.1,
                    ((cl, cr, hl, hr), m.2),
                    λ u.
                        m.3 (fork p black u (fork b red bl br))
                        ∙ inorder-plug k (fork p black u (fork b red bl br))
                            (fork p black u (fork b black bl br)) refl,
                  )))))

    right-black :
        (cp : Colour)
        → StandsIn s k (fork p cp (fork b black bl br) (fork x cx xl xr))
        → Siblings s x p b (addr bl) (addr br) false black cp black black
    right-black cp h =
        subst (λ c. Siblings s x p b (addr bl) (addr br) false black cp c black) cl
          (subst (λ c. Siblings s x p b (addr bl) (addr br) false black cp (colour_of bl) c) cr
            (right-Siblings s k x p b cx cp black xl xr bl br h))

    pub repaint_right-Evened :
        Fits (suc n) (right_of p red (fork b black bl br) k)
        → StandsIn s k (fork p red (fork b black bl br) (fork x cx xl xr))
        → Evened s (beside fuel s x p b) (right_of p red (fork b black bl br) k) n (fork x cx xl xr)
    repaint_right-Evened (_, _, _, fits) h =
        rw (beside-repaint fuel s x p b (addr bl) (addr br) false (right-black red h)) (
          Final->>= s (rbt_set_colour s b red) (λ s'. rbt_set_colour s' p black)
            (λ s'. StandsIn s' k (fork p red (fork b red bl br) (fork x cx xl xr))) _
            (paint_left-Final s k p red leaf (fork x cx xl xr) red b black bl br h)
            (λ s₁ h₁.
              Final-weaken s₁ (rbt_set_colour s₁ p black)
                (λ s'. StandsIn s' k (fork p black (fork b red bl br) (fork x cx xl xr))) _
                (rbt_set_colour-Final s₁ k p red (fork b red bl br) (fork x cx xl xr) black h₁)
                (λ s' h'. (
                  right_of p black (fork b red bl br) k,
                  descend_right s' k p black (fork b red bl br) (fork x cx xl xr) h',
                  ((cl, cr, hl, hr), fits),
                  λ u.
                      inorder-plug k (fork p black (fork b red bl br) u)
                        (fork p red (fork b black bl br) u) refl,
                ))))

    pub up_right-Evened :
        ((s' : Store) → DeleteTask fuel s' k)
        → depth k < fuel
        → Fits (suc n) (right_of p black (fork b black bl br) k)
        → StandsIn s k (fork p black (fork b black bl br) (fork x cx xl xr))
        → Evened s
            (beside fuel s x p b)
            (right_of p black (fork b black bl br) k)
            n
            (fork x cx xl xr)
    up_right-Evened next enough (_, fits) h =
        rw (beside-up fuel s x p b (addr bl) (addr br) false (right-black black h)) (
          Final->>= s (rbt_set_colour s b red) _
            (λ s'. StandsIn s' k (fork p black (fork b red bl br) (fork x cx xl xr))) _
            (paint_left-Final s k p black leaf (fork x cx xl xr) red b black bl br h)
            (λ s₁ h₁.
              let (at_x, _, _) =
                (descend_right s₁ k p black (fork b red bl br) (fork x cx xl xr) h₁).held in
              rw (rbt_get_parent-run s₁ x p at_x.some_node at_x.parent_link) (
                Final-weaken s₁ (rbt_delete_fix fuel s₁ p) _ _
                  (next s₁ p (suc n) black (fork b red bl br) (fork x cx xl xr) enough h₁ fits)
                  (λ s' m. (
                    right_of p black (fork b red bl br) m.0,
                    descend_right s' m.0 p black (fork b red bl br) (fork x cx xl xr) m.1,
                    ((cl, cr, hl, hr), m.2),
                    λ u.
                        m.3 (fork p black (fork b red bl br) u)
                        ∙ inorder-plug k (fork p black (fork b red bl br) u)
                            (fork p black (fork b black bl br) u) refl,
                  )))))
