-- ===== src/Rbtree/DeleteFix.antt =====
-- `rbt_delete_fix` of kernel/lib/ds/rbtree.c as a whole.
use yaeos.Prelude.{ℕ, zero, suc, ◌<◌, ◌≡◌, refl, sym, ◌∙◌, arith, true, false, ◌∷◌, append_assoc}
use yaeos.Rbtree.{Colour, black, red, Store}
use yaeos.Rbtree.Shape.{Shape, leaf, fork, inorder, Place, top, left_of, right_of}
use yaeos.Rbtree.Rotate.{StandsIn}
use yaeos.Rbtree.Climb.{climb_left, climb_right, descend_left, descend_right}
use yaeos.Rbtree.Balance.{RedBlack, Fits, red-ne, inorder-plug}
use yaeos.Rbtree.Sibling.{left-Siblings, right-Siblings}
use yaeos.Rbtree.DeleteRound.{rbt_delete_fix-top, rbt_delete_fix-round}
use yaeos.Rbtree.Sibling.{blacken_sibling-black}
use yaeos.Rbtree.RedSibling.{blacken_sibling-red_left, blacken_sibling-red_right}
use yaeos.Rbtree.RedUncle.{depth}
use yaeos.Rbtree.Even.{Evened}
use yaeos.Rbtree.Lift.{DeleteTask}
use yaeos.Rbtree.Beside.{beside_left-Evened, beside_right-Evened}
use yaeos.Rbtree.Delete.{rbt_delete_fix}

zero-ne : {n : ℕ} → ¬ (suc n ≡ 0)
zero-ne e = omega arith

module _ (fuel : ℕ) (s : Store) (k : Place) (p b : ℕ) where
  black_left-DeleteTask :
      (cp : Colour) (bl br : Shape)
      → ((n : ℕ)
          → Fits (suc n) (left_of p cp (fork b black bl br) k)
          → RedBlack (suc n) (fork b black bl br))
      → ((s' : Store) → DeleteTask fuel s' k)
      → DeleteTask (suc fuel) s (left_of p cp (fork b black bl br) k)
  black_left-DeleteTask cp bl br sibling next x n cx xl xr enough h fits =
      let up = climb_left s k p cp (fork x cx xl xr) (fork b black bl br) h in
      let f = left-Siblings s k x p b cx cp black xl xr bl br up in
      let (at_x, _, _) = h.held in
      rw
        (rbt_delete_fix-round fuel s x f.some_x s p p b f.some_p at_x.parent_link
          (blacken_sibling-black fuel s x p b _ _ true cp _ _ f))
        (beside_left-Evened fuel s k x p b n cx xl xr cp bl br (λ e. (omega arith, next)) fits
          (sibling n fits) up)

  red_left-DeleteTask :
      (d : ℕ) (t dl dr : Shape)
      → DeleteTask (suc fuel) s (left_of p black (fork b red (fork d black dl dr) t) k)
  red_left-DeleteTask d t dl dr x n cx xl xr enough h fits =
      let (sibling, above) = fits in
      let up = climb_left s k p black (fork x cx xl xr) (fork b red (fork d black dl dr) t) h in
      let f = left-Siblings s k x p b cx black red xl xr (fork d black dl dr) t up in
      let (at_x, _, _) = h.held in
      let (s₁, blackened, h₁, same₁) =
        blacken_sibling-red_left s k x p b d cx black xl xr t dl dr up in
      let inner : RedBlack (suc n) (fork d black dl dr) = sibling.2 in
      let outer : RedBlack (suc n) t = sibling.3 in
      let (s₂, run, (k', stands, fit, order), same₂) =
        beside_left-Evened fuel s₁ (left_of b black t k) x p d n cx xl xr red dl dr
          (λ e. absurd (red-ne e)) (inner, refl, refl, (outer, above)) inner
          (descend_left s₁ k b black (fork p red (fork x cx xl xr) (fork d black dl dr)) t h₁) in
      (
        s₂,
        rbt_delete_fix-round fuel s x f.some_x s₁ p p d f.some_p at_x.parent_link blackened ∙ run,
        (
          k',
          stands,
          fit,
          λ u.
              order u
              ∙ inorder-plug k (fork b black (fork p red u (fork d black dl dr)) t)
                  (fork p black u (fork b red (fork d black dl dr) t))
                  (append_assoc (inorder u) (p ∷ inorder (fork d black dl dr)) (b ∷ inorder t)),
        ),
        λ a. same₂ a ∙ same₁ a,
      )

  black_right-DeleteTask :
      (cp : Colour) (bl br : Shape)
      → ((n : ℕ)
          → Fits (suc n) (right_of p cp (fork b black bl br) k)
          → RedBlack (suc n) (fork b black bl br))
      → ((s' : Store) → DeleteTask fuel s' k)
      → DeleteTask (suc fuel) s (right_of p cp (fork b black bl br) k)
  black_right-DeleteTask cp bl br sibling next x n cx xl xr enough h fits =
      let up = climb_right s k p cp (fork b black bl br) (fork x cx xl xr) h in
      let f = right-Siblings s k x p b cx cp black xl xr bl br up in
      let (at_x, _, _) = h.held in
      rw
        (rbt_delete_fix-round fuel s x f.some_x s p p b f.some_p at_x.parent_link
          (blacken_sibling-black fuel s x p b _ _ false cp _ _ f))
        (beside_right-Evened fuel s k x p b n cx xl xr cp bl br (λ e. (omega arith, next)) fits
          (sibling n fits) up)

  red_right-DeleteTask :
      (d : ℕ) (t dl dr : Shape)
      → DeleteTask (suc fuel) s (right_of p black (fork b red t (fork d black dl dr)) k)
  red_right-DeleteTask d t dl dr x n cx xl xr enough h fits =
      let (sibling, above) = fits in
      let up = climb_right s k p black (fork b red t (fork d black dl dr)) (fork x cx xl xr) h in
      let f = right-Siblings s k x p b cx black red xl xr t (fork d black dl dr) up in
      let (at_x, _, _) = h.held in
      let (s₁, blackened, h₁, same₁) =
        blacken_sibling-red_right s k x p b d cx black xl xr t dl dr up in
      let inner : RedBlack (suc n) (fork d black dl dr) = sibling.3 in
      let outer : RedBlack (suc n) t = sibling.2 in
      let (s₂, run, (k', stands, fit, order), same₂) =
        beside_right-Evened fuel s₁ (right_of b black t k) x p d n cx xl xr red dl dr
          (λ e. absurd (red-ne e)) (inner, refl, refl, (outer, above)) inner
          (descend_right s₁ k b black t (fork p red (fork d black dl dr) (fork x cx xl xr)) h₁) in
      (
        s₂,
        rbt_delete_fix-round fuel s x f.some_x s₁ p p d f.some_p at_x.parent_link blackened ∙ run,
        (
          k',
          stands,
          fit,
          λ u.
              order u
              ∙ inorder-plug k (fork b black t (fork p red (fork d black dl dr) u))
                  (fork p black (fork b red t (fork d black dl dr)) u)
                  (sym
                    (append_assoc (inorder t) (b ∷ inorder (fork d black dl dr)) (p ∷ inorder u))),
        ),
        λ a. same₂ a ∙ same₁ a,
      )

-- The loop for a node at a place that fits a subtree with n + 1 black nodes on each way down: without a fault,
-- when the fuel exceeds the nodes above, it leaves the subtree of the node as it is, at a place that fits a
-- subtree with n black nodes, as there is one when a black node is taken out. The nodes around it keep their
-- order, and all their contents.
pub rbt_delete_fix-Evened :
    (fuel : ℕ) (s : Store) (k : Place) (x n : ℕ) (c : Colour) (l r : Shape)
    → depth k < fuel
    → StandsIn s k (fork x c l r)
    → Fits (suc n) k
    → Evened s (rbt_delete_fix fuel s x) k n (fork x c l r)
rbt_delete_fix-Evened zero s k x n c l r enough h fits = absurd (omega arith)
rbt_delete_fix-Evened (suc fuel) s top x n c l r enough h fits =
    let (at_x, _, _) = h.held in
    (
      s,
      rbt_delete_fix-top fuel s x at_x.some_node at_x.parent_link,
      (top, h, tt, λ u. refl),
      λ a. refl,
    )
rbt_delete_fix-Evened (suc fuel) s (left_of p black leaf k) x n c l r enough h (wrong, fits) =
    absurd (zero-ne wrong)
rbt_delete_fix-Evened (suc fuel) s (left_of p red leaf k) x n c l r enough h (wrong, _, _, fits) =
    absurd (zero-ne wrong)
rbt_delete_fix-Evened (suc fuel) s (left_of p black (fork b black bl br) k) x n c l r enough h
      fits =
    black_left-DeleteTask fuel s k p b black bl br (λ m f. f.0)
      (λ s'. rbt_delete_fix-Evened fuel s' k) x n c l r enough h fits
rbt_delete_fix-Evened (suc fuel) s (left_of p red (fork b black bl br) k) x n c l r enough h fits =
    black_left-DeleteTask fuel s k p b red bl br (λ m f. f.0)
      (λ s'. rbt_delete_fix-Evened fuel s' k) x n c l r enough h fits
rbt_delete_fix-Evened (suc fuel) s (left_of p red (fork b red bl br) k) x n c l r enough h
      (hb, wrong, _, fits) =
    absurd (red-ne wrong)
rbt_delete_fix-Evened (suc fuel) s (left_of p black (fork b red leaf t) k) x n c l r enough h
      ((cl, cr, hl, hr), above) =
    absurd (zero-ne hl)
rbt_delete_fix-Evened (suc fuel) s (left_of p black (fork b red (fork d red dl dr) t) k) x n c l r
      enough h ((cl, cr, hl, hr), above) =
    absurd (red-ne cl)
rbt_delete_fix-Evened (suc fuel) s (left_of p black (fork b red (fork d black dl dr) t) k) x n c l r
      enough h fits =
    red_left-DeleteTask fuel s k p b d t dl dr x n c l r enough h fits
rbt_delete_fix-Evened (suc fuel) s (right_of p black leaf k) x n c l r enough h (wrong, fits) =
    absurd (zero-ne wrong)
rbt_delete_fix-Evened (suc fuel) s (right_of p red leaf k) x n c l r enough h (wrong, _, _, fits) =
    absurd (zero-ne wrong)
rbt_delete_fix-Evened (suc fuel) s (right_of p black (fork b black bl br) k) x n c l r enough h
      fits =
    black_right-DeleteTask fuel s k p b black bl br (λ m f. f.0)
      (λ s'. rbt_delete_fix-Evened fuel s' k) x n c l r enough h fits
rbt_delete_fix-Evened (suc fuel) s (right_of p red (fork b black bl br) k) x n c l r enough h fits =
    black_right-DeleteTask fuel s k p b red bl br (λ m f. f.0)
      (λ s'. rbt_delete_fix-Evened fuel s' k) x n c l r enough h fits
rbt_delete_fix-Evened (suc fuel) s (right_of p red (fork b red bl br) k) x n c l r enough h
      (hb, wrong, _, fits) =
    absurd (red-ne wrong)
rbt_delete_fix-Evened (suc fuel) s (right_of p black (fork b red t leaf) k) x n c l r enough h
      ((cl, cr, hl, hr), above) =
    absurd (zero-ne hr)
rbt_delete_fix-Evened (suc fuel) s (right_of p black (fork b red t (fork d red dl dr)) k) x n c l r
      enough h ((cl, cr, hl, hr), above) =
    absurd (red-ne cr)
rbt_delete_fix-Evened (suc fuel) s (right_of p black (fork b red t (fork d black dl dr)) k) x n c l
      r enough h fits =
    red_right-DeleteTask fuel s k p b d t dl dr x n c l r enough h fits
