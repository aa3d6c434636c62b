-- ===== src/Rbtree/Fix.antt =====
-- `rbt_insert_fix` of kernel/lib/ds/rbtree.c as a whole, on trees.
use yaeos.Prelude.{ℕ, zero, suc, ◌<◌, ◌≡◌, inr, refl, arith, ok}
use yaeos.Rbtree.{black, red, Store}
use yaeos.Rbtree.Shape.{Shape, fork, Place, top, left_of, right_of, above, plug}
use yaeos.Rbtree.Rotate.{StandsIn}
use yaeos.Rbtree.Climb.{
  Final-weaken, rbt_set_colour-Final, rbt_get_colour-addr, climb_left, climb_right,
}
use yaeos.Rbtree.Round.{rbt_insert_fix-root, rbt_insert_fix-black}
use yaeos.Rbtree.Balance.{RedBlack, Fits, BlackAbove, red-ne, plug-Whole, StandsIn-plug}
use yaeos.Rbtree.Mended.{Mended}
use yaeos.Rbtree.Update.{rbt_insert_fix}
use yaeos.Rbtree.RedUncle.{
  depth, Task, left_left-Task, left_right-Task, right_left-Task, right_right-Task,
}

root-Task : (fuel : ℕ) (s : Store) → Task (suc fuel) s top
root-Task fuel s x n l r enough h fits (el, er, hl, hr) =
    let (node, _, _) = h.held in
    let run = rbt_insert_fix-root fuel s x 0 node.some_node node.parent_link refl in
    Final-weaken s (rbt_insert_fix (suc fuel) s x) (λ s'. StandsIn s' top (fork x black l r)) _
      (rw run (rbt_set_colour-Final s top x red l r black h))
      (λ s' h'. (fork x black l r, h', refl, (refl, suc n, (n, refl, hl, hr))))

-- A black parent ends the loop.
stop :
    (fuel : ℕ) (s : Store) (k : Place) (x n : ℕ) (l r : Shape)
    → rbt_insert_fix (suc fuel) s x ≡ ok s
    → BlackAbove k
    → StandsIn s k (fork x red l r)
    → Fits n k
    → RedBlack n (fork x red l r)
    → Mended s (rbt_insert_fix (suc fuel) s x) (plug k (fork x red l r))
stop fuel s k x n l r run above h fits node = (
  s,
  run,
  (
    plug k (fork x red l r),
    StandsIn-plug s k (fork x red l r) h,
    refl,
    plug-Whole k n (fork x red l r) fits node (inr above),
  ),
  λ a. refl,
)

module _ (fuel : ℕ) (s : Store) (k : Place) (x p : ℕ) (l r t : Shape) where
  black_parent-left :
      StandsIn s (left_of p black t k) (fork x red l r) → rbt_insert_fix (suc fuel) s x ≡ ok s
  black_parent-left h =
      let (at_x, _, _) = h.held in
      let up = climb_left s k p black (fork x red l r) t h in
      let (at_p, _, _) = up.held in
      rbt_insert_fix-black fuel s x p at_x.some_node at_x.parent_link at_p.some_node
        (rbt_get_colour-addr s (above k) (fork p black (fork x red l r) t) up.held)

  black_parent-right :
      StandsIn s (right_of p black t k) (fork x red l r) → rbt_insert_fix (suc fuel) s x ≡ ok s
  black_parent-right h =
      let (at_x, _, _) = h.held in
      let up = climb_right s k p black t (fork x red l r) h in
      let (at_p, _, _) = up.held in
      rbt_insert_fix-black fuel s x p at_x.some_node at_x.parent_link at_p.some_node
        (rbt_get_colour-addr s (above k) (fork p black t (fork x red l r)) up.held)

-- The loop makes a red-black tree of one that is red-black but for a red node at the place, whose parent
-- may be red too or absent: it ends without a fault when the fuel exceeds the nodes above, the nodes keep
-- their order and their contents, and the root is black.
pub rbt_insert_fix-Mended :
    (fuel : ℕ) (s : Store) (k : Place) (x n : ℕ) (l r : Shape)
    → depth k < fuel
    → StandsIn s k (fork x red l r)
    → Fits n k
    → RedBlack n (fork x red l r)
    → Mended s (rbt_insert_fix fuel s x) (plug k (fork x red l r))
rbt_insert_fix-Mended zero s k x n l r enough h fits node = absurd (omega arith)
rbt_insert_fix-Mended (suc fuel) s top x n l r enough h fits node =
    root-Task fuel s x n l r enough h fits node
rbt_insert_fix-Mended (suc fuel) s (left_of p black t k) x n l r enough h fits node =
    stop fuel s (left_of p black t k) x n l r (black_parent-left fuel s k x p l r t h) refl h fits
      node
rbt_insert_fix-Mended (suc fuel) s (right_of p black t k) x n l r enough h fits node =
    stop fuel s (right_of p black t k) x n l r (black_parent-right fuel s k x p l r t h) refl h fits
      node
rbt_insert_fix-Mended (suc fuel) s (left_of p red t top) x n l r enough h (ht, et, above, fits)
      node =
    absurd above
rbt_insert_fix-Mended (suc fuel) s (right_of p red t top) x n l r enough h (ht, et, above, fits)
      node =
    absurd above
rbt_insert_fix-Mended (suc fuel) s (left_of p red t (left_of g red u k)) x n l r enough h
      (ht, et, above, fits) node =
    absurd (red-ne above)
rbt_insert_fix-Mended (suc fuel) s (left_of p red t (right_of g red u k)) x n l r enough h
      (ht, et, above, fits) node =
    absurd (red-ne above)
rbt_insert_fix-Mended (suc fuel) s (right_of p red t (left_of g red u k)) x n l r enough h
      (ht, et, above, fits) node =
    absurd (red-ne above)
rbt_insert_fix-Mended (suc fuel) s (right_of p red t (right_of g red u k)) x n l r enough h
      (ht, et, above, fits) node =
    absurd (red-ne above)
rbt_insert_fix-Mended (suc fuel) s (left_of p red t (left_of g black u k)) x n l r enough h fits
      node =
    left_left-Task fuel s k p g t u (λ s'. rbt_insert_fix-Mended fuel s' k) x n l r enough h fits
      node
rbt_insert_fix-Mended (suc fuel) s (right_of p red t (left_of g black u k)) x n l r enough h fits
      node =
    left_right-Task fuel s k p g t u (λ s'. rbt_insert_fix-Mended fuel s' k) x n l r enough h fits
      node
rbt_insert_fix-Mended (suc fuel) s (left_of p red t (right_of g black u k)) x n l r enough h fits
      node =
    right_left-Task fuel s k p g t u (λ s'. rbt_insert_fix-Mended fuel s' k) x n l r enough h fits
      node
rbt_insert_fix-Mended (suc fuel) s (right_of p red t (right_of g black u k)) x n l r enough h fits
      node =
    right_right-Task fuel s k p g t u (λ s'. rbt_insert_fix-Mended fuel s' k) x n l r enough h fits
      node
