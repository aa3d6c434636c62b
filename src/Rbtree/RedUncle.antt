-- ===== src/Rbtree/RedUncle.antt =====
-- The red uncle in `rbt_insert_fix` of kernel/lib/ds/rbtree.c, where the loop goes on at the grandparent.
use yaeos.Prelude.{ℕ, suc, ◌<◌, refl, ◌∙◌, arith}
use yaeos.Rbtree.{black, red, Store}
use yaeos.Rbtree.Shape.{Shape, leaf, fork, Place, top, left_of, right_of, above, plug}
use yaeos.Rbtree.Rotate.{StandsIn}
use yaeos.Rbtree.Climb.{Final-weaken, climb_left, climb_right}
use yaeos.Rbtree.Round.{recolour-Final_left, recolour-Final_right}
use yaeos.Rbtree.Uncle.{
  Family-red, left_left-Family, left_right-Family, right_left-Family, right_right-Family,
}
use yaeos.Rbtree.Balance.{RedBlack, Fits, inorder-plug}
use yaeos.Rbtree.Mended.{
  Mended, left_left-Mended, left_right-Mended, right_left-Mended, right_right-Mended,
}
use yaeos.Rbtree.Update.{rbt_insert_fix}

-- The nodes above a place.
abbrev pub depth : Place → ℕ
depth top = 0
depth (left_of a c r k) = suc (depth k)
depth (right_of a c l k) = suc (depth k)

-- What the loop needs of the place of a red node.
abbrev pub Task : ℕ → Store → Place → Type 0
Task fuel s k =
    (x n : ℕ) (l r : Shape)
    → depth k < fuel
    → StandsIn s k (fork x red l r)
    → Fits n k
    → RedBlack n (fork x red l r)
    → Mended s (rbt_insert_fix fuel s x) (plug k (fork x red l r))

module _ (fuel : ℕ) (s : Store) (k : Place) (x p g u n : ℕ) (l r t ul ur : Shape) where
  module _ (next : (s' : Store) → Task fuel s' k) (enough : depth k < fuel) (fits : Fits (suc n) k)
      (node : RedBlack n (fork x red l r)) (beside : RedBlack n t)
      (uncle : RedBlack n (fork u red ul ur)) where
    left_left-red :
        StandsIn s k (fork g black (fork p red (fork x red l r) t) (fork u red ul ur))
        → Mended s
            (rbt_insert_fix (suc fuel) s x)
            (plug k (fork g black (fork p red (fork x red l r) t) (fork u red ul ur)))
    left_left-red h =
        let (_, _, hul, hur) = uncle in
        let family = left_left-Family s k x p g red black l r t (fork u red ul ur) h in
        let after = fork g red (fork p black (fork x red l r) t) (fork u black ul ur) in
        rw (Family-red fuel s x p g u family) (
          recolour-Final_left s k g p u black red red (fork x red l r) t ul ur
            (λ s'. rbt_insert_fix fuel s' g) _ h
            (λ s' h'.
              Final-weaken s' (rbt_insert_fix fuel s' g) _ _
                (next s' g (suc n) (fork p black (fork x red l r) t) (fork u black ul ur) enough h'
                  fits (refl, refl, (n, refl, node, beside), (n, refl, hul, hur)))
                (λ s'' m. (
                  m.0,
                  m.1,
                  m.2
                      ∙ inorder-plug k after
                          (fork g black (fork p red (fork x red l r) t) (fork u red ul ur)) refl,
                  m.3,
                ))))

    left_right-red :
        StandsIn s k (fork g black (fork p red t (fork x red l r)) (fork u red ul ur))
        → Mended s
            (rbt_insert_fix (suc fuel) s x)
            (plug k (fork g black (fork p red t (fork x red l r)) (fork u red ul ur)))
    left_right-red h =
        let (_, _, hul, hur) = uncle in
        let family = left_right-Family s k x p g red black l r t (fork u red ul ur) h in
        let after = fork g red (fork p black t (fork x red l r)) (fork u black ul ur) in
        rw (Family-red fuel s x p g u family) (
          recolour-Final_left s k g p u black red red t (fork x red l r) ul ur
            (λ s'. rbt_insert_fix fuel s' g) _ h
            (λ s' h'.
              Final-weaken s' (rbt_insert_fix fuel s' g) _ _
                (next s' g (suc n) (fork p black t (fork x red l r)) (fork u black ul ur) enough h'
                  fits (refl, refl, (n, refl, beside, node), (n, refl, hul, hur)))
                (λ s'' m. (
                  m.0,
                  m.1,
                  m.2
                      ∙ inorder-plug k after
                          (fork g black (fork p red t (fork x red l r)) (fork u red ul ur)) refl,
                  m.3,
                ))))

    right_right-red :
        StandsIn s k (fork g black (fork u red ul ur) (fork p red t (fork x red l r)))
        → Mended s
            (rbt_insert_fix (suc fuel) s x)
            (plug k (fork g black (fork u red ul ur) (fork p red t (fork x red l r))))
    right_right-red h =
        let (_, _, hul, hur) = uncle in
        let family = right_right-Family s k x p g red black l r t (fork u red ul ur) h in
        let after = fork g red (fork u black ul ur) (fork p black t (fork x red l r)) in
        rw (Family-red fuel s x p g u family) (
          recolour-Final_right s k g p u black red red t (fork x red l r) ul ur
            (λ s'. rbt_insert_fix fuel s' g) _ h
            (λ s' h'.
              Final-weaken s' (rbt_insert_fix fuel s' g) _ _
                (next s' g (suc n) (fork u black ul ur) (fork p black t (fork x red l r)) enough h'
                  fits (refl, refl, (n, refl, hul, hur), (n, refl, beside, node)))
                (λ s'' m. (
                  m.0,
                  m.1,
                  m.2
                      ∙ inorder-plug k after
                          (fork g black (fork u red ul ur) (fork p red t (fork x red l r))) refl,
                  m.3,
                ))))

    right_left-red :
        StandsIn s k (fork g black (fork u red ul ur) (fork p red (fork x red l r) t))
        → Mended s
            (rbt_insert_fix (suc fuel) s x)
            (plug k (fork g black (fork u red ul ur) (fork p red (fork x red l r) t)))
    right_left-red h =
        let (_, _, hul, hur) = uncle in
        let family = right_left-Family s k x p g red black l r t (fork u red ul ur) h in
        let after = fork g red (fork u black ul ur) (fork p black (fork x red l r) t) in
        rw (Family-red fuel s x p g u family) (
          recolour-Final_right s k g p u black red red (fork x red l r) t ul ur
            (λ s'. rbt_insert_fix fuel s' g) _ h
            (λ s' h'.
              Final-weaken s' (rbt_insert_fix fuel s' g) _ _
                (next s' g (suc n) (fork u black ul ur) (fork p black (fork x red l r) t) enough h'
                  fits (refl, refl, (n, refl, hul, hur), (n, refl, node, beside)))
                (λ s'' m. (
                  m.0,
                  m.1,
                  m.2
                      ∙ inorder-plug k after
                          (fork g black (fork u red ul ur) (fork p red (fork x red l r) t)) refl,
                  m.3,
                ))))

pub left_left-Task :
    (fuel : ℕ) (s : Store) (k : Place) (p g : ℕ) (t u : Shape)
    → ((s' : Store) → Task fuel s' k)
    → Task (suc fuel) s (left_of p red t (left_of g black u k))
left_left-Task fuel s k p g t leaf next x n l r enough h (ht, et, above, (hu, up)) node =
    left_left-Mended fuel s k x p g n l r t leaf up node (et, ht) (refl, hu)
      (climb_left s k g black (fork p red (fork x red l r) t) leaf
        (climb_left s (left_of g black leaf k) p red (fork x red l r) t h))
left_left-Task fuel s k p g t (fork u black ul ur) next x n l r enough h (ht, et, above, (hu, up))
      node =
    left_left-Mended fuel s k x p g n l r t (fork u black ul ur) up node (et, ht) (refl, hu)
      (climb_left s k g black (fork p red (fork x red l r) t) (fork u black ul ur)
        (climb_left s (left_of g black (fork u black ul ur) k) p red (fork x red l r) t h))
left_left-Task fuel s k p g t (fork u red ul ur) next x n l r enough h (ht, et, above, (hu, up))
      node =
    left_left-red fuel s k x p g u n l r t ul ur next (omega arith) up node ht hu (
      climb_left s k g black (fork p red (fork x red l r) t) (fork u red ul ur)
        (climb_left s (left_of g black (fork u red ul ur) k) p red (fork x red l r) t h))

pub left_right-Task :
    (fuel : ℕ) (s : Store) (k : Place) (p g : ℕ) (t u : Shape)
    → ((s' : Store) → Task fuel s' k)
    → Task (suc fuel) s (right_of p red t (left_of g black u k))
left_right-Task fuel s k p g t leaf next x n l r enough h (ht, et, above, (hu, up)) node =
    left_right-Mended fuel s k x p g n l r t leaf up node (et, ht) (refl, hu)
      (climb_left s k g black (fork p red t (fork x red l r)) leaf
        (climb_right s (left_of g black leaf k) p red t (fork x red l r) h))
left_right-Task fuel s k p g t (fork u black ul ur) next x n l r enough h (ht, et, above, (hu, up))
      node =
    left_right-Mended fuel s k x p g n l r t (fork u black ul ur) up node (et, ht) (refl, hu)
      (climb_left s k g black (fork p red t (fork x red l r)) (fork u black ul ur)
        (climb_right s (left_of g black (fork u black ul ur) k) p red t (fork x red l r) h))
left_right-Task fuel s k p g t (fork u red ul ur) next x n l r enough h (ht, et, above, (hu, up))
      node =
    left_right-red fuel s k x p g u n l r t ul ur next (omega arith) up node ht hu (
      climb_left s k g black (fork p red t (fork x red l r)) (fork u red ul ur)
        (climb_right s (left_of g black (fork u red ul ur) k) p red t (fork x red l r) h))

pub right_left-Task :
    (fuel : ℕ) (s : Store) (k : Place) (p g : ℕ) (t u : Shape)
    → ((s' : Store) → Task fuel s' k)
    → Task (suc fuel) s (left_of p red t (right_of g black u k))
right_left-Task fuel s k p g t leaf next x n l r enough h (ht, et, above, (hu, up)) node =
    right_left-Mended fuel s k x p g n l r t leaf up node (et, ht) (refl, hu)
      (climb_right s k g black leaf (fork p red (fork x red l r) t)
        (climb_left s (right_of g black leaf k) p red (fork x red l r) t h))
right_left-Task fuel s k p g t (fork u black ul ur) next x n l r enough h (ht, et, above, (hu, up))
      node =
    right_left-Mended fuel s k x p g n l r t (fork u black ul ur) up node (et, ht) (refl, hu)
      (climb_right s k g black (fork u black ul ur) (fork p red (fork x red l r) t)
        (climb_left s (right_of g black (fork u black ul ur) k) p red (fork x red l r) t h))
right_left-Task fuel s k p g t (fork u red ul ur) next x n l r enough h (ht, et, above, (hu, up))
      node =
    right_left-red fuel s k x p g u n l r t ul ur next (omega arith) up node ht hu (
      climb_right s k g black (fork u red ul ur) (fork p red (fork x red l r) t)
        (climb_left s (right_of g black (fork u red ul ur) k) p red (fork x red l r) t h))

pub right_right-Task :
    (fuel : ℕ) (s : Store) (k : Place) (p g : ℕ) (t u : Shape)
    → ((s' : Store) → Task fuel s' k)
    → Task (suc fuel) s (right_of p red t (right_of g black u k))
right_right-Task fuel s k p g t leaf next x n l r enough h (ht, et, above, (hu, up)) node =
    right_right-Mended fuel s k x p g n l r t leaf up node (et, ht) (refl, hu)
      (climb_right s k g black leaf (fork p red t (fork x red l r))
        (climb_right s (right_of g black leaf k) p red t (fork x red l r) h))
right_right-Task fuel s k p g t (fork u black ul ur) next x n l r enough h (ht, et, above, (hu, up))
      node =
    right_right-Mended fuel s k x p g n l r t (fork u black ul ur) up node (et, ht) (refl, hu)
      (climb_right s k g black (fork u black ul ur) (fork p red t (fork x red l r))
        (climb_right s (right_of g black (fork u black ul ur) k) p red t (fork x red l r) h))
right_right-Task fuel s k p g t (fork u red ul ur) next x n l r enough h (ht, et, above, (hu, up))
      node =
    right_right-red fuel s k x p g u n l r t ul ur next (omega arith) up node ht hu (
      climb_right s k g black (fork u red ul ur) (fork p red t (fork x red l r))
        (climb_right s (right_of g black (fork u red ul ur) k) p red t (fork x red l r) h))
