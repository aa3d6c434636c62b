-- ===== src/Rbtree/Mended.antt =====
-- The black uncle in `rbt_insert_fix` of kernel/lib/ds/rbtree.c, on trees.
use yaeos.Prelude.{ℕ, suc, ◌≡◌, inl, refl, sym, ap, ◌∙◌, List, ◌∷◌, ◌++◌, append_assoc, Outcome}
use mathlib.Core.Path.{subst}
use yaeos.Rbtree.{black, red, Store}
use yaeos.Rbtree.Shape.{Shape, fork, addr, inorder, Place, top, plug}
use yaeos.Rbtree.Rotate.{StandsIn}
use yaeos.Rbtree.Climb.{Final, Final-weaken, colour_of}
use yaeos.Rbtree.Triangle.{
  turn-Final_left_left, turn-Final_left_right, turn-Final_right_left, turn-Final_right_right,
}
use yaeos.Rbtree.Uncle.{
  Family, Family-black, left_left-Family, left_right-Family, right_left-Family, right_right-Family,
}
use yaeos.Rbtree.Balance.{RedBlack, Fits, Whole, plug-Whole, inorder-plug, StandsIn-plug}
use yaeos.Rbtree.Update.{rbt_insert_fix}

-- A run that leaves a red-black tree with the nodes in the same order.
abbrev pub Mended : Store → Outcome Store → Shape → Type 0
Mended s run before =
    Final s run (λ s'.
      (after : Shape) × StandsIn s' top after × (inorder after ≡ inorder before) × Whole after)

-- The run leaves such a subtree at the place.
Mended-at :
    (s : Store) (run : Outcome Store) (k : Place) (before after : Shape) (n : ℕ)
    → Final s run (λ s'. StandsIn s' k after)
    → inorder after ≡ inorder before
    → Fits n k
    → RedBlack n after
    → colour_of after ≡ black
    → Mended s run (plug k before)
Mended-at s run k before after n h order fits balanced root =
    Final-weaken s run (λ s'. StandsIn s' k after) _ h
      (λ s' h'. (
        plug k after,
        StandsIn-plug s' k after h',
        inorder-plug k after before order,
        plug-Whole k n after fits balanced (inl root),
      ))

-- The order of a triangle, before and after.
pub triangle_order :
    (a b c d : List ℕ) (p x g : ℕ)
    → (a ++ p ∷ b) ++ x ∷ (c ++ g ∷ d) ≡ (a ++ p ∷ (b ++ x ∷ c)) ++ g ∷ d
triangle_order a b c d p x g =
    append_assoc a (p ∷ b) (x ∷ (c ++ g ∷ d))
    ∙ ap (λ xs. a ++ p ∷ xs) (sym (append_assoc b (x ∷ c) (g ∷ d)))
    ∙ sym (append_assoc a (p ∷ (b ++ x ∷ c)) (g ∷ d))

pub triangle_order_right :
    (a b c d : List ℕ) (g x p : ℕ)
    → (a ++ g ∷ b) ++ x ∷ (c ++ p ∷ d) ≡ a ++ g ∷ ((b ++ x ∷ c) ++ p ∷ d)
triangle_order_right a b c d g x p =
    append_assoc a (g ∷ b) (x ∷ (c ++ p ∷ d))
    ∙ ap (λ xs. a ++ g ∷ xs) (sym (append_assoc b (x ∷ c) (p ∷ d)))

module _ (fuel : ℕ) (s : Store) (k : Place) (x p g n : ℕ) (l r t u : Shape)
    (fits : Fits (suc n) k) where
  module _ (node : RedBlack n (fork x red l r)) (beside : (colour_of t ≡ black) × RedBlack n t)
      (uncle : (colour_of u ≡ black) × RedBlack n u) where
    pub left_left-Mended :
        StandsIn s k (fork g black (fork p red (fork x red l r) t) u)
        → Mended s
            (rbt_insert_fix (suc fuel) s x)
            (plug k (fork g black (fork p red (fork x red l r) t) u))
    left_left-Mended h =
        let family = left_left-Family s k x p g red black l r t u h in
        let family_black = subst (λ c. Family s x p g (addr u) c) uncle.0 family in
        let run = Family-black fuel s x p g (addr u) family_black in
        Mended-at s (rbt_insert_fix (suc fuel) s x) k
          (fork g black (fork p red (fork x red l r) t) u)
          (fork p black (fork x red l r) (fork g red t u)) (suc n)
          (rw run (turn-Final_left_left s k x p g red red black l r t u h))
          (sym (append_assoc (inorder (fork x red l r)) (p ∷ inorder t) (g ∷ inorder u))) fits
          (n, refl, node, (beside.0, uncle.0, beside.1, uncle.1)) refl

    pub left_right-Mended :
        StandsIn s k (fork g black (fork p red t (fork x red l r)) u)
        → Mended s
            (rbt_insert_fix (suc fuel) s x)
            (plug k (fork g black (fork p red t (fork x red l r)) u))
    left_right-Mended h =
        let (el, er, hl, hr) = node in
        let family = left_right-Family s k x p g red black l r t u h in
        let family_black = subst (λ c. Family s x p g (addr u) c) uncle.0 family in
        let run = Family-black fuel s x p g (addr u) family_black in
        Mended-at s (rbt_insert_fix (suc fuel) s x) k
          (fork g black (fork p red t (fork x red l r)) u)
          (fork x black (fork p red t l) (fork g red r u)) (suc n)
          (rw run (turn-Final_left_right s k x p g red red black l r t u h))
          (triangle_order (inorder t) (inorder l) (inorder r) (inorder u) p x g) fits
          (n, refl, (beside.0, el, beside.1, hl), (er, uncle.0, hr, uncle.1)) refl

    pub right_right-Mended :
        StandsIn s k (fork g black u (fork p red t (fork x red l r)))
        → Mended s
            (rbt_insert_fix (suc fuel) s x)
            (plug k (fork g black u (fork p red t (fork x red l r))))
    right_right-Mended h =
        let family = right_right-Family s k x p g red black l r t u h in
        let family_black = subst (λ c. Family s x p g (addr u) c) uncle.0 family in
        let run = Family-black fuel s x p g (addr u) family_black in
        Mended-at s (rbt_insert_fix (suc fuel) s x) k
          (fork g black u (fork p red t (fork x red l r)))
          (fork p black (fork g red u t) (fork x red l r)) (suc n)
          (rw run (turn-Final_right_right s k x p g red red black l r t u h))
          (append_assoc (inorder u) (g ∷ inorder t) (p ∷ inorder (fork x red l r))) fits
          (n, refl, (uncle.0, beside.0, uncle.1, beside.1), node) refl

    pub right_left-Mended :
        StandsIn s k (fork g black u (fork p red (fork x red l r) t))
        → Mended s
            (rbt_insert_fix (suc fuel) s x)
            (plug k (fork g black u (fork p red (fork x red l r) t)))
    right_left-Mended h =
        let (el, er, hl, hr) = node in
        let family = right_left-Family s k x p g red black l r t u h in
        let family_black = subst (λ c. Family s x p g (addr u) c) uncle.0 family in
        let run = Family-black fuel s x p g (addr u) family_black in
        Mended-at s (rbt_insert_fix (suc fuel) s x) k
          (fork g black u (fork p red (fork x red l r) t))
          (fork x black (fork g red u l) (fork p red r t)) (suc n)
          (rw run (turn-Final_right_left s k x p g red red black l r t u h))
          (triangle_order_right (inorder u) (inorder l) (inorder r) (inorder t) g x p) fits
          (n, refl, (uncle.0, el, uncle.1, hl), (er, beside.0, hr, beside.1)) refl
