-- ===== src/Rbtree/Balance.antt =====
-- What makes a tree of kernel/lib/ds/rbtree.c red-black, and what a place asks of the tree at it.
use yaeos.Prelude.{ℕ, suc, ◌≡◌, ◌⊎◌, inl, inr, refl, ap, ◌∷◌, ◌++◌}
use yaeos.Rbtree.{black, red, Store}
use yaeos.Rbtree.Shape.{Shape, leaf, fork, inorder, Place, top, left_of, right_of, plug}
use yaeos.Rbtree.Rotate.{StandsIn}
use yaeos.Rbtree.Climb.{colour_of, climb_left, climb_right}

-- `n` black nodes on each way down, and no red node below a red one.
abbrev pub RedBlack : ℕ → Shape → Type 0
RedBlack n leaf = n ≡ 0
RedBlack n (fork a black l r) = (m : ℕ) × (n ≡ suc m) × RedBlack m l × RedBlack m r
RedBlack n (fork a red l r) =
    (colour_of l ≡ black) × (colour_of r ≡ black) × RedBlack n l × RedBlack n r

-- The node above the place is black.
abbrev pub BlackAbove : Place → Type 0
BlackAbove top = ⊥
BlackAbove (left_of a c r k) = c ≡ black
BlackAbove (right_of a c l k) = c ≡ black

-- The whole is red-black, with a black root, if the tree at the place has `n` black nodes on each way down.
abbrev pub Fits : ℕ → Place → Type 0
Fits n top = Unit {0}
Fits n (left_of a black r k) = RedBlack n r × Fits (suc n) k
Fits n (left_of a red r k) = RedBlack n r × (colour_of r ≡ black) × BlackAbove k × Fits n k
Fits n (right_of a black l k) = RedBlack n l × Fits (suc n) k
Fits n (right_of a red l k) = RedBlack n l × (colour_of l ≡ black) × BlackAbove k × Fits n k

abbrev pub Whole : Shape → Type 0
Whole t = (colour_of t ≡ black) × (n : ℕ) × RedBlack n t

pub red-ne : ¬ (red ≡ black)
red-ne e = cc

pub plug-Whole :
    (k : Place) (n : ℕ) (t : Shape)
    → Fits n k
    → RedBlack n t
    → (colour_of t ≡ black) ⊎ BlackAbove k
    → Whole (plug k t)
plug-Whole top n t fits h (inl e) = (e, n, h)
plug-Whole top n t fits h (inr e) = absurd e
plug-Whole (left_of a black r k) n t (hr, fits) h q =
    plug-Whole k (suc n) (fork a black t r) fits (n, refl, h, hr) (inl refl)
plug-Whole (left_of a red r k) n t (hr, er, up, fits) h (inl e) =
    plug-Whole k n (fork a red t r) fits (e, er, h, hr) (inr up)
plug-Whole (left_of a red r k) n t (hr, er, up, fits) h (inr e) = absurd (red-ne e)
plug-Whole (right_of a black l k) n t (hl, fits) h q =
    plug-Whole k (suc n) (fork a black l t) fits (n, refl, hl, h) (inl refl)
plug-Whole (right_of a red l k) n t (hl, el, up, fits) h (inl e) =
    plug-Whole k n (fork a red l t) fits (el, e, hl, h) (inr up)
plug-Whole (right_of a red l k) n t (hl, el, up, fits) h (inr e) = absurd (red-ne e)

pub inorder-plug :
    (k : Place) (t u : Shape) → inorder t ≡ inorder u → inorder (plug k t) ≡ inorder (plug k u)
inorder-plug top t u e = e
inorder-plug (left_of a c r k) t u e =
    inorder-plug k (fork a c t r) (fork a c u r) (ap (λ xs. xs ++ a ∷ inorder r) e)
inorder-plug (right_of a c l k) t u e =
    inorder-plug k (fork a c l t) (fork a c l u) (ap (λ xs. inorder l ++ a ∷ xs) e)

pub StandsIn-plug : (s : Store) (k : Place) (t : Shape) → StandsIn s k t → StandsIn s top (plug k t)
StandsIn-plug s top t h = h
StandsIn-plug s (left_of a c r k) t h = StandsIn-plug s k (fork a c t r) (climb_left s k a c t r h)
StandsIn-plug s (right_of a c l k) t h =
    StandsIn-plug s k (fork a c l t) (climb_right s k a c l t h)
