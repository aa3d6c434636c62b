-- ===== src/Rbtree/Removed.antt =====
-- `rbtree_delete` of kernel/lib/ds/rbtree.c for a node with one child at most, as a whole.
use yaeos.Prelude.{
  ℕ, suc, ◌<◌, ◌≡◌, ◌⊎◌, inl, inr, refl, sym, ap, ◌∙◌, List, ◌∷◌, ◌++◌, append_assoc, append-nil,
  Outcome,
}
use mathlib.Core.Path.{subst}
use yaeos.Rbtree.{Colour, black, red, Store, rbt_set_colour, rbt_replace_subtree}
use yaeos.Rbtree.Shape.{Shape, leaf, fork, addr, inorder, Place, top, left_of, right_of, plug}
use yaeos.Rbtree.Rotate.{StandsIn}
use yaeos.Rbtree.Climb.{Final, Final->>=, Final-weaken, colour_of}
use yaeos.Rbtree.Balance.{
  RedBlack, Fits, BlackAbove, Whole, plug-Whole, inorder-plug, StandsIn-plug, red-ne,
}
use yaeos.Rbtree.Turns.{paint_left-Final, paint_right-Final}
use yaeos.Rbtree.RedUncle.{depth}
use yaeos.Rbtree.DeleteFix.{rbt_delete_fix-Evened}
use yaeos.Rbtree.Range.{before, rest, inorder-plug-rest}
use yaeos.Rbtree.Removal.{OneChild, only, rbtree_delete-start, take-Final}
use yaeos.Rbtree.Delete.{rbt_delete_fix, rbtree_delete}

-- What a red-black tree asks of a place and of the subtree there.
Whole-plug :
    (k : Place) (t : Shape)
    → Whole (plug k t)
    → (n : ℕ) × Fits n k × RedBlack n t × ((colour_of t ≡ black) ⊎ BlackAbove k)
Whole-plug top t (root, n, h) = (n, tt, h, inl root)
Whole-plug (left_of a black r k) t w =
    let (n, fits, (m, e, hl, hr), q) = Whole-plug k (fork a black t r) w in
    (m, (hr, subst (λ i. Fits i k) e fits), hl, inr refl)
Whole-plug (right_of a black l k) t w =
    let (n, fits, (m, e, hl, hr), q) = Whole-plug k (fork a black l t) w in
    (m, (hl, subst (λ i. Fits i k) e fits), hr, inr refl)
Whole-plug (left_of a red r k) t w =
    let (n, fits, (el, er, hl, hr), q) = Whole-plug k (fork a red t r) w in
    elim q [ inl e ↦ absurd (red-ne e) | inr up ↦ (n, (hr, er, up, fits), hl, inl el) ]
Whole-plug (right_of a red l k) t w =
    let (n, fits, (el, er, hl, hr), q) = Whole-plug k (fork a red l t) w in
    elim q [ inl e ↦ absurd (red-ne e) | inr up ↦ (n, (hl, el, up, fits), hr, inl er) ]

-- The run leaves a red-black tree of the nodes.
abbrev pub Left : Store → Outcome Store → List ℕ → Type 0
Left s run nodes =
    Final s run
      (λ s'. (after : Shape) × StandsIn s' top after × (inorder after ≡ nodes) × Whole after)

only-RedBlack :
    (n : ℕ) (l r : Shape) → OneChild l r → RedBlack n l → RedBlack n r → RedBlack n (only l r)
only-RedBlack n leaf r one hl hr = hr
only-RedBlack n (fork a c u v) r one hl hr = hl

only-black :
    (l r : Shape) → colour_of l ≡ black → colour_of r ≡ black → colour_of (only l r) ≡ black
only-black leaf r el er = er
only-black (fork a c u v) r el er = el

module _ (fuel : ℕ) (s : Store) (k : Place) (x n : ℕ) where
  -- The end of a deletion, when the place fits the child.
  taken :
      (s₁ : Store) (k₁ : Place) (c : Colour) (l r : Shape) (nodes : List ℕ)
      → OneChild l r
      → StandsIn s₁ k₁ (fork x c l r)
      → Fits n k₁
      → RedBlack n (only l r)
      → colour_of (only l r) ≡ black
      → inorder (plug k₁ (only l r)) ≡ nodes
      → Left s₁ (rbt_replace_subtree s₁ x (addr (only l r))) nodes
  taken s₁ k₁ c l r nodes one h fits balanced root order =
      Final-weaken s₁ (rbt_replace_subtree s₁ x (addr (only l r))) (λ s'. StandsIn s' k₁ (only l r))
        _ (take-Final fuel s₁ k₁ x c l r one h)
        (λ s' h'. (
          plug k₁ (only l r),
          StandsIn-plug s' k₁ (only l r) h',
          order,
          plug-Whole k₁ n (only l r) fits balanced (inl root),
        ))

  -- A black child, or none, below a black node.
  fixed :
      (l r : Shape)
      → OneChild l r
      → depth k < fuel
      → StandsIn s k (fork x black l r)
      → Fits (suc n) k
      → RedBlack n (only l r)
      → colour_of (only l r) ≡ black
      → Left s (rbtree_delete fuel s x) (inorder (plug k (only l r)))
  fixed l r one enough h fits balanced root =
      rw (rbtree_delete-start fuel s k x black l r one h, root)
        (Final->>= s (rbt_delete_fix fuel s x) (λ s'. rbt_replace_subtree s' x (addr (only l r))) _
          _ (rbt_delete_fix-Evened fuel s k x n black l r enough h fits)
          (λ s₁ m.
            taken s₁ m.0 black l r (inorder (plug k (only l r))) one m.1 m.2 balanced root
              (m.3 (only l r))))

  -- A red node needs no repair.
  plain :
      (l r : Shape)
      → OneChild l r
      → StandsIn s k (fork x red l r)
      → Fits n k
      → RedBlack n (fork x red l r)
      → Left s (rbtree_delete fuel s x) (inorder (plug k (only l r)))
  plain l r one h fits (el, er, hl, hr) = rw (rbtree_delete-start fuel s k x red l r one h) (
      taken s k red l r (inorder (plug k (only l r))) one h fits (only-RedBlack n l r one hl hr)
        (only-black l r el er) refl)

-- A red child below a black node becomes black.
recoloured :
    (fuel : ℕ) (s : Store) (k : Place) (x n : ℕ) (l r : Shape)
    → OneChild l r
    → depth k < fuel
    → StandsIn s k (fork x black l r)
    → Fits (suc n) k
    → RedBlack n l
    → RedBlack n r
    → Left s (rbtree_delete fuel s x) (inorder (plug k (only l r)))
recoloured fuel s k x n leaf leaf one enough h fits hl hr =
    fixed fuel s k x n leaf leaf one enough h fits hr refl
recoloured fuel s k x n leaf (fork d black dl dr) one enough h fits hl hr =
    fixed fuel s k x n leaf (fork d black dl dr) one enough h fits hr refl
recoloured fuel s k x n (fork d black dl dr) leaf one enough h fits hl hr =
    fixed fuel s k x n (fork d black dl dr) leaf one enough h fits hl refl
recoloured fuel s k x n leaf (fork d red dl dr) one enough h fits hl (_, _, hdl, hdr) =
    rw (rbtree_delete-start fuel s k x black leaf (fork d red dl dr) tt h) (
      Final->>= s (rbt_set_colour s d black) (λ s'. rbt_replace_subtree s' x d)
        (λ s'. StandsIn s' k (fork x black leaf (fork d black dl dr))) _
        (paint_right-Final s k x black leaf leaf black d red dl dr h)
        (λ s₁ h₁.
          taken fuel s k x (suc n) s₁ k black leaf (fork d black dl dr)
            (inorder (plug k (fork d red dl dr))) tt h₁ fits (n, refl, hdl, hdr) refl
            (inorder-plug k (fork d black dl dr) (fork d red dl dr) refl)))
recoloured fuel s k x n (fork d red dl dr) leaf one enough h fits (_, _, hdl, hdr) hr =
    rw (rbtree_delete-start fuel s k x black (fork d red dl dr) leaf tt h) (
      Final->>= s (rbt_set_colour s d black) (λ s'. rbt_replace_subtree s' x d)
        (λ s'. StandsIn s' k (fork x black (fork d black dl dr) leaf)) _
        (paint_left-Final s k x black leaf leaf black d red dl dr h)
        (λ s₁ h₁.
          taken fuel s k x (suc n) s₁ k black (fork d black dl dr) leaf
            (inorder (plug k (fork d red dl dr))) tt h₁ fits (n, refl, hdl, hdr) refl
            (inorder-plug k (fork d black dl dr) (fork d red dl dr) refl)))
recoloured fuel s k x n (fork a e u v) (fork b d m w) one enough h fits hl hr = absurd one

-- The nodes before and after the one at a place.
pub order-plug :
    (k : Place) (x : ℕ) (c : Colour) (l r : Shape)
    → inorder (plug k (fork x c l r)) ≡ (before k ++ inorder l) ++ x ∷ (inorder r ++ rest k)
order-plug k x c l r =
    inorder-plug-rest k (fork x c l r)
    ∙ ap (λ zs. before k ++ zs) (append_assoc (inorder l) (x ∷ inorder r) (rest k))
    ∙ sym (append_assoc (before k) (inorder l) (x ∷ (inorder r ++ rest k)))

removal_order :
    (k : Place) (x : ℕ) (c : Colour) (l r : Shape)
    → OneChild l r
    → (lower upper : List ℕ) × (inorder (plug k (fork x c l r)) ≡ lower ++ x ∷ upper)
      × (inorder (plug k (only l r)) ≡ lower ++ upper)
removal_order k x c l r one = (
  before k ++ inorder l,
  inorder r ++ rest k,
  order-plug k x c l r,
  inorder-plug-rest k (only l r)
      ∙ ap (λ zs. before k ++ (zs ++ rest k)) (inorder-only l r one)
      ∙ ap (λ zs. before k ++ zs) (append_assoc (inorder l) (inorder r) (rest k))
      ∙ sym (append_assoc (before k) (inorder l) (inorder r ++ rest k)),
)
  where
    inorder-only : (l r : Shape) → OneChild l r → inorder (only l r) ≡ inorder l ++ inorder r
    inorder-only leaf r one = refl
    inorder-only (fork a c u v) leaf one = sym (append-nil (inorder (fork a c u v)))
    inorder-only (fork a e u v) (fork b d m w) one = absurd one

abbrev pub Removed : Store → Outcome Store → ℕ → Shape → Type 0
Removed s run x t =
    (lower upper : List ℕ) × (inorder t ≡ lower ++ x ∷ upper)
    × Final s run (λ s'.
      (after : Shape) × StandsIn s' top after × (inorder after ≡ lower ++ upper) × Whole after)

-- The tree without the node, in the order of the nodes.
pub rbtree_delete-Left :
    (fuel : ℕ) (s : Store) (k : Place) (x : ℕ) (c : Colour) (l r : Shape)
    → OneChild l r
    → depth k < fuel
    → StandsIn s k (fork x c l r)
    → Whole (plug k (fork x c l r))
    → Left s (rbtree_delete fuel s x) (inorder (plug k (only l r)))
rbtree_delete-Left fuel s k x c l r one enough h whole =
    let (n, fits, balanced, q) = Whole-plug k (fork x c l r) whole in by_colour c n h fits balanced
  where
    by_colour :
        (c : Colour) (n : ℕ)
        → StandsIn s k (fork x c l r)
        → Fits n k
        → RedBlack n (fork x c l r)
        → Left s (rbtree_delete fuel s x) (inorder (plug k (only l r)))
    by_colour red n h fits balanced = plain fuel s k x n l r one h fits balanced
    by_colour black n h fits (m, e, hl, hr) =
        recoloured fuel s k x m l r one enough h (subst (λ i. Fits i k) e fits) hl hr

-- `rbtree_delete` of a node of a red-black tree that has one child at most ends without a fault, when the fuel
-- exceeds the nodes above it. The tree stays red-black, the other nodes stay in their order, and all contents
-- stay.
pub rbtree_delete-Removed :
    (fuel : ℕ) (s : Store) (k : Place) (x : ℕ) (c : Colour) (l r : Shape)
    → OneChild l r
    → depth k < fuel
    → StandsIn s k (fork x c l r)
    → Whole (plug k (fork x c l r))
    → Removed s (rbtree_delete fuel s x) x (plug k (fork x c l r))
rbtree_delete-Removed fuel s k x c l r one enough h whole =
    let (lower, upper, order, order') = removal_order k x c l r one in
    (
      lower,
      upper,
      order,
      Final-weaken s (rbtree_delete fuel s x) _ _
          (rbtree_delete-Left fuel s k x c l r one enough h whole)
          (λ s' m. (m.0, m.1, m.2 ∙ order', m.3)),
    )
