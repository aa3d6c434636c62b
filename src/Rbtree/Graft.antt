-- ===== src/Rbtree/Graft.antt =====
-- Where `rbtree_insert` of kernel/lib/ds/rbtree.c puts a node, described on trees and on lists.
use yaeos.Prelude.{
  ℕ, ◌≡◌, ◌⊎◌, inl, inr, refl, sym, ap, ◌∙◌, Bool, true, false, Bool-cases, if◌then◌else◌, List, [],
  ◌∷◌, ◌++◌,
}
use yaeos.Rbtree.{black, red}
use yaeos.Rbtree.Shape.{Shape, leaf, fork, inorder, Place, left_of, right_of, plug}
use yaeos.Rbtree.Climb.{colour_of}
use yaeos.Rbtree.Balance.{RedBlack, Fits, BlackAbove, red-ne}

-- The reference: the new node comes before the first one that is not below it.
abbrev pub insert_before : (ℕ → Bool) → ℕ → List ℕ → List ℕ
insert_before below new [] = new ∷ []
insert_before below new (a ∷ xs) = if below a then a ∷ insert_before below new xs else new ∷ a ∷ xs

abbrev pub NoneBelow : (ℕ → Bool) → List ℕ → Type 0
NoneBelow below [] = Unit {0}
NoneBelow below (a ∷ xs) = (below a ≡ false) × NoneBelow below xs

-- The nodes below the value come first.
abbrev pub Parted : (ℕ → Bool) → List ℕ → Type 0
Parted below [] = Unit {0}
Parted below (a ∷ xs) = (below a ≡ false → NoneBelow below xs) × Parted below xs

-- The empty place for the new node below the subtree at a place, and the subtree with the node.
abbrev pub leaf_place : (ℕ → Bool) → Shape → Place → Place
leaf_place below leaf k = k
leaf_place below (fork a c l r) k =
    if below a then leaf_place below r (right_of a c l k) else leaf_place below l (left_of a c r k)

abbrev pub grafted : (ℕ → Bool) → ℕ → Shape → Shape
grafted below new leaf = fork new red leaf leaf
grafted below new (fork a c l r) =
    if below a then fork a c l (grafted below new r) else fork a c (grafted below new l) r

module _ (below : ℕ → Bool) where
  pub plug-leaf_place :
      (new : ℕ) (t : Shape) (k : Place)
      → plug (leaf_place below t k) (fork new red leaf leaf) ≡ plug k (grafted below new t)
  plug-leaf_place new leaf k = refl
  plug-leaf_place new (fork a c l r) k = elim (Bool-cases (below a)) [
    | inl e ↦ rw e (plug-leaf_place new r (right_of a c l k))
    | inr e ↦ rw e (plug-leaf_place new l (left_of a c r k))
  ]

  pub Parted-right : (xs ys : List ℕ) → Parted below (xs ++ ys) → Parted below ys
  Parted-right [] ys h = h
  Parted-right (a ∷ xs) ys (first, rest) = Parted-right xs ys rest

  pub NoneBelow-head : (xs ys : List ℕ) (b : ℕ) → NoneBelow below (xs ++ b ∷ ys) → below b ≡ false
  NoneBelow-head [] ys b (h, rest) = h
  NoneBelow-head (a ∷ xs) ys b (h, rest) = NoneBelow-head xs ys b rest

  NoneBelow-left : (xs ys : List ℕ) → NoneBelow below (xs ++ ys) → NoneBelow below xs
  NoneBelow-left [] ys h = tt
  NoneBelow-left (a ∷ xs) ys (h, rest) = (h, NoneBelow-left xs ys rest)

  pub Parted-left : (xs ys : List ℕ) → Parted below (xs ++ ys) → Parted below xs
  Parted-left [] ys h = tt
  Parted-left (a ∷ xs) ys (first, rest) =
      ((λ e. NoneBelow-left xs ys (first e)), Parted-left xs ys rest)

  -- Past a node that is below the value, and before one that is not.
  insert_before-right :
      (new b : ℕ) (xs ys : List ℕ)
      → Parted below (xs ++ b ∷ ys)
      → below b ≡ true
      → insert_before below new (xs ++ b ∷ ys) ≡ xs ++ b ∷ insert_before below new ys
  insert_before-right new b [] ys h e = rw e refl
  insert_before-right new b (a ∷ xs) ys (first, rest) e = elim (Bool-cases (below a)) [
    | inl e' ↦ rw e' (ap (λ zs. a ∷ zs) (insert_before-right new b xs ys rest e))
    | inr e' ↦ absurd (true-false (below b) e (NoneBelow-head xs ys b (first e')))
  ]
    where
      true-false : (c : Bool) → c ≡ true → c ≡ false → ⊥
      true-false c e₁ e₂ = cc

  insert_before-left :
      (new b : ℕ) (xs ys : List ℕ)
      → below b ≡ false
      → insert_before below new (xs ++ b ∷ ys) ≡ insert_before below new xs ++ b ∷ ys
  insert_before-left new b [] ys e = rw e refl
  insert_before-left new b (a ∷ xs) ys e = elim (Bool-cases (below a)) [
    | inl e' ↦ rw e' (ap (λ zs. a ∷ zs) (insert_before-left new b xs ys e))
    | inr e' ↦ rw e' refl
  ]

  pub inorder-grafted :
      (new : ℕ) (t : Shape)
      → Parted below (inorder t)
      → inorder (grafted below new t) ≡ insert_before below new (inorder t)
  inorder-grafted new leaf h = refl
  inorder-grafted new (fork a c l r) h = elim (Bool-cases (below a)) [
    | inl e ↦ rw e (
        ap (λ zs. inorder l ++ a ∷ zs)
          (inorder-grafted new r (Parted-right (inorder l) (a ∷ inorder r) h).1)
        ∙ sym (insert_before-right new a (inorder l) (inorder r) h e))
    | inr e ↦ rw e (
        ap (λ zs. zs ++ a ∷ inorder r)
          (inorder-grafted new l (Parted-left (inorder l) (a ∷ inorder r) h))
        ∙ sym (insert_before-left new a (inorder l) (inorder r) e))
  ]

  -- A red node at the empty place is red-black but for its parent.
  pub leaf_place-Fits :
      (t : Shape) (n : ℕ) (k : Place)
      → Fits n k
      → RedBlack n t
      → (colour_of t ≡ black) ⊎ BlackAbove k
      → Fits 0 (leaf_place below t k)
  leaf_place-Fits leaf n k fits h q = rw⁻¹ h fits
  leaf_place-Fits (fork a black l r) n k fits (m, e, hl, hr) q = elim (Bool-cases (below a)) [
    | inl e' ↦ rw e' (leaf_place-Fits r m (right_of a black l k) (hl, rw⁻¹ e fits) hr (inr refl))
    | inr e' ↦ rw e' (leaf_place-Fits l m (left_of a black r k) (hr, rw⁻¹ e fits) hl (inr refl))
  ]
  leaf_place-Fits (fork a red l r) n k fits (el, er, hl, hr) (inl q) = absurd (red-ne q)
  leaf_place-Fits (fork a red l r) n k fits (el, er, hl, hr) (inr q) = elim (Bool-cases (below a)) [
    | inl e' ↦ rw e' (leaf_place-Fits r n (right_of a red l k) (hl, el, q, fits) hr (inl er))
    | inr e' ↦ rw e' (leaf_place-Fits l n (left_of a red r k) (hr, er, q, fits) hl (inl el))
  ]
