-- ===== src/Rbtree/Found.antt =====
-- What `rbtree_search` of kernel/lib/ds/rbtree.c finds.
use yaeos.Prelude.{
  ℕ, zero, suc, ◌≤◌, ◌<◌, ◌≡◌, ◌⊎◌, inl, inr, refl, ap, ◌∙◌, arith, Bool, true, false, not,
  Bool-cases, ==_ne, ◌++◌, ◌∷◌, [], List, ℤ, pos, negsuc, ok,
}
use yaeos.Rbtree.{Node, Store}
use yaeos.Rbtree.Shape.{Shape, leaf, fork, addr, inorder, count, top, Holds}
use yaeos.Rbtree.Reparent.{count-addr}
use yaeos.Rbtree.Rotate.{StandsIn}
use yaeos.Rbtree.Graft.{NoneBelow, Parted, Parted-left, Parted-right, NoneBelow-head}
use yaeos.Rbtree.Attach.{size}
use yaeos.Rbtree.Update.{is_positive, is_negative}
use yaeos.Rbtree.Search.{is_zero, search, rbtree_search}

pub clash : (c : Bool) → c ≡ true → c ≡ false → ⊥
clash c e₁ e₂ = cc

pub ℤ-cases :
    (c : ℤ)
    → (is_zero c ≡ true)
      ⊎ (((is_zero c ≡ false) × (is_positive c ≡ true))
          ⊎ ((is_zero c ≡ false) × (is_positive c ≡ false) × (is_negative c ≡ true)))
ℤ-cases (pos zero) = inl refl
ℤ-cases (pos (suc n)) = let e = ==_ne (suc n) 0 (omega arith) in inr (inl (e, ap not e))
ℤ-cases (negsuc n) = inr (inr (refl, refl, refl))

not_at_most : (c : ℤ) → not (is_positive c) ≡ false → is_zero c ≡ false
not_at_most (pos zero) e = e
not_at_most (pos (suc n)) e = ==_ne (suc n) 0 (omega arith)
not_at_most (negsuc n) e = refl

less_not_zero : (c : ℤ) → is_negative c ≡ true → is_zero c ≡ false
less_not_zero (pos n) e = absurd (clash false e refl)
less_not_zero (negsuc n) e = refl

module _ (cmpf : ℕ → ℕ → ℤ) (nodes : ℕ → Node) (value : ℕ) where
  abbrev pub equal_in : ℕ → Bool
  equal_in a = is_zero (cmpf (nodes a).content value)

  abbrev pub less_in : ℕ → Bool
  less_in a = is_negative (cmpf (nodes a).content value)

  abbrev pub at_most_in : ℕ → Bool
  at_most_in a = not (is_positive (cmpf (nodes a).content value))

  -- The lesser nodes come first, then the equal ones, then the greater ones.
  abbrev pub Ranked : List ℕ → Type 0
  Ranked xs = Parted less_in xs × Parted at_most_in xs

  none-greater : (xs : List ℕ) → NoneBelow at_most_in xs → NoneBelow equal_in xs
  none-greater [] h = tt
  none-greater (a ∷ xs) (h, rest) =
      (not_at_most (cmpf (nodes a).content value) h, none-greater xs rest)

  -- Before a lesser node stand lesser ones.
  none-less :
      (b : ℕ) (xs ys : List ℕ)
      → less_in b ≡ true
      → Parted less_in (xs ++ b ∷ ys)
      → NoneBelow equal_in xs
  none-less b [] ys e h = tt
  none-less b (a ∷ xs) ys e (first, rest) = elim (Bool-cases (less_in a)) [
    | inl e' ↦ (less_not_zero (cmpf (nodes a).content value) e', none-less b xs ys e rest)
    | inr e' ↦ absurd (clash (less_in b) e (NoneBelow-head less_in xs ys b (first e')))
  ]

  NoneBelow-join :
      (below : ℕ → Bool) (a : ℕ) (xs ys : List ℕ)
      → NoneBelow below xs
      → below a ≡ false
      → NoneBelow below ys
      → NoneBelow below (xs ++ a ∷ ys)
  NoneBelow-join below a [] ys h e rest = (e, rest)
  NoneBelow-join below a (b ∷ xs) ys (e', h) e rest = (e', NoneBelow-join below a xs ys h e rest)

-- The node that is found, or NULL.
abbrev pub Sought : (ℕ → ℕ → ℤ) → Store → ℕ → Shape → ℕ → Type 0
Sought cmpf s value t r =
    ((r ≡ 0) × NoneBelow (equal_in cmpf s.node value) (inorder t))
    ⊎ ((1 ≤ count r t) × (equal_in cmpf s.node value r ≡ true))

module _ (cmpf : ℕ → ℕ → ℤ) (s : Store) (value : ℕ) where
  search-Sought :
      (fuel q : ℕ) (t : Shape)
      → size t < fuel
      → Holds s.node q t
      → Ranked cmpf s.node value (inorder t)
      → (r : ℕ) × (search cmpf s value fuel (addr t) ≡ ok r) × Sought cmpf s value t r
  unfolding search count
  search-Sought zero q t enough h ranked = absurd (omega arith)
  search-Sought (suc fuel) q leaf enough h ranked = (0, refl, inl (refl, tt))
  search-Sought (suc fuel) q (fork a c l r) enough (node, hl, hr) (less, at_most) =
      elim (ℤ-cases (cmpf (s.node a).content value)) [
        | inl e ↦ (a, simp (==_ne a 0 node.some_node, e) refl, inr (count-addr a c l r, e))
        | inr (inl (e₀, e)) ↦
            let (r', run, sought) = search-Sought fuel a l (omega arith) hl (
              Parted-left _ (inorder l) (a ∷ inorder r) less,
              Parted-left _ (inorder l) (a ∷ inorder r) at_most,
            ) in
            let beyond =
              none-greater cmpf s.node value (inorder r)
                ((Parted-right _ (inorder l) (a ∷ inorder r) at_most).0 (ap not e)) in
            (
              r',
              simp (==_ne a 0 node.some_node, e₀, e, node.left_link) run,
              elim sought [
                | inl (z, none) ↦
                    inl (
                      z,
                      NoneBelow-join cmpf s.node value _ a (inorder l) (inorder r) none e₀ beyond,
                    )
                | inr (there, eq) ↦ inr (omega arith, eq)
              ],
            )
        | inr (inr (e₀, e₁, e)) ↦
            let (r', run, sought) = search-Sought fuel a r (omega arith) hr (
              (Parted-right _ (inorder l) (a ∷ inorder r) less).1,
              (Parted-right _ (inorder l) (a ∷ inorder r) at_most).1,
            ) in
            let before = none-less cmpf s.node value a (inorder l) (inorder r) e less in
            (
              r',
              simp (==_ne a 0 node.some_node, e₀, e₁, e, node.right_link) run,
              elim sought [
                | inl (z, none) ↦
                    inl (
                      z,
                      NoneBelow-join cmpf s.node value _ a (inorder l) (inorder r) before e₀ none,
                    )
                | inr (there, eq) ↦ inr (omega arith, eq)
              ],
            )
      ]

-- `rbtree_search` of a tree in order ends when the fuel exceeds its nodes: it returns a node of the tree whose
-- content compares as equal to the value, or NULL, and then no node's does.
pub rbtree_search-Sought :
    (cmpf : ℕ → ℕ → ℤ) (fuel : ℕ) (s : Store) (value : ℕ) (t : Shape)
    → StandsIn s top t
    → size t < fuel
    → Ranked cmpf s.node value (inorder t)
    → (r : ℕ) × (rbtree_search cmpf fuel s value ≡ ok r) × Sought cmpf s value t r
unfolding rbtree_search
rbtree_search-Sought cmpf fuel s value t h enough ranked =
    let (r, run, sought) = search-Sought cmpf s value fuel 0 t enough h.held ranked in
    (r, ap (search cmpf s value fuel) h.around ∙ run, sought)
