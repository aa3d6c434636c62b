-- ===== src/Rbtree/Walk.antt =====
-- The walk of `rbtree_iter_range` in kernel/lib/ds/rbtree.c against a loop over the list of the nodes.
use yaeos.Prelude.{
  ℕ, zero, suc, ◌+◌, ◌*◌, ◌≤◌, ◌≡◌, ◌≢◌, inl, inr, refl, sym, arith, Bool, Bool-cases, ==_ne,
  ==_refl, if◌then◌else◌, ◌++◌, ◌∷◌, [], List, ℤ, ok,
}
use yaeos.Rbtree.{Colour, Store}
use yaeos.Rbtree.Shape.{Shape, leaf, fork, addr, inorder, count, Linked, Holds}
use yaeos.Rbtree.Relink.{addr-ne}
use yaeos.Rbtree.Attach.{size}
use yaeos.Rbtree.Update.{is_positive}
use yaeos.Rbtree.Search.{walk_round, walk}

apart_right :
    (a b : ℕ) (c d : Colour) (l rl rr : Shape)
    → a ≢ 0
    → ((x : ℕ) → count x (fork a c l (fork b d rl rr)) ≤ 1)
    → (a ≢ addr rl) × (a ≢ addr rr)
unfolding count
apart_right a b c d l rl rr some once =
    let o = once a in
    let e = ==_refl a in
    (
      (λ h. addr-ne a rl some (ground arith) (sym h)),
      (λ h. addr-ne a rr some (ground arith) (sym h)),
    )

pub apart_left :
    (a b : ℕ) (c d : Colour) (ll lr r : Shape)
    → a ≢ 0
    → ((x : ℕ) → count x (fork a c (fork b d ll lr) r) ≤ 1)
    → (a ≢ addr ll) × (a ≢ addr lr)
unfolding count
apart_left a b c d ll lr r some once =
    let o = once a in
    let e = ==_refl a in
    (
      (λ h. addr-ne a ll some (ground arith) (sym h)),
      (λ h. addr-ne a lr some (ground arith) (sym h)),
    )

-- The root of a right subtree is not that of the left one.
pub roots-apart :
    (a b : ℕ) (c d : Colour) (l rl rr : Shape)
    → b ≢ 0
    → ((x : ℕ) → count x (fork a c l (fork b d rl rr)) ≤ 1)
    → b ≢ addr l
unfolding count
roots-apart a b c d l rl rr some once h =
    let o = once b in let e = ==_refl b in addr-ne b l some (ground arith) (sym h)

pub once-children :
    (a : ℕ) (c : Colour) (l r : Shape)
    → ((x : ℕ) → count x (fork a c l r) ≤ 1)
    → ((x : ℕ) → count x l ≤ 1) × ((x : ℕ) → count x r ≤ 1)
unfolding count
once-children a c l r once =
    ((λ x. let o = once x in omega arith), (λ x. let o = once x in omega arith))

module _ {A : Type 0} (cmpf : ℕ → ℕ → ℤ) (fn : A → ℕ → A × Bool) (s : Store) (value_to : ℕ) where
  -- The reference: the function on one node after the other, until one is above the bound or the function
  -- asks for no more.
  abbrev pub each : List ℕ → A → A
  each [] data_ = data_
  each (a ∷ xs) data_ =
      let called = fn data_ (s.node a).content in
      if is_positive (cmpf (s.node a).content value_to)
      then data_
      else (if called.1 then each xs called.0 else called.0)

  -- The walk comes to the cursor from `prev`, and goes on with the list.
  abbrev pub Continues : ℕ → ℕ → ℕ → List ℕ → Type 0
  Continues fuel prev cursor ys =
      (m : ℕ) (data_ : A)
      → fuel ≤ m
      → walk cmpf fn s value_to m data_ prev cursor ≡ ok (each ys data_)

  -- The walk enters the tree from a node that is none of the two children of its root.
  abbrev pub Enters : Shape → ℕ → List ℕ → Type 0
  Enters leaf fuel ys = Unit {0}
  Enters (fork a c l r) fuel ys =
      (p : ℕ)
      → p ≢ addr l
      → p ≢ addr r
      → Continues (fuel + 3 * size (fork a c l r)) p a (inorder (fork a c l r) ++ ys)

  -- The visit of a node whose left subtree is done.
  pub visit-Continues :
      (fuel a q : ℕ) (c : Colour) (l r : Shape) (ys : List ℕ)
      → Linked s.node a (addr l) (addr r) q c
      → Holds s.node a r
      → ((b : ℕ) → count b (fork a c l r) ≤ 1)
      → Continues fuel a q ys
      → Enters r (fuel + 1) ys
      → Continues (fuel + 2 + 3 * size r) (addr l) a (a ∷ (inorder r ++ ys))
  unfolding walk walk_round
  visit-Continues fuel a q c l r ys node held once leave enter zero data_ enough =
      absurd (omega arith)
  visit-Continues fuel a q c l leaf ys node held once leave enter (suc m) data_ enough =
      let ea = ==_ne a 0 node.some_node in
      elim (Bool-cases (is_positive (cmpf (s.node a).content value_to))) [
        | inl e ↦ simp (ea, node.left_link, ==_refl (addr l), e) refl
        | inr e ↦ elim (Bool-cases (fn data_ (s.node a).content).1) [
          | inl e' ↦
              simp (ea, node.left_link, ==_refl (addr l), e, e', node.right_link, node.parent_link)
                (leave m (fn data_ (s.node a).content).0 (omega arith))
          | inr e' ↦ simp (ea, node.left_link, ==_refl (addr l), e, e') refl
        ]
      ]
  visit-Continues fuel a q c l (fork b d rl rr) ys node held once leave enter (suc m) data_ enough =
      let (at_b, hl, hr) = held in
      let (apart_l, apart_r) = apart_right a b c d l rl rr node.some_node once in
      let ea = ==_ne a 0 node.some_node in
      let eb = ==_ne b 0 at_b.some_node in
      elim (Bool-cases (is_positive (cmpf (s.node a).content value_to))) [
        | inl e ↦ simp (ea, node.left_link, ==_refl (addr l), e) refl
        | inr e ↦ elim (Bool-cases (fn data_ (s.node a).content).1) [
          | inl e' ↦
              simp (ea, node.left_link, ==_refl (addr l), e, e', node.right_link, eb)
                (enter a apart_l apart_r m (fn data_ (s.node a).content).0 (omega arith))
          | inr e' ↦ simp (ea, node.left_link, ==_refl (addr l), e, e') refl
        ]
      ]

  -- The way back from the right subtree.
  pub leave_right-Continues :
      (fuel a b q : ℕ) (c : Colour) (l : Shape) (ys : List ℕ)
      → Linked s.node a (addr l) b q c
      → b ≢ addr l
      → Continues fuel a q ys
      → Continues (fuel + 1) b a ys
  unfolding walk walk_round
  leave_right-Continues fuel a b q c l ys node apart leave zero data_ enough = absurd (omega arith)
  leave_right-Continues fuel a b q c l ys node apart leave (suc m) data_ enough =
      simp
        (
          ==_ne a 0 node.some_node,
          node.left_link,
          ==_ne b (addr l) apart,
          node.right_link,
          ==_refl b,
          node.parent_link,
        )
        (leave m data_ (omega arith))

  -- The first round in a subtree.
  pub enter_left-Continues :
      (fuel p a b q r : ℕ) (c : Colour) (ys : List ℕ)
      → Linked s.node a b r q c
      → b ≢ 0
      → p ≢ b
      → p ≢ r
      → Continues fuel a b ys
      → Continues (fuel + 1) p a ys
  unfolding walk walk_round
  enter_left-Continues fuel p a b q r c ys node some pl pr next zero data_ enough =
      absurd (omega arith)
  enter_left-Continues fuel p a b q r c ys node some pl pr next (suc m) data_ enough =
      simp
        (
          ==_ne a 0 node.some_node,
          node.left_link,
          ==_ne p b pl,
          node.right_link,
          ==_ne p r pr,
          ==_ne b 0 some,
        )
        (next m data_ (omega arith))

  pub enter_here-Continues :
      (fuel p a q r : ℕ) (c : Colour) (ys : List ℕ)
      → Linked s.node a 0 r q c
      → p ≢ 0
      → p ≢ r
      → Continues fuel 0 a ys
      → Continues (fuel + 1) p a ys
  unfolding walk walk_round
  enter_here-Continues fuel p a q r c ys node pl pr next zero data_ enough = absurd (omega arith)
  enter_here-Continues fuel p a q r c ys node pl pr next (suc m) data_ enough =
      simp (==_ne a 0 node.some_node, node.left_link, ==_ne p 0 pl, node.right_link, ==_ne p r pr)
        (next m data_ (omega arith))
