-- ===== src/Rbtree/Insert.antt =====
-- `rbtree_insert` of kernel/lib/ds/rbtree.c as a whole.
use yaeos.Prelude.{
  ℕ, ◌+◌, ◌≤◌, ◌<◌, ◌≡◌, ◌≢◌, inl, inr, refl, sym, ap, ◌∙◌, arith, Bool, true, Bool-cases, ==_ne, ℤ,
  Outcome, ◌>>=◌,
}
use mathlib.Core.Path.{subst, fun_ext}
use yaeos.Rbtree.{red, Node, Store, put, rbt_set_parent, rbtree_init_node}
use yaeos.Rbtree.Shape.{
  Shape, leaf, fork, addr, inorder, count, Place, top, left_of, right_of, above, count_place,
  Linked,
}
use yaeos.Rbtree.Frame.{Linked-put_self, Holds-put, Around-put}
use yaeos.Rbtree.Content.{SameContent, put-SameContent}
use yaeos.Rbtree.Rotate.{StandsIn}
use yaeos.Rbtree.Climb.{Final, Final->>=, Final-weaken, descend_left, descend_right}
use yaeos.Rbtree.Balance.{Whole}
use yaeos.Rbtree.Graft.{
  insert_before, Parted, leaf_place, plug-leaf_place, inorder-grafted, leaf_place-Fits,
}
use yaeos.Rbtree.Attach.{size, goes_left, below_in, find_place-run, attach, attach-Final}
use yaeos.Rbtree.RedUncle.{depth}
use yaeos.Rbtree.Fix.{rbt_insert_fix-Mended}
use yaeos.Rbtree.Update.{is_negative, find_place, rbt_insert_fix, rbtree_insert}

module _ (below : ℕ → Bool) where
  leaf_place-StandsIn :
      (s : Store) (t : Shape) (k : Place) → StandsIn s k t → StandsIn s (leaf_place below t k) leaf
  leaf_place-StandsIn s leaf k h = h
  leaf_place-StandsIn s (fork a c l r) k h = elim (Bool-cases (below a)) [
    | inl e ↦ rw e (leaf_place-StandsIn s r (right_of a c l k) (descend_right s k a c l r h))
    | inr e ↦ rw e (leaf_place-StandsIn s l (left_of a c r k) (descend_left s k a c l r h))
  ]

  count_place-leaf_place :
      (b : ℕ) (t : Shape) (k : Place)
      → count_place b (leaf_place below t k) ≡ count_place b k + count b t
  unfolding count count_place
  count_place-leaf_place b leaf k = omega arith
  count_place-leaf_place b (fork a c l r) k = elim (Bool-cases (below a)) [
    | inl e ↦ rw e (let ih = count_place-leaf_place b r (right_of a c l k) in omega arith)
    | inr e ↦ rw e (let ih = count_place-leaf_place b l (left_of a c r k) in omega arith)
  ]

  depth-leaf_place : (t : Shape) (k : Place) → depth (leaf_place below t k) ≤ depth k + size t
  depth-leaf_place leaf k = omega arith
  depth-leaf_place (fork a c l r) k = elim (Bool-cases (below a)) [
    | inl e ↦ rw e (let ih = depth-leaf_place r (right_of a c l k) in omega arith)
    | inr e ↦ rw e (let ih = depth-leaf_place l (left_of a c r k) in omega arith)
  ]

leaf_place-fresh :
    (below : ℕ → Bool) (b : ℕ) (t : Shape)
    → count b t ≡ 0
    → count_place b (leaf_place below t top) ≡ 0
unfolding count_place
leaf_place-fresh below b t none = let e = count_place-leaf_place below b t top in omega arith

-- A change of a node that is not in the tree.
StandsIn-put :
    (s : Store) (k : Place) (t : Shape) (b : ℕ) (v : Node)
    → count_place b k ≡ 0
    → count b t ≡ 0
    → StandsIn s k t
    → StandsIn (record s { node = put s.node b v }) k t
StandsIn-put s k t b v none_k none_t h = record {
  around = Around-put k s.node s.root (addr t) b v none_k h.around;
  held = Holds-put t s.node b v (above k) none_t h.held;
  once = h.once;
}

-- The statements after `rbtree_init_node`.
abbrev settle : (ℕ → ℕ → ℤ) → ℕ → Store → ℕ → Outcome Store
settle cmpf fuel s new = do
  (parent, to_left) ← find_place cmpf s (s.node new).content fuel 0 true s.root
  s₂ ← rbt_set_parent s new parent
  s₃ ← attach s₂ new parent to_left
  rbt_insert_fix fuel s₃ new

abbrev pub Inserted : Store → Outcome Store → (ℕ → Bool) → ℕ → Shape → Type 0
Inserted s run below new before = Final s run (λ s'.
    (after : Shape) × StandsIn s' top after
    × (inorder after ≡ insert_before below new (inorder before))
    × Whole after)

rbt_set_parent-Final :
    (s : Store) (k : Place) (new : ℕ)
    → StandsIn s k leaf
    → count_place new k ≡ 0
    → Linked s.node new 0 0 0 red
    → Final s
        (rbt_set_parent s new (above k))
        (λ s'. StandsIn s' k leaf × Linked s'.node new 0 0 (above k) red)
unfolding rbt_set_parent count
rbt_set_parent-Final s k new h none node =
    let v = record (s.node new) { parent = above k } in
    (
      record s { node = put s.node new v },
      simp (==_ne new 0 node.some_node) refl,
      (
        StandsIn-put s k leaf new v none refl h,
        Linked-put_self s.node v new 0 0 (above k) red node.some_node
            (node.left_link, node.right_link, refl, node.has_colour),
      ),
      put-SameContent s.node new v refl,
    )

settle-Inserted :
    (cmpf : ℕ → ℕ → ℤ) (fuel : ℕ) (s : Store) (t : Shape) (new : ℕ)
    → StandsIn s top t
    → Linked s.node new 0 0 0 red
    → Whole t
    → count new t ≡ 0
    → size t < fuel
    → Parted (below_in cmpf s.node (s.node new).content) (inorder t)
    → Inserted s (settle cmpf fuel s new) (below_in cmpf s.node (s.node new).content) new t
settle-Inserted cmpf fuel s t new h node (root_black, n, balanced) none enough parted =
    let below = below_in cmpf s.node (s.node new).content in
    let k = leaf_place below t top in
    let found =
      ap (λ r. find_place cmpf s (s.node new).content fuel 0 true r) h.around
      ∙ find_place-run cmpf s (s.node new).content 0 fuel t top enough h.held in
    let at_k = leaf_place-StandsIn below s t top h in
    let fresh = leaf_place-fresh below new t none in
    let near = depth-leaf_place below t top in
    rw found (
      Final->>= s (rbt_set_parent s new (above k)) _
        (λ s'. StandsIn s' k leaf × Linked s'.node new 0 0 (above k) red) _
        (rbt_set_parent-Final s k new at_k fresh node)
        (λ s₂ h₂.
          Final->>= s₂ (attach s₂ new (above k) (goes_left k)) _
            (λ s'. StandsIn s' k (fork new red leaf leaf)) _ (attach-Final s₂ k new h₂.0 fresh h₂.1)
            (λ s₃ h₃.
              Final-weaken s₃ (rbt_insert_fix fuel s₃ new) _ _
                (rbt_insert_fix-Mended fuel s₃ k new 0 leaf leaf (omega arith) h₃
                  (leaf_place-Fits below t n top tt balanced (inl root_black))
                  (refl, refl, refl, refl))
                (λ s' m. (
                  m.0,
                  m.1,
                  m.2
                      ∙ ap inorder (plug-leaf_place below new t top)
                      ∙ inorder-grafted below new t parted,
                  m.3,
                )))))

below_in-same :
    (cmpf : ℕ → ℕ → ℤ) (m n : ℕ → Node) (new : ℕ)
    → SameContent m n
    → below_in cmpf n (n new).content ≡ below_in cmpf m (m new).content
below_in-same cmpf m n new same = fun_ext (λ a.
    ap (λ v. is_negative (cmpf (n a).content v)) (same new)
    ∙ ap (λ c. is_negative (cmpf c (m new).content)) (same a))

-- `rbtree_insert` of a node that is not in the tree ends without a fault when the fuel exceeds the nodes of the
-- tree. A red-black tree, with the nodes of lesser content first, stays red-black, and its nodes from left to
-- right are those before with the new one in front of the first that is not less. The contents stay.
pub rbtree_insert-Inserted :
    (cmpf : ℕ → ℕ → ℤ) (fuel : ℕ) (s : Store) (t : Shape) (new : ℕ)
    → new ≢ 0
    → StandsIn s top t
    → Whole t
    → count new t ≡ 0
    → size t < fuel
    → Parted (below_in cmpf s.node (s.node new).content) (inorder t)
    → Inserted s (rbtree_insert cmpf fuel s new) (below_in cmpf s.node (s.node new).content) new t
unfolding rbtree_insert rbtree_init_node count_place
rbtree_insert-Inserted cmpf fuel s t new some h whole none enough parted =
    let v : Node = record {
      content = (s.node new).content;
      left = 0;
      right = 0;
      parent = 0;
      colour = red;
    } in
    let s₁ = record s { node = put s.node new v } in
    let same = put-SameContent s.node new v refl in
    let below_same = below_in-same cmpf s.node s₁.node new same in
    let (s', ends, done, same') =
      settle-Inserted cmpf fuel s₁ t new (StandsIn-put s top t new v refl none h)
        (Linked-put_self s.node v new 0 0 0 red some (refl, refl, refl, refl)) whole none enough
        (subst (λ b. Parted b (inorder t)) (sym below_same) parted) in
    (
      s',
      simp (==_ne new 0 some) ends,
      (done.0, done.1, done.2 ∙ ap (λ b. insert_before b new (inorder t)) below_same, done.3),
      λ a. same' a ∙ same a,
    )
