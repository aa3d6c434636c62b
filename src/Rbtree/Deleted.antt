-- ===== src/Rbtree/Deleted.antt =====
-- `rbtree_delete` of kernel/lib/ds/rbtree.c for each node of a tree.
use yaeos.Prelude.{
  ℕ, ◌<◌, ◌≡◌, ◌≢◌, refl, sym, ap, ◌∙◌, arith, ◌==◌, ◌||◌, if◌then◌else◌, ==_ne, inl, inr,
  Bool-cases, List, [], ◌∷◌, ◌++◌, append_assoc, Outcome, ok, ◌>>=◌, ◌>>◌, kassert,
}
use mathlib.Core.Path.{subst}
use yaeos.Rbtree.{
  Colour, black, Store, is_null, is_red, rbt_set_colour, rbt_get_colour, rbt_replace_subtree,
}
use yaeos.Rbtree.Shape.{Shape, leaf, fork, addr, inorder, Place, left_of, plug}
use yaeos.Rbtree.Rotate.{StandsIn}
use yaeos.Rbtree.Climb.{Final-weaken, descend_left}
use yaeos.Rbtree.Balance.{Whole}
use yaeos.Rbtree.Attach.{size}
use yaeos.Rbtree.Range.{before, rest}
use yaeos.Rbtree.Removal.{OneChild, only}
use yaeos.Rbtree.Removed.{Left, Removed, rbtree_delete-Left, rbtree_delete-Removed, order-plug}
use yaeos.Rbtree.Spine.{Spine, hang, Holds-hang}
use yaeos.Rbtree.WellLinked.{place_of, StandsIn-place_of}
use yaeos.Rbtree.Swapped.{rbt_swap_nodes-Final}
use yaeos.Rbtree.LastNode.{
  last_node, rbt_find_successor-run, plug-place_of, depth-size, Alike, Alike-fork, Alike-self,
  Alike-hang, Alike-plug, Alike-Whole, inorder-hang,
}
use yaeos.Rbtree.Delete.{rbt_delete_fix, rbt_find_successor, rbt_swap_nodes, rbtree_delete}

-- `rbtree_delete` after the exchange.
unfoldable take_out : ℕ → ℕ → Store → Outcome Store
take_out fuel deletee s₁ =
    let d₁ = s₁.node deletee in
    let child = (if is_null d₁.right then d₁.left else d₁.right) in
    do
      kassert (is_null d₁.left || is_null d₁.right)
      colour ← rbt_get_colour s₁ deletee
      child_colour ← rbt_get_colour s₁ child
      s₂ ←
          (if is_red colour
            then ok s₁
            else (if is_red child_colour
                then rbt_set_colour s₁ child black
                else rbt_delete_fix fuel s₁ deletee))
      rbt_replace_subtree s₂ deletee child

delete-two :
    (fuel : ℕ) (s : Store) (x u v : ℕ)
    → x ≢ 0
    → (s.node x).left ≡ u
    → (s.node x).right ≡ v
    → u ≢ 0
    → v ≢ 0
    → rbtree_delete fuel s x ≡ (
        rbt_find_successor fuel s x
        >>= (λ successor. rbt_swap_nodes s x successor)
        >>= take_out fuel x)
unfolding rbtree_delete take_out
delete-two fuel s x u v some el er some_u some_v =
    simp (==_ne x 0 some, el, er, ==_ne u 0 some_u, ==_ne v 0 some_v) refl

delete-one :
    (fuel : ℕ) (s : Store) (x u : ℕ)
    → x ≢ 0
    → (s.node x).left ≡ u
    → (s.node x).right ≡ 0
    → rbtree_delete fuel s x ≡ take_out fuel x s
unfolding rbtree_delete take_out
delete-one fuel s x u some el er = elim (Bool-cases (u == 0)) [
  | inl e ↦ simp (==_ne x 0 some, el, er, e) refl
  | inr e ↦ simp (==_ne x 0 some, el, er, e) refl
]

only-leaf : (t : Shape) → only t leaf ≡ t
only-leaf leaf = refl
only-leaf (fork a c l r) = refl

OneChild-leaf : (t : Shape) → OneChild t leaf
OneChild-leaf leaf = tt
OneChild-leaf (fork a c l r) = tt

-- A run that goes on where another one ended.
Left-after :
    (s s₁ : Store) (run run' : Outcome Store) (nodes : List ℕ)
    → run ≡ run'
    → ((a : ℕ) → (s₁.node a).content ≡ (s.node a).content)
    → Left s₁ run' nodes
    → Left s run nodes
Left-after s s₁ run run' nodes e same (s₂, ends, q, same') =
    (s₂, e ∙ ends, q, λ a. same' a ∙ same a)

module _ (fuel : ℕ) (s : Store) (k : Place) (x y : ℕ) (c d : Colour) (m : Spine)
    (yl r : Shape) where
  -- The tree with the one node or the other above.
  abbrev two : ℕ → ℕ → Shape
  two a b = plug k (fork a c (hang m (fork b d yl leaf)) r)

  two-Alike : Alike (two x y) (two y x)
  two-Alike =
      Alike-plug k (fork x c (hang m (fork y d yl leaf)) r) (fork y c (hang m (fork x d yl leaf)) r)
        (Alike-fork x y c (hang m (fork y d yl leaf)) (hang m (fork x d yl leaf)) r r
          (Alike-hang m (fork y d yl leaf) (fork x d yl leaf)
            (Alike-fork y x d yl yl leaf leaf (Alike-self yl) (Alike-self leaf)))
          (Alike-self r))

  -- The place of the node after the exchange.
  abbrev lower_place : Place
  lower_place = place_of m (left_of y c r k)

  deleted_below :
      (s₁ : Store)
      → size (two x y) < fuel
      → Whole (two x y)
      → StandsIn s₁ k (fork y c (hang m (fork x d yl leaf)) r)
      → Left s₁ (take_out fuel x s₁) (inorder (plug k (fork y c (hang m yl) r)))
  deleted_below s₁ enough whole h =
      let same = two-Alike in
      let e = same.same_size in
      let there =
        StandsIn-place_of m s₁ (left_of y c r k) (fork x d yl leaf)
          (descend_left s₁ k y c (hang m (fork x d yl leaf)) r h) in
      let at_x = there.held.0 in
      let here = plug-place_of m (left_of y c r k) (fork x d yl leaf) in
      let deep = depth-size lower_place (fork x d yl leaf) in
      let big = ap size here in
      Left-after s₁ s₁ (take_out fuel x s₁) (rbtree_delete fuel s₁ x) _
        (sym (delete-one fuel s₁ x (addr yl) at_x.some_node at_x.left_link at_x.right_link))
        (λ a. refl)
        (subst (λ zs. Left s₁ (rbtree_delete fuel s₁ x) zs)
          (ap (λ t. inorder (plug lower_place t)) (only-leaf yl)
            ∙ ap inorder (plug-place_of m (left_of y c r k) yl))
          (rbtree_delete-Left fuel s₁ lower_place x d yl leaf (OneChild-leaf yl) (omega arith) there
            (subst Whole (sym here) (Alike-Whole (two x y) (two y x) same whole))))

  -- The nodes left, in their order.
  deleted_order :
      inorder (plug k (fork y c (hang m yl) r))
      ≡ (before k ++ inorder (hang m (fork y d yl leaf))) ++ (inorder r ++ rest k)
  deleted_order =
      order-plug k y c (hang m yl) r
      ∙ sym (append_assoc (before k ++ inorder (hang m yl)) (y ∷ []) (inorder r ++ rest k))
      ∙ ap (λ zs. zs ++ (inorder r ++ rest k))
          (append_assoc (before k) (inorder (hang m yl)) (y ∷ [])
            ∙ ap (λ zs. before k ++ zs) (sym (inorder-hang m y d yl)))

  deleted_two :
      addr (hang m (fork y d yl leaf)) ≢ 0
      → addr r ≢ 0
      → size (two x y) < fuel
      → StandsIn s k (fork x c (hang m (fork y d yl leaf)) r)
      → Whole (two x y)
      → Removed s (rbtree_delete fuel s x) x (two x y)
  deleted_two some_l some_r enough h whole =
      let (at_x, left, right) = h.held in
      let some_y = (Holds-hang m (fork y d yl leaf) s.node x left).1.0.some_node in
      let inner = depth-size k (fork x c (hang m (fork y d yl leaf)) r) in
      let (s₁, swapped, h₁, same) = rbt_swap_nodes-Final s k x y c d yl r m h in
      (
        before k ++ inorder (hang m (fork y d yl leaf)),
        inorder r ++ rest k,
        order-plug k x c (hang m (fork y d yl leaf)) r,
        Final-weaken s (rbtree_delete fuel s x) _ _
            (Left-after s s₁ (rbtree_delete fuel s x) (take_out fuel x s₁) _
              (delete-two fuel s x _ (addr r) at_x.some_node at_x.left_link at_x.right_link some_l
                  some_r
                ∙ ap (λ o. o >>= (λ successor. rbt_swap_nodes s x successor) >>= take_out fuel x)
                    (rbt_find_successor-run fuel s k x y c d m yl r some_y (omega arith) h)
                ∙ ap (λ o. o >>= take_out fuel x) swapped)
              same (deleted_below s₁ enough whole h₁))
            (λ s' q. (q.0, q.1, q.2 ∙ deleted_order, q.3)),
      )

-- The deletion of the node at a place.
pub rbtree_delete_at-Removed :
    (fuel : ℕ) (s : Store) (k : Place) (x : ℕ) (c : Colour) (l r : Shape)
    → size (plug k (fork x c l r)) < fuel
    → StandsIn s k (fork x c l r)
    → Whole (plug k (fork x c l r))
    → Removed s (rbtree_delete fuel s x) x (plug k (fork x c l r))
rbtree_delete_at-Removed fuel s k x c leaf r enough h whole =
    let deep = depth-size k (fork x c leaf r) in
    rbtree_delete-Removed fuel s k x c leaf r tt (omega arith) h whole
rbtree_delete_at-Removed fuel s k x c (fork a e u v) leaf enough h whole =
    let deep = depth-size k (fork x c (fork a e u v) leaf) in
    rbtree_delete-Removed fuel s k x c (fork a e u v) leaf tt (omega arith) h whole
rbtree_delete_at-Removed fuel s k x c (fork a e u v) (fork b f w z) enough h whole =
    let (m, y, d, yl, here) = last_node a e u v in
    subst
      (λ t.
        addr t ≢ 0
        → size (plug k (fork x c t (fork b f w z))) < fuel
        → StandsIn s k (fork x c t (fork b f w z))
        → Whole (plug k (fork x c t (fork b f w z)))
        → Removed s (rbtree_delete fuel s x) x (plug k (fork x c t (fork b f w z))))
      (sym here)
      (λ some_l. deleted_two fuel s k x y c d m yl (fork b f w z) some_l h.held.2.0.some_node)
      h.held.1.0.some_node enough h whole
