-- ===== src/Rbtree/Range.antt =====
-- `rbtree_iter_range` of kernel/lib/ds/rbtree.c as a whole.
use yaeos.Prelude.{
  ℕ, zero, suc, ◌+◌, ◌*◌, ◌≤◌, ◌<◌, ◌≡◌, refl, sym, ap, ◌∙◌, arith, Bool, true, ==_ne, ◌++◌, ◌∷◌,
  [], List, append_assoc, append-nil, ℤ, ok,
}
use yaeos.Rbtree.{Colour, Store}
use yaeos.Rbtree.Shape.{
  Shape, leaf, fork, addr, inorder, count, Place, top, left_of, right_of, above, plug, Linked,
  Holds,
}
use yaeos.Rbtree.Rotate.{StandsIn}
use yaeos.Rbtree.Climb.{climb_left, climb_right}
use yaeos.Rbtree.Attach.{size}
use yaeos.Rbtree.Update.{is_negative}
use yaeos.Rbtree.Search.{walk, rbtree_search_min, rbtree_iter_range}
use yaeos.Rbtree.Walk.{
  each, Continues, Enters, visit-Continues, leave_right-Continues, enter_left-Continues,
  enter_here-Continues, apart_left, roots-apart, once-children,
}

-- The nodes after the subtree at a place.
abbrev pub rest : Place → List ℕ
rest top = []
rest (left_of a c r k) = a ∷ (inorder r ++ rest k)
rest (right_of a c l k) = rest k

-- The rounds that the walk needs for them.
abbrev pub cost : Place → ℕ
cost top = 1
cost (left_of a c r k) = cost k + 2 + 3 * size r
cost (right_of a c l k) = cost k + 1

once-tree : (s : Store) (k : Place) (t : Shape) → StandsIn s k t → (x : ℕ) → count x t ≤ 1
once-tree s k t h x = let o = h.once x in omega arith

-- The nodes before those of the subtree at a place.
unfoldable pub before : Place → List ℕ
before top = []
before (left_of a c r k) = before k
before (right_of a c l k) = before k ++ (inorder l ++ a ∷ [])

module _ {A : Type 0} (cmpf : ℕ → ℕ → ℤ) (fn : A → ℕ → A × Bool) (s : Store) (value_to : ℕ) where
  -- The walk goes on with the list when it leaves the tree.
  abbrev Leaves : Shape → ℕ → ℕ → List ℕ → Type 0
  Leaves leaf fuel q ys = Unit {0}
  Leaves (fork a c l r) fuel q ys = Continues cmpf fn s value_to fuel a q ys

  leave_right :
      (r : Shape) (fuel a q : ℕ) (c : Colour) (l : Shape) (ys : List ℕ)
      → Linked s.node a (addr l) (addr r) q c
      → Holds s.node a r
      → ((x : ℕ) → count x (fork a c l r) ≤ 1)
      → Continues cmpf fn s value_to fuel a q ys
      → Leaves r (fuel + 1) a ys
  leave_right leaf fuel a q c l ys node held once leave = tt
  leave_right (fork b d rl rr) fuel a q c l ys node (at_b, hl, hr) once leave =
      leave_right-Continues cmpf fn s value_to fuel a b q c l ys node
        (roots-apart a b c d l rl rr at_b.some_node once) leave

  enter-Enters :
      (t : Shape) (fuel q : ℕ) (ys : List ℕ)
      → Holds s.node q t
      → ((x : ℕ) → count x t ≤ 1)
      → Leaves t fuel q ys
      → Enters cmpf fn s value_to t fuel ys
  enter-Enters leaf fuel q ys held once leave = tt
  enter-Enters (fork a c leaf r) fuel q ys (node, hl, hr) once leave =
      let once_r = (once-children a c leaf r once).1 in
      let below =
        enter-Enters r (fuel + 1) a ys hr once_r
          (leave_right r fuel a q c leaf ys node hr once leave) in
      let visited =
        visit-Continues cmpf fn s value_to fuel a q c leaf r ys node hr once leave below in
      λ p pl pr m data_ enough.
        enter_here-Continues cmpf fn s value_to (fuel + 2 + 3 * size r) p a q (addr r) c
          (a ∷ (inorder r ++ ys)) node pl pr visited m data_ (omega arith)
  enter-Enters (fork a c (fork b d ll lr) r) fuel q ys (node, hl, hr) once leave =
      let l = fork b d ll lr in
      let (once_l, once_r) = once-children a c l r once in
      let below =
        enter-Enters r (fuel + 1) a ys hr once_r
          (leave_right r fuel a q c l ys node hr once leave) in
      let visited = visit-Continues cmpf fn s value_to fuel a q c l r ys node hr once leave below in
      let ys' = a ∷ (inorder r ++ ys) in
      let left = enter-Enters (fork b d ll lr) (fuel + 2 + 3 * size r) a ys' hl once_l visited in
      let (al, ar) = apart_left a b c d ll lr r node.some_node once in
      λ p pl pr m data_ enough.
        enter_left-Continues cmpf fn s value_to (fuel + 2 + 3 * size r + 3 * size l) p a b q
          (addr r) c (inorder l ++ ys') node hl.0.some_node pl pr (left a al ar) m data_
          (omega arith)
        ∙ ap (λ zs. ok (each cmpf fn s value_to zs data_))
            (sym (append_assoc (inorder l) (a ∷ inorder r) ys))

  place-Continues :
      (k : Place) (a : ℕ) (c : Colour) (l r : Shape)
      → StandsIn s k (fork a c l r)
      → Continues cmpf fn s value_to (cost k) a (above k) (rest k)
  unfolding walk
  place-Continues top a c l r h zero data_ enough = absurd (omega arith)
  place-Continues top a c l r h (suc m) data_ enough = refl
  place-Continues (left_of b d t k) a c l r h m data_ enough =
      let up = climb_left s k b d (fork a c l r) t h in
      let (node, _, held) = up.held in
      let once = once-tree s k _ up in
      let leave = place-Continues k b d (fork a c l r) t up in
      let below =
        enter-Enters t (cost k + 1) b (rest k) held (once-children b d (fork a c l r) t once).1
          (leave_right t (cost k) b (above k) d (fork a c l r) (rest k) node held once leave) in
      visit-Continues cmpf fn s value_to (cost k) b (above k) d (fork a c l r) t (rest k) node held
        once leave below m data_ enough
  place-Continues (right_of b d t k) a c l r h m data_ enough =
      let up = climb_right s k b d t (fork a c l r) h in
      let (node, _, held) = up.held in
      let once = once-tree s k _ up in
      let leave = place-Continues k b d t (fork a c l r) up in
      leave_right-Continues cmpf fn s value_to (cost k) b a (above k) d t (rest k) node
        (roots-apart b a d c t l r held.0.some_node once) leave m data_ enough

pub inorder-plug-rest :
    (k : Place) (t : Shape) → inorder (plug k t) ≡ before k ++ (inorder t ++ rest k)
unfolding before
inorder-plug-rest top t = sym (append-nil (inorder t))
inorder-plug-rest (left_of a c r k) t =
    inorder-plug-rest k (fork a c t r)
    ∙ ap (λ zs. before k ++ zs) (append_assoc (inorder t) (a ∷ inorder r) (rest k))
inorder-plug-rest (right_of a c l k) t =
    inorder-plug-rest k (fork a c l t)
    ∙ ap (λ zs. before k ++ zs) (append_assoc (inorder l) (a ∷ inorder t) (rest k))
    ∙ ap (λ zs. before k ++ zs) (sym (append_assoc (inorder l) (a ∷ []) (inorder t ++ rest k)))
    ∙ sym (append_assoc (before k) (inorder l ++ a ∷ []) (inorder t ++ rest k))

cost-size : (k : Place) (t : Shape) → cost k + 3 * size t ≤ 3 * size (plug k t) + 1
cost-size top t = omega arith
cost-size (left_of a c r k) t = let h = cost-size k (fork a c t r) in omega arith
cost-size (right_of a c l k) t = let h = cost-size k (fork a c l t) in omega arith

-- When the lower bound is below the upper one and `rbtree_search_min` finds the node x of the tree,
-- `rbtree_iter_range` ends with more than three rounds for each node of the tree: it calls the function on x
-- and the nodes after it from left to right, until one is above the upper bound or the function asks for no
-- more.
pub rbtree_iter_range-each :
    {A : Type 0} (cmpf : ℕ → ℕ → ℤ) (fn : A → ℕ → A × Bool) (fuel : ℕ) (s : Store)
    (value_from value_to : ℕ) (data_ : A) (k : Place) (x : ℕ) (c : Colour) (l r : Shape)
    → is_negative (cmpf value_from value_to) ≡ true
    → StandsIn s k (fork x c l r)
    → rbtree_search_min cmpf fuel s value_from ≡ ok x
    → 3 * size (plug k (fork x c l r)) < fuel
    → rbtree_iter_range cmpf fn fuel s value_from value_to data_
      ≡ ok (each cmpf fn s value_to (x ∷ (inorder r ++ rest k)) data_)
unfolding rbtree_iter_range
rbtree_iter_range-each cmpf fn fuel s value_from value_to data_ k x c l r order h found enough =
    let (node, _, held) = h.held in
    let once = once-tree s k (fork x c l r) h in
    let leave = place-Continues cmpf fn s value_to k x c l r h in
    let below =
      enter-Enters cmpf fn s value_to r (cost k + 1) x (rest k) held (once-children x c l r once).1
        (leave_right cmpf fn s value_to r (cost k) x (above k) c l (rest k) node held once leave) in
    let visited =
      visit-Continues cmpf fn s value_to (cost k) x (above k) c l r (rest k) node held once leave
        below in
    let total = cost-size k (fork x c l r) in
    simp (order, found, ==_ne x 0 node.some_node, node.left_link) (visited fuel data_ (omega arith))
