-- ===== src/Rbtree/Removal.antt =====
-- `rbtree_delete` of kernel/lib/ds/rbtree.c, for a node with one child at most.
use yaeos.Prelude.{ℕ, ◌+◌, ◌≤◌, ◌≡◌, refl, arith, ==_ne, ==_refl, if◌then◌else◌, Outcome, ok, ◌>>=◌}
use yaeos.Rbtree.{Colour, black, is_red, Store, rbt_set_colour, rbt_replace_subtree}
use yaeos.Rbtree.Shape.{Shape, leaf, fork, addr, one_at, count, Place, above, count_place, Holds}
use yaeos.Rbtree.Relink.{Around-relinked, Holds-relinked_above}
use yaeos.Rbtree.Reparent.{Around-reparented, Holds-reparented_self}
use yaeos.Rbtree.Runs.{replaced, replace-run}
use yaeos.Rbtree.Content.{replaced-SameContent}
use yaeos.Rbtree.Rotate.{StandsIn}
use yaeos.Rbtree.Climb.{Final, rbt_get_colour-addr, colour_of}
use yaeos.Rbtree.Delete.{rbt_delete_fix, rbtree_delete}

-- The only child takes the place of a node.
replace-Final :
    (s : Store) (k : Place) (x : ℕ) (c : Colour) (l r t : Shape)
    → StandsIn s k (fork x c l r)
    → Holds s.node x t
    → ((a : ℕ) → count_place a k + one_at a x + count a t ≤ 1)
    → Final s (rbt_replace_subtree s x (addr t)) (λ s'. StandsIn s' k t)
unfolding replaced
replace-Final s k x c l r t h held once =
    let (at_x, _, _) = h.held in
    let e = ==_refl x in
    (
      replaced s (above k) x (addr t),
      replace-run s (above k) x (addr t) at_x.some_node at_x.parent_link,
      record {
        around =
            Around-reparented k t _ _ (addr t) (above k) (λ a in_t. let o = once a in ground arith)
              (Around-relinked k s.node s.root x (addr t) at_x.some_node
                (let o = once x in ground arith) (λ a. let o = once a in omega arith) h.around);
        held =
            Holds-reparented_self t _ x (above k) (λ a. let o = once a in omega arith)
              (Holds-relinked_above k t s.node x (addr t) x
                (λ a in_k. let o = once a in omega arith) held);
        once = λ a. let o = once a in omega arith;
      },
      replaced-SameContent s (above k) x (addr t),
    )

-- What `rbtree_delete` does before it takes the node out.
abbrev pub mend : ℕ → Store → ℕ → ℕ → Colour → Colour → Outcome Store
mend fuel s x child c cc =
    if is_red c
    then ok s
    else (if is_red cc then rbt_set_colour s child black else rbt_delete_fix fuel s x)

-- One subtree of the two is empty.
abbrev pub OneChild : Shape → Shape → Type 0
OneChild leaf r = Unit {0}
OneChild (fork a c l r) leaf = Unit {0}
OneChild (fork a c l r) (fork b d m n) = ⊥

abbrev pub only : Shape → Shape → Shape
only leaf r = r
only (fork a c l r) t = fork a c l r

module _ (fuel : ℕ) (s : Store) (k : Place) (x : ℕ) (c : Colour) where
  pub rbtree_delete-start :
      (l r : Shape)
      → OneChild l r
      → StandsIn s k (fork x c l r)
      → rbtree_delete fuel s x ≡ (
          mend fuel s x (addr (only l r)) c (colour_of (only l r))
          >>= (λ s₂. rbt_replace_subtree s₂ x (addr (only l r))))
  unfolding rbtree_delete
  rbtree_delete-start leaf leaf one h =
      let (at_x, hl, hr) = h.held in
      let cx = rbt_get_colour-addr s (above k) (fork x c leaf leaf) h.held in
      let cc = rbt_get_colour-addr s x leaf tt in
      simp (==_ne x 0 at_x.some_node, at_x.left_link, at_x.right_link, cx, cc) refl
  rbtree_delete-start leaf (fork b d m n) one h =
      let (at_x, hl, hr) = h.held in
      let cx = rbt_get_colour-addr s (above k) (fork x c leaf (fork b d m n)) h.held in
      let cc = rbt_get_colour-addr s x (fork b d m n) hr in
      simp
        (
          ==_ne x 0 at_x.some_node,
          at_x.left_link,
          at_x.right_link,
          ==_ne b 0 hr.0.some_node,
          cx,
          cc,
        )
        refl
  rbtree_delete-start (fork b d m n) leaf one h =
      let (at_x, hl, hr) = h.held in
      let cx = rbt_get_colour-addr s (above k) (fork x c (fork b d m n) leaf) h.held in
      let cc = rbt_get_colour-addr s x (fork b d m n) hl in
      simp
        (
          ==_ne x 0 at_x.some_node,
          at_x.left_link,
          at_x.right_link,
          ==_ne b 0 hl.0.some_node,
          cx,
          cc,
        )
        refl
  rbtree_delete-start (fork a e u v) (fork b d m n) one h = absurd one

  pub take-Final :
      (l r : Shape)
      → OneChild l r
      → StandsIn s k (fork x c l r)
      → Final s (rbt_replace_subtree s x (addr (only l r))) (λ s'. StandsIn s' k (only l r))
  unfolding count
  take-Final leaf r one h =
      replace-Final s k x c leaf r r h h.held.2 (λ a. let o = h.once a in omega arith)
  take-Final (fork b d m n) leaf one h =
      replace-Final s k x c (fork b d m n) leaf (fork b d m n) h h.held.1
        (λ a. let o = h.once a in omega arith)
  take-Final (fork a e u v) (fork b d m n) one h = absurd one
