-- ===== src/Rbtree/WellLinked.antt =====
-- The assertions at the end of `rbt_swap_nodes` in kernel/lib/ds/rbtree.c.
use yaeos.Prelude.{
  ℕ, ◌≡◌, refl, inl, inr, Bool-cases, ◌==◌, ==_ne, ==_refl, ok, ◌>>=◌, ◌∙◌, ap, kassert,
}
use yaeos.Rbtree.{Colour, Store}
use yaeos.Rbtree.Shape.{Shape, leaf, fork, addr, Place, top, left_of, right_of, Holds}
use yaeos.Rbtree.Rotate.{StandsIn}
use yaeos.Rbtree.Line.{rbt_get_parent-run}
use yaeos.Rbtree.Climb.{descend_right}
use yaeos.Rbtree.Spine.{Spine, tip, down, hang}
use yaeos.Rbtree.Delete.{knows_parent, is_child, well_linked}

knows_parent-Holds :
    (s : Store) (t : Shape) (p : ℕ) → Holds s.node p t → knows_parent s (addr t) p ≡ ok tt
knows_parent-Holds s leaf p h = refl
knows_parent-Holds s (fork a c l r) p (node, left, right) =
    (rw (==_ne a 0 node.some_node) refl)
    ∙ ap (λ o. o >>= (λ q. kassert (q == p)))
        (rbt_get_parent-run s a p node.some_node node.parent_link)
    ∙ rw (==_refl p) refl

is_child-StandsIn :
    (s : Store) (k : Place) (a : ℕ) (c : Colour) (l r : Shape)
    → StandsIn s k (fork a c l r)
    → is_child s a ≡ ok tt
is_child-StandsIn s top a c l r h =
    rw (rbt_get_parent-run s a 0 h.held.0.some_node h.held.0.parent_link) refl
is_child-StandsIn s (left_of p d t k) a c l r h =
    let (node, right, up) = h.around in
    rw
      (
        rbt_get_parent-run s a p h.held.0.some_node h.held.0.parent_link,
        ==_ne p 0 node.some_node,
        node.left_link,
        ==_refl a,
      )
      refl
is_child-StandsIn s (right_of p d t k) a c l r h =
    let (node, left, up) = h.around in
    elim (Bool-cases ((s.node p).left == a)) [
      | inl e ↦
          rw
            (
              rbt_get_parent-run s a p h.held.0.some_node h.held.0.parent_link,
              ==_ne p 0 node.some_node,
              e,
            )
            refl
      | inr e ↦
          rw
            (
              rbt_get_parent-run s a p h.held.0.some_node h.held.0.parent_link,
              ==_ne p 0 node.some_node,
              e,
              node.right_link,
              ==_refl a,
            )
            refl
    ]

pub well_linked-StandsIn :
    (s : Store) (k : Place) (a : ℕ) (c : Colour) (l r : Shape)
    → StandsIn s k (fork a c l r)
    → well_linked s a ≡ ok tt
well_linked-StandsIn s k a c l r h =
    let (node, left, right) = h.held in
    rw
      (
        node.left_link,
        node.right_link,
        knows_parent-Holds s l a left,
        knows_parent-Holds s r a right,
      )
      (is_child-StandsIn s k a c l r h)

-- The place at the end of a spine.
abbrev pub place_of : Spine → Place → Place
place_of tip k = k
place_of (down a c l m) k = place_of m (right_of a c l k)

pub StandsIn-place_of :
    (m : Spine) (s : Store) (k : Place) (t : Shape)
    → StandsIn s k (hang m t)
    → StandsIn s (place_of m k) t
StandsIn-place_of tip s k t h = h
StandsIn-place_of (down a c l m) s k t h =
    StandsIn-place_of m s (right_of a c l k) t (descend_right s k a c l (hang m t) h)
