-- ===== src/Rbtree/SwapSteps.antt =====
-- The assignments of `rbt_swap_nodes` in kernel/lib/ds/rbtree.c, one after the other.
use yaeos.Prelude.{ℕ, ◌≡◌, ◌≢◌, refl, inl, inr, Bool-cases, ◌==◌, ==_ne, Outcome, ok}
use yaeos.Rbtree.{
  Colour, Node, Store, put, set_left, set_right, rbt_set_colour, rbt_set_parent, try_set_parent,
}
use yaeos.Rbtree.Shape.{Shape, addr, Place}
use yaeos.Rbtree.Relink.{relinked}
use yaeos.Rbtree.Reparent.{reparented}
use yaeos.Rbtree.Parts.{Links}
use yaeos.Rbtree.Runs.{try_set_parent-run}
use yaeos.Rbtree.Content.{put-SameContent, reparented-SameContent}
use yaeos.Rbtree.Climb.{Final}
use yaeos.Rbtree.Spine.{Spine}
use yaeos.Rbtree.Swap.{
  SwapOnce, SwapParts, SwapParts-first, SwapParts-second, SwapParts-left, SwapParts-right,
}
use yaeos.Rbtree.Delete.{replace_child}

pub replace_child-run :
    (s : Store) (p x y : ℕ)
    → p ≢ 0
    → replace_child s p x y ≡ ok (record s { node = relinked s.node p x y })
unfolding replace_child
replace_child-run s p x y some = elim (Bool-cases ((s.node p).left == x)) [
  | inl e ↦ rw (e, ==_ne p 0 some) refl
  | inr e ↦ rw (e, ==_ne p 0 some) refl
]

module _ (k : Place) (x y : ℕ) (tl tr : Shape) (m : Spine) (once : SwapOnce k x y tl tr m) where
  -- The parts in a store.
  abbrev pub PartsIn : ℕ → Links → Links → ℕ → ℕ → ℕ → ℕ → Store → Type 0
  PartsIn hole lx ly pl pr pm hm s = SwapParts k x y tl tr m s.node s.root hole lx ly pl pr pm hm

  module _ (s : Store) (hole : ℕ) (lx ly : Links) (pl pr pm hm : ℕ) where
    -- An assignment to a field of the first node, and of the second one.
    first-Final :
        (run : Outcome Store) (v : Node) (lx' : Links)
        → run ≡ ok (record s { node = put s.node x v })
        → v.content ≡ (s.node x).content
        → (v.left ≡ lx'.left)
          × (v.right ≡ lx'.right)
          × (v.parent ≡ lx'.parent)
          × (v.colour ≡ lx'.colour)
        → PartsIn hole lx ly pl pr pm hm s
        → Final s run (PartsIn hole lx' ly pl pr pm hm)
    first-Final run v lx' ends same links p = (
      record s { node = put s.node x v },
      ends,
      SwapParts-first k x y tl tr m once v lx' links p,
      put-SameContent s.node x v same,
    )

    second-Final :
        (run : Outcome Store) (v : Node) (ly' : Links)
        → run ≡ ok (record s { node = put s.node y v })
        → v.content ≡ (s.node y).content
        → (v.left ≡ ly'.left)
          × (v.right ≡ ly'.right)
          × (v.parent ≡ ly'.parent)
          × (v.colour ≡ ly'.colour)
        → PartsIn hole lx ly pl pr pm hm s
        → Final s run (PartsIn hole lx ly' pl pr pm hm)
    second-Final run v ly' ends same links p = (
      record s { node = put s.node y v },
      ends,
      SwapParts-second k x y tl tr m once v ly' links p,
      put-SameContent s.node y v same,
    )

    pub parent_first :
        (q : ℕ)
        → PartsIn hole lx ly pl pr pm hm s
        → Final s (rbt_set_parent s x q) (PartsIn hole (record lx { parent = q }) ly pl pr pm hm)
    unfolding rbt_set_parent
    parent_first q p =
        let h = p.first in
        first-Final (rbt_set_parent s x q) (record (s.node x) { parent = q })
          (record lx { parent = q }) (simp (==_ne x 0 h.some_node) refl) refl
          (h.left_link, h.right_link, refl, h.has_colour) p

    pub parent_second :
        (q : ℕ)
        → PartsIn hole lx ly pl pr pm hm s
        → Final s (rbt_set_parent s y q) (PartsIn hole lx (record ly { parent = q }) pl pr pm hm)
    unfolding rbt_set_parent
    parent_second q p =
        let h = p.second in
        second-Final (rbt_set_parent s y q) (record (s.node y) { parent = q })
          (record ly { parent = q }) (simp (==_ne y 0 h.some_node) refl) refl
          (h.left_link, h.right_link, refl, h.has_colour) p

    pub left_first :
        (q : ℕ)
        → PartsIn hole lx ly pl pr pm hm s
        → Final s (set_left s x q) (PartsIn hole (record lx { left = q }) ly pl pr pm hm)
    left_first q p =
        let h = p.first in
        first-Final (set_left s x q) (record (s.node x) { left = q }) (record lx { left = q })
          (simp (==_ne x 0 h.some_node) refl) refl (refl, h.right_link, h.parent_link, h.has_colour)
          p

    pub left_second :
        (q : ℕ)
        → PartsIn hole lx ly pl pr pm hm s
        → Final s (set_left s y q) (PartsIn hole lx (record ly { left = q }) pl pr pm hm)
    left_second q p =
        let h = p.second in
        second-Final (set_left s y q) (record (s.node y) { left = q }) (record ly { left = q })
          (simp (==_ne y 0 h.some_node) refl) refl (refl, h.right_link, h.parent_link, h.has_colour)
          p

    pub right_first :
        (q : ℕ)
        → PartsIn hole lx ly pl pr pm hm s
        → Final s (set_right s x q) (PartsIn hole (record lx { right = q }) ly pl pr pm hm)
    right_first q p =
        let h = p.first in
        first-Final (set_right s x q) (record (s.node x) { right = q }) (record lx { right = q })
          (simp (==_ne x 0 h.some_node) refl) refl (h.left_link, refl, h.parent_link, h.has_colour)
          p

    pub right_second :
        (q : ℕ)
        → PartsIn hole lx ly pl pr pm hm s
        → Final s (set_right s y q) (PartsIn hole lx (record ly { right = q }) pl pr pm hm)
    right_second q p =
        let h = p.second in
        second-Final (set_right s y q) (record (s.node y) { right = q }) (record ly { right = q })
          (simp (==_ne y 0 h.some_node) refl) refl (h.left_link, refl, h.parent_link, h.has_colour)
          p

    pub colour_first :
        (c : Colour)
        → PartsIn hole lx ly pl pr pm hm s
        → Final s (rbt_set_colour s x c) (PartsIn hole (record lx { colour = c }) ly pl pr pm hm)
    unfolding rbt_set_colour
    colour_first c p =
        let h = p.first in
        first-Final (rbt_set_colour s x c) (record (s.node x) { colour = c })
          (record lx { colour = c }) (simp (==_ne x 0 h.some_node) refl) refl
          (h.left_link, h.right_link, h.parent_link, refl) p

    pub colour_second :
        (c : Colour)
        → PartsIn hole lx ly pl pr pm hm s
        → Final s (rbt_set_colour s y c) (PartsIn hole lx (record ly { colour = c }) pl pr pm hm)
    unfolding rbt_set_colour
    colour_second c p =
        let h = p.second in
        second-Final (rbt_set_colour s y c) (record (s.node y) { colour = c })
          (record ly { colour = c }) (simp (==_ne y 0 h.some_node) refl) refl
          (h.left_link, h.right_link, h.parent_link, refl) p

    pub reparent_left :
        (q : ℕ)
        → PartsIn hole lx ly pl pr pm hm s
        → Final s (try_set_parent s (addr tl) q) (PartsIn hole lx ly q pr pm hm)
    reparent_left q p = (
      record s { node = reparented s.node (addr tl) q },
      try_set_parent-run s (addr tl) q,
      SwapParts-left k x y tl tr m once q p,
      reparented-SameContent s.node (addr tl) q,
    )

    pub reparent_right :
        (q : ℕ)
        → PartsIn hole lx ly pl pr pm hm s
        → Final s (try_set_parent s (addr tr) q) (PartsIn hole lx ly pl q pm hm)
    reparent_right q p = (
      record s { node = reparented s.node (addr tr) q },
      try_set_parent-run s (addr tr) q,
      SwapParts-right k x y tl tr m once q p,
      reparented-SameContent s.node (addr tr) q,
    )
