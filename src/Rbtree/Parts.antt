-- ===== src/Rbtree/Parts.antt =====
-- The two nodes of a rotation in kernel/lib/ds/rbtree.c with the three subtrees below them, while their
-- links change one after the other.
use yaeos.Prelude.{ℕ, ◌+◌, ◌≡◌, ◌≤◌, arith, ◌==◌, ==_refl, if◌then◌else◌}
use mathlib.Core.Path.{subst}
use yaeos.Rbtree.{Colour, Node, put}
use yaeos.Rbtree.Shape.{
  Shape, addr, one_at, count, Place, above, count_place, Linked, Holds, Around,
}
use yaeos.Rbtree.Frame.{Linked-put, Linked-put_self, Holds-put, Around-put}
use yaeos.Rbtree.Relink.{relinked, Holds-relinked_above, Linked-relinked_above, Around-relinked}
use yaeos.Rbtree.Reparent.{
  reparented, Holds-reparented, Holds-reparented_self, Linked-reparented, Around-reparented,
}

-- The links of a node.
pub record Links : Type 0 where
  pub left : ℕ
  pub right : ℕ
  pub parent : ℕ
  pub colour : Colour

module _ (k : Place) (x y : ℕ) (ta tb tc : Shape) where
  abbrev pub PartsOnce : Type 0
  PartsOnce =
      (a : ℕ)
      → count_place a k + (one_at a x + one_at a y + (count a ta + count a tb + count a tc)) ≤ 1

  pub record Parts (nodes : ℕ → Node) (root hole : ℕ) (lx ly : Links) (pa pb pc : ℕ) : Type 0 where
    pub around : Around nodes root hole k
    pub first : Linked nodes x lx.left lx.right lx.parent lx.colour
    pub second : Linked nodes y ly.left ly.right ly.parent ly.colour
    pub tree_a : Holds nodes pa ta
    pub tree_b : Holds nodes pb tb
    pub tree_c : Holds nodes pc tc

  module _ (once : PartsOnce) {nodes : ℕ → Node} {root hole : ℕ} {lx ly : Links}
      {pa pb pc : ℕ} where
    pub Parts-first :
        (v : Node) (lx' : Links)
        → (v.left ≡ lx'.left)
          × (v.right ≡ lx'.right)
          × (v.parent ≡ lx'.parent)
          × (v.colour ≡ lx'.colour)
        → Parts nodes root hole lx ly pa pb pc
        → Parts (put nodes x v) root hole lx' ly pa pb pc
    Parts-first v lx' links p =
        let o = once x in
        let e = ==_refl x in
        record {
          around = Around-put k nodes root hole x v (ground arith) p.around;
          first =
              Linked-put_self nodes v x lx'.left lx'.right lx'.parent lx'.colour p.first.some_node
                links;
          second =
              Linked-put nodes x v y ly.left ly.right ly.parent ly.colour (ground arith) p.second;
          tree_a = Holds-put ta nodes x v pa (ground arith) p.tree_a;
          tree_b = Holds-put tb nodes x v pb (ground arith) p.tree_b;
          tree_c = Holds-put tc nodes x v pc (ground arith) p.tree_c;
        }

    pub Parts-second :
        (v : Node) (ly' : Links)
        → (v.left ≡ ly'.left)
          × (v.right ≡ ly'.right)
          × (v.parent ≡ ly'.parent)
          × (v.colour ≡ ly'.colour)
        → Parts nodes root hole lx ly pa pb pc
        → Parts (put nodes y v) root hole lx ly' pa pb pc
    Parts-second v ly' links p =
        let o = once y in
        record {
          around = Around-put k nodes root hole y v (ground arith) p.around;
          first =
              Linked-put nodes y v x lx.left lx.right lx.parent lx.colour (ground arith) p.first;
          second =
              Linked-put_self nodes v y ly'.left ly'.right ly'.parent ly'.colour p.second.some_node
                links;
          tree_a = Holds-put ta nodes y v pa (ground arith) p.tree_a;
          tree_b = Holds-put tb nodes y v pb (ground arith) p.tree_b;
          tree_c = Holds-put tc nodes y v pc (ground arith) p.tree_c;
        }

    -- The middle tree gets the first node for its parent.
    pub Parts-middle :
        (q : ℕ)
        → Parts nodes root hole lx ly pa pb pc
        → Parts (reparented nodes (addr tb) q) root hole lx ly pa q pc
    Parts-middle q p = record {
      around =
          Around-reparented k tb nodes root hole q (λ a in_b. let o = once a in ground arith)
            p.around;
      first =
          Linked-reparented tb nodes q x lx.left lx.right lx.parent lx.colour
            (let o = once x in let e = ==_refl x in ground arith) p.first;
      second =
          Linked-reparented tb nodes q y ly.left ly.right ly.parent ly.colour
            (let o = once y in let e = ==_refl y in ground arith) p.second;
      tree_a =
          Holds-reparented ta tb nodes pa q (λ a in_b. let o = once a in ground arith) p.tree_a;
      tree_b = Holds-reparented_self tb nodes pb q (λ a. let o = once a in ground arith) p.tree_b;
      tree_c =
          Holds-reparented tc tb nodes pc q (λ a in_b. let o = once a in ground arith) p.tree_c;
    }

    -- The place points to another node.
    pub Parts-relink :
        (new : ℕ)
        → Parts nodes root hole lx ly pa pb pc
        → hole ≡ x
        → Parts
            (relinked nodes (above k) x new)
            (if above k == 0 then new else root)
            new
            lx
            ly
            pa
            pb
            pc
    Parts-relink new p e = record {
      around =
          Around-relinked k nodes root x new p.first.some_node
            (let o = once x in let e = ==_refl x in ground arith)
            (λ a. let o = once a in ground arith) (subst (λ h. Around nodes root h k) e p.around);
      first =
          Linked-relinked_above k nodes x new x lx.left lx.right lx.parent lx.colour
            (let o = once x in let e = ==_refl x in ground arith) p.first;
      second =
          Linked-relinked_above k nodes x new y ly.left ly.right ly.parent ly.colour
            (let o = once y in let e = ==_refl y in ground arith) p.second;
      tree_a =
          Holds-relinked_above k ta nodes x new pa (λ a h. let o = once a in ground arith) p.tree_a;
      tree_b =
          Holds-relinked_above k tb nodes x new pb (λ a h. let o = once a in ground arith) p.tree_b;
      tree_c =
          Holds-relinked_above k tc nodes x new pc (λ a h. let o = once a in ground arith) p.tree_c;
    }
