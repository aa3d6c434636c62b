-- ===== src/Rbtree/SwapSpine.antt =====
-- The spine between the two nodes of `rbt_swap_nodes` in kernel/lib/ds/rbtree.c, while its ends change.
use yaeos.Prelude.{ℕ, arith, ==_refl}
use yaeos.Rbtree.{Colour, Node}
use yaeos.Rbtree.Shape.{Shape, Place}
use yaeos.Rbtree.Relink.{relinked, Holds-relinked, Linked-relinked, Around-relinked_frame}
use yaeos.Rbtree.Reparent.{
  reparented, Holds-reparented_at, Linked-reparented_at, Around-reparented_at,
}
use yaeos.Rbtree.Parts.{Links}
use yaeos.Rbtree.Spine.{
  Spine, down, bottom, count_spine, Along-reparented_head, Along-relinked-bottom, count-bottom,
}
use yaeos.Rbtree.Swap.{SwapOnce, SwapParts}

module _ (k : Place) (x y a : ℕ) (c : Colour) (tl tr l : Shape) (m : Spine)
    (once : SwapOnce k x y tl tr (down a c l m)) {nodes : ℕ → Node} {root hole : ℕ} {lx ly : Links}
    {pl pr pm : ℕ} where
  -- Another parent for the spine.
  pub SwapParts-head :
      (q : ℕ) {hm : ℕ}
      → SwapParts k x y tl tr (down a c l m) nodes root hole lx ly pl pr pm hm
      → SwapParts k x y tl tr (down a c l m) (reparented nodes a q) root hole lx ly pl pr q hm
  unfolding count_spine
  SwapParts-head q {hm} p =
      let o = once a in
      let e = ==_refl a in
      record {
        around = Around-reparented_at k nodes root hole a q (ground arith) p.around;
        first =
            Linked-reparented_at nodes a q x lx.left lx.right lx.parent lx.colour (ground arith)
              p.first;
        second =
            Linked-reparented_at nodes a q y ly.left ly.right ly.parent ly.colour (ground arith)
              p.second;
        tree_l = Holds-reparented_at tl nodes a pl q (ground arith) p.tree_l;
        tree_r = Holds-reparented_at tr nodes a pr q (ground arith) p.tree_r;
        along = Along-reparented_head a pm hm q c l m nodes (ground arith) p.along;
      }

  -- Another node at the end of the spine.
  pub SwapParts-bottom :
      (new : ℕ)
      → SwapParts k x y tl tr (down a c l m) nodes root hole lx ly pl pr pm y
      → SwapParts k x y tl tr
          (down a c l m)
          (relinked nodes (bottom m a) y new)
          root
          hole
          lx
          ly
          pl
          pr
          pm
          new
  SwapParts-bottom new p =
      let b = bottom m a in
      let there = count-bottom a 0 c l m in
      let o = once b in
      let o' = once y in
      let e = ==_refl y in
      record {
        around = Around-relinked_frame k nodes root hole b y new (ground arith) p.around;
        first =
            Linked-relinked nodes b y new x lx.left lx.right lx.parent lx.colour (ground arith)
              p.first;
        second =
            Linked-relinked nodes b y new y ly.left ly.right ly.parent ly.colour (ground arith)
              p.second;
        tree_l = Holds-relinked tl nodes b y new pl (ground arith) p.tree_l;
        tree_r = Holds-relinked tr nodes b y new pr (ground arith) p.tree_r;
        along =
            Along-relinked-bottom a pm y new c l m nodes p.second.some_node (ground arith)
              (λ a. let o = once a in ground arith) p.along;
      }
