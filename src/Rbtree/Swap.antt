-- ===== src/Rbtree/Swap.antt =====
-- The two nodes of `rbt_swap_nodes` in kernel/lib/ds/rbtree.c with what hangs between and below them, while
-- their links change one after the other.
use yaeos.Prelude.{ℕ, ◌+◌, ◌≡◌, ◌≤◌, arith, ◌==◌, ==_refl, if◌then◌else◌}
use mathlib.Core.Path.{subst}
use yaeos.Rbtree.{Node, put}
use yaeos.Rbtree.Shape.{
  Shape, leaf, fork, addr, one_at, count, Place, top, left_of, right_of, above, count_place, Linked,
  Holds, Around,
}
use yaeos.Rbtree.Frame.{Linked-put, Linked-put_self, Holds-put, Around-put}
use yaeos.Rbtree.Relink.{
  relinked, Holds-relinked_above, Linked-relinked_above, Around-relinked, count-above_left,
  count-above_right,
}
use yaeos.Rbtree.Reparent.{
  reparented, count-addr, Holds-reparented, Holds-reparented_self, Linked-reparented,
  Around-reparented,
}
use yaeos.Rbtree.Parts.{Links}
use yaeos.Rbtree.Spine.{Spine, count_spine, Along, Along-put, Along-relinked, Along-reparented}

Along-reparented_tree :
    (t : Shape) (m : Spine) (nodes : ℕ → Node) (q hole p : ℕ)
    → ((a : ℕ) → 1 ≤ count a t → count_spine a m ≡ 0)
    → Along nodes q hole m
    → Along (reparented nodes (addr t) p) q hole m
Along-reparented_tree leaf m nodes q hole p apart h = h
Along-reparented_tree (fork a c l r) m nodes q hole p apart h =
    Along-reparented m nodes q hole a p (apart a (count-addr a c l r)) h

Along-relinked_above :
    (k : Place) (m : Spine) (nodes : ℕ → Node) (q hole x y : ℕ)
    → ((a : ℕ) → 1 ≤ count_place a k → count_spine a m ≡ 0)
    → Along nodes q hole m
    → Along (relinked nodes (above k) x y) q hole m
Along-relinked_above top m nodes q hole x y apart h = h
Along-relinked_above (left_of a c r k) m nodes q hole x y apart h =
    Along-relinked m nodes q hole a x y (apart a (count-above_left a c r k)) h
Along-relinked_above (right_of a c l k) m nodes q hole x y apart h =
    Along-relinked m nodes q hole a x y (apart a (count-above_right a c l k)) h

-- The nodes of the parts, each once.
abbrev pub SwapOnce : Place → ℕ → ℕ → Shape → Shape → Spine → Type 0
SwapOnce k x y tl tr m =
    (a : ℕ)
    → count_place a k + (one_at a x + one_at a y + (count a tl + count a tr + count_spine a m)) ≤ 1

pub record SwapParts (k : Place) (x y : ℕ) (tl tr : Shape) (m : Spine) (nodes : ℕ → Node)
    (root hole : ℕ) (lx ly : Links) (pl pr pm hm : ℕ) : Type 0 where
  pub around : Around nodes root hole k
  pub first : Linked nodes x lx.left lx.right lx.parent lx.colour
  pub second : Linked nodes y ly.left ly.right ly.parent ly.colour
  pub tree_l : Holds nodes pl tl
  pub tree_r : Holds nodes pr tr
  pub along : Along nodes pm hm m

module _ (k : Place) (x y : ℕ) (tl tr : Shape) (m : Spine) (once : SwapOnce k x y tl tr m)
    {nodes : ℕ → Node} {root hole : ℕ} {lx ly : Links} {pl pr pm hm : ℕ} where
  pub SwapParts-first :
      (v : Node) (lx' : Links)
      → (v.left ≡ lx'.left)
        × (v.right ≡ lx'.right)
        × (v.parent ≡ lx'.parent)
        × (v.colour ≡ lx'.colour)
      → SwapParts k x y tl tr m nodes root hole lx ly pl pr pm hm
      → SwapParts k x y tl tr m (put nodes x v) root hole lx' ly pl pr pm hm
  SwapParts-first v lx' links p =
      let o = once x in
      let e = ==_refl x in
      record {
        around = Around-put k nodes root hole x v (ground arith) p.around;
        first =
            Linked-put_self nodes v x lx'.left lx'.right lx'.parent lx'.colour p.first.some_node
              links;
        second =
            Linked-put nodes x v y ly.left ly.right ly.parent ly.colour (ground arith) p.second;
        tree_l = Holds-put tl nodes x v pl (ground arith) p.tree_l;
        tree_r = Holds-put tr nodes x v pr (ground arith) p.tree_r;
        along = Along-put m nodes pm hm x v (ground arith) p.along;
      }

  pub SwapParts-second :
      (v : Node) (ly' : Links)
      → (v.left ≡ ly'.left)
        × (v.right ≡ ly'.right)
        × (v.parent ≡ ly'.parent)
        × (v.colour ≡ ly'.colour)
      → SwapParts k x y tl tr m nodes root hole lx ly pl pr pm hm
      → SwapParts k x y tl tr m (put nodes y v) root hole lx ly' pl pr pm hm
  SwapParts-second v ly' links p =
      let o = once y in
      let e = ==_refl y in
      record {
        around = Around-put k nodes root hole y v (ground arith) p.around;
        first = Linked-put nodes y v x lx.left lx.right lx.parent lx.colour (ground arith) p.first;
        second =
            Linked-put_self nodes v y ly'.left ly'.right ly'.parent ly'.colour p.second.some_node
              links;
        tree_l = Holds-put tl nodes y v pl (ground arith) p.tree_l;
        tree_r = Holds-put tr nodes y v pr (ground arith) p.tree_r;
        along = Along-put m nodes pm hm y v (ground arith) p.along;
      }

  -- Another parent for a subtree.
  pub SwapParts-left :
      (q : ℕ)
      → SwapParts k x y tl tr m nodes root hole lx ly pl pr pm hm
      → SwapParts k x y tl tr m (reparented nodes (addr tl) q) root hole lx ly q pr pm hm
  SwapParts-left q p = record {
    around =
        Around-reparented k tl nodes root hole q (λ a in_t. let o = once a in ground arith)
          p.around;
    first =
        Linked-reparented tl nodes q x lx.left lx.right lx.parent lx.colour
          (let o = once x in let e = ==_refl x in ground arith) p.first;
    second =
        Linked-reparented tl nodes q y ly.left ly.right ly.parent ly.colour
          (let o = once y in let e = ==_refl y in ground arith) p.second;
    tree_l = Holds-reparented_self tl nodes pl q (λ a. let o = once a in ground arith) p.tree_l;
    tree_r = Holds-reparented tr tl nodes pr q (λ a in_t. let o = once a in ground arith) p.tree_r;
    along =
        Along-reparented_tree tl m nodes pm hm q (λ a in_t. let o = once a in ground arith) p.along;
  }

  -- Another parent for a subtree.
  pub SwapParts-right :
      (q : ℕ)
      → SwapParts k x y tl tr m nodes root hole lx ly pl pr pm hm
      → SwapParts k x y tl tr m (reparented nodes (addr tr) q) root hole lx ly pl q pm hm
  SwapParts-right q p = record {
    around =
        Around-reparented k tr nodes root hole q (λ a in_t. let o = once a in ground arith)
          p.around;
    first =
        Linked-reparented tr nodes q x lx.left lx.right lx.parent lx.colour
          (let o = once x in let e = ==_refl x in ground arith) p.first;
    second =
        Linked-reparented tr nodes q y ly.left ly.right ly.parent ly.colour
          (let o = once y in let e = ==_refl y in ground arith) p.second;
    tree_l = Holds-reparented tl tr nodes pl q (λ a in_t. let o = once a in ground arith) p.tree_l;
    tree_r = Holds-reparented_self tr nodes pr q (λ a. let o = once a in ground arith) p.tree_r;
    along =
        Along-reparented_tree tr m nodes pm hm q (λ a in_t. let o = once a in ground arith) p.along;
  }

  -- The place points to another node.
  pub SwapParts-relink :
      (new : ℕ)
      → SwapParts k x y tl tr m nodes root hole lx ly pl pr pm hm
      → hole ≡ x
      → SwapParts k x y tl tr m
          (relinked nodes (above k) x new)
          (if above k == 0 then new else root)
          new
          lx
          ly
          pl
          pr
          pm
          hm
  SwapParts-relink new p e' = record {
    around =
        Around-relinked k nodes root x new p.first.some_node
          (let o = once x in let e = ==_refl x in ground arith)
          (λ a. let o = once a in ground arith) (subst (λ h. Around nodes root h k) e' p.around);
    first =
        Linked-relinked_above k nodes x new x lx.left lx.right lx.parent lx.colour
          (let o = once x in let e = ==_refl x in ground arith) p.first;
    second =
        Linked-relinked_above k nodes x new y ly.left ly.right ly.parent ly.colour
          (let o = once y in let e = ==_refl y in ground arith) p.second;
    tree_l =
        Holds-relinked_above k tl nodes x new pl (λ a in_t. let o = once a in ground arith)
          p.tree_l;
    tree_r =
        Holds-relinked_above k tr nodes x new pr (λ a in_t. let o = once a in ground arith)
          p.tree_r;
    along =
        Along-relinked_above k m nodes pm hm x new (λ a in_t. let o = once a in ground arith)
          p.along;
  }
