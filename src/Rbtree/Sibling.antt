-- ===== src/Rbtree/Sibling.antt =====
-- What `rbt_delete_fix` of kernel/lib/ds/rbtree.c reads and paints beside a node.
use yaeos.Prelude.{ℕ, ◌≡◌, ◌≢◌, refl, sym, Bool, true, false, not, ◌==◌, ==_ne, ==_refl, ok}
use yaeos.Rbtree.{Colour, black, Store, rbt_get_colour, rbt_get_parent, rbt_get_sibling}
use yaeos.Rbtree.Shape.{Shape, fork, addr, Place, above}
use yaeos.Rbtree.Rotate.{StandsIn}
use yaeos.Rbtree.Climb.{rbt_get_colour-addr, colour_of, children-apart, children-apart_right}
use yaeos.Rbtree.Line.{rbt_get_parent-run}
use yaeos.Rbtree.Round.{rbt_get_sibling-left, rbt_get_sibling-right}
use yaeos.Rbtree.Delete.{blacken_sibling}

-- A node, its parent and its sibling, with the colours that the code reads.
pub record Siblings (s : Store) (x p b bl br : ℕ) (on_left : Bool) (cb cp cl cr : Colour)
    : Type 0 where
  pub some_x : x ≢ 0
  pub some_p : p ≢ 0
  pub some_b : b ≢ 0
  pub parent : rbt_get_parent s x ≡ ok p
  pub sibling : rbt_get_sibling s x ≡ ok b
  pub is_left : ((s.node p).left == x) ≡ on_left
  pub is_right : ((s.node p).right == x) ≡ not on_left
  pub node_left : (x == (s.node p).left) ≡ on_left
  pub node_right : (x == (s.node p).right) ≡ not on_left
  pub from_right : ((s.node p).right == b) ≡ on_left
  pub near_left : (s.node b).left ≡ bl
  pub near_right : (s.node b).right ≡ br
  pub colour : rbt_get_colour s b ≡ ok cb
  pub above : rbt_get_colour s p ≡ ok cp
  pub left : rbt_get_colour s bl ≡ ok cl
  pub right : rbt_get_colour s br ≡ ok cr

module _ (s : Store) (k : Place) (x p b : ℕ) (cx cp cb : Colour) (xl xr bl br : Shape) where
  pub left-Siblings :
      StandsIn s k (fork p cp (fork x cx xl xr) (fork b cb bl br))
      → Siblings s x p b (addr bl) (addr br) true cb cp (colour_of bl) (colour_of br)
  left-Siblings h =
      let (at_p, (at_x, hxl, hxr), (at_b, hbl, hbr)) = h.held in
      let apart = children-apart k p x cp cx xl xr (fork b cb bl br) at_x.some_node h.once in
      record {
        some_x = at_x.some_node;
        some_p = at_p.some_node;
        some_b = at_b.some_node;
        parent = rbt_get_parent-run s x p at_x.some_node at_x.parent_link;
        sibling =
            rbt_get_sibling-left s x p b at_x.some_node at_p.some_node at_x.parent_link
              at_p.left_link at_p.right_link;
        is_left = rw at_p.left_link (==_refl x);
        is_right = rw at_p.right_link (==_ne b x apart);
        node_left = rw at_p.left_link (==_refl x);
        node_right = rw at_p.right_link (==_ne x b (λ e. apart (sym e)));
        from_right = rw at_p.right_link (==_refl b);
        near_left = at_b.left_link;
        near_right = at_b.right_link;
        colour = rbt_get_colour-addr s p (fork b cb bl br) (at_b, hbl, hbr);
        above =
            rbt_get_colour-addr s (above k) (fork p cp (fork x cx xl xr) (fork b cb bl br)) h.held;
        left = rbt_get_colour-addr s b bl hbl;
        right = rbt_get_colour-addr s b br hbr;
      }

  pub right-Siblings :
      StandsIn s k (fork p cp (fork b cb bl br) (fork x cx xl xr))
      → Siblings s x p b (addr bl) (addr br) false cb cp (colour_of bl) (colour_of br)
  right-Siblings h =
      let (at_p, (at_b, hbl, hbr), (at_x, hxl, hxr)) = h.held in
      let apart = children-apart_right k p x cp cx xl xr (fork b cb bl br) at_x.some_node h.once in
      record {
        some_x = at_x.some_node;
        some_p = at_p.some_node;
        some_b = at_b.some_node;
        parent = rbt_get_parent-run s x p at_x.some_node at_x.parent_link;
        sibling =
            rbt_get_sibling-right s x p b at_x.some_node at_p.some_node at_x.parent_link apart
              at_p.left_link;
        is_left = rw at_p.left_link (==_ne b x apart);
        is_right = rw at_p.right_link (==_refl x);
        node_left = rw at_p.left_link (==_ne x b (λ e. apart (sym e)));
        node_right = rw at_p.right_link (==_refl x);
        from_right = rw at_p.right_link (==_ne x b (λ e. apart (sym e)));
        near_left = at_b.left_link;
        near_right = at_b.right_link;
        colour = rbt_get_colour-addr s p (fork b cb bl br) (at_b, hbl, hbr);
        above =
            rbt_get_colour-addr s (above k) (fork p cp (fork b cb bl br) (fork x cx xl xr)) h.held;
        left = rbt_get_colour-addr s b bl hbl;
        right = rbt_get_colour-addr s b br hbr;
      }

module _ (fuel : ℕ) (s : Store) (x p b bl br : ℕ) (on_left : Bool) where
  -- A black sibling stays where it is.
  pub blacken_sibling-black :
      (cp cl cr : Colour)
      → Siblings s x p b bl br on_left black cp cl cr
      → blacken_sibling s x ≡ ok (s, p, b)
  unfolding blacken_sibling
  blacken_sibling-black cp cl cr f = simp (f.parent, f.sibling, f.colour) refl
