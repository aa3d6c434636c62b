-- ===== src/Rbtree/Uncle.antt =====
-- What a round of `rbt_insert_fix` in kernel/lib/ds/rbtree.c reads above a red node with a red parent.
use yaeos.Prelude.{ℕ, suc, ◌≡◌, ◌≢◌, ok}
use yaeos.Rbtree.{Colour, black, red, Store, rbt_get_colour, rbt_get_sibling}
use yaeos.Rbtree.Shape.{Shape, fork, addr, Place}
use yaeos.Rbtree.Rotate.{StandsIn}
use yaeos.Rbtree.Climb.{colour_of, rbt_get_colour-addr, children-apart_right}
use yaeos.Rbtree.Triangle.{turn}
use yaeos.Rbtree.Round.{
  recolour, rbt_get_sibling-left, rbt_get_sibling-right, rbt_insert_fix-red_uncle,
  rbt_insert_fix-black_uncle,
}
use yaeos.Rbtree.Update.{rbt_insert_fix}

-- The node, its red parent, its grandparent and its uncle of the colour.
pub record Family (s : Store) (x p g u : ℕ) (c : Colour) : Type 0 where
  pub some_x : x ≢ 0
  pub some_p : p ≢ 0
  pub some_g : g ≢ 0
  pub up_x : (s.node x).parent ≡ p
  pub up_p : (s.node p).parent ≡ g
  pub sibling : rbt_get_sibling s p ≡ ok u
  pub red_p : rbt_get_colour s p ≡ ok red
  pub uncle : rbt_get_colour s u ≡ ok c

pub Family-red :
    (fuel : ℕ) (s : Store) (x p g u : ℕ)
    → Family s x p g u red
    → rbt_insert_fix (suc fuel) s x ≡ recolour s p u g (λ s'. rbt_insert_fix fuel s' g)
Family-red fuel s x p g u f =
    rbt_insert_fix-red_uncle fuel s x p f.some_x f.up_x g u f.some_p f.some_g f.up_p f.sibling
      f.red_p f.uncle

pub Family-black :
    (fuel : ℕ) (s : Store) (x p g u : ℕ)
    → Family s x p g u black
    → rbt_insert_fix (suc fuel) s x ≡ turn s x p g
Family-black fuel s x p g u f =
    rbt_insert_fix-black_uncle fuel s x p f.some_x f.up_x g u f.some_p f.some_g f.up_p f.sibling
      f.red_p f.uncle

module _ (s : Store) (k : Place) (x p g : ℕ) (cx cg : Colour) (l r t u : Shape) where
  pub left_left-Family :
      StandsIn s k (fork g cg (fork p red (fork x cx l r) t) u)
      → Family s x p g (addr u) (colour_of u)
  left_left-Family h =
      let (at_g, (at_p, (at_x, hl, hr), ht), hu) = h.held in
      record {
        some_x = at_x.some_node;
        some_p = at_p.some_node;
        some_g = at_g.some_node;
        up_x = at_x.parent_link;
        up_p = at_p.parent_link;
        sibling =
            rbt_get_sibling-left s p g (addr u) at_p.some_node at_g.some_node at_p.parent_link
              at_g.left_link at_g.right_link;
        red_p = rbt_get_colour-addr s g (fork p red (fork x cx l r) t) (at_p, (at_x, hl, hr), ht);
        uncle = rbt_get_colour-addr s g u hu;
      }

  pub left_right-Family :
      StandsIn s k (fork g cg (fork p red t (fork x cx l r)) u)
      → Family s x p g (addr u) (colour_of u)
  left_right-Family h =
      let (at_g, (at_p, ht, (at_x, hl, hr)), hu) = h.held in
      record {
        some_x = at_x.some_node;
        some_p = at_p.some_node;
        some_g = at_g.some_node;
        up_x = at_x.parent_link;
        up_p = at_p.parent_link;
        sibling =
            rbt_get_sibling-left s p g (addr u) at_p.some_node at_g.some_node at_p.parent_link
              at_g.left_link at_g.right_link;
        red_p = rbt_get_colour-addr s g (fork p red t (fork x cx l r)) (at_p, ht, (at_x, hl, hr));
        uncle = rbt_get_colour-addr s g u hu;
      }

  pub right_left-Family :
      StandsIn s k (fork g cg u (fork p red (fork x cx l r) t))
      → Family s x p g (addr u) (colour_of u)
  right_left-Family h =
      let (at_g, hu, (at_p, (at_x, hl, hr), ht)) = h.held in
      let apart = children-apart_right k g p cg red (fork x cx l r) t u at_p.some_node h.once in
      record {
        some_x = at_x.some_node;
        some_p = at_p.some_node;
        some_g = at_g.some_node;
        up_x = at_x.parent_link;
        up_p = at_p.parent_link;
        sibling =
            rbt_get_sibling-right s p g (addr u) at_p.some_node at_g.some_node at_p.parent_link
              apart at_g.left_link;
        red_p = rbt_get_colour-addr s g (fork p red (fork x cx l r) t) (at_p, (at_x, hl, hr), ht);
        uncle = rbt_get_colour-addr s g u hu;
      }

  pub right_right-Family :
      StandsIn s k (fork g cg u (fork p red t (fork x cx l r)))
      → Family s x p g (addr u) (colour_of u)
  right_right-Family h =
      let (at_g, hu, (at_p, ht, (at_x, hl, hr))) = h.held in
      let apart = children-apart_right k g p cg red t (fork x cx l r) u at_p.some_node h.once in
      record {
        some_x = at_x.some_node;
        some_p = at_p.some_node;
        some_g = at_g.some_node;
        up_x = at_x.parent_link;
        up_p = at_p.parent_link;
        sibling =
            rbt_get_sibling-right s p g (addr u) at_p.some_node at_g.some_node at_p.parent_link
              apart at_g.left_link;
        red_p = rbt_get_colour-addr s g (fork p red t (fork x cx l r)) (at_p, ht, (at_x, hl, hr));
        uncle = rbt_get_colour-addr s g u hu;
      }
