-- ===== src/Rbtree/Climb.antt =====
-- Steps between a place and the tree at it, and runs of kernel/lib/ds/rbtree.c one after the other.
use yaeos.Prelude.{ℕ, ◌≡◌, ◌≢◌, refl, ap, ◌∙◌, arith, ==_ne, ==_refl, Outcome, ok, ◌>>=◌}
use yaeos.Rbtree.{
  Colour, black, Store, put, rbt_set_colour, rbt_get_colour, rbt_rotate_left, rbt_rotate_right,
}
use yaeos.Rbtree.Shape.{
  Shape, leaf, fork, addr, count, Place, left_of, right_of, above, count_place, Holds, Once,
}
use yaeos.Rbtree.Frame.{Linked-put_self, Holds-put, Around-put}
use yaeos.Rbtree.Relink.{addr-ne}
use yaeos.Rbtree.Content.{SameContent, put-SameContent}
use yaeos.Rbtree.Rotate.{StandsIn, rbt_rotate_left-Leaves, rbt_rotate_right-Leaves}

-- A run that ends without a fault in a store with the property, the contents as before.
abbrev pub Final : Store → Outcome Store → (Store → Type 0) → Type 0
Final s run Q = (s' : Store) × (run ≡ ok s') × Q s' × SameContent s.node s'.node

pub Final->>= :
    (s : Store) (run : Outcome Store) (f : Store → Outcome Store) (Q R : Store → Type 0)
    → Final s run Q
    → ((s' : Store) → Q s' → Final s' (f s') R)
    → Final s (run >>= f) R
Final->>= s run f Q R (s₁, ends, q, same) next =
    let (s₂, ends', r, same') = next s₁ q in
    (s₂, ap (λ o. o >>= f) ends ∙ ends', r, λ a. same' a ∙ same a)

pub Final-weaken :
    (s : Store) (run : Outcome Store) (Q R : Store → Type 0)
    → Final s run Q
    → ((s' : Store) → Q s' → R s')
    → Final s run R
Final-weaken s run Q R (s₁, ends, q, same) f = (s₁, ends, f s₁ q, same)

module _ (s : Store) (k : Place) (a : ℕ) (c : Colour) (l r : Shape) where
  pub climb_left : StandsIn s (left_of a c r k) l → StandsIn s k (fork a c l r)
  unfolding count count_place
  climb_left h =
      let (node, right, up) = h.around in
      record {
        around = up;
        held = (node, h.held, right);
        once = λ b. let o = h.once b in omega arith;
      }

  pub climb_right : StandsIn s (right_of a c l k) r → StandsIn s k (fork a c l r)
  unfolding count count_place
  climb_right h =
      let (node, left, up) = h.around in
      record {
        around = up;
        held = (node, left, h.held);
        once = λ b. let o = h.once b in omega arith;
      }

  pub descend_left : StandsIn s k (fork a c l r) → StandsIn s (left_of a c r k) l
  unfolding count count_place
  descend_left h =
      let (node, left, right) = h.held in
      record {
        around = (node, right, h.around);
        held = left;
        once = λ b. let o = h.once b in omega arith;
      }

  pub descend_right : StandsIn s k (fork a c l r) → StandsIn s (right_of a c l k) r
  unfolding count count_place
  descend_right h =
      let (node, left, right) = h.held in
      record {
        around = (node, left, h.around);
        held = right;
        once = λ b. let o = h.once b in omega arith;
      }

  pub rbt_set_colour-Final :
      (d : Colour)
      → StandsIn s k (fork a c l r)
      → Final s (rbt_set_colour s a d) (λ s'. StandsIn s' k (fork a d l r))
  unfolding rbt_set_colour count
  rbt_set_colour-Final d h =
      let (node, left, right) = h.held in
      let v = record (s.node a) { colour = d } in
      let o = h.once a in
      let e = ==_refl a in
      (
        record s { node = put s.node a v },
        rw (==_ne a 0 node.some_node) refl,
        record {
          around = Around-put k s.node s.root a a v (ground arith) h.around;
          held = (
            Linked-put_self s.node v a (addr l) (addr r) (above k) d node.some_node
                (node.left_link, node.right_link, node.parent_link, refl),
            Holds-put l s.node a v a (ground arith) left,
            Holds-put r s.node a v a (ground arith) right,
          );
          once = h.once;
        },
        put-SameContent s.node a v refl,
      )

abbrev pub colour_of : Shape → Colour
colour_of leaf = black
colour_of (fork a c l r) = c

pub rbt_get_colour-addr :
    (s : Store) (q : ℕ) (t : Shape)
    → Holds s.node q t
    → rbt_get_colour s (addr t) ≡ ok (colour_of t)
unfolding rbt_get_colour
rbt_get_colour-addr s q leaf h = refl
rbt_get_colour-addr s q (fork a c l r) (node, left, right) =
    rw (==_ne a 0 node.some_node) (ap ok node.has_colour)

-- A node and the root of another tree beside it have different addresses.
pub children-apart :
    (k : Place) (a b : ℕ) (c d : Colour) (l r t : Shape)
    → b ≢ 0
    → Once k (fork a c (fork b d l r) t)
    → addr t ≢ b
unfolding count
children-apart k a b c d l r t some once =
    let o = once b in let e = ==_refl b in addr-ne b t some (ground arith)

pub children-apart_right :
    (k : Place) (a b : ℕ) (c d : Colour) (l r t : Shape)
    → b ≢ 0
    → Once k (fork a c t (fork b d l r))
    → addr t ≢ b
unfolding count
children-apart_right k a b c d l r t some once =
    let o = once b in let e = ==_refl b in addr-ne b t some (ground arith)

-- A rotation to the left and then one to the right about the new root of the subtree take the tree back to
-- what it was, and the contents too.
pub rbt_rotate_right-rotate_left :
    (s : Store) (k : Place) (x y : ℕ) (c d : Colour) (ta tb tc : Shape)
    → StandsIn s k (fork x c ta (fork y d tb tc))
    → Final s
        (rbt_rotate_left s x >>= (λ s'. rbt_rotate_right s' y))
        (λ s'. StandsIn s' k (fork x c ta (fork y d tb tc)))
rbt_rotate_right-rotate_left s k x y c d ta tb tc h =
    Final->>= s (rbt_rotate_left s x) (λ s'. rbt_rotate_right s' y)
      (λ s'. StandsIn s' k (fork y d (fork x c ta tb) tc))
      (λ s'. StandsIn s' k (fork x c ta (fork y d tb tc)))
      (rbt_rotate_left-Leaves k x y c d ta tb tc s h)
      (λ s'. rbt_rotate_right-Leaves k y x d c ta tb tc s')
