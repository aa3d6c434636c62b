-- ===== src/Rbtree/Rotate.antt =====
-- The rotations of kernel/lib/ds/rbtree.c on the trees that stand in the nodes.
use yaeos.Prelude.{ℕ, ◌≡◌, refl, ◌∙◌, arith, ==_ne, Outcome, ok}
use yaeos.Rbtree.{Colour, Store, rbt_rotate_left, rbt_rotate_right}
use yaeos.Rbtree.Shape.{Shape, fork, addr, count, Place, above, Once, Stands}
use yaeos.Rbtree.Parts.{
  Links, PartsOnce, Parts, Parts-first, Parts-second, Parts-middle, Parts-relink,
}
use yaeos.Rbtree.Content.{
  SameContent, replaced-SameContent, turned_left-SameContent, turned_right-SameContent,
}
use yaeos.Rbtree.Runs.{replaced, turned_left, turned_right, rotate_left-run, rotate_right-run}

-- A store and the tree in it.
abbrev pub StandsIn : Store → Place → Shape → Type 0
StandsIn s k t = Stands s.root s.node k t

module _ (k : Place) (x y : ℕ) (c d : Colour) (ta tb tc : Shape)
    (once : PartsOnce k x y ta tb tc) where
  -- The second node takes the place of the first.
  Parts-replaced :
      (s : Store) (lx ly : Links) (pa pb pc : ℕ)
      → Parts k x y ta tb tc s.node s.root x lx ly pa pb pc
      → Parts k x y ta tb tc
          (replaced s (above k) x y).node
          (replaced s (above k) x y).root
          y
          lx
          (record ly { parent = above k })
          pa
          pb
          pc
  unfolding replaced
  Parts-replaced s lx ly pa pb pc p =
      let p₁ = Parts-relink k x y ta tb tc once y p refl in
      let e = ==_ne y 0 p.second.some_node in
      let h = p₁.second in
      rw e (
        Parts-second k x y ta tb tc once _ (record ly { parent = above k })
          (h.left_link, h.right_link, refl, h.has_colour) p₁)

  Parts-turned_left :
      (s : Store) (root hole u v w z pa pc : ℕ)
      → Parts k x y ta tb tc s.node s.root hole
          (record { left = u; right = v; parent = w; colour = c })
          (record { left = addr tb; right = z; parent = w; colour = d })
          pa
          y
          pc
      → Parts k x y ta tb tc
          (turned_left s x y (addr tb)).node
          (turned_left s x y (addr tb)).root
          hole
          (record { left = u; right = addr tb; parent = y; colour = c })
          (record { left = x; right = z; parent = w; colour = d })
          pa
          x
          pc
  unfolding turned_left
  Parts-turned_left s root hole u v w z pa pc p =
      let h = p.first in
      let p₁ =
        Parts-first k x y ta tb tc once (record (s.node x) { right = addr tb })
          (record { left = u; right = addr tb; parent = w; colour = c })
          (h.left_link, refl, h.parent_link, h.has_colour) p in
      let p₂ = Parts-middle k x y ta tb tc once x p₁ in
      let h₂ = p₂.second in
      let p₃ =
        Parts-second k x y ta tb tc once _ (record { left = x; right = z; parent = w; colour = d })
          (refl, h₂.right_link, h₂.parent_link, h₂.has_colour) p₂ in
      let h₃ = p₃.first in
      Parts-first k x y ta tb tc once _
        (record { left = u; right = addr tb; parent = y; colour = c })
        (h₃.left_link, h₃.right_link, refl, h₃.has_colour) p₃

  Parts-turned_right :
      (s : Store) (root hole u v w z pa pc : ℕ)
      → Parts k x y ta tb tc s.node s.root hole
          (record { left = u; right = v; parent = w; colour = c })
          (record { left = z; right = addr tb; parent = w; colour = d })
          pa
          y
          pc
      → Parts k x y ta tb tc
          (turned_right s x y (addr tb)).node
          (turned_right s x y (addr tb)).root
          hole
          (record { left = addr tb; right = v; parent = y; colour = c })
          (record { left = z; right = x; parent = w; colour = d })
          pa
          x
          pc
  unfolding turned_right
  Parts-turned_right s root hole u v w z pa pc p =
      let h = p.first in
      let p₁ =
        Parts-first k x y ta tb tc once (record (s.node x) { left = addr tb })
          (record { left = addr tb; right = v; parent = w; colour = c })
          (refl, h.right_link, h.parent_link, h.has_colour) p in
      let p₂ = Parts-middle k x y ta tb tc once x p₁ in
      let h₂ = p₂.second in
      let p₃ =
        Parts-second k x y ta tb tc once _ (record { left = z; right = x; parent = w; colour = d })
          (h₂.left_link, refl, h₂.parent_link, h₂.has_colour) p₂ in
      let h₃ = p₃.first in
      Parts-first k x y ta tb tc once _
        (record { left = addr tb; right = v; parent = y; colour = c })
        (h₃.left_link, h₃.right_link, refl, h₃.has_colour) p₃

-- The nodes of the two shapes of a rotation are those of its parts.
Once-lower_right :
    (k : Place) (x y : ℕ) (c d : Colour) (ta tb tc : Shape)
    → Once k (fork x c ta (fork y d tb tc))
    → PartsOnce k x y ta tb tc
unfolding count
Once-lower_right k x y c d ta tb tc once a = let o = once a in omega arith

lower_right-Once :
    (k : Place) (x y : ℕ) (c d : Colour) (ta tb tc : Shape)
    → PartsOnce k y x ta tb tc
    → Once k (fork x c ta (fork y d tb tc))
unfolding count
lower_right-Once k x y c d ta tb tc once a = let o = once a in omega arith

Once-lower_left :
    (k : Place) (x y : ℕ) (c d : Colour) (ta tb tc : Shape)
    → Once k (fork x c (fork y d ta tb) tc)
    → PartsOnce k x y ta tb tc
unfolding count
Once-lower_left k x y c d ta tb tc once a = let o = once a in omega arith

lower_left-Once :
    (k : Place) (x y : ℕ) (c d : Colour) (ta tb tc : Shape)
    → PartsOnce k y x ta tb tc
    → Once k (fork x c (fork y d ta tb) tc)
unfolding count
lower_left-Once k x y c d ta tb tc once a = let o = once a in omega arith

-- A run that leaves a tree at the place, in nodes with the contents as before.
abbrev pub Leaves : Store → Outcome Store → Place → Shape → Type 0
Leaves s run k t = (s' : Store) × (run ≡ ok s') × StandsIn s' k t × SameContent s.node s'.node

module _ (k : Place) (x y : ℕ) (c d : Colour) (ta tb tc : Shape) where
  pub rbt_rotate_left-Leaves :
      (s : Store)
      → StandsIn s k (fork x c ta (fork y d tb tc))
      → Leaves s (rbt_rotate_left s x) k (fork y d (fork x c ta tb) tc)
  rbt_rotate_left-Leaves s h =
      let once = Once-lower_right k x y c d ta tb tc h.once in
      let (first, a, (second, b, c')) = h.held in
      let start : Parts k x y ta tb tc s.node s.root x
          (record { left = addr ta; right = y; parent = above k; colour = c })
          (record { left = addr tb; right = addr tc; parent = x; colour = d }) x y y =
        record {
          around = h.around;
          first = first;
          second = second;
          tree_a = a;
          tree_b = b;
          tree_c = c';
        } in
      let p₁ = Parts-replaced k x y c d ta tb tc once s _ _ x y y start in
      let s₁ = replaced s (above k) x y in
      let p₂ =
        Parts-turned_left k x y c d ta tb tc once s₁ s₁.root y (addr ta) y (above k) (addr tc) x y
          p₁ in
      (
        turned_left s₁ x y (addr tb),
        rotate_left-run s (above k) x y (addr tb) first.some_node second.some_node first.right_link
            first.parent_link p₁.second.left_link,
        record {
          around = p₂.around;
          held = (p₂.second, (p₂.first, p₂.tree_a, p₂.tree_b), p₂.tree_c);
          once = lower_left-Once k y x d c ta tb tc once;
        },
        λ i. turned_left-SameContent s₁ x y (addr tb) i ∙ replaced-SameContent s (above k) x y i,
      )

  pub rbt_rotate_right-Leaves :
      (s : Store)
      → StandsIn s k (fork x c (fork y d ta tb) tc)
      → Leaves s (rbt_rotate_right s x) k (fork y d ta (fork x c tb tc))
  rbt_rotate_right-Leaves s h =
      let once = Once-lower_left k x y c d ta tb tc h.once in
      let (first, (second, a, b), c') = h.held in
      let start : Parts k x y ta tb tc s.node s.root x
          (record { left = y; right = addr tc; parent = above k; colour = c })
          (record { left = addr ta; right = addr tb; parent = x; colour = d }) y y x =
        record {
          around = h.around;
          first = first;
          second = second;
          tree_a = a;
          tree_b = b;
          tree_c = c';
        } in
      let p₁ = Parts-replaced k x y c d ta tb tc once s _ _ y y x start in
      let s₁ = replaced s (above k) x y in
      let p₂ =
        Parts-turned_right k x y c d ta tb tc once s₁ s₁.root y y (addr tc) (above k) (addr ta) y x
          p₁ in
      (
        turned_right s₁ x y (addr tb),
        rotate_right-run s (above k) x y (addr tb) first.some_node second.some_node first.left_link
            first.parent_link p₁.second.right_link,
        record {
          around = p₂.around;
          held = (p₂.second, p₂.tree_a, (p₂.first, p₂.tree_b, p₂.tree_c));
          once = lower_right-Once k y x d c ta tb tc once;
        },
        λ i. turned_right-SameContent s₁ x y (addr tb) i ∙ replaced-SameContent s (above k) x y i,
      )
