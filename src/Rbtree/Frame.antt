-- ===== src/Rbtree/Frame.antt =====
-- Assignments to one node of kernel/lib/ds/rbtree.c, and the trees without it.
use yaeos.Prelude.{ℕ, ◌≡◌, ◌≢◌, sym, arith, ==_ne, ==_refl}
use yaeos.Rbtree.{Colour, Node, put}
use yaeos.Rbtree.Shape.{
  Shape, leaf, fork, addr, count, Place, top, left_of, right_of, above, count_place, Linked, Holds,
  Around,
}

-- An address that a tree does not hold is not that of its root.
pub count-fork :
    (a b : ℕ) (c : Colour) (l r : Shape)
    → count a (fork b c l r) ≡ 0
    → (a ≢ b) × (count a l ≡ 0) × (count a r ≡ 0)
unfolding count
count-fork a b c l r h = ground arith

pub Linked-put :
    (nodes : ℕ → Node) (b : ℕ) (v : Node) (a l r p : ℕ) (c : Colour)
    → a ≢ b
    → Linked nodes a l r p c
    → Linked (put nodes b v) a l r p c
Linked-put nodes b v a l r p c ne h =
    let other = ==_ne a b ne in
    record {
      some_node = h.some_node;
      left_link = rw other h.left_link;
      right_link = rw other h.right_link;
      parent_link = rw other h.parent_link;
      has_colour = rw other h.has_colour;
    }

pub Linked-put_self :
    (nodes : ℕ → Node) (v : Node) (a l r p : ℕ) (c : Colour)
    → a ≢ 0
    → (v.left ≡ l) × (v.right ≡ r) × (v.parent ≡ p) × (v.colour ≡ c)
    → Linked (put nodes a v) a l r p c
Linked-put_self nodes v a l r p c some (el, er, ep, ec) =
    let same = ==_refl a in
    record {
      some_node = some;
      left_link = rw same el;
      right_link = rw same er;
      parent_link = rw same ep;
      has_colour = rw same ec;
    }

pub Holds-put :
    (t : Shape) (nodes : ℕ → Node) (b : ℕ) (v : Node) (p : ℕ)
    → count b t ≡ 0
    → Holds nodes p t
    → Holds (put nodes b v) p t
Holds-put leaf nodes b v p none h = tt
Holds-put (fork a c l r) nodes b v p none (node, left, right) =
    let (ne, none_left, none_right) = count-fork b a c l r none in
    (
      Linked-put nodes b v a (addr l) (addr r) p c (λ e. ne (sym e)) node,
      Holds-put l nodes b v a none_left left,
      Holds-put r nodes b v a none_right right,
    )

pub count_place-left :
    (a b : ℕ) (c : Colour) (r : Shape) (k : Place)
    → count_place a (left_of b c r k) ≡ 0
    → (a ≢ b) × (count a r ≡ 0) × (count_place a k ≡ 0)
unfolding count_place
count_place-left a b c r k h = ground arith

pub count_place-right :
    (a b : ℕ) (c : Colour) (l : Shape) (k : Place)
    → count_place a (right_of b c l k) ≡ 0
    → (a ≢ b) × (count a l ≡ 0) × (count_place a k ≡ 0)
unfolding count_place
count_place-right a b c l k h = ground arith

pub Around-put :
    (k : Place) (nodes : ℕ → Node) (root hole b : ℕ) (v : Node)
    → count_place b k ≡ 0
    → Around nodes root hole k
    → Around (put nodes b v) root hole k
Around-put top nodes root hole b v none h = h
Around-put (left_of a c r k) nodes root hole b v none (node, right, up) =
    let (ne, none_right, none_up) = count_place-left b a c r k none in
    (
      Linked-put nodes b v a hole (addr r) (above k) c (λ e. ne (sym e)) node,
      Holds-put r nodes b v a none_right right,
      Around-put k nodes root a b v none_up up,
    )
Around-put (right_of a c l k) nodes root hole b v none (node, left, up) =
    let (ne, none_left, none_up) = count_place-right b a c l k none in
    (
      Linked-put nodes b v a (addr l) hole (above k) c (λ e. ne (sym e)) node,
      Holds-put l nodes b v a none_left left,
      Around-put k nodes root a b v none_up up,
    )
