-- ===== src/Rbtree/LastNode.antt =====
-- The last node of a subtree of kernel/lib/ds/rbtree.c, as `rbt_find_successor` finds it, and another node at
-- its place.
use yaeos.Prelude.{
  ℕ, zero, suc, ◌+◌, ◌<◌, ◌≤◌, ◌≡◌, ◌≢◌, refl, sym, ap, ◌∙◌, arith, ==_ne, [], ◌∷◌, ◌++◌,
  append_assoc, ok,
}
use yaeos.Rbtree.{Colour, black, red, Store}
use yaeos.Rbtree.Shape.{Shape, leaf, fork, inorder, Place, top, left_of, right_of, plug, Holds}
use yaeos.Rbtree.Rotate.{StandsIn}
use yaeos.Rbtree.Climb.{colour_of}
use yaeos.Rbtree.Balance.{RedBlack, Whole}
use yaeos.Rbtree.Attach.{size}
use yaeos.Rbtree.RedUncle.{depth}
use yaeos.Rbtree.Spine.{Spine, tip, down, hang, head, addr-hang}
use yaeos.Rbtree.WellLinked.{place_of}
use yaeos.Rbtree.Delete.{rightmost, rbt_find_successor}

-- The way to the last node of a tree, and what is there.
pub last_node :
    (a : ℕ) (c : Colour) (l r : Shape)
    → (m : Spine) × (y : ℕ) × (d : Colour) × (yl : Shape) × (fork a c l r
        ≡ hang m (fork y d yl leaf))
last_node a c l leaf = (tip, a, c, l, refl)
last_node a c l (fork b e u v) =
    let (m, y, d, yl, here) = last_node b e u v in
    (down a c l m, y, d, yl, ap (λ t. fork a c l t) here)

-- The nodes of the spine.
spine_length : Spine → ℕ
spine_length tip = 0
spine_length (down a c l m) = suc (spine_length m)

spine_length-size : (m : Spine) (t : Shape) → spine_length m + size t ≤ size (hang m t)
unfolding spine_length
spine_length-size tip t = omega arith
spine_length-size (down a c l m) t = let ih = spine_length-size m t in omega arith

rightmost-round :
    (fuel : ℕ) (s : Store) (a b : ℕ)
    → a ≢ 0
    → b ≢ 0
    → (s.node a).right ≡ b
    → rightmost (suc fuel) s a ≡ rightmost fuel s b
unfolding rightmost
rightmost-round fuel s a b some_a some_b e = rw (==_ne a 0 some_a, e, ==_ne b 0 some_b) refl

rightmost-hang :
    (m : Spine) (fuel : ℕ) (s : Store) (p y : ℕ) (d : Colour) (yl : Shape)
    → y ≢ 0
    → spine_length m < fuel
    → Holds s.node p (hang m (fork y d yl leaf))
    → rightmost fuel s (head m y) ≡ ok y
unfolding rightmost spine_length
rightmost-hang tip (suc fuel) s p y d yl some enough (node, _, _) =
    rw (==_ne y 0 some, node.right_link) refl
rightmost-hang (down a c l tip) (suc fuel) s p y d yl some enough (node, left, right) =
    rightmost-round fuel s a y node.some_node some node.right_link
    ∙ rightmost-hang tip fuel s a y d yl some (omega arith) right
rightmost-hang (down a c l (down b e u m)) (suc fuel) s p y d yl some enough (node, left, right) =
    rightmost-round fuel s a b node.some_node right.0.some_node node.right_link
    ∙ rightmost-hang (down b e u m) fuel s a y d yl some (omega arith) right
rightmost-hang m zero s p y d yl some enough h = ground arith

module _ (fuel : ℕ) (s : Store) (k : Place) (x y : ℕ) (c d : Colour) (m : Spine)
    (yl r : Shape) where
  pub rbt_find_successor-run :
      y ≢ 0
      → size (hang m (fork y d yl leaf)) < fuel
      → StandsIn s k (fork x c (hang m (fork y d yl leaf)) r)
      → rbt_find_successor fuel s x ≡ ok y
  unfolding rbt_find_successor
  rbt_find_successor-run some enough h =
      let (node, left, right) = h.held in
      let e = spine_length-size m (fork y d yl leaf) in
      (rw (==_ne x 0 node.some_node, node.left_link, addr-hang m (fork y d yl leaf)) refl)
      ∙ rightmost-hang m fuel s x y d yl some (omega arith) left

pub plug-place_of : (m : Spine) (k : Place) (t : Shape) → plug (place_of m k) t ≡ plug k (hang m t)
plug-place_of tip k t = refl
plug-place_of (down a c l m) k t = plug-place_of m (right_of a c l k) t

pub depth-size : (k : Place) (t : Shape) → depth k + size t ≤ size (plug k t)
depth-size top t = omega arith
depth-size (left_of a c r k) t = let ih = depth-size k (fork a c t r) in omega arith
depth-size (right_of a c l k) t = let ih = depth-size k (fork a c l t) in omega arith

-- Trees that differ in the addresses alone.
pub record Alike (t u : Shape) : Type 0 where
  pub same_size : size t ≡ size u
  pub same_colour : colour_of t ≡ colour_of u
  pub same_balance : (n : ℕ) → RedBlack n t → RedBlack n u

pub Alike-fork :
    (a b : ℕ) (c : Colour) (l l' r r' : Shape)
    → Alike l l'
    → Alike r r'
    → Alike (fork a c l r) (fork b c l' r')
Alike-fork a b black l l' r r' p q = record {
  same_size = let e = p.same_size in let e' = q.same_size in omega arith;
  same_colour = refl;
  same_balance = λ n h. let (m, e, hl, hr) = h in (m, e, p.same_balance m hl, q.same_balance m hr);
}
Alike-fork a b red l l' r r' p q = record {
  same_size = let e = p.same_size in let e' = q.same_size in omega arith;
  same_colour = refl;
  same_balance = λ n h.
      let (el, er, hl, hr) = h in
      (sym p.same_colour ∙ el, sym q.same_colour ∙ er, p.same_balance n hl, q.same_balance n hr);
}

pub Alike-self : (t : Shape) → Alike t t
Alike-self t = record { same_size = refl; same_colour = refl; same_balance = λ n h. h }

pub Alike-hang : (m : Spine) (t u : Shape) → Alike t u → Alike (hang m t) (hang m u)
Alike-hang tip t u p = p
Alike-hang (down a c l m) t u p =
    Alike-fork a a c l l (hang m t) (hang m u) (Alike-self l) (Alike-hang m t u p)

pub Alike-plug : (k : Place) (t u : Shape) → Alike t u → Alike (plug k t) (plug k u)
Alike-plug top t u p = p
Alike-plug (left_of a c r k) t u p =
    Alike-plug k (fork a c t r) (fork a c u r) (Alike-fork a a c t u r r p (Alike-self r))
Alike-plug (right_of a c l k) t u p =
    Alike-plug k (fork a c l t) (fork a c l u) (Alike-fork a a c l l t u (Alike-self l) p)

pub Alike-Whole : (t u : Shape) → Alike t u → Whole t → Whole u
Alike-Whole t u p (root, n, h) = (sym p.same_colour ∙ root, n, p.same_balance n h)

-- The last node comes last.
pub inorder-hang :
    (m : Spine) (y : ℕ) (d : Colour) (yl : Shape)
    → inorder (hang m (fork y d yl leaf)) ≡ inorder (hang m yl) ++ y ∷ []
inorder-hang tip y d yl = refl
inorder-hang (down a c l m) y d yl =
    ap (λ zs. inorder l ++ a ∷ zs) (inorder-hang m y d yl)
    ∙ sym (append_assoc (inorder l) (a ∷ inorder (hang m yl)) (y ∷ []))
