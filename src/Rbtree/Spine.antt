-- ===== src/Rbtree/Spine.antt =====
-- The way to the last node of a tree of kernel/lib/ds/rbtree.c: nodes whose right children go on.
use yaeos.Prelude.{ℕ, ◌+◌, ◌≡◌, ◌≢◌, ◌≤◌, refl, sym, arith, ==_ne, ==_refl}
use mathlib.Core.Path.{subst}
use yaeos.Rbtree.{Colour, Node, put}
use yaeos.Rbtree.Shape.{Shape, fork, addr, one_at, count, Linked, Holds}
use yaeos.Rbtree.Frame.{Linked-put, Linked-put_self, Holds-put}
use yaeos.Rbtree.Relink.{relinked, Linked-right, Linked-relinked, Holds-relinked, addr-ne}
use yaeos.Rbtree.Reparent.{reparented, Holds-reparented_at, Linked-reparented_at}

pub data Spine : Type 0 where
  tip : Spine
  down : ℕ → Colour → Shape → Spine → Spine

-- The tree with another one at the end of the spine.
abbrev pub hang : Spine → Shape → Shape
hang tip t = t
hang (down a c l m) t = fork a c l (hang m t)

-- The first node, and the last one.
abbrev pub head : Spine → ℕ → ℕ
head tip hole = hole
head (down a c l m) hole = a

abbrev pub bottom : Spine → ℕ → ℕ
bottom tip q = q
bottom (down a c l m) q = bottom m a

unfoldable pub count_spine : ℕ → Spine → ℕ
count_spine b tip = 0
count_spine b (down a c l m) = one_at b a + count b l + count_spine b m

abbrev pub Along : (ℕ → Node) → ℕ → ℕ → Spine → Type 0
Along nodes q hole tip = Unit {0}
Along nodes q hole (down a c l m) =
    Linked nodes a (addr l) (head m hole) q c × Holds nodes a l × Along nodes a hole m

pub count-hang : (b : ℕ) (m : Spine) (t : Shape) → count b (hang m t) ≡ count_spine b m + count b t
unfolding count count_spine
count-hang b tip t = omega arith
count-hang b (down a c l m) t = let ih = count-hang b m t in omega arith

pub addr-hang : (m : Spine) (t : Shape) → addr (hang m t) ≡ head m (addr t)
addr-hang tip t = refl
addr-hang (down a c l m) t = refl

pub Holds-hang :
    (m : Spine) (t : Shape) (nodes : ℕ → Node) (q : ℕ)
    → Holds nodes q (hang m t)
    → Along nodes q (addr t) m × Holds nodes (bottom m q) t
Holds-hang tip t nodes q h = (tt, h)
Holds-hang (down a c l m) t nodes q (node, left, right) =
    let (along, held) = Holds-hang m t nodes a right in
    ((subst (λ r. Linked nodes a (addr l) r q c) (addr-hang m t) node, left, along), held)

pub hang-Holds :
    (m : Spine) (t : Shape) (nodes : ℕ → Node) (q : ℕ)
    → Along nodes q (addr t) m
    → Holds nodes (bottom m q) t
    → Holds nodes q (hang m t)
hang-Holds tip t nodes q along h = h
hang-Holds (down a c l m) t nodes q (node, left, along) h = (
  subst (λ r. Linked nodes a (addr l) r q c) (sym (addr-hang m t)) node,
  left,
  hang-Holds m t nodes a along h,
)

count_spine-down :
    (b a : ℕ) (c : Colour) (l : Shape) (m : Spine)
    → count_spine b (down a c l m) ≡ 0
    → (a ≢ b) × (count b l ≡ 0) × (count_spine b m ≡ 0)
unfolding count_spine
count_spine-down b a c l m h = let e = ==_refl b in ground arith

-- What leaves the spine alone.
pub Along-put :
    (m : Spine) (nodes : ℕ → Node) (q hole b : ℕ) (v : Node)
    → count_spine b m ≡ 0
    → Along nodes q hole m
    → Along (put nodes b v) q hole m
Along-put tip nodes q hole b v none h = tt
Along-put (down a c l m) nodes q hole b v none (node, left, along) =
    let (ne, none_l, none_m) = count_spine-down b a c l m none in
    (
      Linked-put nodes b v a (addr l) (head m hole) q c ne node,
      Holds-put l nodes b v a none_l left,
      Along-put m nodes a hole b v none_m along,
    )

pub Along-relinked :
    (m : Spine) (nodes : ℕ → Node) (q hole b x y : ℕ)
    → count_spine b m ≡ 0
    → Along nodes q hole m
    → Along (relinked nodes b x y) q hole m
Along-relinked tip nodes q hole b x y none h = tt
Along-relinked (down a c l m) nodes q hole b x y none (node, left, along) =
    let (ne, none_l, none_m) = count_spine-down b a c l m none in
    (
      Linked-relinked nodes b x y a (addr l) (head m hole) q c ne node,
      Holds-relinked l nodes b x y a none_l left,
      Along-relinked m nodes a hole b x y none_m along,
    )

pub Along-reparented :
    (m : Spine) (nodes : ℕ → Node) (q hole b p : ℕ)
    → count_spine b m ≡ 0
    → Along nodes q hole m
    → Along (reparented nodes b p) q hole m
Along-reparented tip nodes q hole b p none h = tt
Along-reparented (down a c l m) nodes q hole b p none (node, left, along) =
    let (ne, none_l, none_m) = count_spine-down b a c l m none in
    (
      Linked-reparented_at nodes b p a (addr l) (head m hole) q c ne node,
      Holds-reparented_at l nodes b a p none_l left,
      Along-reparented m nodes a hole b p none_m along,
    )

-- The spine under another parent.
pub Along-reparented_head :
    (a q hole p : ℕ) (c : Colour) (l : Shape) (m : Spine) (nodes : ℕ → Node)
    → count_spine a (down a c l m) ≤ 1
    → Along nodes q hole (down a c l m)
    → Along (reparented nodes a p) p hole (down a c l m)
unfolding count_spine
Along-reparented_head a q hole p c l m nodes once (node, left, along) =
    let e = ==_refl a in
    let e₁ = ==_ne a 0 node.some_node in
    (
      rw e₁ (
          Linked-put_self nodes (record (nodes a) { parent = p }) a (addr l) (head m hole) p c
            node.some_node (node.left_link, node.right_link, refl, node.has_colour)),
      Holds-reparented_at l nodes a a p (ground arith) left,
      Along-reparented m nodes a hole a p (ground arith) along,
    )

pub count-bottom :
    (a q : ℕ) (c : Colour) (l : Shape) (m : Spine) → 1 ≤ count_spine (bottom m a) (down a c l m)
unfolding count_spine
count-bottom a q c l tip = let e = ==_refl a in ground arith
count-bottom a q c l (down b d k m) = let ih = count-bottom b q d k m in ground arith

pub bottom-some :
    (a q hole : ℕ) (c : Colour) (l : Shape) (m : Spine) (nodes : ℕ → Node)
    → Along nodes q hole (down a c l m)
    → bottom m a ≢ 0
bottom-some a q hole c l tip nodes (node, left, along) = node.some_node
bottom-some a q hole c l (down b d k m) nodes (node, left, along) =
    bottom-some b a hole d k m nodes along

pub bottom-ne :
    (a x : ℕ) (c : Colour) (l : Shape) (m : Spine)
    → count_spine x (down a c l m) ≡ 0
    → bottom m a ≢ x
bottom-ne a x c l m none e =
    let there = subst (λ i. 1 ≤ count_spine i (down a c l m)) e (count-bottom a 0 c l m) in
    omega arith

-- The last node of the spine with another child.
pub Along-relinked-bottom :
    (a q x y : ℕ) (c : Colour) (l : Shape) (m : Spine) (nodes : ℕ → Node)
    → x ≢ 0
    → count_spine x (down a c l m) ≡ 0
    → ((b : ℕ) → count_spine b (down a c l m) ≤ 1)
    → Along nodes q x (down a c l m)
    → Along (relinked nodes (bottom m a) x y) q y (down a c l m)
unfolding count_spine
Along-relinked-bottom a q x y c l tip nodes some none once (node, left, along) =
    let e = ==_refl a in
    let o = once a in
    (
      Linked-right nodes a (addr l) x q y c (addr-ne x l some (ground arith)) node,
      Holds-relinked l nodes a x y a (ground arith) left,
      tt,
    )
Along-relinked-bottom a q x y c l (down b d k m) nodes some none once (node, left, along) =
    let z = bottom m b in
    let o = once z in
    let there = count-bottom b q d k m in
    (
      Linked-relinked nodes z x y a (addr l) b q c (apart there) node,
      Holds-relinked l nodes z x y a (ground arith) left,
      Along-relinked-bottom b a x y d k m nodes some (ground arith)
          (λ i. let o' = once i in ground arith) along,
    )
  where
    apart : 1 ≤ count_spine (bottom m b) (down b d k m) → a ≢ bottom m b
    apart there e =
        let here = subst (λ i. 1 ≤ count_spine i (down b d k m)) (sym e) there in
        let o = once a in let r = ==_refl a in ground arith
