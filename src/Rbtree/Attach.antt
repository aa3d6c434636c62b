-- ===== src/Rbtree/Attach.antt =====
-- The statements of `rbtree_insert` in kernel/lib/ds/rbtree.c before `rbt_insert_fix`, on trees.
use yaeos.Prelude.{
  ℕ, zero, suc, ◌+◌, ◌<◌, ◌≡◌, inl, inr, refl, arith, Bool, true, false, Bool-cases, ◌==◌, ==_ne,
  if◌then◌else◌, ℤ, Outcome, ok, ◌>>◌, kassert,
}
use yaeos.Rbtree.{Colour, red, Node, Store, put, is_null, set_left, set_right}
use yaeos.Rbtree.Shape.{
  Shape, leaf, fork, addr, count, Place, top, left_of, right_of, above, count_place, Linked, Holds,
  Once,
}
use yaeos.Rbtree.Frame.{
  Linked-put, Linked-put_self, Holds-put, Around-put, count_place-left, count_place-right,
}
use yaeos.Rbtree.Relink.{once-left, once-right}
use yaeos.Rbtree.Content.{put-SameContent}
use yaeos.Rbtree.Rotate.{StandsIn}
use yaeos.Rbtree.Climb.{Final}
use yaeos.Rbtree.Graft.{leaf_place}
use yaeos.Rbtree.Update.{is_negative, find_place}

abbrev pub size : Shape → ℕ
size leaf = 0
size (fork a c l r) = suc (size l + size r)

abbrev pub goes_left : Place → Bool
goes_left top = true
goes_left (left_of a c r k) = true
goes_left (right_of a c l k) = false

-- A node goes to the right of those whose content compares as less.
abbrev pub below_in : (ℕ → ℕ → ℤ) → (ℕ → Node) → ℕ → ℕ → Bool
below_in cmpf nodes value a = is_negative (cmpf (nodes a).content value)

pub find_place-run :
    (cmpf : ℕ → ℕ → ℤ) (s : Store) (value q fuel : ℕ) (t : Shape) (k : Place)
    → size t < fuel
    → Holds s.node q t
    → find_place cmpf s value fuel (above k) (goes_left k) (addr t)
      ≡ ok (
        above (leaf_place (below_in cmpf s.node value) t k),
        goes_left (leaf_place (below_in cmpf s.node value) t k),
      )
unfolding find_place
find_place-run cmpf s value q zero t k enough h = absurd (omega arith)
find_place-run cmpf s value q (suc fuel) leaf k enough h = refl
find_place-run cmpf s value q (suc fuel) (fork a c l r) k enough (node, hl, hr) =
    elim (Bool-cases (below_in cmpf s.node value a)) [
      | inl e ↦
          simp (==_ne a 0 node.some_node, e, node.right_link)
            (find_place-run cmpf s value a fuel r (right_of a c l k) (omega arith) hr)
      | inr e ↦
          simp (==_ne a 0 node.some_node, e, node.left_link)
            (find_place-run cmpf s value a fuel l (left_of a c r k) (omega arith) hl)
    ]

-- The reference to the new node.
abbrev pub attach : Store → ℕ → ℕ → Bool → Outcome Store
attach s new parent to_left =
    let first = (do kassert (is_null s.root); ok (record s { root = new })) in
    if is_null parent
    then first
    else (if to_left then set_left s parent new else set_right s parent new)

Once-new :
    (k : Place) (new : ℕ) (c : Colour)
    → Once k leaf
    → count_place new k ≡ 0
    → Once k (fork new c leaf leaf)
unfolding count
Once-new k new c once none b = elim (Bool-cases (b == new)) [
  | inl e ↦ let same : b ≡ new = ground arith in rw (e, same) (let o = once b in omega arith)
  | inr e ↦ rw e (once b)
]

pub attach-Final :
    (s : Store) (k : Place) (new : ℕ)
    → StandsIn s k leaf
    → count_place new k ≡ 0
    → Linked s.node new 0 0 (above k) red
    → Final s (attach s new (above k) (goes_left k)) (λ s'. StandsIn s' k (fork new red leaf leaf))
unfolding count
attach-Final s top new h none node =
    let empty = h.around in
    (
      record s { root = new },
      simp empty refl,
      record { around = refl; held = (node, tt, tt); once = Once-new top new red h.once none },
      λ a. refl,
    )
attach-Final s (left_of a c r k) new h none node =
    let (at, beside, up) = h.around in
    let (none_t, none_k) = once-left a c r k (let o = h.once a in omega arith) in
    let differs = count_place-left new a c r k none in
    let w = record (s.node a) { left = new } in
    (
      record s { node = put s.node a w },
      simp (==_ne a 0 at.some_node) refl,
      record {
        around = (
          Linked-put_self s.node w a new (addr r) (above k) c at.some_node
              (refl, at.right_link, at.parent_link, at.has_colour),
          Holds-put r s.node a w a none_t beside,
          Around-put k s.node s.root a a w none_k up,
        );
        held = (Linked-put s.node a w new 0 0 a red differs.0 node, tt, tt);
        once = Once-new (left_of a c r k) new red h.once none;
      },
      put-SameContent s.node a w refl,
    )
attach-Final s (right_of a c l k) new h none node =
    let (at, beside, up) = h.around in
    let (none_t, none_k) = once-right a c l k (let o = h.once a in omega arith) in
    let differs = count_place-right new a c l k none in
    let w = record (s.node a) { right = new } in
    (
      record s { node = put s.node a w },
      simp (==_ne a 0 at.some_node) refl,
      record {
        around = (
          Linked-put_self s.node w a (addr l) new (above k) c at.some_node
              (at.left_link, refl, at.parent_link, at.has_colour),
          Holds-put l s.node a w a none_t beside,
          Around-put k s.node s.root a a w none_k up,
        );
        held = (Linked-put s.node a w new 0 0 a red differs.0 node, tt, tt);
        once = Once-new (right_of a c l k) new red h.once none;
      },
      put-SameContent s.node a w refl,
    )
