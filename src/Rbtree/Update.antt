-- ===== src/Rbtree/Update.antt =====
-- `rbtree_insert` of kernel/lib/ds/rbtree.c.
use yaeos.Prelude.{
  unfinished, ℕ, zero, suc, Bool, true, false, not, ◌==◌, ◌&&◌, if◌then◌else◌, ℤ, pos, negsuc,
}
use yaeos.Prelude.{Outcome, ok, panic, ◌>>=◌, ◌>>◌, kassert}
use yaeos.Rbtree.{
  black, red, is_red, Store, is_null, load, set_left, set_right, rbt_set_colour, rbt_get_colour,
}
use yaeos.Rbtree.{
  rbt_set_parent, rbt_get_parent, rbt_get_grandparent, rbt_get_uncle, rbtree_init_node,
  rbt_rotate_left, rbt_rotate_right,
}

-- The tests of a comparison's result against 0.
abbrev pub is_positive : ℤ → Bool
is_positive (pos n) = not (n == 0)
is_positive (negsuc n) = false

abbrev pub is_negative : ℤ → Bool
is_negative (pos n) = false
is_negative (negsuc n) = true

-- A triangle of grandparent, parent and node becomes a line; the node is then the lower one.
unfoldable pub straighten : Store → ℕ → ℕ → ℕ → Outcome (Store × ℕ)
straighten s node parent grandparent = do
  p ← load s parent
  g ← load s grandparent
  let inner_right = (do s₁ ← rbt_rotate_left s parent; n ← load s₁ node; ok (s₁, n.left))
  let inner_left = (do s₁ ← rbt_rotate_right s parent; n ← load s₁ node; ok (s₁, n.right))
  if (node == p.right) && (parent == g.left)
      then inner_right
      else (if (node == p.left) && (parent == g.right) then inner_left else ok (s, node))

-- The rotation of a line, and the two colours.
unfoldable pub rotate_line : Store → ℕ → Outcome Store
rotate_line s node = do
  parent ← rbt_get_parent s node
  grandparent ← rbt_get_grandparent s node
  kassert (not (is_null parent))
  kassert (not (is_null grandparent))
  p ← load s parent
  g ← load s grandparent
  s₁ ←
      (if (node == p.left) && (parent == g.left)
        then rbt_rotate_right s grandparent
        else (if (node == p.right) && (parent == g.right)
            then rbt_rotate_left s grandparent
            else panic))
  s₂ ← rbt_set_colour s₁ parent black
  rbt_set_colour s₂ grandparent red

-- The loop of `rbt_insert_fix`. A round moves up by two nodes.
unfoldable pub rbt_insert_fix : ℕ → Store → ℕ → Outcome Store
rbt_insert_fix zero s node = unfinished
rbt_insert_fix (suc fuel) s node = do
  kassert (not (is_null node))
  parent ← rbt_get_parent s node
  c ← rbt_get_colour s parent
  let red_parent = (do
    uncle ← rbt_get_uncle s node
    uncle_colour ← rbt_get_colour s uncle
    grandparent ← rbt_get_grandparent s node
    let red_uncle = (do
      s₁ ← rbt_set_colour s parent black
      s₂ ← rbt_set_colour s₁ uncle black
      s₃ ← rbt_set_colour s₂ grandparent red
      rbt_insert_fix fuel s₃ grandparent)
    let black_uncle = (do (s₁, lower) ← straighten s node parent grandparent; rotate_line s₁ lower)
    if is_red uncle_colour then red_uncle else black_uncle)
  if is_null parent then rbt_set_colour s node black else (if is_red c then red_parent else ok s)

-- The loop that looks for the place: the last node, and whether the new one goes to its left.
unfoldable pub find_place : (ℕ → ℕ → ℤ) → Store → ℕ → ℕ → ℕ → Bool → ℕ → Outcome (ℕ × Bool)
find_place cmpf s value zero parent to_left cursor = unfinished
find_place cmpf s value (suc fuel) parent to_left cursor =
    let cmp_result = cmpf (s.node cursor).content value in
    let further =
      find_place cmpf s value fuel cursor (not (is_negative cmp_result))
        (if is_negative cmp_result then (s.node cursor).right else (s.node cursor).left) in
    if is_null cursor then ok (parent, to_left) else further

unfoldable pub rbtree_insert : (ℕ → ℕ → ℤ) → ℕ → Store → ℕ → Outcome Store
rbtree_insert cmpf fuel s new = do
  kassert (not (is_null new))
  s₁ ← rbtree_init_node s new
  (parent, to_left) ← find_place cmpf s₁ (s₁.node new).content fuel 0 true s₁.root
  s₂ ← rbt_set_parent s₁ new parent
  let first = (do kassert (is_null s₂.root); ok (record s₂ { root = new }))
  s₃ ←
      (if is_null parent
        then first
        else (if to_left then set_left s₂ parent new else set_right s₂ parent new))
  rbt_insert_fix fuel s₃ new
