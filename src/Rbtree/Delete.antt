-- ===== src/Rbtree/Delete.antt =====
-- `rbtree_delete` of kernel/lib/ds/rbtree.c.
use yaeos.Prelude.{
  unfinished, ℕ, zero, suc, not, ◌==◌, ◌&&◌, ◌||◌, if◌then◌else◌, Outcome, ok, fault, ◌>>=◌, ◌>>◌,
  kassert,
}
use yaeos.Rbtree.{
  black, red, is_red, Node, Store, is_null, load, set_left, set_right, rbt_set_colour,
  rbt_get_colour,
}
use yaeos.Rbtree.{
  rbt_set_parent, rbt_get_parent, rbt_get_sibling, try_set_parent, rbt_replace_subtree,
  rbt_rotate_left, rbt_rotate_right,
}

-- The parent's reference to a node of `rbt_swap_nodes`, or the root.
unfoldable pub replace_child : Store → ℕ → ℕ → ℕ → Outcome Store
replace_child s parent child replacement =
    if (s.node parent).left == child
    then set_left s parent replacement
    else set_right s parent replacement

-- The assertion on a child, and the one on the parent.
abbrev pub knows_parent : Store → ℕ → ℕ → Outcome (Unit {0})
knows_parent s child parent =
    if is_null child then ok tt else rbt_get_parent s child >>= (λ p. kassert (p == parent))

abbrev pub is_child : Store → ℕ → Outcome (Unit {0})
is_child s n = do
  parent ← rbt_get_parent s n
  let p = s.node parent
  if is_null parent then ok tt else kassert ((p.left == n) || (p.right == n))

abbrev pub well_linked : Store → ℕ → Outcome (Unit {0})
well_linked s n = do
  knows_parent s (s.node n).left n
  knows_parent s (s.node n).right n
  is_child s n

-- `y` takes the place of `x`.
unfoldable pub lift_over : Store → ℕ → ℕ → Outcome Store
lift_over s x y = do
  s₁ ← try_set_parent s (s.node x).left y
  s₂ ← try_set_parent s₁ (s₁.node x).right y
  parent ← rbt_get_parent s₂ x
  let at_root = (do kassert (s₂.root == x); s₃ ← rbt_set_parent s₂ y 0; ok (record s₃ { root = y }))
  let below = replace_child s₂ parent x y >>= (λ s₃. rbt_set_parent s₃ y parent)
  s₃ ← (if is_null parent then at_root else below)
  s₄ ← set_left s₃ y (if (s₃.node x).left == y then x else (s₃.node x).left)
  s₅ ← set_right s₄ y (if (s₄.node x).right == y then x else (s₄.node x).right)
  colour ← rbt_get_colour s₅ x
  rbt_set_colour s₅ y colour

-- `x` takes the place that `y` had, by the copy of `y`.
unfoldable pub put_down : Store → ℕ → ℕ → Node → Outcome Store
put_down s x y y_copy = do
  s₁ ← try_set_parent s y_copy.left x
  s₂ ← try_set_parent s₁ y_copy.right x
  let at_root = (do kassert (s₂.root == y); s₃ ← rbt_set_parent s₂ x 0; ok (record s₃ { root = x }))
  let below = replace_child s₂ y_copy.parent y x >>= (λ s₃. rbt_set_parent s₃ x y_copy.parent)
  s₃ ←
      (if is_null y_copy.parent
        then at_root
        else (if y_copy.parent == x then rbt_set_parent s₂ x y else below))
  s₄ ← set_left s₃ x y_copy.left
  s₅ ← set_right s₄ x y_copy.right
  rbt_set_colour s₅ x y_copy.colour

unfoldable pub rbt_swap_nodes : Store → ℕ → ℕ → Outcome Store
rbt_swap_nodes s first second = do
  kassert (not (is_null first))
  kassert (not (is_null second))
  above ← rbt_get_parent s first
  let x = (if above == second then second else first)
  let y = (if above == second then first else second)
  let y_copy = s.node y
  s₁ ← lift_over s x y
  s₂ ← put_down s₁ x y y_copy
  well_linked s₂ x
  well_linked s₂ y
  ok s₂

-- The last node of the left subtree.
unfoldable pub rightmost : ℕ → Store → ℕ → Outcome ℕ
rightmost zero s n = unfinished
rightmost (suc fuel) s n =
    let further = rightmost fuel s (s.node n).right in
    if is_null n then fault else (if is_null (s.node n).right then ok n else further)

unfoldable pub rbt_find_successor : ℕ → Store → ℕ → Outcome ℕ
rbt_find_successor fuel s subtree = load s subtree >>= (λ n. rightmost fuel s n.left)

-- A red sibling gives way to a black one.
unfoldable pub blacken_sibling : Store → ℕ → Outcome (Store × ℕ × ℕ)
blacken_sibling s node = do
  parent ← rbt_get_parent s node
  sibling ← rbt_get_sibling s node
  colour ← rbt_get_colour s sibling
  let rotate = (do
    c ← rbt_get_colour s parent
    kassert (not (is_red c))
    s₁ ←
        (if (s.node parent).right == sibling
          then rbt_rotate_left s parent
          else rbt_rotate_right s parent)
    s₂ ← rbt_set_colour s₁ sibling black
    s₃ ← rbt_set_colour s₂ parent red
    parent₁ ← rbt_get_parent s₃ node
    sibling₁ ← rbt_get_sibling s₃ node
    ok (s₃, parent₁, sibling₁))
  if is_red colour then rotate else ok (s, parent, sibling)

-- A red child of the sibling comes to stand on the side away from the node.
unfoldable pub outward : Store → ℕ → ℕ → ℕ → Outcome Store
outward s node parent sibling = do
  left ← rbt_get_colour s (s.node sibling).left
  right ← rbt_get_colour s (s.node sibling).right
  let to_left = (do
    s₁ ← rbt_set_colour s sibling red
    s₂ ← rbt_set_colour s₁ (s₁.node sibling).right black
    rbt_rotate_left s₂ sibling)
  let to_right = (do
    s₁ ← rbt_set_colour s sibling red
    s₂ ← rbt_set_colour s₁ (s₁.node sibling).left black
    rbt_rotate_right s₂ sibling)
  if ((s.node parent).right == node) && not (is_red left) && is_red right
      then to_left
      else (if ((s.node parent).left == node) && is_red left && not (is_red right)
          then to_right
          else ok s)

-- The last rotation, about the parent.
unfoldable pub settle_parent : Store → ℕ → Outcome Store
settle_parent s node = do
  sibling ← rbt_get_sibling s node
  parent ← rbt_get_parent s node
  colour ← rbt_get_colour s sibling
  kassert (not (is_red colour))
  near ← load s sibling
  left ← rbt_get_colour s near.left
  right ← rbt_get_colour s near.right
  kassert (
      (is_red left && (node == (s.node parent).right))
      || (is_red right && (node == (s.node parent).left)))
  c ← rbt_get_colour s parent
  s₁ ← rbt_set_colour s sibling c
  s₂ ← rbt_set_colour s₁ parent black
  let to_right = (do
    outer ← rbt_get_colour s₂ (s₂.node sibling).left
    kassert (is_red outer)
    s₃ ← rbt_set_colour s₂ (s₂.node sibling).left black
    rbt_rotate_right s₃ parent)
  let to_left = (do
    outer ← rbt_get_colour s₂ (s₂.node sibling).right
    kassert (is_red outer)
    s₃ ← rbt_set_colour s₂ (s₂.node sibling).right black
    rbt_rotate_left s₃ parent)
  if (s₂.node parent).right == node then to_right else to_left

-- The loop of `rbt_delete_fix`.
unfoldable pub rbt_delete_fix : ℕ → Store → ℕ → Outcome Store
rbt_delete_fix zero s node = unfinished
rbt_delete_fix (suc fuel) s node = do
  top ← rbt_get_parent s node
  let round = (do
    (s₁, parent, sibling) ← blacken_sibling s node
    near ← load s₁ sibling
    left ← rbt_get_colour s₁ near.left
    right ← rbt_get_colour s₁ near.right
    colour ← rbt_get_colour s₁ sibling
    above ← rbt_get_colour s₁ parent
    let up = (do
      s₂ ← rbt_set_colour s₁ sibling red
      node₁ ← rbt_get_parent s₂ node
      rbt_delete_fix fuel s₂ node₁)
    let repaint = rbt_set_colour s₁ sibling red >>= (λ s₂. rbt_set_colour s₂ parent black)
    let turn = outward s₁ node parent sibling >>= (λ s₂. settle_parent s₂ node)
    if not (is_red colour) && (not (is_red left) && not (is_red right))
        then (if is_red above then repaint else up)
        else (if is_red colour then settle_parent s₁ node else turn))
  if is_null top then ok s else round

unfoldable pub rbtree_delete : ℕ → Store → ℕ → Outcome Store
rbtree_delete fuel s deletee = do
  d ← load s deletee
  let swap = rbt_find_successor fuel s deletee >>= (λ successor. rbt_swap_nodes s deletee successor)
  s₁ ← (if not (is_null d.left) && not (is_null d.right) then swap else ok s)
  let d₁ = s₁.node deletee
  kassert (is_null d₁.left || is_null d₁.right)
  let child = (if is_null d₁.right then d₁.left else d₁.right)
  colour ← rbt_get_colour s₁ deletee
  child_colour ← rbt_get_colour s₁ child
  s₂ ←
      (if is_red colour
        then ok s₁
        else (if is_red child_colour
            then rbt_set_colour s₁ child black
            else rbt_delete_fix fuel s₁ deletee))
  rbt_replace_subtree s₂ deletee child
