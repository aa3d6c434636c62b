-- ===== src/Rbtree.antt =====
-- The red-black tree of kernel/lib/ds/rbtree.c, in the build with assertions, where the colour is a field
-- of its own. NULL is the address 0; an access through it is a fault.
pub mod Search
pub mod Walk
pub mod Range
pub mod Found
pub mod Update
pub mod Delete
pub mod Sibling
pub mod Turns
pub mod Settle
pub mod LastTurn
pub mod DeleteRound
pub mod Even
pub mod Lift
pub mod RedSibling
pub mod Beside
pub mod DeleteFix
pub mod Removal
pub mod Removed
pub mod Spine
pub mod Swap
pub mod SwapSpine
pub mod SwapSteps
pub mod SwapRun
pub mod WellLinked
pub mod Swapped
pub mod LastNode
pub mod Deleted
pub mod Spot
pub mod SpotBack
pub mod Least
pub mod LeastRound
pub mod RangeFrom
pub mod Greatest
pub mod GreatestRound
pub mod Located
pub mod Undone
pub mod LiftOver
pub mod PutDown
pub mod Shape
pub mod Frame
pub mod Relink
pub mod Reparent
pub mod Parts
pub mod Runs
pub mod Content
pub mod Rotate
pub mod Climb
pub mod Line
pub mod Triangle
pub mod Round
pub mod Uncle
pub mod Balance
pub mod Mended
pub mod Graft
pub mod Attach
pub mod RedUncle
pub mod Insert
pub mod Fix
pub mod Samples
mod Tests
mod Cases
use yaeos.Prelude.{
  ℕ, zero, suc, Bool, true, false, not, ◌==◌, if◌then◌else◌, Outcome, ok, fault, ◌>>=◌, ◌>>◌,
  kassert,
}

-- `enum rbtree_colour`
pub data Colour : Type 0 where
  black red : Colour

abbrev pub is_red : Colour → Bool
is_red black = false
is_red red = true

-- `struct rbtree_node`; `content` is its `data`.
pub record Node : Type 0 where
  pub content : ℕ
  pub left : ℕ
  pub right : ℕ
  pub parent : ℕ
  pub colour : Colour

-- `struct rbtree` and the nodes by their addresses.
pub record Store : Type 0 where
  pub root : ℕ
  pub node : ℕ → Node

abbrev pub put : (ℕ → Node) → ℕ → Node → ℕ → Node
put nodes n v a = if a == n then v else nodes a

abbrev pub is_null : ℕ → Bool
is_null p = p == 0

-- A read of a node, and the assignments to its links.
abbrev pub load : Store → ℕ → Outcome Node
load s n = if is_null n then fault else ok (s.node n)

abbrev pub set_left : Store → ℕ → ℕ → Outcome Store
set_left s n v =
    if is_null n
    then fault
    else ok (record s { node = put s.node n (record (s.node n) { left = v }) })

abbrev pub set_right : Store → ℕ → ℕ → Outcome Store
set_right s n v =
    if is_null n
    then fault
    else ok (record s { node = put s.node n (record (s.node n) { right = v }) })

unfoldable pub rbt_set_colour : Store → ℕ → Colour → Outcome Store
rbt_set_colour s n c = do
  kassert (not (is_null n))
  ok (record s { node = put s.node n (record (s.node n) { colour = c }) })

unfoldable pub rbt_get_colour : Store → ℕ → Outcome Colour
rbt_get_colour s n = if is_null n then ok black else ok (s.node n).colour

unfoldable pub rbt_set_parent : Store → ℕ → ℕ → Outcome Store
rbt_set_parent s node parent = do
  kassert (not (is_null node))
  ok (record s { node = put s.node node (record (s.node node) { parent = parent }) })

unfoldable pub rbt_get_parent : Store → ℕ → Outcome ℕ
rbt_get_parent s node = kassert (not (is_null node)) >> ok (s.node node).parent

unfoldable pub rbt_get_grandparent : Store → ℕ → Outcome ℕ
rbt_get_grandparent s node = do
  kassert (not (is_null node))
  parent ← rbt_get_parent s node
  kassert (not (is_null parent))
  grandparent ← rbt_get_parent s parent
  kassert (not (is_null grandparent))
  ok grandparent

unfoldable pub rbt_get_sibling : Store → ℕ → Outcome ℕ
rbt_get_sibling s node = do
  kassert (not (is_null node))
  parent ← rbt_get_parent s node
  kassert (not (is_null parent))
  if (s.node parent).left == node then ok (s.node parent).right else ok (s.node parent).left

unfoldable pub rbt_get_uncle : Store → ℕ → Outcome ℕ
rbt_get_uncle s node = do
  kassert (not (is_null node))
  parent ← rbt_get_parent s node
  kassert (not (is_null parent))
  grandparent ← rbt_get_parent s parent
  kassert (not (is_null grandparent))
  rbt_get_sibling s parent

-- `TRY_SET_PARENT`, and the like statements outside `rbt_swap_nodes`.
unfoldable pub try_set_parent : Store → ℕ → ℕ → Outcome Store
try_set_parent s node parent = if is_null node then ok s else rbt_set_parent s node parent

-- The reference to a child, in its parent or in the tree.
unfoldable pub relink : Store → ℕ → ℕ → ℕ → Outcome Store
relink s parent child replacement =
    let inner =
      if (s.node parent).left == child
      then set_left s parent replacement
      else set_right s parent replacement in
    if is_null parent then ok (record s { root = replacement }) else inner

unfoldable pub rbt_replace_subtree : Store → ℕ → ℕ → Outcome Store
rbt_replace_subtree s replacee replacement = do
  replacee_parent ← rbt_get_parent s replacee
  s₁ ← relink s replacee_parent replacee replacement
  try_set_parent s₁ replacement replacee_parent

unfoldable pub rbtree_init_tree : Store → Store
rbtree_init_tree s = record s { root = 0 }

unfoldable pub rbtree_init_node : Store → ℕ → Outcome Store
rbtree_init_node s n = do
  kassert (not (is_null n))
  ok (record s {
    node =
        put s.node n
          (record { content = (s.node n).content; left = 0; right = 0; parent = 0; colour = red });
  })

unfoldable pub rbt_rotate_left : Store → ℕ → Outcome Store
rbt_rotate_left s old_root = do
  kassert (not (is_null old_root))
  let new_root = (s.node old_root).right
  s₁ ← rbt_replace_subtree s old_root new_root
  new ← load s₁ new_root
  s₂ ← set_right s₁ old_root new.left
  s₃ ← try_set_parent s₂ new.left old_root
  s₄ ← set_left s₃ new_root old_root
  rbt_set_parent s₄ old_root new_root

unfoldable pub rbt_rotate_right : Store → ℕ → Outcome Store
rbt_rotate_right s old_root = do
  kassert (not (is_null old_root))
  let new_root = (s.node old_root).left
  s₁ ← rbt_replace_subtree s old_root new_root
  new ← load s₁ new_root
  s₂ ← set_left s₁ old_root new.right
  s₃ ← try_set_parent s₂ new.right old_root
  s₄ ← set_right s₃ new_root old_root
  rbt_set_parent s₄ old_root new_root
