-- ===== src/Rbtree/Shape.antt =====
-- The trees that stand in the nodes of kernel/lib/ds/rbtree.c, with the place of a subtree in the whole.
use yaeos.Prelude.{ℕ, ◌+◌, ◌≡◌, ◌≢◌, ◌≤◌, List, [], ◌∷◌, ◌++◌, ◌==◌, if◌then◌else◌}
use yaeos.Rbtree.{Colour, Node}

pub data Shape : Type 0 where
  leaf : Shape
  fork : ℕ → Colour → Shape → Shape → Shape

-- The address of the root, NULL for no node.
abbrev pub addr : Shape → ℕ
addr leaf = 0
addr (fork a c l r) = a

-- How often a node stands in the tree.
abbrev pub one_at : ℕ → ℕ → ℕ
one_at a b = if a == b then 1 else 0

unfoldable pub count : ℕ → Shape → ℕ
count a leaf = 0
count a (fork b c l r) = one_at a b + count a l + count a r

-- The nodes from left to right.
abbrev pub inorder : Shape → List ℕ
inorder leaf = []
inorder (fork a c l r) = inorder l ++ a ∷ inorder r

-- A place in a tree: the nodes above it, from the lowest on, with their other subtrees.
pub data Place : Type 0 where
  top : Place
  left_of : ℕ → Colour → Shape → Place → Place
  right_of : ℕ → Colour → Shape → Place → Place

abbrev pub above : Place → ℕ
above top = 0
above (left_of a c r k) = a
above (right_of a c l k) = a

unfoldable pub count_place : ℕ → Place → ℕ
count_place a top = 0
count_place a (left_of b c r k) = one_at a b + count a r + count_place a k
count_place a (right_of b c l k) = one_at a b + count a l + count_place a k

abbrev pub plug : Place → Shape → Shape
plug top t = t
plug (left_of a c r k) t = plug k (fork a c t r)
plug (right_of a c l k) t = plug k (fork a c l t)

-- The fields of a node, without its content.
pub record Linked (nodes : ℕ → Node) (a left right parent : ℕ) (c : Colour) : Type 0 where
  pub some_node : a ≢ 0
  pub left_link : (nodes a).left ≡ left
  pub right_link : (nodes a).right ≡ right
  pub parent_link : (nodes a).parent ≡ parent
  pub has_colour : (nodes a).colour ≡ c

-- The nodes hold the tree, below the parent.
abbrev pub Holds : (ℕ → Node) → ℕ → Shape → Type 0
Holds nodes parent leaf = Unit {0}
Holds nodes parent (fork a c l r) =
    Linked nodes a (addr l) (addr r) parent c × Holds nodes a l × Holds nodes a r

-- The nodes hold what stands around the place, whose own root is `hole`.
abbrev pub Around : (ℕ → Node) → ℕ → ℕ → Place → Type 0
Around nodes root hole top = root ≡ hole
Around nodes root hole (left_of a c r k) =
    Linked nodes a hole (addr r) (above k) c × Holds nodes a r × Around nodes root a k
Around nodes root hole (right_of a c l k) =
    Linked nodes a (addr l) hole (above k) c × Holds nodes a l × Around nodes root a k

-- No node stands twice.
abbrev pub Once : Place → Shape → Type 0
Once k t = (a : ℕ) → count_place a k + count a t ≤ 1

pub record Stands (root : ℕ) (nodes : ℕ → Node) (k : Place) (t : Shape) : Type 0 where
  pub around : Around nodes root (addr t) k
  pub held : Holds nodes (above k) t
  pub once : Once k t
