-- ===== src/Rbtree/Reparent.antt =====
-- A subtree of kernel/lib/ds/rbtree.c that gets another parent.
use yaeos.Prelude.{
  ℕ, ◌≡◌, ◌≢◌, ◌≤◌, refl, arith, inl, inr, Bool-cases, ◌==◌, ==_ne, ==_refl, if◌then◌else◌,
}
use yaeos.Rbtree.{Colour, Node, put}
use yaeos.Rbtree.Shape.{Shape, leaf, fork, addr, count, Place, count_place, Linked, Holds, Around}
use yaeos.Rbtree.Frame.{Linked-put, Holds-put, Around-put}

-- The new parent of a subtree, if there is one.
abbrev pub reparented : (ℕ → Node) → ℕ → ℕ → ℕ → Node
reparented nodes b p = if b == 0 then nodes else put nodes b (record (nodes b) { parent = p })

-- Two trees without a common node.
abbrev pub Disjoint : Shape → Shape → Type 0
Disjoint s t = (a : ℕ) → 1 ≤ count a s → count a t ≡ 0

pub count-addr : (a : ℕ) (c : Colour) (l r : Shape) → 1 ≤ count a (fork a c l r)
unfolding count
count-addr a c l r = ground arith

pub Holds-reparented_at :
    (t : Shape) (nodes : ℕ → Node) (b q p : ℕ)
    → count b t ≡ 0
    → Holds nodes q t
    → Holds (reparented nodes b p) q t
Holds-reparented_at t nodes b q p none h = elim (Bool-cases (b == 0)) [
  | inl e ↦ rw e h
  | inr e ↦ rw e (Holds-put t nodes b _ q none h)
]

pub Linked-reparented_at :
    (nodes : ℕ → Node) (b q a l r p : ℕ) (c : Colour)
    → a ≢ b
    → Linked nodes a l r p c
    → Linked (reparented nodes b q) a l r p c
Linked-reparented_at nodes b q a l r p c ne h = elim (Bool-cases (b == 0)) [
  | inl e ↦ rw e h
  | inr e ↦ rw e (Linked-put nodes b _ a l r p c ne h)
]

pub Around-reparented_at :
    (k : Place) (nodes : ℕ → Node) (root hole b q : ℕ)
    → count_place b k ≡ 0
    → Around nodes root hole k
    → Around (reparented nodes b q) root hole k
Around-reparented_at k nodes root hole b q none h = elim (Bool-cases (b == 0)) [
  | inl e ↦ rw e h
  | inr e ↦ rw e (Around-put k nodes root hole b _ none h)
]

-- A subtree under its new parent, and trees that have no node of it.
pub Holds-reparented_self :
    (t : Shape) (nodes : ℕ → Node) (q p : ℕ)
    → ((a : ℕ) → count a t ≤ 1)
    → Holds nodes q t
    → Holds (reparented nodes (addr t) p) p t
unfolding count
Holds-reparented_self leaf nodes q p once h = tt
Holds-reparented_self (fork a c l r) nodes q p once (node, left, right) =
    let e₁ = ==_ne a 0 node.some_node in
    let e₂ = ==_refl a in
    let o = once a in
    (
      record {
        some_node = node.some_node;
        left_link = rw (e₁, e₂) node.left_link;
        right_link = rw (e₁, e₂) node.right_link;
        parent_link = rw (e₁, e₂) refl;
        has_colour = rw (e₁, e₂) node.has_colour;
      },
      Holds-reparented_at l nodes a a p (ground arith) left,
      Holds-reparented_at r nodes a a p (ground arith) right,
    )

pub Holds-reparented :
    (t s : Shape) (nodes : ℕ → Node) (q p : ℕ)
    → Disjoint s t
    → Holds nodes q t
    → Holds (reparented nodes (addr s) p) q t
Holds-reparented t leaf nodes q p apart h = h
Holds-reparented t (fork a c l r) nodes q p apart h =
    Holds-reparented_at t nodes a q p (apart a (count-addr a c l r)) h

pub Linked-reparented :
    (s : Shape) (nodes : ℕ → Node) (q a l r p : ℕ) (c : Colour)
    → count a s ≡ 0
    → Linked nodes a l r p c
    → Linked (reparented nodes (addr s) q) a l r p c
unfolding count
Linked-reparented leaf nodes q a l r p c none h = h
Linked-reparented (fork b d m n) nodes q a l r p c none h =
    Linked-reparented_at nodes b q a l r p c (ground arith) h

pub Around-reparented :
    (k : Place) (s : Shape) (nodes : ℕ → Node) (root hole q : ℕ)
    → ((a : ℕ) → 1 ≤ count a s → count_place a k ≡ 0)
    → Around nodes root hole k
    → Around (reparented nodes (addr s) q) root hole k
Around-reparented k leaf nodes root hole q apart h = h
Around-reparented k (fork a c l r) nodes root hole q apart h =
    Around-reparented_at k nodes root hole a q (apart a (count-addr a c l r)) h
