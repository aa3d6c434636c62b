-- ===== src/Rbtree/Relink.antt =====
-- The change of the reference to a subtree in kernel/lib/ds/rbtree.c, and the trees beside it.
use yaeos.Prelude.{
  ℕ, ◌≡◌, ◌≢◌, ◌≤◌, refl, sym, arith, inl, inr, true, false, Bool-cases, ◌==◌, ==_ne, ==_refl,
  if◌then◌else◌,
}
use mathlib.Core.Path.{subst}
use yaeos.Rbtree.{Colour, Node, put}
use yaeos.Rbtree.Shape.{
  Shape, leaf, fork, addr, count, Place, top, left_of, right_of, above, count_place, Linked, Holds,
  Around,
}
use yaeos.Rbtree.Frame.{Around-put, Holds-put, Linked-put, count_place-left, count_place-right}

-- What `relink` makes of the nodes.
abbrev pub relinked : (ℕ → Node) → ℕ → ℕ → ℕ → ℕ → Node
relinked nodes p x y =
    if p == 0
    then nodes
    else (if (nodes p).left == x
        then put nodes p (record (nodes p) { left = y })
        else put nodes p (record (nodes p) { right = y }))

pub addr-ne : (x : ℕ) (t : Shape) → x ≢ 0 → count x t ≡ 0 → addr t ≢ x
unfolding count
addr-ne x leaf some none e = some (sym e)
addr-ne x (fork a c l r) some none e = ground arith

Linked-left :
    (nodes : ℕ → Node) (a x r p y : ℕ) (c : Colour)
    → Linked nodes a x r p c
    → Linked (relinked nodes a x y) a y r p c
Linked-left nodes a x r p y c h =
    let e₁ = ==_ne a 0 h.some_node in
    let e₂ : ((nodes a).left == x) ≡ true = rw h.left_link (==_refl x) in
    let e₃ = ==_refl a in
    record {
      some_node = h.some_node;
      left_link = rw (e₁, e₂, e₃) refl;
      right_link = rw (e₁, e₂, e₃) h.right_link;
      parent_link = rw (e₁, e₂, e₃) h.parent_link;
      has_colour = rw (e₁, e₂, e₃) h.has_colour;
    }

pub Linked-right :
    (nodes : ℕ → Node) (a l x p y : ℕ) (c : Colour)
    → l ≢ x
    → Linked nodes a l x p c
    → Linked (relinked nodes a x y) a l y p c
Linked-right nodes a l x p y c ne h =
    let e₁ = ==_ne a 0 h.some_node in
    let e₂ : ((nodes a).left == x) ≡ false = rw h.left_link (==_ne l x ne) in
    let e₃ = ==_refl a in
    record {
      some_node = h.some_node;
      left_link = rw (e₁, e₂, e₃) h.left_link;
      right_link = rw (e₁, e₂, e₃) refl;
      parent_link = rw (e₁, e₂, e₃) h.parent_link;
      has_colour = rw (e₁, e₂, e₃) h.has_colour;
    }

-- Nothing but the node above the place changes.
pub Holds-relinked :
    (t : Shape) (nodes : ℕ → Node) (b x y p : ℕ)
    → count b t ≡ 0
    → Holds nodes p t
    → Holds (relinked nodes b x y) p t
Holds-relinked t nodes b x y p none h = elim (Bool-cases (b == 0)) [
  | inl e ↦ rw e h
  | inr e ↦ elim (Bool-cases ((nodes b).left == x)) [
    | inl e' ↦ rw (e, e') (Holds-put t nodes b _ p none h)
    | inr e' ↦ rw (e, e') (Holds-put t nodes b _ p none h)
  ]
]

pub Linked-relinked :
    (nodes : ℕ → Node) (b x y a l r p : ℕ) (c : Colour)
    → a ≢ b
    → Linked nodes a l r p c
    → Linked (relinked nodes b x y) a l r p c
Linked-relinked nodes b x y a l r p c ne h = elim (Bool-cases (b == 0)) [
  | inl e ↦ rw e h
  | inr e ↦ elim (Bool-cases ((nodes b).left == x)) [
    | inl e' ↦ rw (e, e') (Linked-put nodes b _ a l r p c ne h)
    | inr e' ↦ rw (e, e') (Linked-put nodes b _ a l r p c ne h)
  ]
]

pub Around-relinked_frame :
    (k : Place) (nodes : ℕ → Node) (root hole b x y : ℕ)
    → count_place b k ≡ 0
    → Around nodes root hole k
    → Around (relinked nodes b x y) root hole k
Around-relinked_frame k nodes root hole b x y none h = elim (Bool-cases (b == 0)) [
  | inl e ↦ rw e h
  | inr e ↦ elim (Bool-cases ((nodes b).left == x)) [
    | inl e' ↦ rw (e, e') (Around-put k nodes root hole b _ none h)
    | inr e' ↦ rw (e, e') (Around-put k nodes root hole b _ none h)
  ]
]

pub once-left :
    (a : ℕ) (c : Colour) (r : Shape) (k : Place)
    → count_place a (left_of a c r k) ≤ 1
    → (count a r ≡ 0) × (count_place a k ≡ 0)
unfolding count_place
once-left a c r k h = let e = ==_refl a in ground arith

pub once-right :
    (a : ℕ) (c : Colour) (l : Shape) (k : Place)
    → count_place a (right_of a c l k) ≤ 1
    → (count a l ≡ 0) × (count_place a k ≡ 0)
unfolding count_place
once-right a c l k h = let e = ==_refl a in ground arith

-- The place points to the new subtree, and else stays.
pub Around-relinked :
    (k : Place) (nodes : ℕ → Node) (root x y : ℕ)
    → x ≢ 0
    → count_place x k ≡ 0
    → ((a : ℕ) → count_place a k ≤ 1)
    → Around nodes root x k
    → Around (relinked nodes (above k) x y) (if above k == 0 then y else root) y k
Around-relinked top nodes root x y some none once h = refl
Around-relinked (left_of a c r k) nodes root x y some none once (node, right, up) =
    let (none_r, none_k) = once-left a c r k (once a) in
    let same : (if a == 0 then y else root) ≡ root = rw (==_ne a 0 node.some_node) refl in
    (
      Linked-left nodes a x (addr r) (above k) y c node,
      Holds-relinked r nodes a x y a none_r right,
      subst (λ r. Around (relinked nodes a x y) r a k) (sym same)
          (Around-relinked_frame k nodes root a a x y none_k up),
    )
Around-relinked (right_of a c l k) nodes root x y some none once (node, left, up) =
    let (none_l, none_k) = once-right a c l k (once a) in
    let same : (if a == 0 then y else root) ≡ root = rw (==_ne a 0 node.some_node) refl in
    let differs = addr-ne x l some (count_place-right x a c l k none).1 in
    (
      Linked-right nodes a (addr l) x (above k) y c differs node,
      Holds-relinked l nodes a x y a none_l left,
      subst (λ r. Around (relinked nodes a x y) r a k) (sym same)
          (Around-relinked_frame k nodes root a a x y none_k up),
    )

pub count-above_left :
    (a : ℕ) (c : Colour) (r : Shape) (k : Place) → 1 ≤ count_place a (left_of a c r k)
unfolding count_place
count-above_left a c r k = let e = ==_refl a in ground arith

pub count-above_right :
    (a : ℕ) (c : Colour) (l : Shape) (k : Place) → 1 ≤ count_place a (right_of a c l k)
unfolding count_place
count-above_right a c l k = let e = ==_refl a in ground arith

-- The node above a place, where there is one, is none of a tree below it.
pub Holds-relinked_above :
    (k : Place) (t : Shape) (nodes : ℕ → Node) (x y p : ℕ)
    → ((a : ℕ) → 1 ≤ count_place a k → count a t ≡ 0)
    → Holds nodes p t
    → Holds (relinked nodes (above k) x y) p t
Holds-relinked_above top t nodes x y p apart h = h
Holds-relinked_above (left_of a c r k) t nodes x y p apart h =
    Holds-relinked t nodes a x y p (apart a (count-above_left a c r k)) h
Holds-relinked_above (right_of a c l k) t nodes x y p apart h =
    Holds-relinked t nodes a x y p (apart a (count-above_right a c l k)) h

pub Linked-relinked_above :
    (k : Place) (nodes : ℕ → Node) (x y a l r p : ℕ) (c : Colour)
    → count_place a k ≡ 0
    → Linked nodes a l r p c
    → Linked (relinked nodes (above k) x y) a l r p c
Linked-relinked_above top nodes x y a l r p c none h = h
Linked-relinked_above (left_of b d s k) nodes x y a l r p c none h =
    Linked-relinked nodes b x y a l r p c (count_place-left a b d s k none).0 h
Linked-relinked_above (right_of b d s k) nodes x y a l r p c none h =
    Linked-relinked nodes b x y a l r p c (count_place-right a b d s k none).0 h
