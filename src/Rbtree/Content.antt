-- ===== src/Rbtree/Content.antt =====
-- The contents of the nodes under the changes of their links in kernel/lib/ds/rbtree.c.
use yaeos.Prelude.{ℕ, ◌≡◌, refl, ap, ◌∙◌, arith, inl, inr, Bool-cases, ◌==◌}
use yaeos.Rbtree.{Node, Store, put}
use yaeos.Rbtree.Relink.{relinked}
use yaeos.Rbtree.Reparent.{reparented}
use yaeos.Rbtree.Runs.{replaced, turned_left, turned_right}

abbrev pub SameContent : (ℕ → Node) → (ℕ → Node) → Type 0
SameContent m n = (a : ℕ) → (n a).content ≡ (m a).content

pub put-SameContent :
    (nodes : ℕ → Node) (b : ℕ) (v : Node)
    → v.content ≡ (nodes b).content
    → SameContent nodes (put nodes b v)
put-SameContent nodes b v same a = elim (Bool-cases (a == b)) [
  | inl e ↦ let there : b ≡ a = ground arith in rw e (same ∙ ap (λ i. (nodes i).content) there)
  | inr e ↦ rw e refl
]

pub reparented-SameContent : (nodes : ℕ → Node) (b p : ℕ) → SameContent nodes (reparented nodes b p)
reparented-SameContent nodes b p = elim (Bool-cases (b == 0)) [
  | inl e ↦ rw e (λ a. refl)
  | inr e ↦ rw e (put-SameContent nodes b _ refl)
]

pub relinked-SameContent : (nodes : ℕ → Node) (p x y : ℕ) → SameContent nodes (relinked nodes p x y)
relinked-SameContent nodes p x y = elim (Bool-cases (p == 0)) [
  | inl e ↦ rw e (λ a. refl)
  | inr e ↦ elim (Bool-cases ((nodes p).left == x)) [
    | inl e' ↦ rw (e, e') (put-SameContent nodes p _ refl)
    | inr e' ↦ rw (e, e') (put-SameContent nodes p _ refl)
  ]
]

pub replaced-SameContent : (s : Store) (p x y : ℕ) → SameContent s.node (replaced s p x y).node
unfolding replaced
replaced-SameContent s p x y a =
    reparented-SameContent (relinked s.node p x y) y p a ∙ relinked-SameContent s.node p x y a

pub turned_left-SameContent :
    (s : Store) (x y b : ℕ) → SameContent s.node (turned_left s x y b).node
unfolding turned_left
turned_left-SameContent s x y b a =
    let n₁ = put s.node x (record (s.node x) { right = b }) in
    let n₂ = reparented n₁ b x in
    let n₃ = put n₂ y (record (n₂ y) { left = x }) in
    put-SameContent n₃ x (record (n₃ x) { parent = y }) refl a
    ∙ put-SameContent n₂ y (record (n₂ y) { left = x }) refl a
    ∙ reparented-SameContent n₁ b x a
    ∙ put-SameContent s.node x (record (s.node x) { right = b }) refl a

pub turned_right-SameContent :
    (s : Store) (x y b : ℕ) → SameContent s.node (turned_right s x y b).node
unfolding turned_right
turned_right-SameContent s x y b a =
    let n₁ = put s.node x (record (s.node x) { left = b }) in
    let n₂ = reparented n₁ b x in
    let n₃ = put n₂ y (record (n₂ y) { right = x }) in
    put-SameContent n₃ x (record (n₃ x) { parent = y }) refl a
    ∙ put-SameContent n₂ y (record (n₂ y) { right = x }) refl a
    ∙ reparented-SameContent n₁ b x a
    ∙ put-SameContent s.node x (record (s.node x) { left = b }) refl a
