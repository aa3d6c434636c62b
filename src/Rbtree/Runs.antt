-- ===== src/Rbtree/Runs.antt =====
-- What the assignments of kernel/lib/ds/rbtree.c make of the nodes, in closed form.
use yaeos.Prelude.{
  ℕ, ◌≡◌, ◌≢◌, refl, ◌∙◌, inl, inr, Bool-cases, ◌==◌, ==_ne, if◌then◌else◌, Outcome, ok, ◌>>=◌,
}
use yaeos.Rbtree.{
  Store, put, load, set_left, set_right, try_set_parent, relink, rbt_set_parent, rbt_get_parent,
  rbt_replace_subtree, rbt_rotate_left, rbt_rotate_right,
}
use yaeos.Rbtree.Relink.{relinked}
use yaeos.Rbtree.Reparent.{reparented}

pub relink-run :
    (s : Store) (p x y : ℕ)
    → relink s p x y
      ≡ ok (record { root = if p == 0 then y else s.root; node = relinked s.node p x y })
unfolding relink
relink-run s p x y = elim (Bool-cases (p == 0)) [
  | inl e ↦ rw e refl
  | inr e ↦ elim (Bool-cases ((s.node p).left == x)) [
    | inl e' ↦ rw (e, e') refl
    | inr e' ↦ rw (e, e') refl
  ]
]

pub try_set_parent-run :
    (s : Store) (b p : ℕ) → try_set_parent s b p ≡ ok (record s { node = reparented s.node b p })
unfolding try_set_parent rbt_set_parent
try_set_parent-run s b p = elim (Bool-cases (b == 0)) [ inl e ↦ rw e refl | inr e ↦ rw e refl ]

-- The subtree `x` under `p` makes way for `y`.
unfoldable pub replaced : Store → ℕ → ℕ → ℕ → Store
replaced s p x y = record {
  root = if p == 0 then y else s.root;
  node = reparented (relinked s.node p x y) y p;
}

pub replace-run :
    (s : Store) (p x y : ℕ)
    → x ≢ 0
    → (s.node x).parent ≡ p
    → rbt_replace_subtree s x y ≡ ok (replaced s p x y)
unfolding rbt_replace_subtree rbt_get_parent replaced
replace-run s p x y some up =
    let e = ==_ne x 0 some in rw (e, up, relink-run s p x y) (try_set_parent-run _ y p)

-- The end of a rotation to the left and to the right.
unfoldable pub turned_left : Store → ℕ → ℕ → ℕ → Store
turned_left s x y b =
    let n₁ = put s.node x (record (s.node x) { right = b }) in
    let n₂ = reparented n₁ b x in
    let n₃ = put n₂ y (record (n₂ y) { left = x }) in
    record s { node = put n₃ x (record (n₃ x) { parent = y }) }

unfoldable pub turned_right : Store → ℕ → ℕ → ℕ → Store
turned_right s x y b =
    let n₁ = put s.node x (record (s.node x) { left = b }) in
    let n₂ = reparented n₁ b x in
    let n₃ = put n₂ y (record (n₂ y) { right = x }) in
    record s { node = put n₃ x (record (n₃ x) { parent = y }) }

-- The statements of `rbt_rotate_left` after the first.
unfoldable finish_left : Store → ℕ → ℕ → Outcome Store
finish_left s x y = do
  new ← load s y
  s₂ ← set_right s x new.left
  s₃ ← try_set_parent s₂ new.left x
  s₄ ← set_left s₃ y x
  rbt_set_parent s₄ x y

finish_left-run :
    (s : Store) (x y b : ℕ)
    → x ≢ 0
    → y ≢ 0
    → (s.node y).left ≡ b
    → finish_left s x y ≡ ok (turned_left s x y b)
unfolding finish_left turned_left rbt_set_parent
finish_left-run s x y b some_x some_y middle =
    let ex = ==_ne x 0 some_x in
    let ey = ==_ne y 0 some_y in
    let parent =
      try_set_parent-run (record s { node = put s.node x (record (s.node x) { right = b }) }) b x in
    rw (ey, middle, ex, parent) refl

rotate_left-start :
    (s s₁ : Store) (x y : ℕ)
    → x ≢ 0
    → (s.node x).right ≡ y
    → rbt_replace_subtree s x y ≡ ok s₁
    → rbt_rotate_left s x ≡ finish_left s₁ x y
unfolding rbt_rotate_left finish_left
rotate_left-start s s₁ x y some down first = rw (==_ne x 0 some, down, first) refl

pub rotate_left-run :
    (s : Store) (p x y b : ℕ)
    → x ≢ 0
    → y ≢ 0
    → (s.node x).right ≡ y
    → (s.node x).parent ≡ p
    → ((replaced s p x y).node y).left ≡ b
    → rbt_rotate_left s x ≡ ok (turned_left (replaced s p x y) x y b)
rotate_left-run s p x y b some_x some_y down up middle =
    rotate_left-start s (replaced s p x y) x y some_x down (replace-run s p x y some_x up)
    ∙ finish_left-run (replaced s p x y) x y b some_x some_y middle

-- The statements of `rbt_rotate_right` after the first.
unfoldable finish_right : Store → ℕ → ℕ → Outcome Store
finish_right s x y = do
  new ← load s y
  s₂ ← set_left s x new.right
  s₃ ← try_set_parent s₂ new.right x
  s₄ ← set_right s₃ y x
  rbt_set_parent s₄ x y

finish_right-run :
    (s : Store) (x y b : ℕ)
    → x ≢ 0
    → y ≢ 0
    → (s.node y).right ≡ b
    → finish_right s x y ≡ ok (turned_right s x y b)
unfolding finish_right turned_right rbt_set_parent
finish_right-run s x y b some_x some_y middle =
    let ex = ==_ne x 0 some_x in
    let ey = ==_ne y 0 some_y in
    let parent =
      try_set_parent-run (record s { node = put s.node x (record (s.node x) { left = b }) }) b x in
    rw (ey, middle, ex, parent) refl

rotate_right-start :
    (s s₁ : Store) (x y : ℕ)
    → x ≢ 0
    → (s.node x).left ≡ y
    → rbt_replace_subtree s x y ≡ ok s₁
    → rbt_rotate_right s x ≡ finish_right s₁ x y
unfolding rbt_rotate_right finish_right
rotate_right-start s s₁ x y some down first = rw (==_ne x 0 some, down, first) refl

pub rotate_right-run :
    (s : Store) (p x y b : ℕ)
    → x ≢ 0
    → y ≢ 0
    → (s.node x).left ≡ y
    → (s.node x).parent ≡ p
    → ((replaced s p x y).node y).right ≡ b
    → rbt_rotate_right s x ≡ ok (turned_right (replaced s p x y) x y b)
rotate_right-run s p x y b some_x some_y down up middle =
    rotate_right-start s (replaced s p x y) x y some_x down (replace-run s p x y some_x up)
    ∙ finish_right-run (replaced s p x y) x y b some_x some_y middle
