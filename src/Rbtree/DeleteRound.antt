-- ===== src/Rbtree/DeleteRound.antt =====
-- One round of the loop of `rbt_delete_fix` in kernel/lib/ds/rbtree.c.
use yaeos.Prelude.{
  ℕ, suc, ◌≡◌, ◌≢◌, refl, Bool, true, false, not, ◌&&◌, ◌||◌, ==_ne, if◌then◌else◌, Outcome, ok,
  ◌>>=◌,
}
use yaeos.Rbtree.{
  Colour, black, red, is_red, Store, load, rbt_set_colour, rbt_get_colour, rbt_get_parent,
}
use yaeos.Rbtree.Line.{rbt_get_parent-run}
use yaeos.Rbtree.Sibling.{Siblings}
use yaeos.Rbtree.LastTurn.{settle}
use yaeos.Rbtree.Delete.{blacken_sibling, outward, settle_parent, rbt_delete_fix}

-- The statements of a round after the sibling is black.
abbrev pub beside : ℕ → Store → ℕ → ℕ → ℕ → Outcome Store
beside fuel s₁ node parent sibling = do
  near ← load s₁ sibling
  left ← rbt_get_colour s₁ near.left
  right ← rbt_get_colour s₁ near.right
  colour ← rbt_get_colour s₁ sibling
  above ← rbt_get_colour s₁ parent
  let up = (do
    s₂ ← rbt_set_colour s₁ sibling red
    node₁ ← rbt_get_parent s₂ node
    rbt_delete_fix fuel s₂ node₁)
  let repaint = rbt_set_colour s₁ sibling red >>= (λ s₂. rbt_set_colour s₂ parent black)
  let turn = outward s₁ node parent sibling >>= (λ s₂. settle_parent s₂ node)
  if not (is_red colour) && (not (is_red left) && not (is_red right))
      then (if is_red above then repaint else up)
      else (if is_red colour then settle_parent s₁ node else turn)

module _ (fuel : ℕ) (s : Store) (x : ℕ) (some_x : x ≢ 0) where
  pub rbt_delete_fix-top : (s.node x).parent ≡ 0 → rbt_delete_fix (suc fuel) s x ≡ ok s
  unfolding rbt_delete_fix
  rbt_delete_fix-top up = simp (rbt_get_parent-run s x 0 some_x up) refl

  pub rbt_delete_fix-round :
      (s₁ : Store) (q p b : ℕ)
      → q ≢ 0
      → (s.node x).parent ≡ q
      → blacken_sibling s x ≡ ok (s₁, p, b)
      → rbt_delete_fix (suc fuel) s x ≡ beside fuel s₁ x p b
  unfolding rbt_delete_fix
  rbt_delete_fix-round s₁ q p b some up blackened =
      simp (rbt_get_parent-run s x q some_x up, ==_ne q 0 some, blackened) refl

module _ (fuel : ℕ) (s : Store) (x p b bl br : ℕ) (on_left : Bool) where
  pub beside-repaint :
      Siblings s x p b bl br on_left black red black black
      → beside fuel s x p b ≡ (rbt_set_colour s b red >>= (λ s₂. rbt_set_colour s₂ p black))
  beside-repaint f =
      simp (==_ne b 0 f.some_b, f.near_left, f.near_right, f.left, f.right, f.colour, f.above) refl

  pub beside-up :
      Siblings s x p b bl br on_left black black black black
      → beside fuel s x p b ≡ (
          rbt_set_colour s b red
          >>= (λ s₂. rbt_get_parent s₂ x >>= (λ n. rbt_delete_fix fuel s₂ n)))
  beside-up f =
      simp (==_ne b 0 f.some_b, f.near_left, f.near_right, f.left, f.right, f.colour, f.above) refl

  pub beside-settle :
      (cp cl cr : Colour)
      → (is_red cl || is_red cr) ≡ true
      → Siblings s x p b bl br on_left black cp cl cr
      → beside fuel s x p b ≡ settle s x p b
  beside-settle cp black black e f = absurd (clash e)
    where
      clash : ¬ (false ≡ true)
      clash e = cc
  beside-settle cp red black e f =
      simp (==_ne b 0 f.some_b, f.near_left, f.near_right, f.left, f.right, f.colour, f.above) refl
  beside-settle cp black red e f =
      simp (==_ne b 0 f.some_b, f.near_left, f.near_right, f.left, f.right, f.colour, f.above) refl
  beside-settle cp red red e f =
      simp (==_ne b 0 f.some_b, f.near_left, f.near_right, f.left, f.right, f.colour, f.above) refl
