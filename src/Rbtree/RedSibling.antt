-- ===== src/Rbtree/RedSibling.antt =====
-- A red sibling in `rbt_delete_fix` of kernel/lib/ds/rbtree.c, which becomes the grandparent.
use yaeos.Prelude.{ℕ, ◌≡◌, refl, ◌∙◌, Outcome, ok, ◌>>=◌}
use yaeos.Rbtree.{Colour, black, red, Store, rbt_set_colour, rbt_get_parent}
use yaeos.Rbtree.Shape.{Shape, leaf, fork, Place, left_of, right_of}
use yaeos.Rbtree.Rotate.{StandsIn}
use yaeos.Rbtree.Climb.{descend_left, descend_right, rbt_set_colour-Final}
use yaeos.Rbtree.Content.{SameContent}
use yaeos.Rbtree.Sibling.{left-Siblings, right-Siblings}
use yaeos.Rbtree.Turns.{paint_left-Final, paint_right-Final}
use yaeos.Rbtree.{rbt_get_sibling, rbt_rotate_left, rbt_rotate_right}
use yaeos.Rbtree.Rotate.{rbt_rotate_left-Leaves, rbt_rotate_right-Leaves}
use yaeos.Rbtree.Delete.{blacken_sibling}

-- The rotation, the two colours, and the next node and sibling.
abbrev blacken : Store → ℕ → ℕ → ℕ → Outcome Store → Outcome (Store × ℕ × ℕ)
blacken s node parent sibling rotated = do
  s₁ ← rotated
  s₂ ← rbt_set_colour s₁ sibling black
  s₃ ← rbt_set_colour s₂ parent red
  parent₁ ← rbt_get_parent s₃ node
  sibling₁ ← rbt_get_sibling s₃ node
  ok (s₃, parent₁, sibling₁)

module _ (s : Store) (k : Place) (x p b d : ℕ) (cx cd : Colour) (xl xr t dl dr : Shape) where
  blacken_sibling-start_left :
      StandsIn s k (fork p black (fork x cx xl xr) (fork b red (fork d cd dl dr) t))
      → blacken_sibling s x ≡ blacken s x p b (rbt_rotate_left s p)
  unfolding blacken_sibling
  blacken_sibling-start_left h =
      let f = left-Siblings s k x p b cx black red xl xr (fork d cd dl dr) t h in
      simp (f.parent, f.sibling, f.colour, f.above, f.from_right) refl

  pub blacken_sibling-red_left :
      StandsIn s k (fork p black (fork x cx xl xr) (fork b red (fork d cd dl dr) t))
      → (s' : Store) × (blacken_sibling s x ≡ ok (s', p, d))
        × StandsIn s' k (fork b black (fork p red (fork x cx xl xr) (fork d cd dl dr)) t)
        × SameContent s.node s'.node
  blacken_sibling-red_left h =
      let (s₁, run₁, h₁, same₁) =
        rbt_rotate_left-Leaves k p b black red (fork x cx xl xr) (fork d cd dl dr) t s h in
      let (s₂, run₂, h₂, same₂) =
        rbt_set_colour-Final s₁ k b red (fork p black (fork x cx xl xr) (fork d cd dl dr)) t black
          h₁ in
      let (s₃, run₃, h₃, same₃) =
        paint_left-Final s₂ k b black leaf t red p black (fork x cx xl xr) (fork d cd dl dr) h₂ in
      let f =
        left-Siblings s₃ (left_of b black t k) x p d cx red cd xl xr dl dr
          (descend_left s₃ k b black (fork p red (fork x cx xl xr) (fork d cd dl dr)) t h₃) in
      (
        s₃,
        blacken_sibling-start_left h ∙ simp (run₁, run₂, run₃, f.parent, f.sibling) refl,
        h₃,
        λ a. same₃ a ∙ same₂ a ∙ same₁ a,
      )

  blacken_sibling-start_right :
      StandsIn s k (fork p black (fork b red t (fork d cd dl dr)) (fork x cx xl xr))
      → blacken_sibling s x ≡ blacken s x p b (rbt_rotate_right s p)
  unfolding blacken_sibling
  blacken_sibling-start_right h =
      let f = right-Siblings s k x p b cx black red xl xr t (fork d cd dl dr) h in
      simp (f.parent, f.sibling, f.colour, f.above, f.from_right) refl

  pub blacken_sibling-red_right :
      StandsIn s k (fork p black (fork b red t (fork d cd dl dr)) (fork x cx xl xr))
      → (s' : Store) × (blacken_sibling s x ≡ ok (s', p, d))
        × StandsIn s' k (fork b black t (fork p red (fork d cd dl dr) (fork x cx xl xr)))
        × SameContent s.node s'.node
  blacken_sibling-red_right h =
      let (s₁, run₁, h₁, same₁) =
        rbt_rotate_right-Leaves k p b black red t (fork d cd dl dr) (fork x cx xl xr) s h in
      let (s₂, run₂, h₂, same₂) =
        rbt_set_colour-Final s₁ k b red t (fork p black (fork d cd dl dr) (fork x cx xl xr)) black
          h₁ in
      let (s₃, run₃, h₃, same₃) =
        paint_right-Final s₂ k b black t leaf red p black (fork d cd dl dr) (fork x cx xl xr) h₂ in
      let f =
        right-Siblings s₃ (right_of b black t k) x p d cx red cd xl xr dl dr
          (descend_right s₃ k b black t (fork p red (fork d cd dl dr) (fork x cx xl xr)) h₃) in
      (
        s₃,
        blacken_sibling-start_right h ∙ simp (run₁, run₂, run₃, f.parent, f.sibling) refl,
        h₃,
        λ a. same₃ a ∙ same₂ a ∙ same₁ a,
      )
