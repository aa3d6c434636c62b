-- ===== src/Rbtree/SwapRun.antt =====
-- The two halves of `rbt_swap_nodes` in kernel/lib/ds/rbtree.c.
use yaeos.Prelude.{
  ℕ, ◌≡◌, ◌≢◌, refl, ap, ◌∙◌, ◌==◌, ==_ne, ==_refl, if◌then◌else◌, Outcome, ok, ◌>>=◌, ◌>>◌,
  kassert,
}
use mathlib.Core.Path.{subst}
use yaeos.Rbtree.{Store, put, rbt_set_parent, is_null}
use yaeos.Rbtree.Shape.{Shape, Place, top, left_of, right_of, above}
use yaeos.Rbtree.Relink.{relinked}
use yaeos.Rbtree.Parts.{Links}
use yaeos.Rbtree.Content.{put-SameContent, relinked-SameContent}
use yaeos.Rbtree.Climb.{Final}
use yaeos.Rbtree.Spine.{Spine}
use yaeos.Rbtree.Swap.{SwapOnce, SwapParts, SwapParts-second, SwapParts-relink}
use yaeos.Rbtree.SwapSteps.{PartsIn, replace_child-run, parent_second}
use yaeos.Rbtree.Delete.{replace_child}

-- The reference to `x` goes to `y`.
abbrev pub move : Store → ℕ → ℕ → ℕ → Outcome Store
move s₂ x y parent =
    let at_root = (do
      kassert (s₂.root == x)
      s₃ ← rbt_set_parent s₂ y 0
      ok (record s₃ { root = y })) in
    let below = replace_child s₂ parent x y >>= (λ s₃. rbt_set_parent s₃ y parent) in
    if is_null parent then at_root else below

move-start :
    (s : Store) (x y p : ℕ)
    → p ≢ 0
    → move s x y p ≡ (replace_child s p x y >>= (λ s₃. rbt_set_parent s₃ y p))
move-start s x y p some = rw (==_ne p 0 some) refl

move-below :
    (s : Store) (x y p : ℕ)
    → p ≢ 0
    → move s x y p ≡ rbt_set_parent (record s { node = relinked s.node p x y }) y p
move-below s x y p some =
    move-start s x y p some
    ∙ ap (λ o. o >>= (λ s₃. rbt_set_parent s₃ y p)) (replace_child-run s p x y some)

module _ (x y : ℕ) (tl tr : Shape) (m : Spine) (s : Store) (lx ly : Links) (pl pr pm hm : ℕ) where
  below-Final :
      (k : Place) (once : SwapOnce k x y tl tr m)
      → above k ≢ 0
      → PartsIn k x y tl tr m once x lx ly pl pr pm hm s
      → Final s
          (move s x y (above k))
          (PartsIn k x y tl tr m once y lx (record ly { parent = above k }) pl pr pm hm)
  below-Final k once some p =
      let e = ==_ne (above k) 0 some in
      let s₁ = record s { node = relinked s.node (above k) x y } in
      let p₁ =
        subst (λ r. SwapParts k x y tl tr m s₁.node r y lx ly pl pr pm hm) (rw e refl)
          (SwapParts-relink k x y tl tr m once y p refl) in
      let (s₂, run, p₂, same) =
        parent_second k x y tl tr m once s₁ y lx ly pl pr pm hm (above k) p₁ in
      (
        s₂,
        move-below s x y (above k) some ∙ run,
        p₂,
        λ a. same a ∙ relinked-SameContent s.node (above k) x y a,
      )

  pub move-Final :
      (k : Place) (once : SwapOnce k x y tl tr m)
      → PartsIn k x y tl tr m once x lx ly pl pr pm hm s
      → Final s
          (move s x y (above k))
          (PartsIn k x y tl tr m once y lx (record ly { parent = above k }) pl pr pm hm)
  unfolding rbt_set_parent
  move-Final top once p =
      let h = p.second in
      let here : s.root ≡ x = p.around in
      let v = record (s.node y) { parent = 0 } in
      (
        record { root = y; node = put s.node y v },
        simp (here, ==_refl x, ==_ne y 0 h.some_node) refl,
        SwapParts-second top x y tl tr m once v (record ly { parent = 0 })
            (h.left_link, h.right_link, refl, h.has_colour)
            (SwapParts-relink top x y tl tr m once y p refl),
        put-SameContent s.node y v refl,
      )
  move-Final (left_of a c r k) once p = below-Final (left_of a c r k) once p.around.0.some_node p
  move-Final (right_of a c l k) once p = below-Final (right_of a c l k) once p.around.0.some_node p
