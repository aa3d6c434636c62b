-- ===== src/Rbtree/LiftOver.antt =====
-- The first half of `rbt_swap_nodes` in kernel/lib/ds/rbtree.c.
use yaeos.Prelude.{
  ℕ, ◌≡◌, refl, ap, ◌∙◌, arith, ◌==◌, ==_ne, ==_refl, if◌then◌else◌, Outcome, ◌>>=◌,
}
use yaeos.Rbtree.{
  Colour, Store, set_left, set_right, rbt_set_colour, rbt_get_colour, rbt_get_parent,
  rbt_set_parent, try_set_parent,
}
use yaeos.Rbtree.Shape.{Shape, addr, Place, above}
use yaeos.Rbtree.Relink.{addr-ne}
use yaeos.Rbtree.Reparent.{reparented}
use yaeos.Rbtree.Runs.{try_set_parent-run}
use yaeos.Rbtree.Content.{reparented-SameContent}
use yaeos.Rbtree.Parts.{Links}
use yaeos.Rbtree.Climb.{Final, Final->>=}
use yaeos.Rbtree.Spine.{Spine, tip, down}
use yaeos.Rbtree.Line.{rbt_get_parent-run}
use yaeos.Rbtree.SwapSpine.{SwapParts-head}
use yaeos.Rbtree.Swap.{SwapOnce}
use yaeos.Rbtree.SwapSteps.{
  PartsIn, parent_second, left_second, right_second, colour_second, reparent_right,
}
use yaeos.Rbtree.SwapRun.{move, move-Final}
use yaeos.Rbtree.Delete.{lift_over}

-- A run in another form.
pub Final-from :
    (s : Store) (run run' : Outcome Store) (Q : Store → Type 0)
    → run ≡ run'
    → Final s run' Q
    → Final s run Q
Final-from s run run' Q e (s₁, ends, q, same) = (s₁, e ∙ ends, q, same)

-- The statements of `lift_over` from the last on.
abbrev lift_colour : ℕ → ℕ → Store → Outcome Store
lift_colour x y s = rbt_get_colour s x >>= (λ colour. rbt_set_colour s y colour)

abbrev lift_right : ℕ → ℕ → Store → Outcome Store
lift_right x y s =
    set_right s y (if (s.node x).right == y then x else (s.node x).right) >>= lift_colour x y

abbrev lift_left : ℕ → ℕ → Store → Outcome Store
lift_left x y s =
    set_left s y (if (s.node x).left == y then x else (s.node x).left) >>= lift_right x y

abbrev lift_parent : ℕ → ℕ → Store → Outcome Store
lift_parent x y s = rbt_get_parent s x >>= (λ parent. move s x y parent >>= lift_left x y)

abbrev lift_below : ℕ → ℕ → Store → Outcome Store
lift_below x y s = try_set_parent s (s.node x).right y >>= lift_parent x y

lift_over-start :
    (s : Store) (x y : ℕ)
    → lift_over s x y ≡ (try_set_parent s (s.node x).left y >>= lift_below x y)
unfolding lift_over
lift_over-start s x y = refl

module _ (k : Place) (x y : ℕ) (tl tr : Shape) (m : Spine) (once : SwapOnce k x y tl tr m)
    (c : Colour) (from : ℕ) (pl pm hm : ℕ) where
  -- The links of the first node, which stay.
  abbrev pub own : Links
  own = record { left = from; right = addr tr; parent = above k; colour = c }

  -- The child that `y` takes over.
  abbrev pub taken_child : ℕ
  taken_child = if from == y then x else from

  -- The links of the second node at the end.
  abbrev pub lifted : Links
  lifted = record { left = taken_child; right = addr tr; parent = above k; colour = c }

  lift_colour-Final :
      (s : Store) (d : Colour)
      → PartsIn k x y tl tr m once y own (record lifted { colour = d }) pl y pm hm s
      → Final s (lift_colour x y s) (PartsIn k x y tl tr m once y own lifted pl y pm hm)
  unfolding rbt_get_colour
  lift_colour-Final s d p =
      let h = p.first in
      Final-from s (lift_colour x y s) (rbt_set_colour s y c) _
        (rw (==_ne x 0 h.some_node, h.has_colour) refl)
        (colour_second k x y tl tr m once s y own (record lifted { colour = d }) pl y pm hm c p)

  lift_right-Final :
      (s : Store) (d : Colour) (v : ℕ)
      → PartsIn k x y tl tr m once y own (record lifted { colour = d; right = v }) pl y pm hm s
      → Final s (lift_right x y s) (PartsIn k x y tl tr m once y own lifted pl y pm hm)
  lift_right-Final s d v p =
      let o = once y in
      let e = ==_refl y in
      let other = addr-ne y tr p.second.some_node (ground arith) in
      Final-from s (lift_right x y s) (set_right s y (addr tr) >>= lift_colour x y) _
        (rw (p.first.right_link, ==_ne (addr tr) y other) refl)
        (Final->>= s (set_right s y (addr tr)) (lift_colour x y) _ _
          (right_second k x y tl tr m once s y own (record lifted { colour = d; right = v }) pl y pm
            hm (addr tr) p)
          (λ s₁ p₁. lift_colour-Final s₁ d p₁))

  lift_left-Final :
      (s : Store) (d : Colour) (u v : ℕ)
      → PartsIn k x y tl tr m once y own
          (record { left = u; right = v; parent = above k; colour = d })
          pl
          y
          pm
          hm
          s
      → Final s (lift_left x y s) (PartsIn k x y tl tr m once y own lifted pl y pm hm)
  lift_left-Final s d u v p =
      Final-from s (lift_left x y s) (set_left s y taken_child >>= lift_right x y) _
        (rw (p.first.left_link) refl)
        (Final->>= s (set_left s y taken_child) (lift_right x y) _ _
          (left_second k x y tl tr m once s y own
            (record { left = u; right = v; parent = above k; colour = d }) pl y pm hm taken_child p)
          (λ s₁ p₁. lift_right-Final s₁ d v p₁))

  lift_parent-Final :
      (s : Store) (ly : Links)
      → PartsIn k x y tl tr m once x own ly pl y pm hm s
      → Final s (lift_parent x y s) (PartsIn k x y tl tr m once y own lifted pl y pm hm)
  lift_parent-Final s ly p =
      Final-from s (lift_parent x y s) (move s x y (above k) >>= lift_left x y) _
        (ap (λ o. o >>= (λ parent. move s x y parent >>= lift_left x y))
          (rbt_get_parent-run s x (above k) p.first.some_node p.first.parent_link))
        (Final->>= s (move s x y (above k)) (lift_left x y) _ _
          (move-Final x y tl tr m s own ly pl y pm hm k once p)
          (λ s₁ p₁. lift_left-Final s₁ ly.colour ly.left ly.right p₁))

  pub lift_below-Final :
      (s : Store) (ly : Links) (pr : ℕ)
      → PartsIn k x y tl tr m once x own ly pl pr pm hm s
      → Final s (lift_below x y s) (PartsIn k x y tl tr m once y own lifted pl y pm hm)
  lift_below-Final s ly pr p =
      Final-from s (lift_below x y s) (try_set_parent s (addr tr) y >>= lift_parent x y) _
        (rw (p.first.right_link) refl)
        (Final->>= s (try_set_parent s (addr tr) y) (lift_parent x y) _ _
          (reparent_right k x y tl tr m once s x own ly pl pr pm hm y p)
          (λ s₁ p₁. lift_parent-Final s₁ ly p₁))

module _ (k : Place) (x y : ℕ) (tl tr : Shape) (c : Colour) (pl pr pm hm : ℕ) (s : Store)
    (ly : Links) where
  -- The second node is the left child.
  pub lift_over-tip :
      (once : SwapOnce k x y tl tr tip)
      → PartsIn k x y tl tr tip once x
          (record { left = y; right = addr tr; parent = above k; colour = c })
          ly
          pl
          pr
          pm
          hm
          s
      → Final s (lift_over s x y) (
          PartsIn k x y tl tr tip once y
            (own k x y tl tr tip once c y pl pm hm)
            (lifted k x y tl tr tip once c y pl pm hm)
            pl
            y
            pm
            hm)
  unfolding try_set_parent
  lift_over-tip once p =
      Final-from s (lift_over s x y) (rbt_set_parent s y y >>= lift_below x y) _
        (lift_over-start s x y ∙ (rw (p.first.left_link, ==_ne y 0 p.second.some_node) refl))
        (Final->>= s (rbt_set_parent s y y) (lift_below x y) _ _
          (parent_second k x y tl tr tip once s x (own k x y tl tr tip once c y pl pm hm) ly pl pr
            pm hm y p)
          (λ s₁ p₁.
            lift_below-Final k x y tl tr tip once c y pl pm hm s₁ (record ly { parent = y }) pr p₁))

  -- The second node stands further down.
  pub lift_over-down :
      (a : ℕ) (e : Colour) (l : Shape) (m : Spine) (once : SwapOnce k x y tl tr (down a e l m))
      → PartsIn k x y tl tr
          (down a e l m)
          once
          x
          (record { left = a; right = addr tr; parent = above k; colour = c })
          ly
          pl
          pr
          pm
          hm
          s
      → Final s (lift_over s x y) (
          PartsIn k x y tl tr
            (down a e l m)
            once
            y
            (own k x y tl tr (down a e l m) once c a pl y hm)
            (lifted k x y tl tr (down a e l m) once c a pl y hm)
            pl
            y
            y
            hm)
  lift_over-down a e l m once p =
      let s₁ = record s { node = reparented s.node a y } in
      let (s₂, run, p₂, same) =
        lift_below-Final k x y tl tr (down a e l m) once c a pl y hm s₁ ly pr
          (SwapParts-head k x y a e tl tr l m once y p) in
      (
        s₂,
        lift_over-start s x y ∙ rw (p.first.left_link, try_set_parent-run s a y) run,
        p₂,
        λ b. same b ∙ reparented-SameContent s.node a y b,
      )
