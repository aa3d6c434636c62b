-- ===== src/Rbtree/PutDown.antt =====
-- The second half of `rbt_swap_nodes` in kernel/lib/ds/rbtree.c.
use yaeos.Prelude.{
  ℕ, ◌≡◌, ◌≢◌, refl, ap, ◌∙◌, arith, ◌==◌, ==_ne, ==_refl, if◌then◌else◌, Outcome, ok, ◌>>=◌, ◌>>◌,
  kassert,
}
use yaeos.Rbtree.{
  Colour, Node, Store, set_left, set_right, rbt_set_colour, rbt_set_parent, try_set_parent, is_null,
}
use yaeos.Rbtree.Shape.{Shape, addr, Place}
use yaeos.Rbtree.Relink.{relinked}
use yaeos.Rbtree.Content.{relinked-SameContent}
use yaeos.Rbtree.Parts.{Links}
use yaeos.Rbtree.Climb.{Final, Final->>=}
use yaeos.Rbtree.Spine.{Spine, tip, down, bottom, bottom-some, bottom-ne}
use yaeos.Rbtree.SwapSpine.{SwapParts-bottom}
use yaeos.Rbtree.Swap.{SwapOnce}
use yaeos.Rbtree.SwapSteps.{
  PartsIn, replace_child-run, parent_first, left_first, right_first, colour_first, reparent_left,
}
use yaeos.Rbtree.LiftOver.{Final-from}
use yaeos.Rbtree.Delete.{replace_child, put_down}

-- The statements of `put_down` from the last on.
abbrev down_right : Colour → ℕ → Store → Outcome Store
down_right d x s = set_right s x 0 >>= (λ s₁. rbt_set_colour s₁ x d)

abbrev down_left : ℕ → Colour → ℕ → Store → Outcome Store
down_left u d x s = set_left s x u >>= down_right d x

abbrev link_down : ℕ → ℕ → ℕ → Store → Outcome Store
link_down q x y s =
    let at_root = (do
      kassert (s.root == y)
      s₃ ← rbt_set_parent s x 0
      ok (record s₃ { root = x })) in
    let below = replace_child s q y x >>= (λ s₃. rbt_set_parent s₃ x q) in
    if is_null q then at_root else (if q == x then rbt_set_parent s x y else below)

abbrev down_parent : ℕ → ℕ → Colour → ℕ → ℕ → Store → Outcome Store
down_parent q u d x y s = link_down q x y s >>= down_left u d x

put_down-start :
    (s : Store) (x y u q : ℕ) (d : Colour) (copy : Node)
    → copy.left ≡ u
    → copy.right ≡ 0
    → copy.parent ≡ q
    → copy.colour ≡ d
    → put_down s x y copy ≡ (try_set_parent s u x >>= down_parent q u d x y)
unfolding put_down try_set_parent
put_down-start s x y u q d copy el er ep ec = simp (el, er, ep, ec) refl

link_down-tip : (s : Store) (x y : ℕ) → x ≢ 0 → link_down x x y s ≡ rbt_set_parent s x y
link_down-tip s x y some = rw (==_ne x 0 some, ==_refl x) refl

link_down-below :
    (s : Store) (q x y : ℕ)
    → q ≢ 0
    → q ≢ x
    → link_down q x y s ≡ rbt_set_parent (record s { node = relinked s.node q y x }) x q
link_down-below s q x y some ne =
    (rw (==_ne q 0 some, ==_ne q x ne) refl)
    ∙ ap (λ o. o >>= (λ s₃. rbt_set_parent s₃ x q)) (replace_child-run s q y x some)

module _ (k : Place) (x y : ℕ) (tl tr : Shape) (m : Spine) (once : SwapOnce k x y tl tr m)
    (hole : ℕ) (ly : Links) (d : Colour) (q pl pr pm hm : ℕ) where
  -- The links of the first node at the end.
  abbrev pub lowered : Links
  lowered = record { left = addr tl; right = 0; parent = q; colour = d }

  down_right-Final :
      (s : Store) (v : ℕ) (c : Colour)
      → PartsIn k x y tl tr m once hole
          (record { left = addr tl; right = v; parent = q; colour = c })
          ly
          pl
          pr
          pm
          hm
          s
      → Final s (down_right d x s) (PartsIn k x y tl tr m once hole lowered ly pl pr pm hm)
  down_right-Final s v c p =
      Final->>= s (set_right s x 0) (λ s₁. rbt_set_colour s₁ x d) _ _
        (right_first k x y tl tr m once s hole
          (record { left = addr tl; right = v; parent = q; colour = c }) ly pl pr pm hm 0 p)
        (λ s₁ p₁.
          colour_first k x y tl tr m once s₁ hole (record lowered { colour = c }) ly pl pr pm hm d
            p₁)

  down_left-Final :
      (s : Store) (u v : ℕ) (c : Colour)
      → PartsIn k x y tl tr m once hole
          (record { left = u; right = v; parent = q; colour = c })
          ly
          pl
          pr
          pm
          hm
          s
      → Final s (down_left (addr tl) d x s) (PartsIn k x y tl tr m once hole lowered ly pl pr pm hm)
  down_left-Final s u v c p =
      Final->>= s (set_left s x (addr tl)) (down_right d x) _ _
        (left_first k x y tl tr m once s hole
          (record { left = u; right = v; parent = q; colour = c }) ly pl pr pm hm (addr tl) p)
        (λ s₁ p₁. down_right-Final s₁ v c p₁)

module _ (k : Place) (x y : ℕ) (tl tr : Shape) (hole : ℕ) (lx ly : Links) (d : Colour)
    (pl pr pm : ℕ) (s : Store) (copy : Node) where
  -- The first node comes below the second one.
  pub put_down-tip :
      (hm : ℕ) (once : SwapOnce k x y tl tr tip)
      → copy.left ≡ addr tl
      → copy.right ≡ 0
      → copy.parent ≡ x
      → copy.colour ≡ d
      → PartsIn k x y tl tr tip once hole lx ly pl pr pm hm s
      → Final s (put_down s x y copy) (
          PartsIn k x y tl tr tip once hole
            (lowered k x y tl tr tip once hole ly d y x pr pm hm)
            ly
            x
            pr
            pm
            hm)
  put_down-tip hm once el er ep ec p =
      Final-from s (put_down s x y copy)
        (try_set_parent s (addr tl) x >>= down_parent x (addr tl) d x y) _
        (put_down-start s x y (addr tl) x d copy el er ep ec)
        (Final->>= s (try_set_parent s (addr tl) x) (down_parent x (addr tl) d x y) _ _
          (reparent_left k x y tl tr tip once s hole lx ly pl pr pm hm x p)
          (λ s₁ p₁.
            Final-from s₁ (down_parent x (addr tl) d x y s₁)
              (rbt_set_parent s₁ x y >>= down_left (addr tl) d x) _
              (ap (λ o. o >>= down_left (addr tl) d x) (link_down-tip s₁ x y p.first.some_node))
              (Final->>= s₁ (rbt_set_parent s₁ x y) (down_left (addr tl) d x) _ _
                (parent_first k x y tl tr tip once s₁ hole lx ly x pr pm hm y p₁)
                (λ s₂ p₂.
                  down_left-Final k x y tl tr tip once hole ly d y x pr pm hm s₂ lx.left lx.right
                    lx.colour p₂))))

  module _ (a : ℕ) (e : Colour) (l : Shape) (m : Spine)
      (once : SwapOnce k x y tl tr (down a e l m)) where
    -- The first node comes below the last node of the spine.
    link_down-Final :
        (s : Store) (pl : ℕ)
        → PartsIn k x y tl tr (down a e l m) once hole lx ly pl pr pm y s
        → Final s (link_down (bottom m a) x y s) (
            PartsIn k x y tl tr
              (down a e l m)
              once
              hole
              (record lx { parent = bottom m a })
              ly
              pl
              pr
              pm
              x)
    link_down-Final s pl p =
        let z = bottom m a in
        let s₁ = record s { node = relinked s.node z y x } in
        let (s₂, run, p₂, same) =
          parent_first k x y tl tr (down a e l m) once s₁ hole lx ly pl pr pm x z
            (SwapParts-bottom k x y a e tl tr l m once x p) in
        (
          s₂,
          link_down-below s z x y (bottom-some a pm y e l m s.node p.along)
                (let o = once x in bottom-ne a x e l m (ground arith))
              ∙ run,
          p₂,
          λ b. same b ∙ relinked-SameContent s.node z y x b,
        )

    pub put_down-down :
        copy.left ≡ addr tl
        → copy.right ≡ 0
        → copy.parent ≡ bottom m a
        → copy.colour ≡ d
        → PartsIn k x y tl tr (down a e l m) once hole lx ly pl pr pm y s
        → Final s (put_down s x y copy) (
            PartsIn k x y tl tr
              (down a e l m)
              once
              hole
              (lowered k x y tl tr (down a e l m) once hole ly d (bottom m a) x pr pm x)
              ly
              x
              pr
              pm
              x)
    put_down-down el er ep ec p =
        Final-from s (put_down s x y copy)
          (try_set_parent s (addr tl) x >>= down_parent (bottom m a) (addr tl) d x y) _
          (put_down-start s x y (addr tl) (bottom m a) d copy el er ep ec)
          (Final->>= s (try_set_parent s (addr tl) x) (down_parent (bottom m a) (addr tl) d x y) _ _
            (reparent_left k x y tl tr (down a e l m) once s hole lx ly pl pr pm y x p)
            (λ s₁ p₁.
              Final->>= s₁ (link_down (bottom m a) x y s₁) (down_left (addr tl) d x) _ _
                (link_down-Final s₁ x p₁)
                (λ s₂ p₂.
                  down_left-Final k x y tl tr (down a e l m) once hole ly d (bottom m a) x pr pm x
                    s₂ lx.left lx.right lx.colour p₂)))
