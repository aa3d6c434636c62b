-- ===== src/Rbtree/LastTurn.antt =====
-- The black sibling with a red child in `rbt_delete_fix` of kernel/lib/ds/rbtree.c, on trees.
use yaeos.Prelude.{ℕ, ◌≡◌, true, false, Outcome, ◌>>=◌}
use mathlib.Core.Path.{subst}
use yaeos.Rbtree.{Colour, black, red, Store, rbt_set_colour, rbt_rotate_left, rbt_rotate_right}
use yaeos.Rbtree.Shape.{Shape, leaf, fork, addr, Place, left_of, right_of}
use yaeos.Rbtree.Rotate.{StandsIn, rbt_rotate_left-Leaves, rbt_rotate_right-Leaves}
use yaeos.Rbtree.Climb.{
  Final, Final->>=, Final-weaken, climb_left, climb_right, descend_left, descend_right,
  rbt_set_colour-Final, colour_of,
}
use yaeos.Rbtree.Sibling.{Siblings, left-Siblings, right-Siblings}
use yaeos.Rbtree.Turns.{
  paint_left-Final, paint_right-Final, outward_left, outward_right, outward_left-Final,
  outward_right-Final, last_turn,
}
use yaeos.Rbtree.Delete.{outward, settle_parent}
use yaeos.Rbtree.Settle.{
  outward-outer_left, outward-outer_right, outward-inner_left, outward-inner_right,
  settle_parent-start_left, settle_parent-start_right,
}

-- The statements for a black sibling with a red child.
abbrev pub settle : Store → ℕ → ℕ → ℕ → Outcome Store
settle s node parent sibling = outward s node parent sibling >>= (λ s₂. settle_parent s₂ node)

module _ (s : Store) (k : Place) (x p b e : ℕ) (cx cp cb : Colour) (xl xr t el er : Shape) where
  last_turn-Final_left :
      StandsIn s k (fork p cp (fork x cx xl xr) (fork b cb t (fork e red el er)))
      → Final s
          (last_turn s x p b)
          (λ s'. StandsIn s' k (fork b cb (fork p cp (fork x cx xl xr) t) (fork e black el er)))
  last_turn-Final_left h =
      let f = left-Siblings s k x p b cx cp cb xl xr t (fork e red el er) h in
      let painted =
        Final-weaken s (rbt_set_colour s e black)
          (λ s'. StandsIn s' (right_of p cp (fork x cx xl xr) k) (fork b cb t (fork e black el er)))
          (λ s'. StandsIn s' k (fork p cp (fork x cx xl xr) (fork b cb t (fork e black el er))))
          (paint_right-Final s (right_of p cp (fork x cx xl xr) k) b cb t leaf black e red el er
            (descend_right s k p cp (fork x cx xl xr) (fork b cb t (fork e red el er)) h))
          (λ s' h'.
            climb_right s' k p cp (fork x cx xl xr) (fork b cb t (fork e black el er)) h') in
      simp (f.is_right, f.near_right, f.right)
        (Final->>= s (rbt_set_colour s e black) (λ s'. rbt_rotate_left s' p)
          (λ s'. StandsIn s' k (fork p cp (fork x cx xl xr) (fork b cb t (fork e black el er)))) _
          painted
          (λ s' h'.
            rbt_rotate_left-Leaves k p b cp cb (fork x cx xl xr) t (fork e black el er) s' h'))

  last_turn-Final_right :
      StandsIn s k (fork p cp (fork b cb (fork e red el er) t) (fork x cx xl xr))
      → Final s
          (last_turn s x p b)
          (λ s'. StandsIn s' k (fork b cb (fork e black el er) (fork p cp t (fork x cx xl xr))))
  last_turn-Final_right h =
      let f = right-Siblings s k x p b cx cp cb xl xr (fork e red el er) t h in
      let painted =
        Final-weaken s (rbt_set_colour s e black)
          (λ s'. StandsIn s' (left_of p cp (fork x cx xl xr) k) (fork b cb (fork e black el er) t))
          (λ s'. StandsIn s' k (fork p cp (fork b cb (fork e black el er) t) (fork x cx xl xr)))
          (paint_left-Final s (left_of p cp (fork x cx xl xr) k) b cb leaf t black e red el er
            (descend_left s k p cp (fork b cb (fork e red el er) t) (fork x cx xl xr) h))
          (λ s' h'. climb_left s' k p cp (fork b cb (fork e black el er) t) (fork x cx xl xr) h') in
      simp (f.is_right, f.near_left, f.left)
        (Final->>= s (rbt_set_colour s e black) (λ s'. rbt_rotate_right s' p)
          (λ s'. StandsIn s' k (fork p cp (fork b cb (fork e black el er) t) (fork x cx xl xr))) _
          painted
          (λ s' h'.
            rbt_rotate_right-Leaves k p b cp cb (fork e black el er) t (fork x cx xl xr) s' h'))

module _ (s : Store) (k : Place) (x p b e : ℕ) (cx cp : Colour) (xl xr t el er : Shape) where
  settle_parent-Final_left :
      StandsIn s k (fork p cp (fork x cx xl xr) (fork b black t (fork e red el er)))
      → Final s
          (settle_parent s x)
          (λ s'. StandsIn s' k (fork b cp (fork p black (fork x cx xl xr) t) (fork e black el er)))
  settle_parent-Final_left h =
      let f = left-Siblings s k x p b cx cp black xl xr t (fork e red el er) h in
      rw (settle_parent-start_left s x p b _ _ cp (colour_of t) f) (
        Final->>= s (rbt_set_colour s b cp) _
          (λ s'. StandsIn s' k (fork p cp (fork x cx xl xr) (fork b cp t (fork e red el er)))) _
          (paint_right-Final s k p cp (fork x cx xl xr) leaf cp b black t (fork e red el er) h)
          (λ s₁ h₁.
            Final->>= s₁ (rbt_set_colour s₁ p black) (λ s'. last_turn s' x p b)
              (λ s'.
                StandsIn s' k (fork p black (fork x cx xl xr) (fork b cp t (fork e red el er))))
              _
              (rbt_set_colour-Final s₁ k p cp (fork x cx xl xr) (fork b cp t (fork e red el er))
                black h₁)
              (λ s₂. last_turn-Final_left s₂ k x p b e cx black cp xl xr t el er)))

  settle_parent-Final_right :
      StandsIn s k (fork p cp (fork b black (fork e red el er) t) (fork x cx xl xr))
      → Final s
          (settle_parent s x)
          (λ s'. StandsIn s' k (fork b cp (fork e black el er) (fork p black t (fork x cx xl xr))))
  settle_parent-Final_right h =
      let f = right-Siblings s k x p b cx cp black xl xr (fork e red el er) t h in
      rw (settle_parent-start_right s x p b _ _ cp (colour_of t) f) (
        Final->>= s (rbt_set_colour s b cp) _
          (λ s'. StandsIn s' k (fork p cp (fork b cp (fork e red el er) t) (fork x cx xl xr))) _
          (paint_left-Final s k p cp leaf (fork x cx xl xr) cp b black (fork e red el er) t h)
          (λ s₁ h₁.
            Final->>= s₁ (rbt_set_colour s₁ p black) (λ s'. last_turn s' x p b)
              (λ s'.
                StandsIn s' k (fork p black (fork b cp (fork e red el er) t) (fork x cx xl xr)))
              _
              (rbt_set_colour-Final s₁ k p cp (fork b cp (fork e red el er) t) (fork x cx xl xr)
                black h₁)
              (λ s₂. last_turn-Final_right s₂ k x p b e cx black cp xl xr t el er)))

  pub settle-outer_left :
      StandsIn s k (fork p cp (fork x cx xl xr) (fork b black t (fork e red el er)))
      → Final s
          (settle s x p b)
          (λ s'. StandsIn s' k (fork b cp (fork p black (fork x cx xl xr) t) (fork e black el er)))
  settle-outer_left h =
      rw
        (outward-outer_left s x p b _ _ cp (colour_of t)
          (left-Siblings s k x p b cx cp black xl xr t (fork e red el er) h))
        (settle_parent-Final_left h)

  pub settle-outer_right :
      StandsIn s k (fork p cp (fork b black (fork e red el er) t) (fork x cx xl xr))
      → Final s
          (settle s x p b)
          (λ s'. StandsIn s' k (fork b cp (fork e black el er) (fork p black t (fork x cx xl xr))))
  settle-outer_right h =
      rw
        (outward-outer_right s x p b _ _ cp (colour_of t)
          (right-Siblings s k x p b cx cp black xl xr (fork e red el er) t h))
        (settle_parent-Final_right h)

module _ (s : Store) (k : Place) (x p b e : ℕ) (cx cp : Colour) (xl xr t el er : Shape)
    (black_t : colour_of t ≡ black) where
  pub settle-inner_left :
      StandsIn s k (fork p cp (fork x cx xl xr) (fork b black (fork e red el er) t))
      → Final s
          (settle s x p b)
          (λ s'. StandsIn s' k (fork e cp (fork p black (fork x cx xl xr) el) (fork b black er t)))
  settle-inner_left h =
      let f =
        subst (λ c. Siblings s x p b (addr (fork e red el er)) (addr t) true black cp red c) black_t
          (left-Siblings s k x p b cx cp black xl xr (fork e red el er) t h) in
      rw (outward-inner_left s x p b (addr (fork e red el er)) (addr t) cp f) (
        Final->>= s (outward_right s b) (λ s'. settle_parent s' x)
          (λ s'. StandsIn s' k (fork p cp (fork x cx xl xr) (fork e black el (fork b red er t)))) _
          (Final-weaken s (outward_right s b)
            (λ s'.
              StandsIn s' (right_of p cp (fork x cx xl xr) k) (fork e black el (fork b red er t)))
            _
            (outward_right-Final s (right_of p cp (fork x cx xl xr) k) b e black red t el er
              (descend_right s k p cp (fork x cx xl xr) (fork b black (fork e red el er) t) h))
            (λ s' h'.
              climb_right s' k p cp (fork x cx xl xr) (fork e black el (fork b red er t)) h'))
          (λ s₁. settle_parent-Final_left s₁ k x p e b cx cp xl xr el er t))

  pub settle-inner_right :
      StandsIn s k (fork p cp (fork b black t (fork e red el er)) (fork x cx xl xr))
      → Final s
          (settle s x p b)
          (λ s'. StandsIn s' k (fork e cp (fork b black t el) (fork p black er (fork x cx xl xr))))
  settle-inner_right h =
      let f =
        subst (λ c. Siblings s x p b (addr t) (addr (fork e red el er)) false black cp c red)
          black_t (right-Siblings s k x p b cx cp black xl xr t (fork e red el er) h) in
      rw (outward-inner_right s x p b (addr t) (addr (fork e red el er)) cp f) (
        Final->>= s (outward_left s b) (λ s'. settle_parent s' x)
          (λ s'. StandsIn s' k (fork p cp (fork e black (fork b red t el) er) (fork x cx xl xr))) _
          (Final-weaken s (outward_left s b)
            (λ s'.
              StandsIn s' (left_of p cp (fork x cx xl xr) k) (fork e black (fork b red t el) er))
            _
            (outward_left-Final s (left_of p cp (fork x cx xl xr) k) b e black red t el er
              (descend_left s k p cp (fork b black t (fork e red el er)) (fork x cx xl xr) h))
            (λ s' h'.
              climb_left s' k p cp (fork e black (fork b red t el) er) (fork x cx xl xr) h'))
          (λ s₁. settle_parent-Final_right s₁ k x p e b cx cp xl xr er t el))
