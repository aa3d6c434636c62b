-- ===== src/Rbtree/Beside.antt =====
-- A black sibling in `rbt_delete_fix` of kernel/lib/ds/rbtree.c, whatever its children.
use yaeos.Prelude.{ℕ, suc, ◌<◌, ◌≡◌, refl, sym}
use mathlib.Core.Path.{subst}
use yaeos.Rbtree.{Colour, black, red, Store}
use yaeos.Rbtree.Shape.{Shape, leaf, fork, Place, left_of, right_of}
use yaeos.Rbtree.Rotate.{StandsIn}
use yaeos.Rbtree.Climb.{colour_of}
use yaeos.Rbtree.Balance.{RedBlack, Fits}
use yaeos.Rbtree.DeleteRound.{beside}
use yaeos.Rbtree.RedUncle.{depth}
use yaeos.Rbtree.Even.{
  Evened, suc-injective, outer_left-Evened, outer_right-Evened, inner_left-Evened,
  inner_right-Evened,
}
use yaeos.Rbtree.Lift.{
  DeleteTask, repaint_left-Evened, repaint_right-Evened, up_left-Evened, up_right-Evened,
}

-- The loop goes on only below a black parent.
abbrev pub Above : ℕ → Place → Colour → Type 0
Above fuel k cp = cp ≡ black → (depth k < fuel) × ((s' : Store) → DeleteTask fuel s' k)

module _ (fuel : ℕ) (s : Store) (k : Place) (x p b n : ℕ) (cx : Colour) (xl xr : Shape) where
  calm_left :
      (cp : Colour) (bl br : Shape)
      → Above fuel k cp
      → Fits (suc n) (left_of p cp (fork b black bl br) k)
      → RedBlack n bl
      → RedBlack n br
      → colour_of bl ≡ black
      → colour_of br ≡ black
      → StandsIn s k (fork p cp (fork x cx xl xr) (fork b black bl br))
      → Evened s (beside fuel s x p b) (left_of p cp (fork b black bl br) k) n (fork x cx xl xr)
  calm_left red bl br next fits hl hr cl cr h =
      repaint_left-Evened fuel s k x p b n cx xl xr bl br hl hr cl cr fits h
  calm_left black bl br next fits hl hr cl cr h =
      let (enough, task) = next refl in
      up_left-Evened fuel s k x p b n cx xl xr bl br hl hr cl cr task enough fits h

  sort_left :
      (cp : Colour) (bl br : Shape)
      → Above fuel k cp
      → Fits (suc n) (left_of p cp (fork b black bl br) k)
      → RedBlack n bl
      → RedBlack n br
      → StandsIn s k (fork p cp (fork x cx xl xr) (fork b black bl br))
      → Evened s (beside fuel s x p b) (left_of p cp (fork b black bl br) k) n (fork x cx xl xr)
  sort_left cp bl (fork e red el er) next fits hl (_, _, hel, her) h =
      outer_left-Evened fuel s k x p b e n cx cp xl xr bl el er hl hel her fits h
  sort_left cp leaf leaf next fits hl hr h = calm_left cp leaf leaf next fits hl hr refl refl h
  sort_left cp (fork e black el er) leaf next fits hl hr h =
      calm_left cp (fork e black el er) leaf next fits hl hr refl refl h
  sort_left cp (fork e red el er) leaf next fits (_, _, hel, her) hr h =
      inner_left-Evened fuel s k x p b e n cx cp xl xr leaf el er hr refl hel her fits h
  sort_left cp leaf (fork d black dl dr) next fits hl hr h =
      calm_left cp leaf (fork d black dl dr) next fits hl hr refl refl h
  sort_left cp (fork e black el er) (fork d black dl dr) next fits hl hr h =
      calm_left cp (fork e black el er) (fork d black dl dr) next fits hl hr refl refl h
  sort_left cp (fork e red el er) (fork d black dl dr) next fits (_, _, hel, her) hr h =
      inner_left-Evened fuel s k x p b e n cx cp xl xr (fork d black dl dr) el er hr refl hel her
        fits h

  pub beside_left-Evened :
      (cp : Colour) (bl br : Shape)
      → Above fuel k cp
      → Fits (suc n) (left_of p cp (fork b black bl br) k)
      → RedBlack (suc n) (fork b black bl br)
      → StandsIn s k (fork p cp (fork x cx xl xr) (fork b black bl br))
      → Evened s (beside fuel s x p b) (left_of p cp (fork b black bl br) k) n (fork x cx xl xr)
  beside_left-Evened cp bl br next fits (m, e, hl, hr) h =
      let same = sym (suc-injective e) in
      sort_left cp bl br next fits (subst (λ i. RedBlack i bl) same hl)
        (subst (λ i. RedBlack i br) same hr) h

  calm_right :
      (cp : Colour) (bl br : Shape)
      → Above fuel k cp
      → Fits (suc n) (right_of p cp (fork b black bl br) k)
      → RedBlack n bl
      → RedBlack n br
      → colour_of bl ≡ black
      → colour_of br ≡ black
      → StandsIn s k (fork p cp (fork b black bl br) (fork x cx xl xr))
      → Evened s (beside fuel s x p b) (right_of p cp (fork b black bl br) k) n (fork x cx xl xr)
  calm_right red bl br next fits hl hr cl cr h =
      repaint_right-Evened fuel s k x p b n cx xl xr bl br hl hr cl cr fits h
  calm_right black bl br next fits hl hr cl cr h =
      let (enough, task) = next refl in
      up_right-Evened fuel s k x p b n cx xl xr bl br hl hr cl cr task enough fits h

  sort_right :
      (cp : Colour) (bl br : Shape)
      → Above fuel k cp
      → Fits (suc n) (right_of p cp (fork b black bl br) k)
      → RedBlack n bl
      → RedBlack n br
      → StandsIn s k (fork p cp (fork b black bl br) (fork x cx xl xr))
      → Evened s (beside fuel s x p b) (right_of p cp (fork b black bl br) k) n (fork x cx xl xr)
  sort_right cp (fork e red el er) br next fits (_, _, hel, her) hr h =
      outer_right-Evened fuel s k x p b e n cx cp xl xr br el er hr hel her fits h
  sort_right cp leaf leaf next fits hl hr h = calm_right cp leaf leaf next fits hl hr refl refl h
  sort_right cp leaf (fork e black el er) next fits hl hr h =
      calm_right cp leaf (fork e black el er) next fits hl hr refl refl h
  sort_right cp leaf (fork e red el er) next fits hl (_, _, hel, her) h =
      inner_right-Evened fuel s k x p b e n cx cp xl xr leaf el er hl refl hel her fits h
  sort_right cp (fork d black dl dr) leaf next fits hl hr h =
      calm_right cp (fork d black dl dr) leaf next fits hl hr refl refl h
  sort_right cp (fork d black dl dr) (fork e black el er) next fits hl hr h =
      calm_right cp (fork d black dl dr) (fork e black el er) next fits hl hr refl refl h
  sort_right cp (fork d black dl dr) (fork e red el er) next fits hl (_, _, hel, her) h =
      inner_right-Evened fuel s k x p b e n cx cp xl xr (fork d black dl dr) el er hl refl hel her
        fits h

  pub beside_right-Evened :
      (cp : Colour) (bl br : Shape)
      → Above fuel k cp
      → Fits (suc n) (right_of p cp (fork b black bl br) k)
      → RedBlack (suc n) (fork b black bl br)
      → StandsIn s k (fork p cp (fork b black bl br) (fork x cx xl xr))
      → Evened s (beside fuel s x p b) (right_of p cp (fork b black bl br) k) n (fork x cx xl xr)
  beside_right-Evened cp bl br next fits (m, e, hl, hr) h =
      let same = sym (suc-injective e) in
      sort_right cp bl br next fits (subst (λ i. RedBlack i bl) same hl)
        (subst (λ i. RedBlack i br) same hr) h
