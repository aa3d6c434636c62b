-- ===== src/Rbtree/Even.antt =====
-- A black sibling with a red child in `rbt_delete_fix` of kernel/lib/ds/rbtree.c, and the place of the node.
use yaeos.Prelude.{ℕ, suc, ◌≡◌, refl, sym, arith, true, false, ◌||◌, ◌∷◌, append_assoc, Outcome}
use yaeos.Rbtree.{Colour, black, red, is_red, Store}
use yaeos.Rbtree.Shape.{Shape, fork, addr, inorder, Place, left_of, right_of, plug}
use yaeos.Rbtree.Rotate.{StandsIn}
use yaeos.Rbtree.Climb.{Final, Final-weaken, descend_left, descend_right, colour_of}
use yaeos.Rbtree.Balance.{RedBlack, Fits, inorder-plug}
use yaeos.Rbtree.Mended.{triangle_order, triangle_order_right}
use yaeos.Rbtree.Sibling.{left-Siblings, right-Siblings}
use yaeos.Rbtree.LastTurn.{
  settle, settle-outer_left, settle-outer_right, settle-inner_left, settle-inner_right,
}
use yaeos.Rbtree.DeleteRound.{beside, beside-settle}

-- The run leaves the subtree at another place of the same order, which fits it with `n` black nodes.
abbrev pub Evened : Store → Outcome Store → Place → ℕ → Shape → Type 0
Evened s run k n t = Final s run (λ s'.
    (k' : Place) × StandsIn s' k' t
    × Fits n k'
    × ((u : Shape) → inorder (plug k' u) ≡ inorder (plug k u)))

pub suc-injective : {m n : ℕ} → suc m ≡ suc n → m ≡ n
suc-injective e = omega arith

-- A black sibling of other nodes fits as well.
pub exchange_left :
    (cp : Colour) (p b n : ℕ) (t u : Shape) (k : Place)
    → Fits n (left_of p cp t k)
    → RedBlack n u
    → colour_of u ≡ black
    → Fits n (left_of b cp u k)
exchange_left black p b n t u k (h, fits) hu cu = (hu, fits)
exchange_left red p b n t u k (h, c, up, fits) hu cu = (hu, cu, up, fits)

pub exchange_right :
    (cp : Colour) (p b n : ℕ) (t u : Shape) (k : Place)
    → Fits n (right_of p cp t k)
    → RedBlack n u
    → colour_of u ≡ black
    → Fits n (right_of b cp u k)
exchange_right black p b n t u k (h, fits) hu cu = (hu, fits)
exchange_right red p b n t u k (h, c, up, fits) hu cu = (hu, cu, up, fits)

or_red : (c : Colour) → (is_red c || is_red red) ≡ true
or_red black = refl
or_red red = refl

module _ (fuel : ℕ) (s : Store) (k : Place) (x p b e n : ℕ) (cx cp : Colour)
    (xl xr t el er : Shape) where
  module _ (ht : RedBlack n t) (hl : RedBlack n el) (hr : RedBlack n er) where
    pub outer_left-Evened :
        Fits (suc n) (left_of p cp (fork b black t (fork e red el er)) k)
        → StandsIn s k (fork p cp (fork x cx xl xr) (fork b black t (fork e red el er)))
        → Evened s
            (beside fuel s x p b)
            (left_of p cp (fork b black t (fork e red el er)) k)
            n
            (fork x cx xl xr)
    outer_left-Evened fits h =
        rw
          (beside-settle fuel s x p b (addr t) e true cp (colour_of t) red (or_red (colour_of t))
            (left-Siblings s k x p b cx cp black xl xr t (fork e red el er) h))
          (Final-weaken s (settle s x p b)
            (λ s'.
              StandsIn s' k (fork b cp (fork p black (fork x cx xl xr) t) (fork e black el er)))
            _ (settle-outer_left s k x p b e cx cp xl xr t el er h)
            (λ s' h'. (
              left_of p black t (left_of b cp (fork e black el er) k),
              descend_left s' (left_of b cp (fork e black el er) k) p black (fork x cx xl xr) t (
                  descend_left s' k b cp (fork p black (fork x cx xl xr) t) (fork e black el er)
                    h'),
              (
                ht,
                exchange_left cp p b (suc n) (fork b black t (fork e red el er))
                    (fork e black el er) k fits (n, refl, hl, hr) refl,
              ),
              λ u.
                  inorder-plug k (fork b cp (fork p black u t) (fork e black el er))
                    (fork p cp u (fork b black t (fork e red el er)))
                    (append_assoc (inorder u) (p ∷ inorder t) (b ∷ inorder (fork e black el er))),
            )))

    pub outer_right-Evened :
        Fits (suc n) (right_of p cp (fork b black (fork e red el er) t) k)
        → StandsIn s k (fork p cp (fork b black (fork e red el er) t) (fork x cx xl xr))
        → Evened s
            (beside fuel s x p b)
            (right_of p cp (fork b black (fork e red el er) t) k)
            n
            (fork x cx xl xr)
    outer_right-Evened fits h =
        rw
          (beside-settle fuel s x p b e (addr t) false cp red (colour_of t) (refl)
            (right-Siblings s k x p b cx cp black xl xr (fork e red el er) t h))
          (Final-weaken s (settle s x p b)
            (λ s'.
              StandsIn s' k (fork b cp (fork e black el er) (fork p black t (fork x cx xl xr))))
            _ (settle-outer_right s k x p b e cx cp xl xr t el er h)
            (λ s' h'. (
              right_of p black t (right_of b cp (fork e black el er) k),
              descend_right s' (right_of b cp (fork e black el er) k) p black t (fork x cx xl xr) (
                  descend_right s' k b cp (fork e black el er) (fork p black t (fork x cx xl xr))
                    h'),
              (
                ht,
                exchange_right cp p b (suc n) (fork b black (fork e red el er) t)
                    (fork e black el er) k fits (n, refl, hl, hr) refl,
              ),
              λ u.
                  inorder-plug k (fork b cp (fork e black el er) (fork p black t u))
                    (fork p cp (fork b black (fork e red el er) t) u)
                    (sym
                      (append_assoc (inorder (fork e red el er)) (b ∷ inorder t) (p ∷ inorder u))),
            )))

  module _ (ht : RedBlack n t) (ct : colour_of t ≡ black) (hl : RedBlack n el)
      (hr : RedBlack n er) where
    pub inner_left-Evened :
        Fits (suc n) (left_of p cp (fork b black (fork e red el er) t) k)
        → StandsIn s k (fork p cp (fork x cx xl xr) (fork b black (fork e red el er) t))
        → Evened s
            (beside fuel s x p b)
            (left_of p cp (fork b black (fork e red el er) t) k)
            n
            (fork x cx xl xr)
    inner_left-Evened fits h =
        rw
          (beside-settle fuel s x p b e (addr t) true cp red (colour_of t) (refl)
            (left-Siblings s k x p b cx cp black xl xr (fork e red el er) t h))
          (Final-weaken s (settle s x p b)
            (λ s'.
              StandsIn s' k (fork e cp (fork p black (fork x cx xl xr) el) (fork b black er t)))
            _ (settle-inner_left s k x p b e cx cp xl xr t el er ct h)
            (λ s' h'. (
              left_of p black el (left_of e cp (fork b black er t) k),
              descend_left s' (left_of e cp (fork b black er t) k) p black (fork x cx xl xr) el (
                  descend_left s' k e cp (fork p black (fork x cx xl xr) el) (fork b black er t)
                    h'),
              (
                hl,
                exchange_left cp p e (suc n) (fork b black (fork e red el er) t) (fork b black er t)
                    k fits (n, refl, hr, ht) refl,
              ),
              λ u.
                  inorder-plug k (fork e cp (fork p black u el) (fork b black er t))
                    (fork p cp u (fork b black (fork e red el er) t))
                    (triangle_order_right (inorder u) (inorder el) (inorder er) (inorder t) p e b),
            )))

    pub inner_right-Evened :
        Fits (suc n) (right_of p cp (fork b black t (fork e red el er)) k)
        → StandsIn s k (fork p cp (fork b black t (fork e red el er)) (fork x cx xl xr))
        → Evened s
            (beside fuel s x p b)
            (right_of p cp (fork b black t (fork e red el er)) k)
            n
            (fork x cx xl xr)
    inner_right-Evened fits h =
        rw
          (beside-settle fuel s x p b (addr t) e false cp (colour_of t) red (or_red (colour_of t))
            (right-Siblings s k x p b cx cp black xl xr t (fork e red el er) h))
          (Final-weaken s (settle s x p b)
            (λ s'.
              StandsIn s' k (fork e cp (fork b black t el) (fork p black er (fork x cx xl xr))))
            _ (settle-inner_right s k x p b e cx cp xl xr t el er ct h)
            (λ s' h'. (
              right_of p black er (right_of e cp (fork b black t el) k),
              descend_right s' (right_of e cp (fork b black t el) k) p black er (fork x cx xl xr) (
                  descend_right s' k e cp (fork b black t el) (fork p black er (fork x cx xl xr))
                    h'),
              (
                hr,
                exchange_right cp p e (suc n) (fork b black t (fork e red el er))
                    (fork b black t el) k fits (n, refl, ht, hl) refl,
              ),
              λ u.
                  inorder-plug k (fork e cp (fork b black t el) (fork p black er u))
                    (fork p cp (fork b black t (fork e red el er)) u)
                    (triangle_order (inorder t) (inorder el) (inorder er) (inorder u) b e p),
            )))
