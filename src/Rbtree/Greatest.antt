-- ===== src/Rbtree/Greatest.antt =====
-- What `rbtree_search_max` of kernel/lib/ds/rbtree.c finds.
use yaeos.Prelude.{
  ℕ, suc, ◌<◌, ◌≡◌, ◌≢◌, ◌⊎◌, inl, inr, refl, sym, ap, ◌∙◌, Bool, true, false, not, ◌&&◌, ==_ne,
  if◌then◌else◌, ◌++◌, ◌∷◌, [], List, append_assoc, append-nil, ℤ, pos, negsuc, Outcome, ok, ◌>>=◌,
}
use mathlib.Core.Path.{subst}
use yaeos.Rbtree.{Colour, Store, is_null}
use yaeos.Rbtree.Shape.{Shape, leaf, fork, inorder, Place, top, left_of, right_of, plug}
use yaeos.Rbtree.Rotate.{StandsIn}
use yaeos.Rbtree.Graft.{Parted, Parted-right, NoneBelow}
use yaeos.Rbtree.RedUncle.{depth}
use yaeos.Rbtree.Range.{before, rest}
use yaeos.Rbtree.Removed.{order-plug}
use yaeos.Rbtree.Update.{is_positive, is_negative}
use yaeos.Rbtree.Found.{at_most_in, equal_in}
use yaeos.Rbtree.Spot.{sign, Bound}
use yaeos.Rbtree.SpotBack.{negative-not-positive, back_down-Spot}
use yaeos.Rbtree.Search.{is_zero, leftward, rightward, back_down, max_from}

-- The end of `rbtree_search_max`.
abbrev pub within : Outcome (ℕ × ℤ) → Outcome ℕ
within run = run >>= (λ r. if is_positive r.1 then ok 0 else ok r.0)

-- A node above the limit, and all after it.
from-NoneBelow :
    (below : ℕ → Bool) (b : ℕ) (xs ys zs : List ℕ)
    → below b ≡ false
    → zs ≡ xs ++ b ∷ ys
    → Parted below zs
    → NoneBelow below (b ∷ ys)
from-NoneBelow below b xs ys zs e order h =
    (e, (Parted-right below xs (b ∷ ys) (subst (λ l. Parted below l) order h)).0 e)

-- The result is equal to the limit, or the last that is not greater. It is NULL when all nodes are
-- greater.
abbrev pub Greatest : (ℕ → ℕ → ℤ) → Store → ℕ → Shape → Outcome ℕ → Type 0
Greatest cmpf s limit t run =
    ((run ≡ ok 0) × NoneBelow (at_most_in cmpf s.node limit) (inorder t))
    ⊎ ((lower : List ℕ) × (x : ℕ) × (upper : List ℕ) × (inorder t ≡ lower ++ x ∷ upper)
        × (run ≡ ok x)
        × (at_most_in cmpf s.node limit x ≡ true)
        × ((equal_in cmpf s.node limit x ≡ true) ⊎ NoneBelow (at_most_in cmpf s.node limit) upper))

module _ (cmpf : ℕ → ℕ → ℤ) (s : Store) (limit : ℕ) (whole : Shape)
    (parted : Parted (at_most_in cmpf s.node limit) (inorder whole)) where
  rest-NoneBelow :
      (k : Place) (t : Shape)
      → Bound cmpf s limit whole k
      → plug k t ≡ whole
      → NoneBelow (at_most_in cmpf s.node limit) (rest k)
  rest-NoneBelow top t bound here = tt
  rest-NoneBelow (right_of b c l k) t (e, bound) here = rest-NoneBelow k (fork b c l t) bound here
  rest-NoneBelow (left_of b c r k) t (e, bound) here =
      from-NoneBelow (at_most_in cmpf s.node limit) b (before k ++ inorder t) (inorder r ++ rest k)
        (inorder whole) (ap not e) (ap inorder (sym here) ∙ order-plug k b c t r) parted

  -- The end of a round.
  abbrev pub decide : ℕ → ℕ → Outcome (ℕ × ℤ)
  decide fuel a =
      let c = sign cmpf s limit whole a in
      let over = back_down cmpf s limit fuel a c in
      let again = max_from cmpf s limit fuel a c in
      if is_zero c
      then ok (a, c)
      else (if is_positive c && is_null (s.node a).left
          then over
          else (if is_negative c && is_null (s.node a).right then ok (a, c) else again))

  abbrev pub Result : Outcome (ℕ × ℤ) → Type 0
  Result run = Greatest cmpf s limit whole (within run)

  pub max_from-round :
      (fuel a b d : ℕ) (z : ℤ)
      → a ≢ 0
      → rightward cmpf s limit fuel a (sign cmpf s limit whole a)
        ≡ ok (b, sign cmpf s limit whole b)
      → leftward cmpf s limit fuel b (sign cmpf s limit whole b) ≡ ok (d, sign cmpf s limit whole d)
      → max_from cmpf s limit (suc fuel) a z ≡ decide fuel d
  unfolding max_from
  max_from-round fuel a b d z some right left = simp (==_ne a 0 some, right, left) refl

  zero-not-positive : (z : ℤ) → is_zero z ≡ true → is_positive z ≡ false
  zero-not-positive (pos n) e = ap not e
  zero-not-positive (negsuc n) e = cc

  module _ (fuel : ℕ) (k : Place) (a : ℕ) (c : Colour) (bound : Bound cmpf s limit whole k) where
    order-here :
        (l r : Shape)
        → plug k (fork a c l r) ≡ whole
        → inorder whole ≡ (before k ++ inorder l) ++ a ∷ (inorder r ++ rest k)
    order-here l r here = ap inorder (sym here) ∙ order-plug k a c l r

    -- The cursor is above the limit, and there is nothing on its left.
    pub decide-over :
        (r : Shape)
        → is_zero (sign cmpf s limit whole a) ≡ false
        → is_positive (sign cmpf s limit whole a) ≡ true
        → depth k < fuel
        → StandsIn s k (fork a c leaf r)
        → plug k (fork a c leaf r) ≡ whole
        → Result (decide fuel a)
    decide-over r e₀ e enough h here =
        let order =
          order-here leaf r here
          ∙ ap (λ zs. zs ++ a ∷ (inorder r ++ rest k)) (append-nil (before k)) in
        let none =
          from-NoneBelow (at_most_in cmpf s.node limit) a (before k) (inorder r ++ rest k)
            (inorder whole) (ap not e) order parted in
        elim (back_down-Spot cmpf s limit whole fuel k (fork a c leaf r) a enough h.held.0.some_node
          e h.held.0.parent_link h bound here) [
            | inl (b, run, over, end) ↦ inl (
              simp (e₀, e, h.held.0.left_link, run, over) refl,
              subst (λ zs. NoneBelow (at_most_in cmpf s.node limit) zs)
                  (sym (order ∙ ap (λ zs. zs ++ a ∷ (inorder r ++ rest k)) end)) none,
            )
            | inr (q, run, below_limit, next) ↦
                let fine =
                  negative-not-positive cmpf s limit whole (sign cmpf s limit whole q.node)
                    below_limit in
                inr (
                  before q.place ++ inorder q.left,
                  q.node,
                  a ∷ (inorder r ++ rest k),
                  order
                      ∙ ap (λ zs. zs ++ a ∷ (inorder r ++ rest k))
                          (next
                            ∙ sym (append_assoc (before q.place) (inorder q.left) (q.node ∷ [])))
                      ∙ append_assoc (before q.place ++ inorder q.left) (q.node ∷ [])
                          (a ∷ (inorder r ++ rest k)),
                  simp (e₀, e, h.held.0.left_link, run, fine) refl,
                  ap not fine,
                  inr none,
                )
          ]

    pub decide-below :
        (l : Shape)
        → is_zero (sign cmpf s limit whole a) ≡ false
        → is_negative (sign cmpf s limit whole a) ≡ true
        → StandsIn s k (fork a c l leaf)
        → plug k (fork a c l leaf) ≡ whole
        → Result (decide fuel a)
    decide-below l e₀ e h here =
        let fine = negative-not-positive cmpf s limit whole (sign cmpf s limit whole a) e in
        inr (
          before k ++ inorder l,
          a,
          rest k,
          order-here l leaf here,
          simp (e₀, e, fine, h.held.0.right_link) refl,
          ap not fine,
          inr (rest-NoneBelow k (fork a c l leaf) bound here),
        )

    pub decide-equal :
        (l r : Shape)
        → is_zero (sign cmpf s limit whole a) ≡ true
        → plug k (fork a c l r) ≡ whole
        → Result (decide fuel a)
    decide-equal l r e here =
        let fine = zero-not-positive (sign cmpf s limit whole a) e in
        inr (
          before k ++ inorder l,
          a,
          inorder r ++ rest k,
          order-here l r here,
          simp (e, fine) refl,
          ap not fine,
          inl e,
        )

    pub decide-again :
        (b : ℕ) (d : Colour) (l u v : Shape)
        → is_zero (sign cmpf s limit whole a) ≡ false
        → is_negative (sign cmpf s limit whole a) ≡ true
        → StandsIn s k (fork a c l (fork b d u v))
        → Result (max_from cmpf s limit fuel a (sign cmpf s limit whole a))
        → Result (decide fuel a)
    decide-again b d l u v e₀ e h again =
        let fine = negative-not-positive cmpf s limit whole (sign cmpf s limit whole a) e in
        subst Result {x = max_from cmpf s limit fuel a (sign cmpf s limit whole a)}
          {y = decide fuel a}
          (sym (simp (e₀, e, fine, h.held.0.right_link, ==_ne b 0 h.held.2.0.some_node) refl)) again
