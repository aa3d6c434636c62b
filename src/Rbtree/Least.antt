-- ===== src/Rbtree/Least.antt =====
-- What a round of `rbtree_search_min` of kernel/lib/ds/rbtree.c comes to.
use yaeos.Prelude.{
  ℕ, suc, ◌<◌, ◌≡◌, ◌≢◌, ◌⊎◌, inl, inr, refl, sym, ap, ◌∙◌, Bool, true, false, Bool-cases, ◌&&◌,
  ==_ne, if◌then◌else◌, ◌++◌, ◌∷◌, [], List, append_assoc, ℤ, Outcome, ok, fault, ◌>>=◌,
}
use mathlib.Core.Path.{subst}
use yaeos.Rbtree.{Colour, Store, is_null}
use yaeos.Rbtree.Shape.{Shape, leaf, fork, inorder, Place, top, left_of, right_of, plug}
use yaeos.Rbtree.Rotate.{StandsIn}
use yaeos.Rbtree.Graft.{Parted, NoneBelow-head}
use yaeos.Rbtree.RedUncle.{depth}
use yaeos.Rbtree.Range.{before, rest}
use yaeos.Rbtree.Removed.{order-plug}
use yaeos.Rbtree.Update.{is_positive, is_negative}
use yaeos.Rbtree.Found.{clash, less_in, equal_in}
use yaeos.Rbtree.SpotBack.{back_up-Spot}
use yaeos.Rbtree.Spot.{sign, Bound, Spot, positive-not-negative}
use yaeos.Rbtree.Search.{is_zero, leftward, rightward, back_up, min_from}

-- All nodes of the list are below the value.
abbrev pub AllBelow : (ℕ → Bool) → List ℕ → Type 0
AllBelow below [] = Unit {0}
AllBelow below (a ∷ xs) = (below a ≡ true) × AllBelow below xs

module _ (below : ℕ → Bool) where
  earlier-AllBelow :
      (b : ℕ) (xs ys : List ℕ) → below b ≡ true → Parted below (xs ++ b ∷ ys) → AllBelow below xs
  earlier-AllBelow b [] ys e h = tt
  earlier-AllBelow b (a ∷ xs) ys e (first, h) = elim (Bool-cases (below a)) [
    | inl e' ↦ (e', earlier-AllBelow b xs ys e h)
    | inr e' ↦ absurd (clash (below b) e (NoneBelow-head below xs ys b (first e')))
  ]

  AllBelow-last :
      (b : ℕ) (xs : List ℕ) → AllBelow below xs → below b ≡ true → AllBelow below (xs ++ b ∷ [])
  AllBelow-last b [] h e = (e, tt)
  AllBelow-last b (a ∷ xs) (e', h) e = (e', AllBelow-last b xs h e)

  -- A node below the value, and all before it.
  up_to-AllBelow :
      (b : ℕ) (xs ys zs : List ℕ)
      → below b ≡ true
      → zs ≡ xs ++ b ∷ ys
      → Parted below zs
      → AllBelow below (xs ++ b ∷ [])
  up_to-AllBelow b xs ys zs e order h =
      AllBelow-last b xs (earlier-AllBelow b xs ys e (subst (λ l. Parted below l) order h)) e

module _ (cmpf : ℕ → ℕ → ℤ) (s : Store) (limit : ℕ) (whole : Shape) where
  pub before-AllBelow :
      (k : Place) (t : Shape)
      → Bound cmpf s limit whole k
      → Parted (less_in cmpf s.node limit) (inorder (plug k t))
      → AllBelow (less_in cmpf s.node limit) (before k)
  unfolding before
  before-AllBelow top t bound h = tt
  before-AllBelow (left_of b c r k) t (e, bound) h = before-AllBelow k (fork b c t r) bound h
  before-AllBelow (right_of b c l k) t (e, bound) h =
      subst (λ zs. AllBelow (less_in cmpf s.node limit) zs)
        (append_assoc (before k) (inorder l) (b ∷ []))
        (up_to-AllBelow (less_in cmpf s.node limit) b (before k ++ inorder l) (inorder t ++ rest k)
          _ e (order-plug k b c l t) h)

  -- The node that the run gives is equal to the limit, or the first that is not less. When all nodes are
  -- less, the run is a fault.
  abbrev pub Least : Outcome ℕ → Type 0
  Least run =
      ((run ≡ fault) × AllBelow (less_in cmpf s.node limit) (inorder whole))
      ⊎ ((q : Spot cmpf s limit whole) × (run ≡ ok q.node)
          × (less_in cmpf s.node limit q.node ≡ false)
          × (lower : List ℕ) × (inorder whole ≡ lower ++ q.node ∷ (inorder q.right ++ rest q.place))
          × ((equal_in cmpf s.node limit q.node ≡ true)
              ⊎ AllBelow (less_in cmpf s.node limit) lower))

  -- The end of a round.
  abbrev pub decide : ℕ → ℕ → Outcome ℕ
  decide fuel a =
      let c = sign cmpf s limit whole a in
      let below = back_up cmpf s limit fuel a c >>= (λ r. ok r.0) in
      let again = min_from cmpf s limit fuel a in
      if is_zero c
      then ok a
      else (if is_negative c && is_null (s.node a).right
          then below
          else (if is_positive c && is_null (s.node a).left then ok a else again))

  pub min_from-round :
      (fuel a b d : ℕ)
      → a ≢ 0
      → leftward cmpf s limit fuel a (sign cmpf s limit whole a) ≡ ok (b, sign cmpf s limit whole b)
      → rightward cmpf s limit fuel b (sign cmpf s limit whole b)
        ≡ ok (d, sign cmpf s limit whole d)
      → min_from cmpf s limit (suc fuel) a ≡ decide fuel d
  unfolding min_from
  min_from-round fuel a b d some left right = simp (==_ne a 0 some, left, right) refl

  module _ (fuel : ℕ) (k : Place) (a : ℕ) (c : Colour) (l : Shape)
      (parted : Parted (less_in cmpf s.node limit) (inorder whole))
      (bound : Bound cmpf s limit whole k) where
    pub order-here :
        (r : Shape)
        → plug k (fork a c l r) ≡ whole
        → inorder whole ≡ (before k ++ inorder l) ++ a ∷ (inorder r ++ rest k)
    order-here r here = ap inorder (sym here) ∙ order-plug k a c l r

    -- The cursor is below the limit, and there is nothing on its right.
    pub past-Least :
        is_negative (sign cmpf s limit whole a) ≡ true
        → depth k < fuel
        → StandsIn s k (fork a c l leaf)
        → plug k (fork a c l leaf) ≡ whole
        → Least (back_up cmpf s limit fuel a (sign cmpf s limit whole a) >>= (λ r. ok r.0))
    past-Least e enough h here =
        let order = order-here leaf here in
        let lower =
          up_to-AllBelow (less_in cmpf s.node limit) a (before k ++ inorder l) (rest k)
            (inorder whole) e order parted in
        elim (back_up-Spot cmpf s limit whole fuel k (fork a c l leaf) a enough h.held.0.some_node e
          h.held.0.parent_link h bound here) [
            | inl (run, end) ↦ inl (
              ap (λ o. o >>= (λ r. ok r.0)) run,
              subst (λ zs. AllBelow (less_in cmpf s.node limit) zs)
                  (sym (order ∙ ap (λ zs. (before k ++ inorder l) ++ a ∷ zs) end)) lower,
            )
            | inr (q, run, over, next) ↦ inr (
              q,
              ap (λ o. o >>= (λ r. ok r.0)) run,
              positive-not-negative cmpf s limit whole (sign cmpf s limit whole q.node) over,
              (before k ++ inorder l) ++ a ∷ [],
              order
                  ∙ ap (λ zs. (before k ++ inorder l) ++ a ∷ zs) next
                  ∙ sym (
                      append_assoc (before k ++ inorder l) (a ∷ [])
                        (q.node ∷ (inorder q.right ++ rest q.place))),
              inr lower,
            )
          ]
