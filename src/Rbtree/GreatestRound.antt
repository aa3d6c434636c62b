-- ===== src/Rbtree/GreatestRound.antt =====
-- `rbtree_search_max` of kernel/lib/ds/rbtree.c, round by round.
use yaeos.Prelude.{
  ℕ, zero, suc, ◌+◌, ◌*◌, ◌<◌, ◌≤◌, ◌≡◌, ◌≢◌, ◌⊎◌, inl, inr, refl, sym, ap, ◌∙◌, arith, true, false,
  ==_ne, ℤ, pos, ok,
}
use mathlib.Core.Path.{subst}
use yaeos.Rbtree.{Colour, Store}
use yaeos.Rbtree.Shape.{Shape, leaf, fork, inorder, Place, top, plug}
use yaeos.Rbtree.Rotate.{StandsIn}
use yaeos.Rbtree.Graft.{Parted}
use yaeos.Rbtree.Attach.{size}
use yaeos.Rbtree.RedUncle.{depth}
use yaeos.Rbtree.LastNode.{depth-size}
use yaeos.Rbtree.Update.{is_positive, is_negative}
use yaeos.Rbtree.Found.{ℤ-cases, clash, at_most_in}
use yaeos.Rbtree.Spot.{sign, Bound, Spot, nodes_below, leftward-Spot, rightward-Spot}
use yaeos.Rbtree.Search.{is_zero, leftward, rightward, max_from, rbtree_search_max}
use yaeos.Rbtree.Greatest.{
  Greatest, within, decide, Result, max_from-round, decide-over, decide-below, decide-equal,
  decide-again,
}

module _ (cmpf : ℕ → ℕ → ℤ) (s : Store) (limit : ℕ) (whole : Shape)
    (parted : Parted (at_most_in cmpf s.node limit) (inorder whole)) where
  decide-Result :
      (fuel : ℕ) (k : Place) (a : ℕ) (c : Colour) (l r : Shape)
      → Bound cmpf s limit whole k
      → depth k < fuel
      → StandsIn s k (fork a c l r)
      → plug k (fork a c l r) ≡ whole
      → ((is_positive (sign cmpf s limit whole a) ≡ false) ⊎ (l ≡ leaf))
      → ((is_negative (sign cmpf s limit whole a) ≡ true)
          → (r ≢ leaf)
          → Result cmpf s limit whole parted
              (max_from cmpf s limit fuel a (sign cmpf s limit whole a)))
      → Result cmpf s limit whole parted (decide cmpf s limit whole parted fuel a)
  decide-Result fuel k a c l r bound enough h here stop again =
      elim (ℤ-cases (sign cmpf s limit whole a)) [
        | inl e ↦ decide-equal cmpf s limit whole parted fuel k a c bound l r e here
        | inr (inl (e₀, e)) ↦ elim stop [
          | inl e' ↦ absurd (clash (is_positive (sign cmpf s limit whole a)) e e')
          | inr none ↦
              decide-over cmpf s limit whole parted fuel k a c bound r e₀ e enough
                (subst (λ t. StandsIn s k (fork a c t r)) none h)
                (subst (λ t. plug k (fork a c t r) ≡ whole) none here)
        ]
        | inr (inr (e₀, _, e)) ↦ below r e₀ e h here again
      ]
    where
      below :
          (r : Shape)
          → is_zero (sign cmpf s limit whole a) ≡ false
          → is_negative (sign cmpf s limit whole a) ≡ true
          → StandsIn s k (fork a c l r)
          → plug k (fork a c l r) ≡ whole
          → ((is_negative (sign cmpf s limit whole a) ≡ true)
              → (r ≢ leaf)
              → Result cmpf s limit whole parted
                  (max_from cmpf s limit fuel a (sign cmpf s limit whole a)))
          → Result cmpf s limit whole parted (decide cmpf s limit whole parted fuel a)
      below leaf e₀ e h here again =
          decide-below cmpf s limit whole parted fuel k a c bound l e₀ e h here
      below (fork b d u v) e₀ e h here again =
          decide-again cmpf s limit whole parted fuel k a c bound b d l u v e₀ e h
            (again e (λ eq. cc))

  -- A round that comes from `p` over `q` to `w`.
  round-Result :
      (fuel : ℕ) (p q w : Spot cmpf s limit whole) (z : ℤ)
      → size whole ≤ fuel
      → rightward cmpf s limit fuel p.node (sign cmpf s limit whole p.node)
        ≡ ok (q.node, sign cmpf s limit whole q.node)
      → leftward cmpf s limit fuel q.node (sign cmpf s limit whole q.node)
        ≡ ok (w.node, sign cmpf s limit whole w.node)
      → nodes_below cmpf s limit whole q ≤ nodes_below cmpf s limit whole p
      → ((is_negative (sign cmpf s limit whole q.node) ≡ false) ⊎ (q.right ≡ leaf))
      → ((w.node ≡ q.node) × (w.right ≡ q.right))
        ⊎ (nodes_below cmpf s limit whole w < nodes_below cmpf s limit whole q)
      → ((is_positive (sign cmpf s limit whole w.node) ≡ false) ⊎ (w.left ≡ leaf))
      → (nodes_below cmpf s limit whole w < nodes_below cmpf s limit whole p
          → Result cmpf s limit whole parted
              (max_from cmpf s limit fuel w.node (sign cmpf s limit whole w.node)))
      → Result cmpf s limit whole parted (max_from cmpf s limit (suc fuel) p.node z)
  round-Result fuel p q w z enough run run' at_most stop moved stop' again =
      let deep = depth-size w.place (fork w.node w.colour w.left w.right) in
      let big = ap size w.here in
      subst (Result cmpf s limit whole parted)
        (sym (
          max_from-round cmpf s limit whole parted fuel p.node q.node w.node z
            p.stands.held.0.some_node run run'))
        (decide-Result fuel w.place w.node w.colour w.left w.right w.bound (omega arith) w.stands
          w.here stop' (λ e some. again (closer e some)))
    where
      closer :
          is_negative (sign cmpf s limit whole w.node) ≡ true
          → w.right ≢ leaf
          → nodes_below cmpf s limit whole w < nodes_below cmpf s limit whole p
      closer e some = elim moved [
        | inl (same, same_right) ↦ elim stop [
          | inl e' ↦ absurd (
              clash (is_negative (sign cmpf s limit whole w.node)) e
                (ap (λ i. is_negative (sign cmpf s limit whole i)) same ∙ e'))
          | inr none ↦ absurd (some (same_right ∙ none))
        ]
        | inr less ↦ omega arith
      ]

  max_from-Result :
      (fuel : ℕ) (p : Spot cmpf s limit whole) (z : ℤ)
      → nodes_below cmpf s limit whole p + size whole < fuel
      → Result cmpf s limit whole parted (max_from cmpf s limit fuel p.node z)
  max_from-Result zero p z enough = absurd (omega arith)
  max_from-Result (suc fuel) p z enough =
      let (q, run, at_most, _, stop) =
        rightward-Spot cmpf s limit whole fuel p.place p.node p.colour p.left p.right (omega arith)
          p.stands p.bound p.here in
      let (w, run', at_most', moved, stop') =
        leftward-Spot cmpf s limit whole fuel q.place q.node q.colour q.left q.right (omega arith)
          q.stands q.bound q.here in
      round-Result fuel p q w z (omega arith) run run' at_most stop moved stop'
        (λ less. max_from-Result fuel w (sign cmpf s limit whole w.node) (omega arith))

-- `rbtree_search_max` of a limit that is not NULL, in a tree with the nodes that are not greater first, with
-- more rounds than twice the nodes: it gives a node that is equal to the limit or the last that is not
-- greater, and NULL when all nodes are greater.
pub rbtree_search_max-Greatest :
    (cmpf : ℕ → ℕ → ℤ) (fuel : ℕ) (s : Store) (limit : ℕ) (t : Shape)
    → limit ≢ 0
    → StandsIn s top t
    → Parted (at_most_in cmpf s.node limit) (inorder t)
    → 2 * size t < fuel
    → Greatest cmpf s limit t (rbtree_search_max cmpf fuel s limit)
unfolding rbtree_search_max max_from
rbtree_search_max-Greatest cmpf zero s limit t some h parted enough = absurd (omega arith)
rbtree_search_max-Greatest cmpf (suc fuel) s limit leaf some h parted enough =
    let root : s.root ≡ 0 = h.around in inl (simp (==_ne limit 0 some, root) refl, tt)
rbtree_search_max-Greatest cmpf (suc fuel) s limit (fork a c l r) some h parted enough =
    let root : s.root ≡ a = h.around in
    subst (Greatest cmpf s limit (fork a c l r))
      {x = within (max_from cmpf s limit (suc fuel) a (pos 0))}
      {y = rbtree_search_max cmpf (suc fuel) s limit} (sym (rw (==_ne limit 0 some, root) refl))
      (max_from-Result cmpf s limit (fork a c l r) parted (suc fuel)
        (record {
          place = top;
          node = a;
          colour = c;
          left = l;
          right = r;
          stands = h;
          bound = tt;
          here = refl;
        })
        (pos 0) (omega arith))
