-- ===== src/Rbtree/LeastRound.antt =====
-- What `rbtree_search_min` of kernel/lib/ds/rbtree.c finds.
use yaeos.Prelude.{
  ℕ, zero, suc, ◌+◌, ◌<◌, ◌≤◌, ◌≡◌, ◌≢◌, ◌⊎◌, inl, inr, refl, sym, ap, ◌∙◌, arith, true, false,
  ==_ne, ◌++◌, [], append-nil, ℤ, pos, negsuc, ◌*◌, ok,
}
use mathlib.Core.Path.{subst}
use yaeos.Rbtree.{Colour, Store}
use yaeos.Rbtree.Shape.{Shape, leaf, fork, inorder, Place, top, plug}
use yaeos.Rbtree.Rotate.{StandsIn}
use yaeos.Rbtree.Graft.{Parted}
use yaeos.Rbtree.Attach.{size}
use yaeos.Rbtree.RedUncle.{depth}
use yaeos.Rbtree.LastNode.{depth-size}
use yaeos.Rbtree.Range.{before}
use yaeos.Rbtree.Update.{is_positive, is_negative}
use yaeos.Rbtree.Found.{ℤ-cases, clash, less_in}
use yaeos.Rbtree.Spot.{
  sign, Bound, Spot, nodes_below, leftward-Spot, rightward-Spot, positive-not-negative,
}
use yaeos.Rbtree.Search.{is_zero, leftward, rightward, min_from, rbtree_search_min}
use yaeos.Rbtree.Least.{
  AllBelow, before-AllBelow, Least, decide, min_from-round, order-here, past-Least,
}

module _ (cmpf : ℕ → ℕ → ℤ) (s : Store) (limit : ℕ) (whole : Shape) where
  zero-not-negative : (z : ℤ) → is_zero z ≡ true → is_negative z ≡ false
  zero-not-negative (pos n) e = refl
  zero-not-negative (negsuc n) e = cc

  module _ (fuel : ℕ) (k : Place) (a : ℕ) (c : Colour)
      (parted : Parted (less_in cmpf s.node limit) (inorder whole))
      (bound : Bound cmpf s limit whole k) where
    decide-below :
        (l : Shape)
        → is_zero (sign cmpf s limit whole a) ≡ false
        → is_negative (sign cmpf s limit whole a) ≡ true
        → depth k < fuel
        → StandsIn s k (fork a c l leaf)
        → plug k (fork a c l leaf) ≡ whole
        → Least cmpf s limit whole (decide cmpf s limit whole fuel a)
    decide-below l e₀ e enough h here =
        subst (Least cmpf s limit whole) (sym (simp (e₀, e, h.held.0.right_link) refl))
          (past-Least cmpf s limit whole fuel k a c l parted bound e enough h here)

    decide-over :
        (r : Shape)
        → is_zero (sign cmpf s limit whole a) ≡ false
        → is_positive (sign cmpf s limit whole a) ≡ true
        → StandsIn s k (fork a c leaf r)
        → plug k (fork a c leaf r) ≡ whole
        → Least cmpf s limit whole (decide cmpf s limit whole fuel a)
    decide-over r e₀ e h here =
        let neg = positive-not-negative cmpf s limit whole (sign cmpf s limit whole a) e in
        inr (
          record {
            place = k;
            node = a;
            colour = c;
            left = leaf;
            right = r;
            stands = h;
            bound = bound;
            here = here;
          },
          simp (e₀, e, neg, h.held.0.left_link) refl,
          neg,
          before k ++ [],
          order-here cmpf s limit whole fuel k a c leaf parted bound r here,
          inr (
              subst (λ zs. AllBelow (less_in cmpf s.node limit) zs) (sym (append-nil (before k)))
                (before-AllBelow cmpf s limit whole k (fork a c leaf r) bound
                  (subst (λ t. Parted (less_in cmpf s.node limit) (inorder t)) (sym here) parted))),
        )

    decide-equal :
        (l r : Shape)
        → is_zero (sign cmpf s limit whole a) ≡ true
        → StandsIn s k (fork a c l r)
        → plug k (fork a c l r) ≡ whole
        → Least cmpf s limit whole (decide cmpf s limit whole fuel a)
    decide-equal l r e h here = inr (
      record {
        place = k;
        node = a;
        colour = c;
        left = l;
        right = r;
        stands = h;
        bound = bound;
        here = here;
      },
      simp e refl,
      zero-not-negative (sign cmpf s limit whole a) e,
      before k ++ inorder l,
      order-here cmpf s limit whole fuel k a c l parted bound r here,
      inl e,
    )

    decide-again :
        (b : ℕ) (d : Colour) (u v r : Shape)
        → is_zero (sign cmpf s limit whole a) ≡ false
        → is_positive (sign cmpf s limit whole a) ≡ true
        → StandsIn s k (fork a c (fork b d u v) r)
        → Least cmpf s limit whole (min_from cmpf s limit fuel a)
        → Least cmpf s limit whole (decide cmpf s limit whole fuel a)
    decide-again b d u v r e₀ e h again =
        let neg = positive-not-negative cmpf s limit whole (sign cmpf s limit whole a) e in
        subst (Least cmpf s limit whole)
          (sym (simp (e₀, e, neg, h.held.0.left_link, ==_ne b 0 h.held.1.0.some_node) refl)) again

    decide-Least :
        (l r : Shape)
        → depth k < fuel
        → StandsIn s k (fork a c l r)
        → plug k (fork a c l r) ≡ whole
        → ((is_negative (sign cmpf s limit whole a) ≡ false) ⊎ (r ≡ leaf))
        → ((is_positive (sign cmpf s limit whole a) ≡ true)
            → (l ≢ leaf)
            → Least cmpf s limit whole (min_from cmpf s limit fuel a))
        → Least cmpf s limit whole (decide cmpf s limit whole fuel a)
    decide-Least l r enough h here stop again = elim (ℤ-cases (sign cmpf s limit whole a)) [
      | inl e ↦ decide-equal l r e h here
      | inr (inl (e₀, e)) ↦ over l e₀ e h here again
      | inr (inr (e₀, _, e)) ↦ elim stop [
        | inl e' ↦ absurd (clash (is_negative (sign cmpf s limit whole a)) e e')
        | inr none ↦
            decide-below l e₀ e enough (subst (λ t. StandsIn s k (fork a c l t)) none h)
              (subst (λ t. plug k (fork a c l t) ≡ whole) none here)
      ]
    ]
      where
        over :
            (l : Shape)
            → is_zero (sign cmpf s limit whole a) ≡ false
            → is_positive (sign cmpf s limit whole a) ≡ true
            → StandsIn s k (fork a c l r)
            → plug k (fork a c l r) ≡ whole
            → ((is_positive (sign cmpf s limit whole a) ≡ true)
                → (l ≢ leaf)
                → Least cmpf s limit whole (min_from cmpf s limit fuel a))
            → Least cmpf s limit whole (decide cmpf s limit whole fuel a)
        over leaf e₀ e h here again = decide-over r e₀ e h here
        over (fork b d u v) e₀ e h here again = decide-again b d u v r e₀ e h (again e (λ eq. cc))

  -- A round that comes from `p` over `q` to `w`.
  round-Least :
      (fuel : ℕ) (p q w : Spot cmpf s limit whole)
      → Parted (less_in cmpf s.node limit) (inorder whole)
      → size whole ≤ fuel
      → leftward cmpf s limit fuel p.node (sign cmpf s limit whole p.node)
        ≡ ok (q.node, sign cmpf s limit whole q.node)
      → rightward cmpf s limit fuel q.node (sign cmpf s limit whole q.node)
        ≡ ok (w.node, sign cmpf s limit whole w.node)
      → nodes_below cmpf s limit whole q ≤ nodes_below cmpf s limit whole p
      → ((is_positive (sign cmpf s limit whole q.node) ≡ false) ⊎ (q.left ≡ leaf))
      → ((w.node ≡ q.node) × (w.left ≡ q.left))
        ⊎ (nodes_below cmpf s limit whole w < nodes_below cmpf s limit whole q)
      → ((is_negative (sign cmpf s limit whole w.node) ≡ false) ⊎ (w.right ≡ leaf))
      → (nodes_below cmpf s limit whole w < nodes_below cmpf s limit whole p
          → Least cmpf s limit whole (min_from cmpf s limit fuel w.node))
      → Least cmpf s limit whole (min_from cmpf s limit (suc fuel) p.node)
  round-Least fuel p q w parted enough run run' at_most stop moved stop' again =
      let deep = depth-size w.place (fork w.node w.colour w.left w.right) in
      let big = ap size w.here in
      subst (Least cmpf s limit whole)
        (sym (
          min_from-round cmpf s limit whole fuel p.node q.node w.node p.stands.held.0.some_node run
            run'))
        (decide-Least fuel w.place w.node w.colour parted w.bound w.left w.right (omega arith)
          w.stands w.here stop' (λ e some. again (closer e some)))
    where
      closer :
          is_positive (sign cmpf s limit whole w.node) ≡ true
          → w.left ≢ leaf
          → nodes_below cmpf s limit whole w < nodes_below cmpf s limit whole p
      closer e some = elim moved [
        | inl (same, same_left) ↦ elim stop [
          | inl e' ↦ absurd (
              clash (is_positive (sign cmpf s limit whole w.node)) e
                (ap (λ i. is_positive (sign cmpf s limit whole i)) same ∙ e'))
          | inr none ↦ absurd (some (same_left ∙ none))
        ]
        | inr less ↦ omega arith
      ]

  min_from-Least :
      (fuel : ℕ) (p : Spot cmpf s limit whole)
      → Parted (less_in cmpf s.node limit) (inorder whole)
      → nodes_below cmpf s limit whole p + size whole < fuel
      → Least cmpf s limit whole (min_from cmpf s limit fuel p.node)
  min_from-Least zero p parted enough = absurd (omega arith)
  min_from-Least (suc fuel) p parted enough =
      let (q, run, at_most, _, stop) =
        leftward-Spot cmpf s limit whole fuel p.place p.node p.colour p.left p.right (omega arith)
          p.stands p.bound p.here in
      let (w, run', at_most', moved, stop') =
        rightward-Spot cmpf s limit whole fuel q.place q.node q.colour q.left q.right (omega arith)
          q.stands q.bound q.here in
      round-Least fuel p q w parted (omega arith) run run' at_most stop moved stop'
        (λ less. min_from-Least fuel w parted (omega arith))

-- `rbtree_search_min` of a limit that is not NULL, in a tree of one node at least with the lesser nodes first,
-- with more rounds than twice the nodes: it gives a node that is equal to the limit or the first that is not
-- less; but when all nodes are less it reads through NULL.
pub rbtree_search_min-Least :
    (cmpf : ℕ → ℕ → ℤ) (fuel : ℕ) (s : Store) (limit a : ℕ) (c : Colour) (l r : Shape)
    → limit ≢ 0
    → StandsIn s top (fork a c l r)
    → Parted (less_in cmpf s.node limit) (inorder (fork a c l r))
    → 2 * size (fork a c l r) < fuel
    → Least cmpf s limit (fork a c l r) (rbtree_search_min cmpf fuel s limit)
unfolding rbtree_search_min
rbtree_search_min-Least cmpf fuel s limit a c l r some h parted enough =
    let root : s.root ≡ a = h.around in
    subst (Least cmpf s limit (fork a c l r)) (sym (simp (==_ne limit 0 some, root) refl)) (
      min_from-Least cmpf s limit (fork a c l r) fuel
        (record {
          place = top;
          node = a;
          colour = c;
          left = l;
          right = r;
          stands = h;
          bound = tt;
          here = refl;
        })
        parted (omega arith))
