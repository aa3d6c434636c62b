-- ===== src/Rbtree/Undone.antt =====
-- `rbtree_delete` of kernel/lib/ds/rbtree.c on whole trees, and after `rbtree_insert`.
use yaeos.Prelude.{
  ℕ, suc, ◌+◌, ◌<◌, ◌≤◌, ◌≡◌, ◌≢◌, refl, sym, ap, ◌∙◌, arith, inl, inr, Bool, Bool-cases, ◌==◌,
  ==_refl, if◌then◌else◌, List, [], ◌∷◌, ◌++◌, ℤ, Outcome, ◌>>=◌,
}
use mathlib.Core.Path.{subst}
use yaeos.Rbtree.{Store}
use yaeos.Rbtree.Shape.{Shape, leaf, fork, one_at, count, inorder, top}
use yaeos.Rbtree.Rotate.{StandsIn}
use yaeos.Rbtree.Climb.{Final, Final->>=, Final-weaken}
use yaeos.Rbtree.Balance.{Whole}
use yaeos.Rbtree.Graft.{Parted, insert_before}
use yaeos.Rbtree.Attach.{size, below_in}
use yaeos.Rbtree.Insert.{rbtree_insert-Inserted}
use yaeos.Rbtree.Removed.{Removed}
use yaeos.Rbtree.Located.{locate, StandsIn-unplug}
use yaeos.Rbtree.Deleted.{rbtree_delete_at-Removed}
use yaeos.Rbtree.Update.{rbtree_insert}
use yaeos.Rbtree.Delete.{rbtree_delete}

-- `rbtree_delete` of any node of a red-black tree ends without a fault or a failed assertion, when the fuel
-- exceeds the number of the nodes. The tree stays red-black, the other nodes stay in their order, and all
-- contents stay.
pub rbtree_delete_any-Removed :
    (fuel : ℕ) (s : Store) (x : ℕ) (t : Shape)
    → 1 ≤ count x t
    → size t < fuel
    → StandsIn s top t
    → Whole t
    → Removed s (rbtree_delete fuel s x) x t
rbtree_delete_any-Removed fuel s x t there enough h whole =
    let (k, c, l, r, here) = locate x t top there in
    subst (λ u. size u < fuel → StandsIn s top u → Whole u → Removed s (rbtree_delete fuel s x) x u)
      here
      (λ enough' h' whole'.
        rbtree_delete_at-Removed fuel s k x c l r enough' (StandsIn-unplug s k (fork x c l r) h')
          whole')
      enough h whole

-- A sum over a list: the length, or how often a node occurs.
abbrev weight : (ℕ → ℕ) → List ℕ → ℕ
weight f [] = 0
weight f (a ∷ xs) = f a + weight f xs

weight-append : (f : ℕ → ℕ) (xs ys : List ℕ) → weight f (xs ++ ys) ≡ weight f xs + weight f ys
weight-append f [] ys = omega arith
weight-append f (a ∷ xs) ys = let ih = weight-append f xs ys in omega arith

weight-inorder-count : (x : ℕ) (t : Shape) → weight (one_at x) (inorder t) ≡ count x t
unfolding count
weight-inorder-count x leaf = refl
weight-inorder-count x (fork a c l r) =
    let e = weight-append (one_at x) (inorder l) (a ∷ inorder r) in
    let el = weight-inorder-count x l in let er = weight-inorder-count x r in omega arith

weight-inorder-size : (t : Shape) → weight (λ _. 1) (inorder t) ≡ size t
weight-inorder-size leaf = refl
weight-inorder-size (fork a c l r) =
    let e = weight-append (λ _. 1) (inorder l) (a ∷ inorder r) in
    let el = weight-inorder-size l in let er = weight-inorder-size r in omega arith

weight-insert_before :
    (f : ℕ → ℕ) (below : ℕ → Bool) (new : ℕ) (xs : List ℕ)
    → weight f (insert_before below new xs) ≡ f new + weight f xs
weight-insert_before f below new [] = refl
weight-insert_before f below new (a ∷ xs) = elim (Bool-cases (below a)) [
  | inl e ↦ rw e (let ih = weight-insert_before f below new xs in omega arith)
  | inr e ↦ rw e refl
]

-- The list without a node.
abbrev without : ℕ → List ℕ → List ℕ
without x [] = []
without x (a ∷ xs) = if x == a then without x xs else a ∷ without x xs

without-none : (x : ℕ) (xs : List ℕ) → weight (one_at x) xs ≡ 0 → without x xs ≡ xs
without-none x [] none = refl
without-none x (a ∷ xs) none = elim (Bool-cases (x == a)) [
  | inl e ↦ absurd (ground arith)
  | inr e ↦ rw e (ap (λ zs. a ∷ zs) (without-none x xs (ground arith)))
]

without-append : (x : ℕ) (xs ys : List ℕ) → without x (xs ++ ys) ≡ without x xs ++ without x ys
without-append x [] ys = refl
without-append x (a ∷ xs) ys = elim (Bool-cases (x == a)) [
  | inl e ↦ rw e (without-append x xs ys)
  | inr e ↦ rw e (ap (λ zs. a ∷ zs) (without-append x xs ys))
]

without-insert_before :
    (below : ℕ → Bool) (x : ℕ) (xs : List ℕ)
    → weight (one_at x) xs ≡ 0
    → without x (insert_before below x xs) ≡ xs
without-insert_before below x [] none = rw (==_refl x) refl
without-insert_before below x (a ∷ xs) none = elim (Bool-cases (below a)) [
  | inl e ↦ elim (Bool-cases (x == a)) [
    | inl e' ↦ absurd (ground arith)
    | inr e' ↦ rw (e, e') (ap (λ zs. a ∷ zs) (without-insert_before below x xs (ground arith)))
  ]
  | inr e ↦ rw (e, ==_refl x) (without-none x (a ∷ xs) none)
]

-- The nodes around one that was put in are those that were there before.
around-insert_before :
    (below : ℕ → Bool) (x : ℕ) (xs lower upper : List ℕ)
    → weight (one_at x) xs ≡ 0
    → insert_before below x xs ≡ lower ++ x ∷ upper
    → lower ++ upper ≡ xs
around-insert_before below x xs lower upper none order =
    let e = ==_refl x in
    let total = weight-insert_before (one_at x) below x xs in
    let same = ap (weight (one_at x)) order in
    let split = weight-append (one_at x) lower (x ∷ upper) in
    let kept_l = without-none x lower (ground arith) in
    let kept_u = without-none x upper (ground arith) in
    let kept_x : without x (x ∷ upper) ≡ upper = rw e kept_u in
    sym (ap (λ zs. zs ++ upper) kept_l)
    ∙ ap (λ zs. without x lower ++ zs) (sym kept_x)
    ∙ sym (without-append x lower (x ∷ upper))
    ∙ ap (without x) (sym order)
    ∙ without-insert_before below x xs none

-- The same nodes in the same order stand in a red-black tree.
abbrev pub Restored : Store → Outcome Store → Shape → Type 0
Restored s run t =
    Final s run
      (λ s'. (after : Shape) × StandsIn s' top after × (inorder after ≡ inorder t) × Whole after)

-- What a deletion finds after an insertion.
deleted-Restored :
    (fuel : ℕ) (below : ℕ → Bool) (new : ℕ) (t after : Shape) (s : Store)
    → count new t ≡ 0
    → suc (size t) < fuel
    → StandsIn s top after
    → inorder after ≡ insert_before below new (inorder t)
    → Whole after
    → Restored s (rbtree_delete fuel s new) t
deleted-Restored fuel below new t after s none enough h order whole =
    let e = ==_refl new in
    let none_in = weight-inorder-count new t in
    let there = weight-inorder-count new after in
    let there_in = weight-insert_before (one_at new) below new (inorder t) in
    let same = ap (weight (one_at new)) order in
    let long = weight-inorder-size after in
    let long_in = weight-insert_before (λ _. 1) below new (inorder t) in
    let long_t = weight-inorder-size t in
    let same_long = ap (weight (λ _. 1)) order in
    let (lower, upper, nodes, run) =
      rbtree_delete_any-Removed fuel s new after (ground arith) (omega arith) h whole in
    let kept =
      around-insert_before below new (inorder t) lower upper (omega arith) (sym order ∙ nodes) in
    Final-weaken s (rbtree_delete fuel s new) _ _ run (λ s' q. (q.0, q.1, q.2 ∙ kept, q.3))

-- In a red-black tree with the nodes of lesser content first, `rbtree_delete` of the node that
-- `rbtree_insert` has put in, with more rounds than the nodes and one, ends without a fault or a failed
-- assertion and leaves a red-black tree of the nodes that were there before, in their order. The contents stay.
pub rbtree_delete-rbtree_insert :
    (cmpf : ℕ → ℕ → ℤ) (fuel : ℕ) (s : Store) (t : Shape) (new : ℕ)
    → new ≢ 0
    → StandsIn s top t
    → Whole t
    → count new t ≡ 0
    → suc (size t) < fuel
    → Parted (below_in cmpf s.node (s.node new).content) (inorder t)
    → Restored s (rbtree_insert cmpf fuel s new >>= (λ s'. rbtree_delete fuel s' new)) t
rbtree_delete-rbtree_insert cmpf fuel s t new some h whole none enough parted =
    Final->>= s (rbtree_insert cmpf fuel s new) (λ s'. rbtree_delete fuel s' new) _ _
      (rbtree_insert-Inserted cmpf fuel s t new some h whole none (omega arith) parted)
      (λ s' q.
        deleted-Restored fuel (below_in cmpf s.node (s.node new).content) new t q.0 s' none enough
          q.1 q.2 q.3)
