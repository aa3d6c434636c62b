-- ===== src/Slist/Chain.antt =====
-- The nodes of a list of kernel/lib/ds/slist.c, and what its operations make of them.
use yaeos.Prelude.{ℕ, zero, suc, ◌≡◌, ◌≢◌, refl, sym, ◌∙◌, arith, ◌<◌}
use yaeos.Prelude.{List, [], ◌∷◌, ◌++◌, length, ==_ne, ==_refl, ok}
use yaeos.Slist.{Heap, assign, insert, remove_from, remove}

-- The node is none of these.
pub data Apart (a : ℕ) : List ℕ → Type 0 where
  nil : Apart a []
  cons : {ns : List ℕ} (n : ℕ) → a ≢ n → Apart a ns → Apart a (n ∷ ns)

-- The nodes behind a node, up to NULL, all different.
pub data Chain (heap : Heap) : ℕ → List ℕ → Type 0 where
  end : (p : ℕ) → p ≢ 0 → heap p ≡ 0 → Chain heap p []
  link :
      {ns : List ℕ} (p n : ℕ)
      → p ≢ 0
      → heap p ≡ n
      → Apart p (n ∷ ns)
      → Chain heap n ns
      → Chain heap p (n ∷ ns)

-- An assignment to another node leaves the list alone.
pub Chain-assign :
    {heap : Heap} {p : ℕ} {ns : List ℕ} (a v : ℕ)
    → Chain heap p ns
    → a ≢ p
    → Apart a ns
    → Chain (assign heap a v) p ns
Chain-assign a v (end p h e) other nil = end p h (rw (==_ne p a (λ x. other (sym x))) e)
Chain-assign a v (link p n h e apart c) other (cons _ ne more) =
    link p n h (rw (==_ne p a (λ x. other (sym x))) e) apart (Chain-assign a v c ne more)

pub Chain-start : {heap : Heap} {p : ℕ} {ns : List ℕ} → Chain heap p ns → p ≢ 0
Chain-start (end p h e) = h
Chain-start (link p n h e apart c) = h

pub Apart-head : {a x : ℕ} {xs : List ℕ} → Apart a (x ∷ xs) → a ≢ x
Apart-head (cons _ ne more) = ne

pub Apart-tail : {a x : ℕ} {xs : List ℕ} → Apart a (x ∷ xs) → Apart a xs
Apart-tail (cons _ ne more) = more

pub Apart-without :
    {a : ℕ} (xs : List ℕ) (n : ℕ) (ys : List ℕ) → Apart a (xs ++ n ∷ ys) → Apart a (xs ++ ys)
Apart-without [] _ ys (cons n ne more) = more
Apart-without (x ∷ xs) n ys (cons _ ne more) = cons x ne (Apart-without xs n ys more)

pub Apart-member : {a : ℕ} (xs : List ℕ) (n : ℕ) (ys : List ℕ) → Apart a (xs ++ n ∷ ys) → a ≢ n
Apart-member [] _ ys (cons n ne more) = ne
Apart-member (x ∷ xs) n ys (cons _ ne more) = Apart-member xs n ys more

pub Apart-before : {a : ℕ} (xs : List ℕ) (ys : List ℕ) → Apart a (xs ++ ys) → Apart a xs
Apart-before [] ys h = nil
Apart-before (x ∷ xs) ys (cons _ ne more) = cons x ne (Apart-before xs ys more)

pub Chain-Apart : {heap : Heap} {p : ℕ} {ns : List ℕ} → Chain heap p ns → Apart p ns
Chain-Apart (end p h e) = nil
Chain-Apart (link p n h e apart c) = apart

-- A node that takes over the `next` of another.
pub Chain-copy :
    {heap : Heap} {p : ℕ} {ns : List ℕ} (new : ℕ)
    → Chain heap p ns
    → new ≢ 0
    → Apart new ns
    → Chain (assign heap new (heap p)) new ns
Chain-copy new (end p h e) some nil = end new some (rw (==_refl new) e)
Chain-copy new (link p n h e apart c) some away =
    link new n some (rw (==_refl new) e) away
      (Chain-assign new _ c (Apart-head away) (Apart-tail away))

pub Chain-insert_first :
    {heap : Heap} {p : ℕ} {ns : List ℕ} (new : ℕ)
    → Chain heap p ns
    → new ≢ 0
    → new ≢ p
    → Apart new ns
    → Chain (assign (assign heap new (heap p)) p new) p (new ∷ ns)
Chain-insert_first {p = p} new c some other apart =
    link p new (Chain-start c) (rw (==_refl p) refl) (cons new (λ e. other (sym e)) (Chain-Apart c))
      (Chain-assign p new (Chain-copy new c some apart) (λ e. other (sym e)) (Chain-Apart c))

-- `slist_insert` of a node that is not in the list puts it behind the given node.
pub insert_lem :
    (heap : Heap) (p new : ℕ) (ns : List ℕ)
    → Chain heap p ns
    → new ≢ 0
    → new ≢ p
    → Apart new ns
    → (heap' : Heap) × (insert heap p new ≡ ok heap') × Chain heap' p (new ∷ ns)
unfolding insert
insert_lem heap p new ns c some other apart = (
  assign (assign heap new (heap p)) p new,
  rw (==_ne p 0 (Chain-start c), ==_ne new 0 some) refl,
  Chain-insert_first new c some other apart,
)

pub second :
    {heap : Heap} {p : ℕ} (xs : List ℕ) (n : ℕ) (ys : List ℕ)
    → Chain heap p (xs ++ n ∷ ys)
    → heap p ≢ 0
second [] _ ys (link _ _ some e apart c) z = Chain-start c (sym e ∙ z)
second (x ∷ xs) n ys (link _ _ some e apart c) z = Chain-start c (sym e ∙ z)

pub member_some :
    {heap : Heap} {p : ℕ} (xs : List ℕ) (n : ℕ) (ys : List ℕ) → Chain heap p (xs ++ n ∷ ys) → n ≢ 0
member_some [] _ ys (link _ _ some e apart c) = Chain-start c
member_some (x ∷ xs) n ys (link _ _ some e apart c) = member_some xs n ys c

-- What the loop of `slist_remove` leaves: the list without the node, and the other nodes as they were.
remove_from_lem :
    (xs : List ℕ) (heap : Heap) (p n fuel : ℕ) (ys : List ℕ)
    → Chain heap p (xs ++ n ∷ ys)
    → length xs < fuel
    → (heap' : Heap) × (remove_from fuel heap p n ≡ ok heap')
      × Chain heap' p (xs ++ ys)
      × ((a : ℕ) → a ≢ p → Apart a xs → heap' a ≡ heap a)
unfolding remove_from
remove_from_lem xs heap p n zero ys c h = absurd (omega arith)
remove_from_lem [] heap p n (suc fuel) ys (link _ _ some e apart c) h = (
  assign heap p (heap n),
  rw (e, ==_refl n) refl,
  Chain-copy p c some (Apart-tail apart),
  λ a other _. rw (==_ne a p other) refl,
)
remove_from_lem (x ∷ xs) heap p n (suc fuel) ys (link _ _ some e apart c) h =
    let differs = Apart-member xs n ys (Chain-Apart c) in
    let (heap', run, c', same) = remove_from_lem xs heap x n fuel ys c (omega arith) in
    (
      heap',
      rw (e, ==_ne x n differs, ==_ne x 0 (Chain-start c), ==_ne (heap x) 0 (second xs n ys c)) run,
      link p x some (same p (Apart-head apart) (Apart-before xs (n ∷ ys) (Apart-tail apart)) ∙ e)
          (Apart-without (x ∷ xs) n ys apart) c',
      λ a other more. same a (Apart-head more) (Apart-tail more),
    )

-- `slist_remove` of a node of the list takes it out and keeps the others in order; rounds above the
-- number of the nodes in front of it are enough.
pub remove_lem :
    (heap : Heap) (p n fuel : ℕ) (xs ys : List ℕ)
    → Chain heap p (xs ++ n ∷ ys)
    → length xs < fuel
    → (heap' : Heap) × (remove fuel heap p n ≡ ok heap') × Chain heap' p (xs ++ ys)
unfolding remove
remove_lem heap p n fuel xs ys c h =
    let (heap', run, c', same) = remove_from_lem xs heap p n fuel ys c h in
    (heap', rw (==_ne p 0 (Chain-start c), ==_ne n 0 (member_some xs n ys c)) run, c')

pub Apart-append : {a : ℕ} {xs : List ℕ} (n : ℕ) → Apart a xs → a ≢ n → Apart a (xs ++ n ∷ [])
Apart-append n nil ne = cons n ne nil
Apart-append n (cons x other more) ne = cons x other (Apart-append n more ne)

-- The heap after `slist_insert` behind the last node, where the new node is put at the end.
pub Chain-insert :
    (xs : List ℕ) (heap : Heap) (p m new : ℕ)
    → Chain heap p (xs ++ m ∷ [])
    → new ≢ 0
    → new ≢ p
    → Apart new (xs ++ m ∷ [])
    → Chain (assign (assign heap new (heap m)) m new) p ((xs ++ m ∷ []) ++ new ∷ [])
Chain-insert [] heap p m new (link _ _ some e apart c) some_new other away =
    link p m some (rw (==_ne p m (Apart-head apart), ==_ne p new (λ z. other (sym z))) e)
      (cons m (Apart-head apart) (cons new (λ z. other (sym z)) nil))
      (link m new (Chain-start c) (rw (==_refl m) refl)
        (cons new (λ z. Apart-head away (sym z)) nil)
        (Chain-assign m new (Chain-copy new c some_new nil) (λ z. Apart-head away (sym z)) nil))
Chain-insert (x ∷ xs) heap p m new (link _ _ some e apart c) some_new other away =
    link p x some
      (rw (==_ne p m (Apart-member xs m [] (Apart-tail apart)), ==_ne p new (λ z. other (sym z))) e)
      (Apart-append new apart (λ z. other (sym z)))
      (Chain-insert xs heap x m new c some_new (Apart-head away) (Apart-tail away))
