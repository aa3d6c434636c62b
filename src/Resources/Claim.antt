-- ===== src/Resources/Claim.antt =====
-- The claims of kernel/kernel/resources.c move a resource from one list to the other.
use yaeos.Prelude.{
  ℕ, zero, suc, ◌≡◌, ◌≢◌, ◌<◌, refl, sym, arith, true, false, List, [], ◌∷◌, ◌++◌, length,
}
use yaeos.Prelude.{some, ok, ==_ne, ◌==◌}
use yaeos.Slist.{Heap, assign, next, insert, remove_next}
use yaeos.Slist.Chain.{
  Apart, Chain, link, Chain-start, Chain-assign, Chain-insert_first, Apart-without, Apart-before,
  Apart-member, member_some,
}
use yaeos.Slist.Last.{last_of, last_of-next, last_of-Apart, Chain-remove, member-Apart}
use yaeos.Resources.{
  Registry, ResourceType, owner_none, owner_state, container_check, same_type, update, find_before,
  take_over, claim, claim_by_type,
}

-- No node of the first list is one of the second.
pub data Disjoint : List ℕ → List ℕ → Type 0 where
  no_node : {cs : List ℕ} → Disjoint [] cs
  and_node : {fs cs : List ℕ} (f : ℕ) → Apart f cs → Disjoint fs cs → Disjoint (f ∷ fs) cs

-- The two lists of the registry: the free and the claimed resources.
pub record Lists (g : Registry) (claimed_head free_head : ℕ) (fs cs : List ℕ) : Type 0 where
  pub free : Chain g.heap free_head fs
  pub claimed : Chain g.heap claimed_head cs
  pub two_heads : claimed_head ≢ free_head
  pub claimed_apart : Apart claimed_head fs
  pub free_apart : Apart free_head cs
  pub disjoint : Disjoint fs cs

-- The resources around the list nodes are aligned.
abbrev pub AllAligned : List ℕ → Type 0
AllAligned [] = Unit {0}
AllAligned (x ∷ xs) = (container_check x ≡ ok tt) × AllAligned xs

-- No resource of the list has the type.
pub data NoneOf (g : Registry) (kind : ResourceType) : List ℕ → Type 0 where
  none_left : NoneOf g kind []
  other_kind :
      {xs : List ℕ} (x : ℕ)
      → same_type ((g.resource_of x).kind) kind ≡ false
      → NoneOf g kind xs
      → NoneOf g kind (x ∷ xs)

-- The loop stops in front of the first resource of the type.
find_before_lem :
    (xs : List ℕ) (g : Registry) (kind : ResourceType) (claimed_head free_head : ℕ)
    (node_at : ℕ → ℕ) (p n fuel : ℕ) (ys : List ℕ)
    → Chain g.heap p (xs ++ n ∷ ys)
    → NoneOf g kind xs
    → same_type ((g.resource_of n).kind) kind ≡ true
    → AllAligned (xs ++ n ∷ ys)
    → length xs < fuel
    → find_before claimed_head free_head node_at fuel g (λ r. ok (same_type r.kind kind)) p
      ≡ ok (some (last_of p xs))
unfolding find_before next
find_before_lem xs g kind ch fh na p n zero ys c no_one is fit h = absurd (omega arith)
find_before_lem [] g kind ch fh na p n (suc fuel) ys (link _ _ some_p e apart c) no_one is fit h =
    rw (==_ne p 0 some_p, e, ==_ne n 0 (Chain-start c), fit.0, is) refl
find_before_lem (x ∷ xs) g kind ch fh na p n (suc fuel) ys (link _ _ some_p e apart c)
      (other_kind _ no_x no_one) is fit h =
    rw (==_ne p 0 some_p, e, ==_ne x 0 (Chain-start c), fit.0, no_x)
      (find_before_lem xs g kind ch fh na x n fuel ys c no_one is fit.1 (omega arith))

Disjoint-last :
    {cs : List ℕ} (p : ℕ) (xs : List ℕ) (n : ℕ) (ys : List ℕ)
    → Apart p cs
    → Disjoint (xs ++ n ∷ ys) cs
    → Apart (last_of p xs) cs
Disjoint-last p [] n ys apart d = apart
Disjoint-last p (x ∷ xs) n ys apart (and_node _ away d) = Disjoint-last x xs n ys away d

Disjoint-member :
    {cs : List ℕ} (xs : List ℕ) (n : ℕ) (ys : List ℕ) → Disjoint (xs ++ n ∷ ys) cs → Apart n cs
Disjoint-member [] n ys (and_node _ away d) = away
Disjoint-member (x ∷ xs) n ys (and_node _ away d) = Disjoint-member xs n ys d

take_over_run :
    (g : Registry) (ch fh : ℕ) (node_at : ℕ → ℕ) (owner cursor n : ℕ)
    → cursor ≢ 0
    → n ≢ 0
    → ch ≢ 0
    → g.heap cursor ≡ n
    → container_check n ≡ ok tt
    → owner_state (g.resource_of n).owner ≡ owner_none
    → take_over ch fh node_at g owner cursor
      ≡ ok (
        some n,
        record g {
          heap =
              assign
                (assign (assign g.heap cursor (g.heap n)) n (assign g.heap cursor (g.heap n) ch))
                ch
                n;
          resource_of = update g.resource_of n (record (g.resource_of n) { owner = owner });
        },
      )
unfolding take_over next remove_next insert
take_over_run g ch fh node_at owner cursor n some_cursor some_n some_ch e fit nobody =
    let free : (owner_state (g.resource_of n).owner == owner_none) ≡ true = ground arith in
    rw (==_ne cursor 0 some_cursor, e, ==_ne n 0 some_n, ==_ne ch 0 some_ch, fit, free) refl

AllAligned-member :
    (xs : List ℕ) (n : ℕ) (ys : List ℕ) → AllAligned (xs ++ n ∷ ys) → container_check n ≡ ok tt
AllAligned-member [] n ys fit = fit.0
AllAligned-member (x ∷ xs) n ys fit = AllAligned-member xs n ys fit.1

moved_free :
    {g : Registry} {ch fh : ℕ} {cs : List ℕ} (xs : List ℕ) (n : ℕ) (ys : List ℕ)
    → Lists g ch fh (xs ++ n ∷ ys) cs
    → (v : ℕ)
    → Chain (assign (assign (assign g.heap (last_of fh xs) (g.heap n)) n v) ch n) fh (xs ++ ys)
moved_free {ch = ch} {fh = fh} xs n ys l v =
    let (other, away) = member-Apart fh xs n ys l.free in
    Chain-assign ch n (Chain-assign n v (Chain-remove fh xs n ys l.free) other away) l.two_heads
      (Apart-without xs n ys l.claimed_apart)

moved_claimed :
    {g : Registry} {ch fh : ℕ} {cs : List ℕ} (xs : List ℕ) (n : ℕ) (ys : List ℕ)
    → Lists g ch fh (xs ++ n ∷ ys) cs
    → Chain
        (assign
          (assign
            (assign g.heap (last_of fh xs) (g.heap n))
            n
            (assign g.heap (last_of fh xs) (g.heap n) ch))
          ch
          n)
        ch
        (n ∷ cs)
moved_claimed {ch = ch} {fh = fh} xs n ys l =
    let away = Apart-before xs (n ∷ ys) l.claimed_apart in
    let other : last_of fh xs ≢ ch = λ z. last_of-Apart fh xs l.two_heads away (sym z) in
    let still =
      Chain-assign (last_of fh xs) _ l.claimed other
        (Disjoint-last fh xs n ys l.free_apart l.disjoint) in
    Chain-insert_first n still (member_some xs n ys l.free)
      (λ z. Apart-member xs n ys l.claimed_apart (sym z)) (Disjoint-member xs n ys l.disjoint)

-- When the resources around the free list nodes are aligned, a claim by type takes the first free resource
-- of the type, which must have no owner by the low byte of its owner word: it becomes
-- the first claimed one and has the new owner, and the other free ones keep their order. More rounds
-- than resources stand in front of it are enough.
pub claim_by_type_lem :
    (g : Registry) (claimed_head free_head : ℕ) (node_at : ℕ → ℕ) (kind : ResourceType)
    (owner fuel : ℕ) (xs : List ℕ) (n : ℕ) (ys cs : List ℕ)
    → Lists g claimed_head free_head (xs ++ n ∷ ys) cs
    → NoneOf g kind xs
    → same_type ((g.resource_of n).kind) kind ≡ true
    → owner_state (g.resource_of n).owner ≡ owner_none
    → AllAligned (xs ++ n ∷ ys)
    → length xs < fuel
    → (heap' : Heap) × (claim_by_type claimed_head free_head node_at fuel g kind owner
        ≡ ok (
          some n,
          record g {
            heap = heap';
            resource_of = update g.resource_of n (record (g.resource_of n) { owner = owner });
          },
        ))
      × Chain heap' free_head (xs ++ ys)
      × Chain heap' claimed_head (n ∷ cs)
unfolding claim_by_type claim
claim_by_type_lem g ch fh node_at kind owner fuel xs n ys cs l no_one is nobody fit h =
    let (e, some_cursor) = last_of-next fh xs n ys l.free in
    let found = find_before_lem xs g kind ch fh node_at fh n fuel ys l.free no_one is fit h in
    (
      _,
      rw found (
          take_over_run g ch fh node_at owner (last_of fh xs) n some_cursor
            (member_some xs n ys l.free) (Chain-start l.claimed) e (AllAligned-member xs n ys fit)
            nobody),
      moved_free xs n ys l _,
      moved_claimed xs n ys l,
    )
