-- ===== src/Kvstore/Remove.antt =====
-- `kvstore_remove` and `kvstore_change` of kernel/lib/ds/kvstore.c.
use yaeos.Prelude.{ℕ, suc, ◌<◌, ◌==◌, List, [], ◌∷◌, ◌≡◌, ◌≢◌, refl, ap, ◌∙◌, arith}
use yaeos.Prelude.{length, Outcome, ok, fault, if◌then◌else◌, Option, none, some, Bool, true, false}
use yaeos.Prelude.{Bool-cases, inl, inr, ==_ne}
use yaeos.Kvstore.{Kvstore, find, remove, remove_from, change, change_from}
use yaeos.Kvstore.Slots.{IsValid, AreSlots, nil, empty, full, entries, entries_of, lookup}
use yaeos.Kvstore.Slots.{entries_of-full}
use yaeos.Kvstore.Find.{Compares, find-eq-lookup}

module _ (name : ℕ → ℕ) (cmpfn : ℕ → ℕ → Outcome ℕ) where
  remove_from_fault :
      {ks vs : List ℕ}
      → AreSlots ks vs
      → (key : ℕ) → key ≢ 0
      → Compares name cmpfn
      → cmpfn 0 key ≡ fault
      → length (entries_of ks vs) < length ks
      → remove_from cmpfn (length ks) ks vs key ≡ fault
  unfolding remove_from
  remove_from_fault nil key h c nul room = absurd (omega arith)
  remove_from_fault (empty s) key h c nul room = rw nul
  remove_from_fault (full {ks} {vs} k v ne s) key h c nul room = rw (
    c.returns k key ne h,
    remove_from_fault s key h c nul (omega (arith, rw (entries_of-full v ks vs ne) at room)),
  )

  change_from_fault :
      {ks vs : List ℕ}
      → AreSlots ks vs
      → (key val : ℕ) → key ≢ 0
      → Compares name cmpfn
      → cmpfn 0 key ≡ fault
      → length (entries_of ks vs) < length ks
      → change_from cmpfn (length ks) ks vs key val ≡ fault
  unfolding change_from
  change_from_fault nil key val h c nul room = absurd (omega arith)
  change_from_fault (empty s) key val h c nul room = rw nul
  change_from_fault (full {ks} {vs} k v ne s) key val h c nul room = rw (
    c.returns k key ne h,
    change_from_fault s key val h c nul (omega (arith, rw (entries_of-full v ks vs ne) at room)),
  )

  -- `kvstore_remove` and `kvstore_change` fault on a store with an empty slot if `cmpfn` does on NULL.
  pub remove-change-fault :
      (kv : Kvstore) (v : IsValid kv) (key val : ℕ) (h : key ≢ 0)
      → Compares name cmpfn
      → cmpfn 0 key ≡ fault
      → length (entries kv) < kv.cap
      → (remove cmpfn kv key ≡ fault) × (change cmpfn kv key val ≡ fault)
  unfolding remove change
  remove-change-fault kv v key val h c nul room = (
    rw (
      ==_ne key 0 h,
      ← v.sized,
      remove_from_fault v.slots key h c nul (omega (arith, v, v.sized)),
    ),
    rw (
      ==_ne key 0 h,
      ← v.sized,
      change_from_fault v.slots key val h c nul (omega (arith, v, v.sized)),
    ),
  )

-- A `cmpfn` that also takes NULL for its first key, and tells it from `key`.
pub record TakesNull (cmpfn : ℕ → ℕ → Outcome ℕ) (key : ℕ) : Type 0 where
  pub result : ℕ
  pub returns : cmpfn 0 key ≡ ok result
  pub differs : (result == 0) ≡ false

record Removed (name : ℕ → ℕ) (ks vs : List ℕ) (key : ℕ) (ks' vs' : List ℕ) : Type 0 where
  pub slots : AreSlots ks' vs'
  pub sized : length ks' ≡ length ks
  pub finds :
      (q : ℕ)
      → lookup name (entries_of ks' vs') q
        ≡ (if name key == name q then none else lookup name (entries_of ks vs) q)

abbrev Removes : (ℕ → ℕ) → (ℕ → ℕ → Outcome ℕ) → List ℕ → List ℕ → ℕ → Type 0
Removes name cmpfn ks vs key =
    (ks' : List ℕ) × (vs' : List ℕ) × (remove_from cmpfn (length ks) ks vs key ≡ ok (ks', vs'))
    × Removed name ks vs key ks' vs'

if_same : (x : Option ℕ) (b : Bool) → x ≡ (if b then x else x)
if_same x true = refl
if_same x false = refl

-- Clearing an entry under the name, and passing one by that is under another.
lookup_cleared :
    (name : ℕ → ℕ) (k v key : ℕ) (r r' : Option ℕ) (q : ℕ)
    → (name k == name key) ≡ true
    → r' ≡ (if name key == name q then none else r)
    → r' ≡ (if name key == name q then none else (if name k == name q then some v else r))
lookup_cleared name k v key r r' q same e = rw e (grind (arith, same))

lookup_passed :
    (name : ℕ → ℕ) (k v key : ℕ) (r r' : Option ℕ) (q : ℕ)
    → (name k == name key) ≡ false
    → r' ≡ (if name key == name q then none else r)
    → (if name k == name q then some v else r')
      ≡ (if name key == name q then none else (if name k == name q then some v else r))
lookup_passed name k v key r r' q differ e = rw e (grind (arith, differ))

module _ (name : ℕ → ℕ) (cmpfn : ℕ → ℕ → Outcome ℕ) (c : Compares name cmpfn) where
  remove_step :
      {ks vs : List ℕ} (k v key : ℕ)
      → k ≢ 0
      → key ≢ 0
      → Removes name cmpfn ks vs key
      → Removes name cmpfn (k ∷ ks) (v ∷ vs) key
  unfolding remove_from
  remove_step {ks} {vs} k v key ne h (ks', vs', e, r) = elim (Bool-cases (name k == name key)) [
    | inl same ↦ (
      0 ∷ ks',
      0 ∷ vs',
      rw (c.returns k key ne h, e, c.decides k key ne h, same),
      record {
        slots = empty r.slots;
        sized = ap suc r.sized;
        finds = λ q.
            rw (entries_of-full v ks vs ne) (lookup_cleared name k v key _ _ q same (r.finds q));
      },
    )
    | inr differ ↦ (
      k ∷ ks',
      v ∷ vs',
      rw (c.returns k key ne h, e, c.decides k key ne h, differ),
      record {
        slots = full k v ne r.slots;
        sized = ap suc r.sized;
        finds = λ q.
            rw (entries_of-full v ks' vs' ne, entries_of-full v ks vs ne)
              (lookup_passed name k v key _ _ q differ (r.finds q));
      },
    )
  ]

  remove_empty :
      {ks vs : List ℕ} (key : ℕ)
      → TakesNull cmpfn key
      → Removes name cmpfn ks vs key
      → Removes name cmpfn (0 ∷ ks) (0 ∷ vs) key
  unfolding remove_from
  remove_empty {ks} {vs} key t (ks', vs', e, r) = (
    0 ∷ ks',
    0 ∷ vs',
    rw (t.returns, e, t.differs),
    record { slots = empty r.slots; sized = ap suc r.sized; finds = r.finds },
  )

  remove_from_lem :
      {ks vs : List ℕ}
      → AreSlots ks vs
      → (key : ℕ) → key ≢ 0
      → TakesNull cmpfn key
      → Removes name cmpfn ks vs key
  unfolding remove_from
  remove_from_lem nil key h t = (
    [],
    [],
    refl,
    record { slots = nil; sized = refl; finds = λ q. if_same none (name key == name q) },
  )
  remove_from_lem (empty s) key h t = remove_empty key t (remove_from_lem s key h t)
  remove_from_lem (full k v ne s) key h t = remove_step k v key ne h (remove_from_lem s key h t)

  -- A removal with a comparison that takes NULL returns a valid store, and a search there for any
  -- key finds nothing under the removed key's name and else what it found before.
  pub remove-find :
      (kv : Kvstore) (v : IsValid kv) (key q : ℕ) (h : key ≢ 0) (hq : q ≢ 0)
      → TakesNull cmpfn key
      → (kv' : Kvstore) × (remove cmpfn kv key ≡ ok kv')
        × IsValid kv'
        × (find cmpfn kv' q ≡ ok (if name key == name q then none else lookup name (entries kv) q))
  unfolding remove
  remove-find kv v key q h hq t =
      let (ks', vs', e, r) = remove_from_lem v.slots key h t in
      let kv' : Kvstore = record kv { keys = ks'; values = vs' } in
      let v' : IsValid kv' = record {
        slots = r.slots;
        sized = r.sized ∙ v.sized;
        bounded = v.bounded;
      } in
      (
        kv',
        rw (==_ne key 0 h, ← v.sized, e),
        v',
        find-eq-lookup name cmpfn c kv' v' q hq ∙ ap ok (r.finds q),
      )
