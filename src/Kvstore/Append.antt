-- ===== src/Kvstore/Append.antt =====
-- `kvstore_append` of kernel/lib/ds/kvstore.c.
use yaeos.Prelude.{ℕ, suc, ◌<◌, ◌==◌, List, ◌∷◌, ◌≡◌, ◌≢◌, ◌⊎◌, refl, sym, ap, ◌∙◌, arith}
use yaeos.Prelude.{length, Outcome, ok, panic, if◌then◌else◌, Option, none, some, false}
use yaeos.Prelude.{Bool-cases, inl, inr, ==_ne}
use yaeos.Kvstore.{Kvstore, find, append, append_from, is_none}
use yaeos.Kvstore.Slots.{IsValid, AreSlots, nil, empty, full, entries, entries_of, lookup}
use yaeos.Kvstore.Slots.{entries_of-full, entries_of_le}
use yaeos.Kvstore.Find.{Compares, find-eq-lookup}

-- The slots after an append, and what a lookup finds in them.
record Appended (name : ℕ → ℕ) (ks vs : List ℕ) (key val : ℕ) (ks' vs' : List ℕ) : Type 0 where
  pub slots : AreSlots ks' vs'
  pub sized : length ks' ≡ length ks
  pub finds :
      (q : ℕ)
      → lookup name (entries_of ks' vs') q
        ≡ (if name key == name q then some val else lookup name (entries_of ks vs) q)

abbrev Appends : (ℕ → ℕ) → (ℕ → ℕ → Outcome ℕ) → List ℕ → List ℕ → ℕ → ℕ → Type 0
Appends name cmpfn ks vs key val =
    (ks' : List ℕ) × (vs' : List ℕ) × (append_from cmpfn (length ks) ks vs key val ≡ ok (ks', vs'))
    × Appended name ks vs key val ks' vs'

-- A key that comes first in the list of entries, of those under its name, may move anywhere.
lookup_swap :
    (name : ℕ → ℕ) (k v key val : ℕ) (r r' : Option ℕ) (q : ℕ)
    → (name k == name key) ≡ false
    → r' ≡ (if name key == name q then some val else r)
    → (if name k == name q then some v else r')
      ≡ (if name key == name q then some val else (if name k == name q then some v else r))
lookup_swap name k v key val r r' q ne e = rw e (grind (arith, ne))

is_none-cases : (o : Option ℕ) → (o ≡ none) ⊎ (is_none o ≡ false)
is_none-cases none = inl refl
is_none-cases (some a) = inr refl

ok-inj : {x y : Option ℕ} → ok x ≡ ok y → x ≡ y
ok-inj h = cc

-- Nothing is found under a name: not in the first entry, and not in the others.
none_first :
    (name : ℕ → ℕ) (k v : ℕ) (es : List (ℕ × ℕ)) (q : ℕ)
    → lookup name ((k, v) ∷ es) q ≡ none
    → ((name k == name q) ≡ false) × (lookup name es q ≡ none)
none_first name k v es q h = elim (Bool-cases (name k == name q)) [
  | inl e ↦ let h' = rw e at h in absurd (cc (h'))
  | inr e ↦ (e, rw e at h)
]

module _ (name : ℕ → ℕ) (cmpfn : ℕ → ℕ → Outcome ℕ) where
  append_step :
      {ks vs : List ℕ} (k v key val : ℕ)
      → k ≢ 0
      → (name k == name key) ≡ false
      → Appends name cmpfn ks vs key val
      → Appends name cmpfn (k ∷ ks) (v ∷ vs) key val
  unfolding append_from
  append_step {ks} {vs} k v key val ne differ (ks', vs', e, a) = (
    k ∷ ks',
    v ∷ vs',
    rw (==_ne k 0 ne, e),
    record {
      slots = full k v ne a.slots;
      sized = ap suc a.sized;
      finds = λ q.
          rw (entries_of-full v ks' vs' ne, entries_of-full v ks vs ne)
            (lookup_swap name k v key val _ _ q differ (a.finds q));
    },
  )

  append_from_lem :
      {ks vs : List ℕ}
      → AreSlots ks vs
      → (key val : ℕ) → key ≢ 0
      → lookup name (entries_of ks vs) key ≡ none
      → length (entries_of ks vs) < length ks
      → Appends name cmpfn ks vs key val
  unfolding append_from
  append_from_lem nil key val h absent room = absurd (omega arith)
  append_from_lem (empty {ks} {vs} s) key val h absent room = (
    key ∷ ks,
    val ∷ vs,
    refl,
    record { slots = full key val h s; sized = refl; finds = λ q. rw (==_ne key 0 h) refl },
  )
  append_from_lem (full {ks} {vs} k v ne s) key val h absent room =
      let split = entries_of-full v ks vs ne in
      let (differ, rest) = none_first name k v (entries_of ks vs) key (rw split at absent) in
      append_step k v key val ne differ
        (append_from_lem s key val h rest (omega (arith, rw split at room)))

  append_from_full :
      {ks vs : List ℕ}
      → AreSlots ks vs
      → (key val : ℕ) → length (entries_of ks vs) ≡ length ks
      → append_from cmpfn (length ks) ks vs key val ≡ panic
  unfolding append_from
  append_from_full nil key val e = refl
  append_from_full (empty s) key val e = absurd (omega (arith, entries_of_le s))
  append_from_full (full {ks} {vs} k v ne s) key val e = rw (
    ==_ne k 0 ne,
    append_from_full s key val (omega (arith, rw (entries_of-full v ks vs ne) at e)),
  )

module _ (name : ℕ → ℕ) (cmpfn : ℕ → ℕ → Outcome ℕ) (c : Compares name cmpfn) where
  -- An append of a new key to a store with an empty slot returns a valid store, and a search there
  -- for any key finds the new value under the new key's name and else what it found before.
  pub append-find :
      (kv : Kvstore) (v : IsValid kv) (key val q : ℕ) (h : key ≢ 0) (hq : q ≢ 0)
      → find cmpfn kv key ≡ ok none
      → length (entries kv) < kv.cap
      → (kv' : Kvstore) × (append cmpfn kv key val ≡ ok kv')
        × IsValid kv'
        × (find cmpfn kv' q
            ≡ ok (if name key == name q then some val else lookup name (entries kv) q))
  unfolding append
  append-find kv v key val q h hq absent room =
      let absent' = ok-inj (sym (find-eq-lookup name cmpfn c kv v key h) ∙ absent) in
      let (ks', vs', e, a) =
        append_from_lem name cmpfn v.slots key val h absent' (omega (arith, v, v.sized)) in
      let kv' : Kvstore = record kv { keys = ks'; values = vs' } in
      let v' : IsValid kv' = record {
        slots = a.slots;
        sized = a.sized ∙ v.sized;
        bounded = v.bounded;
      } in
      (
        kv',
        rw (==_ne key 0 h, absent, ← v.sized, e),
        v',
        find-eq-lookup name cmpfn c kv' v' q hq ∙ ap ok (a.finds q),
      )

  -- An append panics on a key that is present, and on a store without an empty slot.
  pub append-panics :
      (kv : Kvstore) (v : IsValid kv) (key val : ℕ) (h : key ≢ 0)
      → (find cmpfn kv key ≢ ok none) ⊎ (length (entries kv) ≡ kv.cap)
      → append cmpfn kv key val ≡ panic
  unfolding append
  append-panics kv v key val h (inl present) =
      rw (==_ne key 0 h, find-eq-lookup name cmpfn c kv v key h)
        (elim (is_none-cases (lookup name (entries kv) key)) [
          | inl e ↦ absurd (present (find-eq-lookup name cmpfn c kv v key h ∙ ap ok e))
          | inr e ↦ rw e
        ])
  append-panics kv v key val h (inr e) =
      let full' : append_from cmpfn kv.cap kv.keys kv.values key val ≡ panic =
        rw (← v.sized) (append_from_full name cmpfn v.slots key val (e ∙ sym v.sized)) in
      rw (==_ne key 0 h, find-eq-lookup name cmpfn c kv v key h, full')
        (elim (is_none-cases (lookup name (entries kv) key)) [ inl e' ↦ rw e' | inr e' ↦ rw e' ])
