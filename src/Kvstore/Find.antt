-- ===== src/Kvstore/Find.antt =====
-- `kvstore_find` of kernel/lib/ds/kvstore.c.
use yaeos.Prelude.{ℕ, ◌==◌, List, ◌≡◌, ◌≢◌, refl}
use yaeos.Prelude.{length, Outcome, ok}
use yaeos.Prelude.{Bool-cases, inl, inr, ==_ne}
use yaeos.Kvstore.{Kvstore, find, find_from}
use yaeos.Kvstore.Slots.{IsValid, AreSlots, nil, empty, full, entries, entries_of, lookup}

-- What the store asks of its `cmpfn`: on keys that are not NULL it returns, and returns 0 exactly
-- for keys under the same name.
pub record Compares (name : ℕ → ℕ) (cmpfn : ℕ → ℕ → Outcome ℕ) : Type 0 where
  pub result : ℕ → ℕ → ℕ
  pub returns : (k q : ℕ) → k ≢ 0 → q ≢ 0 → cmpfn k q ≡ ok (result k q)
  pub decides : (k q : ℕ) → k ≢ 0 → q ≢ 0 → (result k q == 0) ≡ (name k == name q)

module _ (name : ℕ → ℕ) (cmpfn : ℕ → ℕ → Outcome ℕ) (c : Compares name cmpfn) where
  pub find_from_lem :
      {ks vs : List ℕ}
      → AreSlots ks vs
      → (q : ℕ) → q ≢ 0
      → find_from cmpfn (length ks) ks vs q ≡ ok (lookup name (entries_of ks vs) q)
  unfolding find_from
  find_from_lem nil q h = refl
  find_from_lem (empty s) q h = find_from_lem s q h
  find_from_lem (full k v ne s) q h =
      rw (==_ne k 0 ne, c.returns k q ne h, c.decides k q ne h)
        (elim (Bool-cases (name k == name q)) [ inl e ↦ rw e | inr e ↦ rw e (find_from_lem s q h) ])

  -- On a valid store `kvstore_find` is the lookup in the list of the entries.
  pub find-eq-lookup :
      (kv : Kvstore) (v : IsValid kv) (q : ℕ) (h : q ≢ 0)
      → find cmpfn kv q ≡ ok (lookup name (entries kv) q)
  unfolding find
  find-eq-lookup kv v q h = rw (==_ne q 0 h, ← v.sized) (find_from_lem v.slots q h)
