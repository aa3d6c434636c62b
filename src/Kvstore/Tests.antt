-- ===== src/Kvstore/Tests.antt =====
-- The key-value store of kernel/lib/ds/kvstore.c at a concrete store, whose keys are the same when
-- they have the same number of tens.
use yaeos.Prelude.{
  ℕ, ◌+◌, ◌/◌, ◌^◌, ◌<◌, ◌==◌, ◌≡◌, ◌≢◌, ◌⊎◌, inl, inr, refl, arith, Bool, true, false,
}
use yaeos.Prelude.{if◌then◌else◌, Option, none, some, List, [], ◌∷◌, Outcome, ok, panic, fault}
use yaeos.Prelude
use yaeos.Kvstore.{Kvstore, find, find_from, append, remove, change}
use yaeos.Kvstore.Slots.{IsValid, nil, empty, full, entries, lookup}
use yaeos.Kvstore.Find.{Compares, find-eq-lookup}
use yaeos.Kvstore.Append.{append-find}
use yaeos.Kvstore.Remove.{TakesNull, remove-find, remove-change-fault}

abbrev tens : ℕ → ℕ
tens k = k / 10

-- One comparison that takes NULL for a name like the others, and one that reads through it.
abbrev by_tens : ℕ → ℕ → Outcome ℕ
by_tens k q = ok (if tens k == tens q then 0 else 1)

abbrev by_tens_strict : ℕ → ℕ → Outcome ℕ
by_tens_strict k q = if k == 0 then fault else by_tens k q

by_tens-Compares : Compares tens by_tens
by_tens-Compares = record {
  result = λ k q. if tens k == tens q then 0 else 1;
  returns = λ k q _ _. refl;
  decides = λ k q _ _. ground arith;
}

by_tens_strict-Compares : Compares tens by_tens_strict
by_tens_strict-Compares = record {
  result = λ k q. if tens k == tens q then 0 else 1;
  returns = λ k q h _. rw (Prelude.==_ne k 0 h);
  decides = λ k q _ _. ground arith;
}

by_tens-TakesNull : TakesNull by_tens 25
by_tens-TakesNull = record { result = 1; returns = refl; differs = refl }

-- Three slots, the middle one empty.
abbrev store : Kvstore
store = record { keys = 12 ∷ 0 ∷ 25 ∷ []; cap = 3; values = 7 ∷ 0 ∷ 8 ∷ [] }

store-IsValid : IsValid store
store-IsValid = record {
  slots = full 12 7 (omega arith) (empty (full 25 8 (omega arith) nil));
  sized = refl;
  bounded = omega arith;
}

find-some : find by_tens store 21 ≡ ok (some 8)
unfolding find find_from
find-some = refl

find-none : find by_tens store 31 ≡ ok none
unfolding find find_from
find-none = refl

find-eq-lookup_example : find by_tens store 21 ≡ ok (lookup tens (entries store) 21)
find-eq-lookup_example =
    find-eq-lookup tens by_tens by_tens-Compares store store-IsValid 21 (omega arith)

append-find_example :
    (kv' : Kvstore) × (append by_tens store 31 9 ≡ ok kv')
    × IsValid kv'
    × (find by_tens kv' 32
        ≡ ok (if tens 31 == tens 32 then some 9 else lookup tens (entries store) 32))
append-find_example =
    append-find tens by_tens by_tens-Compares store store-IsValid 31 9 32 (omega arith)
      (omega arith) find-none (omega arith)

remove-find_example :
    (kv' : Kvstore) × (remove by_tens store 25 ≡ ok kv')
    × IsValid kv'
    × (find by_tens kv' 12
        ≡ ok (if tens 25 == tens 12 then none else lookup tens (entries store) 12))
remove-find_example =
    remove-find tens by_tens by_tens-Compares store store-IsValid 25 12 (omega arith) (omega arith)
      by_tens-TakesNull

remove-change-fault_example :
    (remove by_tens_strict store 25 ≡ fault) × (change by_tens_strict store 25 9 ≡ fault)
remove-change-fault_example =
    remove-change-fault tens by_tens_strict store store-IsValid 25 9 (omega arith)
      by_tens_strict-Compares refl (omega arith)
