-- ===== src/Kvstore/Slots.antt =====
-- The slots of a store of kernel/lib/ds/kvstore.c as the list of its entries.
use yaeos.Prelude.{ℕ, ◌+◌, ◌≤◌, ◌<◌, ◌^◌, ◌==◌, List, [], ◌∷◌, ◌≡◌, ◌≢◌, refl, ap, arith}
use yaeos.Prelude.{length, ok, if◌then◌else◌, Option, none, some}
use yaeos.Prelude.{==_ne}
use yaeos.Word.{◌+w◌}
use yaeos.Kvstore.{Kvstore, iter_from, length_from}
use yaeos.Kvstore

-- The slots line up: as many values as keys, and an empty slot has no value.
pub data AreSlots : List ℕ → List ℕ → Type 0 where
  nil : AreSlots [] []
  empty : {ks vs : List ℕ} → AreSlots ks vs → AreSlots (0 ∷ ks) (0 ∷ vs)
  full : {ks vs : List ℕ} (k v : ℕ) → k ≢ 0 → AreSlots ks vs → AreSlots (k ∷ ks) (v ∷ vs)

-- What a store keeps to: an array of `cap` slots, `cap` a value of `size_t`.
pub record IsValid (kv : Kvstore) : Type 0 where
  pub slots : AreSlots kv.keys kv.values
  pub sized : length kv.keys ≡ kv.cap
  pub bounded : kv.cap < 2 ^ 32

-- The entries of the slots that are not empty.
abbrev pub entries_of : List ℕ → List ℕ → List (ℕ × ℕ)
entries_of [] vs = []
entries_of (k ∷ ks) [] = []
entries_of (k ∷ ks) (v ∷ vs) = let rest = entries_of ks vs in if k == 0 then rest else (k, v) ∷ rest

abbrev pub entries : Kvstore → List (ℕ × ℕ)
entries kv = entries_of kv.keys kv.values

-- The key-value store as a specification: the first entry under the same name.
abbrev pub lookup : (ℕ → ℕ) → List (ℕ × ℕ) → ℕ → Option ℕ
lookup name [] q = none
lookup name ((k, v) ∷ es) q =
    let rest = lookup name es q in if name k == name q then some v else rest

pub iter_from_lem :
    {ks vs : List ℕ} → AreSlots ks vs → iter_from (length ks) ks vs ≡ ok (entries_of ks vs)
unfolding iter_from
iter_from_lem nil = refl
iter_from_lem (empty s) = rw (iter_from_lem s)
iter_from_lem (full k v h s) = rw (iter_from_lem s, ==_ne k 0 h)

pub length_from_lem :
    {ks vs : List ℕ}
    → AreSlots ks vs
    → (n m : ℕ) → n + length ks < 2 ^ 32
    → m ≡ n + length (entries_of ks vs)
    → length_from (length ks) ks n ≡ ok m
unfolding length_from
length_from_lem nil n m h e = ap ok (omega arith)
length_from_lem (empty s) n m h e = length_from_lem s n m (omega arith) (omega arith)
length_from_lem (full k v ne s) n m h e =
    rw (==_ne k 0 ne, length_from) (length_from_lem s (n +w 1) m (omega arith) (grind arith))

-- `kvstore_iter` calls its function on the entries in their order, and `kvstore_length` counts them.
pub iter_length :
    (kv : Kvstore)
    → IsValid kv
    → (Kvstore.iter kv ≡ ok (entries kv)) × (Kvstore.length kv ≡ ok (length (entries kv)))
unfolding Kvstore.iter Kvstore.length
iter_length kv v = (
  rw (← v.sized) (iter_from_lem v.slots),
  rw (← v.sized) (length_from_lem v.slots 0 (length (entries kv)) (omega (arith, v)) (omega arith)),
)

pub entries_of-full :
    {k : ℕ} (v : ℕ) (ks vs : List ℕ)
    → k ≢ 0
    → entries_of (k ∷ ks) (v ∷ vs) ≡ (k, v) ∷ entries_of ks vs
entries_of-full {k} v ks vs h = rw (==_ne k 0 h)

pub entries_of_le : {ks vs : List ℕ} → AreSlots ks vs → length (entries_of ks vs) ≤ length ks
entries_of_le nil = omega arith
entries_of_le (empty s) = omega (arith, entries_of_le s)
entries_of_le (full {ks} {vs} k v ne s) =
    rw (entries_of-full v ks vs ne) (omega (arith, entries_of_le s))
