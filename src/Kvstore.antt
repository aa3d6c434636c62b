-- ===== src/Kvstore.antt =====
-- The key-value store of kernel/lib/ds/kvstore.c: two arrays of pointers, a key that is NULL for an
-- empty slot. A pointer is a number, and NULL is 0. The caller's `cmpfn` is a parameter: it may
-- fault, and a result of 0 means that the keys are the same.
pub mod Slots
pub mod Find
pub mod Append
pub mod Remove
mod Tests
use yaeos.Prelude.{
  ℕ, zero, suc, ◌+◌, Bool, not, ◌==◌, true, false, Option, none, some, List, [], ◌∷◌,
}
use yaeos.Prelude.{replicate, if◌then◌else◌, Outcome, ok, panic, fault, ◌>>=◌, ◌>>◌, kassert}
use yaeos.Word.{◌+w◌, ◌*w◌}
use yaeos.Linear

abbrev pub is_none {ℓ} : {A : Type ℓ} → Option A → Bool
is_none none = true
is_none (some _) = false

-- `struct kvstore`, less its `cmpfn`, which the operations take.
pub record Kvstore : Type 0 where
  pub keys : List ℕ
  pub cap : ℕ
  pub values : List ℕ

-- `sizeof(struct kvstore)`, and that of a pointer.
abbrev pub sizeof_kvstore : ℕ
sizeof_kvstore = 16

unfoldable pub predict_reqmem : ℕ → ℕ
predict_reqmem cap = 0 +w sizeof_kvstore +w cap *w 4 +w cap *w 4

-- `kvstore_create` over memory at `mem`; `none` is the NULL that it returns.
unfoldable pub create : ℕ → ℕ → Outcome (Option Kvstore)
create mem cap = do
  alloc ← Linear.init mem (predict_reqmem cap)
  let (kv, alloc₁) = Linear.alloc alloc sizeof_kvstore
  let (keys, alloc₂) = Linear.alloc alloc₁ (cap *w 4)
  let (values, alloc₃) = Linear.alloc alloc₂ (cap *w 4)
  let made : Kvstore = record { keys = replicate cap 0; cap = cap; values = replicate cap 0 }
  elim kv [
    | none ↦ ok none
    | some _ ↦ elim keys [
      | none ↦ ok none
      | some _ ↦ elim values [
        | none ↦ ok none
        | some _ ↦ do kassert (Linear.occupied alloc₃ == predict_reqmem cap); ok (some made)
      ]
    ]
  ]

unfoldable pub capacity : Kvstore → ℕ
capacity kv = kv.cap

-- The loop of `kvstore_iter`, over the slots that are left: the calls of `itfn` in order.
unfoldable pub iter_from : ℕ → List ℕ → List ℕ → Outcome (List (ℕ × ℕ))
iter_from zero ks vs = ok []
iter_from (suc rounds) (k ∷ ks) (v ∷ vs) =
    iter_from rounds ks vs >>= λ calls. ok (if k == 0 then calls else (k, v) ∷ calls)
iter_from (suc rounds) _ _ = fault

unfoldable pub iter : Kvstore → Outcome (List (ℕ × ℕ))
iter kv = iter_from kv.cap kv.keys kv.values

-- The loop of `kvstore_length`.
unfoldable pub length_from : ℕ → List ℕ → ℕ → Outcome ℕ
length_from zero ks len = ok len
length_from (suc rounds) (k ∷ ks) len = length_from rounds ks (if k == 0 then len else len +w 1)
length_from (suc rounds) [] len = fault

unfoldable pub length : Kvstore → Outcome ℕ
length kv = length_from kv.cap kv.keys 0

module _ (cmpfn : ℕ → ℕ → Outcome ℕ) where
  -- The loop of `kvstore_find`.
  unfoldable pub find_from : ℕ → List ℕ → List ℕ → ℕ → Outcome (Option ℕ)
  find_from zero ks vs key = ok none
  find_from (suc rounds) (k ∷ ks) (v ∷ vs) key =
      let rest = find_from rounds ks vs key in
      if k == 0 then rest else (cmpfn k key >>= λ c. if c == 0 then ok (some v) else rest)
  find_from (suc rounds) _ _ key = fault

  unfoldable pub find : Kvstore → ℕ → Outcome (Option ℕ)
  find kv key = do kassert (not (key == 0)); find_from kv.cap kv.keys kv.values key

  -- The loop of `kvstore_append` up to the empty slot, and the writes there.
  unfoldable pub append_from : ℕ → List ℕ → List ℕ → ℕ → ℕ → Outcome (List ℕ × List ℕ)
  append_from zero ks vs key val = panic
  append_from (suc rounds) (k ∷ ks) (v ∷ vs) key val =
      let rest = append_from rounds ks vs key val in
      if k == 0
      then (kassert (v == 0) >> ok (key ∷ ks, val ∷ vs))
      else (rest >>= λ (ks', vs'). ok (k ∷ ks', v ∷ vs'))
  append_from (suc rounds) _ _ key val = fault

  unfoldable pub append : Kvstore → ℕ → ℕ → Outcome Kvstore
  append kv key val = do
    kassert (not (key == 0))
    present ← find kv key
    kassert (is_none present)
    (ks, vs) ← append_from kv.cap kv.keys kv.values key val
    ok (record kv { keys = ks; values = vs })

  -- The loop of `kvstore_remove`: it compares every slot, also an empty one.
  unfoldable pub remove_from : ℕ → List ℕ → List ℕ → ℕ → Outcome (List ℕ × List ℕ)
  remove_from zero ks vs key = ok (ks, vs)
  remove_from (suc rounds) (k ∷ ks) (v ∷ vs) key = do
    c ← cmpfn k key
    (ks', vs') ← remove_from rounds ks vs key
    ok (if c == 0 then (0 ∷ ks', 0 ∷ vs') else (k ∷ ks', v ∷ vs'))
  remove_from (suc rounds) _ _ key = fault

  unfoldable pub remove : Kvstore → ℕ → Outcome Kvstore
  remove kv key = do
    kassert (not (key == 0))
    (ks, vs) ← remove_from kv.cap kv.keys kv.values key
    ok (record kv { keys = ks; values = vs })

  -- The loop of `kvstore_change`.
  unfoldable pub change_from : ℕ → List ℕ → List ℕ → ℕ → ℕ → Outcome (List ℕ)
  change_from zero ks vs key val = ok vs
  change_from (suc rounds) (k ∷ ks) (v ∷ vs) key val = do
    c ← cmpfn k key
    vs' ← change_from rounds ks vs key val
    ok (if c == 0 then val ∷ vs' else v ∷ vs')
  change_from (suc rounds) _ _ key val = fault

  unfoldable pub change : Kvstore → ℕ → ℕ → Outcome Kvstore
  change kv key val = do
    kassert (not (key == 0))
    vs ← change_from kv.cap kv.keys kv.values key val
    ok (record kv { values = vs })
