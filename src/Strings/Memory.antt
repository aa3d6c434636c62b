-- ===== src/Strings/Memory.antt =====
-- `kmemcpy` and `kmemset` of kernel/lib/cstd/string.
use yaeos.Prelude.{ℕ, zero, suc, ◌≤◌, ◌%◌, ◌≡◌, refl, ap, arith, List, [], ◌∷◌}
use yaeos.Prelude.{length, get_or, ok, ltb, if◌then◌else◌}
use yaeos.Strings.{kmemcpy, kmemset}

-- Memory of the same size that holds the bytes of a function on its first `n` places, and is else
-- as it was.
pub record Overwrites (old : List ℕ) (n : ℕ) (byte : ℕ → ℕ) (new : List ℕ) : Type 0 where
  pub same_length : length new ≡ length old
  pub bytes : (i : ℕ) → get_or new i 0 ≡ (if ltb i n then byte i else get_or old i 0)

Overwrites-cons :
    (d b : ℕ) (old : List ℕ) (n : ℕ) (byte : ℕ → ℕ) (new : List ℕ)
    → byte 0 ≡ b
    → Overwrites old n (λ i. byte (suc i)) new
    → Overwrites (d ∷ old) (suc n) byte (b ∷ new)
Overwrites-cons d b old n byte new e o = record {
  same_length = ap suc o.same_length;
  bytes = places;
}
  where
    places :
        (i : ℕ) → get_or (b ∷ new) i 0 ≡ (if ltb i (suc n) then byte i else get_or (d ∷ old) i 0)
    places zero = ground (arith, e)
    places (suc i) = ground (arith, o.bytes i)

-- `kmemcpy` within both objects returns and leaves the first `n` bytes of the source there.
pub kmemcpy_lem :
    (dest src : List ℕ) (n : ℕ)
    → n ≤ length dest
    → n ≤ length src
    → (dest' : List ℕ) × (kmemcpy dest src n ≡ ok dest')
      × Overwrites dest n (λ i. get_or src i 0) dest'
unfolding kmemcpy
kmemcpy_lem dest src zero h k =
    (dest, refl, record { same_length = refl; bytes = λ i. ground arith })
kmemcpy_lem [] src (suc n) h k = absurd (omega arith)
kmemcpy_lem (d ∷ dest) [] (suc n) h k = absurd (omega arith)
kmemcpy_lem (d ∷ dest) (s ∷ src) (suc n) h k =
    let (dest', e, o) = kmemcpy_lem dest src n (omega arith) (omega arith) in
    (s ∷ dest', rw e, Overwrites-cons d s dest n (λ i. get_or (s ∷ src) i 0) dest' refl o)

-- `kmemset` within the object returns and leaves the low byte of the value in the first `len` places.
pub kmemset_lem :
    (data_ : List ℕ) (val len : ℕ)
    → len ≤ length data_
    → (data' : List ℕ) × (kmemset data_ val len ≡ ok data')
      × Overwrites data_ len (λ _. val % 256) data'
unfolding kmemset
kmemset_lem data_ val zero h =
    (data_, refl, record { same_length = refl; bytes = λ i. ground arith })
kmemset_lem [] val (suc len) h = absurd (omega arith)
kmemset_lem (d ∷ data_) val (suc len) h =
    let (data', e, o) = kmemset_lem data_ val len (omega arith) in
    (val % 256 ∷ data', rw e, Overwrites-cons d (val % 256) data_ len (λ _. val % 256) data' refl o)
