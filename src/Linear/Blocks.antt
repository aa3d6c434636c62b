-- ===== src/Linear/Blocks.antt =====
-- The invariant of the linear allocator, and the block that one call hands out.
use native.Mathlib.Nat.{one-le-pow}
use yaeos.Prelude.{ℕ, ◌+◌, ◌-◌, ◌%◌, ◌^◌, ◌≤◌, ◌<◌, ◌≡◌, arith, none, some, ◌⊎◌, ok, panic}
use yaeos.Prelude.{inl, inr}
use yaeos.Word.{◌+w◌, ◌-w◌}
use native.Mathlib.Decide.{dec_le, dec_lt}
use yaeos.Align.{align_roundup}
use yaeos.Align.Bounds.{align_roundup_least}
use yaeos.Linear.{LinearAlloc, init, alloc, alloc_aligned, free, occupied, forbid_further_alloc}

pub record IsValid (a : LinearAlloc) : Type 0 where
  pub above : a.base ≤ a.position
  pub below : a.position ≤ a.limit
  pub fits : a.limit < 2 ^ 32
  pub not_null : 0 < a.base

-- A region that does not start at NULL, is not empty and ends below 2 ^ 32 gives a valid allocator
-- with nothing handed out.
pub init-IsValid :
    (mem len : ℕ)
    → 0 < mem
    → 0 < len
    → mem + len < 2 ^ 32
    → (a : LinearAlloc) × (init mem len ≡ ok a)
      × IsValid a
      × (occupied a ≡ 0)
      × (a.limit ≡ a.base + len)
unfolding init occupied
init-IsValid mem len p q fits = (
  record { base = mem; position = mem; limit = mem + len },
  ground arith,
  record { above = omega arith; below = omega arith; fits = fits; not_null = p },
  omega arith,
  omega arith,
)

-- The allocator after a block up to `p`.
abbrev pub moved : LinearAlloc → ℕ → LinearAlloc
moved a p = record a { position = p }

-- A valid allocator and a request whose end does not wrap: `linear_alloc_alloc` hands out the
-- bytes from the position on and moves it past them if they end at or below the limit, and leaves
-- a valid allocator; else it returns NULL and changes nothing.
pub alloc_lem :
    (a : LinearAlloc) (len : ℕ)
    → IsValid a
    → a.position + len < 2 ^ 32
    → (a.position + len ≤ a.limit)
        × (alloc a len ≡ (some a.position, moved a (a.position + len)))
        × IsValid (moved a (a.position + len))
      ⊎ (a.limit < a.position + len) × (alloc a len ≡ (none, a))
unfolding alloc
alloc_lem a len v fits = elim (dec_le (a.position + len) a.limit) [
  | yes le ↦ inl (
    le,
    ground arith,
    record { above = omega arith; below = le; fits = v.fits; not_null = v.not_null },
  )
  | no gt ↦ inr (omega arith, ground arith)
]

-- A request whose end wraps round 2 ^ 32 to an address at or below the limit is not refused: the
-- caller gets a block that does not fit, and the position moves back.
pub alloc_wraps :
    (a : LinearAlloc) (len : ℕ)
    → IsValid a
    → len < 2 ^ 32
    → 2 ^ 32 ≤ a.position + len
    → a.position + len - 2 ^ 32 ≤ a.limit
    → ((alloc a len).0 ≡ some a.position)
      × (a.limit < a.position + len)
      × ((alloc a len).1.position < a.position)
unfolding alloc
alloc_wraps a len v small wraps low = ground arith

-- `linear_alloc_alloc_aligned` on a valid allocator, an alignment 2 ^ k and a request whose end
-- does not wrap: the block starts at the least multiple of the alignment from the position on and
-- the allocator stays valid, if the block ends strictly below the limit; else the call returns
-- NULL and changes nothing, also where the block would end exactly at the limit.
pub alloc_aligned_lem :
    (a : LinearAlloc) (len k : ℕ)
    → IsValid a
    → k < 32
    → a.position + (2 ^ k - 1) < 2 ^ 32
    → align_roundup a.position (2 ^ k) + len < 2 ^ 32
    → let p = align_roundup a.position (2 ^ k) in
      (a.position ≤ p)
      × (p % 2 ^ k ≡ 0)
      × ((p + len < a.limit)
            × (alloc_aligned a len (2 ^ k) ≡ ok (some p, moved a (p + len)))
            × IsValid (moved a (p + len))
          ⊎ (a.limit ≤ p + len) × (alloc_aligned a len (2 ^ k) ≡ ok (none, a)))
unfolding alloc_aligned
alloc_aligned_lem a len k v small fits ends =
    let pos = one-le-pow k 2 (omega arith) in
    let (multiple, above, least) = align_roundup_least k a.position small fits in
    (
      above,
      multiple,
      elim (dec_lt (align_roundup a.position (2 ^ k) + len) a.limit) [
        | yes lt ↦ inl (
          lt,
          ground arith,
          record { above = omega arith; below = omega arith; fits = v.fits; not_null = v.not_null },
        )
        | no ge ↦ inr (omega arith, ground arith)
      ],
    )

-- `linear_alloc_free` of the length last handed out restores the allocator.
pub free-alloc :
    (a : LinearAlloc) (len : ℕ)
    → IsValid a
    → a.position + len ≤ a.limit
    → free (alloc a len).1 len ≡ ok a
unfolding alloc free
free-alloc a len v le =
    let sum : a.position +w len ≡ a.position + len = omega arith in
    let back : a.position + len -w len ≡ a.position = omega arith in ground arith

-- `linear_alloc_free` panics exactly where more is given back than is handed out, on a valid
-- allocator and a length for which the subtraction does not wrap.
pub free_lem :
    (a : LinearAlloc) (len : ℕ)
    → IsValid a
    → len ≤ a.position
    → (len ≤ occupied a) × (free a len ≡ ok (moved a (a.position - len)))
      ⊎ (occupied a < len) × (free a len ≡ panic)
unfolding free occupied
free_lem a len v le = elim (dec_le len (a.position - a.base)) [
  | yes p ↦ inl (omega arith, ground arith)
  | no p ↦ inr (omega arith, ground arith)
]

-- After `linear_forbid_further_alloc` no request of at least one byte is served.
pub alloc-forbid_further_alloc :
    (a : LinearAlloc) (len : ℕ)
    → IsValid a
    → 0 < len
    → a.position + len < 2 ^ 32
    → (alloc (forbid_further_alloc a) len).0 ≡ none
unfolding alloc forbid_further_alloc
alloc-forbid_further_alloc a len v p fits = ground arith
