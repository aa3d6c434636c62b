-- ===== src/Linear/Tests.antt =====
-- The linear allocator of kernel/lib/mm/linear.c at concrete regions.
use yaeos.Prelude.{◌+◌, ◌^◌, ◌≤◌, ◌<◌, ◌≡◌, ◌%◌, ◌⊎◌, refl, arith, none, some}
use yaeos.Prelude.{[], ◌∷◌, ok}
use yaeos.Align.{align_roundup}
use yaeos.Linear.{LinearAlloc, alloc, alloc_aligned}
use yaeos.Linear.Blocks.{IsValid, moved, alloc_wraps, alloc_aligned_lem}
use yaeos.Linear.Sequence.{alloc_all, InOrder, alloc_all-InOrder}

-- A page of memory of which 100 bytes are taken.
abbrev page : LinearAlloc
page = record { base = 4096; position = 4196; limit = 8192 }

page-IsValid : IsValid page
page-IsValid = record {
  above = omega arith;
  below = omega arith;
  fits = omega arith;
  not_null = omega arith;
}

alloc_wraps_example :
    ((alloc page 4294967295).0 ≡ some page.position)
    × (page.limit < page.position + 4294967295)
    × ((alloc page 4294967295).1.position < page.position)
alloc_wraps_example =
    alloc_wraps page 4294967295 page-IsValid (omega arith) (omega arith) (omega arith)

roundup_16 : align_roundup 4196 16 ≡ 4208
unfolding align_roundup
roundup_16 = refl

alloc_aligned_lem_example :
    let p = align_roundup page.position (2 ^ 4) in
    (page.position ≤ p)
    × (p % 2 ^ 4 ≡ 0)
    × ((p + 64 < page.limit)
          × (alloc_aligned page 64 (2 ^ 4) ≡ ok (some p, moved page (p + 64)))
          × IsValid (moved page (p + 64))
        ⊎ (page.limit ≤ p + 64) × (alloc_aligned page 64 (2 ^ 4) ≡ ok (none, page)))
alloc_aligned_lem_example =
    alloc_aligned_lem page 64 4 page-IsValid (omega arith) (omega arith) (omega (arith, roundup_16))

alloc_all-InOrder_example :
    let (blocks, a') = alloc_all page (64 ∷ 8000 ∷ 32 ∷ []) in
    InOrder page.position blocks a'.position
    × IsValid a'
    × (a'.limit ≡ page.limit)
    × (a'.base ≡ page.base)
alloc_all-InOrder_example =
    alloc_all-InOrder page (64 ∷ 8000 ∷ 32 ∷ []) page-IsValid
      (omega arith, (omega arith, (omega arith, tt)))
