-- ===== src/Linear.antt =====
-- The linear allocator, kernel/lib/mm/linear.c: a pointer that moves through one region. The
-- pointer to the allocator itself is never NULL here, so that assertion has no counterpart.
pub mod Blocks
pub mod Sequence
mod Tests
use yaeos.Prelude.{ℕ, Bool, not, ltb, leb, ◌==◌, Option, none, some, if◌then◌else◌}
use yaeos.Prelude.{Outcome, ok, ◌>>=◌, ◌>>◌, kassert}
use yaeos.Word.{◌+w◌, ◌-w◌}
use yaeos.Align.{align_roundup}

-- `struct linear_alloc`
pub record LinearAlloc : Type 0 where
  pub base : ℕ
  pub position : ℕ
  pub limit : ℕ

-- `linear_alloc_init`; an address is a number, and NULL is 0.
unfoldable pub init : ℕ → ℕ → Outcome LinearAlloc
init mem len = do
  kassert (not (mem == 0))
  kassert (ltb 0 len)
  ok (record { base = mem; position = mem; limit = mem +w len })

-- `linear_alloc_alloc`; `none` is the NULL that it returns.
unfoldable pub alloc : LinearAlloc → ℕ → Option ℕ × LinearAlloc
alloc a len =
    let pos = a.position in
    if ltb a.limit (pos +w len) then (none, a) else (some pos, record a { position = pos +w len })

-- `linear_alloc_alloc_aligned`
unfoldable pub alloc_aligned : LinearAlloc → ℕ → ℕ → Outcome (Option ℕ × LinearAlloc)
alloc_aligned a len align = do
  kassert (ltb 0 align)
  let pos = align_roundup a.position align
  ok (
      if leb a.limit (pos +w len)
      then (none, a)
      else (some pos, record a { position = pos +w len }))

-- `linear_alloc_free`
unfoldable pub free : LinearAlloc → ℕ → Outcome LinearAlloc
free a len = do
  let new_pos = a.position -w len
  kassert (leb a.base new_pos)
  ok (record a { position = new_pos })

-- `linear_alloc_occupied`
unfoldable pub occupied : LinearAlloc → ℕ
occupied a = a.position -w a.base

-- `linear_forbid_further_alloc`
unfoldable pub forbid_further_alloc : LinearAlloc → LinearAlloc
forbid_further_alloc a = record a { limit = a.position }

-- `linear_alloc_used_mem_range`
unfoldable pub used_mem_range : LinearAlloc → ℕ × ℕ
used_mem_range a = (a.base, a.position)
