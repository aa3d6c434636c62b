-- ===== src/Linear/Sequence.antt =====
-- A client's calls of `linear_alloc_alloc` in order, as buddy.c and kvstore.c make them.
use yaeos.Prelude.{ℕ, ◌+◌, ◌^◌, ◌≤◌, ◌<◌, ◌≡◌, arith, Option, none, some, List, [], ◌∷◌, inl, inr}
use yaeos.Linear.{LinearAlloc, alloc}
use yaeos.Linear.Blocks.{IsValid, moved, alloc_lem}

-- What each call returned beside the length that it asked for, and the allocator at the end.
unfoldable pub alloc_all : LinearAlloc → List ℕ → List (Option ℕ × ℕ) × LinearAlloc
alloc_all a [] = ([], a)
alloc_all a (len ∷ lens) =
    let (p, a') = alloc a len in let (blocks, a'') = alloc_all a' lens in ((p, len) ∷ blocks, a'')

-- The blocks lie one after another from `low` to `high`, so no two of them overlap.
abbrev pub InOrder : ℕ → List (Option ℕ × ℕ) → ℕ → Type 0
InOrder low [] high = low ≤ high
InOrder low ((none, len) ∷ blocks) high = InOrder low blocks high
InOrder low ((some p, len) ∷ blocks) high = (low ≤ p) × InOrder (p + len) blocks high

-- No request could wrap, wherever the position stands.
abbrev pub AllSmall : ℕ → List ℕ → Type 0
AllSmall limit [] = Unit {0}
AllSmall limit (len ∷ lens) = (limit + len < 2 ^ 32) × AllSmall limit lens

-- A run of requests, none of which could wrap past 2 ^ 32, on a valid allocator: the blocks that
-- are handed out lie in order between the old position and the new one, so they are disjoint, and
-- the allocator stays valid with its limit and base as they were.
pub alloc_all-InOrder :
    (a : LinearAlloc) (lens : List ℕ)
    → IsValid a
    → AllSmall a.limit lens
    → let (blocks, a') = alloc_all a lens in
      InOrder a.position blocks a'.position × IsValid a' × (a'.limit ≡ a.limit) × (a'.base ≡ a.base)
unfolding alloc_all
alloc_all-InOrder a [] v small = ground arith
alloc_all-InOrder a (len ∷ lens) v (fits, small) = elim (alloc_lem a len v (omega arith)) [
  | inl (le, e, v') ↦ rw e (
      let ih = alloc_all-InOrder (moved a (a.position + len)) lens v' small in
      ((omega arith, ih.0), ih.1, ih.2, ih.3))
  | inr (gt, e) ↦ rw e (alloc_all-InOrder a lens v small)
]
