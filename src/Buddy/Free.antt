-- ===== src/Buddy/Free.antt =====
-- What `buddy_free` clears, and where it panics.
use yaeos.Prelude.{ℕ, suc, ◌+◌, ◌-◌, ◌*◌, ◌/◌, ◌^◌, ◌≤◌, ◌<◌, ◌≡◌, arith, refl, ap}
use yaeos.Prelude.{
  Bool, true, false, ok, panic, ltb, ◌||◌, if◌then◌else◌, not, ◌∙◌, >>=-ok, >>=-panic, >>=-eq-ok,
  ◌>>=◌,
}
use yaeos.Prelude.{Bool-cases, inl, inr}
use native.Mathlib.Nat.{div-le_self}
use native.Mathlib.Decide.{ℕ_discrete}
use yaeos.Word.{◌+w◌, shl, shr}
use yaeos.Bitmap
use yaeos.Buddy.{
  BuddyManager, at_level, change_level, free_children, free, free_buddy, free_ancestors,
  free_ancestors_loop,
}
use yaeos.Buddy.Levels.{IsValid, Marked, used, get_level, at_chunk, change_false}
use yaeos.Buddy.Levels.{Writes, Writes-bind}
use yaeos.Buddy.Occupy.{below, free_children_lem}

-- One round of `free_buddys_ancestors`, at a chunk that was just cleared.
module _ (pages : ℕ) (m : BuddyManager) (lvl bit rounds : ℕ) (v : IsValid pages m)
    (lt : lvl < m.lvls) (h : bit < pages / 2 ^ lvl) (clear : used m lvl bit ≡ false) where
  left_eq : shl (shr bit 1) 1 ≡ bit / 2 * 2
  left_eq = omega (arith, v.pages_fit, div-le_self pages (2 ^ lvl))

  right_eq : bit / 2 * 2 +w 1 ≡ bit / 2 * 2 + 1
  right_eq = omega (arith, v.pages_fit, div-le_self pages (2 ^ lvl))

  read_left : at_level (λ b. Bitmap.get b (bit / 2 * 2)) m lvl ≡ ok (used m lvl (bit / 2 * 2))
  read_left = ground (
    arith,
    get_level pages m lvl v lt (bit / 2 * 2)
        (omega (arith, v.pages_fit, div-le_self pages (2 ^ lvl))),
  )

  -- The cleared chunk is one of the two children that are read.
  one_child : (not (used m lvl (bit / 2 * 2)) || not (used m lvl (bit / 2 * 2 + 1))) ≡ true
  one_child = elim (ℕ_discrete (bit / 2 * 2) bit) [
    | yes even ↦ ground (arith, clear, ap (used m lvl) even)
    | no odd ↦
        let odd' : bit / 2 * 2 + 1 ≡ bit = omega arith in
        ground (arith, clear, ap (used m lvl) odd')
  ]

  ancestors-stop :
      bit / 2 * 2 + 1 < pages / 2 ^ lvl → free_ancestors_loop (suc rounds) m lvl bit ≡ ok m
  unfolding free_ancestors_loop
  ancestors-stop sibling =
      let read_right : at_level (λ b. Bitmap.get b (bit / 2 * 2 + 1)) m lvl
          ≡ ok (used m lvl (bit / 2 * 2 + 1)) =
        ground (
          arith,
          get_level pages m lvl v lt (bit / 2 * 2 + 1)
              (omega (arith, v.pages_fit, div-le_self pages (2 ^ lvl))),
        ) in
      rw (left_eq, right_eq) (>>=-ok _ read_left (>>=-ok _ read_right (rw one_child)))

  ancestors-panic :
      pages / 2 ^ lvl ≤ bit / 2 * 2 + 1 → free_ancestors_loop (suc rounds) m lvl bit ≡ panic
  unfolding free_ancestors_loop
  ancestors-panic sibling =
      let read_right : at_level (λ b. Bitmap.get b (bit / 2 * 2 + 1)) m lvl ≡ panic = ground (
        arith,
        get_level pages m lvl v lt (bit / 2 * 2 + 1)
            (omega (arith, v.pages_fit, div-le_self pages (2 ^ lvl))),
      ) in
      rw (left_eq, right_eq) (>>=-ok _ read_left (>>=-panic _ read_right))

-- The chunks that freeing chunk `bit` of level `lvl` clears: it, and all that lies below it.
abbrev pub released : ℕ → ℕ → ℕ → ℕ → Bool
released lvl bit l j = below lvl bit l j || at_chunk lvl bit l j

free_ancestors-stop :
    (pages : ℕ) (m : BuddyManager) (lvl bit : ℕ)
    → IsValid pages m
    → lvl < m.lvls
    → bit < pages / 2 ^ lvl
    → used m lvl bit ≡ false
    → free_ancestors m lvl bit ≡ (if ltb (bit / 2 * 2 + 1) (pages / 2 ^ lvl) then ok m else panic)
unfolding free_ancestors
free_ancestors-stop pages m lvl bit v lt h clear =
    let rounds : m.lvls + 1 - lvl ≡ suc (m.lvls - lvl) = omega arith in
    rw rounds (elim (Bool-cases (ltb (bit / 2 * 2 + 1) (pages / 2 ^ lvl))) [
      | inl in_range ↦
          rw in_range (ancestors-stop pages m lvl bit (m.lvls - lvl) v lt h clear (ground arith))
      | inr past ↦
          rw past (ancestors-panic pages m lvl bit (m.lvls - lvl) v lt h clear (ground arith))
    ])

module _ (pages : ℕ) (m : BuddyManager) (page order : ℕ) (v : IsValid pages m) (lt : order < m.lvls)
    (h : page < pages / 2 ^ order) where
  -- The writes of `free_buddy` before it turns to the ancestors.
  cleared :
      Writes pages false
        (released order page)
        m
        (change_level (λ b. Bitmap.set_false b page) m order >>= λ m₁. free_children m₁ order page)
  cleared =
      Writes-bind pages false _ _ m _ (change_false pages m order v lt page h)
        λ m₁ p₁. free_children_lem pages m₁ order page p₁.valid (omega (arith, p₁.same_lvls)) h

  free-split :
      (m₂ : BuddyManager)
      → (change_level (λ b. Bitmap.set_false b page) m order >>= λ m₁. free_children m₁ order page)
        ≡ ok m₂
      → free m page order ≡ free_ancestors m₂ order page
  unfolding free free_buddy
  free-split m₂ e =
      let (m₁, e₁, e₂) = >>=-eq-ok (change_level (λ b. Bitmap.set_false b page) m order) _ e in
      >>=-ok _ e₁ (>>=-ok _ e₂ refl)

  stop :
      (m₂ : BuddyManager)
      → Marked pages false (released order page) m m₂
      → free_ancestors m₂ order page
        ≡ (if ltb (page / 2 * 2 + 1) (pages / 2 ^ order) then ok m₂ else panic)
  stop m₂ p =
      free_ancestors-stop pages m₂ order page p.valid (omega (arith, p.same_lvls)) h
        (ground (arith, p.chunks order page lt))

  -- Freeing a chunk whose sibling lies in the level clears the chunk and all that lies below it, and
  -- changes no other chunk of any level.
  pub free_releases :
      page / 2 * 2 + 1 < pages / 2 ^ order
      → Writes pages false (released order page) m (free m page order)
  free_releases sibling =
      let (m₂, e, p) = cleared in (m₂, free-split m₂ e ∙ stop m₂ p ∙ ground arith, p)

  -- Freeing the last chunk of a level of odd length panics: its sibling is read past the end.
  pub free-panic : pages / 2 ^ order ≤ page / 2 * 2 + 1 → free m page order ≡ panic
  free-panic alone = let (m₂, e, p) = cleared in free-split m₂ e ∙ stop m₂ p ∙ ground arith
