-- ===== src/Rbtree/Search.antt =====
-- The searches and the walk over a range in kernel/lib/ds/rbtree.c. The values are pointers, which only the
-- comparison follows.
use yaeos.Prelude.{
  unfinished, ℕ, zero, suc, Bool, false, not, ◌==◌, ◌&&◌, if◌then◌else◌, ℤ, pos, negsuc, Outcome,
  ok, ◌>>=◌, ◌>>◌, kassert,
}
use yaeos.Rbtree.{Store, is_null, load, rbt_get_parent}
use yaeos.Rbtree.Update.{is_positive, is_negative}

abbrev pub is_zero : ℤ → Bool
is_zero (pos n) = n == 0
is_zero (negsuc n) = false

-- The loop of `rbtree_search`.
unfoldable pub search : (ℕ → ℕ → ℤ) → Store → ℕ → ℕ → ℕ → Outcome ℕ
search cmpf s value zero node = unfinished
search cmpf s value (suc fuel) node =
    let c = cmpf (s.node node).content value in
    let to_left = search cmpf s value fuel (s.node node).left in
    let to_right = kassert (is_negative c) >> search cmpf s value fuel (s.node node).right in
    if is_null node
    then ok 0
    else (if is_zero c then ok node else (if is_positive c then to_left else to_right))

unfoldable pub rbtree_search : (ℕ → ℕ → ℤ) → ℕ → Store → ℕ → Outcome ℕ
rbtree_search cmpf fuel s value = search cmpf s value fuel s.root

-- The comparison with the value under the cursor, which must not be NULL.
abbrev compare_at : (ℕ → ℕ → ℤ) → Store → ℕ → ℕ → Outcome ℤ
compare_at cmpf s limit cursor = load s cursor >>= (λ n. ok (cmpf n.content limit))

module _ (cmpf : ℕ → ℕ → ℤ) (s : Store) (limit : ℕ) where
  -- The loops to the left while the cursor is above the limit, and to the right while it is below.
  unfoldable pub leftward : ℕ → ℕ → ℤ → Outcome (ℕ × ℤ)
  leftward zero cursor cmp_result = unfinished
  leftward (suc fuel) cursor cmp_result =
      let left = (s.node cursor).left in
      let further = compare_at cmpf s limit left >>= (λ c. leftward fuel left c) in
      if is_positive cmp_result && not (is_null left) then further else ok (cursor, cmp_result)

  unfoldable pub rightward : ℕ → ℕ → ℤ → Outcome (ℕ × ℤ)
  rightward zero cursor cmp_result = unfinished
  rightward (suc fuel) cursor cmp_result =
      let right = (s.node cursor).right in
      let further = compare_at cmpf s limit right >>= (λ c. rightward fuel right c) in
      if is_negative cmp_result && not (is_null right) then further else ok (cursor, cmp_result)

  -- The way back of `rbtree_search_min`, and that of `rbtree_search_max`, which stops at the root.
  unfoldable pub back_up : ℕ → ℕ → ℤ → Outcome (ℕ × ℤ)
  back_up zero cursor cmp_result = unfinished
  back_up (suc fuel) cursor cmp_result =
      let further = (do
        parent ← rbt_get_parent s cursor
        c ← compare_at cmpf s limit parent
        back_up fuel parent c) in
      if is_negative cmp_result then further else ok (cursor, cmp_result)

  unfoldable pub back_down : ℕ → ℕ → ℤ → Outcome (ℕ × ℤ)
  back_down zero cursor cmp_result = unfinished
  back_down (suc fuel) cursor cmp_result =
      let further = (do
        parent ← rbt_get_parent s cursor
        let above = compare_at cmpf s limit parent >>= (λ c. back_down fuel parent c)
        if is_null parent then ok (cursor, cmp_result) else above) in
      if is_positive cmp_result then further else ok (cursor, cmp_result)

  -- The outer loops.
  unfoldable pub min_from : ℕ → ℕ → Outcome ℕ
  min_from zero cursor = unfinished
  min_from (suc fuel) cursor =
      let round = (do
        c₀ ← compare_at cmpf s limit cursor
        (cursor₁, c₁) ← leftward fuel cursor c₀
        (cursor₂, c₂) ← rightward fuel cursor₁ c₁
        let below = back_up fuel cursor₂ c₂ >>= (λ r. ok r.0)
        let again = min_from fuel cursor₂
        if is_zero c₂
            then ok cursor₂
            else (if is_negative c₂ && is_null (s.node cursor₂).right
                then below
                else (if is_positive c₂ && is_null (s.node cursor₂).left
                    then ok cursor₂
                    else again))) in
      if is_null cursor then ok cursor else round

  unfoldable pub max_from : ℕ → ℕ → ℤ → Outcome (ℕ × ℤ)
  max_from zero cursor cmp_result = unfinished
  max_from (suc fuel) cursor cmp_result =
      let round = (do
        c₀ ← compare_at cmpf s limit cursor
        (cursor₁, c₁) ← rightward fuel cursor c₀
        (cursor₂, c₂) ← leftward fuel cursor₁ c₁
        let over = back_down fuel cursor₂ c₂
        let again = max_from fuel cursor₂ c₂
        if is_zero c₂
            then ok (cursor₂, c₂)
            else (if is_positive c₂ && is_null (s.node cursor₂).left
                then over
                else (if is_negative c₂ && is_null (s.node cursor₂).right
                    then ok (cursor₂, c₂)
                    else again))) in
      if is_null cursor then ok (cursor, cmp_result) else round

unfoldable pub rbtree_search_min : (ℕ → ℕ → ℤ) → ℕ → Store → ℕ → Outcome ℕ
rbtree_search_min cmpf fuel s limit =
    kassert (not (is_null limit)) >> min_from cmpf s limit fuel s.root

unfoldable pub rbtree_search_max : (ℕ → ℕ → ℤ) → ℕ → Store → ℕ → Outcome ℕ
rbtree_search_max cmpf fuel s limit = do
  kassert (not (is_null limit))
  (cursor, cmp_result) ← max_from cmpf s limit fuel s.root (pos 0)
  if is_positive cmp_result then ok 0 else ok cursor

-- What a round of the walk does: it returns, or it goes on with `prev` and `cursor`.
pub data Round (A : Type 0) : Type 0 where
  stopped : A → Round A
  going : A → ℕ → ℕ → Round A

module _ {A : Type 0} (cmpf : ℕ → ℕ → ℤ) (fn : A → ℕ → A × Bool) (s : Store) (value_to : ℕ) where
  -- The visit of the node, with the function's answer.
  abbrev pub visit : A → ℕ → Round A
  visit data_ cursor =
      let n = s.node cursor in
      let called = fn data_ n.content in
      let next = if is_null n.right then n.parent else n.right in
      if is_positive (cmpf n.content value_to)
      then stopped data_
      else (if called.1 then going called.0 cursor next else stopped called.0)

  unfoldable pub walk_round : A → ℕ → ℕ → Round A
  walk_round data_ prev cursor =
      let n = s.node cursor in
      if prev == n.left
      then visit data_ cursor
      else (if prev == n.right
          then going data_ cursor n.parent
          else (if is_null n.left then going data_ n.left cursor else going data_ cursor n.left))

  abbrev pub follow : (A → ℕ → ℕ → Outcome A) → Round A → Outcome A
  follow go_on (stopped data_) = ok data_
  follow go_on (going data_ prev cursor) = go_on data_ prev cursor

  unfoldable pub walk : ℕ → A → ℕ → ℕ → Outcome A
  walk zero data_ prev cursor = unfinished
  walk (suc fuel) data_ prev cursor =
      let further = follow (walk fuel) (walk_round data_ prev cursor) in
      if is_null cursor then ok data_ else further

unfoldable pub rbtree_iter_range :
    {A : Type 0} → (ℕ → ℕ → ℤ) → (A → ℕ → A × Bool) → ℕ → Store → ℕ → ℕ → A → Outcome A
rbtree_iter_range cmpf fn fuel s value_from value_to data_ = do
  kassert (is_negative (cmpf value_from value_to))
  cursor ← rbtree_search_min cmpf fuel s value_from
  n ← load s cursor
  walk cmpf fn s value_to fuel data_ n.left cursor
