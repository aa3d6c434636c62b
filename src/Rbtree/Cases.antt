-- ===== src/Rbtree/Cases.antt =====
-- Runs of kernel/lib/ds/rbtree.c on concrete trees.
use yaeos.Prelude.{
  unfinished, ℕ, zero, suc, ◌+◌, ◌≡◌, refl, Bool, true, false, ◌==◌, if◌then◌else◌, List, [], ◌∷◌,
  ok, fault, panic, Outcome, ◌>>=◌, ◌++◌,
}
use yaeos.Rbtree.{Colour, black, red, Node, Store, is_red, rbt_rotate_left, rbt_rotate_right}
use yaeos.Rbtree.Update.{rbt_insert_fix, rbtree_insert}
use yaeos.Rbtree.Search.{rbtree_search, rbtree_search_min, rbtree_search_max, rbtree_iter_range}
use yaeos.Rbtree.Delete.{rbtree_delete}
use yaeos.Rbtree.Samples.{cmp, bare, four}

-- The sum of the numbers.
abbrev plus : ℕ → ℕ → ℕ × Bool
plus sum n = (sum + n, true)

-- `rbtree_search_max`, and the end of `rbtree_search_min` above all values.
search_max-between : rbtree_search_max cmp 10 four 7 ≡ ok 4
unfolding rbtree_search_max yaeos.Rbtree.Search.max_from yaeos.Rbtree.Search.rightward
    yaeos.Rbtree.Search.leftward
search_max-between = refl

search_min-past : rbtree_search_min cmp 10 four 7 ≡ fault
unfolding rbtree_search_min yaeos.Rbtree.Search.min_from yaeos.Rbtree.Search.leftward
    yaeos.Rbtree.Search.rightward yaeos.Rbtree.Search.back_up yaeos.Rbtree.rbt_get_parent
search_min-past = refl

iter_range-empty : rbtree_iter_range cmp plus 10 bare 1 7 0 ≡ fault
unfolding rbtree_iter_range rbtree_search_min yaeos.Rbtree.Search.min_from
iter_range-empty = refl

-- The nodes of a store with their colours, from left to right.
abbrev listed : ℕ → Store → ℕ → List (ℕ × Bool)
listed zero s a = []
listed (suc fuel) s a =
    let l = listed fuel s (s.node a).left in
    let r = listed fuel s (s.node a).right in
    if a == 0 then [] else l ++ (a, is_red (s.node a).colour) ∷ r

abbrev outcome : Outcome Store → List (ℕ × Bool)
outcome (ok s) = listed 6 s s.root
outcome panic = []
outcome fault = []
outcome unfinished = []

abbrev five : Outcome Store
five = do
  s₁ ← rbtree_insert cmp 10 bare 5
  s₂ ← rbtree_insert cmp 10 s₁ 4
  s₃ ← rbtree_insert cmp 10 s₂ 3
  s₄ ← rbtree_insert cmp 10 s₃ 1
  rbtree_insert cmp 10 s₄ 2

abbrev three : Outcome Store
three = do s₁ ← five; s₂ ← rbtree_delete 10 s₁ 4; rbtree_delete 10 s₂ 5

five-three : (outcome three ≡ (1, false) ∷ (2, false) ∷ (3, false) ∷ [])
unfolding rbtree_insert rbtree_delete rbt_insert_fix yaeos.Rbtree.rbtree_init_node
    yaeos.Rbtree.Update.find_place yaeos.Rbtree.rbt_set_parent yaeos.Rbtree.rbt_get_parent
    yaeos.Rbtree.rbt_get_colour yaeos.Rbtree.rbt_set_colour yaeos.Rbtree.rbt_get_grandparent
    yaeos.Rbtree.rbt_get_sibling yaeos.Rbtree.rbt_get_uncle yaeos.Rbtree.Update.straighten
    yaeos.Rbtree.Update.rotate_line rbt_rotate_left rbt_rotate_right
    yaeos.Rbtree.rbt_replace_subtree yaeos.Rbtree.relink yaeos.Rbtree.try_set_parent
    yaeos.Rbtree.Delete.rbt_find_successor yaeos.Rbtree.Delete.rightmost
    yaeos.Rbtree.Delete.rbt_swap_nodes yaeos.Rbtree.Delete.lift_over yaeos.Rbtree.Delete.put_down
    yaeos.Rbtree.Delete.replace_child yaeos.Rbtree.Delete.rbt_delete_fix
    yaeos.Rbtree.Delete.blacken_sibling yaeos.Rbtree.Delete.outward
    yaeos.Rbtree.Delete.settle_parent
five-three = refl
