-- ===== src/Rbtree/Tests.antt =====
-- The theorems on the red-black tree of kernel/lib/ds/rbtree.c at concrete trees.
use yaeos.Prelude.{ℕ, ◌+◌, ◌≡◌, ◌≤◌, ◌>>=◌, refl, arith, Bool, true, false, ok}
use yaeos.Rbtree.{black, red}
use yaeos.Rbtree.Shape.{leaf, fork, count, top}
use yaeos.Rbtree.Balance.{Whole}
use yaeos.Rbtree.Mended.{Mended}
use yaeos.Rbtree.Fix.{rbt_insert_fix-Mended}
use yaeos.Rbtree.Attach.{below_in}
use yaeos.Rbtree.Insert.{Inserted, rbtree_insert-Inserted}
use yaeos.Rbtree.Found.{Sought, rbtree_search-Sought}
use yaeos.Rbtree.Greatest.{Greatest}
use yaeos.Rbtree.GreatestRound.{rbtree_search_max-Greatest}
use yaeos.Rbtree.RangeFrom.{Ranged, rbtree_iter_range-Ranged}
use yaeos.Rbtree.Update.{rbt_insert_fix, rbtree_insert}
use yaeos.Rbtree.Search.{rbtree_search, rbtree_search_max, rbtree_iter_range}
use yaeos.Rbtree.Delete.{rbtree_delete}
use yaeos.Rbtree.Shape.{left_of}
use yaeos.Rbtree.Climb.{descend_left}
use yaeos.Rbtree.Even.{Evened}
use yaeos.Rbtree.DeleteFix.{rbt_delete_fix-Evened}
use yaeos.Rbtree.Removed.{Removed}
use yaeos.Rbtree.Undone.{Restored, rbtree_delete_any-Removed, rbtree_delete-rbtree_insert}
use yaeos.Rbtree.Delete.{rbt_delete_fix}
use yaeos.Rbtree.Samples.{cmp, at, store, tree, store-StandsIn, four, place, four-StandsIn}

red-Whole : Whole (tree red)
red-Whole = (refl, 1, (0, refl, (refl, refl, refl, refl), (refl, refl, refl, refl)))

no : ¬ (true ≡ false)
no e = cc

four-fresh : count 4 (tree red) ≡ 0
unfolding count
four-fresh = refl

rbtree_insert-Inserted_example :
    Inserted (store red) (rbtree_insert cmp 4 (store red) 4) (below_in cmp (at red) 4) 4 (tree red)
rbtree_insert-Inserted_example =
    rbtree_insert-Inserted cmp 4 (store red) (tree red) 4 (omega arith) (store-StandsIn red)
      red-Whole four-fresh (omega arith)
      ((λ e. absurd (no e)), ((λ e. absurd (no e)), ((λ e. tt), tt)))

rbtree_search-Sought_example :
    (r : ℕ) × (rbtree_search cmp 4 (store red) 3 ≡ ok r) × Sought cmp (store red) 3 (tree red) r
rbtree_search-Sought_example =
    rbtree_search-Sought cmp 4 (store red) 3 (tree red) (store-StandsIn red) (omega arith) (
      ((λ e. absurd (no e)), ((λ e. absurd (no e)), ((λ e. tt), tt))),
      ((λ e. absurd (no e)), ((λ e. absurd (no e)), ((λ e. tt), tt))),
    )

rbt_insert_fix-Mended_example :
    Mended four
      (rbt_insert_fix 3 four 4)
      (fork 2 black (fork 1 red leaf leaf) (fork 3 red leaf (fork 4 red leaf leaf)))
rbt_insert_fix-Mended_example =
    rbt_insert_fix-Mended 3 four place 4 0 leaf leaf (omega arith) four-StandsIn
      (refl, refl, refl, ((refl, refl, refl, refl), tt)) (refl, refl, refl, refl)

-- The sum of the numbers.
abbrev plus : ℕ → ℕ → ℕ × Bool
plus sum n = (sum + n, true)

rbtree_iter_range-Ranged_example :
    Ranged cmp plus (store red) 2 3 0 (tree red) (rbtree_iter_range cmp plus 10 (store red) 2 3 0)
rbtree_iter_range-Ranged_example =
    rbtree_iter_range-Ranged cmp plus 10 (store red) 2 3 0 2 black (fork 1 red leaf leaf)
      (fork 3 red leaf leaf) (omega arith) refl (store-StandsIn red)
      ((λ e. absurd (no e)), ((λ e. (refl, tt)), ((λ e. tt), tt))) (omega arith)

two-in : 1 ≤ count 2 (tree black)
unfolding count
two-in = omega arith

black-Whole : Whole (tree black)
black-Whole = (refl, 2, (1, refl, (0, refl, refl, refl), (0, refl, refl, refl)))

rbt_delete_fix-Evened_example :
    Evened
      (store black)
      (rbt_delete_fix 2 (store black) 1)
      (left_of 2 black (fork 3 black leaf leaf) top)
      0
      (fork 1 black leaf leaf)
rbt_delete_fix-Evened_example =
    rbt_delete_fix-Evened 2 (store black) (left_of 2 black (fork 3 black leaf leaf) top) 1 0 black
      leaf leaf (omega arith)
      (descend_left (store black) top 2 black (fork 1 black leaf leaf) (fork 3 black leaf leaf)
        (store-StandsIn black))
      ((0, refl, refl, refl), tt)

rbtree_delete_any-Removed_example :
    Removed (store black) (rbtree_delete 4 (store black) 2) 2 (tree black)
rbtree_delete_any-Removed_example =
    rbtree_delete_any-Removed 4 (store black) 2 (tree black) two-in (omega arith)
      (store-StandsIn black) black-Whole

rbtree_delete-rbtree_insert_example :
    Restored
      (store red)
      (rbtree_insert cmp 5 (store red) 4 >>= (λ s'. rbtree_delete 5 s' 4))
      (tree red)
rbtree_delete-rbtree_insert_example =
    rbtree_delete-rbtree_insert cmp 5 (store red) (tree red) 4 (omega arith) (store-StandsIn red)
      red-Whole four-fresh (omega arith)
      ((λ e. absurd (no e)), ((λ e. absurd (no e)), ((λ e. tt), tt)))

rbtree_search_max-Greatest_example :
    Greatest cmp (store red) 7 (tree red) (rbtree_search_max cmp 10 (store red) 7)
rbtree_search_max-Greatest_example =
    rbtree_search_max-Greatest cmp 10 (store red) 7 (tree red) (omega arith) (store-StandsIn red)
      ((λ e. absurd (no e)), ((λ e. absurd (no e)), ((λ e. absurd (no e)), tt))) (omega arith)
