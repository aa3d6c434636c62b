-- ===== src/Rbtree/Samples.antt =====
-- Trees of kernel/lib/ds/rbtree.c for the tests.
use yaeos.Prelude.{◌≢◌, ℕ, ◌-◌, refl, arith, ◌==◌, if◌then◌else◌, ℤ, pos, negsuc, ltb}
use yaeos.Rbtree.{Colour, black, red, Node, Store}
use yaeos.Rbtree.Shape.{Linked, Shape, leaf, fork, count, Place, top, right_of, count_place}
use yaeos.Rbtree.Rotate.{StandsIn}

-- The difference of two numbers.
abbrev pub cmp : ℕ → ℕ → ℤ
cmp m n = if ltb m n then negsuc ((n - m) - 1) else pos (m - n)

abbrev pub bare : Store
bare = record {
  root = 0;
  node = λ a. record { content = a; left = 0; right = 0; parent = 0; colour = red };
}

-- Three nodes, the children of the colour.
abbrev pub at : Colour → ℕ → Node
at c a =
    if a == 2
    then record { content = 2; left = 1; right = 3; parent = 0; colour = black }
    else (if a == 1
        then record { content = 1; left = 0; right = 0; parent = 2; colour = c }
        else (if a == 3
            then record { content = 3; left = 0; right = 0; parent = 2; colour = c }
            else record { content = a; left = 0; right = 0; parent = 0; colour = red }))

abbrev pub store : Colour → Store
store c = record { root = 2; node = at c }

abbrev pub tree : Colour → Shape
tree c = fork 2 black (fork 1 c leaf leaf) (fork 3 c leaf leaf)

linked :
    (nodes : ℕ → Node) (a : ℕ)
    → a ≢ 0
    → Linked nodes a (nodes a).left (nodes a).right (nodes a).parent (nodes a).colour
linked nodes a some = record {
  some_node = some;
  left_link = refl;
  right_link = refl;
  parent_link = refl;
  has_colour = refl;
}

pub store-StandsIn : (c : Colour) → StandsIn (store c) top (tree c)
unfolding count count_place
store-StandsIn c = record {
  around = refl;
  held = (
    linked (at c) 2 (omega arith),
    (linked (at c) 1 (omega arith), tt, tt),
    (linked (at c) 3 (omega arith), tt, tt),
  );
  once = λ a. ground arith;
}

-- A red node below a red one.
abbrev pub four : Store
four = record {
  root = 2;
  node = λ a.
      if a == 3
      then record { content = 3; left = 0; right = 4; parent = 2; colour = red }
      else (if a == 4
          then record { content = 4; left = 0; right = 0; parent = 3; colour = red }
          else at red a);
}

abbrev pub place : Place
place = right_of 3 red leaf (right_of 2 black (fork 1 red leaf leaf) top)

pub four-StandsIn : StandsIn four place (fork 4 red leaf leaf)
unfolding count count_place
four-StandsIn = record {
  around = (
    linked four.node 3 (omega arith),
    tt,
    (linked four.node 2 (omega arith), (linked four.node 1 (omega arith), tt, tt), refl),
  );
  held = (linked four.node 4 (omega arith), tt, tt);
  once = λ a. ground arith;
}
