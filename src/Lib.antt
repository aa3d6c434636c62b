-- ===== src/Lib.antt =====
-- A verification library for the core libraries of YAEOS, a kernel for i686.
--
-- The program's parts that are modelled, the lowest first:
-- - Align: kernel/include/lib/align.h. Rounding of addresses to a power of two.
-- - Utils: kernel/include/lib/utils.h. Logarithms, division that rounds up, the lowest one or zero
--   digit of a word.
-- - Linear: kernel/lib/mm/linear.c. An allocator that moves a pointer through one region.
--   `alloc` is `linear_alloc_alloc`, and so on.
-- - Bitmap: kernel/lib/ds/bitmap.c. `search_false` is `bitmap_search_false`, and so on.
-- - Buddy: kernel/lib/mm/buddy.c. One bitmap for each size of chunk, over memory that the linear
--   allocator hands out. `alloc` is `buddy_alloc`; `occupy_descendants`, `free_children` and
--   `free_ancestors` are `occupy_buddys_descendants`, `free_buddys_children` and
--   `free_buddys_ancestors`.
-- - Kvstore: kernel/lib/ds/kvstore.c. Keys and values in two arrays; the linear allocator lays it out.
-- - Ctype: kernel/lib/cstd/ctype.c. The character classes and the two case conversions.
-- - Strings: kernel/lib/cstd/string. The string and memory functions, over memory as a list of bytes.
-- - Printf: kernel/lib/cstd/stdio/vfprintf.c. The parser of conversion specifications, the fetching of
--   arguments, the table of conversions and `kvfprintf`. `parse_conv_spec` is cut into one function for
--   each of its parts, and `print_conv_spec` behind `fetch_arg` is `print_field`. The build passes
--   `-fshort-enums` (confmk/common.mk), so that the special words of a width and a precision are 255
--   and 254 and the code compares their low byte. What is to be printed is described apart from the
--   code: Printf/Numeral has the numerals of a number, Printf/Passed how i686 passes an argument,
--   Printf/Layout a field, Printf/Shown what a specifier shows, and Printf/Notation how a conversion
--   is written.
-- - Slist: kernel/lib/ds/slist.c, and Pool: kernel/lib/mm/pool.c. The singly linked list over a heap of
--   `next` pointers, and the pool of elements that it keeps free; `Slist.remove` is `slist_remove`.
-- - Resources: kernel/kernel/resources.c. The registry of resources, whose two lists are those of Slist;
--   `claim` is what `claim_by_id` and `claim_by_type` share. `resource_of` asserts the alignment of the
--   resource; the state of an owner is the low byte of its word, by `-fshort-enums`.
-- - Rbtree: kernel/lib/ds/rbtree.c, with Rbtree/Update for `rbtree_insert`, Rbtree/Delete for
--   `rbtree_delete` and Rbtree/Search for the searches and `rbtree_iter_range`. The nodes are a function
--   from addresses; Rbtree/Shape describes the tree that stands in them and the place of a subtree,
--   Rbtree/Spine the way to the last node of a subtree, with which `rbt_swap_nodes` changes a node over.
-- - Cbuffer: kernel/include/lib/ds/cbuffer.h. The ring buffer, `CBUFFER_PUSH` and its kin.
-- - Addr: kernel/kernel/mm/addr.c. The low and the high view of physical memory.
-- Prelude holds the shared names, the list functions and the outcome of a call; Word the arithmetic
-- of 32 bits; Bits the binary digits of a number.
--
-- A call that can fail an assertion or access memory outside an object returns an `Outcome`: `ok`,
-- `panic` for a failed `kassert` (the build without NDEBUG), `fault` for such an access, or
-- `unfinished` for a loop that does not end in the rounds that it is given. An operation that changes a
-- structure takes it and returns the new one. Pointers are numbers, and NULL is 0, or `none` where
-- a function returns it. `size_t`, `uintptr_t`, `unsigned` and `unsigned long` have 32 bits, and
-- arithmetic on them is written with its wrap. An array is a list of what its memory holds. A
-- pointer to the structure that a function works on is never NULL in the model, and the memory
-- blocks of different bitmaps are different lists.
--
-- Bounds: a loop over an index is a recursion on the number of rounds that its condition gives, so
-- it cannot run out. The loop of `find_first_one` recurses on the accessibility of `<`. Where a
-- theorem on `buddy_init` speaks of at most 2 ^ 20 pages, this is the address space of 4 GiB in
-- pages of 4 KiB.
-- The loops of `slist_remove` and of the claims are given a number of rounds, since a list may be a
-- cycle; the loop of `mem_pool_init` recurses on the size of the memory, of which each round takes a
-- part.
-- The loops of the red-black tree are given a number of rounds: for the insertion, the search and the
-- deletion more than the nodes of the tree are enough, for `rbt_insert_fix` and `rbt_delete_fix` more
-- than the nodes above the place, for `rbtree_search_max` more than two for each node, and for the walk
-- over a range more than three for each node.
-- The loop of `kvfprintf` recurses on a number of rounds, which is the length of the format and one:
-- a round takes at least one character. `kvfprintf` is given the callback that prints, and `debug`,
-- which says whether the build keeps its assertions.
--
-- Not modelled: the intrusive lists, the NDEBUG form of the nodes of the red-black tree, the memory
-- manager and the heap of the kernel, and the code of the machine (ports, descriptor tables, drivers),
-- which is input and output. The comparisons that a key-value store and a
-- red-black tree are given are parameters, and the compiler's count of leading zeros is written out.
pub mod Prelude
pub mod Bits
pub mod Word
pub mod Align
pub mod Utils
pub mod Linear
pub mod Bitmap
pub mod Buddy
pub mod Kvstore
pub mod Ctype
pub mod Strings
pub mod Slist
pub mod Pool
pub mod Rbtree
pub mod Resources
pub mod Cbuffer
pub mod Addr
pub mod Printf
