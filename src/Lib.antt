-- ===== src/Lib.antt =====
-- A model of libcp, a C library of containers (files under src/ of the repository), with theorems about
-- its operations, which stand at the end of this comment.
--
-- The parts.
-- Memory models what the containers take from outside: malloc and realloc (the answers of the
-- allocator are a parameter, with the one law that no object of PTRDIFF_MAX + 1 bytes is granted),
-- the callbacks elem_copy and elem_destroy, memcpy, and the log of the elements that were destroyed.
-- Sequence is the contract of the two sequence containers, with no buffer in sight.
-- Vector models src/vector.c, Deque src/deque.c, Heap src/heap.c,
-- Unionfind src/unionfind.c, Segtree src/segtree.c, Bitset src/bitset.c, Hashmap src/hashmap.c and
-- Hashset src/hashset.c. In each, the C struct is a record
-- of the same name, and the C function X_name is the definition `name` (X_set is `assign`, the
-- first statements of the pushes are `make_room`). A function that changes its container takes the
-- record and the world and returns the status, the new record and the new world; `done` is 0 and
-- `failed` is -1. Accessors return the element at the address that C returns, `none` for NULL.
-- Below each stand the modules of its invariant and growth (Room), its operations (Edit, Queue, Pop), its
-- copies (Copy), and runs on concrete inputs (Tests). Samples holds inputs that the tests share.
-- In Unionfind, Forest is the relation from a node to its root, Compress the second loop of
-- unionfind_find, Find says what the struct represents (a map from every node to
-- the root of its set), Link and Merge are the writes of unionfind_union, and Create its beginnings.
-- In Segtree, Capacity is about the number of leaves, Span combines a run of values, Climb is the loop of
-- segtree_query, Query, Update, Build and Create are segtree_query, segtree_set, segtree_build and
-- segtree_init.
-- In Bitset, Bytes says what a set is and what its loops over bytes do, Edit, Bulk, Compare, Search, Create and Text
-- are the operations on one bit, on all bits, the comparison, counting and searching, resizing, and texts; bitset_set,
-- bitset_and, bitset_or, bitset_xor and bitset_none are `assign`, `and_with`, `or_with`, `xor_with` and `is_none`.
-- Probing holds what src/hashmap.c does with a key: its hashes, the comparison, and the two loops
-- that walk the buckets. There Keys, Places, Walk, Table and Edit are about the comparison, the
-- order of the walk, where it ends, what holds of the buckets with it, and writes to a bucket. In
-- Hashmap, Valid is the invariant and what a lookup reads, Cells what one write does to the entries
-- and the counts, Rehash, Grow and Prepare are hashmap_rehash and hashmap_prepare_insert; Lookup is
-- about hashmap_at, Assign, Update and Delete hashmap_set and hashmap_delete, and Entries has the
-- functions on the whole table, with Buckets, Reserve, Iterate and Clear below it; hashmap_set is
-- `assign`, whose two branches are `replace` and `fill`. A key is the list of its bytes. In
-- Hashset, Members is about its members.
-- Bits holds the digits of numbers, Counting counts the numbers that pass a test.
-- Prelude holds lists over native numbers, arrays in memory and tests.
--
-- Conventions.
-- Elements are values of a type parameter; a buffer is a list of slots, and a slot that no code has
-- written holds `junk`. Arithmetic in size_t wraps round modulo 2^64, and the invariants are what makes it
-- exact: a buffer that was granted has less than 2^63 bytes, and an element at most 2^60.
-- The loops of the heap take fuel: sift_up as much as the index it starts at, which falls, and sift_down as much as the
-- number of elements, towards which the index grows. The loops of unionfind_find take the number of nodes, which is more
-- than the depth of the forest. segtree_next_capacity takes 65 rounds, one more than size_t has bits, and
-- the loops of segtree_set and segtree_query the index they begin at, which halves.
-- The walks of src/hashmap.c take as many rounds as there are buckets; one of these is empty, which ends them. The
-- loop of hashmap_bucket_capacity_for_entries takes 64 rounds, after which all bits are shifted out, and answers `none`
-- when it is not done, and with it hashmap_reserve, hashmap_copy and their callers. hashmap_copy visits
-- no more entries than there are buckets.
--
-- Not modelled.
-- The assertions of src/bitset.c and what happens when one fails: the sizes and positions that they
-- ask for are hypotheses where a theorem needs the same. Null pointers as arguments (an argument is
-- a value here), the effect of free, an argument that points into the buffer that grows, and
-- callbacks with a state of their own. Of the C library's qsort and bsearch there are only calls in
-- src/vector.c, left out with their two wrappers. The other containers of src/ are outside this
-- development.
pub mod Prelude
pub mod Bits
pub mod Counting
pub mod Memory
pub mod Vector
pub mod Sequence
pub mod Deque
pub mod Heap
pub mod Unionfind
pub mod Segtree
pub mod Bitset
pub mod Probing
pub mod Hashmap
pub mod Hashset
pub mod Samples
