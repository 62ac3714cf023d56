-- ===== src/Segtree/Tests.antt =====
-- Sums over five values, in a tree with eight leaves.
use libcp.Prelude.{ℕ, zero, suc, ◌+◌, ◌*◌, ◌^◌, ◌≤◌, ◌<◌, ◌≡◌, refl, some, [], ◌∷◌, arith, get_or}
use libcp.Memory.{done, malloc}
use libcp.Samples.{generous, start}
use libcp.Segtree.{
  Merge, Segtree, init, build, assign, query, next_capacity, fill_from, node_count, reset,
  rebuild_node, rebuild_below, rebuild_above, store_from, query_from,
}
use libcp.Segtree.Capacity.{next_capacity_correct}
use libcp.Segtree.Span.{IsMonoid}
use libcp.Segtree.Query.{IsBuilt, value_at, query_correct}
use libcp.Segtree.Update.{assign_correct}
use libcp.Segtree.Create.{Created, segtree_init_correct}

abbrev sum_merge : Merge ℕ
sum_merge dst lhs rhs = (done, lhs + rhs)

abbrev plus : ℕ → ℕ → ℕ
plus x y = x + y

abbrev tree : Segtree ℕ
tree = record {
  size = 3;
  capacity = 4;
  elem_size = 8;
  merge = sum_merge;
  identity = some 0;
  nodes = 0 ∷ 12 ∷ 7 ∷ 5 ∷ 3 ∷ 4 ∷ 5 ∷ 0 ∷ [];
}

sum_merge-IsMonoid : IsMonoid sum_merge plus 0
sum_merge-IsMonoid = record {
  merges = λ d x y. refl;
  assoc = λ x y z. omega arith;
  left_neutral = λ x. omega arith;
  right_neutral = λ x. omega arith;
}

tree_pairs :
    (k : ℕ)
    → 0 < k
    → k < 4
    → get_or tree.nodes k 0 ≡ get_or tree.nodes (k * 2) 0 + get_or tree.nodes (k * 2 + 1) 0
tree_pairs zero a b = absurd (omega arith)
tree_pairs (suc zero) a b = refl
tree_pairs (suc (suc zero)) a b = refl
tree_pairs (suc (suc (suc zero))) a b = refl
tree_pairs (suc (suc (suc (suc k)))) a b = absurd (omega arith)

tree-IsBuilt : IsBuilt generous plus 0 tree
tree-IsBuilt = record {
  monoid = sum_merge-IsMonoid;
  has_identity = refl;
  capacity_pos = omega arith;
  size_in = omega arith;
  fits = omega arith;
  nodes_length = refl;
  pairs = tree_pairs;
}

init_three :
    init generous tree 3 8 0 sum_merge start
    ≡ (done, record tree { nodes = 0 ∷ 0 ∷ 0 ∷ 0 ∷ 0 ∷ 0 ∷ 0 ∷ 0 ∷ [] }, record start { calls = 2 })
unfolding init next_capacity fill_from malloc
init_three = refl

build_three : (build generous tree (3 ∷ 4 ∷ 5 ∷ [])).1.nodes ≡ tree.nodes
unfolding build reset node_count fill_from rebuild_below rebuild_node store_from
build_three = refl

assign_one : (assign generous tree 1 10).1.nodes ≡ 0 ∷ 18 ∷ 13 ∷ 5 ∷ 3 ∷ 10 ∷ 5 ∷ 0 ∷ []
unfolding assign rebuild_above rebuild_node
assign_one = refl

query_two : (query generous tree 1 3 99 start).1 ≡ 9
unfolding query query_from malloc
query_two = refl

query_correct_example :
    ((query generous tree 1 3 99 start).0 ≡ done) × ((query generous tree 1 3 99 start).1 ≡ 9)
query_correct_example =
    query_correct generous plus 0 tree tree-IsBuilt 1 3 99 start (omega arith) (omega arith)

assign_correct_example :
    ((assign generous tree 1 10).0 ≡ done)
    × IsBuilt generous plus 0 (assign generous tree 1 10).1
    × (value_at generous (assign generous tree 1 10).1 1 ≡ 10)
assign_correct_example =
    assign_correct generous plus 0 tree tree-IsBuilt 1 10 1 (omega arith) (omega arith)

next_capacity_correct_example :
    (n : ℕ) × (next_capacity 65 1 5 ≡ some (2 ^ n)) × (5 ≤ 2 ^ n) × (2 ^ n < 10)
next_capacity_correct_example = next_capacity_correct 5 (omega arith) (omega arith)

segtree_init_correct_example :
    Created generous plus 0 sum_merge sum_merge-IsMonoid tree 3 4 8 start
      (init generous tree 3 8 0 sum_merge start)
segtree_init_correct_example =
    segtree_init_correct generous plus 0 sum_merge sum_merge-IsMonoid tree 3 8 start (omega arith) 2
      (omega arith) (omega arith) (omega arith)
