-- ===== src/Unionfind/Tests.antt =====
-- Four nodes in one set, with a node at depth two, and four nodes alone.
use mathlib.Core.Path.{subst}
use libcp.Prelude.{
  ℕ, zero, suc, ◌^◌, ◌≤◌, ◌<◌, ◌≡◌, ◌≢◌, ◌↔◌, ◌⊎◌, refl, true, false, some, [], ◌∷◌, arith, get_or,
  ◌==◌,
}
use libcp.Memory.{done, failed}
use libcp.Samples.{generous, refusing, start}
use libcp.Unionfind.{
  Unionfind, Joined, invalid, together, joined, find_root, compress, find, find_const, union, same,
  set_size, reset, init, copy, reset_from,
}
use libcp.Unionfind.Forest.{parent, Root, here, up}
use libcp.Counting.{count}
use libcp.Unionfind.Find.{Represents, find_correct, find_depth, set_size_correct}
use libcp.Unionfind.Union.{Merged, union_correct, union_invalid, same_correct}
use libcp.Unionfind.Create.{empty, init_correct, copy_correct, reset-Represents}

abbrev tree : Unionfind
tree = record { size = 4; set_count = 1; parents = 0 ∷ 0 ∷ 0 ∷ 2 ∷ []; sizes = 4 ∷ 0 ∷ 0 ∷ 0 ∷ [] }

abbrev unset : Unionfind
unset = record { size = 4; set_count = 0; parents = 7 ∷ 7 ∷ 7 ∷ 7 ∷ []; sizes = 7 ∷ 7 ∷ 7 ∷ 7 ∷ [] }

abbrev alone : Unionfind
alone = record { size = 4; set_count = 4; parents = 0 ∷ 1 ∷ 2 ∷ 3 ∷ []; sizes = 1 ∷ 1 ∷ 1 ∷ 1 ∷ [] }

alone-Represents : Represents alone (λ x. x)
unfolding reset reset_from
alone-Represents = reset-Represents unset refl refl (omega arith)

tree_rank : ℕ → ℕ
tree_rank zero = 2
tree_rank (suc zero) = 0
tree_rank (suc (suc zero)) = 1
tree_rank (suc (suc (suc x))) = 0

tree_inside : (x : ℕ) → x < 4 → parent tree.parents x < 4
tree_inside zero h = omega arith
tree_inside (suc zero) h = omega arith
tree_inside (suc (suc zero)) h = omega arith
tree_inside (suc (suc (suc zero))) h = omega arith
tree_inside (suc (suc (suc (suc x)))) h = absurd (omega arith)

tree_rises :
    (x : ℕ) → x < 4 → parent tree.parents x ≢ x → tree_rank x < tree_rank (parent tree.parents x)
unfolding tree_rank
tree_rises zero h off = absurd (off refl)
tree_rises (suc zero) h off = omega arith
tree_rises (suc (suc zero)) h off = omega arith
tree_rises (suc (suc (suc zero))) h off = omega arith
tree_rises (suc (suc (suc (suc x)))) h off = absurd (omega arith)

tree_rooted : (x : ℕ) → x < 4 → Root tree.parents x 0
tree_rooted zero h = here refl
tree_rooted (suc zero) h = up (λ e. absurd (omega (arith, e))) (here refl)
tree_rooted (suc (suc zero)) h = up (λ e. absurd (omega (arith, e))) (here refl)
tree_rooted (suc (suc (suc zero))) h =
    up (λ e. absurd (omega (arith, e))) (up (λ e. absurd (omega (arith, e))) (here refl))
tree_rooted (suc (suc (suc (suc x)))) h = absurd (omega arith)

tree-Represents : Represents tree (λ x. 0)
unfolding tree_rank
tree-Represents = record {
  rank = tree_rank;
  parents_length = refl;
  sizes_length = refl;
  bounded = omega arith;
  forest = record { inside = tree_inside; rises = tree_rises };
  rooted = tree_rooted;
  high = λ r h e. subst (λ z. 2 ^ tree_rank z ≤ get_or tree.sizes z 0) e (omega arith);
  counted = λ r h e. subst (λ z. get_or tree.sizes z 0 ≡ count 4 (λ x. 0 == z)) e refl;
  sets = refl;
}

find_compresses : find tree 3 ≡ (some 0, record tree { parents = 0 ∷ 0 ∷ 0 ∷ 0 ∷ [] })
unfolding find find_root compress
find_compresses = refl

union_joins : union alone 0 1 ≡ (
  joined,
  record { size = 4; set_count = 3; parents = 0 ∷ 0 ∷ 2 ∷ 3 ∷ []; sizes = 2 ∷ 0 ∷ 1 ∷ 1 ∷ [] },
)
unfolding union find find_root compress libcp.Unionfind.link_larger libcp.Unionfind.link
union_joins = refl

find_correct_example :
    ((find tree 3).0 ≡ some 0)
    × Represents (find tree 3).1 (λ x. 0)
    × ((find tree 3).1.set_count ≡ 1)
    × (parent (find tree 3).1.parents 3 ≡ 0)
find_correct_example = find_correct tree (λ x. 0) tree-Represents 3 (omega arith)

find_depth_example :
    (find_root 3 tree.parents 3 ≡ 0) × (compress 3 tree.parents 3 0 ≡ compress 4 tree.parents 3 0)
find_depth_example = find_depth tree (λ x. 0) tree-Represents 3 (omega arith) 3 (omega arith)

set_size_correct_example : ((set_size tree 3).0 ≡ 4) × Represents (set_size tree 3).1 (λ x. 0)
set_size_correct_example = set_size_correct tree (λ x. 0) tree-Represents 3 (omega arith)

union_correct_example :
    ((union alone 0 1).0 ≡ joined) × Merged alone (union alone 0 1).1 (λ x. x) 0 1
union_correct_example =
    union_correct alone (λ x. x) alone-Represents 0 1 (omega arith) (omega arith)

union_invalid_example : ((union alone 0 9).0 ≡ invalid) ↔ ((4 ≤ 0) ⊎ (4 ≤ 9))
union_invalid_example = union_invalid alone (λ x. x) alone-Represents 0 9

same_correct_example : ((same tree 1 3).0 ≡ some true) × Represents (same tree 1 3).1 (λ x. 0)
same_correct_example = same_correct tree (λ x. 0) tree-Represents 1 3 (omega arith) (omega arith)

init_correct_example :
    ((init generous 4 start).0 ≡ done)
    × ((((init generous 4 start).0 ≡ done)
          × ((init generous 4 start).1.size ≡ 4)
          × Represents (init generous 4 start).1 (λ x. x))
        ⊎ (((init generous 4 start).0 ≡ failed) × ((init generous 4 start).1 ≡ empty)))
init_correct_example = init_correct generous 4 start (omega arith)

copy_correct_example :
    ((copy refusing false alone tree start).0 ≡ failed)
    × ((((copy refusing false alone tree start).0 ≡ done)
          × ((copy refusing false alone tree start).1 ≡ tree))
        ⊎ (((copy refusing false alone tree start).0 ≡ failed)
            × ((copy refusing false alone tree start).1 ≡ alone)))
copy_correct_example = copy_correct refusing alone tree start (omega arith) refl refl
