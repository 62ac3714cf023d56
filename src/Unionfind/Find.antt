-- ===== src/Unionfind/Find.antt =====
-- unionfind_find, unionfind_find_const and unionfind_set_size, and the partition of a struct.
use Prim.Native.Nat.{min}
use mathlib.Core.Path.{subst}
use native.Mathlib.Decide.{dec_lt, ℕ_discrete}
use native.Mathlib.Nat.{two-pow-succ, pow-le-pow_right}
use libcp.Prelude.{
  ℕ, zero, suc, ◌+◌, ◌-◌, ◌^◌, ◌≤◌, ◌<◌, ◌≡◌, refl, ap, ◌∙◌, false, some, arith, leb, ◌==◌, length,
  get_or,
}
use libcp.Memory.{size_mod}
use libcp.Unionfind.{Unionfind, find_root, compress, find, find_const, set_size}
use libcp.Unionfind.Forest.{
  parent, Root, here, Root-parent, Root-unique, Root-inside, Root-rank, IsForest, find_root-Root,
}
use libcp.Unionfind.Compress.{compress-Kept, compress-parent_positive, compress-enough}
use libcp.Counting.{count, count-le}

-- The struct stands for the partition of the nodes in which `root x` speaks for the set of `x`:
-- the parents lead to it, sizes holds the size of a set at its root, set_count is the number of
-- roots. A root of a given rank has twice to that power nodes below it.
pub record Represents (uf : Unionfind) (root : ℕ → ℕ) : Type 0 where
  pub rank : ℕ → ℕ
  pub parents_length : length uf.parents ≡ uf.size
  pub sizes_length : length uf.sizes ≡ uf.size
  pub bounded : uf.size < size_mod
  pub forest : IsForest uf.parents rank
  pub rooted : (x : ℕ) → x < uf.size → Root uf.parents x (root x)
  pub high : (r : ℕ) → r < uf.size → root r ≡ r → 2 ^ rank r ≤ get_or uf.sizes r 0
  pub counted :
      (r : ℕ) → r < uf.size → root r ≡ r → get_or uf.sizes r 0 ≡ count uf.size (λ x. root x == r)
  pub sets : uf.set_count ≡ count uf.size (λ x. root x == x)

pub lt-power : (n : ℕ) → n < 2 ^ n
lt-power zero = omega arith
lt-power (suc n) = omega (arith, lt-power n, two-pow-succ n)

module _ (uf : Unionfind) (root : ℕ → ℕ) (rep : Represents uf root) where
  pub root_inside : (x : ℕ) → x < uf.size → root x < uf.size
  root_inside x h =
      rw rep.parents_length at
        (Root-inside uf.parents rep.rank rep.forest (rep.rooted x h) (rw rep.parents_length h))

  -- A root speaks for itself.
  pub root_idem : (x : ℕ) → x < uf.size → root (root x) ≡ root x
  root_idem x h =
      Root-unique (rep.rooted (root x) (root_inside x h)) (here (Root-parent (rep.rooted x h)))

  -- No node of the forest is deeper than the binary logarithm of the number of nodes.
  pub power-rank : (x : ℕ) → x < uf.size → 2 ^ rep.rank x ≤ uf.size
  power-rank x h =
      let r = root x in
      let inside = root_inside x h in
      let top = root_idem x h in
      let rise : rep.rank x ≤ rep.rank r = elim (ℕ_discrete x r) [
        | yes e ↦ subst (λ z. rep.rank x ≤ rep.rank z) e (omega arith)
        | no ne ↦ omega (
          arith,
          Root-rank uf.parents rep.rank rep.forest (rep.rooted x h) (rw rep.parents_length h) ne,
        )
      ] in
      omega (
        arith,
        pow-le-pow_right {n = 2} (omega arith) rise,
        rep.high r inside top,
        rep.counted r inside top,
        count-le uf.size (λ y. root y == r),
      )

  rank-lt : (fuel x : ℕ) → uf.size < 2 ^ fuel → x < uf.size → rep.rank x < fuel
  rank-lt fuel x f h = elim (dec_lt (rep.rank x) fuel) [
    | yes low ↦ low
    | no high ↦ absurd (
        omega (
          arith,
          power-rank x h,
          pow-le-pow_right {n = 2} (omega arith) {i = fuel} {j = rep.rank x} (omega arith),
        ))
  ]

  rank-le :
      (fuel : ℕ) → uf.size < 2 ^ fuel → (y : ℕ) → y < length uf.parents → rep.rank y ≤ fuel - 1
  rank-le fuel f y h = omega (arith, rank-lt fuel y f (rw rep.parents_length at h))

  -- The fuel that is enough for the loops: one more than the depth of the forest.
  enough : (fuel x : ℕ) → uf.size < 2 ^ fuel → x < uf.size → fuel - 1 < rep.rank x + fuel
  enough fuel x f h = omega (arith, rank-lt fuel x f h)

  pub find_root-root :
      (fuel : ℕ) → uf.size < 2 ^ fuel → (x : ℕ) → x < uf.size → find_root fuel uf.parents x ≡ root x
  find_root-root fuel f x h =
      Root-unique
        (find_root-Root fuel (fuel - 1) uf.parents rep.rank x rep.forest (rank-le fuel f)
          (enough fuel x f h) (rw rep.parents_length h))
        (rep.rooted x h)

  pub compress-fuel :
      (fuel : ℕ)
      → uf.size < 2 ^ fuel
      → (x : ℕ) → x < uf.size
      → compress fuel uf.parents x (root x) ≡ compress uf.size uf.parents x (root x)
  compress-fuel fuel f x h =
      let bound = min fuel uf.size - 1 in
      let low : (y : ℕ) → y < uf.size → rep.rank y < fuel × rep.rank y < uf.size =
        λ y hy. (rank-lt fuel y f hy, rank-lt uf.size y (lt-power uf.size) hy) in
      compress-enough fuel uf.size bound uf.parents rep.rank x (root x) rep.forest
        (λ y hy. omega (arith, low y (rw rep.parents_length at hy))) (omega (arith, low x h))
        (omega (arith, low x h)) (rw rep.parents_length h) (rep.rooted x h)

  -- Giving nodes on the way their root as parent represents the same partition.
  abbrev pub compressed : (x : ℕ) → Unionfind
  compressed x = record uf { parents = compress uf.size uf.parents x (root x) }

  pub compressed-Represents : (x : ℕ) → x < uf.size → Represents (compressed x) root
  compressed-Represents x h =
      let kept =
        compress-Kept uf.size uf.parents rep.rank x (root x) rep.forest (rw rep.parents_length h)
          (rep.rooted x h) in
      record {
        rank = rep.rank;
        parents_length = kept.as_long ∙ rep.parents_length;
        sizes_length = rep.sizes_length;
        bounded = rep.bounded;
        forest = kept.forest;
        rooted = λ y hy. kept.roots (rep.rooted y hy);
        high = rep.high;
        counted = rep.counted;
        sets = rep.sets;
      }

  in_range : (x : ℕ) → x < uf.size → leb uf.size x ≡ false
  in_range x h = ground arith

  pub find-found : (x : ℕ) → x < uf.size → find uf x ≡ (some (root x), compressed x)
  unfolding find
  find-found x h = rw (in_range x h, find_root-root uf.size (lt-power uf.size) x h) refl

  pub find_const-found : (x : ℕ) → x < uf.size → find_const uf x ≡ some (root x)
  unfolding find_const
  find_const-found x h = rw (in_range x h, find_root-root uf.size (lt-power uf.size) x h) refl

  pub set_size-found :
      (x : ℕ) → x < uf.size → set_size uf x ≡ (count uf.size (λ y. root y == root x), compressed x)
  unfolding set_size
  set_size-found x h =
      let size = rep.counted (root x) (root_inside x h) (root_idem x h) in
      rw (in_range x h, ap (λ z. z.0) (find-found x h), ap (λ z. z.1) (find-found x h))
        (ap (λ n. (n, compressed x)) size)

  -- For a node of a struct that represents a partition, unionfind_find returns the root that speaks
  -- for the node's set, the struct represents the same partition afterwards, and the node has the
  -- root as its parent.
  pub find_correct :
      (x : ℕ)
      → x < uf.size
      → ((find uf x).0 ≡ some (root x))
        × Represents (find uf x).1 root
        × ((find uf x).1.set_count ≡ uf.set_count)
        × (parent (find uf x).1.parents x ≡ root x)
  find_correct x h = rw (find-found x h) (
    refl,
    compressed-Represents x h,
    refl,
    compress-parent_positive uf.size uf.parents x (root x) (omega (arith, h))
        (rw rep.parents_length h) (rep.rooted x h),
  )

  -- In a struct that represents a partition of fewer than 2 ^ k nodes, the first loop of
  -- unionfind_find reaches the root within k rounds from any node, and the second loop ends within
  -- k rounds too: more rounds change nothing.
  pub find_depth :
      (fuel : ℕ)
      → uf.size < 2 ^ fuel
      → (x : ℕ) → x < uf.size
      → (find_root fuel uf.parents x ≡ root x)
        × (compress fuel uf.parents x (root x) ≡ compress uf.size uf.parents x (root x))
  find_depth fuel f x h = (find_root-root fuel f x h, compress-fuel fuel f x h)

  -- For a node of a struct that represents a partition, unionfind_set_size returns the number of
  -- nodes in the node's set, and the struct represents the same partition afterwards.
  pub set_size_correct :
      (x : ℕ)
      → x < uf.size
      → ((set_size uf x).0 ≡ count uf.size (λ y. root y == root x))
        × Represents (set_size uf x).1 root
  set_size_correct x h = rw (set_size-found x h) (refl, compressed-Represents x h)
