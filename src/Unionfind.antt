-- ===== src/Unionfind.antt =====
-- src/unionfind.c: disjoint sets as a parent forest with path compression and union by size.
-- An array of size_t is a list of numbers. The result UNIONFIND_INVALID is `none`; a read beyond an
-- array gives 0 and a write there changes nothing.
pub mod Forest
pub mod Compress
pub mod Find
pub mod Link
pub mod Merge
pub mod Union
pub mod Create
pub mod Tests
use libcp.Prelude.{
  ℕ, zero, suc, ◌+◌, ◌-◌, Bool, true, false, ◌||◌, Option, none, some, List, [], leb, ltb, ◌==◌,
  if◌then◌else◌, get_or, set, replicate,
}
use libcp.Memory.{
  Env, World, Status, done, failed, malloc, memcpy, mul_size, add_size, slots_in, size_mod,
}

-- sizeof(size_t), and sizeof(unionfind) with it.
abbrev pub sizeof_size : ℕ
sizeof_size = 8

abbrev pub sizeof_unionfind : ℕ
sizeof_unionfind = 32

pub record Unionfind : Type 0 where
  pub size : ℕ
  pub set_count : ℕ
  pub parents : List ℕ
  pub sizes : List ℕ

-- The results -1, 0 and 1 of unionfind_union.
pub data Joined : Type 0 where
  invalid together joined : Joined

-- The first loop of unionfind_find, and the loop of unionfind_find_const.
pub find_root : ℕ → List ℕ → ℕ → ℕ
find_root zero parents x = x
find_root (suc fuel) parents x = elim (get_or parents x 0 == x) [
  | true ↦ x
  | false ↦ find_root fuel parents (get_or parents x 0)
]

-- The second loop of unionfind_find: every node on the way gets the root as its parent.
pub compress : ℕ → List ℕ → ℕ → ℕ → List ℕ
compress zero parents x root = parents
compress (suc fuel) parents x root = elim (get_or parents x 0 == x) [
  | true ↦ parents
  | false ↦ compress fuel (set parents x root) (get_or parents x 0) root
]

-- No chain of parents is longer than the number of nodes.
pub find : Unionfind → ℕ → Option ℕ × Unionfind
find uf x =
    if leb uf.size x
    then (none, uf)
    else let root = find_root uf.size uf.parents x in
      (some root, record uf { parents = compress uf.size uf.parents x root })

-- The size_t that unionfind_find has returned, as an index: UNIONFIND_INVALID is (size_t)-1.
abbrev pub index_of : Option ℕ → ℕ
index_of none = size_mod - 1
index_of (some x) = x

pub find_const : Unionfind → ℕ → Option ℕ
find_const uf x = if leb uf.size x then none else some (find_root uf.size uf.parents x)

-- The statements of unionfind_union after the two calls of unionfind_find.
pub link : Unionfind → ℕ → ℕ → Unionfind
link uf root_a root_b = record uf {
  parents = set uf.parents root_b root_a;
  sizes =
      set (set uf.sizes root_a (add_size (get_or uf.sizes root_a 0) (get_or uf.sizes root_b 0)))
        root_b 0;
  set_count = uf.set_count - 1;
}

-- `root_a` and `root_b` in the order in which the larger set comes first.
pub link_larger : Unionfind → ℕ → ℕ → Unionfind
link_larger uf root_a root_b =
    if ltb (get_or uf.sizes root_a 0) (get_or uf.sizes root_b 0)
    then link uf root_b root_a
    else link uf root_a root_b

pub union : Unionfind → ℕ → ℕ → Joined × Unionfind
union uf a b =
    if leb uf.size a || leb uf.size b
    then (invalid, uf)
    else let (found_a, uf') = find uf a in
      let (found_b, uf'') = find uf' b in
      if index_of found_a == index_of found_b
      then (together, uf'')
      else (joined, link_larger uf'' (index_of found_a) (index_of found_b))

-- `none` is the result -1.
pub same : Unionfind → ℕ → ℕ → Option Bool × Unionfind
same uf a b =
    if leb uf.size a || leb uf.size b
    then (none, uf)
    else let (found_a, uf') = find uf a in
      let (found_b, uf'') = find uf' b in (some (index_of found_a == index_of found_b), uf'')

pub set_size : Unionfind → ℕ → ℕ × Unionfind
set_size uf x =
    if leb uf.size x
    then (0, uf)
    else let (found, uf') = find uf x in (get_or uf'.sizes (index_of found) 0, uf')

-- The loop of unionfind_reset from index `i` on.
pub reset_from : ℕ → ℕ → List ℕ → List ℕ → List ℕ × List ℕ
reset_from zero i parents sizes = (parents, sizes)
reset_from (suc rounds) i parents sizes =
    reset_from rounds (i + 1) (set parents i i) (set sizes i 1)

pub reset : Unionfind → Unionfind
reset uf =
    let (parents, sizes) = reset_from uf.size 0 uf.parents uf.sizes in
    record uf { parents = parents; sizes = sizes; set_count = uf.size }

module _ (e : Env ℕ) where
  pub resize : Unionfind → ℕ → World ℕ → Status × Unionfind × World ℕ
  resize uf size w =
      if size == 0
      then (done, record { size = size; set_count = size; parents = []; sizes = [] }, w)
      else (let (granted, w') = malloc e (mul_size size sizeof_size) w in
          if granted
          then (let (granted', w'') = malloc e (mul_size size sizeof_size) w' in
              if granted'
              then (
                done,
                record {
                  size = size;
                  set_count = size;
                  parents = replicate (slots_in (mul_size size sizeof_size) sizeof_size) e.junk;
                  sizes = replicate (slots_in (mul_size size sizeof_size) sizeof_size) e.junk;
                },
                w'',
              )
              else (failed, uf, w''))
          else (failed, uf, w'))

  pub init : ℕ → World ℕ → Status × Unionfind × World ℕ
  init size w =
      let (s, uf, w') =
        resize (record { size = 0; set_count = 0; parents = []; sizes = [] }) size w in
      elim s [ done ↦ (done, reset uf, w') | failed ↦ (failed, uf, w') ]

  pub new : ℕ → World ℕ → Option Unionfind × World ℕ
  new size w =
      let (granted, w') = malloc e sizeof_unionfind w in
      if granted
      then (let (s, uf, w'') = init size w' in
          elim s [ done ↦ (some uf, w'') | failed ↦ (none, w'') ])
      else (none, w')

  -- `aliased` says whether the two arguments are one pointer.
  pub copy : Bool → Unionfind → Unionfind → World ℕ → Status × Unionfind × World ℕ
  copy aliased dst src w =
      if aliased
      then (done, dst, w)
      else let (s, uf, w') = resize dst src.size w in
        elim s [
          | failed ↦ (failed, uf, w')
          | done ↦
              let slots = slots_in (mul_size src.size sizeof_size) sizeof_size in
              (
                done,
                record uf {
                  parents =
                      if src.size == 0 then uf.parents else memcpy uf.parents src.parents slots;
                  sizes = if src.size == 0 then uf.sizes else memcpy uf.sizes src.sizes slots;
                  set_count = src.set_count;
                },
                w',
              )
        ]

  pub clone : Unionfind → World ℕ → Option Unionfind × World ℕ
  clone src w =
      let (found, w') = new src.size w in
      elim found [
        | none ↦ (none, w')
        | some fresh ↦
            let (s, uf, w'') = copy false fresh src w' in
            elim s [ done ↦ (some uf, w'') | failed ↦ (none, w'') ]
      ]

pub destroy : Unionfind → Unionfind
destroy uf = record { size = 0; set_count = 0; parents = []; sizes = [] }
