-- ===== src/Segtree.antt =====
-- src/segtree.c: a segment tree in an array, with the root at index 1 and the leaves from
-- `capacity` on. The values are of a type A; a merge takes the old content of its target first
-- and returns the content that it leaves there. `nodes` and `identity` are NULL together, which
-- `identity` says.
pub mod Capacity
pub mod Span
pub mod Climb
pub mod Query
pub mod Update
pub mod Build
pub mod Create
pub mod Tests
use libcp.Prelude.{
  ℕ, zero, suc, ◌+◌, ◌-◌, ◌*◌, ◌/◌, ◌%◌, ◌^◌, Bool, true, false, ◌||◌, ◌&&◌, Option, none, some,
  List, [], leb, ltb, ◌==◌, if◌then◌else◌, get_or, set, replicate,
}
use libcp.Memory.{
  Env, World, Status, done, failed, malloc, memcpy, mul_size, add_size, slots_in, size_mod,
}

-- segtree_merge_fn.
abbrev pub Merge : Type 0 → Type 0
Merge A = A → A → A → Status × A

pub record Segtree (A : Type 0) : Type 0 where
  pub size : ℕ
  pub capacity : ℕ
  pub elem_size : ℕ
  pub merge : Merge A
  pub identity : Option A
  pub nodes : List A

-- sizeof(segtree).
abbrev pub sizeof_segtree : ℕ
sizeof_segtree = 48

-- The loop of segtree_next_capacity.
pub next_capacity : ℕ → ℕ → ℕ → Option ℕ
next_capacity zero value size = none
next_capacity (suc fuel) value size = elim (ltb value size) [
  | false ↦ some value
  | true ↦ elim (ltb ((size_mod - 1) / 2) value) [
    | true ↦ none
    | false ↦ next_capacity fuel (mul_size value 2) size
  ]
]

module _ {A : Type 0} where
  -- The merge of a struct without one: no operation calls it.
  abbrev pub no_merge : Merge A
  no_merge dst lhs rhs = (failed, dst)

  pub destroy : Segtree A → Segtree A
  destroy st = record {
    size = 0;
    capacity = 0;
    elem_size = 0;
    merge = no_merge;
    identity = none;
    nodes = [];
  }

  pub node_count : Segtree A → ℕ
  node_count st = mul_size st.capacity 2

  -- The loop of segtree_init and of segtree_reset.
  pub fill_from : ℕ → ℕ → A → List A → List A
  fill_from zero i v nodes = nodes
  fill_from (suc rounds) i v nodes = fill_from rounds (i + 1) v (set nodes i v)

  pub reset : Segtree A → Status × Segtree A
  reset st = elim st.identity [
    | none ↦ (failed, st)
    | some v ↦ (done, record st { nodes = fill_from (node_count st) 0 v st.nodes })
  ]

module _ {A : Type 0} (e : Env A) where
  -- `dst` is what is left as it was when the sizes are refused.
  pub init : Segtree A → ℕ → ℕ → A → Merge A → World A → Status × Segtree A × World A
  init dst size elem_size identity merge w =
      if elem_size == 0
      then (failed, dst, w)
      else elim (next_capacity 65 1 (if ltb 0 size then size else 1)) [
        | none ↦ (failed, dst, w)
        | some capacity ↦
            if ltb ((size_mod - 1) / 2) capacity
            then (failed, dst, w)
            else (let (granted, w') = malloc e elem_size w in
                if granted
                then (let bytes = mul_size (mul_size capacity 2) elem_size in
                    let (granted', w'') = malloc e bytes w' in
                    if granted'
                    then (
                      done,
                      record {
                        size = size;
                        capacity = capacity;
                        elem_size = elem_size;
                        merge = merge;
                        identity = some identity;
                        nodes =
                            fill_from (mul_size capacity 2) 0 identity
                              (replicate (slots_in bytes elem_size) e.junk);
                      },
                      w'',
                    )
                    else (failed, destroy dst, w''))
                else (failed, destroy dst, w'))
      ]

  pub new : ℕ → ℕ → A → Merge A → World A → Option (Segtree A) × World A
  new size elem_size identity merge w =
      let (granted, w') = malloc e sizeof_segtree w in
      if granted
      then (let (s, st, w'') =
            init
              (record {
                size = 0;
                capacity = 0;
                elem_size = 0;
                merge = no_merge;
                identity = none;
                nodes = [];
              })
              size elem_size identity merge w' in
          elim s [ done ↦ (some st, w'') | failed ↦ (none, w'') ])
      else (none, w')

  -- `aliased` says whether the two arguments are one pointer.
  pub copy : Bool → Segtree A → Segtree A → World A → Status × Segtree A × World A
  copy aliased dst src w = if aliased then (done, dst, w) else elim src.identity [
    | none ↦ (failed, destroy dst, w)
    | some v ↦
        let (s, st, w') = init (destroy dst) src.size src.elem_size v src.merge w in
        let slots = slots_in (mul_size (node_count src) src.elem_size) src.elem_size in
        elim s [
          | failed ↦ (failed, st, w')
          | done ↦ (done, record st { nodes = memcpy st.nodes src.nodes slots }, w')
        ]
  ]

  pub clone : Segtree A → World A → Option (Segtree A) × World A
  clone src w = elim src.identity [
    | none ↦ (none, record w { calls = w.calls + 1 })
    | some v ↦
        let (found, w') = new src.size src.elem_size v src.merge w in
        elim found [
          | none ↦ (none, w')
          | some fresh ↦
              let (s, st, w'') = copy false fresh src w' in
              elim s [ done ↦ (some st, w'') | failed ↦ (none, w'') ]
        ]
  ]

  pub rebuild_node : Merge A → List A → ℕ → Status × List A
  rebuild_node merge nodes index =
      let (s, v) =
        merge (get_or nodes index e.junk) (get_or nodes (index * 2) e.junk)
          (get_or nodes (index * 2 + 1) e.junk) in
      (s, set nodes index v)

  -- The first loop of segtree_build.
  pub store_from : ℕ → ℕ → ℕ → List A → List A → List A
  store_from zero i capacity values nodes = nodes
  store_from (suc rounds) i capacity values nodes =
      store_from rounds (i + 1) capacity values
        (set nodes (add_size capacity i) (get_or values i e.junk))

  -- The second loop of segtree_build, downwards from below `i`.
  pub rebuild_below : Merge A → ℕ → List A → Status × List A
  rebuild_below merge zero nodes = (done, nodes)
  rebuild_below merge (suc i) nodes = elim (ltb 0 i) [
    | false ↦ (done, nodes)
    | true ↦
        let (s, nodes') = rebuild_node merge nodes i in
        elim s [ failed ↦ (failed, nodes') | done ↦ rebuild_below merge i nodes' ]
  ]

  pub build : Segtree A → List A → Status × Segtree A
  build st values =
      let (s, st') = reset st in
      elim s [
        | failed ↦ (failed, st')
        | done ↦
            let stored = store_from st'.size 0 st'.capacity values st'.nodes in
            let (s', nodes) = rebuild_below st'.merge st'.capacity stored in
            (s', record st' { nodes = nodes })
      ]

  -- The loop of segtree_set.
  pub rebuild_above : ℕ → Merge A → ℕ → List A → Status × List A
  rebuild_above zero merge index nodes = (done, nodes)
  rebuild_above (suc fuel) merge index nodes = elim (ltb 1 index) [
    | false ↦ (done, nodes)
    | true ↦
        let (s, nodes') = rebuild_node merge nodes (index / 2) in
        elim s [ failed ↦ (failed, nodes') | done ↦ rebuild_above fuel merge (index / 2) nodes' ]
  ]

  -- The index halves, so that it bounds the rounds.
  pub assign : Segtree A → ℕ → A → Status × Segtree A
  assign st index elem =
      if leb st.size index
      then (failed, st)
      else let leaf = add_size st.capacity index in
        let (s, nodes) = rebuild_above leaf st.merge leaf (set st.nodes leaf elem) in
        (s, record st { nodes = nodes })

  -- `none` is the result -1, which leaves `out` as it was.
  pub get : Segtree A → ℕ → Option A
  get st index =
      if leb st.size index then none else some (get_or st.nodes (add_size st.capacity index) e.junk)

  -- The loop of segtree_query with `scratch` for the results of merge: the two values at its end.
  pub query_from : ℕ → Merge A → List A → ℕ → ℕ → A → A → A → Status × A × A
  query_from zero merge nodes left right left_value right_value scratch =
      (done, left_value, right_value)
  query_from (suc fuel) merge nodes left right left_value right_value scratch =
      elim (ltb left right) [
        | false ↦ (done, left_value, right_value)
        | true ↦
            let odd_left = left % 2 == 1 in
            let odd_right = right % 2 == 1 in
            let (s, left_value') =
              if odd_left
              then merge scratch left_value (get_or nodes left e.junk)
              else (done, left_value) in
            let scratch' = if odd_left then left_value' else scratch in
            elim s [
              | failed ↦ (failed, left_value, right_value)
              | done ↦
                  let (s', right_value') =
                    if odd_right
                    then merge scratch' (get_or nodes (right - 1) e.junk) right_value
                    else (done, right_value) in
                  let scratch'' = if odd_right then right_value' else scratch' in
                  elim s' [
                    | failed ↦ (failed, left_value', right_value)
                    | done ↦
                        query_from fuel merge nodes ((if odd_left then left + 1 else left) / 2)
                          ((if odd_right then right - 1 else right) / 2) left_value' right_value'
                          scratch''
                  ]
            ]
      ]

  -- `out` is what the caller's buffer holds. The right end halves, so that it bounds the rounds.
  pub query : Segtree A → ℕ → ℕ → A → World A → Status × A × World A
  query st begin end out w =
      if ltb end begin || ltb st.size end
      then (failed, out, w)
      else if begin == end
      then (done, elim st.identity [ none ↦ out | some v ↦ v ], w)
      else (let (granted, w1) = malloc e st.elem_size w in
          let (granted', w2) = malloc e st.elem_size w1 in
          let (granted'', w3) = malloc e st.elem_size w2 in
          if granted && granted' && granted''
          then (let left = add_size begin st.capacity in
              let right = add_size end st.capacity in
              let neutral : A = elim st.identity [ none ↦ e.junk | some v ↦ v ] in
              let (s, left_value, right_value) =
                query_from right st.merge st.nodes left right neutral neutral e.junk in
              elim s [
                | failed ↦ (failed, out, w3)
                | done ↦ let (s', v) = st.merge out left_value right_value in (s', v, w3)
              ])
          else (failed, out, w3))
