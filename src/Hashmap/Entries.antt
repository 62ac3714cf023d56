-- ===== src/Hashmap/Entries.antt =====
-- The functions of src/hashmap.c that walk or replace the whole table.
pub mod Buckets
pub mod Reserve
pub mod Iterate
pub mod Clear
use libcp.Prelude.{
  ℕ, zero, suc, ◌+◌, ◌-◌, Bool, true, false, not, ◌&&◌, ◌||◌, Option, none, some, List, [], leb,
  ltb, ◌==◌, if◌then◌else◌, get_or, length, replicate,
}
use libcp.Memory.{Env, World, Status, done, failed, malloc, destroy_element, mul_size}
use libcp.Probing.{Entry, empty, KeyKind, scalar, Key}
use libcp.Hashmap.{Hashmap, init_capacity, is_occupied, init, rehash, assign}

abbrev pub sizeof_hashmap : ℕ
sizeof_hashmap = 88

-- The loop of hashmap_bucket_capacity_for_entries. `none` means that it goes on.
pub grow_buckets : ℕ → ℕ → ℕ → Option ℕ
grow_buckets zero entry_capacity buckets = none
grow_buckets (suc fuel) entry_capacity buckets =
    elim (ltb (mul_size buckets 3) (mul_size entry_capacity 4)) [
      | false ↦ some buckets
      | true ↦ grow_buckets fuel entry_capacity (mul_size buckets 2)
    ]

-- 64 doublings shift every bit out.
pub bucket_capacity_for_entries : ℕ → Option ℕ
bucket_capacity_for_entries entry_capacity =
    if entry_capacity == 0 then some 0 else grow_buckets 64 entry_capacity init_capacity

-- The loop of hashmap_find_occupied_from.
pub occupied_from : ℕ → List Entry → ℕ → Option ℕ
occupied_from zero states i = none
occupied_from (suc rounds) states i = elim (is_occupied (get_or states i empty)) [
  | true ↦ some i
  | false ↦ occupied_from rounds states (i + 1)
]

module _ {A : Type 0} where
  pub find_occupied_from : Hashmap A → ℕ → Option ℕ
  find_occupied_from map start =
      if leb map.capacity start then none else occupied_from (map.capacity - start) map.states start

  pub first : Hashmap A → Option ℕ
  first map = find_occupied_from map 0

  pub next : Hashmap A → ℕ → Option ℕ
  next map index = if leb map.capacity index then none else find_occupied_from map (index + 1)

  pub entry_key : Hashmap A → ℕ → Option Key
  entry_key map index =
      if leb map.capacity index || not (is_occupied (get_or map.states index empty))
      then none
      else some (get_or map.keys index [])

  -- The loop of hashmap_clear: the values are destroyed.
  pub destroy_from : ℕ → ℕ → Hashmap A → A → World A → World A
  destroy_from zero i map junk w = w
  destroy_from (suc rounds) i map junk w = destroy_from rounds (i + 1) map junk (
      if is_occupied (get_or map.states i empty)
      then destroy_element map.value_destroy (get_or map.values i junk) w
      else w)

  -- memset of the states to HASHMAP_ENTRY_EMPTY.
  abbrev pub all_empty : Hashmap A → List Entry
  all_empty map = replicate (length map.states) empty

module _ {A : Type 0} (e : Env A) where
  pub clear : Hashmap A → World A → Hashmap A × World A
  clear map w = (
    record map { states = all_empty map; size = 0; tombstones = 0 },
    destroy_from map.capacity 0 map e.junk w,
  )

  pub destroy : Hashmap A → World A → Hashmap A × World A
  destroy map w =
      let (map', w') = clear map w in
      (record map' { states = []; keys = []; values = []; capacity = 0; tombstones = 0 }, w')

  pub new : KeyKind → ℕ → ℕ → Bool → Option (A → Option A) → World A → Option (Hashmap A) × World A
  new key_kind key_size value_size value_destroy value_copy w =
      let (granted, w') = malloc e sizeof_hashmap w in
      if granted
      then (let (s, map) =
            init
              (record {
                capacity = 0;
                size = 0;
                tombstones = 0;
                key_size = 0;
                value_size = 0;
                key_kind = scalar;
                value_destroy = false;
                value_copy = none;
                states = [];
                keys = [];
                values = [];
              })
              key_kind key_size value_size value_destroy value_copy in
          elim s [ done ↦ (some map, w') | failed ↦ (none, w') ])
      else (none, w')

  -- `none` means that the call does not return.
  pub reserve : Hashmap A → ℕ → World A → Option (Status × Hashmap A × World A)
  reserve map capacity w =
      if capacity == 0 then some (done, map, w) else elim (bucket_capacity_for_entries capacity) [
        | none ↦ none
        | some buckets ↦
            let bucket_capacity = if ltb buckets map.capacity then map.capacity else buckets in
            if bucket_capacity == map.capacity && map.tombstones == 0
            then some (done, map, w)
            else some (rehash e map bucket_capacity w)
      ]

  pub entry_value : Hashmap A → ℕ → Option A
  entry_value map index =
      if leb map.capacity index || not (is_occupied (get_or map.states index empty))
      then none
      else some (get_or map.values index e.junk)

  -- The loop of hashmap_copy over the entries of `src`, from the one at `found` on.
  pub set_entries : ℕ → Hashmap A → Hashmap A → Option ℕ → World A → Status × Hashmap A × World A
  set_entries zero dst src found w = (done, dst, w)
  set_entries (suc fuel) dst src found w = elim found [
    | none ↦ (done, dst, w)
    | some i ↦
        let (s, dst', w') = assign e dst (get_or src.keys i []) (get_or src.values i e.junk) w in
        elim s [
          | failed ↦ let (dst'', w'') = clear dst' w' in (failed, dst'', w'')
          | done ↦ set_entries fuel dst' src (next src i) w'
        ]
  ]

  -- `aliased` says whether the two arguments are one pointer. No more entries than buckets.
  pub copy : Bool → Hashmap A → Hashmap A → World A → Option (Status × Hashmap A × World A)
  copy aliased dst src w =
      if aliased
      then some (done, dst, w)
      else let (dst', w1) = destroy dst w in
        let (s, map) =
          init dst' src.key_kind src.key_size src.value_size src.value_destroy src.value_copy in
        elim s [
          | failed ↦ some (failed, map, w1)
          | done ↦ elim (reserve map src.size w1) [
            | none ↦ none
            | some (s', map', w2) ↦ elim s' [
              | failed ↦ let (map'', w3) = clear map' w2 in some (failed, map'', w3)
              | done ↦ some (set_entries (src.capacity + 1) map' src (first src) w2)
            ]
          ]
        ]

  pub clone : Hashmap A → World A → Option (Option (Hashmap A) × World A)
  clone src w =
      let (found, w1) =
        new src.key_kind src.key_size src.value_size src.value_destroy src.value_copy w in
      elim found [
        | none ↦ some (none, w1)
        | some fresh ↦ elim (copy false fresh src w1) [
          | none ↦ none
          | some (s, map, w2) ↦ elim s [
            | done ↦ some (some map, w2)
            | failed ↦ let (map', w3) = destroy map w2 in some (none, w3)
          ]
        ]
      ]
