-- ===== src/Hashmap.antt =====
-- src/hashmap.c: a hash table with open addressing. The three arrays of buckets are three lists,
-- empty when the C pointers are NULL. HASHMAP_NPOS is `none`. Keys that are copied or freed are
-- memory of the table's own, which only the allocator sees.
pub mod Entries
pub mod Valid
pub mod Cells
pub mod Rehash
pub mod Grow
pub mod Prepare
pub mod Assign
pub mod Lookup
pub mod Update
pub mod Delete
pub mod Tests
use Prim.Native.Nat.{bit_and}
use libcp.Prelude.{
  ℕ, zero, suc, ◌+◌, ◌-◌, ◌*◌, ◌≤◌, Bool, true, false, not, ◌&&◌, ◌||◌, Option, none, some, List,
  [], leb, ltb, ◌==◌, if◌then◌else◌, get_or, set, length, replicate,
}
use libcp.Memory.{
  Env, World, Status, done, failed, malloc, copy_element, destroy_element, mul_size, add_size,
  slots_in,
}
use libcp.Probing.{
  Entry, empty, occupied, deleted, KeyKind, scalar, cstr, Key, hash_key, find_slot_in_raw_table,
  slot_from,
}

pub record Hashmap (A : Type 0) : Type 0 where
  pub capacity : ℕ
  pub size : ℕ
  pub tombstones : ℕ
  pub key_size : ℕ
  pub value_size : ℕ
  pub key_kind : KeyKind
  pub value_destroy : Bool
  pub value_copy : Option (A → Option A)
  pub states : List Entry
  pub keys : List Key
  pub values : List A

abbrev pub init_capacity : ℕ
init_capacity = 8

-- sizeof(char *).
abbrev pub sizeof_pointer : ℕ
sizeof_pointer = 8

abbrev pub is_occupied : Entry → Bool
is_occupied empty = false
is_occupied occupied = true
is_occupied deleted = false

abbrev pub is_cstr : KeyKind → Bool
is_cstr scalar = false
is_cstr cstr = true

abbrev pub is_deleted : Entry → Bool
is_deleted empty = false
is_deleted occupied = false
is_deleted deleted = true

module _ {A : Type 0} where
  pub find_slot : Hashmap A → Key → ℕ → Bool × ℕ
  find_slot map key hash =
      let mask = map.capacity - 1 in
      slot_from map.capacity map.states map.keys mask key (bit_and hash mask) none

  pub contains : Hashmap A → Key → Bool
  contains map key =
      if map.capacity == 0 then false else (find_slot map key (hash_key map.key_kind key)).0

  -- The loop of hashmap_rehash from bucket `i` on, into the new arrays.
  pub move_from :
      ℕ → ℕ → Hashmap A → ℕ → A → List Entry × List Key × List A → List Entry × List Key × List A
  move_from zero i map capacity junk (states, keys, values) = (states, keys, values)
  move_from (suc rounds) i map capacity junk (states, keys, values) =
      let old_key = get_or map.keys i [] in
      let target =
        find_slot_in_raw_table states keys capacity old_key (hash_key map.key_kind old_key) in
      move_from rounds (i + 1) map capacity junk (
        if is_occupied (get_or map.states i empty)
        then (
          set states target occupied,
          set keys target old_key,
          set values target (get_or map.values i junk),
        )
        else (states, keys, values))

  pub init : Hashmap A → KeyKind → ℕ → ℕ → Bool → Option (A → Option A) → Status × Hashmap A
  init map key_kind key_size value_size value_destroy value_copy =
      if key_size == 0 || value_size == 0
      then (failed, map)
      else if is_cstr key_kind && not (key_size == sizeof_pointer)
      then (failed, map)
      else (
        done,
        record {
          capacity = 0;
          size = 0;
          tombstones = 0;
          key_size = key_size;
          value_size = value_size;
          key_kind = key_kind;
          value_destroy = value_destroy;
          value_copy = value_copy;
          states = [];
          keys = [];
          values = [];
        },
      )

module _ {A : Type 0} (e : Env A) where
  pub rehash : Hashmap A → ℕ → World A → Status × Hashmap A × World A
  rehash map new_capacity w =
      let (granted, w1) = malloc e new_capacity w in
      let (granted', w2) = malloc e (mul_size new_capacity map.key_size) w1 in
      let (granted'', w3) = malloc e (mul_size new_capacity map.value_size) w2 in
      if granted && granted' && granted''
      then (let (states, keys, values) = move_from map.capacity 0 map new_capacity e.junk (
        replicate new_capacity empty,
        replicate (slots_in (mul_size new_capacity map.key_size) map.key_size) [],
        replicate (slots_in (mul_size new_capacity map.value_size) map.value_size) e.junk,
      ) in
          (
            done,
            record map {
              states = states;
              keys = keys;
              values = values;
              capacity = new_capacity;
              tombstones = 0;
            },
            w3,
          ))
      else (failed, map, w3)

  pub prepare_insert : Hashmap A → World A → Status × Hashmap A × World A
  prepare_insert map w =
      if map.capacity == 0
      then rehash map init_capacity w
      else if leb (mul_size (add_size (add_size map.size map.tombstones) 1) 4)
          (mul_size map.capacity 3)
      then (done, map, w)
      else rehash map (mul_size map.capacity 2) w

  -- hashmap_set when the key is found at `index`.
  pub replace : Hashmap A → ℕ → A → World A → Status × Hashmap A × World A
  replace map index value w =
      let (granted, w') = malloc e map.value_size w in
      if granted
      then elim (copy_element map.value_copy value) [
        | none ↦ (failed, map, w')
        | some staged ↦ (
          done,
          record map { values = set map.values index staged },
          destroy_element map.value_destroy (get_or map.values index e.junk) w',
        )
      ]
      else (failed, map, w')

  -- A key is copied: the bytes of a string are a buffer of their own.
  pub copy_key : Hashmap A → Key → World A → Bool × World A
  copy_key map key w = elim map.key_kind [
    | scalar ↦ (true, w)
    | cstr ↦ malloc e (add_size (length key) 1) w
  ]

  -- hashmap_set when the key is not found: the bucket `index` is filled.
  pub fill : Hashmap A → ℕ → Key → A → World A → Status × Hashmap A × World A
  fill map index key value w =
      let (granted, w1) = malloc e map.key_size w in
      if granted
      then (let (copied, w2) = copy_key map key w1 in
          if copied
          then (let (granted', w3) = malloc e map.value_size w2 in
              if granted'
              then elim (copy_element map.value_copy value) [
                | none ↦ (failed, map, w3)
                | some staged ↦ (
                  done,
                  record map {
                    tombstones =
                        if is_deleted (get_or map.states index empty)
                        then map.tombstones - 1
                        else map.tombstones;
                    keys = set map.keys index key;
                    values = set map.values index staged;
                    states = set map.states index occupied;
                    size = map.size + 1;
                  },
                  w3,
                )
              ]
              else (failed, map, w3))
          else (failed, map, w2))
      else (failed, map, w1)

  pub assign : Hashmap A → Key → A → World A → Status × Hashmap A × World A
  assign map key value w =
      let (s, map', w') = prepare_insert map w in
      elim s [
        | failed ↦ (failed, map', w')
        | done ↦
            let (found, index) = find_slot map' key (hash_key map'.key_kind key) in
            if found then replace map' index value w' else fill map' index key value w'
      ]

  pub at : Hashmap A → Key → Option A
  at map key =
      if map.capacity == 0
      then none
      else let (found, index) = find_slot map key (hash_key map.key_kind key) in
        if found then some (get_or map.values index e.junk) else none

  pub delete : Hashmap A → Key → World A → Status × Hashmap A × World A
  delete map key w =
      if map.capacity == 0
      then (failed, map, w)
      else let (found, index) = find_slot map key (hash_key map.key_kind key) in
        if found
        then (let w' = destroy_element map.value_destroy (get_or map.values index e.junk) w in
            if map.size - 1 == 0
            then (
              done,
              record map {
                states = replicate (length (set map.states index deleted)) empty;
                size = map.size - 1;
                tombstones = 0;
              },
              w',
            )
            else (
              done,
              record map {
                states = set map.states index deleted;
                size = map.size - 1;
                tombstones = map.tombstones + 1;
              },
              w',
            ))
        else (failed, map, w)
