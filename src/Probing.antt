-- ===== src/Probing.antt =====
-- The keys of src/hashmap.c, their hashes, and the loops that walk the buckets. A key is the list of
-- its key_size bytes, a HASHMAP_KEY_CSTR key the characters of its string before the null character.
-- A key and a string are not NULL.
pub mod Keys
pub mod Places
pub mod Walk
pub mod Table
pub mod Edit
use Prim.Native.Nat.{bit_and, bit_xor}
use libcp.Prelude.{
  ℕ, zero, suc, ◌-◌, Bool, true, false, ◌&&◌, Option, none, some, List, [], ◌∷◌, ◌==◌, get_or,
}
use libcp.Memory.{mul_size, add_size}

-- HASHMAP_ENTRY_EMPTY, HASHMAP_ENTRY_OCCUPIED and HASHMAP_ENTRY_DELETED.
pub data Entry : Type 0 where
  empty occupied deleted : Entry

-- HASHMAP_KEY_SCALAR and HASHMAP_KEY_CSTR.
pub data KeyKind : Type 0 where
  scalar cstr : KeyKind

abbrev pub Key : Type 0
Key = List ℕ

-- The loop of hashmap_hash_scalar_bytes.
unfoldable pub scalar_loop : ℕ → List ℕ → ℕ
scalar_loop hash [] = hash
scalar_loop hash (byte ∷ bytes) = scalar_loop (mul_size (bit_xor hash byte) 1099511628211) bytes

unfoldable pub hash_scalar_bytes : List ℕ → ℕ
hash_scalar_bytes bytes = scalar_loop 1469598103934665603 bytes

-- The loop of hashmap_hash_cstr_value; hash << 5 is a product in size_t.
unfoldable pub cstr_loop : ℕ → List ℕ → ℕ
cstr_loop hash [] = hash
cstr_loop hash (c ∷ s) = cstr_loop (add_size (add_size (mul_size hash 32) hash) c) s

unfoldable pub hash_cstr_value : List ℕ → ℕ
hash_cstr_value s = cstr_loop 5381 s

unfoldable pub hash_key : KeyKind → Key → ℕ
hash_key scalar key = hash_scalar_bytes key
hash_key cstr key = hash_cstr_value key

-- memcmp(a, b, key_size) == 0 of keys of one size, and strcmp(a, b) == 0.
unfoldable pub keys_equal : Key → Key → Bool
keys_equal [] [] = true
keys_equal [] (b ∷ bs) = false
keys_equal (a ∷ rest) [] = false
keys_equal (a ∷ rest) (b ∷ bs) = a == b && keys_equal rest bs

-- The loop of hashmap_find_slot_in_raw_table.
unfoldable pub raw_slot_from : ℕ → List Entry → List Key → ℕ → Key → ℕ → ℕ
raw_slot_from zero states keys mask key index = index
raw_slot_from (suc fuel) states keys mask key index = elim (get_or states index empty) [
  | empty ↦ index
  | deleted ↦ index
  | occupied ↦ elim (keys_equal (get_or keys index []) key) [
    | true ↦ index
    | false ↦ raw_slot_from fuel states keys mask key (bit_and (add_size index 1) mask)
  ]
]

unfoldable pub find_slot_in_raw_table : List Entry → List Key → ℕ → Key → ℕ → ℕ
find_slot_in_raw_table states keys capacity key hash =
    raw_slot_from capacity states keys (capacity - 1) key (bit_and hash (capacity - 1))

-- first_deleted, once a deleted bucket is met.
abbrev pub or_else : Option ℕ → ℕ → Option ℕ
or_else none index = some index
or_else (some d) index = some d

-- The index of the bucket to fill.
abbrev pub or_index : Option ℕ → ℕ → ℕ
or_index none index = index
or_index (some d) index = d

-- The loop of hashmap_find_slot: whether the key is found, and the index.
unfoldable pub slot_from : ℕ → List Entry → List Key → ℕ → Key → ℕ → Option ℕ → Bool × ℕ
slot_from zero states keys mask key index first_deleted = (false, index)
slot_from (suc fuel) states keys mask key index first_deleted = elim (get_or states index empty) [
  | empty ↦ (false, or_index first_deleted index)
  | occupied ↦ elim (keys_equal (get_or keys index []) key) [
    | true ↦ (true, index)
    | false ↦ slot_from fuel states keys mask key (bit_and (add_size index 1) mask) first_deleted
  ]
  | deleted ↦
      slot_from fuel states keys mask key (bit_and (add_size index 1) mask)
        (or_else first_deleted index)
]
