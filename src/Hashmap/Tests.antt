-- ===== src/Hashmap/Tests.antt =====
-- Runs of src/hashmap.c's functions, and the properties at maps from keys of four bytes.
use libcp.Prelude.{ℕ, ◌+◌, ◌*◌, ◌^◌, ◌≡◌, refl, inl, true, none, some, [], ◌∷◌, arith}
use libcp.Memory.{malloc, copy_element}
use libcp.Samples.{generous, start}
use libcp.Probing.{
  Key, scalar, cstr, hash_key, hash_scalar_bytes, scalar_loop, hash_cstr_value, cstr_loop,
  keys_equal, raw_slot_from, find_slot_in_raw_table, slot_from,
}
use libcp.Hashmap.{
  Hashmap, assign, delete, at, find_slot, prepare_insert, rehash, move_from, replace, fill,
  copy_key,
}
use libcp.Hashmap.Entries.{reserve, clear, grow_buckets}
use libcp.Hashmap.Valid.{IsValid}
use libcp.Hashmap.Update.{Assigned, hashmap_assign_correct}
use libcp.Hashmap.Delete.{Deleted, delete_correct}
use libcp.Hashmap.Entries.Reserve.{Reserved, reserve_correct}
use libcp.Hashmap.Entries.Buckets.{buckets_diverge}
use libcp.Hashmap.Entries.Clear.{Cleared, clear_correct}

abbrev bare : Hashmap ℕ
bare = record {
  capacity = 0;
  size = 0;
  tombstones = 0;
  key_size = 4;
  value_size = 4;
  key_kind = scalar;
  value_destroy = true;
  value_copy = none;
  states = [];
  keys = [];
  values = [];
}

bare-IsValid : IsValid bare
bare-IsValid = record {
  key_some = omega arith;
  key_bounded = omega arith;
  value_some = omega arith;
  value_bounded = omega arith;
  body = inl (refl, refl, refl, refl);
}

abbrev key_one : Key
key_one = 1 ∷ 0 ∷ 0 ∷ 0 ∷ []

abbrev key_two : Key
key_two = 2 ∷ 0 ∷ 0 ∷ 0 ∷ []

-- The map after two calls of hashmap_set.
abbrev pair : Hashmap ℕ
pair = (assign generous (assign generous bare key_one 7 start).1 key_two 9 start).1

pair-IsValid : IsValid pair
pair-IsValid =
    (hashmap_assign_correct generous (assign generous bare key_one 7 start).1
      (hashmap_assign_correct generous bare bare-IsValid key_one 7 start).0 key_two 9 start).0

hash_abc : hash_key cstr (97 ∷ 98 ∷ 99 ∷ []) ≡ 193485963
unfolding hash_key hash_cstr_value cstr_loop
hash_abc = refl

at-pair : at generous pair key_two ≡ some 9
unfolding at find_slot slot_from assign prepare_insert rehash move_from replace fill copy_key malloc
    copy_element keys_equal hash_key hash_scalar_bytes scalar_loop raw_slot_from
    find_slot_in_raw_table
at-pair = refl

pair_sizes : pair.key_size ≡ 4
unfolding find_slot slot_from assign prepare_insert rehash move_from replace fill copy_key malloc
    copy_element keys_equal hash_key hash_scalar_bytes scalar_loop raw_slot_from
    find_slot_in_raw_table
pair_sizes = refl

pair_values : pair.value_size ≡ 4
unfolding find_slot slot_from assign prepare_insert rehash move_from replace fill copy_key malloc
    copy_element keys_equal hash_key hash_scalar_bytes scalar_loop raw_slot_from
    find_slot_in_raw_table
pair_values = refl

at_after_delete : at generous (delete generous pair key_one start).1 key_one ≡ none
unfolding at delete find_slot slot_from assign prepare_insert rehash move_from replace fill copy_key
    malloc copy_element keys_equal hash_key hash_scalar_bytes scalar_loop raw_slot_from
    find_slot_in_raw_table
at_after_delete = refl

hashmap_assign_correct_example :
    Assigned generous pair pair-IsValid key_one 5 (assign generous pair key_one 5 start)
hashmap_assign_correct_example = hashmap_assign_correct generous pair pair-IsValid key_one 5 start

delete_correct_example : Deleted generous pair key_one start (delete generous pair key_one start)
delete_correct_example = delete_correct generous pair key_one pair-IsValid start

reserve_correct_example : Reserved generous pair pair-IsValid 100 (reserve generous pair 100 start)
reserve_correct_example =
    reserve_correct generous pair pair-IsValid 100 (omega (arith, pair_sizes))
      (omega (arith, pair_values)) start

clear_correct_example : Cleared generous pair pair-IsValid start (clear generous pair start)
clear_correct_example = clear_correct generous pair pair-IsValid start

buckets_diverge_example : grow_buckets 1000 (2 ^ 60 * 3 + 1) 8 ≡ none
buckets_diverge_example = buckets_diverge (2 ^ 60 * 3 + 1) (omega arith) (omega arith) 1000
