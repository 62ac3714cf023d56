-- ===== src/Hashmap/Grow.antt =====
-- hashmap_rehash of src/hashmap.c on a whole map.
use libcp.Prelude.{
  ℕ, ◌+◌, ◌*◌, ◌^◌, ◌≤◌, ◌<◌, ◌≡◌, ◌⊎◌, ◌↔◌, inl, inr, refl, sym, ap, ◌∙◌, true, List, [], arith,
  ◌&&◌, length-replicate, get_or, get_or-replicate, replicate, Bool-cases,
}
use libcp.Memory.{
  Env, World, Status, done, failed, malloc, malloc-lt, mul_size, slots_in, slots_in-mul_size,
  size_mod, max_object,
}
use libcp.Counting.{count-none}
use libcp.Probing.{Entry, empty, occupied, Key, hash_key}
use libcp.Probing.Table.{occupied-lt}
use libcp.Probing.Edit.{empty-IsTable}
use libcp.Hashmap.{Hashmap, is_occupied, move_from, rehash}
use libcp.Hashmap.Valid.{IsFilled, IsValid, Stored, occupied_count}
use libcp.Hashmap.Rehash.{Moved, MovedAll, move_from-Moved, deleted_count-whole}

module _ {A : Type 0} where
  -- What the loop over the old buckets needs of them.
  pub record IsSource (map : Hashmap A) : Type 0 where
    pub distinct :
        (i j : ℕ)
        → get_or map.states i empty ≡ occupied
        → get_or map.states j empty ≡ occupied
        → get_or map.keys i [] ≡ get_or map.keys j []
        → i ≡ j
    pub counted : occupied_count map.capacity map.states ≡ map.size
    pub inside : (i : ℕ) → get_or map.states i empty ≡ occupied → i < map.capacity

  pub IsValid-IsSource : (map : Hashmap A) → IsValid map → IsSource map
  IsValid-IsSource map valid = elim valid.body [
    | inl (no_buckets, no_entries, _, no_states) ↦
        let bare : (i : ℕ) → get_or map.states i empty ≡ occupied → ⊥ =
          λ i e. cc (e, ap (λ s. get_or s i empty) no_states) in
        record {
          distinct = λ i j a b same. absurd (bare i a);
          counted = ap (λ n. occupied_count n map.states) no_buckets ∙ sym no_entries;
          inside = λ i a. absurd (bare i a);
        }
    | inr (bits, filled) ↦ record {
      distinct = filled.table.distinct;
      counted = ap (λ n. occupied_count n map.states) filled.capacity_bits ∙ sym filled.counted;
      inside = λ i a.
          rw filled.capacity_bits
            (occupied-lt (hash_key map.key_kind) bits map.states map.keys filled.table i a);
    }
  ]

  -- What growing keeps: the description of the keys and values, the size, and all that is stored.
  pub record Same (junk : A) (map map' : Hashmap A) : Type 0 where
    pub key_size : map'.key_size ≡ map.key_size
    pub value_size : map'.value_size ≡ map.value_size
    pub key_kind : map'.key_kind ≡ map.key_kind
    pub value_destroy : map'.value_destroy ≡ map.value_destroy
    pub value_copy : map'.value_copy ≡ map.value_copy
    pub size : map'.size ≡ map.size
    pub stored : (key : Key) (value : A) → Stored junk map' key value ↔ Stored junk map key value

  pub Same-refl : (junk : A) (map : Hashmap A) → Same junk map map
  Same-refl junk map = record {
    key_size = refl;
    value_size = refl;
    key_kind = refl;
    value_destroy = refl;
    value_copy = refl;
    size = refl;
    stored = λ key value. ((λ s. s), (λ s. s));
  }

  -- The arrays before the loop.
  fresh_Moved :
      (junk : A) (map : Hashmap A) (bits ks vs : ℕ)
      → 2 ^ bits < size_mod
      → ks ≡ 2 ^ bits
      → vs ≡ 2 ^ bits
      → Moved junk map bits 0 (replicate (2 ^ bits) empty) (replicate ks []) (replicate vs junk)
  fresh_Moved junk map bits ks vs small k v =
      let all = λ (j : ℕ). get_or-replicate (2 ^ bits) empty j in
      record {
        table =
            empty-IsTable (hash_key map.key_kind) bits (replicate ks []) small
              (length-replicate ks [] ∙ k);
        values_length = length-replicate vs junk ∙ v;
        whole = λ j e. cc (all j, e);
        counted =
            count-none (2 ^ bits) (λ i. is_occupied (get_or (replicate (2 ^ bits) empty) i empty))
              (λ i h. ap is_occupied (all i));
        stored = λ key value. (
          (λ (j, holds, same). absurd (cc (all j, holds.0))),
          (λ (j, h, holds, same). absurd (omega arith)),
        );
      }

  module _ (e : Env A) (map : Hashmap A) (valid : IsValid map) (bits : ℕ)
      (load : map.size * 4 ≤ 2 ^ bits * 3) (several : 8 ≤ 2 ^ bits)
      (keys_fit : 2 ^ bits * map.key_size < size_mod)
      (values_fit : 2 ^ bits * map.value_size < size_mod) where
    abbrev new_arrays : List Entry × List Key × List A
    new_arrays = move_from map.capacity 0 map (2 ^ bits) e.junk (
      replicate (2 ^ bits) empty,
      replicate (slots_in (mul_size (2 ^ bits) map.key_size) map.key_size) [],
      replicate (slots_in (mul_size (2 ^ bits) map.value_size) map.value_size) e.junk,
    )

    new_Moved : 2 ^ bits < size_mod → MovedAll e.junk map bits map.capacity new_arrays
    new_Moved small =
        let source = IsValid-IsSource map valid in
        let enough : occupied_count map.capacity map.states + 1 < 2 ^ bits =
          omega (arith, load, several, source.counted) in
        move_from-Moved e.junk map bits source.distinct enough map.capacity 0 _ _ _ (omega arith) (
          fresh_Moved e.junk map bits _ _ small
            (slots_in-mul_size (2 ^ bits) map.key_size valid.key_some keys_fit).1
            (slots_in-mul_size (2 ^ bits) map.value_size valid.value_some values_fit).1)

    -- What hashmap_rehash returns: nothing changed, or a table with the same entries and no deleted bucket.
    abbrev pub Rehashed : Status × Hashmap A × World A → Type 0
    Rehashed (s, map', w') =
        ((s ≡ failed) × (map' ≡ map))
        ⊎ ((s ≡ done) × IsFilled bits map' × Same e.junk map map' × (map'.tombstones ≡ 0))

    new_Filled :
        (arrays : List Entry × List Key × List A)
        → 2 ^ bits * map.key_size < max_object
        → 2 ^ bits * map.value_size < max_object
        → MovedAll e.junk map bits map.capacity arrays
        → (w : World A)
        → Rehashed (
          done,
          record map {
            states = arrays.0;
            keys = arrays.1;
            values = arrays.2;
            capacity = 2 ^ bits;
            tombstones = 0;
          },
          w,
        )
    new_Filled arrays k v moved w =
        let source = IsValid-IsSource map valid in
        inr (
          refl,
          record {
            capacity_bits = refl;
            several = several;
            table = moved.table;
            values_length = moved.values_length;
            counted = sym (moved.counted ∙ source.counted);
            buried = sym (deleted_count-whole e.junk map bits (2 ^ bits) arrays.0 moved.whole);
            load = omega (arith, load);
            keys_fit = k;
            values_fit = v;
          },
          record {
            key_size = refl;
            value_size = refl;
            key_kind = refl;
            value_destroy = refl;
            value_copy = refl;
            size = refl;
            stored = λ key value. (
              (λ s. let (j, h, holds, same) = (moved.stored key value).0 s in (j, holds, same)),
              (λ (j, holds, same).
                  (moved.stored key value).1 (j, source.inside j holds.0, holds, same)),
            );
          },
          refl,
        )

    pub rehash_correct : (w : World A) → Rehashed (rehash e map (2 ^ bits) w)
    unfolding rehash
    rehash_correct w =
        let w1 = (malloc e (2 ^ bits) w).1 in
        let g1 = (malloc e (2 ^ bits) w).0 in
        let w2 = (malloc e (mul_size (2 ^ bits) map.key_size) w1).1 in
        let g2 = (malloc e (mul_size (2 ^ bits) map.key_size) w1).0 in
        let g3 = (malloc e (mul_size (2 ^ bits) map.value_size) w2).0 in
        elim (Bool-cases (g1 && g2 && g3)) [
          | inr refused ↦ rw (refused, rehash) (inl (refl, refl))
          | inl granted ↦
              let first : g1 ≡ true = ground arith in
              let second : g2 ≡ true = ground arith in
              let third : g3 ≡ true = ground arith in
              let small = malloc-lt e (2 ^ bits) w first in
              let k = malloc-lt e (mul_size (2 ^ bits) map.key_size) w1 second in
              let v = malloc-lt e (mul_size (2 ^ bits) map.value_size) w2 third in
              let k' = (slots_in-mul_size (2 ^ bits) map.key_size valid.key_some keys_fit).0 in
              let v' =
                (slots_in-mul_size (2 ^ bits) map.value_size valid.value_some values_fit).0 in
              rw (granted, rehash)
                (new_Filled new_arrays (omega (arith, k, k')) (omega (arith, v, v'))
                  (new_Moved (omega (arith, small)))
                  (malloc e (mul_size (2 ^ bits) map.value_size) w2).1)
        ]
