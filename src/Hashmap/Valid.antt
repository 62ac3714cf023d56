-- ===== src/Hashmap/Valid.antt =====
-- What holds of a hashmap between calls, and what hashmap_at and hashmap_contains read there.
use Prim.Native.Nat.{bit_and}
use mathlib.Core.Path.{subst}
use libcp.Prelude.{
  ℕ, ◌+◌, ◌-◌, ◌*◌, ◌^◌, ◌≤◌, ◌<◌, ◌≡◌, ◌⊎◌, inl, inr, refl, sym, ap, Bool, true, false, Option,
  none, some, List, [], arith, ◌==◌, length, get_or,
}
use libcp.Memory.{Env, max_object}
use libcp.Counting.{count}
use libcp.Probing.{Entry, empty, Key, hash_key, slot_from}
use libcp.Probing.Table.{IsTable, Holds, Open, located_correct}
use libcp.Hashmap.{Hashmap, is_occupied, is_deleted, find_slot, contains, at}

-- How many buckets are in use, and how many are deleted.
abbrev pub occupied_count : ℕ → List Entry → ℕ
occupied_count n states = count n (λ i. is_occupied (get_or states i empty))

abbrev pub deleted_count : ℕ → List Entry → ℕ
deleted_count n states = count n (λ i. is_deleted (get_or states i empty))

module _ {A : Type 0} where
  -- A table of 2 ^ bits buckets, at most three quarters of them in use or deleted.
  pub record IsFilled (bits : ℕ) (map : Hashmap A) : Type 0 where
    pub capacity_bits : map.capacity ≡ 2 ^ bits
    pub several : 8 ≤ 2 ^ bits
    pub table : IsTable (hash_key map.key_kind) bits map.states map.keys
    pub values_length : length map.values ≡ 2 ^ bits
    pub counted : map.size ≡ occupied_count (2 ^ bits) map.states
    pub buried : map.tombstones ≡ deleted_count (2 ^ bits) map.states
    pub load : (map.size + map.tombstones) * 4 ≤ 2 ^ bits * 3
    pub keys_fit : 2 ^ bits * map.key_size < max_object
    pub values_fit : 2 ^ bits * map.value_size < max_object

  abbrev pub IsBare : Hashmap A → Type 0
  IsBare map = (map.capacity ≡ 0) × (map.size ≡ 0) × (map.tombstones ≡ 0) × (map.states ≡ [])

  -- A key and a value have a size of at most 2 ^ 60 bytes.
  pub record IsValid (map : Hashmap A) : Type 0 where
    pub key_some : 0 < map.key_size
    pub key_bounded : map.key_size ≤ 2 ^ 60
    pub value_some : 0 < map.value_size
    pub value_bounded : map.value_size ≤ 2 ^ 60
    pub body : IsBare map ⊎ ((bits : ℕ) × IsFilled bits map)

  -- Some bucket has the key, with the value.
  abbrev pub Stored : A → Hashmap A → Key → A → Type 0
  Stored junk map key value =
      (i : ℕ) × Holds map.states map.keys key i × (get_or map.values i junk ≡ value)

  abbrev pub Missing : Hashmap A → Key → Type 0
  Missing map key = (i : ℕ) → Holds map.states map.keys key i → ⊥

  -- What hashmap_find_slot returns: the bucket of the key, or an open one.
  abbrev pub Slot : ℕ → Hashmap A → Key → Bool × ℕ → Type 0
  Slot bits map key r =
      (Holds map.states map.keys key r.1 × (r.0 ≡ true))
      ⊎ (Missing map key × (r.0 ≡ false) × Open (hash_key map.key_kind) bits map.states key r.1)

  pub find_slot_correct :
      (bits : ℕ) (map : Hashmap A)
      → IsFilled bits map
      → (key : Key) → Slot bits map key (find_slot map key (hash_key map.key_kind key))
  unfolding find_slot
  find_slot_correct bits map filled key =
      let run = λ (c : ℕ).
        slot_from c map.states map.keys (c - 1) key (bit_and (hash_key map.key_kind key) (c - 1))
          none in
      subst (λ c. Slot bits map key (run c)) (sym filled.capacity_bits)
        (elim (located_correct (hash_key map.key_kind) bits map.states map.keys filled.table key) [
          | inl (i, holds, same) ↦ subst (Slot bits map key) (sym same) (inl (holds, refl))
          | inr r ↦ inr r
        ])

  module _ (e : Env A) (map : Hashmap A) (key : Key) where
    -- What hashmap_at and hashmap_contains answer.
    abbrev pub Answer : Bool → Option A → Type 0
    Answer c v =
        ((i : ℕ) × Holds map.states map.keys key i
          × (c ≡ true)
          × (v ≡ some (get_or map.values i e.junk)))
        ⊎ (Missing map key × (c ≡ false) × (v ≡ none))

    pub lookup_filled : (bits : ℕ) → IsFilled bits map → Answer (contains map key) (at e map key)
    unfolding contains at
    lookup_filled bits filled =
        let some_buckets : (map.capacity == 0) ≡ false =
          ground (arith, filled.capacity_bits, filled.several) in
        rw some_buckets (elim (find_slot_correct bits map filled key) [
          | inl (holds, found) ↦ inl (_, holds, found, rw found refl)
          | inr (missing, found, free) ↦ inr (missing, found, rw found refl)
        ])

    pub lookup_correct : IsValid map → Answer (contains map key) (at e map key)
    unfolding contains at
    lookup_correct valid = elim valid.body [
      | inr (bits, filled) ↦ lookup_filled bits filled
      | inl (no_buckets, _, _, no_states) ↦
          let is_bare : (map.capacity == 0) ≡ true = ground arith in
          rw is_bare
            (inr ((λ i (a, b). absurd (cc (a, ap (λ s. get_or s i empty) no_states))), refl, refl))
    ]
