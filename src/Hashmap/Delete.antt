-- ===== src/Hashmap/Delete.antt =====
-- hashmap_delete of src/hashmap.c.
use mathlib.Core.Path.{subst}
use libcp.Prelude.{
  ℕ, ◌+◌, ◌-◌, ◌^◌, ◌≡◌, ◌≢◌, ◌⊎◌, ◌↔◌, inl, inr, refl, sym, ap, ◌∙◌, true, false, none, some, List,
  arith, ◌==◌, Bool-cases, length, length-set, get_or, get_or-replicate, set, replicate,
}
use libcp.Memory.{Env, World, Status, done, failed, destroy_element}
use libcp.Counting.{count-pos, count-none}
use libcp.Probing.{Key, Entry, empty, deleted, hash_key}
use libcp.Probing.Table.{IsTable, Holds, occupied-lt}
use libcp.Probing.Edit.{remove-IsTable, empty-IsTable}
use libcp.Hashmap.{Hashmap, at, delete, find_slot, is_occupied, is_deleted}
use libcp.Hashmap.Valid.{
  IsFilled, IsValid, Stored, Missing, occupied_count, lookup_correct, find_slot_correct,
}
use libcp.Hashmap.Cells.{StoredIn, remove-Stored, remove-occupied_count, remove-deleted_count}
use libcp.Hashmap.Lookup.{at_iff, at-same}
use libcp.Hashmap.Update.{still_valid}

-- The table after memset has no entry.
pub cleared-IsFilled :
    {A : Type 0}
    → (map : Hashmap A) (bits : ℕ) (states : List Entry) → IsFilled bits map
    → length states ≡ 2 ^ bits
    → IsFilled bits
        (record map { states = replicate (length states) empty; size = 0; tombstones = 0 })
cleared-IsFilled map bits states filled h =
    let all = λ (i : ℕ). get_or-replicate (length states) empty i in
    record {
      capacity_bits = filled.capacity_bits;
      several = filled.several;
      table =
          subst (λ n. IsTable (hash_key map.key_kind) bits (replicate n empty) map.keys) (sym h)
            (empty-IsTable (hash_key map.key_kind) bits map.keys filled.table.small
              filled.table.keys_length);
      values_length = filled.values_length;
      counted = sym (
          count-none (2 ^ bits)
            (λ i. is_occupied (get_or (replicate (length states) empty) i empty))
            (λ i _. ap is_occupied (all i)));
      buried = sym (
          count-none (2 ^ bits) (λ i. is_deleted (get_or (replicate (length states) empty) i empty))
            (λ i _. ap is_deleted (all i)));
      load = omega arith;
      keys_fit = filled.keys_fit;
      values_fit = filled.values_fit;
    }

module _ {A : Type 0} (e : Env A) (map : Hashmap A) (key : Key) where
  module _ (bits : ℕ) (filled : IsFilled bits map) (i : ℕ)
      (holds : Holds map.states map.keys key i) where
    abbrev marked : List Entry
    marked = set map.states i deleted

    -- Every entry but the key's.
    abbrev Others : Hashmap A → Type 0
    Others map' = (k : Key) (x : A) → Stored e.junk map' k x ↔ ((key ≢ k) × Stored e.junk map k x)

    fewer : occupied_count (2 ^ bits) marked + 1 ≡ map.size
    fewer =
        remove-occupied_count e.junk (hash_key map.key_kind) bits map.states map.keys map.values
          filled.table filled.values_length key i holds
        ∙ sym filled.counted

    marked-Stored :
        (k : Key) (x : A)
        → StoredIn e.junk marked map.keys map.values k x ↔ ((key ≢ k) × Stored e.junk map k x)
    marked-Stored =
        remove-Stored e.junk (hash_key map.key_kind) bits map.states map.keys map.values
          filled.table filled.values_length key i holds

    marked-IsTable : IsTable (hash_key map.key_kind) bits marked map.keys
    marked-IsTable =
        remove-IsTable (hash_key map.key_kind) bits map.states map.keys filled.table i holds.0

    marked-IsFilled :
        IsFilled bits
          (record map { states = marked; size = map.size - 1; tombstones = map.tombstones + 1 })
    marked-IsFilled = record {
      capacity_bits = filled.capacity_bits;
      several = filled.several;
      table = marked-IsTable;
      values_length = filled.values_length;
      counted = omega (arith, fewer);
      buried =
          ap (λ n. n + 1) filled.buried
          ∙ sym (
              remove-deleted_count e.junk (hash_key map.key_kind) bits map.states map.keys
                map.values filled.table filled.values_length key i holds);
      load = omega (arith, filled.load, fewer);
      keys_fit = filled.keys_fit;
      values_fit = filled.values_fit;
    }

    -- When the last entry is deleted there are no others.
    cleared-Others :
        map.size - 1 ≡ 0
        → Others (record map {
          states = replicate (length marked) empty;
          size = map.size - 1;
          tombstones = 0;
        })
    cleared-Others last k x = (
      (λ (j, there, same). absurd (cc (there.0, get_or-replicate (length marked) empty j))),
      (λ old.
          let (j, there, same) = (marked-Stored k x).1 old in
          let below =
            occupied-lt (hash_key map.key_kind) bits marked map.keys marked-IsTable j there.0 in
          let some_left =
            count-pos (2 ^ bits) (λ n. is_occupied (get_or marked n empty)) j below
              (ap is_occupied there.0) in
          absurd (omega (arith, some_left, last, fewer))),
    )

    cleared_marked :
        map.size - 1 ≡ 0
        → IsFilled bits (record map {
          states = replicate (length marked) empty;
          size = map.size - 1;
          tombstones = 0;
        })
    cleared_marked last =
        subst
          (λ n.
            IsFilled bits
              (record map { states = replicate (length marked) empty; size = n; tombstones = 0 }))
          (sym last)
          (cleared-IsFilled map bits marked filled
            (length-set map.states i deleted ∙ filled.table.states_length))

  -- What hashmap_delete returns: a failure when the key is not there, and else a map without it.
  abbrev pub Deleted : World A → Status × Hashmap A × World A → Type 0
  Deleted w (s, map', w') =
      IsValid map'
      × (((s ≡ failed) × (at e map key ≡ none) × (map' ≡ map) × (w' ≡ w))
          ⊎ ((s ≡ done)
              × (map'.size + 1 ≡ map.size)
              × (at e map' key ≡ none)
              × ((k : Key) → key ≢ k → at e map' k ≡ at e map k)
              × ((value : A) × (at e map key ≡ some value)
                  × (w' ≡ destroy_element map.value_destroy value w))))

  at-Missing : (map' : Hashmap A) → IsValid map' → Missing map' key → at e map' key ≡ none
  at-Missing map' valid' missing = elim (lookup_correct e map' key valid') [
    | inl (i, holds, found, answer) ↦ absurd (missing i holds)
    | inr (_, found, answer) ↦ answer
  ]

  module _ (valid : IsValid map) where
    -- A map that stores every entry but the key's.
    without :
        (bits : ℕ) (filled : IsFilled bits map) (i : ℕ) (holds : Holds map.states map.keys key i)
        → (map' : Hashmap A) (w : World A) → IsValid map'
        → map'.size ≡ map.size - 1
        → Others bits filled i holds map'
        → Deleted w (done, map', destroy_element map.value_destroy (get_or map.values i e.junk) w)
    without bits filled i holds map' w valid' less others = (
      valid',
      inr (
        refl,
        omega (arith, less, fewer bits filled i holds),
        at-Missing map' valid' (λ j there. ((others key _).0 (j, there, refl)).0 refl),
        (λ k ne.
            at-same e map map' valid valid' k
              (λ x. ((λ s. ((others k x).0 s).1), (λ old. (others k x).1 (ne, old))))),
        (get_or map.values i e.junk, (at_iff e map valid key _).0 (i, holds, refl), refl),
      ),
    )

    -- On a valid map hashmap_delete leaves a valid map. It fails, and changes nothing, when
    -- hashmap_at returns NULL for the key; when it succeeds, hashmap_at returns NULL for the key
    -- afterwards and what it returned before for every other key, the size falls by one, and the
    -- value that the key had is destroyed when there is a value_destroy.
    pub delete_correct : (w : World A) → Deleted w (delete e map key w)
    unfolding delete
    delete_correct w = elim valid.body [
      | inl bare ↦
          let is_bare : (map.capacity == 0) ≡ true = ground (arith, bare.0) in
          let missing : Missing map key =
            λ i holds. cc (holds.0, ap (λ s. get_or s i empty) bare.3) in
          rw (is_bare, delete) (valid, inl (refl, at-Missing map valid missing, refl, refl))
      | inr (bits, filled) ↦
          let some_buckets : (map.capacity == 0) ≡ false =
            ground (arith, filled.capacity_bits, filled.several) in
          let i = (find_slot map key (hash_key map.key_kind key)).1 in
          rw (some_buckets, delete)
            (elim (find_slot_correct bits map filled key) [
              | inr (missing, found, free) ↦
                  rw found (valid, inl (refl, at-Missing map valid missing, refl, refl))
              | inl (holds, found) ↦ rw found (elim (Bool-cases (map.size - 1 == 0)) [
                | inl last ↦
                    let is_last : map.size - 1 ≡ 0 = ground (arith, last) in
                    rw last (
                      without bits filled i holds _ w
                        (still_valid e map valid key _ bits refl refl
                          (cleared_marked bits filled i holds is_last))
                        refl (cleared-Others bits filled i holds is_last))
                | inr more ↦ rw more (
                    without bits filled i holds _ w
                      (still_valid e map valid key _ bits refl refl
                        (marked-IsFilled bits filled i holds))
                      refl (marked-Stored bits filled i holds))
              ])
            ])
    ]
