-- ===== src/Hashmap/Rehash.antt =====
-- The loop of hashmap_rehash over the old buckets.
use mathlib.Core.Path.{subst}
use native.Mathlib.Decide.{ℕ_discrete}
use libcp.Prelude.{
  ℕ, zero, suc, ◌+◌, ◌^◌, ◌<◌, ◌≡◌, ◌≢◌, ◌↔◌, inl, inr, refl, sym, ap, ◌∙◌, true, false, List, [],
  arith, length, length-set, get_or, set, get_or-set_other,
}
use libcp.Counting.{count-le_of_le, count-none}
use libcp.Probing.{Entry, empty, occupied, deleted, Key, hash_key, find_slot_in_raw_table}
use libcp.Probing.Walk.{Entry-cases}
use libcp.Probing.Table.{IsTable, Holds, Open, find_slot_in_raw_table-located, located_correct}
use libcp.Probing.Edit.{get_or-set_same}
use libcp.Hashmap.{Hashmap, is_occupied, is_deleted, move_from}
use libcp.Hashmap.Valid.{occupied_count, deleted_count}
use libcp.Hashmap.Cells.{StoredIn, filled-IsTable, fill-Stored, fill-occupied_count}

module _ {A : Type 0} (junk : A) (map : Hashmap A) (bits : ℕ) where
  -- What the new arrays hold after the old buckets below `i`.
  pub record Moved (i : ℕ) (states : List Entry) (keys : List Key) (values : List A) : Type 0 where
    pub table : IsTable (hash_key map.key_kind) bits states keys
    pub values_length : length values ≡ 2 ^ bits
    pub whole : (j : ℕ) → get_or states j empty ≢ deleted
    pub counted : occupied_count (2 ^ bits) states ≡ occupied_count i map.states
    pub stored :
        (key : Key) (value : A)
        → StoredIn junk states keys values key value ↔ (
            (j : ℕ) × (j < i)
            × Holds map.states map.keys key j
            × (get_or map.values j junk ≡ value))

  abbrev pub MovedAll : ℕ → List Entry × List Key × List A → Type 0
  MovedAll i (states, keys, values) = Moved i states keys values

  pub deleted_count-whole :
      (n : ℕ) (states : List Entry)
      → ((j : ℕ) → get_or states j empty ≢ deleted)
      → deleted_count n states ≡ 0
  deleted_count-whole n states whole =
      count-none n (λ i. is_deleted (get_or states i empty))
        (λ i h. elim (Entry-cases (get_or states i empty)) [
          | inl e ↦ ap is_deleted e
          | inr (inl e) ↦ ap is_deleted e
          | inr (inr e) ↦ absurd (whole i e)
        ])

  module _
      (distinct : (i j : ℕ)
        → get_or map.states i empty ≡ occupied
        → get_or map.states j empty ≡ occupied
        → get_or map.keys i [] ≡ get_or map.keys j []
        → i ≡ j)
      (bound : occupied_count map.capacity map.states + 1 < 2 ^ bits) where
    abbrev old_key : ℕ → Key
    old_key i = get_or map.keys i []

    abbrev target : ℕ → List Entry → List Key → ℕ
    target i states keys =
        find_slot_in_raw_table states keys (2 ^ bits) (old_key i)
          (hash_key map.key_kind (old_key i))

    module _ (i : ℕ) (states : List Entry) (keys : List Key) (values : List A)
        (moved : Moved i states keys values) where
      skip_bucket : get_or map.states i empty ≢ occupied → Moved (i + 1) states keys values
      skip_bucket ne = record {
        table = moved.table;
        values_length = moved.values_length;
        whole = moved.whole;
        counted = elim (Entry-cases (get_or map.states i empty)) [
          | inl e ↦ ground (arith, moved.counted)
          | inr (inl e) ↦ absurd (ne e)
          | inr (inr e) ↦ ground (arith, moved.counted)
        ];
        stored = λ key value. (
          (λ s.
              let (j, h, holds, same) = (moved.stored key value).0 s in
              (j, omega arith, holds, same)),
          (λ (j, h, holds, same). elim (ℕ_discrete j i) [
            | yes here ↦ absurd (ne (ap (λ n. get_or map.states n empty) (sym here) ∙ holds.0))
            | no other ↦ (moved.stored key value).1 (j, omega (arith, h, other), holds, same)
          ]),
        );
      }

      module _ (was : get_or map.states i empty ≡ occupied) where
        fresh : (j : ℕ) → Holds states keys (old_key i) j → ⊥
        fresh j holds =
            let (n, below, there, same) =
              (moved.stored (old_key i) (get_or values j junk)).0 (j, holds, refl) in
            absurd (omega (arith, below, distinct n i there.0 was there.1))

        target-Open : Open (hash_key map.key_kind) bits states (old_key i) (target i states keys)
        target-Open =
            subst (Open (hash_key map.key_kind) bits states (old_key i))
              (sym (
                find_slot_in_raw_table-located (hash_key map.key_kind) bits states keys moved.whole
                  (old_key i)))
              (elim (located_correct (hash_key map.key_kind) bits states keys moved.table
                (old_key i)) [
                  | inl (j, holds, same) ↦ absurd (fresh j holds)
                  | inr (missing, found, free) ↦ free
                ])

        abbrev value_there : A
        value_there = get_or map.values i junk

        whole_there :
            (j : ℕ) → get_or (set states (target i states keys) occupied) j empty ≢ deleted
        whole_there j e = elim (ℕ_discrete (target i states keys) j) [
          | yes same ↦
              let here =
                get_or-set_same states (target i states keys) occupied empty
                  (rw moved.table.states_length target-Open.0) in
              absurd (
                cc (
                  here,
                  ap (λ n. get_or (set states (target i states keys) occupied) n empty) same,
                  e,
                ))
          | no ne ↦ moved.whole j (sym (get_or-set_other states _ j occupied empty ne) ∙ e)
        ]

        stored_there :
            (key : Key) (value : A)
            → StoredIn junk
                (set states (target i states keys) occupied)
                (set keys (target i states keys) (old_key i))
                (set values (target i states keys) value_there)
                key
                value
              ↔ ((j : ℕ) × (j < i + 1)
                  × Holds map.states map.keys key j
                  × (get_or map.values j junk ≡ value))
        stored_there key value =
            let filled =
              fill-Stored junk (hash_key map.key_kind) bits states keys values moved.table
                moved.values_length (old_key i) value_there (target i states keys) fresh target-Open
                key value in
            (
              (λ s. elim (filled.0 s) [
                | inl (is_key, is_value) ↦ (i, omega arith, (was, sym is_key), sym is_value)
                | inr old ↦
                    let (j, h, holds, same) = (moved.stored key value).0 old in
                    (j, omega arith, holds, same)
              ]),
              (λ (j, h, holds, same). filled.1 (elim (ℕ_discrete j i) [
                | yes here ↦ inl (
                  sym holds.1 ∙ ap old_key here,
                  sym same ∙ ap (λ n. get_or map.values n junk) here,
                )
                | no other ↦
                    inr ((moved.stored key value).1 (j, omega (arith, h, other), holds, same))
              ])),
            )

        move_bucket :
            i < map.capacity
            → Moved
                (i + 1)
                (set states (target i states keys) occupied)
                (set keys (target i states keys) (old_key i))
                (set values (target i states keys) value_there)
        move_bucket h =
            let no_deleted = deleted_count-whole (2 ^ bits) states moved.whole in
            let fewer =
              count-le_of_le i map.capacity (λ j. is_occupied (get_or map.states j empty))
                (omega (arith, h)) in
            let is_occ : is_occupied (get_or map.states i empty) ≡ true = ap is_occupied was in
            let one_more =
              fill-occupied_count junk (hash_key map.key_kind) bits states keys values moved.table
                moved.values_length (old_key i) value_there (target i states keys) fresh
                target-Open in
            record {
              table =
                  filled-IsTable junk (hash_key map.key_kind) bits states keys values moved.table
                    moved.values_length (old_key i) value_there (target i states keys) fresh
                    target-Open (omega (arith, no_deleted, fewer, bound, moved.counted));
              values_length =
                  length-set values (target i states keys) value_there ∙ moved.values_length;
              whole = whole_there;
              counted = ground (arith, one_more, moved.counted, is_occ);
              stored = stored_there;
            }

    abbrev Rest : ℕ → ℕ → List Entry × List Key × List A → Type 0
    Rest rounds i arrays = MovedAll map.capacity (move_from rounds i map (2 ^ bits) junk arrays)

    skip_step :
        (rounds i : ℕ) (states : List Entry) (keys : List Key) (values : List A)
        → is_occupied (get_or map.states i empty) ≡ false
        → Rest rounds (i + 1) (states, keys, values)
        → Rest (suc rounds) i (states, keys, values)
    unfolding move_from
    skip_step rounds i states keys values not_occ rest = rw (not_occ, move_from) rest

    -- The loop moves every old bucket.
    pub move_from-Moved :
        (rounds i : ℕ) (states : List Entry) (keys : List Key) (values : List A)
        → i + rounds ≡ map.capacity
        → Moved i states keys values
        → MovedAll map.capacity (move_from rounds i map (2 ^ bits) junk (states, keys, values))
    unfolding move_from
    move_from-Moved zero i states keys values h moved =
        subst (λ n. Moved n states keys values) (omega (arith, h)) moved
    move_from-Moved (suc rounds) i states keys values h moved =
        let next : i + 1 + rounds ≡ map.capacity = omega (arith, h) in
        let skip = λ (ne : get_or map.states i empty ≢ occupied).
          move_from-Moved rounds (i + 1) states keys values next
            (skip_bucket i states keys values moved ne) in
        elim (Entry-cases (get_or map.states i empty)) [
          | inr (inl was) ↦
              let is_occ : is_occupied (get_or map.states i empty) ≡ true = ap is_occupied was in
              rw (is_occ, move_from)
                (move_from-Moved rounds (i + 1) _ _ _ next
                  (move_bucket i states keys values moved was (omega (arith, h))))
          | inl was ↦ skip_step rounds i states keys values (ap is_occupied was) (skip (λ e. cc))
          | inr (inr was) ↦
              skip_step rounds i states keys values (ap is_occupied was) (skip (λ e. cc))
        ]
