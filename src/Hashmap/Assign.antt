-- ===== src/Hashmap/Assign.antt =====
-- The two branches of hashmap_set after hashmap_prepare_insert.
use native.Mathlib.Decide.{ℕ_discrete}
use mathlib.Core.Path.{subst}
use libcp.Prelude.{
  ℕ, ◌+◌, ◌-◌, ◌*◌, ◌^◌, ◌≤◌, ◌≡◌, ◌≢◌, ◌⊎◌, ◌↔◌, inl, inr, refl, sym, ap, ◌∙◌, Option, none, some,
  [], arith, if◌then◌else◌, Bool-cases, length-set, get_or, set, get_or-set_other,
}
use libcp.Memory.{Env, World, Status, done, failed, malloc, copy_element}
use libcp.Probing.{Key, empty, occupied, hash_key}
use libcp.Probing.Table.{Holds, Open, occupied-lt}
use libcp.Probing.Edit.{get_or-set_same}
use libcp.Hashmap.{Hashmap, is_deleted, replace, fill, copy_key}
use libcp.Hashmap.Valid.{IsFilled, Stored, Missing}
use libcp.Hashmap.Cells.{
  StoredIn, filled-IsTable, fill-Stored, fill-occupied_count, fill-deleted_count,
}

pub Option-cases : {A : Type 0} (o : Option A) → (o ≡ none) ⊎ ((x : A) × (o ≡ some x))
Option-cases none = inl refl
Option-cases (some x) = inr (x, refl)

module _ {A : Type 0} (e : Env A) (map : Hashmap A) (bits : ℕ) (filled : IsFilled bits map)
    (key : Key) (value : A) where
  -- The fields that hashmap_set does not change.
  abbrev pub Kept : Hashmap A → Type 0
  Kept map' = (map'.key_size ≡ map.key_size) × (map'.value_size ≡ map.value_size)

  -- The new map stores the copy of the value under the key and else what the old one does.
  abbrev pub Put : Hashmap A → A → Type 0
  Put map' staged =
      (k : Key) (x : A)
      → Stored e.junk map' k x ↔ (((k ≡ key) × (x ≡ staged)) ⊎ ((key ≢ k) × Stored e.junk map k x))

  -- What hashmap_set returns once there is room, with the change of the size.
  abbrev pub Stores : ℕ → Status × Hashmap A × World A → Type 0
  Stores more (s, map', w') =
      ((s ≡ failed) × (map' ≡ map))
      ⊎ ((s ≡ done)
          × IsFilled bits map'
          × Kept map'
          × (map'.size ≡ map.size + more)
          × ((staged : A) × (copy_element map.value_copy value ≡ some staged) × Put map' staged))

  module _ (i : ℕ) (holds : Holds map.states map.keys key i) where
    replace-Stored :
        (staged : A) (k : Key) (x : A)
        → StoredIn e.junk map.states map.keys (set map.values i staged) k x
          ↔ (((k ≡ key) × (x ≡ staged)) ⊎ ((key ≢ k) × Stored e.junk map k x))
    replace-Stored staged k x =
        let below =
          occupied-lt (hash_key map.key_kind) bits map.states map.keys filled.table i holds.0 in
        let here = get_or-set_same map.values i staged e.junk (rw filled.values_length below) in
        (
          (λ (j, there, same). elim (ℕ_discrete i j) [
            | yes at_i ↦ inl (
              sym there.1 ∙ ap (λ n. get_or map.keys n []) (sym at_i) ∙ holds.1,
              sym same ∙ ap (λ n. get_or (set map.values i staged) n e.junk) (sym at_i) ∙ here,
            )
            | no ne ↦ inr (
              (λ is_key.
                  ne (filled.table.distinct i j holds.0 there.0 (holds.1 ∙ is_key ∙ sym there.1))),
              (j, there, sym (get_or-set_other map.values i j staged e.junk ne) ∙ same),
            )
          ]),
          (λ side. elim side [
            | inl (is_key, is_value) ↦ (
              i,
              subst (λ k. Holds map.states map.keys k i) (sym is_key) holds,
              here ∙ sym is_value,
            )
            | inr (ne, (j, there, same)) ↦
                let other : i ≢ j =
                  λ at_j. ne (sym holds.1 ∙ ap (λ n. get_or map.keys n []) at_j ∙ there.1) in
                (j, there, get_or-set_other map.values i j staged e.junk other ∙ same)
          ]),
        )

    pub replace_correct : (w : World A) → Stores 0 (replace e map i value w)
    unfolding replace
    replace_correct w = elim (Bool-cases (malloc e map.value_size w).0) [
      | inr refused ↦ rw refused (inl (refl, refl))
      | inl granted ↦ rw granted (elim (Option-cases (copy_element map.value_copy value)) [
        | inl failing ↦ rw failing (inl (refl, refl))
        | inr (staged, copied) ↦ rw copied (
            inr (
              refl,
              record {
                capacity_bits = filled.capacity_bits;
                several = filled.several;
                table = filled.table;
                values_length = length-set map.values i staged ∙ filled.values_length;
                counted = filled.counted;
                buried = filled.buried;
                load = filled.load;
                keys_fit = filled.keys_fit;
                values_fit = filled.values_fit;
              },
              (refl, refl),
              omega arith,
              (staged, refl, replace-Stored staged),
            ))
      ])
    ]

  module _ (i : ℕ) (missing : Missing map key)
      (free : Open (hash_key map.key_kind) bits map.states key i)
      (room : (map.size + map.tombstones + 1) * 4 ≤ 2 ^ bits * 3) where
    abbrev filled_map : A → Hashmap A
    filled_map staged = record map {
      tombstones =
          if is_deleted (get_or map.states i empty) then map.tombstones - 1 else map.tombstones;
      keys = set map.keys i key;
      values = set map.values i staged;
      states = set map.states i occupied;
      size = map.size + 1;
    }

    fill-IsFilled : (staged : A) → IsFilled bits (filled_map staged)
    fill-IsFilled staged =
        let more =
          fill-occupied_count e.junk (hash_key map.key_kind) bits map.states map.keys map.values
            filled.table filled.values_length key staged i missing free in
        let fewer =
          fill-deleted_count e.junk (hash_key map.key_kind) bits map.states map.keys map.values
            filled.table filled.values_length key staged i missing free in
        let tombs : (filled_map staged).tombstones ≤ map.tombstones = ground arith in
        record {
          capacity_bits = filled.capacity_bits;
          several = filled.several;
          table =
              filled-IsTable e.junk (hash_key map.key_kind) bits map.states map.keys map.values
                filled.table filled.values_length key staged i missing free
                (omega (arith, room, filled.counted, filled.buried, filled.several));
          values_length = length-set map.values i staged ∙ filled.values_length;
          counted = omega (arith, more, filled.counted);
          buried = ground (arith, fewer, filled.buried);
          load = omega (arith, room, tombs);
          keys_fit = filled.keys_fit;
          values_fit = filled.values_fit;
        }

    fill-Put : (staged : A) → Put (filled_map staged) staged
    fill-Put staged k x =
        let stored =
          fill-Stored e.junk (hash_key map.key_kind) bits map.states map.keys map.values
            filled.table filled.values_length key staged i missing free k x in
        (
          (λ s. elim (stored.0 s) [
            | inl here ↦ inl here
            | inr (j, there, same) ↦
                inr ((λ is_key. missing j (there.0, there.1 ∙ sym is_key)), (j, there, same))
          ]),
          (λ side. elim side [
            | inl here ↦ stored.1 (inl here)
            | inr (ne, old) ↦ stored.1 (inr old)
          ]),
        )

    pub fill_correct : (w : World A) → Stores 1 (fill e map i key value w)
    unfolding fill
    fill_correct w = elim (Bool-cases (malloc e map.key_size w).0) [
      | inr refused ↦ rw refused (inl (refl, refl))
      | inl granted ↦
          let w1 = (malloc e map.key_size w).1 in
          rw granted (elim (Bool-cases (copy_key e map key w1).0) [
            | inr refused ↦ rw refused (inl (refl, refl))
            | inl copied ↦
                let w2 = (copy_key e map key w1).1 in
                rw copied (elim (Bool-cases (malloc e map.value_size w2).0) [
                  | inr refused ↦ rw refused (inl (refl, refl))
                  | inl granted' ↦
                      rw granted' (elim (Option-cases (copy_element map.value_copy value)) [
                        | inl failing ↦ rw failing (inl (refl, refl))
                        | inr (staged, same) ↦ rw same (
                            inr (
                              refl,
                              fill-IsFilled staged,
                              (refl, refl),
                              refl,
                              (staged, refl, fill-Put staged),
                            ))
                      ])
                ])
          ])
    ]
