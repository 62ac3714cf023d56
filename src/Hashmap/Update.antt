-- ===== src/Hashmap/Update.antt =====
-- hashmap_set of src/hashmap.c as an update of what hashmap_at returns.
use mathlib.Core.Path.{subst}
use libcp.Prelude.{
  ℕ, ◌+◌, ◌≡◌, ◌≢◌, ◌⊎◌, inl, inr, refl, sym, ap, ◌∙◌, true, false, some, arith, if◌then◌else◌,
  get_or,
}
use libcp.Memory.{Env, World, Status, done, failed, copy_element}
use libcp.Probing.{Key, hash_key}
use libcp.Probing.Table.{Holds}
use libcp.Hashmap.{Hashmap, contains, at, assign, prepare_insert, find_slot, replace, fill}
use libcp.Hashmap.Valid.{IsFilled, IsValid, Missing, lookup_correct, find_slot_correct}
use libcp.Hashmap.Grow.{Same}
use libcp.Hashmap.Prepare.{prepare_insert_correct}
use libcp.Hashmap.Assign.{Stores, replace_correct, fill_correct}
use libcp.Hashmap.Lookup.{at_iff, at-same}

module _ {A : Type 0} (e : Env A) where
  module _ (map : Hashmap A) (valid : IsValid map) (key : Key) where
    pub still_valid :
        (map' : Hashmap A) (bits : ℕ)
        → map'.key_size ≡ map.key_size
        → map'.value_size ≡ map.value_size
        → IsFilled bits map'
        → IsValid map'
    still_valid map' bits k v filled = record {
      key_some = omega (arith, k, valid.key_some);
      key_bounded = omega (arith, k, valid.key_bounded);
      value_some = omega (arith, v, valid.value_some);
      value_bounded = omega (arith, v, valid.value_bounded);
      body = inr (bits, filled);
    }

    -- Nothing that a caller sees has changed.
    abbrev pub Unchanged : Hashmap A → Type 0
    Unchanged map' = (map'.size ≡ map.size) × ((k : Key) → at e map' k ≡ at e map k)

    -- What hashmap_set returns.
    abbrev pub Assigned : A → Status × Hashmap A × World A → Type 0
    Assigned value r =
        IsValid r.1
        × (((r.0 ≡ failed) × Unchanged r.1)
            ⊎ ((r.0 ≡ done)
                × (r.1.size ≡ (if contains map key then map.size else map.size + 1))
                × ((staged : A) × (copy_element map.value_copy value ≡ some staged)
                    × (at e r.1 key ≡ some staged))
                × ((k : Key) → key ≢ k → at e r.1 k ≡ at e map k)))

    -- A growth that keeps the entries changes nothing that a caller sees.
    module _ (grown : Hashmap A) (same : Same e.junk map grown) (bits : ℕ)
        (filled : IsFilled bits grown) where
      pub grown_valid : IsValid grown
      grown_valid = still_valid grown bits same.key_size same.value_size filled

      pub grown_Unchanged : Unchanged grown
      grown_Unchanged = (same.size, λ k. at-same e map grown valid grown_valid k (same.stored k))

    -- hashmap_set after a growth that keeps the entries.
    module _ (value : A) (grown : Hashmap A) (same : Same e.junk map grown) (bits : ℕ)
        (filled : IsFilled bits grown) where
      abbrev new_valid : IsValid grown
      new_valid = grown_valid grown same bits filled

      abbrev new_Unchanged : Unchanged grown
      new_Unchanged = grown_Unchanged grown same bits filled

      Stores-Assigned :
          (more : ℕ) (r : Status × Hashmap A × World A)
          → more ≡ (if contains map key then 0 else 1)
          → Stores e grown bits filled key value more r
          → Assigned value r
      Stores-Assigned more r new stores = elim stores [
        | inl (refused, none_new) ↦ (
          subst IsValid (sym none_new) new_valid,
          inl (refused, subst Unchanged (sym none_new) new_Unchanged),
        )
        | inr (ok, filled', (k, v), grows, (staged, copied, put)) ↦
            let valid' : IsValid r.1 =
              still_valid r.1 bits (k ∙ same.key_size) (v ∙ same.value_size) filled' in
            (
              valid',
              inr (
                ok,
                ground (arith, grows, same.size, new),
                (
                  staged,
                  ap (λ c. copy_element c value) (sym same.value_copy) ∙ copied,
                  (at_iff e r.1 valid' key staged).0 ((put key staged).1 (inl (refl, refl))),
                ),
                λ k ne.
                    at-same e grown r.1 new_valid valid' k (λ x. (
                      (λ s. elim ((put k x).0 s) [
                        | inl (is_key, is_value) ↦ absurd (ne (sym is_key))
                        | inr (ne', old) ↦ old
                      ]),
                      (λ old. (put k x).1 (inr (ne, old))),
                    ))
                    ∙ new_Unchanged.1 k,
              ),
            )
      ]

      found_before : (i : ℕ) → Holds grown.states grown.keys key i → contains map key ≡ true
      found_before i holds =
          let (j, there, old) =
            (same.stored key (get_or grown.values i e.junk)).0 (i, holds, refl) in
          elim (lookup_correct e map key valid) [
            | inl (n, is_there, found, answer) ↦ found
            | inr (missing, found, answer) ↦ absurd (missing j there)
          ]

      absent_before : Missing grown key → contains map key ≡ false
      absent_before missing = elim (lookup_correct e map key valid) [
        | inl (n, is_there, found, answer) ↦
            let (j, there, new) =
              (same.stored key (get_or map.values n e.junk)).1 (n, is_there, refl) in
            absurd (missing j there)
        | inr (old, found, answer) ↦ found
      ]

    -- On a valid map hashmap_set leaves a valid map. When it fails, the size and what hashmap_at
    -- returns for every key are as before; when it succeeds, hashmap_at returns the copy of the
    -- value for the key and what it returned before for every other key, and the size grows by one
    -- exactly when hashmap_contains did not find the key, also when the table has been rehashed.
    pub hashmap_assign_correct :
        (value : A) (w : World A) → Assigned value (assign e map key value w)
    unfolding assign
    hashmap_assign_correct value w = elim (prepare_insert_correct e map valid w) [
      | inl (refused, none_new) ↦
          rw (refused, assign)
            (
              subst IsValid (sym none_new) valid,
              inl (refl, subst Unchanged (sym none_new) (refl, λ k. refl)),
            )
      | inr (ok, same, (bits, filled, room)) ↦
          let grown = (prepare_insert e map w).1 in
          let w' = (prepare_insert e map w).2 in
          let finish = Stores-Assigned value grown same bits filled in
          let index = (find_slot grown key (hash_key grown.key_kind key)).1 in
          rw (ok, assign)
            (elim (find_slot_correct bits grown filled key) [
              | inl (holds, found) ↦ rw found (
                  finish 0 (replace e grown index value w')
                    (ground (arith, found_before value grown same bits filled _ holds))
                    (replace_correct e grown bits filled key value _ holds w'))
              | inr (missing, found, free) ↦ rw found (
                  finish 1 (fill e grown index key value w')
                    (ground (arith, absent_before value grown same bits filled missing))
                    (fill_correct e grown bits filled key value _ missing free room w'))
            ])
    ]
