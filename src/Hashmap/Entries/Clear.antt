-- ===== src/Hashmap/Entries/Clear.antt =====
-- hashmap_clear of src/hashmap.c.
use native.Mathlib.Numerals.{unary_clauses}
use libcp.Prelude.{
  ℕ, zero, suc, ◌+◌, ◌≡◌, inl, inr, refl, sym, ap, ◌∙◌, List, [], ◌∷◌, ◌++◌, Bool, true, false,
  none, arith, if◌then◌else◌, Bool-cases, length, get_or, get_or-replicate, replicate,
}
use libcp.Memory.{Env, World, destroy_element}
use libcp.Probing.{Entry, empty, Key}
use libcp.Hashmap.{Hashmap, at, is_occupied}
use libcp.Hashmap.Valid.{IsValid, occupied_count, lookup_correct}
use libcp.Hashmap.Grow.{IsValid-IsSource}
use libcp.Hashmap.Delete.{cleared-IsFilled}
use libcp.Hashmap.Entries.{clear, destroy_from, all_empty}

-- The values in the buckets in use below `n`, one for each, from the last bucket to the first.
abbrev pub occupied_values : {A : Type 0} → ℕ → List Entry → List A → A → List A
occupied_values zero states values junk = []
occupied_values (suc n) states values junk =
    if is_occupied (get_or states n empty)
    then get_or values n junk ∷ occupied_values n states values junk
    else occupied_values n states values junk

occupied_values-length :
    {A : Type 0} (n : ℕ) (states : List Entry) (values : List A) (junk : A)
    → length (occupied_values n states values junk) ≡ occupied_count n states
occupied_values-length zero states values junk = refl
occupied_values-length (suc n) states values junk =
    ground (arith, occupied_values-length n states values junk)

destroy_element_on :
    {A : Type 0} (destroys : Bool) (x : A) (w : World A)
    → destroys ≡ true
    → (destroy_element destroys x w).destroyed ≡ x ∷ w.destroyed
unfolding destroy_element
destroy_element_on true x w on = refl
destroy_element_on false x w on = cc

destroy_element_off :
    {A : Type 0} (destroys : Bool) (x : A) (w : World A)
    → destroys ≡ false
    → (destroy_element destroys x w).destroyed ≡ w.destroyed
unfolding destroy_element
destroy_element_off true x w off = cc
destroy_element_off false x w off = refl

module _ {A : Type 0} (map : Hashmap A) (junk : A) where
  abbrev values_below : ℕ → List A
  values_below n = occupied_values n map.states map.values junk

  -- The next bucket comes first.
  values_below-suc :
      (i : ℕ)
      → values_below (i + 1) ≡ (
          if is_occupied (get_or map.states i empty)
          then get_or map.values i junk ∷ values_below i
          else values_below i)
  values_below-suc i = simp unary_clauses refl

  -- The loop destroys the values of the buckets it passes, in their order.
  destroy_from-values :
      (rounds i : ℕ) (w : World A) (log : List A)
      → map.value_destroy ≡ true
      → w.destroyed ≡ values_below i ++ log
      → (destroy_from rounds i map junk w).destroyed ≡ values_below (i + rounds) ++ log
  unfolding destroy_from
  destroy_from-values zero i w log on h = h ∙ ap (λ n. values_below n ++ log) (omega arith)
  destroy_from-values (suc rounds) i w log on h =
      let whole : i + 1 + rounds ≡ i + suc rounds = omega arith in
      let next = values_below-suc i in
      elim (Bool-cases (is_occupied (get_or map.states i empty))) [
        | inl found ↦
            let w' = destroy_element map.value_destroy (get_or map.values i junk) w in
            let step : values_below (i + 1) ≡ get_or map.values i junk ∷ values_below i =
              rw found at next in
            let one : w'.destroyed ≡ values_below (i + 1) ++ log =
              destroy_element_on map.value_destroy (get_or map.values i junk) w on
              ∙ ap (◌∷◌ (get_or map.values i junk)) h
              ∙ ap (λ xs. xs ++ log) (sym step) in
            rw (found, destroy_from)
              (destroy_from-values rounds (i + 1) w' log on one
                ∙ ap (λ n. values_below n ++ log) whole)
        | inr missed ↦
            let step : values_below (i + 1) ≡ values_below i = rw missed at next in
            let same : w.destroyed ≡ values_below (i + 1) ++ log =
              h ∙ ap (λ xs. xs ++ log) (sym step) in
            rw (missed, destroy_from)
              (destroy_from-values rounds (i + 1) w log on same
                ∙ ap (λ n. values_below n ++ log) whole)
      ]

  destroy_from-none :
      (rounds i : ℕ) (w : World A)
      → map.value_destroy ≡ false
      → (destroy_from rounds i map junk w).destroyed ≡ w.destroyed
  unfolding destroy_from
  destroy_from-none zero i w off = refl
  destroy_from-none (suc rounds) i w off =
      elim (Bool-cases (is_occupied (get_or map.states i empty))) [
        | inl found ↦
            let w' = destroy_element map.value_destroy (get_or map.values i junk) w in
            rw (found, destroy_from)
              (destroy_from-none rounds (i + 1) w' off
                ∙ destroy_element_off map.value_destroy (get_or map.values i junk) w off)
        | inr missed ↦ rw (missed, destroy_from) (destroy_from-none rounds (i + 1) w off)
      ]

module _ {A : Type 0} (e : Env A) (map : Hashmap A) (valid : IsValid map) where
  -- What hashmap_clear leaves.
  abbrev pub Cleared : World A → Hashmap A × World A → Type 0
  Cleared w r =
      IsValid r.0
      × (r.0.size ≡ 0)
      × (r.0.capacity ≡ map.capacity)
      × ((key : Key) → at e r.0 key ≡ none)
      × (length (occupied_values map.capacity map.states map.values e.junk) ≡ map.size)
      × (r.1.destroyed ≡ (
          if map.value_destroy
          then occupied_values map.capacity map.states map.values e.junk ++ w.destroyed
          else w.destroyed))

  none_stored :
      (map' : Hashmap A)
      → IsValid map'
      → ((i : ℕ) → get_or map'.states i empty ≡ empty)
      → (key : Key) → at e map' key ≡ none
  none_stored map' valid' all key = elim (lookup_correct e map' key valid') [
    | inl (i, holds, found, answer) ↦ absurd (cc (all i, holds.0))
    | inr (missing, found, answer) ↦ answer
  ]

  cleared_valid : IsValid (record map { states = all_empty map; size = 0; tombstones = 0 })
  cleared_valid = record {
    key_some = valid.key_some;
    key_bounded = valid.key_bounded;
    value_some = valid.value_some;
    value_bounded = valid.value_bounded;
    body = elim valid.body [
      | inl (no_buckets, no_entries, no_marks, no_states) ↦
          inl (no_buckets, refl, refl, ap (λ s. replicate (length s) empty) no_states)
      | inr (bits, filled) ↦
          inr (bits, cleared-IsFilled map bits map.states filled filled.table.states_length)
    ];
  }

  -- On a valid map hashmap_clear leaves a valid map of the same capacity and of size 0, for which
  -- hashmap_at returns NULL for every key. When there is a value_destroy it has destroyed exactly
  -- the values in the buckets in use, each once and from the first bucket to the last, and these
  -- are as many as the size was; without one it has destroyed nothing.
  pub clear_correct : (w : World A) → Cleared w (clear e map w)
  unfolding clear
  clear_correct w =
      let entries = (IsValid-IsSource map valid).counted in
      let logged = occupied_values map.capacity map.states map.values e.junk ++ w.destroyed in
      let after = record map { states = all_empty map; size = 0; tombstones = 0 } in
      (
        cleared_valid,
        refl,
        refl,
        none_stored after cleared_valid (get_or-replicate (length map.states) empty),
        occupied_values-length map.capacity map.states map.values e.junk ∙ entries,
        elim (Bool-cases map.value_destroy) [
          | inl on ↦
              destroy_from-values map e.junk map.capacity 0 w w.destroyed on refl
              ∙ ap (λ n. occupied_values n map.states map.values e.junk ++ w.destroyed)
                  (omega arith)
              ∙ sym (ap (λ b. if b then logged else w.destroyed) on)
          | inr off ↦
              destroy_from-none map e.junk map.capacity 0 w off
              ∙ sym (ap (λ b. if b then logged else w.destroyed) off)
        ],
      )
