-- ===== src/Hashmap/Lookup.antt =====
-- hashmap_at and hashmap_contains of src/hashmap.c.
use libcp.Prelude.{
  Bool, ℕ, ◌≡◌, ◌↔◌, inl, inr, refl, sym, ap, ◌∙◌, true, false, Option, none, some, get_or,
}
use libcp.Memory.{Env}
use libcp.Probing.{Key, empty}
use libcp.Probing.Table.{Holds}
use libcp.Hashmap.{Hashmap, contains, at}
use libcp.Hashmap.Valid.{IsValid, Stored, lookup_correct}

-- Two options with the same values are equal.
same_values : {A : Type 0} (o o' : Option A) → ((x : A) → (o ≡ some x) ↔ (o' ≡ some x)) → o ≡ o'
same_values none none h = refl
same_values none (some x) h = (h x).1 refl
same_values (some x) o' h = sym ((h x).0 refl)

abbrev pub is_some : {A : Type 0} → Option A → Bool
is_some none = false
is_some (some x) = true

module _ {A : Type 0} (e : Env A) where
  -- Two buckets of one key are one.
  one_bucket :
      (map : Hashmap A)
      → IsValid map
      → (key : Key) (i j : ℕ) → Holds map.states map.keys key i
      → Holds map.states map.keys key j
      → i ≡ j
  one_bucket map valid key i j a b = elim valid.body [
    | inl (_, _, _, no_states) ↦ absurd (cc (a.0, ap (λ s. get_or s i empty) no_states))
    | inr (bits, filled) ↦ filled.table.distinct i j a.0 b.0 (a.1 ∙ sym b.1)
  ]

  -- hashmap_at returns the value in the bucket that has the key.
  pub at_iff :
      (map : Hashmap A)
      → IsValid map
      → (key : Key) (value : A) → Stored e.junk map key value ↔ (at e map key ≡ some value)
  at_iff map valid key value = elim (lookup_correct e map key valid) [
    | inl (i, holds, found, answer) ↦ (
      (λ (j, there, same).
          answer
          ∙ ap some (
              ap (λ n. get_or map.values n e.junk) (one_bucket map valid key i j holds there)
              ∙ same)),
      (λ is_value. (i, holds, cc (answer, is_value))),
    )
    | inr (missing, found, answer) ↦ (
      (λ (j, there, same). absurd (missing j there)),
      (λ is_value. absurd (cc (answer, is_value))),
    )
  ]

  -- hashmap_contains says whether hashmap_at finds a value.
  pub contains-at :
      (map : Hashmap A) → IsValid map → (key : Key) → contains map key ≡ is_some (at e map key)
  contains-at map valid key = elim (lookup_correct e map key valid) [
    | inl (i, holds, found, answer) ↦ found ∙ sym (ap is_some answer)
    | inr (missing, found, answer) ↦ found ∙ sym (ap is_some answer)
  ]

  -- Maps that store the same under a key answer the same.
  pub at-same :
      (map map' : Hashmap A)
      → IsValid map
      → IsValid map'
      → (key : Key) → ((value : A) → Stored e.junk map' key value ↔ Stored e.junk map key value)
      → at e map' key ≡ at e map key
  at-same map map' valid valid' key same = same_values (at e map' key) (at e map key) (λ value. (
    (λ h. (at_iff map valid key value).0 ((same value).0 ((at_iff map' valid' key value).1 h))),
    (λ h. (at_iff map' valid' key value).0 ((same value).1 ((at_iff map valid key value).1 h))),
  ))
