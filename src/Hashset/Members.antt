-- ===== src/Hashset/Members.antt =====
-- hashset_add, hashset_delete and hashset_contains as the operations of a set.
use libcp.Prelude.{ℕ, ◌+◌, ◌≡◌, ◌≢◌, ◌⊎◌, inl, inr, sym, ap, ◌∙◌, true, false, if◌then◌else◌}
use libcp.Memory.{Env, World, Status, done, failed}
use libcp.Probing.{Key}
use libcp.Hashmap.{Hashmap, at}
use libcp.Hashmap as Hashmap
use libcp.Hashmap.Valid.{IsValid}
use libcp.Hashmap.Lookup.{is_some, contains-at}
use libcp.Hashmap.Update.{hashmap_assign_correct}
use libcp.Hashmap.Delete.{delete_correct}
use libcp.Hashset.{Hashset, contains, add, delete}

module _ (e : Env ℕ) (set : Hashset) (valid : IsValid set.map) (key : Key) where
  -- The members but for the key.
  abbrev pub OthersSame : Hashset → Type 0
  OthersSame set' = (k : Key) → key ≢ k → contains set' k ≡ contains set k

  -- What hashset_add returns.
  abbrev pub Added : Status × Hashset × World ℕ → Type 0
  Added (s, set', w') =
      IsValid set'.map
      × OthersSame set'
      × (((s ≡ failed) × (contains set' key ≡ contains set key) × (set'.map.size ≡ set.map.size))
          ⊎ ((s ≡ done)
              × (contains set' key ≡ true)
              × (set'.map.size ≡ (if contains set key then set.map.size else set.map.size + 1))))

  -- What hashset_delete returns.
  abbrev pub Removed : Status × Hashset × World ℕ → Type 0
  Removed (s, set', w') =
      IsValid set'.map
      × OthersSame set'
      × (contains set' key ≡ false)
      × (((s ≡ failed) × (contains set key ≡ false) × (set'.map.size ≡ set.map.size))
          ⊎ ((s ≡ done) × (contains set key ≡ true) × (set'.map.size + 1 ≡ set.map.size)))

  same_answer :
      (map' : Hashmap ℕ)
      → IsValid map'
      → (k : Key) → at e map' k ≡ at e set.map k
      → Hashmap.contains map' k ≡ Hashmap.contains set.map k
  same_answer map' valid' k same =
      contains-at e map' valid' k ∙ ap is_some same ∙ sym (contains-at e set.map valid k)

  add_member : (w : World ℕ) → Added (add e set key w)
  unfolding add contains
  add_member w =
      let map' = (Hashmap.assign e set.map key 1 w).1 in
      let (valid', answer) = hashmap_assign_correct e set.map valid key 1 w in
      (
        valid',
        elim answer [
          | inl (refused, (_, same)) ↦ λ k ne. same_answer map' valid' k (same k)
          | inr (ok, _, _, same) ↦ λ k ne. same_answer map' valid' k (same k ne)
        ],
        elim answer [
          | inl (refused, (size, same)) ↦
              inl (refused, same_answer map' valid' key (same key), size)
          | inr (ok, size, (staged, copied, there), same) ↦
              inr (ok, contains-at e map' valid' key ∙ ap is_some there, size)
        ],
      )

  remove_member : (w : World ℕ) → Removed (delete e set key w)
  unfolding delete contains
  remove_member w =
      let map' = (Hashmap.delete e set.map key w).1 in
      let (valid', answer) = delete_correct e set.map key valid w in
      elim answer [
        | inl (refused, missing, same, _) ↦
            let out : Hashmap.contains set.map key ≡ false =
              contains-at e set.map valid key ∙ ap is_some missing in
            (
              valid',
              (λ k ne. ap (λ m. Hashmap.contains m k) same),
              ap (λ m. Hashmap.contains m key) same ∙ out,
              inl (refused, out, ap (λ m. m.size) same),
            )
        | inr (ok, size, gone, same, (value, there, _)) ↦ (
          valid',
          (λ k ne. same_answer map' valid' k (same k ne)),
          contains-at e map' valid' key ∙ ap is_some gone,
          inr (ok, contains-at e set.map valid key ∙ ap is_some there, size),
        )
      ]

  -- On a valid set hashset_add and hashset_delete leave valid sets and change hashset_contains for
  -- no other key. After hashset_add succeeds the key is a member and the size has grown by one
  -- exactly when it was not one; when it fails, the size and the membership of the key are as
  -- before. After hashset_delete the key is no member; it succeeds exactly when the key was one,
  -- and the size then falls by one.
  pub members_correct : (w : World ℕ) → Added (add e set key w) × Removed (delete e set key w)
  members_correct w = (add_member w, remove_member w)
