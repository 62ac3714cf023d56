-- ===== src/Hashmap/Cells.antt =====
-- What a write to one bucket does to the values stored under keys and to the counts.
use mathlib.Core.Path.{subst}
use libcp.Prelude.{
  ℕ, ◌+◌, ◌^◌, ◌<◌, ◌≡◌, ◌≢◌, ◌⊎◌, ◌↔◌, inl, inr, refl, sym, ap, ◌∙◌, Bool, true, false, List, [],
  arith, if◌then◌else◌, length, get_or, set, get_or-set_other,
}
use libcp.Counting.{count-change, count-missing, count-split}
use libcp.Probing.{Entry, empty, occupied, deleted, Key}
use libcp.Probing.Walk.{Entry-cases}
use libcp.Probing.Table.{IsTable, Holds, Open, occupied-lt}
use libcp.Probing.Edit.{
  get_or-set_same, filled_here, filled_there, fill-Holds, fill-IsTable, remove-Holds,
}
use libcp.Hashmap.{is_occupied, is_deleted}
use libcp.Hashmap.Valid.{occupied_count, deleted_count}

-- Some bucket has the key, with the value.
abbrev pub StoredIn : {A : Type 0} → A → List Entry → List Key → List A → Key → A → Type 0
StoredIn junk states keys values key value =
    (i : ℕ) × Holds states keys key i × (get_or values i junk ≡ value)

module _ (n : ℕ) (states : List Entry) (i : ℕ) (below : i < n) (inside : i < length states)
    (x : Entry) where
  pub occupied_count-set :
      occupied_count n (set states i x) + (if is_occupied (get_or states i empty) then 1 else 0)
      ≡ occupied_count n states + (if is_occupied x then 1 else 0)
  occupied_count-set =
      let change =
        count-change n (λ j. is_occupied (get_or states j empty))
          (λ j. is_occupied (get_or (set states i x) j empty)) i below
          (λ j ne. ap is_occupied (sym (get_or-set_other states i j x empty ne))) in
      subst
        (λ s.
          occupied_count n (set states i x) + (if is_occupied (get_or states i empty) then 1 else 0)
          ≡ occupied_count n states + (if is_occupied s then 1 else 0))
        (get_or-set_same states i x empty inside) change

  pub deleted_count-set :
      deleted_count n (set states i x) + (if is_deleted (get_or states i empty) then 1 else 0)
      ≡ deleted_count n states + (if is_deleted x then 1 else 0)
  deleted_count-set =
      let change =
        count-change n (λ j. is_deleted (get_or states j empty))
          (λ j. is_deleted (get_or (set states i x) j empty)) i below
          (λ j ne. ap is_deleted (sym (get_or-set_other states i j x empty ne))) in
      subst
        (λ s.
          deleted_count n (set states i x) + (if is_deleted (get_or states i empty) then 1 else 0)
          ≡ deleted_count n states + (if is_deleted s then 1 else 0))
        (get_or-set_same states i x empty inside) change

abbrev in_use : Entry → Bool
in_use empty = false
in_use occupied = true
in_use deleted = true

in_use-split :
    (s : Entry)
    → (if in_use s then 1 else 0)
      ≡ (if is_occupied s then 1 else 0) + (if is_deleted s then 1 else 0)
in_use-split empty = refl
in_use-split occupied = refl
in_use-split deleted = refl

not_in_use : (s : Entry) → in_use s ≡ false → s ≡ empty
not_in_use empty h = refl
not_in_use occupied h = cc
not_in_use deleted h = cc

-- A bucket is empty when fewer are in use or deleted than there are.
pub room_left :
    (n : ℕ) (states : List Entry)
    → occupied_count n states + deleted_count n states < n
    → (j : ℕ) × (j < n) × (get_or states j empty ≡ empty)
room_left n states h =
    let total =
      count-split n (λ i. is_occupied (get_or states i empty))
        (λ i. is_deleted (get_or states i empty)) (λ i. in_use (get_or states i empty))
        (λ i _. in_use-split (get_or states i empty)) in
    let (j, below, is_free) =
      count-missing n (λ i. in_use (get_or states i empty)) (omega (arith, total, h)) in
    (j, below, not_in_use _ is_free)

module _ {A : Type 0} (junk : A) (hash : Key → ℕ) (bits : ℕ) (states : List Entry) (keys : List Key)
    (values : List A) (table : IsTable hash bits states keys)
    (values_length : length values ≡ 2 ^ bits) where
  -- A new key is put into an open bucket.
  module _ (key : Key) (value : A) (i : ℕ) (fresh : (j : ℕ) → Holds states keys key j → ⊥)
      (free : Open hash bits states key i) where
    inside : i < length states
    inside = rw table.states_length free.0

    pub fill-occupied_count :
        occupied_count (2 ^ bits) (set states i occupied) ≡ occupied_count (2 ^ bits) states + 1
    fill-occupied_count =
        let change = occupied_count-set (2 ^ bits) states i free.0 inside occupied in
        elim (Entry-cases (get_or states i empty)) [
          | inl is_empty ↦ ground arith
          | inr (inl is_occ) ↦ absurd (free.1 is_occ)
          | inr (inr is_del) ↦ ground arith
        ]

    pub fill-deleted_count :
        deleted_count (2 ^ bits) (set states i occupied)
          + (if is_deleted (get_or states i empty) then 1 else 0)
        ≡ deleted_count (2 ^ bits) states
    fill-deleted_count =
        let change = deleted_count-set (2 ^ bits) states i free.0 inside occupied in ground arith

    -- The table stays one while a bucket is left.
    pub filled-IsTable :
        occupied_count (2 ^ bits) states + deleted_count (2 ^ bits) states + 1 < 2 ^ bits
        → IsTable hash bits (set states i occupied) (set keys i key)
    filled-IsTable h = fill-IsTable hash bits states keys table key i free.0 fresh free (
        room_left (2 ^ bits) (set states i occupied)
          (omega (arith, h, fill-occupied_count, fill-deleted_count)))

    pub fill-Stored :
        (k : Key) (x : A)
        → StoredIn junk (set states i occupied) (set keys i key) (set values i value) k x
          ↔ (((k ≡ key) × (x ≡ value)) ⊎ StoredIn junk states keys values k x)
    fill-Stored k x = (
      (λ (j, holds, there). elim (fill-Holds hash bits states keys table key i free.0 j k holds) [
        | inl (at_i, is_key) ↦
            let here = get_or-set_same values i value junk (rw values_length free.0) in
            inl (is_key, sym there ∙ ap (λ n. get_or (set values i value) n junk) at_i ∙ here)
        | inr (ne, old) ↦ inr (j, old, sym (get_or-set_other values i j value junk ne) ∙ there)
      ]),
      (λ side. elim side [
        | inl (is_key, is_value) ↦ (
          i,
          subst (λ k. Holds (set states i occupied) (set keys i key) k i) (sym is_key)
              (filled_here hash bits states keys table key i free.0),
          get_or-set_same values i value junk (rw values_length free.0) ∙ sym is_value,
        )
        | inr (j, old, there) ↦
            let ne : i ≢ j = λ e. free.1 (ap (λ n. get_or states n empty) e ∙ old.0) in
            (
              j,
              (filled_there hash bits states keys table key i free.0 j k ne).0 old,
              get_or-set_other values i j value junk ne ∙ there,
            )
      ]),
    )

  -- The bucket of a key is marked as deleted.
  module _ (key : Key) (i : ℕ) (holds : Holds states keys key i) where
    pub remove-Stored :
        (k : Key) (x : A)
        → StoredIn junk (set states i deleted) keys values k x
          ↔ ((key ≢ k) × StoredIn junk states keys values k x)
    remove-Stored k x = (
      (λ (j, there, same).
          let (ne, old) = (remove-Holds hash bits states keys table i holds.0 j k).0 there in
          ((λ e. ne (table.distinct i j holds.0 old.0 (holds.1 ∙ e ∙ sym old.1))), (j, old, same))),
      (λ (ne, (j, old, same)). (
        j,
        (remove-Holds hash bits states keys table i holds.0 j k).1
            ((λ e. ne (sym holds.1 ∙ ap (λ n. get_or keys n []) e ∙ old.1)), old),
        same,
      )),
    )

    pub remove-occupied_count :
        occupied_count (2 ^ bits) (set states i deleted) + 1 ≡ occupied_count (2 ^ bits) states
    remove-occupied_count =
        let below = occupied-lt hash bits states keys table i holds.0 in
        let change =
          occupied_count-set (2 ^ bits) states i below (rw table.states_length below) deleted in
        let is_occ : is_occupied (get_or states i empty) ≡ true = ap is_occupied holds.0 in
        ground arith

    pub remove-deleted_count :
        deleted_count (2 ^ bits) (set states i deleted) ≡ deleted_count (2 ^ bits) states + 1
    remove-deleted_count =
        let below = occupied-lt hash bits states keys table i holds.0 in
        let change =
          deleted_count-set (2 ^ bits) states i below (rw table.states_length below) deleted in
        let not_del : is_deleted (get_or states i empty) ≡ false = ap is_deleted holds.0 in
        ground arith
