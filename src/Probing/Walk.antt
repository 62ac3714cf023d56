-- ===== src/Probing/Walk.antt =====
-- The walk over the buckets from a hash on: where it stops, and what the loops return there.
use Prim.Native.Nat.{bit_and}
use mathlib.Core.Path.{subst}
use native.Mathlib.Decide.{ℕ_discrete}
use libcp.Prelude.{
  ℕ, zero, suc, ◌+◌, ◌-◌, ◌^◌, ◌≤◌, ◌<◌, ◌≡◌, ◌≢◌, ◌⊎◌, refl, sym, Bool, true, false, Option, none,
  some, List, [], arith, get_or, Bool-cases, inl, inr,
}
use libcp.Memory.{add_size, size_mod}
use libcp.Probing.Places.{place, next_place}
use libcp.Probing.{
  Entry, empty, occupied, deleted, Key, keys_equal, slot_from, raw_slot_from, or_else, or_index,
}

pub Entry-cases : (s : Entry) → (s ≡ empty) ⊎ ((s ≡ occupied) ⊎ (s ≡ deleted))
Entry-cases empty = inl refl
Entry-cases occupied = inr (inl refl)
Entry-cases deleted = inr (inr refl)

module _ (states : List Entry) (keys : List Key) where
  abbrev pub state : ℕ → Entry
  state i = get_or states i empty

  abbrev pub key_at : ℕ → Key
  key_at i = get_or keys i []

  -- Whether the walk for a key ends at a bucket.
  abbrev pub stops : Key → ℕ → Bool
  stops key i = elim (state i) [
    | empty ↦ true
    | deleted ↦ false
    | occupied ↦ keys_equal (key_at i) key
  ]

  -- The first bucket of a walk that ends it, if there is one below a bound.
  pub first_stop :
      (key : Key) (at : ℕ → ℕ) (bound : ℕ)
      → ((m : ℕ) → m < bound → stops key (at m) ≡ false)
        ⊎ ((n : ℕ) × (n < bound)
            × (stops key (at n) ≡ true)
            × ((m : ℕ) → m < n → stops key (at m) ≡ false))
  first_stop key at zero = inl (λ m h. absurd (omega arith))
  first_stop key at (suc bound) = elim (first_stop key at bound) [
    | inr (n, h, stop, before) ↦ inr (n, omega arith, stop, before)
    | inl all_go ↦ elim (Bool-cases (stops key (at bound))) [
      | inl stop ↦ inr (bound, omega arith, stop, all_go)
      | inr go ↦ inl (λ m h. elim (ℕ_discrete m bound) [
        | yes same ↦ rw same go
        | no ne ↦ all_go m (omega (arith, h, ne))
      ])
    ]
  ]

  module _ (bits hash : ℕ) (small : 2 ^ bits < size_mod) (key : Key) where
    -- A bucket that may be filled: not occupied, and met by the walk up to bucket `last`.
    abbrev pub Vacant : ℕ → ℕ → Type 0
    Vacant last index =
        (m : ℕ) × (m ≤ last) × (index ≡ place bits hash m) × (state index ≢ occupied)

    abbrev pub Remembered : ℕ → Option ℕ → Type 0
    Remembered last none = Unit {0}
    Remembered last (some d) = Vacant last d

    -- What the loop returns from a walk that ends at bucket `last`.
    abbrev pub Reached : ℕ → Bool × ℕ → Type 0
    Reached last r =
        ((state (place bits hash last) ≡ occupied) × (r ≡ (true, place bits hash last)))
        ⊎ ((state (place bits hash last) ≡ empty) × (r.0 ≡ false) × Vacant last r.1)

    slot_from-empty :
        (fuel i : ℕ) (d : Option ℕ)
        → state i ≡ empty
        → (false, or_index d i) ≡ slot_from (suc fuel) states keys (2 ^ bits - 1) key i d
    unfolding slot_from
    slot_from-empty fuel i d h = ground arith

    slot_from-hit :
        (fuel i : ℕ) (d : Option ℕ)
        → state i ≡ occupied
        → keys_equal (key_at i) key ≡ true
        → (true, i) ≡ slot_from (suc fuel) states keys (2 ^ bits - 1) key i d
    unfolding slot_from
    slot_from-hit fuel i d h k = ground arith

    slot_from-other :
        (fuel i : ℕ) (d : Option ℕ)
        → state i ≡ occupied
        → keys_equal (key_at i) key ≡ false
        → slot_from fuel states keys (2 ^ bits - 1) key (bit_and (add_size i 1) (2 ^ bits - 1)) d
          ≡ slot_from (suc fuel) states keys (2 ^ bits - 1) key i d
    unfolding slot_from
    slot_from-other fuel i d h k = ground arith

    slot_from-deleted :
        (fuel i : ℕ) (d : Option ℕ)
        → state i ≡ deleted
        → slot_from fuel states keys
            (2 ^ bits - 1)
            key
            (bit_and (add_size i 1) (2 ^ bits - 1))
            (or_else d i)
          ≡ slot_from (suc fuel) states keys (2 ^ bits - 1) key i d
    unfolding slot_from
    slot_from-deleted fuel i d h = ground arith

    filled_index :
        (last : ℕ) (d : Option ℕ)
        → state (place bits hash last) ≡ empty
        → Remembered last d
        → Vacant last (or_index d (place bits hash last))
    filled_index last none h mem = (last, omega arith, refl, λ e. cc)
    filled_index last (some d) h mem = mem

    deleted_index :
        (n last : ℕ) (d : Option ℕ)
        → n ≤ last
        → state (place bits hash n) ≡ deleted
        → Remembered last d
        → Remembered last (or_else d (place bits hash n))
    deleted_index n last none l h mem = (n, l, refl, λ e. cc)
    deleted_index n last (some d) l h mem = mem

    walk_end :
        (fuel last : ℕ) (d : Option ℕ)
        → Remembered last d
        → stops key (place bits hash last) ≡ true
        → Reached last
            (slot_from (suc fuel) states keys (2 ^ bits - 1) key (place bits hash last) d)
    walk_end fuel last d mem stop = elim (Entry-cases (state (place bits hash last))) [
      | inl is_empty ↦
          subst (Reached last) (slot_from-empty fuel (place bits hash last) d is_empty)
            (inr (is_empty, refl, filled_index last d is_empty mem))
      | inr (inl is_occupied) ↦
          let same : keys_equal (key_at (place bits hash last)) key ≡ true = ground arith in
          subst (Reached last) (slot_from-hit fuel (place bits hash last) d is_occupied same)
            (inl (is_occupied, refl))
      | inr (inr is_deleted) ↦ absurd (ground arith)
    ]

    -- The loop returns what the bucket where the walk ends says.
    pub walk-Reached :
        (fuel n last : ℕ) (d : Option ℕ)
        → n ≤ last
        → last < n + fuel
        → Remembered last d
        → ((m : ℕ) → n ≤ m → m < last → stops key (place bits hash m) ≡ false)
        → stops key (place bits hash last) ≡ true
        → Reached last (slot_from fuel states keys (2 ^ bits - 1) key (place bits hash n) d)
    walk-Reached zero n last d h f mem go stop = absurd (omega arith)
    walk-Reached (suc fuel) n last d h f mem go stop = elim (ℕ_discrete n last) [
      | yes here ↦
          subst
            (λ m.
              Reached last
                (slot_from (suc fuel) states keys (2 ^ bits - 1) key (place bits hash m) d))
            (sym here) (walk_end fuel last d mem stop)
      | no ne ↦
          let on : stops key (place bits hash n) ≡ false = go n (omega arith) (omega (arith, ne)) in
          let step = next_place bits hash n small in
          let rest = λ (d : Option ℕ) (mem : Remembered last d).
            walk-Reached fuel (n + 1) last d (omega (arith, ne)) (omega arith) mem
              (λ m a b. go m (omega arith) b) stop in
          elim (Entry-cases (state (place bits hash n))) [
            | inl is_empty ↦ absurd (ground arith)
            | inr (inl is_occupied) ↦
                let other : keys_equal (key_at (place bits hash n)) key ≡ false = ground arith in
                subst (Reached last) (slot_from-other fuel (place bits hash n) d is_occupied other)
                  (subst (λ i. Reached last (slot_from fuel states keys (2 ^ bits - 1) key i d))
                    (sym step) (rest d mem))
            | inr (inr is_deleted) ↦
                let d' = or_else d (place bits hash n) in
                subst (Reached last) (slot_from-deleted fuel (place bits hash n) d is_deleted) (
                  subst (λ i. Reached last (slot_from fuel states keys (2 ^ bits - 1) key i d'))
                    (sym step) (rest d' (deleted_index n last d h is_deleted mem)))
          ]
    ]

  -- Without deleted buckets the loop over a raw table returns the same index.
  pub raw_slot_from-slot_from :
      ((i : ℕ) → state i ≢ deleted)
      → (fuel mask : ℕ) (key : Key) (i : ℕ)
      → raw_slot_from fuel states keys mask key i ≡ (slot_from fuel states keys mask key i none).1
  unfolding raw_slot_from slot_from
  raw_slot_from-slot_from none_deleted zero mask key i = refl
  raw_slot_from-slot_from none_deleted (suc fuel) mask key i =
      let here = none_deleted i in
      let rest = raw_slot_from-slot_from none_deleted fuel mask key (bit_and (add_size i 1) mask) in
      ground arith
