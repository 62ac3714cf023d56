-- ===== src/Probing/Table.antt =====
-- The invariant of the buckets of src/hashmap.c, and a search in them.
use Prim.Native.Nat.{bit_and}
use mathlib.Core.Path.{subst}
use native.Mathlib.Decide.{dec_lt, ℕ_discrete}
use libcp.Prelude.{
  ℕ, ◌-◌, ◌^◌, ◌<◌, ◌≡◌, ◌≢◌, ◌⊎◌, sym, ap, Bool, true, false, none, List, [], arith, length,
  get_or, get_or_beyond, inl, inr,
}
use libcp.Memory.{size_mod}
use libcp.Probing.{
  Entry, empty, occupied, deleted, Key, keys_equal, slot_from, find_slot_in_raw_table,
}
use libcp.Probing.Keys.{keys_equal_sound, keys_equal_refl}
use libcp.Probing.Walk.{stops, first_stop, Reached, walk-Reached, raw_slot_from-slot_from}
use libcp.Probing.Places.{place, place-lt, first_place, place_onto}

-- The walk for a key comes to bucket `i` over buckets that are not empty.
abbrev pub OnWay : (Key → ℕ) → ℕ → List Entry → Key → ℕ → Type 0
OnWay hash bits states key i =
    (n : ℕ) × (place bits (hash key) n ≡ i)
    × ((m : ℕ) → m < n → get_or states (place bits (hash key) m) empty ≢ empty)

-- The buckets of a table: a key is in one bucket at most, no bucket on the way to it is empty, and
-- some bucket is.
pub record IsTable (hash : Key → ℕ) (bits : ℕ) (states : List Entry) (keys : List Key)
    : Type 0 where
  pub small : 2 ^ bits < size_mod
  pub states_length : length states ≡ 2 ^ bits
  pub keys_length : length keys ≡ 2 ^ bits
  pub distinct :
      (i j : ℕ)
      → get_or states i empty ≡ occupied
      → get_or states j empty ≡ occupied
      → get_or keys i [] ≡ get_or keys j []
      → i ≡ j
  pub reach :
      (i : ℕ) → get_or states i empty ≡ occupied → OnWay hash bits states (get_or keys i []) i
  pub room : (j : ℕ) × (j < 2 ^ bits) × (get_or states j empty ≡ empty)

-- The key is in bucket `i`.
abbrev pub Holds : List Entry → List Key → Key → ℕ → Type 0
Holds states keys key i = (get_or states i empty ≡ occupied) × (get_or keys i [] ≡ key)

-- A bucket where the key may go: below the capacity, not occupied, and with no empty one before it.
abbrev pub Open : (Key → ℕ) → ℕ → List Entry → Key → ℕ → Type 0
Open hash bits states key i =
    (i < 2 ^ bits) × (get_or states i empty ≢ occupied) × OnWay hash bits states key i

-- The loop from the first bucket on, as hashmap_find_slot runs it.
abbrev pub located : (Key → ℕ) → ℕ → List Entry → List Key → Key → Bool × ℕ
located hash bits states keys key =
    slot_from (2 ^ bits) states keys (2 ^ bits - 1) key (bit_and (hash key) (2 ^ bits - 1)) none

module _ (hash : Key → ℕ) (bits : ℕ) (states : List Entry) (keys : List Key)
    (table : IsTable hash bits states keys) where
  pub occupied-lt : (i : ℕ) → get_or states i empty ≡ occupied → i < 2 ^ bits
  occupied-lt i h = elim (dec_lt i (2 ^ bits)) [
    | yes inside ↦ inside
    | no outside ↦
        let none_there =
          get_or_beyond states i empty (omega (arith, outside, table.states_length)) in
        absurd (ground arith)
  ]

  -- A bucket that does not end the walk is not empty.
  go-ne : (key : Key) (i : ℕ) → stops states keys key i ≡ false → get_or states i empty ≢ empty
  go-ne key i go e = absurd (ground arith)

  -- A bucket with the key ends the walk.
  hold-stop : (key : Key) (i : ℕ) → Holds states keys key i → stops states keys key i ≡ true
  hold-stop key i (is_occupied, same) =
      let equal = subst (λ k. keys_equal k key ≡ true) (sym same) (keys_equal_refl key) in
      ground arith

  -- The walk for a key ends in the table.
  ends :
      (key : Key)
      → (last : ℕ) × (last < 2 ^ bits)
        × (stops states keys key (place bits (hash key) last) ≡ true)
        × ((m : ℕ) → m < last → stops states keys key (place bits (hash key) m) ≡ false)
  ends key = elim (first_stop states keys key (place bits (hash key)) (2 ^ bits)) [
    | inr found ↦ found
    | inl all_go ↦
        let (j, inside, is_empty) = table.room in
        let (n, below, there) = place_onto bits (hash key) j inside in
        let at_n = all_go n below in
        absurd (go-ne key (place bits (hash key) n) at_n (rw there is_empty))
  ]

  -- When the walk ends at an empty bucket, no bucket has the key.
  absent :
      (key : Key) (last : ℕ)
      → get_or states (place bits (hash key) last) empty ≡ empty
      → ((m : ℕ) → m < last → stops states keys key (place bits (hash key) m) ≡ false)
      → (i : ℕ) → Holds states keys key i
      → ⊥
  absent key last is_empty go i (is_occupied, same) =
      let (n, there, way) = table.reach i is_occupied in
      let there' : place bits (hash key) n ≡ i =
        subst (λ k. place bits (hash k) n ≡ i) same there in
      let way' =
        subst (λ k. (m : ℕ) → m < n → get_or states (place bits (hash k) m) empty ≢ empty) same
          way in
      elim (dec_lt n last) [
        | yes before ↦
            let on = go n before in
            let stop = hold-stop key i (is_occupied, same) in
            absurd (cc (ap (stops states keys key) there'))
        | no after ↦ elim (ℕ_discrete n last) [
          | yes here ↦ absurd (
              cc (
                ap (λ m. get_or states (place bits (hash key) m) empty) here,
                ap (λ j. get_or states j empty) there',
              ))
          | no beyond ↦ way' last (omega (arith, after, beyond)) is_empty
        ]
      ]

  -- Either a bucket has the key and the loop finds it, or none has it and the loop finds a bucket
  -- where it may go.
  pub located_correct :
      (key : Key)
      → ((i : ℕ) × Holds states keys key i × (located hash bits states keys key ≡ (true, i)))
        ⊎ (((i : ℕ) → Holds states keys key i → ⊥)
            × ((located hash bits states keys key).0 ≡ false)
            × Open hash bits states key (located hash bits states keys key).1)
  located_correct key =
      let (last, below, stop, go) = ends key in
      let first = first_place bits (hash key) in
      let reached : Reached states keys bits (hash key) table.small key last
          (located hash bits states keys key) =
        subst
          (λ i.
            Reached states keys bits (hash key) table.small key last
              (slot_from (2 ^ bits) states keys (2 ^ bits - 1) key i none))
          (sym first)
          (walk-Reached states keys bits (hash key) table.small key (2 ^ bits) 0 last none
            (omega arith) (omega arith) tt (λ m a b. go m b) stop) in
      elim reached [
        | inl (is_occupied, found) ↦
            let same : keys_equal (get_or keys (place bits (hash key) last) []) key ≡ true =
              ground arith in
            inl (place bits (hash key) last, (is_occupied, keys_equal_sound _ key same), found)
        | inr (is_empty, missed, (m, below_m, there, vacant)) ↦ inr (
          absent key last is_empty go,
          missed,
          (
            rw there (place-lt bits (hash key) m),
            vacant,
            (m, sym there, λ m' h. go-ne key (place bits (hash key) m') (go m' (omega arith))),
          ),
        )
      ]

-- In a table where no bucket is deleted, the loop over the raw arrays is that of hashmap_find_slot.
pub find_slot_in_raw_table-located :
    (hash : Key → ℕ) (bits : ℕ) (states : List Entry) (keys : List Key)
    → ((i : ℕ) → get_or states i empty ≢ deleted)
    → (key : Key)
    → find_slot_in_raw_table states keys (2 ^ bits) key (hash key)
      ≡ (located hash bits states keys key).1
unfolding find_slot_in_raw_table
find_slot_in_raw_table-located hash bits states keys whole key =
    raw_slot_from-slot_from states keys whole (2 ^ bits) (2 ^ bits - 1) key
      (bit_and (hash key) (2 ^ bits - 1))
