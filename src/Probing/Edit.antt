-- ===== src/Probing/Edit.antt =====
-- Writes to the buckets of src/hashmap.c.
use mathlib.Core.Path.{subst}
use native.Mathlib.Decide.{dec_lt, ℕ_discrete}
use native.Mathlib.Nat.{one-le-pow}
use libcp.Prelude.{
  ℕ, ◌^◌, ◌<◌, ◌≡◌, ◌≢◌, ◌⊎◌, ◌↔◌, inl, inr, refl, sym, ap, ◌∙◌, List, [], arith, length,
  length-set, length-replicate, get_or, get_or_beyond, set, get_or-set, get_or-set_other,
  get_or-replicate, replicate,
}
use libcp.Memory.{size_mod}
use libcp.Probing.{Entry, empty, occupied, deleted, Key}
use libcp.Probing.Places.{place}
use libcp.Probing.Table.{IsTable, Holds, Open, OnWay, occupied-lt}

pub get_or-set_same {ℓ} :
    {A : Type ℓ} → (xs : List A) (i : ℕ) (v d : A) → i < length xs → get_or (set xs i v) i d ≡ v
get_or-set_same xs i v d h = ground (arith, get_or-set xs i i v d h)

-- A write to a bucket that leaves it not empty keeps the way to a bucket.
write-OnWay :
    (hash : Key → ℕ) (bits : ℕ) (states : List Entry) (i : ℕ) (x : Entry)
    → x ≢ empty
    → (key : Key) (j : ℕ) → OnWay hash bits states key j
    → OnWay hash bits (set states i x) key j
write-OnWay hash bits states i x ne key j (n, there, way) = (
  n,
  there,
  λ m h e. elim (ℕ_discrete i (place bits (hash key) m)) [
    | yes same ↦ elim (dec_lt i (length states)) [
      | yes inside ↦
          let here = get_or-set_same states i x empty inside in
          ne (sym here ∙ ap (λ p. get_or (set states i x) p empty) same ∙ e)
      | no outside ↦ way m h (get_or_beyond states _ empty (omega (arith, outside, same)))
    ]
    | no other ↦ way m h (sym (get_or-set_other states i _ x empty other) ∙ e)
  ],
)

module _ (hash : Key → ℕ) (bits : ℕ) (states : List Entry) (keys : List Key)
    (table : IsTable hash bits states keys) where
  module _ (key : Key) (i : ℕ) (inside : i < 2 ^ bits) where
    -- The buckets after the key is put into bucket `i`.
    pub filled_here : Holds (set states i occupied) (set keys i key) key i
    filled_here = (
      get_or-set_same states i occupied empty (rw table.states_length inside),
      get_or-set_same keys i key [] (rw table.keys_length inside),
    )

    pub filled_there :
        (j : ℕ) (k : Key)
        → i ≢ j
        → Holds states keys k j ↔ Holds (set states i occupied) (set keys i key) k j
    filled_there j k ne =
        let s = get_or-set_other states i j occupied empty ne in
        let t = get_or-set_other keys i j key [] ne in
        ((λ (a, b). (s ∙ a, t ∙ b)), (λ (a, b). (sym s ∙ a, sym t ∙ b)))

    -- Which keys the buckets hold after that.
    pub fill-Holds :
        (j : ℕ) (k : Key)
        → Holds (set states i occupied) (set keys i key) k j
        → ((j ≡ i) × (k ≡ key)) ⊎ ((i ≢ j) × Holds states keys k j)
    fill-Holds j k holds = elim (ℕ_discrete i j) [
      | yes same ↦
          let here = filled_here in
          let at_j = subst (λ n. get_or (set keys i key) n [] ≡ key) same here.1 in
          inl (sym same, sym holds.1 ∙ at_j)
      | no ne ↦ inr (ne, (filled_there j k ne).1 holds)
    ]

    module _ (fresh : (j : ℕ) → Holds states keys key j → ⊥) (free : Open hash bits states key i)
        (room : (j : ℕ) × (j < 2 ^ bits) × (get_or (set states i occupied) j empty ≡ empty)) where
      fill-distinct :
          (j n : ℕ)
          → get_or (set states i occupied) j empty ≡ occupied
          → get_or (set states i occupied) n empty ≡ occupied
          → get_or (set keys i key) j [] ≡ get_or (set keys i key) n []
          → j ≡ n
      fill-distinct j n a b same = elim (fill-Holds j _ (a, refl)) [
        | inl (at_i, is_key) ↦ elim (fill-Holds n _ (b, refl)) [
          | inl (at_i', is_key') ↦ at_i ∙ sym at_i'
          | inr (ne, (o, k)) ↦ absurd (fresh n (o, k ∙ sym same ∙ is_key))
        ]
        | inr (ne, (o, k)) ↦ elim (fill-Holds n _ (b, refl)) [
          | inl (at_i', is_key') ↦ absurd (fresh j (o, k ∙ same ∙ is_key'))
          | inr (ne', (o', k')) ↦ table.distinct j n o o' (k ∙ same ∙ sym k')
        ]
      ]

      fill-reach :
          (j : ℕ)
          → get_or (set states i occupied) j empty ≡ occupied
          → OnWay hash bits (set states i occupied) (get_or (set keys i key) j []) j
      fill-reach j a = elim (fill-Holds j _ (a, refl)) [
        | inl (at_i, is_key) ↦
            subst (λ k. OnWay hash bits (set states i occupied) k j) (sym is_key)
              (subst (OnWay hash bits (set states i occupied) key) (sym at_i)
                (write-OnWay hash bits states i occupied (λ e. cc) key i free.2))
        | inr (ne, (o, k)) ↦
            subst (λ k. OnWay hash bits (set states i occupied) k j) k
              (write-OnWay hash bits states i occupied (λ e. cc) _ j (table.reach j o))
      ]

      -- A table stays one when a new key is put where a walk for it may end.
      pub fill-IsTable : IsTable hash bits (set states i occupied) (set keys i key)
      fill-IsTable = record {
        small = table.small;
        states_length = length-set states i occupied ∙ table.states_length;
        keys_length = length-set keys i key ∙ table.keys_length;
        distinct = fill-distinct;
        reach = fill-reach;
        room = room;
      }

  module _ (i : ℕ) (was : get_or states i empty ≡ occupied) where
    pub inside_states : i < length states
    inside_states = rw table.states_length (occupied-lt hash bits states keys table i was)

    -- Which keys the buckets hold after bucket `i` is marked as deleted.
    pub remove-Holds :
        (j : ℕ) (k : Key)
        → Holds (set states i deleted) keys k j ↔ ((i ≢ j) × Holds states keys k j)
    remove-Holds j k = elim (ℕ_discrete i j) [
      | yes same ↦
          let here = get_or-set_same states i deleted empty inside_states in
          let at_j = subst (λ n. get_or (set states i deleted) n empty ≡ deleted) same here in
          ((λ (a, b). absurd (cc (a, at_j))), (λ (ne, h). absurd (ne same)))
      | no ne ↦
          let s = get_or-set_other states i j deleted empty ne in
          ((λ (a, b). (ne, (sym s ∙ a, b))), (λ (ne', (a, b)). (s ∙ a, b)))
    ]

    -- A table stays one when a bucket is marked as deleted.
    pub remove-IsTable : IsTable hash bits (set states i deleted) keys
    remove-IsTable = record {
      small = table.small;
      states_length = length-set states i deleted ∙ table.states_length;
      keys_length = table.keys_length;
      distinct = λ j n a b same.
          table.distinct j n ((remove-Holds j _).0 (a, refl)).1.0
            ((remove-Holds n _).0 (b, refl)).1.0 same;
      reach = λ j a.
          write-OnWay hash bits states i deleted (λ e. cc) _ j
            (table.reach j ((remove-Holds j _).0 (a, refl)).1.0);
      room =
          let (j, below, is_empty) = table.room in
          (j, below, get_or-set_other states i j deleted empty (λ same. cc) ∙ is_empty);
    }

-- The table with no key.
pub empty-IsTable :
    (hash : Key → ℕ) (bits : ℕ) (keys : List Key)
    → 2 ^ bits < size_mod
    → length keys ≡ 2 ^ bits
    → IsTable hash bits (replicate (2 ^ bits) empty) keys
empty-IsTable hash bits keys small same_length =
    let all = λ (i : ℕ). get_or-replicate (2 ^ bits) empty i in
    record {
      small = small;
      states_length = length-replicate (2 ^ bits) empty;
      keys_length = same_length;
      distinct = λ i j a b same. absurd (cc (all i, a));
      reach = λ i a. absurd (cc (all i, a));
      room = (0, one-le-pow bits 2 (omega arith), all 0);
    }
