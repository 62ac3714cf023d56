-- ===== src/Hashmap/Entries/Iterate.antt =====
-- hashmap_first and hashmap_next of src/hashmap.c.
use libcp.Prelude.{
  ℕ, zero, suc, ◌+◌, ◌-◌, ◌≤◌, ◌<◌, ◌≡◌, inl, inr, sym, ap, ◌∙◌, true, false, Option, none, some,
  List, arith, leb, Bool-cases, get_or,
}
use native.Mathlib.Decide.{ℕ_discrete}
use libcp.Probing.{Entry, empty}
use libcp.Hashmap.{Hashmap, is_occupied}
use libcp.Hashmap.Entries.{occupied_from, find_occupied_from, first, next}

-- The first bucket in use from `start` on, below `bound`.
abbrev pub FirstFrom : List Entry → ℕ → ℕ → Option ℕ → Type 0
FirstFrom states start bound none =
    (j : ℕ) → start ≤ j → j < bound → is_occupied (get_or states j empty) ≡ false
FirstFrom states start bound (some i) =
    (start ≤ i)
    × (i < bound)
    × (is_occupied (get_or states i empty) ≡ true)
    × ((j : ℕ) → start ≤ j → j < i → is_occupied (get_or states j empty) ≡ false)

FirstFrom-cons :
    (states : List Entry) (start bound : ℕ) (r : Option ℕ)
    → is_occupied (get_or states start empty) ≡ false
    → FirstFrom states (start + 1) bound r
    → FirstFrom states start bound r
FirstFrom-cons states start bound none h rest = λ j a b. elim (ℕ_discrete start j) [
  | yes here ↦ ap (λ n. is_occupied (get_or states n empty)) (sym here) ∙ h
  | no ne ↦ rest j (omega (arith, a, ne)) b
]
FirstFrom-cons states start bound (some i) h (l, u, found, before) = (
  omega (arith, l),
  u,
  found,
  λ j a b. elim (ℕ_discrete start j) [
    | yes here ↦ ap (λ n. is_occupied (get_or states n empty)) (sym here) ∙ h
    | no ne ↦ before j (omega (arith, a, ne)) b
  ],
)

occupied_from-FirstFrom :
    (rounds start bound : ℕ) (states : List Entry)
    → start + rounds ≡ bound
    → FirstFrom states start bound (occupied_from rounds states start)
unfolding occupied_from
occupied_from-FirstFrom zero start bound states h = λ j a b. absurd (omega (arith, a, b, h))
occupied_from-FirstFrom (suc rounds) start bound states h =
    let rest = occupied_from-FirstFrom rounds (start + 1) bound states (omega (arith, h)) in
    elim (Bool-cases (is_occupied (get_or states start empty))) [
      | inl found ↦
          rw (found, occupied_from)
            (omega arith, omega (arith, h), found, λ j a b. absurd (omega (arith, a, b)))
      | inr missed ↦ rw (missed, occupied_from) (FirstFrom-cons states start bound _ missed rest)
    ]

module _ {A : Type 0} (map : Hashmap A) where
  find_occupied_from-FirstFrom :
      (start : ℕ) → FirstFrom map.states start map.capacity (find_occupied_from map start)
  unfolding find_occupied_from
  find_occupied_from-FirstFrom start = elim (Bool-cases (leb map.capacity start)) [
    | inl past ↦
        let beyond : map.capacity ≤ start = ground (arith, past) in
        rw past (λ j a b. absurd (omega (arith, a, b, beyond)))
    | inr inside ↦
        let below : start < map.capacity = ground (arith, inside) in
        rw inside (
          occupied_from-FirstFrom (map.capacity - start) start map.capacity map.states
            (omega (arith, below)))
  ]

  -- hashmap_first returns the first bucket in use, and hashmap_next the first one after the index, or
  -- HASHMAP_NPOS when there is none.
  pub iteration_correct :
      FirstFrom map.states 0 map.capacity (first map)
      × ((index : ℕ) → FirstFrom map.states (index + 1) map.capacity (next map index))
  unfolding first next
  iteration_correct = (
    find_occupied_from-FirstFrom 0,
    λ index. elim (Bool-cases (leb map.capacity index)) [
      | inl past ↦
          let beyond : map.capacity ≤ index = ground (arith, past) in
          rw past (λ j a b. absurd (omega (arith, a, b, beyond)))
      | inr inside ↦ rw inside (find_occupied_from-FirstFrom (index + 1))
    ],
  )
