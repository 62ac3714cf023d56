-- ===== src/Hashmap/Prepare.antt =====
-- hashmap_prepare_insert of src/hashmap.c.
use native.Mathlib.Nat.{mod-eq_of_lt, pow-le-pow_right}
use native.Mathlib.Numerals.{unary_clauses}
use native.Mathlib.Decide.{dec_lt}
use libcp.Prelude.{
  ℕ, ◌+◌, ◌*◌, ◌^◌, ◌≤◌, ◌<◌, ◌≡◌, ◌⊎◌, inl, inr, refl, sym, ◌∙◌, true, false, arith, ◌==◌, leb,
  Bool-cases,
}
use libcp.Memory.{Env, World, Status, done, failed, mul_size, add_size, max_object, double_fits}
use libcp.Hashmap.{Hashmap, rehash, prepare_insert}
use libcp.Hashmap.Valid.{IsFilled, IsValid}
use libcp.Hashmap.Grow.{Same, Same-refl, rehash_correct}

-- A power of two below 2 ^ 63.
half_object : (bits : ℕ) → 2 ^ bits < max_object → 2 ^ bits ≤ 2 ^ 62
half_object bits h = elim (dec_lt bits 63) [
  | yes small ↦ pow-le-pow_right (omega arith) {j = 62} (omega (arith, small))
  | no large ↦
      let more : 2 ^ 63 ≤ 2 ^ bits =
        pow-le-pow_right (omega arith) {i = 63} (omega (arith, large)) in
      absurd (omega (arith, more, h))
]

module _ {A : Type 0} (e : Env A) (map : Hashmap A) (valid : IsValid map) where
  -- What hashmap_prepare_insert returns.
  abbrev pub Prepared : Status × Hashmap A × World A → Type 0
  Prepared (s, map', w') =
      ((s ≡ failed) × (map' ≡ map))
      ⊎ ((s ≡ done)
          × Same e.junk map map'
          × ((bits : ℕ) × IsFilled bits map'
              × ((map'.size + map'.tombstones + 1) * 4 ≤ 2 ^ bits * 3)))

  module _ (bits : ℕ) (filled : IsFilled bits map) where
    capacity-lt : 2 ^ bits ≤ 2 ^ 62
    capacity-lt = half_object bits (grind (arith, filled.keys_fit, valid.key_some))

    -- The test of the load does not wrap round.
    load_exact :
        (mul_size (add_size (add_size map.size map.tombstones) 1) 4
          ≡ (map.size + map.tombstones + 1) * 4)
        × (mul_size map.capacity 3 ≡ 2 ^ bits * 3)
        × (mul_size map.capacity 2 ≡ 2 ^ bits * 2)
    load_exact =
        let small = capacity-lt in
        let sum : add_size map.size map.tombstones ≡ map.size + map.tombstones =
          mod-eq_of_lt (omega (arith, filled.load, small)) in
        let next : add_size (add_size map.size map.tombstones) 1 ≡ map.size + map.tombstones + 1 =
          rw sum (mod-eq_of_lt (omega (arith, filled.load, small))) in
        (
          rw next (mod-eq_of_lt (omega (arith, filled.load, small))),
          rw filled.capacity_bits (mod-eq_of_lt (omega (arith, small))),
          rw filled.capacity_bits (mod-eq_of_lt (omega (arith, small))),
        )

    twice : (w : World A) → Prepared (rehash e map (mul_size map.capacity 2) w)
    twice w =
        let grow : 2 ^ (bits + 1) ≡ 2 ^ bits * 2 = simp unary_clauses refl in
        let double : mul_size map.capacity 2 ≡ 2 ^ (bits + 1) = load_exact.2 ∙ sym grow in
        let next =
          rehash_correct e map valid (bits + 1) (omega (arith, filled.load, grow))
            (omega (arith, filled.several, grow))
            (rw grow (double_fits (2 ^ bits) map.key_size valid.key_some filled.keys_fit).1)
            (rw grow (double_fits (2 ^ bits) map.value_size valid.value_some filled.values_fit).1)
            w in
        rw double (elim next [
          | inl refused ↦ inl refused
          | inr (ok, new, same, clean) ↦ inr (
            ok,
            same,
            (bits + 1, new, omega (arith, filled.load, filled.several, same.size, clean, grow)),
          )
        ])

  pub prepare_insert_correct : (w : World A) → Prepared (prepare_insert e map w)
  unfolding prepare_insert
  prepare_insert_correct w = elim valid.body [
    | inl (no_buckets, no_entries, _, _) ↦
        let is_bare : (map.capacity == 0) ≡ true = ground arith in
        rw is_bare
          (elim (rehash_correct e map valid 3 (omega (arith, no_entries)) (omega arith)
            (omega (arith, valid.key_bounded)) (omega (arith, valid.value_bounded)) w) [
              | inl refused ↦ inl refused
              | inr (ok, new, same, clean) ↦
                  inr (ok, same, (3, new, omega (arith, no_entries, same.size, clean)))
            ])
    | inr (bits, filled) ↦
        let not_bare : (map.capacity == 0) ≡ false =
          ground (arith, filled.capacity_bits, filled.several) in
        let exact = load_exact bits filled in
        rw not_bare
          (elim (Bool-cases (
            leb (mul_size (add_size (add_size map.size map.tombstones) 1) 4)
              (mul_size map.capacity 3))) [
                | inl light ↦ rw light (
                    inr (
                      refl,
                      Same-refl e.junk map,
                      (bits, filled, ground (arith, exact.0, exact.1, light)),
                    ))
                | inr heavy ↦ rw heavy (twice bits filled w)
              ])
  ]
