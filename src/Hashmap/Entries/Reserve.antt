-- ===== src/Hashmap/Entries/Reserve.antt =====
-- hashmap_reserve of src/hashmap.c.
use native.Mathlib.Nat.{pow-le-pow_right, mul-le-mul_left, mul-le-mul_right}
use native.Mathlib.Decide.{dec_lt}
use libcp.Prelude.{
  ℕ, ◌+◌, ◌*◌, ◌^◌, ◌≤◌, ◌<◌, ◌≡◌, ◌⊎◌, inl, inr, refl, true, false, Option, some, [], arith, ltb,
  ◌==◌, ◌&&◌, if◌then◌else◌, Bool-cases,
}
use libcp.Memory.{Env, World, Status, done, failed, size_mod}
use libcp.Hashmap.{Hashmap, rehash, at}
use libcp.Hashmap.Valid.{IsValid}
use libcp.Hashmap.Grow.{rehash_correct}
use libcp.Hashmap.Update.{grown_valid, grown_Unchanged}
use libcp.Hashmap.Entries.{reserve}
use libcp.Hashmap.Entries.Buckets.{bucket_capacity-Enough}
use libcp.Probing.{Key}

module _ {A : Type 0} (e : Env A) (map : Hashmap A) (valid : IsValid map) (n : ℕ) where
  -- A count of buckets that suits a rehash and the entries asked for.
  abbrev Suitable : ℕ → Type 0
  Suitable buckets =
      (bits : ℕ) × (buckets ≡ 2 ^ bits)
      × (n * 4 ≤ 2 ^ bits * 3)
      × (map.size * 4 ≤ 2 ^ bits * 3)
      × (8 ≤ 2 ^ bits)
      × (2 ^ bits * map.key_size < size_mod)
      × (2 ^ bits * map.value_size < size_mod)

  -- What hashmap_reserve returns.
  abbrev pub Reserved : Option (Status × Hashmap A × World A) → Type 0
  Reserved r =
      (x : Status × Hashmap A × World A) × (r ≡ some x)
      × (((x.0 ≡ failed) × (x.1 ≡ map))
          ⊎ ((x.0 ≡ done)
              × IsValid x.1
              × (x.1.size ≡ map.size)
              × ((k : Key) → at e x.1 k ≡ at e map k)
              × (n * 4 ≤ x.1.capacity * 3)))

  module _ (some_entries : 0 < n) (keys_fit : n * 16 * map.key_size < size_mod)
      (values_fit : n * 16 * map.value_size < size_mod) where
    below_limit : n * 4 ≤ 2 ^ 62 * 3
    below_limit =
        let least : n * 16 * 1 ≤ n * 16 * map.key_size = mul-le-mul_left (n * 16) valid.key_some in
        omega (arith, least, keys_fit)

    -- A product of a smaller count fits.
    fits_below :
        (buckets size : ℕ)
        → buckets ≤ 8 + n * 3
        → n * 16 * size < size_mod
        → buckets * size < size_mod
    fits_below buckets size small fit =
        let less : buckets * size ≤ n * 16 * size =
          mul-le-mul_right size (omega (arith, small, some_entries)) in
        omega (arith, less, fit)

    enough-Suitable :
        (bits : ℕ)
        → 3 ≤ bits
        → n * 4 ≤ 2 ^ bits * 3
        → 2 ^ bits ≤ 8 + n * 3
        → Suitable (if ltb (2 ^ bits) map.capacity then map.capacity else 2 ^ bits)
    enough-Suitable bits three holds_all small =
        let eight : 2 ^ 3 ≤ 2 ^ bits = pow-le-pow_right (omega arith) {i = 3} three in
        let k = fits_below (2 ^ bits) map.key_size small keys_fit in
        let v = fits_below (2 ^ bits) map.value_size small values_fit in
        elim valid.body [
          | inl bare ↦
              let as_asked : ltb (2 ^ bits) map.capacity ≡ false = ground (arith, bare.0) in
              rw as_asked (bits, refl, holds_all, omega (arith, bare.1), omega (arith, eight), k, v)
          | inr (old, filled) ↦ elim (Bool-cases (ltb (2 ^ bits) map.capacity)) [
            | inl larger ↦
                let more : 2 ^ bits < 2 ^ old = ground (arith, larger, filled.capacity_bits) in
                rw larger (
                  old,
                  filled.capacity_bits,
                  omega (arith, holds_all, more),
                  omega (arith, filled.load),
                  filled.several,
                  omega (arith, filled.keys_fit),
                  omega (arith, filled.values_fit),
                )
            | inr smaller ↦
                let fewer : 2 ^ old ≤ 2 ^ bits = ground (arith, smaller, filled.capacity_bits) in
                rw smaller (
                  bits,
                  refl,
                  holds_all,
                  omega (arith, filled.load, fewer),
                  omega (arith, eight),
                  k,
                  v,
                )
          ]
        ]

    rehash-Reserved :
        (buckets : ℕ) → Suitable buckets → (w : World A) → Reserved (some (rehash e map buckets w))
    rehash-Reserved buckets (bits, power, holds_all, load, several, k, v) w =
        let r = rehash e map (2 ^ bits) w in
        rw power (
          r,
          refl,
          elim (rehash_correct e map valid bits load several k v w) [
            | inl refused ↦ inl refused
            | inr (ok, filled, same, clean) ↦ inr (
              ok,
              grown_valid e map valid [] r.1 same bits filled,
              same.size,
              (grown_Unchanged e map valid [] r.1 same bits filled).1,
              omega (arith, holds_all, filled.capacity_bits),
            )
          ],
        )

    reserve_some : (w : World A) → Reserved (reserve e map n w)
    unfolding reserve
    reserve_some w =
        let asked : (n == 0) ≡ false = ground (arith, some_entries) in
        let (bits, answer, three, most, holds_all, small) =
          bucket_capacity-Enough n some_entries below_limit in
        let buckets = if ltb (2 ^ bits) map.capacity then map.capacity else 2 ^ bits in
        let suits = enough-Suitable bits three holds_all small in
        rw (asked, reserve)
          (rw answer (elim (Bool-cases (buckets == map.capacity && map.tombstones == 0)) [
            | inl nothing ↦
                let same : buckets ≡ map.capacity = ground (arith, nothing) in
                rw nothing (
                  (done, map, w),
                  refl,
                  inr (refl, valid, refl, (λ k. refl), omega (arith, suits.2, suits.1, same)),
                )
            | inr more ↦ rw more (rehash-Reserved buckets suits w)
          ]))

  -- On a valid map hashmap_reserve returns when 16 times the capacity asked for, times the size of
  -- a key or of a value, fits in size_t. When it fails, the map is as before; when it succeeds, the
  -- map is valid, has the same size and the same answer of hashmap_at for every key, and the
  -- capacity asked for is at most three quarters of its buckets.
  pub reserve_correct :
      n * 16 * map.key_size < size_mod
      → n * 16 * map.value_size < size_mod
      → (w : World A) → Reserved (reserve e map n w)
  unfolding reserve
  reserve_correct k v w = elim (dec_lt 0 n) [
    | yes some_entries ↦ reserve_some some_entries k v w
    | no nothing ↦
        let asked : (n == 0) ≡ true = ground (arith, nothing) in
        rw (asked, reserve)
          ((done, map, w), refl, inr (refl, valid, refl, (λ k. refl), omega (arith, nothing)))
  ]
