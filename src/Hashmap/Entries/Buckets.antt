-- ===== src/Hashmap/Entries/Buckets.antt =====
-- The loop of hashmap_bucket_capacity_for_entries.
use mathlib.Core.Path.{subst}
use native.Mathlib.Nat.{mod-eq_of_lt, pow-le-pow_right}
use native.Mathlib.Numerals.{unary_clauses}
use native.Mathlib.Decide.{ℕ_discrete}
use libcp.Prelude.{
  ℕ, zero, suc, ◌+◌, ◌*◌, ◌^◌, ◌≤◌, ◌<◌, ◌≡◌, ◌⊎◌, inl, inr, refl, sym, ap, ◌∙◌, true, false,
  Option, none, some, arith, ltb, ◌==◌, Bool-cases,
}
use libcp.Memory.{mul_size, size_mod}
use libcp.Hashmap.{init_capacity}
use libcp.Hashmap.Entries.{grow_buckets, bucket_capacity_for_entries}

module _ (n : ℕ) where
  grow_buckets-stop :
      (fuel buckets : ℕ)
      → ltb (mul_size buckets 3) (mul_size n 4) ≡ false
      → some buckets ≡ grow_buckets (suc fuel) n buckets
  unfolding grow_buckets
  grow_buckets-stop fuel buckets h = ground arith

  grow_buckets-go :
      (fuel buckets : ℕ)
      → ltb (mul_size buckets 3) (mul_size n 4) ≡ true
      → grow_buckets fuel n (mul_size buckets 2) ≡ grow_buckets (suc fuel) n buckets
  unfolding grow_buckets
  grow_buckets-go fuel buckets h = ground arith

  -- The bucket counts that the loop may return.
  abbrev pub Enough : Option ℕ → Type 0
  Enough r =
      (bits : ℕ) × (r ≡ some (2 ^ bits))
      × (3 ≤ bits)
      × (bits ≤ 62)
      × (n * 4 ≤ 2 ^ bits * 3)
      × (2 ^ bits ≤ 8 + n * 3)

  grow_buckets-Enough :
      n * 4 ≤ 2 ^ 62 * 3
      → (fuel bits : ℕ) → 3 ≤ bits
      → bits ≤ 62
      → 62 < bits + fuel
      → 2 ^ bits ≤ 8 + n * 3
      → Enough (grow_buckets fuel n (2 ^ bits))
  grow_buckets-Enough fits zero bits l u f small = absurd (omega arith)
  grow_buckets-Enough fits (suc fuel) bits l u f small =
      let most : 2 ^ bits ≤ 2 ^ 62 = pow-le-pow_right (omega arith) {j = 62} u in
      let triple : mul_size (2 ^ bits) 3 ≡ 2 ^ bits * 3 = mod-eq_of_lt (omega (arith, most)) in
      let asked : mul_size n 4 ≡ n * 4 = mod-eq_of_lt (omega (arith, fits)) in
      elim (Bool-cases (ltb (mul_size (2 ^ bits) 3) (mul_size n 4))) [
        | inr enough ↦
            subst Enough (grow_buckets-stop fuel (2 ^ bits) enough)
              (bits, refl, l, u, ground (arith, triple, asked, enough), small)
        | inl more ↦
            let fewer : 2 ^ bits * 3 < n * 4 = ground (arith, triple, asked, more) in
            let below : bits < 62 = elim (ℕ_discrete bits 62) [
              | yes top ↦ absurd (omega (arith, fewer, fits, ap (λ b. 2 ^ b) top))
              | no ne ↦ omega (arith, u, ne)
            ] in
            let grow : 2 ^ (bits + 1) ≡ 2 ^ bits * 2 = simp unary_clauses refl in
            let double : mul_size (2 ^ bits) 2 ≡ 2 ^ (bits + 1) =
              mod-eq_of_lt (omega (arith, most)) ∙ sym grow in
            subst Enough (grow_buckets-go fuel (2 ^ bits) more) (
              subst (λ b. Enough (grow_buckets fuel n b)) (sym double)
                (grow_buckets-Enough fits fuel (bits + 1) (omega (arith, l)) (omega (arith, below))
                  (omega (arith, f)) (omega (arith, grow, fewer))))
      ]

  pub bucket_capacity-Enough : 0 < n → n * 4 ≤ 2 ^ 62 * 3 → Enough (bucket_capacity_for_entries n)
  unfolding bucket_capacity_for_entries
  bucket_capacity-Enough some_entries fits =
      let asked : (n == 0) ≡ false = ground arith in
      rw asked
        (grow_buckets-Enough fits 64 3 (omega arith) (omega arith) (omega arith) (omega arith))

  -- The bucket counts that doubling from a power of two comes to.
  abbrev Doubled : ℕ → Type 0
  Doubled buckets =
      (buckets ≡ 0) ⊎ ((buckets ≡ 2 ^ 63) ⊎ ((bits : ℕ) × (bits ≤ 62) × (buckets ≡ 2 ^ bits)))

  Doubled-next :
      (buckets : ℕ)
      → Doubled buckets
      → Doubled (mul_size buckets 2) × (mul_size buckets 3 ≤ 2 ^ 62 * 3)
  Doubled-next buckets (inl none_left) = (inl (rw none_left refl), rw none_left (omega arith))
  Doubled-next buckets (inr (inl top)) = (inl (rw top refl), rw top (omega arith))
  Doubled-next buckets (inr (inr (bits, u, power))) =
      let most : 2 ^ bits ≤ 2 ^ 62 = pow-le-pow_right (omega arith) {j = 62} u in
      let grow : 2 ^ (bits + 1) ≡ 2 ^ bits * 2 = simp unary_clauses refl in
      let double : mul_size buckets 2 ≡ 2 ^ (bits + 1) =
        rw power (mod-eq_of_lt (omega (arith, most)) ∙ sym grow) in
      let triple : mul_size buckets 3 ≡ 2 ^ bits * 3 =
        rw power (mod-eq_of_lt (omega (arith, most))) in
      (
        elim (ℕ_discrete bits 62) [
          | yes last ↦ inr (inl (double ∙ ap (λ b. 2 ^ (b + 1)) last))
          | no ne ↦ inr (inr (bits + 1, omega (arith, u, ne), double))
        ],
        omega (arith, triple, most),
      )

  -- Between 3 * 2 ^ 60 and 2 ^ 62 entries the loop never ends.
  grow_buckets_forever :
      2 ^ 62 * 3 < n * 4
      → n * 4 < size_mod
      → (fuel buckets : ℕ) → Doubled buckets
      → grow_buckets fuel n buckets ≡ none
  unfolding grow_buckets
  grow_buckets_forever many fits zero buckets d = refl
  grow_buckets_forever many fits (suc fuel) buckets d =
      let (next, low) = Doubled-next buckets d in
      let asked : mul_size n 4 ≡ n * 4 = mod-eq_of_lt fits in
      let more : ltb (mul_size buckets 3) (mul_size n 4) ≡ true =
        ground (arith, asked, low, many) in
      sym (grow_buckets-go fuel buckets more)
      ∙ grow_buckets_forever many fits fuel (mul_size buckets 2) next

-- For a number of entries above 3 * 2 ^ 60 and below 2 ^ 62 the loop of
-- hashmap_bucket_capacity_for_entries is not done after any number of rounds, so the call never
-- returns.
pub buckets_diverge :
    (n : ℕ)
    → 2 ^ 62 * 3 < n * 4
    → n * 4 < size_mod
    → (fuel : ℕ) → grow_buckets fuel n init_capacity ≡ none
buckets_diverge n many fits fuel =
    grow_buckets_forever n many fits fuel init_capacity (inr (inr (3, omega arith, refl)))
