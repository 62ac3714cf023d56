-- ===== src/Segtree/Capacity.antt =====
-- segtree_next_capacity of src/segtree.c.
use mathlib.Core.Path.{subst}
use native.Mathlib.Nat.{mod-eq_of_lt, two-pow-succ}
use libcp.Prelude.{
  ℕ, zero, suc, ◌+◌, ◌-◌, ◌/◌, ◌^◌, ◌≤◌, ◌<◌, ◌≡◌, sym, ap, ◌∙◌, true, false, some, arith, ltb,
  Bool-cases, inl, inr,
}
use libcp.Memory.{mul_size, size_mod, max_object}
use libcp.Segtree.{next_capacity}

next_capacity-stop :
    (fuel value size : ℕ)
    → ltb value size ≡ false
    → next_capacity (suc fuel) value size ≡ some value
unfolding next_capacity
next_capacity-stop fuel value size h = ground arith

next_capacity-double :
    (fuel value size : ℕ)
    → value < size
    → size ≤ max_object
    → next_capacity (suc fuel) value size ≡ next_capacity fuel (value + value) size
unfolding next_capacity
next_capacity-double fuel value size h k =
    let exact : mul_size value 2 ≡ value + value = mod-eq_of_lt (omega arith) ∙ omega arith in
    let small : ltb ((size_mod - 1) / 2) value ≡ false = ground arith in
    let more : ltb value size ≡ true = ground arith in ground arith

k_plus_zero : (k : ℕ) → k + 0 ≡ k
k_plus_zero k = omega arith

k_plus_suc : (k fuel : ℕ) → k + suc fuel ≡ suc k + fuel
k_plus_suc k fuel = omega arith

next_capacity-power :
    (fuel k size : ℕ)
    → 2 ^ k < size + size
    → size ≤ max_object
    → size ≤ 2 ^ (k + fuel)
    → (n : ℕ) × (next_capacity (suc fuel) (2 ^ k) size ≡ some (2 ^ n))
      × (size ≤ 2 ^ n)
      × (2 ^ n < size + size)
next_capacity-power zero k size low small enough =
    let reached : size ≤ 2 ^ k = subst (λ j. size ≤ 2 ^ j) (k_plus_zero k) enough in
    (k, next_capacity-stop zero (2 ^ k) size (ground arith), reached, low)
next_capacity-power (suc fuel) k size low small enough = elim (Bool-cases (ltb (2 ^ k) size)) [
  | inr reached ↦ (k, next_capacity-stop (suc fuel) (2 ^ k) size reached, ground arith, low)
  | inl more ↦
      let below_size : 2 ^ k < size = ground arith in
      let twice : 2 ^ k + 2 ^ k ≡ 2 ^ suc k = sym (two-pow-succ k) in
      let (n, found, above, below) =
        next_capacity-power fuel (suc k) size (omega (arith, twice)) small
          (subst (λ j. size ≤ 2 ^ j) (k_plus_suc k fuel) enough) in
      (
        n,
        next_capacity-double (suc fuel) (2 ^ k) size below_size small
            ∙ ap (λ v. next_capacity (suc fuel) v size) twice
            ∙ found,
        above,
        below,
      )
]

-- For a positive size of at most 2 ^ 63, segtree_next_capacity succeeds with a power of two that is
-- at least the size and less than twice the size.
pub next_capacity_correct :
    (size : ℕ)
    → 0 < size
    → size ≤ max_object
    → (n : ℕ) × (next_capacity 65 1 size ≡ some (2 ^ n)) × (size ≤ 2 ^ n) × (2 ^ n < size + size)
next_capacity_correct size pos small =
    next_capacity-power 64 0 size (omega arith) small (omega arith)
