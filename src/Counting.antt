-- ===== src/Counting.antt =====
-- Counting the numbers below a bound that pass a test: the nodes of a set, the bits of a bitset.
use mathlib.Core.Path.{subst}
use native.Mathlib.Nat.{add-zero, add-suc}
use native.Mathlib.Decide.{ℕ_discrete}
use libcp.Prelude.{
  ap, ℕ, zero, suc, ◌+◌, ◌-◌, ◌≤◌, ◌<◌, ◌≡◌, ◌≢◌, Bool-cases, inl, inr, refl, Bool, true, false,
  arith, ◌==◌, if◌then◌else◌,
}

-- How many of the numbers below `n` pass the test.
abbrev pub count : ℕ → (ℕ → Bool) → ℕ
count zero p = 0
count (suc n) p = count n p + (if p n then 1 else 0)

pub count-ext : (n : ℕ) (p q : ℕ → Bool) → ((i : ℕ) → i < n → p i ≡ q i) → count n p ≡ count n q
count-ext zero p q same = refl
count-ext (suc n) p q same = ground (arith, count-ext n p q (λ i h. same i (omega arith)), same n)

pub count-le : (n : ℕ) (p : ℕ → Bool) → count n p ≤ n
count-le zero p = omega arith
count-le (suc n) p = ground (arith, count-le n p)

pub count-pos : (n : ℕ) (p : ℕ → Bool) (i : ℕ) → i < n → p i ≡ true → 0 < count n p
count-pos zero p i h e = absurd (omega arith)
count-pos (suc n) p i h e = elim (ℕ_discrete i n) [
  | yes same ↦ let at_n : p n ≡ true = subst (λ z. p z ≡ true) same e in ground arith
  | no ne ↦ ground (arith, count-pos n p i (omega arith) e)
]

-- Every number below `n` passes.
pub count-all : (n : ℕ) (p : ℕ → Bool) → ((i : ℕ) → i < n → p i ≡ true) → count n p ≡ n
count-all zero p all = refl
count-all (suc n) p all = ground (arith, count-all n p (λ i h. all i (omega arith)), all n)

pub count-none : (n : ℕ) (p : ℕ → Bool) → ((i : ℕ) → i < n → p i ≡ false) → count n p ≡ 0
count-none zero p none = refl
count-none (suc n) p none = ground (arith, count-none n p (λ i h. none i (omega arith)), none n)

-- Exactly one number below `n` is `k`.
pub count-single : (n k : ℕ) → k < n → count n (λ i. i == k) ≡ 1
count-single zero k h = absurd (omega arith)
count-single (suc n) k h = elim (ℕ_discrete k n) [
  | yes same ↦ ground (arith, count-none n (λ i. i == k) (λ i h'. ground arith))
  | no ne ↦ ground (arith, count-single n k (omega arith))
]

-- The numbers that pass one of two tests that exclude each other.
pub count-split :
    (n : ℕ) (p q r : ℕ → Bool)
    → ((i : ℕ) → i < n → (if r i then 1 else 0) ≡ (if p i then 1 else 0) + (if q i then 1 else 0))
    → count n r ≡ count n p + count n q
count-split zero p q r split = omega arith
count-split (suc n) p q r split =
    omega (arith, count-split n p q r (λ i h. split i (omega arith)), split n (omega arith))

-- Counting in two parts.
pub count-add : (n m : ℕ) (p : ℕ → Bool) → count (n + m) p ≡ count n p + count m (λ j. p (n + j))
count-add n zero p = rw (add-zero n) (omega arith)
count-add n (suc m) p =
    let rest = count-add n m p in
    let next : count (n + suc m) p ≡ count (n + m) p + (if p (n + m) then 1 else 0) =
      ap (λ k. count k p) (add-suc n m) in
    omega (arith, rest, next)

pub count-le_of_le : (m n : ℕ) (p : ℕ → Bool) → m ≤ n → count m p ≤ count n p
count-le_of_le m n p h =
    let parts = count-add m (n - m) p in
    let whole : count (m + (n - m)) p ≡ count n p = ap (λ k. count k p) (omega (arith, h)) in
    omega (arith, parts, whole)

-- Counting after the test changes at one number.
pub count-change :
    (n : ℕ) (p q : ℕ → Bool) (k : ℕ)
    → k < n
    → ((i : ℕ) → k ≢ i → p i ≡ q i)
    → count n q + (if p k then 1 else 0) ≡ count n p + (if q k then 1 else 0)
count-change zero p q k h same = absurd (omega arith)
count-change (suc n) p q k h same = elim (ℕ_discrete k n) [
  | yes here ↦
      let before : count n p ≡ count n q =
        count-ext n p q (λ i h'. same i (λ e. absurd (omega arith))) in
      let at_p : p k ≡ p n = ap p here in let at_q : q k ≡ q n = ap q here in ground arith
  | no ne ↦
      let before = count-change n p q k (omega (arith, h, ne)) same in
      let here = same n ne in ground arith
]

-- When not every number passes, there is one that does not.
pub count-missing : (n : ℕ) (p : ℕ → Bool) → count n p < n → (i : ℕ) × (i < n) × (p i ≡ false)
count-missing zero p h = absurd (omega arith)
count-missing (suc n) p h = elim (Bool-cases (p n)) [
  | inr missing ↦ (n, omega arith, missing)
  | inl there ↦
      let (i, below, missing) = count-missing n p (ground arith) in (i, omega arith, missing)
]
