-- ===== src/Bits.antt =====
-- The binary digits of a number, and what &, |, ^, ~ and the masks of src/bitset.c and
-- src/hashmap.c do to them.
use Prim.Native.Nat.{
  min, max, bit_and, bit_or, bit_xor, digits, differ, bit_and-bitwise, bit_or-bitwise,
  bit_xor-bitwise,
}
use mathlib.Core.Path.{subst}
use native.Mathlib.Nat.{
  pow-suc, pow-le-pow_right, one-le-pow, mod-eq_of_lt, mod-lt, div-add-mod, add-mul-mod_self_right,
}
use mathlib.Core.Logic.{◌≢◌}
use native.Mathlib.Decide.{ℕ_discrete}
use libcp.Prelude.{
  ℕ, zero, suc, ◌+◌, ◌-◌, ◌*◌, ◌/◌, ◌%◌, ◌^◌, ◌≤◌, ◌<◌, ◌≡◌, refl, sym, ap, ◌∙◌, Bool, true, false,
  not, ◌&&◌, ◌||◌, arith, ltb, ◌==◌, Bool-cases, inl, inr,
}

-- Digit `k` of `x`, from the lowest.
unfoldable pub test_bit : ℕ → ℕ → Bool
test_bit zero x = x % 2 == 1
test_bit (suc k) x = test_bit k (x / 2)

-- The exclusive or of two truth values.
abbrev pub xor : Bool → Bool → Bool
xor true b = not b
xor false b = b

pub test_bit-zero : (k : ℕ) → test_bit k 0 ≡ false
unfolding test_bit
test_bit-zero zero = refl
test_bit-zero (suc k) = test_bit-zero k

-- A digit of a sum of digits.
test_bit-digit :
    (k rest d : ℕ)
    → d < 2
    → test_bit k (rest * 2 + d) ≡ elim k [ zero ↦ d == 1 | suc k' ↦ test_bit k' rest ]
unfolding test_bit
test_bit-digit zero rest d h = ap (λ n. n == 1) (omega arith)
test_bit-digit (suc k) rest d h = ap (test_bit k) (omega arith)

module _ (z : ℕ → ℕ) (f : ℕ → ℕ → ℕ) (op : Bool → Bool → Bool)
    (rest_digit : (b k : ℕ) → test_bit k (z b) ≡ op false (test_bit k b))
    (small : (x y : ℕ) → x < 2 → y < 2 → f x y < 2)
    (one_digit : (x y : ℕ) → x < 2 → y < 2 → (f x y == 1) ≡ op (x == 1) (y == 1)) where
  -- An operation on the digits, digit by digit.
  test_bit-digits :
      (n a b k : ℕ) → a ≤ n → test_bit k (digits z f n a b) ≡ op (test_bit k a) (test_bit k b)
  unfolding test_bit
  test_bit-digits zero zero b k h = rw (test_bit-zero k) (rest_digit b k)
  test_bit-digits zero (suc a) b k h = absurd (omega arith)
  test_bit-digits (suc n) zero b k h = rw (test_bit-zero k) (rest_digit b k)
  test_bit-digits (suc n) (suc a) b zero h =
      test_bit-digit zero _ (f (suc a % 2) (b % 2)) (small _ _ (omega arith) (omega arith))
      ∙ one_digit (suc a % 2) (b % 2) (omega arith) (omega arith)
  test_bit-digits (suc n) (suc a) b (suc k) h =
      test_bit-digit (suc k) _ (f (suc a % 2) (b % 2)) (small _ _ (omega arith) (omega arith))
      ∙ test_bit-digits n (suc a / 2) (b / 2) k (omega arith)

pub test_bit-bit_and : (k a b : ℕ) → test_bit k (bit_and a b) ≡ (test_bit k a && test_bit k b)
test_bit-bit_and k a b =
    ap (test_bit k) (λ i. bit_and-bitwise a b i)
    ∙ test_bit-digits (λ b. zero) min ◌&&◌ (λ b k. test_bit-zero k) (λ x y h h'. omega arith)
        (λ x y h h'. ground arith) a a b k (omega arith)

pub test_bit-bit_or : (k a b : ℕ) → test_bit k (bit_or a b) ≡ (test_bit k a || test_bit k b)
test_bit-bit_or k a b =
    ap (test_bit k) (λ i. bit_or-bitwise a b i)
    ∙ test_bit-digits (λ b. b) max ◌||◌ (λ b k. refl) (λ x y h h'. omega arith)
        (λ x y h h'. ground arith) a a b k (omega arith)

differ-two :
    (x y : ℕ) → x < 2 → y < 2 → (differ x y < 2) × ((differ x y == 1) ≡ xor (x == 1) (y == 1))
differ-two zero zero h h' = (omega arith, refl)
differ-two zero (suc zero) h h' = (omega arith, refl)
differ-two (suc zero) zero h h' = (omega arith, refl)
differ-two (suc zero) (suc zero) h h' = (omega arith, refl)
differ-two zero (suc (suc y)) h h' = absurd (omega arith)
differ-two (suc zero) (suc (suc y)) h h' = absurd (omega arith)
differ-two (suc (suc x)) y h h' = absurd (omega arith)

pub test_bit-bit_xor : (k a b : ℕ) → test_bit k (bit_xor a b) ≡ xor (test_bit k a) (test_bit k b)
test_bit-bit_xor k a b =
    ap (test_bit k) (λ i. bit_xor-bitwise a b i)
    ∙ test_bit-digits (λ b. b) differ xor (λ b k. refl) (λ x y h h'. (differ-two x y h h').0)
        (λ x y h h'. (differ-two x y h h').1) a a b k (omega arith)

-- A number below 2 ^ n has n digits.
pub test_bit-lt : (n k x : ℕ) → x < 2 ^ n → n ≤ k → test_bit k x ≡ false
unfolding test_bit
test_bit-lt zero k x h l = let none : x ≡ 0 = omega arith in ap (test_bit k) none ∙ test_bit-zero k
test_bit-lt (suc n) zero x h l = absurd (omega arith)
test_bit-lt (suc n) (suc k) x h l =
    test_bit-lt n k (x / 2) (omega (arith, pow-suc 2 n)) (omega arith)

-- Numbers with the same digits are the same.
pub test_bit-ext :
    (n x y : ℕ) → x < 2 ^ n → y < 2 ^ n → ((k : ℕ) → k < n → test_bit k x ≡ test_bit k y) → x ≡ y
unfolding test_bit
test_bit-ext zero x y hx hy same = omega arith
test_bit-ext (suc n) x y hx hy same =
    let halves : x / 2 ≡ y / 2 =
      test_bit-ext n (x / 2) (y / 2) (omega (arith, pow-suc 2 n)) (omega (arith, pow-suc 2 n))
        (λ k h. same (suc k) (omega arith)) in
    let lowest = same 0 (omega arith) in ground arith

-- 1 << k.
pub test_bit-pow : (j k : ℕ) → test_bit j (2 ^ k) ≡ (j == k)
unfolding test_bit
test_bit-pow zero zero = refl
test_bit-pow zero (suc k) =
    let even : 2 ^ suc k % 2 ≡ 0 = omega (arith, pow-suc 2 k) in ground arith
test_bit-pow (suc j) zero = ap (test_bit j) (omega arith) ∙ test_bit-zero j ∙ ground arith
test_bit-pow (suc j) (suc k) =
    ap (test_bit j) (omega (arith, pow-suc 2 k)) ∙ test_bit-pow j k ∙ ground arith

-- The mask of the n lowest digits.
pub test_bit-mask : (n k : ℕ) → test_bit k (2 ^ n - 1) ≡ ltb k n
unfolding test_bit
test_bit-mask zero k = test_bit-zero k ∙ ground arith
test_bit-mask (suc n) zero =
    let odd : (2 ^ suc n - 1) % 2 ≡ 1 = omega (arith, pow-suc 2 n, one-le-pow n 2) in ground arith
test_bit-mask (suc n) (suc k) =
    ap (test_bit k) (omega (arith, pow-suc 2 n, one-le-pow n 2)) ∙ test_bit-mask n k ∙ ground arith

-- ~x in n digits.
pub test_bit-complement :
    (n k x : ℕ) → x < 2 ^ n → k < n → test_bit k (2 ^ n - 1 - x) ≡ not (test_bit k x)
unfolding test_bit
test_bit-complement zero k x h l = absurd (omega arith)
test_bit-complement (suc n) zero x h l =
    let flip : (2 ^ suc n - 1 - x) % 2 + x % 2 ≡ 1 = omega (arith, pow-suc 2 n) in ground arith
test_bit-complement (suc n) (suc k) x h l =
    ap (test_bit k) (omega (arith, pow-suc 2 n))
    ∙ test_bit-complement n k (x / 2) (omega (arith, pow-suc 2 n)) (omega arith)

-- x & (2 ^ n - 1) is the remainder by 2 ^ n.
half_mask : (n : ℕ) → (2 ^ suc n - 1) / 2 ≡ 2 ^ n - 1
half_mask n = omega (arith, pow-suc 2 n, one-le-pow n 2)

mod-two_pow : (n a : ℕ) → a % 2 ^ suc n ≡ a / 2 % 2 ^ n * 2 + a % 2
mod-two_pow n a =
    let q = a / 2 / 2 ^ n in
    let r = a / 2 % 2 ^ n in
    let small : r < 2 ^ n = mod-lt (a / 2) (one-le-pow n 2 (omega arith)) in
    let whole : a ≡ r * 2 + a % 2 + q * 2 ^ suc n =
      omega
        (arith, div-add-mod (a / 2) (2 ^ n), pow-suc 2 n, ap (λ (t : ℕ). q * t) (pow-suc 2 n)) in
    ap (λ t. t % 2 ^ suc n) whole
    ∙ add-mul-mod_self_right (r * 2 + a % 2) q (2 ^ suc n)
    ∙ mod-eq_of_lt (omega (arith, small, pow-suc 2 n))

mask-digits : (fuel n a : ℕ) → a ≤ fuel → digits (λ b. zero) min fuel a (2 ^ n - 1) ≡ a % 2 ^ n
mask-digits zero n zero h = omega (arith, mod-eq_of_lt (one-le-pow n 2 (omega arith)))
mask-digits zero n (suc a) h = absurd (omega arith)
mask-digits (suc fuel) n zero h = omega (arith, mod-eq_of_lt (one-le-pow n 2 (omega arith)))
mask-digits (suc fuel) zero (suc a) h =
    omega (arith, mask-digits fuel zero (suc a / 2) (omega arith))
mask-digits (suc fuel) (suc n) (suc a) h = omega (
  arith,
  mod-two_pow n (suc a),
  pow-suc 2 n,
  one-le-pow n 2,
  ap (λ m. digits (λ b. zero) min fuel (suc a / 2) m) (half_mask n),
  mask-digits fuel n (suc a / 2) (omega arith),
)

pub bit_and-mask : (n a : ℕ) → bit_and a (2 ^ n - 1) ≡ a % 2 ^ n
bit_and-mask n a = (λ i. bit_and-bitwise a (2 ^ n - 1) i) ∙ mask-digits a n a (omega arith)

-- The operations on numbers of w digits have w digits.
module _ (z : ℕ → ℕ) (f : ℕ → ℕ → ℕ) (z-le : (b : ℕ) → z b ≤ b)
    (small : (x y : ℕ) → x < 2 → y < 2 → f x y < 2) where
  digits-lt : (w n a b : ℕ) → a < 2 ^ w → b < 2 ^ w → digits z f n a b < 2 ^ w
  digits-lt w zero a b h h' = omega (arith, z-le b)
  digits-lt w (suc n) zero b h h' = omega (arith, z-le b)
  digits-lt zero (suc n) (suc a) b h h' = absurd (omega arith)
  digits-lt (suc w) (suc n) (suc a) b h h' = omega (
    arith,
    pow-suc 2 w,
    small (suc a % 2) (b % 2) (omega arith) (omega arith),
    digits-lt w n (suc a / 2) (b / 2) (omega (arith, pow-suc 2 w)) (omega (arith, pow-suc 2 w)),
  )

pub bit_and-lt : (w a b : ℕ) → a < 2 ^ w → b < 2 ^ w → bit_and a b < 2 ^ w
bit_and-lt w a b h h' =
    subst (λ n. n < 2 ^ w) (sym (λ i. bit_and-bitwise a b i))
      (digits-lt (λ b. zero) min (λ b. omega arith) (λ x y h h'. omega arith) w a a b h h')

pub bit_or-lt : (w a b : ℕ) → a < 2 ^ w → b < 2 ^ w → bit_or a b < 2 ^ w
bit_or-lt w a b h h' =
    subst (λ n. n < 2 ^ w) (sym (λ i. bit_or-bitwise a b i))
      (digits-lt (λ b. b) max (λ b. omega arith) (λ x y h h'. omega arith) w a a b h h')

pub bit_xor-lt : (w a b : ℕ) → a < 2 ^ w → b < 2 ^ w → bit_xor a b < 2 ^ w
bit_xor-lt w a b h h' =
    subst (λ n. n < 2 ^ w) (sym (λ i. bit_xor-bitwise a b i))
      (digits-lt (λ b. b) differ (λ b. omega arith) (λ x y h h'. (differ-two x y h h').0) w a a b h
        h')

pub and-true : (b : Bool) → (b && true) ≡ b
and-true true = refl
and-true false = refl

pub and-false : (b : Bool) → (b && false) ≡ false
and-false true = refl
and-false false = refl

pub pow-lt-eight : (j : ℕ) → j < 8 → 2 ^ j < 256
pow-lt-eight j h =
    omega (arith, pow-le-pow_right {n = 2} (omega arith) {i = j} {j = 7} (omega arith))

-- The test that C writes (x & (1 << j)) != 0.
pub bit_and-pow_test : (x j : ℕ) → x < 256 → j < 8 → not (bit_and x (2 ^ j) == 0) ≡ test_bit j x
bit_and-pow_test x j hx hj =
    let digit : (k : ℕ) → test_bit k (bit_and x (2 ^ j)) ≡ (test_bit k x && (k == j)) =
      λ k. test_bit-bit_and k x (2 ^ j) ∙ ap (λ b. test_bit k x && b) (test_bit-pow k j) in
    elim (Bool-cases (test_bit j x)) [
      | inl yes_set ↦
          let nonzero : bit_and x (2 ^ j) ≢ 0 = λ e.
            let at_j = digit j in let none = ap (test_bit j) e ∙ test_bit-zero j in ground arith in
          ground arith
      | inr not_set ↦
          let zero_digits : bit_and x (2 ^ j) ≡ 0 =
            test_bit-ext 8 (bit_and x (2 ^ j)) 0 (bit_and-lt 8 x (2 ^ j) hx (pow-lt-eight j hj))
              (omega arith)
              (λ k h. digit k ∙ elim (ℕ_discrete k j) [
                | yes same ↦
                    subst (λ n. (test_bit n x && (n == j)) ≡ test_bit n 0) (sym same)
                      (rw (not_set, test_bit-zero j) refl)
                | no other ↦
                    let off : (k == j) ≡ false = ground arith in
                    rw (off, test_bit-zero k) (and-false (test_bit k x))
              ]) in
          ground arith
    ]
