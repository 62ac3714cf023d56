-- ===== src/Bitset/Compare.antt =====
-- bitset_equal of src/bitset.c.
use native.Mathlib.Decide.{dec_lt}
use libcp.Prelude.{
  ℕ, zero, suc, ◌+◌, ◌*◌, ◌/◌, ◌%◌, ◌<◌, ◌≡◌, ◌↔◌, refl, sym, ap, ◌∙◌, true, List, arith, ◌==◌,
  get_or,
}
use libcp.Bits.{test_bit, test_bit-ext}
use libcp.Bitset.{Bitset, num_bytes, same_bytes, equal, get}
use libcp.Bitset.Bytes.{bit_of, IsValid, num_bytes-exact, get-bit}

same_bytes_sound :
    (n : ℕ) (xs ys : List ℕ) (i : ℕ)
    → same_bytes n xs ys ≡ true
    → i < n
    → get_or xs i 0 ≡ get_or ys i 0
unfolding same_bytes
same_bytes_sound zero xs ys i h l = absurd (omega arith)
same_bytes_sound (suc n) xs ys i h l = elim (dec_lt i n) [
  | yes less ↦ same_bytes_sound n xs ys i (ground arith) less
  | no last ↦
      let at_n : get_or xs n 0 ≡ get_or ys n 0 = ground arith in
      let same : i ≡ n = omega arith in rw same at_n
]

same_bytes_complete :
    (n : ℕ) (xs ys : List ℕ)
    → ((i : ℕ) → i < n → get_or xs i 0 ≡ get_or ys i 0)
    → same_bytes n xs ys ≡ true
unfolding same_bytes
same_bytes_complete zero xs ys h = refl
same_bytes_complete (suc n) xs ys h =
    let rest = same_bytes_complete n xs ys (λ i l. h i (omega arith)) in
    let last = h n (omega arith) in ground arith

-- Two sets have one size and the same bits.
abbrev pub SameBits : Bitset → Bitset → Type 0
SameBits a b = (a.size ≡ b.size) × ((k : ℕ) → k < a.size → get a k ≡ get b k)

module _ (a b : Bitset) (valid_a : IsValid a) (valid_b : IsValid b) where
  same_bit : SameBits a b → (k : ℕ) → bit_of a.bits k ≡ bit_of b.bits k
  same_bit (size, bits) k = elim (dec_lt k a.size) [
    | yes inside ↦ sym (get-bit a valid_a.stored k) ∙ bits k inside ∙ get-bit b valid_b.stored k
    | no outside ↦ valid_a.tail k (omega arith) ∙ sym (valid_b.tail k (omega (arith, size)))
  ]

  same_byte : SameBits a b → (i : ℕ) → get_or a.bits i 0 ≡ get_or b.bits i 0
  same_byte same i =
      test_bit-ext 8 (get_or a.bits i 0) (get_or b.bits i 0) (valid_a.stored.bytes i)
        (valid_b.stored.bytes i)
        (λ j h.
          let byte : (i * 8 + j) / 8 ≡ i = omega arith in
          let digit : (i * 8 + j) % 8 ≡ j = omega arith in
          rw (byte, digit) at (same_bit same (i * 8 + j)))

  equal_sound : equal a b ≡ true → SameBits a b
  unfolding equal
  equal_sound h =
      let size : a.size ≡ b.size = ground arith in
      let bytes : same_bytes (num_bytes a.size) a.bits b.bits ≡ true = ground arith in
      (
        size,
        λ k l.
            get-bit a valid_a.stored k
            ∙ ap (test_bit (k % 8)) (
                same_bytes_sound (num_bytes a.size) a.bits b.bits (k / 8) bytes
                  (omega (arith, num_bytes-exact a.size valid_a.stored.bounded)))
            ∙ sym (get-bit b valid_b.stored k),
      )

  -- For valid sets bitset_equal, which compares bytes, is true exactly when the sizes are the same
  -- and bitset_get reads the same bit at every position below the size.
  pub equal_iff : (equal a b ≡ true) ↔ SameBits a b
  unfolding equal
  equal_iff = (
    equal_sound,
    λ same.
        let size : (a.size == b.size) ≡ true = ground (arith, same.0) in
        rw size (same_bytes_complete (num_bytes a.size) a.bits b.bits (λ i h. same_byte same i)),
  )
