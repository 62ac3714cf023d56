-- ===== src/Bitset/Search.antt =====
-- bitset_count and bitset_find_from against the bits that bitset_get reads.
use Prim.Native.Nat.{bit_and}
use mathlib.Core.Path.{subst}
use native.Mathlib.Nat.{mod-eq_of_lt}
use native.Mathlib.Decide.{ℕ_discrete}
use libcp.Prelude.{
  ℕ, zero, suc, ◌+◌, ◌-◌, ◌*◌, ◌/◌, ◌%◌, ◌^◌, ◌≤◌, ◌<◌, ◌≡◌, ◌≢◌, refl, sym, ap, ◌∙◌, Bool, true,
  false, not, ◌&&◌, Option, none, some, List, arith, leb, ltb, ◌==◌, get_or, Bool-cases, inl, inr,
  ==_iff,
}
use libcp.Memory.{add_size, size_mod}
use libcp.Counting as Counting
use libcp.Bits.{
  xor, test_bit, test_bit-bit_and, test_bit-mask, bit_and-lt, pow-lt-eight, and-false, and-true,
}
use libcp.Bitset.{
  Bitset, num_bytes, popcount_byte, count_bytes, count, last_byte, scan, find_from, get,
}
use libcp.Bitset.Bytes.{bit_of, IsValid, num_bytes-exact, get-bit}

-- Checking a statement about bytes for each of them.
holds_below : ℕ → (ℕ → Bool) → Bool
holds_below zero p = true
holds_below (suc n) p = p n && holds_below n p

holds_below_sound : (n : ℕ) (p : ℕ → Bool) (x : ℕ) → holds_below n p ≡ true → x < n → p x ≡ true
unfolding holds_below
holds_below_sound zero p x h l = absurd (omega arith)
holds_below_sound (suc n) p x h l = elim (ℕ_discrete x n) [
  | yes same ↦ let at_n : p n ≡ true = ground arith in rw same at_n
  | no ne ↦ holds_below_sound n p x (ground arith) (omega arith)
]

popcount_table :
    holds_below 256 (λ b. popcount_byte 8 b == Counting.count 8 (λ j. test_bit j b)) ≡ true
unfolding holds_below popcount_byte test_bit
popcount_table = refl

popcount-count : (b : ℕ) → b < 256 → popcount_byte 8 b ≡ Counting.count 8 (λ j. test_bit j b)
popcount-count b h = (==_iff (popcount_byte 8 b) (Counting.count 8 (λ j. test_bit j b))).0 (
    holds_below_sound 256 (λ b. popcount_byte 8 b == Counting.count 8 (λ j. test_bit j b)) b
      popcount_table h)

-- The bits of byte `i` are those from 8 * i on.
count-byte :
    (bits : List ℕ) (i m : ℕ)
    → m ≤ 8
    → Counting.count (i * 8 + m) (bit_of bits)
      ≡ Counting.count (i * 8) (bit_of bits) + Counting.count m (λ j. test_bit j (get_or bits i 0))
count-byte bits i m h =
    Counting.count-add (i * 8) m (bit_of bits)
    ∙ ap (λ n. Counting.count (i * 8) (bit_of bits) + n)
        (Counting.count-ext m (λ j. bit_of bits (i * 8 + j)) (λ j. test_bit j (get_or bits i 0))
          (λ j l.
            let byte : (i * 8 + j) / 8 ≡ i = omega arith in
            let digit : (i * 8 + j) % 8 ≡ j = omega arith in rw (byte, digit) refl))

-- The loop over the full bytes.
count_bytes-count :
    (rounds i : ℕ) (bits : List ℕ)
    → ((j : ℕ) → get_or bits j 0 < 256)
    → (i + rounds) * 8 < size_mod
    → count_bytes rounds i bits (Counting.count (i * 8) (bit_of bits))
      ≡ Counting.count ((i + rounds) * 8) (bit_of bits)
unfolding count_bytes
count_bytes-count zero i bits bytes h = ap (λ n. Counting.count n (bit_of bits)) (omega arith)
count_bytes-count (suc rounds) i bits bytes h =
    let all_of = Counting.count-le (i * 8) (bit_of bits) in
    let byte = Counting.count-le 8 (λ j. test_bit j (get_or bits i 0)) in
    let pop = popcount-count (get_or bits i 0) (bytes i) in
    let next : add_size (Counting.count (i * 8) (bit_of bits)) (popcount_byte 8 (get_or bits i 0))
        ≡ Counting.count ((i + 1) * 8) (bit_of bits) =
      mod-eq_of_lt (omega (arith, all_of, byte, pop))
      ∙ ap (λ n. Counting.count (i * 8) (bit_of bits) + n) pop
      ∙ sym (count-byte bits i 8 (omega arith))
      ∙ ap (λ n. Counting.count n (bit_of bits)) (omega arith) in
    ap (count_bytes rounds (i + 1) bits) next
    ∙ count_bytes-count rounds (i + 1) bits bytes (omega arith)
    ∙ ap (λ n. Counting.count n (bit_of bits)) (omega arith)

module _ (bs : Bitset) (valid : IsValid bs) where
  -- The last byte, when it is not full.
  count_last :
      bs.size % 8 ≢ 0
      → popcount_byte 8 (last_byte bs)
        ≡ Counting.count (bs.size % 8) (λ j. test_bit j (get_or bs.bits (bs.size / 8) 0))
  count_last ne =
      let u = bs.size % 8 in
      let partial : (bs.size % 8 == 0) ≡ false = ground arith in
      let last : num_bytes bs.size - 1 ≡ bs.size / 8 =
        omega (arith, num_bytes-exact bs.size valid.stored.bounded, ne) in
      let byte = get_or bs.bits (bs.size / 8) 0 in
      let mask : last_byte bs ≡ bit_and byte (2 ^ u - 1) = rw (partial, last) refl in
      let digit : (j : ℕ) → test_bit j (bit_and byte (2 ^ u - 1)) ≡ (test_bit j byte && ltb j u) =
        λ j.
          test_bit-bit_and j byte (2 ^ u - 1)
          ∙ ap (λ b. test_bit j byte && b) (test_bit-mask u j) in
      let parts : u + (8 - u) ≡ 8 = omega arith in
      ap (popcount_byte 8) mask
      ∙ popcount-count (bit_and byte (2 ^ u - 1)) (
          bit_and-lt 8 byte (2 ^ u - 1) (valid.stored.bytes (bs.size / 8))
            (omega (arith, pow-lt-eight u (omega arith))))
      ∙ ap (λ n. Counting.count n (λ j. test_bit j (bit_and byte (2 ^ u - 1)))) (sym parts)
      ∙ Counting.count-add u (8 - u) (λ j. test_bit j (bit_and byte (2 ^ u - 1)))
      ∙ omega (
        arith,
        Counting.count-ext u (λ j. test_bit j (bit_and byte (2 ^ u - 1))) (λ j. test_bit j byte)
            (λ j h.
              let low : ltb j u ≡ true = ground arith in
              digit j ∙ rw low (and-true (test_bit j byte))),
        Counting.count-none (8 - u) (λ j. test_bit (u + j) (bit_and byte (2 ^ u - 1)))
            (λ j h.
              let high : ltb (u + j) u ≡ false = ground arith in
              digit (u + j) ∙ rw high (and-false (test_bit (u + j) byte))),
      )

  count_full :
      count_bytes (bs.size / 8) 0 bs.bits 0 ≡ Counting.count (bs.size / 8 * 8) (bit_of bs.bits)
  count_full =
      count_bytes-count (bs.size / 8) 0 bs.bits valid.stored.bytes
        (omega (arith, valid.stored.bounded))
      ∙ ap (λ n. Counting.count (n * 8) (bit_of bs.bits)) (omega arith)

  count-bits : count bs ≡ Counting.count bs.size (bit_of bs.bits)
  unfolding count
  count-bits =
      let n = num_bytes-exact bs.size valid.stored.bounded in
      elim (ℕ_discrete (bs.size % 8) 0) [
        | yes whole ↦
            let full : (num_bytes bs.size == bs.size / 8) ≡ true = ground arith in
            rw full (count_full ∙ ap (λ n. Counting.count n (bit_of bs.bits)) (omega arith))
        | no ne ↦
            let part : (num_bytes bs.size == bs.size / 8) ≡ false = ground arith in
            let total = count-byte bs.bits (bs.size / 8) (bs.size % 8) (omega arith) in
            let whole : bs.size / 8 * 8 + bs.size % 8 ≡ bs.size = omega arith in
            let most = Counting.count-le (bs.size / 8 * 8 + bs.size % 8) (bit_of bs.bits) in
            let sum : count_bytes (bs.size / 8) 0 bs.bits 0 + popcount_byte 8 (last_byte bs)
                ≡ Counting.count (bs.size / 8 * 8 + bs.size % 8) (bit_of bs.bits) =
              omega (arith, count_full, count_last ne, total) in
            rw part (
              mod-eq_of_lt (omega (arith, sum, most, whole, valid.stored.bounded))
              ∙ sum
              ∙ ap (λ n. Counting.count n (bit_of bs.bits)) whole)
      ]

  -- On a valid set bitset_count, which counts byte by byte, is the number of positions below the
  -- size at which bitset_get reads true.
  pub count_correct : count bs ≡ Counting.count bs.size (get bs)
  count_correct =
      count-bits
      ∙ Counting.count-ext bs.size (bit_of bs.bits) (get bs)
          (λ k h. sym (get-bit bs valid.stored k))

-- Where a search ends: at the first place with the value, or past the last place without it.
abbrev pub Found : Bitset → ℕ → Bool → Option ℕ → Type 0
Found bs start value (some i) =
    (start ≤ i)
    × (i < bs.size)
    × (get bs i ≡ value)
    × ((j : ℕ) → start ≤ j → j < i → get bs j ≢ value)
Found bs start value none = (j : ℕ) → start ≤ j → j < bs.size → get bs j ≢ value

xor-same : (b value : Bool) → not (xor b value) ≡ true → b ≡ value
xor-same true true h = refl
xor-same true false h = cc
xor-same false true h = cc
xor-same false false h = refl

xor-other : (b value : Bool) → not (xor b value) ≡ false → b ≢ value
xor-other true true h e = cc
xor-other true false h e = cc
xor-other false true h e = cc
xor-other false false h e = cc

scan-hit :
    (rounds : ℕ) (bs : Bitset) (i : ℕ) (value : Bool)
    → not (xor (get bs i) value) ≡ true
    → some i ≡ scan (suc rounds) bs i value
unfolding scan
scan-hit rounds bs i value h = ground arith

scan-miss :
    (rounds : ℕ) (bs : Bitset) (i : ℕ) (value : Bool)
    → not (xor (get bs i) value) ≡ false
    → scan rounds bs (i + 1) value ≡ scan (suc rounds) bs i value
unfolding scan
scan-miss rounds bs i value h = ground arith

scan-Found :
    (rounds : ℕ) (bs : Bitset) (start i : ℕ) (value : Bool)
    → start ≤ i
    → i + rounds ≡ bs.size
    → ((j : ℕ) → start ≤ j → j < i → get bs j ≢ value)
    → Found bs start value (scan rounds bs i value)
unfolding scan
scan-Found zero bs start i value h n before = λ j a b. before j a (omega arith)
scan-Found (suc rounds) bs start i value h n before =
    elim (Bool-cases (not (xor (get bs i) value))) [
      | inl hit ↦
          subst (Found bs start value) (scan-hit rounds bs i value hit)
            (h, omega arith, xor-same (get bs i) value hit, before)
      | inr miss ↦ subst (Found bs start value) (scan-miss rounds bs i value miss) (
          scan-Found rounds bs start (i + 1) value (omega arith) (omega arith) (λ j a b.
            elim (ℕ_discrete j i) [
              | yes same ↦ rw same (xor-other (get bs i) value miss)
              | no ne ↦ before j a (omega (arith, ne))
            ]))
    ]

-- The search behind bitset_find_first_set and its kin ends at the first position from the start on
-- and below the size at which bitset_get reads the value, and finds nothing only when there is
-- none.
pub find_from_correct :
    (bs : Bitset) (start : ℕ) (value : Bool) → Found bs start value (find_from bs start value)
unfolding find_from
find_from_correct bs start value = elim (Bool-cases (leb bs.size start)) [
  | inl past ↦ rw past (λ j a b. absurd (ground (arith, a, b)))
  | inr inside ↦ rw inside (
      scan-Found (bs.size - start) bs start start value (omega arith) (ground arith)
        (λ j a b. absurd (omega arith)))
]
