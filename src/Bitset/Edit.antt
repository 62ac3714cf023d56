-- ===== src/Bitset/Edit.antt =====
-- The operations of src/bitset.c on one bit and on all bits, against the bits that bitset_get reads.
use Prim.Native.Nat.{bit_and, bit_or, bit_xor}
use native.Mathlib.Decide.{ℕ_discrete}
use libcp.Prelude.{
  ℕ, ◌/◌, ◌%◌, ◌<◌, ◌≡◌, refl, sym, ap, ◌∙◌, Bool, true, false, not, arith, ◌==◌, if◌then◌else◌,
  length, get_or, get_or-set, get_or-set_other,
}
use libcp.Bits.{
  test_bit, test_bit-bit_and, test_bit-bit_or, test_bit-bit_xor, test_bit-pow, test_bit-complement,
  bit_and-lt, bit_or-lt, bit_xor-lt, pow-lt-eight,
}
use libcp.Bitset.{Bitset, bit_mask, flip_byte, at_byte, get, assign, reset, flip}
use libcp.Bitset.Bytes.{bit_of, IsValid, get-bit, set-IsStored}

module _ (bs : Bitset) (valid : IsValid bs) (pos : ℕ) (inside : pos < bs.size) where
  -- A write to one byte.
  bit-at_byte :
      (f : ℕ → ℕ) (k : ℕ)
      → bit_of (at_byte bs pos f).bits k ≡ (
          if k / 8 == pos / 8
          then test_bit (k % 8) (f (get_or bs.bits (pos / 8) 0))
          else bit_of bs.bits k)
  bit-at_byte f k =
      let here : pos / 8 < length bs.bits = omega (arith, valid.stored.storage, inside) in
      let v = f (get_or bs.bits (pos / 8) 0) in
      elim (ℕ_discrete (k / 8) (pos / 8)) [
        | yes same ↦
            let one : (k / 8 == pos / 8) ≡ true = ground arith in
            rw one
              (ap (test_bit (k % 8)) (ground (arith, get_or-set bs.bits (pos / 8) (k / 8) v 0)))
        | no ne ↦
            let other : (k / 8 == pos / 8) ≡ false = ground arith in
            rw other (
              ap (test_bit (k % 8))
                (get_or-set_other bs.bits (pos / 8) (k / 8) v 0 (λ s. ne (sym s))))
      ]

  module _ (f : ℕ → ℕ) (g : Bool → Bool) (small : (byte : ℕ) → byte < 256 → f byte < 256)
      (one_bit : (j byte : ℕ)
        → j < 8
        → byte < 256
        → test_bit j (f byte)
          ≡ (if j == pos % 8 then g (test_bit j byte) else test_bit j byte)) where
    -- A change of one bit in its byte is a change of one bit in the set.
    bit-touched :
        (k : ℕ)
        → bit_of (at_byte bs pos f).bits k
          ≡ (if k == pos then g (bit_of bs.bits pos) else bit_of bs.bits k)
    bit-touched k =
        let byte = get_or bs.bits (pos / 8) 0 in
        let changed = one_bit (k % 8) byte (omega arith) (valid.stored.bytes (pos / 8)) in
        bit-at_byte f k ∙ elim (ℕ_discrete (k / 8) (pos / 8)) [
          | yes same ↦
              let one : (k / 8 == pos / 8) ≡ true = ground arith in
              let byte_k : get_or bs.bits (k / 8) 0 ≡ byte = ap (λ i. get_or bs.bits i 0) same in
              elim (ℕ_discrete (k % 8) (pos % 8)) [
                | yes digit ↦
                    let all_same : k ≡ pos = omega (arith, same, digit) in
                    let is_pos : (k == pos) ≡ true = ground arith in
                    let is_digit : (k % 8 == pos % 8) ≡ true = ground arith in
                    rw (one, is_pos) (changed ∙ rw is_digit (ap (λ d. g (test_bit d byte)) digit))
                | no ne ↦
                    let not_pos : (k == pos) ≡ false = ground arith in
                    let not_digit : (k % 8 == pos % 8) ≡ false = ground arith in
                    rw (one, not_pos) (changed ∙ rw not_digit (ap (test_bit (k % 8)) (sym byte_k)))
              ]
          | no ne ↦
              let other : (k / 8 == pos / 8) ≡ false = ground arith in
              let not_pos : (k == pos) ≡ false = ground arith in rw (other, not_pos) refl
        ]

    touched-IsValid : IsValid (at_byte bs pos f)
    touched-IsValid = record {
      stored =
          set-IsStored bs valid.stored (pos / 8) (f (get_or bs.bits (pos / 8) 0))
            (small (get_or bs.bits (pos / 8) 0) (valid.stored.bytes (pos / 8)));
      tail = λ k h.
          let not_pos : (k == pos) ≡ false = ground arith in
          bit-touched k ∙ rw not_pos (valid.tail k h);
    }

    touched_lem :
        (k : ℕ)
        → IsValid (at_byte bs pos f)
          × (get (at_byte bs pos f) k ≡ (if k == pos then g (get bs pos) else get bs k))
    touched_lem k = (
      touched-IsValid,
      get-bit (at_byte bs pos f) touched-IsValid.stored k
          ∙ bit-touched k
          ∙ rw (get-bit bs valid.stored pos, get-bit bs valid.stored k) refl,
    )

  or_mask-bit :
      (j byte : ℕ)
      → j < 8
      → byte < 256
      → test_bit j (bit_or byte (bit_mask pos)) ≡ (if j == pos % 8 then true else test_bit j byte)
  or_mask-bit j byte h h' =
      ground (arith, test_bit-bit_or j byte (bit_mask pos), test_bit-pow j (pos % 8))

  and_mask-bit :
      (j byte : ℕ)
      → j < 8
      → byte < 256
      → test_bit j (bit_and byte (flip_byte (bit_mask pos)))
        ≡ (if j == pos % 8 then false else test_bit j byte)
  and_mask-bit j byte h h' = ground (
    arith,
    test_bit-bit_and j byte (flip_byte (bit_mask pos)),
    test_bit-complement 8 j (bit_mask pos) (pow-lt-eight (pos % 8) (omega arith)) h,
    test_bit-pow j (pos % 8),
  )

  xor_mask-bit :
      (j byte : ℕ)
      → j < 8
      → byte < 256
      → test_bit j (bit_xor byte (bit_mask pos))
        ≡ (if j == pos % 8 then not (test_bit j byte) else test_bit j byte)
  xor_mask-bit j byte h h' =
      ground (arith, test_bit-bit_xor j byte (bit_mask pos), test_bit-pow j (pos % 8))

  mask-lt : bit_mask pos < 256
  mask-lt = pow-lt-eight (pos % 8) (omega arith)

  reset_parts :
      (k : ℕ)
      → IsValid (reset bs pos) × (get (reset bs pos) k ≡ (if k == pos then false else get bs k))
  unfolding reset
  reset_parts =
      touched_lem (λ byte. bit_and byte (flip_byte (bit_mask pos))) (λ b. false)
        (λ byte h. bit_and-lt 8 byte (flip_byte (bit_mask pos)) h (omega arith)) and_mask-bit

  pub assign_bit_correct :
      (value : Bool) (k : ℕ)
      → IsValid (assign bs pos value)
        × (get (assign bs pos value) k ≡ (if k == pos then value else get bs k))
  unfolding assign reset
  assign_bit_correct true =
      touched_lem (λ byte. bit_or byte (bit_mask pos)) (λ b. true)
        (λ byte h. bit_or-lt 8 byte (bit_mask pos) h mask-lt) or_mask-bit
  assign_bit_correct false = reset_parts

  pub flip_bit_correct :
      (k : ℕ)
      → IsValid (flip bs pos)
        × (get (flip bs pos) k ≡ (if k == pos then not (get bs pos) else get bs k))
  unfolding flip
  flip_bit_correct =
      touched_lem (λ byte. bit_xor byte (bit_mask pos)) not
        (λ byte h. bit_xor-lt 8 byte (bit_mask pos) h mask-lt) xor_mask-bit

  -- On a valid set and a position below the size, bitset_set, bitset_reset and bitset_flip leave a
  -- valid set in which bitset_get reads the value, false or the negated bit at that position and
  -- the old bit at any other.
  pub bit_edits_correct :
      (value : Bool) (k : ℕ)
      → (IsValid (assign bs pos value)
          × (get (assign bs pos value) k ≡ (if k == pos then value else get bs k)))
        × (IsValid (reset bs pos) × (get (reset bs pos) k ≡ (if k == pos then false else get bs k)))
        × (IsValid (flip bs pos)
            × (get (flip bs pos) k ≡ (if k == pos then not (get bs pos) else get bs k)))
  bit_edits_correct value k = (assign_bit_correct value k, reset_parts k, flip_bit_correct k)
