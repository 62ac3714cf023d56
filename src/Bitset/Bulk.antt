-- ===== src/Bitset/Bulk.antt =====
-- The operations of src/bitset.c on every byte, against the bits that bitset_get reads.
use Prim.Native.Nat.{bit_and, bit_or, bit_xor}
use native.Mathlib.Decide.{dec_lt}
use libcp.Prelude.{
  ℕ, ◌+◌, ◌*◌, ◌/◌, ◌%◌, ◌<◌, ◌≡◌, refl, sym, ap, ◌∙◌, Bool, true, false, not, ◌&&◌, ◌||◌, arith,
  ltb, length, get_or, get_or_beyond,
}
use libcp.Bits.{
  xor, test_bit, test_bit-zero, test_bit-bit_and, test_bit-bit_or, test_bit-bit_xor,
  test_bit-complement, test_bit-mask, bit_and-lt, bit_or-lt, bit_xor-lt,
}
use libcp.Bitset.{
  Bitset, num_bytes, flip_byte, clear_unused_tail_bits, memset, each_byte, get, set_all, reset_all,
  flip_all, and_with, or_with, xor_with,
}
use libcp.Bitset.Bytes.{
  bit_of, IsStored, IsValid, num_bytes-exact, get-bit, bit-clear, clear-IsValid, length-memset,
  get_or-memset, length-each_byte, get_or-each_byte,
}

module _ (bs : Bitset) (valid : IsValid bs) where
  -- The bytes below num_bytes are all bytes of the buffer.
  all_bytes_length : num_bytes bs.size ≡ length bs.bits
  all_bytes_length = num_bytes-exact bs.size valid.stored.bounded ∙ sym valid.stored.storage

  memset_all :
      (byte i : ℕ)
      → i < length bs.bits
      → get_or (memset 0 (num_bytes bs.size) byte bs.bits) i 0 ≡ byte
  memset_all byte i h =
      ground (arith, all_bytes_length, get_or-memset 0 (num_bytes bs.size) byte bs.bits i)

  byte_index-lt : (k : ℕ) → k < bs.size → k / 8 < length bs.bits
  byte_index-lt k h = omega (arith, valid.stored.storage, h)

  filled-IsStored :
      (byte : ℕ)
      → byte < 256
      → IsStored (record bs { bits = memset 0 (num_bytes bs.size) byte bs.bits })
  filled-IsStored byte h = record {
    bounded = valid.stored.bounded;
    storage = length-memset 0 (num_bytes bs.size) byte bs.bits ∙ valid.stored.storage;
    bytes = λ i. ground (
      arith,
      all_bytes_length,
      get_or-memset 0 (num_bytes bs.size) byte bs.bits i,
      valid.stored.bytes i,
    );
  }

  pub set_all_correct : (k : ℕ) → k < bs.size → IsValid (set_all bs) × (get (set_all bs) k ≡ true)
  unfolding set_all
  set_all_correct k h =
      let filled = record bs { bits = memset 0 (num_bytes bs.size) 255 bs.bits } in
      let stored = filled-IsStored 255 (omega arith) in
      let after = clear-IsValid filled stored in
      let inside : ltb k bs.size ≡ true = ground arith in
      let low : ltb (k % 8) 8 ≡ true = ground arith in
      (
        after,
        get-bit (clear_unused_tail_bits filled) after.stored k
            ∙ bit-clear filled stored k
            ∙ rw (inside, memset_all 255 (k / 8) (byte_index-lt k h))
                (test_bit-mask 8 (k % 8) ∙ low),
      )

  reset_all-bit : (k : ℕ) → bit_of (reset_all bs).bits k ≡ false
  unfolding reset_all
  reset_all-bit k = elim (dec_lt (k / 8) (length bs.bits)) [
    | yes h ↦ rw (memset_all 0 (k / 8) h) (test_bit-zero (k % 8))
    | no h ↦
        ap (test_bit (k % 8)) (
          get_or_beyond (memset 0 (num_bytes bs.size) 0 bs.bits) (k / 8) 0
            (omega (arith, length-memset 0 (num_bytes bs.size) 0 bs.bits)))
        ∙ test_bit-zero (k % 8)
  ]

  pub reset_all-IsValid : IsValid (reset_all bs)
  unfolding reset_all
  reset_all-IsValid = record {
    stored = filled-IsStored 0 (omega arith);
    tail = λ k h. reset_all-bit k;
  }

  pub reset_all_correct : (k : ℕ) → IsValid (reset_all bs) × (get (reset_all bs) k ≡ false)
  reset_all_correct k =
      (reset_all-IsValid, get-bit (reset_all bs) reset_all-IsValid.stored k ∙ reset_all-bit k)

  -- A loop over all bytes that changes each bit by `g`, and the clearing of the tail.
  module _ (f : ℕ → ℕ → ℕ) (g : ℕ → Bool → Bool)
      (small : (i byte : ℕ) → byte < 256 → f i byte < 256)
      (each_bit : (i j byte : ℕ)
        → j < 8
        → byte < 256
        → test_bit j (f i byte) ≡ g (i * 8 + j) (test_bit j byte)) where
    looped : Bitset
    looped = record bs { bits = each_byte (num_bytes bs.size) 0 f bs.bits }

    looped-IsStored : IsStored looped
    unfolding looped
    looped-IsStored = record {
      bounded = valid.stored.bounded;
      storage = length-each_byte (num_bytes bs.size) 0 f bs.bits ∙ valid.stored.storage;
      bytes = λ i.
          let byte = get_or bs.bits i 0 in
          ground (
            arith,
            all_bytes_length,
            get_or-each_byte (num_bytes bs.size) 0 f bs.bits i,
            valid.stored.bytes i,
            small i byte,
          );
    }

    looped_lem :
        (k : ℕ)
        → k < bs.size
        → IsValid (clear_unused_tail_bits looped)
          × (get (clear_unused_tail_bits looped) k ≡ g k (get bs k))
    unfolding looped
    looped_lem k h =
        let after = clear-IsValid looped looped-IsStored in
        let inside : ltb k bs.size ≡ true = ground arith in
        let byte = get_or bs.bits (k / 8) 0 in
        let changed : get_or (each_byte (num_bytes bs.size) 0 f bs.bits) (k / 8) 0
            ≡ f (k / 8) byte =
          ground (
            arith,
            all_bytes_length,
            byte_index-lt k h,
            get_or-each_byte (num_bytes bs.size) 0 f bs.bits (k / 8),
          ) in
        let place : k / 8 * 8 + k % 8 ≡ k = omega arith in
        (
          after,
          get-bit (clear_unused_tail_bits looped) after.stored k
              ∙ bit-clear looped looped-IsStored k
              ∙ rw (inside, changed)
                  (each_bit (k / 8) (k % 8) byte (omega arith) (valid.stored.bytes (k / 8))
                    ∙ ap (λ n. g n (test_bit (k % 8) byte)) place
                    ∙ ap (g k) (sym (get-bit bs valid.stored k))),
        )

  pub flip_all_correct :
      (k : ℕ) → k < bs.size → IsValid (flip_all bs) × (get (flip_all bs) k ≡ not (get bs k))
  unfolding flip_all looped
  flip_all_correct =
      looped_lem (λ i byte. flip_byte byte) (λ k b. not b) (λ i byte h. omega arith)
        (λ i j byte h h'. test_bit-complement 8 j byte h' h)

  module _ (src : Bitset) (valid' : IsValid src) where
    -- A bit of the second operand, by the byte and the digit.
    src_bit : (i j : ℕ) → j < 8 → test_bit j (get_or src.bits i 0) ≡ get src (i * 8 + j)
    src_bit i j h =
        let byte : (i * 8 + j) / 8 ≡ i = omega arith in
        let digit : (i * 8 + j) % 8 ≡ j = omega arith in
        sym (get-bit src valid'.stored (i * 8 + j) ∙ rw (byte, digit) refl)

    pub and_with_correct :
        (k : ℕ)
        → k < bs.size
        → IsValid (and_with bs src) × (get (and_with bs src) k ≡ (get bs k && get src k))
    unfolding and_with looped
    and_with_correct =
        looped_lem (λ i byte. bit_and byte (get_or src.bits i 0)) (λ k b. b && get src k)
          (λ i byte h. bit_and-lt 8 byte (get_or src.bits i 0) h (valid'.stored.bytes i))
          (λ i j byte h h'.
            test_bit-bit_and j byte (get_or src.bits i 0)
            ∙ ap (λ b. test_bit j byte && b) (src_bit i j h))

    pub or_with_correct :
        (k : ℕ)
        → k < bs.size
        → IsValid (or_with bs src) × (get (or_with bs src) k ≡ (get bs k || get src k))
    unfolding or_with looped
    or_with_correct =
        looped_lem (λ i byte. bit_or byte (get_or src.bits i 0)) (λ k b. b || get src k)
          (λ i byte h. bit_or-lt 8 byte (get_or src.bits i 0) h (valid'.stored.bytes i))
          (λ i j byte h h'.
            test_bit-bit_or j byte (get_or src.bits i 0)
            ∙ ap (λ b. test_bit j byte || b) (src_bit i j h))

    pub xor_with_correct :
        (k : ℕ)
        → k < bs.size
        → IsValid (xor_with bs src) × (get (xor_with bs src) k ≡ xor (get bs k) (get src k))
    unfolding xor_with looped
    xor_with_correct =
        looped_lem (λ i byte. bit_xor byte (get_or src.bits i 0)) (λ k b. xor b (get src k))
          (λ i byte h. bit_xor-lt 8 byte (get_or src.bits i 0) h (valid'.stored.bytes i))
          (λ i j byte h h'.
            test_bit-bit_xor j byte (get_or src.bits i 0)
            ∙ ap (λ b. xor (test_bit j byte) b) (src_bit i j h))

    -- On valid sets of one size, at any position below it, the set that bitset_and, bitset_or,
    -- bitset_xor, bitset_flip_all, bitset_set_all or bitset_reset_all leaves is valid, and
    -- bitset_get reads there the conjunction, the disjunction or the exclusive or of the two bits,
    -- the negated bit, true or false.
    pub set_operations_correct :
        src.size ≡ bs.size
        → (k : ℕ) → k < bs.size
        → (IsValid (and_with bs src) × (get (and_with bs src) k ≡ (get bs k && get src k)))
          × (IsValid (or_with bs src) × (get (or_with bs src) k ≡ (get bs k || get src k)))
          × (IsValid (xor_with bs src) × (get (xor_with bs src) k ≡ xor (get bs k) (get src k)))
          × (IsValid (flip_all bs) × (get (flip_all bs) k ≡ not (get bs k)))
          × (IsValid (set_all bs) × (get (set_all bs) k ≡ true))
          × (IsValid (reset_all bs) × (get (reset_all bs) k ≡ false))
    set_operations_correct same_size k h = (
      and_with_correct k h,
      or_with_correct k h,
      xor_with_correct k h,
      flip_all_correct k h,
      set_all_correct k h,
      reset_all_correct k,
    )
