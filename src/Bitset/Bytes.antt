-- ===== src/Bitset/Bytes.antt =====
-- What a bitset of src/bitset.c stands for, the loops over its bytes, and the tail of the last byte.
use Prim.Native.Nat.{bit_and}
use native.Mathlib.Nat.{mod-eq_of_lt}
use native.Mathlib.Decide.{ℕ_discrete, dec_lt}
use libcp.Prelude.{
  ℕ, zero, suc, ◌+◌, ◌-◌, ◌/◌, ◌%◌, ◌≤◌, ◌<◌, ◌≡◌, ◌≢◌, refl, sym, ap, ◌∙◌, Bool, true, false, ◌&&◌,
  ◌||◌, List, arith, leb, ltb, ◌==◌, if◌then◌else◌, length, length-set, get_or, set, get_or-set,
  get_or-set_other, get_or_beyond, Bool-cases, inl, inr,
}
use libcp.Memory.{add_size, size_mod}
use libcp.Bits.{
  test_bit, test_bit-zero, test_bit-bit_and, test_bit-mask, bit_and-lt, bit_and-pow_test,
  pow-lt-eight,
}
use libcp.Bitset.{Bitset, num_bytes, clear_unused_tail_bits, last_byte_mask, memset, each_byte, get}

-- The bit at a position of a buffer of bytes.
abbrev pub bit_of : List ℕ → ℕ → Bool
bit_of bits k = test_bit (k % 8) (get_or bits (k / 8) 0)

-- A buffer of the right length for its size.
pub record IsStored (bs : Bitset) : Type 0 where
  pub bounded : bs.size + 7 < size_mod
  pub storage : length bs.bits ≡ (bs.size + 7) / 8
  pub bytes : (i : ℕ) → get_or bs.bits i 0 < 256

-- The bits beyond the size are 0.
pub record IsValid (bs : Bitset) : Type 0 where
  pub stored : IsStored bs
  pub tail : (k : ℕ) → bs.size ≤ k → bit_of bs.bits k ≡ false

pub num_bytes-exact : (n : ℕ) → n + 7 < size_mod → num_bytes n ≡ (n + 7) / 8
unfolding num_bytes
num_bytes-exact n h = let exact : add_size n 7 ≡ n + 7 = mod-eq_of_lt h in ground arith

and_comm : (a b : Bool) → (a && b) ≡ (b && a)
and_comm true true = refl
and_comm true false = refl
and_comm false true = refl
and_comm false false = refl

module _ (bs : Bitset) (stored : IsStored bs) where
  pub bit_beyond : (k : ℕ) → (bs.size + 7) / 8 ≤ k / 8 → bit_of bs.bits k ≡ false
  bit_beyond k h =
      ap (test_bit (k % 8)) (get_or_beyond bs.bits (k / 8) 0 (omega (arith, stored.storage)))
      ∙ test_bit-zero (k % 8)

  pub get-bit : (k : ℕ) → get bs k ≡ bit_of bs.bits k
  unfolding get
  get-bit k =
      bit_and-pow_test (get_or bs.bits (k / 8) 0) (k % 8) (stored.bytes (k / 8)) (omega arith)

  -- The byte that holds the last bits, with the mask.
  masked :
      (k : ℕ)
      → bs.size % 8 ≢ 0
      → k / 8 ≡ bs.size / 8
      → test_bit (k % 8) (bit_and (get_or bs.bits (k / 8) 0) (last_byte_mask bs.size))
        ≡ (ltb k bs.size && bit_of bs.bits k)
  masked k ne same =
      let partial : (bs.size % 8 == 0) ≡ false = ground arith in
      let below : ltb (k % 8) (bs.size % 8) ≡ ltb k bs.size = ground arith in
      test_bit-bit_and (k % 8) (get_or bs.bits (k / 8) 0) (last_byte_mask bs.size)
      ∙ and_comm (bit_of bs.bits k) (test_bit (k % 8) (last_byte_mask bs.size))
      ∙ ap (λ b. b && bit_of bs.bits k) (rw partial (test_bit-mask (bs.size % 8) (k % 8) ∙ below))

  last_byte_mask-lt : last_byte_mask bs.size < 256
  last_byte_mask-lt = ground (arith, pow-lt-eight (bs.size % 8))

  -- Clearing the tail keeps the bits below the size and makes the others 0.
  pub bit-clear :
      (k : ℕ) → bit_of (clear_unused_tail_bits bs).bits k ≡ (ltb k bs.size && bit_of bs.bits k)
  unfolding clear_unused_tail_bits
  bit-clear k =
      let n = num_bytes-exact bs.size stored.bounded in
      elim (Bool-cases (num_bytes bs.size == 0 || bs.size % 8 == 0)) [
        | inl whole ↦ rw whole (elim (dec_lt k bs.size) [
          | yes h ↦ let inside : ltb k bs.size ≡ true = ground arith in rw inside refl
          | no h ↦
              let outside : ltb k bs.size ≡ false = ground arith in
              rw outside (bit_beyond k (ground arith))
        ])
        | inr partial ↦
            let ne : bs.size % 8 ≢ 0 = ground arith in
            let last : num_bytes bs.size - 1 ≡ bs.size / 8 = ground arith in
            let here : bs.size / 8 < length bs.bits = omega (arith, stored.storage, ne) in
            rw (partial, last)
              (elim (ℕ_discrete (k / 8) (bs.size / 8)) [
                | yes same ↦
                    ap (test_bit (k % 8)) (
                      ground (
                        arith,
                        get_or-set bs.bits (bs.size / 8) (k / 8)
                            (bit_and (get_or bs.bits (bs.size / 8) 0) (last_byte_mask bs.size)) 0,
                      ))
                    ∙ masked k ne same
                | no other ↦
                    ap (test_bit (k % 8))
                      (get_or-set_other bs.bits (bs.size / 8) (k / 8) _ 0 (λ s. other (sym s)))
                    ∙ elim (dec_lt k bs.size) [
                      | yes h ↦ let inside : ltb k bs.size ≡ true = ground arith in rw inside refl
                      | no h ↦
                          let outside : ltb k bs.size ≡ false = ground arith in
                          rw outside (bit_beyond k (omega (arith, other)))
                    ]
              ])
      ]

  bytes-set : (i v : ℕ) → v < 256 → (j : ℕ) → get_or (set bs.bits i v) j 0 < 256
  bytes-set i v h j = elim (ℕ_discrete i j) [
    | yes same ↦ elim (dec_lt i (length bs.bits)) [
      | yes inside ↦ ground (arith, get_or-set bs.bits i j v 0)
      | no outside ↦ ground (arith, get_or_beyond (set bs.bits i v) j 0, length-set bs.bits i v)
    ]
    | no ne ↦ rw (get_or-set_other bs.bits i j v 0 ne) (stored.bytes j)
  ]

  -- A byte replaced by another leaves the buffer stored.
  pub set-IsStored : (i v : ℕ) → v < 256 → IsStored (record bs { bits = set bs.bits i v })
  set-IsStored i v h = record {
    bounded = stored.bounded;
    storage = length-set bs.bits i v ∙ stored.storage;
    bytes = bytes-set i v h;
  }

  pub size-clear : (clear_unused_tail_bits bs).size ≡ bs.size
  unfolding clear_unused_tail_bits
  size-clear = ground arith

  clear-IsStored : IsStored (clear_unused_tail_bits bs)
  unfolding clear_unused_tail_bits
  clear-IsStored = elim (Bool-cases (num_bytes bs.size == 0 || bs.size % 8 == 0)) [
    | inl whole ↦ rw whole stored
    | inr partial ↦ rw partial (
        set-IsStored (num_bytes bs.size - 1)
          (bit_and (get_or bs.bits (num_bytes bs.size - 1) 0) (last_byte_mask bs.size))
          (bit_and-lt 8 (get_or bs.bits (num_bytes bs.size - 1) 0) (last_byte_mask bs.size)
            (stored.bytes (num_bytes bs.size - 1)) last_byte_mask-lt))
  ]

  pub clear-IsValid : IsValid (clear_unused_tail_bits bs)
  clear-IsValid = record {
    stored = clear-IsStored;
    tail = λ k h.
        let outside : ltb k bs.size ≡ false = ground (arith, size-clear) in
        bit-clear k ∙ ap (λ b. b && bit_of bs.bits k) outside;
  }

-- memset writes the byte to `count` places from `start` on.
pub length-memset :
    (start count byte : ℕ) (bits : List ℕ) → length (memset start count byte bits) ≡ length bits
unfolding memset
length-memset start zero byte bits = refl
length-memset start (suc count) byte bits =
    length-memset (start + 1) count byte (set bits start byte) ∙ length-set bits start byte

pub get_or-memset :
    (start count byte : ℕ) (bits : List ℕ) (i : ℕ)
    → start + count ≤ length bits
    → get_or (memset start count byte bits) i 0
      ≡ (if leb start i && ltb i (start + count) then byte else get_or bits i 0)
unfolding memset
get_or-memset start zero byte bits i h = ground arith
get_or-memset start (suc count) byte bits i h =
    get_or-memset (start + 1) count byte (set bits start byte) i
      (omega (arith, h, length-set bits start byte))
    ∙ ground (arith, get_or-set bits start i byte 0)

-- The loops that change each byte.
pub length-each_byte :
    (rounds i : ℕ) (f : ℕ → ℕ → ℕ) (bits : List ℕ)
    → length (each_byte rounds i f bits) ≡ length bits
unfolding each_byte
length-each_byte zero i f bits = refl
length-each_byte (suc rounds) i f bits =
    length-each_byte rounds (i + 1) f (set bits i (f i (get_or bits i 0)))
    ∙ length-set bits i (f i (get_or bits i 0))

pub get_or-each_byte :
    (rounds i : ℕ) (f : ℕ → ℕ → ℕ) (bits : List ℕ) (j : ℕ)
    → i + rounds ≤ length bits
    → get_or (each_byte rounds i f bits) j 0
      ≡ (if leb i j && ltb j (i + rounds) then f j (get_or bits j 0) else get_or bits j 0)
unfolding each_byte
get_or-each_byte zero i f bits j h = ground arith
get_or-each_byte (suc rounds) i f bits j h =
    let v = f i (get_or bits i 0) in
    get_or-each_byte rounds (i + 1) f (set bits i v) j (omega (arith, h, length-set bits i v))
    ∙ elim (ℕ_discrete i j) [
      | yes same ↦
          let now : get_or (set bits i v) j 0 ≡ v = ground (arith, get_or-set bits i j v 0) in
          let there : f j (get_or bits j 0) ≡ v = ap (λ n. f n (get_or bits n 0)) (sym same) in
          ground arith
      | no ne ↦
          let kept : get_or (set bits i v) j 0 ≡ get_or bits j 0 =
            get_or-set_other bits i j v 0 ne in
          rw kept (ground arith)
    ]
