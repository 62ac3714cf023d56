-- ===== src/Bitset/Create.antt =====
-- bitset_resize, bitset_init and bitset_copy.
use native.Mathlib.Decide.{dec_lt}
use libcp.Prelude.{
  ℕ, zero, suc, ◌+◌, ◌-◌, ◌/◌, ◌%◌, ◌≤◌, ◌<◌, ◌≡◌, ◌⊎◌, refl, sym, ap, ◌∙◌, true, false, ◌||◌, List,
  [], ◌∷◌, arith, ltb, ◌==◌, if◌then◌else◌, length, get_or, get_or_beyond, resize, length-resize,
  get_or-resize, Bool-cases, inl, inr,
}
use libcp.Memory.{Env, World, done, failed, malloc, memcpy, memcpy-whole, add_size, size_mod}
use libcp.Bits.{test_bit-zero}
use libcp.Bitset.{
  byte_index, Bitset, num_bytes, clear_unused_tail_bits, memset, resize_to, copy, get,
}
use libcp.Bitset.Bytes.{
  IsStored, IsValid, num_bytes-exact, get-bit, bit-clear, size-clear, clear-IsValid, length-memset,
  get_or-memset,
}

get_or-default : (xs : List ℕ) (i d d' : ℕ) → i < length xs → get_or xs i d ≡ get_or xs i d'
get_or-default [] i d d' h = absurd (omega arith)
get_or-default (x ∷ xs) zero d d' h = refl
get_or-default (x ∷ xs) (suc i) d d' h = get_or-default xs i d d' (omega arith)

module _ (e : Env ℕ) (bs : Bitset) (valid : IsValid bs) (n : ℕ) (fits : n + 7 < size_mod) where
  -- The buffer after realloc and memset.
  grown : List ℕ
  grown =
      let bytes = resize e.junk (num_bytes n) bs.bits in
      if ltb (num_bytes bs.size) (num_bytes n)
      then memset (num_bytes bs.size) (num_bytes n - num_bytes bs.size) 0 bytes
      else bytes

  old_length : num_bytes bs.size ≡ length bs.bits
  old_length = num_bytes-exact bs.size valid.stored.bounded ∙ sym valid.stored.storage

  kept :
      (i : ℕ)
      → i < num_bytes n
      → i < length bs.bits
      → get_or (resize e.junk (num_bytes n) bs.bits) i 0 ≡ get_or bs.bits i 0
  kept i h l =
      get_or-default (resize e.junk (num_bytes n) bs.bits) i 0 e.junk
        (omega (arith, h, length-resize e.junk (num_bytes n) bs.bits))
      ∙ get_or-resize e.junk (num_bytes n) bs.bits i h
      ∙ get_or-default bs.bits i e.junk 0 l

  grown-byte : (i : ℕ) → i < num_bytes n → get_or grown i 0 ≡ get_or bs.bits i 0
  unfolding grown
  grown-byte i h =
      let long = length-resize e.junk (num_bytes n) bs.bits in
      let written =
        get_or-memset (num_bytes bs.size) (num_bytes n - num_bytes bs.size) 0
          (resize e.junk (num_bytes n) bs.bits) i in
      elim (dec_lt i (length bs.bits)) [
        | yes old ↦
            let same = kept i h old in
            elim (Bool-cases (ltb (num_bytes bs.size) (num_bytes n))) [
              | inl more ↦ rw more (written (ground arith) ∙ ground (arith, old_length))
              | inr less ↦ rw less same
            ]
        | no new ↦
            let beyond = get_or_beyond bs.bits i 0 (omega (arith, new)) in
            let more : ltb (num_bytes bs.size) (num_bytes n) ≡ true = ground (arith, old_length) in
            rw more (written (ground arith) ∙ ground (arith, old_length))
      ]

  length-grown : length grown ≡ num_bytes n
  unfolding grown
  length-grown = ground (
    arith,
    length-resize e.junk (num_bytes n) bs.bits,
    length-memset (num_bytes bs.size) (num_bytes n - num_bytes bs.size) 0
        (resize e.junk (num_bytes n) bs.bits),
  )

  grown-IsStored : IsStored (record { size = n; bits = grown })
  grown-IsStored = record {
    bounded = fits;
    storage = length-grown ∙ num_bytes-exact n fits;
    bytes = λ i. elim (dec_lt i (num_bytes n)) [
      | yes h ↦ rw (grown-byte i h) (valid.stored.bytes i)
      | no h ↦ rw (get_or_beyond grown i 0 (omega (arith, length-grown, h))) (omega arith)
    ];
  }

  -- What a valid set of `n` bits has that keeps the bits of `bs` below and has 0 above.
  pub Resized : Bitset → Type 0
  Resized r =
      (r.size ≡ n)
      × IsValid r
      × ((k : ℕ) → k < n → get r k ≡ (if ltb k bs.size then get bs k else false))

  stored-Resized :
      (bits : List ℕ)
      → IsStored (record { size = n; bits = bits })
      → ((i : ℕ) → i < num_bytes n → get_or bits i 0 ≡ get_or bs.bits i 0)
      → Resized (clear_unused_tail_bits (record { size = n; bits = bits }))
  unfolding Resized
  stored-Resized bits stored same =
      let raw : Bitset = record { size = n; bits = bits } in
      let after = clear-IsValid raw stored in
      (
        size-clear raw stored,
        after,
        λ k h.
            let inside : ltb k n ≡ true = ground arith in
            let byte = same (k / 8) (omega (arith, h, num_bytes-exact n fits)) in
            get-bit (clear_unused_tail_bits raw) after.stored k
            ∙ bit-clear raw stored k
            ∙ rw (inside, byte)
                (elim (dec_lt k bs.size) [
                  | yes low ↦
                      let below : ltb k bs.size ≡ true = ground arith in
                      rw below (sym (get-bit bs valid.stored k))
                  | no high ↦
                      let above : ltb k bs.size ≡ false = ground arith in
                      rw above (valid.tail k (omega (arith, high)))
                ]),
      )

  empty-IsStored : num_bytes n ≡ 0 → IsStored (record { size = n; bits = [] })
  empty-IsStored h = record {
    bounded = fits;
    storage = sym h ∙ num_bytes-exact n fits;
    bytes = λ i. omega arith;
  }

  pub resize_correct :
      (w : World ℕ)
      → ((resize_to e bs n w).0
          ≡ (if num_bytes n == 0 || e.grants w.calls (num_bytes n) then done else failed))
        × ((((resize_to e bs n w).0 ≡ done) × Resized (resize_to e bs n w).1)
            ⊎ (((resize_to e bs n w).0 ≡ failed) × ((resize_to e bs n w).1 ≡ bs)))
  unfolding resize_to malloc grown
  resize_correct w =
      let all_kept = stored-Resized grown grown-IsStored grown-byte in
      elim (Bool-cases (num_bytes n == 0)) [
        | inl none ↦
            let empty : num_bytes n ≡ 0 = ground arith in
            rw none (
              refl,
              inl (
                refl,
                stored-Resized [] (empty-IsStored empty) (λ i h. absurd (omega (arith, h, empty))),
              ),
            )
        | inr some ↦ elim (Bool-cases (e.grants w.calls (num_bytes n))) [
          | inl granted ↦ rw (some, granted) (refl, inl (refl, all_kept))
          | inr refused ↦ rw (some, refused) (refl, inr (refl, refl))
        ]
      ]

-- For a number of bits within 7 of the largest size_t the number of bytes wraps round to 0:
-- bitset_resize succeeds without asking for memory and records that size, but its buffer has no
-- byte for the bit at any position.
pub resize_wraps :
    (e : Env ℕ) (bs : Bitset) (n : ℕ) (w : World ℕ)
    → size_mod ≤ n + 7
    → n < size_mod
    → ((resize_to e bs n w).0 ≡ done)
      × ((resize_to e bs n w).2 ≡ w)
      × ((resize_to e bs n w).1.size ≡ n)
      × ((pos : ℕ) → length (resize_to e bs n w).1.bits ≤ byte_index pos)
unfolding resize_to num_bytes clear_unused_tail_bits
resize_wraps e bs n w h l =
    let wrapped : add_size n 7 / 8 ≡ 0 = omega arith in
    let positive : (n == 0) ≡ false = ground arith in
    rw (positive, wrapped) (refl, refl, refl, λ pos. omega arith)

empty-IsValid : IsValid (record { size = 0; bits = [] })
empty-IsValid = record {
  stored = record { bounded = omega arith; storage = refl; bytes = λ i. omega arith };
  tail = λ k h. test_bit-zero (k % 8);
}

-- A copy is the source, or the destination is left as it was.
pub bitset_copy_correct :
    (e : Env ℕ) (dst src : Bitset) (w : World ℕ)
    → IsValid dst
    → IsValid src
    → ((copy e false dst src w).0 ≡ (
        if num_bytes src.size == 0 || e.grants w.calls (num_bytes src.size) then done else failed))
      × ((((copy e false dst src w).0 ≡ done) × ((copy e false dst src w).1 ≡ src))
          ⊎ (((copy e false dst src w).0 ≡ failed) × ((copy e false dst src w).1 ≡ dst)))
unfolding copy Resized
bitset_copy_correct e dst src w valid valid' =
    let (status, outcome) = resize_correct e dst valid src.size valid'.stored.bounded w in
    let n = num_bytes-exact src.size valid'.stored.bounded in
    elim outcome [
      | inl (ok, (size, after, bits)) ↦
          let bits_copied =
            memcpy-whole (resize_to e dst src.size w).1.bits src.bits (num_bytes src.size)
              (omega (arith, n, size, after.stored.storage))
              (omega (arith, n, valid'.stored.storage)) in
          rw (ok, copy)
            (
              rw ok at status,
              inl (
                refl,
                ap
                      (λ s. record src {
                        size = s;
                        bits =
                            memcpy (resize_to e dst src.size w).1.bits src.bits
                              (num_bytes src.size);
                      })
                      size
                    ∙ ap (λ xs. record src { bits = xs }) bits_copied,
              ),
            )
      | inr (bad, same) ↦ rw (bad, copy) (rw bad at status, inr (refl, same))
    ]
