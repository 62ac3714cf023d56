-- ===== src/Bitset/Text.antt =====
-- bitset_to_string and bitset_from_string of src/bitset.c.
use Prim.Native.Nat.{bit_or}
use mathlib.Core.Path.{subst}
use native.Mathlib.Decide.{ℕ_discrete}
use libcp.Prelude.{
  ℕ, zero, suc, ◌+◌, ◌-◌, ◌<◌, ◌≡◌, ◌≢◌, ◌⊎◌, refl, sym, ap, ◌∙◌, Bool, true, false, ◌&&◌, List, [],
  ◌∷◌, arith, leb, ◌==◌, if◌then◌else◌, length, length-set, get_or, get_or-set, get_or-set_other,
  set, Bool-cases, inl, inr,
}
use libcp.Memory.{done}
use libcp.Bitset.{
  Bitset, bit_mask, at_byte, get, assign, reset_all, write_chars, to_string, only_digits,
  read_chars, from_string, strlen,
}
use libcp.Bitset.Bytes.{IsValid}
use libcp.Bitset.Edit.{assign_bit_correct}
use libcp.Bitset.Bulk.{reset_all_correct}
use libcp.Bitset.Compare.{SameBits}

-- The character of a bit.
abbrev pub digit : Bool → ℕ
digit value = if value then b'1' else b'0'

digit-one : (b : Bool) → (digit b == b'1') ≡ b
digit-one true = refl
digit-one false = refl

write_chars-length :
    (rounds i : ℕ) (bs : Bitset) (buf : List ℕ) → length (write_chars rounds i bs buf) ≡ length buf
unfolding write_chars
write_chars-length zero i bs buf = refl
write_chars-length (suc rounds) i bs buf =
    write_chars-length rounds (i + 1) bs _ ∙ length-set buf (bs.size - 1 - i) _

-- What the loop has written from bit `i` on.
write_chars-get :
    (rounds i : ℕ) (bs : Bitset) (buf : List ℕ) (k : ℕ)
    → i + rounds ≡ bs.size
    → bs.size < length buf
    → k < bs.size
    → get_or (write_chars rounds i bs buf) (bs.size - 1 - k) 0
      ≡ (if leb i k then digit (get bs k) else get_or buf (bs.size - 1 - k) 0)
unfolding write_chars get
write_chars-get zero i bs buf k n h l = ground arith
write_chars-get (suc rounds) i bs buf k n h l =
    let c = digit (get bs i) in
    write_chars-get rounds (i + 1) bs (set buf (bs.size - 1 - i) c) k (omega arith)
      (omega (arith, h, length-set buf (bs.size - 1 - i) c)) l
    ∙ elim (ℕ_discrete k i) [
      | yes same ↦
          let now : get_or (set buf (bs.size - 1 - i) c) (bs.size - 1 - k) 0 ≡ digit (get bs k) =
            rw same (ground (arith, get_or-set buf (bs.size - 1 - i) (bs.size - 1 - i) c 0)) in
          let late : leb (i + 1) k ≡ false = ground arith in
          let due : leb i k ≡ true = ground arith in rw (late, due) now
      | no ne ↦
          let kept : get_or (set buf (bs.size - 1 - i) c) (bs.size - 1 - k) 0
              ≡ get_or buf (bs.size - 1 - k) 0 =
            ground (arith, get_or-set buf (bs.size - 1 - i) (bs.size - 1 - k) c 0) in
          let both : leb (i + 1) k ≡ leb i k = ground arith in rw (both, kept) refl
    ]

-- The text of a set.
pub to_string-get :
    (bs : Bitset) (buf : List ℕ) (k : ℕ)
    → bs.size < length buf
    → k < bs.size
    → get_or (to_string bs buf) (bs.size - 1 - k) 0 ≡ digit (get bs k)
unfolding to_string
to_string-get bs buf k h l =
    let written = write_chars bs.size 0 bs buf in
    get_or-set_other written bs.size (bs.size - 1 - k) 0 0 (λ e. absurd (omega (arith, e)))
    ∙ write_chars-get bs.size 0 bs buf k (omega arith) h l
    ∙ ground arith

only_digits_complete :
    (rounds i : ℕ) (str : List ℕ)
    → ((j : ℕ) → j < i + rounds → (get_or str j 0 ≡ b'0') ⊎ (get_or str j 0 ≡ b'1'))
    → only_digits rounds i str ≡ true
unfolding only_digits
only_digits_complete zero i str h = refl
only_digits_complete (suc rounds) i str h =
    let first = h i (omega arith) in
    let rest = only_digits_complete rounds (i + 1) str (λ j l. h j (omega (arith, l))) in
    ground arith

-- A text has as many characters as stand before the first null character.
strlen_correct :
    (str : List ℕ) (n : ℕ)
    → n < length str
    → ((i : ℕ) → i < n → get_or str i 0 ≢ 0)
    → get_or str n 0 ≡ 0
    → strlen str ≡ n
unfolding strlen
strlen_correct [] n h before at_n = absurd (omega (arith, h))
strlen_correct (c ∷ str) zero h before at_n = ground (arith, at_n)
strlen_correct (c ∷ str) (suc n) h before at_n =
    let first : c ≢ 0 = before 0 (omega arith) in
    let rest =
      strlen_correct str n (omega (arith, h)) (λ i l. before (suc i) (omega (arith, l))) at_n in
    ground (arith, first, rest)

-- What the second loop of bitset_from_string does, for a set as large as the text.
Read : Bitset → ℕ → List ℕ → ℕ → Bitset → Type 0
Read bs len str i r =
    IsValid r
    × (r.size ≡ bs.size)
    × ((k : ℕ)
        → k < len
        → get r k
          ≡ (if leb i (len - 1 - k) && get_or str (len - 1 - k) 0 == b'1' then true else get bs k))

assign_true :
    (bs : Bitset)
    → IsValid bs
    → (pos : ℕ) → pos < bs.size
    → (k : ℕ)
    → IsValid (at_byte bs pos (λ byte. bit_or byte (bit_mask pos)))
      × (get (at_byte bs pos (λ byte. bit_or byte (bit_mask pos))) k
          ≡ (if k == pos then true else get bs k))
unfolding assign
assign_true bs valid pos inside = assign_bit_correct bs valid pos inside true

read_chars-one :
    (rounds i len : ℕ) (str : List ℕ) (bs : Bitset)
    → (get_or str i 0 == b'1') ≡ true
    → read_chars rounds
        (i + 1)
        len
        str
        (at_byte bs (len - 1 - i) (λ byte. bit_or byte (bit_mask (len - 1 - i))))
      ≡ read_chars (suc rounds) i len str bs
unfolding read_chars
read_chars-one rounds i len str bs h = rw h refl

read_chars-zero :
    (rounds i len : ℕ) (str : List ℕ) (bs : Bitset)
    → (get_or str i 0 == b'1') ≡ false
    → read_chars rounds (i + 1) len str bs ≡ read_chars (suc rounds) i len str bs
unfolding read_chars
read_chars-zero rounds i len str bs h = rw h refl

read_chars-Read :
    (rounds i len : ℕ) (str : List ℕ) (bs : Bitset)
    → IsValid bs
    → i + rounds ≡ len
    → bs.size ≡ len
    → Read bs len str i (read_chars rounds i len str bs)
unfolding read_chars Read
read_chars-Read zero i len str bs valid n size = (valid, refl, λ k h. ground arith)
read_chars-Read (suc rounds) i len str bs valid n size =
    let pos = len - 1 - i in
    elim (Bool-cases (get_or str i 0 == b'1')) [
      | inl one ↦
          let next = at_byte bs pos (λ byte. bit_or byte (bit_mask pos)) in
          let changed = assign_true bs valid pos (omega (arith, size)) in
          let (valid', size', bits) =
            read_chars-Read rounds (i + 1) len str next (changed 0).0 (omega arith) size in
          subst (Read bs len str i) (read_chars-one rounds i len str bs one) (
            valid',
            size',
            λ k h. bits k h ∙ elim (ℕ_discrete (len - 1 - k) i) [
              | yes same ↦
                  let is_pos : (k == pos) ≡ true = ground arith in
                  let late : leb (i + 1) i ≡ false = ground arith in
                  let due : leb i i ≡ true = ground arith in
                  let set_now : get next k ≡ true = (changed k).1 ∙ rw is_pos refl in
                  rw (same, late, due, one) set_now
              | no ne ↦
                  let not_pos : (k == pos) ≡ false = ground arith in
                  let both : leb (i + 1) (len - 1 - k) ≡ leb i (len - 1 - k) = ground arith in
                  let kept : get next k ≡ get bs k = (changed k).1 ∙ rw not_pos refl in
                  rw (both, kept) refl
            ],
          )
      | inr zero_digit ↦
          let (valid', size', bits) =
            read_chars-Read rounds (i + 1) len str bs valid (omega arith) size in
          subst (Read bs len str i) (read_chars-zero rounds i len str bs zero_digit) (
            valid',
            size',
            λ k h. bits k h ∙ elim (ℕ_discrete (len - 1 - k) i) [
              | yes same ↦
                  let late : leb (i + 1) i ≡ false = ground arith in
                  let due : leb i i ≡ true = ground arith in rw (same, late, due, zero_digit) refl
              | no ne ↦
                  let both : leb (i + 1) (len - 1 - k) ≡ leb i (len - 1 - k) = ground arith in
                  rw both refl
            ],
          )
    ]

-- Reading a text of the right length and characters gives the bits that it shows.
pub from_string_correct :
    (bs : Bitset) (str : List ℕ)
    → IsValid bs
    → strlen str ≡ bs.size
    → only_digits bs.size 0 str ≡ true
    → ((from_string bs str).0 ≡ done)
      × IsValid (from_string bs str).1
      × ((from_string bs str).1.size ≡ bs.size)
      × ((k : ℕ)
          → k < bs.size
          → get (from_string bs str).1 k ≡ (get_or str (bs.size - 1 - k) 0 == b'1'))
unfolding from_string reset_all Read
from_string_correct bs str valid n digits =
    let cleared = reset_all_correct bs valid in
    let (after, size, bits) =
      read_chars-Read bs.size 0 bs.size str (reset_all bs) (cleared 0).0 (omega arith) refl in
    let one : (bs.size == bs.size) ≡ true = ground arith in
    rw (n, one, digits) (refl, after, size, λ k h. bits k h ∙ rw (cleared k).1 (ground arith))

module _ (bs dst : Bitset) (buf : List ℕ) (valid : IsValid bs) (valid' : IsValid dst)
    (size : dst.size ≡ bs.size) (room : bs.size < length buf) where
  abbrev text : List ℕ
  text = to_string bs buf

  text_digit : (i : ℕ) → i < bs.size → (get_or text i 0 ≡ b'0') ⊎ (get_or text i 0 ≡ b'1')
  text_digit i h =
      let back : bs.size - 1 - (bs.size - 1 - i) ≡ i = omega (arith, h) in
      let char : get_or text i 0 ≡ digit (get bs (bs.size - 1 - i)) =
        ap (λ j. get_or text j 0) (sym back)
        ∙ to_string-get bs buf (bs.size - 1 - i) room (omega (arith, h)) in
      elim (Bool-cases (get bs (bs.size - 1 - i))) [
        | inl one ↦ inr (char ∙ rw one refl)
        | inr nil ↦ inl (char ∙ rw nil refl)
      ]

  strlen-text : strlen text ≡ bs.size
  unfolding to_string
  strlen-text =
      let written = write_chars bs.size 0 bs buf in
      let long : bs.size < length written =
        omega (arith, room, write_chars-length bs.size 0 bs buf) in
      strlen_correct text bs.size (omega (arith, long, length-set written bs.size 0))
        (λ i h e. elim (text_digit i h) [
          | inl a ↦ absurd (omega (arith, a, e))
          | inr a ↦ absurd (omega (arith, a, e))
        ])
        (ground (arith, get_or-set written bs.size bs.size 0 0, long))

  text_digits : only_digits bs.size 0 text ≡ true
  text_digits = only_digits_complete bs.size 0 text (λ i h. text_digit i (omega (arith, h)))

  -- For valid sets of one size and a buffer longer than the size, whatever the buffer held,
  -- bitset_from_string accepts the buffer that bitset_to_string has written for the first set, and
  -- the destination then has the size and every bit of the first, whatever it held before.
  pub to_string_round_trip :
      ((from_string dst (to_string bs buf)).0 ≡ done)
      × SameBits bs (from_string dst (to_string bs buf)).1
  to_string_round_trip =
      let n = strlen-text ∙ sym size in
      let digits = ap (λ m. only_digits m 0 text) size ∙ text_digits in
      let (ok, after, same, bits) = from_string_correct dst text valid' n digits in
      (
        ok,
        (
          sym size ∙ sym same,
          λ k h.
              let char = to_string-get bs buf k room h in
              sym (bits k (omega (arith, h, size)) ∙ rw (size, char) (digit-one (get bs k))),
        ),
      )
