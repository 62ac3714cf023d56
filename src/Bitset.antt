-- ===== src/Bitset.antt =====
-- src/bitset.c: a set of bits packed into bytes. A byte is a number below 256 (CHAR_BIT is 8 and
-- UCHAR_MAX 255), a character its code, and BITSET_NPOS is `none`. A function that returns its
-- argument returns the new record.
pub mod Bytes
pub mod Edit
pub mod Bulk
pub mod Compare
pub mod Search
pub mod Create
pub mod Text
pub mod Tests
use Prim.Native.Nat.{bit_and, bit_or, bit_xor}
use libcp.Prelude.{
  ℕ, zero, suc, ◌+◌, ◌-◌, ◌*◌, ◌/◌, ◌%◌, ◌^◌, Bool, true, false, not, ◌&&◌, ◌||◌, Option, none,
  some, List, [], ◌∷◌, ◌++◌, leb, ltb, ◌==◌, if◌then◌else◌, length, get_or, set, take, drop, resize,
}
use libcp.Bits.{xor}
use libcp.Memory.{Env, World, Status, done, failed, malloc, memcpy, mul_size, add_size, size_mod}

pub record Bitset : Type 0 where
  pub size : ℕ
  pub bits : List ℕ

-- sizeof(bitset).
abbrev pub sizeof_bitset : ℕ
sizeof_bitset = 16

pub num_bytes : ℕ → ℕ
num_bytes num_bits = if num_bits == 0 then 0 else add_size num_bits 7 / 8

abbrev pub byte_index : ℕ → ℕ
byte_index pos = pos / 8

-- The shift is below 8, so the cast to a byte loses nothing.
abbrev pub bit_mask : ℕ → ℕ
bit_mask pos = 2 ^ (pos % 8)

abbrev pub last_byte_mask : ℕ → ℕ
last_byte_mask size = if size % 8 == 0 then 255 else 2 ^ (size % 8) - 1

-- (unsigned char)~byte.
abbrev pub flip_byte : ℕ → ℕ
flip_byte byte = 255 - byte

-- memset of `count` bytes from `start` on.
pub memset : ℕ → ℕ → ℕ → List ℕ → List ℕ
memset start zero byte bits = bits
memset start (suc count) byte bits = memset (start + 1) count byte (set bits start byte)

pub clear_unused_tail_bits : Bitset → Bitset
clear_unused_tail_bits bs =
    let n = num_bytes bs.size in
    if n == 0 || bs.size % 8 == 0 then bs else record bs {
      bits = set bs.bits (n - 1) (bit_and (get_or bs.bits (n - 1) 0) (last_byte_mask bs.size));
    }

-- Each round clears the lowest bit that is set, so that 8 rounds are enough for a byte.
pub popcount_byte : ℕ → ℕ → ℕ
popcount_byte zero byte = 0
popcount_byte (suc fuel) byte = elim (byte == 0) [
  | true ↦ 0
  | false ↦ popcount_byte fuel (bit_and byte (byte - 1)) + 1
]

module _ (e : Env ℕ) where
  pub resize_to : Bitset → ℕ → World ℕ → Status × Bitset × World ℕ
  resize_to bs num_bits w =
      let n = num_bytes num_bits in
      let old = num_bytes bs.size in
      if n == 0
      then (done, clear_unused_tail_bits (record { size = num_bits; bits = [] }), w)
      else (let (granted, w') = malloc e n w in
          if granted
          then (let grown = resize e.junk n bs.bits in
              let bits = if ltb old n then memset old (n - old) 0 grown else grown in
              (done, clear_unused_tail_bits (record { size = num_bits; bits = bits }), w'))
          else (failed, bs, w'))

  pub init : ℕ → World ℕ → Status × Bitset × World ℕ
  init num_bits w = resize_to (record { size = 0; bits = [] }) num_bits w

  pub new : ℕ → World ℕ → Option Bitset × World ℕ
  new num_bits w =
      let (granted, w') = malloc e sizeof_bitset w in
      if granted
      then (let (s, bs, w'') = init num_bits w' in
          elim s [ done ↦ (some bs, w'') | failed ↦ (none, w'') ])
      else (none, w')

  -- memcpy of the first bytes of `src`. `aliased` says whether the two arguments are one pointer.
  pub copy : Bool → Bitset → Bitset → World ℕ → Status × Bitset × World ℕ
  copy aliased dst src w =
      if aliased
      then (done, dst, w)
      else let (s, bs, w') = resize_to dst src.size w in
        let n = num_bytes src.size in
        elim s [
          | failed ↦ (failed, bs, w')
          | done ↦ (done, record bs { bits = memcpy bs.bits src.bits n }, w')
        ]

  pub clone : Bitset → World ℕ → Option Bitset × World ℕ
  clone src w =
      let (found, w') = new src.size w in
      let n = num_bytes src.size in
      elim found [
        | none ↦ (none, w')
        | some bs ↦ (some (record bs { bits = memcpy bs.bits src.bits n }), w')
      ]

pub destroy : Bitset → Bitset
destroy bs = record { size = 0; bits = [] }

-- A byte of the set replaced by `f` of it.
abbrev pub at_byte : Bitset → ℕ → (ℕ → ℕ) → Bitset
at_byte bs pos f = record bs {
  bits = set bs.bits (byte_index pos) (f (get_or bs.bits (byte_index pos) 0));
}

pub assign : Bitset → ℕ → Bool → Bitset
assign bs pos value =
    if value
    then at_byte bs pos (λ byte. bit_or byte (bit_mask pos))
    else at_byte bs pos (λ byte. bit_and byte (flip_byte (bit_mask pos)))

pub reset : Bitset → ℕ → Bitset
reset bs pos = at_byte bs pos (λ byte. bit_and byte (flip_byte (bit_mask pos)))

pub set_all : Bitset → Bitset
set_all bs = clear_unused_tail_bits (record bs { bits = memset 0 (num_bytes bs.size) 255 bs.bits })

pub reset_all : Bitset → Bitset
reset_all bs = record bs { bits = memset 0 (num_bytes bs.size) 0 bs.bits }

pub clear : Bitset → Bitset
clear bs = reset_all bs

pub flip : Bitset → ℕ → Bitset
flip bs pos = at_byte bs pos (λ byte. bit_xor byte (bit_mask pos))

-- The loop of bitset_flip_all, and those of bitset_and, bitset_or and bitset_xor: byte `i` and the
-- following `rounds` become `f i` of themselves.
pub each_byte : ℕ → ℕ → (ℕ → ℕ → ℕ) → List ℕ → List ℕ
each_byte zero i f bits = bits
each_byte (suc rounds) i f bits = each_byte rounds (i + 1) f (set bits i (f i (get_or bits i 0)))

pub flip_all : Bitset → Bitset
flip_all bs =
    clear_unused_tail_bits
      (record bs { bits = each_byte (num_bytes bs.size) 0 (λ i byte. flip_byte byte) bs.bits })

pub and_with : Bitset → Bitset → Bitset
and_with dst src = clear_unused_tail_bits (record dst {
  bits = each_byte (num_bytes dst.size) 0 (λ i byte. bit_and byte (get_or src.bits i 0)) dst.bits;
})

pub or_with : Bitset → Bitset → Bitset
or_with dst src = clear_unused_tail_bits (record dst {
  bits = each_byte (num_bytes dst.size) 0 (λ i byte. bit_or byte (get_or src.bits i 0)) dst.bits;
})

pub xor_with : Bitset → Bitset → Bitset
xor_with dst src = clear_unused_tail_bits (record dst {
  bits = each_byte (num_bytes dst.size) 0 (λ i byte. bit_xor byte (get_or src.bits i 0)) dst.bits;
})

-- memcmp(a, b, n) == 0.
pub same_bytes : ℕ → List ℕ → List ℕ → Bool
same_bytes zero xs ys = true
same_bytes (suc n) xs ys = same_bytes n xs ys && get_or xs n 0 == get_or ys n 0

pub equal : Bitset → Bitset → Bool
equal a b = if a.size == b.size then same_bytes (num_bytes a.size) a.bits b.bits else false

pub get : Bitset → ℕ → Bool
get bs pos = not (bit_and (get_or bs.bits (byte_index pos) 0) (bit_mask pos) == 0)

-- The loops of bitset_all and bitset_any over the full bytes: whether none of the `rounds` bytes
-- from `i` on differs from `byte`.
pub all_bytes : ℕ → ℕ → ℕ → List ℕ → Bool
all_bytes zero i byte bits = true
all_bytes (suc rounds) i byte bits = elim (get_or bits i 0 == byte) [
  | false ↦ false
  | true ↦ all_bytes rounds (i + 1) byte bits
]

-- The last byte with the bits beyond the size masked out.
abbrev pub last_byte : Bitset → ℕ
last_byte bs = bit_and (get_or bs.bits (num_bytes bs.size - 1) 0) (last_byte_mask bs.size)

pub all : Bitset → Bool
all bs =
    if all_bytes (bs.size / 8) 0 255 bs.bits
    then (if num_bytes bs.size == bs.size / 8 then true else last_byte bs == last_byte_mask bs.size)
    else false

pub any : Bitset → Bool
any bs =
    if all_bytes (bs.size / 8) 0 0 bs.bits
    then (if num_bytes bs.size == bs.size / 8 then false else not (last_byte bs == 0))
    else true

pub is_none : Bitset → Bool
is_none bs = not (any bs)

-- The loop of bitset_count over the full bytes.
pub count_bytes : ℕ → ℕ → List ℕ → ℕ → ℕ
count_bytes zero i bits total = total
count_bytes (suc rounds) i bits total =
    count_bytes rounds (i + 1) bits (add_size total (popcount_byte 8 (get_or bits i 0)))

pub count : Bitset → ℕ
count bs =
    let full = count_bytes (bs.size / 8) 0 bs.bits 0 in
    if num_bytes bs.size == bs.size / 8
    then full
    else add_size full (popcount_byte 8 (last_byte bs))

-- The loop of bitset_find_from.
pub scan : ℕ → Bitset → ℕ → Bool → Option ℕ
scan zero bs i value = none
scan (suc rounds) bs i value = elim (not (xor (get bs i) value)) [
  | true ↦ some i
  | false ↦ scan rounds bs (i + 1) value
]

pub find_from : Bitset → ℕ → Bool → Option ℕ
find_from bs start value = if leb bs.size start then none else scan (bs.size - start) bs start value

pub find_first_set : Bitset → Option ℕ
find_first_set bs = find_from bs 0 true

pub find_next_set : Bitset → ℕ → Option ℕ
find_next_set bs pos = if leb bs.size pos then none else find_from bs (pos + 1) true

pub find_first_reset : Bitset → Option ℕ
find_first_reset bs = find_from bs 0 false

pub find_next_reset : Bitset → ℕ → Option ℕ
find_next_reset bs pos = if leb bs.size pos then none else find_from bs (pos + 1) false

-- The loop of bitset_to_string.
pub write_chars : ℕ → ℕ → Bitset → List ℕ → List ℕ
write_chars zero i bs buf = buf
write_chars (suc rounds) i bs buf = write_chars rounds (i + 1) bs (
    set buf (bs.size - 1 - i)
      (if not (bit_and (get_or bs.bits (byte_index i) 0) (bit_mask i) == 0) then b'1' else b'0'))

pub to_string : Bitset → List ℕ → List ℕ
to_string bs buf = set (write_chars bs.size 0 bs buf) bs.size 0

-- The number of characters before the null character.
pub strlen : List ℕ → ℕ
strlen [] = 0
strlen (c ∷ str) = if c == 0 then 0 else strlen str + 1

-- The first loop of bitset_from_string from index `i` on.
pub only_digits : ℕ → ℕ → List ℕ → Bool
only_digits zero i str = true
only_digits (suc rounds) i str =
    if not (get_or str i 0 == b'0') && not (get_or str i 0 == b'1')
    then false
    else only_digits rounds (i + 1) str

-- The second loop of bitset_from_string.
pub read_chars : ℕ → ℕ → ℕ → List ℕ → Bitset → Bitset
read_chars zero i len str bs = bs
read_chars (suc rounds) i len str bs = read_chars rounds (i + 1) len str (
    if get_or str i 0 == b'1'
    then at_byte bs (len - 1 - i) (λ byte. bit_or byte (bit_mask (len - 1 - i)))
    else bs)

pub from_string : Bitset → List ℕ → Status × Bitset
from_string bs str =
    let len = strlen str in
    if len == bs.size
    then (if only_digits len 0 str
        then (done, read_chars len 0 len str (reset_all bs))
        else (failed, bs))
    else (failed, bs)
