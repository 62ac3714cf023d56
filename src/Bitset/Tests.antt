-- ===== src/Bitset/Tests.antt =====
-- Runs of src/bitset.c's functions, and the properties at sets of ten bits.
use libcp.Prelude.{
  ℕ, zero, suc, ◌<◌, ◌≤◌, length, ◌≡◌, ◌↔◌, refl, true, false, not, ◌&&◌, ◌||◌, some, List, [], ◌∷◌,
  arith, get_or,
}
use libcp.Memory.{done}
use libcp.Samples.{generous, start}
use libcp.Counting as Counting
use libcp.Bits.{xor}
use libcp.Bitset.{
  Bitset, byte_index, num_bytes, clear_unused_tail_bits, popcount_byte, resize_to, assign, reset,
  set_all, reset_all, flip, each_byte, flip_all, and_with, or_with, xor_with, equal, get,
  count_bytes, count, scan, find_from, find_next_set, to_string, from_string,
}
use libcp.Bitset.Bytes.{IsValid, clear-IsValid}
use libcp.Bitset.Edit.{bit_edits_correct}
use libcp.Bitset.Bulk.{set_operations_correct}
use libcp.Bitset.Compare.{SameBits, equal_iff}
use libcp.Bitset.Search.{Found, count_correct, find_from_correct}
use libcp.Bitset.Create.{resize_wraps}
use libcp.Bitset.Text.{to_string_round_trip}

-- The bits 0, 2 and 9 of ten.
abbrev ten : Bitset
ten = record { size = 10; bits = 5 ∷ 2 ∷ [] }

ten_bytes : (i : ℕ) → get_or ten.bits i 0 < 256
ten_bytes zero = omega arith
ten_bytes (suc zero) = omega arith
ten_bytes (suc (suc i)) = omega arith

ten-IsValid : IsValid ten
unfolding clear_unused_tail_bits num_bytes
ten-IsValid =
    clear-IsValid ten (record { bounded = omega arith; storage = refl; bytes = ten_bytes })

abbrev evens : Bitset
evens = record { size = 10; bits = 85 ∷ 1 ∷ [] }

evens_bytes : (i : ℕ) → get_or evens.bits i 0 < 256
evens_bytes zero = omega arith
evens_bytes (suc zero) = omega arith
evens_bytes (suc (suc i)) = omega arith

evens-IsValid : IsValid evens
unfolding clear_unused_tail_bits num_bytes
evens-IsValid =
    clear-IsValid evens (record { bounded = omega arith; storage = refl; bytes = evens_bytes })

-- A buffer of twelve characters.
abbrev buffer : List ℕ
buffer = 1 ∷ 1 ∷ 1 ∷ 1 ∷ 1 ∷ 1 ∷ 1 ∷ 1 ∷ 1 ∷ 1 ∷ 1 ∷ 1 ∷ []

assign_seven : assign ten 7 true ≡ record { size = 10; bits = 133 ∷ 2 ∷ [] }
unfolding assign
assign_seven = refl

flip_all-ten : flip_all ten ≡ record { size = 10; bits = 250 ∷ 1 ∷ [] }
unfolding flip_all each_byte clear_unused_tail_bits num_bytes
flip_all-ten = refl

count-ten : count ten ≡ 3
unfolding count count_bytes popcount_byte num_bytes
count-ten = refl

next_set : find_next_set ten 2 ≡ some 9
unfolding find_next_set find_from scan get
next_set = refl

bit_edits_correct_example :
    (IsValid (assign ten 7 true) × (get (assign ten 7 true) 7 ≡ true))
    × (IsValid (reset ten 7) × (get (reset ten 7) 7 ≡ false))
    × (IsValid (flip ten 7) × (get (flip ten 7) 7 ≡ not (get ten 7)))
bit_edits_correct_example = bit_edits_correct ten ten-IsValid 7 (omega arith) true 7

set_operations_correct_example :
    (IsValid (and_with ten evens) × (get (and_with ten evens) 9 ≡ (get ten 9 && get evens 9)))
    × (IsValid (or_with ten evens) × (get (or_with ten evens) 9 ≡ (get ten 9 || get evens 9)))
    × (IsValid (xor_with ten evens) × (get (xor_with ten evens) 9 ≡ xor (get ten 9) (get evens 9)))
    × (IsValid (flip_all ten) × (get (flip_all ten) 9 ≡ not (get ten 9)))
    × (IsValid (set_all ten) × (get (set_all ten) 9 ≡ true))
    × (IsValid (reset_all ten) × (get (reset_all ten) 9 ≡ false))
set_operations_correct_example =
    set_operations_correct ten ten-IsValid evens evens-IsValid refl 9 (omega arith)

equal_iff_example : (equal ten evens ≡ true) ↔ SameBits ten evens
equal_iff_example = equal_iff ten evens ten-IsValid evens-IsValid

count_correct_example : count ten ≡ Counting.count 10 (get ten)
count_correct_example = count_correct ten ten-IsValid

find_from_correct_example : Found ten 3 true (find_from ten 3 true)
find_from_correct_example = find_from_correct ten 3 true

to_string_round_trip_example :
    ((from_string evens (to_string ten buffer)).0 ≡ done)
    × SameBits ten (from_string evens (to_string ten buffer)).1
to_string_round_trip_example =
    to_string_round_trip ten evens buffer ten-IsValid evens-IsValid refl (omega arith)

resize_wraps_example :
    ((resize_to generous ten 18446744073709551610 start).0 ≡ done)
    × ((resize_to generous ten 18446744073709551610 start).2 ≡ start)
    × ((resize_to generous ten 18446744073709551610 start).1.size ≡ 18446744073709551610)
    × ((pos : ℕ)
        → length (resize_to generous ten 18446744073709551610 start).1.bits ≤ byte_index pos)
resize_wraps_example =
    resize_wraps generous ten 18446744073709551610 start (omega arith) (omega arith)
