-- ===== src/Probing/Places.antt =====
-- The order in which the loops of src/hashmap.c visit the buckets from a hash on.
use Prim.Native.Nat.{bit_and}
use native.Mathlib.Nat.{mod-eq_of_lt, mod-lt, one-le-pow, mod-add-mod, add-mod_right}
use native.Mathlib.Decide.{dec_lt}
use libcp.Prelude.{ℕ, ◌+◌, ◌-◌, ◌%◌, ◌^◌, ◌<◌, ◌≡◌, sym, ap, ◌∙◌, arith}
use libcp.Memory.{add_size, size_mod}
use libcp.Bits.{bit_and-mask}

-- Bucket `n` of the walk that begins at a hash, in a table of 2 ^ bits buckets.
abbrev pub place : ℕ → ℕ → ℕ → ℕ
place bits hash n = (hash + n) % 2 ^ bits

pub place-lt : (bits hash n : ℕ) → place bits hash n < 2 ^ bits
place-lt bits hash n = mod-lt (hash + n) (one-le-pow bits 2 (omega arith))

-- The step of the loops.
pub next_place :
    (bits hash n : ℕ)
    → 2 ^ bits < size_mod
    → bit_and (add_size (place bits hash n) 1) (2 ^ bits - 1) ≡ place bits hash (n + 1)
next_place bits hash n h =
    let exact : add_size (place bits hash n) 1 ≡ place bits hash n + 1 =
      mod-eq_of_lt (omega (arith, place-lt bits hash n)) in
    ap (λ i. bit_and i (2 ^ bits - 1)) exact
    ∙ bit_and-mask bits (place bits hash n + 1)
    ∙ mod-add-mod (hash + n) (2 ^ bits) 1
    ∙ ap (λ m. m % 2 ^ bits) (omega arith)

pub first_place : (bits hash : ℕ) → bit_and hash (2 ^ bits - 1) ≡ place bits hash 0
first_place bits hash = bit_and-mask bits hash ∙ ap (λ m. m % 2 ^ bits) (omega arith)

-- The walk comes to every bucket.
pub place_onto :
    (bits hash j : ℕ) → j < 2 ^ bits → (n : ℕ) × (n < 2 ^ bits) × (place bits hash n ≡ j)
place_onto bits hash j h =
    let start = hash % 2 ^ bits in
    let below : start < 2 ^ bits = mod-lt hash (one-le-pow bits 2 (omega arith)) in
    elim (dec_lt j start) [
      | yes wrap ↦ (
        j + 2 ^ bits - start,
        omega arith,
        sym (mod-add-mod hash (2 ^ bits) (j + 2 ^ bits - start))
            ∙ ap (λ m. m % 2 ^ bits) (omega arith)
            ∙ add-mod_right j (2 ^ bits)
            ∙ mod-eq_of_lt h,
      )
      | no ahead ↦ (
        j - start,
        omega arith,
        sym (mod-add-mod hash (2 ^ bits) (j - start))
            ∙ ap (λ m. m % 2 ^ bits) (omega arith)
            ∙ mod-eq_of_lt h,
      )
    ]
