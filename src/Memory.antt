-- ===== src/Memory.antt =====
-- What the containers take from the C library and from their callers: malloc and realloc, the
-- callbacks elem_copy and elem_destroy, and the helpers X_copy_element and X_destroy_element that
-- src/vector.c, src/deque.c, src/heap.c and src/hashmap.c each declare with the same text (the map
-- names vector's).
-- A container of elements of type A keeps its buffer as a list of slots. What no code has written
-- to a slot is `junk`. `free` has no effect that a caller can see, so it has no step of its own.
use mathlib.Core.List.{append-nil}
use native.Mathlib.Nat.{mod-eq_of_lt, mul-div_cancel}
use libcp.Prelude.{
  ℕ, ◌+◌, ◌*◌, ◌/◌, ◌%◌, ◌^◌, ◌≤◌, ◌<◌, ◌≡◌, ap, ◌∙◌, Bool, true, false, Option, none, some, List,
  [], ◌∷◌, ◌++◌, arith, if◌then◌else◌, length, take, drop, take_all, drop_all,
}

abbrev pub size_mod : ℕ
size_mod = 2 ^ 64

-- PTRDIFF_MAX + 1: no allocator hands out an object of so many bytes.
abbrev pub max_object : ℕ
max_object = 2 ^ 63

-- A product or a sum in `size_t`.
abbrev pub mul_size : ℕ → ℕ → ℕ
mul_size a b = a * b % size_mod

abbrev pub add_size : ℕ → ℕ → ℕ
add_size a b = (a + b) % size_mod

-- How many whole slots of `elem_size` bytes lie in a buffer of `bytes` bytes.
abbrev pub slots_in : ℕ → ℕ → ℕ
slots_in bytes elem_size = bytes / elem_size

-- The result of an `int` function: 0 or -1.
pub data Status : Type 0 where
  done failed : Status

-- The allocator's answers: `grants n bytes` is the answer to request number `n`.
pub record Env (A : Type 0) : Type 0 where
  pub grants : ℕ → ℕ → Bool
  pub refuses_huge : (n bytes : ℕ) → max_object ≤ bytes → grants n bytes ≡ false
  pub junk : A

-- How many requests were made, and the elements that elem_destroy was called on, latest first.
pub record World (A : Type 0) : Type 0 where
  pub calls : ℕ
  pub destroyed : List A

-- memcpy of the first `n` slots of `src` to `dst`.
abbrev pub memcpy : {A : Type 0} → List A → List A → ℕ → List A
memcpy dst src n = take n src ++ drop n dst

-- A copy of a whole buffer to one of its length.
pub memcpy-whole :
    {A : Type 0} (dst src : List A) (n : ℕ)
    → length dst ≡ n
    → length src ≡ n
    → memcpy dst src n ≡ src
memcpy-whole dst src n d s =
    ap (λ xs. xs ++ drop n dst) (take_all n src (omega (arith, s)))
    ∙ ap (λ xs. src ++ xs) (drop_all n dst (omega (arith, d)))
    ∙ append-nil src

module _ {A : Type 0} where
  unfoldable pub malloc : Env A → ℕ → World A → Bool × World A
  malloc e bytes w = (e.grants w.calls bytes, record w { calls = w.calls + 1 })

  -- `none` is the null callback: the element's bytes are copied.
  unfoldable pub copy_element : Option (A → Option A) → A → Option A
  copy_element none x = some x
  copy_element (some copy) x = copy x

  -- `false` is the null callback.
  unfoldable pub destroy_element : Bool → A → World A → World A
  destroy_element elem_destroy x w =
      if elem_destroy then record w { destroyed = x ∷ w.destroyed } else w

  -- A loop that calls X_destroy_element on each element of a container.
  unfoldable pub destroy_each : Bool → List A → World A → World A
  destroy_each elem_destroy [] w = w
  destroy_each elem_destroy (x ∷ xs) w =
      destroy_each elem_destroy xs (destroy_element elem_destroy x w)

  -- A request that is granted is for fewer bytes than the largest object has.
  pub malloc-lt :
      (e : Env A) (bytes : ℕ) (w : World A) → (malloc e bytes w).0 ≡ true → bytes < max_object
  unfolding malloc
  malloc-lt e bytes w h = ground (arith, e.refuses_huge w.calls bytes)

-- An array of `n` elements below the largest object: its size is computed without wrapping round,
-- and its buffer has `n` slots.
pub slots_in-mul_size :
    (n elem_size : ℕ)
    → 0 < elem_size
    → n * elem_size < size_mod
    → (mul_size n elem_size ≡ n * elem_size) × (slots_in (mul_size n elem_size) elem_size ≡ n)
slots_in-mul_size n elem_size h k =
    let exact : mul_size n elem_size ≡ n * elem_size = mod-eq_of_lt k in
    (exact, ap (λ b. slots_in b elem_size) exact ∙ mul-div_cancel n h)

-- Doubling the capacity of an array below the largest object does not wrap round.
pub double_fits :
    (n elem_size : ℕ)
    → 0 < elem_size
    → n * elem_size < max_object
    → (mul_size n 2 ≡ n * 2) × (n * 2 * elem_size < size_mod)
double_fits n elem_size h k = grind arith
