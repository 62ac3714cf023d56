-- ===== src/Vector/Room.antt =====
-- The invariant of src/vector.c's vectors, and vector_reserve with the growth of vector_push and
-- vector_insert.
use native.Mathlib.Nat.{div-lt_iff_lt-mul}
use libcp.Prelude.{
  ℕ, ◌+◌, ◌*◌, ◌^◌, ◌≤◌, ◌<◌, ◌≡◌, ◌⊎◌, arith, true, length, length-resize, take-resize,
}
use libcp.Memory.{
  Env, World, Status, done, failed, malloc, malloc-lt, mul_size, slots_in, slots_in-mul_size,
  double_fits, size_mod, max_object,
}
use libcp.Vector.{Vector, contents, init_capacity, reserve, make_room}

pub record IsValid {A : Type 0} (v : Vector A) : Type 0 where
  pub elem_pos : 0 < v.elem_size
  pub elem_small : v.elem_size ≤ 2 ^ 60
  pub storage : length v.slots ≡ v.capacity
  pub size_in : v.size ≤ v.capacity
  pub fits : v.capacity * v.elem_size < max_object

-- What a call that only moves the buffer leaves as it was.
pub record Kept {A : Type 0} (v : Vector A) (w : World A) (v' : Vector A) (w' : World A)
    : Type 0 where
  pub contents_kept : contents v' ≡ contents v
  pub size_kept : v'.size ≡ v.size
  pub elem_size_kept : v'.elem_size ≡ v.elem_size
  pub elem_destroy_kept : v'.elem_destroy ≡ v.elem_destroy
  pub elem_copy_kept : v'.elem_copy ≡ v.elem_copy
  pub destroyed_kept : w'.destroyed ≡ w.destroyed

-- A vector with room for `n` elements where the call succeeds, and an unchanged one where it fails.
pub record Reserved {A : Type 0} (v : Vector A) (n : ℕ) (w : World A)
    (r : Status × Vector A × World A) : Type 0 where
  pub valid : IsValid r.1
  pub kept : Kept v w r.1 r.2
  pub outcome :
      ((r.0 ≡ done) × (n ≤ r.1.capacity)) ⊎ ((r.0 ≡ failed) × (r.1 ≡ v) × (v.capacity < n))

module _ {A : Type 0} (e : Env A) (v : Vector A) (w : World A) (valid : IsValid v) where
  pub reserve-Reserved : (n : ℕ) → n * v.elem_size < size_mod → Reserved v n w (reserve e v n w)
  unfolding reserve malloc
  reserve-Reserved n h = ground (
    arith,
    slots_in-mul_size n v.elem_size valid.elem_pos h,
    malloc-lt e (mul_size n v.elem_size) w,
    length-resize e.junk n v.slots,
    take-resize e.junk v.size n v.slots,
  )

  -- The vector has room for one more element where the call succeeds.
  pub make_room-Reserved : Reserved v (v.size + 1) w (make_room e v w)
  unfolding make_room
  make_room-Reserved = ground (
    arith,
    double_fits v.capacity v.elem_size valid.elem_pos valid.fits,
    reserve-Reserved init_capacity,
    reserve-Reserved (mul_size v.capacity 2),
  )

module _ {A : Type 0} (e : Env A) (v : Vector A) (w : World A) where
  -- When the size in bytes that vector_reserve asks for does not fit in size_t and the allocator
  -- grants the wrapped size, the call succeeds and records the capacity asked for, but the buffer
  -- has fewer slots.
  pub reserve_overflow :
      (n : ℕ)
      → 0 < v.elem_size
      → v.capacity < n
      → size_mod ≤ n * v.elem_size
      → e.grants w.calls (mul_size n v.elem_size) ≡ true
      → let (s, v', w') = reserve e v n w in
        (s ≡ done) × (v'.capacity ≡ n) × (length v'.slots < v'.capacity)
  unfolding reserve malloc
  reserve_overflow n pos grows wraps granted =
      let below : mul_size n v.elem_size < n * v.elem_size = omega arith in
      let short : slots_in (mul_size n v.elem_size) v.elem_size < n =
        (div-lt_iff_lt-mul pos).1 below in
      ground
        (arith, short, length-resize e.junk (slots_in (mul_size n v.elem_size) v.elem_size) v.slots)
