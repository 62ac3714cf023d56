-- ===== src/Heap/Room.antt =====
-- The invariant of src/heap.c's heaps, and heap_reserve with the growth of heap_push.
use libcp.Prelude.{
  not, ◌||◌, ℕ, ◌+◌, ◌*◌, ◌^◌, ◌≤◌, ◌<◌, ◌≡◌, ◌⊎◌, Bool, arith, ◌==◌, if◌then◌else◌, length,
  length-resize, take-resize,
}
use libcp.Memory.{
  Env, World, Status, done, failed, malloc, malloc-lt, mul_size, slots_in-mul_size, double_fits,
  size_mod, max_object,
}
use libcp.Heap.{Heap, contents, init_capacity, reserve, make_room}

pub record IsValid {A : Type 0} (h : Heap A) : Type 0 where
  pub elem_pos : 0 < h.elem_size
  pub elem_small : h.elem_size ≤ 2 ^ 60
  pub storage : length h.slots ≡ h.capacity
  pub size_in : h.size ≤ h.capacity
  pub fits : h.capacity * h.elem_size < max_object

-- What a call that only moves the buffer leaves as it was.
pub record Kept {A : Type 0} (h : Heap A) (w : World A) (h' : Heap A) (w' : World A) : Type 0 where
  pub contents_kept : contents h' ≡ contents h
  pub size_kept : h'.size ≡ h.size
  pub elem_size_kept : h'.elem_size ≡ h.elem_size
  pub elem_compare_kept : h'.elem_compare ≡ h.elem_compare
  pub elem_destroy_kept : h'.elem_destroy ≡ h.elem_destroy
  pub elem_copy_kept : h'.elem_copy ≡ h.elem_copy
  pub destroyed_kept : w'.destroyed ≡ w.destroyed

-- A heap with room for `n` elements where the call succeeds, and an unchanged one where it fails.
pub record Reserved {A : Type 0} (h : Heap A) (n : ℕ) (w : World A) (r : Status × Heap A × World A)
    : Type 0 where
  pub valid : IsValid r.1
  pub kept : Kept h w r.1 r.2
  pub outcome :
      ((r.0 ≡ done) × (n ≤ r.1.capacity)) ⊎ ((r.0 ≡ failed) × (r.1 ≡ h) × (h.capacity < n))

module _ {A : Type 0} where
  -- Whether the buffer has a free slot, or the allocator grants one of twice the size.
  abbrev pub has_room : Env A → Heap A → World A → Bool
  has_room e h w =
      not (h.size == h.capacity)
      || e.grants w.calls
          ((if h.capacity == 0 then init_capacity else h.capacity * 2) * h.elem_size)

module _ {A : Type 0} (e : Env A) (h : Heap A) (w : World A) (valid : IsValid h) where
  pub reserve-Reserved : (n : ℕ) → n * h.elem_size < size_mod → Reserved h n w (reserve e h n w)
  unfolding reserve malloc
  reserve-Reserved n k = ground (
    arith,
    slots_in-mul_size n h.elem_size valid.elem_pos k,
    malloc-lt e (mul_size n h.elem_size) w,
    length-resize e.junk n h.slots,
    take-resize e.junk h.size n h.slots,
  )

  -- The heap has room for one more element where the call succeeds.
  pub make_room-Reserved : Reserved h (h.size + 1) w (make_room e h w)
  unfolding make_room
  make_room-Reserved = ground (
    arith,
    double_fits h.capacity h.elem_size valid.elem_pos valid.fits,
    reserve-Reserved init_capacity,
    reserve-Reserved (mul_size h.capacity 2),
  )

  pub make_room-status : (make_room e h w).0 ≡ (if has_room e h w then done else failed)
  unfolding make_room reserve malloc
  make_room-status = ground (
    arith,
    double_fits h.capacity h.elem_size valid.elem_pos valid.fits,
    slots_in-mul_size init_capacity h.elem_size valid.elem_pos,
    slots_in-mul_size (mul_size h.capacity 2) h.elem_size valid.elem_pos,
  )

pub capacity_small : {A : Type 0} (h : Heap A) → IsValid h → h.capacity < max_object
capacity_small h valid = grind arith
