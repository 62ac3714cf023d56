-- ===== src/Deque/Room.antt =====
-- The invariant of src/deque.c's deques, and deque_reserve with the growth of the two pushes.
use libcp.Prelude.{
  ℕ, ◌+◌, ◌*◌, ◌^◌, ◌≤◌, ◌<◌, ◌≡◌, not, ◌||◌, Bool, ◌⊎◌, arith, ◌==◌, if◌then◌else◌, length,
  length-resize, tabulate-ext, get_or,
}
use libcp.Memory.{
  Env, World, Status, done, failed, malloc, malloc-lt, mul_size, slots_in-mul_size, double_fits,
  size_mod, max_object,
}
use libcp.Deque.{Deque, slot, contents, unrolled, init_capacity, reserve, make_room}
use libcp.Deque.Ring.{ring-unrolled}

pub record IsValid {A : Type 0} (q : Deque A) : Type 0 where
  pub elem_pos : 0 < q.elem_size
  pub elem_small : q.elem_size ≤ 2 ^ 60
  pub storage : length q.slots ≡ q.capacity
  pub size_in : q.size ≤ q.capacity
  pub fits : q.capacity * q.elem_size < max_object
  pub head_in : (q.head < q.capacity) ⊎ ((q.head ≡ 0) × (q.capacity ≡ 0))

-- What a call that only moves the buffer leaves as it was, and the room that it makes.
pub record Reserved {A : Type 0} (e : Env A) (q : Deque A) (n : ℕ) (w : World A)
    (r : Status × Deque A × World A) : Type 0 where
  pub valid : IsValid r.1
  pub contents_kept : contents e r.1 ≡ contents e q
  pub size_kept : r.1.size ≡ q.size
  pub elem_size_kept : r.1.elem_size ≡ q.elem_size
  pub elem_destroy_kept : r.1.elem_destroy ≡ q.elem_destroy
  pub elem_copy_kept : r.1.elem_copy ≡ q.elem_copy
  pub destroyed_kept : r.2.destroyed ≡ w.destroyed
  pub outcome :
      ((r.0 ≡ done) × (n ≤ r.1.capacity)) ⊎ ((r.0 ≡ failed) × (r.1 ≡ q) × (q.capacity < n))

-- Whether the buffer has a free slot, or the allocator grants one of twice the size.
abbrev pub has_room : {A : Type 0} → Env A → Deque A → World A → Bool
has_room e q w =
    not (q.size == q.capacity)
    || e.grants w.calls ((if q.capacity == 0 then init_capacity else q.capacity * 2) * q.elem_size)

pub capacity_small : {A : Type 0} (q : Deque A) → IsValid q → q.capacity < max_object
capacity_small q valid = grind arith

module _ {A : Type 0} (e : Env A) (q : Deque A) (w : World A) (valid : IsValid q) where
  unrolled-contents : unrolled e q ≡ contents e q
  unrolled-contents = tabulate-ext q.size _ _ λ i p. ground arith

  pub reserve-Reserved : (n : ℕ) → n * q.elem_size < size_mod → Reserved e q n w (reserve e q n w)
  unfolding reserve malloc
  reserve-Reserved n h = ground (
    arith,
    slots_in-mul_size n q.elem_size valid.elem_pos h,
    malloc-lt e (mul_size n q.elem_size) w,
    length-resize e.junk n (unrolled e q),
    unrolled-contents,
    new_below n,
    ring-unrolled n q.size e.junk (λ i. get_or q.slots (slot q i) e.junk),
  )
    where
      new_below : (m : ℕ) → m * q.elem_size < max_object → m < max_object
      new_below m k = let pos = valid.elem_pos in grind arith

  -- The deque has room for one more element where the call succeeds.
  pub make_room-Reserved : Reserved e q (q.size + 1) w (make_room e q w)
  unfolding make_room
  make_room-Reserved = ground (
    arith,
    double_fits q.capacity q.elem_size valid.elem_pos valid.fits,
    reserve-Reserved init_capacity,
    reserve-Reserved (mul_size q.capacity 2),
  )

  pub make_room-status : (make_room e q w).0 ≡ (if has_room e q w then done else failed)
  unfolding make_room reserve malloc
  make_room-status = ground (
    arith,
    double_fits q.capacity q.elem_size valid.elem_pos valid.fits,
    slots_in-mul_size init_capacity q.elem_size valid.elem_pos,
    slots_in-mul_size (mul_size q.capacity 2) q.elem_size valid.elem_pos,
  )
