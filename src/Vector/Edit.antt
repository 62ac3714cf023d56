-- ===== src/Vector/Edit.antt =====
-- The functions of src/vector.c that change or read single elements, against the sequence.
use libcp.Prelude.{
  ℕ, ◌+◌, ◌-◌, ◌*◌, ◌<◌, ◌≡◌, Bool, not, ◌||◌, none, some, arith, ◌==◌, if◌then◌else◌, length-set,
  length-take, set, set-take, memmove, length-memmove, get_or-take, Option-cases, take-set-append,
  inl, inr,
}
use libcp.Memory.{
  Env, World, done, failed, malloc, copy_element, destroy_element, mul_size, slots_in-mul_size,
  double_fits,
}
use libcp.Sequence
use libcp.Vector.{
  Vector, contents, init_capacity, reserve, make_room, push, pop, insert, assign, erase, at, front,
  back,
}
use libcp.Vector.Moves.{
  take-take, take-memmove-insert, insert_at_end, take-memmove_undo, take-memmove-remove,
  take-remove_last,
}
use libcp.Vector.Room.{IsValid, make_room-Reserved}

module _ {A : Type 0} where
  -- Whether the buffer has a free slot, or the allocator grants one of twice the size.
  abbrev pub has_room : Env A → Vector A → World A → Bool
  has_room e v w =
      not (v.size == v.capacity)
      || e.grants w.calls
          ((if v.capacity == 0 then init_capacity else v.capacity * 2) * v.elem_size)

module _ {A : Type 0} (e : Env A) (v : Vector A) (w : World A) (valid : IsValid v) where
  make_room-status : (make_room e v w).0 ≡ (if has_room e v w then done else failed)
  unfolding make_room reserve malloc
  make_room-status = ground (
    arith,
    double_fits v.capacity v.elem_size valid.elem_pos valid.fits,
    slots_in-mul_size init_capacity v.elem_size valid.elem_pos,
    slots_in-mul_size (mul_size v.capacity 2) v.elem_size valid.elem_pos,
  )

  pub push_refines :
      (x : A)
      → let (s, v', w') = push e v x w in
        IsValid v'
        × ((s, contents v', w'.destroyed)
            ≡ Sequence.push_back
                (has_room e v w)
                (copy_element v.elem_copy x)
                (contents v)
                w.destroyed)
  unfolding push
  push_refines x = elim (Option-cases (copy_element v.elem_copy x)) [
    | inl p ↦ ground (arith, make_room-Reserved e v w valid, make_room-status)
    | inr (y, p) ↦ ground (
      arith,
      make_room-Reserved e v w valid,
      make_room-status,
      take-set-append (make_room e v w).1.size (make_room e v w).1.slots y,
      length-set (make_room e v w).1.slots (make_room e v w).1.size y,
    )
  ]

  -- A push that needs no growth makes no request.
  pub push_in_place :
      (x : A)
      → v.size < v.capacity
      → push e v x w ≡ elim (copy_element v.elem_copy x) [
        | none ↦ (failed, v, w)
        | some y ↦ (done, record v { slots = set v.slots v.size y; size = v.size + 1 }, w)
      ]
  unfolding push make_room
  push_in_place x h = ground arith

  pub pop_refines :
      let (s, v', w') = pop e v w in
      IsValid v'
      × ((s, contents v', w'.destroyed)
          ≡ Sequence.pop_back e.junk v.elem_destroy (contents v) w.destroyed)
  unfolding pop destroy_element
  pop_refines = ground (
    arith,
    length-take v.size v.slots,
    take-take (v.size - 1) v.size v.slots,
    get_or-take v.size v.slots (v.size - 1) e.junk,
  )

  -- On a valid vector vector_insert leaves a valid vector, and its status, its elements and the
  -- destroyed elements are those of the sequence's insert at the index: an index past the size, an
  -- element that cannot be copied and a refused growth leave the elements as they were, also after
  -- they were moved.
  pub insert_refines :
      (index : ℕ) (x : A)
      → let (s, v', w') = insert e v index x w in
        IsValid v'
        × ((s, contents v', w'.destroyed)
            ≡ Sequence.insert
                (has_room e v w)
                (copy_element v.elem_copy x)
                index
                (contents v)
                w.destroyed)
  unfolding insert
  insert_refines index x = elim (Option-cases (copy_element v.elem_copy x)) [
    | inl p ↦ ground (
      arith,
      make_room-Reserved e v w valid,
      make_room-status,
      push_refines x,
      length-take v.size v.slots,
      length-memmove (index + 1) index (v.size - index) (make_room e v w).1.slots,
      length-memmove index (index + 1) (v.size - index)
          (memmove (index + 1) index (v.size - index) (make_room e v w).1.slots),
      take-memmove_undo index v.size (make_room e v w).1.slots,
    )
    | inr (y, p) ↦ ground (
      arith,
      make_room-Reserved e v w valid,
      make_room-status,
      push_refines x,
      length-take v.size v.slots,
      insert_at_end v.size (contents v) y,
      length-memmove (index + 1) index (v.size - index) (make_room e v w).1.slots,
      length-set (memmove (index + 1) index (v.size - index) (make_room e v w).1.slots) index y,
      take-memmove-insert index v.size (make_room e v w).1.slots y,
    )
  ]

  pub assign_refines :
      (index : ℕ) (x : A)
      → let (s, v', w') = assign e v index x w in
        IsValid v'
        × ((s, contents v', w'.destroyed)
            ≡ Sequence.assign e.junk v.elem_destroy
                (e.grants w.calls v.elem_size)
                (copy_element v.elem_copy x)
                index
                (contents v)
                w.destroyed)
  unfolding assign destroy_element malloc
  assign_refines index x = elim (Option-cases (copy_element v.elem_copy x)) [
    | inl p ↦ ground (arith, length-take v.size v.slots)
    | inr (y, p) ↦ ground (
      arith,
      length-take v.size v.slots,
      length-set v.slots index y,
      set-take v.size v.slots index y,
      get_or-take v.size v.slots index e.junk,
    )
  ]

  -- On a valid vector vector_erase leaves a valid vector, and its elements and the destroyed
  -- elements are those of the sequence's erase: an index past the end changes nothing, any other
  -- removes and destroys the element there.
  pub erase_refines :
      (index : ℕ)
      → let (v', w') = erase e v index w in
        IsValid v'
        × ((contents v', w'.destroyed)
            ≡ Sequence.erase e.junk v.elem_destroy index (contents v) w.destroyed)
  unfolding erase destroy_element
  erase_refines index = ground (
    arith,
    length-take v.size v.slots,
    get_or-take v.size v.slots index e.junk,
    length-memmove index (index + 1) (v.size - index - 1) v.slots,
    take-memmove-remove index v.size v.slots,
    take-remove_last index v.size v.slots,
  )

  pub reads_refine :
      (index : ℕ)
      → (at e v index ≡ Sequence.at e.junk (contents v) index)
        × (front e v ≡ Sequence.at e.junk (contents v) 0)
        × (back e v ≡ (if v.size == 0 then none else Sequence.at e.junk (contents v) (v.size - 1)))
  unfolding front back at
  reads_refine index = ground (
    arith,
    length-take v.size v.slots,
    get_or-take v.size v.slots index e.junk,
    get_or-take v.size v.slots 0 e.junk,
    get_or-take v.size v.slots (v.size - 1) e.junk,
  )
