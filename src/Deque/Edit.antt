-- ===== src/Deque/Edit.antt =====
-- The functions of src/deque.c that change or read single elements, against the sequence.
use native.Mathlib.Numerals.{add-one}
use libcp.Prelude.{
  ℕ, suc, ◌+◌, ◌-◌, ◌%◌, ◌<◌, ◌≡◌, refl, none, some, [], ◌∷◌, ◌++◌, arith, ◌==◌, if◌then◌else◌,
  length-set, get_or, get_or-set, set, tabulate, length-tabulate, get_or-tabulate, take-tabulate_le,
  Option-cases, inl, inr, ap, ◌∙◌,
}
use libcp.Memory.{Env, World, done, failed, malloc, copy_element, destroy_element, add_size}
use libcp.Sequence
use libcp.Deque.{
  Deque, slot, contents, make_room, push_back, push_front, pop_back, pop_front, assign, at, front,
  back,
}
use libcp.Deque.Ring.{
  ring-set_back, ring-set_front, ring-next, ring-set, position_lt, position_wrap, position_back,
}
use libcp.Deque.Room.{IsValid, has_room, make_room-Reserved, make_room-status, capacity_small}

module _ {A : Type 0} (e : Env A) where
  abbrev pub with_back : Deque A → A → Deque A
  with_back q y = record q { slots = set q.slots (slot q q.size) y; size = q.size + 1 }

  pub with_back_lem :
      (q : Deque A) (y : A)
      → IsValid q
      → q.size < q.capacity
      → IsValid (with_back q y) × (contents e (with_back q y) ≡ contents e q ++ y ∷ [])
  with_back_lem q y valid room =
      let inside : q.head < q.capacity = ground arith in
      let small = capacity_small q valid in
      (
        ground (arith, length-set q.slots (slot q q.size) y),
        ap (λ n. tabulate n (λ i. get_or (with_back q y).slots (slot q i) e.junk)) (add-one q.size)
            ∙ ring-set_back q.capacity q.head q.slots e.junk inside small valid.storage q.size y
                room,
      )

  -- The slot before the head.
  abbrev before : Deque A → ℕ
  before q = if q.head == 0 then q.capacity - 1 else q.head - 1

  abbrev at_head : Deque A → ℕ → A → Deque A
  at_head q head y = record q { head = head; slots = set q.slots head y; size = q.size + 1 }

  at_head_later :
      (q : Deque A) (y : A)
      → IsValid q
      → q.size < q.capacity
      → contents e (at_head q (before q) y) ≡ y ∷ contents e q
  at_head_later q y valid room =
      let inside : q.head < q.capacity = ground arith in
      ap (λ n. tabulate n (λ i. get_or q'.slots (slot q' i) e.junk)) (add-one q.size)
      ∙ ring-set_front q.capacity q.head q.slots e.junk inside (capacity_small q valid)
          valid.storage q.size (before q) y refl room
    where
      q' : Deque A
      q' = at_head q (before q) y

  -- An empty deque takes its first element at the head.
  at_head_first :
      (q : Deque A) (y : A)
      → IsValid q
      → q.size < q.capacity
      → q.size ≡ 0
      → contents e (at_head q q.head y) ≡ y ∷ contents e q
  at_head_first q y valid room z =
      let inside : q.head < q.capacity = ground arith in
      let here : slot q 0 ≡ q.head =
        ground (arith, position_wrap q.capacity q.head inside (capacity_small q valid) 0) in
      rw z (ap (λ x. x ∷ []) (ground (arith, here, get_or-set q.slots q.head (slot q 0) y e.junk)))

  -- On a valid deque deque_push_back leaves a valid deque, and its status, its elements and the
  -- destroyed elements are those of the sequence's push_back: the copied element comes last when
  -- there is a free slot or the allocator grants a buffer of twice the size, and nothing changes
  -- otherwise.
  pub push_back_refines :
      (q : Deque A) (w : World A) (x : A)
      → IsValid q
      → let (s, q', w') = push_back e q x w in
        IsValid q'
        × ((s, contents e q', w'.destroyed)
            ≡ Sequence.push_back
                (has_room e q w)
                (copy_element q.elem_copy x)
                (contents e q)
                w.destroyed)
  unfolding push_back
  push_back_refines q w x valid = elim (Option-cases (copy_element q.elem_copy x)) [
    | inl p ↦ ground (arith, make_room-Reserved e q w valid, make_room-status e q w valid)
    | inr (y, p) ↦ ground (
      arith,
      make_room-Reserved e q w valid,
      make_room-status e q w valid,
      with_back_lem (make_room e q w).1 y,
    )
  ]

  -- The head goes back to where it was.
  position_back_next :
      (q : Deque A) → IsValid q → q.size < q.capacity → add_size (before q) 1 % q.capacity ≡ q.head
  position_back_next q valid room =
      let inside : q.head < q.capacity = ground arith in
      let small = capacity_small q valid in
      ground (
        arith,
        position_back q.capacity q.head inside small (before q) 0 refl,
        position_wrap q.capacity q.head inside small 0,
      )

  -- A push that needs no growth makes no request.
  pub push_in_place :
      (q : Deque A) (w : World A) (x : A)
      → q.size < q.capacity
      → push_back e q x w ≡ elim (copy_element q.elem_copy x) [
        | none ↦ (failed, q, w)
        | some y ↦ (done, with_back q y, w)
      ]
  unfolding push_back make_room
  push_in_place q w x h = ground arith

  -- On a valid deque deque_push_front leaves a valid deque, and its status, its elements and the
  -- destroyed elements are those of the sequence's push_front: the copied element comes first when
  -- the buffer has a free slot or the allocator grants one of twice the size, and nothing changes
  -- when that fails or the element cannot be copied.
  pub push_front_refines :
      (q : Deque A) (w : World A) (x : A)
      → IsValid q
      → let (s, q', w') = push_front e q x w in
        IsValid q'
        × ((s, contents e q', w'.destroyed)
            ≡ Sequence.push_front
                (has_room e q w)
                (copy_element q.elem_copy x)
                (contents e q)
                w.destroyed)
  unfolding push_front
  push_front_refines q w x valid = elim (Option-cases (copy_element q.elem_copy x)) [
    | inl p ↦ ground (
      arith,
      make_room-Reserved e q w valid,
      make_room-status e q w valid,
      position_back_next (make_room e q w).1,
    )
    | inr (y, p) ↦ ground (
      arith,
      make_room-Reserved e q w valid,
      make_room-status e q w valid,
      length-set (make_room e q w).1.slots (make_room e q w).1.head y,
      length-set (make_room e q w).1.slots (before (make_room e q w).1) y,
      at_head_later (make_room e q w).1 y,
      at_head_first (make_room e q w).1 y,
    )
  ]

  pub pop_back_refines :
      (q : Deque A) (w : World A)
      → IsValid q
      → let (s, q', w') = pop_back e q w in
        IsValid q'
        × ((s, contents e q', w'.destroyed)
            ≡ Sequence.pop_back e.junk q.elem_destroy (contents e q) w.destroyed)
  unfolding pop_back destroy_element
  pop_back_refines q w valid = ground (
    arith,
    length-tabulate q.size (λ i. get_or q.slots (slot q i) e.junk),
    get_or-tabulate q.size (λ i. get_or q.slots (slot q i) e.junk) (q.size - 1) e.junk,
    take-tabulate_le (q.size - 1) q.size (λ i. get_or q.slots (slot q i) e.junk),
  )

  contents_empty : (q : Deque A) → q.size ≡ 0 → contents e q ≡ []
  contents_empty q z = rw z

  contents_front :
      (q : Deque A)
      → IsValid q
      → 0 < q.size
      → contents e q
        ≡ get_or q.slots q.head e.junk
          ∷ contents e (record q { size = q.size - 1; head = slot q 1 })
  contents_front q valid pos =
      let inside : q.head < q.capacity = ground arith in
      let count : q.size ≡ suc (q.size - 1) = omega arith in
      ap (λ n. tabulate n (λ i. get_or q.slots (slot q i) e.junk)) count
      ∙ ring-next q.capacity q.head q.slots e.junk inside (capacity_small q valid) valid.storage
          (q.size - 1) (omega (arith, valid.size_in))

  position_lt_head : (q : Deque A) → IsValid q → 0 < q.size → slot q 1 < q.capacity
  position_lt_head q valid pos =
      let inside : q.head < q.capacity = ground arith in
      position_lt q.capacity q.head inside (capacity_small q valid) 1 (omega arith)

  -- On a valid deque deque_pop_front leaves a valid deque, and its status, its elements and the
  -- destroyed elements are those of the sequence's pop_front, on the empty deque too.
  pub pop_front_refines :
      (q : Deque A) (w : World A)
      → IsValid q
      → let (s, q', w') = pop_front e q w in
        IsValid q'
        × ((s, contents e q', w'.destroyed)
            ≡ Sequence.pop_front q.elem_destroy (contents e q) w.destroyed)
  unfolding pop_front destroy_element
  pop_front_refines q w valid = ground (
    arith,
    contents_empty q,
    contents_front q valid,
    position_lt_head q valid,
    contents_empty (record q { size = q.size - 1; head = 0 }),
    contents_empty (record q { size = q.size - 1; head = slot q 1 }),
  )

  contents-set :
      (q : Deque A) (i : ℕ) (y : A)
      → IsValid q
      → i < q.size
      → contents e (record q { slots = set q.slots (slot q i) y }) ≡ set (contents e q) i y
  contents-set q i y valid h =
      let inside : q.head < q.capacity = ground arith in
      ring-set q.capacity q.head q.slots e.junk inside (capacity_small q valid) valid.storage q.size
        i y h valid.size_in

  -- On a valid deque deque_set leaves a valid deque, and its status, its elements and the destroyed
  -- elements are those of the sequence's assign: the old element is destroyed only when the new one
  -- has been copied.
  pub assign_refines :
      (q : Deque A) (w : World A) (index : ℕ) (x : A)
      → IsValid q
      → let (s, q', w') = assign e q index x w in
        IsValid q'
        × ((s, contents e q', w'.destroyed)
            ≡ Sequence.assign e.junk q.elem_destroy
                (e.grants w.calls q.elem_size)
                (copy_element q.elem_copy x)
                index
                (contents e q)
                w.destroyed)
  unfolding assign destroy_element malloc
  assign_refines q w index x valid = elim (Option-cases (copy_element q.elem_copy x)) [
    | inl p ↦ ground (arith, length-tabulate q.size (λ i. get_or q.slots (slot q i) e.junk))
    | inr (y, p) ↦ ground (
      arith,
      length-tabulate q.size (λ i. get_or q.slots (slot q i) e.junk),
      length-set q.slots (slot q index) y,
      contents-set q index y valid,
      get_or-tabulate q.size (λ i. get_or q.slots (slot q i) e.junk) index e.junk,
    )
  ]

  pub reads_refine :
      (q : Deque A) (index : ℕ)
      → (at e q index ≡ Sequence.at e.junk (contents e q) index)
        × (front e q ≡ Sequence.at e.junk (contents e q) 0)
        × (back e q
            ≡ (if q.size == 0 then none else Sequence.at e.junk (contents e q) (q.size - 1)))
  unfolding front back at
  reads_refine q index = ground (
    arith,
    length-tabulate q.size (λ i. get_or q.slots (slot q i) e.junk),
    get_or-tabulate q.size (λ i. get_or q.slots (slot q i) e.junk) index e.junk,
    get_or-tabulate q.size (λ i. get_or q.slots (slot q i) e.junk) 0 e.junk,
    get_or-tabulate q.size (λ i. get_or q.slots (slot q i) e.junk) (q.size - 1) e.junk,
  )
