-- ===== src/Heap.antt =====
-- src/heap.c: the binary max-heap in a growing array. The conventions are those of Vector; the
-- callback elem_compare is a field, as in the C struct, and only the sign of its result is read.
pub mod Array
pub mod Up
pub mod Down
pub mod Room
pub mod Queue
pub mod Pop
mod Tests
use libcp.Prelude.{
  ℕ, zero, suc, ◌+◌, ◌-◌, ◌/◌, Bool, true, false, ◌&&◌, Option, none, some, List, [], ◌∷◌, leb, ltb,
  ◌==◌, if◌then◌else◌, get_or, set, take, resize,
}
use libcp.Prelude.Int.{ℤ, is_negative}
use libcp.Memory.{
  Env, World, Status, done, failed, malloc, copy_element, destroy_element, destroy_each, mul_size,
  add_size, slots_in,
}

abbrev pub init_capacity : ℕ
init_capacity = 8

-- sizeof(heap) on the platforms with eight-byte pointers.
abbrev pub sizeof_heap : ℕ
sizeof_heap = 56

pub record Heap (A : Type 0) : Type 0 where
  pub capacity : ℕ
  pub size : ℕ
  pub elem_size : ℕ
  pub elem_compare : A → A → ℤ
  pub elem_destroy : Bool
  pub elem_copy : Option (A → Option A)
  pub slots : List A

abbrev pub parent : ℕ → ℕ
parent i = (i - 1) / 2

abbrev pub left_of : ℕ → ℕ
left_of i = add_size (mul_size i 2) 1

module _ {A : Type 0} (junk : A) where
  pub swap_slots : List A → ℕ → ℕ → List A
  swap_slots slots i j =
      if i == j then slots else set (set slots i (get_or slots j junk)) j (get_or slots i junk)

module _ {A : Type 0} (cmp : A → A → ℤ) (junk : A) where
  -- The loop of heap_push and the write after it: `i` is a hole that moves up.
  pub sift_up : ℕ → List A → A → ℕ → List A
  sift_up zero slots staged i = set slots i staged
  sift_up (suc fuel) slots staged i = elim (ltb 0 i) [
    | false ↦ set slots i staged
    | true ↦ elim (is_negative (cmp (get_or slots (parent i) junk) staged)) [
      | false ↦ set slots i staged
      | true ↦ sift_up fuel (set slots i (get_or slots (parent i) junk)) staged (parent i)
    ]
  ]

  -- The child that heap_pop compares with: `left` is below `size`.
  pub larger_child : List A → ℕ → ℕ → ℕ
  larger_child slots size left =
      let right = add_size left 1 in
      if ltb right size && is_negative (cmp (get_or slots left junk) (get_or slots right junk))
      then right
      else left

  -- The loop of heap_pop.
  pub sift_down : ℕ → List A → ℕ → ℕ → List A
  sift_down zero slots size i = slots
  sift_down (suc fuel) slots size i = elim (ltb (left_of i) size) [
    | false ↦ slots
    | true ↦
        let child = larger_child slots size (left_of i) in
        elim (is_negative (cmp (get_or slots i junk) (get_or slots child junk))) [
          | false ↦ slots
          | true ↦ sift_down fuel (swap_slots junk slots i child) size child
        ]
  ]

module _ {A : Type 0} where
  pub init : ℕ → (A → A → ℤ) → Bool → Option (A → Option A) → Option (Heap A)
  init elem_size elem_compare elem_destroy elem_copy =
      if elem_size == 0
      then none
      else some (record {
        capacity = 0;
        size = 0;
        elem_size = elem_size;
        elem_compare = elem_compare;
        elem_destroy = elem_destroy;
        elem_copy = elem_copy;
        slots = [];
      })

  -- The elements that a heap holds, from the root on, level by level.
  abbrev pub contents : Heap A → List A
  contents h = take h.size h.slots

  pub clear : Heap A → World A → Heap A × World A
  clear h w =
      let w' = if h.elem_destroy then destroy_each h.elem_destroy (contents h) w else w in
      (record h { size = 0 }, w')

  pub destroy : Heap A → World A → Heap A × World A
  destroy h w = let (h', w') = clear h w in (record h' { slots = []; capacity = 0 }, w')

module _ {A : Type 0} (e : Env A) where
  pub reserve : Heap A → ℕ → World A → Status × Heap A × World A
  reserve h capacity w =
      if leb capacity h.capacity
      then (done, h, w)
      else let bytes = mul_size capacity h.elem_size in
        let (granted, w') = malloc e bytes w in
        if granted
        then (
          done,
          record h {
            slots = resize e.junk (slots_in bytes h.elem_size) h.slots;
            capacity = capacity;
          },
          w',
        )
        else (failed, h, w')

  -- The first statements of heap_push.
  pub make_room : Heap A → World A → Status × Heap A × World A
  make_room h w =
      if h.size == h.capacity
      then reserve h (if h.capacity == 0 then init_capacity else mul_size h.capacity 2) w
      else (done, h, w)

  pub push : Heap A → A → World A → Status × Heap A × World A
  push h elem w =
      let (s, h', w') = make_room h w in
      elim s [
        | failed ↦ (failed, h', w')
        | done ↦
            let (granted, w'') = malloc e h'.elem_size w' in
            if granted
            then elim (copy_element h'.elem_copy elem) [
              | none ↦ (failed, h', w'')
              | some staged ↦ (
                done,
                record h' {
                  slots = sift_up h'.elem_compare e.junk h'.size h'.slots staged h'.size;
                  size = h'.size + 1;
                },
                w'',
              )
            ]
            else (failed, h', w'')
      ]

  pub pop : Heap A → World A → Status × Heap A × World A
  pop h w =
      if h.size == 0
      then (failed, h, w)
      else let w' = destroy_element h.elem_destroy (get_or h.slots 0 e.junk) w in
        let size = h.size - 1 in
        if size == 0
        then (done, record h { size = size }, w')
        else let moved = set h.slots 0 (get_or h.slots size e.junk) in
          (
            done,
            record h { size = size; slots = sift_down h.elem_compare e.junk size moved size 0 },
            w',
          )

  pub top : Heap A → Option A
  top h = if h.size == 0 then none else some (get_or h.slots 0 e.junk)

  -- The loop of heap_copy, with what it does when a push fails.
  pub push_each : Heap A → List A → World A → Status × Heap A × World A
  push_each h [] w = (done, h, w)
  push_each h (x ∷ xs) w =
      let (s, h', w') = push h x w in
      elim s [
        | done ↦ push_each h' xs w'
        | failed ↦ let (h'', w'') = clear h' w' in (failed, h'', w'')
      ]

  pub copy : Bool → Heap A → Heap A → World A → Status × Heap A × World A
  copy aliased dst src w =
      if aliased
      then (done, dst, w)
      else let (dst', w') = destroy dst w in
        elim (init src.elem_size src.elem_compare src.elem_destroy src.elem_copy) [
          | none ↦ (failed, dst', w')
          | some fresh ↦
              let (s, h, w'') = reserve fresh src.size w' in
              elim s [ done ↦ push_each h (contents src) w'' | failed ↦ (failed, h, w'') ]
        ]

  pub new : ℕ → (A → A → ℤ) → Bool → Option (A → Option A) → World A → Option (Heap A) × World A
  new elem_size elem_compare elem_destroy elem_copy w =
      let (granted, w') = malloc e sizeof_heap w in
      (if granted then init elem_size elem_compare elem_destroy elem_copy else none, w')

  pub clone : Heap A → World A → Option (Heap A) × World A
  clone src w =
      let (created, w') = new src.elem_size src.elem_compare src.elem_destroy src.elem_copy w in
      elim created [
        | none ↦ (none, w')
        | some h ↦
            let (s, h', w'') = copy false h src w' in
            elim s [ done ↦ (some h', w'') | failed ↦ (none, (destroy h' w'').1) ]
      ]
