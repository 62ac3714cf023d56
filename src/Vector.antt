-- ===== src/Vector.antt =====
-- src/vector.c: the growing array. A vector of elements of type A is the C struct; its accessors
-- return the element at the address that the C function returns, `none` for NULL.
-- A pointer argument is a value here, so the guards against null pointers have no branch.
-- `aliased` says whether `dst` and `src` of vector_copy are one pointer.
pub mod Room
pub mod Moves
pub mod Edit
pub mod Copy
mod Tests
use libcp.Prelude.{
  ℕ, zero, suc, ◌+◌, ◌-◌, ◌*◌, ◌≤◌, ◌<◌, Bool, true, false, Option, none, some, List, [], ◌∷◌, ltb,
  leb, ◌==◌, if◌then◌else◌, get_or, set, take, resize, memmove, length,
}
use libcp.Memory.{
  Env, World, Status, done, failed, malloc, copy_element, destroy_element, destroy_each, mul_size,
  slots_in, max_object,
}

abbrev pub init_capacity : ℕ
init_capacity = 8

-- sizeof(vector) on the platforms with eight-byte pointers.
abbrev pub sizeof_vector : ℕ
sizeof_vector = 48

pub record Vector (A : Type 0) : Type 0 where
  pub capacity : ℕ
  pub size : ℕ
  pub elem_size : ℕ
  pub elem_destroy : Bool
  pub elem_copy : Option (A → Option A)
  pub slots : List A

module _ {A : Type 0} where
  pub init : ℕ → Bool → Option (A → Option A) → Option (Vector A)
  init elem_size elem_destroy elem_copy =
      if elem_size == 0
      then none
      else some (record {
        capacity = 0;
        size = 0;
        elem_size = elem_size;
        elem_destroy = elem_destroy;
        elem_copy = elem_copy;
        slots = [];
      })

  -- The elements that a vector holds, in order.
  abbrev pub contents : Vector A → List A
  contents v = take v.size v.slots

  pub clear : Vector A → World A → Vector A × World A
  clear v w =
      let w' = if v.elem_destroy then destroy_each v.elem_destroy (contents v) w else w in
      (record v { size = 0 }, w')

  pub destroy : Vector A → World A → Vector A × World A
  destroy v w = let (v', w') = clear v w in (record v' { slots = []; capacity = 0 }, w')

module _ {A : Type 0} (e : Env A) where
  pub reserve : Vector A → ℕ → World A → Status × Vector A × World A
  reserve v capacity w =
      if leb capacity v.capacity
      then (done, v, w)
      else let bytes = mul_size capacity v.elem_size in
        let (granted, w') = malloc e bytes w in
        if granted
        then (
          done,
          record v {
            slots = resize e.junk (slots_in bytes v.elem_size) v.slots;
            capacity = capacity;
          },
          w',
        )
        else (failed, v, w')

  -- The first statements of vector_push and vector_insert.
  pub make_room : Vector A → World A → Status × Vector A × World A
  make_room v w =
      if v.size == v.capacity
      then reserve v (if v.capacity == 0 then init_capacity else mul_size v.capacity 2) w
      else (done, v, w)

  pub push : Vector A → A → World A → Status × Vector A × World A
  push v elem w =
      let (s, v', w') = make_room v w in
      elim s [
        | failed ↦ (failed, v', w')
        | done ↦ elim (copy_element v'.elem_copy elem) [
          | none ↦ (failed, v', w')
          | some y ↦ (done, record v' { slots = set v'.slots v'.size y; size = v'.size + 1 }, w')
        ]
      ]

  pub pop : Vector A → World A → Status × Vector A × World A
  pop v w =
      if v.size == 0
      then (failed, v, w)
      else let v' = record v { size = v.size - 1 } in
        (done, v', destroy_element v.elem_destroy (get_or v.slots v'.size e.junk) w)

  pub insert : Vector A → ℕ → A → World A → Status × Vector A × World A
  insert v index elem w =
      if ltb v.size index
      then (failed, v, w)
      else if index == v.size
      then push v elem w
      else let (s, v', w') = make_room v w in
        elim s [
          | failed ↦ (failed, v', w')
          | done ↦
              let moved = memmove (index + 1) index (v'.size - index) v'.slots in
              elim (copy_element v'.elem_copy elem) [
                | none ↦ (
                  failed,
                  record v' { slots = memmove index (index + 1) (v'.size - index) moved },
                  w',
                )
                | some y ↦ (done, record v' { slots = set moved index y; size = v'.size + 1 }, w')
              ]
        ]

  -- `vector_set`; the replacement is staged in a buffer of its own.
  pub assign : Vector A → ℕ → A → World A → Status × Vector A × World A
  assign v index elem w =
      if leb v.size index
      then (failed, v, w)
      else let (granted, w') = malloc e v.elem_size w in
        if granted
        then elim (copy_element v.elem_copy elem) [
          | none ↦ (failed, v, w')
          | some y ↦ (
            done,
            record v { slots = set v.slots index y },
            destroy_element v.elem_destroy (get_or v.slots index e.junk) w',
          )
        ]
        else (failed, v, w')

  pub erase : Vector A → ℕ → World A → Vector A × World A
  erase v index w =
      if leb v.size index
      then (v, w)
      else let w' = destroy_element v.elem_destroy (get_or v.slots index e.junk) w in
        let slots =
          if ltb (index + 1) v.size
          then memmove index (index + 1) (v.size - index - 1) v.slots
          else v.slots in
        (record v { slots = slots; size = v.size - 1 }, w')

  pub at : Vector A → ℕ → Option A
  at v index = if leb v.size index then none else some (get_or v.slots index e.junk)

  pub front : Vector A → Option A
  front v = at v 0

  pub back : Vector A → Option A
  back v = if v.size == 0 then none else some (get_or v.slots (v.size - 1) e.junk)

  -- The loop of vector_copy, with what it does when a push fails.
  pub push_each : Vector A → List A → World A → Status × Vector A × World A
  push_each v [] w = (done, v, w)
  push_each v (x ∷ xs) w =
      let (s, v', w') = push v x w in
      elim s [
        | done ↦ push_each v' xs w'
        | failed ↦ let (v'', w'') = clear v' w' in (failed, v'', w'')
      ]

  pub copy : Bool → Vector A → Vector A → World A → Status × Vector A × World A
  copy aliased dst src w =
      if aliased
      then (done, dst, w)
      else let (dst', w') = destroy dst w in
        elim (init src.elem_size src.elem_destroy src.elem_copy) [
          | none ↦ (failed, dst', w')
          | some fresh ↦
              let (s, v, w'') = reserve fresh src.size w' in
              elim s [ done ↦ push_each v (contents src) w'' | failed ↦ (failed, v, w'') ]
        ]

  pub new : ℕ → Bool → Option (A → Option A) → World A → Option (Vector A) × World A
  new elem_size elem_destroy elem_copy w =
      let (granted, w') = malloc e sizeof_vector w in
      (if granted then init elem_size elem_destroy elem_copy else none, w')

  pub clone : Vector A → World A → Option (Vector A) × World A
  clone src w =
      let (created, w') = new src.elem_size src.elem_destroy src.elem_copy w in
      elim created [
        | none ↦ (none, w')
        | some v ↦
            let (s, v', w'') = copy false v src w' in
            elim s [ done ↦ (some v', w'') | failed ↦ (none, (destroy v' w'').1) ]
      ]
