-- ===== src/Deque.antt =====
-- src/deque.c: the double-ended queue in a ring. The conventions are those of Vector.
pub mod Ring
pub mod Room
pub mod Edit
pub mod Copy
mod Tests
use libcp.Prelude.{
  ℕ, zero, suc, ◌+◌, ◌-◌, ◌%◌, Bool, true, false, Option, none, some, List, [], ◌∷◌, leb, ltb, ◌==◌,
  if◌then◌else◌, get_or, set, resize, tabulate,
}
use libcp.Memory.{
  Env, World, Status, done, failed, malloc, copy_element, destroy_element, destroy_each, mul_size,
  add_size, slots_in,
}

abbrev pub init_capacity : ℕ
init_capacity = 8

-- sizeof(deque) on the platforms with eight-byte pointers.
abbrev pub sizeof_deque : ℕ
sizeof_deque = 56

pub record Deque (A : Type 0) : Type 0 where
  pub capacity : ℕ
  pub size : ℕ
  pub head : ℕ
  pub elem_size : ℕ
  pub elem_destroy : Bool
  pub elem_copy : Option (A → Option A)
  pub slots : List A

module _ {A : Type 0} where
  abbrev pub slot : Deque A → ℕ → ℕ
  slot q index = add_size q.head index % q.capacity

  pub init : ℕ → Bool → Option (A → Option A) → Option (Deque A)
  init elem_size elem_destroy elem_copy =
      if elem_size == 0
      then none
      else some (record {
        capacity = 0;
        size = 0;
        head = 0;
        elem_size = elem_size;
        elem_destroy = elem_destroy;
        elem_copy = elem_copy;
        slots = [];
      })

module _ {A : Type 0} (e : Env A) where
  -- The elements that a deque holds, from its front to its back.
  abbrev pub contents : Deque A → List A
  contents q = tabulate q.size (λ i. get_or q.slots (slot q i) e.junk)

  pub clear : Deque A → World A → Deque A × World A
  clear q w =
      let w' = if q.elem_destroy then destroy_each q.elem_destroy (contents q) w else w in
      (record q { size = 0; head = 0 }, w')

  pub destroy : Deque A → World A → Deque A × World A
  destroy q w = let (q', w') = clear q w in (record q' { slots = []; capacity = 0; head = 0 }, w')

  -- The elements in the order in which deque_reserve copies them to the new buffer.
  abbrev pub unrolled : Deque A → List A
  unrolled q =
      tabulate q.size (λ i. get_or q.slots (if q.capacity == 0 then 0 else slot q i) e.junk)

  pub reserve : Deque A → ℕ → World A → Status × Deque A × World A
  reserve q capacity w =
      if leb capacity q.capacity
      then (done, q, w)
      else let bytes = mul_size capacity q.elem_size in
        let (granted, w') = malloc e bytes w in
        if granted
        then (
          done,
          record q {
            slots = resize e.junk (slots_in bytes q.elem_size) (unrolled q);
            capacity = capacity;
            head = 0;
          },
          w',
        )
        else (failed, q, w')

  -- The first statements of deque_push_back and deque_push_front.
  pub make_room : Deque A → World A → Status × Deque A × World A
  make_room q w =
      if q.size == q.capacity
      then reserve q (if q.capacity == 0 then init_capacity else mul_size q.capacity 2) w
      else (done, q, w)

  pub push_back : Deque A → A → World A → Status × Deque A × World A
  push_back q elem w =
      let (s, q', w') = make_room q w in
      elim s [
        | failed ↦ (failed, q', w')
        | done ↦ elim (copy_element q'.elem_copy elem) [
          | none ↦ (failed, q', w')
          | some y ↦
              (done, record q' { slots = set q'.slots (slot q' q'.size) y; size = q'.size + 1 }, w')
        ]
      ]

  -- The head moves back by one before the element is copied, and forth again if that fails.
  pub push_front : Deque A → A → World A → Status × Deque A × World A
  push_front q elem w =
      let (s, q', w') = make_room q w in
      elim s [
        | failed ↦ (failed, q', w')
        | done ↦
            let back = if q'.head == 0 then q'.capacity - 1 else q'.head - 1 in
            let head = if ltb 0 q'.size then back else q'.head in
            elim (copy_element q'.elem_copy elem) [
              | none ↦ (
                failed,
                record q' { head = if ltb 0 q'.size then add_size head 1 % q'.capacity else head },
                w',
              )
              | some y ↦ (
                done,
                record q' { head = head; slots = set q'.slots head y; size = q'.size + 1 },
                w',
              )
            ]
      ]

  pub pop_back : Deque A → World A → Status × Deque A × World A
  pop_back q w =
      if q.size == 0
      then (failed, q, w)
      else let w' =
          destroy_element q.elem_destroy (get_or q.slots (slot q (q.size - 1)) e.junk) w in
        let size = q.size - 1 in
        (done, record q { size = size; head = if size == 0 then 0 else q.head }, w')

  pub pop_front : Deque A → World A → Status × Deque A × World A
  pop_front q w =
      if q.size == 0
      then (failed, q, w)
      else let w' = destroy_element q.elem_destroy (get_or q.slots q.head e.junk) w in
        let size = q.size - 1 in
        let head = if size == 0 then 0 else add_size q.head 1 % q.capacity in
        (done, record q { size = size; head = head }, w')

  -- `deque_set`; the replacement is staged in a buffer of its own.
  pub assign : Deque A → ℕ → A → World A → Status × Deque A × World A
  assign q index elem w =
      if leb q.size index
      then (failed, q, w)
      else let (granted, w') = malloc e q.elem_size w in
        if granted
        then elim (copy_element q.elem_copy elem) [
          | none ↦ (failed, q, w')
          | some y ↦ (
            done,
            record q { slots = set q.slots (slot q index) y },
            destroy_element q.elem_destroy (get_or q.slots (slot q index) e.junk) w',
          )
        ]
        else (failed, q, w')

  pub at : Deque A → ℕ → Option A
  at q index = if leb q.size index then none else some (get_or q.slots (slot q index) e.junk)

  pub front : Deque A → Option A
  front q = at q 0

  pub back : Deque A → Option A
  back q = if q.size == 0 then none else some (get_or q.slots (slot q (q.size - 1)) e.junk)

  -- The loop of deque_copy, with what it does when a push fails.
  pub push_each : Deque A → List A → World A → Status × Deque A × World A
  push_each q [] w = (done, q, w)
  push_each q (x ∷ xs) w =
      let (s, q', w') = push_back q x w in
      elim s [
        | done ↦ push_each q' xs w'
        | failed ↦ let (q'', w'') = clear q' w' in (failed, q'', w'')
      ]

  pub copy : Bool → Deque A → Deque A → World A → Status × Deque A × World A
  copy aliased dst src w =
      if aliased
      then (done, dst, w)
      else let (dst', w') = destroy dst w in
        elim (init src.elem_size src.elem_destroy src.elem_copy) [
          | none ↦ (failed, dst', w')
          | some fresh ↦
              let (s, q, w'') = reserve fresh src.size w' in
              elim s [ done ↦ push_each q (contents src) w'' | failed ↦ (failed, q, w'') ]
        ]

  pub new : ℕ → Bool → Option (A → Option A) → World A → Option (Deque A) × World A
  new elem_size elem_destroy elem_copy w =
      let (granted, w') = malloc e sizeof_deque w in
      (if granted then init elem_size elem_destroy elem_copy else none, w')

  pub clone : Deque A → World A → Option (Deque A) × World A
  clone src w =
      let (created, w') = new src.elem_size src.elem_destroy src.elem_copy w in
      elim created [
        | none ↦ (none, w')
        | some q ↦
            let (s, q', w'') = copy false q src w' in
            elim s [ done ↦ (some q', w'') | failed ↦ (none, (destroy q' w'').1) ]
      ]
