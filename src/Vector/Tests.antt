-- ===== src/Vector/Tests.antt =====
-- Runs of src/vector.c's functions, and the properties at concrete vectors.
use mathlib.Core.Option
use libcp.Prelude.{ℕ, ◌≡◌, ◌<◌, ◌+◌, ◌^◌, length, refl, true, false, none, some, [], ◌∷◌, arith}
use libcp.Memory.{done, failed, malloc, copy_element, destroy_element, destroy_each}
use libcp.Sequence
use libcp.Samples.{generous, refusing, start, copy_number}
use libcp.Vector.{
  Vector, contents, reserve, make_room, push, pop, insert, assign, erase, at, front, back, init,
  copy, push_each, clone, clear, destroy,
}
use libcp.Vector.Room.{IsValid, reserve_overflow}
use libcp.Vector.Edit.{
  push_refines, pop_refines, insert_refines, assign_refines, erase_refines, reads_refine,
}
use libcp.Vector.Copy.{vector_copy_refines, vector_clone_refines}

-- A full vector of two elements.
abbrev pair : Vector ℕ
pair = record {
  capacity = 2;
  size = 2;
  elem_size = 8;
  elem_destroy = true;
  elem_copy = copy_number;
  slots = 1 ∷ 2 ∷ [];
}

pair-IsValid : IsValid pair
pair-IsValid = omega arith

pushed :
    (contents (push generous pair 3 start).1 ≡ 1 ∷ 2 ∷ 103 ∷ [])
    × ((push refusing pair 3 start).0 ≡ failed)
unfolding push make_room reserve malloc copy_element
pushed = (refl, refl)

insert_and_erase :
    (contents (insert generous pair 1 3 start).1 ≡ 1 ∷ 103 ∷ 2 ∷ [])
    × (contents (insert generous pair 1 13 start).1 ≡ 1 ∷ 2 ∷ [])
    × (contents (erase generous pair 0 start).0 ≡ 2 ∷ [])
    × ((erase generous pair 0 start).1.destroyed ≡ 1 ∷ [])
unfolding insert erase make_room reserve malloc copy_element destroy_element
insert_and_erase = (refl, refl, refl, refl)

push_refines_example :
    let (s, v', w') = push generous pair 3 start in
    IsValid v'
    × ((s, contents v', w'.destroyed) ≡ Sequence.push_back true (some 103) (1 ∷ 2 ∷ []) [])
unfolding copy_element
push_refines_example = push_refines generous pair start pair-IsValid 3

insert_refines_example :
    let (s, v', w') = insert generous pair 1 3 start in
    IsValid v'
    × ((s, contents v', w'.destroyed) ≡ Sequence.insert true (some 103) 1 (1 ∷ 2 ∷ []) [])
unfolding copy_element
insert_refines_example = insert_refines generous pair start pair-IsValid 1 3

assign_refines_example :
    let (s, v', w') = assign generous pair 1 3 start in
    IsValid v'
    × ((s, contents v', w'.destroyed) ≡ Sequence.assign 0 true true (some 103) 1 (1 ∷ 2 ∷ []) [])
unfolding copy_element
assign_refines_example = assign_refines generous pair start pair-IsValid 1 3

pop_refines_example :
    let (s, v', w') = pop generous pair start in
    IsValid v' × ((s, contents v', w'.destroyed) ≡ Sequence.pop_back 0 true (1 ∷ 2 ∷ []) [])
pop_refines_example = pop_refines generous pair start pair-IsValid

erase_refines_example :
    let (v', w') = erase generous pair 0 start in
    IsValid v' × ((contents v', w'.destroyed) ≡ Sequence.erase 0 true 0 (1 ∷ 2 ∷ []) [])
erase_refines_example = erase_refines generous pair start pair-IsValid 0

reads_refine_example :
    (at generous pair 1 ≡ Sequence.at 0 (1 ∷ 2 ∷ []) 1)
    × (front generous pair ≡ Sequence.at 0 (1 ∷ 2 ∷ []) 0)
    × (back generous pair ≡ Sequence.at 0 (1 ∷ 2 ∷ []) 1)
reads_refine_example = reads_refine generous pair start pair-IsValid 1

-- A vector that is copied over `pair`.
abbrev triple : Vector ℕ
triple = record pair { capacity = 4; size = 3; slots = 5 ∷ 6 ∷ 7 ∷ 0 ∷ [] }

triple-IsValid : IsValid triple
triple-IsValid = omega arith

copied :
    (contents (copy generous false pair triple start).1 ≡ 105 ∷ 106 ∷ 107 ∷ [])
    × ((copy generous false pair triple start).2.destroyed ≡ 2 ∷ 1 ∷ [])
unfolding copy destroy clear destroy_each destroy_element init reserve push_each push make_room
    malloc copy_element
copied = (refl, refl)

vector_copy_refines_example :
    let (s, v', w') = copy generous false pair triple start in
    (s, contents v', w'.destroyed)
    ≡ Sequence.copy true true true (copy_element copy_number) (5 ∷ 6 ∷ 7 ∷ []) (1 ∷ 2 ∷ []) []
vector_copy_refines_example =
    vector_copy_refines generous triple triple-IsValid pair start pair-IsValid

vector_clone_refines_example :
    let (cloned, w') = clone generous triple start in
    let (s, ys, ds) =
      Sequence.copy true true true (copy_element copy_number) (5 ∷ 6 ∷ 7 ∷ []) [] [] in
    (Option.map contents cloned ≡ elim s [ done ↦ some ys | failed ↦ none ]) × (w'.destroyed ≡ ds)
vector_clone_refines_example = vector_clone_refines generous triple triple-IsValid start

-- 2^61 + 1 elements of eight bytes: the product wraps round to eight bytes.
reserve_overflow_example :
    let (s, v', w') = reserve generous pair (2 ^ 61 + 1) start in
    (s ≡ done) × (v'.capacity ≡ 2 ^ 61 + 1) × (length v'.slots < v'.capacity)
reserve_overflow_example =
    reserve_overflow generous pair start (2 ^ 61 + 1) (omega arith) (omega arith) (omega arith) refl
