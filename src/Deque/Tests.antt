-- ===== src/Deque/Tests.antt =====
-- Runs of src/deque.c's functions, and the properties at concrete deques.
use mathlib.Core.Option
use libcp.Prelude.{ℕ, ◌≡◌, refl, true, false, none, some, [], ◌∷◌, arith}
use libcp.Memory.{done, failed, malloc, copy_element, destroy_element, destroy_each}
use libcp.Sequence
use libcp.Samples.{generous, refusing, start, copy_number}
use libcp.Deque.{
  Deque, contents, reserve, make_room, push_back, push_front, pop_back, pop_front, assign, at,
  front, back, init, copy, push_each, clone, clear, destroy,
}
use libcp.Deque.Room.{IsValid}
use libcp.Deque.Edit.{
  push_back_refines, push_front_refines, pop_back_refines, pop_front_refines, assign_refines,
  reads_refine,
}
use libcp.Deque.Copy.{deque_copy_refines, deque_clone_refines}

-- A full ring of three elements, 7 at its front, that goes round the end of its buffer.
abbrev ring : Deque ℕ
ring = record {
  capacity = 3;
  size = 3;
  head = 2;
  elem_size = 8;
  elem_destroy = true;
  elem_copy = copy_number;
  slots = 8 ∷ 9 ∷ 7 ∷ [];
}

ring-IsValid : IsValid ring
ring-IsValid = record {
  elem_pos = omega arith;
  elem_small = omega arith;
  storage = refl;
  size_in = omega arith;
  fits = omega arith;
  head_in = omega arith;
}

ring-contents : contents generous ring ≡ 7 ∷ 8 ∷ 9 ∷ []
ring-contents = refl

pushed :
    (contents generous (push_back generous ring 3 start).1 ≡ 7 ∷ 8 ∷ 9 ∷ 103 ∷ [])
    × (contents generous (push_front generous ring 3 start).1 ≡ 103 ∷ 7 ∷ 8 ∷ 9 ∷ [])
    × (contents generous (push_front generous ring 13 start).1 ≡ 7 ∷ 8 ∷ 9 ∷ [])
    × ((push_front refusing ring 3 start).0 ≡ failed)
unfolding push_back push_front make_room reserve malloc copy_element
pushed = (refl, refl, refl, refl)

push_back_refines_example :
    let (s, q', w') = push_back generous ring 3 start in
    IsValid q'
    × ((s, contents generous q', w'.destroyed)
        ≡ Sequence.push_back true (some 103) (7 ∷ 8 ∷ 9 ∷ []) [])
unfolding copy_element
push_back_refines_example = push_back_refines generous ring start 3 ring-IsValid

push_front_refines_example :
    let (s, q', w') = push_front generous ring 3 start in
    IsValid q'
    × ((s, contents generous q', w'.destroyed)
        ≡ Sequence.push_front true (some 103) (7 ∷ 8 ∷ 9 ∷ []) [])
unfolding copy_element
push_front_refines_example = push_front_refines generous ring start 3 ring-IsValid

pop_back_refines_example :
    let (s, q', w') = pop_back generous ring start in
    IsValid q'
    × ((s, contents generous q', w'.destroyed) ≡ Sequence.pop_back 0 true (7 ∷ 8 ∷ 9 ∷ []) [])
pop_back_refines_example = pop_back_refines generous ring start ring-IsValid

pop_front_refines_example :
    let (s, q', w') = pop_front generous ring start in
    IsValid q'
    × ((s, contents generous q', w'.destroyed) ≡ Sequence.pop_front true (7 ∷ 8 ∷ 9 ∷ []) [])
pop_front_refines_example = pop_front_refines generous ring start ring-IsValid

assign_refines_example :
    let (s, q', w') = assign generous ring 1 3 start in
    IsValid q'
    × ((s, contents generous q', w'.destroyed)
        ≡ Sequence.assign 0 true true (some 103) 1 (7 ∷ 8 ∷ 9 ∷ []) [])
unfolding copy_element
assign_refines_example = assign_refines generous ring start 1 3 ring-IsValid

reads_refine_example :
    (at generous ring 1 ≡ Sequence.at 0 (7 ∷ 8 ∷ 9 ∷ []) 1)
    × (front generous ring ≡ Sequence.at 0 (7 ∷ 8 ∷ 9 ∷ []) 0)
    × (back generous ring ≡ Sequence.at 0 (7 ∷ 8 ∷ 9 ∷ []) 2)
reads_refine_example = reads_refine generous ring 1

-- A deque that is copied over `ring`.
abbrev pair : Deque ℕ
pair = record ring { capacity = 2; size = 2; head = 1; slots = 6 ∷ 5 ∷ [] }

pair-IsValid : IsValid pair
pair-IsValid = record {
  elem_pos = omega arith;
  elem_small = omega arith;
  storage = refl;
  size_in = omega arith;
  fits = omega arith;
  head_in = omega arith;
}

copied :
    (contents generous (copy generous false ring pair start).1 ≡ 105 ∷ 106 ∷ [])
    × ((copy generous false ring pair start).2.destroyed ≡ 9 ∷ 8 ∷ 7 ∷ [])
unfolding copy destroy clear destroy_each destroy_element init reserve push_each push_back make_room
    malloc copy_element
copied = (refl, refl)

deque_copy_refines_example :
    let (s, q', w') = copy generous false ring pair start in
    (s, contents generous q', w'.destroyed)
    ≡ Sequence.copy true true true (copy_element copy_number) (5 ∷ 6 ∷ []) (7 ∷ 8 ∷ 9 ∷ []) []
deque_copy_refines_example = deque_copy_refines generous pair pair-IsValid ring start ring-IsValid

deque_clone_refines_example :
    let (cloned, w') = clone generous pair start in
    let (s, ys, ds) = Sequence.copy true true true (copy_element copy_number) (5 ∷ 6 ∷ []) [] [] in
    (Option.map (contents generous) cloned ≡ elim s [ done ↦ some ys | failed ↦ none ])
    × (w'.destroyed ≡ ds)
deque_clone_refines_example = deque_clone_refines generous pair pair-IsValid start
