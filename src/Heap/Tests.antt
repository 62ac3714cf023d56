-- ===== src/Heap/Tests.antt =====
-- Runs of src/heap.c's functions, and the properties at concrete heaps.
use mathlib.Core.List.{mem-cons_of_mem, mem-cons_self}
use libcp.Prelude.{ℕ, zero, suc, ◌≡◌, refl, true, [], ◌∷◌, arith}
use libcp.Prelude.Int.{ℤ, sub_ℕ}
use libcp.Memory.{done, malloc, copy_element, destroy_element}
use libcp.Samples.{generous, start, copy_number}
use libcp.Heap.{
  Heap, contents, reserve, make_room, push, pop, top, sift_up, sift_down, swap_slots, larger_child,
}
use libcp.Heap.Array.{IsOrder, Above, IsHeap}
use libcp.Heap.Queue.{IsQueue, Pushed, push_correct, push_status}
use libcp.Heap.Pop.{Popped, pop_correct, top-Above}

-- The difference of two numbers, as int_cmp of the repository's tests has it.
abbrev by_value : ℕ → ℕ → ℤ
by_value a b = sub_ℕ a b

by_value-IsOrder : IsOrder by_value
by_value-IsOrder = record { total = λ a b h. ground arith; transitive = λ a b c h k. ground arith }

-- A full heap of four elements.
abbrev four : Heap ℕ
four = record {
  capacity = 4;
  size = 4;
  elem_size = 8;
  elem_compare = by_value;
  elem_destroy = true;
  elem_copy = copy_number;
  slots = 9 ∷ 7 ∷ 8 ∷ 1 ∷ [];
}

four-IsHeap : IsHeap by_value 0 (9 ∷ 7 ∷ 8 ∷ 1 ∷ [])
four-IsHeap zero p q = elim p [ ]
four-IsHeap (suc zero) p q = refl
four-IsHeap (suc (suc zero)) p q = refl
four-IsHeap (suc (suc (suc zero))) p q = refl
four-IsHeap (suc (suc (suc (suc c)))) p q = absurd (omega arith)

four-IsQueue : IsQueue generous four
four-IsQueue = record { valid = omega arith; heap = four-IsHeap }

pushed :
    (contents (push generous four 3 start).1 ≡ 103 ∷ 9 ∷ 8 ∷ 1 ∷ 7 ∷ [])
    × (contents (pop generous four start).1 ≡ 8 ∷ 7 ∷ 1 ∷ [])
    × ((pop generous four start).2.destroyed ≡ 9 ∷ [])
unfolding push pop sift_up sift_down swap_slots larger_child make_room reserve malloc copy_element
    destroy_element
pushed = (refl, refl, refl)

push_correct_example : Pushed generous four 3 start (push generous four 3 start)
push_correct_example = push_correct generous four start 3 by_value-IsOrder four-IsQueue

push_status_example : (push generous four 3 start).0 ≡ done
unfolding make_room reserve malloc copy_element
push_status_example = push_status generous four start 3 four-IsQueue

pop_correct_example : Popped generous four start (pop generous four start)
pop_correct_example = pop_correct generous four start by_value-IsOrder four-IsQueue

top-Above_example : Above by_value 9 8
unfolding top
top-Above_example =
    top-Above generous four 9 8 by_value-IsOrder four-IsQueue refl
      (mem-cons_of_mem 9 (mem-cons_of_mem 7 mem-cons_self))
