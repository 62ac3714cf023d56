-- ===== src/Vector/Copy.antt =====
-- vector_clear, vector_destroy, vector_copy and vector_clone of src/vector.c.
use mathlib.Core.Option
use libcp.Prelude.{
  ◌+◌, ◌*◌, ◌≤◌, ◌<◌, ◌≡◌, refl, Bool, false, ◌||◌, none, some, List, [], ◌∷◌, arith, ◌==◌,
  if◌then◌else◌, length, length-take, length-set, set, inl, inr, Option-cases, take-set-append,
}
use libcp.Memory.{Env, World, done, failed, malloc, copy_element, max_object, slots_in-mul_size}
use libcp.Sequence
use libcp.Sequence.Cleanup.{
  destroyed-destroy_each, calls-destroy_each, log_each_unowned, copy-failed,
}
use libcp.Vector.{
  Vector, contents, init, reserve, clear, destroy, push, push_each, copy, clone, new, sizeof_vector,
}
use libcp.Vector.Room.{IsValid, reserve-Reserved}
use libcp.Vector.Edit.{push_in_place}

module _ {A : Type 0} where
  pub clear_refines :
      (v : Vector A) (w : World A)
      → IsValid v
      → let (v', w') = clear v w in
        IsValid v'
        × (contents v' ≡ [])
        × (w'.destroyed ≡ Sequence.log_each v.elem_destroy (contents v) w.destroyed)
  unfolding clear
  clear_refines v w valid = ground (
    arith,
    destroyed-destroy_each v.elem_destroy (contents v) w,
    log_each_unowned (contents v) w.destroyed,
  )

  destroy_world :
      (v : Vector A) (w : World A)
      → ((destroy v w).1.calls ≡ w.calls)
        × ((destroy v w).1.destroyed ≡ Sequence.log_each v.elem_destroy (contents v) w.destroyed)
  unfolding destroy clear
  destroy_world v w = ground (
    arith,
    destroyed-destroy_each v.elem_destroy (contents v) w,
    calls-destroy_each v.elem_destroy (contents v) w,
    log_each_unowned (contents v) w.destroyed,
  )

module _ {A : Type 0} (e : Env A) where
  push_each_refines :
      (v : Vector A) (xs : List A) (w : World A)
      → IsValid v
      → v.size + length xs ≤ v.capacity
      → let (s, v', w') = push_each e v xs w in
        IsValid v'
        × ((s, contents v', w'.destroyed)
            ≡ Sequence.copy_each v.elem_destroy
                (copy_element v.elem_copy)
                xs
                (contents v)
                w.destroyed)
  unfolding push_each Sequence.copy_each
  push_each_refines v [] w valid h = (valid, refl)
  push_each_refines v (x ∷ xs) w valid h = elim (Option-cases (copy_element v.elem_copy x)) [
    | inl p ↦
        let stopped : push e v x w ≡ (failed, v, w) =
          rw p at (push_in_place e v w valid x (omega arith)) in
        ground (arith, stopped, clear_refines v w valid)
    | inr (y, p) ↦
        let v' : Vector A = record v { slots = set v.slots v.size y; size = v.size + 1 } in
        let pushed : push e v x w ≡ (done, v', w) =
          rw p at (push_in_place e v w valid x (omega arith)) in
        ground (
          arith,
          pushed,
          take-set-append v.size v.slots y,
          length-set v.slots v.size y,
          push_each_refines v' xs w,
        )
  ]

  -- The vector that vector_copy fills: vector_init's, with the callbacks of `src`.
  abbrev fresh_as : Vector A → Vector A
  fresh_as src = record src { capacity = 0; size = 0; slots = [] }

  fresh_as-IsValid : (src : Vector A) → IsValid src → IsValid (fresh_as src)
  fresh_as-IsValid src valid = ground arith

  init-fresh_as :
      (src : Vector A)
      → IsValid src
      → init src.elem_size src.elem_destroy src.elem_copy ≡ some (fresh_as src)
  unfolding init
  init-fresh_as src valid = ground arith

  -- Whether vector_copy gets its buffer.
  abbrev pub copy_granted : Vector A → World A → Bool
  copy_granted src w = src.size == 0 || e.grants w.calls (src.size * src.elem_size)

  module _ (src : Vector A) (valid : IsValid src) where
    size_fits : src.size * src.elem_size < max_object
    size_fits = grind arith

    reserve-fresh_as :
        (w : World A)
        → (reserve e (fresh_as src) src.size w).0 ≡ (if copy_granted src w then done else failed)
    unfolding reserve malloc
    reserve-fresh_as w =
        ground (arith, size_fits, slots_in-mul_size src.size src.elem_size valid.elem_pos)

    -- For valid vectors that are not one pointer, the status of vector_copy, the elements of the
    -- destination and the destroyed elements are those of the sequence's copy: the old elements are
    -- destroyed, then each element is copied in order, and when the buffer is refused or an element
    -- cannot be copied the destination is empty and the copies made so far are destroyed.
    pub vector_copy_refines :
        (dst : Vector A) (w : World A)
        → IsValid dst
        → let (s, v', w') = copy e false dst src w in
          (s, contents v', w'.destroyed)
          ≡ Sequence.copy
              (copy_granted src w)
              dst.elem_destroy
              src.elem_destroy
              (copy_element src.elem_copy)
              (contents src)
              (contents dst)
              w.destroyed
    unfolding copy destroy Sequence.copy
    vector_copy_refines dst w dst_valid =
        let w1 = (destroy dst w).1 in
        let v1 = (reserve e (fresh_as src) src.size w1).1 in
        ground (
          arith,
          size_fits,
          init-fresh_as src valid,
          destroy_world dst w,
          reserve-fresh_as w1,
          reserve-Reserved e (fresh_as src) w1 (fresh_as-IsValid src valid) src.size,
          length-take src.size src.slots,
          push_each_refines v1 (contents src) (reserve e (fresh_as src) src.size w1).2,
        )

    -- For a valid vector vector_clone returns a vector of the copied elements when the allocator
    -- grants the struct and the buffer and every element is copied, and NULL otherwise, having
    -- destroyed the copies made so far and nothing else.
    pub vector_clone_refines :
        (w : World A)
        → let (cloned, w') = clone e src w in
          let created = e.grants w.calls sizeof_vector in
          let w1 : World A = record w { calls = w.calls + 1 } in
          let (s, ys, ds) =
            Sequence.copy
              (copy_granted src w1)
              src.elem_destroy
              src.elem_destroy
              (copy_element src.elem_copy)
              (contents src)
              []
              w.destroyed in
          (Option.map contents cloned
            ≡ (if created then elim s [ done ↦ some ys | failed ↦ none ] else none))
          × (w'.destroyed ≡ (if created then ds else w.destroyed))
    unfolding clone new malloc
    vector_clone_refines w =
        let w1 : World A = record w { calls = w.calls + 1 } in
        ground (
          arith,
          init-fresh_as src valid,
          vector_copy_refines (fresh_as src) w1 (fresh_as-IsValid src valid),
          copy-failed (copy_granted src w1) src.elem_destroy (copy_element src.elem_copy)
              (contents src) w.destroyed,
          destroy_world (copy e false (fresh_as src) src w1).1
              (copy e false (fresh_as src) src w1).2,
        )
