-- ===== src/Deque/Copy.antt =====
-- deque_clear, deque_destroy, deque_copy and deque_clone of src/deque.c.
use mathlib.Core.Option
use libcp.Prelude.{
  ◌+◌, ◌*◌, ◌≤◌, ◌<◌, ◌≡◌, refl, Bool, false, ◌||◌, none, some, List, [], ◌∷◌, arith, ◌==◌,
  if◌then◌else◌, length, length-tabulate, get_or, inl, inr, Option-cases,
}
use libcp.Memory.{Env, World, done, failed, malloc, copy_element, max_object, slots_in-mul_size}
use libcp.Sequence
use libcp.Sequence.Cleanup.{
  destroyed-destroy_each, calls-destroy_each, log_each_unowned, copy-failed,
}
use libcp.Deque.{
  Deque, slot, contents, init, reserve, clear, destroy, push_back, push_each, copy, clone, new,
  sizeof_deque,
}
use libcp.Deque.Room.{IsValid, reserve-Reserved}
use libcp.Deque.Edit.{push_in_place, with_back, with_back_lem}

module _ {A : Type 0} (e : Env A) where
  pub clear_refines :
      (v : Deque A) (w : World A)
      → IsValid v
      → let (v', w') = clear e v w in
        IsValid v'
        × (contents e v' ≡ [])
        × (w'.destroyed ≡ Sequence.log_each v.elem_destroy (contents e v) w.destroyed)
  unfolding clear
  clear_refines v w valid = ground (
    arith,
    destroyed-destroy_each v.elem_destroy (contents e v) w,
    log_each_unowned (contents e v) w.destroyed,
  )

  destroy_world :
      (v : Deque A) (w : World A)
      → ((destroy e v w).1.calls ≡ w.calls)
        × ((destroy e v w).1.destroyed
            ≡ Sequence.log_each v.elem_destroy (contents e v) w.destroyed)
  unfolding destroy clear
  destroy_world v w = ground (
    arith,
    destroyed-destroy_each v.elem_destroy (contents e v) w,
    calls-destroy_each v.elem_destroy (contents e v) w,
    log_each_unowned (contents e v) w.destroyed,
  )

  push_each_refines :
      (v : Deque A) (xs : List A) (w : World A)
      → IsValid v
      → v.size + length xs ≤ v.capacity
      → let (s, v', w') = push_each e v xs w in
        IsValid v'
        × ((s, contents e v', w'.destroyed)
            ≡ Sequence.copy_each v.elem_destroy
                (copy_element v.elem_copy)
                xs
                (contents e v)
                w.destroyed)
  unfolding push_each Sequence.copy_each
  push_each_refines v [] w valid h = (valid, refl)
  push_each_refines v (x ∷ xs) w valid h = elim (Option-cases (copy_element v.elem_copy x)) [
    | inl p ↦
        let stopped : push_back e v x w ≡ (failed, v, w) =
          rw p at (push_in_place e v w x (omega arith)) in
        ground (arith, stopped, clear_refines v w valid)
    | inr (y, p) ↦
        let v' : Deque A = with_back e v y in
        let pushed : push_back e v x w ≡ (done, v', w) =
          rw p at (push_in_place e v w x (omega arith)) in
        ground (arith, pushed, with_back_lem e v y valid, push_each_refines v' xs w)
  ]

  -- The deque that deque_copy fills: deque_init's, with the callbacks of `src`.
  abbrev fresh_as : Deque A → Deque A
  fresh_as src = record src { capacity = 0; size = 0; head = 0; slots = [] }

  fresh_as-IsValid : (src : Deque A) → IsValid src → IsValid (fresh_as src)
  fresh_as-IsValid src valid = ground arith

  init-fresh_as :
      (src : Deque A)
      → IsValid src
      → init src.elem_size src.elem_destroy src.elem_copy ≡ some (fresh_as src)
  unfolding init
  init-fresh_as src valid = ground arith

  -- Whether deque_copy gets its buffer.
  abbrev pub copy_granted : Deque A → World A → Bool
  copy_granted src w = src.size == 0 || e.grants w.calls (src.size * src.elem_size)

  module _ (src : Deque A) (valid : IsValid src) where
    size_fits : src.size * src.elem_size < max_object
    size_fits = grind arith

    reserve-fresh_as :
        (w : World A)
        → (reserve e (fresh_as src) src.size w).0 ≡ (if copy_granted src w then done else failed)
    unfolding reserve malloc
    reserve-fresh_as w =
        ground (arith, size_fits, slots_in-mul_size src.size src.elem_size valid.elem_pos)

    -- For valid deques that are not one pointer, the status of deque_copy, the elements of the
    -- destination and the destroyed elements are those of the sequence's copy, wherever the
    -- source's ring begins.
    pub deque_copy_refines :
        (dst : Deque A) (w : World A)
        → IsValid dst
        → let (s, v', w') = copy e false dst src w in
          (s, contents e v', w'.destroyed)
          ≡ Sequence.copy
              (copy_granted src w)
              dst.elem_destroy
              src.elem_destroy
              (copy_element src.elem_copy)
              (contents e src)
              (contents e dst)
              w.destroyed
    unfolding copy destroy Sequence.copy
    deque_copy_refines dst w dst_valid =
        let w1 = (destroy e dst w).1 in
        let v1 = (reserve e (fresh_as src) src.size w1).1 in
        ground (
          arith,
          size_fits,
          init-fresh_as src valid,
          destroy_world dst w,
          reserve-fresh_as w1,
          reserve-Reserved e (fresh_as src) w1 (fresh_as-IsValid src valid) src.size,
          length-tabulate src.size (λ i. get_or src.slots (slot src i) e.junk),
          push_each_refines v1 (contents e src) (reserve e (fresh_as src) src.size w1).2,
        )

    -- deque_clone gives a deque of the copies, or none when one of its requests or copies fails.
    pub deque_clone_refines :
        (w : World A)
        → let (cloned, w') = clone e src w in
          let created = e.grants w.calls sizeof_deque in
          let w1 : World A = record w { calls = w.calls + 1 } in
          let (s, ys, ds) =
            Sequence.copy
              (copy_granted src w1)
              src.elem_destroy
              src.elem_destroy
              (copy_element src.elem_copy)
              (contents e src)
              []
              w.destroyed in
          (Option.map (contents e) cloned
            ≡ (if created then elim s [ done ↦ some ys | failed ↦ none ] else none))
          × (w'.destroyed ≡ (if created then ds else w.destroyed))
    unfolding clone new malloc
    deque_clone_refines w =
        let w1 : World A = record w { calls = w.calls + 1 } in
        ground (
          arith,
          init-fresh_as src valid,
          deque_copy_refines (fresh_as src) w1 (fresh_as-IsValid src valid),
          copy-failed (copy_granted src w1) src.elem_destroy (copy_element src.elem_copy)
              (contents e src) w.destroyed,
          destroy_world (copy e false (fresh_as src) src w1).1
              (copy e false (fresh_as src) src w1).2,
        )
