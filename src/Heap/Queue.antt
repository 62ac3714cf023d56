-- ===== src/Heap/Queue.antt =====
-- src/heap.c as a priority queue: what heap_push, heap_pop and heap_top do to the elements.
use mathlib.Core.List.{Perm}
use mathlib.Core.List.Perm
use mathlib.Core.Path.{subst₂, subst}
use libcp.Prelude.{
  ℕ, ◌+◌, ◌<◌, ◌≡◌, ◌⊎◌, sym, ap, ◌∙◌, Bool, ◌&&◌, none, some, List, ◌∷◌, arith, if◌then◌else◌,
  length, length-take, set, Option-cases, inl, inr, take, set-take, get_or-take, take-set-append,
}
use libcp.Prelude.Int.{ℤ}
use libcp.Memory.{Env, World, Status, done, failed, malloc, copy_element}
use libcp.Heap.{Heap, contents, parent, sift_up, make_room, push}
use libcp.Heap.Array.{IsOrder, IsHeap, concat-perm}
use libcp.Heap.Up.{UpInv, sift_up-IsHeap, take-sift_up, length-sift_up}
use libcp.Heap.Room.{IsValid, has_room, make_room-Reserved, make_room-status}

-- A heap in memory whose elements are in the heap order.
pub record IsQueue {A : Type 0} (e : Env A) (h : Heap A) : Type 0 where
  pub valid : IsValid h
  pub heap : IsHeap h.elem_compare e.junk (contents h)

module _ {A : Type 0} (e : Env A) where
  -- The heap after the write of heap_push.
  abbrev with_element : Heap A → A → Heap A
  with_element h y = record h {
    slots = sift_up h.elem_compare e.junk h.size h.slots y h.size;
    size = h.size + 1;
  }

  with_element_lem :
      (h : Heap A) (y : A)
      → IsOrder h.elem_compare
      → IsQueue e h
      → h.size < h.capacity
      → IsQueue e (with_element h y) × Perm (contents (with_element h y)) (y ∷ contents h)
  with_element_lem h y order q room = (
    record {
      valid = ground (arith, q.valid, length-sift_up cmp d order n h.slots y n);
      heap = rw prefix up.0;
    },
    rw prefix (
        Perm.trans up.1 (
          rw (← set-take (n + 1) h.slots n y, take-set-append n h.slots y inside)
            (concat-perm (contents h) y))),
  )
    where
      cmp : A → A → ℤ
      cmp = h.elem_compare

      d : A
      d = e.junk

      n : ℕ
      n = h.size

      xs : List A
      xs = take (n + 1) h.slots

      inside : n < length h.slots
      inside = omega (arith, q.valid.storage)

      size : length xs ≡ n + 1
      size = omega (arith, length-take (n + 1) h.slots)

      prefix : contents (with_element h y) ≡ sift_up cmp d n xs y n
      prefix = take-sift_up cmp d order (n + 1) n h.slots y n (omega arith)

      start : UpInv cmp d xs n y
      start = record {
        inside = omega (arith, size);
        edges = λ c p r s. ground (
          arith,
          size,
          length-take n h.slots,
          q.heap c,
          get_or-take n h.slots c d,
          get_or-take n h.slots (parent c) d,
          get_or-take (n + 1) h.slots c d,
          get_or-take (n + 1) h.slots (parent c) d,
        );
        bridged = λ c p r s t. absurd (omega (arith, size));
      }

      up : IsHeap cmp d (sift_up cmp d n xs y n) × Perm (sift_up cmp d n xs y n) (set xs n y)
      up = sift_up-IsHeap cmp d order n xs y n (omega arith) start

  -- The answer to the request for the staging buffer.
  abbrev pub can_stage : Heap A → World A → Bool
  can_stage h w = e.grants (make_room e h w).2.calls h.elem_size

  -- On a valid heap heap_push succeeds exactly when elem_copy copies the element, there is a free
  -- slot or the allocator grants a buffer of twice the size, and it grants the staging buffer.
  pub push_status :
      (h : Heap A) (w : World A) (x : A)
      → IsQueue e h
      → (push e h x w).0 ≡ elim (copy_element h.elem_copy x) [
        | none ↦ failed
        | some _ ↦ if has_room e h w && can_stage h w then done else failed
      ]
  unfolding push malloc
  push_status h w x q = elim (Option-cases (copy_element h.elem_copy x)) [
    | inl p ↦ ground (arith, make_room-Reserved e h w q.valid, make_room-status e h w q.valid)
    | inr (y, p) ↦ ground (arith, make_room-Reserved e h w q.valid, make_room-status e h w q.valid)
  ]

  -- heap_push either adds the copied element or leaves the elements as they are.
  abbrev pub Pushed : Heap A → A → World A → Status × Heap A × World A → Type 0
  Pushed h x w (s, h', w') =
      IsQueue e h'
      × (w'.destroyed ≡ w.destroyed)
      × (((s ≡ done)
            × ((y : A) × (copy_element h.elem_copy x ≡ some y)
                × Perm (contents h') (y ∷ contents h)))
          ⊎ ((s ≡ failed) × (contents h' ≡ contents h)))

  grown-IsQueue : (h : Heap A) (w : World A) → IsQueue e h → IsQueue e (make_room e h w).1
  grown-IsQueue h w q =
      let r = make_room-Reserved e h w q.valid in
      record {
        valid = r.valid;
        heap =
            subst₂ (λ cmp xs. IsHeap cmp e.junk xs) (sym r.kept.elem_compare_kept)
              (sym r.kept.contents_kept) q.heap;
      }

  push_cases-none :
      (h : Heap A) (w : World A) (x : A)
      → IsQueue e h
      → copy_element h.elem_copy x ≡ none
      → ((push e h x w).2.destroyed ≡ w.destroyed)
        × ((push e h x w).0 ≡ failed)
        × ((push e h x w).1 ≡ (make_room e h w).1)
  unfolding push malloc
  push_cases-none h w x q p = ground (arith, make_room-Reserved e h w q.valid)

  push_cases-some :
      (h : Heap A) (w : World A) (x y : A)
      → IsQueue e h
      → copy_element h.elem_copy x ≡ some y
      → ((push e h x w).2.destroyed ≡ w.destroyed)
        × ((((push e h x w).0 ≡ done)
              × ((push e h x w).1 ≡ with_element (make_room e h w).1 y)
              × ((make_room e h w).1.size < (make_room e h w).1.capacity))
            ⊎ (((push e h x w).0 ≡ failed) × ((push e h x w).1 ≡ (make_room e h w).1)))
  unfolding push malloc
  push_cases-some h w x y q p = ground (arith, make_room-Reserved e h w q.valid)

  unchanged :
      (h : Heap A) (w : World A) (x : A)
      → IsQueue e h
      → (push e h x w).2.destroyed ≡ w.destroyed
      → (push e h x w).0 ≡ failed
      → (push e h x w).1 ≡ (make_room e h w).1
      → Pushed h x w (push e h x w)
  unchanged h w x q ds s eq =
      let r = make_room-Reserved e h w q.valid in
      (
        subst (IsQueue e) (sym eq) (grown-IsQueue h w q),
        ds,
        inr (s, ap contents eq ∙ r.kept.contents_kept),
      )

  -- On a heap whose elem_compare is an order, heap_push leaves a valid heap in the heap order and
  -- destroys nothing. Either it succeeds, elem_copy has copied the element, and the elements are
  -- the old ones and the copy, or it fails and the elements are as before.
  pub push_correct :
      (h : Heap A) (w : World A) (x : A)
      → IsOrder h.elem_compare
      → IsQueue e h
      → Pushed h x w (push e h x w)
  push_correct h w x order q = elim (Option-cases (copy_element h.elem_copy x)) [
    | inl p ↦ let (ds, s, eq) = push_cases-none h w x q p in unchanged h w x q ds s eq
    | inr (y, p) ↦
        let (ds, cases) = push_cases-some h w x y q p in
        elim cases [
          | inr (s, eq) ↦ unchanged h w x q ds s eq
          | inl (s, eq, room) ↦
              let kept = (make_room-Reserved e h w q.valid).kept in
              let (queue, perm) =
                with_element_lem (make_room e h w).1 y
                  (subst IsOrder (sym kept.elem_compare_kept) order) (grown-IsQueue h w q) room in
              (
                subst (IsQueue e) (sym eq) queue,
                ds,
                inl (
                  s,
                  (
                    y,
                    p,
                    subst₂ (λ xs ys. Perm xs (y ∷ ys)) (ap contents (sym eq)) kept.contents_kept
                        perm,
                  ),
                ),
              )
        ]
  ]
