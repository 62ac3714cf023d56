-- ===== src/Heap/Pop.antt =====
-- heap_pop and heap_top of src/heap.c.
use mathlib.Core.List.{Perm, Mem, not-mem-nil, mem-cons}
use mathlib.Core.Logic.Or
use mathlib.Core.List.Perm
use mathlib.Core.Path.{subst}
use mathlib.Core.Option.{some-injective}
use mathlib.Core.Bool.{Bool-set}
use native.Mathlib.Decide.{dec_lt}
use libcp.Prelude.{
  ℕ, suc, ◌-◌, ◌<◌, ◌≡◌, ◌⊎◌, refl, sym, ap, ◌∙◌, Bool, some, List, [], ◌∷◌, ◌++◌, arith, length,
  length-set, length-take, get_or, set, get_or-set, inl, inr, take, set-take, get_or-take, take-suc,
}
use libcp.Prelude.Int.{ℤ}
use libcp.Memory.{Env, World, Status, done, failed, destroy_element, max_object}
use libcp.Sequence.{log}
use libcp.Heap.{Heap, contents, parent, sift_down, pop, top}
use libcp.Heap.Array.{IsOrder, Above, IsHeap, set-perm, concat-perm, root-Above, Above-self}
use libcp.Heap.Down.{DownInv, sift_down-IsHeap, take-sift_down, length-sift_down}
use libcp.Heap.Room.{capacity_small}
use libcp.Heap.Queue.{IsQueue}

module _ {A : Type 0} (e : Env A) where
  -- The heap after heap_pop has moved the last element to the root and sifted it down.
  abbrev without_root : Heap A → Heap A
  without_root h = record h {
    size = h.size - 1;
    slots =
        sift_down h.elem_compare e.junk (h.size - 1)
          (set h.slots 0 (get_or h.slots (h.size - 1) e.junk)) (h.size - 1) 0;
  }

  without_root_lem :
      (h : Heap A)
      → IsOrder h.elem_compare
      → IsQueue e h
      → 1 < h.size
      → IsQueue e (without_root h)
        × Perm (get_or h.slots 0 e.junk ∷ contents (without_root h)) (contents h)
  without_root_lem h order q many = (
    record {
      valid =
          ground (arith, q.valid, length-sift_down cmp d order n moved n 0, length-set h.slots 0 u);
      heap = rw prefix down.0;
    },
    rw prefix (
        Perm.trans (Perm.cons _ down.1) (
          rw (whole, set-take n h.slots 0 u)
            (Perm.trans root_out (Perm.symm (concat-perm (take n h.slots) u))))),
  )
    where
      cmp : A → A → ℤ
      cmp = h.elem_compare

      d : A
      d = e.junk

      n : ℕ
      n = h.size - 1

      u : A
      u = get_or h.slots n d

      moved : List A
      moved = set h.slots 0 u

      ys : List A
      ys = take n moved

      inside : n < length h.slots
      inside = omega (arith, q.valid.storage, q.valid.size_in)

      size : length ys ≡ n
      size = omega (arith, length-take n moved, length-set h.slots 0 u)

      prefix : contents (without_root h) ≡ sift_down cmp d n ys n 0
      prefix = take-sift_down cmp d order n moved n 0 (omega arith)

      small : n < max_object
      small = omega (arith, capacity_small h q.valid, q.valid.size_in)

      start : DownInv cmp d ys 0
      start = record {
        edges = λ c p r s. ground (
          arith,
          size,
          length-take h.size h.slots,
          q.heap c,
          get_or-take h.size h.slots c d,
          get_or-take h.size h.slots (parent c) d,
          get_or-take n moved c d,
          get_or-take n moved (parent c) d,
          get_or-set h.slots 0 c u d,
          get_or-set h.slots 0 (parent c) u d,
        );
        bridged = λ c p r s t. absurd (omega arith);
      }

      down : IsHeap cmp d (sift_down cmp d n ys n 0) × Perm (sift_down cmp d n ys n 0) ys
      down = sift_down-IsHeap cmp d order n ys n 0 size small (omega arith) (omega arith) start

      root_out : Perm (get_or h.slots 0 d ∷ set (take n h.slots) 0 u) (u ∷ take n h.slots)
      root_out =
          let same : get_or (take n h.slots) 0 d ≡ get_or h.slots 0 d =
            get_or-take n h.slots 0 d (omega arith) in
          rw same at (set-perm (take n h.slots) 0 u d (omega (arith, length-take n h.slots)))

      whole : contents h ≡ take n h.slots ++ u ∷ []
      whole = ap (λ k. take k h.slots) (omega arith) ∙ take-suc n h.slots d inside

  top_taken : (h : Heap A) → 0 < h.size → top e h ≡ some (get_or h.slots 0 e.junk)
  unfolding top
  top_taken h pos = ground arith

  top-some : (h : Heap A) (t : A) → top e h ≡ some t → 0 < h.size
  unfolding top
  top-some h t taken = ground arith

  Mem-Above :
      (cmp : A → A → ℤ) (xs : List A) (x t : A)
      → ((i : ℕ) → i < length xs → Above cmp t (get_or xs i e.junk))
      → Mem x xs
      → Above cmp t x
  Mem-Above cmp [] x t h m = absurd (not-mem-nil m)
  Mem-Above cmp (y ∷ xs) x t h m =
      Or.elim (Bool-set _ _) (mem-cons.0 m) (λ eq. rw eq (h 0 (omega arith)))
        (Mem-Above cmp xs x t (λ i p. h (suc i) (omega arith)))

  single :
      (h : Heap A)
      → IsQueue e h
      → h.size ≡ 1
      → Perm (get_or h.slots 0 e.junk ∷ take (h.size - 1) h.slots) (contents h)
  single h q one =
      let whole : contents h ≡ get_or h.slots 0 e.junk ∷ [] =
        ap (λ k. take k h.slots) one
        ∙ take-suc 0 h.slots e.junk (omega (arith, q.valid.storage, q.valid.size_in)) in
      let last : h.size - 1 ≡ 0 = omega arith in
      let rest : take (h.size - 1) h.slots ≡ [] = ap (λ k. take k h.slots) last in
      rw (whole, rest) Perm.rfl

  -- In a valid heap whose elem_compare is an order, the element that heap_top returns may stay
  -- above every element of the heap: the comparison with it is never negative.
  pub top-Above :
      (h : Heap A) (t x : A)
      → IsOrder h.elem_compare
      → IsQueue e h
      → top e h ≡ some t
      → Mem x (contents h)
      → Above h.elem_compare t x
  top-Above h t x order q taken m =
      Mem-Above h.elem_compare (contents h) x t
        (λ i p. elim (dec_lt 0 i) [
          | yes pos ↦
              rw (← root) (root-Above h.elem_compare e.junk (contents h) i order q.heap pos p)
          | no first ↦
              let z : i ≡ 0 = omega arith in rw (z, root) (Above-self h.elem_compare order t)
        ])
        m
    where
      root : get_or (contents h) 0 e.junk ≡ t
      root = elim (dec_lt 0 h.size) [
        | yes pos ↦
            get_or-take h.size h.slots 0 e.junk pos
            ∙ some-injective _ _ (sym (top_taken h pos) ∙ taken)
        | no empty ↦ absurd (empty (top-some h t taken))
      ]

  -- What heap_pop does: it fails on an empty heap; else the top is destroyed and the others stay.
  abbrev pub Popped : Heap A → World A → Status × Heap A × World A → Type 0
  Popped h w (s, h', w') =
      IsQueue e h'
      × (((h.size ≡ 0) × (s ≡ failed) × (h' ≡ h) × (w' ≡ w))
          ⊎ ((s ≡ done)
              × ((t : A) × (top e h ≡ some t)
                  × Perm (t ∷ contents h') (contents h)
                  × (w'.destroyed ≡ log h.elem_destroy t w.destroyed))))

  pop_many :
      (h : Heap A) (w : World A)
      → 1 < h.size
      → pop e h w
        ≡ (done, without_root h, destroy_element h.elem_destroy (get_or h.slots 0 e.junk) w)
  unfolding pop
  pop_many h w many = ground arith

  pop_one :
      (h : Heap A) (w : World A)
      → h.size ≡ 1
      → pop e h w ≡ (
        done,
        record h { size = h.size - 1 },
        destroy_element h.elem_destroy (get_or h.slots 0 e.junk) w,
      )
  unfolding pop
  pop_one h w one = ground arith

  pop_none : (h : Heap A) (w : World A) → h.size ≡ 0 → pop e h w ≡ (failed, h, w)
  unfolding pop
  pop_none h w zero_size = ground arith

  destroyed-log :
      (owned : Bool) (x : A) (w : World A)
      → (destroy_element owned x w).destroyed ≡ log owned x w.destroyed
  unfolding destroy_element
  destroyed-log owned x w = ground arith

  -- On a heap whose elem_compare is an order, heap_pop fails and changes nothing when the heap is
  -- empty. Otherwise it succeeds, the element at the top is destroyed where there is an
  -- elem_destroy, the elements left are the others, and they are a valid heap in the heap order
  -- again.
  pub pop_correct :
      (h : Heap A) (w : World A) → IsOrder h.elem_compare → IsQueue e h → Popped h w (pop e h w)
  pop_correct h w order q = elim (dec_lt 1 h.size) [
    | yes many ↦
        let (queue, perm) = without_root_lem h order q many in
        subst (Popped h w) (sym (pop_many h w many)) (
          queue,
          inr (
            refl,
            (
              get_or h.slots 0 e.junk,
              top_taken h (omega arith),
              perm,
              destroyed-log h.elem_destroy _ w,
            ),
          ),
        )
    | no few ↦ elim (dec_lt 0 h.size) [
      | no empty ↦
          let z : h.size ≡ 0 = omega arith in
          subst (Popped h w) (sym (pop_none h w z)) (q, inl (z, refl, refl, refl))
      | yes pos ↦
          let one : h.size ≡ 1 = omega arith in
          subst (Popped h w) (sym (pop_one h w one)) (
            record {
              valid = ground (arith, q.valid);
              heap = λ c p r. absurd (omega (arith, length-take (h.size - 1) h.slots));
            },
            inr (
              refl,
              (
                get_or h.slots 0 e.junk,
                top_taken h pos,
                single h q one,
                destroyed-log h.elem_destroy _ w,
              ),
            ),
          )
    ]
  ]
