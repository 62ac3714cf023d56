-- ===== src/Heap/Up.antt =====
-- The loop of heap_push.
use mathlib.Core.List.{Perm}
use mathlib.Core.List.Perm
use mathlib.Core.Path.{subst}
use native.Mathlib.Decide.{dec_lt}
use libcp.Prelude.{
  ℕ, zero, suc, ◌≤◌, ◌<◌, ◌≡◌, ◌≢◌, true, List, arith, ◌==◌, if◌then◌else◌, length, length-set,
  get_or, set, get_or-set, Bool-cases, inl, inr, take, set-take, get_or-take,
}
use libcp.Prelude.Int.{ℤ, is_negative}
use libcp.Heap.{parent, sift_up}
use libcp.Heap.Array.{IsOrder, Above, IsHeap, move-perm}

module _ {A : Type 0} (cmp : A → A → ℤ) (d : A) where
  -- The array with `staged` in the hole at `i`.
  abbrev filled : List A → ℕ → A → ℕ → A
  filled xs i staged j = if i == j then staged else get_or xs j d

  -- Only the edge above the hole may be out of order.
  pub record UpInv (xs : List A) (i : ℕ) (staged : A) : Type 0 where
    pub inside : i < length xs
    pub edges :
        (c : ℕ)
        → 0 < c
        → c < length xs
        → c ≢ i
        → Above cmp (filled xs i staged (parent c)) (filled xs i staged c)
    pub bridged :
        (c : ℕ)
        → 0 < c
        → c < length xs
        → parent c ≡ i
        → 0 < i
        → Above cmp (filled xs i staged (parent i)) (filled xs i staged c)

module _ {A : Type 0} (cmp : A → A → ℤ) (d : A) (order : IsOrder cmp) where
  stop-IsHeap :
      (xs : List A) (i : ℕ) (staged : A)
      → UpInv cmp d xs i staged
      → (0 < i → Above cmp (get_or xs (parent i) d) staged)
      → IsHeap cmp d (set xs i staged)
  stop-IsHeap xs i staged v above c p q = ground (
    arith,
    length-set xs i staged,
    get_or-set xs i c staged d,
    get_or-set xs i (parent c) staged d,
    v.inside,
    v.edges c,
    above,
  )

  rise-UpInv :
      (xs : List A) (i : ℕ) (staged : A)
      → UpInv cmp d xs i staged
      → 0 < i
      → is_negative (cmp (get_or xs (parent i) d) staged) ≡ true
      → UpInv cmp d (set xs i (get_or xs (parent i) d)) (parent i) staged
  rise-UpInv xs i staged v pos below =
      let u = get_or xs (parent i) d in
      record {
        inside = ground (arith, length-set xs i u, v.inside);
        edges = λ c p q r. ground (
          arith,
          length-set xs i u,
          v.inside,
          get_or-set xs i c u d,
          get_or-set xs i (parent c) u d,
          v.edges c,
          v.bridged c,
          order.total u staged below,
          order.transitive staged u (get_or xs c d),
        );
        bridged = λ c p q r s. ground (
          arith,
          length-set xs i u,
          v.inside,
          get_or-set xs i c u d,
          get_or-set xs i (parent (parent i)) u d,
          v.edges c,
          v.edges (parent i),
          order.transitive (get_or xs (parent (parent i)) d) u (get_or xs c d),
        );
      }

  -- What the loop ends with: the heap order, and `staged` in place of one entry.
  abbrev Settled : List A → ℕ → A → List A → Type 0
  Settled xs i staged ys = IsHeap cmp d ys × Perm ys (set xs i staged)

  sift_up-root :
      (fuel : ℕ) (xs : List A) (staged : A) (i : ℕ)
      → i ≡ 0
      → set xs i staged ≡ sift_up cmp d (suc fuel) xs staged i
  unfolding sift_up
  sift_up-root fuel xs staged i h = ground arith

  sift_up-stop :
      (fuel : ℕ) (xs : List A) (staged : A) (i : ℕ)
      → Above cmp (get_or xs (parent i) d) staged
      → set xs i staged ≡ sift_up cmp d (suc fuel) xs staged i
  unfolding sift_up
  sift_up-stop fuel xs staged i h = ground arith

  sift_up-rise :
      (fuel : ℕ) (xs : List A) (staged : A) (i : ℕ)
      → 0 < i
      → is_negative (cmp (get_or xs (parent i) d) staged) ≡ true
      → sift_up cmp d fuel (set xs i (get_or xs (parent i) d)) staged (parent i)
        ≡ sift_up cmp d (suc fuel) xs staged i
  unfolding sift_up
  sift_up-rise fuel xs staged i pos h = ground arith

  -- A fuel of at least `i` is enough, since the hole moves to an index below its own.
  pub sift_up-IsHeap :
      (fuel : ℕ) (xs : List A) (staged : A) (i : ℕ)
      → i ≤ fuel
      → UpInv cmp d xs i staged
      → Settled xs i staged (sift_up cmp d fuel xs staged i)
  unfolding sift_up
  sift_up-IsHeap zero xs staged i f v =
      (stop-IsHeap xs i staged v (λ pos. absurd (omega arith)), Perm.rfl)
  sift_up-IsHeap (suc fuel) xs staged i f v = elim (dec_lt 0 i) [
    | no root ↦
        subst (Settled xs i staged) (sift_up-root fuel xs staged i (omega arith))
          (stop-IsHeap xs i staged v (λ pos. absurd (root pos)), Perm.rfl)
    | yes pos ↦ elim (Bool-cases (is_negative (cmp (get_or xs (parent i) d) staged))) [
      | inr above ↦
          subst (Settled xs i staged) (sift_up-stop fuel xs staged i above)
            (stop-IsHeap xs i staged v (λ _. above), Perm.rfl)
      | inl below ↦
          let u = get_or xs (parent i) d in
          let (heap, perm) =
            sift_up-IsHeap fuel (set xs i u) staged (parent i) (omega arith)
              (rise-UpInv xs i staged v pos below) in
          subst (Settled xs i staged) (sift_up-rise fuel xs staged i pos below) (
            heap,
            Perm.trans perm (
                move-perm xs i (parent i) staged d v.inside (omega (arith, v.inside))
                  (omega arith)),
          )
    ]
  ]

  -- More fuel changes nothing.
  pub sift_up-fuel :
      (fuel : ℕ) (xs : List A) (staged : A) (i : ℕ)
      → i ≤ fuel
      → sift_up cmp d (suc fuel) xs staged i ≡ sift_up cmp d fuel xs staged i
  unfolding sift_up
  sift_up-fuel zero xs staged i f = ground arith
  sift_up-fuel (suc fuel) xs staged i f =
      ground (arith, sift_up-fuel fuel (set xs i (get_or xs (parent i) d)) staged (parent i))

  -- The loop stays inside the elements in use.
  pub take-sift_up :
      (n fuel : ℕ) (xs : List A) (staged : A) (i : ℕ)
      → i < n
      → take n (sift_up cmp d fuel xs staged i) ≡ sift_up cmp d fuel (take n xs) staged i
  unfolding sift_up
  take-sift_up n zero xs staged i h = set-take n xs i staged
  take-sift_up n (suc fuel) xs staged i h = ground (
    arith,
    set-take n xs i staged,
    set-take n xs i (get_or xs (parent i) d),
    get_or-take n xs (parent i) d,
    take-sift_up n fuel (set xs i (get_or xs (parent i) d)) staged (parent i),
  )

  pub length-sift_up :
      (fuel : ℕ) (xs : List A) (staged : A) (i : ℕ)
      → length (sift_up cmp d fuel xs staged i) ≡ length xs
  unfolding sift_up
  length-sift_up zero xs staged i = length-set xs i staged
  length-sift_up (suc fuel) xs staged i = ground (
    arith,
    length-set xs i staged,
    length-set xs i (get_or xs (parent i) d),
    length-sift_up fuel (set xs i (get_or xs (parent i) d)) staged (parent i),
  )
