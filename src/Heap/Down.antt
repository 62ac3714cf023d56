-- ===== src/Heap/Down.antt =====
-- The loop of heap_pop.
use mathlib.Core.List.{Perm}
use mathlib.Core.List.Perm
use mathlib.Core.Path.{subst}
use native.Mathlib.Decide.{dec_lt}
use libcp.Prelude.{
  ℕ, zero, suc, ◌+◌, ◌*◌, ◌≤◌, ◌<◌, ◌≡◌, ◌≢◌, ◌⊎◌, refl, ◌∙◌, true, false, List, arith, ◌==◌,
  if◌then◌else◌, length, length-set, get_or, set, get_or-set, Bool-cases, inl, inr, take,
  set-get_or, set-take, get_or-take,
}
use libcp.Prelude.Int.{ℤ, is_negative}
use libcp.Memory.{add_size, max_object}
use libcp.Heap.{parent, left_of, larger_child, swap_slots, sift_down}
use libcp.Heap.Array.{IsOrder, Above, IsHeap, move-perm, Above-self}

module _ {A : Type 0} (d : A) where
  pub length-swap_slots : (xs : List A) (i j : ℕ) → length (swap_slots d xs i j) ≡ length xs
  unfolding swap_slots
  length-swap_slots xs i j = ground (
    arith,
    length-set xs i (get_or xs j d),
    length-set (set xs i (get_or xs j d)) j (get_or xs i d),
  )

  get_or-swap_slots :
      (xs : List A) (i j c : ℕ)
      → i < length xs
      → j < length xs
      → get_or (swap_slots d xs i j) c d
        ≡ (if j == c then get_or xs i d else if i == c then get_or xs j d else get_or xs c d)
  unfolding swap_slots
  get_or-swap_slots xs i j c hi hj = ground (
    arith,
    length-set xs i (get_or xs j d),
    get_or-set xs i c (get_or xs j d) d,
    get_or-set (set xs i (get_or xs j d)) j c (get_or xs i d) d,
  )

  swap_slots-perm :
      (xs : List A) (i j : ℕ)
      → i < length xs
      → j < length xs
      → i ≢ j
      → Perm (swap_slots d xs i j) xs
  unfolding swap_slots
  swap_slots-perm xs i j hi hj ne =
      let apart : (i == j) ≡ false = ground arith in
      rw apart (rw (set-get_or xs i d) at (move-perm xs i j (get_or xs i d) d hi hj ne))

  take-swap_slots :
      (n : ℕ) (xs : List A) (i j : ℕ)
      → i < n
      → j < n
      → take n (swap_slots d xs i j) ≡ swap_slots d (take n xs) i j
  unfolding swap_slots
  take-swap_slots n xs i j hi hj = ground (
    arith,
    get_or-take n xs i d,
    get_or-take n xs j d,
    set-take n xs i (get_or xs j d),
    set-take n (set xs i (get_or xs j d)) j (get_or xs i d),
  )

module _ {A : Type 0} (cmp : A → A → ℤ) (d : A) where
  -- Only the edges below `i` may be out of order.
  pub record DownInv (xs : List A) (i : ℕ) : Type 0 where
    pub edges :
        (c : ℕ)
        → 0 < c
        → c < length xs
        → parent c ≢ i
        → Above cmp (get_or xs (parent c) d) (get_or xs c d)
    pub bridged :
        (c : ℕ)
        → 0 < c
        → c < length xs
        → parent c ≡ i
        → 0 < i
        → Above cmp (get_or xs (parent i) d) (get_or xs c d)

  -- `m` is a child of `i` that may stay above the children of `i`.
  record IsLargerChild (xs : List A) (i m : ℕ) : Type 0 where
    inside : m < length xs
    child : (m ≡ 2 * i + 1) ⊎ (m ≡ 2 * i + 2)
    largest :
        (c : ℕ) → 0 < c → c < length xs → parent c ≡ i → Above cmp (get_or xs m d) (get_or xs c d)

module _ {A : Type 0} (cmp : A → A → ℤ) (d : A) (order : IsOrder cmp) where
  larger_child-IsLargerChild :
      (xs : List A) (i : ℕ)
      → length xs < max_object
      → left_of i < length xs
      → i < length xs
      → IsLargerChild cmp d xs i (larger_child cmp d xs (length xs) (left_of i))
  unfolding larger_child
  larger_child-IsLargerChild xs i small h hi =
      let left = get_or xs (2 * i + 1) d in
      let right = get_or xs (2 * i + 2) d in
      let at : left_of i ≡ 2 * i + 1 = omega arith in
      rw at (record {
        inside = ground arith;
        child = ground arith;
        largest = λ c p q r.
            let which : (c ≡ 2 * i + 1) ⊎ (c ≡ 2 * i + 2) = omega arith in
            let next : add_size (2 * i + 1) 1 ≡ 2 * i + 2 = omega arith in
            ground (
              arith,
              which,
              next,
              Above-self cmp order left,
              Above-self cmp order right,
              order.total left right,
            );
      })

  sink-DownInv :
      (xs : List A) (i m : ℕ)
      → i < length xs
      → DownInv cmp d xs i
      → IsLargerChild cmp d xs i m
      → is_negative (cmp (get_or xs i d) (get_or xs m d)) ≡ true
      → DownInv cmp d (swap_slots d xs i m) m
  sink-DownInv xs i m hi v s below = record {
    edges = λ c p q r. ground (
      arith,
      length-swap_slots d xs i m,
      s.inside,
      s.child,
      get_or-swap_slots d xs i m c,
      get_or-swap_slots d xs i m (parent c),
      v.edges c,
      v.bridged c,
      v.bridged m,
      s.largest c,
      order.total (get_or xs i d) (get_or xs m d) below,
    );
    bridged = λ c p q r t. ground (
      arith,
      length-swap_slots d xs i m,
      s.inside,
      s.child,
      get_or-swap_slots d xs i m c,
      get_or-swap_slots d xs i m (parent m),
      v.edges c,
    );
  }

  -- The array is in order when the loop stops: at a leaf, or above its larger child.
  leaf-IsHeap :
      (xs : List A) (i : ℕ)
      → length xs < max_object
      → i < length xs
      → DownInv cmp d xs i
      → length xs ≤ left_of i
      → IsHeap cmp d xs
  leaf-IsHeap xs i small hi v h c p q = ground (arith, v.edges c)

  settled-IsHeap :
      (xs : List A) (i m : ℕ)
      → DownInv cmp d xs i
      → IsLargerChild cmp d xs i m
      → Above cmp (get_or xs i d) (get_or xs m d)
      → IsHeap cmp d xs
  settled-IsHeap xs i m v s above c p q = ground (
    arith,
    v.edges c,
    s.largest c,
    order.transitive (get_or xs i d) (get_or xs m d) (get_or xs c d),
  )

  abbrev Settled : List A → List A → Type 0
  Settled xs ys = IsHeap cmp d ys × Perm ys xs

  sift_down-leaf :
      (fuel : ℕ) (xs : List A) (n i : ℕ) → n ≤ left_of i → xs ≡ sift_down cmp d (suc fuel) xs n i
  unfolding sift_down
  sift_down-leaf fuel xs n i h = ground arith

  sift_down-stop :
      (fuel : ℕ) (xs : List A) (n i : ℕ)
      → Above cmp (get_or xs i d) (get_or xs (larger_child cmp d xs n (left_of i)) d)
      → xs ≡ sift_down cmp d (suc fuel) xs n i
  unfolding sift_down
  sift_down-stop fuel xs n i h = ground arith

  sift_down-sink :
      (fuel : ℕ) (xs : List A) (n i m : ℕ)
      → left_of i < n
      → m ≡ larger_child cmp d xs n (left_of i)
      → is_negative (cmp (get_or xs i d) (get_or xs m d)) ≡ true
      → sift_down cmp d fuel (swap_slots d xs i m) n m ≡ sift_down cmp d (suc fuel) xs n i
  unfolding sift_down
  sift_down-sink fuel xs n i m h e below = ground arith

  -- A fuel of at least the distance to the end is enough, since the index at least grows by one.
  pub sift_down-IsHeap :
      (fuel : ℕ) (xs : List A) (n i : ℕ)
      → length xs ≡ n
      → n < max_object
      → n ≤ fuel + i
      → i < n
      → DownInv cmp d xs i
      → Settled xs (sift_down cmp d fuel xs n i)
  unfolding sift_down
  sift_down-IsHeap zero xs n i size small f hi v = absurd (omega arith)
  sift_down-IsHeap (suc fuel) xs n i size small f hi v = elim (dec_lt (left_of i) n) [
    | no leaf ↦
        subst (Settled xs) (sift_down-leaf fuel xs n i (omega arith))
          (leaf-IsHeap xs i (omega arith) (omega arith) v (omega arith), Perm.rfl)
    | yes inner ↦
        let m = larger_child cmp d xs n (left_of i) in
        let s : IsLargerChild cmp d xs i m =
          subst (λ k. IsLargerChild cmp d xs i (larger_child cmp d xs k (left_of i))) size
            (larger_child-IsLargerChild xs i (omega arith) (omega arith) (omega arith)) in
        elim (Bool-cases (is_negative (cmp (get_or xs i d) (get_or xs m d)))) [
          | inr above ↦
              subst (Settled xs) (sift_down-stop fuel xs n i above)
                (settled-IsHeap xs i m v s above, Perm.rfl)
          | inl below ↦
              let (heap, perm) =
                sift_down-IsHeap fuel (swap_slots d xs i m) n m (length-swap_slots d xs i m ∙ size)
                  small (omega (arith, s.child)) (omega (arith, s.inside))
                  (sink-DownInv xs i m (omega arith) v s below) in
              subst (Settled xs) (sift_down-sink fuel xs n i m inner refl below) (
                heap,
                Perm.trans perm
                    (swap_slots-perm d xs i m (omega arith) s.inside (omega (arith, s.child))),
              )
        ]
  ]

  pub length-sift_down :
      (fuel : ℕ) (xs : List A) (n i : ℕ) → length (sift_down cmp d fuel xs n i) ≡ length xs
  unfolding sift_down
  length-sift_down zero xs n i = refl
  length-sift_down (suc fuel) xs n i =
      let m = larger_child cmp d xs n (left_of i) in
      ground (arith, length-swap_slots d xs i m, length-sift_down fuel (swap_slots d xs i m) n m)

  larger_child-take :
      (xs : List A) (n left : ℕ)
      → left < n
      → larger_child cmp d (take n xs) n left ≡ larger_child cmp d xs n left
  unfolding larger_child
  larger_child-take xs n left h =
      ground (arith, get_or-take n xs left d, get_or-take n xs (add_size left 1) d)

  larger_child_in : (xs : List A) (n left : ℕ) → left < n → larger_child cmp d xs n left < n
  unfolding larger_child
  larger_child_in xs n left h = ground arith

  larger_child-le :
      (xs : List A) (n left : ℕ) → left < n → n < max_object → left ≤ larger_child cmp d xs n left
  unfolding larger_child
  larger_child-le xs n left h small = ground arith

  -- The loop stays inside the elements in use.
  pub take-sift_down :
      (fuel : ℕ) (xs : List A) (n i : ℕ)
      → i < n
      → take n (sift_down cmp d fuel xs n i) ≡ sift_down cmp d fuel (take n xs) n i
  unfolding sift_down
  take-sift_down zero xs n i h = refl
  take-sift_down (suc fuel) xs n i h =
      let m = larger_child cmp d xs n (left_of i) in
      ground (
        arith,
        larger_child-take xs n (left_of i),
        larger_child_in xs n (left_of i),
        get_or-take n xs i d,
        get_or-take n xs m d,
        take-swap_slots d n xs i m,
        take-sift_down fuel (swap_slots d xs i m) n m,
      )

  -- More fuel changes nothing.
  pub sift_down-fuel :
      (fuel : ℕ) (xs : List A) (n i : ℕ)
      → n ≤ fuel + i
      → n < max_object
      → i < max_object
      → sift_down cmp d (suc fuel) xs n i ≡ sift_down cmp d fuel xs n i
  unfolding sift_down
  sift_down-fuel zero xs n i h small low = ground arith
  sift_down-fuel (suc fuel) xs n i h small low =
      let m = larger_child cmp d xs n (left_of i) in
      ground (
        arith,
        larger_child_in xs n (left_of i),
        larger_child-le xs n (left_of i),
        sift_down-fuel fuel (swap_slots d xs i m) n m,
      )
