-- ===== src/Segtree/Create.antt =====
-- segtree_init of src/segtree.c.
use native.Mathlib.Nat.{mod-eq_of_lt, pow-le-pow_right}
use native.Mathlib.Numerals.{unary_clauses}
use native.Mathlib.Decide.{dec_lt}
use libcp.Prelude.{
  ℕ, zero, suc, ◌+◌, ◌-◌, ◌*◌, ◌/◌, ◌^◌, ◌≤◌, ◌<◌, ◌≡◌, ◌⊎◌, refl, sym, ap, ◌∙◌, false, ◌&&◌, some,
  List, arith, ltb, leb, ◌==◌, if◌then◌else◌, length, length-set, length-replicate, replicate,
  get_or, set, get_or-set, Bool-cases, inl, inr,
}
use libcp.Memory.{
  Env, World, Status, done, failed, malloc, mul_size, add_size, size_mod, slots_in-mul_size,
}
use libcp.Segtree.{Merge, Segtree, fill_from, init, get, next_capacity, destroy}
use libcp.Segtree.Span.{IsMonoid}
use libcp.Segtree.Capacity.{next_capacity_correct}
use libcp.Segtree.Query.{IsBuilt}
use libcp.Segtree.Build.{length-fill_from}

le-mul_pos : (n m : ℕ) → 0 < m → n ≤ n * m
le-mul_pos n m pos = grind arith

fill_from-get :
    {A : Type 0} (rounds i : ℕ) (v : A) (nodes : List A) (k : ℕ) (d : A)
    → i + rounds ≤ length nodes
    → get_or (fill_from rounds i v nodes) k d
      ≡ (if leb i k && ltb k (i + rounds) then v else get_or nodes k d)
unfolding fill_from
fill_from-get zero i v nodes k d h = ground arith
fill_from-get (suc rounds) i v nodes k d h =
    fill_from-get rounds (i + 1) v (set nodes i v) k d (omega (arith, h, length-set nodes i v))
    ∙ ground (arith, get_or-set nodes i k v d)

-- Powers of two between a number and its double are one.
power_le : (m n bits : ℕ) → m ≤ 2 ^ n → 2 ^ bits < m + m → bits ≤ n
power_le m n bits above below = elim (dec_lt n bits) [
  | no low ↦ omega (arith, low)
  | yes high ↦
      let more : 2 ^ (n + 1) ≤ 2 ^ bits =
        pow-le-pow_right (omega arith) {i = n + 1} (omega (arith, high)) in
      let twice : 2 ^ (n + 1) ≡ 2 ^ n * 2 = simp unary_clauses refl in
      absurd (omega (arith, more, twice, above, below))
]

one_power : (m n bits : ℕ) → m ≤ 2 ^ n → 2 ^ n < m + m → m ≤ 2 ^ bits → 2 ^ bits < m + m → n ≡ bits
one_power m n bits a b a' b' = omega (arith, power_le m n bits a b', power_le m bits n a' b)

-- How many leaves segtree_init asks segtree_next_capacity for.
abbrev pub leaves : ℕ → ℕ
leaves size = if ltb 0 size then size else 1

module _ {A : Type 0} (e : Env A) (op : A → A → A) (neutral : A) (merge : Merge A)
    (monoid : IsMonoid merge op neutral) where
  -- An array with the identity everywhere is built.
  all_neutral : ℕ → ℕ → ℕ → Segtree A
  all_neutral size capacity elem_size = record {
    size = size;
    capacity = capacity;
    elem_size = elem_size;
    merge = merge;
    identity = some neutral;
    nodes = fill_from (capacity * 2) 0 neutral (replicate (capacity * 2) e.junk);
  }

  all_neutral-IsBuilt :
      (size capacity elem_size : ℕ)
      → 0 < capacity
      → size ≤ capacity
      → capacity * 2 < size_mod
      → IsBuilt e op neutral (all_neutral size capacity elem_size)
  unfolding all_neutral
  all_neutral-IsBuilt size capacity elem_size pos inside fits =
      let blank = replicate (capacity * 2) e.junk in
      let long : length blank ≡ capacity * 2 = length-replicate (capacity * 2) e.junk in
      let at_node : (k : ℕ)
          → k < capacity * 2
          → get_or (fill_from (capacity * 2) 0 neutral blank) k e.junk ≡ neutral =
        λ k h. ground (arith, fill_from-get (capacity * 2) 0 neutral blank k e.junk) in
      record {
        monoid = monoid;
        has_identity = refl;
        capacity_pos = pos;
        size_in = inside;
        fits = fits;
        nodes_length = length-fill_from (capacity * 2) 0 neutral blank ∙ long;
        pairs = λ k a b.
            at_node k (omega arith)
            ∙ sym (monoid.left_neutral neutral)
            ∙ sym (ap (λ z. op z neutral) (at_node (k * 2) (omega arith)))
            ∙ sym (
                ap (op (get_or (fill_from (capacity * 2) 0 neutral blank) (k * 2) e.junk))
                  (at_node (k * 2 + 1) (omega arith)));
      }

  -- Every value is the identity.
  all_neutral-get :
      (size capacity elem_size : ℕ)
      → size ≤ capacity
      → capacity * 2 < size_mod
      → (k : ℕ) → k < size
      → get e (all_neutral size capacity elem_size) k ≡ some neutral
  unfolding all_neutral get
  all_neutral-get size capacity elem_size inside fits k h =
      let blank = replicate (capacity * 2) e.junk in
      let long : length blank ≡ capacity * 2 = length-replicate (capacity * 2) e.junk in
      let below : leb size k ≡ false = ground (arith, h) in
      let leaf : add_size capacity k ≡ capacity + k =
        mod-eq_of_lt (omega (arith, h, inside, fits)) in
      rw (below, leaf)
        (ap some
          (ground (arith, fill_from-get (capacity * 2) 0 neutral blank (capacity + k) e.junk)))

  -- What segtree_init does with the capacity it has found.
  pub Created : Segtree A → ℕ → ℕ → ℕ → World A → Status × Segtree A × World A → Type 0
  Created dst size capacity elem_size w r =
      (r.0 ≡ (
        if e.grants w.calls elem_size && e.grants (w.calls + 1) (capacity * 2 * elem_size)
        then done
        else failed))
      × (((r.0 ≡ done)
            × (r.1.size ≡ size)
            × (r.1.capacity ≡ capacity)
            × IsBuilt e op neutral r.1
            × ((k : ℕ) → k < size → get e r.1 k ≡ some neutral))
          ⊎ ((r.0 ≡ failed) × (r.1 ≡ destroy dst)))

  init_correct_at :
      (dst : Segtree A) (size elem_size capacity : ℕ) (w : World A)
      → 0 < elem_size
      → next_capacity 65 1 (if ltb 0 size then size else 1) ≡ some capacity
      → 0 < capacity
      → size ≤ capacity
      → capacity * 2 < size_mod
      → capacity * 2 * elem_size < size_mod
      → Created dst size capacity elem_size w (init e dst size elem_size neutral merge w)
  unfolding init malloc all_neutral Created
  init_correct_at dst size elem_size capacity w pos found cpos inside fits bytes =
      let b = all_neutral-IsBuilt size capacity elem_size cpos inside fits in
      let positive : (elem_size == 0) ≡ false = ground arith in
      let low : ltb ((size_mod - 1) / 2) capacity ≡ false = ground arith in
      let double : mul_size capacity 2 ≡ capacity * 2 = mod-eq_of_lt fits in
      let (exact, slots) = slots_in-mul_size (capacity * 2) elem_size pos bytes in
      elim (Bool-cases (e.grants w.calls elem_size)) [
        | inr no_first ↦ rw (positive, found, low, no_first) (refl, inr (refl, refl))
        | inl first ↦ elim (Bool-cases (e.grants (w.calls + 1) (capacity * 2 * elem_size))) [
          | inr no_second ↦
              rw (positive, found, low, first, double, exact, no_second) (refl, inr (refl, refl))
          | inl second ↦
              rw (positive, found, low, first, double, slots, exact, second)
                (
                  refl,
                  inl (refl, refl, refl, b, all_neutral-get size capacity elem_size inside fits),
                )
        ]
      ]

  -- For a positive element size, and a number of values for which the nodes above the least power
  -- of two of leaves (one leaf for no values) fit in size_t, and a merge that is a monoid with the
  -- identity, segtree_init succeeds exactly when the allocator grants the identity's buffer and the
  -- nodes; then the struct has the size asked for and that power of two as its capacity, is a built
  -- tree, and segtree_get reads the identity at every index, and otherwise it is the empty struct.
  pub segtree_init_correct :
      (dst : Segtree A) (size elem_size : ℕ) (w : World A)
      → 0 < elem_size
      → (bits : ℕ) → leaves size ≤ 2 ^ bits
      → 2 ^ bits < leaves size + leaves size
      → 2 ^ bits * 2 * elem_size < size_mod
      → Created dst size (2 ^ bits) elem_size w (init e dst size elem_size neutral merge w)
  segtree_init_correct dst size elem_size w pos bits above below fits =
      let some_leaves : (0 < leaves size) × (size ≤ leaves size) = ground arith in
      let nodes : 2 ^ bits * 2 ≤ 2 ^ bits * 2 * elem_size =
        le-mul_pos (2 ^ bits * 2) elem_size pos in
      let (n, found, above', below') =
        next_capacity_correct (leaves size) some_leaves.0 (omega (arith, nodes, above, fits)) in
      let same : n ≡ bits = one_power (leaves size) n bits above' below' above below in
      let found' : next_capacity 65 1 (leaves size) ≡ some (2 ^ bits) =
        found ∙ ap (λ b. some (2 ^ b)) same in
      init_correct_at dst size elem_size (2 ^ bits) w pos found' (omega (arith, above, some_leaves))
        (omega (arith, above, some_leaves)) (omega (arith, nodes, fits)) fits
