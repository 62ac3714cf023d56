-- ===== src/Segtree/Query.antt =====
-- segtree_query of src/segtree.c, and the values that a struct holds.
use native.Mathlib.Nat.{mod-eq_of_lt}
use libcp.Prelude.{
  ℕ, zero, suc, ◌+◌, ◌-◌, ◌*◌, ◌≤◌, ◌<◌, ◌≡◌, refl, ap, ◌∙◌, Bool, false, ◌&&◌, ◌||◌, some, arith,
  ltb, ◌==◌, if◌then◌else◌, length, get_or, Bool-cases, inl, inr,
}
use libcp.Memory.{Env, World, done, failed, malloc, add_size, size_mod}
use libcp.Segtree.{Segtree, query_from, query}
use libcp.Segtree.Span.{IsMonoid, span}
use libcp.Segtree.Climb.{total, node, query_from-total}

-- The struct holds its values in the leaves, and every node above has the product of its two
-- children.
pub record IsBuilt {A : Type 0} (e : Env A) (op : A → A → A) (neutral : A) (st : Segtree A)
    : Type 0 where
  pub monoid : IsMonoid st.merge op neutral
  pub has_identity : st.identity ≡ some neutral
  pub capacity_pos : 0 < st.capacity
  pub size_in : st.size ≤ st.capacity
  pub fits : st.capacity * 2 < size_mod
  pub nodes_length : length st.nodes ≡ st.capacity * 2
  pub pairs :
      (k : ℕ)
      → 0 < k
      → k < st.capacity
      → get_or st.nodes k e.junk
        ≡ op (get_or st.nodes (k * 2) e.junk) (get_or st.nodes (k * 2 + 1) e.junk)

-- The value at an index.
abbrev pub value_at : {A : Type 0} → Env A → Segtree A → ℕ → A
value_at e st i = get_or st.nodes (st.capacity + i) e.junk

-- Whether the allocator grants the three buffers of a query.
abbrev pub three_granted : {A : Type 0} → Env A → ℕ → World A → Bool
three_granted e bytes w =
    e.grants w.calls bytes && e.grants (w.calls + 1) bytes && e.grants (w.calls + 1 + 1) bytes

module _ {A : Type 0} (e : Env A) (op : A → A → A) (neutral : A) (st : Segtree A)
    (built : IsBuilt e op neutral st) where
  span-shift :
      (c i n : ℕ) (f : ℕ → A) → span op neutral f (c + i) n ≡ span op neutral (λ k. f (c + k)) i n
  span-shift c i zero f = refl
  span-shift c i (suc n) f =
      ap (op (f (c + i))) (ap (λ k. span op neutral f k n) (omega arith) ∙ span-shift c (i + 1) n f)

  leaf : (i : ℕ) → i ≤ st.size → add_size i st.capacity ≡ i + st.capacity
  leaf i h = mod-eq_of_lt (omega (arith, built.size_in, built.fits))

  -- What the loop of a query leaves, and its product.
  looped :
      (begin end : ℕ)
      → begin ≤ end
      → end ≤ st.size
      → (l : A) × (r : A) × (query_from e
            (add_size end st.capacity)
            st.merge
            st.nodes
            (add_size begin st.capacity)
            (add_size end st.capacity)
            neutral
            neutral
            e.junk
          ≡ (done, l, r))
        × (op l r ≡ span op neutral (value_at e st) begin (end - begin))
  unfolding total node
  looped begin end h k =
      let (l, r, ran, value) =
        query_from-total e st.merge op neutral built.monoid st.nodes (end + st.capacity)
          (begin + st.capacity) (end + st.capacity) neutral neutral e.junk
          (omega (arith, built.capacity_pos)) (omega arith) (omega arith)
          (λ i a b. built.pairs i a (omega (arith, b, k, built.size_in))) in
      let n : end + st.capacity - (begin + st.capacity) ≡ end - begin = omega arith in
      let s : begin + st.capacity ≡ st.capacity + begin = omega arith in
      (
        l,
        r,
        rw (leaf end k, leaf begin (omega arith)) ran,
        value
            ∙ built.monoid.left_neutral _
            ∙ built.monoid.right_neutral _
            ∙ ap (span op neutral (λ j. get_or st.nodes j e.junk) (begin + st.capacity)) n
            ∙ ap (λ j. span op neutral (λ j'. get_or st.nodes j' e.junk) j (end - begin)) s
            ∙ span-shift st.capacity begin (end - begin) (λ j. get_or st.nodes j e.junk),
      )

  -- On a built tree whose merge is a monoid, for begin <= end <= size, segtree_query succeeds
  -- exactly when the range is empty or the allocator grants the three buffers, and then stores the
  -- product of the values from begin to end in their order, the identity for an empty range;
  -- otherwise it leaves the output as it was.
  pub query_correct :
      (begin end : ℕ) (out : A) (w : World A)
      → begin ≤ end
      → end ≤ st.size
      → ((query e st begin end out w).0
          ≡ (if begin == end || three_granted e st.elem_size w then done else failed))
        × ((query e st begin end out w).1 ≡ (
            if begin == end || three_granted e st.elem_size w
            then span op neutral (value_at e st) begin (end - begin)
            else out))
  unfolding query malloc
  query_correct begin end out w h k =
      let range : (ltb end begin || ltb st.size end) ≡ false = ground arith in
      elim (Bool-cases (begin == end)) [
        | inl same ↦
            let n : end - begin ≡ 0 = ground arith in
            rw (range, same, built.has_identity, n) (refl, refl)
        | inr other ↦ elim (Bool-cases (three_granted e st.elem_size w)) [
          | inl yes_all ↦
              let (l, r, ran, value) = looped begin end h k in
              rw
                (
                  range,
                  other,
                  yes_all,
                  built.has_identity,
                  ran,
                  built.has_identity,
                  ran,
                  built.monoid.merges out l r,
                )
                (refl, value)
          | inr not_all ↦ rw (range, other, not_all) (refl, refl)
        ]
      ]
