-- ===== src/Segtree/Update.antt =====
-- segtree_set of src/segtree.c.
use mathlib.Core.Path.{subst}
use native.Mathlib.Nat.{mod-eq_of_lt}
use native.Mathlib.Decide.{ℕ_discrete}
use libcp.Prelude.{
  ℕ, zero, suc, ◌+◌, ◌*◌, ◌/◌, ◌≤◌, ◌<◌, ◌≡◌, ◌≢◌, refl, sym, ◌∙◌, true, false, List, arith, ltb,
  leb, ◌==◌, if◌then◌else◌, length, length-set, get_or, set, get_or-set, get_or-set_other,
  Bool-cases, inl, inr,
}
use libcp.Memory.{Env, Status, done, add_size}
use libcp.Segtree.{Merge, Segtree, rebuild_node, rebuild_above, assign}
use libcp.Segtree.Span.{IsMonoid}
use libcp.Segtree.Query.{IsBuilt, value_at}

module _ {A : Type 0} (e : Env A) (merge : Merge A) (op : A → A → A) (neutral : A)
    (monoid : IsMonoid merge op neutral) (capacity : ℕ) where
  -- The node `k` has the product of its children.
  abbrev pub Paired : List A → ℕ → Type 0
  Paired nodes k =
      get_or nodes k e.junk ≡ op (get_or nodes (k * 2) e.junk) (get_or nodes (k * 2 + 1) e.junk)

  abbrev pub rebuilt : List A → ℕ → List A
  rebuilt nodes j = set nodes j (op (get_or nodes (j * 2) e.junk) (get_or nodes (j * 2 + 1) e.junk))

  pub rebuild_node-rebuilt :
      (nodes : List A) (j : ℕ) → rebuild_node e merge nodes j ≡ (done, rebuilt nodes j)
  unfolding rebuild_node
  rebuild_node-rebuilt nodes j =
      rw
        (monoid.merges (get_or nodes j e.junk) (get_or nodes (j * 2) e.junk)
          (get_or nodes (j * 2 + 1) e.junk))
        refl

  pub rebuilt-other :
      (nodes : List A) (j k : ℕ) → k ≢ j → get_or (rebuilt nodes j) k e.junk ≡ get_or nodes k e.junk
  rebuilt-other nodes j k ne = get_or-set_other nodes j k _ e.junk (λ s. ne (sym s))

  -- After a node is rebuilt it has the product of its children.
  pub rebuilt-here :
      (nodes : List A) (j : ℕ) → 0 < j → j < length nodes → Paired (rebuilt nodes j) j
  rebuilt-here nodes j pos h =
      let product = op (get_or nodes (j * 2) e.junk) (get_or nodes (j * 2 + 1) e.junk) in
      let at_j : get_or (rebuilt nodes j) j e.junk ≡ product =
        ground (arith, get_or-set nodes j j product e.junk) in
      rw
        (
          rebuilt-other nodes j (j * 2) (λ s. absurd (omega (arith, s))),
          rebuilt-other nodes j (j * 2 + 1) (λ s. absurd (omega (arith, s))),
        )
        at_j

  -- A node with its children elsewhere keeps its product.
  pub rebuilt-there :
      (nodes : List A) (j k : ℕ) → k ≢ j → k ≢ j / 2 → Paired nodes k → Paired (rebuilt nodes j) k
  rebuilt-there nodes j k ne up p =
      rw
        (
          rebuilt-other nodes j k ne,
          rebuilt-other nodes j (k * 2) (λ s. up (omega (arith, s))),
          rebuilt-other nodes j (k * 2 + 1) (λ s. up (omega (arith, s))),
        )
        p

  -- What a loop of rebuilding leaves: every node paired, and the leaves as they were.
  pub record Restored (before : List A) (r : Status × List A) : Type 0 where
    pub ok : r.0 ≡ done
    pub as_long : length r.1 ≡ length before
    pub pairs : (k : ℕ) → 0 < k → k < capacity → Paired r.1 k
    pub leaves : (k : ℕ) → capacity ≤ k → get_or r.1 k e.junk ≡ get_or before k e.junk

  pub rebuild_above-stop :
      (fuel index : ℕ) (nodes : List A)
      → ltb 1 index ≡ false
      → (done, nodes) ≡ rebuild_above e (suc fuel) merge index nodes
  unfolding rebuild_above
  rebuild_above-stop fuel index nodes h = ground arith

  pub rebuild_above-up :
      (fuel index : ℕ) (nodes : List A)
      → ltb 1 index ≡ true
      → rebuild_above e fuel merge (index / 2) (rebuilt nodes (index / 2))
        ≡ rebuild_above e (suc fuel) merge index nodes
  unfolding rebuild_above
  rebuild_above-up fuel index nodes h = ground (arith, rebuild_node-rebuilt nodes (index / 2))

  pub rebuild_above-Restored :
      (fuel index : ℕ) (nodes : List A)
      → 0 < index
      → index ≤ fuel
      → index < capacity * 2
      → length nodes ≡ capacity * 2
      → ((k : ℕ) → 0 < k → k < capacity → k ≢ index / 2 → Paired nodes k)
      → Restored nodes (rebuild_above e fuel merge index nodes)
  rebuild_above-Restored zero index nodes pos f h n pairs = absurd (omega arith)
  rebuild_above-Restored (suc fuel) index nodes pos f h n pairs = elim (Bool-cases (ltb 1 index)) [
    | inr top ↦ subst (Restored nodes) (rebuild_above-stop fuel index nodes top) (record {
      ok = refl;
      as_long = refl;
      pairs = λ k a b. pairs k a b (λ s. ground (arith, s));
      leaves = λ k a. refl;
    })
    | inl more ↦
        let j = index / 2 in
        let above : 1 < index = ground arith in
        let rest =
          rebuild_above-Restored fuel j (rebuilt nodes j) (omega arith) (omega arith) (omega arith)
            (length-set nodes j _ ∙ n)
            (λ k a b up. elim (ℕ_discrete k j) [
              | yes s ↦
                  subst (Paired (rebuilt nodes j)) (sym s)
                    (rebuilt-here nodes j (omega arith) (omega (arith, n)))
              | no ne ↦ rebuilt-there nodes j k ne up (pairs k a b ne)
            ]) in
        subst (Restored nodes) (rebuild_above-up fuel index nodes more) (record {
          ok = rest.ok;
          as_long = rest.as_long ∙ length-set nodes j _;
          pairs = rest.pairs;
          leaves =
              λ k a. rest.leaves k a ∙ rebuilt-other nodes j k (λ s. absurd (omega (arith, s)));
        })
  ]

module _ {A : Type 0} (e : Env A) (op : A → A → A) (neutral : A) (st : Segtree A)
    (built : IsBuilt e op neutral st) where
  -- On a built tree whose merge is a monoid, segtree_set of an index below the size succeeds and
  -- leaves a built tree, in which the value at that index is the new one and the value at any other
  -- index below the size is as before.
  pub assign_correct :
      (index : ℕ) (elem : A) (i : ℕ)
      → index < st.size
      → i < st.size
      → ((assign e st index elem).0 ≡ done)
        × IsBuilt e op neutral (assign e st index elem).1
        × (value_at e (assign e st index elem).1 i ≡ (if i == index then elem else value_at e st i))
  unfolding assign
  assign_correct index elem i h hi =
      let in_range : leb st.size index ≡ false = ground arith in
      let leaf = st.capacity + index in
      let exact : add_size st.capacity index ≡ leaf =
        mod-eq_of_lt (omega (arith, built.size_in, built.fits)) in
      let inside : leaf < length st.nodes = omega (arith, built.size_in, built.nodes_length) in
      let written = set st.nodes leaf elem in
      let other : (k : ℕ) → k ≢ leaf → get_or written k e.junk ≡ get_or st.nodes k e.junk =
        λ k ne. get_or-set_other st.nodes leaf k elem e.junk (λ s. ne (sym s)) in
      let done_above =
        rebuild_above-Restored e st.merge op neutral built.monoid st.capacity leaf leaf written
          (omega (arith, built.capacity_pos)) (omega arith) (omega (arith, built.size_in))
          (length-set st.nodes leaf elem ∙ built.nodes_length)
          (λ k a b up.
            rw
              (
                other k (λ s. absurd (omega (arith, s))),
                other (k * 2) (λ s. up (omega (arith, s))),
                other (k * 2 + 1) (λ s. up (omega (arith, s))),
              )
              (built.pairs k a b)) in
      let value : get_or written (st.capacity + i) e.junk
          ≡ (if i == index then elem else value_at e st i) =
        ground (arith, get_or-set st.nodes leaf (st.capacity + i) elem e.junk) in
      rw (in_range, exact)
        (
          done_above.ok,
          record {
            monoid = built.monoid;
            has_identity = built.has_identity;
            capacity_pos = built.capacity_pos;
            size_in = built.size_in;
            fits = built.fits;
            nodes_length = done_above.as_long ∙ length-set st.nodes leaf elem ∙ built.nodes_length;
            pairs = done_above.pairs;
          },
          done_above.leaves (st.capacity + i) (omega arith) ∙ value,
        )
