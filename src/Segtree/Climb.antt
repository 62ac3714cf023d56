-- ===== src/Segtree/Climb.antt =====
-- The loop of segtree_query.
use libcp.Prelude.{
  ℕ, zero, suc, ◌+◌, ◌-◌, ◌*◌, ◌/◌, ◌%◌, ◌≤◌, ◌<◌, ◌≡◌, sym, ap, ◌∙◌, true, false, List, arith, ltb,
  ◌==◌, if◌then◌else◌, get_or, Bool-cases, inl, inr,
}
use libcp.Memory.{Env, done}
use libcp.Segtree.{Merge, query_from}
use libcp.Segtree.Span.{IsMonoid, span, span-last, span-pairs}

module _ {A : Type 0} (e : Env A) (merge : Merge A) (op : A → A → A) (neutral : A)
    (monoid : IsMonoid merge op neutral) (nodes : List A) where
  unfoldable pub node : ℕ → A
  node i = get_or nodes i e.junk

  pub next_left : ℕ → ℕ
  next_left left = (if left % 2 == 1 then left + 1 else left) / 2

  pub next_right : ℕ → ℕ
  next_right right = (if right % 2 == 1 then right - 1 else right) / 2

  pub with_left : ℕ → A → A
  with_left left v = if left % 2 == 1 then op v (node left) else v

  pub with_right : ℕ → A → A
  with_right right v = if right % 2 == 1 then op (node (right - 1)) v else v

  -- What one round does when merge succeeds.
  query_from-round :
      (fuel left right : ℕ) (lv rv scratch : A)
      → ltb left right ≡ true
      → (scratch' : A) × (query_from e fuel merge nodes
            (next_left left)
            (next_right right)
            (with_left left lv)
            (with_right right rv)
            scratch'
          ≡ query_from e (suc fuel) merge nodes left right lv rv scratch)
  unfolding query_from next_left next_right with_left with_right node
  query_from-round fuel left right lv rv scratch h =
      let l = get_or nodes left e.junk in
      let r = get_or nodes (right - 1) e.junk in
      elim (Bool-cases (left % 2 == 1)) [
        | inl a ↦ elim (Bool-cases (right % 2 == 1)) [
          | inl b ↦
              (op r rv, ground (arith, monoid.merges scratch lv l, monoid.merges (op lv l) r rv))
          | inr b ↦ (op lv l, ground (arith, monoid.merges scratch lv l))
        ]
        | inr a ↦ elim (Bool-cases (right % 2 == 1)) [
          | inl b ↦ (op r rv, ground (arith, monoid.merges scratch r rv))
          | inr b ↦ (scratch, ground arith)
        ]
      ]

  -- The product of the values so far and of the nodes between the two ends.
  unfoldable pub total : ℕ → ℕ → A → A → A
  total left right lv rv = op lv (op (span op neutral node left (right - left)) rv)

  total-left :
      (left right : ℕ) (lv rv : A)
      → left < right
      → total (left + 1) right (op lv (node left)) rv ≡ total left right lv rv
  unfolding total
  total-left left right lv rv h =
      let n : right - left ≡ suc (right - (left + 1)) = omega arith in
      let inner = span op neutral node (left + 1) (right - (left + 1)) in
      rw n (
        monoid.assoc lv (node left) (op inner rv)
        ∙ ap (op lv) (sym (monoid.assoc (node left) inner rv)))

  total-right :
      (left right : ℕ) (lv rv : A)
      → left < right
      → total left (right - 1) lv (op (node (right - 1)) rv) ≡ total left right lv rv
  unfolding total
  total-right left right lv rv h =
      let n : right - left ≡ suc (right - 1 - left) = omega arith in
      let inner = span op neutral node left (right - 1 - left) in
      let at_end : left + (right - 1 - left) ≡ right - 1 = omega arith in
      rw n (
        ap (op lv) (
          sym (monoid.assoc inner (node (right - 1)) rv)
          ∙ ap (λ k. op (op inner (node k)) rv) (sym at_end)
          ∙ ap (λ z. op z rv)
              (sym (span-last merge op neutral monoid node left (right - 1 - left)))))

  -- Between even ends the nodes have the product of the layer above.
  total-half :
      (i j left right bound : ℕ) (lv rv : A)
      → left ≡ i * 2
      → right ≡ j * 2
      → right ≤ bound
      → 0 < i
      → i ≤ j
      → ((k : ℕ) → 0 < k → k * 2 + 1 < bound → node k ≡ op (node (k * 2)) (node (k * 2 + 1)))
      → total i j lv rv ≡ total left right lv rv
  unfolding total
  total-half i j left right bound lv rv el er low pos h pairs =
      let n : right - left ≡ (j - i) * 2 = omega arith in
      rw (n, el)
        (ap (λ z. op lv (op z rv))
          (sym (
            span-pairs merge op neutral monoid node i (j - i)
              (λ k a b. pairs k (omega arith) (omega arith)))))

  -- The ends of the layer above, when the round has evened them out.
  pub total-round :
      (left right : ℕ) (lv rv : A)
      → 0 < left
      → left < right
      → ((k : ℕ) → 0 < k → k * 2 + 1 < right → node k ≡ op (node (k * 2)) (node (k * 2 + 1)))
      → total (next_left left) (next_right right) (with_left left lv) (with_right right rv)
        ≡ total left right lv rv
  unfolding next_left next_right with_left with_right
  total-round left right lv rv pos h pairs =
      let l = op lv (node left) in
      let r = op (node (right - 1)) rv in
      elim (Bool-cases (left % 2 == 1)) [
        | inl a ↦
            let odd : left % 2 ≡ 1 = ground arith in
            elim (Bool-cases (right % 2 == 1)) [
              | inl b ↦
                  let odd' : right % 2 ≡ 1 = ground arith in
                  rw (a, b)
                    (total-half ((left + 1) / 2) ((right - 1) / 2) (left + 1) (right - 1) right l r
                        (omega arith) (omega arith) (omega arith) (omega arith) (omega arith) pairs
                      ∙ total-right (left + 1) right l rv (omega arith)
                      ∙ total-left left right lv rv h)
              | inr b ↦
                  let even' : right % 2 ≡ 0 = ground arith in
                  rw (a, b)
                    (total-half ((left + 1) / 2) (right / 2) (left + 1) right right l rv
                        (omega arith) (omega arith) (omega arith) (omega arith) (omega arith) pairs
                      ∙ total-left left right lv rv h)
            ]
        | inr a ↦
            let even : left % 2 ≡ 0 = ground arith in
            elim (Bool-cases (right % 2 == 1)) [
              | inl b ↦
                  let odd' : right % 2 ≡ 1 = ground arith in
                  rw (a, b)
                    (total-half (left / 2) ((right - 1) / 2) left (right - 1) right lv r
                        (omega arith) (omega arith) (omega arith) (omega arith) (omega arith) pairs
                      ∙ total-right left right lv rv h)
              | inr b ↦
                  let even' : right % 2 ≡ 0 = ground arith in
                  rw (a, b)
                    (total-half (left / 2) (right / 2) left right right lv rv (omega arith)
                      (omega arith) (omega arith) (omega arith) (omega arith) pairs)
            ]
      ]

  query_from-end :
      (fuel left right : ℕ) (lv rv scratch : A)
      → ltb left right ≡ false
      → query_from e (suc fuel) merge nodes left right lv rv scratch ≡ (done, lv, rv)
  unfolding query_from
  query_from-end fuel left right lv rv scratch h = ground arith

  total-none : (left right : ℕ) (lv rv : A) → right ≤ left → op lv rv ≡ total left right lv rv
  unfolding total
  total-none left right lv rv h =
      let n : right - left ≡ 0 = omega arith in rw n (ap (op lv) (sym (monoid.left_neutral rv)))

  next_bounds :
      (left right : ℕ)
      → 0 < left
      → left < right
      → (0 < next_left left) × (next_left left ≤ next_right right) × (next_right right < right)
  unfolding next_left next_right
  next_bounds left right pos h = elim (Bool-cases (left % 2 == 1)) [
    | inl a ↦ elim (Bool-cases (right % 2 == 1)) [ inl b ↦ ground arith | inr b ↦ ground arith ]
    | inr a ↦ elim (Bool-cases (right % 2 == 1)) [ inl b ↦ ground arith | inr b ↦ ground arith ]
  ]

  -- The loop ends with the product of the nodes in the range between the values it began with.
  pub query_from-total :
      (fuel left right : ℕ) (lv rv scratch : A)
      → 0 < left
      → left ≤ right
      → right ≤ fuel
      → ((k : ℕ) → 0 < k → k * 2 + 1 < right → node k ≡ op (node (k * 2)) (node (k * 2 + 1)))
      → (l : A) × (r : A) × (query_from e fuel merge nodes left right lv rv scratch ≡ (done, l, r))
        × (op l r ≡ total left right lv rv)
  query_from-total zero left right lv rv scratch pos h f pairs = absurd (omega arith)
  query_from-total (suc fuel) left right lv rv scratch pos h f pairs =
      elim (Bool-cases (ltb left right)) [
        | inr over ↦ (
          lv,
          rv,
          query_from-end fuel left right lv rv scratch over,
          total-none left right lv rv (ground arith),
        )
        | inl more ↦
            let below : left < right = ground arith in
            let (above, ordered, smaller) = next_bounds left right pos below in
            let (scratch', round) = query_from-round fuel left right lv rv scratch more in
            let (l, r, ran, value) =
              query_from-total fuel (next_left left) (next_right right) (with_left left lv)
                (with_right right rv) scratch' above ordered (omega (arith, smaller))
                (λ k a b. pairs k a (omega (arith, smaller))) in
            (l, r, sym round ∙ ran, value ∙ total-round left right lv rv pos below pairs)
      ]
