-- ===== src/Segtree/Span.antt =====
-- Combining a run of values from left to right.
use libcp.Prelude.{ℕ, zero, suc, ◌+◌, ◌*◌, ◌≤◌, ◌<◌, ◌≡◌, refl, sym, ap, ◌∙◌, arith}
use libcp.Memory.{done}
use libcp.Segtree.{Merge}

-- A merge that always succeeds and leaves the product of a monoid.
pub record IsMonoid {A : Type 0} (merge : Merge A) (op : A → A → A) (neutral : A) : Type 0 where
  pub merges : (d x y : A) → merge d x y ≡ (done, op x y)
  pub assoc : (x y z : A) → op (op x y) z ≡ op x (op y z)
  pub left_neutral : (x : A) → op neutral x ≡ x
  pub right_neutral : (x : A) → op x neutral ≡ x

-- The product of `n` values from index `i` on, in their order.
abbrev pub span : {A : Type 0} → (A → A → A) → A → (ℕ → A) → ℕ → ℕ → A
span op neutral f i zero = neutral
span op neutral f i (suc n) = op (f i) (span op neutral f (i + 1) n)

module _ {A : Type 0} (merge : Merge A) (op : A → A → A) (neutral : A)
    (monoid : IsMonoid merge op neutral) (f : ℕ → A) where
  pub span-last : (i n : ℕ) → span op neutral f i (suc n) ≡ op (span op neutral f i n) (f (i + n))
  span-last i zero =
      monoid.right_neutral (f i) ∙ ap f (omega arith) ∙ sym (monoid.left_neutral (f (i + 0)))
  span-last i (suc n) =
      ap (op (f i)) (span-last (i + 1) n)
      ∙ sym (monoid.assoc (f i) (span op neutral f (i + 1) n) (f (i + 1 + n)))
      ∙ ap (λ k. op (op (f i) (span op neutral f (i + 1) n)) (f k)) (omega arith)

  -- A layer of pairs has the product of the layer above it.
  pub span-pairs :
      (i n : ℕ)
      → ((k : ℕ) → i ≤ k → k < i + n → f k ≡ op (f (k * 2)) (f (k * 2 + 1)))
      → span op neutral f (i * 2) (n * 2) ≡ span op neutral f i n
  span-pairs i zero pairs = refl
  span-pairs i (suc n) pairs =
      ap (span op neutral f (i * 2)) (suc-double n)
      ∙ sym (monoid.assoc (f (i * 2)) (f (i * 2 + 1)) (span op neutral f (i * 2 + 1 + 1) (n * 2)))
      ∙ ap (λ z. op z (span op neutral f (i * 2 + 1 + 1) (n * 2)))
          (sym (pairs i (omega arith) (omega arith)))
      ∙ ap (λ k. op (f i) (span op neutral f k (n * 2))) (next i)
      ∙ ap (op (f i)) (span-pairs (i + 1) n (λ k h h'. pairs k (omega arith) (omega arith)))
    where
      suc-double : (m : ℕ) → suc m * 2 ≡ suc (suc (m * 2))
      suc-double m = omega arith

      next : (m : ℕ) → m * 2 + 1 + 1 ≡ (m + 1) * 2
      next m = omega arith
