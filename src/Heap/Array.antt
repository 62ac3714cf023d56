-- ===== src/Heap/Array.antt =====
-- The array of src/heap.c: the heap order, and writes as permutations.
use mathlib.Core.List.{Perm, Permᴰ, perm_middle, append-nil}
use mathlib.Core.Logic.{∥∥₁_elim}
use mathlib.Core.List.Perm
use native.Mathlib.Nat.{ℕ_set}
use native.Mathlib.Decide.{dec_lt}
use libcp.Prelude.{
  ℕ, zero, suc, ◌<◌, ◌≡◌, ◌≢◌, refl, ap, ◌∙◌, true, false, List, [], ◌∷◌, ◌++◌, arith, length,
  length-set, get_or, set, get_or-set, Bool-cases, inl, inr,
}
use libcp.Prelude.Int.{ℤ, is_negative}
use libcp.Heap.{parent}

-- What the documentation asks of elem_compare: `a` may stay above `b` unless the result is
-- negative, of two elements one may stay above the other, and this is transitive.
pub record IsOrder {A : Type 0} (cmp : A → A → ℤ) : Type 0 where
  pub total : (a b : A) → is_negative (cmp a b) ≡ true → is_negative (cmp b a) ≡ false
  pub transitive :
      (a b c : A)
      → is_negative (cmp a b) ≡ false
      → is_negative (cmp b c) ≡ false
      → is_negative (cmp a c) ≡ false

-- `a` may stay above `b`.
abbrev pub Above : {A : Type 0} → (A → A → ℤ) → A → A → Type 0
Above cmp a b = is_negative (cmp a b) ≡ false

-- No element is larger than its parent.
abbrev pub IsHeap : {A : Type 0} → (A → A → ℤ) → A → List A → Type 0
IsHeap cmp d xs =
    (c : ℕ) → 0 < c → c < length xs → Above cmp (get_or xs (parent c) d) (get_or xs c d)

module _ {A : Type 0} where
  pub Above-self : (cmp : A → A → ℤ) → IsOrder cmp → (a : A) → Above cmp a a
  Above-self cmp order a = elim (Bool-cases (is_negative (cmp a a))) [
    | inl n ↦ order.total a a n
    | inr p ↦ p
  ]

  -- A write trades the old entry for the new one.
  pub set-perm :
      (xs : List A) (i : ℕ) (v d : A) → i < length xs → Perm (get_or xs i d ∷ set xs i v) (v ∷ xs)
  set-perm [] i v d h = absurd (omega arith)
  set-perm (x ∷ xs) zero v d h = Perm.swap v x xs
  set-perm (x ∷ xs) (suc i) v d h =
      let rest = Perm.cons x (set-perm xs i v d (omega arith)) in
      Perm.trans (Perm.swap x _ _) (Perm.trans rest (Perm.swap v x xs))

  -- Moving an entry to the hole at `i` and filling the hole that it leaves.
  pub move-perm :
      (xs : List A) (i j : ℕ) (v d : A)
      → i < length xs
      → j < length xs
      → i ≢ j
      → Perm (set (set xs i (get_or xs j d)) j v) (set xs i v)
  move-perm xs i j v d hi hj ne =
      let u = get_or xs j d in
      let g = get_or xs i d in
      let kept : get_or (set xs i u) j d ≡ u = ground (arith, get_or-set xs i j u d) in
      let first : Perm (u ∷ set (set xs i u) j v) (v ∷ set xs i u) =
        rw kept at (set-perm (set xs i u) j v d (rw length-set hj)) in
      let second : Perm (g ∷ set xs i u) (u ∷ xs) = set-perm xs i u d hi in
      let third : Perm (g ∷ set xs i v) (v ∷ xs) = set-perm xs i v d hi in
      Perm.cons_inv (
        Perm.cons_inv (
          Perm.trans (Perm.cons g first) (
            Perm.trans (Perm.swap v g _) (
              Perm.trans (Perm.cons v second) (
                Perm.trans (Perm.swap u v xs)
                  (Perm.trans (Perm.cons u (Perm.symm third)) (Perm.swap g u _)))))))

  pub concat-perm : (xs : List A) (x : A) → Perm (xs ++ x ∷ []) (x ∷ xs)
  concat-perm xs x = rw (append-nil xs) at (perm_middle {a = x} xs [])

  -- A derivation of a permutation, step by step, keeps the number of entries.
  length-Permᴰ : {before after : List A} → Permᴰ before after → length before ≡ length after
  length-Permᴰ (Permᴰ.trans earlier later) = length-Permᴰ earlier ∙ length-Permᴰ later
  length-Permᴰ (Permᴰ.swap first second) = refl
  length-Permᴰ (Permᴰ.cons kept rest) = ap suc (length-Permᴰ rest)
  length-Permᴰ Permᴰ.nil = refl

  pub length-perm : {before after : List A} → Perm before after → length before ≡ length after
  length-perm perm = ∥∥₁_elim perm (ℕ_set _ _) (λ steps. length-Permᴰ steps)

  -- The root of a heap may stay above every other element.
  root-Above_below :
      (cmp : A → A → ℤ) (d : A)
      → IsOrder cmp
      → (k : ℕ) (xs : List A) (i : ℕ) → IsHeap cmp d xs
      → i < k
      → 0 < i
      → i < length xs
      → Above cmp (get_or xs 0 d) (get_or xs i d)
  root-Above_below cmp d order zero xs i h f pos p = absurd (omega arith)
  root-Above_below cmp d order (suc k) xs i h f pos p = elim (dec_lt 0 (parent i)) [
    | yes deep ↦
        order.transitive _ _ _
          (root-Above_below cmp d order k xs (parent i) h (omega arith) deep (omega arith))
          (h i pos p)
    | no root ↦ let e : parent i ≡ 0 = omega arith in rw e at (h i pos p)
  ]

  pub root-Above :
      (cmp : A → A → ℤ) (d : A) (xs : List A) (i : ℕ)
      → IsOrder cmp
      → IsHeap cmp d xs
      → 0 < i
      → i < length xs
      → Above cmp (get_or xs 0 d) (get_or xs i d)
  root-Above cmp d xs i order h pos p =
      root-Above_below cmp d order (suc i) xs i h (omega arith) pos p
