-- ===== src/Prelude/Arrays.antt =====
-- Arrays in memory: buffers that grow, moves inside a buffer, and the list that a function lists.
use Prim.Native.Nat.{ℕ, zero, suc, ◌+◌, ◌-◌, ◌≤◌, ◌<◌}
use mathlib.Core.Path.{◌≡◌, refl, sym, ap, ap₂, ◌∙◌}
use mathlib.Core.List.{List, [], ◌∷◌, ◌++◌}
use native.Mathlib.Nat.{sub-zero, suc-sub-suc}
use native.Mathlib.Omega.{arith}
use libcp.Prelude.Tests.{ltb, ◌==◌, if◌then◌else◌}
use libcp.Prelude.Lists.{
  length, get_or, set, take, drop, replicate, length-append, length-take, length-drop,
  length-replicate, get_or-set, length-set, get_or-ext, get_or-take, get_or-drop, get_or-append,
  get_or-replicate,
}

module _ {ℓ} {A : Type ℓ} where
  -- A buffer of `n` slots with the old contents as far as they fit; the others hold `junk`.
  abbrev pub resize : A → ℕ → List A → List A
  resize junk n xs = take n xs ++ replicate (n - length xs) junk

  -- C's memmove, in slots: `n` of them from index `from` to index `to`.
  abbrev pub memmove : ℕ → ℕ → ℕ → List A → List A
  memmove to from n xs = take to xs ++ (take n (drop from xs) ++ drop (to + n) xs)

  abbrev pub tabulate : ℕ → (ℕ → A) → List A
  tabulate zero f = []
  tabulate (suc n) f = f 0 ∷ tabulate n (λ i. f (suc i))

  pub length-resize : (junk : A) (n : ℕ) (xs : List A) → length (resize junk n xs) ≡ n
  length-resize junk n xs = omega (
    arith,
    length-append (take n xs) (replicate (n - length xs) junk),
    length-take n xs,
    length-replicate (n - length xs) junk,
  )

  pub get_or-resize :
      (junk : A) (n : ℕ) (xs : List A) (i : ℕ)
      → i < n
      → get_or (resize junk n xs) i junk ≡ get_or xs i junk
  get_or-resize junk zero xs i h = absurd (omega arith)
  get_or-resize junk (suc n) [] i h = rw sub-zero (get_or-replicate (suc n) junk i)
  get_or-resize junk (suc n) (x ∷ xs) zero h = refl
  get_or-resize junk (suc n) (x ∷ xs) (suc i) h = ground (arith, get_or-resize junk n xs i)

  pub take-resize :
      (junk : A) (size n : ℕ) (xs : List A)
      → size ≤ n
      → size ≤ length xs
      → take size (resize junk n xs) ≡ take size xs
  take-resize junk zero n xs h k = refl
  take-resize junk (suc size) zero xs h k = absurd (omega arith)
  take-resize junk (suc size) (suc n) [] h k = absurd (omega arith)
  take-resize junk (suc size) (suc n) (x ∷ xs) h k =
      rw suc-sub-suc (ap (◌∷◌ x) (take-resize junk size n xs (omega arith) (omega arith)))

  pub length-memmove :
      (to from n : ℕ) (xs : List A)
      → to + n ≤ length xs
      → from + n ≤ length xs
      → length (memmove to from n xs) ≡ length xs
  length-memmove to from n xs h k = omega (
    arith,
    length-append (take to xs) (take n (drop from xs) ++ drop (to + n) xs),
    length-append (take n (drop from xs)) (drop (to + n) xs),
    length-take to xs,
    length-take n (drop from xs),
    length-drop from xs,
    length-drop (to + n) xs,
  )

  pub length-tabulate : (n : ℕ) (f : ℕ → A) → length (tabulate n f) ≡ n
  length-tabulate zero f = refl
  length-tabulate (suc n) f = ap suc (length-tabulate n (λ i. f (suc i)))

  pub get_or-tabulate :
      (n : ℕ) (f : ℕ → A) (i : ℕ) (d : A) → i < n → get_or (tabulate n f) i d ≡ f i
  get_or-tabulate zero f i d h = absurd (omega arith)
  get_or-tabulate (suc n) f zero d h = refl
  get_or-tabulate (suc n) f (suc i) d h = get_or-tabulate n (λ i. f (suc i)) i d (omega arith)

  pub tabulate-ext :
      (n : ℕ) (f g : ℕ → A) → ((i : ℕ) → i < n → f i ≡ g i) → tabulate n f ≡ tabulate n g
  tabulate-ext zero f g h = refl
  tabulate-ext (suc n) f g h =
      ap₂ ◌∷◌ (h 0 (omega arith)) (tabulate-ext n _ _ (λ i p. h (suc i) (omega arith)))

  -- The last entry of a table.
  pub tabulate-suc : (n : ℕ) (f : ℕ → A) → tabulate (suc n) f ≡ tabulate n f ++ f n ∷ []
  tabulate-suc zero f = refl
  tabulate-suc (suc n) f = ap (◌∷◌ (f 0)) (tabulate-suc n (λ i. f (suc i)))

  pub set-tabulate :
      (n : ℕ) (f : ℕ → A) (i : ℕ) (y : A)
      → set (tabulate n f) i y ≡ tabulate n (λ j. if i == j then y else f j)
  set-tabulate zero f i y = refl
  set-tabulate (suc n) f zero y = ap (◌∷◌ y) (tabulate-ext n _ _ (λ j p. ground arith))
  set-tabulate (suc n) f (suc i) y =
      ap₂ ◌∷◌ (ground arith) (set-tabulate n _ i y ∙ tabulate-ext n _ _ (λ j p. ground arith))

  pub take-tabulate_le : (m n : ℕ) (f : ℕ → A) → m ≤ n → take m (tabulate n f) ≡ tabulate m f
  take-tabulate_le zero n f h = refl
  take-tabulate_le (suc m) zero f h = absurd (omega arith)
  take-tabulate_le (suc m) (suc n) f h =
      ap (◌∷◌ (f 0)) (take-tabulate_le m n (λ i. f (suc i)) (omega arith))

  pub set-take : (n : ℕ) (xs : List A) (i : ℕ) (v : A) → take n (set xs i v) ≡ set (take n xs) i v
  set-take zero xs i v = refl
  set-take (suc n) [] i v = refl
  set-take (suc n) (x ∷ xs) zero v = refl
  set-take (suc n) (x ∷ xs) (suc i) v = ap (◌∷◌ x) (set-take n xs i v)

  pub take-tabulate :
      (n : ℕ) (xs : List A) (d : A) → n ≤ length xs → take n xs ≡ tabulate n (λ i. get_or xs i d)
  take-tabulate zero xs d h = refl
  take-tabulate (suc n) [] d h = absurd (omega arith)
  take-tabulate (suc n) (x ∷ xs) d h = ap (◌∷◌ x) (take-tabulate n xs d (omega arith))

module _ {A : Type 0} where
  pub get_or-memmove :
      (to from n : ℕ) (xs : List A) (i : ℕ) (d : A)
      → to + n ≤ length xs
      → from + n ≤ length xs
      → get_or (memmove to from n xs) i d ≡ (
          if ltb i to
          then get_or xs i d
          else if ltb i (to + n)
          then get_or xs (from + (i - to)) d
          else get_or xs i d)
  get_or-memmove to from n xs i d h k = ground (
    arith,
    get_or-append (take to xs) (take n (drop from xs) ++ drop (to + n) xs) i d,
    get_or-append (take n (drop from xs)) (drop (to + n) xs) (i - to) d,
    length-take to xs,
    length-take n (drop from xs),
    length-drop from xs,
    get_or-take to xs i d,
    get_or-take n (drop from xs) (i - to) d,
    get_or-drop from xs (i - to) d,
    get_or-drop (to + n) xs (i - to - n) d,
  )

  pub take-set-append :
      (n : ℕ) (xs : List A) (y : A)
      → n < length xs
      → take (n + 1) (set xs n y) ≡ take n xs ++ y ∷ []
  take-set-append n xs y h =
      get_or-ext _ _ y
        (omega (
          arith,
          length-take (n + 1) (set xs n y),
          length-set xs n y,
          length-append (take n xs) (y ∷ []),
          length-take n xs,
        ))
        (λ i p. ground (
          arith,
          length-take (n + 1) (set xs n y),
          length-set xs n y,
          length-take n xs,
          get_or-take (n + 1) (set xs n y) i y,
          get_or-set xs n i y y,
          get_or-append (take n xs) (y ∷ []) i y,
          get_or-take n xs i y,
        ))

  pub set-get_or : (xs : List A) (i : ℕ) (d : A) → set xs i (get_or xs i d) ≡ xs
  set-get_or [] i d = refl
  set-get_or (x ∷ xs) zero d = refl
  set-get_or (x ∷ xs) (suc i) d = ap (◌∷◌ x) (set-get_or xs i d)

  pub take-suc :
      (n : ℕ) (xs : List A) (d : A)
      → n < length xs
      → take (n + 1) xs ≡ take n xs ++ get_or xs n d ∷ []
  take-suc n xs d h =
      ap (take (n + 1)) (sym (set-get_or xs n d)) ∙ take-set-append n xs (get_or xs n d) h
