-- ===== src/Vector/Moves.antt =====
-- The memmove calls of vector_insert and vector_erase on the elements that a vector holds.
use libcp.Prelude.{
  ℕ, zero, suc, ◌+◌, ◌-◌, ◌≤◌, ◌<◌, ◌≡◌, refl, ap, List, [], ◌∷◌, ◌++◌, arith, length, length-set,
  length-take, get_or, ltb, ◌==◌, if◌then◌else◌, set, take, drop, memmove, length-memmove,
  get_or-take, get_or-memmove, get_or-set, get_or-append, get_or-ext, length-append, length-drop,
  get_or-drop,
}
use libcp.Sequence.{insert_at, remove_at}

module _ {A : Type 0} where
  pub take-take : (m n : ℕ) (xs : List A) → m ≤ n → take m (take n xs) ≡ take m xs
  take-take zero n xs h = refl
  take-take (suc m) zero xs h = absurd (omega arith)
  take-take (suc m) (suc n) [] h = refl
  take-take (suc m) (suc n) (x ∷ xs) h = ap (◌∷◌ x) (take-take m n xs (omega arith))

  pub length-insert_at :
      (i : ℕ) (y : A) (xs : List A) → i ≤ length xs → length (insert_at i y xs) ≡ length xs + 1
  length-insert_at i y xs h =
      omega (arith, length-append (take i xs) (y ∷ drop i xs), length-take i xs, length-drop i xs)

  get_or_after :
      (j : ℕ) (y : A) (xs : List A) (d : A) → 0 < j → get_or (y ∷ xs) j d ≡ get_or xs (j - 1) d
  get_or_after zero y xs d h = absurd (omega arith)
  get_or_after (suc j) y xs d h = ap (λ k. get_or xs k d) (omega arith)

  pub get_or-insert_at :
      (i : ℕ) (y : A) (xs : List A) (j : ℕ) (d : A)
      → i ≤ length xs
      → get_or (insert_at i y xs) j d
        ≡ (if ltb j i then get_or xs j d else if j == i then y else get_or xs (j - 1) d)
  get_or-insert_at i y xs zero d h = ground (
    arith,
    get_or-append (take i xs) (y ∷ drop i xs) zero d,
    length-take i xs,
    get_or-take i xs zero d,
  )
  get_or-insert_at i y xs (suc j) d h = ground (
    arith,
    get_or-append (take i xs) (y ∷ drop i xs) (suc j) d,
    length-take i xs,
    get_or-take i xs (suc j) d,
    get_or-drop i xs (j - i) d,
    get_or_after (suc j - i) y (drop i xs) d,
  )

  pub take-memmove-insert :
      (i n : ℕ) (xs : List A) (y : A)
      → i < n
      → n < length xs
      → take (n + 1) (set (memmove (i + 1) i (n - i) xs) i y) ≡ insert_at i y (take n xs)
  take-memmove-insert i n xs y h k =
      get_or-ext _ _ y
        (omega (
          arith,
          length-take (n + 1) (set moved i y),
          length-set moved i y,
          length-memmove (i + 1) i (n - i) xs,
          length-insert_at i y (take n xs),
          length-take n xs,
        ))
        (λ j p. ground (
          arith,
          length-take (n + 1) (set moved i y),
          length-set moved i y,
          length-memmove (i + 1) i (n - i) xs,
          length-take n xs,
          get_or-take (n + 1) (set moved i y) j y,
          get_or-set moved i j y y,
          get_or-memmove (i + 1) i (n - i) xs j y,
          get_or-insert_at i y (take n xs) j y,
          get_or-take n xs j y,
          get_or-take n xs (j - 1) y,
        ))
    where
      moved : List A
      moved = memmove (i + 1) i (n - i) xs

  -- Moving the tail back after elem_copy has failed.
  pub take-memmove_undo :
      (i n : ℕ) (xs : List A)
      → i < n
      → n < length xs
      → take n (memmove i (i + 1) (n - i) (memmove (i + 1) i (n - i) xs)) ≡ take n xs
  take-memmove_undo i n [] h k = absurd (omega arith)
  take-memmove_undo i n (x ∷ xs) h k =
      get_or-ext _ _ x
        (omega (
          arith,
          length-take n (memmove i (i + 1) (n - i) moved),
          length-memmove i (i + 1) (n - i) moved,
          length-memmove (i + 1) i (n - i) (x ∷ xs),
          length-take n (x ∷ xs),
        ))
        (λ j p. ground (
          arith,
          length-take n (memmove i (i + 1) (n - i) moved),
          length-memmove i (i + 1) (n - i) moved,
          length-memmove (i + 1) i (n - i) (x ∷ xs),
          get_or-take n (memmove i (i + 1) (n - i) moved) j x,
          get_or-memmove i (i + 1) (n - i) moved j x,
          get_or-memmove (i + 1) i (n - i) (x ∷ xs) j x,
          get_or-memmove (i + 1) i (n - i) (x ∷ xs) (i + 1 + (j - i)) x,
          get_or-take n (x ∷ xs) j x,
        ))
    where
      moved : List A
      moved = memmove (i + 1) i (n - i) (x ∷ xs)

  pub length-remove_at :
      (i : ℕ) (xs : List A) → i < length xs → length (remove_at i xs) + 1 ≡ length xs
  length-remove_at i xs h =
      omega (
        arith,
        length-append (take i xs) (drop (i + 1) xs),
        length-take i xs,
        length-drop (i + 1) xs,
      )

  get_or-remove_at :
      (i : ℕ) (xs : List A) (j : ℕ) (d : A)
      → i < length xs
      → get_or (remove_at i xs) j d ≡ (if ltb j i then get_or xs j d else get_or xs (j + 1) d)
  get_or-remove_at i xs j d h = ground (
    arith,
    get_or-append (take i xs) (drop (i + 1) xs) j d,
    length-take i xs,
    get_or-take i xs j d,
    get_or-drop (i + 1) xs (j - i) d,
  )

  pub take-memmove-remove :
      (i n : ℕ) (xs : List A)
      → i + 1 < n
      → n ≤ length xs
      → take (n - 1) (memmove i (i + 1) (n - i - 1) xs) ≡ remove_at i (take n xs)
  take-memmove-remove i n [] h k = absurd (omega arith)
  take-memmove-remove i n (x ∷ xs) h k =
      get_or-ext _ _ x
        (omega (
          arith,
          length-take (n - 1) moved,
          length-memmove i (i + 1) (n - i - 1) (x ∷ xs),
          length-remove_at i (take n (x ∷ xs)),
          length-take n (x ∷ xs),
        ))
        (λ j p. ground (
          arith,
          length-take (n - 1) moved,
          length-memmove i (i + 1) (n - i - 1) (x ∷ xs),
          length-take n (x ∷ xs),
          get_or-take (n - 1) moved j x,
          get_or-memmove i (i + 1) (n - i - 1) (x ∷ xs) j x,
          get_or-remove_at i (take n (x ∷ xs)) j x,
          get_or-take n (x ∷ xs) j x,
          get_or-take n (x ∷ xs) (j + 1) x,
        ))
    where
      moved : List A
      moved = memmove i (i + 1) (n - i - 1) (x ∷ xs)

  pub take-remove_last :
      (i n : ℕ) (xs : List A)
      → i + 1 ≡ n
      → n ≤ length xs
      → take (n - 1) xs ≡ remove_at i (take n xs)
  take-remove_last i n [] h k = absurd (omega arith)
  take-remove_last i n (x ∷ xs) h k =
      get_or-ext _ _ x
        (omega (
          arith,
          length-take (n - 1) (x ∷ xs),
          length-remove_at i (take n (x ∷ xs)),
          length-take n (x ∷ xs),
        ))
        (λ j p. ground (
          arith,
          length-take (n - 1) (x ∷ xs),
          length-take n (x ∷ xs),
          get_or-take (n - 1) (x ∷ xs) j x,
          get_or-remove_at i (take n (x ∷ xs)) j x,
          get_or-take n (x ∷ xs) j x,
        ))

  pub insert_at_end :
      (n : ℕ) (xs : List A) (y : A) → n ≡ length xs → insert_at n y xs ≡ xs ++ y ∷ []
  insert_at_end zero [] y h = refl
  insert_at_end zero (x ∷ xs) y h = absurd (omega arith)
  insert_at_end (suc n) [] y h = absurd (omega arith)
  insert_at_end (suc n) (x ∷ xs) y h = ap (◌∷◌ x) (insert_at_end n xs y (omega arith))
