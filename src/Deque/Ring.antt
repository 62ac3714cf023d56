-- ===== src/Deque/Ring.antt =====
-- The ring of src/deque.c: how deque_slot runs through the buffer, and what writes do to the elements.
use native.Mathlib.Nat.{mod-eq_of_lt, mod-eq-sub-mod}
use mathlib.Core.Path.{ap₂}
use native.Mathlib.Decide.{dec_lt}
use libcp.Prelude.{
  ℕ, suc, ◌+◌, ◌-◌, ◌%◌, ◌≤◌, ◌<◌, ◌≡◌, ◌≢◌, ap, sym, ◌∙◌, List, [], ◌∷◌, ◌++◌, arith, ltb, ◌==◌,
  if◌then◌else◌, length, get_or, get_or-set, set, resize, get_or-resize, get_or-tabulate, tabulate,
  tabulate-ext, tabulate-suc, set-tabulate,
}
use libcp.Memory.{add_size, max_object}

mod_wrap : (n cap : ℕ) → n < cap + cap → n % cap ≡ (if ltb n cap then n else n - cap)
mod_wrap n cap h = elim (dec_lt n cap) [
  | yes p ↦ ground (arith, mod-eq_of_lt p)
  | no p ↦
      let sub : n % cap ≡ (n - cap) % cap = mod-eq-sub-mod {n = n} {m = cap} (omega arith) in
      let low : (n - cap) % cap ≡ n - cap = mod-eq_of_lt {n = n - cap} {m = cap} (omega arith) in
      ground (arith, sub, low)
]

-- The index that deque_slot computes.
abbrev pub position : ℕ → ℕ → ℕ → ℕ
position cap head i = add_size head i % cap

module _ (cap head : ℕ) (head_in : head < cap) (small : cap < max_object) where
  pub position_wrap :
      (i : ℕ)
      → i ≤ cap
      → position cap head i ≡ (if ltb (head + i) cap then head + i else head + i - cap)
  position_wrap i h =
      let exact : add_size head i ≡ head + i = omega arith in
      ground (arith, exact, mod_wrap (head + i) cap)

  pub position_lt : (i : ℕ) → i ≤ cap → position cap head i < cap
  position_lt i h = ground (arith, position_wrap i h)

  -- Two indices below the capacity share no slot.
  pub position_ne :
      (i j : ℕ) → i < cap → j < cap → i ≢ j → position cap head i ≢ position cap head j
  position_ne i j h k ne e = ground (arith, position_wrap i, position_wrap j)

  -- The slot before the head is `back`, so what was at `i` is at `i + 1`.
  pub position_back :
      (back i : ℕ)
      → back ≡ (if head == 0 then cap - 1 else head - 1)
      → i < cap
      → position cap back (suc i) ≡ position cap head i
  position_back back i e h =
      let exact : add_size back (suc i) ≡ back + suc i = ground arith in
      ground (arith, exact, position_wrap i, mod_wrap (back + suc i) cap)

  pub position_next :
      (i : ℕ) → i < cap → position cap (position cap head 1) i ≡ position cap head (suc i)
  position_next i h =
      let exact : add_size (position cap head 1) i ≡ position cap head 1 + i =
        ground (arith, position_wrap 1) in
      ground (
        arith,
        exact,
        position_wrap 1,
        position_wrap (suc i),
        mod_wrap (position cap head 1 + i) cap,
      )

module _ {A : Type 0} where
  -- The `n` elements from index `head` on.
  abbrev pub ring : ℕ → ℕ → ℕ → List A → A → List A
  ring cap head n slots d = tabulate n (λ i. get_or slots (position cap head i) d)

  module _ (cap head : ℕ) (slots : List A) (d : A) (head_in : head < cap) (small : cap < max_object)
      (storage : length slots ≡ cap) where
    pub ring-set_back :
        (n : ℕ) (y : A)
        → n < cap
        → ring cap head (suc n) (set slots (position cap head n) y) d
          ≡ ring cap head n slots d ++ y ∷ []
    ring-set_back n y h =
        tabulate-suc n _ ∙ ap₂ (λ xs x. xs ++ x ∷ []) (tabulate-ext n _ _ unmoved) written
      where
        at : ℕ
        at = position cap head n

        unmoved :
            (i : ℕ)
            → i < n
            → get_or (set slots at y) (position cap head i) d ≡ get_or slots (position cap head i) d
        unmoved i p = ground (
          arith,
          position_ne cap head head_in small i n,
          position_lt cap head head_in small n,
          get_or-set slots at (position cap head i) y d,
        )

        written : get_or (set slots at y) at d ≡ y
        written = ground (arith, position_lt cap head head_in small n, get_or-set slots at at y d)

    pub ring-set_front :
        (n back : ℕ) (y : A)
        → back ≡ (if head == 0 then cap - 1 else head - 1)
        → n < cap
        → ring cap back (suc n) (set slots back y) d ≡ y ∷ ring cap head n slots d
    ring-set_front n back y e h = ap₂ ◌∷◌ written (tabulate-ext n _ _ unmoved)
      where
        written : get_or (set slots back y) (position cap back 0) d ≡ y
        written = ground (
          arith,
          position_wrap cap back (ground arith) small 0,
          get_or-set slots back (position cap back 0) y d,
        )

        unmoved :
            (i : ℕ)
            → i < n
            → get_or (set slots back y) (position cap back (suc i)) d
              ≡ get_or slots (position cap head i) d
        unmoved i p = ground (
          arith,
          position_back cap head head_in small back i e,
          position_wrap cap head head_in small i,
          get_or-set slots back (position cap back (suc i)) y d,
        )

    pub ring-next :
        (n : ℕ)
        → n < cap
        → ring cap head (suc n) slots d
          ≡ get_or slots head d ∷ ring cap (position cap head 1) n slots d
    ring-next n h =
        ap₂ ◌∷◌
          (ap (λ i. get_or slots i d) (ground (arith, position_wrap cap head head_in small 0)))
          (tabulate-ext n _ _ λ i p.
            ap (λ j. get_or slots j d) (sym (position_next cap head head_in small i (omega arith))))

    pub ring-set :
        (n i : ℕ) (y : A)
        → i < n
        → n ≤ cap
        → ring cap head n (set slots (position cap head i) y) d ≡ set (ring cap head n slots d) i y
    ring-set n i y h k =
        tabulate-ext n _ (λ j. if i == j then y else get_or slots (position cap head j) d)
          (λ j p. ground (
            arith,
            position_ne cap head head_in small i j,
            position_lt cap head head_in small i,
            get_or-set slots (position cap head i) (position cap head j) y d,
          ))
        ∙ sym (set-tabulate n _ i y)

  -- The new buffer of deque_reserve, read from its first slot.
  pub ring-unrolled :
      (cap n : ℕ) (d : A) (f : ℕ → A)
      → n ≤ cap
      → 0 < cap
      → cap < max_object
      → ring cap 0 n (resize d cap (tabulate n f)) d ≡ tabulate n f
  ring-unrolled cap n d f h pos small = tabulate-ext n _ f λ i p. ground (
    arith,
    position_wrap cap 0 pos small i,
    get_or-resize d cap (tabulate n f) i,
    get_or-tabulate n f i d,
  )
