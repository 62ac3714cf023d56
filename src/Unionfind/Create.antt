-- ===== src/Unionfind/Create.antt =====
-- unionfind_reset, unionfind_init and unionfind_copy of src/unionfind.c.
use native.Mathlib.Decide.{ℕ_discrete}
use libcp.Prelude.{
  ℕ, zero, suc, ◌+◌, ◌*◌, ◌<◌, ◌≡◌, ◌⊎◌, refl, sym, ap, ◌∙◌, Bool, false, ◌&&◌, ◌||◌, List, [], ◌∷◌,
  Bool-cases, arith, ◌==◌, if◌then◌else◌, length, get_or, set, get_or-set, length-set,
  length-replicate, inl, inr,
}
use libcp.Memory.{
  Env, World, Status, done, failed, malloc, memcpy, memcpy-whole, mul_size, slots_in,
  slots_in-mul_size, size_mod,
}
use libcp.Unionfind.{Unionfind, sizeof_size, reset_from, reset, resize, init, copy}
use libcp.Unionfind.Forest.{parent, here}
use libcp.Counting.{count-single, count-all}
use libcp.Unionfind.Find.{Represents}

-- What the loop has written when `rounds` rounds are left from index `i`.
record Written (n i : ℕ) (parents sizes : List ℕ) : Type 0 where
  pub parents_length : length parents ≡ n
  pub sizes_length : length sizes ≡ n
  pub alone : (x : ℕ) → x < i → parent parents x ≡ x
  pub single : (x : ℕ) → x < i → get_or sizes x 0 ≡ 1

reset_from-Written :
    (rounds n i : ℕ) (parents sizes : List ℕ)
    → i + rounds ≡ n
    → Written n i parents sizes
    → Written n n (reset_from rounds i parents sizes).0 (reset_from rounds i parents sizes).1
unfolding reset_from
reset_from-Written zero n i parents sizes e before =
    let full : i ≡ n = omega arith in rw full at before
reset_from-Written (suc rounds) n i parents sizes e before =
    reset_from-Written rounds n (i + 1) (set parents i i) (set sizes i 1) (omega arith) (record {
      parents_length = length-set parents i i ∙ before.parents_length;
      sizes_length = length-set sizes i 1 ∙ before.sizes_length;
      alone = λ x h. elim (ℕ_discrete x i) [
        | yes same ↦ ground (arith, get_or-set parents i x i 0, before.parents_length)
        | no ne ↦ ground (arith, get_or-set parents i x i 0, before.parents_length, before.alone x)
      ];
      single =
          λ x h. ground (arith, get_or-set sizes i x 1 0, before.sizes_length, before.single x);
    })

-- unionfind_reset puts every node in a set of its own.
pub reset-Represents :
    (uf : Unionfind)
    → length uf.parents ≡ uf.size
    → length uf.sizes ≡ uf.size
    → uf.size < size_mod
    → Represents (reset uf) (λ x. x)
unfolding reset
reset-Represents uf hp hs bounded =
    let w = reset_from-Written uf.size uf.size 0 uf.parents uf.sizes (omega arith) (record {
      parents_length = hp;
      sizes_length = hs;
      alone = λ x h. absurd (omega arith);
      single = λ x h. absurd (omega arith);
    }) in
    record {
      rank = λ x. 0;
      parents_length = w.parents_length;
      sizes_length = w.sizes_length;
      bounded = bounded;
      forest = record {
        inside = λ x h. ground (arith, w.alone x, w.parents_length);
        rises = λ x h off. absurd (off (w.alone x (omega (arith, w.parents_length))));
      };
      rooted = λ x h. here (w.alone x h);
      high = λ r h e. omega (arith, w.single r h);
      counted = λ r h e. w.single r h ∙ sym (count-single uf.size r h);
      sets = sym (count-all uf.size (λ x. x == x) (λ x h. ground arith));
    }

-- Whether the allocator grants the two arrays.
abbrev pub both_granted : Env ℕ → ℕ → World ℕ → Bool
both_granted e size w =
    (size == 0)
    || (e.grants w.calls (size * sizeof_size) && e.grants (w.calls + 1) (size * sizeof_size))

abbrev pub empty : Unionfind
empty = record { size = 0; set_count = 0; parents = []; sizes = [] }

module _ (e : Env ℕ) (size : ℕ) (w : World ℕ) (fits : size * sizeof_size < size_mod) where
  -- Two arrays of `size` slots, or the struct as it was.
  record Resized (uf : Unionfind) (r : Status × Unionfind × World ℕ) : Type 0 where
    pub status : r.0 ≡ (if both_granted e size w then done else failed)
    pub outcome :
        ((r.0 ≡ done) × (r.1.size ≡ size) × (length r.1.parents ≡ size) × (length r.1.sizes ≡ size))
        ⊎ ((r.0 ≡ failed) × (r.1 ≡ uf))

  resize-Resized : (uf : Unionfind) → Resized uf (resize e uf size w)
  unfolding resize malloc
  resize-Resized uf = ground (
    arith,
    slots_in-mul_size size sizeof_size,
    length-replicate (slots_in (mul_size size sizeof_size) sizeof_size) e.junk,
  )

  -- For a number of nodes whose arrays have a size in size_t, unionfind_init succeeds exactly when
  -- there are no nodes or the allocator grants both arrays; then the struct represents the
  -- partition in which every node is alone, and otherwise it is the empty struct.
  pub init_correct :
      ((init e size w).0 ≡ (if both_granted e size w then done else failed))
      × ((((init e size w).0 ≡ done)
            × ((init e size w).1.size ≡ size)
            × Represents (init e size w).1 (λ x. x))
          ⊎ (((init e size w).0 ≡ failed) × ((init e size w).1 ≡ empty)))
  unfolding init reset
  init_correct =
      let r = resize e empty size w in
      let made = resize-Resized empty in
      let status = made.status in
      elim made.outcome [
        | inl (ok, sized, parents, sizes) ↦
            rw (ok, init)
              (
                rw ok at status,
                inl (
                  refl,
                  sized,
                  reset-Represents r.1 (parents ∙ sym sized) (sizes ∙ sym sized)
                      (omega (arith, sized, fits)),
                ),
              )
        | inr (bad, kept) ↦ rw (bad, init) (rw bad at status, inr (refl, kept))
      ]

both_empty : (xs ys : List ℕ) → length xs ≡ 0 → length ys ≡ 0 → xs ≡ ys
both_empty [] [] h k = refl
both_empty (x ∷ xs) ys h k = absurd (omega arith)
both_empty [] (y ∷ ys) h k = absurd (omega arith)

-- The arrays after the two calls of memcpy.
copied :
    (dst src : List ℕ) (size : ℕ)
    → size * sizeof_size < size_mod
    → length dst ≡ size
    → length src ≡ size
    → (if size == 0 then dst else memcpy dst src (slots_in (mul_size size sizeof_size) sizeof_size))
      ≡ src
copied dst src size fits d s =
    let slots = (slots_in-mul_size size sizeof_size (omega arith) fits).1 in
    rw slots (elim (Bool-cases (size == 0)) [
      | inl none ↦ rw none (both_empty dst src (ground (arith, d, none)) (ground (arith, s, none)))
      | inr some ↦ rw some (memcpy-whole dst src size d s)
    ])

-- Between two structs that are not one pointer, where the arrays of the source have as many
-- elements as its size and a size in size_t, unionfind_copy succeeds exactly when there are no
-- nodes or the allocator grants both arrays; then the destination has the source's size, set_count
-- and both arrays, and otherwise it is unchanged.
pub copy_correct :
    (e : Env ℕ) (dst src : Unionfind) (w : World ℕ)
    → src.size * sizeof_size < size_mod
    → length src.parents ≡ src.size
    → length src.sizes ≡ src.size
    → ((copy e false dst src w).0 ≡ (if both_granted e src.size w then done else failed))
      × ((((copy e false dst src w).0 ≡ done) × ((copy e false dst src w).1 ≡ src))
          ⊎ (((copy e false dst src w).0 ≡ failed) × ((copy e false dst src w).1 ≡ dst)))
unfolding copy
copy_correct e dst src w fits long long' =
    let made = resize-Resized e src.size w fits dst in
    let status = made.status in
    elim made.outcome [
      | inl (ok, sized, parents, sizes) ↦
          let r = (resize e dst src.size w).1 in
          rw (ok, copy)
            (
              rw ok at status,
              inl (
                refl,
                rw
                    (
                      copied r.parents src.parents src.size fits parents long,
                      copied r.sizes src.sizes src.size fits sizes long',
                    )
                    (ap (λ n. record src { size = n }) sized),
              ),
            )
      | inr (bad, kept) ↦ rw (bad, copy) (rw bad at status, inr (refl, kept))
    ]
