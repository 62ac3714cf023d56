-- ===== src/Unionfind/Union.antt =====
-- unionfind_union and unionfind_same against the partition that the struct represents.
use libcp.Prelude.{
  ℕ, ◌-◌, ◌≤◌, ◌<◌, ◌≡◌, ◌≢◌, ◌↔◌, ◌⊎◌, refl, sym, ap, false, ◌||◌, some, arith, leb, ltb, ◌==◌,
  if◌then◌else◌, get_or, Bool-cases, inl, inr,
}
use libcp.Unionfind.{Unionfind, invalid, together, joined, find, link, link_larger, union, same}
use libcp.Unionfind.Find.{
  Represents, root_inside, root_idem, compressed, compressed-Represents, find-found,
}
use libcp.Unionfind.Link.{moved}
use libcp.Unionfind.Merge.{merged, linked-Represents}

-- `x` and `y` are in one set once the sets of `a` and `b` are one.
abbrev pub Together : (ℕ → ℕ) → ℕ → ℕ → ℕ → ℕ → Type 0
Together root a b x y =
    (root x ≡ root y)
    ⊎ (((root x ≡ root a) × (root y ≡ root b)) ⊎ ((root x ≡ root b) × (root y ≡ root a)))

-- What unionfind_union promises for two nodes of the struct.
pub record Merged (before after : Unionfind) (root : ℕ → ℕ) (a b : ℕ) : Type 0 where
  pub root_after : ℕ → ℕ
  pub represents : Represents after root_after
  pub same_size : after.size ≡ before.size
  pub one_fewer : after.set_count ≡ before.set_count - (if root a == root b then 0 else 1)
  pub classes :
      (x y : ℕ)
      → x < before.size
      → y < before.size
      → (root_after x ≡ root_after y) ↔ Together root a b x y

moved-Together :
    (root : ℕ → ℕ) (a b u v : ℕ)
    → ((u ≡ root a) × (v ≡ root b)) ⊎ ((u ≡ root b) × (v ≡ root a))
    → (x y : ℕ) → (moved u v (root x) ≡ moved u v (root y)) ↔ Together root a b x y
moved-Together root a b u v roots x y = ground arith

link_larger-Merged :
    (uf : Unionfind) (root : ℕ → ℕ)
    → Represents uf root
    → (a b : ℕ) → a < uf.size
    → b < uf.size
    → root a ≢ root b
    → Merged uf (link_larger uf (root a) (root b)) root a b
unfolding link_larger link
link_larger-Merged uf root rep a b ha hb apart =
    let in_a = root_inside uf root rep a ha in
    let in_b = root_inside uf root rep b hb in
    let top_a = root_idem uf root rep a ha in
    let top_b = root_idem uf root rep b hb in
    elim (Bool-cases (ltb (get_or uf.sizes (root a) 0) (get_or uf.sizes (root b) 0))) [
      | inl less ↦ rw less (record {
        root_after =
            merged uf root rep (root b) (root a) in_b in_a top_b top_a (λ e. apart (sym e));
        represents =
            linked-Represents uf root rep (root b) (root a) in_b in_a top_b top_a
              (λ e. apart (sym e)) (ground arith);
        same_size = refl;
        one_fewer = ground arith;
        classes = λ x y hx hy. moved-Together root a b (root b) (root a) (inr (refl, refl)) x y;
      })
      | inr more ↦ rw more (record {
        root_after = merged uf root rep (root a) (root b) in_a in_b top_a top_b apart;
        represents =
            linked-Represents uf root rep (root a) (root b) in_a in_b top_a top_b apart
              (ground arith);
        same_size = refl;
        one_fewer = ground arith;
        classes = λ x y hx hy. moved-Together root a b (root a) (root b) (inl (refl, refl)) x y;
      })
    ]

module _ (uf : Unionfind) (root : ℕ → ℕ) (rep : Represents uf root) (a b : ℕ) where
  -- The struct after the two calls of unionfind_find.
  abbrev twice : a < uf.size → Unionfind
  twice ha = compressed (compressed uf root rep a) root (compressed-Represents uf root rep a ha) b

  twice-Represents : (ha : a < uf.size) → b < uf.size → Represents (twice ha) root
  twice-Represents ha hb =
      compressed-Represents (compressed uf root rep a) root (compressed-Represents uf root rep a ha)
        b hb

  find_both :
      (ha : a < uf.size)
      → b < uf.size
      → find (compressed uf root rep a) b ≡ (some (root b), twice ha)
  find_both ha hb =
      find-found (compressed uf root rep a) root (compressed-Represents uf root rep a ha) b hb

  union-found :
      (ha : a < uf.size)
      → b < uf.size
      → union uf a b ≡ (
          if root a == root b
          then (together, twice ha)
          else (joined, link_larger (twice ha) (root a) (root b)))
  unfolding union
  union-found ha hb =
      let inside : (leb uf.size a || leb uf.size b) ≡ false = ground arith in
      let first = find-found uf root rep a ha in
      let second = find_both ha hb in
      rw
        (
          inside,
          ap (λ z. z.0) first,
          ap (λ z. z.1) first,
          ap (λ z. z.0) second,
          ap (λ z. z.1) second,
        )
        refl

  -- For two nodes of a struct that represents a partition, unionfind_union returns 0 when they are
  -- in one set and 1 otherwise, and then the struct represents the partition in which their two
  -- sets are one and the others as before, with set_count one lower if the sets were two; the sizes
  -- at the roots and the logarithmic bound on the depth hold again.
  pub union_correct :
      a < uf.size
      → b < uf.size
      → ((union uf a b).0 ≡ (if root a == root b then together else joined))
        × Merged uf (union uf a b).1 root a b
  union_correct ha hb = elim (Bool-cases (root a == root b)) [
    | inl e ↦
        rw (union-found ha hb, e)
          (
            refl,
            record {
              root_after = root;
              represents = twice-Represents ha hb;
              same_size = refl;
              one_fewer = ground arith;
              classes = λ x y hx hy. ground arith;
            },
          )
    | inr e ↦
        let apart : root a ≢ root b = ground arith in
        let m = link_larger-Merged (twice ha) root (twice-Represents ha hb) a b ha hb apart in
        rw (union-found ha hb, e)
          (
            refl,
            record {
              root_after = m.root_after;
              represents = m.represents;
              same_size = m.same_size;
              one_fewer = m.one_fewer;
              classes = m.classes;
            },
          )
  ]

  -- On a struct that represents a partition, unionfind_union returns -1 exactly when one of its
  -- arguments is not below the size.
  pub union_invalid : ((union uf a b).0 ≡ invalid) ↔ ((uf.size ≤ a) ⊎ (uf.size ≤ b))
  unfolding union
  union_invalid = elim (Bool-cases (leb uf.size a || leb uf.size b)) [
    | inl out ↦ rw out (ground arith)
    | inr inside ↦
        let ha : a < uf.size = ground arith in
        let hb : b < uf.size = ground arith in
        let status = (union_correct ha hb).0 in
        elim (Bool-cases (root a == root b)) [ inl e ↦ ground arith | inr e ↦ ground arith ]
  ]

  -- For two nodes of a struct that represents a partition, unionfind_same returns 1 when one root
  -- speaks for both and 0 otherwise, and the struct represents the same partition afterwards.
  pub same_correct :
      a < uf.size
      → b < uf.size
      → ((same uf a b).0 ≡ some (root a == root b)) × Represents (same uf a b).1 root
  unfolding same
  same_correct ha hb =
      let inside : (leb uf.size a || leb uf.size b) ≡ false = ground arith in
      let first = find-found uf root rep a ha in
      let second = find_both ha hb in
      rw
        (
          inside,
          ap (λ z. z.0) first,
          ap (λ z. z.1) first,
          ap (λ z. z.0) second,
          ap (λ z. z.1) second,
        )
        (refl, twice-Represents ha hb)
