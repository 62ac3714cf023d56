-- ===== src/Unionfind/Link.antt =====
-- The writes of unionfind_union.
use Prim.Native.Nat.{max}
use mathlib.Core.Path.{subst}
use native.Mathlib.Decide.{ℕ_discrete}
use libcp.Prelude.{
  ℕ, ◌+◌, ◌≤◌, ◌<◌, ◌≡◌, ◌≢◌, sym, ap, ◌∙◌, List, arith, ◌==◌, if◌then◌else◌, length, set,
  length-set,
}
use libcp.Unionfind.Forest.{parent, Root, here, up, IsForest}
use libcp.Unionfind.Compress.{parent-set, parent-set_other}

-- The root of a set after the set of `root_b` has joined that of `root_a`.
abbrev pub moved : ℕ → ℕ → ℕ → ℕ
moved root_a root_b r = if r == root_b then root_a else r

pub moved-there : (root_a root_b : ℕ) → moved root_a root_b root_b ≡ root_a
moved-there root_a root_b = ground arith

pub moved-other : (root_a root_b r : ℕ) → r ≢ root_b → moved root_a root_b r ≡ r
moved-other root_a root_b r ne = ground arith

-- The rank of the root that the other is put under.
pub raised : (ℕ → ℕ) → ℕ → ℕ → ℕ → ℕ
raised rank root_a root_b y = if y == root_a then max (rank root_a) (rank root_b + 1) else rank y

pub raised-le : (rank : ℕ → ℕ) (root_a root_b y : ℕ) → rank y ≤ raised rank root_a root_b y
unfolding raised
raised-le rank root_a root_b y = elim (ℕ_discrete y root_a) [
  | yes e ↦ subst (λ z. rank z ≤ raised rank root_a root_b z) (sym e) (ground arith)
  | no ne ↦ ground arith
]

pub raised-other :
    (rank : ℕ → ℕ) (root_a root_b y : ℕ) → y ≢ root_a → raised rank root_a root_b y ≡ rank y
unfolding raised
raised-other rank root_a root_b y ne = ground arith

pub raised-at :
    (rank : ℕ → ℕ) (root_a root_b : ℕ)
    → raised rank root_a root_b root_a ≡ max (rank root_a) (rank root_b + 1)
unfolding raised
raised-at rank root_a root_b = ground arith

module _ (parents : List ℕ) (root_a root_b : ℕ) (in_a : root_a < length parents)
    (in_b : root_b < length parents) (top_a : parent parents root_a ≡ root_a)
    (top_b : parent parents root_b ≡ root_b) (apart : root_a ≢ root_b) where
  pub linked-Root :
      {x s : ℕ} → Root parents x s → Root (set parents root_b root_a) x (moved root_a root_b s)
  linked-Root (here {r = r} e) = elim (ℕ_discrete r root_b) [
    | yes same ↦
        let now : parent (set parents root_b root_a) root_b ≡ root_a =
          parent-set parents root_b root_a in_b in
        let still : parent (set parents root_b root_a) root_a ≡ root_a =
          parent-set_other parents root_b root_a root_a apart ∙ top_a in
        subst (λ z. Root (set parents root_b root_a) z (moved root_a root_b z)) (sym same)
          (subst (Root (set parents root_b root_a) root_b) (sym (moved-there root_a root_b)) (
            up (λ stay. apart (sym now ∙ stay))
              (subst (λ z. Root (set parents root_b root_a) z root_a) (sym now) (here still))))
    | no other ↦
        subst (Root (set parents root_b root_a) r) (sym (moved-other root_a root_b r other))
          (here (parent-set_other parents root_b r root_a other ∙ e))
  ]
  linked-Root (up {x = x} {r = r} off rest) =
      let other : x ≢ root_b = λ e. off (subst (λ z. parent parents z ≡ z) (sym e) top_b) in
      let same = parent-set_other parents root_b x root_a other in
      up (λ e. off (sym same ∙ e))
        (subst (λ z. Root (set parents root_b root_a) z (moved root_a root_b r)) (sym same)
          (linked-Root rest))

  pub linked-IsForest :
      (rank : ℕ → ℕ)
      → IsForest parents rank
      → IsForest (set parents root_b root_a) (raised rank root_a root_b)
  linked-IsForest rank forest = record {
    inside = λ y h. elim (ℕ_discrete y root_b) [
      | yes e ↦ ground (arith, length-set parents root_b root_a, parent-set parents root_b root_a)
      | no ne ↦ ground (
        arith,
        length-set parents root_b root_a,
        parent-set_other parents root_b y root_a,
        forest.inside y,
      )
    ];
    rises = λ y h off. elim (ℕ_discrete y root_b) [
      | yes e ↦ ground (
        arith,
        parent-set parents root_b root_a,
        raised-other rank root_a root_b y,
        raised-at rank root_a root_b,
      )
      | no ne ↦
          let same = parent-set_other parents root_b y root_a ne in
          let not_a : y ≢ root_a = λ e. off (same ∙ ap (parent parents) e ∙ top_a ∙ sym e) in
          let rise = forest.rises y (rw length-set at h) (λ e. off (same ∙ e)) in
          rw (raised-other rank root_a root_b y not_a, same)
            (omega (arith, rise, raised-le rank root_a root_b (parent parents y)))
    ];
  }
