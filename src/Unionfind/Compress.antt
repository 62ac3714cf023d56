-- ===== src/Unionfind/Compress.antt =====
-- The second loop of unionfind_find.
use mathlib.Core.Path.{subst}
use native.Mathlib.Decide.{ℕ_discrete}
use libcp.Prelude.{
  ℕ, zero, suc, ◌+◌, ◌≤◌, ◌<◌, ◌≡◌, ◌≢◌, refl, sym, ◌∙◌, List, arith, length, set, get_or-set,
  get_or-set_other, length-set,
}
use libcp.Unionfind.{compress}
use libcp.Unionfind.Forest.{
  parent, Root, here, up, Root-parent, Root-unique, Root-inside, Root-rank, IsForest,
}

pub parent-set : (parents : List ℕ) (x s : ℕ) → x < length parents → parent (set parents x s) x ≡ s
parent-set parents x s h = ground (arith, get_or-set parents x x s 0)

pub parent-set_other :
    (parents : List ℕ) (x y s : ℕ) → y ≢ x → parent (set parents x s) y ≡ parent parents y
parent-set_other parents x y s ne = get_or-set_other parents x y s 0 (λ e. ne (sym e))

-- A node may get any node of higher rank as its parent.
pub set-IsForest :
    (parents : List ℕ) (rank : ℕ → ℕ) (x s : ℕ)
    → IsForest parents rank
    → x < length parents
    → s < length parents
    → rank x < rank s
    → IsForest (set parents x s) rank
set-IsForest parents rank x s forest hx hs rise = record {
  inside = λ y h. elim (ℕ_discrete y x) [
    | yes e ↦ ground (arith, length-set parents x s, parent-set parents x s)
    | no ne ↦
        ground (arith, length-set parents x s, parent-set_other parents x y s, forest.inside y)
  ];
  rises = λ y h up. elim (ℕ_discrete y x) [
    | yes e ↦ ground (arith, length-set parents x s, parent-set parents x s)
    | no ne ↦ ground (arith, length-set parents x s, parent-set_other parents x y s, forest.rises y)
  ];
}

set-Root_here :
    (parents : List ℕ) (x s : ℕ)
    → x < length parents
    → x ≢ s
    → Root parents x s
    → Root (set parents x s) x s
set-Root_here parents x s hx ne top =
    let now : parent (set parents x s) x ≡ s = parent-set parents x s hx in
    let still : parent (set parents x s) s ≡ s =
      parent-set_other parents x s s (λ e. ne (sym e)) ∙ Root-parent top in
    up (λ e. ne (sym e ∙ now)) (subst (λ z. Root (set parents x s) z s) (sym now) (here still))

-- Writing a node's root as its parent keeps the root of every node.
pub set-Root :
    (parents : List ℕ) (x s : ℕ)
    → x < length parents
    → x ≢ s
    → Root parents x s
    → {y r : ℕ} → Root parents y r
    → Root (set parents x s) y r
set-Root parents x s hx ne top (here {r = r} e) = elim (ℕ_discrete r x) [
  | yes same ↦ absurd (ne (Root-unique (here (subst (λ z. parent parents z ≡ z) same e)) top))
  | no other ↦ here (parent-set_other parents x r s other ∙ e)
]
set-Root parents x s hx ne top (up {x = y} {r = r} off rest) = elim (ℕ_discrete y x) [
  | yes same ↦
      let agree : s ≡ r =
        Root-unique (subst (λ z. Root parents z s) (sym same) top) (up off rest) in
      subst (λ z. Root (set parents x s) z r) (sym same)
        (subst (Root (set parents x s) x) agree (set-Root_here parents x s hx ne top))
  | no other ↦
      up (λ e. off (sym (parent-set_other parents x y s other) ∙ e))
        (subst (λ z. Root (set parents x s) z r) (sym (parent-set_other parents x y s other))
          (set-Root parents x s hx ne top rest))
]

compress-stop :
    (fuel : ℕ) (parents : List ℕ) (x root : ℕ)
    → parent parents x ≡ x
    → parents ≡ compress (suc fuel) parents x root
unfolding compress
compress-stop fuel parents x root e = ground arith

compress-up :
    (fuel : ℕ) (parents : List ℕ) (x root : ℕ)
    → parent parents x ≢ x
    → compress fuel (set parents x root) (parent parents x) root
      ≡ compress (suc fuel) parents x root
unfolding compress
compress-up fuel parents x root ne = ground arith

-- What the loop keeps.
pub record Kept (before after : List ℕ) (rank : ℕ → ℕ) : Type 0 where
  pub as_long : length after ≡ length before
  pub forest : IsForest after rank
  pub roots : {y r : ℕ} → Root before y r → Root after y r

Kept-refl : (parents : List ℕ) (rank : ℕ → ℕ) → IsForest parents rank → Kept parents parents rank
Kept-refl parents rank forest = record { as_long = refl; forest = forest; roots = λ r. r }

pub Kept-trans :
    {first second third : List ℕ} (rank : ℕ → ℕ)
    → Kept first second rank
    → Kept second third rank
    → Kept first third rank
Kept-trans rank k l = record {
  as_long = l.as_long ∙ k.as_long;
  forest = l.forest;
  roots = λ r. l.roots (k.roots r);
}

set-Kept :
    (parents : List ℕ) (rank : ℕ → ℕ) (x s : ℕ)
    → IsForest parents rank
    → x < length parents
    → parent parents x ≢ x
    → Root parents x s
    → Kept parents (set parents x s) rank
set-Kept parents rank x s forest h off top =
    let ne : x ≢ s = λ e. off (subst (λ z. parent parents z ≡ z) (sym e) (Root-parent top)) in
    record {
      as_long = length-set parents x s;
      forest =
          set-IsForest parents rank x s forest h (Root-inside parents rank forest top h)
            (Root-rank parents rank forest top h ne);
      roots = λ r. set-Root parents x s h ne top r;
    }

pub Root-next :
    {parents : List ℕ} {x s : ℕ}
    → Root parents x s
    → parent parents x ≢ x
    → Root parents (parent parents x) s
Root-next (here e) off = absurd (off e)
Root-next (up ne rest) off = rest

pub compress-Kept :
    (fuel : ℕ) (parents : List ℕ) (rank : ℕ → ℕ) (x root : ℕ)
    → IsForest parents rank
    → x < length parents
    → Root parents x root
    → Kept parents (compress fuel parents x root) rank
unfolding compress
compress-Kept zero parents rank x root forest h top = Kept-refl parents rank forest
compress-Kept (suc fuel) parents rank x root forest h top = elim (ℕ_discrete (parent parents x) x) [
  | yes e ↦
      subst (λ z. Kept parents z rank) (compress-stop fuel parents x root e)
        (Kept-refl parents rank forest)
  | no ne ↦
      let first = set-Kept parents rank x root forest h ne top in
      let next = forest.inside x h in
      subst (λ z. Kept parents z rank) (compress-up fuel parents x root ne)
        (Kept-trans rank first (
          compress-Kept fuel (set parents x root) rank (parent parents x) root first.forest
            (rw length-set next) (first.roots (Root-next top ne))))
]

-- Once a node has the root as its parent, the loop leaves it there.
set-parent_kept :
    (parents : List ℕ) (x y root : ℕ)
    → y < length parents
    → parent parents y ≡ root
    → parent (set parents x root) y ≡ root
set-parent_kept parents x y root h e = elim (ℕ_discrete y x) [
  | yes same ↦ subst (λ z. parent (set parents z root) y ≡ root) same (parent-set parents y root h)
  | no other ↦ parent-set_other parents x y root other ∙ e
]

compress-parent_kept :
    (fuel : ℕ) (parents : List ℕ) (x y root : ℕ)
    → y < length parents
    → parent parents y ≡ root
    → parent (compress fuel parents x root) y ≡ root
unfolding compress
compress-parent_kept zero parents x y root h e = e
compress-parent_kept (suc fuel) parents x y root h e = elim (ℕ_discrete (parent parents x) x) [
  | yes stop ↦ subst (λ z. parent z y ≡ root) (compress-stop fuel parents x root stop) e
  | no ne ↦
      subst (λ z. parent z y ≡ root) (compress-up fuel parents x root ne)
        (compress-parent_kept fuel (set parents x root) (parent parents x) y root (rw length-set h)
          (set-parent_kept parents x y root h e))
]

-- The node that find was called with has its root as its parent afterwards.
compress-parent :
    (fuel : ℕ) (parents : List ℕ) (x root : ℕ)
    → x < length parents
    → Root parents x root
    → parent (compress (suc fuel) parents x root) x ≡ root
compress-parent fuel parents x root h (here e) =
    subst (λ z. parent z x ≡ x) (compress-stop fuel parents x x e) e
compress-parent fuel parents x root h (up ne rest) =
    subst (λ z. parent z x ≡ root) (compress-up fuel parents x root ne)
      (compress-parent_kept fuel (set parents x root) (parent parents x) x root (rw length-set h)
        (parent-set parents x root h))

pub compress-parent_positive :
    (fuel : ℕ) (parents : List ℕ) (x root : ℕ)
    → 0 < fuel
    → x < length parents
    → Root parents x root
    → parent (compress fuel parents x root) x ≡ root
compress-parent_positive zero parents x root p h top = absurd (omega arith)
compress-parent_positive (suc fuel) parents x root p h top =
    compress-parent fuel parents x root h top

-- The loop ends before the fuel does: any two amounts that are enough give one result.
pub compress-enough :
    (fuel fuel' bound : ℕ) (parents : List ℕ) (rank : ℕ → ℕ) (x root : ℕ)
    → IsForest parents rank
    → ((y : ℕ) → y < length parents → rank y ≤ bound)
    → bound < rank x + fuel
    → bound < rank x + fuel'
    → x < length parents
    → Root parents x root
    → compress fuel parents x root ≡ compress fuel' parents x root
compress-enough zero fuel' bound parents rank x root forest low f f' h top =
    absurd (omega (arith, low x h))
compress-enough (suc fuel) zero bound parents rank x root forest low f f' h top =
    absurd (omega (arith, low x h))
compress-enough (suc fuel) (suc fuel') bound parents rank x root forest low f f' h top =
    elim (ℕ_discrete (parent parents x) x) [
      | yes e ↦ sym (compress-stop fuel parents x root e) ∙ compress-stop fuel' parents x root e
      | no ne ↦
          let first = set-Kept parents rank x root forest h ne top in
          let next = forest.inside x h in
          let rise = forest.rises x h ne in
          sym (compress-up fuel parents x root ne)
          ∙ compress-enough fuel fuel' bound (set parents x root) rank (parent parents x) root
              first.forest (λ y hy. low y (rw length-set at hy)) (omega (arith, rise))
              (omega (arith, rise)) (rw length-set next) (first.roots (Root-next top ne))
          ∙ compress-up fuel' parents x root ne
    ]
