-- ===== src/Unionfind/Forest.antt =====
-- The forest of parents of src/unionfind.c.
use mathlib.Core.Path.{subst}
use native.Mathlib.Decide.{ℕ_discrete}
use libcp.Prelude.{ℕ, zero, suc, ◌+◌, ◌≤◌, ◌<◌, ◌≡◌, ◌≢◌, refl, List, arith, length, get_or}
use libcp.Unionfind.{find_root}

abbrev pub parent : List ℕ → ℕ → ℕ
parent parents x = get_or parents x 0

-- `r` is the root that the parents lead to from `x`.
pub data Root (parents : List ℕ) : ℕ → ℕ → Type 0 where
  here : {r : ℕ} → parent parents r ≡ r → Root parents r r
  up : {x r : ℕ} → parent parents x ≢ x → Root parents (parent parents x) r → Root parents x r

-- Parents are nodes, and `rank` rises on the way to a root.
pub record IsForest (parents : List ℕ) (rank : ℕ → ℕ) : Type 0 where
  pub inside : (x : ℕ) → x < length parents → parent parents x < length parents
  pub rises : (x : ℕ) → x < length parents → parent parents x ≢ x → rank x < rank (parent parents x)

pub Root-parent : {parents : List ℕ} {x r : ℕ} → Root parents x r → parent parents r ≡ r
Root-parent (here e) = e
Root-parent (up ne rest) = Root-parent rest

-- A node has one root.
pub Root-unique : {parents : List ℕ} {x r s : ℕ} → Root parents x r → Root parents x s → r ≡ s
Root-unique (here e) (here e') = refl
Root-unique (here e) (up ne rest) = absurd (ne e)
Root-unique (up ne rest) (here e) = absurd (ne e)
Root-unique (up ne rest) (up ne' rest') = Root-unique rest rest'

module _ (parents : List ℕ) (rank : ℕ → ℕ) (forest : IsForest parents rank) where
  pub Root-inside : {x r : ℕ} → Root parents x r → x < length parents → r < length parents
  Root-inside (here e) h = h
  Root-inside (up {x = x} ne rest) h = Root-inside rest (forest.inside x h)

  pub Root-rank : {x r : ℕ} → Root parents x r → x < length parents → x ≢ r → rank x < rank r
  Root-rank (here e) h ne' = absurd (ne' refl)
  Root-rank (up {x = x} {r = r} ne rest) h ne' = elim (ℕ_discrete (parent parents x) r) [
    | yes e ↦ rw e at (forest.rises x h ne)
    | no e ↦ omega (arith, forest.rises x h ne, Root-rank rest (forest.inside x h) e)
  ]

find_root-here :
    (fuel : ℕ) (parents : List ℕ) (x : ℕ)
    → parent parents x ≡ x
    → x ≡ find_root (suc fuel) parents x
unfolding find_root
find_root-here fuel parents x e = ground arith

find_root-up :
    (fuel : ℕ) (parents : List ℕ) (x : ℕ)
    → parent parents x ≢ x
    → find_root fuel parents (parent parents x) ≡ find_root (suc fuel) parents x
unfolding find_root
find_root-up fuel parents x ne = ground arith

-- The first loop finds the root, when its fuel exceeds what the rank can rise.
pub find_root-Root :
    (fuel bound : ℕ) (parents : List ℕ) (rank : ℕ → ℕ) (x : ℕ)
    → IsForest parents rank
    → ((y : ℕ) → y < length parents → rank y ≤ bound)
    → bound < rank x + fuel
    → x < length parents
    → Root parents x (find_root fuel parents x)
unfolding find_root
find_root-Root zero bound parents rank x forest low f h = absurd (omega (arith, low x h))
find_root-Root (suc fuel) bound parents rank x forest low f h =
    elim (ℕ_discrete (parent parents x) x) [
      | yes e ↦ subst (Root parents x) (find_root-here fuel parents x e) (here e)
      | no ne ↦ subst (Root parents x) (find_root-up fuel parents x ne) (
          up ne (
            find_root-Root fuel bound parents rank (parent parents x) forest low
              (omega (arith, forest.rises x h ne)) (forest.inside x h)))
    ]
