-- ===== src/Unionfind/Merge.antt =====
-- The partition of a struct after the writes of unionfind_union.
use Prim.Native.Nat.{max}
use mathlib.Core.Path.{subst}
use native.Mathlib.Decide.{dec_lt, ℕ_discrete}
use native.Mathlib.Nat.{two-pow-succ, mod-eq_of_lt}
use libcp.Prelude.{
  ℕ, suc, ◌+◌, ◌^◌, ◌≤◌, ◌<◌, ◌≡◌, ◌≢◌, sym, ap, ◌∙◌, List, arith, ◌==◌, if◌then◌else◌, length,
  get_or, set, get_or-set_other, length-set,
}
use libcp.Memory.{add_size}
use libcp.Unionfind.{Unionfind, link}
use libcp.Unionfind.Forest.{parent, Root-parent}
use libcp.Unionfind.Compress.{parent-set}
use libcp.Counting.{count, count-le, count-ext, count-single, count-split}
use libcp.Unionfind.Find.{Represents}
use libcp.Unionfind.Link.{
  moved, moved-there, moved-other, raised, raised-other, raised-at, linked-Root, linked-IsForest,
}

pow-max : (i j k m n : ℕ) → k ≡ max i (j + 1) → 2 ^ i ≤ m → 2 ^ j ≤ n → n ≤ m → 2 ^ k ≤ m + n
pow-max i j k m n e a b c = elim (dec_lt i (j + 1)) [
  | yes h ↦
      let is_j : k ≡ suc j = omega arith in
      subst (λ z. 2 ^ z ≤ m + n) (sym is_j) (omega (arith, two-pow-succ j))
  | no h ↦ let is_i : k ≡ i = omega arith in subst (λ z. 2 ^ z ≤ m + n) (sym is_i) (omega arith)
]

module _ (uf : Unionfind) (root : ℕ → ℕ) (rep : Represents uf root) (a b : ℕ) (in_a : a < uf.size)
    (in_b : b < uf.size) (top_a : root a ≡ a) (top_b : root b ≡ b) (apart : a ≢ b) where
  abbrev pub merged : ℕ → ℕ
  merged x = moved a b (root x)

  -- A root after the writes is an old one, and not the one that was put under the other.
  merged-fixed : (r : ℕ) → merged r ≡ r → (root r ≡ r) × (r ≢ b)
  merged-fixed r e = elim (ℕ_discrete (root r) b) [
    | yes same ↦
        let is_a : a ≡ r = sym (moved-there a b) ∙ ap (moved a b) (sym same) ∙ e in
        absurd (apart (sym top_a ∙ ap root is_a ∙ same))
    | no other ↦
        let fixed = sym (moved-other a b (root r) other) ∙ e in
        (fixed, λ is_b. other (fixed ∙ is_b))
  ]

  count-both :
      count uf.size (λ x. merged x == a)
      ≡ count uf.size (λ x. root x == a) + count uf.size (λ x. root x == b)
  count-both =
      count-split uf.size (λ x. root x == a) (λ x. root x == b) (λ x. merged x == a)
        (λ i h. elim (ℕ_discrete (root i) b) [ yes e ↦ ground arith | no ne ↦ ground arith ])

  count-third :
      (r : ℕ)
      → r ≢ a
      → r ≢ b
      → count uf.size (λ x. merged x == r) ≡ count uf.size (λ x. root x == r)
  count-third r ne ne' =
      count-ext uf.size (λ x. merged x == r) (λ x. root x == r)
        (λ i h. elim (ℕ_discrete (root i) b) [ yes e ↦ ground arith | no other ↦ ground arith ])

  -- Of the old roots, the new ones and `b`.
  trade :
      (i : ℕ)
      → i < uf.size
      → (if root i == i then 1 else 0)
        ≡ (if merged i == i then 1 else 0) + (if i == b then 1 else 0)
  trade i h = elim (ℕ_discrete i b) [
    | yes e ↦ let itself : root i ≡ i = ap root e ∙ top_b ∙ sym e in ground arith
    | no ne ↦ elim (ℕ_discrete (root i) b) [
      | yes same ↦
          let not_a : i ≢ a = λ e. apart (sym top_a ∙ ap root (sym e) ∙ same) in ground arith
      | no other ↦ ground arith
    ]
  ]

  count-roots : count uf.size (λ x. root x == x) ≡ count uf.size (λ x. merged x == x) + 1
  count-roots =
      count-split uf.size (λ x. merged x == x) (λ x. x == b) (λ x. root x == x) trade
      ∙ ap (λ k. count uf.size (λ x. merged x == x) + k) (count-single uf.size b in_b)

  -- The sum of the two sizes does not wrap round.
  size-sum :
      add_size (get_or uf.sizes a 0) (get_or uf.sizes b 0)
      ≡ get_or uf.sizes a 0 + get_or uf.sizes b 0
  size-sum = mod-eq_of_lt (
      omega (
        arith,
        rep.counted a in_a top_a,
        rep.counted b in_b top_b,
        count-both,
        count-le uf.size (λ x. merged x == a),
        rep.bounded,
      ))

  -- The sizes after the writes.
  new_sizes : List ℕ
  new_sizes = set (set uf.sizes a (add_size (get_or uf.sizes a 0) (get_or uf.sizes b 0))) b 0

  new_sizes-at : get_or new_sizes a 0 ≡ get_or uf.sizes a 0 + get_or uf.sizes b 0
  unfolding new_sizes
  new_sizes-at =
      get_or-set_other (set uf.sizes a _) b a 0 0 (λ e. apart (sym e))
      ∙ parent-set uf.sizes a _ (rw rep.sizes_length in_a)
      ∙ size-sum

  new_sizes-other : (r : ℕ) → r ≢ a → r ≢ b → get_or new_sizes r 0 ≡ get_or uf.sizes r 0
  unfolding new_sizes
  new_sizes-other r ne ne' =
      get_or-set_other (set uf.sizes a _) b r 0 0 (λ e. ne' (sym e))
      ∙ get_or-set_other uf.sizes a r _ 0 (λ e. ne (sym e))

  new_sizes-high :
      get_or uf.sizes b 0 ≤ get_or uf.sizes a 0
      → (r : ℕ) → r < uf.size
      → merged r ≡ r
      → 2 ^ raised rep.rank a b r ≤ get_or new_sizes r 0
  new_sizes-high larger r h fixed =
      let (root_r, not_b) = merged-fixed r fixed in
      elim (ℕ_discrete r a) [
        | yes e ↦
            subst (λ z. 2 ^ raised rep.rank a b z ≤ get_or new_sizes z 0) (sym e)
              (rw new_sizes-at (
                pow-max (rep.rank a) (rep.rank b) _ _ _ (raised-at rep.rank a b)
                  (rep.high a in_a top_a) (rep.high b in_b top_b) larger))
        | no ne ↦
            rw (new_sizes-other r ne not_b, raised-other rep.rank a b r ne) (rep.high r h root_r)
      ]

  new_sizes-counted :
      (r : ℕ)
      → r < uf.size
      → merged r ≡ r
      → get_or new_sizes r 0 ≡ count uf.size (λ x. merged x == r)
  new_sizes-counted r h fixed =
      let (root_r, not_b) = merged-fixed r fixed in
      elim (ℕ_discrete r a) [
        | yes e ↦
            subst (λ z. get_or new_sizes z 0 ≡ count uf.size (λ x. merged x == z)) (sym e)
              (omega (
                arith,
                new_sizes-at,
                count-both,
                rep.counted a in_a top_a,
                rep.counted b in_b top_b,
              ))
        | no ne ↦ new_sizes-other r ne not_b ∙ rep.counted r h root_r ∙ sym (count-third r ne not_b)
      ]

  pub linked-Represents :
      get_or uf.sizes b 0 ≤ get_or uf.sizes a 0 → Represents (link uf a b) merged
  unfolding link new_sizes
  linked-Represents larger =
      let at_a : a < length uf.parents = rw rep.parents_length in_a in
      let at_b : b < length uf.parents = rw rep.parents_length in_b in
      let is_a = Root-parent (rep.rooted a in_a) in
      let is_b = Root-parent (rep.rooted b in_b) in
      let link_a = subst (λ z. parent uf.parents z ≡ z) top_a is_a in
      let link_b = subst (λ z. parent uf.parents z ≡ z) top_b is_b in
      record {
        rank = raised rep.rank a b;
        parents_length = length-set uf.parents b a ∙ rep.parents_length;
        sizes_length = length-set _ b 0 ∙ length-set uf.sizes a _ ∙ rep.sizes_length;
        bounded = rep.bounded;
        forest = linked-IsForest uf.parents a b at_a at_b link_a link_b apart rep.rank rep.forest;
        rooted = λ x h. linked-Root uf.parents a b at_a at_b link_a link_b apart (rep.rooted x h);
        high = new_sizes-high larger;
        counted = new_sizes-counted;
        sets = omega (arith, rep.sets, count-roots);
      }
