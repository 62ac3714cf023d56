-- ===== src/Segtree/Build.antt =====
-- segtree_build of src/segtree.c.
use libcp.Prelude.{ℕ, zero, suc, ◌+◌, ◌≡◌, refl, ◌∙◌, List, length, length-set, set}
use libcp.Segtree.{Segtree, fill_from}

pub length-fill_from :
    {A : Type 0} (rounds i : ℕ) (v : A) (nodes : List A)
    → length (fill_from rounds i v nodes) ≡ length nodes
unfolding fill_from
length-fill_from zero i v nodes = refl
length-fill_from (suc rounds) i v nodes =
    length-fill_from rounds (i + 1) v (set nodes i v) ∙ length-set nodes i v
