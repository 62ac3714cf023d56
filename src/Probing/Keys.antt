-- ===== src/Probing/Keys.antt =====
-- hashmap_keys_equal of src/hashmap.c.
use libcp.Prelude.{◌≡◌, refl, ap, ◌∙◌, true, [], ◌∷◌, arith}
use libcp.Probing.{Key, keys_equal}

pub keys_equal_sound : (a b : Key) → keys_equal a b ≡ true → a ≡ b
unfolding keys_equal
keys_equal_sound [] [] h = refl
keys_equal_sound [] (y ∷ ys) h = cc
keys_equal_sound (x ∷ xs) [] h = cc
keys_equal_sound (x ∷ xs) (y ∷ ys) h =
    let first : x ≡ y = ground arith in
    let rest : keys_equal xs ys ≡ true = ground arith in
    ap (λ n. n ∷ xs) first ∙ ap (◌∷◌ y) (keys_equal_sound xs ys rest)

pub keys_equal_refl : (a : Key) → keys_equal a a ≡ true
unfolding keys_equal
keys_equal_refl [] = refl
keys_equal_refl (x ∷ xs) = let rest = keys_equal_refl xs in ground arith
