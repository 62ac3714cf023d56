-- ===== src/Hashset/Tests.antt =====
-- Runs of src/hashset.c's functions, and the property at a set of one key.
use libcp.Prelude.{refl, inl, false, none, [], ◌∷◌, arith}
use libcp.Samples.{generous, start}
use libcp.Probing.{Key, cstr}
use libcp.Hashmap.Valid.{IsValid}
use libcp.Hashset.{Hashset, add, delete}
use libcp.Hashset.Members.{Added, Removed, members_correct}

abbrev no_words : Hashset
no_words = record {
  map = record {
    capacity = 0;
    size = 0;
    tombstones = 0;
    key_size = 8;
    value_size = 1;
    key_kind = cstr;
    value_destroy = false;
    value_copy = none;
    states = [];
    keys = [];
    values = [];
  };
}

no_words-IsValid : IsValid no_words.map
no_words-IsValid = record {
  key_some = omega arith;
  key_bounded = omega arith;
  value_some = omega arith;
  value_bounded = omega arith;
  body = inl (refl, refl, refl, refl);
}

abbrev abc : Key
abc = 97 ∷ 98 ∷ 99 ∷ []

abbrev one_word : Hashset
one_word = (add generous no_words abc start).1

one_word-IsValid : IsValid one_word.map
one_word-IsValid = (members_correct generous no_words no_words-IsValid abc start).0.0

members_correct_example :
    Added generous one_word one_word-IsValid (98 ∷ []) (add generous one_word (98 ∷ []) start)
    × Removed generous one_word one_word-IsValid
        (98 ∷ [])
        (delete generous one_word (98 ∷ []) start)
members_correct_example = members_correct generous one_word one_word-IsValid (98 ∷ []) start
