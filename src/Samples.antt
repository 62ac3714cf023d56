-- ===== src/Samples.antt =====
-- Inputs that the tests of the containers share.
use libcp.Prelude.{ℕ, ◌+◌, ◌≤◌, ◌≡◌, false, Option, none, some, [], arith, ltb, ◌==◌, if◌then◌else◌}
use libcp.Memory.{Env, World, max_object}

pub small_only : (n bytes : ℕ) → max_object ≤ bytes → ltb bytes max_object ≡ false
small_only n bytes h = ground arith

-- An allocator that grants whatever is below the largest object.
abbrev pub generous : Env ℕ
generous = record { grants = λ n bytes. ltb bytes max_object; refuses_huge = small_only; junk = 0 }

-- One that refuses the first request.
pub none_granted :
    (n bytes : ℕ) → max_object ≤ bytes → (if n == 0 then false else ltb bytes max_object) ≡ false
none_granted n bytes h = ground arith

abbrev pub refusing : Env ℕ
refusing = record {
  grants = λ n bytes. if n == 0 then false else ltb bytes max_object;
  refuses_huge = none_granted;
  junk = 0;
}

abbrev pub start : World ℕ
start = record { calls = 0; destroyed = [] }

-- A copy that cannot copy 13.
abbrev pub copy_number : Option (ℕ → Option ℕ)
copy_number = some (λ x. if x == 13 then none else some (x + 100))
