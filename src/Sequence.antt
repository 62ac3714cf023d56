-- ===== src/Sequence.antt =====
-- What src/vector.h and src/deque.h promise, with no buffer in sight: a sequence of elements and the
-- list of those that elem_destroy was called on, latest first.
-- `granted` is the allocator's part of the outcome, `copied` the result of elem_copy, and `owned`
-- says that there is an elem_destroy. `d` stands for what no index in range reads.
pub mod Cleanup
use libcp.Prelude.{
  ℕ, ◌+◌, ◌-◌, Bool, true, false, Option, none, some, List, [], ◌∷◌, ◌++◌, leb, ltb, ◌==◌,
  if◌then◌else◌, get_or, set, take, drop, length,
}
use libcp.Memory.{Status, done, failed}

-- The status, the sequence and the destroyed elements.
abbrev pub Outcome : Type 0 → Type 0
Outcome A = Status × List A × List A

module _ {A : Type 0} where
  abbrev pub log : Bool → A → List A → List A
  log owned x ds = if owned then x ∷ ds else ds

  -- An insertion before index `i`.
  abbrev pub insert_at : ℕ → A → List A → List A
  insert_at i y xs = take i xs ++ (y ∷ drop i xs)

  abbrev pub remove_at : ℕ → List A → List A
  remove_at i xs = take i xs ++ drop (i + 1) xs

  abbrev pub insert : Bool → Option A → ℕ → List A → List A → Outcome A
  insert granted none i xs ds = (failed, xs, ds)
  insert granted (some y) i xs ds =
      if ltb (length xs) i
      then (failed, xs, ds)
      else if granted
      then (done, insert_at i y xs, ds)
      else (failed, xs, ds)

  abbrev pub push_back : Bool → Option A → List A → List A → Outcome A
  push_back granted none xs ds = (failed, xs, ds)
  push_back granted (some y) xs ds = if granted then (done, xs ++ y ∷ [], ds) else (failed, xs, ds)

  abbrev pub push_front : Bool → Option A → List A → List A → Outcome A
  push_front granted none xs ds = (failed, xs, ds)
  push_front granted (some y) xs ds = if granted then (done, y ∷ xs, ds) else (failed, xs, ds)

  abbrev pub pop_back : A → Bool → List A → List A → Outcome A
  pop_back d owned xs ds =
      if length xs == 0
      then (failed, xs, ds)
      else (done, take (length xs - 1) xs, log owned (get_or xs (length xs - 1) d) ds)

  abbrev pub pop_front : Bool → List A → List A → Outcome A
  pop_front owned [] ds = (failed, [], ds)
  pop_front owned (x ∷ xs) ds = (done, xs, log owned x ds)

  -- The old element is destroyed when the new one is ready.
  abbrev pub assign : A → Bool → Bool → Option A → ℕ → List A → List A → Outcome A
  assign d owned granted none i xs ds = (failed, xs, ds)
  assign d owned granted (some y) i xs ds =
      if leb (length xs) i
      then (failed, xs, ds)
      else if granted
      then (done, set xs i y, log owned (get_or xs i d) ds)
      else (failed, xs, ds)

  abbrev pub erase : A → Bool → ℕ → List A → List A → List A × List A
  erase d owned i xs ds =
      if leb (length xs) i then (xs, ds) else (remove_at i xs, log owned (get_or xs i d) ds)

  abbrev pub at : A → List A → ℕ → Option A
  at d xs i = if leb (length xs) i then none else some (get_or xs i d)

  abbrev pub log_each : Bool → List A → List A → List A
  log_each owned [] ds = ds
  log_each owned (x ∷ xs) ds = log_each owned xs (log owned x ds)

  -- Appends a copy of each element. Where one cannot be copied, what is there is destroyed.
  unfoldable pub copy_each : Bool → (A → Option A) → List A → List A → List A → Outcome A
  copy_each owned copy [] acc ds = (done, acc, ds)
  copy_each owned copy (x ∷ xs) acc ds = elim (copy x) [
    | none ↦ (failed, [], log_each owned acc ds)
    | some y ↦ copy_each owned copy xs (acc ++ y ∷ []) ds
  ]

  -- `dst_owned` and `owned` are the owners of the old and of the new elements.
  unfoldable pub copy : Bool → Bool → Bool → (A → Option A) → List A → List A → List A → Outcome A
  unfolding copy_each
  copy granted dst_owned owned copy_fn src dst ds =
      if granted
      then copy_each owned copy_fn src [] (log_each dst_owned dst ds)
      else (failed, [], log_each dst_owned dst ds)
