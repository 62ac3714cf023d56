-- ===== src/Sequence/Cleanup.antt =====
-- The loops that destroy the elements of a container, in the terms of the sequence.
use libcp.Prelude.{
  Bool, true, false, Option, ◌≡◌, refl, List, [], ◌∷◌, ◌++◌, arith, inl, inr, Option-cases,
}
use libcp.Memory.{World, failed, destroy_element, destroy_each}
use libcp.Sequence

module _ {A : Type 0} where
  pub destroyed-destroy_each :
      (owned : Bool) (xs : List A) (w : World A)
      → (destroy_each owned xs w).destroyed ≡ Sequence.log_each owned xs w.destroyed
  unfolding destroy_each destroy_element
  destroyed-destroy_each owned [] w = refl
  destroyed-destroy_each true (x ∷ xs) w = destroyed-destroy_each true xs _
  destroyed-destroy_each false (x ∷ xs) w = destroyed-destroy_each false xs _

  pub calls-destroy_each :
      (owned : Bool) (xs : List A) (w : World A) → (destroy_each owned xs w).calls ≡ w.calls
  unfolding destroy_each destroy_element
  calls-destroy_each owned [] w = refl
  calls-destroy_each true (x ∷ xs) w = calls-destroy_each true xs _
  calls-destroy_each false (x ∷ xs) w = calls-destroy_each false xs _

  pub log_each_unowned : (xs ds : List A) → Sequence.log_each false xs ds ≡ ds
  log_each_unowned [] ds = refl
  log_each_unowned (x ∷ xs) ds = log_each_unowned xs ds

  copy_each-failed :
      (owned : Bool) (copy : A → Option A) (xs acc ds : List A)
      → (Sequence.copy_each owned copy xs acc ds).0 ≡ failed
      → (Sequence.copy_each owned copy xs acc ds).1 ≡ []
  unfolding Sequence.copy_each
  copy_each-failed owned copy [] acc ds h = cc
  copy_each-failed owned copy (x ∷ xs) acc ds h = elim (Option-cases (copy x)) [
    | inl p ↦ ground arith
    | inr (y, p) ↦ ground (arith, copy_each-failed owned copy xs (acc ++ y ∷ []) ds)
  ]

  -- A copy that fails leaves nothing behind.
  pub copy-failed :
      (granted owned : Bool) (copy : A → Option A) (src ds : List A)
      → (Sequence.copy granted owned owned copy src [] ds).0 ≡ failed
      → (Sequence.copy granted owned owned copy src [] ds).1 ≡ []
  unfolding Sequence.copy
  copy-failed true owned copy src ds h = copy_each-failed owned copy src [] ds h
  copy-failed false owned copy src ds h = refl
