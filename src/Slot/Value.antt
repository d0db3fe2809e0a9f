-- ===== src/Slot/Value.antt =====
-- Which object a slot holds while equal values come in.
use uxon.Prelude.{
  ℕ, ◌≡◌, refl, ap, inl, inr, String, Bool, true, none, some, List, [], ◌∷◌, ◌++◌, ◌⊎◌, Bool-cases,
  All,
}
use uxon.Slot.{SlotResult, keep_identity, apply}
use uxon.Slot.History.{after}

module _ {T : Type 0} (same equal : T → T → Bool) where
  keep_identity-equal :
      (old new : T)
      → ((a b : T) → same a b ≡ true → a ≡ b)
      → equal new old ≡ true
      → keep_identity same equal (some old) (some new) ≡ some old
  unfolding keep_identity
  keep_identity-equal old new is_same h = elim (Bool-cases (same new old)) [
    | inl is ↦ rw is (ap some (is_same new old is))
    | inr is_not ↦ rw (is_not, h) refl
  ]

module _ {T Time : Type 0} (same equal : T → T → Bool) where
  -- a failure, or a success with a value that equals this one
  abbrev pub Repeats : T → SlotResult T Time → Type 0
  Repeats old r =
      ((e : String) × (r.error ≡ some e))
      ⊎ ((r.error ≡ none) × ((new : T) × (r.value ≡ some new) × (equal new old ≡ true)))

  -- Let values that are the same object be equal. While a slot that holds an object takes in failures,
  -- and successes with values that equal this object, in any order and number, it holds this very
  -- object, and not a later one that equals it.
  pub value_history :
      (n : ℕ) (recent older : List (SlotResult T Time)) (old : T)
      → ((a b : T) → same a b ≡ true → a ≡ b)
      → (after same equal n older).value ≡ some old
      → All (Repeats old) recent
      → (after same equal n (recent ++ older)).value ≡ some old
  unfolding after apply
  value_history n [] older old is_same holds repeats = holds
  value_history n (r ∷ recent) older old is_same holds (first, rest) =
      let before = value_history n recent older old is_same holds rest in
      elim first [
        | inl (e, failed) ↦ rw failed before
        | inr (ok, (new, value, equals)) ↦
            rw (ok, value, before) (keep_identity-equal same equal old new is_same equals)
      ]
