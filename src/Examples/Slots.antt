-- ===== src/Examples/Slots.antt =====
-- A slot with a ring of two entries.
use uxon.Prelude.{
  ℕ, ◌%◌, true, inl, inr, ==_iff, ◌≡◌, refl, false, Bool, none, some, List, [], ◌∷◌, ◌==◌,
}
use uxon.Slot.{SlotResult, median, apply, keep_identity}
use uxon.Slot.Value.{value_history}
use uxon.Slot.History.{
  after, costs, trailing_failures, newest_success, ring_history, success_history,
}

abbrev landed : ℕ → ℕ → ℕ → SlotResult ℕ ℕ
landed value elapsed at = record {
  value = some value;
  error = none;
  elapsed_ms = elapsed;
  attempted_at = at;
  from_cache = false;
}

abbrev timed_out : ℕ → ℕ → SlotResult ℕ ℕ
timed_out elapsed at = record {
  value = none;
  error = some "timeout";
  elapsed_ms = elapsed;
  attempted_at = at;
  from_cache = false;
}

abbrev never : ℕ → ℕ → Bool
never a b = false

abbrev equal : ℕ → ℕ → Bool
equal a b = a == b

-- the newest first
abbrev history : List (SlotResult ℕ ℕ)
history = timed_out 500 40 ∷ timed_out 300 30 ∷ landed 7 20 20 ∷ landed 7 10 10 ∷ []

median_example : median (30 ∷ 10 ∷ 25 ∷ 14 ∷ []) ≡ some 19
unfolding median
median_example = refl

ring_history_example :
    ((after never equal 2 history).elapsed_ms_recent ≡ 300 ∷ 500 ∷ [])
    × ((after never equal 2 history).p50_elapsed_ms
        ≡ median (after never equal 2 history).elapsed_ms_recent)
unfolding costs
ring_history_example = ring_history never equal 1 history

success_history_example :
    ((after never equal 2 history).consecutive_failures ≡ 2)
    × ((after never equal 2 history).last_success_at ≡ some 20)
    × ((after never equal 2 history).from_cache ≡ false)
unfolding trailing_failures newest_success
success_history_example = success_history never equal 2 history

-- objects that are numbers, and are equal when their last digits are
abbrev is_it : ℕ → ℕ → Bool
is_it a b = a == b

abbrev last_digits : ℕ → ℕ → Bool
last_digits a b = a % 10 == b % 10

is_it_law : (a b : ℕ) → is_it a b ≡ true → a ≡ b
is_it_law a b h = (==_iff a b).0 h

holds_7 : (after is_it last_digits 2 (landed 7 10 10 ∷ [])).value ≡ some 7
unfolding after apply keep_identity
holds_7 = refl

value_history_example :
    (after is_it last_digits 2 (timed_out 300 30 ∷ landed 17 20 20 ∷ landed 7 10 10 ∷ [])).value
    ≡ some 7
value_history_example =
    value_history is_it last_digits 2 (timed_out 300 30 ∷ landed 17 20 20 ∷ [])
      (landed 7 10 10 ∷ []) 7 is_it_law holds_7
      (inl ("timeout", refl), (inr (refl, (17, refl, refl)), tt))
