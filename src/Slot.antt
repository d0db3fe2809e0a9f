-- ===== src/Slot.antt =====
-- src/uxon/tui/slot_state.py: the latest state of one source, folded from the results of its fetches.
-- Wall-clock times are only stored, so `Time` is any type. `equal` is Python's `==` on values and
-- `same` its `is`.
pub mod Median
pub mod History
pub mod Value
use uxon.Prelude.{
  ℕ, zero, suc, ◌+◌, ◌-◌, ◌/◌, ◌%◌, String, Bool, true, false, not, Option, none, some, List, [],
  ◌∷◌, ◌++◌, ◌&&◌, ◌==◌, ltb, leb, length, get_elem?, drop, if◌then◌else◌,
}

-- _DEFAULT_RING_SIZE
abbrev pub default_ring_size : ℕ
default_ring_size = 16

pub record SlotState (T Time : Type 0) : Type 0 where
  pub value : Option T
  pub last_success_at : Option Time
  pub last_attempt_at : Option Time
  pub last_error : Option String
  pub from_cache : Bool
  pub in_flight : Bool
  pub consecutive_failures : ℕ
  pub elapsed_ms_recent : List ℕ
  pub p50_elapsed_ms : Option ℕ

pub record SlotResult (T Time : Type 0) : Type 0 where
  pub value : Option T
  pub error : Option String
  pub elapsed_ms : ℕ
  pub attempted_at : Time
  pub from_cache : Bool

-- `SlotState()`: every field has its default
abbrev pub empty : (T Time : Type 0) → SlotState T Time
empty T Time = record {
  value = none;
  last_success_at = none;
  last_attempt_at = none;
  last_error = none;
  from_cache = false;
  in_flight = false;
  consecutive_failures = 0;
  elapsed_ms_recent = [];
  p50_elapsed_ms = none;
}

unfoldable pub insert_sorted : ℕ → List ℕ → List ℕ
insert_sorted x [] = x ∷ []
insert_sorted x (y ∷ ys) = let rest = insert_sorted x ys in if leb x y then x ∷ y ∷ ys else y ∷ rest

-- sorted(samples)
unfoldable pub sorted : List ℕ → List ℕ
unfolding insert_sorted
sorted [] = []
sorted (x ∷ xs) = insert_sorted x (sorted xs)

-- the mean of the two middle samples, rounded down
abbrev pub mean_of : Option ℕ → Option ℕ → Option ℕ
mean_of none b = none
mean_of (some a) none = none
mean_of (some a) (some b) = some ((a + b) / 2)

-- `_median`; an index out of range would raise, here it gives `none`
unfoldable pub median : List ℕ → Option ℕ
unfolding sorted
median [] = none
median (x ∷ xs) =
    let s = sorted (x ∷ xs) in
    let n = length s in
    if n % 2 == 1
    then get_elem? s (n / 2)
    else mean_of (get_elem? s (n / 2 - 1)) (get_elem? s (n / 2))

-- xs[-n:], which is the whole list for n = 0
unfoldable pub last_n : ℕ → List ℕ → List ℕ
last_n n xs = if n == 0 then xs else drop (length xs - n) xs

-- the ring with one more entry
unfoldable pub push_ring : ℕ → List ℕ → ℕ → List ℕ
push_ring ring_size ring elapsed =
    let new_ring = ring ++ elapsed ∷ [] in
    if ltb ring_size (length new_ring) then last_n ring_size new_ring else new_ring

module _ {T : Type 0} (same equal : T → T → Bool) where
  -- the value that a success stores: the previous object where the new one only equals it
  unfoldable pub keep_identity : Option T → Option T → Option T
  keep_identity none new = new
  keep_identity (some old) none = none
  keep_identity (some old) (some new) =
      if not (same new old) && equal new old then some old else some new

module _ {T Time : Type 0} (same equal : T → T → Bool) where
  unfoldable pub apply : ℕ → SlotState T Time → SlotResult T Time → SlotState T Time
  unfolding keep_identity
  apply ring_size prev r =
      let new_ring = push_ring ring_size prev.elapsed_ms_recent r.elapsed_ms in
      let p50 = median new_ring in
      elim r.error [
        | none ↦ record {
          value = keep_identity same equal prev.value r.value;
          last_success_at = some r.attempted_at;
          last_attempt_at = some r.attempted_at;
          last_error = none;
          from_cache = r.from_cache;
          in_flight = prev.in_flight;
          consecutive_failures = 0;
          elapsed_ms_recent = new_ring;
          p50_elapsed_ms = p50;
        }
        | some error ↦ record {
          value = prev.value;
          last_success_at = prev.last_success_at;
          last_attempt_at = some r.attempted_at;
          last_error = some error;
          from_cache = prev.from_cache;
          in_flight = prev.in_flight;
          consecutive_failures = prev.consecutive_failures + 1;
          elapsed_ms_recent = new_ring;
          p50_elapsed_ms = p50;
        }
      ]
