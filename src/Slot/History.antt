-- ===== src/Slot/History.antt =====
-- What a slot is after any sequence of results.
use uxon.Prelude.{
  ℕ, zero, suc, ◌+◌, ◌-◌, ◌≤◌, ◌<◌, ◌≡◌, refl, Bool, true, false, Option, none, some, List, [], ◌∷◌,
  ◌++◌, length, drop, arith, dec_lt, Option-cases, true, ap, sym, ◌∙◌, inl, inr, ltb, ◌==◌,
  length-append, length-drop,
}
use mathlib.Core.Option
use uxon.Slot.{SlotState, SlotResult, empty, push_ring, last_n, apply, median}

-- the slot after a history, the newest result first
unfoldable pub after :
    {T Time : Type 0} (same equal : T → T → Bool) → ℕ → List (SlotResult T Time) → SlotState T Time
unfolding apply
after {T} {Time} same equal n [] = empty T Time
after same equal n (r ∷ rs) = apply same equal n (after same equal n rs) r

-- the costs of a history, the oldest first
unfoldable pub costs : {T Time : Type 0} → List (SlotResult T Time) → List ℕ
costs [] = []
costs (r ∷ rs) = costs rs ++ r.elapsed_ms ∷ []

-- the time of the newest success
unfoldable pub newest_success :
    {T Time : Type 0} → List (SlotResult T Time) → Option (SlotResult T Time)
newest_success [] = none
newest_success (r ∷ rs) =
    let rest = newest_success rs in elim r.error [ none ↦ some r | some e ↦ rest ]

-- the number of failures since the newest success
unfoldable pub trailing_failures : {T Time : Type 0} → List (SlotResult T Time) → ℕ
trailing_failures [] = 0
trailing_failures (r ∷ rs) =
    let rest = trailing_failures rs in elim r.error [ none ↦ 0 | some e ↦ rest + 1 ]

length-costs : {T Time : Type 0} (rs : List (SlotResult T Time)) → length (costs rs) ≡ length rs
unfolding costs
length-costs [] = refl
length-costs (r ∷ rs) = omega (arith, length-append (costs rs) (r.elapsed_ms ∷ []), length-costs rs)

not_suc : {k : ℕ} → suc k ≤ 0 → ⊥
not_suc l = omega arith

drop-append :
    {A : Type 0} (k : ℕ) (xs ys : List A) → k ≤ length xs → drop k (xs ++ ys) ≡ drop k xs ++ ys
drop-append zero xs ys l = refl
drop-append (suc k) [] ys l = elim (not_suc l) [ ]
drop-append (suc k) (x ∷ xs) ys l = drop-append k xs ys (omega arith)

drop-nil : {A : Type 0} (k : ℕ) → drop {A = A} k [] ≡ []
drop-nil zero = refl
drop-nil (suc k) = refl

drop-drop : {A : Type 0} (j k : ℕ) (xs : List A) → drop k (drop j xs) ≡ drop (j + k) xs
drop-drop zero k xs = ap (λ i. drop i xs) (omega arith)
drop-drop (suc j) k [] = drop-nil k ∙ sym (drop-nil (suc j + k))
drop-drop (suc j) k (x ∷ xs) = drop-drop j k xs ∙ ap (λ i. drop i (x ∷ xs)) next
  where
    next : suc (j + k) ≡ suc j + k
    next = omega arith

-- What `push_ring` does, by how many entries there are.
push_ring-room : (n x : ℕ) (ring : List ℕ) → length ring < n → push_ring n ring x ≡ ring ++ x ∷ []
unfolding push_ring
push_ring-room n x ring room = ground (arith, length-append ring (x ∷ []))

push_ring-full :
    (n x : ℕ) (ring : List ℕ)
    → length ring ≡ suc n
    → push_ring (suc n) ring x ≡ drop 1 (ring ++ x ∷ [])
unfolding push_ring last_n
push_ring-full n x ring full =
    let size : length (ring ++ x ∷ []) ≡ n + 2 = omega (arith, length-append ring (x ∷ [])) in
    let over : ltb (suc n) (n + 2) ≡ true = ground arith in
    let one : n + 2 - suc n ≡ 1 = omega arith in
    let some_left : (suc n == 0) ≡ false = ground arith in rw (size, over, one, some_left) refl

push_ring-last :
    (n x : ℕ) (xs : List ℕ)
    → push_ring (suc n) (drop (length xs - suc n) xs) x
      ≡ drop (length xs + 1 - suc n) (xs ++ x ∷ [])
push_ring-last n x xs =
    let kept = length-drop (length xs - suc n) xs in
    elim (dec_lt n (length xs)) [
      | yes full ↦
          let one : length xs + 1 - suc n ≡ length xs - suc n + 1 = omega arith in
          rw one (
            push_ring-full n x (drop (length xs - suc n) xs) (omega (arith, kept))
            ∙ ap (drop 1) (sym (drop-append (length xs - suc n) xs (x ∷ []) (omega arith)))
            ∙ drop-drop (length xs - suc n) 1 (xs ++ x ∷ []))
      | no free ↦
          let none_gone : length xs - suc n ≡ 0 = omega arith in
          let none_goes : length xs + 1 - suc n ≡ 0 = omega arith in
          rw (none_gone, none_goes) (push_ring-room (suc n) x xs (omega arith))
    ]

module _ {T Time : Type 0} (same equal : T → T → Bool) where
  apply-ring :
      (n : ℕ) (s : SlotState T Time) (r : SlotResult T Time)
      → let s' = apply same equal n s r in
        (s'.elapsed_ms_recent ≡ push_ring n s.elapsed_ms_recent r.elapsed_ms)
        × (s'.p50_elapsed_ms ≡ median s'.elapsed_ms_recent)
  unfolding apply
  apply-ring n s r = elim (Option-cases r.error) [
    | inl is ↦ rw is (refl, refl)
    | inr (e, is) ↦ rw is (refl, refl)
  ]

  -- After any history of results, the newest first, a slot with a ring of `suc n` entries that
  -- started empty holds the costs of the newest `suc n` results, the oldest of them first, and the
  -- median of these.
  pub ring_history :
      (n : ℕ) (rs : List (SlotResult T Time))
      → let s = after same equal (suc n) rs in
        (s.elapsed_ms_recent ≡ drop (length rs - suc n) (costs rs))
        × (s.p50_elapsed_ms ≡ median s.elapsed_ms_recent)
  unfolding after costs median
  ring_history n [] = (sym (drop-nil (0 - suc n)), refl)
  ring_history n (r ∷ rs) =
      let s = after same equal (suc n) rs in
      let (before, _) = ring_history n rs in
      let (now, mid) = apply-ring (suc n) s r in
      let pushed = push_ring-last n r.elapsed_ms (costs rs) in
      let one : length rs + 1 ≡ suc (length rs) = omega arith in
      (now ∙ rw before (simp (length-costs rs, one) at pushed), mid)

  -- After any history of results, the newest first, the slot of a ring of any size counts the
  -- failures since the newest success, and holds its time and its provenance.
  pub success_history :
      (n : ℕ) (rs : List (SlotResult T Time))
      → let s = after same equal n rs in
        (s.consecutive_failures ≡ trailing_failures rs)
        × (s.last_success_at ≡ Option.map (λ r. r.attempted_at) (newest_success rs))
        × (s.from_cache ≡ elim (newest_success rs) [ none ↦ false | some r ↦ r.from_cache ])
  unfolding after apply trailing_failures newest_success
  success_history n [] = (refl, refl, refl)
  success_history n (r ∷ rs) =
      let (count, time, cached) = success_history n rs in
      elim (Option-cases r.error) [
        | inl is ↦ rw is (refl, refl, refl)
        | inr (e, is) ↦ rw is (ap (λ k. k + 1) count, time, cached)
      ]
