-- ===== src/Session/Names/Allocated.antt =====
-- `allocate_session_name`: that its loop ends, and which name it gives.
use Prim.Native.String
use uxon.Prelude.{
  ℕ, zero, suc, ◌≤◌, ◌<◌, ◌≡◌, refl, sym, ap, ◌∙◌, ◌⊎◌, inl, inr, String, true, false, not, Option,
  none, some, List, [], ◌∷◌, ◌=s◌, ◌+s◌, leb, Bool-cases, Option-cases, if◌then◌else◌, length,
  some_eq, arith, Result, ok, err, fail,
}
use text.Mathlib.TextEquality.{eq_iff}
use text.Mathlib.TextLemmas.{append_cancel_left, append-nil, length-append}
use uxon.Launch.Collect.Batch.{differs}
use uxon.Session.Info.{SessionInfo}
use uxon.Session.Names.{
  Python, candidate_session_name, session_path_compatible, conflict, first_named, check_named,
  try_candidate, allocate_from, unless_refused, allocate_session_name,
}

-- the sessions that have another name
abbrev without : String → List SessionInfo → List SessionInfo
without name [] = []
without name (s ∷ sessions) =
    let others = without name sessions in if s.name =s name then others else s ∷ others

without-length-le :
    (name : String) (sessions : List SessionInfo) → length (without name sessions) ≤ length sessions
without-length-le name [] = omega arith
without-length-le name (s ∷ sessions) =
    let shorter = without-length-le name sessions in
    elim (Bool-cases (s.name =s name)) [
      | inl is ↦ rw (without, is) (omega (arith, shorter))
      | inr is_not ↦ rw (without, is_not) (omega (arith, shorter))
    ]

without-length-lt :
    (name : String) (sessions : List SessionInfo) (s : SessionInfo)
    → first_named name sessions ≡ some s
    → length (without name sessions) < length sessions
unfolding first_named
without-length-lt name [] s h = cc
without-length-lt name (t ∷ sessions) s h =
    let shorter = without-length-le name sessions in
    elim (Bool-cases (t.name =s name)) [
      | inl is ↦ rw (without, is) (omega (arith, shorter))
      | inr is_not ↦
          let later = without-length-lt name sessions s (rw is_not at h) in
          rw (without, is_not) (omega (arith, later))
    ]

-- a session with another name is still there
first_named-without :
    (a b : String) (sessions : List SessionInfo)
    → (a ≡ b → ⊥)
    → first_named a (without b sessions) ≡ first_named a sessions
unfolding first_named
first_named-without a b [] h = refl
first_named-without a b (s ∷ sessions) h =
    let same = first_named-without a b sessions h in
    elim (Bool-cases (s.name =s b)) [
      | inl is ↦
          let is_not : (s.name =s a) ≡ false =
            differs s.name a λ e. h (sym e ∙ (eq_iff s.name b).0 is) in
          rw (without, is, is_not) same
      | inr is_not ↦ elim (Bool-cases (s.name =s a)) [
        | inl here ↦ rw (without, is_not, here) refl
        | inr there ↦ rw (without, is_not, there) same
      ]
    ]

dash-filled : (t : String) → "-" +s t ≡ "" → ⊥
dash-filled t e =
    let counted : String.count ("-" +s t) ≡ String.count "" = ap String.count e in
    omega (arith, length-append "-" t, counted)

at_most_one : (i : ℕ) → leb i 1 ≡ true → i ≤ 1
at_most_one i h = ground arith

above_one : (i : ℕ) → 1 < i → leb i 1 ≡ false
above_one i h = ground arith

module _ (py : Python) (distinct : (m n : ℕ) → py.show m ≡ py.show n → m ≡ n)
    (stem profile root prefix : String) where
  abbrev base : String
  base = prefix +s stem +s "@" +s profile

  abbrev name_at : ℕ → String
  name_at i = candidate_session_name py stem i profile prefix

  -- names with different indexes differ
  names_differ : (i j : ℕ) → 1 ≤ i → i < j → name_at j ≡ name_at i → ⊥
  unfolding candidate_session_name
  names_differ i j positive later same =
      let j_large = above_one j (omega (arith, positive, later)) in
      let same' = rw j_large at same in
      elim (Bool-cases (leb i 1)) [
        | inl is ↦
            let same'' : base +s "-" +s py.show j ≡ base = rw is at same' in
            dash-filled (py.show j)
              (append_cancel_left base ("-" +s py.show j) "" (same'' ∙ sym (append-nil base)))
        | inr is_not ↦
            let same'' : base +s "-" +s py.show j ≡ base +s "-" +s py.show i = rw is_not at same' in
            let shown =
              append_cancel_left "-" (py.show j) (py.show i)
                (append_cancel_left base ("-" +s py.show j) ("-" +s py.show i) same'') in
            let equal = distinct j i shown in omega (arith, equal, later)
      ]

  -- The loop ends within the fuel, where the names from the index on that are taken are taken by the
  -- sessions of a list that is shorter than the fuel.
  loop_ends :
      (fuel index : ℕ) (sessions rest : List SessionInfo)
      → 1 ≤ index
      → ((j : ℕ) → index ≤ j → first_named (name_at j) sessions ≡ first_named (name_at j) rest)
      → length rest < fuel
      → (r : Result String) × (allocate_from py fuel stem profile root prefix sessions index
          ≡ some r)
  unfolding allocate_from try_candidate
  loop_ends zero index sessions rest positive same enough =
      let never : ⊥ = omega (arith, enough) in elim never [ ]
  loop_ends (suc fuel) index sessions rest positive same enough =
      elim (Option-cases (first_named (name_at index) sessions)) [
        | inl free ↦ rw free (ok (name_at index), refl)
        | inr (s, taken) ↦
            let fewer =
              without-length-lt (name_at index) rest s (sym (same index (omega arith)) ∙ taken) in
            let next =
              loop_ends fuel (suc index) sessions (without (name_at index) rest)
                (omega (arith, positive))
                (λ j later.
                  same j (omega (arith, later))
                  ∙ sym (
                      first_named-without (name_at j) (name_at index) rest
                        (names_differ index j positive (omega (arith, later)))))
                (omega (arith, fewer, enough)) in
            rw taken (elim (Bool-cases (not (session_path_compatible py s.active_path root))) [
              | inl bad ↦ rw bad (_, refl)
              | inr fine ↦ rw fine next
            ])
      ]

  unless_refused-ends :
      (checked : Result (Unit {0})) (rest : Option (Result String))
      → (r : Result String) × (rest ≡ some r)
      → (r : Result String) × (unless_refused checked rest ≡ some r)
  unless_refused-ends (err exit) rest looped = (err exit, refl)
  unless_refused-ends (ok done) rest looped = looped

  -- With more fuel than there are sessions the allocation ends, with a name or with a refusal, where
  -- different indexes are written differently.
  pub allocate_session_name-ends :
      (fuel : ℕ) (sessions : List SessionInfo)
      → length sessions < fuel
      → (r : Result String) × (allocate_session_name py fuel stem profile root prefix sessions
          ≡ some r)
  unfolding allocate_session_name
  allocate_session_name-ends fuel sessions enough =
      unless_refused-ends (check_named py (name_at 1) root (first_named (name_at 1) sessions))
        (allocate_from py fuel stem profile root prefix sessions 1)
        (loop_ends fuel 1 sessions sessions (omega arith) (λ j later. refl) enough)

module _ (py : Python) (stem profile root prefix : String) (sessions : List SessionInfo) where
  abbrev nth_name : ℕ → String
  nth_name i = candidate_session_name py stem i profile prefix

  -- a session of this index is there, and its path fits
  abbrev pub IsTaken : ℕ → Type 0
  IsTaken i =
      (s : SessionInfo) × (first_named (nth_name i) sessions ≡ some s)
      × (session_path_compatible py s.active_path root ≡ true)

  -- so it is for the indexes from 1 on, as many as the number says
  abbrev pub AreTaken : ℕ → Type 0
  AreTaken zero = Unit
  AreTaken (suc n) = IsTaken (suc n) × AreTaken n

  -- the name is free, or it is refused since the path of its session does not fit
  abbrev pub IsFirst : ℕ → Result String → Type 0
  IsFirst i r =
      ((first_named (nth_name i) sessions ≡ none) × (r ≡ ok (nth_name i)))
      ⊎ ((s : SessionInfo) × (first_named (nth_name i) sessions ≡ some s)
          × (session_path_compatible py s.active_path root ≡ false)
          × (r ≡ fail (conflict (nth_name i) s.active_path root)))

  abbrev pub IsChoice : Result String → Type 0
  IsChoice r = (n : ℕ) × AreTaken n × IsFirst (suc n) r

  loop_chooses :
      (fuel n : ℕ) (r : Result String)
      → AreTaken n
      → allocate_from py fuel stem profile root prefix sessions (suc n) ≡ some r
      → IsChoice r
  unfolding allocate_from try_candidate
  loop_chooses zero n r before h = cc
  loop_chooses (suc fuel) n r before h =
      elim (Option-cases (first_named (nth_name (suc n)) sessions)) [
        | inl free ↦ (n, before, inl (free, some_eq (sym (rw free at h))))
        | inr (s, taken) ↦
            let h' = rw taken at h in
            elim (Bool-cases (session_path_compatible py s.active_path root)) [
              | inl fits ↦ loop_chooses fuel (suc n) r ((s, taken, fits), before) (rw fits at h')
              | inr bad ↦ (n, before, inr (s, taken, bad, some_eq (sym (rw bad at h'))))
            ]
      ]

  -- What the allocation gives is about the first index whose name no session has or whose session
  -- is in another place: the name in the first case, the refusal in the second. The sessions of all
  -- indexes before it are in the same place.
  pub allocate_session_name-IsChoice :
      (fuel : ℕ) (r : Result String)
      → allocate_session_name py fuel stem profile root prefix sessions ≡ some r
      → IsChoice r
  unfolding allocate_session_name check_named
  allocate_session_name-IsChoice fuel r h =
      elim (Option-cases (first_named (nth_name 1) sessions)) [
        | inl free ↦ loop_chooses fuel 0 r tt (rw free at h)
        | inr (s, taken) ↦
            let h' = rw taken at h in
            elim (Bool-cases (session_path_compatible py s.active_path root)) [
              | inl fits ↦ loop_chooses fuel 0 r tt (rw fits at h')
              | inr bad ↦ (0, tt, inr (s, taken, bad, some_eq (sym (rw bad at h'))))
            ]
      ]
