-- ===== src/Slot/Median.antt =====
-- The median of the ring.
use uxon.Prelude.{
  ℕ, zero, suc, ◌+◌, ◌-◌, ◌/◌, ◌%◌, ◌≤◌, ◌<◌, ◌≡◌, refl, ◌==◌, some, List, [], ◌∷◌, length,
  get_elem?, All, arith, Bool-cases, inl, inr, false, leb,
}
use uxon.Slot.{insert_sorted, sorted, median, mean_of}

length-insert_sorted : (x : ℕ) (xs : List ℕ) → length (insert_sorted x xs) ≡ suc (length xs)
unfolding insert_sorted
length-insert_sorted x [] = refl
length-insert_sorted x (y ∷ ys) = ground (arith, length-insert_sorted x ys)

length-sorted : (xs : List ℕ) → length (sorted xs) ≡ length xs
unfolding sorted
length-sorted [] = refl
length-sorted (x ∷ xs) = omega (arith, length-insert_sorted x (sorted xs), length-sorted xs)

-- Every sample lies in the range.
abbrev pub Within : ℕ → ℕ → List ℕ → Type 0
Within lo hi = All (λ x. (lo ≤ x) × (x ≤ hi))

insert_sorted-Within :
    (lo hi x : ℕ) (xs : List ℕ)
    → (lo ≤ x) × (x ≤ hi)
    → Within lo hi xs
    → Within lo hi (insert_sorted x xs)
unfolding insert_sorted
insert_sorted-Within lo hi x [] b h = (b, tt)
insert_sorted-Within lo hi x (y ∷ ys) b h =
    let rest = insert_sorted-Within lo hi x ys b h.1 in
    elim (Bool-cases (leb x y)) [ inl le ↦ rw le (b, h) | inr gt ↦ rw gt (h.0, rest) ]

sorted-Within : (lo hi : ℕ) (xs : List ℕ) → Within lo hi xs → Within lo hi (sorted xs)
unfolding sorted
sorted-Within lo hi [] h = tt
sorted-Within lo hi (x ∷ xs) h =
    insert_sorted-Within lo hi x (sorted xs) h.0 (sorted-Within lo hi xs h.1)

get_elem?-Within :
    (lo hi i : ℕ) (xs : List ℕ)
    → Within lo hi xs
    → i < length xs
    → (m : ℕ) × (get_elem? xs i ≡ some m) × (lo ≤ m) × (m ≤ hi)
get_elem?-Within lo hi i [] h l = elim l [ ]
get_elem?-Within lo hi zero (x ∷ xs) h l = (x, refl, h.0.0, h.0.1)
get_elem?-Within lo hi (suc i) (x ∷ xs) h l = get_elem?-Within lo hi i xs h.1 (omega arith)

mean_of-Within :
    (lo hi : ℕ) (s : List ℕ)
    → Within lo hi s
    → 2 ≤ length s
    → (m : ℕ) × (mean_of (get_elem? s (length s / 2 - 1)) (get_elem? s (length s / 2)) ≡ some m)
      × (lo ≤ m)
      × (m ≤ hi)
mean_of-Within lo hi s within many =
    let (a, a_at, a_lo, a_hi) = get_elem?-Within lo hi (length s / 2 - 1) s within (omega arith) in
    let (b, b_at, b_lo, b_hi) = get_elem?-Within lo hi (length s / 2) s within (omega arith) in
    rw (a_at, b_at) ((a + b) / 2, refl, omega arith, omega arith)

even-many : (n : ℕ) → (n % 2 == 1) ≡ false → 1 ≤ n → 2 ≤ n
even-many n even many = ground arith

-- The median of samples, of which there is at least one, exists, and lies in every range that holds
-- all samples.
median-Within :
    (lo hi x : ℕ) (xs : List ℕ)
    → Within lo hi (x ∷ xs)
    → (m : ℕ) × (median (x ∷ xs) ≡ some m) × (lo ≤ m) × (m ≤ hi)
unfolding median
median-Within lo hi x xs h =
    let s = sorted (x ∷ xs) in
    let within = sorted-Within lo hi (x ∷ xs) h in
    let size = length-sorted (x ∷ xs) in
    elim (Bool-cases (length s % 2 == 1)) [
      | inl odd ↦ rw odd (get_elem?-Within lo hi (length s / 2) s within (omega (arith, size)))
      | inr even ↦
          rw even (mean_of-Within lo hi s within (even-many (length s) even (omega (arith, size))))
    ]
