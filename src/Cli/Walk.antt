-- ===== src/Cli/Walk.antt =====
-- The loop `while i < len(argv)` that the parsers of src/uxon/cli/parsing.py share: an option that
-- takes a value consumes the next token too, and every parser fails where that token is missing.
use uxon.Prelude.{
  String, ◌≡◌, subst, Bool, true, false, List, [], ◌∷◌, Result, ok, ok-injective, ◌>>=◌, >>=-ok,
  Bool-cases, inl, inr,
}

pub record Grammar (S : Type 0) : Type 0 where
  -- does the option consume the next token
  pub takes_value : String → Bool
  -- an option with its value
  pub valued : S → String → String → Result S
  -- an option that needs a value, as the last token
  pub missing : S → String → Result S
  -- any other token
  pub plain : S → String → Result S

module _ {S : Type 0} (g : Grammar S) where
  unfoldable pub walk : S → List String → Result S
  walk s [] = ok s
  walk s (token ∷ []) = elim (g.takes_value token) [
    | true ↦ g.missing s token
    | false ↦ g.plain s token
  ]
  walk s (token ∷ v ∷ rest) = elim (g.takes_value token) [
    | true ↦ g.valued s token v >>= λ s'. walk s' rest
    | false ↦ g.plain s token >>= λ s'. walk s' (v ∷ rest)
  ]

  -- One step over an option and its value.
  pub walk-valued :
      (s : S) (token v : String) (rest : List String) (s' : S)
      → g.takes_value token ≡ true
      → g.valued s token v ≡ ok s'
      → walk s (token ∷ v ∷ rest) ≡ walk s' rest
  unfolding walk
  walk-valued s token v rest s' t e = rw (t, walk) (rw e)

  -- One step over a token that consumes no other.
  pub walk-plain :
      (s : S) (token : String) (rest : List String) (s' : S)
      → g.takes_value token ≡ false
      → g.plain s token ≡ ok s'
      → walk s (token ∷ rest) ≡ walk s' rest
  unfolding walk
  walk-plain s token [] s' t e = rw (t, walk) (rw e)
  walk-plain s token (v ∷ rest) s' t e = rw (t, walk) (rw e)

  -- What every step keeps, a walk that succeeds keeps.
  pub walk_inv {κ} :
      (P : S → Type κ)
      → ((s : S) (t v : String) (s' : S)
          → P s
          → g.takes_value t ≡ true
          → g.valued s t v ≡ ok s'
          → P s')
      → ((s : S) (t : String) (s' : S) → P s → g.missing s t ≡ ok s' → P s')
      → ((s : S) (t : String) (s' : S) → P s → g.plain s t ≡ ok s' → P s')
      → (s : S) (argv : List String) (s' : S) → P s
      → walk s argv ≡ ok s'
      → P s'
  unfolding walk
  walk_inv P kv km kp s [] s' h e = subst P (ok-injective e) h
  walk_inv P kv km kp s (token ∷ []) s' h e = elim (Bool-cases (g.takes_value token)) [
    | inl t ↦ km s token s' h (rw (t, walk) at e)
    | inr t ↦ kp s token s' h (rw (t, walk) at e)
  ]
  walk_inv P kv km kp s (token ∷ v ∷ rest) s' h e = elim (Bool-cases (g.takes_value token)) [
    | inl t ↦
        let (s1, e1, e2) = >>=-ok (λ r. walk r rest) (g.valued s token v) (rw (t, walk) at e) in
        walk_inv P kv km kp s1 rest s' (kv s token v s1 h t e1) e2
    | inr t ↦
        let (s1, e1, e2) = >>=-ok (λ r. walk r (v ∷ rest)) (g.plain s token) (rw (t, walk) at e) in
        walk_inv P kv km kp s1 (v ∷ rest) s' (kp s token s1 h e1) e2
  ]
