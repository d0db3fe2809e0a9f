-- ===== src/Prelude/Results.antt =====
-- Code that may end the process (errors.py): `fail(msg, code)` raises `SystemExit(code)` with a
-- message, and printing the usage text raises `SystemExit(0)`.
use Prim.Native.Nat.{ℕ}
use Prim.Native.String.{String}
use mathlib.Core.Path.{◌≡◌, refl}
use mathlib.Core.Bool.{Bool, true, false}

-- why the process ended
pub data Exit : Type 0 where
  usage : Exit
  failed : ℕ → String → Exit

-- what a parser gives, or the end of the process
pub data Result (T : Type 0) : Type 0 where
  err : Exit → Result T
  ok : T → Result T

module _ {T : Type 0} where
  -- fail(msg, code)
  abbrev pub fail_with : ℕ → String → Result T
  fail_with code msg = err (failed code msg)

  -- fail(msg), whose code is 2
  abbrev pub fail : String → Result T
  fail = fail_with 2

  pub ok-injective : {x y : T} → ok x ≡ ok y → x ≡ y
  ok-injective same = cc

-- `if bad: fail(msg)`
abbrev pub refuse_if : Bool → String → Result (Unit {0})
refuse_if false msg = ok tt
refuse_if true msg = fail msg

infixl 10 ◌>>=◌ ◌>>◌
abbrev pub ◌>>=◌ : {S T : Type 0} → Result S → (S → Result T) → Result T
err exit >>= next = err exit
ok s >>= next = next s

abbrev pub ◌>>◌ : {T : Type 0} → Result (Unit {0}) → Result T → Result T
step >> rest = step >>= λ done. rest

module _ {S T : Type 0} (next : S → Result T) where
  -- A sequence of two steps gave a result, so both steps did.
  pub >>=-ok :
      {t : T} (first : Result S)
      → (first >>= next) ≡ ok t
      → (s : S) × (first ≡ ok s) × (next s ≡ ok t)
  >>=-ok (err exit) done = cc
  >>=-ok (ok s) done = (s, refl, done)
