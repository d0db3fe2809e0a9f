-- ===== src/Kill/World/Grows.antt =====
-- Operations whose calls all satisfy a predicate: every combinator of `World` keeps it.
use uxon.Prelude.{
  ◌≡◌, refl, ap, ◌∙◌, sym, subst, String, Bool, true, false, List, [], ◌∷◌, ◌++◌, All, All-append,
  All-map, ℕ, if◌then◌else◌,
}
use mathlib.Core.List.{append_assoc}
use uxon.Kill.World.{
  Call, Failure, Outcome, gives, fails, State, Outside, Op, advance, give, fail_op, lift, bind_to,
  ◌>>=◌, ◌>>◌, refuse_op, rescue_from, rescue, ask, tell,
}

module _ (P : Call → Type 0) where
  -- the calls between two states
  unfoldable pub Traced : State → State → Type 0
  Traced s s' = (new : List Call) × (s'.calls ≡ new ++ s.calls) × All P new

  unfoldable pub Emits : {A : Type 0} → Op A → Type 0
  Emits op = (s : State) → Traced s (op s).1

  pub Traced-refl : (s : State) → Traced s s
  unfolding Traced
  Traced-refl s = ([], refl, tt)

  pub Traced-trans : (s t u : State) → Traced s t → Traced t u → Traced s u
  unfolding Traced
  Traced-trans s t u (new, grown, good) (new', grown', good') = (
    new' ++ new,
    grown' ∙ ap (λ c. new' ++ c) grown ∙ sym (append_assoc new' new s.calls),
    All-append P new' new good' good,
  )

  pub Traced-advance : (out : Outside) (c : Call) (s : State) → P c → Traced s (advance out c s)
  unfolding Traced
  Traced-advance out c s good = (c ∷ [], refl, (good, tt))

  pub Emits-give : {A : Type 0} (a : A) → Emits (give a)
  unfolding Emits give
  Emits-give a s = Traced-refl s

  pub Emits-lift : {A : Type 0} (o : Outcome A) → Emits (lift o)
  unfolding Emits lift
  Emits-lift o s = Traced-refl s

  pub Emits-fail : (A : Type 0) (code : ℕ) (msg : String) → Emits (fail_op {A = A} code msg)
  unfolding Emits fail_op
  Emits-fail A code msg s = Traced-refl s

  pub Emits-at :
      {A : Type 0} (op : Op A) (o : Outcome A) (s t : State) → Emits op → op s ≡ (o, t) → Traced s t
  unfolding Emits
  Emits-at op o s t all_good e = subst (λ r. Traced s r.1) e (all_good s)

  bind_to-Traced :
      {A B : Type 0} (s : State) (r : Outcome A × State) (f : A → Op B)
      → Traced s r.1
      → ((a : A) → Emits (f a))
      → Traced s (bind_to r f).1
  unfolding Emits
  bind_to-Traced s (gives a, t) f first rest = Traced-trans s t (f a t).1 first (rest a t)
  bind_to-Traced s (fails e, t) f first rest = first

  pub Emits-bind :
      {A B : Type 0} (m : Op A) (f : A → Op B) → Emits m → ((a : A) → Emits (f a)) → Emits (m >>= f)
  unfolding Emits ◌>>=◌
  Emits-bind m f first rest s = bind_to-Traced s (m s) f (first s) rest

  pub Emits-then : {B : Type 0} (m : Op (Unit {0})) (n : Op B) → Emits m → Emits n → Emits (m >> n)
  unfolding ◌>>◌
  Emits-then m n first rest = Emits-bind m (λ done. n) first λ done. rest

  rescue_from-Traced :
      {A : Type 0} (s : State) (r : Outcome A × State) (handler : Failure → Op A)
      → Traced s r.1
      → ((e : Failure) → Emits (handler e))
      → Traced s (rescue_from r handler).1
  unfolding Emits
  rescue_from-Traced s (gives a, t) handler first rest = first
  rescue_from-Traced s (fails e, t) handler first rest =
      Traced-trans s t (handler e t).1 first (rest e t)

  pub Emits-rescue :
      {A : Type 0} (m : Op A) (handler : Failure → Op A)
      → Emits m
      → ((e : Failure) → Emits (handler e))
      → Emits (rescue m handler)
  unfolding Emits rescue
  Emits-rescue m handler first rest s = rescue_from-Traced s (m s) handler (first s) rest

  pub Emits-if :
      {A : Type 0} (b : Bool) (m n : Op A) → Emits m → Emits n → Emits (if b then m else n)
  Emits-if true m n first second = first
  Emits-if false m n first second = second

  pub Emits-refuse : (bad : Bool) (code : ℕ) (msg : String) → Emits (refuse_op bad code msg)
  unfolding refuse_op
  Emits-refuse true code msg = Emits-fail _ code msg
  Emits-refuse false code msg = Emits-give tt

  pub Emits-ask : (out : Outside) (c : Call) → P c → Emits (ask out c)
  unfolding Emits ask
  Emits-ask out c good s = Traced-advance out c s good

  pub Emits-tell : (out : Outside) (c : Call) → P c → Emits (tell out c)
  unfolding Emits tell
  Emits-tell out c good s = Traced-advance out c s good

module _ (P Q : Call → Type 0) (weaker : (c : Call) → P c → Q c) where
  pub Traced-map : (s t : State) → Traced P s t → Traced Q s t
  unfolding Traced
  Traced-map s t (new, grown, good) = (new, grown, All-map P Q weaker new good)

pub ruleset emits = (
  Emits-give, Emits-lift, Emits-fail, Emits-refuse, Emits-bind, Emits-then, Emits-if, Emits-rescue,
  Emits-ask, Emits-tell,
)
