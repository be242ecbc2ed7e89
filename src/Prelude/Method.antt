-- ===== src/Prelude/Method.antt =====
-- Methods that change a state and may throw. What was written before a throw stays written.
use kuybi.Prelude.{◌≡◌, ◌⊎◌, inl, inr}
use mathlib.Core.Bool.{Bool, true, false}
use mathlib.Core.Option.{Option, none, some}
use kuybi.Prelude.Tests.{if◌then◌else◌}

pub data Result (E A : Type 0) : Type 0 where
  ok : A → Result E A
  err : E → Result E A

abbrev pub is_ok : {E A : Type 0} → Result E A → Bool
is_ok (ok a) = true
is_ok (err e) = false

abbrev pub Method : Type 0 → Type 0 → Type 0 → Type 0
Method S E A = S → Result E A × S

module _ {S E A : Type 0} where
  pub pure : A → Method S E A
  pure a s = (ok a, s)

  pub throw : E → Method S E A
  throw e s = (err e, s)

  pub reads : (S → A) → Method S E A
  reads f s = (ok (f s), s)

  -- one statement: the new state, and what the statement returns
  pub runs : (S → S × A) → Method S E A
  runs f s = let (s', a) = f s in (ok a, s')

  -- a branch on a value that may be missing
  pub given : {B : Type 0} → Option B → Method S E A → (B → Method S E A) → Method S E A
  given none m f = m
  given (some b) m f = f b

module _ {S E A B : Type 0} where
  abbrev after : Result E A × S → (A → Method S E B) → Result E B × S
  after (ok a, s) f = f a s
  after (err e, s) f = (err e, s)

  infixl 5 ◌>>=◌ ◌>>◌
  -- To open this is to open the methods above.
  unfoldable pub ◌>>=◌ : Method S E A → (A → Method S E B) → Method S E B
  unfolding pure throw reads runs given
  ◌>>=◌ m f s = after (m s) f

  abbrev pub ◌>>◌ : Method S E A → Method S E B → Method S E B
  m >> k = m >>= λ _. k

-- `m` keeps `P`, whether it returns or throws.
pub record Keeps {S E A : Type 0} (P : S → Type 0) (m : Method S E A) : Type 0 where
  pub at : (s : S) → P s → P (m s).1

module _ {S E A B : Type 0} {P : S → Type 0} where
  after-Keeps :
      (r : Result E A × S) (f : A → Method S E B)
      → P r.1
      → ((a : A) → Keeps P (f a))
      → P (after r f).1
  after-Keeps (ok a, s) f h k = (k a).at s h
  after-Keeps (err e, s) f h k = h

  pub Keeps-bind :
      {m : Method S E A} {f : A → Method S E B}
      → Keeps P m
      → ((a : A) → Keeps P (f a))
      → Keeps P (m >>= f)
  unfolding ◌>>=◌
  Keeps-bind {m} {f} h k = record { at = λ s p. after-Keeps (m s) f (h.at s p) k }

module _ {S E A : Type 0} {P : S → Type 0} where
  pub Keeps-pure : (a : A) → Keeps {E = E} P (pure a)
  unfolding pure
  Keeps-pure a = record { at = λ s h. h }

  pub Keeps-throw : (e : E) → Keeps {A = A} P (throw e)
  unfolding throw
  Keeps-throw e = record { at = λ s h. h }

  pub Keeps-reads : (f : S → A) → Keeps {E = E} P (reads f)
  unfolding reads
  Keeps-reads f = record { at = λ s h. h }

  pub Keeps-runs : (f : S → S × A) → ((s : S) → P s → P (f s).0) → Keeps {E = E} P (runs f)
  unfolding runs
  Keeps-runs f h = record { at = h }

  pub Keeps-if :
      (b : Bool) {m n : Method S E A} → Keeps P m → Keeps P n → Keeps P (if b then m else n)
  Keeps-if true h k = h
  Keeps-if false h k = k

  pub Keeps-given :
      {B : Type 0} (o : Option B) {m : Method S E A} {f : B → Method S E A}
      → Keeps P m
      → ((b : B) → Keeps P (f b))
      → Keeps P (given o m f)
  unfolding given
  Keeps-given none h k = h
  Keeps-given (some b) h k = k b

pub ruleset keeps_rules = (Keeps-bind, Keeps-pure, Keeps-throw, Keeps-reads, Keeps-if, Keeps-given)

-- A method returns or throws.
pub ran-cases :
    {S E A : Type 0} (r : Result E A × S)
    → ((a : A) × (r ≡ (ok a, r.1))) ⊎ ((e : E) × (r ≡ (err e, r.1)))
ran-cases (ok a, s) = inl (a, λ i. (ok a, s))
ran-cases (err e, s) = inr (e, λ i. (err e, s))
