-- ===== src/Base/Outcome.antt =====
-- What a call returns or throws, and a call that reads and writes the rows of one business.
use mathlib.Core.Bool.{Bool, true, false}
use mathlib.Core.Option.{Option, none, some}

pub data Result {ℓ κ} (E : Type ℓ) (A : Type κ) : Type (ℓ ⊔ κ) where
  ok : A → Result E A
  err : E → Result E A

-- What was written before a throw stays written, unless a transaction is around it.
abbrev pub Call : Type 0 → Type 0 → Type 0 → Type 0
Call S E A = S → Result E A × S

module _ {S E : Type 0} where
  -- What follows a call, given what the call returned and left.
  abbrev pub resume : {A B : Type 0} → (A → Call S E B) → Result E A × S → Result E B × S
  resume f (ok a, s) = f a s
  resume f (err e, s) = (err e, s)

  infixl 5 ◌>>=◌ ◌>>◌
  abbrev pub ◌>>=◌ : {A B : Type 0} → Call S E A → (A → Call S E B) → Call S E B
  ◌>>=◌ m f s = resume f (m s)

  abbrev pub ◌>>◌ : {A B : Type 0} → Call S E A → Call S E B → Call S E B
  m >> k = m >>= λ _. k

  abbrev pub pure : {A : Type 0} → A → Call S E A
  pure a s = (ok a, s)

  abbrev pub throw : {A : Type 0} → E → Call S E A
  throw e s = (err e, s)

  -- `if (c) throw e;`
  abbrev pub throw_if : Bool → E → Call S E (Unit {0})
  throw_if c e s = (elim c [ true ↦ err e | false ↦ ok tt ], s)

  -- A row that was looked up, or the error where there is none.
  abbrev pub or_throw : {A : Type 0} → Option A → E → Call S E A
  or_throw none e = throw e
  or_throw (some a) _ = pure a

  abbrev pub gets : {A : Type 0} → (S → A) → Call S E A
  gets f s = (ok (f s), s)

  abbrev pub modify : (S → S) → Call S E (Unit {0})
  modify f s = (ok tt, f s)

  abbrev pub roll_back : {A : Type 0} → S → Result E A × S → Result E A × S
  roll_back before (ok a, after) = (ok a, after)
  roll_back before (err e, after) = (err e, before)

  -- `withScopedTransaction`: a throw undoes what the body wrote.
  abbrev pub transaction : {A : Type 0} → Call S E A → Call S E A
  transaction body s = roll_back s (body s)
