-- ===== src/Base/Hoare.antt =====
-- What a call does to the state, whether it returns or throws.
use mathlib.Core.Bool.{Bool, true, false}
use mathlib.Core.Option.{Option, none, some}
use trade_pal_africa.Base.Outcome.{
  Result, ok, err, Call, resume, ◌>>=◌, ◌>>◌, throw_if, or_throw, roll_back, transaction,
}

module _ {S E : Type 0} where
  -- From a state in `P` the call ends in a state in `Q`.
  abbrev pub Leads : {A : Type 0} → (S → Type 0) → (S → Type 0) → Call S E A → Type 0
  Leads P Q m = (s : S) → P s → Q (m s).1

  abbrev pub Preserves : {A : Type 0} → (S → Type 0) → Call S E A → Type 0
  Preserves P m = Leads P P m

  Leads-resume :
      {A B : Type 0} (Q R : S → Type 0) (f : A → Call S E B) (r : Result E A × S)
      → Q r.1
      → ((s : S) → Q s → R s)
      → ((a : A) → Leads Q R (f a))
      → R (resume f r).1
  Leads-resume Q R f (ok a, s) q w k = k a s q
  Leads-resume Q R f (err e, s) q w k = w s q

  pub Leads-bind :
      {A B : Type 0} (P Q R : S → Type 0) (m : Call S E A) (f : A → Call S E B)
      → Leads P Q m
      → ((s : S) → Q s → R s)
      → ((a : A) → Leads Q R (f a))
      → Leads P R (m >>= f)
  Leads-bind P Q R m f h w k s p = Leads-resume Q R f (m s) (h s p) w k

  module _ (P : S → Type 0) where
    pub Preserves-bind :
        {A B : Type 0} (m : Call S E A) (f : A → Call S E B)
        → Preserves P m
        → ((a : A) → Preserves P (f a))
        → Preserves P (m >>= f)
    Preserves-bind m f h k = Leads-bind P P P m f h (λ s q. q) k

    -- A guard throws without a write.
    pub guard-holds :
        {A : Type 0} (c : Bool) (e : E) (m : Call S E A) (s : S)
        → P s
        → P (m s).1
        → P ((throw_if c e >> m) s).1
    guard-holds true e m s p q = p
    guard-holds false e m s p q = q

    pub Preserves-guard :
        {A : Type 0} (c : Bool) (e : E) (m : Call S E A)
        → Preserves P m
        → Preserves P (throw_if c e >> m)
    Preserves-guard c e m h s p = guard-holds c e m s p (h s p)

    pub Preserves-or_throw : {A : Type 0} (o : Option A) (e : E) → Preserves P (or_throw o e)
    Preserves-or_throw none e s p = p
    Preserves-or_throw (some a) e s p = p

    Preserves-roll_back :
        {A : Type 0} (before : S) (r : Result E A × S) → P before → P r.1 → P (roll_back before r).1
    Preserves-roll_back before (ok a, after) p q = q
    Preserves-roll_back before (err e, after) p q = p

    pub Preserves-transaction :
        {A : Type 0} (body : Call S E A) → Preserves P body → Preserves P (transaction body)
    Preserves-transaction body h s p = Preserves-roll_back s (body s) p (h s p)
