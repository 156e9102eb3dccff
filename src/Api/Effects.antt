-- ===== src/Api/Effects.antt =====
-- A call of a use case: it may raise, and what it wrote before a raise stays written.
use ai_microservices.Base.{Bool, Option, none, some, true, false}
use ai_microservices.Api.Result.{Error, Result, ok, err}

abbrev pub Exec : Type 0 → Type 0 → Type 0
Exec S A = S → Result A × S

module _ {S A : Type 0} where
  abbrev pub pure : A → Exec S A
  pure a s = (ok a, s)

  abbrev pub lift : Result A → Exec S A
  lift r s = (r, s)

  -- `if x is None: raise e`
  abbrev pub or_raise : Option A → Error → Exec S A
  or_raise none e s = (err e, s)
  or_raise (some a) e s = (ok a, s)

infixl 5 ◌>>=◌ ◌>>◌
abbrev pub ◌>>=◌ : {S A B : Type 0} → Exec S A → (A → Exec S B) → Exec S B
◌>>=◌ m f s = elim (m s).0 [ ok a ↦ f a (m s).1 | err e ↦ (err e, (m s).1) ]

abbrev pub ◌>>◌ : {S B : Type 0} → Exec S (Unit {0}) → Exec S B → Exec S B
m >> k = m >>= λ _. k

-- `if not b: raise e`
abbrev pub guard : {S : Type 0} → Bool → Error → Exec S (Unit {0})
guard true e s = (ok tt, s)
guard false e s = (err e, s)

abbrev pub modify : {S : Type 0} → (S → S) → Exec S (Unit {0})
modify f s = (ok tt, f s)
