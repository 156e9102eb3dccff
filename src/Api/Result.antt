-- ===== src/Api/Result.antt =====
-- What a call of the service raises (application/exceptions.py, shared_infrastructure's
-- RepositoryError and Python's own), with the message left out.
use mathlib.Core.Bool.{Bool, true, false}
use Prim.Native.String.{String}

pub data Error : Type 0 where
  value_error : Error
  job_not_found : String → Error
  invalid_job_status : Error
  permission_error : Error
  repository_error : Error

pub data Result {ℓ} (A : Type ℓ) : Type ℓ where
  err : Error → Result A
  ok : A → Result A

-- an error ends a chain of calls
infixl 5 ◌>>=◌
abbrev pub ◌>>=◌ {ℓ κ} : {A : Type ℓ} {B : Type κ} → Result A → (A → Result B) → Result B
err raised >>= next = err raised
ok value >>= next = next value

infixl 5 ◌>>◌
abbrev pub ◌>>◌ {ℓ} : {B : Type ℓ} → Result (Unit {0}) → Result B → Result B
err raised >> next = err raised
ok value >> next = next

-- `if not b: raise e`
abbrev pub require : Bool → Error → Result (Unit {0})
require true e = ok tt
require false e = err e
