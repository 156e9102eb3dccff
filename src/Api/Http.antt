-- ===== src/Api/Http.antt =====
-- services/api_service/src/presentation/routes/v1/jobs: who calls, and what a handler answers.
pub mod Schemas
pub mod Jobs
use ai_microservices.Base.{
  ℕ, String, Bool, Option, none, some, List, if◌then◌else◌, string_eq, contains, nat_eq, pair_eq,
}
use ai_microservices.Base.Int.{ℤ}
use ai_microservices.Base.Text.{truthy}
use ai_microservices.Base.Value.{Fields}
use ai_microservices.Api.UseCases.{JobDto}

-- what the JWT middleware put into `flask.g`
pub record Caller : Type 0 where
  pub user_id : Option String
  pub roles : List String

abbrev pub or_anonymous : Option String → String
or_anonymous none = "anonymous"
or_anonymous (some u) = if truthy u then u else "anonymous"

-- `_get_caller_user_id`
unfoldable pub caller_id : Caller → String
caller_id c = or_anonymous c.user_id

-- `_is_admin`
unfoldable pub is_admin : Caller → Bool
is_admin c = contains c.roles "admin"

-- the data of a response; the text of an error is left out
pub data Body : Type 0 where
  one : JobDto → Body
  page : List JobDto → ℕ → ℤ → ℤ → Body
  progress : String → String → Option Fields → Option String → Body
  deleted : Body
  failed : Body

-- A handler answers with a code, or raises ForbiddenError, which the app answers with 403.
pub data Response : Type 0 where
  respond : ℕ → Body → Response
  forbidden : Response
