-- ===== src/Api/Repository/InMemory/Searches.antt =====
-- The searches of the in-memory repository of services/api_service/src/presentation/app.py, against the
-- contract of job_repository.py.
use ai_microservices.Base.{nat_eq, string_eq, pair_eq}
use ai_microservices.Base.Dict.{Dict}
use ai_microservices.Api.Result.{Result}
use ai_microservices.Api.Job.{Job}
