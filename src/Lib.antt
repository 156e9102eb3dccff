-- ===== src/Lib.antt =====
-- Verification of the AI microservices platform: the job service, the job manager of the AI worker,
-- the refresh tokens and users of the authentication service, the shared authorization of requests, and
-- the jobs of the AI engine.
--
-- The parts and how they interact. The API service (services/api_service) keeps jobs: an HTTP route
-- calls a use case, which reads a job from a repository, asks the entity for a step, saves the result,
-- and publishes an event or dispatches the job to the AI engine. The AI worker (services/ai_worker)
-- keeps its own table of jobs in memory, with its own transitions and a cleanup. The authentication
-- service (services/auth_service) issues refresh tokens that are used once: each use replaces the
-- token, and a second use closes the session. The shared library (shared/shared_auth) makes a context
-- of the token of a request and decides who may do what. The AI engine (ai_engine) keeps jobs of its
-- own in MongoDB; an orchestrator drives each through its task, while another request may cancel it.
--
-- Base: native numbers and lists, the signed integers, `dict` as an association list in insertion
--   order, `str.strip`, `str.split` and the order of texts (Base.Text), JSON values, chains of calls
--   that can fail (Base.Maybe), and a stable sort by a `<` (Base.Sort).
-- Api.Status: services/api_service/src/domain/value_objects/job_status.py. A status is a text, as in
--   the source; Api.Status.Diagram has the five statuses as data and the diagram as an indexed type.
-- Api.Job: services/api_service/src/domain/entities/job.py, a function for each method, which returns
--   the job it leaves or the error it raises. Validity, Lifecycle and Reached state the business
--   rules, the well-formed jobs of each status, and the jobs that a run of calls leads to.
-- Api.Repository: services/api_service/src/domain/repositories/job_repository.py as a record of
--   operations (JobRepository) and the promises of its docstrings: IsLawful for what the use cases that
--   write rely on, IsSearchable for the other methods. InMemory and Listing are
--   `_InMemoryJobRepository` of services/api_service/src/presentation/app.py. Python hands out the
--   stored object itself; the operation `touch` says what an assignment to a found job does to the
--   store, so that the use cases do not assume either a copy or an alias.
-- Api.UseCases: services/api_service/src/application/use_cases/job, one module per use case, in a
--   state monad with errors (Api.Effects) over the store, the published events and the dispatches.
-- Api.Http: services/api_service/src/presentation/routes/v1/jobs. Schemas are the constraints of
--   schemas.py; Jobs has a handler for each of controller.py, which calls the use case and makes the
--   answer, with its code, of the outcome. Access, Scope and Created are about who sees which job and
--   about creation through all layers.
-- Api.Ai: services/api_service/src/presentation/routes/v1/ai with middleware/validation.py (Api.Ai,
--   Routes) and application/use_cases/ai_processing.py (Submit), to the queue of the worker of ai_engine.
--   Accepted, Payload and Bodies follow a request from its body to the job and the task.
-- Api.Client: services/api_service/src/infrastructure/external/ai_worker_client.py. Poll is the loop of
--   `poll_until_complete`, whose turns meet a world of clock readings and answers; OnWorker and Listing
--   put the client before the routes of the worker.
-- Api.Middleware: services/api_service/src/presentation/middleware/jwt_middleware.py, over the handler
--   of Policy.Token and the context variables of Propagation; Served is about what a route is called with.
-- Worker.JobManager: services/ai_worker/src/infrastructure/jobs/job_manager.py. Worker.Routes:
--   services/ai_worker/src/presentation/routes/jobs.py.
-- Auth.Tokens: services/auth_service/src/domain/entities/refresh_token.py and the in-memory store of
--   infrastructure/persistence. Auth.Users: the user entity and its store. Auth.Refresh:
--   application/use_cases/refresh_token.py and the logout of token_ops.py. Auth.Login: the callback of an
--   OAuth provider, with oauth_login.py and the store of states.
-- Auth.Jwt: services/auth_service/src/domain/value_objects/token_payload.py. Service is
--   infrastructure/security/jwt_service.py with jwt_config.py, Claims is token_claims.py, Verify the pair of
--   tokens and the use case that verifies one. Shared takes the tokens to the handler of
--   shared/shared_auth, and Refreshed follows a refresh to the access token it answers with.
-- Policy: shared/shared_auth/models.py (Roles), policies.py (Rules), jwt_handler.py with errors.py
--   (Token) and middleware.py (Guards). An exception is an outcome: an AuthorizationError by its class,
--   or one of another class. Flask's order, the hook and then the decorated route, is `serve`.
-- Engine: ai_engine. Job and Job.Serial are domain/models.py, Repository is domain/repositories.py as a
--   record of operations with its promises, and Repository.Mongo has the adapters of
--   infrastructure/persistence over a parameter for the collection (Kept is what BSON keeps of a job,
--   Refines the contract up to that). Orchestrator runs each method of
--   application/orchestrator.py and async_orchestrator.py from its beginning to its end; Outcome compares
--   `process_job` with a description of its outcome. Race has the awaits of `process_job` and
--   `cancel_job`, and the worker's `task.cancel()`, as a step relation on one stored job.
--   Tasks.Summarization is application/tasks/summarization.py as infrastructure/container.py builds it.
--   Tasks.Sentiment is sentiment_analysis.py, without a service, also as the container builds it. Worker is
--   infrastructure/workers/job_worker.py.
-- Propagation: shared/shared_http/src/propagation.py and client.py, with the hook of
--   services/api_service/src/presentation/middleware/identity.py: the context variables of one thread.
-- The modules named Examples apply the theorems at concrete jobs, stores, tokens and requests.
--
-- Parameters. The clock, `uuid4`, `secrets`, SHA-256, `isoformat`, `fromisoformat`, `jwt.encode` and
-- `jwt.decode`, `fromtimestamp` of the shared handler, `str.lower`, `int` of a text and of a float, the
-- collection of MongoDB, the session of `requests`, the tasks of the AI engine for its orchestrator, the
-- model of the summarization, the arithmetic of floats, the OAuth providers, what pydantic reads of a body
-- by its types, the matching of paths by `re` and the hashing of passwords by passlib are arguments. A
-- time is a number of microseconds, in Auth.Jwt of seconds, and has no zone, save in the contexts of
-- Policy; that MongoDB gives a time back without its zone is not modelled. Python's integers are unbounded, so is the
-- model's ℤ. Every function is total by structural recursion; the only fuel is that of the loop of
-- `poll_until_complete`, which Api.Client.Poll.Ends shows to be enough from a number of turns on that
-- the timeout and the interval give.
--
-- Not modelled: logging, the wiring of HTTP, the message broker, the MongoDB repository of the API service
-- and the locks of the in-memory stores, each of whose methods runs as one step; the other tasks and
-- the model services of the AI engine and its semaphore; the numerical workloads of the worker.
pub mod Base
pub mod Api
pub mod Worker
pub mod Auth
pub mod Policy
pub mod Engine
pub mod Propagation
