-- ===== src/Api/Examples/Calls.antt =====
-- The use cases on a store in memory, and the creation on a store that cannot be written.
use ai_microservices.Base.Dict.{Dict}
use ai_microservices.Base.{
  String, ◌≡◌, refl, true, false, none, some, [], ◌∷◌, if◌then◌else◌, ◌==◌, string_eq, arith,
  eq_iff, nat_eq, pair_eq,
}
use ai_microservices.Base.Text.{strip}
use ai_microservices.Base.Int.{pos}
use ai_microservices.Base.Value.{end}
use ai_microservices.Api.Result.{ok, err, value_error, repository_error}
use ai_microservices.Api.Status as JobStatus
use ai_microservices.Api.Status.Diagram.{Status}
use ai_microservices.Api.Job.{Job, is_valid, create, cancel}
use ai_microservices.Api.Job.Validity.{Rules}
use ai_microservices.Api.Repository.{JobRepository, IsLawful, IsIndexed}
use ai_microservices.Api.Repository.InMemory.{
  in_memory, in_memory-IsLawful, in_memory-TouchesOne, in_memory-IsShared, save, find_by_id, touch,
}
use ai_microservices.Api.UseCases.{
  Service, World, persist, find, assign, publish, dispatch, construct, map_to_dto, dto_of,
}
use ai_microservices.Api.UseCases.Create.{
  CreateJobDto, execute, dispatch_to_queue, publish_created, created_dto,
}
use ai_microservices.Api.UseCases.Create.Outcome.{asked_for, execute_ok}
use ai_microservices.Api.UseCases.Cancel.{cancel_job, cancel_found, publish_cancelled, is_owner}
use ai_microservices.Api.UseCases.Cancel.Outcome.{MayCancel, IsLive, as_cancelled, cancel_job_ok}
use ai_microservices.Api.UseCases.Update.{
  Changes, update_job, update_found, publish_updated, priority_fits, apply_changes,
}
use ai_microservices.Api.UseCases.Update.Outcome.{update_job_ok, refused_update_shows, IsUpdated}
use ai_microservices.Api.Examples.{pending_job, completed_job}

abbrev over : JobRepository → Service
over repository = record {
  repository = repository;
  has_publisher = true;
  has_dispatcher = true;
  isoformat = λ t. "2026-01-01T00:00:00+00:00";
  isoformat_z = λ t. "2026-01-01T00:00:00Z";
  accepts = λ d. true;
}

abbrev pub service : Service
service = over in_memory

abbrev pub empty_store : World service
empty_store = record { store = []; events = []; dispatched = [] }

abbrev pub one_pending : World service
one_pending = record { store = ("j1", pending_job) ∷ []; events = []; dispatched = [] }

abbrev one_completed : World service
one_completed = record { store = ("j1", completed_job) ∷ []; events = []; dispatched = [] }

one_pending-IsIndexed : IsIndexed in_memory one_pending.store
unfolding find_by_id
one_pending-IsIndexed i j h = ground (arith, eq_iff "j1" i)

abbrev dto : CreateJobDto
dto = record {
  job_type = "train";
  input_data = end;
  priority = pos 5;
  timeout_seconds = pos 5;
  user_id = "u1";
}

execute_ok_example :
    Rules (asked_for "j1" 5 dto)
    × ((i : String)
        → find_by_id i (execute service "j1" 5 dto empty_store).1.store
          ≡ (if "j1" == i then ok (some (asked_for "j1" 5 dto)) else find_by_id i []))
unfolding execute dispatch_to_queue publish_created created_dto persist dispatch publish construct
    create is_valid strip JobStatus.priority_accepted JobStatus.is_valid JobStatus.is_terminal save
execute_ok_example = execute_ok service in_memory-IsLawful "j1" 5 dto empty_store refl

-- a repository whose database refuses to be written
abbrev read_only : JobRepository
read_only = record in_memory {
  save = λ j s. (err repository_error, s);
  delete = λ i s. (err repository_error, s);
  touch = λ j s. s;
}

read_only-IsLawful : IsLawful read_only
unfolding find_by_id
read_only-IsLawful = record {
  save_returns = λ j k s e. cc;
  find-save = λ j k i s e. cc;
  save_error = λ j e s h. (cc, refl);
  find_error = λ i e s h. cc;
  delete_returns = λ i b o s p q. cc;
  find-delete = λ i k b s e. cc;
  delete_error = λ i e s h. (cc, refl);
}

abbrev nothing_stored : World (over read_only)
nothing_stored = record { store = []; events = []; dispatched = [] }

cancel_job_ok_example :
    (job : Job) × (find_by_id "j1" one_pending.store ≡ ok (some job))
    × IsLive job
    × MayCancel "u1" false job
    × ((i : String)
        → find_by_id i (cancel_job service 9 "j1" "u1" false one_pending).1.store
          ≡ (if "j1" == i then ok (some (as_cancelled 9 job)) else find_by_id i one_pending.store))
unfolding cancel_job find cancel_found publish_cancelled is_owner assign persist publish map_to_dto
    dto_of construct find_by_id save touch cancel JobStatus.can_transition JobStatus.is_valid
cancel_job_ok_example =
    cancel_job_ok service in_memory-IsLawful in_memory-TouchesOne 9 "j1" "u1" false one_pending
      one_pending-IsIndexed refl

abbrev raised_priority : Changes
raised_priority = record { priority = some (pos 7); status = none; result = none; error = none }

update_job_ok_example :
    (job : Job) × (find_by_id "j1" one_pending.store ≡ ok (some job))
    × (updated : Job) × (IsUpdated raised_priority job updated)
    × Rules updated
    × ((i : String)
        → find_by_id i (update_job service "j1" raised_priority one_pending).1.store
          ≡ (if "j1" == i then ok (some updated) else find_by_id i one_pending.store))
unfolding update_job find update_found publish_updated assign persist publish map_to_dto dto_of
    construct find_by_id save touch priority_fits apply_changes is_valid JobStatus.is_valid
    JobStatus.is_terminal
update_job_ok_example =
    update_job_ok service in_memory-IsLawful in_memory-TouchesOne "j1" raised_priority one_pending
      one_pending-IsIndexed refl

abbrev completion : Changes
completion = record { priority = none; status = some "completed"; result = some end; error = none }

refused_update_shows_example :
    ((update_job service "j1" completion one_pending).0 ≡ err value_error)
    × (shown : Job) × (find_by_id "j1" (update_job service "j1" completion one_pending).1.store
        ≡ ok (some shown))
    × (shown.status ≡ "completed")
    × (shown.completed_at ≡ none)
unfolding find_by_id priority_fits
refused_update_shows_example =
    refused_update_shows service "j1" completion Status.completed one_pending pending_job
      in_memory-IsShared one_pending-IsIndexed refl refl refl refl refl refl

in_memory_saves : (j : Job) (s : Dict String Job) → (save j s).0 ≡ ok j
unfolding save
in_memory_saves j s = refl
