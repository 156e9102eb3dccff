-- ===== src/Api/UseCases/Update/Outcome.antt =====
-- What an update of a job does. The use case assigns to the status directly: it asks `is_valid`
-- and not the table of transitions.
use ai_microservices.Base.{
  String, ◌≡◌, inl, inr, true, none, some, arith, if◌then◌else◌, ◌==◌, nat_eq, string_eq, pair_eq,
  refl, ap, ◌∙◌, false, Bool-cases, sym, Option,
}
use ai_microservices.Base.Text.{truthy}
use ai_microservices.Api.Result.{ok, err, value_error}
use ai_microservices.Api.Effects.{lift, ◌>>◌}
use ai_microservices.Api.Repository.{
  IsLawful, IsIndexed, TouchesOne, IsDetached, IsShared, JobRepository,
}
use ai_microservices.Api.Job.{Job, is_valid}
use ai_microservices.Api.Job.Validity.{Rules, is_valid_iff, ends, ends-name}
use ai_microservices.Api.Status.Diagram.{Status, name}
use ai_microservices.Api.UseCases.{Service, World, JobDto, assign, find, map_to_dto}
use ai_microservices.Api.UseCases.Commit.{Result-cases, commit_ok, publish-Keeps}
use ai_microservices.Api.UseCases.Update.{
  update_job, Changes, apply_changes, priority_fits, publish_updated, set_if, update_found,
  set_some_if,
}

kept_id : (c : Changes) (job : Job) → (apply_changes c job).id ≡ job.id
unfolding apply_changes
kept_id c job = refl

unfinished :
    (c : Changes) (s : Status) (job : Job)
    → job.completed_at ≡ none
    → c.status ≡ some (name s)
    → ends s ≡ true
    → is_valid (apply_changes c job) ≡ false
unfolding apply_changes
unfinished c s job n e f = elim (Bool-cases (is_valid (apply_changes c job))) [
  | inr bad ↦ bad
  | inl good ↦
      let r = (is_valid_iff (apply_changes c job)).0 good in
      let same : set_if c.status job.status ≡ name r.state = r.status in
      let given : set_if c.status job.status ≡ name s = ap (λ o. set_if o job.status) e in
      absurd (r.finished (ends-name r.state s (sym same ∙ given) ∙ f) n)
]

-- An update that returns has passed both checks.
checks_of_ok :
    (S : Service) (c : Changes) (job : Job) (w : World S) {d : JobDto}
    → (update_found S c job w).0 ≡ ok d
    → (priority_fits c.priority ≡ true) × (is_valid (apply_changes c job) ≡ true)
unfolding update_found assign
checks_of_ok S c job w h = elim (Bool-cases (priority_fits c.priority)) [
  | inr e ↦ cc (simp e at h)
  | inl q ↦ elim (Bool-cases (is_valid (apply_changes c job))) [
    | inr e ↦ cc (simp (q, e) at h)
    | inl v ↦ (q, v)
  ]
]

-- What a field is after an argument that may be None.
abbrev pub Given {ℓ} : {A : Type ℓ} → Option A → A → A → Type ℓ
Given none old new = new ≡ old
Given (some value) old new = new ≡ value

abbrev pub GivenSome {ℓ} : {A : Type ℓ} → Option A → Option A → Option A → Type ℓ
GivenSome none old new = new ≡ old
GivenSome (some value) old new = new ≡ some value

-- `new` is `old` with the given fields replaced and every other field kept.
pub record IsUpdated (c : Changes) (old new : Job) : Type 0 where
  pub priority : Given c.priority old.priority new.priority
  pub status : Given c.status old.status new.status
  pub result : GivenSome c.result old.result new.result
  pub error : GivenSome c.error old.error new.error
  pub others : new ≡ record old {
    priority = new.priority;
    status = new.status;
    result = new.result;
    error = new.error;
  }

set_if-Given : {A : Type 0} (o : Option A) (old : A) → Given o old (set_if o old)
set_if-Given none old = refl
set_if-Given (some value) old = refl

set_some_if-GivenSome :
    {A : Type 0} (o : Option A) (old : Option A) → GivenSome o old (set_some_if o old)
set_some_if-GivenSome none old = refl
set_some_if-GivenSome (some value) old = refl

apply_changes-IsUpdated : (c : Changes) (job : Job) → IsUpdated c job (apply_changes c job)
unfolding apply_changes
apply_changes-IsUpdated c job = record {
  priority = set_if-Given c.priority job.priority;
  status = set_if-Given c.status job.status;
  result = set_some_if-GivenSome c.result job.result;
  error = set_some_if-GivenSome c.error job.error;
  others = refl;
}

module _ (S : Service) (L : IsLawful S.repository) (T : TouchesOne S.repository) where
  open S use {repository.{find_by_id}}

  found_ok :
      (c : Changes) (job : Job) (w : World S) {d : JobDto}
      → (update_found S c job w).0 ≡ ok d
      → (i : String)
      → find_by_id i (update_found S c job w).1.store ≡ (
          if (apply_changes c job).id == i
          then ok (some (apply_changes c job))
          else find_by_id i w.store)
  unfolding update_found
  found_ok c job w h i =
      let (q, v) = checks_of_ok S c job w h in
      simp (q, v)
        (commit_ok S L T (apply_changes c job) (λ k. publish_updated S k >> lift (map_to_dto S k)) w
          (λ k. publish-Keeps S L _ _) (simp (q, v) at h) i)

  -- An update that returns was made on a stored job, and what is stored then is that job with the
  -- given fields replaced and the others kept, valid by the business rules. Every other job is as
  -- it was.
  pub update_job_ok :
      (job_id : String) (c : Changes) (w : World S) {d : JobDto}
      → IsIndexed S.repository w.store
      → (update_job S job_id c w).0 ≡ ok d
      → (job : Job) × (find_by_id job_id w.store ≡ ok (some job))
        × (updated : Job) × (IsUpdated c job updated)
        × Rules updated
        × ((i : String)
            → find_by_id i (update_job S job_id c w).1.store
              ≡ (if job_id == i then ok (some updated) else find_by_id i w.store))
  unfolding update_job find
  update_job_ok job_id c w x h =
      let t : truthy job_id ≡ true = ground arith in
      elim (Result-cases (find_by_id job_id w.store)) [
        | inr (e, p) ↦ cc (simp (t, p) at h)
        | inl (none, p) ↦ cc (simp (t, p) at h)
        | inl (some job, p) ↦ (
          job,
          p,
          apply_changes c job,
          apply_changes-IsUpdated c job,
          (is_valid_iff _).0 (checks_of_ok S c job w (simp (t, p) at h)).1,
          λ i.
              simp (t, p)
                (found_ok c job w (simp (t, p) at h) i
                  ∙ ap
                      (λ (k : String).
                        if k == i then ok (some (apply_changes c job)) else find_by_id i w.store)
                      (kept_id c job ∙ x job_id job p)),
        )
      ]

abbrev pub status_change : Status → Changes
status_change s = record { priority = none; status = some (name s); result = none; error = none }

-- Over a repository that hands out copies, a job without a time of completion is never moved to a
-- terminal status by an update, whatever else the update carries: the use case sets no time of
-- completion, so the call raises ValueError, and the store, the events and the dispatches are as they
-- were.
pub update_job_never_ends :
    (S : Service) (job_id : String) (c : Changes) (s : Status) (w : World S) (job : Job)
    → IsDetached S.repository
    → truthy job_id ≡ true
    → S.repository.find_by_id job_id w.store ≡ ok (some job)
    → job.completed_at ≡ none
    → c.status ≡ some (name s)
    → ends s ≡ true
    → update_job S job_id c w ≡ (err value_error, w)
unfolding update_job update_found find assign
update_job_never_ends S job_id c s w job d t p open_job e f =
    elim (Bool-cases (priority_fits c.priority)) [
      | inr q ↦ simp (t, p, q)
      | inl q ↦ simp (t, p, q, unfinished c s job open_job e f, d (apply_changes c job) w.store)
    ]

touched :
    (R : JobRepository) (j k : Job) (i : String) (s : R.State)
    → IsShared R
    → j.id ≡ i
    → R.find_by_id i s ≡ ok (some k)
    → R.find_by_id i (R.touch j s) ≡ ok (some j)
touched R j k i s shared e h =
    ap (λ z. R.find_by_id z (R.touch j s)) (sym e) ∙ shared j k s (ap (λ z. R.find_by_id z s) e ∙ h)

-- Over a repository that hands out the stored object, the same update, with a priority that fits or
-- none, raises ValueError too, but the store then shows the job with the terminal status and
-- without a time of completion.
pub refused_update_shows :
    (S : Service) (job_id : String) (c : Changes) (s : Status) (w : World S) (job : Job)
    → IsShared S.repository
    → IsIndexed S.repository w.store
    → truthy job_id ≡ true
    → S.repository.find_by_id job_id w.store ≡ ok (some job)
    → job.completed_at ≡ none
    → c.status ≡ some (name s)
    → ends s ≡ true
    → priority_fits c.priority ≡ true
    → ((update_job S job_id c w).0 ≡ err value_error)
      × (shown : Job) × (S.repository.find_by_id job_id (update_job S job_id c w).1.store
          ≡ ok (some shown))
      × (shown.status ≡ name s)
      × (shown.completed_at ≡ none)
unfolding update_job update_found find assign apply_changes
refused_update_shows S job_id c s w job shared x t p open_job e f q =
    let same : job.id ≡ job_id = x job_id job p in
    (
      simp (t, p, q, unfinished c s job open_job e f),
      apply_changes c job,
      simp (t, p, q, unfinished c s job open_job e f)
          (touched S.repository (apply_changes c job) job job_id w.store shared same p),
      ap (λ o. set_if o job.status) e,
      open_job,
    )
