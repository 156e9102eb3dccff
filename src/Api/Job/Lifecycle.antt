-- ===== src/Api/Job/Lifecycle.antt =====
-- The jobs that the methods of the entity can reach.
use mathlib.Core.Path.{subst}
use ai_microservices.Base.{
  ℕ, ◌≤◌, ◌<◌, String, ◌≡◌, refl, true, none, some, ◌⊎◌, refl, inl, inr, inl, inr, arith, string_eq,
}
use ai_microservices.Base.Int.{pos, ◌≤ℤ◌}
use ai_microservices.Base.Text.{truthy}
use ai_microservices.Base.Value.{Fields}
use ai_microservices.Api.Result.{Result, ok, err}
use ai_microservices.Api.Status.{can_transition, is_terminal, priority_accepted}
use ai_microservices.Api.Status as JobStatus
use ai_microservices.Api.Status.Diagram.{
  Status, pending, running, completed, failed, cancelled, name, steps_left,
}
use ai_microservices.Api.Job.{Job, create, is_valid}
use ai_microservices.Api.Job

-- When the job started, if it did: after its creation and not after `now`.
abbrev StartedBy : ℕ → Job → Type 0
StartedBy now j =
    (j.started_at ≡ none) ⊎ ((t : ℕ) × (j.started_at ≡ some t) × (j.created_at ≤ t) × (t ≤ now))

-- What the fields hold in each status.
abbrev pub Phase : Status → Job → Type 0
Phase pending j =
    (j.started_at ≡ none) × (j.completed_at ≡ none) × (j.error ≡ none) × (j.result ≡ none)
Phase running j =
    (t : ℕ) × (j.started_at ≡ some t)
    × (j.created_at ≤ t)
    × (j.completed_at ≡ none)
    × (j.error ≡ none)
    × (j.result ≡ none)
Phase completed j =
    (t : ℕ) × (u : ℕ) × (r : Fields) × (j.started_at ≡ some t)
    × (j.created_at ≤ t)
    × (j.completed_at ≡ some u)
    × (t ≤ u)
    × (j.error ≡ none)
    × (j.result ≡ some r)
Phase failed j =
    (t : ℕ) × (u : ℕ) × (m : String) × (j.started_at ≡ some t)
    × (j.created_at ≤ t)
    × (j.completed_at ≡ some u)
    × (t ≤ u)
    × (j.error ≡ some m)
    × (truthy m ≡ true)
    × (j.result ≡ none)
Phase cancelled j =
    (u : ℕ) × (j.completed_at ≡ some u)
    × (j.created_at ≤ u)
    × StartedBy u j
    × (j.error ≡ none)
    × (j.result ≡ none)

pub record IsWellFormed (j : Job) : Type 0 where
  pub named : truthy j.id ≡ true
  pub typed : truthy j.job_type ≡ true
  pub low : pos 1 ≤ℤ j.priority
  pub high : j.priority ≤ℤ pos 10
  pub state : Status
  pub status : j.status ≡ name state
  pub phase : Phase state j

valid_in :
    (s : Status) (j : Job) → IsWellFormed j → j.status ≡ name s → Phase s j → is_valid j ≡ true
unfolding is_valid JobStatus.is_valid is_terminal
valid_in pending j w e h = simp (e, w.named, w.typed, h.0, h.1, h.2) (ground arith)
valid_in running j w e h = simp (e, w.named, w.typed, h.1, h.3) (ground arith)
valid_in completed j w e h = simp (e, w.named, w.typed, h.3, h.5, h.7) (ground arith)
valid_in failed j w e h = simp (e, w.named, w.typed, h.3, h.5, h.7, h.8) (ground arith)
valid_in cancelled j w e h = simp (e, w.named, w.typed, h.1) (ground arith)

-- A well-formed job satisfies the business rules that the code checks.
pub is_valid_of_IsWellFormed : (j : Job) → IsWellFormed j → is_valid j ≡ true
is_valid_of_IsWellFormed j w = valid_in w.state j w w.status w.phase

-- The clock reads no earlier than the times that the job records.
pub record IsCurrent (now : ℕ) (j : Job) : Type 0 where
  pub created : j.created_at ≤ now
  pub started : (t : ℕ) → j.started_at ≡ some t → t ≤ now

-- The methods that move a job.
pub data Action : Type 0 where
  start : Action
  complete : Fields → Action
  fail : String → Action
  cancel : Action

abbrev pub act : Action → ℕ → Job → Result Job
act Action.start now j = Job.start now j
act (Action.complete r) now j = Job.complete now r j
act (Action.fail m) now j = Job.fail now m j
act Action.cancel now j = Job.cancel now j

-- A failure is reported with a message.
abbrev pub IsReported : Action → Type 0
IsReported (Action.fail m) = truthy m ≡ true
IsReported _ = Unit

-- What a returned value satisfies; a call that raises promises nothing here.
abbrev pub Ensures : {A : Type 0} → (A → Type 0) → Result A → Type 0
Ensures P (ok a) = P a
Ensures P (err e) = Unit

pub ensured : {A : Type 0} (P : A → Type 0) {a : A} (r : Result A) → r ≡ ok a → Ensures P r → P a
ensured P {a} (ok b) e h = let q : b ≡ a = cc in subst P q h
ensured P (err x) e h = cc

-- A job after a call at `now`, with fewer steps left than the status `s` had.
abbrev pub Moved : Status → ℕ → Job → Type 0
Moved s now j = (w : IsWellFormed j) × IsCurrent now j × (steps_left w.state < steps_left s)

module _ (now : ℕ) (j : Job) (w : IsWellFormed j) (c : IsCurrent now j) where
  -- the parts that no method touches
  moved :
      (s t : Status) (k : Job)
      → k.id ≡ j.id
      → k.job_type ≡ j.job_type
      → k.priority ≡ j.priority
      → k.status ≡ name t
      → Phase t k
      → IsCurrent now k
      → steps_left t < steps_left s
      → Moved s now k
  moved s t k i y p e h cur d = (
    record {
      named = rw i w.named;
      typed = rw y w.typed;
      low = rw p w.low;
      high = rw p w.high;
      state = t;
      status = e;
      phase = h;
    },
    cur,
    d,
  )

  pub act-Moved :
      (a : Action) (s : Status)
      → IsReported a
      → j.status ≡ name s
      → Phase s j
      → Ensures (Moved s now) (act a now j)
  unfolding Job.start Job.complete Job.fail Job.cancel can_transition JobStatus.is_valid
  act-Moved Action.start pending m e h = simp e (
      moved pending running _ refl refl refl refl (now, refl, c.created, h.1, h.2, h.3)
        (record { created = c.created; started = λ t p. ground arith }) (omega arith))
  act-Moved (Action.complete r) running m e h = simp e (
      moved running completed _ refl refl refl refl
        (h.0, now, r, h.1, h.2, refl, c.started h.0 h.1, refl, refl)
        (record { created = c.created; started = c.started }) (omega arith))
  act-Moved (Action.fail x) running m e h = simp e (
      moved running failed _ refl refl refl refl
        (h.0, now, x, h.1, h.2, refl, c.started h.0 h.1, refl, m, refl)
        (record { created = c.created; started = c.started }) (omega arith))
  act-Moved Action.cancel pending m e h = simp e (
      moved pending cancelled _ refl refl refl refl (now, refl, c.created, inl h.0, h.2, h.3)
        (record { created = c.created; started = c.started }) (omega arith))
  act-Moved Action.cancel running m e h = simp e (
      moved running cancelled _ refl refl refl refl
        (now, refl, c.created, inr (h.0, h.1, h.2, c.started h.0 h.1), h.4, h.5)
        (record { created = c.created; started = c.started }) (omega arith))
  act-Moved _ _ m e h = simp e tt
