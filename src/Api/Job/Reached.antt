-- ===== src/Api/Job/Reached.antt =====
-- The jobs that creation and a run of successful calls lead to.
use ai_microservices.Base.{
  ℕ, suc, ◌+◌, ◌≤◌, String, ◌≡◌, true, Option, none, some, refl, inl, inr, arith, Bool-cases, ◌&&◌,
  if◌then◌else◌,
}
use ai_microservices.Base.Int.{ℤ}
use ai_microservices.Base.Text.{truthy, strip}
use ai_microservices.Base.Value.{Fields}
use ai_microservices.Api.Result.{ok, err, value_error}
use ai_microservices.Api.Status.{can_transition, priority_accepted}
use ai_microservices.Api.Status.Diagram.{
  Status, pending, running, completed, failed, cancelled, name, Step, can_transition_iff,
  steps_left, priority_accepted_iff,
}
use ai_microservices.Api.Job.{Job, create, is_valid}
use ai_microservices.Api.Job
use ai_microservices.Api.Job.Lifecycle.{
  IsWellFormed, IsCurrent, Action, act, IsReported, Ensures, act-Moved, is_valid_of_IsWellFormed,
  ensured,
}

-- A created job is well-formed, pending, and stamped with the time of its creation.
pub create-IsWellFormed :
    (fresh : String) (now : ℕ) (ty : String) (d : Fields) (u : Option String) (p : ℤ) (t : Option ℤ)
    → truthy fresh ≡ true
    → Ensures
        (λ j. (w : IsWellFormed j) × IsCurrent now j × (w.state ≡ pending))
        (create fresh now ty d u p t)
unfolding create
create-IsWellFormed fresh now ty d u p t f = elim (Bool-cases (truthy ty && truthy (strip ty))) [
  | inr blank ↦ simp blank tt
  | inl named ↦ elim (Bool-cases (priority_accepted p)) [
    | inr refused ↦ simp (named, refused) tt
    | inl fits ↦
        simp (named, fits)
          (
            record {
              named = f;
              typed = ground arith;
              low = ((priority_accepted_iff p).1.0 fits).0;
              high = ((priority_accepted_iff p).1.0 fits).1;
              state = pending;
              status = refl;
              phase = (refl, refl, refl, refl);
            },
            record { created = omega arith; started = λ s e. cc },
            refl,
          )
  ]
]

-- A job that raises no error on creation, and the number of calls that it has accepted since.
pub data Reached : ℕ → ℕ → Job → Type 0 where
  created :
      (fresh : String) (now : ℕ) (ty : String) (d : Fields) (u : Option String) (p : ℤ)
      (t : Option ℤ) {j : Job}
      → truthy fresh ≡ true
      → create fresh now ty d u p t ≡ ok j
      → Reached 0 now j
  called :
      (a : Action) {n t now : ℕ} {j k : Job}
      → Reached n t j
      → t ≤ now
      → IsReported a
      → act a now j ≡ ok k
      → Reached (suc n) now k

abbrev Kept : ℕ → ℕ → Job → Type 0
Kept n now j = (w : IsWellFormed j) × IsCurrent now j × (n + steps_left w.state ≤ 2)

Reached-Kept : {n now : ℕ} {j : Job} → Reached n now j → Kept n now j
Reached-Kept (created fresh now ty d u p t f e) =
    let (w, c, s) =
      ensured _ (create fresh now ty d u p t) e (create-IsWellFormed fresh now ty d u p t f) in
    (w, c, rw s (omega arith))
Reached-Kept (called a {now = now} {j = j} r le m e) =
    let (w, c, b) = Reached-Kept r in
    let (w', c', d) = ensured _ (act a now j) e (
      act-Moved now j w
        (record {
          created = omega (arith, c.created);
          started = λ t p. omega (arith, c.started t p);
        })
        a w.state m w.status w.phase) in
    (w', c', omega arith)

-- A job that creation and any run of accepted calls lead to, at times that do not run backwards,
-- with identifiers that are not empty and failures reported with a message, passes `is_valid`, and
-- has accepted at most two calls.
pub Reached-is_valid : {n now : ℕ} {j : Job} → Reached n now j → (is_valid j ≡ true) × (n ≤ 2)
Reached-is_valid {j = j} r =
    let (w, c, b) = Reached-Kept r in (is_valid_of_IsWellFormed j w, omega arith)

abbrev pub target : Action → Status
target Action.start = running
target (Action.complete r) = completed
target (Action.fail m) = failed
target Action.cancel = cancelled

-- the job that a call returns, if it does
abbrev pub updated : Action → ℕ → Job → Job
updated Action.start now j = record j { status = "running"; started_at = some now }
updated (Action.complete r) now j = record j {
  status = "completed";
  result = some r;
  completed_at = some now;
  error = none;
}
updated (Action.fail m) now j = record j {
  status = "failed";
  error = some m;
  result = none;
  completed_at = some now;
}
updated Action.cancel now j = record j { status = "cancelled"; completed_at = some now }

act-cases :
    (a : Action) (now : ℕ) (j : Job)
    → act a now j ≡ (
        if can_transition j.status (name (target a)) then ok (updated a now j) else err value_error)
unfolding Job.start Job.complete Job.fail Job.cancel
act-cases Action.start now j = ground arith
act-cases _ now j = ground arith

-- Every method follows the diagram: it returns the updated job if the diagram has an edge from the
-- job's status to the method's, and raises ValueError if it has none.
pub act-Step :
    (a : Action) (now : ℕ) (j : Job)
    → (Step j.status (name (target a)) → act a now j ≡ ok (updated a now j))
      × (¬ (Step j.status (name (target a))) → act a now j ≡ err value_error)
act-Step a now j = (
  (λ s. rw (act-cases a now j) (rw ((can_transition_iff j.status (name (target a))).1 s))),
  λ ns. elim (Bool-cases (can_transition j.status (name (target a)))) [
    | inl y ↦ absurd (ns ((can_transition_iff j.status (name (target a))).0 y))
    | inr n ↦ rw (act-cases a now j) (rw n)
  ],
)
