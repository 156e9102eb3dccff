-- ===== src/Api/Status.antt =====
-- services/api_service/src/domain/value_objects/job_status.py: the statuses of a job, the table of
-- transitions and the priorities.
pub mod Diagram
use ai_microservices.Base.{
  String, Bool, true, false, not, ◌||◌, ◌&&◌, List, [], ◌∷◌, none, some, string_eq, contains,
  if◌then◌else◌,
}
use ai_microservices.Base.Int.{ℤ, pos, ltb_ℤ, leb_ℤ}
use ai_microservices.Base.Dict.{Dict, lookup}

abbrev pub pending : String
pending = "pending"

abbrev pub running : String
running = "running"

abbrev pub completed : String
completed = "completed"

abbrev pub failed : String
failed = "failed"

abbrev pub cancelled : String
cancelled = "cancelled"

abbrev pub valid_statuses : List String
valid_statuses = pending ∷ running ∷ completed ∷ failed ∷ cancelled ∷ []

abbrev pub transitions : Dict String (List String)
transitions =
    (pending, running ∷ cancelled ∷ [])
    ∷ (running, completed ∷ failed ∷ cancelled ∷ [])
    ∷ (completed, [])
    ∷ (failed, [])
    ∷ (cancelled, [])
    ∷ []

unfoldable pub is_valid : String → Bool
is_valid status = contains valid_statuses status

unfoldable pub is_terminal : String → Bool
is_terminal status = contains (completed ∷ failed ∷ cancelled ∷ []) status

-- `TRANSITIONS.get(from_status, [])`
abbrev pub targets : String → List String
targets from_status = elim (lookup from_status transitions) [ none ↦ [] | some l ↦ l ]

unfoldable pub can_transition : String → String → Bool
can_transition from_status to_status =
    if not (is_valid from_status)
    then false
    else if not (is_valid to_status)
    then false
    else contains (targets from_status) to_status

abbrev pub min_priority : ℤ
min_priority = pos 1

abbrev pub max_priority : ℤ
max_priority = pos 10

-- `Priority.__init__` raises outside the range; the model keeps the number itself.
unfoldable pub priority_accepted : ℤ → Bool
priority_accepted value = not (ltb_ℤ value min_priority || ltb_ℤ max_priority value)

-- `Priority.is_valid`
unfoldable pub priority_is_valid : ℤ → Bool
priority_is_valid priority = leb_ℤ min_priority priority && leb_ℤ priority max_priority
