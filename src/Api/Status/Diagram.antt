-- ===== src/Api/Status/Diagram.antt =====
-- The table of transitions against the diagram that it stands for.
use ai_microservices.Base.{
  ℕ, ◌<◌, String, ◌≡◌, refl, sym, ◌↔◌, ◌⊎◌, inl, inr, true, false, arith, eq_iff, string_eq, ◌==◌,
  Bool-cases,
}
use ai_microservices.Base.Int.{ℤ, pos, ◌≤ℤ◌}
use ai_microservices.Api.Status.{
  is_valid, is_terminal, can_transition, priority_accepted, priority_is_valid,
}

pub data Status : Type 0 where
  pending running completed failed cancelled : Status

abbrev pub name : Status → String
name pending = "pending"
name running = "running"
name completed = "completed"
name failed = "failed"
name cancelled = "cancelled"

-- The diagram of the documentation.
pub data Edge : Status → Status → Type 0 where
  start : Edge pending running
  withdraw : Edge pending cancelled
  complete : Edge running completed
  fail : Edge running failed
  cancel : Edge running cancelled

-- A text is the name of a status, or is_valid refuses it.
pub status_cases : (s : String) → ((t : Status) × (s ≡ name t)) ⊎ (is_valid s ≡ false)
unfolding is_valid
status_cases s = elim (Bool-cases ("pending" == s)) [
  | inl h ↦ inl (pending, sym ((eq_iff "pending" s).0 h))
  | inr h1 ↦ elim (Bool-cases ("running" == s)) [
    | inl h ↦ inl (running, sym ((eq_iff "running" s).0 h))
    | inr h2 ↦ elim (Bool-cases ("completed" == s)) [
      | inl h ↦ inl (completed, sym ((eq_iff "completed" s).0 h))
      | inr h3 ↦ elim (Bool-cases ("failed" == s)) [
        | inl h ↦ inl (failed, sym ((eq_iff "failed" s).0 h))
        | inr h4 ↦ elim (Bool-cases ("cancelled" == s)) [
          | inl h ↦ inl (cancelled, sym ((eq_iff "cancelled" s).0 h))
          | inr h5 ↦ inr (rw (h1, h2, h3, h4, h5))
        ]
      ]
    ]
  ]
]

pub is_valid-name : (t : Status) → is_valid (name t) ≡ true
unfolding is_valid
is_valid-name pending = refl
is_valid-name _ = refl

can_transition-Edge : (s t : Status) → can_transition (name s) (name t) ≡ true → Edge s t
unfolding can_transition is_valid
can_transition-Edge pending running h = start
can_transition-Edge pending cancelled h = withdraw
can_transition-Edge running completed h = complete
can_transition-Edge running failed h = fail
can_transition-Edge running cancelled h = cancel
can_transition-Edge completed pending h = cc
can_transition-Edge failed pending h = cc
can_transition-Edge cancelled pending h = cc
can_transition-Edge _ _ h = cc

Edge-can_transition : {s t : Status} → Edge s t → can_transition (name s) (name t) ≡ true
unfolding can_transition is_valid
Edge-can_transition start = refl
Edge-can_transition withdraw = refl
Edge-can_transition complete = refl
Edge-can_transition fail = refl
Edge-can_transition cancel = refl

-- A step between two texts that the diagram has.
abbrev pub Step : String → String → Type 0
Step a b = (s : Status) × (t : Status) × (a ≡ name s) × (b ≡ name t) × Edge s t

valid_of_can_transition :
    (a b : String) → can_transition a b ≡ true → (is_valid a ≡ true) × (is_valid b ≡ true)
unfolding can_transition
valid_of_can_transition a b h = ground arith

can_transition-Step : (a b : String) → can_transition a b ≡ true → Step a b
can_transition-Step a b h = elim (status_cases a) [
  | inr bad ↦ cc (bad, (valid_of_can_transition a b h).0)
  | inl (s, p) ↦ elim (status_cases b) [
    | inr bad ↦ cc (bad, (valid_of_can_transition a b h).1)
    | inl (t, q) ↦ (s, t, p, q, can_transition-Edge s t (rw (← p, ← q) h))
  ]
]

Step-can_transition : (a b : String) → Step a b → can_transition a b ≡ true
Step-can_transition a b (s, t, p, q, e) = rw (p, q) (Edge-can_transition e)

-- The table allows a step exactly where the diagram has one, between any two texts.
pub can_transition_iff : (a b : String) → (can_transition a b ≡ true) ↔ Step a b
can_transition_iff a b = (can_transition-Step a b, Step-can_transition a b)

-- How many steps a status has left.
abbrev pub steps_left : Status → ℕ
steps_left pending = 2
steps_left running = 1
steps_left _ = 0

pub Edge-steps_left : {s t : Status} → Edge s t → steps_left t < steps_left s
Edge-steps_left start = omega arith
Edge-steps_left withdraw = omega arith
Edge-steps_left complete = omega arith
Edge-steps_left fail = omega arith
Edge-steps_left cancel = omega arith

-- Exactly the terminal statuses have no way out.
pub is_terminal_iff : (s : Status) → (is_terminal (name s) ≡ true) ↔ ((t : Status) → ¬ (Edge s t))
unfolding is_terminal
is_terminal_iff pending = ((λ h. cc), λ none. absurd (none running start))
is_terminal_iff running = ((λ h. cc), λ none. absurd (none failed fail))
is_terminal_iff completed = ((λ h t e. omega (arith, Edge-steps_left e)), λ none. refl)
is_terminal_iff failed = ((λ h t e. omega (arith, Edge-steps_left e)), λ none. refl)
is_terminal_iff cancelled = ((λ h t e. omega (arith, Edge-steps_left e)), λ none. refl)

-- `Priority(value)` accepts a number exactly where `Priority.is_valid` does: from 1 to 10.
pub priority_accepted_iff :
    (p : ℤ)
    → (priority_accepted p ≡ priority_is_valid p)
      × ((priority_accepted p ≡ true) ↔ ((pos 1 ≤ℤ p) × (p ≤ℤ pos 10)))
unfolding priority_accepted priority_is_valid
priority_accepted_iff p = (ground arith, ground arith)
