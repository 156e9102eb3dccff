-- ===== src/Api/Job/Validity.antt =====
-- `Job.is_valid` against its business rules, and the clock arithmetic of the timeouts.
use ai_microservices.Base.{
  ℕ, ◌≤◌, ◌≡◌, ◌≢◌, true, false, Bool, none, some, arith, ◌&&◌, not, is_some, string_eq, Option,
  ◌↔◌, suc, ◌+◌, ◌*◌, ◌<◌, refl, sym, ◌∙◌, inl, inr, Option-cases, ap,
}
use ai_microservices.Base.Int.{pos, ◌≤ℤ◌, leb_ℤ}
use ai_microservices.Base.Text.{truthy}
use ai_microservices.Api.Status.{is_terminal}
use ai_microservices.Api.Status.Diagram.{Status, name, status_cases}
use ai_microservices.Api.Job.{
  Job, is_valid, earlier, earlier_than, text_or_empty, is_timed_out, end_time,
}
use ai_microservices.Api.Status as JobStatus

-- the statuses in which a job has finished
abbrev pub ends : Status → Bool
ends Status.pending = false
ends Status.running = false
ends _ = true

ends-is_terminal : (s : Status) → ends s ≡ is_terminal (name s)
unfolding is_terminal
ends-is_terminal Status.pending = refl
ends-is_terminal _ = refl

pub ends-name : (r s : Status) → name r ≡ name s → ends r ≡ ends s
ends-name r s e = ends-is_terminal r ∙ (ap is_terminal e ∙ sym (ends-is_terminal s))

-- The business rules, one by one.
pub record Rules (j : Job) : Type 0 where
  pub named : truthy j.id ≡ true
  pub typed : truthy j.job_type ≡ true
  pub state : Status
  pub status : j.status ≡ name state
  pub low : pos 1 ≤ℤ j.priority
  pub high : j.priority ≤ℤ pos 10
  pub started_after : (t : ℕ) → j.started_at ≡ some t → j.created_at ≤ t
  pub finished_after : (u : ℕ) → j.completed_at ≡ some u → j.created_at ≤ u
  pub ordered : (t u : ℕ) → j.started_at ≡ some t → j.completed_at ≡ some u → t ≤ u
  pub finished : ends state ≡ true → j.completed_at ≢ none
  pub running_started : state ≡ Status.running → j.started_at ≢ none
  pub completed_clean : state ≡ Status.completed → j.error ≡ none
  pub failed_reported : state ≡ Status.failed → truthy (text_or_empty j.error) ≡ true

-- the checks on one known status, all that `is_valid` asks of it
abbrev checks : Status → Job → Bool
checks s j =
    truthy j.id
    && truthy j.job_type
    && (leb_ℤ (pos 1) j.priority && leb_ℤ j.priority (pos 10))
    && not (earlier j.started_at j.created_at)
    && not (earlier j.completed_at j.created_at)
    && not (earlier_than j.completed_at j.started_at)
    && phase s
  where
    phase : Status → Bool
    phase Status.pending = true
    phase Status.running = is_some j.started_at
    phase Status.completed = is_some j.completed_at && not (is_some j.error)
    phase Status.failed = is_some j.completed_at && truthy (text_or_empty j.error)
    phase Status.cancelled = is_some j.completed_at

is_valid-checks : (s : Status) (j : Job) → j.status ≡ name s → is_valid j ≡ checks s j
unfolding is_valid JobStatus.is_valid is_terminal
is_valid-checks Status.pending j e = simp e (ground arith)
is_valid-checks _ j e = simp e (ground arith)

is_valid_unknown : (j : Job) → JobStatus.is_valid j.status ≡ false → is_valid j ≡ false
unfolding is_valid
is_valid_unknown j e = ground arith

earlier_eq_false : (o : Option ℕ) (b : ℕ) → ((t : ℕ) → o ≡ some t → b ≤ t) → earlier o b ≡ false
earlier_eq_false none b h = refl
earlier_eq_false (some t) b h = ground (arith, h t refl)

earlier_than_eq_false :
    (a b : Option ℕ) → ((t u : ℕ) → b ≡ some t → a ≡ some u → t ≤ u) → earlier_than a b ≡ false
earlier_than_eq_false a none h = refl
earlier_than_eq_false none (some t) h = refl
earlier_than_eq_false (some u) (some t) h = ground (arith, h t u refl refl)

is_some_of_ne_none {ℓ} : {A : Type ℓ} (o : Option A) → o ≢ none → is_some o ≡ true
is_some_of_ne_none none h = absurd (h refl)
is_some_of_ne_none (some a) h = refl

module _ (j : Job) where
  checks-Rules : (s : Status) → j.status ≡ name s → checks s j ≡ true → Rules j
  checks-Rules s e h = record {
    named = ground arith;
    typed = ground arith;
    state = s;
    status = e;
    low = ground arith;
    high = ground arith;
    started_after = λ t p. ground arith;
    finished_after = λ u p. ground arith;
    ordered = λ t u p q. ground arith;
    finished = λ t n. ground arith;
    running_started = λ q n. ground arith;
    completed_clean = λ q. ground arith;
    failed_reported = λ q. ground arith;
  }

  checks_of_phase :
      (r : Rules j) (s : Status)
      → (ends s ≡ true → is_some j.completed_at ≡ true)
      → (s ≡ Status.running → is_some j.started_at ≡ true)
      → (s ≡ Status.completed → j.error ≡ none)
      → (s ≡ Status.failed → truthy (text_or_empty j.error) ≡ true)
      → checks s j ≡ true
  checks_of_phase r s f g c x =
      simp
        (
          r.named,
          r.typed,
          earlier_eq_false j.started_at j.created_at r.started_after,
          earlier_eq_false j.completed_at j.created_at r.finished_after,
          earlier_than_eq_false j.completed_at j.started_at r.ordered,
        )
        (ground (arith, r.low, r.high))

  Rules-checks : (r : Rules j) → checks r.state j ≡ true
  Rules-checks r =
      checks_of_phase r r.state (λ e. is_some_of_ne_none _ (r.finished e))
        (λ e. is_some_of_ne_none _ (r.running_started e)) r.completed_clean r.failed_reported

  -- `is_valid` decides the business rules: it returns True exactly for a job that keeps them all.
  pub is_valid_iff : (is_valid j ≡ true) ↔ Rules j
  is_valid_iff = (
    (λ h. elim (status_cases j.status) [
      | inl (s, e) ↦ checks-Rules s e (sym (is_valid-checks s j e) ∙ h)
      | inr bad ↦ cc (is_valid_unknown j bad)
    ]),
    λ r. is_valid-checks r.state j r.status ∙ Rules-checks r,
  )

-- A job with a positive timeout of `n + 1` seconds has timed out exactly if it has started and
-- its end, or the present, is later than its start by more than that.
pub is_timed_out_iff :
    (now : ℕ) (j : Job) {n : ℕ}
    → j.timeout_seconds ≡ some (pos (suc n))
    → (is_timed_out now j ≡ true)
      ↔ ((t : ℕ) × (j.started_at ≡ some t) × (t + suc n * 1000000 < end_time now j.completed_at))
unfolding is_timed_out
is_timed_out_iff now j {n} e = elim (Option-cases j.started_at) [
  | inl idle ↦ ((λ h. absurd (ground arith)), λ (t, p, q). cc)
  | inr (t, p) ↦ ((λ h. (t, p, ground arith)), λ (u, q, r). ground arith)
]

-- Once a job has finished, the verdict does not depend on when it is asked for.
pub is_timed_out_final :
    (now later : ℕ) (j : Job) {u : ℕ}
    → j.completed_at ≡ some u
    → is_timed_out now j ≡ is_timed_out later j
unfolding is_timed_out
is_timed_out_final now later j e = ground arith
