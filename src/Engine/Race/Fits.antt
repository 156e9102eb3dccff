-- ===== src/Engine/Race/Fits.antt =====
-- What the stored job and the copies of the coroutines of
-- ai_engine/application/async_orchestrator.py can be at each await.
use ai_microservices.Engine.Orchestrator.Verdict.{Attempt-cases}
use ai_microservices.Base.{ℕ, String, Bool, true, false, ◌≡◌, refl, ◌⊎◌, inl, inr, Bool-cases}
use ai_microservices.Api.Status.Diagram.{Status}
use ai_microservices.Engine.Job.{
  Attempt, raised, done, JobResult, AiJob, mark_running, mark_failed, mark_completed, cancel,
}
use ai_microservices.Engine.Orchestrator.{Task, Clock, message_of, fail_job, conclude}
use ai_microservices.Engine.Race.{
  Process, scheduled, loaded, starting, executing, finishing, returned, crashed, interrupted,
  Canceller, idle, holding, accepted, System, prepare, prepared, handled, executed, asked, after,
}

-- completed, failed or cancelled
abbrev pub is_final : Status → Bool
is_final Status.pending = false
is_final Status.running = false
is_final _ = true

abbrev pub HasAccepted : Canceller → Type 0
HasAccepted (accepted j) = Unit
HasAccepted _ = ⊥

-- the coroutine of `process_job` has come to its end, by `return`, by an exception of its own or by
-- the CancelledError of an interruption
abbrev pub HasEnded : Process → Type 0
HasEnded (returned job) = Unit
HasEnded (crashed e) = Unit
HasEnded interrupted = Unit
HasEnded _ = ⊥

abbrev pub IsCancelled : AiJob → Canceller → Type 0
IsCancelled j c = (j.status ≡ Status.cancelled) × HasAccepted c

-- what the stored job and the copy of `process_job` can be
abbrev pub Fits : Process → AiJob → Canceller → Type 0
Fits scheduled k c = (k.status ≡ Status.pending) ⊎ IsCancelled k c
Fits (loaded j) k c =
    (j.status ≡ Status.pending) ⊎ ((j.status ≡ Status.cancelled) × IsCancelled k c)
Fits (starting j) k c = j.status ≡ Status.running
Fits (executing j) k c = j.status ≡ Status.running
Fits (finishing j) k c = is_final j.status ≡ true
Fits (returned j) k c = is_final k.status ≡ true
Fits (crashed e) k c = IsCancelled k c
Fits interrupted k c = HasAccepted c

abbrev pub Holds : Canceller → Type 0
Holds (holding j) = j.status ≡ Status.cancelled
Holds (accepted j) = j.status ≡ Status.cancelled
Holds _ = Unit

abbrev pub IsConsistent : System → Type 0
IsConsistent s = Fits s.process s.stored s.canceller × Holds s.canceller

-- properties of what a call gives
abbrev pub Starts : Attempt AiJob → Type 0
Starts (raised e) = Unit
Starts (done j) = j.status ≡ Status.running

abbrev pub Ends : Attempt AiJob → Type 0
Ends (raised e) = ⊥
Ends (done j) = is_final j.status ≡ true

abbrev pub Refuses : Attempt AiJob → Type 0
Refuses (raised e) = Unit
Refuses (done j) = ⊥

abbrev pub Cancels : Attempt AiJob → Type 0
Cancels (raised e) = Unit
Cancels (done j) = j.status ≡ Status.cancelled

pub mark_running-Starts :
    (t : ℕ) (j : AiJob) (v : Status) → j.status ≡ v → Starts (mark_running t j)
unfolding mark_running
mark_running-Starts t j Status.pending h = simp (mark_running, h) refl
mark_running-Starts t j Status.running h = simp (mark_running, h) tt
mark_running-Starts t j Status.completed h = simp (mark_running, h) tt
mark_running-Starts t j Status.failed h = simp (mark_running, h) tt
mark_running-Starts t j Status.cancelled h = simp (mark_running, h) tt

pub mark_running-Refuses :
    (t : ℕ) (j : AiJob) → j.status ≡ Status.cancelled → Refuses (mark_running t j)
unfolding mark_running
mark_running-Refuses t j h = simp (mark_running, h) tt

module _ (clock : Clock) (shown : Status → String) (now : ℕ) (task : Task) where
  pub cancel-Cancels : (j : AiJob) (v : Status) → j.status ≡ v → Cancels (cancel shown now j)
  unfolding cancel
  cancel-Cancels j Status.pending h = simp (cancel, h) refl
  cancel-Cancels j Status.running h = simp (cancel, h) refl
  cancel-Cancels j Status.completed h = simp (cancel, h) tt
  cancel-Cancels j Status.failed h = simp (cancel, h) tt
  cancel-Cancels j Status.cancelled h = simp (cancel, h) tt

  pub prepare-Starts : (j : AiJob) → Starts (prepare clock shown now task j)
  prepare-Starts j = elim (Attempt-cases (task.validate_payload j.payload)) [
    | inl (e, q) ↦ simp (prepare, q) tt
    | inr (u, q) ↦ simp (prepare, q) (mark_running-Starts clock.started j j.status refl)
  ]

  pub prepare-Refuses :
      (j : AiJob) → j.status ≡ Status.cancelled → Refuses (prepare clock shown now task j)
  prepare-Refuses j h = elim (Attempt-cases (task.validate_payload j.payload)) [
    | inl (e, q) ↦ simp (prepare, q) tt
    | inr (u, q) ↦ simp (prepare, q) (mark_running-Refuses clock.started j h)
  ]

  pub fail_running :
      (m : String) (j : AiJob) → j.status ≡ Status.running → Ends (fail_job clock m j)
  unfolding mark_failed
  fail_running m j h = simp (fail_job, mark_failed, h) refl

  pub conclude-Ends :
      (t : ℕ) (r : JobResult) (j : AiJob) → j.status ≡ Status.running → Ends (conclude t r j)
  unfolding mark_failed mark_completed
  conclude-Ends t r j h = elim (Bool-cases r.success) [
    | inl e ↦ simp (conclude, mark_completed, h, e) refl
    | inr e ↦ simp (conclude, mark_failed, h, e) refl
  ]

  -- a pending copy, and a cancelled one
  pub Fits-pending :
      (j k : AiJob) (c : Canceller) (r : Attempt AiJob)
      → Starts r
      → j.status ≡ Status.pending
      → Fits (prepared clock shown now task j r) k c
  unfolding mark_running mark_failed
  Fits-pending j k c (raised e) s h = simp (prepared, fail_job, mark_running, h) refl
  Fits-pending j k c (done j') s h = s

  pub Fits-cancelled :
      (j k : AiJob) (c : Canceller) (r : Attempt AiJob)
      → Refuses r
      → j.status ≡ Status.cancelled
      → IsCancelled k c
      → Fits (prepared clock shown now task j r) k c
  unfolding mark_failed
  Fits-cancelled j k c (raised e) s h x = simp (prepared, fail_job, mark_failed, h) x
  Fits-cancelled j k c (done j') s h x = absurd s

  pub Fits-executed :
      (k : AiJob) (c : Canceller) (r : Attempt AiJob)
      → Ends r
      → Fits (executed clock shown now task r) k c
  Fits-executed k c (raised e) h = absurd h
  Fits-executed k c (done j) h = h

  pub handled_ended :
      (j : AiJob) (r : Attempt AiJob) → Ends r → Ends (handled clock shown now task j r)
  handled_ended j (raised e) h = absurd h
  handled_ended j (done k) h = h

  pub handled-Ends :
      (j : AiJob) (a : Attempt JobResult)
      → j.status ≡ Status.running
      → Ends (handled clock shown now task j (after clock shown now task j a))
  handled-Ends j (raised e) h = fail_running (message_of e) j h
  handled-Ends j (done r) h =
      handled_ended j (conclude clock.finished r j) (conclude-Ends clock.finished r j h)

  pub Fits-asked : (p : Process) (k : AiJob) (c : Canceller) → Fits p k idle → Fits p k c
  Fits-asked scheduled k c (inl h) = inl h
  Fits-asked scheduled k c (inr h) = absurd h.1
  Fits-asked (loaded j) k c (inl h) = inl h
  Fits-asked (loaded j) k c (inr h) = absurd h.1.1
  Fits-asked (starting j) k c h = h
  Fits-asked (executing j) k c h = h
  Fits-asked (finishing j) k c h = h
  Fits-asked (returned j) k c h = h
  Fits-asked (crashed e) k c h = absurd h.1
  Fits-asked interrupted k c h = absurd h

  pub Fits-confirmed :
      (p : Process) (j k : AiJob)
      → j.status ≡ Status.cancelled
      → Fits p k (holding j)
      → Fits p j (accepted j)
  Fits-confirmed scheduled j k q h = inr (q, tt)
  Fits-confirmed (loaded i) j k q (inl h) = inl h
  Fits-confirmed (loaded i) j k q (inr h) = absurd h.1.1
  Fits-confirmed (starting i) j k q h = h
  Fits-confirmed (executing i) j k q h = h
  Fits-confirmed (finishing i) j k q h = h
  Fits-confirmed (returned i) j k q h = simp q
  Fits-confirmed (crashed e) j k q h = absurd h.1
  Fits-confirmed interrupted j k q h = tt

  pub Holds-asked : (r : Attempt AiJob) → Cancels r → Holds (asked clock shown now task r)
  Holds-asked (raised e) h = tt
  Holds-asked (done j) h = h

  pub Fits-begun :
      (j k : AiJob) (c : Canceller)
      → Fits (loaded j) k c
      → Fits (prepared clock shown now task j (prepare clock shown now task j)) k c
  Fits-begun j k c (inl h) =
      Fits-pending j k c (prepare clock shown now task j) (prepare-Starts j) h
  Fits-begun j k c (inr (h, x)) =
      Fits-cancelled j k c (prepare clock shown now task j) (prepare-Refuses j h) h x

  pub Fits-loaded : (j : AiJob) (c : Canceller) → Fits scheduled j c → Fits (loaded j) j c
  Fits-loaded j c (inl h) = inl h
  Fits-loaded j c (inr h) = inr (h.0, h)
