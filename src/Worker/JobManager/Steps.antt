-- ===== src/Worker/JobManager/Steps.antt =====
-- The steps that the methods of the job manager make, against the diagram of transitions.
use ai_microservices.Base.{
  ℕ, String, ◌≡◌, refl, sym, inl, inr, true, Option, some, arith, eq_iff, Bool-cases, ◌==◌, nat_eq,
  string_eq, pair_eq, ==_refl, contains, List,
}
use ai_microservices.Base.Dict.{lookup-insert}
use ai_microservices.Base.Value.{Fields}
use ai_microservices.Api.Status.Diagram.{Status, name, Edge}
use ai_microservices.Worker.JobManager.{
  Job, JobManager, get_job, put_job, start_job, complete_job, fail_job, cancel_job,
  update_job_status, updated_job, next_states, Published,
}
use ai_microservices.Worker.JobManager.Calls.{Call, perform, start, cancel, complete, fail, update}

-- The diagram, and two steps more: `complete_job` and `fail_job` do not ask for a running job.
pub data Move : Status → Status → Type 0 where
  edge : {s t : Status} → Edge s t → Move s t
  complete_pending : Move Status.pending Status.completed
  fail_pending : Move Status.pending Status.failed

get-put_self :
    (job_id : String) (j : Job) (m : JobManager) → get_job job_id (put_job job_id j m) ≡ some j
unfolding get_job put_job
get-put_self job_id j m = simp (lookup-insert, ==_refl)

get-put_pub :
    (job_id : String) (j : Job) (m : JobManager) (ps : List Published)
    → get_job job_id (record (put_job job_id j m) { published = ps }) ≡ some j
unfolding get_job
get-put_pub job_id j m ps = get-put_self job_id j m

next_states-Edge :
    (s : Status) (r : String)
    → contains (next_states (name s)) r ≡ true
    → (t : Status) × Edge s t × (r ≡ name t)
next_states-Edge Status.pending r h = elim (Bool-cases ("running" == r)) [
  | inl e ↦ (Status.running, Edge.start, sym ((eq_iff "running" r).0 e))
  | inr e ↦ (Status.cancelled, Edge.withdraw, sym ((eq_iff "cancelled" r).0 (ground arith)))
]
next_states-Edge Status.running r h = elim (Bool-cases ("completed" == r)) [
  | inl e ↦ (Status.completed, Edge.complete, sym ((eq_iff "completed" r).0 e))
  | inr e ↦ elim (Bool-cases ("failed" == r)) [
    | inl f ↦ (Status.failed, Edge.fail, sym ((eq_iff "failed" r).0 f))
    | inr f ↦ (Status.cancelled, Edge.cancel, sym ((eq_iff "cancelled" r).0 (ground arith)))
  ]
]
next_states-Edge _ r h = cc

-- the job after a call, at a status that the diagram knows
abbrev pub Stepped : (Status → Status → Type 0) → Status → String → JobManager → Type 0
Stepped R s job_id m =
    (t : Status) × R s t × (job : Job) × (get_job job_id m ≡ some job) × (job.status ≡ name t)

module _ (now : ℕ) (job_id : String) (m : JobManager) (job : Job)
    (found : get_job job_id m ≡ some job) where
  -- An update of the status that returns True follows the diagram.
  pub update_follows_Edge :
      (s : Status) (status : String) (r : Option Fields) (e : Option String)
      → job.status ≡ name s
      → (update_job_status now job_id status r e m).0 ≡ true
      → Stepped Edge s job_id (update_job_status now job_id status r e m).1
  unfolding update_job_status
  update_follows_Edge s status r e p h =
      elim (Bool-cases (contains (next_states job.status) status)) [
        | inr n ↦ cc (simp (found, n, update_job_status) at h)
        | inl y ↦
            let (t, g, q) = next_states-Edge s status (rw (← p) y) in
            (
              t,
              g,
              updated_job now status r e job,
              simp (found, y, update_job_status) (get-put_self job_id _ m),
              unfold updated_job in q,
            )
      ]

  -- A call that returns True on a job in one of the five statuses leaves it in one of them, by a step
  -- of the diagram or by completing or failing a job that was still pending.
  pub perform_follows_Move :
      (c : Call) (s : Status)
      → job.status ≡ name s
      → (perform c now job_id m).0 ≡ true
      → Stepped Move s job_id (perform c now job_id m).1
  unfolding start_job cancel_job complete_job fail_job
  perform_follows_Move start Status.pending p h = (
    Status.running,
    Move.edge Edge.start,
    record job { status = "running"; started_at = some now },
    simp (found, p, start_job) (get-put_self job_id _ m),
    refl,
  )
  perform_follows_Move cancel Status.pending p h = (
    Status.cancelled,
    Move.edge Edge.withdraw,
    record job { status = "cancelled"; completed_at = some now },
    simp (found, p, cancel_job) (get-put_self job_id _ m),
    refl,
  )
  perform_follows_Move cancel Status.running p h = (
    Status.cancelled,
    Move.edge Edge.cancel,
    record job { status = "cancelled"; completed_at = some now },
    simp (found, p, cancel_job) (get-put_self job_id _ m),
    refl,
  )
  perform_follows_Move (complete r) Status.pending p h = (
    Status.completed,
    Move.complete_pending,
    record job { status = "completed"; result = some r; completed_at = some now },
    simp (found, p, complete_job) (get-put_pub job_id _ m _),
    refl,
  )
  perform_follows_Move (complete r) Status.running p h = (
    Status.completed,
    Move.edge Edge.complete,
    record job { status = "completed"; result = some r; completed_at = some now },
    simp (found, p, complete_job) (get-put_pub job_id _ m _),
    refl,
  )
  perform_follows_Move (fail e) Status.pending p h = (
    Status.failed,
    Move.fail_pending,
    record job { status = "failed"; error = some e; completed_at = some now },
    simp (found, p, fail_job) (get-put_pub job_id _ m _),
    refl,
  )
  perform_follows_Move (fail e) Status.running p h = (
    Status.failed,
    Move.edge Edge.fail,
    record job { status = "failed"; error = some e; completed_at = some now },
    simp (found, p, fail_job) (get-put_pub job_id _ m _),
    refl,
  )
  perform_follows_Move (update x r e) s p h =
      let (t, g, k, found_k, q) = update_follows_Edge s x r e p h in (t, Move.edge g, k, found_k, q)
  perform_follows_Move start Status.running p h = cc (simp (found, p, start_job) at h)
  perform_follows_Move _ _ p h =
      cc (simp (found, p, start_job, cancel_job, complete_job, fail_job) at h)
