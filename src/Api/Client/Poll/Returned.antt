-- ===== src/Api/Client/Poll/Returned.antt =====
-- What `poll_until_complete` returns, and what it gives up on.
use ai_microservices.Base.Text.Search.{mentions}
use ai_microservices.Api.Client.Poll.Messages.{handled_failed, mentions-append}
use mathlib.Core.Path.{subst}
use Prim.Native.String.{◌++◌}
use ai_microservices.Base.{
  String, ℕ, ◌≡◌, refl, true, suc, ◌+◌, ap, ◌∙◌, false, arith, ltb, zero, ◌≢◌, ◌⊎◌, inl, inr, ◌||◌,
  leb, Bool-cases, Option,
}
use ai_microservices.Api.Client.{
  Client, JobResult, request_error, Failure, value_error, returned, raised, status_of, Call,
}
use ai_microservices.Api.Client.Poll.{
  World, Turn, finished, stopped, sleeps_longer, sleeps, turn, poll, polled, gave_up,
  poll_until_complete, or_default, is_status, examined, turn_of, handled, backoff,
}

Turn-cases :
    (t : Turn)
    → ((r : JobResult) × (t ≡ finished r))
      ⊎ (((f : Failure) × (t ≡ stopped f)) ⊎ ((t ≡ sleeps) ⊎ (t ≡ sleeps_longer)))
Turn-cases (finished r) = inl (r, refl)
Turn-cases (stopped f) = inr (inl (f, refl))
Turn-cases sleeps = inr (inr (inl refl))
Turn-cases sleeps_longer = inr (inr (inr refl))

module _ (c : Client) (w : World) (job_id : String) where
  -- Every RequestException of a request for the status, a lost connection among them, ends the polling
  -- at that turn, unless the time is over: it is raised as a ValueError, and there is no second try.
  pub request_error_raised :
      (timeout fuel n interval : ℕ) (e : String)
      → ltb (w.start_time + timeout) (w.clock n) ≡ false
      → w.reply n ≡ request_error e
      → poll c w job_id timeout (suc fuel) n interval
        ≡ gave_up (value_error ("Failed to get job status: " ++ e))
  unfolding poll
  request_error_raised timeout fuel n interval e early q = simp (
    poll,
    early,
    q,
    handled_failed ("Failed to get job status: " ++ e)
        (mentions-append "failed" "Failed to get job status: " e refl),
  )

  handled_unfinished : (f : Failure) (r : JobResult) → handled f ≢ finished r
  handled_unfinished (value_error m) r p =
      elim (Bool-cases (mentions "failed" m || mentions "cancelled" m)) [
        | inl e ↦ cc (simp (handled, e) at p)
        | inr e ↦ elim (Bool-cases (mentions "job not found" m)) [
          | inl q ↦ cc (simp (handled, e, q) at p)
          | inr q ↦ cc (simp (handled, e, q) at p)
        ]
      ]
  handled_unfinished f r p = cc

  examined_finished :
      (r r' : JobResult)
      → examined c job_id r ≡ finished r'
      → (r ≡ r') × (is_status c job_id "completed" r.status ≡ true)
  examined_finished r r' h = elim (Bool-cases (is_status c job_id "completed" r.status)) [
    | inl a ↦ (cc (simp (examined, a) at h), a)
    | inr a ↦ elim (Bool-cases (is_status c job_id "failed" r.status)) [
      | inl b ↦ absurd (
          handled_unfinished (value_error ("Job failed: " ++ c.show r.error)) r'
            (simp (examined, a, b) at h))
      | inr b ↦ elim (Bool-cases (is_status c job_id "cancelled" r.status)) [
        | inl d ↦ absurd (
            handled_unfinished (value_error "Job was cancelled") r' (simp (examined, a, b, d) at h))
        | inr d ↦ cc (simp (examined, a, b, d) at h)
      ]
    ]
  ]

  call_finished :
      (x : Call JobResult) (r : JobResult)
      → turn_of c job_id x ≡ finished r
      → (x ≡ returned r) × (is_status c job_id "completed" r.status ≡ true)
  call_finished (raised f) r h = absurd (handled_unfinished f r h)
  call_finished (returned r') r h =
      let (same, ended) = examined_finished r' r h in
      (
        ap (λ q. returned q) same,
        subst (λ q. is_status c job_id "completed" q.status ≡ true) same ended,
      )

  -- the turn at which the loop returned, and those before it
  pub record IsPolled (timeout first last : ℕ) (r : JobResult) : Type 0 where
    pub at : ℕ
    pub from : leb first at ≡ true
    pub upto : ltb at last ≡ true
    pub answer : status_of c job_id (w.reply at) ≡ returned r
    pub completed : is_status c job_id "completed" r.status ≡ true
    pub in_time :
        (i : ℕ)
        → leb first i ≡ true
        → leb i at ≡ true
        → ltb (w.start_time + timeout) (w.clock i) ≡ false
    pub waited :
        (i : ℕ)
        → leb first i ≡ true
        → ltb i at ≡ true
        → (turn c job_id (w.reply i) ≡ sleeps) ⊎ (turn c job_id (w.reply i) ≡ sleeps_longer)

  extended :
      (timeout n last : ℕ) (r : JobResult)
      → ltb (w.start_time + timeout) (w.clock n) ≡ false
      → (turn c job_id (w.reply n) ≡ sleeps) ⊎ (turn c job_id (w.reply n) ≡ sleeps_longer)
      → IsPolled timeout (suc n) last r
      → IsPolled timeout n last r
  extended timeout n last r early waits p = record {
    at = p.at;
    from = ground (arith, p.from);
    upto = p.upto;
    answer = p.answer;
    completed = p.completed;
    in_time = λ i a b. elim (Bool-cases (leb (suc n) i)) [
      | inl x ↦ p.in_time i x b
      | inr x ↦
          let same : n ≡ i = ground (arith, a, x) in
          subst (λ k. ltb (w.start_time + timeout) (w.clock k) ≡ false) same early
    ];
    waited = λ i a b. elim (Bool-cases (leb (suc n) i)) [
      | inl x ↦ p.waited i x b
      | inr x ↦
          let same : n ≡ i = ground (arith, a, x) in
          subst
            (λ k.
              (turn c job_id (w.reply k) ≡ sleeps) ⊎ (turn c job_id (w.reply k) ≡ sleeps_longer))
            same waits
    ];
  }

  loop_polled :
      (timeout fuel n interval : ℕ) (r : JobResult)
      → poll c w job_id timeout fuel n interval ≡ polled r
      → IsPolled timeout n (n + fuel) r
  unfolding poll
  loop_polled timeout zero n interval r h = cc
  loop_polled timeout (suc fuel) n interval r h =
      let further = λ (i : ℕ) (p : poll c w job_id timeout fuel (suc n) i ≡ polled r).
        loop_polled timeout fuel (suc n) i r p in
      elim (Bool-cases (ltb (w.start_time + timeout) (w.clock n))) [
        | inl late ↦ cc (simp (poll, late) at h)
        | inr early ↦ elim (Turn-cases (turn c job_id (w.reply n))) [
          | inl (r', e) ↦
              let same : r' ≡ r = cc (simp (poll, early, e) at h) in
              let (answer, completed) =
                call_finished (status_of c job_id (w.reply n)) r (e ∙ ap (λ q. finished q) same) in
              record {
                at = n;
                from = ground arith;
                upto = ground arith;
                answer = answer;
                completed = completed;
                in_time = λ i a b.
                    let k : n ≡ i = ground (arith, a, b) in
                    subst (λ k. ltb (w.start_time + timeout) (w.clock k) ≡ false) k early;
                waited = λ i a b. absurd (ground (arith, a, b));
              }
          | inr (inl (f, e)) ↦ cc (simp (poll, early, e) at h)
          | inr (inr (inl e)) ↦
              let p : IsPolled timeout (suc n) (suc n + fuel) r =
                further interval (simp (poll, early, e) at h) in
              subst (λ k. IsPolled timeout n k r) (ground arith)
                (extended timeout n (suc n + fuel) r early (inl e) p)
          | inr (inr (inr e)) ↦
              let p : IsPolled timeout (suc n) (suc n + fuel) r =
                further (backoff w interval) (simp (poll, early, e) at h) in
              subst (λ k. IsPolled timeout n k r) (ground arith)
                (extended timeout n (suc n + fuel) r early (inr e) p)
        ]
      ]

-- A result that polling returns is what the worker answered at one of its turns, with the status
-- completed; the time was not over at that turn or before, and at every earlier turn the loop slept and
-- went on.
pub poll_until_complete_polled :
    (c : Client) (w : World) (job_id : String) (timeout poll_interval : Option ℕ) (fuel : ℕ)
    (r : JobResult)
    → poll_until_complete c w job_id timeout poll_interval fuel ≡ polled r
    → IsPolled c w job_id (or_default timeout c.timeout) 0 fuel r
unfolding poll_until_complete
poll_until_complete_polled c w job_id timeout poll_interval fuel r h =
    subst (λ k. IsPolled c w job_id (or_default timeout c.timeout) 0 k r) (ground arith)
      (loop_polled c w job_id (or_default timeout c.timeout) fuel 0
        (or_default poll_interval c.poll_interval) r h)
