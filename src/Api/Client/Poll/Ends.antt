-- ===== src/Api/Client/Poll/Ends.antt =====
-- The loop of `poll_until_complete` ends.
use mathlib.Core.Path.{subst}
use ai_microservices.Base.{
  String, ℕ, zero, suc, ◌+◌, ◌*◌, ◌≡◌, true, arith, ltb, leb, if◌then◌else◌, refl, ◌≢◌, inl, inr,
  false, Bool-cases, sym, ◌∙◌, ◌⊎◌, Option,
}
use ai_microservices.Api.Client.{Client}
use ai_microservices.Api.Client.Poll.{
  World, Turn, finished, stopped, sleeps_longer, sleeps, turn, poll, backoff, out_of_fuel,
  poll_until_complete, or_default,
}

-- the shorter of the interval and five seconds
abbrev pub shortest : ℕ → ℕ
shortest interval = if ltb 5000000 interval then 5000000 else interval

module _ (c : Client) (w : World) (job_id : String) where
  abbrev after : Turn → ℕ → ℕ
  after sleeps_longer interval = backoff w interval
  after t interval = interval

  -- the interval at a turn, had the loop come so far
  abbrev pub interval_at : ℕ → ℕ → ℕ
  interval_at first zero = first
  interval_at first (suc n) = after (turn c job_id (w.reply n)) (interval_at first n)

  after_short : (t : Turn) (i : ℕ) → leb i 5000000 ≡ true → leb (after t i) 5000000 ≡ true
  after_short sleeps_longer i h = ground arith
  after_short sleeps i h = h
  after_short (finished r) i h = h
  after_short (stopped e) i h = h

  -- An interval that starts with five seconds or less stays so.
  pub interval_short :
      (first : ℕ) → leb first 5000000 ≡ true → (n : ℕ) → leb (interval_at first n) 5000000 ≡ true
  interval_short first h zero = h
  interval_short first h (suc n) =
      after_short (turn c job_id (w.reply n)) (interval_at first n) (interval_short first h n)

  -- the product by 1.5 is no less, and a turn that sleeps takes as long as it sleeps
  pub record TakesTime (first : ℕ) : Type 0 where
    pub grows : (i : ℕ) → leb i (w.half_as_much_again i) ≡ true
    pub started : leb w.start_time (w.clock 0) ≡ true
    pub passes : (n : ℕ) → leb (w.clock n + interval_at first n) (w.clock (suc n)) ≡ true

  module _ (first : ℕ) (law : TakesTime first) where
    backoff_long : (i m : ℕ) → leb m i ≡ true → leb m 5000000 ≡ true → leb m (backoff w i) ≡ true
    backoff_long i m h k = ground (arith, law.grows i, h, k)

    after_long :
        (t : Turn) (i m : ℕ) → leb m i ≡ true → leb m 5000000 ≡ true → leb m (after t i) ≡ true
    after_long sleeps_longer i m h k = backoff_long i m h k
    after_long sleeps i m h k = h
    after_long (finished r) i m h k = h
    after_long (stopped e) i m h k = h

    interval_long :
        (m : ℕ)
        → leb m first ≡ true
        → leb m 5000000 ≡ true
        → (n : ℕ) → leb m (interval_at first n) ≡ true
    interval_long m h k zero = h
    interval_long m h k (suc n) =
        after_long (turn c job_id (w.reply n)) (interval_at first n) m (interval_long m h k n) k

    clock_late :
        (m : ℕ)
        → leb m first ≡ true
        → leb m 5000000 ≡ true
        → (n : ℕ) → leb (w.start_time + n * m) (w.clock n) ≡ true
    clock_late m h k zero = ground (arith, law.started)
    clock_late m h k (suc n) =
        ground (arith, law.passes n, clock_late m h k n, interval_long m h k n)

    module _ (timeout : ℕ) where
      -- one turn: the loop ends, or it goes on with the next turn
      one_turn :
          (fuel n : ℕ)
          → (poll c w job_id timeout (suc fuel) n (interval_at first n) ≢ out_of_fuel)
            ⊎ ((ltb (w.start_time + timeout) (w.clock n) ≡ false)
                × (poll c w job_id timeout (suc fuel) n (interval_at first n)
                    ≡ poll c w job_id timeout fuel (suc n) (interval_at first (suc n))))
      unfolding poll
      one_turn fuel n = elim (Bool-cases (ltb (w.start_time + timeout) (w.clock n))) [
        | inl late ↦ inl (λ p. cc (simp (poll, late) at p))
        | inr early ↦ go (turn c job_id (w.reply n)) refl early
      ]
        where
          go :
              (t : Turn)
              → turn c job_id (w.reply n) ≡ t
              → ltb (w.start_time + timeout) (w.clock n) ≡ false
              → (poll c w job_id timeout (suc fuel) n (interval_at first n) ≢ out_of_fuel)
                ⊎ ((ltb (w.start_time + timeout) (w.clock n) ≡ false)
                    × (poll c w job_id timeout (suc fuel) n (interval_at first n)
                        ≡ poll c w job_id timeout fuel (suc n) (interval_at first (suc n))))
          go (finished r) e early = inl (λ p. cc (simp (poll, early, e) at p))
          go (stopped f) e early = inl (λ p. cc (simp (poll, early, e) at p))
          go sleeps_longer e early = inr (early, simp (poll, early, e))
          go sleeps e early = inr (early, simp (poll, early, e))

      -- with fuel for the turns up to `last`, by which the time is over
      loop_ends :
          (m : ℕ)
          → leb m first ≡ true
          → leb m 5000000 ≡ true
          → (fuel n last : ℕ) → n + fuel ≡ last
          → ltb timeout (last * m) ≡ true
          → poll c w job_id timeout (suc fuel) n (interval_at first n) ≢ out_of_fuel
      loop_ends m short bounded zero n last up over = elim (one_turn zero n) [
        | inl ends ↦ ends
        | inr (early, q) ↦
            let same : n ≡ last = ground (arith, up) in
            let late =
              subst (λ k. leb (w.start_time + k * m) (w.clock n) ≡ true) same
                (clock_late m short bounded n) in
            absurd (ground (arith, late, over, early))
      ]
      loop_ends m short bounded (suc k) n last up over = elim (one_turn (suc k) n) [
        | inl ends ↦ ends
        | inr (early, q) ↦
            λ p. loop_ends m short bounded k (suc n) last (ground (arith, up)) over (sym q ∙ p)
      ]

-- Polling comes to an end, a result or an exception, whatever the worker answers: where the product of an interval by 1.5 is
-- no less than the interval and the clock runs on by what the loop sleeps, it takes no more turns than
-- one after the timeout is over, counted in the shorter of the first interval and five seconds.
pub poll_until_complete_ends :
    (c : Client) (w : World) (job_id : String) (timeout poll_interval : Option ℕ) (turns : ℕ)
    → TakesTime c w job_id (or_default poll_interval c.poll_interval)
    → ltb
        (or_default timeout c.timeout)
        (turns * shortest (or_default poll_interval c.poll_interval))
      ≡ true
    → poll_until_complete c w job_id timeout poll_interval (suc turns) ≢ out_of_fuel
unfolding poll_until_complete
poll_until_complete_ends c w job_id timeout poll_interval turns law over =
    loop_ends c w job_id (or_default poll_interval c.poll_interval) law
      (or_default timeout c.timeout) (shortest (or_default poll_interval c.poll_interval))
      (ground arith) (ground arith) turns 0 turns (ground arith) over
