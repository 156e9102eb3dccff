-- ===== src/Api/Client/Poll.antt =====
-- `poll_until_complete` of services/api_service/src/infrastructure/external/ai_worker_client.py. A time is
-- a number of microseconds. What the clock says and what the request for the status comes to at each
-- turn of the loop are arguments, and so is the product of a float by 1.5. The loop is on fuel.
pub mod Messages
pub mod Ends
pub mod Returned
use ai_microservices.Base.Text.Search.{mentions}
use Prim.Native.Char.{code}
use Prim.Native.String.{◌++◌}
use ai_microservices.Base.{
  String, ℕ, Bool, zero, suc, ◌+◌, true, false, not, ◌&&◌, ◌||◌, Option, none, some, ltb, leb,
  if◌then◌else◌, nat_eq, string_eq, ◌==◌, pair_eq, [],
}
use ai_microservices.Base.Value.{text, Value}
use ai_microservices.Api.Client.{
  Client, JobResult, Exchange, Failure, value_error, timeout_error, Call, returned, raised,
  status_of,
}

-- what a turn of the loop comes to
pub data Turn : Type 0 where
  finished : JobResult → Turn
  stopped : Failure → Turn
  -- it sleeps, and the interval grows or stays
  sleeps_longer : Turn
  sleeps : Turn

-- the handlers of the exceptions
abbrev pub handled : Failure → Turn
handled (value_error message) =
    if mentions "failed" message || mentions "cancelled" message
    then stopped (value_error message)
    else if not (mentions "job not found" message)
    then stopped (value_error message)
    else sleeps
handled e = stopped e

module _ (c : Client) (job_id : String) where
  abbrev pub is_status : String → Value → Bool
  is_status s (text t) = s == t
  is_status s v = false

  abbrev pub examined : JobResult → Turn
  examined result =
      if is_status "completed" result.status
      then finished result
      else if is_status "failed" result.status
      then handled (value_error ("Job failed: " ++ c.show result.error))
      else if is_status "cancelled" result.status
      then handled (value_error "Job was cancelled")
      else sleeps_longer

  abbrev pub turn_of : Call JobResult → Turn
  turn_of (returned result) = examined result
  turn_of (raised e) = handled e

  abbrev pub turn : Exchange → Turn
  turn e = turn_of (status_of c job_id e)

pub data Polled : Type 0 where
  polled : JobResult → Polled
  gave_up : Failure → Polled
  out_of_fuel : Polled

-- what the loop meets, turn by turn
pub record World : Type 0 where
  pub start_time : ℕ
  pub clock : ℕ → ℕ
  pub reply : ℕ → Exchange
  pub half_as_much_again : ℕ → ℕ

-- `min(current_interval * 1.5, 5.0)`
abbrev pub backoff : World → ℕ → ℕ
backoff w interval =
    if ltb 5000000 (w.half_as_much_again interval) then 5000000 else w.half_as_much_again interval

-- `value or default`
abbrev pub or_default : Option ℕ → ℕ → ℕ
or_default none default = default
or_default (some value) default = if value == 0 then default else value

module _ (c : Client) (w : World) (job_id : String) (timeout : ℕ) where
  -- the loop, from its turn `n` on
  unfoldable pub poll : ℕ → ℕ → ℕ → Polled
  poll zero n interval = out_of_fuel
  poll (suc fuel) n interval =
      if ltb (w.start_time + timeout) (w.clock n)
      then gave_up timeout_error
      else elim (turn c job_id (w.reply n)) [
        | finished result ↦ polled result
        | stopped e ↦ gave_up e
        | sleeps_longer ↦ poll fuel (suc n) (backoff w interval)
        | sleeps ↦ poll fuel (suc n) interval
      ]

unfoldable pub poll_until_complete : Client → World → String → Option ℕ → Option ℕ → ℕ → Polled
poll_until_complete c w job_id timeout poll_interval fuel =
    poll c w job_id (or_default timeout c.timeout) fuel 0 (or_default poll_interval c.poll_interval)
