-- ===== src/LiveConnection/Recovery.antt =====
-- What a lost connection leads to in frontend/src/liveConnection.ts: a retry, and a new socket.
use tether_ddns.Prelude.{◌+◌, ◌≡◌, Bool, true, false, none, some, arith, if◌then◌else◌}
use tether_ddns.LiveConnection.State.{connecting, reconnecting, retry, World, Env}
use tether_ddns.LiveConnection.Backoff.{next_delay}
use tether_ddns.LiveConnection.Handlers.{handle_drop, retry_fires}
use tether_ddns.LiveConnection.Events.{fires, step}

module _ {A : Type 0} where
  -- A drop on a running connection with no retry pending schedules exactly one, after the delay
  -- that `nextDelay` gives for the attempts so far, and counts the attempt.
  pub handle_drop_schedules :
      (env : Env) (w : World A)
      → w.stopped ≡ false
      → w.retry_timer ≡ none
      → let v = handle_drop env w in
        (v.socket ≡ none)
        × (v.retry_timer ≡ some w.next_timer)
        × (v.timers w.next_timer ≡ some (retry (next_delay w.options env.random w.attempt)))
        × (v.attempt ≡ w.attempt + 1)
        × (v.status_value ≡ (if w.has_connected then reconnecting else connecting))
        × (v.stopped ≡ false)
        × (v.created ≡ w.created)
  unfolding handle_drop
  handle_drop_schedules env w run idle = ground arith

  -- A running connection with no retry pending recovers from a drop: when the timer that the drop
  -- has set fires, at any later time, a new socket that is still connecting, with its handlers
  -- set, is the current one, no retry is pending, and that timer is gone.
  pub drop_recovers :
      (env later : Env) (w : World A) (throws : Bool)
      → w.stopped ≡ false
      → w.retry_timer ≡ none
      → let u = step later (fires w.next_timer throws) (handle_drop env w) in
        (u.socket ≡ some w.created)
        × ((u.sockets w.created).attached ≡ true)
        × ((u.sockets w.created).ready_state ≡ 0)
        × (u.retry_timer ≡ none)
        × (u.timers w.next_timer ≡ none)
  unfolding step retry_fires
  drop_recovers env later w throws run idle = ground (arith, handle_drop_schedules env w run idle)
