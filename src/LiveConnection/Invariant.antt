-- ===== src/LiveConnection/Invariant.antt =====
-- What holds of a `LiveConnection` (frontend/src/liveConnection.ts) after every event: it is
-- always on its way to a connection unless it was stopped.
use tether_ddns.Prelude.{
  ℕ, ◌≡◌, Bool, true, false, not, ◌&&◌, ◌||◌, Option, none, some, List, [], ◌∷◌, arith,
}
use tether_ddns.LiveConnection.State.{
  Frame, parsed, malformed, Timer, retry, ping, watchdog, World, Env, LiveConnectionOptions,
  Location, new_connection, new_browser,
}
use tether_ddns.LiveConnection.Handlers.{
  is_some, connect, handle_open, handle_message, handle_drop, send_ping, check_stale, clear_retry,
  resume, start, stop, retry_fires,
}
use tether_ddns.LiveConnection.Events.{
  Event, starts, stops, ready_state, opens, closes, errors, message, fires, visibilitychange,
  pageshow, online, fire, step, run,
}

module _ {A : Type 0} where
  pub record Inv (w : World A) : Type 0 where
    pub stopped_socket : w.stopped ≡ true → is_some w.socket ≡ false
    pub stopped_retry : w.stopped ≡ true → is_some w.retry_timer ≡ false
    pub one_way : is_some w.retry_timer ≡ true → is_some w.socket ≡ false
    pub under_way : w.stopped ≡ false → (is_some w.socket || is_some w.retry_timer) ≡ true

  handle_open-Inv : (env : Env) (w : World A) → Inv w → Inv (handle_open env w)
  unfolding handle_open
  handle_open-Inv env w v = ground arith

  handle_message-Inv :
      (env : Env) (f : Frame A) (w : World A) → Inv w → Inv (handle_message env f w)
  unfolding handle_message
  handle_message-Inv env (parsed e) w v = ground arith
  handle_message-Inv env malformed w v = ground arith

  handle_drop-Inv : (env : Env) (w : World A) → Inv w → Inv (handle_drop env w)
  unfolding handle_drop
  handle_drop-Inv env w v = ground arith

  send_ping-Inv : (env : Env) (throws : Bool) (w : World A) → Inv w → Inv (send_ping env throws w)
  unfolding send_ping
  send_ping-Inv env throws w v = ground (arith, handle_drop-Inv env w v)

  check_stale-Inv : (env : Env) (w : World A) → Inv w → Inv (check_stale env w)
  unfolding check_stale
  check_stale-Inv env w v = ground (arith, handle_drop-Inv env w v)

  resume-Inv : (env : Env) (w : World A) → Inv w → Inv (resume env w)
  unfolding resume check_stale clear_retry connect
  resume-Inv env w v = ground arith

  start-Inv : (w : World A) → Inv w → Inv (start w)
  unfolding start
  start-Inv w v = ground arith

  stop-Inv : (w : World A) → Inv w → Inv (stop w)
  unfolding stop
  stop-Inv w v = ground arith

  retry_fires-Inv : (t : ℕ) (w : World A) → Inv w → Inv (retry_fires t w)
  unfolding retry_fires
  retry_fires-Inv t w v = ground arith

  fire-Inv :
      (env : Env) (t : ℕ) (throws : Bool) (o : Option Timer) (w : World A)
      → Inv w
      → Inv (fire env t throws o w)
  fire-Inv env t throws none w v = v
  fire-Inv env t throws (some (retry d)) w v = retry_fires-Inv t w v
  fire-Inv env t throws (some (ping d)) w v = send_ping-Inv env throws w v
  fire-Inv env t throws (some (watchdog d)) w v = check_stale-Inv env w v

  pub step-Inv : (env : Env) (e : Event A) (w : World A) → Inv w → Inv (step env e w)
  unfolding step
  step-Inv env starts w v = start-Inv w v
  step-Inv env stops w v = stop-Inv w v
  step-Inv env (ready_state i r) w v = ground arith
  step-Inv env (opens i) w v = ground (arith, handle_open-Inv env w v)
  step-Inv env (closes i) w v = ground (arith, handle_drop-Inv env w v)
  step-Inv env (errors i) w v = ground (arith, handle_drop-Inv env w v)
  step-Inv env (message i f) w v = ground (arith, handle_message-Inv env f w v)
  step-Inv env (fires t throws) w v = fire-Inv env t throws (w.timers t) w v
  step-Inv env (visibilitychange visible) w v = ground (arith, resume-Inv env w v)
  step-Inv env pageshow w v = ground (arith, resume-Inv env w v)
  step-Inv env online w v = ground (arith, resume-Inv env w v)

  pub run-Inv : (w : World A) (es : List (Env × Event A)) → Inv w → Inv (run w es)
  unfolding run
  run-Inv w [] v = v
  run-Inv w ((env, e) ∷ es) v = run-Inv (step env e w) es (step-Inv env e w v)

  -- A connection that nobody has started, on a new page.
  abbrev pub fresh : LiveConnectionOptions → Location → World A
  fresh o at = record { conn = new_connection o; dom = new_browser at }

  one_of_two :
      (w : World A)
      → Inv w
      → ((is_some w.socket || is_some w.retry_timer) ≡ not w.stopped)
        × ((is_some w.socket && is_some w.retry_timer) ≡ false)
  one_of_two w v = ground (arith, v.stopped_socket, v.stopped_retry, v.one_way, v.under_way)

  -- After any events whatever, a connection that has not been stopped holds a socket or waits for
  -- a retry, and one that is stopped does neither. None does both.
  pub always_under_way :
      (o : LiveConnectionOptions) (at : Location) (es : List (Env × Event A))
      → let w = run (fresh o at) es in
        ((is_some w.socket || is_some w.retry_timer) ≡ not w.stopped)
        × ((is_some w.socket && is_some w.retry_timer) ≡ false)
  always_under_way o at es =
      one_of_two (run (fresh o at) es) (run-Inv (fresh o at) es (ground arith))
