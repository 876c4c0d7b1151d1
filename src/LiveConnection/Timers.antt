-- ===== src/LiveConnection/Timers.antt =====
-- Timers of a `LiveConnection` (frontend/src/liveConnection.ts): none is lost and none is leaked.
use tether_ddns.Prelude.{
  ℕ, ◌+◌, ◌≤◌, ◌≡◌, refl, Bool, true, false, Option, none, some, List, [], ◌∷◌, arith, nat_beq,
}
use tether_ddns.LiveConnection.State.{
  Frame, parsed, malformed, Timer, retry, ping, watchdog, World, Env, LiveConnectionOptions,
  Location,
}
use tether_ddns.LiveConnection.Handlers.{
  connect, stop_timers, start_timers, schedule_reconnect, handle_open, handle_message, handle_drop,
  send_ping, check_stale, clear_retry, resume, start, stop, retry_fires,
}
use tether_ddns.LiveConnection.Events.{
  Event, starts, stops, ready_state, opens, closes, errors, message, fires, visibilitychange,
  pageshow, online, fire, step, run,
}
use tether_ddns.LiveConnection.Invariant.{fresh}

abbrev pub is_retry : Option Timer → Bool
is_retry (some (retry _)) = true
is_retry _ = false

abbrev pub is_ping : Option Timer → Bool
is_ping (some (ping _)) = true
is_ping _ = false

abbrev pub is_watchdog : Option Timer → Bool
is_watchdog (some (watchdog _)) = true
is_watchdog _ = false

abbrev pub points : Option ℕ → ℕ → Bool
points none t = false
points (some u) t = nat_beq u t

module _ {A : Type 0} where
  -- At each number `t`: a timer runs there exactly if the field of its kind holds `t`.
  pub record OwnsTimer (w : World A) (t : ℕ) : Type 0 where
    pub retry_owned : is_retry (w.timers t) ≡ points w.retry_timer t
    pub ping_owned : is_ping (w.timers t) ≡ points w.ping_timer t
    pub watchdog_owned : is_watchdog (w.timers t) ≡ points w.watchdog_timer t
    pub unborn : w.next_timer ≤ t → w.timers t ≡ none

  abbrev pub OwnsTimers : World A → Type 0
  OwnsTimers w = (t : ℕ) → OwnsTimer w t

  stop_timers-OwnsTimers : (w : World A) → OwnsTimers w → OwnsTimers (stop_timers w)
  unfolding stop_timers
  stop_timers-OwnsTimers w h t = ground (arith, h t)

  start_timers-OwnsTimers :
      (env : Env) (w : World A) → OwnsTimers w → OwnsTimers (start_timers env w)
  unfolding start_timers
  start_timers-OwnsTimers env w h t = ground (arith, h t, h w.next_timer, h (w.next_timer + 1))

  schedule_reconnect-OwnsTimers :
      (env : Env) (w : World A) → OwnsTimers w → OwnsTimers (schedule_reconnect env w)
  unfolding schedule_reconnect
  schedule_reconnect-OwnsTimers env w h t = ground (arith, h t, h w.next_timer)

  clear_retry-OwnsTimers : (w : World A) → OwnsTimers w → OwnsTimers (clear_retry w)
  unfolding clear_retry
  clear_retry-OwnsTimers w h t = ground (arith, h t)

  handle_open-OwnsTimers : (env : Env) (w : World A) → OwnsTimers w → OwnsTimers (handle_open env w)
  unfolding handle_open
  handle_open-OwnsTimers env w h t = ground (arith, h t, h w.next_timer, h (w.next_timer + 1))

  handle_message-OwnsTimers :
      (env : Env) (f : Frame A) (w : World A) → OwnsTimers w → OwnsTimers (handle_message env f w)
  unfolding handle_message
  handle_message-OwnsTimers env (parsed e) w h t = ground (arith, h t)
  handle_message-OwnsTimers env malformed w h t = ground (arith, h t)

  handle_drop-OwnsTimers : (env : Env) (w : World A) → OwnsTimers w → OwnsTimers (handle_drop env w)
  unfolding handle_drop
  handle_drop-OwnsTimers env w h t = ground (arith, h t, h w.next_timer)

  send_ping-OwnsTimers :
      (env : Env) (throws : Bool) (w : World A) → OwnsTimers w → OwnsTimers (send_ping env throws w)
  unfolding send_ping
  send_ping-OwnsTimers env throws w h t = ground (arith, h t, h w.next_timer)

  check_stale-OwnsTimers : (env : Env) (w : World A) → OwnsTimers w → OwnsTimers (check_stale env w)
  unfolding check_stale
  check_stale-OwnsTimers env w h t = ground (arith, h t, h w.next_timer)

  connect-OwnsTimers : (w : World A) → OwnsTimers w → OwnsTimers (connect w)
  unfolding connect
  connect-OwnsTimers w h t = ground (arith, h t)

  abbrev pub reset_attempt : World A → World A
  reset_attempt w = record w { conn = record w.conn { attempt = 0 } }

  reset_attempt-OwnsTimers : (w : World A) → OwnsTimers w → OwnsTimers (reset_attempt w)
  reset_attempt-OwnsTimers w h t = ground (arith, h t)

  resume-OwnsTimers : (env : Env) (w : World A) → OwnsTimers w → OwnsTimers (resume env w)
  unfolding resume
  resume-OwnsTimers env w h t = ground (
    arith,
    h t,
    check_stale-OwnsTimers env (reset_attempt w) (reset_attempt-OwnsTimers w h) t,
    connect-OwnsTimers (clear_retry (reset_attempt w))
        (clear_retry-OwnsTimers (reset_attempt w) (reset_attempt-OwnsTimers w h)) t,
  )

  start-OwnsTimers : (w : World A) → OwnsTimers w → OwnsTimers (start w)
  unfolding start
  start-OwnsTimers w h t = ground (arith, h t)

  pub stop-OwnsTimers : (w : World A) → OwnsTimers w → OwnsTimers (stop w)
  unfolding stop
  stop-OwnsTimers w h t = ground (arith, h t)

  -- A retry that fires takes itself off the list of running timers.
  retry_fires-OwnsTimers :
      (u d : ℕ) (w : World A)
      → w.timers u ≡ some (retry d)
      → OwnsTimers w
      → OwnsTimers (retry_fires u w)
  unfolding retry_fires
  retry_fires-OwnsTimers u d w e h t = ground (arith, h t, h u)

  fire-OwnsTimers :
      (env : Env) (u : ℕ) (throws : Bool) (o : Option Timer) (w : World A)
      → w.timers u ≡ o
      → OwnsTimers w
      → OwnsTimers (fire env u throws o w)
  fire-OwnsTimers env u throws none w e h = h
  fire-OwnsTimers env u throws (some (retry d)) w e h = retry_fires-OwnsTimers u d w e h
  fire-OwnsTimers env u throws (some (ping d)) w e h = send_ping-OwnsTimers env throws w h
  fire-OwnsTimers env u throws (some (watchdog d)) w e h = check_stale-OwnsTimers env w h

  pub step-OwnsTimers :
      (env : Env) (e : Event A) (w : World A) → OwnsTimers w → OwnsTimers (step env e w)
  unfolding step
  step-OwnsTimers env starts w h t = start-OwnsTimers w h t
  step-OwnsTimers env stops w h t = stop-OwnsTimers w h t
  step-OwnsTimers env (ready_state i r) w h t = ground (arith, h t)
  step-OwnsTimers env (opens i) w h t = ground (arith, h t, handle_open-OwnsTimers env w h t)
  step-OwnsTimers env (closes i) w h t = ground (arith, h t, handle_drop-OwnsTimers env w h t)
  step-OwnsTimers env (errors i) w h t = ground (arith, h t, handle_drop-OwnsTimers env w h t)
  step-OwnsTimers env (message i f) w h t =
      ground (arith, h t, handle_message-OwnsTimers env f w h t)
  step-OwnsTimers env (fires u throws) w h t = fire-OwnsTimers env u throws (w.timers u) w refl h t
  step-OwnsTimers env (visibilitychange visible) w h t =
      ground (arith, h t, resume-OwnsTimers env w h t)
  step-OwnsTimers env pageshow w h t = ground (arith, h t, resume-OwnsTimers env w h t)
  step-OwnsTimers env online w h t = ground (arith, h t, resume-OwnsTimers env w h t)

  pub run-OwnsTimers :
      (w : World A) (es : List (Env × Event A)) → OwnsTimers w → OwnsTimers (run w es)
  unfolding run
  run-OwnsTimers w [] h = h
  run-OwnsTimers w ((env, e) ∷ es) h = run-OwnsTimers (step env e w) es (step-OwnsTimers env e w h)

  -- After any events whatever, a timer runs under a number exactly if the field of its kind holds
  -- that number: none is leaked, and none that a field holds is missing.
  pub timers_owned :
      (o : LiveConnectionOptions) (at : Location) (es : List (Env × Event A)) (t : ℕ)
      → let w = run (fresh o at) es in
        (is_retry (w.timers t) ≡ points w.retry_timer t)
        × (is_ping (w.timers t) ≡ points w.ping_timer t)
        × (is_watchdog (w.timers t) ≡ points w.watchdog_timer t)
  timers_owned o at es t =
      let v = run-OwnsTimers (fresh o at) es (λ t. ground arith) t in
      (v.retry_owned, v.ping_owned, v.watchdog_owned)
