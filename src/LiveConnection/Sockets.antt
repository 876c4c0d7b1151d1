-- ===== src/LiveConnection/Sockets.antt =====
-- Sockets of a `LiveConnection` (frontend/src/liveConnection.ts): which of them still reach it.
use tether_ddns.Prelude.{
  ℕ, ◌≤◌, ◌<◌, ◌≡◌, ◌≢◌, refl, Bool, true, false, not, ◌&&◌, Option, none, some, arith,
}
use tether_ddns.LiveConnection.State.{
  Frame, parsed, malformed, Timer, retry, ping, watchdog, World, Env,
}
use tether_ddns.LiveConnection.Handlers.{
  is_some, is_open_at, connect, handle_open, handle_message, handle_drop, send_ping, check_stale,
  clear_retry, resume, start, stop, retry_fires,
}
use tether_ddns.LiveConnection.Events.{
  Event, starts, stops, ready_state, opens, closes, errors, message, fires, visibilitychange,
  pageshow, online, fire, step, run,
}
use tether_ddns.LiveConnection.Invariant.{Inv}
use tether_ddns.LiveConnection.Timers.{points, OwnsTimers}

module _ {A : Type 0} where
  -- Socket `i` has its handlers exactly if it is the current socket.
  pub record OwnsSocket (w : World A) (i : ℕ) : Type 0 where
    pub attached_owned : (w.sockets i).attached ≡ points w.socket i
    pub unborn : w.created ≤ i → (w.sockets i).attached ≡ false

  abbrev pub OwnsSockets : World A → Type 0
  OwnsSockets w = (i : ℕ) → OwnsSocket w i

  -- The current socket is there but not open: it is still connecting, or already closing.
  abbrev pub is_dialing : World A → Bool
  is_dialing w = is_some w.socket && not (is_open_at w.sockets w.socket)

  -- The events that make the page resume.
  abbrev pub resumes : Event A → Bool
  resumes (visibilitychange visible) = visible
  resumes pageshow = true
  resumes online = true
  resumes _ = false

  handle_open-OwnsSockets :
      (env : Env) (w : World A) → OwnsSockets w → OwnsSockets (handle_open env w)
  unfolding handle_open
  handle_open-OwnsSockets env w h i = ground (arith, h i)

  handle_message-OwnsSockets :
      (env : Env) (f : Frame A) (w : World A) → OwnsSockets w → OwnsSockets (handle_message env f w)
  unfolding handle_message
  handle_message-OwnsSockets env (parsed e) w h i = ground (arith, h i)
  handle_message-OwnsSockets env malformed w h i = ground (arith, h i)

  handle_drop-OwnsSockets :
      (env : Env) (w : World A) → OwnsSockets w → OwnsSockets (handle_drop env w)
  unfolding handle_drop
  handle_drop-OwnsSockets env w h i = ground (arith, h i)

  send_ping-OwnsSockets :
      (env : Env) (throws : Bool) (w : World A)
      → OwnsSockets w
      → OwnsSockets (send_ping env throws w)
  unfolding send_ping
  send_ping-OwnsSockets env throws w h i = ground (arith, h i)

  check_stale-OwnsSockets :
      (env : Env) (w : World A) → OwnsSockets w → OwnsSockets (check_stale env w)
  unfolding check_stale
  check_stale-OwnsSockets env w h i = ground (arith, h i)

  -- A page that resumes keeps this only where it does not dial over a socket that is not open.
  resume-OwnsSockets :
      (env : Env) (w : World A) → is_dialing w ≡ false → OwnsSockets w → OwnsSockets (resume env w)
  unfolding resume check_stale clear_retry connect
  resume-OwnsSockets env w d h i = ground (arith, h i, h w.created)

  start-OwnsSockets : (w : World A) → Inv w → OwnsSockets w → OwnsSockets (start w)
  unfolding start
  start-OwnsSockets w v h i = ground (arith, h i, h w.created)

  pub stop-OwnsSockets : (w : World A) → OwnsSockets w → OwnsSockets (stop w)
  unfolding stop
  stop-OwnsSockets w h i = ground (arith, h i)

  retry_fires-OwnsSockets :
      (t d : ℕ) (w : World A)
      → w.timers t ≡ some (retry d)
      → OwnsTimers w
      → Inv w
      → OwnsSockets w
      → OwnsSockets (retry_fires t w)
  unfolding retry_fires
  retry_fires-OwnsSockets t d w e own v h i = ground (arith, own t, v, h i, h w.created)

  fire-OwnsSockets :
      (env : Env) (t : ℕ) (throws : Bool) (o : Option Timer) (w : World A)
      → w.timers t ≡ o
      → OwnsTimers w
      → Inv w
      → OwnsSockets w
      → OwnsSockets (fire env t throws o w)
  fire-OwnsSockets env t throws none w e own v h = h
  fire-OwnsSockets env t throws (some (retry d)) w e own v h =
      retry_fires-OwnsSockets t d w e own v h
  fire-OwnsSockets env t throws (some (ping d)) w e own v h = send_ping-OwnsSockets env throws w h
  fire-OwnsSockets env t throws (some (watchdog d)) w e own v h = check_stale-OwnsSockets env w h

  -- Every event but one keeps the current socket the only one that reaches the object: the
  -- exception is a page that resumes while the current socket is there and not open.
  pub step-OwnsSockets :
      (env : Env) (e : Event A) (w : World A)
      → (resumes e && is_dialing w) ≡ false
      → OwnsTimers w
      → Inv w
      → OwnsSockets w
      → OwnsSockets (step env e w)
  unfolding step
  step-OwnsSockets env starts w calm own v h i = start-OwnsSockets w v h i
  step-OwnsSockets env stops w calm own v h i = stop-OwnsSockets w h i
  step-OwnsSockets env (ready_state j r) w calm own v h i = ground (arith, h i)
  step-OwnsSockets env (opens j) w calm own v h i =
      ground (arith, h i, handle_open-OwnsSockets env w h i)
  step-OwnsSockets env (closes j) w calm own v h i =
      ground (arith, h i, handle_drop-OwnsSockets env w h i)
  step-OwnsSockets env (errors j) w calm own v h i =
      ground (arith, h i, handle_drop-OwnsSockets env w h i)
  step-OwnsSockets env (message j f) w calm own v h i =
      ground (arith, h i, handle_message-OwnsSockets env f w h i)
  step-OwnsSockets env (fires t throws) w calm own v h i =
      fire-OwnsSockets env t throws (w.timers t) w refl own v h i
  step-OwnsSockets env (visibilitychange true) w calm own v h i =
      ground (arith, h i, resume-OwnsSockets env w calm h i)
  step-OwnsSockets env (visibilitychange false) w calm own v h i = ground (arith, h i)
  step-OwnsSockets env pageshow w calm own v h i =
      ground (arith, h i, resume-OwnsSockets env w calm h i)
  step-OwnsSockets env online w calm own v h i =
      ground (arith, h i, resume-OwnsSockets env w calm h i)

  -- If the page of a running connection resumes while the current socket has its handlers set and
  -- is not open, a new socket becomes the current one and the old one keeps its handlers.
  pub resume_orphans :
      (env : Env) (w : World A) (i : ℕ)
      → w.stopped ≡ false
      → w.socket ≡ some i
      → (w.sockets i).ready_state ≢ 1
      → (w.sockets i).attached ≡ true
      → i < w.created
      → let v = resume env w in
        (v.socket ≡ some w.created)
        × ((v.sockets i).attached ≡ true)
        × ((v.sockets w.created).attached ≡ true)
        × (points v.socket i ≡ false)
  unfolding resume clear_retry connect
  resume_orphans env w i run cur dialing at born = ground arith
