-- ===== src/LiveConnection/Progress.antt =====
-- A connection of frontend/src/liveConnection.ts can always be made again: from wherever it is, unless
-- it is stopped, a browser can bring about what opens it.
use tether_ddns.Prelude.{Bool-cases, inl, inr}
use tether_ddns.LiveConnection.Handlers.{status_eq}
use tether_ddns.LiveConnection.State.{ConnectionStatus}
use mathlib.Core.Path.{subst}
use tether_ddns.Prelude.{nat_beq, zero}
use tether_ddns.LiveConnection.Handlers.{is_some}
use tether_ddns.Prelude.{◌+◌, ltb, leb, suc, ◌&&◌, if◌then◌else◌}
use tether_ddns.LiveConnection.Handlers.{is_open_at}
use tether_ddns.LiveConnection.Recovery.{handle_drop_schedules}
use tether_ddns.Prelude.{
  ℕ, ◌≤◌, ◌≡◌, refl, Bool, true, false, Option, none, some, List, [], ◌∷◌, arith,
}
use tether_ddns.LiveConnection.State.{
  Frame, parsed, malformed, Timer, retry, ping, watchdog, opened, World, Env, LiveConnectionOptions,
  Location,
}
use tether_ddns.LiveConnection.Handlers.{
  connect, handle_open, handle_message, handle_drop, send_ping, check_stale, clear_retry, resume,
  start, stop, retry_fires,
}
use tether_ddns.LiveConnection.Events.{
  Event, starts, stops, ready_state, opens, closes, errors, message, fires, visibilitychange,
  pageshow, online, fire, step, run,
}
use tether_ddns.LiveConnection.Invariant.{Inv, fresh, run-Inv}
use tether_ddns.LiveConnection.Timers.{OwnsTimers, is_retry, run-OwnsTimers}

retry_runs : (o : Option Timer) → is_retry o ≡ true → is_some o ≡ true
retry_runs none r = ground arith
retry_runs (some d) r = refl

status_eq-opened : (c : ConnectionStatus) → status_eq c opened ≡ true → c ≡ opened
status_eq-opened c e = ground arith

module _ {A : Type 0} where
  -- The current socket, if there is one, has its handlers.
  abbrev hears : World A → Option ℕ → Bool
  hears w none = true
  hears w (some i) = (w.sockets i).attached

  pub record Heard (w : World A) : Type 0 where
    pub heard : hears w w.socket ≡ true

  connect-Heard : (w : World A) → Heard w → Heard (connect w)
  unfolding connect
  connect-Heard w v = ground arith

  handle_open-Heard : (env : Env) (w : World A) → Heard w → Heard (handle_open env w)
  unfolding handle_open
  handle_open-Heard env w v = ground arith

  handle_message-Heard :
      (env : Env) (f : Frame A) (w : World A) → Heard w → Heard (handle_message env f w)
  unfolding handle_message
  handle_message-Heard env (parsed e) w v = ground arith
  handle_message-Heard env malformed w v = ground arith

  handle_drop-Heard : (env : Env) (w : World A) → Heard w → Heard (handle_drop env w)
  unfolding handle_drop
  handle_drop-Heard env w v = ground arith

  send_ping-Heard :
      (env : Env) (throws : Bool) (w : World A) → Heard w → Heard (send_ping env throws w)
  unfolding send_ping
  send_ping-Heard env throws w v = ground (arith, handle_drop-Heard env w v)

  check_stale-Heard : (env : Env) (w : World A) → Heard w → Heard (check_stale env w)
  unfolding check_stale
  check_stale-Heard env w v = ground (arith, handle_drop-Heard env w v)

  resume-Heard : (env : Env) (w : World A) → Heard w → Heard (resume env w)
  unfolding resume check_stale clear_retry connect
  resume-Heard env w v = ground arith

  start-Heard : (w : World A) → Heard w → Heard (start w)
  unfolding start
  start-Heard w v = ground arith

  stop-Heard : (w : World A) → Heard w → Heard (stop w)
  unfolding stop
  stop-Heard w v = ground arith

  retry_fires-Heard : (t : ℕ) (w : World A) → Heard w → Heard (retry_fires t w)
  unfolding retry_fires
  retry_fires-Heard t w v = ground arith

  fire-Heard :
      (env : Env) (t : ℕ) (throws : Bool) (o : Option Timer) (w : World A)
      → Heard w
      → Heard (fire env t throws o w)
  fire-Heard env t throws none w v = v
  fire-Heard env t throws (some (retry d)) w v = retry_fires-Heard t w v
  fire-Heard env t throws (some (ping d)) w v = send_ping-Heard env throws w v
  fire-Heard env t throws (some (watchdog d)) w v = check_stale-Heard env w v

  step-Heard : (env : Env) (e : Event A) (w : World A) → Heard w → Heard (step env e w)
  unfolding step
  step-Heard env starts w v = start-Heard w v
  step-Heard env stops w v = stop-Heard w v
  step-Heard env (ready_state i r) w v = ground arith
  step-Heard env (opens i) w v = ground (arith, handle_open-Heard env w v)
  step-Heard env (closes i) w v = ground (arith, handle_drop-Heard env w v)
  step-Heard env (errors i) w v = ground (arith, handle_drop-Heard env w v)
  step-Heard env (message i f) w v = ground (arith, handle_message-Heard env f w v)
  step-Heard env (fires t throws) w v = fire-Heard env t throws (w.timers t) w v
  step-Heard env (visibilitychange visible) w v = ground (arith, resume-Heard env w v)
  step-Heard env pageshow w v = ground (arith, resume-Heard env w v)
  step-Heard env online w v = ground (arith, resume-Heard env w v)

  pub run-Heard : (w : World A) (es : List (Env × Event A)) → Heard w → Heard (run w es)
  unfolding run
  run-Heard w [] v = v
  run-Heard w ((env, e) ∷ es) v = run-Heard (step env e w) es (step-Heard env e w v)

  -- What a browser can do next: a socket only goes on to later ready states, opens when it is open and closes
  -- when it is closed, and a timer fires if it runs.
  abbrev pub is_possible : World A → Event A → Bool
  is_possible w (ready_state i r) = ltb (w.sockets i).ready_state r && leb r 3
  is_possible w (opens i) = nat_beq (w.sockets i).ready_state 1
  is_possible w (closes i) = leb 3 (w.sockets i).ready_state
  is_possible w (fires t throws) = is_some (w.timers t)
  is_possible w _ = true

  abbrev pub all_possible : World A → List (Env × Event A) → Bool
  all_possible w [] = true
  all_possible w ((env, e) ∷ es) = is_possible w e && all_possible (step env e w) es

  abbrev is_heard : Event A → Bool
  is_heard (ready_state i r) = false
  is_heard _ = true

  -- How many of some events the page hears of: a ready state changes in silence.
  abbrev pub heard_events : List (Env × Event A) → ℕ
  heard_events [] = 0
  heard_events ((env, e) ∷ es) = (if is_heard e then 1 else 0) + heard_events es

  abbrev dial : Env → ℕ → List (Env × Event A)
  dial env i = (env, ready_state i 1) ∷ (env, opens i) ∷ []

  abbrev redial : Env → World A → ℕ → List (Env × Event A)
  redial env w t = (env, fires t false) ∷ dial env w.created

  abbrev close_and_redial : Env → World A → ℕ → List (Env × Event A)
  close_and_redial env w i = (env, closes i) ∷ redial env w w.next_timer

  -- What leads to an open connection from a socket in a ready state.
  abbrev way_from : Env → World A → ℕ → ℕ → List (Env × Event A)
  way_from env w i zero = dial env i
  way_from env w i (suc zero) = if status_eq w.status_value opened then [] else (env, opens i) ∷ []
  way_from env w i (suc (suc zero)) = (env, ready_state i 3) ∷ close_and_redial env w i
  way_from env w i (suc (suc (suc r))) = close_and_redial env w i

  abbrev pub way_with : Env → World A → Option ℕ → Option ℕ → List (Env × Event A)
  way_with env w (some i) _ = way_from env w i (w.sockets i).ready_state
  way_with env w none (some t) = redial env w t
  way_with env w none none = []

  -- What leads to an open connection, if it is not open already: a current socket that is connecting or has
  -- just been connected opens; one that is closing or closed closes and the retry that follows fires; and a pending retry fires.
  abbrev pub way : Env → World A → List (Env × Event A)
  way env w = way_with env w w.socket w.retry_timer

  -- What the way leads to, and that it can be gone.
  pub record Arrives (w : World A) (es : List (Env × Event A)) : Type 0 where
    pub possible : all_possible w es ≡ true
    pub status : (run w es).status_value ≡ opened
    pub at_socket : is_open_at (run w es).sockets (run w es).socket ≡ true

  later :
      (env : Env) (e : Event A) (es : List (Env × Event A)) (w : World A)
      → is_possible w e ≡ true
      → Arrives (step env e w) es
      → Arrives w ((env, e) ∷ es)
  unfolding run
  later env e es w p a = record {
    possible = ground (arith, a.possible);
    status = a.status;
    at_socket = a.at_socket;
  }

  handle_open-opened :
      (env : Env) (w : World A)
      → ((handle_open env w).status_value ≡ opened)
        × ((handle_open env w).socket ≡ w.socket)
        × ((handle_open env w).sockets ≡ w.sockets)
  unfolding handle_open
  handle_open-opened env w = ground arith

  socket_opens :
      (env : Env) (w : World A) (i : ℕ)
      → (w.sockets i).attached ≡ true
      → (w.sockets i).ready_state ≡ 1
      → w.socket ≡ some i
      → Arrives w ((env, opens i) ∷ [])
  unfolding run step
  socket_opens env w i h r s = record {
    possible = ground arith;
    status = ground (arith, handle_open-opened env w);
    at_socket = ground (arith, handle_open-opened env w);
  }

  arrived :
      (w : World A) (i : ℕ)
      → (w.sockets i).ready_state ≡ 1
      → w.socket ≡ some i
      → w.status_value ≡ opened
      → Arrives w []
  unfolding run
  arrived w i r s on = record { possible = refl; status = on; at_socket = ground arith }

  dials :
      (env : Env) (w : World A) (i : ℕ)
      → (w.sockets i).attached ≡ true
      → (w.sockets i).ready_state ≡ 0
      → w.socket ≡ some i
      → Arrives w (dial env i)
  unfolding step
  dials env w i h r s = later env (ready_state i 1) ((env, opens i) ∷ []) w (ground arith) (
      socket_opens env (step env (ready_state i 1) w) i (ground arith) (ground arith)
        (ground arith))

  retried :
      (env : Env) (w : World A) (t : ℕ)
      → w.stopped ≡ false
      → Arrives (retry_fires t w) (dial env w.created)
  unfolding retry_fires
  retried env w t n =
      dials env (retry_fires t w) w.created (ground arith) (ground arith) (ground arith)

  fire_arrives :
      (env : Env) (w : World A) (t : ℕ) (o : Option Timer)
      → w.stopped ≡ false
      → is_retry o ≡ true
      → Arrives (fire env t false o w) (dial env w.created)
  fire_arrives env w t none n r = ground arith
  fire_arrives env w t (some (retry d)) n r = retried env w t n
  fire_arrives env w t (some (ping d)) n r = ground arith
  fire_arrives env w t (some (watchdog d)) n r = ground arith

  redials :
      (env : Env) (w : World A) (t : ℕ)
      → w.stopped ≡ false
      → is_retry (w.timers t) ≡ true
      → Arrives w (redial env w t)
  unfolding step
  redials env w t n r =
      later env (fires t false) (dial env w.created) w (retry_runs (w.timers t) r)
        (fire_arrives env w t (w.timers t) n r)

  closes_and_redials :
      (env : Env) (w : World A) (i : ℕ)
      → (w.sockets i).attached ≡ true
      → 3 ≤ (w.sockets i).ready_state
      → w.stopped ≡ false
      → w.retry_timer ≡ none
      → Arrives w (close_and_redial env w i)
  closes_and_redials env w i h r n idle =
      let v = handle_drop env w in
      let (_, _, timer, _, _, on, same) = handle_drop_schedules env w n idle in
      let there : is_retry (v.timers w.next_timer) ≡ true = ground (arith, timer) in
      let dropped : step env (closes i) w ≡ v = unfold step in rw h refl in
      later env (closes i) (redial env w w.next_timer) w (ground arith) (
        rw dropped (
          subst (λ (c : ℕ). Arrives v ((env, fires w.next_timer false) ∷ dial env c)) same
            (redials env v w.next_timer on there)))

  from_socket :
      (env : Env) (w : World A) (i r : ℕ)
      → (w.sockets i).ready_state ≡ r
      → (w.sockets i).attached ≡ true
      → w.socket ≡ some i
      → w.stopped ≡ false
      → w.retry_timer ≡ none
      → Arrives w (way_from env w i r)
  unfolding step
  from_socket env w i zero r a s n idle = dials env w i a r s
  from_socket env w i (suc zero) r a s n idle =
      elim (Bool-cases (status_eq w.status_value opened)) [
        | inl on ↦ rw on (arrived w i r s (status_eq-opened w.status_value on))
        | inr off ↦ rw off (socket_opens env w i a r s)
      ]
  from_socket env w i (suc (suc zero)) r a s n idle =
      let v = step env (ready_state i 3) w in
      later env (ready_state i 3) (close_and_redial env w i) w (ground arith)
        (closes_and_redials env v i (ground arith) (ground arith) n idle)
  from_socket env w i (suc (suc (suc k))) r a s n idle =
      closes_and_redials env w i a (omega (arith, r)) n idle

  pub way_arrives :
      (env : Env) (w : World A) (s r : Option ℕ)
      → w.socket ≡ s
      → w.retry_timer ≡ r
      → w.stopped ≡ false
      → Inv w
      → Heard w
      → OwnsTimers w
      → Arrives w (way_with env w s r)
  way_arrives env w (some i) r e f n v h own =
      from_socket env w i (w.sockets i).ready_state refl (ground (arith, h.heard)) e n
        (ground (arith, v.one_way))
  way_arrives env w none (some t) e f n v h own =
      redials env w t n (ground (arith, (own t).retry_owned))
  way_arrives env w none none e f n v h own = ground (arith, v.under_way n)

  from-heard : (env : Env) (w : World A) (i r : ℕ) → heard_events (way_from env w i r) ≤ 3
  from-heard env w i zero = omega arith
  from-heard env w i (suc zero) = elim (Bool-cases (status_eq w.status_value opened)) [
    | inl on ↦ rw on (omega arith)
    | inr off ↦ rw off (omega arith)
  ]
  from-heard env w i (suc (suc zero)) = omega arith
  from-heard env w i (suc (suc (suc r))) = omega arith

  way-heard : (env : Env) (w : World A) (s r : Option ℕ) → heard_events (way_with env w s r) ≤ 3
  way-heard env w (some i) r = from-heard env w i (w.sockets i).ready_state
  way-heard env w none (some t) = omega arith
  way-heard env w none none = omega arith

  pub idle-heard :
      (env : Env) (w : World A) (s r : Option ℕ) → s ≡ none → heard_events (way_with env w s r) ≤ 2
  idle-heard env w (some i) r e = ground arith
  idle-heard env w none (some t) e = omega arith
  idle-heard env w none none e = omega arith

  -- After any events whatever, a connection that has not been stopped can become open: there is a way on
  -- which each event is one that a browser can bring about at that point, of which the page hears at most
  -- three, and at its end the status is open and the current socket is open.
  pub can_open :
      (o : LiveConnectionOptions) (at : Location) (es : List (Env × Event A)) (env : Env)
      → (run (fresh o at) es).stopped ≡ false
      → let w = run (fresh o at) es in
        let v = run w (way env w) in
        (all_possible w (way env w) ≡ true)
        × (heard_events (way env w) ≤ 3)
        × (v.status_value ≡ opened)
        × (is_open_at v.sockets v.socket ≡ true)
  can_open o at es env n =
      let w = run (fresh o at) es in
      let a =
        way_arrives env w w.socket w.retry_timer refl refl n
          (run-Inv (fresh o at) es (ground arith)) (run-Heard (fresh o at) es (ground arith))
          (run-OwnsTimers (fresh o at) es (λ t. ground arith)) in
      (a.possible, way-heard env w w.socket w.retry_timer, a.status, a.at_socket)
