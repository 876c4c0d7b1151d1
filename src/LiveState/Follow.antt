-- ===== src/LiveState/Follow.antt =====
-- What the hook of frontend/src/useLiveState.ts shows is what its connection holds.
use tether_ddns.Prelude.{
  ℕ, ◌+◌, ◌≡◌, refl, ap, Bool, Option, none, some, List, [], ◌∷◌, ◌++◌, string_eq, arith,
}
use tether_ddns.Types.{StateSnapshot, LogEntry}
use tether_ddns.LiveConnection.State.{
  ConnectionStatus, connecting, opened, reconnecting, Frame, parsed, malformed, Envelope, Timer,
  retry, ping, watchdog, Call, status_call, message_call, connected_call, World, Env, Location,
}
use tether_ddns.LiveConnection.Handlers.{
  set_status, handle_open, handle_message, handle_drop, send_ping, check_stale, connect,
  clear_retry, resume, start, stop, retry_fires, on_status, on_connected, on_message,
}
use tether_ddns.LiveConnection.Events.{
  Event, starts, stops, ready_state, opens, closes, errors, message, fires, visibilitychange,
  pageshow, online, fire, step, run,
}
use tether_ddns.LiveConnection.Timers.{reset_attempt}
use tether_ddns.LiveState.{LiveState, initial, on_envelope, on_call, after_calls, mount}

module _ {A : Type 0} (as_snapshot : A → StateSnapshot) (as_log : A → LogEntry) where
  abbrev after : List (Call A) → LiveState → LiveState
  after = after_calls as_snapshot as_log

  after-append :
      (cs ds : List (Call A)) (s : LiveState) → after (cs ++ ds) s ≡ after ds (after cs s)
  unfolding after_calls
  after-append [] ds s = refl
  after-append (c ∷ cs) ds s = after-append cs ds (on_call as_snapshot as_log c s)

  -- What the state shows of the connection.
  abbrev shown : LiveState → ConnectionStatus × ℕ
  shown s = (s.status, s.generation)

  after-status :
      (cs : List (Call A)) (st : ConnectionStatus)
      → shown (after (cs ++ status_call 0 st ∷ []) initial) ≡ (st, (after cs initial).generation)
  unfolding after_calls on_call
  after-status cs st = rw (after-append cs (status_call 0 st ∷ []) initial) refl

  after-connected :
      (cs : List (Call A)) (g : ℕ)
      → shown (after (cs ++ connected_call 0 g ∷ []) initial) ≡ ((after cs initial).status, g)
  unfolding after_calls on_call
  after-connected cs g = rw (after-append cs (connected_call 0 g ∷ []) initial) refl

  on_envelope-shown :
      (e : Envelope A) (s : LiveState) → shown (on_envelope as_snapshot as_log e s) ≡ shown s
  unfolding on_envelope
  on_envelope-shown e s = ground arith

  after-message :
      (cs : List (Call A)) (e : Envelope A)
      → shown (after (cs ++ message_call 0 e ∷ []) initial) ≡ shown (after cs initial)
  unfolding after_calls on_call
  after-message cs e =
      rw (after-append cs (message_call 0 e ∷ []) initial) (on_envelope-shown e (after cs initial))

  -- The hook listens, and shows the status and the generation of the connection.
  pub record Follows (w : World A) : Type 0 where
    pub status_heard : w.status_listeners ≡ 0 ∷ []
    pub connected_heard : w.connected_listeners ≡ 0 ∷ []
    pub message_heard : w.message_listeners ≡ 0 ∷ []
    pub same_status : (after w.calls initial).status ≡ w.status_value
    pub same_generation : (after w.calls initial).generation ≡ w.generation_value

  set_status-Follows : (st : ConnectionStatus) (w : World A) → Follows w → Follows (set_status st w)
  unfolding set_status
  set_status-Follows st w f =
      ground
        (arith, ap (λ p. p.0) (after-status w.calls st), ap (λ p. p.1) (after-status w.calls st))

  handle_open-Follows : (env : Env) (w : World A) → Follows w → Follows (handle_open env w)
  unfolding handle_open
  handle_open-Follows env w f = ground (
    arith,
    after-status w.calls opened,
    after-connected w.calls w.generation_value,
    after-connected w.calls (w.generation_value + 1),
    after-connected (w.calls ++ status_call 0 opened ∷ []) w.generation_value,
    after-connected (w.calls ++ status_call 0 opened ∷ []) (w.generation_value + 1),
  )

  handle_message-Follows :
      (env : Env) (m : Frame A) (w : World A) → Follows w → Follows (handle_message env m w)
  unfolding handle_message
  handle_message-Follows env (parsed e) w f = ground (arith, after-message w.calls e)
  handle_message-Follows env malformed w f = ground arith

  handle_drop-Follows : (env : Env) (w : World A) → Follows w → Follows (handle_drop env w)
  unfolding handle_drop
  handle_drop-Follows env w f =
      ground (arith, after-status w.calls reconnecting, after-status w.calls connecting)

  send_ping-Follows :
      (env : Env) (throws : Bool) (w : World A) → Follows w → Follows (send_ping env throws w)
  unfolding send_ping
  send_ping-Follows env throws w f = ground (arith, handle_drop-Follows env w f)

  check_stale-Follows : (env : Env) (w : World A) → Follows w → Follows (check_stale env w)
  unfolding check_stale
  check_stale-Follows env w f = ground (arith, handle_drop-Follows env w f)

  connect-Follows : (w : World A) → Follows w → Follows (connect w)
  unfolding connect
  connect-Follows w f = ground arith

  -- The fields that `Follows` reads are the same.
  reset_attempt-Follows : (w : World A) → Follows w → Follows (reset_attempt w)
  reset_attempt-Follows w f = record {
    status_heard = f.status_heard;
    connected_heard = f.connected_heard;
    message_heard = f.message_heard;
    same_status = f.same_status;
    same_generation = f.same_generation;
  }

  clear_retry-Follows : (w : World A) → Follows w → Follows (clear_retry w)
  unfolding clear_retry
  clear_retry-Follows w f = ground arith

  resume-Follows : (env : Env) (w : World A) → Follows w → Follows (resume env w)
  unfolding resume
  resume-Follows env w f =
      let v : World A = reset_attempt w in
      let g = reset_attempt-Follows w f in
      ground (
        arith,
        check_stale-Follows env v g,
        connect-Follows (clear_retry v) (clear_retry-Follows v g),
      )

  start-Follows : (w : World A) → Follows w → Follows (start w)
  unfolding start
  start-Follows w f = ground arith

  stop-Follows : (w : World A) → Follows w → Follows (stop w)
  unfolding stop
  stop-Follows w f = ground arith

  fire-Follows :
      (env : Env) (t : ℕ) (throws : Bool) (o : Option Timer) (w : World A)
      → Follows w
      → Follows (fire env t throws o w)
  unfolding retry_fires
  fire-Follows env t throws none w f = f
  fire-Follows env t throws (some (retry d)) w f = ground arith
  fire-Follows env t throws (some (ping d)) w f = send_ping-Follows env throws w f
  fire-Follows env t throws (some (watchdog d)) w f = check_stale-Follows env w f

  step-Follows : (env : Env) (e : Event A) (w : World A) → Follows w → Follows (step env e w)
  unfolding step
  step-Follows env starts w f = start-Follows w f
  step-Follows env stops w f = stop-Follows w f
  step-Follows env (ready_state i r) w f = ground arith
  step-Follows env (opens i) w f = ground (arith, handle_open-Follows env w f)
  step-Follows env (closes i) w f = ground (arith, handle_drop-Follows env w f)
  step-Follows env (errors i) w f = ground (arith, handle_drop-Follows env w f)
  step-Follows env (message i m) w f = ground (arith, handle_message-Follows env m w f)
  step-Follows env (fires t throws) w f = fire-Follows env t throws (w.timers t) w f
  step-Follows env (visibilitychange visible) w f = ground (arith, resume-Follows env w f)
  step-Follows env pageshow w f = ground (arith, resume-Follows env w f)
  step-Follows env online w f = ground (arith, resume-Follows env w f)

  pub run-Follows : (w : World A) (es : List (Env × Event A)) → Follows w → Follows (run w es)
  unfolding run
  run-Follows w [] f = f
  run-Follows w ((env, e) ∷ es) f = run-Follows (step env e w) es (step-Follows env e w f)

  pub mount-Follows : (at : Location) → Follows (mount at)
  unfolding mount on_status on_connected on_message start after_calls
  mount-Follows at = ground arith

  -- Whatever happens after the hook is mounted, it shows the status and the generation of its
  -- connection.
  pub shows_connection :
      (at : Location) (es : List (Env × Event A))
      → let w = run (mount at) es in
        let s = after_calls as_snapshot as_log w.calls initial in
        (s.status ≡ w.status_value) × (s.generation ≡ w.generation_value)
  shows_connection at es =
      let f = run-Follows (mount at) es (mount-Follows at) in (f.same_status, f.same_generation)
