-- ===== src/LiveState/Unmount.antt =====
-- The hook of frontend/src/useLiveState.ts after its page part is gone.
use mathlib.Core.List.{append-nil}
use tether_ddns.Prelude.{ℕ, ◌≡◌, Bool, Option, none, some, List, [], ◌∷◌, arith}
use tether_ddns.LiveConnection.State.{
  Frame, parsed, malformed, Timer, retry, ping, watchdog, World, Env, Location, Call,
}
use tether_ddns.LiveConnection.Handlers.{
  handle_open, handle_message, handle_drop, send_ping, check_stale, connect, clear_retry, resume,
  start, stop, retry_fires, off_status, off_connected, off_message,
}
use tether_ddns.LiveConnection.Events.{
  Event, starts, stops, ready_state, opens, closes, errors, message, fires, visibilitychange,
  pageshow, online, fire, step, run,
}
use tether_ddns.LiveConnection.Timers.{reset_attempt}
use tether_ddns.LiveState.Follow.{Follows, run-Follows, mount-Follows}
use tether_ddns.LiveState.{mount, unmount}
use tether_ddns.Types.{StateSnapshot, LogEntry}

module _ {A : Type 0} (calls : List (Call A)) where
  -- No listener is left, and those are the calls so far.
  pub record IsDeaf (w : World A) : Type 0 where
    pub no_status : w.status_listeners ≡ []
    pub no_connected : w.connected_listeners ≡ []
    pub no_message : w.message_listeners ≡ []
    pub same_calls : w.calls ≡ calls

  handle_open-IsDeaf : (env : Env) (w : World A) → IsDeaf w → IsDeaf (handle_open env w)
  unfolding handle_open
  handle_open-IsDeaf env w d = ground (arith, append-nil calls)

  handle_message-IsDeaf :
      (env : Env) (m : Frame A) (w : World A) → IsDeaf w → IsDeaf (handle_message env m w)
  unfolding handle_message
  handle_message-IsDeaf env (parsed e) w d = ground (arith, append-nil calls)
  handle_message-IsDeaf env malformed w d = ground arith

  handle_drop-IsDeaf : (env : Env) (w : World A) → IsDeaf w → IsDeaf (handle_drop env w)
  unfolding handle_drop
  handle_drop-IsDeaf env w d = ground (arith, append-nil calls)

  send_ping-IsDeaf :
      (env : Env) (throws : Bool) (w : World A) → IsDeaf w → IsDeaf (send_ping env throws w)
  unfolding send_ping
  send_ping-IsDeaf env throws w d = ground (arith, handle_drop-IsDeaf env w d)

  check_stale-IsDeaf : (env : Env) (w : World A) → IsDeaf w → IsDeaf (check_stale env w)
  unfolding check_stale
  check_stale-IsDeaf env w d = ground (arith, handle_drop-IsDeaf env w d)

  connect-IsDeaf : (w : World A) → IsDeaf w → IsDeaf (connect w)
  unfolding connect
  connect-IsDeaf w d = ground arith

  clear_retry-IsDeaf : (w : World A) → IsDeaf w → IsDeaf (clear_retry w)
  unfolding clear_retry
  clear_retry-IsDeaf w d = ground arith

  resume-IsDeaf : (env : Env) (w : World A) → IsDeaf w → IsDeaf (resume env w)
  unfolding resume
  resume-IsDeaf env w d =
      let v : World A = reset_attempt w in
      let e : IsDeaf v = record {
        no_status = d.no_status;
        no_connected = d.no_connected;
        no_message = d.no_message;
        same_calls = d.same_calls;
      } in
      ground
        (arith, check_stale-IsDeaf env v e, connect-IsDeaf (clear_retry v) (clear_retry-IsDeaf v e))

  start-IsDeaf : (w : World A) → IsDeaf w → IsDeaf (start w)
  unfolding start
  start-IsDeaf w d = ground arith

  stop-IsDeaf : (w : World A) → IsDeaf w → IsDeaf (stop w)
  unfolding stop
  stop-IsDeaf w d = ground arith

  fire-IsDeaf :
      (env : Env) (t : ℕ) (throws : Bool) (o : Option Timer) (w : World A)
      → IsDeaf w
      → IsDeaf (fire env t throws o w)
  unfolding retry_fires
  fire-IsDeaf env t throws none w d = d
  fire-IsDeaf env t throws (some (retry _)) w d = ground arith
  fire-IsDeaf env t throws (some (ping _)) w d = send_ping-IsDeaf env throws w d
  fire-IsDeaf env t throws (some (watchdog _)) w d = check_stale-IsDeaf env w d

  step-IsDeaf : (env : Env) (e : Event A) (w : World A) → IsDeaf w → IsDeaf (step env e w)
  unfolding step
  step-IsDeaf env starts w d = start-IsDeaf w d
  step-IsDeaf env stops w d = stop-IsDeaf w d
  step-IsDeaf env (ready_state i r) w d = ground arith
  step-IsDeaf env (opens i) w d = ground (arith, handle_open-IsDeaf env w d)
  step-IsDeaf env (closes i) w d = ground (arith, handle_drop-IsDeaf env w d)
  step-IsDeaf env (errors i) w d = ground (arith, handle_drop-IsDeaf env w d)
  step-IsDeaf env (message i m) w d = ground (arith, handle_message-IsDeaf env m w d)
  step-IsDeaf env (fires t throws) w d = fire-IsDeaf env t throws (w.timers t) w d
  step-IsDeaf env (visibilitychange visible) w d = ground (arith, resume-IsDeaf env w d)
  step-IsDeaf env pageshow w d = ground (arith, resume-IsDeaf env w d)
  step-IsDeaf env online w d = ground (arith, resume-IsDeaf env w d)

  run-IsDeaf : (w : World A) (es : List (Env × Event A)) → IsDeaf w → IsDeaf (run w es)
  unfolding run
  run-IsDeaf w [] d = d
  run-IsDeaf w ((env, e) ∷ es) d = run-IsDeaf (step env e w) es (step-IsDeaf env e w d)

module _ {A : Type 0} where
  unmount-IsDeaf :
      (as_snapshot : A → StateSnapshot) (as_log : A → LogEntry) (w : World A)
      → Follows as_snapshot as_log w
      → IsDeaf w.calls (unmount w)
  unfolding unmount off_status off_connected off_message stop
  unmount-IsDeaf as_snapshot as_log w f = ground arith

  -- Once the hook is unmounted no listener of it is called again, whatever happened before and
  -- whatever events still occur: even those of a socket that still reaches the connection.
  pub silent_after_unmount :
      (as_snapshot : A → StateSnapshot) (as_log : A → LogEntry) (at : Location)
      (es fs : List (Env × Event A))
      → (run (unmount (run (mount at) es)) fs).calls ≡ (run (mount at) es).calls
  silent_after_unmount as_snapshot as_log at es fs =
      let w = run (mount at) es in
      (run-IsDeaf w.calls (unmount w) fs (
        unmount-IsDeaf as_snapshot as_log w (
          run-Follows as_snapshot as_log (mount at) es
            (mount-Follows as_snapshot as_log at)))).same_calls
