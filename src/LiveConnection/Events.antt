-- ===== src/LiveConnection/Events.antt =====
-- What can happen to a `LiveConnection` (frontend/src/liveConnection.ts): its owner's calls, and
-- the browser's events, in any order. An event reaches the object only while its handler is set.
use tether_ddns.Prelude.{ℕ, Bool, ◌&&◌, Option, none, some, List, [], ◌∷◌, if◌then◌else◌, update}
use tether_ddns.LiveConnection.State.{Frame, Timer, retry, ping, watchdog, World, Env}
use tether_ddns.LiveConnection.Handlers.{
  handle_open, handle_message, handle_drop, send_ping, check_stale, resume, start, stop,
  retry_fires,
}

pub data Event (A : Type 0) : Type 0 where
  -- the owner's calls
  starts stops : Event A
  -- the browser moves a socket to another ready state
  ready_state : ℕ → ℕ → Event A
  -- the events of a socket
  opens closes errors : ℕ → Event A
  message : ℕ → Frame A → Event A
  -- a timer runs out; the flag says whether a `send` would throw
  fires : ℕ → Bool → Event A
  -- the page becomes visible or hidden, is shown, or is online again
  visibilitychange : Bool → Event A
  pageshow online : Event A

module _ {A : Type 0} where
  abbrev pub if_attached : ℕ → (World A → World A) → World A → World A
  if_attached i handler w = if (w.sockets i).attached then handler w else w

  abbrev pub fire : Env → ℕ → Bool → Option Timer → World A → World A
  fire env t throws none w = w
  fire env t throws (some (retry _)) w = retry_fires t w
  fire env t throws (some (ping _)) w = send_ping env throws w
  fire env t throws (some (watchdog _)) w = check_stale env w

  unfoldable pub step : Env → Event A → World A → World A
  step env starts w = start w
  step env stops w = stop w
  step env (ready_state i r) w = record w {
    dom = record w.dom { sockets = update w.sockets i (record (w.sockets i) { ready_state = r }) };
  }
  step env (opens i) w = if_attached i (handle_open env) w
  step env (closes i) w = if_attached i (handle_drop env) w
  step env (errors i) w = if_attached i (handle_drop env) w
  step env (message i frame) w = if_attached i (handle_message env frame) w
  step env (fires t throws) w = fire env t throws (w.timers t) w
  step env (visibilitychange visible) w =
      if w.on_visibilitychange && visible then resume env w else w
  step env pageshow w = if w.on_pageshow then resume env w else w
  step env online w = if w.on_online then resume env w else w

  -- Any sequence of events, each with what the outside shows at that time.
  unfoldable pub run : World A → List (Env × Event A) → World A
  run w [] = w
  run w ((env, e) ∷ es) = run (step env e w) es
