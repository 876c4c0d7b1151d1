-- ===== src/LiveConnection/Handlers.antt =====
-- The methods of `LiveConnection` (frontend/src/liveConnection.ts), over the whole world: each
-- returns the state in which the method leaves the object and the browser.
use Prim.Native.String
use tether_ddns.Prelude.{
  ℕ, ◌+◌, ◌-◌, String, Bool, true, false, not, ◌||◌, Option, none, some, List, ◌∷◌, ◌++◌, [], map,
  leb, any, keep, ◌==◌, if◌then◌else◌, update, nat_beq, string_eq,
}
use tether_ddns.LiveConnection.State.{
  ConnectionStatus, connecting, opened, reconnecting, Frame, parsed, malformed, Socket, Timer,
  retry, ping, watchdog, status_call, message_call, connected_call, Location, World, Env,
}
use tether_ddns.LiveConnection.Backoff.{next_delay}

abbrev pub socket_open : ℕ
socket_open = 1

abbrev pub default_url : Location → String
default_url at =
    let proto : String = if at.protocol == "https:" then "wss:" else "ws:" in
    String.◌++◌ proto (String.◌++◌ "//" (String.◌++◌ at.host "/api/ws"))

abbrev url_or : Option String → String → String
url_or none d = d
url_or (some u) d = u

abbrev pub is_some {ℓ} : {A : Type ℓ} → Option A → Bool
is_some none = false
is_some (some _) = true

abbrev pub status_eq : ConnectionStatus → ConnectionStatus → Bool
status_eq connecting connecting = true
status_eq opened opened = true
status_eq reconnecting reconnecting = true
status_eq _ _ = false

-- `set.add(fn)` and `set.delete(fn)` on the listeners, which are kept in the order of their adding.
abbrev pub add_listener : List ℕ → ℕ → List ℕ
add_listener ls l = if any (λ x. nat_beq x l) ls then ls else ls ++ l ∷ []

abbrev pub delete_listener : List ℕ → ℕ → List ℕ
delete_listener ls l = keep (λ x. not (nat_beq x l)) ls

-- `clearTimeout` or `clearInterval` of a field that may be null.
abbrev pub clear_timer : (ℕ → Option Timer) → Option ℕ → ℕ → Option Timer
clear_timer timers none = timers
clear_timer timers (some t) = update timers t none

-- The handlers are removed, and `close()` moves a socket that is not closed to closing.
abbrev pub detach : Socket → Socket
detach s = record s { attached = false; ready_state = if nat_beq s.ready_state 3 then 3 else 2 }

abbrev pub detach_at : (ℕ → Socket) → Option ℕ → ℕ → Socket
detach_at sockets none = sockets
detach_at sockets (some i) = update sockets i (detach (sockets i))

-- The test `ws && ws.readyState === SOCKET_OPEN`.
abbrev pub is_open_at : (ℕ → Socket) → Option ℕ → Bool
is_open_at sockets none = false
is_open_at sockets (some i) = nat_beq (sockets i).ready_state socket_open

abbrev pub count_ping : (ℕ → Socket) → Option ℕ → ℕ → Socket
count_ping sockets none = sockets
count_ping sockets (some i) =
    update sockets i (record (sockets i) { pings = (sockets i).pings + 1 })

module _ {A : Type 0} where
  -- `on(event, listener)` for each event, and the function that it returns.
  unfoldable pub on_status : ℕ → World A → World A
  on_status l w = record w {
    conn = record w.conn { status_listeners = add_listener w.status_listeners l };
  }

  unfoldable pub off_status : ℕ → World A → World A
  off_status l w = record w {
    conn = record w.conn { status_listeners = delete_listener w.status_listeners l };
  }

  unfoldable pub on_message : ℕ → World A → World A
  on_message l w = record w {
    conn = record w.conn { message_listeners = add_listener w.message_listeners l };
  }

  unfoldable pub off_message : ℕ → World A → World A
  off_message l w = record w {
    conn = record w.conn { message_listeners = delete_listener w.message_listeners l };
  }

  unfoldable pub on_connected : ℕ → World A → World A
  on_connected l w = record w {
    conn = record w.conn { connected_listeners = add_listener w.connected_listeners l };
  }

  unfoldable pub off_connected : ℕ → World A → World A
  off_connected l w = record w {
    conn = record w.conn { connected_listeners = delete_listener w.connected_listeners l };
  }

  unfoldable pub set_status : ConnectionStatus → World A → World A
  set_status next w = if status_eq w.status_value next then w else record w {
    conn = record w.conn { status_value = next };
    dom = record w.dom { calls = w.calls ++ map (λ l. status_call l next) w.status_listeners };
  }

  -- `new WebSocket(url)` with its four handlers. The socket that was there is overwritten.
  unfoldable pub connect : World A → World A
  connect w = if w.stopped then w else record w {
    conn = record w.conn { socket = some w.created };
    dom = record w.dom {
      sockets = update w.sockets w.created (record {
        url = url_or w.options.url (default_url w.location);
        ready_state = 0;
        attached = true;
        pings = 0;
      });
      created = w.created + 1;
    };
  }

  unfoldable pub stop_timers : World A → World A
  stop_timers w = record w {
    conn = record w.conn { ping_timer = none; watchdog_timer = none };
    dom = record w.dom {
      timers = clear_timer (clear_timer w.timers w.ping_timer) w.watchdog_timer;
    };
  }

  unfoldable pub start_timers : Env → World A → World A
  unfolding stop_timers
  start_timers env w =
      let v = stop_timers w in
      let t = v.next_timer in
      record v {
        conn = record v.conn {
          last_message_at = env.now;
          ping_timer = some t;
          watchdog_timer = some (t + 1);
        };
        dom = record v.dom {
          timers =
              update (update v.timers t (some (ping v.options.ping_interval_ms))) (t + 1)
                (some (watchdog v.options.watchdog_tick_ms));
          next_timer = t + 2;
        };
      }

  unfoldable pub teardown_socket : World A → World A
  unfolding stop_timers
  teardown_socket w =
      let v = stop_timers w in
      record v {
        conn = record v.conn { socket = none };
        dom = record v.dom { sockets = detach_at v.sockets v.socket };
      }

  unfoldable pub schedule_reconnect : Env → World A → World A
  schedule_reconnect env w = if w.stopped || is_some w.retry_timer then w else record w {
    conn = record w.conn { attempt = w.attempt + 1; retry_timer = some w.next_timer };
    dom = record w.dom {
      timers =
          update w.timers w.next_timer (some (retry (next_delay w.options env.random w.attempt)));
      next_timer = w.next_timer + 1;
    };
  }

  unfoldable pub handle_open : Env → World A → World A
  unfolding set_status start_timers
  handle_open env w =
      let g = if w.has_connected then w.generation_value + 1 else w.generation_value in
      let v = set_status opened (record w {
        conn = record w.conn { attempt = 0; generation_value = g; has_connected = true };
      }) in
      start_timers env (record v {
        dom = record v.dom {
          calls = v.calls ++ map (λ l. connected_call l v.generation_value) v.connected_listeners;
        };
      })

  unfoldable pub handle_message : Env → Frame A → World A → World A
  handle_message env (parsed e) w = record w {
    conn = record w.conn { last_message_at = env.now };
    dom = record w.dom { calls = w.calls ++ map (λ l. message_call l e) w.message_listeners };
  }
  handle_message env malformed w = record w { conn = record w.conn { last_message_at = env.now } }

  unfoldable pub handle_drop : Env → World A → World A
  unfolding teardown_socket set_status schedule_reconnect
  handle_drop env w =
      if w.stopped
      then w
      else schedule_reconnect env
          (set_status (if w.has_connected then reconnecting else connecting) (teardown_socket w))

  -- `send` may throw: the browser's answer is an argument.
  unfoldable pub send_ping : Env → Bool → World A → World A
  unfolding handle_drop
  send_ping env throws w =
      if is_open_at w.sockets w.socket
      then (if throws
          then handle_drop env w
          else record w { dom = record w.dom { sockets = count_ping w.sockets w.socket } })
      else w

  unfoldable pub check_stale : Env → World A → World A
  unfolding handle_drop
  check_stale env w =
      if not (is_some w.socket) || leb (env.now - w.last_message_at) w.options.stale_after_ms
      then w
      else handle_drop env w

  -- `if (this.retryTimer !== null) { clearTimeout(this.retryTimer); this.retryTimer = null; }`
  unfoldable pub clear_retry : World A → World A
  clear_retry w = record w {
    conn = record w.conn { retry_timer = none };
    dom = record w.dom { timers = clear_timer w.timers w.retry_timer };
  }

  unfoldable pub resume : Env → World A → World A
  resume env w =
      let v = record w { conn = record w.conn { attempt = 0 } } in
      if w.stopped
      then w
      else (if is_open_at w.sockets w.socket then check_stale env v else connect (clear_retry v))

  unfoldable pub start : World A → World A
  unfolding connect
  start w =
      if not w.stopped
      then w
      else connect (record w {
        conn = record w.conn { stopped = false };
        dom = record w.dom { on_visibilitychange = true; on_pageshow = true; on_online = true };
      })

  unfoldable pub stop : World A → World A
  unfolding clear_retry teardown_socket
  stop w = teardown_socket (
      clear_retry (record w {
        conn = record w.conn { stopped = true };
        dom = record w.dom { on_visibilitychange = false; on_pageshow = false; on_online = false };
      }))

  -- The callback of the retry timer, which has run out and is no longer active.
  unfoldable pub retry_fires : ℕ → World A → World A
  unfolding connect
  retry_fires t w = connect (record w {
    conn = record w.conn { retry_timer = none };
    dom = record w.dom { timers = update w.timers t none };
  })
