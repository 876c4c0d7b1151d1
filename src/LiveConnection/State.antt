-- ===== src/LiveConnection/State.antt =====
-- The state of frontend/src/liveConnection.ts: the fields of the class `LiveConnection`, and what
-- it uses of the browser: sockets, timers and event listeners.
use tether_ddns.Prelude.{ℕ, String, Bool, true, false, Option, none, List, [], Ratio}

pub data ConnectionStatus : Type 0 where
  connecting opened reconnecting : ConnectionStatus

pub record Envelope (A : Type 0) : Type 0 where
  pub kind : String
  pub payload : A

-- What `JSON.parse` makes of a message: an envelope, or an exception.
pub data Frame (A : Type 0) : Type 0 where
  parsed : Envelope A → Frame A
  malformed : Frame A

pub record LiveConnectionOptions : Type 0 where
  pub url : Option String
  pub ping_interval_ms : ℕ
  pub watchdog_tick_ms : ℕ
  pub stale_after_ms : ℕ
  pub min_backoff_ms : ℕ
  pub max_backoff_ms : ℕ
  pub backoff_factor : Ratio
  pub jitter_ratio : Ratio

-- The constructor's defaults.
abbrev pub default_options : LiveConnectionOptions
default_options = record {
  url = none;
  ping_interval_ms = 10_000;
  watchdog_tick_ms = 5_000;
  stale_after_ms = 25_000;
  min_backoff_ms = 500;
  max_backoff_ms = 15_000;
  backoff_factor = record { num = 17; den = 10 };
  jitter_ratio = record { num = 2; den = 10 };
}

-- The fields of the class. A listener, a socket and a timer are known by their numbers.
pub record LiveConnection : Type 0 where
  pub options : LiveConnectionOptions
  pub socket : Option ℕ
  pub status_value : ConnectionStatus
  pub generation_value : ℕ
  pub has_connected : Bool
  pub stopped : Bool
  pub attempt : ℕ
  pub retry_timer : Option ℕ
  pub ping_timer : Option ℕ
  pub watchdog_timer : Option ℕ
  pub last_message_at : ℕ
  pub status_listeners : List ℕ
  pub message_listeners : List ℕ
  pub connected_listeners : List ℕ

-- The four handlers of a socket are set together and removed together. `ready_state` is the
-- browser's: 0 connecting, 1 open, 2 closing, 3 closed.
pub record Socket : Type 0 where
  pub url : String
  pub ready_state : ℕ
  pub attached : Bool
  pub pings : ℕ

-- What a running timer calls, with its delay or period.
pub data Timer : Type 0 where
  retry ping watchdog : ℕ → Timer

-- A call of a listener, in the order of the calls.
pub data Call (A : Type 0) : Type 0 where
  status_call : ℕ → ConnectionStatus → Call A
  message_call : ℕ → Envelope A → Call A
  connected_call : ℕ → ℕ → Call A

pub record Location : Type 0 where
  pub protocol : String
  pub host : String

pub record Browser (A : Type 0) : Type 0 where
  pub location : Location
  pub sockets : ℕ → Socket
  pub created : ℕ
  pub timers : ℕ → Option Timer
  pub next_timer : ℕ
  pub on_visibilitychange : Bool
  pub on_pageshow : Bool
  pub on_online : Bool
  pub calls : List (Call A)

pub record World (A : Type 0) : Type 0 where
  pub conn : LiveConnection
  pub open conn use *
  pub dom : Browser A
  pub open dom use *

-- What an event handler reads of the outside: `Date.now()`, and the value of `random()`.
pub record Env : Type 0 where
  pub now : ℕ
  pub random : Ratio

abbrev pub no_socket : Socket
no_socket = record { url = ""; ready_state = 3; attached = false; pings = 0 }

-- `new LiveConnection(options)`.
abbrev pub new_connection : LiveConnectionOptions → LiveConnection
new_connection o = record {
  options = o;
  socket = none;
  status_value = connecting;
  generation_value = 0;
  has_connected = false;
  stopped = true;
  attempt = 0;
  retry_timer = none;
  ping_timer = none;
  watchdog_timer = none;
  last_message_at = 0;
  status_listeners = [];
  message_listeners = [];
  connected_listeners = [];
}

-- A page on which nothing has happened yet.
abbrev pub new_browser : {A : Type 0} → Location → Browser A
new_browser at = record {
  location = at;
  sockets = λ _. no_socket;
  created = 0;
  timers = λ _. none;
  next_timer = 0;
  on_visibilitychange = false;
  on_pageshow = false;
  on_online = false;
  calls = [];
}
