-- ===== src/LiveState.antt =====
-- The React hooks that follow the server: frontend/src/useLiveState.ts, useIncidents.ts and
-- useDelayedFlag.ts.
pub mod Logs
pub mod Follow
pub mod Unmount
pub mod Incidents
pub mod Delay
mod Tests
use Prim.Native.String
use tether_ddns.Prelude.{
  ℕ, String, Bool, Option, none, some, List, [], ◌∷◌, ◌++◌, take_last, ◌==◌, string_eq,
  if◌then◌else◌,
}
use tether_ddns.Types.{StateSnapshot, LogEntry}
use tether_ddns.LiveConnection.State.{
  ConnectionStatus, connecting, Envelope, Call, status_call, message_call, connected_call, Location,
  World, default_options, new_connection, new_browser,
}
use tether_ddns.LiveConnection.Handlers.{
  on_status, on_connected, on_message, off_status, off_connected, off_message, start, stop,
}

-- The four states of the hook `useLiveState`, and their first values.
pub record LiveState : Type 0 where
  pub snapshot : Option StateSnapshot
  pub logs : List LogEntry
  pub status : ConnectionStatus
  pub generation : ℕ

abbrev pub initial : LiveState
initial = record { snapshot = none; logs = []; status = connecting; generation = 0 }

-- `as_snapshot` and `as_log` are the casts `payload as …`, which check nothing.
module _ {A : Type 0} (as_snapshot : A → StateSnapshot) (as_log : A → LogEntry) where
  -- The listener of messages.
  unfoldable pub on_envelope : Envelope A → LiveState → LiveState
  on_envelope e s =
      if e.kind == "state"
      then record s { snapshot = some (as_snapshot e.payload) }
      else (if e.kind == "log"
          then record s { logs = take_last 499 s.logs ++ as_log e.payload ∷ [] }
          else s)

  -- The three listeners.
  unfoldable pub on_call : Call A → LiveState → LiveState
  on_call (status_call l status) s = record s { status = status }
  on_call (connected_call l g) s = record s { logs = []; generation = g }
  on_call (message_call l e) s = on_envelope e s

  -- The state of the hook after the calls of its listeners, oldest first.
  unfoldable pub after_calls : List (Call A) → LiveState → LiveState
  after_calls [] s = s
  after_calls (c ∷ cs) s = after_calls cs (on_call c s)

module _ {A : Type 0} where
  -- The effect of `useLiveState`: its own connection, with one listener of each kind.
  unfoldable pub mount : Location → World A
  mount at = start (
      on_message 0 (
        on_connected 0
          (on_status 0 (record { conn = new_connection default_options; dom = new_browser at }))))

  -- The function that the effect returns.
  unfoldable pub unmount : World A → World A
  unmount w = stop (off_message 0 (off_connected 0 (off_status 0 w)))
