-- ===== src/LiveState/Tests.antt =====
-- The theorems about the hooks at short histories.
use tether_ddns.Prelude.{
  ℕ, ◌≤◌, ◌≡◌, refl, true, false, none, some, List, [], ◌∷◌, arith, take_last, length,
}
use tether_ddns.Types.{StateSnapshot, LogEntry, IncidentWindow}
use tether_ddns.LiveConnection.State.{parsed, Call, message_call, connected_call, Location, Env}
use tether_ddns.LiveConnection.Events.{Event, opens, closes, message, fires, online, run}
use tether_ddns.LiveState.{initial, after_calls, mount, unmount}
use tether_ddns.LiveState.Logs.{lines_since_open, newest_lines}
use tether_ddns.LiveState.Follow.{shows_connection}
use tether_ddns.LiveState.Unmount.{silent_after_unmount}
use tether_ddns.LiveState.Incidents.{not_asked, render, answered, all_answered, newest_answer_wins}
use tether_ddns.LiveState.Delay.{
  renders, passes, mounted, held_for, held_at_first, long_enough, flag_lem,
}
use tether_ddns.LiveState.Delay

abbrev line : LogEntry
line = record { time = 5; level = "INFO"; logger = "api"; message = "started" }

abbrev empty_snapshot : StateSnapshot
empty_snapshot = record {
  public_ipv4 = none;
  public_ipv6 = none;
  ipv4_changed_at = none;
  ipv6_changed_at = none;
  online = true;
  next_check_at = none;
  heartbeat = none;
  reachability = record { since = 0; rev = 0; ongoing = none; history = []; latest = [] };
  domains = [];
  settings = none;
  logs = none;
  healthchecks = none;
}

-- Every payload is the same line, or the same snapshot.
abbrev as_snapshot : ℕ → StateSnapshot
as_snapshot _ = empty_snapshot

abbrev as_log : ℕ → LogEntry
as_log n = record line { time = n }

abbrev log_call : ℕ → Call ℕ
log_call n = message_call 0 (record { kind = "log"; payload = n })

abbrev heard : List (Call ℕ)
heard = log_call 1 ∷ connected_call 0 0 ∷ log_call 2 ∷ log_call 3 ∷ []

newest_lines_example :
    let s = after_calls as_snapshot as_log heard initial in
    (s.logs ≡ take_last 500 (lines_since_open as_snapshot as_log heard [])) × (length s.logs ≤ 500)
newest_lines_example = newest_lines as_snapshot as_log heard

abbrev site : Location
site = record { protocol = "http:"; host = "localhost:8080" }

abbrev at_time : ℕ → Env
at_time t = record { now = t; random = record { num = 1; den = 2 } }

abbrev history : List (Env × Event ℕ)
history =
    (at_time 10, opens 0)
    ∷ (at_time 20, message 0 (parsed (record { kind = "log"; payload = 7 })))
    ∷ (at_time 30, closes 0)
    ∷ (at_time 600, fires 2 false)
    ∷ (at_time 700, opens 1)
    ∷ []

shows_connection_example :
    let w = run (mount site) history in
    let s = after_calls as_snapshot as_log w.calls initial in
    (s.status ≡ w.status_value) × (s.generation ≡ w.generation_value)
shows_connection_example = shows_connection as_snapshot as_log site history

silent_after_unmount_example :
    (run
      (unmount (run (mount site) history))
      ((at_time 800, closes 1) ∷ (at_time 900, online) ∷ [])).calls
    ≡ (run (mount site) history).calls
silent_after_unmount_example =
    silent_after_unmount as_snapshot as_log site history
      ((at_time 800, closes 1) ∷ (at_time 900, online) ∷ [])

abbrev window : IncidentWindow
window = record { monitoring_since = 5; rev = 2; incidents = []; ongoing = none }

newest_answer_wins_example :
    let s = render 1 0 not_asked in
    let asked = render 2 0 s in
    let waiting = all_answered ((0, none) ∷ []) asked in
    (waiting.data_shown ≡ s.data_shown)
    × ((all_answered [] (answered s.requests (some window) waiting)).data_shown ≡ some window)
unfolding render
newest_answer_wins_example =
    newest_answer_wins 2 0 (some window) ((0, none) ∷ []) [] (render 1 0 not_asked) refl
      (omega arith, tt) tt

abbrev blips : List Delay.Event
blips = passes 1000 ∷ renders false ∷ passes 200 ∷ renders true ∷ passes 1499 ∷ passes 1 ∷ []

flag_lem_example :
    (Delay.run 1500 blips (mounted 1500 true)).flag
    ≡ long_enough 1500 (held_for blips (held_at_first true))
flag_lem_example = flag_lem 1500 true blips (omega arith)
