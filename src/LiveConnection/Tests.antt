-- ===== src/LiveConnection/Tests.antt =====
-- The theorems about `LiveConnection` at a short history of a page.
use tether_ddns.LiveConnection.Events.{ready_state}
use tether_ddns.LiveConnection.Handlers.{is_open_at}
use tether_ddns.Prelude.{
  ℕ, ◌≤◌, ◌≡◌, refl, true, false, not, ◌&&◌, ◌||◌, none, some, List, [], ◌∷◌, ◌++◌, map, arith,
  Ratio,
}
use tether_ddns.LiveConnection.State.{
  parsed, Envelope, message_call, World, Env, Location, default_options,
}
use tether_ddns.LiveConnection.Backoff.{next_delay}
use tether_ddns.LiveConnection.Bounds.{default_delay_bounds}
use tether_ddns.LiveConnection.Handlers.{
  is_some, start, stop, resume, handle_drop, handle_open, handle_message, on_message, on_connected,
}
use tether_ddns.LiveConnection.Events.{
  Event, starts, opens, closes, message, fires, online, step, run,
}
use tether_ddns.LiveConnection.Invariant.{fresh, always_under_way}
use tether_ddns.LiveConnection.Timers.{is_retry, is_ping, is_watchdog, points, timers_owned}
use tether_ddns.LiveConnection.Sockets.{resume_orphans}
use tether_ddns.LiveConnection.Silence.{sockets_owned, silent_after_stop, orphan_outlives_stop}
use tether_ddns.LiveConnection.Recovery.{drop_recovers}
use tether_ddns.LiveConnection.State.{opened, retry, reconnecting, connecting}
use tether_ddns.Prelude.{◌<◌, ◌-◌, ◌⊎◌, if◌then◌else◌}
use tether_ddns.LiveConnection.Watchdog.{silence_is_noticed}
use tether_ddns.LiveConnection.Progress.{way, all_possible, heard_events, can_open}
use tether_ddns.LiveConnection.Generations.{generations, count_up, openings, generations_in_order}

abbrev site : Location
site = record { protocol = "https:"; host = "ddns.local" }

abbrev at_time : ℕ → Env
at_time t = record { now = t; random = record { num = 1; den = 2 } }

abbrev hello : Envelope ℕ
hello = record { kind = "log"; payload = 7 }

-- The connection opens, hears a message, is lost, and opens again.
abbrev history : List (Env × Event ℕ)
history =
    (at_time 0, starts)
    ∷ (at_time 10, opens 0)
    ∷ (at_time 20, message 0 (parsed hello))
    ∷ (at_time 30, closes 0)
    ∷ (at_time 600, fires 2 false)
    ∷ (at_time 700, opens 1)
    ∷ []

-- What may still arrive after `stop`.
abbrev aftermath : List (Env × Event ℕ)
aftermath = (at_time 800, closes 1) ∷ (at_time 900, online) ∷ (at_time 999, fires 3 false) ∷ []

-- A started connection whose first socket is still connecting, with a listener.
abbrev dialing_world : World ℕ
dialing_world = start (on_message 4 (fresh default_options site))

always_under_way_example :
    let w = run (fresh default_options site) history in
    ((is_some w.socket || is_some w.retry_timer) ≡ not w.stopped)
    × ((is_some w.socket && is_some w.retry_timer) ≡ false)
always_under_way_example = always_under_way default_options site history

timers_owned_example :
    let w = run (fresh default_options site) history in
    (is_retry (w.timers 2) ≡ points w.retry_timer 2)
    × (is_ping (w.timers 2) ≡ points w.ping_timer 2)
    × (is_watchdog (w.timers 2) ≡ points w.watchdog_timer 2)
timers_owned_example = timers_owned default_options site history 2

sockets_owned_example :
    let w = run (fresh default_options site) history in (w.sockets 1).attached ≡ points w.socket 1
unfolding step
sockets_owned_example =
    sockets_owned default_options site history 1 (refl, (refl, (refl, (refl, (refl, (refl, tt))))))

silent_after_stop_example :
    let w = stop (run (fresh default_options site) history) in
    ((run w aftermath).conn ≡ w.conn)
    × ((run w aftermath).calls ≡ (run (fresh default_options site) history).calls)
unfolding step
silent_after_stop_example =
    silent_after_stop default_options site history aftermath
      (refl, (refl, (refl, (refl, (refl, (refl, tt)))))) (refl, (refl, (refl, tt)))

generations_in_order_example :
    let w = run (on_connected 5 (fresh default_options site)) history in
    generations w.calls ≡ count_up (openings w)
generations_in_order_example = generations_in_order 5 default_options site history

orphan_outlives_stop_example :
    let v = stop (resume (at_time 50) dialing_world) in
    (v.stopped ≡ true)
    × ((step (at_time 60) (message 0 (parsed hello)) v).calls
        ≡ dialing_world.calls ++ map (λ l. message_call l hello) dialing_world.message_listeners)
unfolding start on_message
orphan_outlives_stop_example =
    orphan_outlives_stop (at_time 50) (at_time 60) dialing_world 0 hello refl refl (omega arith)
      refl (omega arith)

resume_orphans_example :
    let v = resume (at_time 50) dialing_world in
    (v.socket ≡ some dialing_world.created)
    × ((v.sockets 0).attached ≡ true)
    × ((v.sockets dialing_world.created).attached ≡ true)
    × (points v.socket 0 ≡ false)
unfolding start on_message
resume_orphans_example =
    resume_orphans (at_time 50) dialing_world 0 refl refl (omega arith) refl (omega arith)

drop_recovers_example :
    let w = dialing_world in
    let u = step (at_time 600) (fires w.next_timer false) (handle_drop (at_time 50) w) in
    (u.socket ≡ some w.created)
    × ((u.sockets w.created).attached ≡ true)
    × ((u.sockets w.created).ready_state ≡ 0)
    × (u.retry_timer ≡ none)
    × (u.timers w.next_timer ≡ none)
unfolding start on_message
drop_recovers_example = drop_recovers (at_time 50) (at_time 600) dialing_world false refl refl

abbrev half : Ratio
half = record { num = 1; den = 2 }

default_delay_bounds_example :
    (400 ≤ next_delay default_options half 3) × (next_delay default_options half 3 ≤ 18000)
default_delay_bounds_example = default_delay_bounds half 3 (omega arith)

-- The connection opens, and its socket is closing.
abbrev lost : List (Env × Event ℕ)
lost =
    (at_time 0, starts)
    ∷ (at_time 9, ready_state 0 1)
    ∷ (at_time 10, opens 0)
    ∷ (at_time 30, ready_state 0 2)
    ∷ []

can_open_example :
    let w = run (fresh default_options site) lost in
    let v = run w (way (at_time 600) w) in
    (all_possible w (way (at_time 600) w) ≡ true)
    × (heard_events (way (at_time 600) w) ≤ 3)
    × (v.status_value ≡ opened)
    × (is_open_at v.sockets v.socket ≡ true)
unfolding run step start handle_open
can_open_example = can_open default_options site lost (at_time 600) refl

-- The connection is open and has heard a message.
abbrev talking : List (Env × Event ℕ)
talking = (at_time 0, starts) ∷ (at_time 10, opens 0) ∷ (at_time 20, message 0 (parsed hello)) ∷ []

silence_is_noticed_example :
    let w = run (fresh default_options site) talking in
    let v = step (at_time 90000) (fires 1 false) w in
    let silence = 90000 - w.last_message_at in
    ((silence ≤ w.options.stale_after_ms) × (v ≡ w))
    ⊎ ((w.options.stale_after_ms < silence)
        × (v.socket ≡ none)
        × (v.retry_timer ≡ some w.next_timer)
        × (v.timers w.next_timer ≡ some (retry (next_delay w.options half w.attempt)))
        × (v.status_value ≡ (if w.has_connected then reconnecting else connecting))
        × (all_possible v (way (at_time 91000) v) ≡ true)
        × (heard_events (way (at_time 91000) v) ≤ 2)
        × ((run v (way (at_time 91000) v)).status_value ≡ opened))
unfolding run step start handle_open handle_message
silence_is_noticed_example =
    silence_is_noticed default_options site talking (at_time 90000) (at_time 91000) 1 false refl
      refl refl
