-- ===== src/LiveConnection/Watchdog.antt =====
-- What the watchdog of frontend/src/liveConnection.ts does with a connection that says nothing.
use tether_ddns.Prelude.{
  ℕ, ◌-◌, ◌≤◌, ◌<◌, ◌≡◌, ◌⊎◌, inl, inr, refl, ap, ◌∙◌, Bool, leb, Bool-cases, true, false, Option,
  none, some, List, [], ◌∷◌, arith, if◌then◌else◌,
}
use tether_ddns.LiveConnection.State.{
  Timer, retry, ping, watchdog, opened, connecting, reconnecting, World, Env, LiveConnectionOptions,
  Location,
}
use tether_ddns.LiveConnection.Backoff.{next_delay}
use tether_ddns.LiveConnection.Handlers.{is_some, handle_drop, check_stale}
use tether_ddns.LiveConnection.Events.{Event, fires, fire, step, run}
use tether_ddns.LiveConnection.Invariant.{fresh, run-Inv}
use tether_ddns.LiveConnection.Timers.{is_watchdog, run-OwnsTimers}
use tether_ddns.LiveConnection.Recovery.{handle_drop_schedules}
use tether_ddns.LiveConnection.Progress.{
  run-Heard, way, way_arrives, all_possible, heard_events, idle-heard,
}

module _ {A : Type 0} where
  watchdog_fires :
      (env : Env) (throws : Bool) (t : ℕ) (o : Option Timer) (w : World A)
      → is_watchdog o ≡ true
      → fire env t throws o w ≡ check_stale env w
  watchdog_fires env throws t none w h = ground arith
  watchdog_fires env throws t (some (retry d)) w h = ground arith
  watchdog_fires env throws t (some (ping d)) w h = ground arith
  watchdog_fires env throws t (some (watchdog d)) w h = refl

  heard_lem :
      (env : Env) (w : World A)
      → env.now - w.last_message_at ≤ w.options.stale_after_ms
      → check_stale env w ≡ w
  unfolding check_stale
  heard_lem env w h = ground arith

  silent_lem :
      (env : Env) (w : World A)
      → is_some w.socket ≡ true
      → w.options.stale_after_ms < env.now - w.last_message_at
      → check_stale env w ≡ handle_drop env w
  unfolding check_stale
  silent_lem env w s h = ground arith

  -- A silent connection of a running object is dropped, and can be open again.
  drop_lem :
      (o : LiveConnectionOptions) (at : Location) (es : List (Env × Event A)) (env later : Env)
      (t : ℕ) (throws : Bool)
      → let w = run (fresh o at) es in
        let v = step env (fires t throws) w in
        w.stopped ≡ false
        → is_some w.socket ≡ true
        → v ≡ handle_drop env w
        → (v.socket ≡ none)
          × (v.retry_timer ≡ some w.next_timer)
          × (v.timers w.next_timer ≡ some (retry (next_delay w.options env.random w.attempt)))
          × (v.status_value ≡ (if w.has_connected then reconnecting else connecting))
          × (all_possible v (way later v) ≡ true)
          × (heard_events (way later v) ≤ 2)
          × ((run v (way later v)).status_value ≡ opened)
  unfolding run
  drop_lem o at es env later t throws n s e =
      let w = run (fresh o at) es in
      let v = step env (fires t throws) w in
      let inv = run-Inv (fresh o at) es (ground arith) in
      let one : List (Env × Event A) = (env, fires t throws) ∷ [] in
      let idle : w.retry_timer ≡ none = ground (arith, inv.one_way) in
      let (a, b, c, _, d, f, _) = handle_drop_schedules env w n idle in
      let stopped : v.stopped ≡ false = ap (λ (x : World A). x.stopped) e ∙ f in
      let gone : v.socket ≡ none = ap (λ (x : World A). x.socket) e ∙ a in
      let arrives =
        way_arrives later v v.socket v.retry_timer refl refl stopped (run-Inv w one inv)
          (run-Heard w one (run-Heard (fresh o at) es (ground arith)))
          (run-OwnsTimers w one (run-OwnsTimers (fresh o at) es (λ u. ground arith))) in
      (
        gone,
        ap (λ (x : World A). x.retry_timer) e ∙ b,
        ap (λ (x : World A). x.timers w.next_timer) e ∙ c,
        ap (λ (x : World A). x.status_value) e ∙ d,
        arrives.possible,
        idle-heard later v v.socket v.retry_timer gone,
        arrives.status,
      )

  -- When the watchdog fires on a running object that has a socket, after any events whatever: if the last
  -- message or opening is no longer ago than the time after which a connection is stale, nothing changes;
  -- if it is, the socket is given up, a retry is set with the delay for the attempts so far, the status is
  -- reconnecting, or connecting if there was no opening yet, and a way that a browser can
  -- go, of which the page hears at most two events, leads from there to an open connection.
  pub silence_is_noticed :
      (o : LiveConnectionOptions) (at : Location) (es : List (Env × Event A)) (env later : Env)
      (t : ℕ) (throws : Bool)
      → (run (fresh o at) es).stopped ≡ false
      → is_some (run (fresh o at) es).socket ≡ true
      → (run (fresh o at) es).watchdog_timer ≡ some t
      → let w = run (fresh o at) es in
        let v = step env (fires t throws) w in
        let silence = env.now - w.last_message_at in
        ((silence ≤ w.options.stale_after_ms) × (v ≡ w))
        ⊎ ((w.options.stale_after_ms < silence)
            × (v.socket ≡ none)
            × (v.retry_timer ≡ some w.next_timer)
            × (v.timers w.next_timer ≡ some (retry (next_delay w.options env.random w.attempt)))
            × (v.status_value ≡ (if w.has_connected then reconnecting else connecting))
            × (all_possible v (way later v) ≡ true)
            × (heard_events (way later v) ≤ 2)
            × ((run v (way later v)).status_value ≡ opened))
  unfolding step
  silence_is_noticed o at es env later t throws n s d =
      let w = run (fresh o at) es in
      let own = run-OwnsTimers (fresh o at) es (λ u. ground arith) t in
      let is_dog : is_watchdog (w.timers t) ≡ true = ground (arith, own.watchdog_owned) in
      let fired : step env (fires t throws) w ≡ check_stale env w =
        watchdog_fires env throws t (w.timers t) w is_dog in
      elim (Bool-cases (leb (env.now - w.last_message_at) w.options.stale_after_ms)) [
        | inl b ↦
            let recent : env.now - w.last_message_at ≤ w.options.stale_after_ms = ground arith in
            inl (recent, fired ∙ heard_lem env w recent)
        | inr b ↦
            let long : w.options.stale_after_ms < env.now - w.last_message_at = ground arith in
            let (a, b, c, e, f, g, k) =
              drop_lem o at es env later t throws n s (fired ∙ silent_lem env w s long) in
            inr (long, a, b, c, e, f, g, k)
      ]
