-- ===== src/LiveConnection/Silence.antt =====
-- `stop` of frontend/src/liveConnection.ts: when nothing happens any more, and when something does.
use mathlib.Core.Path.{ap₂}
use tether_ddns.Prelude.{
  ℕ, ◌<◌, ◌≡◌, ◌≢◌, refl, ◌∙◌, ap, Bool, true, false, ◌&&◌, none, some, List, [], ◌∷◌, ◌++◌, map,
  arith, All,
}
use tether_ddns.LiveConnection.State.{
  parsed, Envelope, message_call, World, Env, LiveConnectionOptions, Location,
}
use tether_ddns.LiveConnection.Handlers.{
  is_open_at, handle_message, connect, clear_retry, resume, stop,
}
use tether_ddns.LiveConnection.Events.{
  Event, starts, stops, ready_state, opens, closes, errors, message, fires, visibilitychange,
  pageshow, online, step, run,
}
use tether_ddns.LiveConnection.Invariant.{Inv, step-Inv, fresh}
use tether_ddns.LiveConnection.Timers.{OwnsTimers, points, reset_attempt, step-OwnsTimers}
use tether_ddns.LiveConnection.Sockets.{OwnsSockets, is_dialing, resumes, step-OwnsSockets}

module _ {A : Type 0} where
  -- Nothing can reach the object: seen at one socket and one timer.
  pub record IsQuietAt (w : World A) (n : ℕ) : Type 0 where
    pub is_stopped : w.stopped ≡ true
    pub no_socket : w.socket ≡ none
    pub no_retry : w.retry_timer ≡ none
    pub no_ping : w.ping_timer ≡ none
    pub no_watchdog : w.watchdog_timer ≡ none
    pub timer_off : w.timers n ≡ none
    pub detached : (w.sockets n).attached ≡ false
    pub deaf_visibility : w.on_visibilitychange ≡ false
    pub deaf_pageshow : w.on_pageshow ≡ false
    pub deaf_online : w.on_online ≡ false

  abbrev pub IsQuiet : World A → Type 0
  IsQuiet w = (n : ℕ) → IsQuietAt w n

  stop-IsQuiet : (w : World A) → OwnsTimers w → OwnsSockets w → IsQuiet (stop w)
  unfolding stop
  stop-IsQuiet w own h n = ground (arith, own n, h n)

  abbrev pub is_start : Event A → Bool
  is_start starts = true
  is_start _ = false

  step-IsQuiet :
      (env : Env) (e : Event A) (w : World A)
      → is_start e ≡ false
      → IsQuiet w
      → IsQuiet (step env e w) × ((step env e w).conn ≡ w.conn) × ((step env e w).calls ≡ w.calls)
  unfolding step stop
  step-IsQuiet env starts w s q = cc
  step-IsQuiet env stops w s q =
      (λ n. ground (arith, q n), ground (arith, q 0), ground (arith, q 0))
  step-IsQuiet env (ready_state i r) w s q = (λ n. ground (arith, q n, q i), refl, refl)
  step-IsQuiet env (opens i) w s q =
      (λ n. ground (arith, q n, q i), ground (arith, q i), ground (arith, q i))
  step-IsQuiet env (closes i) w s q =
      (λ n. ground (arith, q n, q i), ground (arith, q i), ground (arith, q i))
  step-IsQuiet env (errors i) w s q =
      (λ n. ground (arith, q n, q i), ground (arith, q i), ground (arith, q i))
  step-IsQuiet env (message i f) w s q =
      (λ n. ground (arith, q n, q i), ground (arith, q i), ground (arith, q i))
  step-IsQuiet env (fires t throws) w s q =
      (λ n. ground (arith, q n, q t), ground (arith, q t), ground (arith, q t))
  step-IsQuiet env (visibilitychange v) w s q =
      (λ n. ground (arith, q n), ground (arith, q 0), ground (arith, q 0))
  step-IsQuiet env pageshow w s q =
      (λ n. ground (arith, q n), ground (arith, q 0), ground (arith, q 0))
  step-IsQuiet env online w s q =
      (λ n. ground (arith, q n), ground (arith, q 0), ground (arith, q 0))

  abbrev pub NoStart : List (Env × Event A) → Type 0
  NoStart = All (λ (x : Env × Event A). is_start x.1 ≡ false)

  run_quiet :
      (w : World A) (es : List (Env × Event A))
      → NoStart es
      → IsQuiet w
      → ((run w es).conn ≡ w.conn) × ((run w es).calls ≡ w.calls)
  unfolding run
  run_quiet w [] s q = (refl, refl)
  run_quiet w ((env, e) ∷ es) (s, ss) q =
      let (q', same_conn, same_calls) = step-IsQuiet env e w s q in
      let (rest_conn, rest_calls) = run_quiet (step env e w) es ss q' in
      (rest_conn ∙ same_conn, rest_calls ∙ same_calls)

  -- The events never make the page resume over a current socket that is not open.
  abbrev pub IsCalm : World A → List (Env × Event A) → Type 0
  IsCalm w [] = Unit
  IsCalm w ((env, e) ∷ es) = ((resumes e && is_dialing w) ≡ false) × IsCalm (step env e w) es

  run_calm :
      (w : World A) (es : List (Env × Event A))
      → IsCalm w es
      → OwnsTimers w
      → Inv w
      → OwnsSockets w
      → OwnsTimers (run w es) × OwnsSockets (run w es)
  unfolding run
  run_calm w [] calm own v h = (own, h)
  run_calm w ((env, e) ∷ es) (calm, later) own v h =
      run_calm (step env e w) es later (step-OwnsTimers env e w own) (step-Inv env e w v)
        (step-OwnsSockets env e w calm own v h)

  -- After any events in which the page never resumes over a socket that is not open, a socket has
  -- its handlers exactly if it is the current one.
  pub sockets_owned :
      (o : LiveConnectionOptions) (at : Location) (es : List (Env × Event A)) (i : ℕ)
      → IsCalm (fresh o at) es
      → let w = run (fresh o at) es in (w.sockets i).attached ≡ points w.socket i
  sockets_owned o at es i calm =
      let (own, h) =
        run_calm (fresh o at) es calm (λ t. ground arith) (ground arith) (λ i. ground arith) in
      (h i).attached_owned

  -- After a run in which the page never resumes over a socket that is not open, `stop` silences
  -- the connection: until the next `start` no event changes the object or calls a listener.
  pub silent_after_stop :
      (o : LiveConnectionOptions) (at : Location) (es fs : List (Env × Event A))
      → IsCalm (fresh o at) es
      → NoStart fs
      → let w = stop (run (fresh o at) es) in
        ((run w fs).conn ≡ w.conn) × ((run w fs).calls ≡ (run (fresh o at) es).calls)
  silent_after_stop o at es fs calm none_starts =
      let (own, h) =
        run_calm (fresh o at) es calm (λ t. ground arith) (ground arith) (λ i. ground arith) in
      let w = run (fresh o at) es in
      let (same_conn, same_calls) = run_quiet (stop w) fs none_starts (stop-IsQuiet w own h) in
      (same_conn, same_calls ∙ stop-calls w)
    where
      stop-calls : (w : World A) → (stop w).calls ≡ w.calls
      stop-calls w = unfold stop in refl

  resume_dials :
      (env : Env) (w : World A)
      → w.stopped ≡ false
      → is_open_at w.sockets w.socket ≡ false
      → resume env w ≡ connect (clear_retry (reset_attempt w))
  unfolding resume
  resume_dials env w up shut = rw (up, shut)

  connect-others :
      (w : World A) (i : ℕ)
      → w.stopped ≡ false
      → i < w.created
      → ((connect w).sockets i ≡ w.sockets i)
        × (points (connect w).socket i ≡ false)
        × ((connect w).calls ≡ w.calls)
        × ((connect w).message_listeners ≡ w.message_listeners)
  unfolding connect
  connect-others w i up born = ground arith

  stop-others :
      (w : World A) (i : ℕ)
      → points w.socket i ≡ false
      → ((stop w).sockets i ≡ w.sockets i)
        × ((stop w).calls ≡ w.calls)
        × ((stop w).message_listeners ≡ w.message_listeners)
        × ((stop w).stopped ≡ true)
  unfolding stop
  stop-others w i other = ground arith

  step-message :
      (env : Env) (w : World A) (i : ℕ) (e : Envelope A)
      → (w.sockets i).attached ≡ true
      → (step env (message i (parsed e)) w).calls
        ≡ w.calls ++ map (λ l. message_call l e) w.message_listeners
  unfolding step handle_message
  step-message env w i e at = rw at

  -- If the page of a running connection resumes while the current socket has its handlers set and is
  -- not open, then after `stop` a message on that socket still reaches every listener.
  pub orphan_outlives_stop :
      (env later : Env) (w : World A) (i : ℕ) (e : Envelope A)
      → w.stopped ≡ false
      → w.socket ≡ some i
      → (w.sockets i).ready_state ≢ 1
      → (w.sockets i).attached ≡ true
      → i < w.created
      → let v = stop (resume env w) in
        (v.stopped ≡ true)
        × ((step later (message i (parsed e)) v).calls
            ≡ w.calls ++ map (λ l. message_call l e) w.message_listeners)
  unfolding clear_retry
  orphan_outlives_stop env later w i e up cur dialing at born =
      let u : World A = clear_retry (reset_attempt w) in
      let v : World A = connect u in
      let (kept, other, calls, listeners) = connect-others u i up born in
      let (kept', calls', listeners', off) = stop-others v i other in
      rw (resume_dials env w up (ground arith)) (
        off,
        step-message later (stop v) i e (ap (λ s. s.attached) (kept' ∙ kept) ∙ at)
            ∙ ap₂ (λ cs ls. cs ++ map (λ l. message_call l e) ls) (calls' ∙ calls)
                (listeners' ∙ listeners),
      )
