-- ===== src/LiveConnection/Generations.antt =====
-- The numbers that frontend/src/liveConnection.ts hands to a `connected` listener.
use tether_ddns.Prelude.{
  ℕ, zero, suc, ◌+◌, ◌≡◌, refl, ◌∙◌, ap, Bool, false, Option, none, some, List, [], ◌∷◌, ◌++◌, map,
  arith, if◌then◌else◌,
}
use tether_ddns.LiveConnection.State.{
  ConnectionStatus, connecting, opened, reconnecting, Frame, parsed, malformed, Envelope, Timer,
  retry, ping, watchdog, Call, status_call, message_call, connected_call, World, Env,
  LiveConnectionOptions, Location,
}
use tether_ddns.LiveConnection.Handlers.{
  connect, handle_open, handle_message, handle_drop, send_ping, check_stale, clear_retry, resume,
  start, stop, retry_fires, on_connected,
}
use tether_ddns.LiveConnection.Events.{
  Event, starts, stops, ready_state, opens, closes, errors, message, fires, visibilitychange,
  pageshow, online, fire, step, run,
}
use tether_ddns.LiveConnection.Invariant.{fresh}
use tether_ddns.LiveConnection.Timers.{reset_attempt}

-- 0, 1, …, n - 1
pub count_up : ℕ → List ℕ
count_up zero = []
count_up (suc n) = count_up n ++ n ∷ []

module _ {A : Type 0} where
  -- The generations in the calls of `connected` listeners, oldest first.
  abbrev pub generations : List (Call A) → List ℕ
  generations [] = []
  generations (connected_call l g ∷ cs) = g ∷ generations cs
  generations (_ ∷ cs) = generations cs

  generations-append :
      (cs ds : List (Call A)) → generations (cs ++ ds) ≡ generations cs ++ generations ds
  generations-append [] ds = refl
  generations-append (connected_call l g ∷ cs) ds = ap (λ x. g ∷ x) (generations-append cs ds)
  generations-append (_ ∷ cs) ds = generations-append cs ds

  generations-status :
      (cs : List (Call A)) (ls : List ℕ) (s : ConnectionStatus)
      → generations (cs ++ map (λ l. status_call l s) ls) ≡ generations cs
  generations-status [] [] s = refl
  generations-status [] (l ∷ ls) s = generations-status [] ls s
  generations-status (connected_call l g ∷ cs) ls s = ap (λ x. g ∷ x) (generations-status cs ls s)
  generations-status (_ ∷ cs) ls s = generations-status cs ls s

  generations-message :
      (cs : List (Call A)) (ls : List ℕ) (e : Envelope A)
      → generations (cs ++ map (λ l. message_call l e) ls) ≡ generations cs
  generations-message [] [] e = refl
  generations-message [] (l ∷ ls) e = generations-message [] ls e
  generations-message (connected_call l g ∷ cs) ls e = ap (λ x. g ∷ x) (generations-message cs ls e)
  generations-message (_ ∷ cs) ls e = generations-message cs ls e

  -- How many times the connection has opened, as the object tells it.
  abbrev pub openings : World A → ℕ
  openings w = if w.has_connected then suc w.generation_value else 0

  -- One `connected` listener has been told the numbers 0, 1, …, up to the current generation.
  pub record Counted (l : ℕ) (w : World A) : Type 0 where
    pub only : w.connected_listeners ≡ l ∷ []
    pub told : generations w.calls ≡ count_up (openings w)
    pub at_first : w.has_connected ≡ false → w.generation_value ≡ 0

  told_after_status :
      (cs : List (Call A)) (ls : List ℕ) (s : ConnectionStatus) (l g : ℕ)
      → generations ((cs ++ map (λ k. status_call k s) ls) ++ connected_call l g ∷ [])
        ≡ generations cs ++ g ∷ []
  told_after_status cs ls s l g =
      generations-append (cs ++ map (λ k. status_call k s) ls) (connected_call l g ∷ [])
      ∙ ap (λ gs. gs ++ g ∷ []) (generations-status cs ls s)

  handle_open-Counted :
      (l : ℕ) (env : Env) (w : World A) → Counted l w → Counted l (handle_open env w)
  unfolding handle_open count_up
  handle_open-Counted l env w c = ground (
    arith,
    generations-append w.calls (connected_call l w.generation_value ∷ []),
    generations-append w.calls (connected_call l (w.generation_value + 1) ∷ []),
    told_after_status w.calls w.status_listeners opened l w.generation_value,
    told_after_status w.calls w.status_listeners opened l (w.generation_value + 1),
  )

  handle_message-Counted :
      (l : ℕ) (env : Env) (f : Frame A) (w : World A)
      → Counted l w
      → Counted l (handle_message env f w)
  unfolding handle_message
  handle_message-Counted l env (parsed e) w c =
      ground (arith, generations-message w.calls w.message_listeners e)
  handle_message-Counted l env malformed w c = ground arith

  handle_drop-Counted :
      (l : ℕ) (env : Env) (w : World A) → Counted l w → Counted l (handle_drop env w)
  unfolding handle_drop
  handle_drop-Counted l env w c = ground (
    arith,
    generations-status w.calls w.status_listeners reconnecting,
    generations-status w.calls w.status_listeners connecting,
  )

  send_ping-Counted :
      (l : ℕ) (env : Env) (throws : Bool) (w : World A)
      → Counted l w
      → Counted l (send_ping env throws w)
  unfolding send_ping
  send_ping-Counted l env throws w c = ground (arith, handle_drop-Counted l env w c)

  check_stale-Counted :
      (l : ℕ) (env : Env) (w : World A) → Counted l w → Counted l (check_stale env w)
  unfolding check_stale
  check_stale-Counted l env w c = ground (arith, handle_drop-Counted l env w c)

  connect-Counted : (l : ℕ) (w : World A) → Counted l w → Counted l (connect w)
  unfolding connect
  connect-Counted l w c = ground arith

  resume-Counted : (l : ℕ) (env : Env) (w : World A) → Counted l w → Counted l (resume env w)
  unfolding resume clear_retry
  resume-Counted l env w c =
      let v : World A = reset_attempt w in
      let d : Counted l v = record { only = c.only; told = c.told; at_first = c.at_first } in
      let e : Counted l (clear_retry v) = record {
        only = c.only;
        told = c.told;
        at_first = c.at_first;
      } in
      ground (arith, check_stale-Counted l env v d, connect-Counted l (clear_retry v) e)

  start-Counted : (l : ℕ) (w : World A) → Counted l w → Counted l (start w)
  unfolding start
  start-Counted l w c = ground arith

  stop-Counted : (l : ℕ) (w : World A) → Counted l w → Counted l (stop w)
  unfolding stop
  stop-Counted l w c = ground arith

  fire-Counted :
      (l : ℕ) (env : Env) (t : ℕ) (throws : Bool) (o : Option Timer) (w : World A)
      → Counted l w
      → Counted l (fire env t throws o w)
  unfolding retry_fires
  fire-Counted l env t throws none w c = c
  fire-Counted l env t throws (some (retry d)) w c = ground arith
  fire-Counted l env t throws (some (ping d)) w c = send_ping-Counted l env throws w c
  fire-Counted l env t throws (some (watchdog d)) w c = check_stale-Counted l env w c

  step-Counted :
      (l : ℕ) (env : Env) (e : Event A) (w : World A) → Counted l w → Counted l (step env e w)
  unfolding step
  step-Counted l env starts w c = start-Counted l w c
  step-Counted l env stops w c = stop-Counted l w c
  step-Counted l env (ready_state i r) w c = ground arith
  step-Counted l env (opens i) w c = ground (arith, handle_open-Counted l env w c)
  step-Counted l env (closes i) w c = ground (arith, handle_drop-Counted l env w c)
  step-Counted l env (errors i) w c = ground (arith, handle_drop-Counted l env w c)
  step-Counted l env (message i f) w c = ground (arith, handle_message-Counted l env f w c)
  step-Counted l env (fires t throws) w c = fire-Counted l env t throws (w.timers t) w c
  step-Counted l env (visibilitychange visible) w c = ground (arith, resume-Counted l env w c)
  step-Counted l env pageshow w c = ground (arith, resume-Counted l env w c)
  step-Counted l env online w c = ground (arith, resume-Counted l env w c)

  run-Counted :
      (l : ℕ) (w : World A) (es : List (Env × Event A)) → Counted l w → Counted l (run w es)
  unfolding run
  run-Counted l w [] c = c
  run-Counted l w ((env, e) ∷ es) c = run-Counted l (step env e w) es (step-Counted l env e w c)

  -- A listener that subscribes before the connection starts is told 0, 1, 2, … in this order, with
  -- no number left out or repeated, whatever events occur, and the last one is `generation`.
  pub generations_in_order :
      (l : ℕ) (o : LiveConnectionOptions) (at : Location) (es : List (Env × Event A))
      → let w = run (on_connected l (fresh o at)) es in generations w.calls ≡ count_up (openings w)
  generations_in_order l o at es =
      (run-Counted l (on_connected l (fresh o at)) es
        (unfold on_connected count_up in ground arith)).told
