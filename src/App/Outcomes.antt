-- ===== src/App/Outcomes.antt =====
-- How the handlers of frontend/src/App.tsx report their end, whatever the server answers.
use tether_ddns.Prelude.{List, some, ◌||◌}
use tether_ddns.Types.{Settings}
use tether_ddns.Utils.Incidents.{DayBucket}
use tether_ddns.Api.{
  Request, Method, put, refresh, ping_heartbeat, sync_domain, run_hook, fetch_healthchecks,
  update_domain, update_healthchecks, set_check_visible,
}
use tether_ddns.App.{DeleteKind}
use tether_ddns.App.Deletes.{delete_answered, capitalized, lower}
use tether_ddns.App.Dialog.{Session, answer}
use tether_ddns.App.Actions.{begin, settings_saved}
use tether_ddns.Prelude.{
  ℕ, ◌+◌, ◌≤◌, ◌≡◌, refl, String, Bool, true, false, not, ◌&&◌, Option, [], ◌∷◌, arith, length,
  count, count-append, length-append, if◌then◌else◌,
}
use tether_ddns.Prelude.Text.{Text, lit}
use tether_ddns.Api.{Result, ok, api_error, other_error}
use tether_ddns.App.{App, ToastItem, ToastKind, success, error, info, push_toast, is_some}
use tether_ddns.App.Actions.{
  Action, refreshes, pings, syncs, runs_hook, fetches, toggles, toggles_overview, toggles_check,
  on_success, on_failure, reloads, succeeded, finish, report, settled, ran_text,
}

abbrev kind_is_error : ToastKind → Bool
kind_is_error error = true
kind_is_error _ = false

abbrev pub is_error : ToastItem → Bool
is_error t = kind_is_error t.kind

abbrev is_put : Method → Bool
is_put put = true
is_put _ = false

abbrev is_fetch : Action → Bool
is_fetch (fetches _) = true
is_fetch _ = false

-- Whether the request of an action replaces something in the configuration, or fetches a project's checks.
unfoldable pub changes_config : Action → App → Bool
changes_config a s = is_put (begin a s).1.method || is_fetch a

count_toast :
    (toast : String) (m : Text) (k : ToastKind) (s : App)
    → (count is_error (push_toast toast m k s).toasts
        ≡ count is_error s.toasts + (if kind_is_error k then 1 else 0))
      × (length (push_toast toast m k s).toasts ≡ length s.toasts + 1)
unfolding push_toast
count_toast toast m k s = (
  ground
      (arith, count-append is_error s.toasts (record { id = toast; message = m; kind = k } ∷ [])),
  length-append s.toasts (record { id = toast; message = m; kind = k } ∷ []),
)

settled-toasts : (a : Action) (s : App) → (settled a s).toasts ≡ s.toasts
settled-toasts refreshes s = refl
settled-toasts pings s = refl
settled-toasts (syncs id) s = refl
settled-toasts (runs_hook id) s = refl
settled-toasts (fetches id) s = refl
settled-toasts (toggles d) s = refl
settled-toasts (toggles_overview id next) s = refl
settled-toasts (toggles_check id key next) s = refl

reloads_lem : (a : Action) (s : App) → reloads a ≡ changes_config a s
unfolding reloads changes_config begin update_domain update_healthchecks set_check_visible refresh
    ping_heartbeat sync_domain run_hook fetch_healthchecks
reloads_lem refreshes s = refl
reloads_lem pings s = refl
reloads_lem (syncs id) s = refl
reloads_lem (runs_hook id) s = refl
reloads_lem (fetches id) s = refl
reloads_lem (toggles d) s = refl
reloads_lem (toggles_overview id next) s = refl
reloads_lem (toggles_check id key next) s = refl

abbrev Reported : Option (Text × ToastKind) → String → App → Type 0
Reported o toast s =
    (count is_error (report toast o s).toasts ≡ count is_error s.toasts)
    × (length (report toast o s).toasts ≤ length s.toasts + 1)

success-Reported :
    (a : Action) (n : ℕ) (toast : String) (s : App) → Reported (on_success a n) toast s
unfolding on_success
success-Reported refreshes n toast s =
    ground (arith, count_toast toast (lit "Refresh requested" ∷ []) info s)
success-Reported pings n toast s = ground arith
success-Reported (syncs id) n toast s =
    ground (arith, count_toast toast (lit "Sync requested" ∷ []) info s)
success-Reported (runs_hook id) n toast s = ground (
  arith,
  count_toast toast (ran_text n) success s,
  count_toast toast (lit "Nothing to run (no enabled events or IP unknown)" ∷ []) info s,
)
success-Reported (fetches id) n toast s =
    ground (arith, count_toast toast (lit "Checks fetched" ∷ []) success s)
success-Reported (toggles d) n toast s = ground arith
success-Reported (toggles_overview id next) n toast s = ground arith
success-Reported (toggles_check id key next) n toast s = ground arith

action_lem :
    (a : Action) (r : Result ℕ) (toast : String) (s : App)
    → let (after, reload) = finish a r toast s in
      let failed = not (is_some (succeeded r)) in
      (count is_error after.toasts ≡ count is_error s.toasts + (if failed then 1 else 0))
      × (length after.toasts ≤ length s.toasts + 1)
      × (reload ≡ (not failed && changes_config a s))
unfolding finish
action_lem a (ok n) toast s =
    let (same, more) = success-Reported a n toast s in
    let e = settled-toasts a (report toast (on_success a n) s) in
    rw e (omega (arith, same), more, reloads_lem a s)
action_lem a (api_error e) toast s =
    let m = on_failure a (api_error e) in
    let (one_more, longer) = count_toast toast m error s in
    rw (settled-toasts a (push_toast toast m error s)) (one_more, omega (arith, longer), refl)
action_lem a other_error toast s =
    let m = on_failure a other_error in
    let (one_more, longer) = count_toast toast m error s in
    rw (settled-toasts a (push_toast toast m error s)) (one_more, omega (arith, longer), refl)

delete_lem :
    (kind : DeleteKind) (done : Bool) (toast : String) (s : App)
    → let after = delete_answered kind done toast s in
      (count is_error after.toasts ≡ count is_error s.toasts + (if done then 0 else 1))
      × (length after.toasts ≡ length s.toasts + 1)
unfolding delete_answered
delete_lem kind true toast s =
    count_toast toast (lit (capitalized kind) ∷ lit " deleted" ∷ []) info
      (record s { confirm_open = false })
delete_lem kind false toast s =
    count_toast toast (lit "Failed to delete " ∷ lit (lower kind) ∷ []) error
      (record s { confirm_open = false })

-- Whether a save of the settings has succeeded, and the settings that are then shown.
abbrev pub is_saved : Result Settings → Bool
is_saved (ok next) = true
is_saved _ = false

abbrev pub shown_settings : Result Settings → Option Settings → Option Settings
shown_settings (ok next) before = some next
shown_settings _ before = before

settings_lem :
    (r : Result Settings) (toast : String) (s : App)
    → let (after, returned) = settings_saved r toast s in
      (count is_error after.toasts ≡ count is_error s.toasts + (if is_saved r then 0 else 1))
      × (length after.toasts ≡ length s.toasts + 1)
      × (after.settings ≡ shown_settings r s.settings)
      × (returned ≡ r)
unfolding settings_saved push_toast
settings_lem (ok next) toast s =
    let (errors, more) =
      count_toast toast (lit "Settings saved" ∷ []) success (record s { settings = some next }) in
    (unfold push_toast in errors, more, refl, refl)
settings_lem (api_error e) toast s =
    let (errors, more) = count_toast toast (lit "Failed to save settings" ∷ []) error s in
    (errors, more, refl, refl)
settings_lem other_error toast s =
    let (errors, more) = count_toast toast (lit "Failed to save settings" ∷ []) error s in
    (errors, more, refl, refl)

-- How the handlers that make one request report its end. A refresh, a ping, a sync, a run of a hook, a fetch
-- and a change of a switch report at most one toast, and load the configuration again exactly after a
-- success of one whose request replaces something or fetches. A delete reports one toast and goes on to
-- load again, also after a failure. A save of the settings reports one toast, takes over what the server
-- answers, and hands the outcome on. In each case the toast is an error exactly if the request has failed.
pub finish_lem :
    (host_in : String → Option String) (buckets : List DayBucket) (a : Action) (r : Result ℕ)
    (kind : DeleteKind) (sent : Request Unit) (done : Bool) (saved : Result Settings)
    (toast : String) (s : Session)
    → let (after, reload) = finish a r toast s.app in
      let failed = not (is_some (succeeded r)) in
      let deleted = answer host_in buckets done toast (some (kind, sent)) s in
      let (settled, returned) = settings_saved saved toast s.app in
      let errors = count is_error s.app.toasts in
      let toasts = length s.app.toasts in
      (count is_error after.toasts ≡ errors + (if failed then 1 else 0))
      × (length after.toasts ≤ toasts + 1)
      × (reload ≡ (not failed && changes_config a s.app))
      × (count is_error deleted.app.toasts ≡ errors + (if done then 0 else 1))
      × (length deleted.app.toasts ≡ toasts + 1)
      × (deleted.reloading ≡ true)
      × (count is_error settled.toasts ≡ errors + (if is_saved saved then 0 else 1))
      × (length settled.toasts ≡ toasts + 1)
      × (settled.settings ≡ shown_settings saved s.app.settings)
      × (returned ≡ saved)
finish_lem host_in buckets a r kind sent done saved toast s =
    let (ae, at_most, again) = action_lem a r toast s.app in
    let (de, dt) = delete_lem kind done toast s.app in
    let (se, st, kept, handed) = settings_lem saved toast s.app in
    (ae, at_most, again, de, dt, refl, se, st, kept, handed)
