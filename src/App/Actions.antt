-- ===== src/App/Actions.antt =====
-- The handlers of frontend/src/App.tsx that make one request and report its end in a toast.
use tether_ddns.Prelude.{
  ℕ, String, Bool, true, false, not, Option, none, some, [], ◌∷◌, ltb, nat_beq, if◌then◌else◌,
}
use text.Mathlib.Text.{◌==◌ as text_beq}
use tether_ddns.Prelude.Text.{Text, lit, num}
use tether_ddns.Types.{DomainConfig, Settings}
use tether_ddns.Api.{
  Request, Result, ok, api_error, other_error, refresh, sync_domain, run_hook, ping_heartbeat,
  update_domain, update_healthchecks, set_check_visible, fetch_healthchecks, put_settings,
}
use tether_ddns.App.{App, ToastKind, success, error, info, push_toast}
use tether_ddns.App.Deletes.{find_domain}

pub data Action : Type 0 where
  refreshes pings : Action
  syncs runs_hook fetches : String → Action
  -- a domain that is there is switched on or off
  toggles : DomainConfig → Action
  toggles_overview : String → Bool → Action
  toggles_check : String → String → Bool → Action

-- The bodies that these requests send.
pub data Body : Type 0 where
  domain_body : DomainConfig → Body
  show_on_overview visible : Bool → Body

-- `handleToggle` first looks for the domain.
unfoldable pub handle_toggle : String → App → Option Action
handle_toggle id s = elim (find_domain id s) [ none ↦ none | some d ↦ some (toggles d) ]

-- What a handler does before its request, and the request.
unfoldable pub begin : Action → App → App × Request Body
begin refreshes s = (record s { refreshing = true }, refresh)
begin pings s = (s, ping_heartbeat)
begin (syncs id) s = (s, sync_domain id)
begin (runs_hook id) s = (s, run_hook id)
begin (fetches id) s = (s, fetch_healthchecks id)
begin (toggles d) s = (s, update_domain d.id (domain_body (record d { enabled = not d.enabled })))
begin (toggles_overview id next) s = (s, update_healthchecks id (show_on_overview next))
begin (toggles_check id key next) s = (s, set_check_visible id key (visible next))

abbrev pub ran_text : ℕ → Text
ran_text n = lit "Ran " ∷ num n ∷ lit " action" ∷ lit (if nat_beq n 1 then "" else "s") ∷ []

abbrev fetch_failed : Option String → Text
fetch_failed none = lit "Fetch failed" ∷ []
fetch_failed (some detail) = lit "Fetch failed: " ∷ lit detail ∷ []

-- `err instanceof ApiError ? err.detail : undefined`
abbrev detail_in : Result ℕ → Option String
detail_in (api_error e) = e.detail
detail_in _ = none

abbrev is_invalid : Result ℕ → Bool
is_invalid (api_error e) = nat_beq e.status 422
is_invalid _ = false

-- `detail ? … : …`: an empty detail counts as none.
abbrev not_empty : Option String → Option String
not_empty none = none
not_empty (some d) = if text_beq d "" then none else some d

-- What a handler reports when its request has succeeded, with the number in the answer to a run, …
unfoldable pub on_success : Action → ℕ → Option (Text × ToastKind)
on_success refreshes n = some (lit "Refresh requested" ∷ [], info)
on_success pings n = none
on_success (syncs id) n = some (lit "Sync requested" ∷ [], info)
on_success (runs_hook id) n =
    if ltb 0 n
    then some (ran_text n, success)
    else some (lit "Nothing to run (no enabled events or IP unknown)" ∷ [], info)
on_success (fetches id) n = some (lit "Checks fetched" ∷ [], success)
on_success (toggles d) n = none
on_success (toggles_overview id next) n = none
on_success (toggles_check id key next) n = none

-- … and when it has failed.
unfoldable pub on_failure : Action → Result ℕ → Text
on_failure refreshes r = lit "Refresh failed" ∷ []
on_failure pings r = lit "Ping request failed" ∷ []
on_failure (syncs id) r = lit "Sync failed" ∷ []
on_failure (runs_hook id) r = lit "Run failed" ∷ []
on_failure (fetches id) r = fetch_failed (not_empty (detail_in r))
on_failure (toggles d) r =
    if is_invalid r
    then lit d.hostname ∷ lit ": fix its provider config first" ∷ []
    else lit "Failed to update domain" ∷ []
on_failure (toggles_overview id next) r = lit "Failed to update project" ∷ []
on_failure (toggles_check id key next) r = lit "Failed to update check" ∷ []

-- Whether the handler loads the configuration again after a success.
unfoldable pub reloads : Action → Bool
reloads (fetches id) = true
reloads (toggles d) = true
reloads (toggles_overview id next) = true
reloads (toggles_check id key next) = true
reloads _ = false

abbrev pub report : String → Option (Text × ToastKind) → App → App
report toast none s = s
report toast (some (message, kind)) s = push_toast toast message kind s

-- `finally { setRefreshing(false); }`
abbrev pub settled : Action → App → App
settled refreshes s = record s { refreshing = false }
settled _ s = s

abbrev pub succeeded : Result ℕ → Option ℕ
succeeded (ok n) = some n
succeeded (api_error e) = none
succeeded other_error = none

-- What a handler does on the answer: the flag says whether it goes on with `loadConfig`.
unfoldable pub finish : Action → Result ℕ → String → App → App × Bool
unfolding on_success on_failure reloads push_toast
finish a r toast s = elim (succeeded r) [
  | none ↦ (settled a (push_toast toast (on_failure a r) error s), false)
  | some n ↦ (settled a (report toast (on_success a n) s), reloads a)
]

-- `handleSaveSettings`: the request, and what happens on its answer. The result tells whether it
-- rejects.
unfoldable pub save_settings : {B : Type 0} → B → Request B
save_settings patch = put_settings patch

unfoldable pub settings_saved : Result Settings → String → App → App × Result Settings
unfolding push_toast
settings_saved (ok next) toast s = (
  push_toast toast (lit "Settings saved" ∷ []) success (record s { settings = some next }),
  ok next,
)
settings_saved (api_error e) toast s =
    (push_toast toast (lit "Failed to save settings" ∷ []) error s, api_error e)
settings_saved other_error toast s =
    (push_toast toast (lit "Failed to save settings" ∷ []) error s, other_error)
