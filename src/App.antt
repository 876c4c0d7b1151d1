-- ===== src/App.antt =====
-- frontend/src/App.tsx: the state of the page, and what its handlers share.
pub mod Copy
pub mod Deletes
pub mod Dialog
pub mod Saves
pub mod RailText
pub mod RailWidth
pub mod Modals
pub mod ModalMoves
pub mod OneModal
pub mod Actions
pub mod Outcomes
mod Tests
use tether_ddns.Prelude.{
  ℕ, String, Bool, true, false, not, ◌||◌, Option, none, some, List, [], ◌∷◌, ◌++◌, keep, find?,
  nat_beq, ◌==◌, string_eq, min, max, if◌then◌else◌,
}
use tether_ddns.Prelude.Text.{Text}
use tether_ddns.Prelude.Dict.{insert}
use tether_ddns.Types.{
  Provider, HookDef, DomainState, Settings, HealthchecksProject, DomainConfig, HookConfig,
}
use tether_ddns.Utils.Incidents.{DayBucket}
use Copy.{DeleteCopy}

pub data Theme : Type 0 where
  dark light : Theme

pub data DeleteKind : Type 0 where
  domain hook project : DeleteKind

pub record PendingDelete : Type 0 where
  pub kind : DeleteKind
  pub id : String
  pub copy : DeleteCopy

pub data ToastKind : Type 0 where
  success error info : ToastKind

pub record ToastItem : Type 0 where
  pub id : String
  pub message : Text
  pub kind : ToastKind

pub data ViewKey : Type 0 where
  overview domains_view hooks_view healthchecks logs settings_view about : ViewKey

-- The states of the component `App`.
pub record App : Type 0 where
  pub providers : List Provider
  pub hook_defs : List HookDef
  pub domains : List DomainConfig
  pub hooks : List HookConfig
  pub projects : List HealthchecksProject
  pub settings : Option Settings
  pub theme : Theme
  pub toasts : List ToastItem
  pub refreshing : Bool
  pub active_view : ViewKey
  pub rail_mobile_open : Bool
  pub rail_collapsed : Bool
  pub domain_modal_open : Bool
  pub editing_domain : Option DomainConfig
  pub hook_modal_open : Bool
  pub editing_hook : Option HookConfig
  pub project_modal_open : Bool
  pub editing_project : Option HealthchecksProject
  pub selected_day_start : Option ℕ
  pub pending_delete : Option PendingDelete
  pub confirm_open : Bool
  pub deleting : Bool

-- What `localStorage` holds under 'tether-theme': `none` for no value or an exception.
unfoldable pub initial_theme : Option String → Theme
initial_theme none = dark
initial_theme (some saved) = if saved == "light" then light else dark

-- The first render, with what `localStorage` holds under 'tether-rail-collapsed'.
unfoldable pub first_state : Option String → Option String → App
first_state saved_theme saved_collapsed = record {
  providers = [];
  hook_defs = [];
  domains = [];
  hooks = [];
  projects = [];
  settings = none;
  theme = initial_theme saved_theme;
  toasts = [];
  refreshing = false;
  active_view = overview;
  rail_mobile_open = false;
  rail_collapsed = elim saved_collapsed [ none ↦ false | some saved ↦ saved == "1" ];
  domain_modal_open = false;
  editing_domain = none;
  hook_modal_open = false;
  editing_hook = none;
  project_modal_open = false;
  editing_project = none;
  selected_day_start = none;
  pending_delete = none;
  confirm_open = false;
  deleting = false;
}

-- `dayBuckets.find((b) => b.start === selectedDayStart) ?? null`
abbrev pub day_at : Option ℕ → List DayBucket → Option DayBucket
day_at none buckets = none
day_at (some start) buckets = find? (λ (b : DayBucket). nat_beq b.start start) buckets

unfoldable pub selected_day : List DayBucket → App → Option DayBucket
selected_day buckets s = day_at s.selected_day_start buckets

abbrev pub is_some {ℓ} : {A : Type ℓ} → Option A → Bool
is_some none = false
is_some (some _) = true

unfoldable pub any_modal_open : List DayBucket → App → Bool
unfolding selected_day
any_modal_open buckets s =
    s.domain_modal_open
    || s.hook_modal_open
    || s.project_modal_open
    || s.confirm_open
    || is_some (selected_day buckets s)

-- Which of the two states of the rail the button changes depends on the width of the window.
unfoldable pub toggle_rail : Bool → App → App
toggle_rail narrow s =
    if narrow
    then record s { rail_mobile_open = not s.rail_mobile_open }
    else record s { rail_collapsed = not s.rail_collapsed }

abbrev other_theme : Theme → Theme
other_theme dark = light
other_theme light = dark

unfoldable pub toggle_theme : App → App
toggle_theme s = record s { theme = other_theme s.theme }

-- The id of a toast is drawn at random; it is an argument here.
unfoldable pub push_toast : String → Text → ToastKind → App → App
push_toast id message kind s = record s {
  toasts = s.toasts ++ record { id = id; message = message; kind = kind } ∷ [];
}

-- The timer of a toast.
unfoldable pub expire_toast : String → App → App
expire_toast id s = record s { toasts = keep (λ (t : ToastItem). not (t.id == id)) s.toasts }

-- What `loadConfig` reads with its four requests.
pub record Config : Type 0 where
  pub domains : List DomainConfig
  pub hooks : List HookConfig
  pub settings : Settings
  pub projects : List HealthchecksProject

-- `loadConfig` when its requests have been answered: `none` if one of them has failed.
unfoldable pub load_config : Option Config → App → App
load_config none s = s
load_config (some c) s = record s {
  domains = c.domains;
  hooks = c.hooks;
  settings = some c.settings;
  projects = c.projects;
}

-- The map from ids to the states of the domains.
unfoldable pub runtime_by_id :
    List DomainState → List (String × DomainState) → List (String × DomainState)
runtime_by_id [] m = m
runtime_by_id (d ∷ ds) m = runtime_by_id ds (insert d.id d m)
