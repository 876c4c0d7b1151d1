-- ===== src/Markup/Tests.antt =====
-- The theorems about what the components render, at small values.
use tether_ddns.Prelude.Text.{Text}
use tether_ddns.Prelude.{
  ℕ, ◌≡◌, String, Str, codes, Bool, true, false, none, some, List, [], ◌∷◌, ◌++◌, map, ℤ, pos,
  str_eq_code, if◌then◌else◌,
}
use tether_ddns.Prelude.Dict.{lookup}
use tether_ddns.Types.{
  Provider, HookDef, HookEventDef, DomainConfig, HookConfig, HealthchecksProject, Settings,
}
use tether_ddns.FormErrors.{
  Errors, FormErrors, use_form_errors, settle, api_error, is_empty, sub_errors,
}
use tether_ddns.Forms.{DomainFormValue, HookFormValue}
use tether_ddns.Forms.Project.{ProjectModal}
use tether_ddns.Forms.Schema.{SchemaProperty, JsonSchema}
use tether_ddns.App.{App, ViewKey, first_state}
use tether_ddns.Views.Settings.{
  check_interval, heartbeat_interval, update_on_startup, notify, retry_on_failure, mounted,
}
use tether_ddns.Html.{ids, refs, live_in}
use tether_ddns.Markup.Widgets.{SelectOption}
use tether_ddns.Markup.DomainForm.{Menus, domain_modal}
use tether_ddns.Markup.HookForm.{hook_modal}
use tether_ddns.Markup.ProjectForm.{project_modal}
use tether_ddns.Markup.Resolve.{resolve}
use tether_ddns.Markup.FormLabels.{forms_resolve}
use tether_ddns.Markup.Alarms.{alarms, message}
use tether_ddns.Markup.Visible.{property_messages}
use tether_ddns.Markup.SchemaAlarms.{messages, own_messages}
use tether_ddns.Markup.FormAlarms.{forms_show_errors, domain_rejection}
use tether_ddns.Markup.Cards.{DomainActions, HookActions, domains_page, hooks_page}
use tether_ddns.Markup.Projects.{ProjectActions, CardState, healthchecks_page}
use tether_ddns.Markup.Offers.{for_each, domain_offers, hook_offers}
use tether_ddns.Markup.ProjectOffers.{card_offers, pages_offer}
use tether_ddns.Markup.SettingsPage.{
  sends, with_source, types_url, submits, intervals, heartbeat_intervals, settings_page,
}
use tether_ddns.Markup.SettingsOffers.{select_offers, settings_offer}
use tether_ddns.Markup.Page.{ShellActions}

abbrev same : ℕ → Str
same c = c ∷ []

abbrev no_number : String → ℤ
no_number _ = pos 0

abbrev token_property : SchemaProperty
token_property = record {
  title = none;
  type_name = some "string";
  format = some "password";
  description = some "From the dashboard";
  choices = none;
  labels = [];
}

abbrev proxied_property : SchemaProperty
proxied_property = record {
  title = some "Proxied";
  type_name = some "boolean";
  format = none;
  description = none;
  choices = none;
  labels = [];
}

abbrev token_schema : JsonSchema
token_schema = record {
  properties = ("token", token_property) ∷ ("proxied", proxied_property) ∷ [];
  required = "token" ∷ [];
  description = some "An API token.";
}

abbrev providers : List Provider
providers = record { key = "cloudflare"; display_name = "Cloudflare" } ∷ []

abbrev changed_event : HookEventDef
changed_event = record { key = "ip_changed"; label = "IP changed" }

abbrev hook_defs : List HookDef
hook_defs = record { key = "webhook"; display_name = "Webhook"; events = changed_event ∷ [] } ∷ []

abbrev menus : Menus
menus = record { first = true; second = false }

abbrev refused : FormErrors
refused = record (use_form_errors "Failed to save") {
  errors = (codes "hostname", "Required") ∷ (codes "provider_config.token", "Too short") ∷ [];
  form_error = some "Check the fields";
}

abbrev domain_form : DomainFormValue
domain_form = record {
  hostname = "home.example.com";
  provider = "cloudflare";
  record_type = "A";
  enabled = true;
  provider_config = [];
}

abbrev hook_form : HookFormValue
hook_form = record { hook = "webhook"; events = "ip_changed" ∷ []; config = [] }

abbrev project_form : ProjectModal
project_form = record {
  form = record { name = "Home"; base_url = "https://hc.local"; api_key = ""; poll_interval = 300 };
  errors = (codes "api_key", "Required") ∷ [];
  form_error = none;
  saving = false;
}

forms_resolve_example :
    let d =
      domain_modal same no_number "t" true false providers token_schema menus refused domain_form in
    let h =
      hook_modal same no_number "t" true false hook_defs token_schema
        (changed_event ∷ [])
        true
        refused
        hook_form in
    let p = project_modal "t" true false project_form in
    (resolve (ids d) (refs d) ≡ true)
    × (resolve (ids h) (refs h) ≡ true)
    × (resolve (ids p) (refs p) ≡ true)
forms_resolve_example =
    forms_resolve same no_number "t" true false providers hook_defs token_schema
      (changed_event ∷ []) menus refused domain_form hook_form project_form

forms_show_errors_example :
    (alarms (
        domain_modal same no_number "t" true false providers token_schema menus refused domain_form)
      ≡ messages
          ("hostname" ∷ "provider" ∷ "record_type" ∷ [])
          "provider_config"
          refused
          token_schema)
    × (alarms (
          hook_modal same no_number "t" true false hook_defs token_schema
            (changed_event ∷ [])
            true
            refused
            hook_form)
        ≡ messages ("hook" ∷ "events" ∷ []) "config" refused token_schema)
    × (alarms (project_modal "t" true false project_form)
        ≡ own_messages project_form.errors ("name" ∷ "base_url" ∷ "api_key" ∷ [])
          ++ message project_form.form_error)
forms_show_errors_example =
    forms_show_errors same no_number "t" true false providers hook_defs token_schema
      (changed_event ∷ []) menus refused domain_form hook_form project_form

-- An error on a switch, and one on the token.
abbrev answer_fields : Errors
answer_fields =
    (codes "provider_config.proxied", "Not allowed")
    ∷ (codes "provider_config.token", "Too short")
    ∷ []

domain_rejection_example :
    let after = settle (api_error answer_fields) refused in
    let config_errors = sub_errors answer_fields (codes "provider_config") in
    alarms
      (domain_modal same no_number "t" true false providers token_schema menus after domain_form)
    ≡ (if is_empty answer_fields
        then message (some refused.fallback)
        else own_messages answer_fields ("hostname" ∷ "provider" ∷ "record_type" ∷ [])
          ++ property_messages config_errors token_schema.properties
          ++ message (lookup [] config_errors))
domain_rejection_example =
    domain_rejection same no_number "t" true false providers token_schema menus answer_fields
      refused domain_form

-- What a click on the pages asks for.
data Click : Type 0 where
  adds resizes closes_rail toggles_rail refreshes toggles_theme : Click
  selects : ViewKey → Click
  does turns : String → String → Click
  shows : String → Bool → Click
  shows_check : String → String → Bool → Click

abbrev domain_clicks : DomainActions Click
domain_clicks = record {
  add = adds;
  sync = does "sync";
  edit = does "edit";
  delete = does "delete";
  toggle = does "toggle";
}

abbrev hook_clicks : HookActions Click
hook_clicks = record {
  add = adds;
  run = does "run";
  edit = λ h. does "edit" h.id;
  delete = does "delete";
}

abbrev project_clicks : ProjectActions Click
project_clicks = record {
  add = adds;
  turn = turns "card";
  toggle_overview = shows;
  toggle_check = shows_check;
  fetch = does "fetch";
  edit = λ p. does "edit" p.id;
  delete = does "delete";
}

abbrev home_domain : DomainConfig
home_domain = record {
  id = "d1";
  hostname = "home.example.com";
  provider = "cloudflare";
  record_type = "A";
  enabled = false;
  provider_config = none;
}

abbrev web_hook : HookConfig
web_hook = record { id = "h1"; hook = "webhook"; events = "ip_changed" ∷ []; config = none }

abbrev home_project : HealthchecksProject
home_project = record {
  id = "p1";
  name = "Home";
  base_url = "https://hc.local";
  api_key = "k";
  poll_interval = 300;
  show_on_overview = true;
  fetched_at = some 5;
  checks = record { key = "a"; name = "Backup"; slug = "backup"; visible = true } ∷ [];
}

abbrev open_card : String → CardState
open_card _ = record { is_open = true; fetching = true }

pages_offer_example :
    (live_in (domains_page same 60 domain_clicks (home_domain ∷ []) [])
      ≡ adds ∷ for_each (domain_offers domain_clicks) (home_domain ∷ []))
    × (live_in (hooks_page hook_clicks (web_hook ∷ []) hook_defs)
        ≡ adds ∷ for_each (hook_offers hook_clicks) (web_hook ∷ []))
    × (live_in (healthchecks_page (λ _. none) 60 project_clicks open_card (home_project ∷ []) none)
        ≡ adds ∷ for_each (card_offers project_clicks open_card) (home_project ∷ []))
pages_offer_example =
    pages_offer same (λ _. none) 60 domain_clicks hook_clicks project_clicks (home_domain ∷ []) []
      (web_hook ∷ []) hook_defs open_card (home_project ∷ []) none

abbrev usual : Settings
usual = record {
  check_interval = 300;
  ip_source = "auto";
  update_on_startup = true;
  retry_on_failure = true;
  notify = false;
  heartbeat_url = none;
  heartbeat_interval = 300;
}

abbrev sources : List SelectOption
sources = record { value = "auto"; label = "Automatic" } ∷ []

settings_offer_example :
    (live_in (settings_page sources true (mounted []) none) ≡ [])
    × (live_in (settings_page sources true (mounted []) (some usual))
        ≡ map (λ i. sends (check_interval i.0)) intervals
          ++ sends (update_on_startup false)
            ∷ sends (notify true)
            ∷ sends (retry_on_failure false)
            ∷ map with_source (select_offers true sources)
          ++ submits ∷ types_url "" ∷ map (λ i. sends (heartbeat_interval i.0)) heartbeat_intervals)
settings_offer_example = settings_offer sources true (mounted []) usual

abbrev shell_clicks : ShellActions Click
shell_clicks = record {
  select = selects;
  resize = resizes;
  close_rail = closes_rail;
  toggle_rail = toggles_rail;
  refresh = refreshes;
  toggle_theme = toggles_theme;
}

-- The page while the modal of a domain is open.
abbrev editing_page : App
editing_page = record (first_state none none) { domain_modal_open = true }

abbrev no_words : ℕ → Text
no_words _ = []
