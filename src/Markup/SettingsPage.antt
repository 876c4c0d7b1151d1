-- ===== src/Markup/SettingsPage.antt =====
-- What frontend/src/views/SettingsView.tsx renders.
use tether_ddns.Prelude.{
  ℕ, String, Str, Bool, false, not, ◌||◌, Option, none, some, List, [], ◌∷◌, ◌++◌, map, nat_beq,
  if◌then◌else◌,
}
use tether_ddns.Prelude.Text.{chars}
use tether_ddns.Types.{Settings}
use tether_ddns.FormErrors.{truthy, is_empty}
use tether_ddns.Views.Settings.{
  SettingsPatch, check_interval, heartbeat_interval, update_on_startup, notify, retry_on_failure,
  HeartbeatPanel, saved_url, is_dirty,
}
use tether_ddns.Html.{
  attr, attr_text, on, on_value, Html, element, Nodes, nil, cons, nodes, words, flag_if, attr_if,
  class, ◌⧺◌,
}
use tether_ddns.Markup.Widgets.{SelectOption, SelectEvent, SelectProps, select}
use tether_ddns.Markup.Layout.{section_header}

-- What the user does with the settings. `sends` is `fire`.
pub data SettingsEvent : Type 0 where
  sends : SettingsPatch → SettingsEvent
  with_source : SelectEvent → SettingsEvent
  types_url : String → SettingsEvent
  submits : SettingsEvent

-- `INTERVALS`
abbrev pub intervals : List (ℕ × String)
intervals =
    (60, "1 min") ∷ (300, "5 min") ∷ (600, "10 min") ∷ (1800, "30 min") ∷ (3600, "1 hr") ∷ []

-- `HEARTBEAT_INTERVALS`
abbrev pub heartbeat_intervals : List (ℕ × String)
heartbeat_intervals = (30, "30 s") ∷ (60, "1 min") ∷ (300, "5 min") ∷ (900, "15 min") ∷ []

-- A chip, marked if it is the saved value.
abbrev pub interval_chip : (ℕ → SettingsPatch) → ℕ → ℕ × String → Html SettingsEvent
interval_chip patch current (value, label) =
    element "button"
      (attr "type" "button"
        ∷ class ("chip" ⧺ (if nat_beq current value then " active" else ""))
        ∷ on "click" (sends (patch value))
        ∷ [])
      (nodes (words label ∷ []))

abbrev pub heading : String → String → Html SettingsEvent
heading title text = element "div" (class "sr-text" ∷ []) (
    nodes (
      element "span" (class "t" ∷ []) (nodes (words title ∷ []))
      ∷ element "span" (class "d" ∷ []) (nodes (words text ∷ []))
      ∷ []))

abbrev pub group : String → List (Html SettingsEvent) → Html SettingsEvent
group title children = element "div" (class "panel" ∷ []) (
    nodes (
      element "div" (class "settings-group" ∷ [])
        (cons (element "div" (class "sg-title" ∷ []) (nodes (words title ∷ []))) (nodes children))
      ∷ []))

abbrev pub scheduling : Settings → Html SettingsEvent
scheduling s = group "Scheduling" (
    element "div" [] (
      nodes (
        heading "Check interval" "How often to check for a public-IP change."
        ∷ element "div"
            (class "chips" ∷ attr "role" "group" ∷ attr "aria-label" "Check interval" ∷ [])
            (nodes (map (interval_chip check_interval s.check_interval) intervals))
        ∷ []))
    ∷ [])

-- A switch, which sends the opposite of what is saved.
abbrev pub setting_switch : String → String → (Bool → SettingsPatch) → Bool → Html SettingsEvent
setting_switch title text patch current = element "div" (class "switch-row" ∷ []) (
    nodes (
      heading title text
      ∷ element "label" (class "switch" ∷ []) (
          nodes (
            element "input"
              (attr "type" "checkbox" ∷ attr "aria-label" title ∷ flag_if current "checked"
                ++ on "change" (sends (patch (not current))) ∷ [])
              nil
            ∷ element "span" (class "slider" ∷ []) nil
            ∷ []))
      ∷ []))

abbrev pub behavior : Settings → Html SettingsEvent
behavior s = group "Behavior" (
    setting_switch "Update on startup" "Force a sync when the service launches." update_on_startup
      s.update_on_startup
    ∷ setting_switch "Notifications" "Notify on IP change and update failures." notify s.notify
    ∷ setting_switch "Retry on failure" "Auto-retry failed updates with backoff." retry_on_failure
        s.retry_on_failure
    ∷ [])

abbrev pub source_props : Settings → List SelectOption → SelectProps
source_props s sources = record {
  id = some "setSource";
  value = s.ip_source;
  options = sources;
  aria_label = some "Primary source";
  invalid = false;
  described_by = none;
}

abbrev pub source_group : Settings → List SelectOption → Bool → Html SettingsEvent
source_group s sources menu = group "IP source" (
    element "div" (class "field" ∷ []) (
      nodes (
        element "label" (attr "for" "setSource" ∷ []) (
          nodes (
            words "Primary source "
            ∷ element "span" (class "hint" ∷ []) (nodes (words "— queried for the public IP" ∷ []))
            ∷ []))
        ∷ select (source_props s sources) menu with_source
        ∷ []))
    ∷ element "div" (class "field-help" ∷ []) (
        nodes (
          words "Sources are pluggable; drop a new module in "
          ∷ element "code" [] (nodes (words "ip_sources/" ∷ []))
          ∷ words " to add one."
          ∷ []))
    ∷ [])

abbrev err_or : Option String → String → String
err_or none text = text
err_or (some e) text = e

abbrev pub url_form : Str → HeartbeatPanel → Html SettingsEvent
url_form saved p =
    let wrong = truthy p.err in
    element "form" (class "hb-url" ∷ on "submit" submits ∷ []) (
      nodes (
        element "input"
          (attr "id" "setHeartbeatUrl"
              ∷ attr "type" "text"
              ∷ attr_if "class" (if wrong then some "hb-invalid" else none)
            ++ attr_if "aria-invalid" (if wrong then some "true" else none)
            ++ attr "aria-describedby" "setHeartbeatUrlHelp"
              ∷ attr "placeholder" "https://hc-ping.com/your-uuid"
              ∷ attr "spellcheck" "false"
              ∷ attr "autocomplete" "off"
              ∷ attr_text "value" (chars p.draft ∷ [])
              ∷ on_value types_url
              ∷ [])
          nil
        ∷ element "button"
            (attr "type" "submit"
              ∷ class "btn btn-ghost"
              ∷ flag_if (not (is_dirty saved p) || p.saving) "disabled")
            (nodes (words "Save" ∷ []))
        ∷ []))

abbrev pub heartbeat_group : Settings → HeartbeatPanel → Html SettingsEvent
heartbeat_group s p = group "Heartbeat" (
    element "div" (class "field" ∷ []) (
      nodes (
        element "label" (attr "for" "setHeartbeatUrl" ∷ []) (
          nodes (
            words "Ping URL "
            ∷ element "span" (class "hint" ∷ [])
                (nodes (words "— GET on every interval, while online" ∷ []))
            ∷ []))
        ∷ url_form (saved_url s.heartbeat_url) p
        ∷ element "div"
            (attr "id" "setHeartbeatUrlHelp"
              ∷ class ("field-help" ⧺ (if truthy p.err then " hb-error" else ""))
              ∷ [])
            (nodes (words (err_or p.err "Leave empty to disable.") ∷ []))
        ∷ []))
    ∷ element "div" [] (
        nodes (
          heading "Interval" "How often to ping while online."
          ∷ element "div"
              (class ("chips" ⧺ (if is_empty (saved_url s.heartbeat_url) then " hb-dim" else ""))
                ∷ attr "role" "group"
                ∷ attr "aria-label" "Heartbeat interval"
                ∷ [])
              (nodes
                (map (interval_chip heartbeat_interval s.heartbeat_interval) heartbeat_intervals))
          ∷ []))
    ∷ [])

abbrev settings_body :
    List SelectOption → Bool → HeartbeatPanel → Option Settings → Html SettingsEvent
settings_body sources menu p none =
    element "div" (class "empty" ∷ [])
      (nodes (element "p" [] (nodes (words "Loading settings…" ∷ [])) ∷ []))
settings_body sources menu p (some s) =
    element "div" (class "settings-grid" ∷ [])
      (nodes (scheduling s ∷ behavior s ∷ source_group s sources menu ∷ heartbeat_group s p ∷ []))

unfoldable pub settings_page :
    List SelectOption → Bool → HeartbeatPanel → Option Settings → Nodes SettingsEvent
unfolding section_header select is_dirty
settings_page sources menu p settings =
    nodes (section_header "Settings" none none ∷ settings_body sources menu p settings ∷ [])
