-- ===== src/Markup/SettingsOffers.antt =====
-- What the user can do on the page of the settings (frontend/src/views/SettingsView.tsx).
use tether_ddns.Prelude.{if◌then◌else◌}
use tether_ddns.Html.{nodes}
use mathlib.Core.List.{append-nil}
use tether_ddns.Prelude.{
  ◌≡◌, refl, ap, ◌∙◌, String, Bool, true, false, not, ◌||◌, none, some, List, [], ◌∷◌, ◌++◌, map,
  Bool-cases, inl, inr,
}
use tether_ddns.Types.{Settings}
use tether_ddns.FormErrors.{truthy}
use tether_ddns.Views.Settings.{
  SettingsPatch, check_interval, heartbeat_interval, update_on_startup, notify, retry_on_failure,
  HeartbeatPanel, is_dirty, saved_url,
}
use tether_ddns.Html.{live, live_in}
use tether_ddns.Markup.Widgets.{
  SelectOption, SelectEvent, toggles, closes, chooses, picks, native_option, menu_option, select,
}
use tether_ddns.Markup.Layout.{section_header}
use tether_ddns.Markup.SettingsPage.{
  SettingsEvent, sends, with_source, types_url, submits, intervals, heartbeat_intervals,
  setting_switch, source_props, source_group, heartbeat_group, settings_page,
}

switch-live :
    (title text : String) (patch : Bool → SettingsPatch) (current : Bool)
    → live (setting_switch title text patch current) ≡ sends (patch (not current)) ∷ []
switch-live title text patch true = refl
switch-live title text patch false = refl

heartbeat-live :
    (s : Settings) (p : HeartbeatPanel)
    → live (heartbeat_group s p)
      ≡ submits ∷ types_url "" ∷ map (λ i. sends (heartbeat_interval i.0)) heartbeat_intervals
heartbeat-live s p =
    let shut = not (is_dirty (saved_url s.heartbeat_url) p) || p.saving in
    elim (Bool-cases (truthy p.err)) [
      | inl w ↦ elim (Bool-cases shut) [ inl d ↦ rw (w, d) refl | inr d ↦ rw (w, d) refl ]
      | inr w ↦ elim (Bool-cases shut) [ inl d ↦ rw (w, d) refl | inr d ↦ rw (w, d) refl ]
    ]

-- What a `Select` lets the user do: close its menu with Escape while it is open, choose in the native
-- element, here the empty value, turn the menu over, and choose each of the options in it.
abbrev pub select_offers : Bool → List SelectOption → List SelectEvent
select_offers is_open options =
    (if is_open then closes ∷ [] else [])
    ++ picks "" ∷ toggles ∷ map (λ (o : SelectOption). chooses o.value) options

native-live :
    (options : List SelectOption)
    → live_in (nodes (map (native_option {E = SettingsEvent}) options)) ≡ []
native-live [] = refl
native-live (o ∷ os) = native-live os

menu-live :
    (value : String) (options : List SelectOption)
    → live_in (nodes (map (menu_option with_source value) options))
      ≡ map with_source (map (λ (o : SelectOption). chooses o.value) options)
menu-live value [] = refl
menu-live value (o ∷ os) = ap (λ es. with_source (chooses o.value) ∷ es) (menu-live value os)

select-live :
    (s : Settings) (sources : List SelectOption) (is_open : Bool)
    → live (select (source_props s sources) is_open with_source)
      ≡ map with_source (select_offers is_open sources)
unfolding select
select-live s sources true =
    rw (native-live sources, menu-live s.ip_source sources)
      (append-nil (map with_source (select_offers true sources)))
select-live s sources false =
    rw (native-live sources, menu-live s.ip_source sources)
      (append-nil (map with_source (select_offers false sources)))

source-live :
    (s : Settings) (sources : List SelectOption) (menu : Bool)
    → live (source_group s sources menu) ≡ map with_source (select_offers menu sources)
source-live s sources menu =
    let events = live (select (source_props s sources) menu with_source) in
    append-nil (events ++ [] ++ [])
    ∙ append-nil (events ++ [])
    ∙ append-nil events
    ∙ select-live s sources menu

-- Until the settings are there, their page offers nothing. Then it offers each of the intervals, for
-- each of the three switches the opposite of what is saved, the menu of the sources with each source in
-- it, and of the heartbeat the url and each of its intervals.
pub settings_offer :
    (sources : List SelectOption) (menu : Bool) (p : HeartbeatPanel) (s : Settings)
    → (live_in (settings_page sources menu p none) ≡ [])
      × (live_in (settings_page sources menu p (some s))
          ≡ map (λ i. sends (check_interval i.0)) intervals
            ++ sends (update_on_startup (not s.update_on_startup))
              ∷ sends (notify (not s.notify))
              ∷ sends (retry_on_failure (not s.retry_on_failure))
              ∷ map with_source (select_offers menu sources)
            ++ submits
              ∷ types_url ""
              ∷ map (λ i. sends (heartbeat_interval i.0)) heartbeat_intervals)
unfolding settings_page section_header
settings_offer sources menu p s =
    let events = map with_source (select_offers menu sources) in
    let first : List SettingsEvent =
      map (λ i. sends (check_interval i.0)) intervals
      ++ sends (update_on_startup (not s.update_on_startup))
        ∷ sends (notify (not s.notify))
        ∷ sends (retry_on_failure (not s.retry_on_failure))
        ∷ [] in
    let last : List SettingsEvent =
      submits ∷ types_url "" ∷ map (λ i. sends (heartbeat_interval i.0)) heartbeat_intervals in
    (
      refl,
      rw
          (
            switch-live "Update on startup" "Force a sync when the service launches."
                update_on_startup s.update_on_startup,
            switch-live "Notifications" "Notify on IP change and update failures." notify s.notify,
            switch-live "Retry on failure" "Auto-retry failed updates with backoff."
                retry_on_failure s.retry_on_failure,
            source-live s sources menu,
          )
          (ap (λ h. first ++ (events ++ (h ++ []) ++ [])) (heartbeat-live s p)
            ∙ ap (λ xs. first ++ xs) (append-nil (events ++ last))),
    )
