-- ===== src/Markup/Layout.antt =====
-- frontend/src/components/SectionHeader.tsx, EmptyState.tsx, StatCard.tsx, and frontend/src/layout.
-- Drawings are left out.
use tether_ddns.Prelude.{
  ℕ, String, Bool, Option, none, some, List, [], ◌∷◌, ◌++◌, map, nat_beq, if◌then◌else◌,
}
use tether_ddns.Prelude.Text.{Text, lit, num}
use text.Mathlib.Text.{◌==◌ as text_beq}
use tether_ddns.App.{
  ViewKey, overview, domains_view, hooks_view, healthchecks, logs, settings_view, about,
}
use tether_ddns.Html.{
  attr, on, Html, text_node, element, nil, cons, nodes, words, flag_if, attr_if, class, ◌⧺◌,
}
use tether_ddns.Markup.Widgets.{plain_button, icon_button}

-- The tints of a card.
pub data StatTint : Type 0 where
  tint_accent tint_ok tint_warn tint_err tint_muted : StatTint

abbrev tint_class : StatTint → String
tint_class tint_accent = "tint-accent"
tint_class tint_ok = "tint-ok"
tint_class tint_warn = "tint-warn"
tint_class tint_err = "tint-err"
tint_class tint_muted = "tint-muted"

pub record StatCardAction (E : Type 0) : Type 0 where
  pub label : String
  pub on_click : E
  pub busy : Bool

pub record StatCard (E : Type 0) : Type 0 where
  pub label : String
  pub value : Text
  pub sub : List (Html E)
  pub tint : StatTint
  pub sub_title : Option String
  pub class_name : Option String
  pub action : Option (StatCardAction E)

-- An entry of the navigation.
pub record NavDef : Type 0 where
  pub key : ViewKey
  pub label : String
  pub count : Option ℕ

abbrev view_rank : ViewKey → ℕ
view_rank overview = 0
view_rank domains_view = 1
view_rank hooks_view = 2
view_rank healthchecks = 3
view_rank logs = 4
view_rank settings_view = 5
view_rank about = 6

abbrev pub view_beq : ViewKey → ViewKey → Bool
view_beq v w = nat_beq (view_rank v) (view_rank w)

abbrev pub nav_items : ℕ → ℕ → ℕ → List NavDef
nav_items domain_count hook_count healthchecks_count =
    record { key = overview; label = "Overview"; count = none }
    ∷ record { key = domains_view; label = "Domains"; count = some domain_count }
    ∷ record { key = hooks_view; label = "Hooks"; count = some hook_count }
    ∷ record { key = healthchecks; label = "Healthchecks"; count = some healthchecks_count }
    ∷ record { key = logs; label = "Logs"; count = none }
    ∷ record { key = settings_view; label = "Settings"; count = none }
    ∷ record { key = about; label = "About"; count = none }
    ∷ []

-- `value ?? '—'`
abbrev pub or_dash : Option String → String
or_dash none = "—"
or_dash (some s) = s

abbrev stat_class : Option String → String
stat_class none = "stat"
stat_class (some c) = if text_beq c "" then "stat" else "stat " ⧺ c

module _ {E : Type 0} where
  abbrev count_badge : Option (ℕ × String) → List (Html E)
  count_badge none = []
  count_badge (some (n, noun)) =
      let plural : String = if nat_beq n 1 then "" else "s" in
      element "span" (class "count-badge" ∷ [])
        (nodes (text_node (num n ∷ lit " " ∷ lit noun ∷ lit plural ∷ []) ∷ []))
      ∷ []

  abbrev spaced : Option (Html E) → List (Html E)
  spaced none = []
  spaced (some a) = element "div" (class "spacer" ∷ []) nil ∷ a ∷ []

  unfoldable pub section_header : String → Option (ℕ × String) → Option (Html E) → Html E
  section_header title count action = element "div" (class "section-head" ∷ []) (
      cons (element "h3" [] (nodes (words title ∷ [])))
        (nodes (count_badge count ++ spaced action)))

  abbrev paragraph : Option String → List (Html E)
  paragraph none = []
  paragraph (some t) = element "p" [] (nodes (words t ∷ [])) ∷ []

  unfoldable pub empty_state : String → Option String → Html E
  empty_state title children =
      element "div" (class "empty" ∷ [])
        (cons (element "h3" [] (nodes (words title ∷ []))) (nodes (paragraph children)))

  abbrev stat_icon : StatTint → Option (StatCardAction E) → Html E
  stat_icon tint none = element "span" (class ("stat-ico " ⧺ tint_class tint) ∷ []) nil
  stat_icon tint (some a) =
      element "button"
        (attr "type" "button"
          ∷ class
              ("stat-ico " ⧺ tint_class tint ⧺ " stat-ico-btn" ⧺ (if a.busy then " spin" else ""))
          ∷ attr "title" a.label
          ∷ attr "aria-label" a.label
          ∷ on "click" a.on_click
          ∷ flag_if a.busy "disabled")
        nil

  unfoldable pub stat_card : StatCard E → Html E
  stat_card c = element "div" (class (stat_class c.class_name) ∷ []) (
      nodes (
        element "div" (class "stat-top" ∷ []) (
          nodes (
            element "span" (class "stat-label" ∷ []) (nodes (words c.label ∷ []))
            ∷ stat_icon c.tint c.action
            ∷ []))
        ∷ element "div" (class "stat-value" ∷ []) (nodes (text_node c.value ∷ []))
        ∷ element "div" (class "stat-sub" ∷ attr_if "title" c.sub_title)
            (nodes (element "span" (class "stat-sub-text" ∷ []) (nodes c.sub) ∷ []))
        ∷ []))

  abbrev nav_count : Option ℕ → List (Html E)
  nav_count none = []
  nav_count (some n) =
      element "span" (class "nav-count" ∷ []) (nodes (text_node (num n ∷ []) ∷ [])) ∷ []

  -- A click selects the view and closes the rail of a narrow window.
  abbrev nav_item : (ViewKey → E) → ViewKey → NavDef → Html E
  nav_item selects active it =
      element "button"
        (attr "type" "button"
          ∷ class ("nav-item" ⧺ (if view_beq active it.key then " active" else ""))
          ∷ attr "title" it.label
          ∷ on "click" (selects it.key)
          ∷ [])
        (cons (element "span" (class "nav-label" ∷ []) (nodes (words it.label ∷ [])))
          (nodes (nav_count it.count)))

  unfoldable pub rail : (ViewKey → E) → E → ViewKey → ℕ → ℕ → ℕ → Bool → Bool → Html E
  rail selects resizes active domain_count hook_count healthchecks_count online mobile_open =
      element "aside" (class ("rail" ⧺ (if mobile_open then " open" else "")) ∷ []) (
        nodes (
          element "div" (class "brand" ∷ []) (
            nodes (
              element "div" (class "logo" ∷ []) nil
              ∷ element "div" (class "brand-text" ∷ []) (
                  nodes (
                    element "h1" [] (nodes (words "Tether" ∷ []))
                    ∷ element "p" [] (nodes (words "Self-hosted DDNS" ∷ []))
                    ∷ []))
              ∷ []))
          ∷ element "nav" (class "nav" ∷ []) (
              nodes (
                map (nav_item selects active)
                  (nav_items domain_count hook_count healthchecks_count)))
          ∷ element "div" (class "rail-foot" ∷ []) (
              nodes (
                element "div" (class "rail-status" ∷ []) (
                  nodes (
                    element "span" (class ("dot" ⧺ (if online then "" else " offline")) ∷ []) nil
                    ∷ element "span" []
                        (nodes (words (if online then "Online" else "Offline") ∷ []))
                    ∷ []))
                ∷ []))
          ∷ element "div"
              (class "rail-resizer" ∷ attr "title" "Drag to resize" ∷ on "pointerdown" resizes ∷ [])
              nil
          ∷ []))

  abbrev segment : String → String → String → Option String → List (Html E) → Html E
  segment classes title k value before = element "span" (class classes ∷ attr "title" title ∷ []) (
      nodes (
        before
        ++ element "span" (class "k" ∷ []) (nodes (words k ∷ []))
          ∷ element "span" (class "v" ∷ []) (nodes (words (or_dash value) ∷ []))
          ∷ []))

  unfoldable pub top_bar :
      E → E → E → String → String → Option String → Option String → Bool → Bool → Html E
  unfolding icon_button
  top_bar toggles_rail refreshes toggles_theme title subtitle ipv4 ipv6 online refreshing =
      element "header" (class "topbar" ∷ []) (
        nodes (
          element "div" (class "topbar-inner" ∷ []) (
            nodes (
              icon_button
                (record (plain_button "Toggle navigation" toggles_rail) {
                  class_name = "rail-toggle";
                })
                nil
              ∷ element "div" (class "page-title" ∷ []) (
                  nodes (
                    element "h2" [] (nodes (words title ∷ []))
                    ∷ element "p" [] (nodes (words subtitle ∷ []))
                    ∷ []))
              ∷ element "div" (class "topbar-spacer" ∷ []) nil
              ∷ element "div"
                  (class ("ip-pill" ⧺ (if online then "" else " offline"))
                    ∷ attr "title" "Detected public IP addresses"
                    ∷ [])
                  (nodes (
                    segment "seg" "Detected public IPv4" "IPv4" ipv4
                      (element "span" (class "dot" ∷ []) nil ∷ [])
                    ∷ segment "seg ip-v6" "Detected public IPv6" "IPv6" ipv6 []
                    ∷ []))
              ∷ icon_button
                  (record (plain_button "Refresh all" refreshes) {
                    class_name = if refreshing then "spin" else "";
                  })
                  nil
              ∷ icon_button (plain_button "Toggle theme" toggles_theme) nil
              ∷ []))
          ∷ []))
