-- ===== src/Markup/Page.antt =====
-- The shell of frontend/src/App.tsx: the rail, the bar at the top and the view in between. What the
-- view holds is an argument.
use tether_ddns.Prelude.{
  String, Bool, false, ◌||◌, Option, none, some, List, [], ◌∷◌, length, if◌then◌else◌,
}
use tether_ddns.Utils.Incidents.{DayBucket}
use tether_ddns.App.{
  App, ViewKey, overview, domains_view, hooks_view, healthchecks, logs, settings_view, about,
  any_modal_open,
}
use tether_ddns.Types.{StateSnapshot}
use tether_ddns.Html.{Html, element, Nodes, nil, nodes, on, class, flag_if, ◌⧺◌}
use tether_ddns.Markup.Layout.{rail, top_bar}

-- `TITLES`
abbrev pub titles : ViewKey → String × String
titles overview = ("Overview", "Live status of your dynamic DNS records")
titles domains_view = ("Domains", "Manage your DNS records")
titles hooks_view = ("Hooks", "React to lifecycle events")
titles healthchecks = ("Healthchecks", "Check status from healthchecks.io projects")
titles logs = ("Logs", "Live application log")
titles settings_view = ("Settings", "Scheduling, behavior, and IP source")
titles about = ("About", "Version & tech stack")

-- What the user can do with the shell.
pub record ShellActions (E : Type 0) : Type 0 where
  pub select : ViewKey → E
  pub resize : E
  pub close_rail : E
  pub toggle_rail : E
  pub refresh : E
  pub toggle_theme : E

-- `snapshot?.online ?? false`
abbrev online_in : Option StateSnapshot → Bool
online_in none = false
online_in (some s) = s.online

abbrev ipv4_in : Option StateSnapshot → Option String
ipv4_in none = none
ipv4_in (some s) = s.public_ipv4

abbrev ipv6_in : Option StateSnapshot → Option String
ipv6_in none = none
ipv6_in (some s) = s.public_ipv6

module _ {E : Type 0} where
  unfoldable pub shell :
      ShellActions E → List DayBucket → Bool → Option StateSnapshot → App → Nodes E → Html E
  unfolding rail top_bar any_modal_open
  shell a buckets disconnected snapshot s view =
      element "div" (class "shell" ∷ flag_if (disconnected || any_modal_open buckets s) "inert") (
        nodes (
          rail a.select a.resize s.active_view (length s.domains) (length s.hooks)
            (length s.projects) (online_in snapshot) s.rail_mobile_open
          ∷ element "div"
              (class ("rail-scrim" ⧺ (if s.rail_mobile_open then " open" else ""))
                ∷ on "click" a.close_rail
                ∷ [])
              nil
          ∷ element "div" (class "content" ∷ []) (
              nodes (
                top_bar a.toggle_rail a.refresh a.toggle_theme (titles s.active_view).0
                  (titles s.active_view).1 (ipv4_in snapshot) (ipv6_in snapshot)
                  (online_in snapshot) s.refreshing
                ∷ element "main" (class "page" ∷ []) view
                ∷ []))
          ∷ []))
