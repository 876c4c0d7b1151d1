-- ===== src/Markup/ChecksTable.antt =====
-- The rows of frontend/src/components/ChecksTable.tsx. `now` is the time in milliseconds; the date of a
-- ping as the locale writes it is left out.
use tether_ddns.Prelude.{
  ℕ, String, Bool, true, false, not, Option, none, some, List, [], ◌∷◌, ◌++◌, map, ◌==◌, string_eq,
  if◌then◌else◌,
}
use tether_ddns.Prelude.Dict.{lookup}
use tether_ddns.Prelude.Text.{lit}
use tether_ddns.Types.{HealthcheckRef, CheckStatus, ProjectRuntime}
use tether_ddns.FormErrors.{is_empty}
use tether_ddns.Utils.Ago.{ago}
use tether_ddns.Utils.Checks.{
  CheckDisplay, new, up, grace, down, paused, gone, unknown, display_label, display_beq,
  check_display_status,
}
use tether_ddns.Utils.Duration.{human_duration}
use tether_ddns.Html.{
  attr, on, Html, text_node, element, nil, nodes, words, flag_if, attr_if, class, ◌⧺◌,
}

-- The names that the classes have, which are those of the statuses.
abbrev pub status_key : CheckDisplay → String
status_key new = "new"
status_key up = "up"
status_key grace = "grace"
status_key down = "down"
status_key paused = "paused"
status_key gone = "gone"
status_key unknown = "unknown"

abbrev pub live_check : Option ProjectRuntime → String → Option CheckStatus
live_check none key = none
live_check (some r) key = lookup key r.checks

abbrev pub check_name : HealthcheckRef → Option CheckStatus → String
check_name r none = r.name
check_name r (some c) = c.name

abbrev slug_of : HealthcheckRef → Option CheckStatus → String
slug_of r none = r.slug
slug_of r (some c) = c.slug

abbrev pub last_ping_of : Option CheckStatus → Option ℕ
last_ping_of none = none
last_ping_of (some c) = c.last_ping

abbrev seconds_or_0 : Option ℕ → ℕ
seconds_or_0 none = 0
seconds_or_0 (some n) = n

module _ {E : Type 0} where
  abbrev pub zone : Option String → List (Html E)
  zone none = []
  zone (some tz) = if tz == "" then [] else words (" " ⧺ tz) ∷ []

  abbrev pub period_of : Option String → Option String → Option ℕ → List (Html E)
  period_of none tz timeout = text_node (human_duration (seconds_or_0 timeout)) ∷ []
  period_of (some s) tz timeout =
      if s == ""
      then text_node (human_duration (seconds_or_0 timeout)) ∷ []
      else element "span" (class "mono" ∷ []) (nodes (words s ∷ [])) ∷ zone tz

  -- `Period`
  abbrev pub period : CheckStatus → List (Html E)
  period c = period_of c.schedule c.tz c.timeout

  abbrev pub grace_note : Option CheckStatus → List (Html E)
  grace_note none = []
  grace_note (some c) =
      element "span" (class "hc-sub hc-period-sub" ∷ [])
        (nodes (period c ++ text_node (lit " · grace " ∷ human_duration c.grace) ∷ []))
      ∷ []

  abbrev pub gone_note : Bool → List (Html E)
  gone_note is_gone =
      if is_gone
      then element "span" (class "hc-sub" ∷ [])
          (nodes (words "Not in last poll — Fetch to remove" ∷ []))
        ∷ []
      else []

  abbrev pub name_cell : CheckDisplay → String → Option CheckStatus → Html E
  name_cell display name live =
      let label = display_label display in
      element "td" (class "hc-c-name" ∷ []) (
        nodes (
          element "span" (class "hc-mob" ∷ []) (
              nodes (
                element "i"
                  (class ("hc-dot hc-" ⧺ status_key display) ∷ attr "aria-hidden" "true" ∷ []) nil
                ∷ element "span" (class "hc-sr" ∷ []) (nodes (words (label ⧺ ": ") ∷ []))
                ∷ []))
            ∷ words name
            ∷ gone_note (display_beq display gone)
          ++ grace_note live))

  abbrev pub period_cell : Option CheckStatus → Html E
  period_cell none = element "td" (class "hc-c-period" ∷ []) (nodes (words "—" ∷ []))
  period_cell (some c) = element "td" (class "hc-c-period" ∷ []) (
      nodes (
        period c
        ++ element "span" (class "hc-sub" ∷ []) (nodes (text_node (human_duration c.grace) ∷ []))
          ∷ []))

  abbrev pub check_row : ℕ → Option ProjectRuntime → (String → Bool → E) → HealthcheckRef → Html E
  check_row now runtime toggle r =
      let display = check_display_status runtime r.key in
      let live = live_check runtime r.key in
      let name = check_name r live in
      element "tr" (attr_if "class" (if display_beq display gone then some "hc-gone-row" else none))
        (nodes (
          element "td" (class "hc-c-status" ∷ []) (
            nodes (
              element "span" (class ("hc-pill hc-" ⧺ status_key display) ∷ []) (
                nodes (
                  element "i" (attr "aria-hidden" "true" ∷ []) nil
                  ∷ words (display_label display)
                  ∷ []))
              ∷ []))
          ∷ name_cell display name live
          ∷ element "td" (class "hc-c-slug mono" ∷ []) (nodes (words (slug_of r live) ∷ []))
          ∷ period_cell live
          ∷ element "td" [] (
              nodes (
                element "span" (class "hc-long" ∷ [])
                  (nodes (text_node (ago (last_ping_of live) now false) ∷ []))
                ∷ element "span" (class "hc-short" ∷ [])
                    (nodes (text_node (ago (last_ping_of live) now true) ∷ []))
                ∷ []))
          ∷ element "td" (class "hc-c-ov" ∷ []) (
              nodes (
                element "label" (class "switch" ∷ []) (
                  nodes (
                    element "input"
                      (attr "type" "checkbox"
                          ∷ attr "aria-label" ("Show " ⧺ name ⧺ " on Overview")
                          ∷ flag_if r.visible "checked"
                        ++ on "change" (toggle r.key (not r.visible)) ∷ [])
                      nil
                    ∷ element "span" (class "slider" ∷ []) nil
                    ∷ []))
                ∷ []))
          ∷ []))

  abbrev pub head_cell : Option String → String → Html E
  head_cell classes text = element "th" (attr_if "class" classes) (nodes (words text ∷ []))

  abbrev pub check_rows :
      ℕ → Option ProjectRuntime → (String → Bool → E) → List HealthcheckRef → List (Html E)
  check_rows now runtime toggle refs =
      if is_empty refs
      then element "tr" [] (
          nodes (
            element "td" (attr "colspan" "6" ∷ class "hc-empty-row" ∷ [])
              (nodes (words "No checks in this project." ∷ []))
            ∷ []))
        ∷ []
      else map (check_row now runtime toggle) refs

  unfoldable pub checks_table :
      ℕ → Option ProjectRuntime → (String → Bool → E) → List HealthcheckRef → Html E
  checks_table now runtime toggle refs = element "table" (class "hc-table" ∷ []) (
      nodes (
        element "thead" [] (
          nodes (
            element "tr" [] (
              nodes (
                head_cell (some "hc-c-status") "Status"
                ∷ head_cell none "Name"
                ∷ head_cell (some "hc-c-slug") "Slug"
                ∷ head_cell (some "hc-c-period") "Period / Grace"
                ∷ head_cell none "Last ping"
                ∷ head_cell (some "hc-c-ov") "Overview"
                ∷ []))
            ∷ []))
        ∷ element "tbody" [] (nodes (check_rows now runtime toggle refs))
        ∷ []))
