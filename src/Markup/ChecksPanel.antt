-- ===== src/Markup/ChecksPanel.antt =====
-- What frontend/src/components/HealthchecksPanel.tsx renders. `now` is the time in milliseconds.
use tether_ddns.Prelude.{
  ℕ, String, Bool, false, ◌&&◌, Option, List, [], ◌∷◌, ◌++◌, map, any, length, ltb, nat_beq,
  if◌then◌else◌,
}
use tether_ddns.Prelude.Text.{Text, lit, num}
use tether_ddns.Types.{HealthcheckRef, HealthchecksProject, CheckStatus, ProjectRuntime}
use tether_ddns.Utils.Ago.{ago, elapsed_short}
use tether_ddns.Utils.Checks.{
  CheckDisplay, up, grace, down, display_label, display_beq, project_unknown, OverviewRow,
  overview_pill,
}
use tether_ddns.Views.Checks.{
  Item, items_of, bar, unknown_note, visible_refs, runtime_of, panel_total,
}
use tether_ddns.Html.{
  attr, attr_text, Html, text_node, element, nil, cons, nodes, words, class, ◌⧺◌,
}
use tether_ddns.Markup.ChecksTable.{status_key, live_check, check_name, last_ping_of}
use tether_ddns.Markup.Projects.{hc_summary}

abbrev dense_after : ℕ
dense_after = 40

-- The statuses that a time is shown for.
abbrev is_timed : CheckDisplay → Bool
is_timed display = any (display_beq display) (up ∷ grace ∷ down ∷ [])

-- A row of the panel, with its project.
pub record PanelRow : Type 0 where
  pub project : HealthchecksProject
  pub row : OverviewRow

unfoldable pub rows_of :
    Option (List (String × ProjectRuntime)) → List HealthchecksProject → List PanelRow
rows_of runtimes [] = []
rows_of runtimes (p ∷ ps) =
    let rest = rows_of runtimes ps in
    if p.show_on_overview && ltb 0 (length (visible_refs p))
    then record {
      project = p;
      row = record { refs = visible_refs p; runtime = runtime_of runtimes p.id };
    }
      ∷ rest
    else rest

abbrev plural : ℕ → String → String
plural n noun = if nat_beq n 1 then noun else noun ⧺ "s"

abbrev time_or_state : ℕ → CheckDisplay → Option CheckStatus → Text
time_or_state now display live =
    if is_timed display
    then elapsed_short (last_ping_of live) now
    else lit (display_label display) ∷ []

abbrev chip_title : ℕ → CheckDisplay → String → Option CheckStatus → Text
chip_title now display name live =
    lit name
    ∷ lit " — "
    ∷ lit (display_label display)
    ∷ lit " · last ping "
    ∷ ago (last_ping_of live) now false

abbrev bar_class : List HealthcheckRef → Option ProjectRuntime → String
bar_class refs rt =
    "hcp-bar"
    ⧺ (if project_unknown rt then " hc-unknown" else "")
    ⧺ (if ltb dense_after (length refs) then " dense" else "")

module _ {E : Type 0} where
  abbrev mark : Html E
  mark = element "i" (attr "aria-hidden" "true" ∷ []) nil

  abbrev segment : Item → Html E
  segment i = element "span" (class ("hc-" ⧺ status_key i.display) ∷ []) nil

  abbrev note_html : Text × Bool → Html E
  note_html (text, err) =
      element "div" (class ("hcp-note" ⧺ (if err then " hcp-note-err" else "")) ∷ [])
        (nodes (text_node text ∷ []))

  abbrev note_of : Option ProjectRuntime → List (Html E)
  note_of rt = if project_unknown rt then note_html (unknown_note rt) ∷ [] else []

  abbrev chip : ℕ → Option ProjectRuntime → Item → Html E
  chip now rt i =
      let live = live_check rt i.ref.key in
      let name = check_name i.ref live in
      element "span"
        (class ("hcp-chip hc-" ⧺ status_key i.display)
          ∷ attr_text "title" (chip_title now i.display name live)
          ∷ [])
        (nodes (
          mark
          ∷ element "span" (class "hcp-name" ∷ []) (
              nodes (
                element "span" (class "hc-sr" ∷ [])
                  (nodes (words (display_label i.display ⧺ ": ") ∷ []))
                ∷ words name
                ∷ []))
          ∷ element "span"
              (class ("hcp-time" ⧺ (if is_timed i.display then "" else " hcp-state")) ∷ [])
              (nodes (text_node (time_or_state now i.display live) ∷ []))
          ∷ []))

  abbrev block_head : String → List HealthcheckRef → Option ProjectRuntime → Html E
  block_head name refs rt = element "div" (class "hcp-head" ∷ []) (
      nodes (
        element "strong" (attr "title" name ∷ []) (nodes (words name ∷ []))
        ∷ element "div" (class (bar_class refs rt) ∷ attr "aria-hidden" "true" ∷ [])
            (nodes (map segment (bar rt refs)))
        ∷ hc_summary refs rt false
        ∷ []))

  unfoldable pub project_block : ℕ → PanelRow → Html E
  unfolding hc_summary
  project_block now r = element "div" (class "hcp-proj" ∷ []) (
      nodes (
        block_head r.project.name r.row.refs r.row.runtime
        ∷ (note_of r.row.runtime
            ++ element "div" (class "hcp-chips" ∷ [])
                (nodes (map (chip now r.row.runtime) (items_of r.row.runtime r.row.refs)))
              ∷ [])))

  abbrev panel_head : List OverviewRow → Html E
  panel_head rows =
      let pill = overview_pill rows in
      let total = panel_total rows in
      element "div" (class "panel-head" ∷ []) (
        nodes (
          element "h4" [] (nodes (words "Healthchecks" ∷ []))
          ∷ element "span" (class ("hc-pill hc-" ⧺ status_key pill.status) ∷ [])
              (nodes (mark ∷ text_node pill.text ∷ []))
          ∷ element "span" (class "sub" ∷ []) (
              nodes (
                text_node (num (length rows) ∷ lit " " ∷ lit (plural (length rows) "project") ∷ [])
                ∷ element "span" (class "hcp-n-checks" ∷ []) (
                    nodes (
                      text_node (lit " · " ∷ num total ∷ lit " " ∷ lit (plural total "check") ∷ [])
                      ∷ []))
                ∷ []))
          ∷ []))

  abbrev panel_of : ℕ → List PanelRow → List (Html E)
  panel_of now [] = []
  panel_of now (r ∷ rs) =
      element "div" (class "panel ov-wide hc-panel" ∷ []) (
        cons (panel_head (map (λ (q : PanelRow). q.row) (r ∷ rs)))
          (nodes (map (project_block now) (r ∷ rs))))
      ∷ []

  -- The panel, or nothing.
  unfoldable pub healthchecks_panel :
      ℕ → List HealthchecksProject → Option (List (String × ProjectRuntime)) → List (Html E)
  unfolding project_block rows_of
  healthchecks_panel now projects runtimes = panel_of now (rows_of runtimes projects)
