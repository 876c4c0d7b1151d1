-- ===== src/Markup/Projects.antt =====
-- frontend/src/components/HcSummary.tsx and ProjectCard.tsx, and frontend/src/views/HealthchecksView.tsx.
-- `now` is the time in milliseconds, and `host_in` the host of a url.
use tether_ddns.Prelude.{
  ℕ, String, Bool, true, false, not, ◌&&◌, ◌||◌, Option, none, some, List, [], ◌∷◌, ◌++◌, map,
  length, string_eq, if◌then◌else◌,
}
use tether_ddns.Prelude.Dict.{lookup}
use tether_ddns.Prelude.Text.{Text}
use tether_ddns.Types.{HealthcheckRef, HealthchecksProject, ProjectRuntime}
use tether_ddns.FormErrors.{is_empty, truthy}
use tether_ddns.Utils.Ago.{ago}
use tether_ddns.Utils.Checks.{CheckDisplay, grace, down, display_beq, SummaryPart, project_summary}
use tether_ddns.Utils.Duration.{format_interval}
use tether_ddns.App.Copy.{host_of}
use tether_ddns.Html.{
  attr, on, Html, text_node, element, Nodes, nil, nodes, words, flag_if, class, ◌⧺◌,
}
use tether_ddns.Views.Checks.{total_text, part_text}
use tether_ddns.Markup.Widgets.{plain_button, icon_button}
use tether_ddns.Markup.Layout.{section_header, empty_state}
use tether_ddns.Markup.ChecksTable.{checks_table}

-- What the user can do with a project.
pub record ProjectActions (E : Type 0) : Type 0 where
  pub add : E
  -- opening and closing the card
  pub turn : String → E
  pub toggle_overview : String → Bool → E
  pub toggle_check : String → String → Bool → E
  pub fetch : String → E
  pub edit : HealthchecksProject → E
  pub delete : String → E

-- The state of a card.
pub record CardState : Type 0 where
  pub is_open : Bool
  pub fetching : Bool

-- `runFetch` up to its `await`: the flag says whether `onFetch` is called.
unfoldable pub run_fetch : CardState → CardState × Bool
run_fetch s = if s.fetching then (s, false) else (record s { fetching = true }, true)

unfoldable pub fetched : CardState → CardState
fetched s = record s { fetching = false }

abbrev polled_at : Option ProjectRuntime → Option ℕ
polled_at none = none
polled_at (some r) = r.polled_at

abbrev text_of : Option String → String
text_of none = ""
text_of (some s) = s

-- `part.status === 'down' || part.status === 'grace'`
abbrev is_loud : CheckDisplay → Bool
is_loud s = display_beq s down || display_beq s grace

abbrev pub runtime_of : Option (List (String × ProjectRuntime)) → String → Option ProjectRuntime
runtime_of none id = none
runtime_of (some rs) id = lookup id rs

module _ {E : Type 0} where
  abbrev pub part_html : SummaryPart → Html E
  part_html part =
      if is_loud part.status
      then element "b"
          (class (if display_beq part.status down then "hc-s-down" else "hc-s-grace") ∷ [])
          (nodes (text_node (part_text part) ∷ []))
      else text_node (part_text part)

  abbrev pub separated : List (Html E) → List (Html E)
  separated [] = []
  separated (h ∷ []) = h ∷ []
  separated (h ∷ k ∷ hs) = h ∷ words " · " ∷ separated (k ∷ hs)

  unfoldable pub hc_summary : List HealthcheckRef → Option ProjectRuntime → Bool → Html E
  unfolding project_summary
  hc_summary refs runtime with_total =
      let s = project_summary refs runtime in
      let total : List (Html E) =
        if with_total then text_node (total_text (length refs)) ∷ [] else [] in
      element "span" (class "hc-sum" ∷ []) (
        nodes (
          separated (
            if s.is_unknown
            then total ++ words "status unknown" ∷ []
            else map part_html s.parts ++ total)))

  abbrev pub banner : Option ProjectRuntime → List (Html E)
  banner none = []
  banner (some r) =
      if r.offline
      then element "div" (class "hc-banner" ∷ [])
          (nodes (words "System is offline — polling paused." ∷ []))
        ∷ []
      else (if not r.ok && truthy r.error
          then element "div" (class "hc-banner hc-banner-err" ∷ attr "role" "alert" ∷ [])
              (nodes (words "Last poll failed: " ∷ words (text_of r.error) ∷ []))
            ∷ []
          else [])

  abbrev pub act : String → Bool → Bool → String → E → Html E
  act label danger disabled class_name e =
      icon_button
        (record (plain_button label e) {
          is_act = true;
          danger = danger;
          disabled = disabled;
          class_name = class_name;
        })
        nil

  abbrev pub card_actions : ProjectActions E → HealthchecksProject → CardState → Html E
  card_actions a p s = element "div" (class "hc-card-actions" ∷ []) (
      nodes (
        element "label" (class "hc-ov-toggle" ∷ []) (
          nodes (
            element "span" (class "switch" ∷ []) (
              nodes (
                element "input"
                  (attr "type" "checkbox" ∷ flag_if p.show_on_overview "checked"
                    ++ on "change" (a.toggle_overview p.id (not p.show_on_overview)) ∷ [])
                  nil
                ∷ element "span" (class "slider" ∷ []) nil
                ∷ []))
            ∷ words "Show on Overview"
            ∷ []))
        ∷ act "Fetch checks" false s.fetching (if s.fetching then "spin" else "") (a.fetch p.id)
        ∷ act "Edit" false false "" (a.edit p)
        ∷ act "Delete" true false "" (a.delete p.id)
        ∷ []))

  unfoldable pub card_head :
      ProjectActions E → HealthchecksProject → Option ProjectRuntime → CardState → Html E
  unfolding icon_button hc_summary
  card_head a p runtime s = element "div" (class "hc-card-head" ∷ []) (
      nodes (
        icon_button
          (record (plain_button ((if s.is_open then "Collapse " else "Expand ") ⧺ p.name)
            (a.turn p.id)) {
              is_act = true;
              expanded = some s.is_open;
              class_name = "hc-chevron" ⧺ (if s.is_open then " open" else "");
            })
          nil
        ∷ element "div" (class "hc-card-title" ∷ []) (
            nodes (
              element "strong" [] (nodes (words p.name ∷ []))
              ∷ hc_summary p.checks runtime true
              ∷ []))
        ∷ card_actions a p s
        ∷ []))

  abbrev fact : String → Text → Html E
  fact label value =
      element "span" [] (nodes (words label ∷ element "b" [] (nodes (text_node value ∷ [])) ∷ []))

  abbrev pub facts :
      (String → Option String) → ℕ → HealthchecksProject → Option ProjectRuntime → Html E
  facts host_in now p runtime = element "div" (class "hc-facts" ∷ []) (
      nodes (
        element "span" (class "mono" ∷ []) (nodes (words (host_of host_in p.base_url) ∷ []))
        ∷ fact "Poll every " (format_interval p.poll_interval)
        ∷ fact "Last poll " (ago (polled_at runtime) now true)
        ∷ fact "Fetched " (ago p.fetched_at now true)
        ∷ []))

  abbrev pub card_inner :
      ℕ → ProjectActions E → HealthchecksProject → Option ProjectRuntime → Bool → List (Html E)
  card_inner now a p runtime is_open =
      if is_open
      then element "div" (class "hc-inner" ∷ [])
          (nodes (checks_table now runtime (a.toggle_check p.id) p.checks ∷ []))
        ∷ []
      else []

  unfoldable pub project_card :
      (String → Option String)
      → ℕ
      → ProjectActions E
      → HealthchecksProject
      → Option ProjectRuntime
      → CardState
      → Html E
  unfolding host_of format_interval ago
  project_card host_in now a p runtime s = element "div" (class "hc-card" ∷ []) (
      nodes (
        card_head a p runtime s ∷ facts host_in now p runtime ∷ banner runtime
        ++ card_inner now a p runtime s.is_open))

  unfoldable pub healthchecks_page :
      (String → Option String)
      → ℕ
      → ProjectActions E
      → (String → CardState)
      → List HealthchecksProject
      → Option (List (String × ProjectRuntime))
      → Nodes E
  unfolding section_header empty_state
  healthchecks_page host_in now a cards projects runtime = nodes (
      section_header "Healthchecks" (some (length projects, "project")) (
        some (
          element "button" (attr "type" "button" ∷ class "btn btn-primary" ∷ on "click" a.add ∷ [])
            (nodes (words "Add project" ∷ []))))
      ∷ (if is_empty projects
          then empty_state "No projects yet"
              (some "Add a healthchecks.io project with a read-only API key.")
          else element "div" (class "hc-list" ∷ []) (
              nodes (
                map
                  (λ (p : HealthchecksProject).
                    project_card host_in now a p (runtime_of runtime p.id) (cards p.id))
                  projects)))
      ∷ [])
