-- ===== src/Markup/LogLines.antt =====
-- frontend/src/views/LogsView.tsx with frontend/src/components/LogViewer.tsx. `clock` writes a time as the
-- locale does; the index in the list is the key of a line.
use tether_ddns.Prelude.{
  ℕ, ◌+◌, String, Bool, Option, none, some, List, [], ◌∷◌, map, length, leb, ◌==◌, string_eq,
  if◌then◌else◌,
}
use text.Mathlib.Text.{◌==◌ as text_beq}
use tether_ddns.Types.{LogEntry}
use tether_ddns.Views.Health.{LogLevel, all_levels, info, warning, failure, level_name, filtered}
use tether_ddns.Html.{attr, on, on_value, Html, element, nil, nodes, words, class, ◌⧺◌}
use tether_ddns.Markup.Layout.{section_header}

-- What the user does with the toolbar.
pub data LogsEvent : Type 0 where
  types_query : String → LogsEvent
  picks_level : LogLevel → LogsEvent

pub record LogsView : Type 0 where
  pub query : String
  pub level : LogLevel

abbrev pub fresh_logs : LogsView
fresh_logs = record { query = ""; level = all_levels }

unfoldable pub logs_step : LogsEvent → LogsView → LogsView
logs_step (types_query q) s = record s { query = q }
logs_step (picks_level l) s = record s { level = l }

abbrev follow_threshold : ℕ
follow_threshold = 40

-- `onScroll`: whether the viewer follows new lines, from the heights of the element.
unfoldable pub follows : ℕ → ℕ → ℕ → Bool
follows scroll_height scroll_top client_height =
    leb scroll_height (follow_threshold + scroll_top + client_height)

-- No query filters nothing.
abbrev query_or_none : String → Option String
query_or_none q = if text_beq q "" then none else some q

abbrev level_label : LogLevel → String
level_label all_levels = "All"
level_label info = "Info"
level_label warning = "Warn"
level_label failure = "Error"

abbrev log_line : {E : Type 0} → (ℕ → String) → LogEntry → Html E
log_line clock log = element "div" (class "log-line" ∷ []) (
    nodes (
      element "span" (class "log-time" ∷ []) (nodes (words (clock log.time) ∷ []))
      ∷ element "span" (class ("log-level log-level-" ⧺ log.level) ∷ [])
          (nodes (words log.level ∷ []))
      ∷ element "span" (class "log-msg" ∷ []) (nodes (words log.message ∷ []))
      ∷ []))

abbrev lines_or_wait : {E : Type 0} → (ℕ → String) → List LogEntry → List (Html E)
lines_or_wait clock [] =
    element "div" (class "log-empty" ∷ []) (nodes (words "Waiting for log records…" ∷ [])) ∷ []
lines_or_wait clock (log ∷ logs) = map (log_line clock) (log ∷ logs)

unfoldable pub log_viewer : {E : Type 0} → (ℕ → String) → List LogEntry → Html E
log_viewer clock logs =
    element "div" (class "log-viewer" ∷ attr "data-testid" "log-viewer" ∷ [])
      (nodes (lines_or_wait clock logs))

abbrev level_chip : LogLevel → LogLevel → Html LogsEvent
level_chip level lvl =
    element "button"
      (attr "type" "button"
        ∷ class ("filter-chip" ⧺ (if level_name level == level_name lvl then " active" else ""))
        ∷ on "click" (picks_level lvl)
        ∷ [])
      (nodes (words (level_label lvl) ∷ []))

abbrev toolbar : LogsView → Html LogsEvent
toolbar s = element "div" (class "log-toolbar" ∷ []) (
    nodes (
      element "div" (class "log-search" ∷ []) (
        nodes (
          element "input"
            (attr "type" "text"
              ∷ attr "placeholder" "Filter log messages…"
              ∷ attr "aria-label" "Filter logs"
              ∷ attr "value" s.query
              ∷ on_value types_query
              ∷ [])
            nil
          ∷ []))
      ∷ element "div" (class "filter-group" ∷ [])
          (nodes (map (level_chip s.level) (all_levels ∷ info ∷ warning ∷ failure ∷ [])))
      ∷ []))

-- `includes` is the search that ignores case.
unfoldable pub logs_page :
    (ℕ → String) → (String → String → Bool) → LogsView → List LogEntry → Html LogsEvent
unfolding log_viewer section_header
logs_page clock includes s logs =
    let kept = filtered includes s.level (query_or_none s.query) logs in
    element "div" (class "view-logs" ∷ []) (
      nodes (
        section_header "Logs" (some (length kept, "line")) none
        ∷ toolbar s
        ∷ log_viewer clock kept
        ∷ []))
