-- ===== src/Markup/DayDialog.antt =====
-- frontend/src/components/IncidentModal.tsx. How the host writes a day and a time of the day is a
-- parameter.
use tether_ddns.Prelude.{
  ℕ, ◌-◌, ◌*◌, String, Bool, true, false, Option, none, some, List, [], ◌∷◌, ◌++◌, map, ltb,
  if◌then◌else◌,
}
use tether_ddns.Prelude.Text.{Text, lit, num, quotient}
use tether_ddns.Types.{Incident, Severity, degraded, outage}
use tether_ddns.Utils.Duration.{format_duration}
use tether_ddns.Utils.Incidents.{DayBucket}
use tether_ddns.Views.Reachability.{to_fixed_1}
use tether_ddns.Views.Incident.{day_pct, track_bar, future, range, span_seconds}
use tether_ddns.Html.{attr_text, Html, text_node, element, nil, nodes, words, class, ◌⧺◌}
use tether_ddns.Markup.Dialogs.{modal}

abbrev severity_name : Severity → String
severity_name degraded = "degraded"
severity_name outage = "outage"

-- A share as a percentage of a style.
abbrev percent : ℕ → ℕ → Text
percent part whole = quotient (part * 100) whole ∷ lit "%" ∷ []

abbrev began_before : Incident → DayBucket → String
began_before inc b = if ltb inc.start b.start then " · started the previous day" else ""

abbrev heading : (ℕ → Text) → Option DayBucket → Text
heading day none = lit "" ∷ []
heading day (some b) = day b.start

abbrev is_picked : Option DayBucket → Bool
is_picked none = false
is_picked (some b) = true

abbrev range_text : (ℕ → Text) → Incident → DayBucket → Text
range_text clock inc b = let r = range clock inc b in r.0 ++ lit " → " ∷ r.1

module _ {E : Type 0} (day clock : ℕ → Text) (now : ℕ) where
  abbrev summary_item : String → Text → Html E
  summary_item key value = element "div" [] (
      nodes (
        element "span" (class "inc-k" ∷ []) (nodes (words key ∷ []))
        ∷ element "span" (class "inc-v" ∷ []) (nodes (text_node value ∷ []))
        ∷ []))

  abbrev track_html : String → Text → Text → Html E
  track_html name left width =
      element "b"
        (class name ∷ attr_text "style" (lit "left:" ∷ left ++ lit ";width:" ∷ width) ∷ []) nil

  abbrev pub future_bar : DayBucket → Option (ℕ × ℕ) → List (Html E)
  future_bar b none = []
  future_bar b (some (from, length)) =
      track_html "future" (percent from (b.end - b.start)) (percent length (b.end - b.start)) ∷ []

  abbrev pub future_html : DayBucket → List (Html E)
  future_html b = future_bar b (future b)

  abbrev pub incident_bar : DayBucket → Incident → Html E
  incident_bar b inc =
      let t = track_bar b now inc in
      track_html (severity_name inc.severity) (percent t.left t.span)
        (percent t.width.num t.width.den)

  abbrev tick : String → Html E
  tick t = element "span" [] (nodes (words t ∷ []))

  abbrev pub timeline : DayBucket → Html E
  timeline b = element "div" [] (
      nodes (
        element "div" (class "inc-label" ∷ []) (nodes (words "Day timeline" ∷ []))
        ∷ element "div" (class "inc-track" ∷ [])
            (nodes (future_html b ++ map (incident_bar b) b.incidents))
        ∷ element "div" (class "inc-ticks" ∷ [])
            (nodes (map tick ("00" ∷ "06" ∷ "12" ∷ "18" ∷ "24" ∷ [])))
        ∷ []))

  abbrev pub chip : String → Html E
  chip ip = element "span" (class "inc-chip" ∷ []) (nodes (words ip ∷ []))

  abbrev pub incident_main : DayBucket → Incident → Html E
  incident_main b inc = element "div" (class "inc-main" ∷ []) (
      nodes (
        element "div" (class "inc-time" ∷ []) (nodes (text_node (range_text clock inc b) ∷ []))
        ∷ element "div" (class "inc-meta" ∷ []) (
            nodes (
              element "span" (class ("inc-tag " ⧺ severity_name inc.severity) ∷ [])
                (nodes (words (severity_name inc.severity) ∷ []))
              ∷ text_node (lit " worst " ∷ num inc.min_successes ∷ lit "/" ∷ num inc.total ∷ [])
              ∷ words (began_before inc b)
              ∷ []))
        ∷ element "div" (class "inc-meta" ∷ []) (nodes (map chip inc.failed))
        ∷ []))

  abbrev pub incident_row : DayBucket → Incident → Html E
  incident_row b inc = element "div" (class "inc-row" ∷ []) (
      nodes (
        element "span" (class ("inc-pip " ⧺ severity_name inc.severity) ∷ []) nil
        ∷ incident_main b inc
        ∷ element "span" (class "inc-dur" ∷ [])
            (nodes (text_node (format_duration (span_seconds inc b now)) ∷ []))
        ∷ []))

  abbrev pub rows_or_none : DayBucket → List Incident → List (Html E)
  rows_or_none b [] =
      element "p" (class "modal-blurb" ∷ [])
        (nodes (words "No incidents recorded on this day." ∷ []))
      ∷ []
  rows_or_none b (inc ∷ incs) = map (incident_row b) (inc ∷ incs)

  abbrev pub day_body : Option DayBucket → List (Html E)
  day_body none = []
  day_body (some b) =
      element "div" (class "inc-summary" ∷ []) (
        nodes (
          summary_item "Uptime" (to_fixed_1 (day_pct (some b)) ++ lit "%" ∷ [])
          ∷ summary_item "Offline" (format_duration b.offline)
          ∷ summary_item "Degraded" (format_duration b.degraded_time)
          ∷ []))
      ∷ timeline b
      ∷ rows_or_none b b.incidents

  unfoldable pub incident_modal : String → Option DayBucket → E → Html E
  unfolding modal
  incident_modal title_id bucket closes =
      modal
        (record {
          title_id = title_id;
          is_open = is_picked bucket;
          title = heading day bucket;
          on_close = closes;
          footer = none;
        })
        (nodes (day_body bucket))
