-- ===== src/Markup/Panels.antt =====
-- frontend/src/components/HealthBar.tsx, IpReadoutPanel.tsx and RecordHealthPanel.tsx.
use tether_ddns.Prelude.{Bool, ◌*◌, ◌++◌, length, nat_beq, if◌then◌else◌}
use tether_ddns.Prelude.Text.{Text, quotient}
use tether_ddns.Prelude.{ℕ, String, Option, List, [], ◌∷◌, map, ltb, keep}
use tether_ddns.Prelude.Text.{lit, num}
use tether_ddns.Utils.Duration.{rel_stable, format_countdown}
use tether_ddns.Types.{DomainState}
use tether_ddns.Views.Health.{Counts, count_domains, no_domains, fill_pct}
use tether_ddns.Html.{
  attr, attr_text, Html, text_node, element, Nodes, nil, nodes, words, class, ◌⧺◌,
}
use tether_ddns.Markup.Layout.{or_dash}

pub record HealthSegment (E : Type 0) : Type 0 where
  pub label : String
  pub color : String
  pub value : ℕ
  pub title : Text
  pub legend : Nodes E

-- The properties of the panel; the times are in milliseconds.
pub record IpReadout : Type 0 where
  pub ipv4 : Option String
  pub ipv6 : Option String
  pub ipv4_changed_at : Option ℕ
  pub ipv6_changed_at : Option ℕ
  pub ip_source : String

module _ {E : Type 0} where
  -- The share of a segment is its value, as `flex`.
  abbrev drawn_segment : HealthSegment E → Html E
  drawn_segment s =
      element "span"
        (attr_text "style" (lit "flex:" ∷ num s.value ∷ lit (";background:" ⧺ s.color) ∷ [])
          ∷ attr_text "title" s.title
          ∷ [])
        nil

  abbrev legend_item : HealthSegment E → Html E
  legend_item s = element "div" (class "hl-item" ∷ []) (
      nodes (
        element "span" (class "hl-dot" ∷ attr "style" ("background:" ⧺ s.color) ∷ []) nil
        ∷ element "span" (class "hl-label" ∷ []) (nodes (words s.label ∷ []))
        ∷ element "span" (class "hl-count" ∷ []) s.legend
        ∷ []))

  abbrev drawn_or_blank : List (HealthSegment E) → List (Html E)
  drawn_or_blank [] =
      element "span" (attr "style" "flex:1;background:var(--surface-2)" ∷ []) nil ∷ []
  drawn_or_blank (s ∷ ss) = map drawn_segment (s ∷ ss)

  unfoldable pub health_bar : List (HealthSegment E) → List (Html E)
  health_bar segments =
      element "div" (class "health-bar" ∷ [])
        (nodes (drawn_or_blank (keep (λ (s : HealthSegment E). ltb 0 s.value) segments)))
      ∷ element "div" (class "health-legend" ∷ []) (nodes (map legend_item segments))
      ∷ []

  abbrev ip_row : ℕ → String → Option String → Option ℕ → Html E
  ip_row now meta addr since = element "div" (class "ip-row" ∷ []) (
      nodes (
        element "div" [] (
          nodes (
            element "div" (class "ip-meta" ∷ []) (nodes (words meta ∷ []))
            ∷ element "div" (class "ip-addr" ∷ []) (nodes (words (or_dash addr) ∷ []))
            ∷ []))
        ∷ element "div" (class "ip-since" ∷ [])
            (nodes (words "stable" ∷ element "br" [] nil ∷ text_node (rel_stable since now) ∷ []))
        ∷ []))

  unfoldable pub ip_readout_panel : ℕ → IpReadout → Html E
  ip_readout_panel now p = element "div" (class "panel" ∷ []) (
      nodes (
        element "div" (class "panel-head" ∷ []) (
          nodes (
            element "h4" [] (nodes (words "Public IP" ∷ []))
            ∷ element "span" (class "sub" ∷ []) (nodes (words ("dual-stack · " ⧺ p.ip_source) ∷ []))
            ∷ []))
        ∷ element "div" (class "ip-readout" ∷ []) (
            nodes (
              ip_row now "IPv4 · A" p.ipv4 p.ipv4_changed_at
              ∷ ip_row now "IPv6 · AAAA" p.ipv6 p.ipv6_changed_at
              ∷ []))
        ∷ []))

  -- A segment of the record health: the key and the label, the colour and the count.
  abbrev health_segment : String → String → String → ℕ → HealthSegment E
  health_segment key label color n = record {
    label = label;
    color = color;
    value = n;
    title = num n ∷ lit " " ∷ lit key ∷ [];
    legend = nodes (text_node (num n ∷ []) ∷ []);
  }

  abbrev record_segments : Counts → List (HealthSegment E)
  record_segments c =
      health_segment "synced" "Synced" "var(--ok)" c.synced
      ∷ health_segment "pending" "Pending" "var(--warn)" c.pending
      ∷ health_segment "error" "Error" "var(--err)" c.error
      ∷ health_segment "paused" "Paused" "var(--muted-status)" c.paused
      ∷ []

  abbrev next_check : Option ℕ → ℕ → ℕ → Html E
  next_check next_check_at interval now =
      let share = fill_pct next_check_at interval now in
      element "div" (class "next-check" ∷ []) (
        nodes (
          element "div" (class "nc-top" ∷ []) (
            nodes (
              element "span" (class "nc-label" ∷ []) (nodes (words "Next check" ∷ []))
              ∷ element "span" (class "nc-time" ∷ [])
                  (nodes (text_node (format_countdown next_check_at now) ∷ []))
              ∷ []))
          ∷ element "div" (class "nc-track" ∷ []) (
              nodes (
                element "div"
                  (class "nc-fill"
                    ∷ attr_text "style"
                        (lit "width:" ∷ quotient (share.num * 100) share.den ∷ lit "%" ∷ [])
                    ∷ [])
                  nil
                ∷ []))
          ∷ []))

  -- `now` is the time that the interval of a second has last set.
  unfoldable pub record_health_panel :
      List DomainState → List (String × Bool) → Option ℕ → ℕ → ℕ → Html E
  unfolding health_bar
  record_health_panel domains enabled next_check_at interval now =
      let n = length domains in
      element "div" (class "panel" ∷ []) (
        nodes (
          element "div" (class "panel-head" ∷ []) (
            nodes (
              element "h4" [] (nodes (words "Record health" ∷ []))
              ∷ element "span" (class "sub" ∷ []) (
                  nodes (
                    text_node
                      (num n ∷ lit " " ∷ lit (if nat_beq n 1 then "domain" else "domains") ∷ [])
                    ∷ []))
              ∷ []))
          ∷ (health_bar (record_segments (count_domains enabled domains no_domains))
              ++ element "div" (class "panel-divider" ∷ []) nil
                ∷ next_check next_check_at interval now
                ∷ [])))
