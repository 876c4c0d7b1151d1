-- ===== src/Markup/Heartbeat.antt =====
-- frontend/src/components/HeartbeatCard.tsx. The times are in milliseconds; the interval that moves `now` on
-- is left out, so `now` is the time that it was last set to.
use tether_ddns.Prelude.{
  ℕ, String, Bool, true, false, Option, none, some, List, [], ◌∷◌, ◌++◌, if◌then◌else◌,
}
use tether_ddns.Prelude.Text.{Text, lit}
use tether_ddns.Types.{HeartbeatStatus}
use tether_ddns.Utils.Duration.{format_interval, rel_stable}
use tether_ddns.Html.{Html, text_node, element, nodes, words, class}
use tether_ddns.Markup.Layout.{
  StatTint, tint_ok, tint_warn, tint_err, tint_muted, StatCard, StatCardAction, stat_card,
}

-- `hostOf`: the parser of urls is a parameter, `none` where it throws.
abbrev host_or_url : (String → Option String) → String → String
host_or_url host_in url = elim (host_in url) [ none ↦ url | some host ↦ host ]

-- What a click on the icon, and the end of the ping, do to `pinging`.
unfoldable pub ping : Bool → Bool
ping pinging = true

unfoldable pub ping_ended : Bool → Bool
ping_ended pinging = false

abbrev error_words : {E : Type 0} → Option String → List (Html E)
error_words none = []
error_words (some e) = words e ∷ []

module _ {E : Type 0} (host_in : String → Option String) (now interval : ℕ) where
  abbrev cadence : String → List (Html E)
  cadence u =
      text_node (lit "every " ∷ format_interval interval)
      ∷ element "span" (class "hb-host" ∷ []) (
          nodes (
            words " · "
            ∷ element "span" (class "hb-mono" ∷ []) (nodes (words (host_or_url host_in u) ∷ []))
            ∷ []))
      ∷ []

  -- The card without its action.
  abbrev plain_card : Text → List (Html E) → StatTint → String → Option String → StatCard E
  plain_card value sub tint class_name sub_title = record {
    label = "Heartbeat";
    value = value;
    sub = sub;
    tint = tint;
    sub_title = sub_title;
    class_name = some class_name;
    action = none;
  }

  abbrev ok_sub : String → List (Html E)
  ok_sub u =
      element "span" (class "hb-flag" ∷ []) (nodes (words "OK" ∷ [])) ∷ words " · " ∷ cadence u

  -- What the card shows for a url and a status.
  unfoldable pub card_face : Option String → Option HeartbeatStatus → StatCard E
  card_face none status =
      plain_card (lit "Off" ∷ []) (words "Set a URL in Settings" ∷ []) tint_muted "hb hb-muted" none
  card_face (some u) none = plain_card (lit "—" ∷ []) (cadence u) tint_muted "hb" none
  card_face (some u) (some s) =
      if s.skipped
      then plain_card (lit "Skipped" ∷ []) (words "Link offline" ∷ []) tint_warn "hb hb-muted" none
      else (if s.ok
          then plain_card (rel_stable (some s.at) now ++ lit " ago" ∷ []) (ok_sub u) tint_ok "hb"
              none
          else plain_card (lit "Failed" ∷ [])
              (element "span" (class "hb-mono" ∷ []) (nodes (error_words s.error)) ∷ []) tint_err
              "hb hb-err" s.error)

  abbrev ping_action : Option String → Bool → E → Option (StatCardAction E)
  ping_action none pinging pings = none
  ping_action (some u) pinging pings =
      some (record { label = "Ping now"; on_click = pings; busy = pinging })

  unfoldable pub heartbeat_card : Option HeartbeatStatus → Option String → Bool → E → Html E
  unfolding card_face stat_card
  heartbeat_card status url pinging pings =
      stat_card (record (card_face url status) { action = ping_action url pinging pings })
