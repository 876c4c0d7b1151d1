-- ===== src/Markup/Cards.antt =====
-- frontend/src/components/DomainCard.tsx, and frontend/src/views/DomainsView.tsx and HooksView.tsx.
-- `now` is the time in milliseconds, and `upper` the upper case of a character.
use tether_ddns.Prelude.{
  ℕ, ◌-◌, ◌/◌, String, Str, codes, Bool, true, false, Option, none, some, List, [], ◌∷◌, ◌++◌, map,
  find?, length, take, ltb, nat_beq, ◌==◌, string_eq, if◌then◌else◌,
}
use tether_ddns.Prelude.Dict.{lookup}
use tether_ddns.Prelude.Text.{Text, lit, num, chars}
use tether_ddns.Types.{DomainConfig, DomainState, HookConfig, HookDef}
use tether_ddns.FormErrors.{is_empty}
use tether_ddns.Utils.Hue.{provider_color}
use tether_ddns.Html.{
  attr, attr_text, on, Html, text_node, element, Nodes, nil, nodes, words, flag_if, class, ◌⧺◌,
}
use tether_ddns.Markup.Widgets.{plain_button, icon_button}
use tether_ddns.Markup.Layout.{section_header, empty_state, or_dash}

-- `STATUS_META`, which is that of 'synced' for a status it does not know.
abbrev pub status_meta : String → String × String
status_meta status =
    if status == "pending"
    then ("st-pending", "Pending")
    else (if status == "error"
        then ("st-error", "Error")
        else (if status == "updating"
            then ("st-updating", "Updating")
            else ("st-synced", "Synced")))

abbrev rel_seconds : ℕ → Text
rel_seconds s =
    let minutes = s / 60 in
    let hours = minutes / 60 in
    if ltb s 60
    then lit "just now" ∷ []
    else (if ltb minutes 60
        then num minutes ∷ lit "m ago" ∷ []
        else (if ltb hours 24
            then num hours ∷ lit "h ago" ∷ []
            else num (hours / 24) ∷ lit "d ago" ∷ []))

-- A time that has not come yet is no time ago.
unfoldable pub rel_time : ℕ → Option ℕ → Text
rel_time now none = lit "never" ∷ []
rel_time now (some ts) = if nat_beq ts 0 then lit "never" ∷ [] else rel_seconds ((now - ts) / 1000)

-- What the user can do with a card, for the id of its domain or hook.
pub record DomainActions (E : Type 0) : Type 0 where
  pub add : E
  pub sync : String → E
  pub edit : String → E
  pub delete : String → E
  pub toggle : String → E

pub record HookActions (E : Type 0) : Type 0 where
  pub add : E
  pub run : String → E
  pub edit : HookConfig → E
  pub delete : String → E

abbrev upper_all : (ℕ → Str) → Str → Str
upper_all upper [] = []
upper_all upper (c ∷ cs) = upper c ++ upper_all upper cs

-- The state of a domain that the server has not reported.
abbrev pub runtime_or_pending : String → Option DomainState → DomainState
runtime_or_pending id none = record {
  id = id;
  status = "pending";
  ip = none;
  updated = none;
  message = "";
}
runtime_or_pending id (some d) = d

-- `getHookName`
abbrev pub hook_name : List HookDef → String → String
hook_name defs key = elim (find? (λ (d : HookDef). d.key == key) defs) [
  | none ↦ key
  | some d ↦ d.display_name
]

module _ {E : Type 0} where
  abbrev pub act_button : String → Bool → E → Html E
  act_button label danger e =
      icon_button (record (plain_button label e) { is_act = true; danger = danger }) nil

  abbrev card_head : (ℕ → Str) → DomainConfig → String → Html E
  card_head upper d status = element "div" (class "dc-head" ∷ []) (
      nodes (
        element "div"
          (class "provider-badge"
            ∷ attr_text "style" (lit "background: " ∷ provider_color (codes d.provider))
            ∷ attr "title" d.provider
            ∷ [])
          (nodes (text_node (chars (upper_all upper (take 2 (codes d.provider))) ∷ []) ∷ []))
        ∷ element "div" (class "dc-title" ∷ []) (
            nodes (
              element "div" (class "name" ∷ []) (nodes (words d.hostname ∷ []))
              ∷ element "div" (class "meta" ∷ []) (
                  nodes (
                    element "span" (class "rec-type" ∷ []) (nodes (words d.record_type ∷ []))
                    ∷ element "span" [] (nodes (words d.provider ∷ []))
                    ∷ []))
              ∷ []))
        ∷ element "span" (class ("status-badge " ⧺ (status_meta status).0) ∷ [])
            (nodes (element "span" (class "s-dot" ∷ []) nil ∷ words (status_meta status).1 ∷ []))
        ∷ []))

  abbrev card_ip : DomainConfig → Option String → Html E
  card_ip d ip =
      let family : String = if d.record_type == "AAAA" then "IPv6" else "IPv4" in
      element "div" (class "dc-ip" ∷ []) (
        nodes (
          element "div" [] (
            nodes (
              element "div" (class "ip-label" ∷ []) (nodes (words ("Assigned " ⧺ family) ∷ []))
              ∷ element "div" (class "ip-val" ∷ []) (nodes (words (or_dash ip) ∷ []))
              ∷ []))
          ∷ []))

  abbrev card_foot : DomainActions E → Text → DomainConfig → Html E
  card_foot a updated d = element "div" (class "dc-foot" ∷ []) (
      nodes (
        element "div" (class "dc-updated" ∷ []) (nodes (text_node (lit "Updated " ∷ updated) ∷ []))
        ∷ element "div" (class "dc-actions" ∷ []) (
            nodes (
              element "label" (class "switch" ∷ []) (
                nodes (
                  element "input"
                    (attr "type" "checkbox" ∷ flag_if d.enabled "checked"
                      ++ on "change" (a.toggle d.id) ∷ [])
                    nil
                  ∷ element "span" (class "slider" ∷ []) nil
                  ∷ []))
              ∷ act_button "Force update now" false (a.sync d.id)
              ∷ act_button "Edit" false (a.edit d.id)
              ∷ act_button "Delete" true (a.delete d.id)
              ∷ []))
        ∷ []))

  unfoldable pub domain_card : (ℕ → Str) → ℕ → DomainActions E → DomainConfig → DomainState → Html E
  unfolding icon_button rel_time provider_color
  domain_card upper now a d runtime =
      element "div"
        (class ("domain-card" ⧺ (if runtime.status == "updating" then " updating" else "")) ∷ [])
        (nodes (
          card_head upper d runtime.status
          ∷ card_ip d runtime.ip
          ∷ card_foot a (rel_time now runtime.updated) d
          ∷ []))

  abbrev pub add_button : String → E → Html E
  add_button label e =
      element "button" (class "btn btn-primary" ∷ on "click" e ∷ []) (nodes (words label ∷ []))

  abbrev pub card_of :
      (ℕ → Str) → ℕ → DomainActions E → List (String × DomainState) → DomainConfig → Html E
  card_of upper now a runtime_by_id d =
      domain_card upper now a d (runtime_or_pending d.id (lookup d.id runtime_by_id))

  unfoldable pub domains_page :
      (ℕ → Str) → ℕ → DomainActions E → List DomainConfig → List (String × DomainState) → Nodes E
  unfolding section_header empty_state domain_card
  domains_page upper now a domains runtime_by_id = nodes (
      section_header "Domains" (some (length domains, "record"))
        (some (add_button "Add Domain" a.add))
      ∷ (if is_empty domains
          then empty_state "No domains yet" (some "Add your first domain to get started.")
          else element "div" (class "domain-grid" ∷ [])
              (nodes (map (card_of upper now a runtime_by_id) domains)))
      ∷ [])

  abbrev pub event_tag : String → Html E
  event_tag event = element "span" (class "evt-tag" ∷ []) (nodes (words event ∷ []))

  abbrev pub event_tags : List String → List (Html E)
  event_tags [] = element "span" [] (nodes (words "no events" ∷ [])) ∷ []
  event_tags (e ∷ es) = map event_tag (e ∷ es)

  abbrev pub hook_row : HookActions E → List HookDef → HookConfig → Html E
  hook_row a defs h = element "div" (class "hook-row" ∷ []) (
      nodes (
        element "div" (class "hook-ico" ∷ []) nil
        ∷ element "div" (class "hook-main" ∷ []) (
            nodes (
              element "div" (class "hook-name" ∷ []) (nodes (words (hook_name defs h.hook) ∷ []))
              ∷ element "div" (class "hook-events" ∷ []) (nodes (event_tags h.events))
              ∷ []))
        ∷ element "div" (class "hook-actions" ∷ []) (
            nodes (
              act_button "Run now" false (a.run h.id)
              ∷ act_button "Edit" false (a.edit h)
              ∷ act_button "Delete" true (a.delete h.id)
              ∷ []))
        ∷ []))

  unfoldable pub hooks_page : HookActions E → List HookConfig → List HookDef → Nodes E
  unfolding section_header empty_state icon_button
  hooks_page a hooks defs = nodes (
      section_header "Hooks" (some (length hooks, "hook")) (some (add_button "Add Hook" a.add))
      ∷ (if is_empty hooks
          then empty_state "No hooks configured" none
          else element "div" (class "hook-list" ∷ []) (nodes (map (hook_row a defs) hooks)))
      ∷ [])
