-- ===== src/Markup/ProjectOffers.antt =====
-- What the user can do on the pages of the domains, the hooks and the projects (frontend/src/views).
use mathlib.Core.List.{append-nil, append_assoc}
use tether_ddns.Prelude.{
  ℕ, ◌≡◌, refl, sym, ap, ◌∙◌, String, Str, Bool, true, false, not, Option, none, some, List, [],
  ◌∷◌, ◌++◌, All, map, length, arith, Bool-cases, inl, inr, ◌==◌, string_eq, if◌then◌else◌,
}
use tether_ddns.Types.{
  DomainConfig, DomainState, HookConfig, HookDef, HealthcheckRef, HealthchecksProject, CheckStatus,
  ProjectRuntime,
}
use tether_ddns.Prelude.Text.{lit}
use tether_ddns.Utils.Duration.{human_duration}
use tether_ddns.Html.{Html, text_node, element, class, nodes, live, live_in}
use tether_ddns.Utils.Checks.{
  CheckDisplay, SummaryPart, project_summary, check_display_status, display_beq, gone,
}
use tether_ddns.Views.Checks.{total_text}
use tether_ddns.Markup.Widgets.{icon_button}
use tether_ddns.Markup.Layout.{section_header, empty_state}
use tether_ddns.Markup.ChecksTable.{
  period, period_of, zone, grace_note, gone_note, check_name, name_cell, period_cell, check_row,
  checks_table, live_check,
}
use tether_ddns.Markup.Projects.{
  ProjectActions, CardState, separated, part_html, hc_summary, banner, card_head, card_inner,
  project_card, runtime_of, healthchecks_page,
}
use tether_ddns.Markup.Cards.{DomainActions, HookActions, domains_page, hooks_page}
use tether_ddns.Markup.Offers.{
  for_each, live-map, domain_offers, hook_offers, domains-live, hooks-live,
}

module _ (E : Type 0) where
  zone-live : (tz : Option String) → live_in (nodes (zone {E = E} tz)) ≡ []
  zone-live none = refl
  zone-live (some tz) = ground arith

  period-live :
      (schedule tz : Option String) (timeout : Option ℕ)
      → live_in (nodes (period_of {E = E} schedule tz timeout)) ≡ []
  period-live none tz timeout = refl
  period-live (some s) tz timeout = elim (Bool-cases (s == "")) [
    | inl b ↦ rw b refl
    | inr b ↦ rw b (zone-live tz)
  ]

  live-append :
      (hs ks : List (Html E))
      → live_in (nodes (hs ++ ks)) ≡ live_in (nodes hs) ++ live_in (nodes ks)
  live-append [] ks = refl
  live-append (h ∷ hs) ks =
      rw (live-append hs ks) (sym (append_assoc (live h) (live_in (nodes hs)) (live_in (nodes ks))))

  note-live : (c : Option CheckStatus) → live_in (nodes (grace_note {E = E} c)) ≡ []
  note-live none = refl
  note-live (some c) =
      rw
        (
          live-append (period c) (text_node (lit " · grace " ∷ human_duration c.grace) ∷ []),
          period-live c.schedule c.tz c.timeout,
        )
        refl

  gone-live : (b : Bool) → live_in (nodes (gone_note {E = E} b)) ≡ []
  gone-live true = refl
  gone-live false = refl

  name-live :
      (display : CheckDisplay) (name : String) (c : Option CheckStatus)
      → live (name_cell {E = E} display name c) ≡ []
  name-live display name c =
      rw
        (
          live-append (gone_note (display_beq display gone)) (grace_note c),
          gone-live (display_beq display gone),
          note-live c,
        )
        refl

  cell-live : (c : Option CheckStatus) → live (period_cell {E = E} c) ≡ []
  cell-live none = refl
  cell-live (some c) =
      rw
        (
          live-append (period c) (
              element "span" (class "hc-sub" ∷ []) (nodes (text_node (human_duration c.grace) ∷ []))
              ∷ []),
          period-live c.schedule c.tz c.timeout,
        )
        refl

module _ {E : Type 0} where
  row-live :
      (now : ℕ) (runtime : Option ProjectRuntime) (toggle : String → Bool → E) (r : HealthcheckRef)
      → live (check_row now runtime toggle r) ≡ toggle r.key (not r.visible) ∷ []
  row-live now runtime toggle r =
      let display = check_display_status runtime r.key in
      let live_now = live_check runtime r.key in
      let names = name-live E display (check_name r live_now) live_now in
      elim (Bool-cases (display_beq display gone)) [
        | inl g ↦ elim (Bool-cases r.visible) [
          | inl v ↦ rw (names, cell-live E live_now, g, v) refl
          | inr v ↦ rw (names, cell-live E live_now, g, v) refl
        ]
        | inr g ↦ elim (Bool-cases r.visible) [
          | inl v ↦ rw (names, cell-live E live_now, g, v) refl
          | inr v ↦ rw (names, cell-live E live_now, g, v) refl
        ]
      ]

  -- Each row lets the user turn its check over.
  abbrev pub turned : (String → Bool → E) → HealthcheckRef → List E
  turned toggle r = toggle r.key (not r.visible) ∷ []

  table-live :
      (now : ℕ) (runtime : Option ProjectRuntime) (toggle : String → Bool → E)
      (refs : List HealthcheckRef)
      → live (checks_table now runtime toggle refs) ≡ for_each (turned toggle) refs
  unfolding checks_table
  table-live now runtime toggle [] = refl
  table-live now runtime toggle (r ∷ rs) =
      rw
        (live-map (check_row now runtime toggle) (turned toggle) (r ∷ rs)
          (row-live now runtime toggle))
        (append-nil (for_each (turned toggle) (r ∷ rs)))

  banner-live : (runtime : Option ProjectRuntime) → live_in (nodes (banner {E = E} runtime)) ≡ []
  banner-live none = refl
  banner-live (some r) = ground arith

  part-live : (part : SummaryPart) → live (part_html {E = E} part) ≡ []
  part-live part = ground arith

  abbrev IsQuiet : Html E → Type 0
  IsQuiet h = live h ≡ []

  parts-IsQuiet :
      (parts : List SummaryPart) (rest : List (Html E))
      → All IsQuiet rest
      → All IsQuiet (map part_html parts ++ rest)
  parts-IsQuiet [] rest q = q
  parts-IsQuiet (p ∷ ps) rest q = (part-live p, parts-IsQuiet ps rest q)

  separated-live : (hs : List (Html E)) → All IsQuiet hs → live_in (nodes (separated hs)) ≡ []
  separated-live [] q = refl
  separated-live (x ∷ []) (q, qs) = rw q refl
  separated-live (x ∷ y ∷ hs) (q, qs) = rw (q, separated-live (y ∷ hs) qs) refl

  summary-live :
      (refs : List HealthcheckRef) (runtime : Option ProjectRuntime)
      → live (hc_summary {E = E} refs runtime true) ≡ []
  unfolding hc_summary
  summary-live refs runtime =
      let s = project_summary refs runtime in
      let total : List (Html E) = text_node (total_text (length refs)) ∷ [] in
      elim (Bool-cases s.is_unknown) [
        | inl u ↦ rw u refl
        | inr k ↦ rw k (
            separated-live (map part_html s.parts ++ total)
              (parts-IsQuiet s.parts total (refl, tt)))
      ]

  head-live :
      (a : ProjectActions E) (p : HealthchecksProject) (runtime : Option ProjectRuntime)
      (s : CardState)
      → live (card_head a p runtime s)
        ≡ a.turn p.id
          ∷ a.toggle_overview p.id (not p.show_on_overview)
          ∷ ((if s.fetching then [] else a.fetch p.id ∷ []) ++ a.edit p ∷ a.delete p.id ∷ [])
  unfolding card_head icon_button
  head-live a p runtime s = elim (Bool-cases p.show_on_overview) [
    | inl o ↦ elim (Bool-cases s.fetching) [
      | inl f ↦ rw (summary-live p.checks runtime, o, f) refl
      | inr f ↦ rw (summary-live p.checks runtime, o, f) refl
    ]
    | inr o ↦ elim (Bool-cases s.fetching) [
      | inl f ↦ rw (summary-live p.checks runtime, o, f) refl
      | inr f ↦ rw (summary-live p.checks runtime, o, f) refl
    ]
  ]

  -- What a card offers: opening or closing it, showing it on the overview, fetching, unless a fetch is
  -- under way, editing, deleting, and each of its checks while it is open.
  abbrev pub card_offers : ProjectActions E → (String → CardState) → HealthchecksProject → List E
  card_offers a cards p =
      a.turn p.id
      ∷ a.toggle_overview p.id (not p.show_on_overview)
      ∷ ((if (cards p.id).fetching then [] else a.fetch p.id ∷ [])
          ++ a.edit p
            ∷ a.delete p.id
            ∷ (if (cards p.id).is_open
                then for_each (turned (a.toggle_check p.id)) p.checks
                else []))

  inner-live :
      (now : ℕ) (a : ProjectActions E) (p : HealthchecksProject) (runtime : Option ProjectRuntime)
      (is_open : Bool)
      → live_in (nodes (card_inner now a p runtime is_open))
        ≡ (if is_open then for_each (turned (a.toggle_check p.id)) p.checks else [])
  inner-live now a p runtime true = rw (table-live now runtime (a.toggle_check p.id) p.checks) (
      append-nil (for_each (turned (a.toggle_check p.id)) p.checks ++ [])
      ∙ append-nil (for_each (turned (a.toggle_check p.id)) p.checks))
  inner-live now a p runtime false = refl

  card-live :
      (host_in : String → Option String) (now : ℕ) (a : ProjectActions E) (p : HealthchecksProject)
      (runtime : Option ProjectRuntime) (cards : String → CardState)
      → live (project_card host_in now a p runtime (cards p.id)) ≡ card_offers a cards p
  unfolding project_card
  card-live host_in now a p runtime cards =
      let s = cards p.id in
      let may_fetch : List E = if s.fetching then [] else a.fetch p.id ∷ [] in
      rw
        (
          head-live a p runtime s,
          live-append E (banner runtime) (card_inner now a p runtime s.is_open),
          banner-live runtime,
          inner-live now a p runtime s.is_open,
        )
        (ap (λ xs. a.turn p.id ∷ a.toggle_overview p.id (not p.show_on_overview) ∷ xs)
          (append_assoc may_fetch (a.edit p ∷ a.delete p.id ∷ [])
            (if s.is_open then for_each (turned (a.toggle_check p.id)) p.checks else [])))

  projects-live :
      (host_in : String → Option String) (now : ℕ) (a : ProjectActions E)
      (cards : String → CardState) (projects : List HealthchecksProject)
      (runtime : Option (List (String × ProjectRuntime)))
      → live_in (healthchecks_page host_in now a cards projects runtime)
        ≡ a.add ∷ for_each (card_offers a cards) projects
  unfolding healthchecks_page section_header empty_state
  projects-live host_in now a cards [] runtime = refl
  projects-live host_in now a cards (p ∷ ps) runtime =
      rw
        (live-map
          (λ (q : HealthchecksProject).
            project_card host_in now a q (runtime_of runtime q.id) (cards q.id))
          (card_offers a cards) (p ∷ ps)
          (λ q. card-live host_in now a q (runtime_of runtime q.id) cards))
        (append-nil (a.add ∷ for_each (card_offers a cards) (p ∷ ps)))

  -- Each of the three pages lets the user add an entry. For each of its entries, in their order, the page
  -- of the domains lets the user switch it, sync it, edit it and delete it; the page of the hooks run it,
  -- edit it and delete it; and the page of the projects open or close its card, show it on the overview,
  -- fetch its checks, unless a fetch is under way, edit it and delete it, and turn each of its checks over
  -- while the card is open. The pages offer nothing else.
  pub pages_offer :
      (upper : ℕ → Str) (host_in : String → Option String) (now : ℕ) (a : DomainActions E)
      (b : HookActions E) (c : ProjectActions E) (domains : List DomainConfig)
      (states : List (String × DomainState)) (hooks : List HookConfig) (defs : List HookDef)
      (cards : String → CardState) (projects : List HealthchecksProject)
      (runtime : Option (List (String × ProjectRuntime)))
      → (live_in (domains_page upper now a domains states)
          ≡ a.add ∷ for_each (domain_offers a) domains)
        × (live_in (hooks_page b hooks defs) ≡ b.add ∷ for_each (hook_offers b) hooks)
        × (live_in (healthchecks_page host_in now c cards projects runtime)
            ≡ c.add ∷ for_each (card_offers c cards) projects)
  pages_offer upper host_in now a b c domains states hooks defs cards projects runtime = (
    domains-live upper now a domains states,
    hooks-live b hooks defs,
    projects-live host_in now c cards projects runtime,
  )
