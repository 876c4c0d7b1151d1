-- ===== src/App/Tests.antt =====
-- The theorems about the page at small states.
use tether_ddns.App.ModalMoves.{open_count}
use tether_ddns.Utils.Incidents.{healthy}
use tether_ddns.Prelude.{zero, suc}
use tether_ddns.App.OneModal.{Absent, Leaves, NeverBack, days_of}
use tether_ddns.Utils.Incidents.{DayBucket}
use tether_ddns.App.Modals.{picks_day}
use tether_ddns.Api.{ok}
use tether_ddns.App.Dialog.{Session, answer, request_for}
use tether_ddns.App.Actions.{settings_saved}
use tether_ddns.Prelude.{ℕ}
use tether_ddns.App.RailWidth.{Position}
use tether_ddns.Prelude.{
  refl, pos, arith, Option, String, ◌+◌, ◌≤◌, ◌≡◌, ◌⊎◌, true, false, not, ◌&&◌, ◌||◌, none, some,
  List, [], ◌∷◌, count, length, if◌then◌else◌,
}
use tether_ddns.Types.{DomainConfig, Settings}
use tether_ddns.Api.{other_error}
use tether_ddns.App.{App, selected_day, domain, is_some, first_state, Config}
use tether_ddns.App.Dialog.{
  Event, asks, confirms, cancels, answers, loads, asked_for, run, opened, dialog_lem,
}
use tether_ddns.App.Actions.{toggles, finish, succeeded}
use tether_ddns.Forms.{DomainFormValue}
use tether_ddns.App.Deletes.{find_domain}
use tether_ddns.App.Modals
use tether_ddns.App.Modals.{
  Desk, DeskEvent, adds, saves_domain, domain_answers, dialog, edits_domain, closes, first_desk,
}
use tether_ddns.App.OneModal.{one_modal, late_answer_closes}
use tether_ddns.App.RailWidth.{Drag}
use tether_ddns.App.Outcomes.{is_error, changes_config, finish_lem}

abbrev home : DomainConfig
home = record {
  id = "d1";
  hostname = "home.example.com";
  provider = "cloudflare";
  record_type = "A";
  enabled = true;
  provider_config = none;
}

abbrev usual : Settings
usual = record {
  check_interval = 300;
  ip_source = "auto";
  update_on_startup = true;
  retry_on_failure = true;
  notify = false;
  heartbeat_url = none;
  heartbeat_interval = 300;
}

abbrev one_domain : App
one_domain = record (first_state none none) { domains = home ∷ [] }

abbrev loaded : Config
loaded = record { domains = home ∷ []; hooks = []; settings = usual; projects = [] }

-- A domain is loaded, its delete is asked for and confirmed twice, and the delete fails.
abbrev clicks : List (List DayBucket × Event)
clicks =
    ([], loads (some loaded))
    ∷ ([], asks domain "d1")
    ∷ ([], confirms)
    ∷ ([], confirms)
    ∷ ([], cancels)
    ∷ ([], answers false "t1")
    ∷ []

dialog_lem_example :
    let s = run (λ _. none) clicks (opened (λ _. none) [] none none) in
    (s.app.deleting ≡ (is_some s.in_flight || s.reloading))
    × ((is_some s.in_flight && s.reloading) ≡ false)
    × ((s.in_flight ≡ none)
        ⊎ ((s.app.confirm_open ≡ true) × (s.in_flight ≡ asked_for s.app.pending_delete)))
dialog_lem_example = dialog_lem (λ _. none) none none clicks

abbrev asking : Session
asking = record { app = one_domain; in_flight = none; reloading = false }

finish_lem_example :
    let (after, reload) = finish (toggles home) other_error "t1" one_domain in
    let failed = not (is_some (succeeded other_error)) in
    let deleted =
      answer (λ _. none) [] false "t1" (some (domain, request_for domain "d1")) asking in
    let (settled, returned) = settings_saved (ok usual) "t1" one_domain in
    let errors = count is_error one_domain.toasts in
    let toasts = length one_domain.toasts in
    (count is_error after.toasts ≡ errors + (if failed then 1 else 0))
    × (length after.toasts ≤ toasts + 1)
    × (reload ≡ (not failed && changes_config (toggles home) one_domain))
    × (count is_error deleted.app.toasts ≡ errors + 1)
    × (length deleted.app.toasts ≡ toasts + 1)
    × (deleted.reloading ≡ true)
    × (count is_error settled.toasts ≡ errors + 0)
    × (length settled.toasts ≡ toasts + 1)
    × (settled.settings ≡ some usual)
    × (returned ≡ ok usual)
finish_lem_example =
    finish_lem (λ _. none) [] (toggles home) other_error domain (request_for domain "d1") false
      (ok usual) "t1" asking

abbrev other_form : DomainFormValue
other_form = record {
  hostname = "nas.example.com";
  provider = "cloudflare";
  record_type = "A";
  enabled = true;
  provider_config = [];
}

abbrev no_host : String → Option String
no_host _ = none

-- A day is picked and then no longer shown; a domain is added; while its save is under way the delete of
-- another is asked for in vain.
abbrev monday : DayBucket
monday = record {
  start = 0;
  end = 86400000;
  observed_end = 3600000;
  worst = healthy;
  incidents = [];
  offline = 0;
  degraded_time = 0;
}

abbrev desk_events : List (List DayBucket × DeskEvent)
desk_events =
    (monday ∷ [], dialog (loads (some loaded)))
    ∷ (monday ∷ [], picks_day 0)
    ∷ (monday ∷ [], adds domain)
    ∷ ([], adds domain)
    ∷ ([], saves_domain other_form)
    ∷ ([], dialog (asks domain "d1"))
    ∷ ([], domain_answers true "t1")
    ∷ ([], dialog (asks domain "d1"))
    ∷ []

-- The renders that show no day.
abbrev nothing : ℕ → List (List DayBucket)
nothing zero = []
nothing (suc n) = [] ∷ nothing n

nothing-Absent : (start n : ℕ) → Absent start (nothing n)
nothing-Absent start zero = tt
nothing-Absent start (suc n) = (refl, nothing-Absent start n)

nothing-Leaves : (start n : ℕ) → Leaves start (nothing n)
nothing-Leaves start zero = tt
nothing-Leaves start (suc n) = (λ _. nothing-Absent start n, nothing-Leaves start n)

nothing-NeverBack : (n : ℕ) → NeverBack (nothing n)
nothing-NeverBack zero = tt
nothing-NeverBack (suc n) = (λ start _. nothing-Leaves start n, nothing-NeverBack n)

monday-Leaves : (start n : ℕ) → Leaves start ((monday ∷ []) ∷ nothing n)
monday-Leaves start n = (λ _. nothing-Absent start n, nothing-Leaves start n)

monday_twice-Leaves : (start n : ℕ) → Leaves start ((monday ∷ []) ∷ (monday ∷ []) ∷ nothing n)
monday_twice-Leaves start n = (λ gone. (gone, nothing-Absent start n), monday-Leaves start n)

desk-NeverBack : NeverBack (days_of desk_events [])
desk-NeverBack = (
  (λ start _. monday_twice-Leaves start 6),
  ((λ start _. monday-Leaves start 6), ((λ start _. nothing-Leaves start 6), nothing-NeverBack 6)),
)

one_modal_example :
    open_count no_host []
      (Modals.run no_host desk_events (first_desk no_host [] none none)).session.app
    ≤ 1
one_modal_example = one_modal no_host none none desk_events [] desk-NeverBack

-- The page with a domain, while the modal for a new one is open.
abbrev adding_desk : Desk
adding_desk = record (first_desk no_host [] none none) {
  session = record (opened no_host [] none none) {
    app = record one_domain { domain_modal_open = true };
  };
}

late_answer_closes_example :
    let before =
      Modals.run no_host
        (([], saves_domain other_form) ∷ ([], closes domain) ∷ ([], edits_domain "d1") ∷ [])
        adding_desk in
    let after = Modals.step no_host [] (domain_answers true "t1") before in
    (before.session.app.domain_modal_open ≡ true)
    × (before.session.app.editing_domain ≡ find_domain "d1" adding_desk.session.app)
    × (after.session.app.domain_modal_open ≡ false)
unfolding first_state selected_day
late_answer_closes_example =
    late_answer_closes no_host [] other_form "d1" "t1" adding_desk refl (omega arith) refl

abbrev still : Drag
still = record { dragging = false; last_width = none; shown = none; stored = none }

abbrev at_px : ℕ → Position
at_px n = record { whole = pos n; fraction = b'5' ∷ [] }
