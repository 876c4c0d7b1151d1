-- ===== src/Views/Tests.antt =====
-- The theorems about the views at small values.
use tether_ddns.Prelude.{◌*◌, ◌/◌, ◌≡◌, true, false, none, some, List, [], ◌∷◌, String, arith}
use tether_ddns.Types.{DomainState, DomainConfig, HealthcheckRef, CheckStatus, ProjectRuntime}
use tether_ddns.Types
use tether_ddns.Views.Checks.{bar, items_of}
use tether_ddns.Utils.Checks.{project_unknown}
use tether_ddns.Prelude.{if◌then◌else◌}
use tether_ddns.Types.{outage, Incident}
use tether_ddns.Utils.Incidents.{Calendar, day_bucket}
use tether_ddns.Utils.Incidents.Days.{outage_test, degraded_test}
use tether_ddns.Views.Incident.{rows_sum, rows_add_up}
use tether_ddns.Prelude.{Option, codes, refl, str_eq_code}
use tether_ddns.Prelude.Dict.{lookup}
use tether_ddns.FormErrors.{Errors}
use tether_ddns.Prelude.Strings.{trim}
use tether_ddns.Views.Settings.{
  HeartbeatPanel, heartbeat_url, accepted, refused, saved_url, url_or_null, is_dirty, submit,
  settle, rendered, edits, clicks, panel_run, heartbeat_save,
}
use tether_ddns.Views.Bar.{worst_first, segments_lem}

abbrev home_state : DomainState
home_state = record { id = "d1"; status = "updating"; ip = none; updated = none; message = "" }

abbrev nas_state : DomainState
nas_state = record { id = "d2"; status = "synced"; ip = none; updated = some 5; message = "" }

abbrev nas : DomainConfig
nas = record {
  id = "d2";
  hostname = "nas.example.com";
  provider = "cloudflare";
  record_type = "A";
  enabled = true;
  provider_config = none;
}

abbrev check_ref : String → HealthcheckRef
check_ref key = record { key = key; name = key; slug = key; visible = true }

abbrev status_of : String → Types.CheckState → String × CheckStatus
status_of key state = (
  key,
  record {
    name = key;
    slug = key;
    status = state;
    last_ping = none;
    next_ping = none;
    timeout = none;
    schedule = none;
    tz = none;
    grace = 60;
  },
)

abbrev polled : ProjectRuntime
polled = record {
  polled_at = some 5;
  ok = true;
  error = none;
  offline = false;
  checks = status_of "a" Types.up ∷ status_of "b" Types.down ∷ status_of "c" Types.up ∷ [];
}

abbrev refs : List HealthcheckRef
refs = check_ref "a" ∷ check_ref "b" ∷ check_ref "c" ∷ []

segments_lem_example :
    bar (some polled) refs
    ≡ (if project_unknown (some polled) then [] else worst_first (items_of (some polled) refs))
segments_lem_example = segments_lem (some polled) refs

-- A calendar whose days are those of UTC.
abbrev utc : Calendar
utc = record {
  day_of = λ t. t / 86400000;
  start_of = λ d. d * 86400000;
  start_of-day_of-le = λ t. omega arith;
  lt-start_of-day_of = λ t. omega arith;
  day_of-start_of = λ d. omega arith;
}

abbrev cut : Incident
cut = record {
  start = 86300000;
  end = none;
  severity = outage;
  min_successes = 0;
  total = 3;
  failed = [];
}

rows_add_up_example :
    let b = day_bucket utc (cut ∷ []) 172900000 1 in
    (rows_sum outage_test b 172900000 b.incidents ≡ b.offline)
    × (rows_sum degraded_test b 172900000 b.incidents ≡ b.degraded_time)
rows_add_up_example = rows_add_up utc (cut ∷ []) 172900000 1

abbrev typed_url : HeartbeatPanel
typed_url = record { draft = codes " https://hc.local/ping"; err = none; saving = false }

heartbeat_save_example :
    let new : Option String = some "https://hc.local/ping" in
    let fields : Errors = (codes "heartbeat_url", "Not a url") ∷ [] in
    let (begun, request) = submit (saved_url none) typed_url in
    let (edited, more) = panel_run (saved_url none) (edits "x" ∷ clicks ∷ []) begun in
    let good = rendered none new (settle (accepted new) edited) in
    let bad = rendered none none (settle (refused fields) edited) in
    (request ≡ some (heartbeat_url (url_or_null (trim typed_url.draft))))
    × (more ≡ [])
    × (good.draft ≡ saved_url new)
    × (is_dirty (saved_url new) good ≡ false)
    × (good.saving ≡ false)
    × (bad.draft ≡ edited.draft)
    × (bad.err ≡ lookup (codes "heartbeat_url") fields)
    × (bad.saving ≡ false)
unfolding is_dirty
heartbeat_save_example =
    heartbeat_save none (some "https://hc.local/ping") ((codes "heartbeat_url", "Not a url") ∷ [])
      (edits "x" ∷ clicks ∷ []) typed_url refl refl refl
