-- ===== src/Utils/Tests.antt =====
-- The theorems about frontend/src/utils.ts at small values.
use tether_ddns.Prelude.{
  ◌+◌, ◌*◌, ◌/◌, ◌≤◌, ◌<◌, ◌≡◌, ◌↔◌, refl, true, false, none, some, List, [], ◌∷◌, map, arith, ltb,
  keep, length, pos, ◌≤ℤ◌,
}
use tether_ddns.Types.{degraded, outage, Incident, HealthcheckRef, CheckStatus, ProjectRuntime}
use tether_ddns.Types
use tether_ddns.Utils.Incidents.{Calendar, bucket_by_day, uptime_stats}
use tether_ddns.Utils.Incidents.Days.{
  Chain, InLast, total_overlap, outage_test, degraded_test, sum_of, bucket_by_day-Chain,
  bucket_by_day-conserves,
}
use tether_ddns.Utils.Incidents.Uptime.{uptime_stats-bounds}
use tether_ddns.Utils.Checks.{
  project_unknown, project_summary, summary_order, overview_pill, OverviewRow,
}
use tether_ddns.Utils.Checks.Counts.{
  displays, times, part_of, sum_n, all_displays, pill_of, project_summary_lem, overview_pill_lem,
}

-- The calendar of a host whose time zone is UTC.
abbrev utc : Calendar
utc = record {
  day_of = λ t. t / 86400000;
  start_of = λ d. d * 86400000;
  start_of-day_of-le = λ t. omega arith;
  lt-start_of-day_of = λ t. omega arith;
  day_of-start_of = λ d. omega arith;
}

abbrev short_outage : Incident
short_outage = record {
  start = 86300000;
  end = some 86500000;
  severity = outage;
  min_successes = 0;
  total = 3;
  failed = "1.1.1.1" ∷ [];
}

abbrev still_degraded : Incident
still_degraded = record {
  start = 172000000;
  end = none;
  severity = degraded;
  min_successes = 2;
  total = 3;
  failed = [];
}

bucket_by_day-Chain_example :
    let buckets = bucket_by_day utc (short_outage ∷ []) (some still_degraded) 172900000 3 in
    (length buckets ≡ 3) × Chain 0 259200000 buckets × InLast 172900000 buckets
bucket_by_day-Chain_example =
    bucket_by_day-Chain utc (short_outage ∷ []) (some still_degraded) 172900000 2 (omega arith)

bucket_by_day-conserves_example :
    let buckets = bucket_by_day utc (short_outage ∷ []) (some still_degraded) 172900000 3 in
    let all = short_outage ∷ still_degraded ∷ [] in
    (sum_of (λ b. b.offline) buckets ≡ total_overlap outage_test 0 259200000 172900000 all)
    × (sum_of (λ b. b.degraded_time) buckets
        ≡ total_overlap degraded_test 0 259200000 172900000 all)
bucket_by_day-conserves_example =
    bucket_by_day-conserves utc (short_outage ∷ []) (some still_degraded) 172900000 2 (omega arith)

uptime_stats-bounds_example :
    let s = uptime_stats (short_outage ∷ []) (some still_degraded) 0 172900000 30 in
    (s.offline + s.degraded_time ≤ s.observed)
    × (pos 0 ≤ℤ s.pct.num)
    × (s.pct.num ≤ℤ pos s.pct.den)
    × (0 < s.pct.den)
    × ((s.pct.num ≡ pos s.pct.den) ↔ (s.offline ≡ 0))
uptime_stats-bounds_example =
    uptime_stats-bounds (short_outage ∷ []) (some still_degraded) 0 172900000 30
      (omega arith, omega arith, (omega arith, omega arith, tt))

abbrev backup : HealthcheckRef
backup = record { key = "k1"; name = "backup"; slug = "backup"; visible = true }

abbrev late_status : CheckStatus
late_status = record {
  name = "backup";
  slug = "backup";
  status = Types.grace;
  last_ping = none;
  next_ping = none;
  timeout = none;
  schedule = none;
  tz = none;
  grace = 60;
}

abbrev polled : ProjectRuntime
polled = record {
  polled_at = some 5;
  ok = true;
  error = none;
  offline = false;
  checks = ("k1", late_status) ∷ [];
}

project_summary_lem_example :
    let s = project_summary (backup ∷ []) (some polled) in
    let ds = displays (some polled) (backup ∷ []) in
    (s.is_unknown ≡ false)
    × (s.parts ≡ map (part_of ds) (keep (λ x. ltb 0 (times x ds)) summary_order))
    × (sum_n s.parts ≡ 1)
unfolding project_unknown
project_summary_lem_example = project_summary_lem (backup ∷ []) (some polled) refl

abbrev rows : List OverviewRow
rows = record { refs = backup ∷ []; runtime = some polled } ∷ []

overview_pill_lem_example : overview_pill rows ≡ pill_of (all_displays rows)
overview_pill_lem_example = overview_pill_lem rows
