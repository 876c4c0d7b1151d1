-- ===== src/Utils/Incidents.antt =====
-- Incidents by day, and the uptime (frontend/src/utils.ts). All times are in milliseconds.
pub mod Days
pub mod Uptime
use tether_ddns.Prelude.{
  ℕ, zero, suc, ◌+◌, ◌-◌, ◌*◌, ◌≤◌, ◌<◌, Bool, Option, none, some, List, [], ◌∷◌, ◌++◌, min, max,
  ltb, leb, ◌≡◌, true, false, if◌then◌else◌, ℤ, pos, sub_ℕ,
}
use tether_ddns.Types.{Severity, degraded, outage, Incident}

pub data DaySeverity : Type 0 where
  healthy day_degraded day_outage : DaySeverity

pub record DayBucket : Type 0 where
  pub start : ℕ
  pub end : ℕ
  -- `end`, or now for a day still in progress
  pub observed_end : ℕ
  pub worst : DaySeverity
  pub incidents : List Incident
  pub offline : ℕ
  pub degraded_time : ℕ

-- `Date` in the host's time zone: the number of the local day in which a time lies, and when that
-- day begins.
pub record Calendar : Type 0 where
  pub day_of : ℕ → ℕ
  pub start_of : ℕ → ℕ
  pub start_of-day_of-le : (t : ℕ) → start_of (day_of t) ≤ t
  pub lt-start_of-day_of : (t : ℕ) → t < start_of (day_of t + 1)
  pub day_of-start_of : (d : ℕ) → day_of (start_of d) ≡ d

abbrev pub end_or : Incident → ℕ → ℕ
end_or inc now = elim inc.end [ none ↦ now | some e ↦ e ]

-- `Math.max(0, end - start)`: subtraction stops at 0.
unfoldable pub overlap : Incident → ℕ → ℕ → ℕ → ℕ
overlap inc from to now = min (end_or inc now) to - max inc.start from

-- `ongoing ? [...incidents, ongoing] : incidents`
abbrev pub with_ongoing : List Incident → Option Incident → List Incident
with_ongoing incidents none = incidents
with_ongoing incidents (some o) = incidents ++ o ∷ []

abbrev pub is_outage : Severity → Bool
is_outage outage = true
is_outage degraded = false

-- The variables of the loop over the incidents.
pub record Tally : Type 0 where
  pub hits : List Incident
  pub offline : ℕ
  pub degraded_time : ℕ

abbrev pub no_hits : Tally
no_hits = record { hits = []; offline = 0; degraded_time = 0 }

abbrev pub add_hit : Incident → ℕ → Tally → Tally
add_hit inc seconds t =
    if is_outage inc.severity
    then record t { hits = t.hits ++ inc ∷ []; offline = t.offline + seconds }
    else record t { hits = t.hits ++ inc ∷ []; degraded_time = t.degraded_time + seconds }

unfoldable pub tally_day : ℕ → ℕ → ℕ → List Incident → Tally → Tally
tally_day from to now [] t = t
tally_day from to now (inc ∷ all) t =
    let seconds = overlap inc from to now in
    tally_day from to now all (if leb seconds 0 then t else add_hit inc seconds t)

module _ (cal : Calendar) where
  -- One round of the loop over the days: the day that lies `back` days before today.
  unfoldable pub day_bucket : List Incident → ℕ → ℕ → DayBucket
  day_bucket all now back =
      let start = cal.start_of (cal.day_of now - back) in
      let end = cal.start_of (cal.day_of start + 1) in
      let t = tally_day start end now all no_hits in
      record {
        start = start;
        end = end;
        observed_end = min now end;
        worst =
            if ltb 0 t.offline
            then day_outage
            else (if ltb 0 t.degraded_time then day_degraded else healthy);
        incidents = t.hits;
        offline = t.offline;
        degraded_time = t.degraded_time;
      }

  unfoldable pub buckets_down : List Incident → ℕ → ℕ → List DayBucket
  buckets_down all now zero = []
  buckets_down all now (suc back) = day_bucket all now back ∷ buckets_down all now back

  unfoldable pub bucket_by_day : List Incident → Option Incident → ℕ → ℕ → List DayBucket
  bucket_by_day incidents ongoing now days = buckets_down (with_ongoing incidents ongoing) now days

-- A percentage, 100 * num / den.
pub record Percent : Type 0 where
  pub num : ℤ
  pub den : ℕ

pub record UptimeStats : Type 0 where
  pub pct : Percent
  pub offline : ℕ
  pub degraded_time : ℕ
  pub observed : ℕ

-- The loop of `uptimeStats`: every incident counts, by its severity.
unfoldable pub tally_window : ℕ → ℕ → List Incident → ℕ × ℕ → ℕ × ℕ
tally_window from now [] sums = sums
tally_window from now (inc ∷ all) (off, deg) =
    let seconds = overlap inc from now now in
    tally_window from now all
      (if is_outage inc.severity then (off + seconds, deg) else (off, deg + seconds))

unfoldable pub uptime_stats : List Incident → Option Incident → ℕ → ℕ → ℕ → UptimeStats
uptime_stats incidents ongoing monitoring_since now days =
    let window_start = max monitoring_since (now - days * 86400000) in
    let observed = now - window_start in
    let (off, deg) = tally_window window_start now (with_ongoing incidents ongoing) (0, 0) in
    record {
      pct =
          if ltb 0 observed
          then record { num = sub_ℕ observed off; den = observed }
          else record { num = pos 1; den = 1 };
      offline = off;
      degraded_time = deg;
      observed = observed;
    }
