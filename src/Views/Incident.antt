-- ===== src/Views/Incident.antt =====
-- The modal of one day: frontend/src/components/IncidentModal.tsx. Times are in milliseconds.
use tether_ddns.Prelude.{
  ℕ, ◌+◌, ◌-◌, ◌*◌, ◌≡◌, refl, ◌∙◌, sym, ap, Bool, Option, none, some, List, [], ◌∷◌, keep, ltb,
  min, max, Ratio, arith, if◌then◌else◌,
}
use tether_ddns.Prelude.Text.{Text, lit}
use tether_ddns.Types.{Incident}
use tether_ddns.Utils.Incidents.{Calendar, DayBucket, end_or, overlap, day_bucket}
use tether_ddns.Utils.Incidents.Days.{total_overlap, outage_test, degraded_test, day_bucket_lem}

-- The uptime of the day, before it is written with one decimal. A time offline that is longer than
-- the observed time, as overlapping incidents may give, leaves nothing.
unfoldable pub day_pct : Option DayBucket → Ratio
day_pct none = record { num = 1; den = 1 }
day_pct (some b) =
    if ltb 0 (b.observed_end - b.start)
    then record { num = b.observed_end - b.start - b.offline; den = b.observed_end - b.start }
    else record { num = 1; den = 1 }

-- A bar of the time line: where it begins and how long it is, of the whole length of the day. A bar
-- is drawn at least 0.4 percent wide.
pub record TrackBar : Type 0 where
  pub left : ℕ
  pub width : Ratio
  pub span : ℕ

-- `Math.max(0.4, …)` of a percentage, as a share.
abbrev at_least : ℕ → ℕ → Ratio
at_least width span =
    if ltb (1000 * width) (4 * span)
    then record { num = 4; den = 1000 }
    else record { num = width; den = span }

unfoldable pub track_bar : DayBucket → ℕ → Incident → TrackBar
track_bar b now inc =
    let from = max inc.start b.start in
    let to = min (end_or inc now) b.end in
    record {
      left = from - b.start;
      width = at_least (to - from) (b.end - b.start);
      span = b.end - b.start;
    }

-- The part of the day that is still to come, if any: where it begins, and how long it is.
unfoldable pub future : DayBucket → Option (ℕ × ℕ)
future b =
    if ltb b.observed_end b.end
    then some (b.observed_end - b.start, b.end - b.observed_end)
    else none

-- `clock` writes a time of the day in the host's way.
unfoldable pub range : (ℕ → Text) → Incident → DayBucket → Text × Text
range clock inc b = (
  clock (max inc.start b.start),
  (elim inc.end [ none ↦ lit "now" ∷ [] | some e ↦ clock (min e b.end) ]),
)

-- How long a row says that its incident lasted on this day.
unfoldable pub span_seconds : Incident → DayBucket → ℕ → ℕ
span_seconds inc b now = min (end_or inc now) b.end - max inc.start b.start

-- The sum of what the rows of one kind say.
abbrev pub rows_sum : (Incident → Bool) → DayBucket → ℕ → List Incident → ℕ
rows_sum p b now [] = 0
rows_sum p b now (inc ∷ incs) =
    (if p inc then span_seconds inc b now else 0) + rows_sum p b now incs

rows_sum_lem :
    (p : Incident → Bool) (b : DayBucket) (now : ℕ) (all : List Incident)
    → rows_sum p b now (keep (λ inc. ltb 0 (overlap inc b.start b.end now)) all)
      ≡ total_overlap p b.start b.end now all
unfolding span_seconds overlap
rows_sum_lem p b now [] = refl
rows_sum_lem p b now (inc ∷ all) = ground (arith, rows_sum_lem p b now all)

-- For each day that is opened, the rows add up to the summary above them: the durations of the
-- outages to the time offline, and those of the other incidents to the time degraded.
pub rows_add_up :
    (cal : Calendar) (all : List Incident) (now back : ℕ)
    → let b = day_bucket cal all now back in
      (rows_sum outage_test b now b.incidents ≡ b.offline)
      × (rows_sum degraded_test b now b.incidents ≡ b.degraded_time)
rows_add_up cal all now back =
    let b = day_bucket cal all now back in
    let (hits, off, deg, _, _) = day_bucket_lem cal all now back in
    (
      ap (rows_sum outage_test b now) hits ∙ rows_sum_lem outage_test b now all ∙ sym off,
      ap (rows_sum degraded_test b now) hits ∙ rows_sum_lem degraded_test b now all ∙ sym deg,
    )
