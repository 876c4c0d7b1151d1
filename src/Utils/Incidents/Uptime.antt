-- ===== src/Utils/Incidents/Uptime.antt =====
-- The uptime of frontend/src/utils.ts: a share of the time that was observed.
use tether_ddns.Prelude.{
  ℕ, ◌+◌, ◌-◌, ◌*◌, ◌≤◌, ◌<◌, ◌≡◌, ◌↔◌, Option, List, [], ◌∷◌, max, arith, pos, ◌≤ℤ◌,
}
use tether_ddns.Types.{Incident}
use tether_ddns.Utils.Incidents.{end_or, overlap, with_ongoing, tally_window, uptime_stats}
use tether_ddns.Utils.Incidents.Days.{total_overlap, outage_test, degraded_test}

-- Each incident begins when the one before it has ended, and ends after it began; one that has no
-- end yet lasts until now.
abbrev pub InOrder : ℕ → ℕ → List Incident → Type 0
InOrder now from [] = Unit
InOrder now from (inc ∷ all) =
    (from ≤ inc.start) × (inc.start ≤ end_or inc now) × InOrder now (end_or inc now) all

tally_window_lem :
    (from now : ℕ) (all : List Incident) (off deg : ℕ)
    → let (o, d) = tally_window from now all (off, deg) in
      (o ≡ off + total_overlap outage_test from now now all)
      × (d ≡ deg + total_overlap degraded_test from now now all)
unfolding tally_window
tally_window_lem from now [] off deg = (omega arith, omega arith)
tally_window_lem from now (inc ∷ all) off deg = ground (
  arith,
  tally_window_lem from now all (off + overlap inc from now now) deg,
  tally_window_lem from now all off (deg + overlap inc from now now),
)

fits :
    (from now lo : ℕ) (all : List Incident)
    → InOrder now lo all
    → total_overlap outage_test from now now all + total_overlap degraded_test from now now all
      ≤ now - max from lo
unfolding overlap
fits from now lo [] h = omega arith
fits from now lo (inc ∷ all) (after, forward, rest) =
    ground (arith, fits from now (end_or inc now) all rest)

-- If the incidents are in order, the time offline and the time degraded fit into the time that was
-- observed, and the uptime lies between 0 and 100 percent. It is 100 percent exactly if there was
-- no time offline.
pub uptime_stats-bounds :
    (incidents : List Incident) (ongoing : Option Incident) (since now days : ℕ)
    → InOrder now 0 (with_ongoing incidents ongoing)
    → let s = uptime_stats incidents ongoing since now days in
      (s.offline + s.degraded_time ≤ s.observed)
      × (pos 0 ≤ℤ s.pct.num)
      × (s.pct.num ≤ℤ pos s.pct.den)
      × (0 < s.pct.den)
      × ((s.pct.num ≡ pos s.pct.den) ↔ (s.offline ≡ 0))
unfolding uptime_stats
uptime_stats-bounds incidents ongoing since now days h =
    let from : ℕ = max since (now - days * 86400000) in
    let all = with_ongoing incidents ongoing in
    ground (arith, tally_window_lem from now all 0 0, fits from now 0 all h)
