-- ===== src/Views/Reachability.antt =====
-- frontend/src/components/ReachabilityPanel.tsx. Times are in milliseconds; a percentage is the share
-- `num / den`, which is not negative.
use tether_ddns.Prelude.{
  ℕ, zero, suc, ◌-◌, ◌*◌, ◌/◌, ◌%◌, Bool, true, ◌&&◌, Option, none, some, List, [], ◌∷◌, ◌++◌, map,
  length, take_last, ltb, leb, min, Ratio, round_div, if◌then◌else◌,
}
use tether_ddns.Prelude.Text.{Text, lit, num}
use tether_ddns.Types.{CheckRecord, ResolverProbe}
use tether_ddns.Utils.Duration.{human_time}
use tether_ddns.Utils.Incidents.{UptimeStats}

abbrev pub quorum_bars : ℕ
quorum_bars = 24

abbrev pub quorum : ℕ
quorum = 2

abbrev pub day_bars : ℕ
day_bars = 30

-- In milliseconds.
abbrev pub thirty_days : ℕ
thirty_days = day_bars * 86400000

-- `p.toFixed(1)` of the percentage: to the nearest tenth, a half goes up.
abbrev pub to_fixed_1 : Ratio → Text
to_fixed_1 p =
    let tenths = round_div (1000 * p.num) p.den in
    num (tenths / 10) ∷ lit "." ∷ num (tenths % 10) ∷ []

unfoldable pub format_pct : Ratio → Text
format_pct p =
    if ltb 0 p.num && ltb (1000 * p.num) p.den
    then lit "<0.1%" ∷ []
    else (if ltb (999 * p.den) (1000 * p.num) && ltb p.num p.den
        then lit ">99.9%" ∷ []
        else to_fixed_1 p ++ lit "%" ∷ [])

unfoldable pub window_time : ℕ → Text
window_time ms = if leb (thirty_days - 1000) ms then num day_bars ∷ lit "d" ∷ [] else human_time ms

-- `bars`, and whether the last of them reached the quorum.
unfoldable pub bars_of : List CheckRecord → List CheckRecord
bars_of history = take_last quorum_bars history

abbrev pub last_of : List CheckRecord → Option CheckRecord
last_of [] = none
last_of (b ∷ []) = some b
last_of (b ∷ c ∷ bs) = last_of (c ∷ bs)

abbrev reached : Option CheckRecord → Bool
reached none = true
reached (some b) = leb quorum b.successes

unfoldable pub is_online : List CheckRecord → Bool
unfolding bars_of
is_online history = reached (last_of (bars_of history))

-- The lengths of the three segments.
pub record Seconds : Type 0 where
  pub healthy : ℕ
  pub degraded : ℕ
  pub outage : ℕ

unfoldable pub seconds_of : UptimeStats → Seconds
seconds_of s = record {
  healthy = s.observed - s.offline - s.degraded_time;
  degraded = s.degraded_time;
  outage = s.offline;
}

-- The share of the observed time that a segment's label tells.
unfoldable pub share_of : UptimeStats → ℕ → Ratio
share_of s t =
    if ltb 0 s.observed then record { num = t; den = s.observed } else record { num = 0; den = 1 }

-- One place of the strip of the last checks.
pub data Bar : Type 0 where
  blank down degraded full : Bar

abbrev bar_of : CheckRecord → Bar
bar_of h =
    if ltb h.successes quorum then down else (if ltb h.successes h.total then degraded else full)

abbrev blanks : ℕ → List Bar
blanks zero = []
blanks (suc n) = blank ∷ blanks n

-- The strip: blank places first, then the bars.
unfoldable pub strip : List CheckRecord → List Bar
unfolding bars_of
strip history = let bars = bars_of history in blanks (quorum_bars - length bars) ++ map bar_of bars

-- A row of the resolvers: `none` for a time-out, else the share of the track that is filled, whether
-- it is slow, and its latency in milliseconds.
unfoldable pub resolver_row : ResolverProbe → Option (ℕ × Bool × ℕ)
resolver_row x = elim x.latency_ms [
  | none ↦ none
  | some ms ↦ if x.ok then some (min 120 ms, ltb 80 ms, ms) else none
]
