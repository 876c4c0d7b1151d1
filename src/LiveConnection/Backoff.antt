-- ===== src/LiveConnection/Backoff.antt =====
-- `nextDelay` of frontend/src/liveConnection.ts, in exact fractions, and its bounds.
use tether_ddns.Prelude.{ℕ, ◌+◌, ◌-◌, ◌*◌, ◌^◌, min, Ratio, round_div}
use tether_ddns.LiveConnection.State.{LiveConnectionOptions}

-- base = Math.min(maxBackoffMs, minBackoffMs * backoffFactor ** attempt), over `base_den`.
abbrev pub base_den : LiveConnectionOptions → ℕ → ℕ
base_den o attempt = o.backoff_factor.den ^ attempt

abbrev pub base_num : LiveConnectionOptions → ℕ → ℕ
base_num o attempt =
    min (o.max_backoff_ms * base_den o attempt) (o.min_backoff_ms * o.backoff_factor.num ^ attempt)

-- 1 + (random() * 2 - 1) * jitterRatio, over `o.jitter_ratio.den * random.den`. Where the source
-- is negative this is 0, as `setTimeout` reads a negative delay.
abbrev pub spread_num : LiveConnectionOptions → Ratio → ℕ
spread_num o random =
    let j = o.jitter_ratio in j.den * random.den + 2 * random.num * j.num - random.den * j.num

unfoldable pub next_delay : LiveConnectionOptions → Ratio → ℕ → ℕ
next_delay o random attempt =
    round_div (base_num o attempt * spread_num o random)
      (base_den o attempt * (o.jitter_ratio.den * random.den))
