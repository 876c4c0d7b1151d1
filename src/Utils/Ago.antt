-- ===== src/Utils/Ago.antt =====
-- How long ago something was (frontend/src/utils.ts). Times are in milliseconds.
use tether_ddns.Prelude.{
  ℕ, ◌+◌, ◌-◌, ◌*◌, ◌/◌, ◌≤◌, ◌<◌, ◌≡◌, ◌⊎◌, String, Bool, Option, none, some, List, [], ◌∷◌, ◌++◌,
  arith, leb, ltb, if◌then◌else◌, find?,
}
use tether_ddns.Prelude.Text.{Text, lit, num}
use tether_ddns.Utils.Duration.{plural, week}

pub record AgoUnit : Type 0 where
  pub size : ℕ
  pub unit : String
  pub abbr : String

abbrev pub second_unit : AgoUnit
second_unit = record { size = 1; unit = "second"; abbr = "s" }

abbrev pub ago_units : List AgoUnit
ago_units =
    record { size = 2592000; unit = "month"; abbr = "mo" }
    ∷ record { size = week; unit = "week"; abbr = "w" }
    ∷ record { size = 86400; unit = "day"; abbr = "d" }
    ∷ record { size = 3600; unit = "hour"; abbr = "h" }
    ∷ record { size = 60; unit = "minute"; abbr = "m" }
    ∷ second_unit
    ∷ []

-- `AGO_UNITS.find(...) ?? AGO_UNITS[AGO_UNITS.length - 1]`
abbrev pub unit_or_last : Option AgoUnit → AgoUnit
unit_or_last none = second_unit
unit_or_last (some u) = u

-- The count, and the unit that it counts.
unfoldable pub elapsed_unit : ℕ → ℕ → ℕ × AgoUnit
elapsed_unit ts now =
    let elapsed = (now - ts) / 1000 in
    let u = unit_or_last (find? (λ v. leb v.size elapsed) ago_units) in (elapsed / u.size, u)

unfoldable pub elapsed_short : Option ℕ → ℕ → Text
elapsed_short none now = lit "—" ∷ []
elapsed_short (some ts) now = let (n, u) = elapsed_unit ts now in num n ∷ lit u.abbr ∷ []

unfoldable pub ago : Option ℕ → ℕ → Bool → Text
ago none now short = lit "—" ∷ []
ago (some ts) now short =
    let (n, u) = elapsed_unit ts now in
    if short
    then elapsed_short (some ts) now ++ lit " ago" ∷ []
    else plural n u.unit ++ lit " ago" ∷ []

-- The count is the whole number of its unit in the elapsed time, it is not zero unless nothing has
-- elapsed, and no larger unit fits: below a month it is fewer than 60 seconds, 60 minutes, 24
-- hours, 7 days or 5 weeks.
pub elapsed_unit_lem :
    (ts now : ℕ)
    → let elapsed = (now - ts) / 1000 in
      let (n, u) = elapsed_unit ts now in
      (n * u.size ≤ elapsed)
      × (elapsed < (n + 1) * u.size)
      × ((0 < n) ⊎ (elapsed ≡ 0))
      × ((u.size ≡ 2592000)
          ⊎ (n < (
              if ltb u.size 3600
              then 60
              else (if ltb u.size 86400 then 24 else (if ltb u.size 604800 then 7 else 5)))))
unfolding elapsed_unit
elapsed_unit_lem ts now = ground arith
