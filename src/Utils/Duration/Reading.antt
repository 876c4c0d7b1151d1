-- ===== src/Utils/Duration/Reading.antt =====
-- What the texts of frontend/src/utils.ts say: read back, they give the span that was printed.
use text.Mathlib.Text.{◌==◌ as str_eq}
use tether_ddns.Prelude.{
  ℕ, zero, suc, true, length, nat_beq, ◌+◌, ◌-◌, ◌*◌, ◌/◌, ◌%◌, ◌≤◌, ◌<◌, ◌≡◌, ◌⊎◌, refl, String,
  ◌||◌, ◌&&◌, List, [], ◌∷◌, arith, ltb, if◌then◌else◌, round_div, take, keep, map, some,
}
use tether_ddns.Prelude.Text.{Text, lit, num, join}
use tether_ddns.Utils.Duration.{
  format_duration, human_time, format_countdown, duration_parts, human_duration, plural, week,
  duration_units,
}

-- The seconds in a unit, as the texts write it.
abbrev pub unit_seconds : String → ℕ
unit_seconds u =
    if str_eq u "s"
    then 1
    else (if str_eq u "m" || str_eq u "m "
        then 60
        else (if str_eq u "h" || str_eq u "h "
            then 3600
            else (if str_eq u "d" then 86400 else (if str_eq u "mo" then 2592000 else 0))))

-- A reader who knows the units: each number counts as many of the unit that follows it.
abbrev pub seconds_in : Text → ℕ
seconds_in (num n ∷ lit u ∷ rest) = n * unit_seconds u + seconds_in rest
seconds_in (_ ∷ rest) = seconds_in rest
seconds_in [] = 0

-- A duration reads as its whole seconds, rounded, but that the seconds are left out from five
-- minutes on: below five minutes it reads exactly, above it loses less than a minute.
pub format_duration_reading :
    (ms : ℕ)
    → let total = round_div ms 1000 in
      let read = seconds_in (format_duration ms) in
      (read ≤ total) × (total < read + 60) × ((300 ≤ total) ⊎ (read ≡ total))
unfolding format_duration
format_duration_reading ms = ground arith

-- An age reads as its whole seconds, cut off below the smaller of the two units that are shown:
-- days after a month, hours after a day, minutes after an hour, and otherwise nothing is lost.
pub human_time_reading :
    (ms : ℕ)
    → let total = ms / 1000 in
      let read = seconds_in (human_time ms) in
      let lost : ℕ =
        if ltb total 3600
        then 1
        else (if ltb total 86400 then 60 else (if ltb total 2592000 then 3600 else 86400)) in
      (read ≤ total) × (total < read + lost)
unfolding human_time
human_time_reading ms = ground arith

-- A countdown shows minutes and seconds, the seconds below 60 and in two digits, and together they
-- are the time that is left, rounded.
pub format_countdown_reading :
    (at now : ℕ)
    → let remain = round_div (at - now) 1000 in
      (m : ℕ) × (s : ℕ) × (format_countdown (some at) now
        ≡ num m ∷ lit ":" ∷ (if ltb s 10 then lit "0" ∷ num s ∷ [] else num s ∷ []))
      × (s < 60)
      × (m * 60 + s ≡ remain)
unfolding format_countdown
format_countdown_reading at now =
    let remain = round_div (at - now) 1000 in
    (remain / 60, remain % 60, refl, omega arith, omega arith)

-- How many of each unit a span holds, largest first.
abbrev pub unit_counts : ℕ → List (ℕ × String)
unit_counts t =
    (t / 86400, "day")
    ∷ (t % 86400 / 3600, "hour")
    ∷ (t % 3600 / 60, "minute")
    ∷ (t % 60, "second")
    ∷ []

abbrev pub shown_units : ℕ → List (ℕ × String)
shown_units t = take 2 (keep (λ c. ltb 0 c.0) (unit_counts t))

abbrev pub write_units : List (ℕ × String) → List Text
write_units = map (λ c. plural c.0 c.1)

parts_lem : (t : ℕ) → duration_parts duration_units t [] ≡ write_units (shown_units t)
unfolding duration_parts
parts_lem t = ground arith

some_unit : (t : ℕ) → 0 < t → ltb 0 (length (write_units (shown_units t))) ≡ true
some_unit t h = ground arith

no_unit : write_units (shown_units 0) ≡ []
no_unit = refl

choose_lem :
    (t : ℕ) (parts : List Text) (weeks joined : Text)
    → 0 < t
    → ltb 0 (length parts) ≡ true
    → (if ltb 0 t && nat_beq (t % week) 0
        then weeks
        else (if ltb 0 (length parts) then joined else lit "0 seconds" ∷ []))
      ≡ (if nat_beq t 0
          then lit "0 seconds" ∷ []
          else (if nat_beq (t % 604800) 0 then weeks else joined))
choose_lem t parts weeks joined pos some_part = ground arith

-- A period of whole weeks is written as weeks; any other as its largest two units that are not
-- zero, in order, and the empty period as "0 seconds".
pub human_duration_lem :
    (t : ℕ)
    → human_duration t ≡ (
        if nat_beq t 0
        then lit "0 seconds" ∷ []
        else (if nat_beq (t % 604800) 0
            then plural (t / 604800) "week"
            else join (lit " " ∷ []) (write_units (shown_units t))))
unfolding human_duration
human_duration_lem zero = rw (parts_lem 0) refl
human_duration_lem (suc k) =
    let t : ℕ = suc k in
    let parts : List Text = write_units (shown_units t) in
    rw (parts_lem t) (
      choose_lem t parts (plural (t / week) "week") (join (lit " " ∷ []) parts) (omega arith)
        (some_unit t (omega arith)))
