-- ===== src/Utils/Duration.antt =====
-- The texts for spans of time in frontend/src/utils.ts. A span that the source holds in fractions
-- of a second is a whole number of milliseconds here.
pub mod Reading
use tether_ddns.Prelude.{
  ℕ, zero, suc, ◌+◌, ◌-◌, ◌*◌, ◌/◌, ◌%◌, String, Option, none, some, List, [], ◌∷◌, ◌++◌, ltb, leb,
  nat_beq, ◌&&◌, length, if◌then◌else◌, round_div,
}
use tether_ddns.Prelude.Text.{Text, lit, num, quotient, join}

-- `seconds` is whole.
unfoldable pub format_interval : ℕ → Text
format_interval seconds =
    if ltb seconds 60
    then num seconds ∷ lit "s" ∷ []
    else (if ltb seconds 3600
        then num (round_div seconds 60) ∷ lit " min" ∷ []
        else quotient seconds 3600 ∷ lit " hr" ∷ [])

unfoldable pub format_duration : ℕ → Text
format_duration ms =
    let total = round_div ms 1000 in
    let h = total / 3600 in
    let m = total % 3600 / 60 in
    let s = total % 60 in
    if ltb 0 h
    then (if ltb 0 m then num h ∷ lit "h " ∷ num m ∷ lit "m" ∷ [] else num h ∷ lit "h" ∷ [])
    else (if ltb 0 m
        then (if ltb 0 s && ltb m 5
            then num m ∷ lit "m " ∷ num s ∷ lit "s" ∷ []
            else num m ∷ lit "m" ∷ [])
        else num s ∷ lit "s" ∷ [])

abbrev two_units : ℕ → String → ℕ → String → Text
two_units big big_unit small small_unit =
    if ltb 0 small
    then num big ∷ lit big_unit ∷ lit " " ∷ num small ∷ lit small_unit ∷ []
    else num big ∷ lit big_unit ∷ []

unfoldable pub human_time : ℕ → Text
human_time ms =
    let months = ms / (1000 * (3600 * 24 * 30)) in
    let days = ms % (1000 * (3600 * 24 * 30)) / (1000 * (3600 * 24)) in
    let hours = ms % (1000 * (3600 * 24)) / (1000 * 3600) in
    let minutes = ms % (1000 * 3600) / (1000 * 60) in
    let seconds = ms % (1000 * 60) / 1000 in
    if ltb 0 months
    then two_units months "mo" days "d"
    else (if ltb 0 days
        then two_units days "d" hours "h"
        else (if ltb 0 hours
            then two_units hours "h" minutes "m"
            else (if ltb 0 minutes
                then two_units minutes "m" seconds "s"
                else num seconds ∷ lit "s" ∷ [])))

-- The times are in milliseconds; a time to come counts as now.
unfoldable pub rel_stable : Option ℕ → ℕ → Text
rel_stable none now = lit "—" ∷ []
rel_stable (some changed_at) now = human_time (now - changed_at)

-- `String(s).padStart(2, '0')`
abbrev pub pad_start_2 : ℕ → Text
pad_start_2 s = if ltb s 10 then lit "0" ∷ num s ∷ [] else num s ∷ []

unfoldable pub format_countdown : Option ℕ → ℕ → Text
format_countdown none now = lit "—" ∷ []
format_countdown (some next_check_at) now =
    let remain = round_div (next_check_at - now) 1000 in
    let m = remain / 60 in let s = remain % 60 in num m ∷ lit ":" ∷ pad_start_2 s

abbrev pub week : ℕ
week = 604800

abbrev pub duration_units : List (ℕ × String)
duration_units = (86400, "day") ∷ (3600, "hour") ∷ (60, "minute") ∷ (1, "second") ∷ []

abbrev pub plural : ℕ → String → Text
plural n unit = num n ∷ lit " " ∷ lit unit ∷ (if nat_beq n 1 then [] else lit "s" ∷ [])

-- The loop over the units: what is left, and the parts so far. It stops at two parts.
unfoldable pub duration_parts : List (ℕ × String) → ℕ → List Text → List Text
duration_parts [] rest parts = parts
duration_parts ((size, unit) ∷ units) rest parts =
    let n = rest / size in
    let parts' = if ltb 0 n then parts ++ plural n unit ∷ [] else parts in
    let rest' = if ltb 0 n then rest - n * size else rest in
    let later = duration_parts units rest' parts' in
    if nat_beq (length parts') 2 then parts' else later

-- `seconds` is whole.
unfoldable pub human_duration : ℕ → Text
human_duration total =
    let parts = duration_parts duration_units total [] in
    if ltb 0 total && nat_beq (total % week) 0
    then plural (total / week) "week"
    else (if ltb 0 (length parts) then join (lit " " ∷ []) parts else lit "0 seconds" ∷ [])
