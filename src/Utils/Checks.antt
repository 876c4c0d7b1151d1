-- ===== src/Utils/Checks.antt =====
-- The state of healthchecks as the views show it (frontend/src/utils.ts).
pub mod Counts
use tether_ddns.Prelude.{
  ℕ, suc, ◌+◌, ◌≡◌, ◌↔◌, String, Bool, true, false, not, ◌||◌, Option, none, some, List, [], ◌∷◌,
  ◌++◌, map, keep, length, ltb, nat_beq, if◌then◌else◌, arith, Eq, string_eq,
}
use tether_ddns.Prelude.Dict.{lookup, insert}
use tether_ddns.Prelude.Text.{Text, lit, num}
use tether_ddns.Types.{CheckState, HealthcheckRef, CheckStatus, ProjectRuntime}

pub data CheckDisplay : Type 0 where
  new up grace down paused gone unknown : CheckDisplay

abbrev pub of_state : CheckState → CheckDisplay
of_state CheckState.new = new
of_state CheckState.up = up
of_state CheckState.grace = grace
of_state CheckState.down = down
of_state CheckState.paused = paused

abbrev pub display_label : CheckDisplay → String
display_label up = "up"
display_label grace = "late"
display_label down = "down"
display_label paused = "paused"
display_label new = "new"
display_label gone = "gone"
display_label unknown = "unknown"

abbrev display_number : CheckDisplay → ℕ
display_number new = 0
display_number up = 1
display_number grace = 2
display_number down = 3
display_number paused = 4
display_number gone = 5
display_number unknown = 6

abbrev pub display_beq : CheckDisplay → CheckDisplay → Bool
display_beq a b = nat_beq (display_number a) (display_number b)

pub display_beq_iff : (a b : CheckDisplay) → (display_beq a b ≡ true) ↔ (a ≡ b)
display_beq_iff a b = ground arith

instance abbrev pub display_eq : Eq CheckDisplay
display_eq = record { beq = display_beq; beq_iff = display_beq_iff }

abbrev is_none {ℓ} : {A : Type ℓ} → Option A → Bool
is_none none = true
is_none (some _) = false

unfoldable pub project_unknown : Option ProjectRuntime → Bool
project_unknown none = true
project_unknown (some rt) = is_none rt.polled_at || rt.offline || not rt.ok

abbrev display_of : Option CheckStatus → CheckDisplay
display_of none = gone
display_of (some c) = of_state c.status

unfoldable pub check_display_status : Option ProjectRuntime → String → CheckDisplay
unfolding project_unknown
check_display_status none key = unknown
check_display_status (some rt) key =
    if project_unknown (some rt) then unknown else display_of (lookup key rt.checks)

pub record SummaryPart : Type 0 where
  pub status : CheckDisplay
  pub n : ℕ
  pub label : String

pub record Summary : Type 0 where
  pub is_unknown : Bool
  pub parts : List SummaryPart

abbrev pub summary_order : List CheckDisplay
summary_order = up ∷ grace ∷ down ∷ paused ∷ new ∷ gone ∷ []

abbrev pub Counter : Type 0
Counter = List (CheckDisplay × ℕ)

-- `counts.get(s) ?? 0` and `counts.has(s)`
abbrev pub or_zero : Option ℕ → ℕ
or_zero none = 0
or_zero (some n) = n

abbrev pub get_count : Counter → CheckDisplay → ℕ
get_count counts s = or_zero (lookup s counts)

abbrev pub has : Counter → CheckDisplay → Bool
has counts s = not (is_none (lookup s counts))

-- One round of the counting loops.
abbrev pub count_display : Counter → CheckDisplay → Counter
count_display counts s = insert s (get_count counts s + 1) counts

unfoldable pub count_refs : Option ProjectRuntime → List HealthcheckRef → Counter → Counter
count_refs runtime [] counts = counts
count_refs runtime (ref ∷ refs) counts =
    count_refs runtime refs (count_display counts (check_display_status runtime ref.key))

unfoldable pub project_summary : List HealthcheckRef → Option ProjectRuntime → Summary
project_summary refs runtime =
    let counts = count_refs runtime refs [] in
    if project_unknown runtime then record { is_unknown = true; parts = [] } else record {
      is_unknown = false;
      parts =
          map (λ s. record { status = s; n = get_count counts s; label = display_label s })
            (keep (has counts) summary_order);
    }

pub record OverviewRow : Type 0 where
  pub refs : List HealthcheckRef
  pub runtime : Option ProjectRuntime

pub record OverviewPill : Type 0 where
  pub status : CheckDisplay
  pub text : Text

-- The two loops over the rows and their checks, with the total.
unfoldable pub count_row : Option ProjectRuntime → List HealthcheckRef → Counter × ℕ → Counter × ℕ
count_row runtime [] sums = sums
count_row runtime (ref ∷ refs) (counts, total) =
    count_row runtime refs (count_display counts (check_display_status runtime ref.key), total + 1)

unfoldable pub count_rows : List OverviewRow → Counter × ℕ → Counter × ℕ
count_rows [] sums = sums
count_rows (row ∷ rows) sums = count_rows rows (count_row row.runtime row.refs sums)

unfoldable pub overview_pill : List OverviewRow → OverviewPill
overview_pill rows =
    let (counts, total) = count_rows rows ([], 0) in
    let n = get_count counts in
    if ltb 0 (n down)
    then record { status = down; text = num (n down) ∷ lit " down" ∷ [] }
    else (if ltb 0 (n grace)
        then record { status = grace; text = num (n grace) ∷ lit " late" ∷ [] }
        else (if ltb 0 (n unknown)
            then record { status = unknown; text = lit "unknown" ∷ [] }
            else (if nat_beq (n up) 0
                then record { status = paused; text = lit "0 up" ∷ [] }
                else (if nat_beq (n up) total
                    then record { status = up; text = lit "All up" ∷ [] }
                    else record { status = up; text = num (n up) ∷ lit " up" ∷ [] }))))
