-- ===== src/Utils/Checks/Counts.antt =====
-- The counts that the summaries of frontend/src/utils.ts show, told from the checks themselves.
use mathlib.Core.List.{append-nil, append_assoc}
use tether_ddns.Prelude.{
  ℕ, ◌+◌, ◌≤◌, ◌≡◌, ◌≢◌, refl, ◌∙◌, ap, String, false, Option, none, some, List, [], ◌∷◌, ◌++◌, map,
  keep, length, count, all, ltb, nat_beq, if◌then◌else◌, arith, count-append, length-append,
  length-map,
}
use tether_ddns.Prelude.Dict.{lookup, lookup-insert}
use tether_ddns.Prelude.Text.{lit, num}
use tether_ddns.Types.{HealthcheckRef, ProjectRuntime}
use tether_ddns.Utils.Checks.{
  CheckDisplay, new, up, grace, down, paused, gone, unknown, display_label, display_beq,
  display_beq_iff, display_eq, project_unknown, check_display_status, SummaryPart, summary_order,
  Counter, get_count, has, count_display, count_refs, project_summary, OverviewRow, OverviewPill,
  count_row, count_rows, overview_pill,
}

-- What each check of a project shows.
abbrev pub displays : Option ProjectRuntime → List HealthcheckRef → List CheckDisplay
displays runtime = map (λ (ref : HealthcheckRef). check_display_status runtime ref.key)

abbrev pub times : CheckDisplay → List CheckDisplay → ℕ
times s = count (λ d. display_beq d s)

-- A counter that holds how often each display occurs in a list.
abbrev Holds : Counter → List CheckDisplay → Type 0
Holds counts ds =
    (s : CheckDisplay)
    → lookup s counts ≡ (if nat_beq (times s ds) 0 then none else some (times s ds))

count_display-Holds :
    (counts : Counter) (ds : List CheckDisplay) (d : CheckDisplay)
    → Holds counts ds
    → Holds (count_display counts d) (ds ++ d ∷ [])
count_display-Holds counts ds d h s = ground (
  arith,
  h s,
  h d,
  lookup-insert d s (get_count counts d + 1) counts,
  count-append (λ x. display_beq x s) ds (d ∷ []),
  display_beq_iff d s,
)

count_refs-Holds :
    (runtime : Option ProjectRuntime) (refs : List HealthcheckRef) (counts : Counter)
    (ds : List CheckDisplay)
    → Holds counts ds
    → Holds (count_refs runtime refs counts) (ds ++ displays runtime refs)
unfolding count_refs
count_refs-Holds runtime [] counts ds h = rw append-nil h
count_refs-Holds runtime (ref ∷ refs) counts ds h =
    let d = check_display_status runtime ref.key in
    rw (← append_assoc ds (d ∷ []) (displays runtime refs)) (
      count_refs-Holds runtime refs (count_display counts d) (ds ++ d ∷ [])
        (count_display-Holds counts ds d h))

Holds-nil : Holds [] []
unfolding lookup
Holds-nil s = refl

get_count_lem :
    (counts : Counter) (ds : List CheckDisplay)
    → Holds counts ds
    → (s : CheckDisplay) → get_count counts s ≡ times s ds
get_count_lem counts ds h s = ground (arith, h s)

has_lem :
    (counts : Counter) (ds : List CheckDisplay)
    → Holds counts ds
    → (s : CheckDisplay) → has counts s ≡ ltb 0 (times s ds)
has_lem counts ds h s = ground (arith, h s)

-- The part of a summary for one display, told from the list of displays.
abbrev pub part_of : List CheckDisplay → CheckDisplay → SummaryPart
part_of ds s = record { status = s; n = times s ds; label = display_label s }

module _ (counts : Counter) (ds : List CheckDisplay) (h : Holds counts ds) where
  parts_lem :
      (order : List CheckDisplay)
      → map
          (λ s. record { status = s; n = get_count counts s; label = display_label s })
          (keep (has counts) order)
        ≡ map (part_of ds) (keep (λ s. ltb 0 (times s ds)) order)
  parts_lem [] = refl
  parts_lem (s ∷ order) =
      ground (arith, has_lem counts ds h s, get_count_lem counts ds h s, parts_lem order)

abbrev pub IsKnown : CheckDisplay → Type 0
IsKnown d = d ≢ unknown

check_display_status-IsKnown :
    (runtime : Option ProjectRuntime) (key : String)
    → project_unknown runtime ≡ false
    → IsKnown (check_display_status runtime key)
unfolding check_display_status
check_display_status-IsKnown none key h = cc
check_display_status-IsKnown (some rt) key h = ground arith

abbrev pub sum_n : List SummaryPart → ℕ
sum_n [] = 0
sum_n (p ∷ ps) = p.n + sum_n ps

displays-known :
    (runtime : Option ProjectRuntime) (refs : List HealthcheckRef)
    → project_unknown runtime ≡ false
    → times unknown (displays runtime refs) ≡ 0
displays-known runtime [] h = refl
displays-known runtime (ref ∷ refs) h =
    ground (arith, check_display_status-IsKnown runtime ref.key h, displays-known runtime refs h)

every_display :
    (ds : List CheckDisplay)
    → times up ds
        + times grace ds
        + times down ds
        + times paused ds
        + times new ds
        + times gone ds
        + times unknown ds
      ≡ length ds
every_display [] = refl
every_display (d ∷ ds) = ground (arith, every_display ds)

sum_parts :
    (ds : List CheckDisplay)
    → sum_n (map (part_of ds) (keep (λ s. ltb 0 (times s ds)) summary_order))
      ≡ times up ds
        + times grace ds
        + times down ds
        + times paused ds
        + times new ds
        + times gone ds
sum_parts ds = ground arith

-- The summary of a project whose state is known lists, in a fixed order, each display that occurs
-- with its number and its label, and the numbers add up to the number of checks.
pub project_summary_lem :
    (refs : List HealthcheckRef) (runtime : Option ProjectRuntime)
    → project_unknown runtime ≡ false
    → let s = project_summary refs runtime in
      let ds = displays runtime refs in
      (s.is_unknown ≡ false)
      × (s.parts ≡ map (part_of ds) (keep (λ x. ltb 0 (times x ds)) summary_order))
      × (sum_n s.parts ≡ length refs)
unfolding project_summary
project_summary_lem refs runtime known =
    let ds = displays runtime refs in
    let counts = count_refs runtime refs [] in
    let same = parts_lem counts ds (count_refs-Holds runtime refs [] [] Holds-nil) summary_order in
    rw known (
      refl,
      same,
      ap sum_n same
          ∙ omega (
            arith,
            sum_parts ds,
            every_display ds,
            displays-known runtime refs known,
            length-map (λ (ref : HealthcheckRef). check_display_status runtime ref.key) refs,
          ),
    )

-- What every check on the overview shows.
abbrev pub all_displays : List OverviewRow → List CheckDisplay
all_displays [] = []
all_displays (row ∷ rows) = displays row.runtime row.refs ++ all_displays rows

count_row-Holds :
    (runtime : Option ProjectRuntime) (refs : List HealthcheckRef) (counts : Counter) (total : ℕ)
    (ds : List CheckDisplay)
    → Holds counts ds
    → total ≡ length ds
    → let (counts', total') = count_row runtime refs (counts, total) in
      Holds counts' (ds ++ displays runtime refs) × (total' ≡ length (ds ++ displays runtime refs))
unfolding count_row
count_row-Holds runtime [] counts total ds h e = rw append-nil (h, e)
count_row-Holds runtime (ref ∷ refs) counts total ds h e =
    let d = check_display_status runtime ref.key in
    rw (← append_assoc ds (d ∷ []) (displays runtime refs)) (
      count_row-Holds runtime refs (count_display counts d) (total + 1) (ds ++ d ∷ [])
        (count_display-Holds counts ds d h) (omega (arith, length-append ds (d ∷ []))))

count_rows-Holds :
    (rows : List OverviewRow) (sums : Counter × ℕ) (ds : List CheckDisplay)
    → Holds sums.0 ds
    → sums.1 ≡ length ds
    → let r = count_rows rows sums in
      Holds r.0 (ds ++ all_displays rows) × (r.1 ≡ length (ds ++ all_displays rows))
unfolding count_rows
count_rows-Holds [] sums ds h e = rw append-nil (h, e)
count_rows-Holds (row ∷ rows) (counts, total) ds h e =
    let (h', e') = count_row-Holds row.runtime row.refs counts total ds h e in
    rw (← append_assoc ds (displays row.runtime row.refs) (all_displays rows)) (
      count_rows-Holds rows (count_row row.runtime row.refs (counts, total))
        (ds ++ displays row.runtime row.refs) h' e')

-- The pill, told from the displays: the first of these that applies.
abbrev pub pill_of : List CheckDisplay → OverviewPill
pill_of ds =
    if ltb 0 (times down ds)
    then record { status = down; text = num (times down ds) ∷ lit " down" ∷ [] }
    else (if ltb 0 (times grace ds)
        then record { status = grace; text = num (times grace ds) ∷ lit " late" ∷ [] }
        else (if ltb 0 (times unknown ds)
            then record { status = unknown; text = lit "unknown" ∷ [] }
            else (if nat_beq (times up ds) 0
                then record { status = paused; text = lit "0 up" ∷ [] }
                else (if all (λ d. display_beq d up) ds
                    then record { status = up; text = lit "All up" ∷ [] }
                    else record { status = up; text = num (times up ds) ∷ lit " up" ∷ [] }))))

times_le : (s : CheckDisplay) (ds : List CheckDisplay) → times s ds ≤ length ds
times_le s [] = omega arith
times_le s (d ∷ ds) = ground (arith, times_le s ds)

all-times :
    (s : CheckDisplay) (ds : List CheckDisplay)
    → nat_beq (times s ds) (length ds) ≡ all (λ d. display_beq d s) ds
all-times s [] = refl
all-times s (d ∷ ds) = ground (arith, all-times s ds, times_le s ds)

-- The overview's pill tells the worst news: a number of checks that are down, else late, else that
-- some state is unknown, else that none is up; and "All up" exactly if every check is up, and
-- otherwise how many are.
pub overview_pill_lem : (rows : List OverviewRow) → overview_pill rows ≡ pill_of (all_displays rows)
unfolding overview_pill
overview_pill_lem rows =
    let ds = all_displays rows in
    let (h, e) = count_rows-Holds rows ([], 0) [] Holds-nil refl in
    let counts = (count_rows rows ([], 0)).0 in
    let n = get_count_lem counts ds h in
    rw (n down, n grace, n unknown, n up, e, all-times up ds) refl
