-- ===== src/Views/Checks.antt =====
-- frontend/src/components/HealthchecksPanel.tsx and HcSummary.tsx.
use tether_ddns.Prelude.{
  ℕ, ◌+◌, String, Bool, true, false, ◌&&◌, Option, none, some, List, [], ◌∷◌, ◌++◌, map, keep,
  length, ltb, leb, nat_beq, string_eq, if◌then◌else◌,
}
use tether_ddns.Prelude.Dict.{lookup}
use tether_ddns.Prelude.Text.{Text, lit, num}
use text.Mathlib.Text.{◌==◌ as text_beq}
use tether_ddns.Types.{HealthcheckRef, HealthchecksProject, ProjectRuntime}
use tether_ddns.Utils.Checks.{
  CheckDisplay, down, grace, up, paused, new, gone, unknown, check_display_status, project_unknown,
  OverviewRow, SummaryPart, project_summary,
}

-- `BAR_ORDER.indexOf(display)`, plus one: what is not in the list comes first.
abbrev pub bar_rank : CheckDisplay → ℕ
bar_rank unknown = 0
bar_rank down = 1
bar_rank grace = 2
bar_rank up = 3
bar_rank paused = 4
bar_rank new = 5
bar_rank gone = 6

pub record Item : Type 0 where
  pub ref : HealthcheckRef
  pub display : CheckDisplay

unfoldable pub items_of : Option ProjectRuntime → List HealthcheckRef → List Item
items_of rt [] = []
items_of rt (ref ∷ refs) =
    record { ref = ref; display = check_display_status rt ref.key } ∷ items_of rt refs

-- `sort` keeps the order of items with the same rank.
abbrev pub insert_item : Item → List Item → List Item
insert_item x [] = x ∷ []
insert_item x (y ∷ ys) =
    let rest = insert_item x ys in
    if leb (bar_rank x.display) (bar_rank y.display) then x ∷ y ∷ ys else y ∷ rest

abbrev pub sort_items : List Item → List Item
sort_items [] = []
sort_items (x ∷ xs) = insert_item x (sort_items xs)

unfoldable pub segments : Option ProjectRuntime → List HealthcheckRef → List Item
unfolding items_of
segments rt refs = sort_items (items_of rt refs)

-- What the bar shows: nothing if the state is not known.
unfoldable pub bar : Option ProjectRuntime → List HealthcheckRef → List Item
unfolding segments
bar rt refs = if project_unknown rt then [] else segments rt refs

-- The note on a project whose state is not known, and whether it is an error.
abbrev failed_note : Option String → Option ℕ → Text × Bool
failed_note none none = (lit "Waiting for first poll." ∷ [], false)
failed_note none (some at) = (lit "Last poll failed." ∷ [], true)
failed_note (some e) at =
    if text_beq e ""
    then elim at [
      | none ↦ (lit "Waiting for first poll." ∷ [], false)
      | some t ↦ (lit "Last poll failed." ∷ [], true)
    ]
    else (lit "Last poll failed: " ∷ lit e ∷ [], true)

unfoldable pub unknown_note : Option ProjectRuntime → Text × Bool
unknown_note none = (lit "Waiting for first poll." ∷ [], false)
unknown_note (some rt) =
    if rt.offline
    then (lit "System is offline — polling paused." ∷ [], false)
    else failed_note (if rt.ok then none else rt.error) rt.polled_at

abbrev pub visible_refs : HealthchecksProject → List HealthcheckRef
visible_refs p = keep (λ (c : HealthcheckRef). c.visible) p.checks

abbrev pub runtime_of : Option (List (String × ProjectRuntime)) → String → Option ProjectRuntime
runtime_of none id = none
runtime_of (some runtimes) id = lookup id runtimes

-- The rows of the panel: the projects that are shown, with the checks that are shown, if any.
unfoldable pub panel_rows :
    Option (List (String × ProjectRuntime)) → List HealthchecksProject → List OverviewRow
panel_rows runtimes [] = []
panel_rows runtimes (p ∷ ps) =
    let rest = panel_rows runtimes ps in
    if p.show_on_overview && ltb 0 (length (visible_refs p))
    then record { refs = visible_refs p; runtime = runtime_of runtimes p.id } ∷ rest
    else rest

-- `rows.reduce((n, row) => n + row.refs.length, 0)`
abbrev pub panel_total : List OverviewRow → ℕ
panel_total [] = 0
panel_total (row ∷ rows) = length row.refs + panel_total rows

-- HcSummary.tsx: the pieces of a summary, which are written with " · " between them.
abbrev pub total_text : ℕ → Text
total_text n = num n ∷ lit " check" ∷ lit (if nat_beq n 1 then "" else "s") ∷ []

abbrev pub part_text : SummaryPart → Text
part_text part = num part.n ∷ lit " " ∷ lit part.label ∷ []

unfoldable pub summary_items : List HealthcheckRef → Option ProjectRuntime → Bool → List Text
unfolding project_summary
summary_items refs runtime with_total =
    let s = project_summary refs runtime in
    let total = if with_total then total_text (length refs) ∷ [] else [] in
    if s.is_unknown
    then total ++ (lit "status unknown" ∷ []) ∷ []
    else map part_text s.parts ++ total
