-- ===== src/Markup/DayReach.antt =====
-- What the modal of a day lets the user do (frontend/src/components/IncidentModal.tsx).
use tether_ddns.Prelude.{
  ℕ, ◌≡◌, refl, String, Option, none, some, List, [], ◌∷◌, ◌++◌, map, if◌then◌else◌,
}
use tether_ddns.Prelude.Text.{Text}
use tether_ddns.Types.{Incident}
use tether_ddns.Utils.Incidents.{DayBucket}
use tether_ddns.Views.Incident.{future}
use tether_ddns.App.{is_some}
use tether_ddns.Html.{Html, nodes, live, live_in}
use tether_ddns.Markup.Widgets.{icon_button}
use tether_ddns.Markup.Dialogs.{modal, modal_head}
use tether_ddns.Markup.DayDialog.{
  future_bar, future_html, incident_bar, timeline, chip, incident_row, rows_or_none, incident_modal,
}

module _ {E : Type 0} where
  quiet_map :
      {A : Type 0} (f : A → Html E) (xs : List A)
      → ((x : A) → live (f x) ≡ [])
      → live_in (nodes (map f xs)) ≡ []
  quiet_map f [] h = refl
  quiet_map f (x ∷ xs) h = rw (h x, quiet_map f xs h) refl

  live_quiet :
      (hs ks : List (Html E))
      → live_in (nodes hs) ≡ []
      → live_in (nodes ks) ≡ []
      → live_in (nodes (hs ++ ks)) ≡ []
  live_quiet [] ks h k = k
  live_quiet (x ∷ hs) ks h k =
      append_quiet (live x) (live_in (nodes hs)) (live_in (nodes (hs ++ ks))) h
        (λ q. live_quiet hs ks q k)
    where
      append_quiet : (xs bs cs : List E) → xs ++ bs ≡ [] → (bs ≡ [] → cs ≡ []) → xs ++ cs ≡ []
      append_quiet [] bs cs h k = k h
      append_quiet (a ∷ xs) bs cs h k = cc

module _ (E : Type 0) (day clock : ℕ → Text) (now : ℕ) where
  future-live : (b : DayBucket) → live_in (nodes (future_html {E = E} day clock now b)) ≡ []
  future-live b = bar-live (future b)
    where
      bar-live : (o : Option (ℕ × ℕ)) → live_in (nodes (future_bar {E = E} day clock now b o)) ≡ []
      bar-live none = refl
      bar-live (some (from, length)) = refl

  timeline-live : (b : DayBucket) → live (timeline {E = E} day clock now b) ≡ []
  timeline-live b =
      rw
        (live_quiet (future_html {E = E} day clock now b)
          (map (incident_bar day clock now b) b.incidents) (future-live b)
          (quiet_map (incident_bar day clock now b) b.incidents (λ inc. refl)))
        refl

  row-live : (b : DayBucket) (inc : Incident) → live (incident_row {E = E} day clock now b inc) ≡ []
  row-live b inc = rw (quiet_map (chip {E = E} day clock now) inc.failed (λ ip. refl)) refl

  rows-live :
      (b : DayBucket) (incs : List Incident)
      → live_in (nodes (rows_or_none {E = E} day clock now b incs)) ≡ []
  rows-live b [] = refl
  rows-live b (inc ∷ incs) = quiet_map (incident_row day clock now b) (inc ∷ incs) (row-live b)

-- The modal of a day can be closed in three ways while a day is picked; it is out of reach while none is.
pub day-live :
    {E : Type 0} (day clock : ℕ → Text) (now : ℕ) (title_id : String) (bucket : Option DayBucket)
    (closes : E)
    → live (incident_modal day clock now title_id bucket closes)
      ≡ (if is_some bucket then closes ∷ closes ∷ closes ∷ [] else [])
unfolding incident_modal modal modal_head icon_button
day-live day clock now title_id none closes = refl
day-live {E = E} day clock now title_id (some b) closes =
    rw (timeline-live E day clock now b, rows-live E day clock now b b.incidents) refl
