-- ===== src/App/Modals.antt =====
-- The modals of frontend/src/App.tsx in the order in which the user opens and closes them and the server
-- answers.
use tether_ddns.App.{day_at}
use tether_ddns.Prelude.{
  ℕ, String, Bool, true, false, not, ◌&&◌, Option, none, some, List, [], ◌∷◌, if◌then◌else◌,
}
use tether_ddns.Types.{HookConfig, HealthchecksProject}
use tether_ddns.Utils.Incidents.{DayBucket}
use tether_ddns.Forms.{DomainFormValue, ProjectFormValue}
use tether_ddns.App.{App, DeleteKind, domain, hook, project, is_some, any_modal_open, selected_day}
use tether_ddns.App.Saves.{
  add_domain, edit_domain, add_hook, edit_hook, add_project, edit_project, domain_saved, hook_saved,
  project_saved,
}
use tether_ddns.App.Dialog
use tether_ddns.App.Dialog.{Session}

-- The page with its dialog, and the saves whose answer has not come; a form does not begin a save
-- while it waits for one. With the save of a project goes what was edited.
pub record Desk : Type 0 where
  pub session : Session
  pub domain_saving : Option DomainFormValue
  pub hook_saving : Bool
  pub project_saving : Option (ProjectFormValue × Option HealthchecksProject)

pub data DeskEvent : Type 0 where
  -- the clicks of the page; a day is picked among those that are shown
  adds : DeleteKind → DeskEvent
  edits_domain : String → DeskEvent
  edits_hook : HookConfig → DeskEvent
  edits_project : HealthchecksProject → DeskEvent
  picks_day : ℕ → DeskEvent
  -- the clicks of a modal
  closes : DeleteKind → DeskEvent
  closes_day : DeskEvent
  saves_domain : DomainFormValue → DeskEvent
  saves_hook : DeskEvent
  saves_project : ProjectFormValue → DeskEvent
  -- the server's answers, with the id of the toast
  domain_answers hook_answers project_answers : Bool → String → DeskEvent
  -- what happens to the dialog that asks before a delete
  dialog : Dialog.Event → DeskEvent

abbrev pub with_app : (App → App) → Desk → Desk
with_app f d = record d { session = record d.session { app = f d.session.app } }

abbrev pub add : DeleteKind → App → App
add domain s = add_domain s
add hook s = add_hook s
add project s = add_project s

abbrev pub is_open : DeleteKind → App → Bool
is_open domain s = s.domain_modal_open
is_open hook s = s.hook_modal_open
is_open project s = s.project_modal_open

-- The `onClose` of a modal.
abbrev pub close : DeleteKind → App → App
close domain s = record s { domain_modal_open = false }
close hook s = record s { hook_modal_open = false }
close project s = record s { project_modal_open = false }

abbrev pub domain_answer : Bool → String → Option DomainFormValue → Desk → Desk
domain_answer done toast none d = d
domain_answer done toast (some v) d =
    with_app (domain_saved v done toast) (record d { domain_saving = none })

abbrev pub project_answer :
    Bool → String → Option (ProjectFormValue × Option HealthchecksProject) → Desk → Desk
project_answer done toast none d = d
project_answer done toast (some (v, editing)) d =
    with_app (project_saved v editing done toast) (record d { project_saving = none })

module _ (host_in : String → Option String) (buckets : List DayBucket) where
  -- The page is inert while a modal is open, and a modal is inert while it is not.
  abbrev pub on_page : (App → App) → Desk → Desk
  on_page f d = if any_modal_open buckets d.session.app then d else with_app f d

  unfoldable pub step : DeskEvent → Desk → Desk
  unfolding any_modal_open selected_day
  step (adds kind) d = on_page (add kind) d
  step (edits_domain id) d = on_page (edit_domain id) d
  step (edits_hook h) d = on_page (edit_hook h) d
  step (edits_project p) d = on_page (edit_project p) d
  step (picks_day start) d =
      if is_some (day_at (some start) buckets)
      then on_page (λ s. record s { selected_day_start = some start }) d
      else d
  step (closes kind) d = if is_open kind d.session.app then with_app (close kind) d else d
  step closes_day d =
      if is_some (selected_day buckets d.session.app)
      then with_app (λ s. record s { selected_day_start = none }) d
      else d
  step (saves_domain v) d =
      if d.session.app.domain_modal_open && not (is_some d.domain_saving)
      then record d { domain_saving = some v }
      else d
  step saves_hook d =
      if d.session.app.hook_modal_open && not d.hook_saving
      then record d { hook_saving = true }
      else d
  step (saves_project v) d =
      if d.session.app.project_modal_open && not (is_some d.project_saving)
      then record d { project_saving = some (v, d.session.app.editing_project) }
      else d
  step (domain_answers done toast) d = domain_answer done toast d.domain_saving d
  step (hook_answers done toast) d =
      if d.hook_saving
      then with_app (hook_saved done toast) (record d { hook_saving = false })
      else d
  step (project_answers done toast) d = project_answer done toast d.project_saving d
  step (dialog e) d = record d { session = Dialog.step host_in buckets e d.session }

  -- The page as it is first rendered.
  abbrev pub first_desk : Option String → Option String → Desk
  first_desk theme collapsed = record {
    session = Dialog.opened host_in buckets theme collapsed;
    domain_saving = none;
    hook_saving = false;
    project_saving = none;
  }

-- The days are derived again at each render: with an event come those of the render that it meets.
unfoldable pub run : (String → Option String) → List (List DayBucket × DeskEvent) → Desk → Desk
run host_in [] d = d
run host_in ((buckets, e) ∷ es) d = run host_in es (step host_in buckets e d)
