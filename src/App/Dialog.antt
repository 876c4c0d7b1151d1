-- ===== src/App/Dialog.antt =====
-- The dialog that asks before a delete (frontend/src/App.tsx and
-- frontend/src/components/ConfirmModal.tsx): what is asked is what is deleted, and only once.
use tether_ddns.Prelude.{
  ◌≡◌, ◌⊎◌, inl, inr, refl, String, Bool, true, false, not, ◌&&◌, ◌||◌, Option, none, some, List,
  [], ◌∷◌, arith, Bool-cases, Option-cases, if◌then◌else◌,
}
use tether_ddns.Api.{Request, delete_domain, delete_hook, delete_healthchecks}
use tether_ddns.Utils.Incidents.{DayBucket}
use tether_ddns.App.{
  App, DeleteKind, domain, hook, project, PendingDelete, Config, load_config, first_state, is_some,
  any_modal_open,
}
use tether_ddns.App.Deletes.{
  handle_delete, handle_delete_hook, handle_delete_project, find_domain, find_hook, find_project,
  remove, run_pending_delete, delete_answered, delete_finished,
}

-- The page, the delete whose answer has not come, with its kind and the request that was sent, and
-- whether `loadConfig` runs after one.
pub record Session : Type 0 where
  pub app : App
  pub in_flight : Option (DeleteKind × Request Unit)
  pub reloading : Bool

pub data Event : Type 0 where
  -- the user asks to delete the thing with an id
  asks : DeleteKind → String → Event
  -- the buttons of the dialog; Escape and a click outside are those of "Cancel"
  confirms cancels : Event
  -- the server's answers, with the id of the toast
  answers : Bool → String → Event
  reloads : Option Config → Event
  -- a `loadConfig` that something else began has ended
  loads : Option Config → Event

-- The request that deletes the thing that a dialog was opened for.
abbrev pub request_for : DeleteKind → String → Request Unit
request_for domain id = delete_domain id
request_for hook id = delete_hook id
request_for project id = delete_healthchecks id

abbrev pub asked_for : Option PendingDelete → Option (DeleteKind × Request Unit)
asked_for none = none
asked_for (some p) = some (p.kind, request_for p.kind p.id)

-- A request goes out for what is pending, whose kind the handler keeps for its answer.
abbrev pub under_way :
    Option PendingDelete → Option (Request Unit) → Option (DeleteKind × Request Unit)
under_way none o = none
under_way (some p) none = none
under_way (some p) (some r) = some (p.kind, r)

pub record IsSound (s : Session) : Type 0 where
  pub busy : s.app.deleting ≡ (is_some s.in_flight || s.reloading)
  pub one_at_once : (is_some s.in_flight && s.reloading) ≡ false
  pub asked : (is_some s.in_flight && not s.app.confirm_open) ≡ false
  pub same : (s.in_flight ≡ none) ⊎ (s.in_flight ≡ asked_for s.app.pending_delete)

module _ (host_in : String → Option String) (buckets : List DayBucket) where
  abbrev pub handle : DeleteKind → String → App → App
  handle domain id s = handle_delete id s
  handle hook id s = handle_delete_hook id s
  handle project id s = handle_delete_project host_in id s

  abbrev pub answer : Bool → String → Option (DeleteKind × Request Unit) → Session → Session
  answer done toast none s = s
  answer done toast (some (kind, sent)) s = record {
    app = delete_answered kind done toast s.app;
    in_flight = none;
    reloading = true;
  }

  -- Whether the page knows the thing with the id.
  abbrev pub is_known : DeleteKind → String → App → Bool
  is_known domain id s = is_some (find_domain id s)
  is_known hook id s = is_some (find_hook id s)
  is_known project id s = is_some (find_project id s)

  -- Asking to delete a thing that the page knows opens the dialog, and confirming it then sends the
  -- request that deletes this thing; asking for one that it does not know changes nothing.
  pub asked_is_deleted :
      {B : Type 0} (kind : DeleteKind) (id : String) (s : App)
      → let a = handle kind id s in
        ((is_known kind id s ≡ true)
          × (a.confirm_open ≡ true)
          × (run_pending_delete {B = B} a ≡ (record a { deleting = true }, some (remove kind id))))
        ⊎ ((is_known kind id s ≡ false) × (a ≡ s))
  unfolding handle_delete handle_delete_hook handle_delete_project run_pending_delete
  asked_is_deleted domain id s = elim (Option-cases (find_domain id s)) [
    | inl none_found ↦ inr (ground arith)
    | inr (d, e) ↦ inl (ground arith)
  ]
  asked_is_deleted hook id s = elim (Option-cases (find_hook id s)) [
    | inl none_found ↦ inr (ground arith)
    | inr (h, e) ↦ inl (ground arith)
  ]
  asked_is_deleted project id s = elim (Option-cases (find_project id s)) [
    | inl none_found ↦ inr (ground arith)
    | inr (p, e) ↦ inl (ground arith)
  ]

  -- While a dialog is open the rest of the page is inert; a dialog that is not open is inert; and
  -- `busy` disables its buttons.
  unfoldable pub step : Event → Session → Session
  unfolding run_pending_delete
  step (asks kind id) s =
      if any_modal_open buckets s.app then s else record s { app = handle kind id s.app }
  step confirms s =
      if s.app.confirm_open && not s.app.deleting
      then record s {
        app = (run_pending_delete {B = Unit} s.app).0;
        in_flight = under_way s.app.pending_delete (run_pending_delete {B = Unit} s.app).1;
      }
      else s
  step cancels s =
      if s.app.confirm_open && not s.app.deleting
      then record s { app = record s.app { confirm_open = false } }
      else s
  step (answers done toast) s = answer done toast s.in_flight s
  step (reloads config) s =
      if s.reloading then record s { app = delete_finished config s.app; reloading = false } else s
  step (loads config) s = record s { app = load_config config s.app }

  -- Asking changes only what is pending and whether the dialog is open.
  handle_keeps :
      (kind : DeleteKind) (id : String) (s : App) → (handle kind id s).deleting ≡ s.deleting
  unfolding handle_delete handle_delete_hook handle_delete_project
  handle_keeps domain id s = ground arith
  handle_keeps hook id s = ground arith
  handle_keeps project id s = ground arith

  any_modal-confirm : (s : App) → any_modal_open buckets s ≡ false → s.confirm_open ≡ false
  unfolding any_modal_open
  any_modal-confirm s h = ground arith

  ask-IsSound :
      (kind : DeleteKind) (id : String) (s : Session)
      → any_modal_open buckets s.app ≡ false
      → IsSound s
      → IsSound (record s { app = handle kind id s.app })
  ask-IsSound kind id s h v = ground (arith, handle_keeps kind id s.app, any_modal-confirm s.app h)

  remove-request : (kind : DeleteKind) (id : String) → remove kind id ≡ request_for kind id
  remove-request domain id = refl
  remove-request hook id = refl
  remove-request project id = refl

  confirm-IsSound :
      (p : Option PendingDelete) (s : Session)
      → s.app.pending_delete ≡ p
      → IsSound s
      → IsSound (step confirms s)
  unfolding step
  confirm-IsSound none s e v = ground arith
  confirm-IsSound (some p) s e v = ground (arith, remove-request p.kind p.id)

  answer-IsSound :
      (done : Bool) (toast : String) (o : Option (DeleteKind × Request Unit)) (s : Session)
      → s.in_flight ≡ o
      → IsSound s
      → IsSound (answer done toast o s)
  unfolding delete_answered
  answer-IsSound done toast none s e v = v
  answer-IsSound done toast (some (kind, sent)) s e v = ground arith

  step-IsSound : (e : Event) (s : Session) → IsSound s → IsSound (step e s)
  unfolding step delete_finished load_config
  step-IsSound (asks kind id) s v = elim (Bool-cases (any_modal_open buckets s.app)) [
    | inl shut ↦ rw shut v
    | inr free ↦ rw free (ask-IsSound kind id s free v)
  ]
  step-IsSound confirms s v = confirm-IsSound s.app.pending_delete s refl v
  step-IsSound cancels s v = ground arith
  step-IsSound (answers done toast) s v = answer-IsSound done toast s.in_flight s refl v
  step-IsSound (reloads none) s v = ground arith
  step-IsSound (reloads (some c)) s v = ground arith
  step-IsSound (loads none) s v = ground arith
  step-IsSound (loads (some c)) s v = ground arith

  -- The page as it is first rendered.
  abbrev pub opened : Option String → Option String → Session
  opened theme collapsed = record {
    app = first_state theme collapsed;
    in_flight = none;
    reloading = false;
  }

-- The days are derived again at each render: with an event come those of the render that it meets.
unfoldable pub run : (String → Option String) → List (List DayBucket × Event) → Session → Session
run host_in [] s = s
run host_in ((buckets, e) ∷ es) s = run host_in es (step host_in buckets e s)

module _ (host_in : String → Option String) where
  run-IsSound :
      (es : List (List DayBucket × Event)) (s : Session) → IsSound s → IsSound (run host_in es s)
  unfolding run
  run-IsSound [] s v = v
  run-IsSound ((buckets, e) ∷ es) s v =
      run-IsSound es (step host_in buckets e s) (step-IsSound host_in buckets e s v)

  -- However the user clicks and the server answers: the dialog is busy exactly from the sending
  -- of a delete to the end of the reload after it, and while the answer is awaited the dialog is
  -- open and the request that was sent is the one that deletes the thing that it was opened for.
  pub dialog_lem :
      (theme collapsed : Option String) (es : List (List DayBucket × Event))
      → let s = run host_in es (opened host_in [] theme collapsed) in
        (s.app.deleting ≡ (is_some s.in_flight || s.reloading))
        × ((is_some s.in_flight && s.reloading) ≡ false)
        × ((s.in_flight ≡ none)
            ⊎ ((s.app.confirm_open ≡ true) × (s.in_flight ≡ asked_for s.app.pending_delete)))
  dialog_lem theme collapsed es =
      let first = opened host_in [] theme collapsed in
      let s : Session = run host_in es first in
      let v = run-IsSound es first (unfold first_state in ground arith) in
      (v.busy, v.one_at_once, ground (arith, v.asked, v.same))
