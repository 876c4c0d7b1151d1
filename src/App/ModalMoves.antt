-- ===== src/App/ModalMoves.antt =====
-- What each event of frontend/src/App.tsx does to its modals.
use tether_ddns.Prelude.{◌⊎◌}
use tether_ddns.App.{day_at}
use tether_ddns.Prelude.{
  ℕ, ◌+◌, ◌≤◌, ◌≡◌, inl, inr, refl, String, Bool, true, false, Option, none, some, List, arith,
  Bool-cases,
}
use tether_ddns.Types.{HookConfig, HealthchecksProject}
use tether_ddns.Api.{Request}
use tether_ddns.Utils.Incidents.{DayBucket}
use tether_ddns.Forms.{DomainFormValue, ProjectFormValue}
use tether_ddns.App.{
  App, DeleteKind, domain, hook, project, PendingDelete, is_some, any_modal_open, selected_day,
  push_toast, load_config,
}
use tether_ddns.App.Deletes.{
  handle_delete, handle_delete_hook, handle_delete_project, delete_answered, delete_finished,
  run_pending_delete, ask_delete,
}
use tether_ddns.App.Saves.{
  add_domain, edit_domain, add_hook, edit_hook, add_project, edit_project, domain_saved, hook_saved,
  project_saved,
}
use tether_ddns.App.Dialog
use tether_ddns.App.Dialog.{Session}
use tether_ddns.App.Modals.{
  Desk, DeskEvent, adds, edits_domain, edits_hook, edits_project, picks_day, closes, closes_day,
  saves_domain, saves_hook, saves_project, domain_answers, hook_answers, project_answers, dialog,
  add, is_open, close, domain_answer, project_answer, on_page, step,
}

abbrev pub flag : Bool → ℕ
flag true = 1
flag false = 0

-- How many of the modals but the one of a day are open.
abbrev pub forms_open : App → ℕ
forms_open s =
    flag s.domain_modal_open
    + flag s.hook_modal_open
    + flag s.project_modal_open
    + flag s.confirm_open

-- Whether a day is among those that are shown.
abbrev pub has : List DayBucket → ℕ → Bool
has buckets start = is_some (day_at (some start) buckets)

-- What an event does to the modals: it opens none, it opens one on a free page, or it picks a day on one.
pub record ClosesOnly (s t : App) : Type 0 where
  pub fewer : forms_open t ≤ forms_open s
  pub day : (t.selected_day_start ≡ s.selected_day_start) ⊎ (t.selected_day_start ≡ none)

pub record OpensOne (b : List DayBucket) (s t : App) : Type 0 where
  pub free : any_modal_open b s ≡ false
  pub one : forms_open t ≤ 1
  pub day : t.selected_day_start ≡ s.selected_day_start

pub record Picks (b : List DayBucket) (s t : App) : Type 0 where
  pub free : any_modal_open b s ≡ false
  pub none_open : forms_open t ≡ 0
  pub start : ℕ
  pub day : t.selected_day_start ≡ some start
  pub shown : has b start ≡ true

abbrev pub Moves : List DayBucket → App → App → Type 0
Moves b s t = ClosesOnly s t ⊎ (OpensOne b s t ⊎ Picks b s t)

same-ClosesOnly : (s : App) → ClosesOnly s s
same-ClosesOnly s = record { fewer = omega arith; day = inl refl }

module _ (host_in : String → Option String) (buckets : List DayBucket) where
  -- How many modals are open.
  abbrev pub open_count : App → ℕ
  open_count s =
      flag s.domain_modal_open
      + flag s.hook_modal_open
      + flag s.project_modal_open
      + flag s.confirm_open
      + flag (is_some (selected_day buckets s))

  add-OpensOne :
      (kind : DeleteKind) (s : App)
      → any_modal_open buckets s ≡ false
      → OpensOne buckets s (add kind s)
  unfolding any_modal_open selected_day add_domain add_hook add_project
  add-OpensOne domain s h = record { free = h; one = ground arith; day = refl }
  add-OpensOne hook s h = record { free = h; one = ground arith; day = refl }
  add-OpensOne project s h = record { free = h; one = ground arith; day = refl }

  close-ClosesOnly : (kind : DeleteKind) (s : App) → ClosesOnly s (close kind s)
  close-ClosesOnly domain s = record { fewer = ground arith; day = inl refl }
  close-ClosesOnly hook s = record { fewer = ground arith; day = inl refl }
  close-ClosesOnly project s = record { fewer = ground arith; day = inl refl }

  ask-OpensOne :
      (kind : DeleteKind) (id : String) (s : App)
      → any_modal_open buckets s ≡ false
      → OpensOne buckets s (Dialog.handle host_in buckets kind id s)
  unfolding any_modal_open selected_day handle_delete handle_delete_hook handle_delete_project
      ask_delete
  ask-OpensOne domain id s h = record { free = h; one = ground arith; day = ground arith }
  ask-OpensOne hook id s h = record { free = h; one = ground arith; day = ground arith }
  ask-OpensOne project id s h = record { free = h; one = ground arith; day = ground arith }

  confirm-ClosesOnly :
      (p : Option PendingDelete) (s : Session)
      → s.app.pending_delete ≡ p
      → ClosesOnly s.app (Dialog.step host_in buckets Dialog.confirms s).app
  unfolding Dialog.step run_pending_delete
  confirm-ClosesOnly none s e = record { fewer = ground arith; day = inl (ground arith) }
  confirm-ClosesOnly (some p) s e = record { fewer = ground arith; day = inl (ground arith) }

  answer-ClosesOnly :
      (done : Bool) (toast : String) (o : Option (DeleteKind × Request Unit)) (s : Session)
      → ClosesOnly s.app (Dialog.answer host_in buckets done toast o s).app
  unfolding delete_answered push_toast
  answer-ClosesOnly done toast none s = same-ClosesOnly s.app
  answer-ClosesOnly done toast (some (kind, sent)) s = record {
    fewer = ground arith;
    day = inl (ground arith);
  }

  dialog-Moves :
      (e : Dialog.Event) (s : Session) → Moves buckets s.app (Dialog.step host_in buckets e s).app
  unfolding Dialog.step delete_answered delete_finished load_config push_toast run_pending_delete
  dialog-Moves (Dialog.asks kind id) s = elim (Bool-cases (any_modal_open buckets s.app)) [
    | inl shut ↦ rw shut (inl (same-ClosesOnly s.app))
    | inr free ↦ rw free (inr (inl (ask-OpensOne kind id s.app free)))
  ]
  dialog-Moves Dialog.confirms s = inl (confirm-ClosesOnly s.app.pending_delete s refl)
  dialog-Moves Dialog.cancels s = inl (record { fewer = ground arith; day = inl (ground arith) })
  dialog-Moves (Dialog.answers done toast) s = inl (answer-ClosesOnly done toast s.in_flight s)
  dialog-Moves (Dialog.reloads none) s =
      inl (record { fewer = ground arith; day = inl (ground arith) })
  dialog-Moves (Dialog.reloads (some c)) s =
      inl (record { fewer = ground arith; day = inl (ground arith) })
  dialog-Moves (Dialog.loads none) s = inl (same-ClosesOnly s.app)
  dialog-Moves (Dialog.loads (some c)) s = inl (record { fewer = omega arith; day = inl refl })

  page-Moves :
      (f : App → App) (d : Desk)
      → ((s : App) → any_modal_open buckets s ≡ false → Moves buckets s (f s))
      → Moves buckets d.session.app (on_page host_in buckets f d).session.app
  page-Moves f d k = elim (Bool-cases (any_modal_open buckets d.session.app)) [
    | inl shut ↦ rw shut (inl (same-ClosesOnly d.session.app))
    | inr free ↦ rw free (k d.session.app free)
  ]

  edit-OpensOne :
      (id : String) (s : App)
      → any_modal_open buckets s ≡ false
      → OpensOne buckets s (edit_domain id s)
  unfolding any_modal_open selected_day edit_domain
  edit-OpensOne id s h = record { free = h; one = ground arith; day = refl }

  edit_hook-OpensOne :
      (k : HookConfig) (s : App)
      → any_modal_open buckets s ≡ false
      → OpensOne buckets s (edit_hook k s)
  unfolding any_modal_open selected_day edit_hook
  edit_hook-OpensOne k s h = record { free = h; one = ground arith; day = refl }

  edit_project-OpensOne :
      (p : HealthchecksProject) (s : App)
      → any_modal_open buckets s ≡ false
      → OpensOne buckets s (edit_project p s)
  unfolding any_modal_open selected_day edit_project
  edit_project-OpensOne p s h = record { free = h; one = ground arith; day = refl }

  pick-Picks :
      (n : ℕ) (s : App)
      → has buckets n ≡ true
      → any_modal_open buckets s ≡ false
      → Picks buckets s (record s { selected_day_start = some n })
  unfolding any_modal_open selected_day
  pick-Picks n s shown h = record {
    free = h;
    none_open = ground arith;
    start = n;
    day = refl;
    shown = shown;
  }

  domain_answer-ClosesOnly :
      (done : Bool) (toast : String) (o : Option DomainFormValue) (d : Desk)
      → ClosesOnly d.session.app (domain_answer done toast o d).session.app
  unfolding domain_saved push_toast
  domain_answer-ClosesOnly done toast none d = same-ClosesOnly d.session.app
  domain_answer-ClosesOnly true toast (some v) d = record { fewer = ground arith; day = inl refl }
  domain_answer-ClosesOnly false toast (some v) d = same-ClosesOnly d.session.app

  project_answer-ClosesOnly :
      (done : Bool) (toast : String) (o : Option (ProjectFormValue × Option HealthchecksProject))
      (d : Desk)
      → ClosesOnly d.session.app (project_answer done toast o d).session.app
  unfolding project_saved push_toast
  project_answer-ClosesOnly done toast none d = same-ClosesOnly d.session.app
  project_answer-ClosesOnly true toast (some (v, editing)) d = record {
    fewer = ground arith;
    day = inl (ground arith);
  }
  project_answer-ClosesOnly false toast (some (v, editing)) d = same-ClosesOnly d.session.app

  pub step-Moves :
      (e : DeskEvent) (d : Desk)
      → Moves buckets d.session.app (step host_in buckets e d).session.app
  unfolding step hook_saved push_toast
  step-Moves (adds kind) d = page-Moves (add kind) d (λ s h. inr (inl (add-OpensOne kind s h)))
  step-Moves (edits_domain id) d =
      page-Moves (edit_domain id) d (λ s h. inr (inl (edit-OpensOne id s h)))
  step-Moves (edits_hook k) d =
      page-Moves (edit_hook k) d (λ s h. inr (inl (edit_hook-OpensOne k s h)))
  step-Moves (edits_project p) d =
      page-Moves (edit_project p) d (λ s h. inr (inl (edit_project-OpensOne p s h)))
  step-Moves (picks_day start) d = elim (Bool-cases (has buckets start)) [
    | inl shown ↦ rw shown (
        page-Moves (λ s. record s { selected_day_start = some start }) d
          (λ s h. inr (inr (pick-Picks start s shown h))))
    | inr other ↦ rw other (inl (same-ClosesOnly d.session.app))
  ]
  step-Moves (closes kind) d = elim (Bool-cases (is_open kind d.session.app)) [
    | inl o ↦ rw o (inl (close-ClosesOnly kind d.session.app))
    | inr o ↦ rw o (inl (same-ClosesOnly d.session.app))
  ]
  step-Moves closes_day d = elim (Bool-cases (is_some (selected_day buckets d.session.app))) [
    | inl o ↦ rw o (inl (record { fewer = omega arith; day = inr refl }))
    | inr o ↦ rw o (inl (same-ClosesOnly d.session.app))
  ]
  step-Moves (saves_domain v) d = inl (record { fewer = ground arith; day = inl (ground arith) })
  step-Moves saves_hook d = inl (record { fewer = ground arith; day = inl (ground arith) })
  step-Moves (saves_project v) d = inl (record { fewer = ground arith; day = inl (ground arith) })
  step-Moves (domain_answers done toast) d =
      inl (domain_answer-ClosesOnly done toast d.domain_saving d)
  step-Moves (hook_answers done toast) d =
      inl (record { fewer = ground arith; day = inl (ground arith) })
  step-Moves (project_answers done toast) d =
      inl (project_answer-ClosesOnly done toast d.project_saving d)
  step-Moves (dialog e) d = dialog-Moves e d.session
