-- ===== src/App/Saves.antt =====
-- The modals of frontend/src/App.tsx in which a thing is added or edited, and their saving.
use tether_ddns.Prelude.{
  String, Bool, true, false, not, ◌&&◌, ◌||◌, Option, none, some, [], ◌∷◌, ◌==◌, string_eq,
  if◌then◌else◌,
}
use tether_ddns.Prelude.Text.{Text, lit}
use tether_ddns.Types.{HookConfig, HealthchecksProject}
use tether_ddns.Api.{
  Request, Result, ok, api_error, other_error, create_domain, update_domain, create_hook,
  update_hook, create_healthchecks, update_healthchecks,
}
use tether_ddns.Forms.{DomainFormValue, HookFormValue, ProjectFormValue}
use tether_ddns.App.{App, success, push_toast}
use tether_ddns.App.Deletes.{find_domain}

-- The clicks that open a modal: to add, and to edit a thing.
unfoldable pub add_domain : App → App
add_domain s = record s { editing_domain = none; domain_modal_open = true }

unfoldable pub edit_domain : String → App → App
edit_domain id s = record s { editing_domain = find_domain id s; domain_modal_open = true }

unfoldable pub add_hook : App → App
add_hook s = record s { editing_hook = none; hook_modal_open = true }

unfoldable pub edit_hook : HookConfig → App → App
edit_hook hook s = record s { editing_hook = some hook; hook_modal_open = true }

unfoldable pub add_project : App → App
add_project s = record s { editing_project = none; project_modal_open = true }

unfoldable pub edit_project : HealthchecksProject → App → App
edit_project project s = record s { editing_project = some project; project_modal_open = true }

-- The request of `handleSaveDomain`, of `handleSaveHook` and of `handleSaveProject`.
unfoldable pub save_domain : DomainFormValue → App → Request DomainFormValue
save_domain value s = elim s.editing_domain [
  | none ↦ create_domain value
  | some d ↦ update_domain d.id value
]

unfoldable pub save_hook : HookFormValue → App → Request HookFormValue
save_hook value s = elim s.editing_hook [
  | none ↦ create_hook value
  | some h ↦ update_hook h.id value
]

unfoldable pub save_project : ProjectFormValue → App → Request ProjectFormValue
save_project value s = elim s.editing_project [
  | none ↦ create_healthchecks value
  | some p ↦ update_healthchecks p.id value
]

-- `keyChanged` and `endpointChanged`
abbrev pub endpoint_changed : ProjectFormValue → Option HealthchecksProject → Bool
endpoint_changed value none = false
endpoint_changed value (some p) =
    (not (value.api_key == "") && not (value.api_key == p.api_key))
    || not (value.base_url == p.base_url)

abbrev pub saved_text : ProjectFormValue → Option HealthchecksProject → Text
saved_text value editing =
    if endpoint_changed value editing
    then lit "Saved " ∷ lit value.name ∷ lit " — check list refreshed" ∷ []
    else lit "Saved " ∷ lit value.name ∷ []

abbrev pub is_ok_result : {A : Type 0} → Result A → Bool
is_ok_result (ok _) = true
is_ok_result (api_error _) = false
is_ok_result other_error = false

-- On the answer, up to `loadConfig`: a failure is passed on to the modal, which stays open.
unfoldable pub domain_saved : DomainFormValue → Bool → String → App → App
unfolding push_toast
domain_saved value done toast s =
    if done
    then record (push_toast toast (lit "Saved " ∷ lit value.hostname ∷ []) success s) {
      domain_modal_open = false;
    }
    else s

unfoldable pub hook_saved : Bool → String → App → App
unfolding push_toast
hook_saved done toast s =
    if done
    then record (push_toast toast (lit "Hook saved" ∷ []) success s) { hook_modal_open = false }
    else s

-- `editing` is what was edited when the save began.
unfoldable pub project_saved :
    ProjectFormValue → Option HealthchecksProject → Bool → String → App → App
unfolding push_toast
project_saved value editing done toast s =
    if done
    then record (push_toast toast (saved_text value editing) success s) {
      project_modal_open = false;
    }
    else s
