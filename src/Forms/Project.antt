-- ===== src/Forms/Project.antt =====
-- The form of frontend/src/components/ProjectModal.tsx, which keeps its own errors.
use tether_ddns.Prelude.{◌+◌, List, ◌∷◌, ap, Bool-cases, inl, inr}
use tether_ddns.Prelude.{
  ℕ, ◌≡◌, refl, String, Str, codes, Bool, true, false, not, Option, none, some, [], keep, str_beq,
  if◌then◌else◌,
}
use tether_ddns.Types.{HealthchecksProject}
use tether_ddns.FormErrors.{
  Errors, FormErrors, Outcome, resolved, api_error, other_error, is_empty, reset, clear,
}
use tether_ddns.FormErrors
use tether_ddns.Forms.{ProjectFormValue}

abbrev pub empty_project : ProjectFormValue
empty_project = record {
  name = "";
  base_url = "https://healthchecks.io";
  api_key = "";
  poll_interval = 300;
}

pub record ProjectModal : Type 0 where
  pub form : ProjectFormValue
  pub errors : Errors
  pub form_error : Option String
  pub saving : Bool

abbrev form_of : Option HealthchecksProject → ProjectFormValue
form_of none = empty_project
form_of (some p) = record {
  name = p.name;
  base_url = p.base_url;
  api_key = p.api_key;
  poll_interval = p.poll_interval;
}

-- The effect that runs when the modal opens.
unfoldable pub open_project : Option HealthchecksProject → ProjectModal → ProjectModal
open_project editing s = record s { form = form_of editing; errors = []; form_error = none }

pub data Patch : Type 0 where
  name base_url api_key : String → Patch
  poll_interval : ℕ → Patch

abbrev pub patch_key : Patch → Str
patch_key (name _) = codes "name"
patch_key (base_url _) = codes "base_url"
patch_key (api_key _) = codes "api_key"
patch_key (poll_interval _) = codes "poll_interval"

abbrev apply_patch : Patch → ProjectFormValue → ProjectFormValue
apply_patch (name v) f = record f { name = v }
apply_patch (base_url v) f = record f { base_url = v }
apply_patch (api_key v) f = record f { api_key = v }
apply_patch (poll_interval v) f = record f { poll_interval = v }

unfoldable pub update_field : Patch → ProjectModal → ProjectModal
update_field patch s = record s {
  form = apply_patch patch s.form;
  errors = keep (λ kv. not (str_beq kv.0 (patch_key patch))) s.errors;
  form_error = none;
}

-- `submit` up to its `await`: the first argument is `saving` in the render whose handler runs, and the
-- flag says whether the save is started.
unfoldable pub submit : Bool → ProjectModal → ProjectModal × Bool
submit seen s = if seen then (s, false) else (record s { saving = true }, true)

abbrev rejected : Errors → ProjectModal → ProjectModal
rejected fields s = record s {
  errors = fields;
  form_error = if is_empty fields then some "Failed to save project" else none;
  saving = false;
}

-- The rest of `submit`, when the save has ended.
unfoldable pub settle : Outcome → ProjectModal → ProjectModal
settle resolved s = record s { saving = false }
settle (api_error fields) s = rejected fields s
settle other_error s = rejected [] s

-- The same state as that of the hook `useFormErrors`, whose two flags agree.
abbrev pub as_form_errors : ProjectModal → FormErrors
as_form_errors s = record {
  fallback = "Failed to save project";
  errors = s.errors;
  form_error = s.form_error;
  saving = s.saving;
  busy = s.saving;
}

-- What happens to the modal: it opens, a field changes, the button is clicked, and a save ends.
pub data ModalEvent : Type 0 where
  opens : Option HealthchecksProject → ModalEvent
  changes : Patch → ModalEvent
  clicks : ModalEvent
  ends : Outcome → ModalEvent

-- An event that reaches a handler of a render, and whether it starts a save.
unfoldable pub modal_step : Bool → ModalEvent → ProjectModal → ProjectModal × Bool
unfolding open_project update_field submit settle
modal_step seen (opens editing) s = (open_project editing s, false)
modal_step seen (changes patch) s = (update_field patch s, false)
modal_step seen clicks s = submit seen s
modal_step seen (ends o) s = (settle o s, false)

-- Events that each meet a new render, and how many saves they start.
unfoldable pub modal_run : List ModalEvent → ProjectModal → ProjectModal × ℕ
modal_run [] s = (s, 0)
modal_run (e ∷ es) s =
    let (t, starts) = modal_step s.saving e s in
    let (u, n) = modal_run es t in (u, (if starts then 1 else 0) + n)

-- The same with the hook in place of the modal's own states.
abbrev pub hook_step : ModalEvent → FormErrors → FormErrors × Bool
hook_step (opens editing) f = (reset f, false)
hook_step (changes patch) f = (clear (λ k. str_beq k (patch_key patch)) f, false)
hook_step clicks f = FormErrors.submit f
hook_step (ends o) f = (FormErrors.settle o f, false)

unfoldable pub hook_run : List ModalEvent → FormErrors → FormErrors × ℕ
hook_run [] f = (f, 0)
hook_run (e ∷ es) f =
    let (g, starts) = hook_step e f in
    let (h, n) = hook_run es g in (h, (if starts then 1 else 0) + n)

step_lem :
    (e : ModalEvent) (s : ProjectModal)
    → let (t, starts) = modal_step s.saving e s in
      hook_step e (as_form_errors s) ≡ (as_form_errors t, starts)
unfolding modal_step FormErrors.submit FormErrors.settle reset clear
step_lem (opens editing) s = refl
step_lem (changes patch) s = refl
step_lem clicks s = elim (Bool-cases s.saving) [ inl b ↦ rw b refl | inr b ↦ rw b refl ]
step_lem (ends resolved) s = refl
step_lem (ends (api_error fields)) s = refl
step_lem (ends other_error) s = refl

run_lem :
    (es : List ModalEvent) (s : ProjectModal)
    → hook_run es (as_form_errors s) ≡ (as_form_errors (modal_run es s).0, (modal_run es s).1)
unfolding hook_run modal_run
run_lem [] s = refl
run_lem (e ∷ es) s =
    let (t, starts) = modal_step s.saving e s in rw (step_lem e s, run_lem es t) refl

-- The modal keeps its errors itself and guards a save with the state of the render that was clicked, not
-- with a ref. As long as each event meets a new render, it behaves as `useFormErrors` does, whatever
-- happens in whatever order: it has the same errors and flags, and starts as many saves. Two clicks that
-- meet the same render, though, start two saves, where the hook starts one.
pub project_refines_form_errors :
    (es : List ModalEvent) (s : ProjectModal)
    → s.saving ≡ false
    → let f = as_form_errors s in
      let once = submit s.saving s in
      let hook_once = FormErrors.submit f in
      ((hook_run es f).0 ≡ as_form_errors (modal_run es s).0)
      × ((hook_run es f).1 ≡ (modal_run es s).1)
      × (once.1 ≡ true)
      × ((submit s.saving once.0).1 ≡ true)
      × (hook_once.1 ≡ true)
      × ((FormErrors.submit hook_once.0).1 ≡ false)
unfolding submit FormErrors.submit
project_refines_form_errors es s h = (
  ap (λ x. x.0) (run_lem es s),
  ap (λ x. x.1) (run_lem es s),
  rw h refl,
  rw h refl,
  rw h refl,
  rw h refl,
)
