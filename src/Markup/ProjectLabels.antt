-- ===== src/Markup/ProjectLabels.antt =====
-- The ids in the form of frontend/src/components/ProjectModal.tsx.
use tether_ddns.Prelude.{
  ◌≡◌, refl, String, codes, Bool, true, List, [], ◌∷◌, ◌++◌, Option-cases, Bool-cases, inl, inr,
  if◌then◌else◌, str_eq_code,
}
use tether_ddns.Prelude.Dict.{lookup}
use tether_ddns.FormErrors.{Errors, truthy}
use tether_ddns.Forms.{ProjectFormValue}
use tether_ddns.Forms.Project.{ProjectModal, name, base_url, api_key}
use tether_ddns.Html.{Attr, on_value, Html, nil, cons, nodes, words, ◌⧺◌, values, ids_in, refs_in}
use tether_ddns.Markup.ProjectForm.{
  ProjectEvent, project_modal, project_body, help, invalid, api_key_help, name_field, url_field,
  key_field, interval_field,
}
use tether_ddns.Markup.ProjectForm
use tether_ddns.Markup.References.{field-IsResolved}
use tether_ddns.Markup.Labels.{modal-IsResolved, footer-AreResolved, alert-AreResolved}
use tether_ddns.Markup.Resolve.{IsResolved, quiet-IsResolved, cons-AreResolved}

-- The text under an input of a project is there whether or not there is an error.
help-ids :
    (errors : Errors) (key : String) (fallback : List (Html ProjectEvent))
    → ids_in (nodes fallback) ≡ []
    → refs_in (nodes fallback) ≡ []
    → let hs = cons (help errors key fallback) nil in
      (ids_in hs ≡ ("hc-" ⧺ key ⧺ "-help") ∷ []) × (refs_in hs ≡ [])
help-ids errors key fallback i r = elim (Option-cases (lookup (codes key) errors)) [
  | inl e ↦ (rw (e, i) refl, rw (e, r) refl)
  | inr (t, e) ↦ (rw e refl, rw e refl)
]

invalid-ids :
    (errors : Errors) (key : String) (rest : List (Attr ProjectEvent))
    → let attrs = invalid errors key ++ rest in
      (values "id" attrs ≡ values "id" rest)
      × (values "for" attrs ≡ values "for" rest)
      × (values "aria-labelledby" attrs ≡ values "aria-labelledby" rest)
      × (values "aria-describedby" attrs ≡ ("hc-" ⧺ key ⧺ "-help") ∷ values "aria-describedby" rest)
invalid-ids errors key rest = elim (Bool-cases (truthy (lookup (codes key) errors))) [
  | inl e ↦ rw e (refl, refl, refl, refl)
  | inr e ↦ rw e (refl, refl, refl, refl)
]

name-IsResolved : (errors : Errors) (form : ProjectFormValue) → IsResolved (name_field errors form)
name-IsResolved errors form =
    let (i, f, l, d) =
      invalid-ids errors "name" (on_value (λ v. ProjectForm.update (name v)) ∷ []) in
    let (ib, rb) =
      help-ids errors "name" (words "Shown on the Healthchecks view and the Overview." ∷ []) refl
        refl in
    field-IsResolved "hcName" "hc-name-help" true _ _ _ refl refl (rw i refl) (rw (f, l, d) refl) ib
      rb

url-IsResolved : (errors : Errors) (form : ProjectFormValue) → IsResolved (url_field errors form)
url-IsResolved errors form =
    let (i, f, l, d) =
      invalid-ids errors "base_url" (on_value (λ v. ProjectForm.update (base_url v)) ∷ []) in
    let (ib, rb) = help-ids errors "base_url" [] refl refl in
    field-IsResolved "hcUrl" "hc-base_url-help" true _ _ _ refl refl (rw i refl) (rw (f, l, d) refl)
      ib rb

key-IsResolved : (errors : Errors) (form : ProjectFormValue) → IsResolved (key_field errors form)
key-IsResolved errors form =
    let (i, f, l, d) =
      invalid-ids errors "api_key" (on_value (λ v. ProjectForm.update (api_key v)) ∷ []) in
    let (ib, rb) = help-ids errors "api_key" api_key_help refl refl in
    field-IsResolved "hcKey" "hc-api_key-help" true _ _ _ refl refl (rw i refl) (rw (f, l, d) refl)
      ib rb

pub project-IsResolved :
    (title_id : String) (is_open editing : Bool) (s : ProjectModal)
    → IsResolved (project_modal title_id is_open editing s)
unfolding project_modal
project-IsResolved title_id is_open editing s =
    modal-IsResolved _ _ _ refl
      (cons-AreResolved _ _ (name-IsResolved s.errors s.form) (
        cons-AreResolved _ _ (url-IsResolved s.errors s.form) (
          cons-AreResolved _ _ (key-IsResolved s.errors s.form) (
            cons-AreResolved _ _ (quiet-IsResolved (interval_field s.form.poll_interval) refl)
              (alert-AreResolved _ s.form_error)))))
      (footer-AreResolved (if editing then "Save" else "Add & fetch") s.saving ProjectForm.close
        ProjectForm.save)
