-- ===== src/Markup/ProjectAlarms.antt =====
-- Which errors the form of frontend/src/components/ProjectModal.tsx shows.
use mathlib.Core.List.{append_assoc, append-nil}
use tether_ddns.Prelude.{
  ℕ, nat_beq, ◌≡◌, refl, sym, ◌∙◌, ap, String, codes, Bool, List, [], ◌∷◌, ◌++◌, Option-cases,
  Bool-cases, inl, inr, if◌then◌else◌, str_eq_code,
}
use tether_ddns.Prelude.Dict.{lookup}
use text.Mathlib.Text.{◌==◌ as text_beq}
use tether_ddns.Prelude.Text.{Text}
use tether_ddns.FormErrors.{Errors}
use tether_ddns.Forms.Project.{ProjectModal}
use tether_ddns.Html.{Attr, Html, element, nil, nodes, words}
use tether_ddns.Markup.Modals.{form_footer, field_label}
use tether_ddns.Markup.ProjectForm.{
  ProjectEvent, field, project_props, project_modal, project_body, name_attrs, url_attrs, key_attrs,
  url_label, interval_chip, poll_intervals, help, invalid, api_key_help, name_field, url_field,
  key_field, interval_field,
}
use tether_ddns.Markup.ProjectForm
use tether_ddns.Markup.Alarms.{
  alarms, alarms_in, alarms-map, void-alarms, message, alert-alarms, footer-alarms, modal-alarms,
}
use tether_ddns.Markup.SchemaAlarms.{own_messages}

help-alarms :
    (errors : Errors) (key : String) (fallback : List (Html ProjectEvent))
    → alarms_in (nodes fallback) ≡ []
    → alarms (help errors key fallback) ≡ message (lookup (codes key) errors)
help-alarms errors key fallback f = elim (Option-cases (lookup (codes key) errors)) [
  | inl e ↦ rw (e, f) refl
  | inr (t, e) ↦ elim (Bool-cases (text_beq t "")) [
    | inl b ↦ rw (e, b) refl
    | inr b ↦ rw (e, b) refl
  ]
]

field-alarms :
    (errors : Errors) (key : String) (label below : Html ProjectEvent)
    (attrs : List (Attr ProjectEvent))
    → alarms label ≡ []
    → alarms below ≡ message (lookup (codes key) errors)
    → alarms (field label (element "input" attrs nil) below) ≡ message (lookup (codes key) errors)
field-alarms errors key label below attrs l b =
    rw (l, b, void-alarms "input" attrs) (append-nil (message (lookup (codes key) errors)))

chip-alarms : (current : ℕ) (i : ℕ × String) → alarms (interval_chip current i) ≡ []
chip-alarms current (value, label) = elim (Bool-cases (nat_beq current value)) [
  | inl b ↦ rw b refl
  | inr b ↦ rw b refl
]

interval-alarms : (current : ℕ) → alarms (interval_field current) ≡ []
interval-alarms current =
    rw (alarms-map (interval_chip current) poll_intervals (chip-alarms current)) refl

regroup : (a b c d : List Text) → a ++ (b ++ (c ++ d)) ≡ a ++ (b ++ (c ++ [])) ++ d
regroup a b c d =
    rw (append-nil c)
      (ap (λ x. a ++ x) (sym (append_assoc b c d)) ∙ sym (append_assoc a (b ++ c) d))

project_body-alarms :
    (s : ProjectModal)
    → alarms_in (nodes (project_body s))
      ≡ own_messages s.errors ("name" ∷ "base_url" ∷ "api_key" ∷ []) ++ message s.form_error
project_body-alarms s =
    rw
      (
        field-alarms s.errors "name" (field_label "hcName" "Name")
            (help s.errors "name" (words "Shown on the Healthchecks view and the Overview." ∷ []))
            (name_attrs s.errors s.form) refl
            (help-alarms s.errors "name"
              (words "Shown on the Healthchecks view and the Overview." ∷ []) refl),
        field-alarms s.errors "base_url" url_label (help s.errors "base_url" [])
            (url_attrs s.errors s.form) refl (help-alarms s.errors "base_url" [] refl),
        field-alarms s.errors "api_key" (field_label "hcKey" "API key")
            (help s.errors "api_key" api_key_help) (key_attrs s.errors s.form) refl
            (help-alarms s.errors "api_key" api_key_help refl),
        interval-alarms s.form.poll_interval,
        alert-alarms ProjectEvent s.form_error,
      )
      (regroup (message (lookup (codes "name") s.errors))
        (message (lookup (codes "base_url") s.errors)) (message (lookup (codes "api_key") s.errors))
        (message s.form_error))

pub project-alarms :
    (title_id : String) (is_open editing : Bool) (s : ProjectModal)
    → alarms (project_modal title_id is_open editing s)
      ≡ own_messages s.errors ("name" ∷ "base_url" ∷ "api_key" ∷ []) ++ message s.form_error
unfolding project_modal
project-alarms title_id is_open editing s =
    let label : String = if editing then "Save" else "Add & fetch" in
    modal-alarms (project_props title_id is_open editing s) (nodes (project_body s))
      (form_footer label s.saving ProjectForm.close ProjectForm.save) refl
      (footer-alarms label s.saving ProjectForm.close ProjectForm.save)
    ∙ project_body-alarms s
