-- ===== src/Markup/ProjectForm.antt =====
-- What frontend/src/components/ProjectModal.tsx renders.
use tether_ddns.Prelude.{
  ℕ, String, codes, Bool, Option, none, some, List, [], ◌∷◌, ◌++◌, map, nat_beq, str_eq_code,
  if◌then◌else◌,
}
use tether_ddns.Prelude.Dict.{lookup}
use tether_ddns.Prelude.Text.{lit}
use tether_ddns.FormErrors.{Errors, truthy}
use tether_ddns.Forms.{ProjectFormValue}
use tether_ddns.Forms.Project.{ProjectModal, Patch, name, base_url, api_key, poll_interval}
use tether_ddns.Html.{
  Attr, attr, on, on_value, Html, element, nil, nodes, words, attr_if, class, ◌⧺◌,
}
use tether_ddns.Markup.Dialogs.{ModalProps, modal}
use tether_ddns.Markup.Modals.{alert_html, form_footer, field_label}

-- `POLL_INTERVALS`
abbrev pub poll_intervals : List (ℕ × String)
poll_intervals =
    (60, "1 min") ∷ (120, "2 min") ∷ (300, "5 min") ∷ (900, "15 min") ∷ (3600, "1 hr") ∷ []

-- What the user does with the form of a project.
pub data ProjectEvent : Type 0 where
  close save : ProjectEvent
  update : Patch → ProjectEvent

module _ {E : Type 0} where
  abbrev pub shown_help : Option String → List (Html E) → List (Html E)
  shown_help none fallback = fallback
  shown_help (some e) fallback = words e ∷ []

  -- `help`, which is there even if it is empty.
  abbrev pub help : Errors → String → List (Html E) → Html E
  help errors key fallback =
      let err = lookup (codes key) errors in
      element "div"
        (attr "id" ("hc-" ⧺ key ⧺ "-help")
          ∷ class ("field-help" ⧺ (if truthy err then " hb-error" else ""))
          ∷ [])
        (nodes (shown_help err fallback))

  abbrev pub invalid : Errors → String → List (Attr E)
  invalid errors key =
      let wrong = truthy (lookup (codes key) errors) in
      attr_if "class" (if wrong then some "field-invalid" else none)
      ++ attr_if "aria-invalid" (if wrong then some "true" else none)
      ++ attr "aria-describedby" ("hc-" ⧺ key ⧺ "-help") ∷ []

  abbrev pub field : Html E → Html E → Html E → Html E
  field label input below = element "div" (class "field" ∷ []) (nodes (label ∷ input ∷ below ∷ []))

  abbrev pub api_key_help : List (Html E)
  api_key_help =
      words "Use a "
      ∷ element "strong" [] (nodes (words "read-only" ∷ []))
      ∷ words " API key (Healthchecks → Project Settings → API Access)."
      ∷ []

abbrev pub text_input :
    Errors → String → String → String → String → (String → Patch) → List (Attr ProjectEvent)
text_input errors id type key value patch =
    attr "id" id
      ∷ attr "type" type
      ∷ attr "autocomplete" "off"
      ∷ attr "value" value
      ∷ invalid errors key
    ++ on_value (λ v. update (patch v)) ∷ []

abbrev pub name_attrs : Errors → ProjectFormValue → List (Attr ProjectEvent)
name_attrs errors form =
    attr "placeholder" "Homelab" ∷ text_input errors "hcName" "text" "name" form.name name

abbrev pub url_attrs : Errors → ProjectFormValue → List (Attr ProjectEvent)
url_attrs errors form =
    attr "spellcheck" "false" ∷ text_input errors "hcUrl" "text" "base_url" form.base_url base_url

abbrev pub key_attrs : Errors → ProjectFormValue → List (Attr ProjectEvent)
key_attrs errors form = text_input errors "hcKey" "password" "api_key" form.api_key api_key

abbrev pub name_field : Errors → ProjectFormValue → Html ProjectEvent
name_field errors form =
    field (field_label "hcName" "Name") (element "input" (name_attrs errors form) nil)
      (help errors "name" (words "Shown on the Healthchecks view and the Overview." ∷ []))

abbrev pub url_label : Html ProjectEvent
url_label = element "label" (attr "for" "hcUrl" ∷ []) (
    nodes (
      words "Base URL "
      ∷ element "span" (class "hint" ∷ [])
          (nodes (words "— change for a self-hosted instance" ∷ []))
      ∷ []))

abbrev pub url_field : Errors → ProjectFormValue → Html ProjectEvent
url_field errors form =
    field url_label (element "input" (url_attrs errors form) nil) (help errors "base_url" [])

abbrev pub key_field : Errors → ProjectFormValue → Html ProjectEvent
key_field errors form =
    field (field_label "hcKey" "API key") (element "input" (key_attrs errors form) nil)
      (help errors "api_key" api_key_help)

abbrev pub interval_chip : ℕ → ℕ × String → Html ProjectEvent
interval_chip current (value, label) =
    element "button"
      (attr "type" "button"
        ∷ class ("chip" ⧺ (if nat_beq current value then " active" else ""))
        ∷ on "click" (update (poll_interval value))
        ∷ [])
      (nodes (words label ∷ []))

abbrev pub interval_field : ℕ → Html ProjectEvent
interval_field current = element "div" [] (
    nodes (
      element "div" (class "sr-text" ∷ []) (
        nodes (
          element "span" (class "t" ∷ []) (nodes (words "Poll interval" ∷ []))
          ∷ element "span" (class "d" ∷ [])
              (nodes (words "How often to refresh check status while online." ∷ []))
          ∷ []))
      ∷ element "div" (class "chips" ∷ attr "role" "group" ∷ attr "aria-label" "Poll interval" ∷ [])
          (nodes (map (interval_chip current) poll_intervals))
      ∷ []))

abbrev pub project_body : ProjectModal → List (Html ProjectEvent)
project_body s =
    name_field s.errors s.form
    ∷ url_field s.errors s.form
    ∷ key_field s.errors s.form
    ∷ interval_field s.form.poll_interval
    ∷ alert_html s.form_error

abbrev pub project_props : String → Bool → Bool → ProjectModal → ModalProps ProjectEvent
project_props title_id is_open editing s = record {
  title_id = title_id;
  is_open = is_open;
  title = lit (if editing then "Edit project" else "Add project") ∷ [];
  on_close = close;
  footer = some (form_footer (if editing then "Save" else "Add & fetch") s.saving close save);
}

unfoldable pub project_modal : String → Bool → Bool → ProjectModal → Html ProjectEvent
unfolding modal
project_modal title_id is_open editing s =
    modal (project_props title_id is_open editing s) (nodes (project_body s))
