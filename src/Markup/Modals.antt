-- ===== src/Markup/Modals.antt =====
-- What the modals with a form (frontend/src/components/DomainModal.tsx, HookModal.tsx and
-- ProjectModal.tsx) render in the same way.
use tether_ddns.Prelude.{
  String, Bool, Option, none, some, List, [], ◌∷◌, ◌++◌, if◌then◌else◌, str_eq_code,
}
use tether_ddns.Prelude.Dict.{lookup}
use text.Mathlib.Text.{◌==◌ as text_beq}
use tether_ddns.FormErrors.{Errors, truthy}
use tether_ddns.Html.{attr, on, Html, element, Nodes, cons, nodes, words, flag_if, class}
use tether_ddns.Markup.Widgets.{
  SelectOption, SelectProps, SelectEvent, select, field_help, help_text,
}

-- `formError ?? configErrors[''] ?? null`
abbrev pub alert_of : Option String → Errors → Option String
alert_of form_error config_errors = help_text form_error (lookup [] config_errors)

-- A `Select` with a label, described by its error if it has one.
abbrev pub select_props :
    String → String → String → String → List SelectOption → Option String → SelectProps
select_props id help label value options err = record {
  id = some id;
  value = value;
  options = options;
  aria_label = some label;
  invalid = truthy err;
  described_by = if truthy err then some help else none;
}

module _ {E : Type 0} where
  -- `{alert ? … : null}`
  abbrev pub alert_html : Option String → List (Html E)
  alert_html none = []
  alert_html (some t) =
      if text_beq t ""
      then []
      else element "div" (class "field-help hb-error" ∷ attr "role" "alert" ∷ [])
          (nodes (words t ∷ []))
        ∷ []

  -- `{schema.description ? … : null}`
  abbrev pub blurb : Option String → List (Html E)
  blurb none = []
  blurb (some t) =
      if text_beq t ""
      then []
      else element "p" (class "modal-blurb" ∷ []) (nodes (words t ∷ [])) ∷ []

  abbrev pub form_footer : String → Bool → E → E → Nodes E
  form_footer label saving cancel save = nodes (
      element "button" (attr "type" "button" ∷ class "btn btn-ghost" ∷ on "click" cancel ∷ [])
        (nodes (words "Cancel" ∷ []))
      ∷ element "button"
          (attr "type" "button" ∷ class "btn btn-primary" ∷ flag_if saving "disabled"
            ++ on "click" save ∷ [])
          (nodes (words label ∷ []))
      ∷ [])

  abbrev pub field_label : String → String → Html E
  field_label id label = element "label" (attr "for" id ∷ []) (nodes (words label ∷ []))

  -- A field with a `Select`, whose error is shown under it.
  unfoldable pub select_field :
      String
      → String
      → String
      → String
      → List SelectOption
      → Option String
      → Bool
      → (SelectEvent → E)
      → Html E
  unfolding field_help select
  select_field id help label value options err is_open send = element "div" (class "field" ∷ []) (
      cons (field_label id label) (
        cons (select (select_props id help label value options err) is_open send)
          (field_help help err none)))
