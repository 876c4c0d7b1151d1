-- ===== src/Markup/HookForm.antt =====
-- What frontend/src/components/HookModal.tsx renders. `schema` and `available` are those of the chosen
-- hook, or empty if there is none.
use tether_ddns.Prelude.{
  ℕ, String, Str, codes, Bool, Option, none, some, List, [], ◌∷◌, ◌++◌, map, str_eq_code, ℤ,
  if◌then◌else◌,
}
use tether_ddns.Prelude.Dict.{lookup}
use tether_ddns.Prelude.Text.{lit}
use tether_ddns.Types.{HookDef, HookEventDef}
use tether_ddns.FormErrors.{FormErrors, sub_errors, truthy}
use tether_ddns.Forms.{HookFormValue}
use tether_ddns.Forms.Errors.{Config}
use tether_ddns.Forms.Schema.{JsonSchema}
use tether_ddns.Forms.Hook.{includes}
use tether_ddns.Html.{Attr, attr, on, Html, element, cons, nodes, words, attr_if, class, ◌⧺◌}
use tether_ddns.Markup.Widgets.{SelectOption, SelectEvent, field_help, bool_text}
use tether_ddns.Markup.Dialogs.{ModalProps, modal}
use tether_ddns.Markup.Fields.{schema_form}
use tether_ddns.Markup.Modals.{alert_of, alert_html, blurb, form_footer, select_field}

abbrev pub hook_option : HookDef → SelectOption
hook_option h = record { value = h.key; label = h.display_name }

-- What the user does with the form of a hook.
pub data HookEvent : Type 0 where
  close save : HookEvent
  with_hook : SelectEvent → HookEvent
  toggles : String → HookEvent
  configures : Config → HookEvent

-- One of the chips, pressed if the event is among the chosen ones.
abbrev pub chip : List String → HookEventDef → Html HookEvent
chip chosen event =
    let is_on = includes event.key chosen in
    element "button"
      (attr "type" "button"
        ∷ class ("chip" ⧺ (if is_on then " active" else ""))
        ∷ attr "aria-pressed" (bool_text is_on)
        ∷ on "click" (toggles event.key)
        ∷ [])
      (nodes (words event.label ∷ []))

abbrev pub chips_attrs : Option String → List (Attr HookEvent)
chips_attrs err =
    class "chips"
    ∷ attr "role" "group"
    ∷ attr "aria-label" "Events"
    ∷ attr_if "aria-describedby" (if truthy err then some "fEvents-help" else none)

abbrev pub events_field : Option String → List HookEventDef → List String → Html HookEvent
events_field err available chosen = element "div" (class "field" ∷ []) (
    cons (element "label" [] (nodes (words "Events" ∷ []))) (
      cons (element "div" (chips_attrs err) (nodes (map (chip chosen) available)))
        (field_help "fEvents-help" err none)))

module _ (upper : ℕ → Str) (number_of : String → ℤ) (title_id : String) where
  abbrev pub hook_props : Bool → Bool → FormErrors → ModalProps HookEvent
  hook_props is_open editing s = record {
    title_id = title_id;
    is_open = is_open;
    title = lit (if editing then "Edit Hook" else "Add Hook") ∷ [];
    on_close = close;
    footer =
        some (form_footer (if editing then "Save Changes" else "Add Hook") s.saving close save);
  }

  abbrev pub hook_body :
      List HookDef
      → JsonSchema
      → List HookEventDef
      → Bool
      → FormErrors
      → HookFormValue
      → List (Html HookEvent)
  hook_body hooks schema available menu s form =
      let config_errors = sub_errors s.errors (codes "config") in
      select_field "fHook" "fHook-help" "Hook" form.hook (map hook_option hooks)
          (lookup (codes "hook") s.errors) menu with_hook
        ∷ blurb schema.description
      ++ events_field (lookup (codes "events") s.errors) available form.events
        ∷ schema_form upper number_of configures schema config_errors form.config
      ++ alert_html (alert_of s.form_error config_errors)

  unfoldable pub hook_modal :
      Bool
      → Bool
      → List HookDef
      → JsonSchema
      → List HookEventDef
      → Bool
      → FormErrors
      → HookFormValue
      → Html HookEvent
  unfolding modal select_field field_help schema_form sub_errors
  hook_modal is_open editing hooks schema available menu s form =
      modal (hook_props is_open editing s) (nodes (hook_body hooks schema available menu s form))
