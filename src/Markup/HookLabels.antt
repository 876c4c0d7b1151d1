-- ===== src/Markup/HookLabels.antt =====
-- The ids in the form of frontend/src/components/HookModal.tsx.
use tether_ddns.Prelude.{
  ℕ, ◌≡◌, refl, String, Str, codes, Bool, Option, none, List, [], ◌∷◌, ◌++◌, map, ℤ, arith,
  if◌then◌else◌, str_eq_code,
}
use tether_ddns.Prelude.Dict.{lookup}
use tether_ddns.Types.{HookDef, HookEventDef}
use tether_ddns.FormErrors.{FormErrors, sub_errors, truthy}
use tether_ddns.Forms.{HookFormValue}
use tether_ddns.Forms.Schema.{JsonSchema}
use tether_ddns.Html.{nodes, values, references}
use tether_ddns.Markup.Fields.{schema_form, properties_html}
use tether_ddns.Markup.Modals.{alert_of, alert_html, blurb}
use tether_ddns.Markup.HookForm.{
  HookEvent, hook_modal, hook_body, hook_option, chip, chips_attrs, events_field, with_hook,
}
use tether_ddns.Markup.HookForm
use tether_ddns.Markup.References.{field_help-values, properties-AreResolved}
use tether_ddns.Markup.Labels.{
  modal-IsResolved, footer-AreResolved, select_field-IsResolved, alert-AreResolved,
  blurb-AreResolved,
}
use tether_ddns.Markup.Resolve.{
  IsResolved, AreResolved, refs-map, ids-map, cons-AreResolved, nodes-AreResolved,
}

chips-references :
    (err : Option String)
    → (references (chips_attrs err) ≡ (if truthy err then "fEvents-help" ∷ [] else []))
      × (values "id" (chips_attrs err) ≡ [])
chips-references err = (ground arith, ground arith)

events-IsResolved :
    (err : Option String) (available : List HookEventDef) (chosen : List String)
    → IsResolved (events_field err available chosen)
events-IsResolved err available chosen =
    let (rb, ib) = field_help-values HookEvent "fEvents-help" err none in
    let no_id = ids-map (chip chosen) available (λ e. refl) in
    let no_ref = refs-map (chip chosen) available (λ e. refl) in
    record { found = ground (arith, rb, ib, no_id, no_ref, chips-references err) }

module _ (upper : ℕ → Str) (number_of : String → ℤ) (title_id : String) where
  hook_body-AreResolved :
      (hooks : List HookDef) (schema : JsonSchema) (available : List HookEventDef) (menu : Bool)
      (s : FormErrors) (form : HookFormValue)
      → AreResolved (nodes (hook_body upper number_of title_id hooks schema available menu s form))
  unfolding schema_form
  hook_body-AreResolved hooks schema available menu s form =
      let config_errors = sub_errors s.errors (codes "config") in
      let alert = alert_html (alert_of s.form_error config_errors) in
      let fields =
        properties_html upper number_of HookForm.configures schema.required config_errors
          form.config schema.properties in
      let events = events_field (lookup (codes "events") s.errors) available form.events in
      cons-AreResolved _ _
        (select_field-IsResolved with_hook "fHook" "fHook-help" "Hook" form.hook
          (map hook_option hooks) (lookup (codes "hook") s.errors) menu)
        (nodes-AreResolved (blurb schema.description ++ (events ∷ fields)) alert
          (nodes-AreResolved (blurb schema.description) (events ∷ fields)
            (blurb-AreResolved _ schema.description)
            (cons-AreResolved _ _
              (events-IsResolved (lookup (codes "events") s.errors) available form.events)
              (properties-AreResolved upper number_of HookForm.configures schema.required
                config_errors form.config schema.properties)))
          (alert-AreResolved _ (alert_of s.form_error config_errors)))

  pub hook-IsResolved :
      (is_open editing : Bool) (hooks : List HookDef) (schema : JsonSchema)
      (available : List HookEventDef) (menu : Bool) (s : FormErrors) (form : HookFormValue)
      → IsResolved
          (hook_modal upper number_of title_id is_open editing hooks schema available menu s form)
  unfolding hook_modal
  hook-IsResolved is_open editing hooks schema available menu s form =
      modal-IsResolved _ _ _ refl (hook_body-AreResolved hooks schema available menu s form) (
        footer-AreResolved (if editing then "Save Changes" else "Add Hook") s.saving HookForm.close
          HookForm.save)
