-- ===== src/Markup/SchemaAlarms.antt =====
-- Which errors the forms of frontend/src/components/DomainModal.tsx and HookModal.tsx show.
use mathlib.Core.List.{append_assoc, append-nil}
use tether_ddns.Prelude.{
  ℕ, ◌≡◌, refl, sym, ◌∙◌, ap, String, Str, codes, Bool, true, false, Option, none, List, [], ◌∷◌,
  ◌++◌, map, ℤ, Bool-cases, inl, inr, if◌then◌else◌, str_eq_code,
}
use tether_ddns.Prelude.Dict.{lookup}
use tether_ddns.Prelude.Text.{Text}
use tether_ddns.Types.{Provider, HookDef, HookEventDef}
use tether_ddns.FormErrors.{Errors, FormErrors, sub_errors, truthy}
use tether_ddns.Forms.{DomainFormValue, HookFormValue}
use tether_ddns.Forms.Hook.{includes}
use tether_ddns.Forms.Schema.{JsonSchema}
use tether_ddns.Html.{nodes}
use tether_ddns.Markup.Fields.{schema_form, properties_html}
use tether_ddns.Markup.Modals.{alert_of, alert_html, blurb, form_footer}
use tether_ddns.Markup.DomainForm.{
  DomainEvent, Menus, domain_props, domain_modal, domain_body, hostname_attrs, hostname_field,
  domain_selects, enable_row, configures, close, save, provider_option, record_types, with_provider,
  with_type,
}
use tether_ddns.Markup.HookForm.{
  HookEvent, hook_props, hook_modal, hook_body, hook_option, chip, chips_attrs, chips_attrs,
  events_field, with_hook,
}
use tether_ddns.Markup.HookForm
use tether_ddns.Markup.Alarms.{
  alarms, alarms_in, alarms-append, alarms-map, void-alarms, message, field_help-alarms,
  alert-alarms, blurb-alarms, footer-alarms, select_field-alarms, modal-alarms,
}
use tether_ddns.Markup.Visible.{property_messages, properties-alarms}

abbrev pub own_messages : Errors → List String → List Text
own_messages errors [] = []
own_messages errors (f ∷ fs) = message (lookup (codes f) errors) ++ own_messages errors fs

-- The errors of a form for a domain or a hook that are to be shown: those of its own fields, those of
-- the fields of the schema, and the general one.
abbrev pub messages : List String → String → FormErrors → JsonSchema → List Text
messages own config s schema =
    let config_errors = sub_errors s.errors (codes config) in
    own_messages s.errors own
    ++ property_messages config_errors schema.properties
    ++ message (alert_of s.form_error config_errors)

regroup : (a b c d : List Text) → a ++ (b ++ (c ++ d)) ≡ a ++ b ++ c ++ d
regroup a b c d = sym (append_assoc (a ++ b) c d ∙ append_assoc a b (c ++ d))

regroup_hook : (a b c d : List Text) → a ++ (b ++ c ++ d) ≡ a ++ (b ++ []) ++ c ++ d
regroup_hook a b c d =
    rw (append-nil b)
      (sym (append_assoc a (b ++ c) d) ∙ ap (λ x. x ++ d) (sym (append_assoc a b c)))

hostname-alarms :
    (err : Option String) (hostname : String) → alarms (hostname_field err hostname) ≡ message err
hostname-alarms err hostname =
    rw
      (
        void-alarms "input" (hostname_attrs err hostname),
        field_help-alarms DomainEvent "fHostname-help" err none,
      )
      refl

chip-alarms : (chosen : List String) (e : HookEventDef) → alarms (chip chosen e) ≡ []
chip-alarms chosen e = elim (Bool-cases (includes e.key chosen)) [
  | inl b ↦ rw b refl
  | inr b ↦ rw b refl
]

events-alarms :
    (err : Option String) (available : List HookEventDef) (chosen : List String)
    → alarms (events_field err available chosen) ≡ message err
events-alarms err available chosen =
    let chips = alarms-map (chip chosen) available (chip-alarms chosen) in
    elim (Bool-cases (truthy err)) [
      | inl t ↦ rw (t, chips, field_help-alarms HookEvent "fEvents-help" err none) refl
      | inr t ↦ rw (t, chips, field_help-alarms HookEvent "fEvents-help" err none) refl
    ]

enable-alarms : (enabled : Bool) → alarms (enable_row enabled) ≡ []
enable-alarms true = refl
enable-alarms false = refl

selects-alarms :
    (providers : List Provider) (menus : Menus) (errors : Errors) (form : DomainFormValue)
    → alarms (domain_selects providers menus errors form)
      ≡ own_messages errors ("provider" ∷ "record_type" ∷ [])
selects-alarms providers menus errors form =
    rw
      (
        select_field-alarms "fProvider" "fProvider-help" "DNS Provider" form.provider
            (map provider_option providers) (lookup (codes "provider") errors) menus.first
            with_provider,
        select_field-alarms "fType" "fType-help" "Record Type" form.record_type record_types
            (lookup (codes "record_type") errors) menus.second with_type,
      )
      refl

module _ (upper : ℕ → Str) (number_of : String → ℤ) (title_id : String) where
  domain_body-alarms :
      (providers : List Provider) (schema : JsonSchema) (menus : Menus) (s : FormErrors)
      (form : DomainFormValue)
      → alarms_in (nodes (domain_body upper number_of title_id providers schema menus s form))
        ≡ messages ("hostname" ∷ "provider" ∷ "record_type" ∷ []) "provider_config" s schema
  unfolding schema_form
  domain_body-alarms providers schema menus s form =
      let config_errors = sub_errors s.errors (codes "provider_config") in
      let alert = alert_html (alert_of s.form_error config_errors) in
      let fields =
        properties_html upper number_of configures schema.required config_errors
          form.provider_config schema.properties in
      rw
        (
          hostname-alarms (lookup (codes "hostname") s.errors) form.hostname,
          selects-alarms providers menus s.errors form,
          alarms-append (blurb schema.description ++ fields) (enable_row form.enabled ∷ alert),
          alarms-append (blurb schema.description) fields,
          blurb-alarms DomainEvent schema.description,
          properties-alarms upper number_of configures schema.required config_errors
              form.provider_config schema.properties,
          enable-alarms form.enabled,
          alert-alarms DomainEvent (alert_of s.form_error config_errors),
        )
        (regroup (message (lookup (codes "hostname") s.errors))
          (own_messages s.errors ("provider" ∷ "record_type" ∷ []))
          (property_messages config_errors schema.properties)
          (message (alert_of s.form_error config_errors)))

  pub domain-alarms :
      (is_open editing : Bool) (providers : List Provider) (schema : JsonSchema) (menus : Menus)
      (s : FormErrors) (form : DomainFormValue)
      → alarms (domain_modal upper number_of title_id is_open editing providers schema menus s form)
        ≡ messages ("hostname" ∷ "provider" ∷ "record_type" ∷ []) "provider_config" s schema
  unfolding domain_modal
  domain-alarms is_open editing providers schema menus s form =
      let label : String = if editing then "Save Changes" else "Add Domain" in
      modal-alarms (domain_props upper number_of title_id is_open editing s)
        (nodes (domain_body upper number_of title_id providers schema menus s form))
        (form_footer label s.saving close save) refl (footer-alarms label s.saving close save)
      ∙ domain_body-alarms providers schema menus s form

  hook_body-alarms :
      (hooks : List HookDef) (schema : JsonSchema) (available : List HookEventDef) (menu : Bool)
      (s : FormErrors) (form : HookFormValue)
      → alarms_in (nodes (hook_body upper number_of title_id hooks schema available menu s form))
        ≡ messages ("hook" ∷ "events" ∷ []) "config" s schema
  unfolding schema_form
  hook_body-alarms hooks schema available menu s form =
      let config_errors = sub_errors s.errors (codes "config") in
      let alert = alert_html (alert_of s.form_error config_errors) in
      let fields =
        properties_html upper number_of HookForm.configures schema.required config_errors
          form.config schema.properties in
      let events = events_field (lookup (codes "events") s.errors) available form.events in
      rw
        (
          select_field-alarms "fHook" "fHook-help" "Hook" form.hook (map hook_option hooks)
              (lookup (codes "hook") s.errors) menu with_hook,
          alarms-append (blurb schema.description ++ (events ∷ fields)) alert,
          alarms-append (blurb schema.description) (events ∷ fields),
          blurb-alarms HookEvent schema.description,
          events-alarms (lookup (codes "events") s.errors) available form.events,
          properties-alarms upper number_of HookForm.configures schema.required config_errors
              form.config schema.properties,
          alert-alarms HookEvent (alert_of s.form_error config_errors),
        )
        (regroup_hook (message (lookup (codes "hook") s.errors))
          (message (lookup (codes "events") s.errors))
          (property_messages config_errors schema.properties)
          (message (alert_of s.form_error config_errors)))

  pub hook-alarms :
      (is_open editing : Bool) (hooks : List HookDef) (schema : JsonSchema)
      (available : List HookEventDef) (menu : Bool) (s : FormErrors) (form : HookFormValue)
      → alarms
          (hook_modal upper number_of title_id is_open editing hooks schema available menu s form)
        ≡ messages ("hook" ∷ "events" ∷ []) "config" s schema
  unfolding hook_modal
  hook-alarms is_open editing hooks schema available menu s form =
      let label : String = if editing then "Save Changes" else "Add Hook" in
      modal-alarms (hook_props upper number_of title_id is_open editing s)
        (nodes (hook_body upper number_of title_id hooks schema available menu s form))
        (form_footer label s.saving HookForm.close HookForm.save) refl
        (footer-alarms label s.saving HookForm.close HookForm.save)
      ∙ hook_body-alarms hooks schema available menu s form
