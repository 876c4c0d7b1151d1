-- ===== src/Markup/FormAlarms.antt =====
-- Which errors the forms show (frontend/src/components).
use tether_ddns.Prelude.{
  ℕ, ◌≡◌, refl, ◌∙◌, String, Str, codes, Bool, some, List, [], ◌∷◌, ◌++◌, ℤ, Bool-cases, inl, inr,
  if◌then◌else◌, str_eq_code,
}
use tether_ddns.Prelude.Dict.{lookup}
use tether_ddns.Types.{Provider, HookDef, HookEventDef}
use tether_ddns.FormErrors.{
  Errors, FormErrors, settle, api_error, is_empty, sub_errors, sub_errors_from,
}
use tether_ddns.Forms.{DomainFormValue, HookFormValue}
use tether_ddns.Forms.Project.{ProjectModal}
use tether_ddns.Forms.Schema.{JsonSchema, SchemaProperty}
use tether_ddns.Markup.DomainForm.{Menus, domain_modal}
use tether_ddns.Markup.HookForm.{hook_modal}
use tether_ddns.Markup.ProjectForm.{project_modal}
use tether_ddns.Markup.Fields.{is_switch}
use tether_ddns.Markup.Alarms.{alarms, message}
use tether_ddns.Markup.Visible.{property_messages}
use tether_ddns.Markup.Visible.{property_messages}
use tether_ddns.Markup.SchemaAlarms.{messages, own_messages, domain-alarms, hook-alarms}
use tether_ddns.Markup.ProjectAlarms.{project-alarms}

-- Exactly these errors are shown, in this order, and an error that is empty is not: by the form of a
-- domain or a hook those of its own fields, then those of the properties of the schema that are not
-- switches, then the general one, for which an error on the whole configuration stands in; by
-- the form of a project those of its three inputs, then the general one.
pub forms_show_errors :
    (upper : ℕ → Str) (number_of : String → ℤ) (title_id : String) (is_open editing : Bool)
    (providers : List Provider) (hooks : List HookDef) (schema : JsonSchema)
    (available : List HookEventDef) (menus : Menus) (s : FormErrors) (domain : DomainFormValue)
    (hook : HookFormValue) (project : ProjectModal)
    → (alarms
          (domain_modal upper number_of title_id is_open editing providers schema menus s domain)
        ≡ messages ("hostname" ∷ "provider" ∷ "record_type" ∷ []) "provider_config" s schema)
      × (alarms (
            hook_modal upper number_of title_id is_open editing hooks schema available menus.first s
              hook)
          ≡ messages ("hook" ∷ "events" ∷ []) "config" s schema)
      × (alarms (project_modal title_id is_open editing project)
          ≡ own_messages project.errors ("name" ∷ "base_url" ∷ "api_key" ∷ [])
            ++ message project.form_error)
forms_show_errors upper number_of title_id is_open editing providers hooks schema available menus s
      domain hook project =
    (
      domain-alarms upper number_of title_id is_open editing providers schema menus s domain,
      hook-alarms upper number_of title_id is_open editing hooks schema available menus.first s
          hook,
      project-alarms title_id is_open editing project,
    )

no_messages : (entries : List (String × SchemaProperty)) → property_messages [] entries ≡ []
unfolding lookup
no_messages [] = refl
no_messages ((key, prop) ∷ entries) = elim (Bool-cases (is_switch prop)) [
  | inl b ↦ rw (b, no_messages entries) refl
  | inr b ↦ rw (b, no_messages entries) refl
]

-- After the server has refused to save a domain, its form shows the errors that came with the
-- refusal, those on its own fields first, then those on the properties that are not switches, then
-- the one on the whole configuration; or the fallback, if none came. Any other error that came,
-- such as one on a switch, is not shown.
pub domain_rejection :
    (upper : ℕ → Str) (number_of : String → ℤ) (title_id : String) (is_open editing : Bool)
    (providers : List Provider) (schema : JsonSchema) (menus : Menus) (fields : Errors)
    (s : FormErrors) (form : DomainFormValue)
    → let after = settle (api_error fields) s in
      let config_errors = sub_errors fields (codes "provider_config") in
      alarms
        (domain_modal upper number_of title_id is_open editing providers schema menus after form)
      ≡ (if is_empty fields
          then message (some s.fallback)
          else own_messages fields ("hostname" ∷ "provider" ∷ "record_type" ∷ [])
            ++ property_messages config_errors schema.properties
            ++ message (lookup [] config_errors))
unfolding settle sub_errors sub_errors_from lookup
domain_rejection upper number_of title_id is_open editing providers schema menus [] s form =
    domain-alarms upper number_of title_id is_open editing providers schema menus
      (settle (api_error []) s) form
    ∙ rw (no_messages schema.properties) refl
domain_rejection upper number_of title_id is_open editing providers schema menus (f ∷ fs) s form =
    domain-alarms upper number_of title_id is_open editing providers schema menus
      (settle (api_error (f ∷ fs)) s) form
