-- ===== src/Markup/DomainLabels.antt =====
-- The ids in the form of frontend/src/components/DomainModal.tsx.
use tether_ddns.Prelude.{
  ℕ, refl, String, Str, codes, Bool, true, false, Option, none, List, [], ◌∷◌, ◌++◌, map, ℤ, arith,
  if◌then◌else◌, str_eq_code,
}
use tether_ddns.Prelude.Dict.{lookup}
use tether_ddns.Types.{Provider}
use tether_ddns.FormErrors.{Errors, FormErrors, sub_errors, truthy}
use tether_ddns.Forms.{DomainFormValue}
use tether_ddns.Forms.Domain
use tether_ddns.Forms.Schema.{JsonSchema}
use tether_ddns.Html.{on_value, nodes}
use tether_ddns.Markup.Fields.{schema_form, properties_html}
use tether_ddns.Markup.Modals.{alert_of, alert_html, blurb}
use tether_ddns.Markup.DomainForm.{
  DomainEvent, Menus, domain_modal, domain_body, hostname_field, domain_selects, enable_row,
  configures, update, close, save, provider_option, record_types, with_provider, with_type,
}
use tether_ddns.Markup.References.{
  invalid-values, field_help-values, field-IsResolved, properties-AreResolved,
}
use tether_ddns.Markup.Labels.{
  modal-IsResolved, footer-AreResolved, select_field-IsResolved, alert-AreResolved,
  blurb-AreResolved,
}
use tether_ddns.Markup.Resolve.{
  IsResolved, AreResolved, nil-AreResolved, quiet-IsResolved, cons-AreResolved, nodes-AreResolved,
  element-IsResolved,
}

hostname-IsResolved :
    (err : Option String) (hostname : String) → IsResolved (hostname_field err hostname)
hostname-IsResolved err hostname =
    let (i, f, l, d) =
      invalid-values err "fHostname-help" (truthy err)
        (on_value (λ v. update (Domain.hostname v)) ∷ []) in
    let (rb, ib) = field_help-values DomainEvent "fHostname-help" err none in
    field-IsResolved "fHostname" "fHostname-help" (truthy err) _ _ _ refl refl (rw i refl)
      (rw (f, l, d) (ground arith)) (ground (arith, ib)) rb

selects-IsResolved :
    (providers : List Provider) (menus : Menus) (errors : Errors) (form : DomainFormValue)
    → IsResolved (domain_selects providers menus errors form)
selects-IsResolved providers menus errors form = element-IsResolved "div" _ _ refl (
    cons-AreResolved _ _
      (select_field-IsResolved with_provider "fProvider" "fProvider-help" "DNS Provider"
        form.provider (map provider_option providers) (lookup (codes "provider") errors)
        menus.first)
      (cons-AreResolved _ _
        (select_field-IsResolved with_type "fType" "fType-help" "Record Type" form.record_type
          record_types (lookup (codes "record_type") errors) menus.second)
        nil-AreResolved))

enable-IsResolved : (enabled : Bool) → IsResolved (enable_row enabled)
enable-IsResolved true = quiet-IsResolved _ refl
enable-IsResolved false = quiet-IsResolved _ refl

module _ (upper : ℕ → Str) (number_of : String → ℤ) (title_id : String) where
  domain_body-AreResolved :
      (providers : List Provider) (schema : JsonSchema) (menus : Menus) (s : FormErrors)
      (form : DomainFormValue)
      → AreResolved (nodes (domain_body upper number_of title_id providers schema menus s form))
  unfolding schema_form
  domain_body-AreResolved providers schema menus s form =
      let config_errors = sub_errors s.errors (codes "provider_config") in
      let rest = enable_row form.enabled ∷ alert_html (alert_of s.form_error config_errors) in
      let fields =
        properties_html upper number_of configures schema.required config_errors
          form.provider_config schema.properties in
      cons-AreResolved _ _ (hostname-IsResolved (lookup (codes "hostname") s.errors) form.hostname)
        (cons-AreResolved _ _ (selects-IsResolved providers menus s.errors form) (
          nodes-AreResolved (blurb schema.description ++ fields) rest
            (nodes-AreResolved (blurb schema.description) fields
              (blurb-AreResolved _ schema.description)
              (properties-AreResolved upper number_of configures schema.required config_errors
                form.provider_config schema.properties))
            (cons-AreResolved _ _ (enable-IsResolved form.enabled)
              (alert-AreResolved _ (alert_of s.form_error config_errors)))))

  pub domain-IsResolved :
      (is_open editing : Bool) (providers : List Provider) (schema : JsonSchema) (menus : Menus)
      (s : FormErrors) (form : DomainFormValue)
      → IsResolved
          (domain_modal upper number_of title_id is_open editing providers schema menus s form)
  unfolding domain_modal
  domain-IsResolved is_open editing providers schema menus s form =
      modal-IsResolved _ _ _ refl (domain_body-AreResolved providers schema menus s form)
        (footer-AreResolved (if editing then "Save Changes" else "Add Domain") s.saving close save)
