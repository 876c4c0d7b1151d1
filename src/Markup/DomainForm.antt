-- ===== src/Markup/DomainForm.antt =====
-- What frontend/src/components/DomainModal.tsx renders. `schema` is that of the chosen provider, or
-- empty if there is none.
use tether_ddns.Prelude.{
  ℕ, String, Str, codes, Bool, Option, none, some, List, [], ◌∷◌, ◌++◌, map, str_eq_code, ℤ,
  if◌then◌else◌,
}
use tether_ddns.Prelude.Dict.{lookup}
use tether_ddns.Prelude.Text.{lit}
use tether_ddns.Types.{Provider}
use tether_ddns.FormErrors.{Errors, FormErrors, invalid_props, sub_errors, truthy}
use tether_ddns.Forms.{DomainFormValue}
use tether_ddns.Forms.Errors.{Config}
use tether_ddns.Forms.Schema.{JsonSchema}
use tether_ddns.Forms.Domain
use tether_ddns.Html.{
  Attr, attr, on_value, on_checked, Html, element, nil, cons, nodes, words, flag_if, class,
}
use tether_ddns.Markup.Widgets.{SelectOption, SelectEvent, field_help}
use tether_ddns.Markup.Dialogs.{ModalProps, modal}
use tether_ddns.Markup.Fields.{invalid_attrs, schema_form}
use tether_ddns.Markup.Modals.{alert_of, alert_html, blurb, form_footer, field_label, select_field}

abbrev pub provider_option : Provider → SelectOption
provider_option p = record { value = p.key; label = p.display_name }

abbrev pub record_types : List SelectOption
record_types =
    record { value = "A"; label = "A (IPv4)" }
    ∷ record { value = "AAAA"; label = "AAAA (IPv6)" }
    ∷ []

-- What the user does with the form of a domain.
pub data DomainEvent : Type 0 where
  close save : DomainEvent
  update : Domain.Patch → DomainEvent
  with_provider with_type : SelectEvent → DomainEvent
  configures : Config → DomainEvent

-- The menus of a form that are open.
pub record Menus : Type 0 where
  pub first : Bool
  pub second : Bool

abbrev pub hostname_attrs : Option String → String → List (Attr DomainEvent)
hostname_attrs err hostname =
    attr "id" "fHostname"
      ∷ attr "type" "text"
      ∷ attr "placeholder" "home.example.com"
      ∷ attr "autocomplete" "off"
      ∷ attr "value" hostname
      ∷ invalid_attrs (invalid_props err "fHostname-help" (truthy err))
    ++ on_value (λ v. update (Domain.hostname v)) ∷ []

abbrev pub hostname_field : Option String → String → Html DomainEvent
hostname_field err hostname = element "div" (class "field" ∷ []) (
    cons (field_label "fHostname" "Hostname / FQDN") (
      cons (element "input" (hostname_attrs err hostname) nil)
        (field_help "fHostname-help" err none)))

abbrev pub enable_row : Bool → Html DomainEvent
enable_row enabled = element "div" (class "switch-row" ∷ []) (
    nodes (
      element "div" (class "sr-text" ∷ []) (
        nodes (
          element "div" (class "t" ∷ []) (nodes (words "Enable auto-update" ∷ []))
          ∷ element "div" (class "d" ∷ [])
              (nodes (words "Automatically sync this record on IP change" ∷ []))
          ∷ []))
      ∷ element "label" (class "switch" ∷ []) (
          nodes (
            element "input"
              (attr "type" "checkbox" ∷ flag_if enabled "checked"
                ++ on_checked (λ b. update (Domain.enabled b)) ∷ [])
              nil
            ∷ element "span" (class "slider" ∷ []) nil
            ∷ []))
      ∷ []))

abbrev pub domain_selects : List Provider → Menus → Errors → DomainFormValue → Html DomainEvent
domain_selects providers menus errors form = element "div" (class "field-row" ∷ []) (
    nodes (
      select_field "fProvider" "fProvider-help" "DNS Provider" form.provider
        (map provider_option providers) (lookup (codes "provider") errors) menus.first with_provider
      ∷ select_field "fType" "fType-help" "Record Type" form.record_type record_types
          (lookup (codes "record_type") errors) menus.second with_type
      ∷ []))

module _ (upper : ℕ → Str) (number_of : String → ℤ) (title_id : String) where
  abbrev pub domain_props : Bool → Bool → FormErrors → ModalProps DomainEvent
  domain_props is_open editing s = record {
    title_id = title_id;
    is_open = is_open;
    title = lit (if editing then "Edit Domain" else "Add Domain") ∷ [];
    on_close = close;
    footer =
        some (form_footer (if editing then "Save Changes" else "Add Domain") s.saving close save);
  }

  abbrev pub domain_body :
      List Provider → JsonSchema → Menus → FormErrors → DomainFormValue → List (Html DomainEvent)
  domain_body providers schema menus s form =
      let config_errors = sub_errors s.errors (codes "provider_config") in
      hostname_field (lookup (codes "hostname") s.errors) form.hostname
        ∷ domain_selects providers menus s.errors form
        ∷ blurb schema.description
      ++ schema_form upper number_of configures schema config_errors form.provider_config
      ++ enable_row form.enabled ∷ alert_html (alert_of s.form_error config_errors)

  unfoldable pub domain_modal :
      Bool
      → Bool
      → List Provider
      → JsonSchema
      → Menus
      → FormErrors
      → DomainFormValue
      → Html DomainEvent
  unfolding modal select_field field_help schema_form sub_errors invalid_props
  domain_modal is_open editing providers schema menus s form =
      modal (domain_props is_open editing s) (nodes (domain_body providers schema menus s form))
