-- ===== src/Markup/Visible.antt =====
-- Which errors the fields of a schema show (frontend/src/components/SchemaForm.tsx).
use tether_ddns.Prelude.{
  ℕ, ◌≡◌, refl, String, Str, codes, Option, none, some, List, [], ◌∷◌, ◌++◌, all, length, ltb,
  string_eq, ℤ, arith, Bool-cases, inl, inr, if◌then◌else◌, str_eq_code,
}
use tether_ddns.Prelude.Dict.{lookup}
use tether_ddns.Prelude.Text.{Text}
use tether_ddns.FormErrors.{Errors, invalid_props, truthy}
use tether_ddns.Forms.Errors.{Config, set_value}
use tether_ddns.Forms.Schema.{SchemaProperty, choices_or, Choice, chosen_value, is_number}
use tether_ddns.Html.{Attr, nodes, values}
use tether_ddns.Markup.Fields.{
  decorate, property_html, help_id, value_attrs, is_switch, label_html, description_of, switch_row,
  input_html, input_attrs, choice_html, option_html, properties_html,
}
use tether_ddns.Markup.Alarms.{
  alarms, alarms_in, void-alarms, alarms-map, message, field_help-alarms,
}

-- The errors of the properties that are not switches, in the order of the properties.
abbrev pub property_messages : Errors → List (String × SchemaProperty) → List Text
property_messages errors [] = []
property_messages errors ((key, prop) ∷ entries) =
    (if is_switch prop then [] else message (lookup (codes key) errors))
    ++ property_messages errors entries

label-alarms :
    (E : Type 0) (required : List String) (key : String) (prop : SchemaProperty)
    → alarms (label_html {E = E} required key prop) ≡ []
label-alarms E required key prop = ground arith

description-alarms :
    (E : Type 0) (d : Option String) → alarms_in (nodes (description_of {E = E} d)) ≡ []
description-alarms E none = refl
description-alarms E (some t) = ground arith

decorate-classes :
    {E : Type 0} (required : List String) (err : Option String) (key : String)
    (prop : SchemaProperty) (rest : List (Attr E))
    → values "class" (decorate required err key prop ++ rest)
      ≡ (if truthy err then "field-invalid" ∷ [] else []) ++ values "class" rest
unfolding decorate invalid_props
decorate-classes required err key prop rest = ground arith

module _ {E : Type 0} (upper : ℕ → Str) (number_of : String → ℤ) (send : Config → E) where
  switch-alarms :
      (value : Config) (key : String) (prop : SchemaProperty)
      → alarms (switch_row upper number_of send value key prop) ≡ []
  switch-alarms value key prop = ground (arith, description-alarms E prop.description)

  choice-alarms :
      (required : List String) (err : Option String) (value : Config) (key : String)
      (prop : SchemaProperty) (choices : List Choice)
      → alarms (choice_html upper number_of send required err value key prop choices) ≡ []
  choice-alarms required err value key prop choices =
      let classes = decorate-classes required err key prop (
        value_attrs (lookup key value) (λ raw.
          send (set_value key (chosen_value number_of (all is_number choices) raw) value))) in
      let no_option =
        alarms-map (option_html {E = E} upper number_of send prop.labels) choices (λ c. refl) in
      elim (Bool-cases (truthy err)) [
        | inl t ↦ rw (classes, t, no_option) refl
        | inr t ↦ rw (classes, t, no_option) refl
      ]

  input-alarms :
      (required : List String) (err : Option String) (value : Config) (key : String)
      (prop : SchemaProperty)
      → alarms (input_html upper number_of send required err value key prop) ≡ []
  input-alarms required err value key prop =
      void-alarms "input" (input_attrs upper number_of send required err value key prop)

  -- Of the errors of a form, a field shows the one of its own property, if it is not empty; the row of
  -- a switch shows none.
  property-alarms :
      (required : List String) (errors : Errors) (value : Config) (key : String)
      (prop : SchemaProperty)
      → alarms (property_html upper number_of send required errors value key prop)
        ≡ (if is_switch prop then [] else message (lookup (codes key) errors))
  unfolding property_html
  property-alarms required errors value key prop =
      let err = lookup (codes key) errors in
      let choices = choices_or prop.choices in
      elim (Bool-cases (is_switch prop)) [
        | inl b ↦ rw b (switch-alarms value key prop)
        | inr b ↦ elim (Bool-cases (ltb 0 (length choices))) [
          | inl c ↦
              rw
                (
                  b,
                  c,
                  label-alarms E required key prop,
                  choice-alarms required err value key prop choices,
                  field_help-alarms E (help_id key) err prop.description,
                )
                refl
          | inr c ↦
              rw
                (
                  b,
                  c,
                  label-alarms E required key prop,
                  input-alarms required err value key prop,
                  field_help-alarms E (help_id key) err prop.description,
                )
                refl
        ]
      ]

  pub properties-alarms :
      (required : List String) (errors : Errors) (value : Config)
      (entries : List (String × SchemaProperty))
      → alarms_in (nodes (properties_html upper number_of send required errors value entries))
        ≡ property_messages errors entries
  properties-alarms required errors value [] = refl
  properties-alarms required errors value ((key, prop) ∷ entries) =
      rw
        (
          property-alarms required errors value key prop,
          properties-alarms required errors value entries,
        )
        refl
