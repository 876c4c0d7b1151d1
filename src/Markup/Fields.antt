-- ===== src/Markup/Fields.antt =====
-- The fields that frontend/src/components/SchemaForm.tsx makes of a schema.
use tether_ddns.Prelude.{
  ℕ, String, Str, codes, Bool, Option, none, some, List, [], ◌∷◌, ◌++◌, map, any, all, length, ltb,
  ◌==◌, string_eq, str_eq_code, ℤ, if◌then◌else◌,
}
use tether_ddns.Prelude.Dict.{lookup}
use tether_ddns.Prelude.Text.{chars}
use text.Mathlib.Text.{◌==◌ as text_beq}
use tether_ddns.Types.{Value, boolean}
use tether_ddns.FormErrors.{Errors, InvalidProps, invalid_props, truthy}
use tether_ddns.Forms.Errors.{Config, set_value}
use tether_ddns.Forms.Schema.{
  Choice, SchemaProperty, JsonSchema, is, InputType, password_input, number_input, text_input,
  input_type, shown, truthy_value, choice_text, is_number, label_of, option_text, choices_or,
  typed_value, chosen_value,
}
use tether_ddns.Html.{
  Attr, attr, attr_text, on_value, on_checked, Html, text_node, element, nil, cons, nodes, words,
  flag_if, attr_if, class, ◌⧺◌,
}
use tether_ddns.Markup.Widgets.{field_help, help_text, bool_text}

abbrev type_text : InputType → String
type_text password_input = "password"
type_text number_input = "number"
type_text text_input = "text"

abbrev pub field_id : String → String
field_id key = "sf-" ⧺ key

abbrev pub help_id : String → String
help_id key = "sf-" ⧺ key ⧺ "-help"

abbrev true_text : Option Bool → Option String
true_text none = none
true_text (some b) = some (bool_text b)

-- `required.has(key)`
abbrev pub is_required : List String → String → Bool
is_required required key = any (λ r. r == key) required

abbrev pub is_switch : SchemaProperty → Bool
is_switch prop = is prop.type_name "boolean"

module _ {E : Type 0} where
  abbrev pub invalid_attrs : InvalidProps → List (Attr E)
  invalid_attrs p =
      attr_if "class" p.class_name
      ++ attr_if "aria-invalid" (true_text p.aria_invalid)
      ++ attr_if "aria-describedby" p.aria_described_by

  abbrev pub description_of : Option String → List (Html E)
  description_of none = []
  description_of (some d) =
      if text_beq d "" then [] else element "div" (class "d" ∷ []) (nodes (words d ∷ [])) ∷ []

  -- `labelEl`
  abbrev pub label_html : List String → String → SchemaProperty → Html E
  label_html required key prop = element "label" (attr "for" (field_id key) ∷ []) (
      cons (words (label_of key prop.title)) (
        if is_required required key
        then cons
            (element "span" (class "req" ∷ attr "aria-hidden" "true" ∷ []) (cons (words "*") nil))
            nil
        else nil))

  abbrev pub value_attrs : Option Value → (String → E) → List (Attr E)
  value_attrs current change = attr_text "value" (chars (shown current) ∷ []) ∷ on_value change ∷ []

  -- `decorate`
  unfoldable pub decorate : List String → Option String → String → SchemaProperty → List (Attr E)
  unfolding invalid_props
  decorate required err key prop =
      invalid_attrs (invalid_props err (help_id key) (truthy (help_text err prop.description)))
      ++ attr_if "aria-required" (if is_required required key then some "true" else none)

module _ {E : Type 0} (upper : ℕ → Str) (number_of : String → ℤ) (send : Config → E) where
  abbrev pub switch_row : Config → String → SchemaProperty → Html E
  switch_row value key prop = element "div" (class "switch-row" ∷ []) (
      nodes (
        element "div" (class "sr-text" ∷ []) (
          nodes (
            element "div" (class "t" ∷ []) (nodes (words (label_of key prop.title) ∷ []))
            ∷ description_of prop.description))
        ∷ element "label" (class "switch" ∷ []) (
            nodes (
              element "input"
                (attr "type" "checkbox"
                    ∷ attr "aria-label" (label_of key prop.title)
                    ∷ flag_if (truthy_value (lookup key value)) "checked"
                  ++ on_checked (λ b. send (set_value key (boolean b) value)) ∷ [])
                nil
              ∷ element "span" (class "slider" ∷ []) nil
              ∷ []))
        ∷ []))

  abbrev pub option_html : List (Str × String) → Choice → Html E
  option_html labels c =
      element "option" (attr_text "value" (chars (choice_text c) ∷ []) ∷ [])
        (nodes (text_node (chars (option_text upper labels c).1 ∷ []) ∷ []))

  abbrev pub choice_html :
      List String → Option String → Config → String → SchemaProperty → List Choice → Html E
  choice_html required err value key prop choices =
      element "select"
        (attr "id" (field_id key)
            ∷ attr "aria-label" (label_of key prop.title)
            ∷ decorate required err key prop
          ++ value_attrs (lookup key value) (λ raw.
            send (set_value key (chosen_value number_of (all is_number choices) raw) value)))
        (nodes (map (option_html prop.labels) choices))

  abbrev pub input_attrs :
      List String → Option String → Config → String → SchemaProperty → List (Attr E)
  input_attrs required err value key prop =
      attr "id" (field_id key)
        ∷ attr "type" (type_text (input_type prop))
        ∷ attr "aria-label" (label_of key prop.title)
        ∷ decorate required err key prop
      ++ value_attrs (lookup key value)
          (λ raw. send (set_value key (typed_value number_of (input_type prop) raw) value))

  abbrev pub input_html : List String → Option String → Config → String → SchemaProperty → Html E
  input_html required err value key prop =
      element "input" (input_attrs required err value key prop) nil

  unfoldable pub property_html : List String → Errors → Config → String → SchemaProperty → Html E
  unfolding decorate input_type field_help
  property_html required errors value key prop =
      let err = lookup (codes key) errors in
      let choices = choices_or prop.choices in
      if is_switch prop
      then switch_row value key prop
      else element "div" (class "field" ∷ []) (
          cons (label_html required key prop) (
            cons
              (if ltb 0 (length choices)
                then choice_html required err value key prop choices
                else input_html required err value key prop)
              (field_help (help_id key) err prop.description)))

  abbrev pub properties_html :
      List String → Errors → Config → List (String × SchemaProperty) → List (Html E)
  properties_html required errors value [] = []
  properties_html required errors value ((key, prop) ∷ entries) =
      property_html required errors value key prop ∷ properties_html required errors value entries

  unfoldable pub schema_form : JsonSchema → Errors → Config → List (Html E)
  unfolding property_html
  schema_form schema errors value = properties_html schema.required errors value schema.properties
