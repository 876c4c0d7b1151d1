-- ===== src/Markup/References.antt =====
-- What labels and describes the fields: each id that an element of a form refers to is the id of an
-- element of the same form.
use tether_ddns.Prelude.{
  ℕ, ◌≡◌, refl, String, Str, codes, Bool, true, false, Option, none, some, List, [], ◌∷◌, ◌++◌, all,
  length, ltb, string_eq, ℤ, arith, Bool-cases, Option-cases, inl, inr, if◌then◌else◌, str_eq_code,
}
use tether_ddns.Prelude.Dict.{lookup}
use tether_ddns.FormErrors.{Errors, invalid_props, truthy}
use tether_ddns.Forms.Errors.{Config, set_value}
use tether_ddns.Forms.Schema.{
  SchemaProperty, input_type, choices_or, Choice, typed_value, chosen_value, is_number,
}
use tether_ddns.Html.{
  Attr, Html, element, Nodes, cons, nodes, class, values, ids, ids_in, refs, refs_in,
}
use tether_ddns.Markup.Widgets.{field_help, help_text}
use tether_ddns.Markup.Fields.{
  invalid_attrs, decorate, property_html, help_id, field_id, is_switch, value_attrs, label_html,
  description_of, switch_row, input_html, choice_html, option_html, properties_html,
}
use tether_ddns.Markup.Resolve.{
  IsResolved, AreResolved, nil-AreResolved, refs-map, ids-map, quiet-IsResolved, if-IsResolved,
  cons-AreResolved,
}

pub invalid-values :
    {E : Type 0} (err : Option String) (help : String) (shows : Bool) (rest : List (Attr E))
    → let attrs = invalid_attrs (invalid_props err help shows) ++ rest in
      (values "id" attrs ≡ values "id" rest)
      × (values "for" attrs ≡ values "for" rest)
      × (values "aria-labelledby" attrs ≡ values "aria-labelledby" rest)
      × (values "aria-describedby" attrs
          ≡ (if shows then help ∷ [] else []) ++ values "aria-describedby" rest)
unfolding invalid_props
invalid-values err help shows rest = (ground arith, ground arith, ground arith, ground arith)

decorate-values :
    {E : Type 0} (required : List String) (err : Option String) (key : String)
    (prop : SchemaProperty) (rest : List (Attr E))
    → let attrs = decorate required err key prop ++ rest in
      (values "id" attrs ≡ values "id" rest)
      × (values "for" attrs ≡ values "for" rest)
      × (values "aria-labelledby" attrs ≡ values "aria-labelledby" rest)
      × (values "aria-describedby" attrs
          ≡ (if truthy (help_text err prop.description) then help_id key ∷ [] else [])
            ++ values "aria-describedby" rest)
unfolding decorate invalid_props
decorate-values required err key prop rest =
    (ground arith, ground arith, ground arith, ground arith)

pub field_help-values :
    (E : Type 0) (id : String) (err children : Option String)
    → (refs_in (field_help {E = E} id err children) ≡ [])
      × (ids_in (field_help {E = E} id err children)
          ≡ (if truthy (help_text err children) then id ∷ [] else []))
unfolding field_help
field_help-values E id err children = elim (Option-cases (help_text err children)) [
  | inl e ↦ ground arith
  | inr (t, e) ↦ ground arith
]

pub field-IsResolved :
    {E : Type 0} (id help : String) (shows : Bool) (label control : Html E) (below : Nodes E)
    → ids label ≡ []
    → refs label ≡ id ∷ []
    → ids control ≡ id ∷ []
    → refs control ≡ (if shows then help ∷ [] else [])
    → ids_in below ≡ (if shows then help ∷ [] else [])
    → refs_in below ≡ []
    → IsResolved (element "div" (class "field" ∷ []) (cons label (cons control below)))
field-IsResolved id help true label control below il rl ic rc ib rb = record {
  found =
      rw (il, rl, ic, rc, ib, rb)
        (ground (arith, (string_eq.beq_iff id id).1 refl, (string_eq.beq_iff help help).1 refl));
}
field-IsResolved id help false label control below il rl ic rc ib rb = record {
  found = rw (il, rl, ic, rc, ib, rb) (ground (arith, (string_eq.beq_iff id id).1 refl));
}

description-refs :
    (E : Type 0) (d : Option String) → refs_in (nodes (description_of {E = E} d)) ≡ []
description-refs E none = refl
description-refs E (some d) = ground arith

label-refs :
    (E : Type 0) (required : List String) (key : String) (prop : SchemaProperty)
    → let h = label_html {E = E} required key prop in (ids h ≡ []) × (refs h ≡ field_id key ∷ [])
label-refs E required key prop = (ground arith, ground arith)

module _ {E : Type 0} (upper : ℕ → Str) (number_of : String → ℤ) (send : Config → E) where
  switch-refs :
      (value : Config) (key : String) (prop : SchemaProperty)
      → refs (switch_row upper number_of send value key prop) ≡ []
  switch-refs value key prop = ground (arith, description-refs E prop.description)

  input-ids :
      (required : List String) (err : Option String) (value : Config) (key : String)
      (prop : SchemaProperty)
      → let h = input_html upper number_of send required err value key prop in
        (ids h ≡ field_id key ∷ [])
        × (refs h ≡ (if truthy (help_text err prop.description) then help_id key ∷ [] else []))
  input-ids required err value key prop =
      let (i, f, l, d) = decorate-values required err key prop (
        value_attrs (lookup key value)
          (λ raw. send (set_value key (typed_value number_of (input_type prop) raw) value))) in
      (rw i refl, rw (f, l, d) (ground arith))

  choice-ids :
      (required : List String) (err : Option String) (value : Config) (key : String)
      (prop : SchemaProperty) (choices : List Choice)
      → let h = choice_html upper number_of send required err value key prop choices in
        (ids h ≡ field_id key ∷ [])
        × (refs h ≡ (if truthy (help_text err prop.description) then help_id key ∷ [] else []))
  choice-ids required err value key prop choices =
      let (i, f, l, d) = decorate-values required err key prop (
        value_attrs (lookup key value) (λ raw.
          send (set_value key (chosen_value number_of (all is_number choices) raw) value))) in
      let option = option_html {E = E} upper number_of send prop.labels in
      (
        rw (i, ids-map option choices (λ c. refl)) refl,
        rw (f, l, d, refs-map option choices (λ c. refl)) (ground arith),
      )

  property_field-IsResolved :
      (required : List String) (errors : Errors) (key : String) (prop : SchemaProperty)
      (control : Html E)
      → ids control ≡ field_id key ∷ []
      → refs control ≡ (
          if truthy (help_text (lookup (codes key) errors) prop.description)
          then help_id key ∷ []
          else [])
      → IsResolved (
          element "div" (class "field" ∷ []) (
            cons (label_html required key prop) (
              cons control
                (field_help (help_id key) (lookup (codes key) errors) prop.description))))
  property_field-IsResolved required errors key prop control ic rc =
      let err = lookup (codes key) errors in
      let (il, rl) = label-refs E required key prop in
      let (rb, ib) = field_help-values E (help_id key) err prop.description in
      field-IsResolved (field_id key) (help_id key) (truthy (help_text err prop.description))
        (label_html required key prop) control (field_help (help_id key) err prop.description) il rl
        ic rc ib rb

  property-IsResolved :
      (required : List String) (errors : Errors) (value : Config) (key : String)
      (prop : SchemaProperty)
      → IsResolved (property_html upper number_of send required errors value key prop)
  unfolding property_html
  property-IsResolved required errors value key prop =
      let err = lookup (codes key) errors in
      let choices = choices_or prop.choices in
      let (ci, cr) = choice-ids required err value key prop choices in
      let (ii, ir) = input-ids required err value key prop in
      let is_choice = ltb 0 (length choices) in
      let choice = choice_html upper number_of send required err value key prop choices in
      let input = input_html upper number_of send required err value key prop in
      if-IsResolved (is_switch prop) _ _
        (quiet-IsResolved (switch_row upper number_of send value key prop)
          (switch-refs value key prop))
        (property_field-IsResolved required errors key prop (if is_choice then choice else input)
          (elim (Bool-cases is_choice) [ inl c ↦ rw c ci | inr c ↦ rw c ii ])
          (elim (Bool-cases is_choice) [ inl c ↦ rw c cr | inr c ↦ rw c ir ]))

  pub properties-AreResolved :
      (required : List String) (errors : Errors) (value : Config)
      (entries : List (String × SchemaProperty))
      → AreResolved (nodes (properties_html upper number_of send required errors value entries))
  properties-AreResolved required errors value [] = nil-AreResolved
  properties-AreResolved required errors value ((key, prop) ∷ entries) =
      cons-AreResolved _ _ (property-IsResolved required errors value key prop)
        (properties-AreResolved required errors value entries)
