-- ===== src/Markup/Alarms.antt =====
-- The errors that the forms show (`hb-error` under frontend/src/components).
use mathlib.Core.List.{append_assoc, append-nil}
use tether_ddns.Prelude.{
  ◌≡◌, refl, sym, ◌∙◌, String, Bool, true, false, Option, none, some, List, [], ◌∷◌, ◌++◌, map, any,
  if◌then◌else◌, ◌==◌, string_eq, arith, Bool-cases, inl, inr,
}
use text.Mathlib.Text.{◌==◌ as text_beq}
use tether_ddns.Prelude.Text.{Text, lit}
use tether_ddns.FormErrors.{truthy}
use tether_ddns.Html.{
  Attr, Html, text_node, element, Nodes, nil, cons, nodes, values, shown_texts_in,
}
use tether_ddns.Markup.Widgets.{
  SelectEvent, SelectOption, select, field_help, native_option, menu_option, icon_button,
}
use tether_ddns.Markup.Dialogs.{ModalProps, modal, modal_head}
use tether_ddns.Markup.Modals.{alert_html, blurb, form_footer, select_props, select_field}

abbrev is_alarm : {E : Type 0} → List (Attr E) → Bool
is_alarm attrs = any (λ c. c == "field-help hb-error") (values "class" attrs)

-- The texts of the elements that are marked as errors, in their order.
abbrev mutual
  pub alarms : {E : Type 0} → Html E → List Text
  alarms (text_node t) = []
  alarms (element tag attrs children) =
      if is_alarm attrs then shown_texts_in children else alarms_in children

  pub alarms_in : {E : Type 0} → Nodes E → List Text
  alarms_in nil = []
  alarms_in (cons h hs) = alarms h ++ alarms_in hs

-- What is to be shown of an error: nothing if it is empty.
abbrev pub message : Option String → List Text
message none = []
message (some e) = if text_beq e "" then [] else (lit e ∷ []) ∷ []

module _ {E : Type 0} where
  -- An element without children shows nothing.
  pub void-alarms : (tag : String) (attrs : List (Attr E)) → alarms (element tag attrs nil) ≡ []
  void-alarms tag attrs = elim (Bool-cases (is_alarm attrs)) [
    | inl b ↦ rw b refl
    | inr b ↦ rw b refl
  ]

  pub alarms-append :
      (hs ks : List (Html E))
      → alarms_in (nodes (hs ++ ks)) ≡ alarms_in (nodes hs) ++ alarms_in (nodes ks)
  alarms-append [] ks = refl
  alarms-append (h ∷ hs) ks =
      rw (alarms-append hs ks)
        (sym (append_assoc (alarms h) (alarms_in (nodes hs)) (alarms_in (nodes ks))))

  pub alarms-map :
      {A : Type 0} (f : A → Html E) (xs : List A)
      → ((x : A) → alarms (f x) ≡ [])
      → alarms_in (nodes (map f xs)) ≡ []
  alarms-map f [] h = refl
  alarms-map f (x ∷ xs) h = rw (h x, alarms-map f xs h) refl

pub field_help-alarms :
    (E : Type 0) (id : String) (err children : Option String)
    → alarms_in (field_help {E = E} id err children) ≡ message err
unfolding field_help
field_help-alarms E id none none = refl
field_help-alarms E id none (some d) = ground arith
field_help-alarms E id (some e) children = elim (Bool-cases (text_beq e "")) [
  | inl b ↦ rw b refl
  | inr b ↦ rw b refl
]

pub alert-alarms :
    (E : Type 0) (a : Option String) → alarms_in (nodes (alert_html {E = E} a)) ≡ message a
alert-alarms E none = refl
alert-alarms E (some t) = ground arith

pub blurb-alarms : (E : Type 0) (a : Option String) → alarms_in (nodes (blurb {E = E} a)) ≡ []
blurb-alarms E none = refl
blurb-alarms E (some t) = ground arith

module _ {E : Type 0} where
  pub footer-alarms :
      (label : String) (saving : Bool) (cancel save : E)
      → alarms_in (form_footer label saving cancel save) ≡ []
  footer-alarms label true cancel save = refl
  footer-alarms label false cancel save = refl

  menu_option-alarms :
      (send : SelectEvent → E) (value : String) (o : SelectOption)
      → alarms (menu_option send value o) ≡ []
  menu_option-alarms send value o = elim (Bool-cases (o.value == value)) [
    | inl b ↦ rw b refl
    | inr b ↦ rw b refl
  ]

  select-alarms :
      (id help label value : String) (options : List SelectOption) (err : Option String)
      (is_open : Bool) (send : SelectEvent → E)
      → alarms (select (select_props id help label value options err) is_open send) ≡ []
  unfolding select
  select-alarms id help label value options err is_open send =
      let no_option = alarms-map (native_option {E = E}) options (λ o. refl) in
      let no_menu = alarms-map (menu_option send value) options (menu_option-alarms send value) in
      elim (Bool-cases is_open) [
        | inl o ↦ elim (Bool-cases (truthy err)) [
          | inl t ↦ rw (o, t, no_option, no_menu) refl
          | inr t ↦ rw (o, t, no_option, no_menu) refl
        ]
        | inr o ↦ elim (Bool-cases (truthy err)) [
          | inl t ↦ rw (o, t, no_option, no_menu) refl
          | inr t ↦ rw (o, t, no_option, no_menu) refl
        ]
      ]

  pub select_field-alarms :
      (id help label value : String) (options : List SelectOption) (err : Option String)
      (is_open : Bool) (send : SelectEvent → E)
      → alarms (select_field id help label value options err is_open send) ≡ message err
  unfolding select_field
  select_field-alarms id help label value options err is_open send =
      rw
        (
          select-alarms id help label value options err is_open send,
          field_help-alarms E help err none,
        )
        refl

  -- A modal shows the errors of what it holds.
  pub modal-alarms :
      (p : ModalProps E) (body footer : Nodes E)
      → p.footer ≡ some footer
      → alarms_in footer ≡ []
      → alarms (modal p body) ≡ alarms_in body
  unfolding modal modal_head icon_button
  modal-alarms p body footer e f = elim (Bool-cases p.is_open) [
    | inl b ↦ rw (b, e, f) (append-nil (alarms_in body ++ []) ∙ append-nil (alarms_in body))
    | inr b ↦ rw (b, e, f) (append-nil (alarms_in body ++ []) ∙ append-nil (alarms_in body))
  ]
