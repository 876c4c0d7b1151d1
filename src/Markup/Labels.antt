-- ===== src/Markup/Labels.antt =====
-- The labels and descriptions of the modals with a form.
use tether_ddns.Prelude.{
  ◌≡◌, refl, String, Bool, true, false, Option, none, some, List, [], ◌∷◌, string_eq, arith,
  Bool-cases, inl, inr, if◌then◌else◌, str_eq_code,
}
use tether_ddns.FormErrors.{truthy}
use tether_ddns.Html.{element, Nodes, cons, nodes, class, ids, ids_in, refs, refs_in, references}
use tether_ddns.Markup.Widgets.{
  SelectEvent, SelectOption, select, field_help, icon_button, native_option, menu_option,
}
use tether_ddns.Markup.Dialogs.{ModalProps, modal, modal_head, dialog, overlay_attrs, footer_of}
use tether_ddns.Markup.Modals.{
  select_field, select_props, field_label, alert_html, blurb, form_footer,
}
use tether_ddns.Markup.References.{field_help-values, field-IsResolved}
use tether_ddns.Markup.Resolve.{
  IsResolved, AreResolved, resolve-right, nil-AreResolved, refs-map, ids-map, quiet-AreResolved,
  cons-AreResolved, element-IsResolved,
}

module _ {E : Type 0} where
  overlay-references : (p : ModalProps E) → references (overlay_attrs p) ≡ []
  overlay-references p = elim (Bool-cases p.is_open) [ inl o ↦ rw o refl | inr c ↦ rw c refl ]

  parts-AreResolved :
      (p : ModalProps E) (body footer : Nodes E)
      → p.footer ≡ some footer
      → AreResolved body
      → AreResolved footer
      → AreResolved
          (cons (element "div" (class "modal-body" ∷ []) body) (nodes (footer_of p.footer)))
  parts-AreResolved p body footer e b f = rw e (
      cons-AreResolved _ _ (element-IsResolved "div" (class "modal-body" ∷ []) body refl b) (
        cons-AreResolved _ _ (element-IsResolved "div" (class "modal-foot" ∷ []) footer refl f)
          nil-AreResolved))

  dialog-IsResolved :
      (p : ModalProps E) (body footer : Nodes E)
      → p.footer ≡ some footer
      → AreResolved body
      → AreResolved footer
      → IsResolved (dialog p body)
  unfolding modal_head icon_button
  dialog-IsResolved p body footer e b f =
      let hs = cons (element "div" (class "modal-body" ∷ []) body) (nodes (footer_of p.footer)) in
      record {
        found = ground (
          arith,
          (string_eq.beq_iff p.title_id p.title_id).1 refl,
          resolve-right (p.title_id ∷ []) (ids_in hs) (refs_in hs)
              (parts-AreResolved p body footer e b f).found,
        );
      }

  -- A modal refers to nothing outside of it if what it holds refers to nothing outside of that.
  pub modal-IsResolved :
      (p : ModalProps E) (body footer : Nodes E)
      → p.footer ≡ some footer
      → AreResolved body
      → AreResolved footer
      → IsResolved (modal p body)
  unfolding modal
  modal-IsResolved p body footer e b f =
      element-IsResolved "div" (overlay_attrs p) (nodes (dialog p body ∷ [])) (overlay-references p)
        (cons-AreResolved _ _ (dialog-IsResolved p body footer e b f) nil-AreResolved)

  pub footer-AreResolved :
      (label : String) (saving : Bool) (cancel save : E)
      → AreResolved (form_footer label saving cancel save)
  footer-AreResolved label true cancel save = quiet-AreResolved _ refl
  footer-AreResolved label false cancel save = quiet-AreResolved _ refl

pub alert-AreResolved :
    (E : Type 0) (a : Option String) → AreResolved (nodes (alert_html {E = E} a))
alert-AreResolved E none = nil-AreResolved
alert-AreResolved E (some t) = quiet-AreResolved _ (ground arith)

pub blurb-AreResolved : (E : Type 0) (a : Option String) → AreResolved (nodes (blurb {E = E} a))
blurb-AreResolved E none = nil-AreResolved
blurb-AreResolved E (some t) = quiet-AreResolved _ (ground arith)

module _ {E : Type 0} (send : SelectEvent → E) where
  select-ids :
      (id help label value : String) (options : List SelectOption) (err : Option String)
      (is_open : Bool)
      → let h = select (select_props id help label value options err) is_open send in
        (ids h ≡ id ∷ []) × (refs h ≡ (if truthy err then help ∷ [] else []))
  unfolding select
  select-ids id help label value options err is_open =
      let no_id = ids-map (native_option {E = E}) options (λ o. refl) in
      let no_ref = refs-map (native_option {E = E}) options (λ o. refl) in
      let no_menu_id = ids-map (menu_option send value) options (λ o. refl) in
      let no_menu_ref = refs-map (menu_option send value) options (λ o. refl) in
      (ground (arith, no_id, no_menu_id), ground (arith, no_ref, no_menu_ref))

  pub select_field-IsResolved :
      (id help label value : String) (options : List SelectOption) (err : Option String)
      (is_open : Bool)
      → IsResolved (select_field id help label value options err is_open send)
  unfolding select_field
  select_field-IsResolved id help label value options err is_open =
      let (i, r) = select-ids id help label value options err is_open in
      let (rb, ib) = field_help-values E help err none in
      field-IsResolved id help (truthy err) (field_label id label)
        (select (select_props id help label value options err) is_open send)
        (field_help help err none) refl refl i r (ground (arith, ib)) rb
