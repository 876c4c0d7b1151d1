-- ===== src/Markup/Dialogs.antt =====
-- frontend/src/components/Modal.tsx and ConfirmModal.tsx.
use tether_ddns.Prelude.{
  String, Bool, not, Option, none, some, List, [], ◌∷◌, ◌++◌, map, if◌then◌else◌,
}
use tether_ddns.Prelude.Text.{Text, lit}
use tether_ddns.App.Copy.{Span, plain, strong, code}
use tether_ddns.Html.{
  Attr, attr, flag, on, on_self, on_key, Html, text_node, element, Nodes, nil, cons, nodes, words,
  flag_if, attr_if, class, ◌⧺◌,
}
use tether_ddns.Markup.Widgets.{plain_button, icon_button}

-- The properties of a modal. `title_id` is what `useId` returns.
pub record ModalProps (E : Type 0) : Type 0 where
  pub title_id : String
  pub is_open : Bool
  pub title : Text
  pub on_close : E
  pub footer : Option (Nodes E)

-- What the user does with the dialog that asks: a click on a button, or nothing, where the dialog
-- cannot be closed.
pub data ConfirmEvent : Type 0 where
  confirmed cancelled nothing : ConfirmEvent

module _ {E : Type 0} where
  abbrev pub footer_of : Option (Nodes E) → List (Html E)
  footer_of none = []
  footer_of (some f) = element "div" (class "modal-foot" ∷ []) f ∷ []

  -- The overlay catches what is clicked or pressed outside the dialog.
  abbrev pub overlay_attrs : ModalProps E → List (Attr E)
  overlay_attrs p =
      class ("modal-overlay" ⧺ (if p.is_open then " open" else ""))
        ∷ flag_if (not p.is_open) "inert"
      ++ attr_if "aria-hidden" (if p.is_open then none else some "true")
      ++ on_self "click" p.on_close ∷ on_key "Escape" p.on_close ∷ []

  unfoldable pub modal_head : ModalProps E → Html E
  unfolding icon_button
  modal_head p = element "div" (class "modal-head" ∷ []) (
      nodes (
        element "h3" (attr "id" p.title_id ∷ []) (nodes (text_node p.title ∷ []))
        ∷ icon_button (plain_button "Close" p.on_close) nil
        ∷ []))

  abbrev pub dialog : ModalProps E → Nodes E → Html E
  dialog p children =
      element "div"
        (class "modal"
          ∷ attr "role" "dialog"
          ∷ attr "aria-modal" "true"
          ∷ attr "aria-labelledby" p.title_id
          ∷ attr "tabindex" "-1"
          ∷ [])
        (cons (modal_head p)
          (cons (element "div" (class "modal-body" ∷ []) children) (nodes (footer_of p.footer))))

  unfoldable pub modal : ModalProps E → Nodes E → Html E
  unfolding modal_head
  modal p children = element "div" (overlay_attrs p) (nodes (dialog p children ∷ []))

  abbrev pub span_html : Span → Html E
  span_html (plain s) = words s
  span_html (strong s) = element "strong" [] (nodes (words s ∷ []))
  span_html (code s) = element "code" [] (nodes (words s ∷ []))

-- `close`: a delete in flight cannot be abandoned halfway.
abbrev pub close_event : Bool → ConfirmEvent
close_event busy = if busy then nothing else cancelled

abbrev confirm_footer : String → Bool → Nodes ConfirmEvent
confirm_footer label busy = nodes (
    element "button"
      (attr "type" "button"
          ∷ class "btn btn-ghost"
          ∷ flag "data-autofocus"
          ∷ flag_if busy "disabled"
        ++ on "click" cancelled ∷ [])
      (nodes (words "Cancel" ∷ []))
    ∷ element "button"
        (attr "type" "button" ∷ class "btn btn-danger" ∷ flag_if busy "disabled"
          ++ on "click" confirmed ∷ [])
        (nodes (words label ∷ []))
    ∷ [])

unfoldable pub confirm_modal :
    String → Bool → String → String → Bool → List Span → Html ConfirmEvent
unfolding modal
confirm_modal title_id is_open title label busy body =
    modal
      (record {
        title_id = title_id;
        is_open = is_open;
        title = lit title ∷ [];
        on_close = close_event busy;
        footer = some (confirm_footer label busy);
      })
      (nodes (element "p" (class "confirm-msg" ∷ []) (nodes (map span_html body)) ∷ []))
