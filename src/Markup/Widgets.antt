-- ===== src/Markup/Widgets.antt =====
-- frontend/src/components/IconButton.tsx, FieldHelp.tsx, Select.tsx, Toasts.tsx, SectionHeader.tsx,
-- EmptyState.tsx and ConnectionOverlay.tsx. Drawings are left out of what they stand in.
use tether_ddns.Prelude.{
  String, Bool, true, false, not, Option, none, some, List, [], ◌∷◌, ◌++◌, map, find?, ◌==◌,
  string_eq, if◌then◌else◌,
}
use text.Mathlib.Text.{◌==◌ as text_beq}
use tether_ddns.LiveConnection.State.{ConnectionStatus, connecting, opened, reconnecting}
use tether_ddns.FormErrors.{truthy}
use tether_ddns.App.{ToastItem, ToastKind, success, error, info}
use tether_ddns.Html.{
  attr, on, on_key, on_value, Html, text_node, element, Nodes, nil, nodes, words, flag_if, attr_if,
  class, ◌⧺◌,
}

abbrev pub bool_text : Bool → String
bool_text true = "true"
bool_text false = "false"

-- What an icon button is given.
pub record IconButton (E : Type 0) : Type 0 where
  pub label : String
  pub on_click : E
  pub is_act : Bool
  pub danger : Bool
  pub disabled : Bool
  pub expanded : Option Bool
  pub class_name : String

-- The defaults of the optional properties.
abbrev pub plain_button : {E : Type 0} → String → E → IconButton E
plain_button label e = record {
  label = label;
  on_click = e;
  is_act = false;
  danger = false;
  disabled = false;
  expanded = none;
  class_name = "";
}

abbrev bool_attr : Option Bool → Option String
bool_attr none = none
bool_attr (some b) = some (bool_text b)

-- An option of a `Select`.
pub record SelectOption : Type 0 where
  pub value : String
  pub label : String

-- What the user does with a `Select`: the menu opens or closes at a click on the trigger, closes at
-- Escape or a click elsewhere, and an option is chosen in the menu or in the native element.
pub data SelectEvent : Type 0 where
  toggles closes : SelectEvent
  chooses picks : String → SelectEvent

pub record SelectProps : Type 0 where
  pub id : Option String
  pub value : String
  pub options : List SelectOption
  pub aria_label : Option String
  pub invalid : Bool
  pub described_by : Option String

-- The state `open`, and the value that is handed to `onChange`, if any.
unfoldable pub select_step : SelectEvent → Bool → Bool × Option String
select_step toggles is_open = (not is_open, none)
select_step closes is_open = (false, none)
select_step (chooses v) is_open = (false, some v)
select_step (picks v) is_open = (is_open, some v)

abbrev pub label_or_empty : Option SelectOption → String
label_or_empty none = ""
label_or_empty (some o) = o.label

abbrev status_label : ConnectionStatus → String
status_label connecting = "Connecting…"
status_label opened = "Reconnecting…"
status_label reconnecting = "Reconnecting…"

abbrev toast_tint : ToastKind → String
toast_tint success = "tint-ok"
toast_tint error = "tint-err"
toast_tint info = "tint-accent"

-- `error ?? children`
abbrev pub help_text : Option String → Option String → Option String
help_text none children = children
help_text (some e) children = some e

module _ {E : Type 0} where
  unfoldable pub icon_button : IconButton E → Nodes E → Html E
  icon_button b children =
      let look : String = if b.is_act then "act-btn" else "icon-btn" in
      let danger : String = if b.danger then " danger" else "" in
      let more : String = if text_beq b.class_name "" then "" else " " ⧺ b.class_name in
      element "button"
        (attr "type" "button"
            ∷ class (look ⧺ danger ⧺ more)
            ∷ attr "title" b.label
            ∷ attr "aria-label" b.label
            ∷ attr_if "aria-expanded" (bool_attr b.expanded)
          ++ on "click" b.on_click ∷ flag_if b.disabled "disabled")
        children

  unfoldable pub field_help : String → Option String → Option String → Nodes E
  field_help id err children = elim (help_text err children) [
    | none ↦ nil
    | some t ↦
        if text_beq t ""
        then nil
        else nodes (
            element "div"
              (attr "id" id ∷ class ("field-help" ⧺ (if truthy err then " hb-error" else "")) ∷ [])
              (nodes (words t ∷ []))
            ∷ [])
  ]

  abbrev pub native_option : SelectOption → Html E
  native_option o = element "option" (attr "value" o.value ∷ []) (nodes (words o.label ∷ []))

  abbrev pub menu_option : (SelectEvent → E) → String → SelectOption → Html E
  menu_option send value o =
      element "button"
        (attr "type" "button"
          ∷ class ("cs-option" ⧺ (if o.value == value then " sel" else ""))
          ∷ on "click" (send (chooses o.value))
          ∷ [])
        (nodes (
          element "span" [] (nodes (words o.label ∷ []))
          ∷ element "span" (class "cs-check" ∷ []) nil
          ∷ []))

  -- Escape closes an open menu and goes no further.
  unfoldable pub select : SelectProps → Bool → (SelectEvent → E) → Html E
  select p is_open send =
      element "div"
        (class ("cs" ⧺ (if is_open then " open" else ""))
          ∷ (if is_open then on_key "Escape" (send closes) ∷ [] else []))
        (nodes (
          element "select"
            (class "cs-native" ∷ attr_if "id" p.id
              ++ attr_if "aria-label" p.aria_label
              ++ attr_if "aria-invalid" (if p.invalid then some "true" else none)
              ++ attr_if "aria-describedby" p.described_by
              ++ attr "value" p.value ∷ attr "tabindex" "-1" ∷ on_value (λ v. send (picks v)) ∷ [])
            (nodes (map native_option p.options))
          ∷ element "button"
              (attr "type" "button"
                ∷ class ("cs-trigger" ⧺ (if p.invalid then " field-invalid" else ""))
                ∷ attr "aria-hidden" "true"
                ∷ attr "tabindex" "-1"
                ∷ on "click" (send toggles)
                ∷ [])
              (nodes (
                element "span" (class "cs-label" ∷ []) (
                  nodes (
                    words
                      (label_or_empty (find? (λ (o : SelectOption). o.value == p.value) p.options))
                    ∷ []))
                ∷ element "span" (class "cs-caret" ∷ []) nil
                ∷ []))
          ∷ element "div" (class "cs-menu" ∷ attr "role" "listbox" ∷ attr "aria-hidden" "true" ∷ [])
              (nodes (map (menu_option send p.value) p.options))
          ∷ []))

  abbrev toast : ToastItem → Html E
  toast t = element "div" (class "toast" ∷ []) (
      nodes (
        element "span" (class ("t-ico " ⧺ toast_tint t.kind) ∷ []) nil
        ∷ element "span" (class "t-msg" ∷ []) (nodes (text_node t.message ∷ []))
        ∷ []))

  unfoldable pub toasts_markup : List ToastItem → Html E
  toasts_markup toasts = element "div" (class "toast-wrap" ∷ []) (nodes (map toast toasts))

  unfoldable pub connection_overlay : ConnectionStatus → Bool → Html E
  connection_overlay status visible =
      element "div"
        (class ("conn-overlay" ⧺ (if visible then " conn-open" else ""))
          ∷ attr "aria-hidden" (bool_text (not visible))
          ∷ [])
        (nodes (
          element "div" (class "conn-card" ∷ []) (
            nodes (
              element "span" (class "conn-spinner" ∷ []) nil
              ∷ element "span"
                  (class "conn-label" ∷ attr "role" "status" ∷ attr "aria-live" "polite" ∷ [])
                  (nodes (words (if visible then status_label status else "") ∷ []))
              ∷ []))
          ∷ []))
