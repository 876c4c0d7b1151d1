-- ===== src/Markup/Reach.antt =====
-- What the user can reach on the page of frontend/src/App.tsx, with its shell and its modals.
use tether_ddns.Prelude.Text.{Text}
use tether_ddns.Prelude.{◌≡◌, refl, Bool, false, List, [], ◌∷◌, if◌then◌else◌}
use tether_ddns.FormErrors.{FormErrors}
use tether_ddns.App.{
  App, overview, domains_view, hooks_view, healthchecks, logs, settings_view, about,
}
use tether_ddns.Html.{Nodes, live}
use tether_ddns.Markup.Dialogs.{ModalProps, modal, ConfirmEvent, confirmed, cancelled, close_event}
use tether_ddns.Markup.Page.{ShellActions}

-- The actions of the shell itself, in the order of the page.
abbrev pub shell_actions : {E : Type 0} → ShellActions E → List E
shell_actions a =
    a.select overview
    ∷ a.select domains_view
    ∷ a.select hooks_view
    ∷ a.select healthchecks
    ∷ a.select logs
    ∷ a.select settings_view
    ∷ a.select about
    ∷ a.resize
    ∷ a.close_rail
    ∷ a.toggle_rail
    ∷ a.refresh
    ∷ a.toggle_theme
    ∷ []

module _ {E : Type 0} where
  modal-shut : (p : ModalProps E) (body : Nodes E) → p.is_open ≡ false → live (modal p body) ≡ []
  unfolding modal
  modal-shut p body h = rw h refl

-- What the dialog that asks lets the user do: closing it by its button, by Escape or by a click outside,
-- and its two buttons.
abbrev pub confirm_offers : Bool → List ConfirmEvent
confirm_offers busy =
    close_event busy
    ∷ close_event busy
    ∷ close_event busy
    ∷ (if busy then [] else cancelled ∷ confirmed ∷ [])
