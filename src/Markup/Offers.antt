-- ===== src/Markup/Offers.antt =====
-- What the user can do on the pages of the domains and of the hooks (frontend/src/views).
use mathlib.Core.List.{append-nil}
use tether_ddns.Prelude.{
  ℕ, ◌≡◌, refl, String, Str, List, [], ◌∷◌, ◌++◌, map, Bool-cases, inl, inr, string_eq,
}
use tether_ddns.Prelude.Dict.{lookup}
use tether_ddns.Types.{DomainConfig, DomainState, HookConfig, HookDef}
use tether_ddns.Html.{Html, nodes, live, live_in}
use tether_ddns.Markup.Widgets.{icon_button}
use tether_ddns.Markup.Layout.{section_header, empty_state}
use tether_ddns.Markup.Cards.{
  DomainActions, HookActions, event_tag, event_tags, domain_card, domains_page, card_of, hook_row,
  hooks_page, runtime_or_pending,
}

-- The actions for each of the entries of a list.
abbrev pub for_each {ℓ} : {A : Type ℓ} → {E : Type 0} → (A → List E) → List A → List E
for_each f [] = []
for_each f (x ∷ xs) = f x ++ for_each f xs

module _ {E : Type 0} where
  pub live-map :
      {A : Type 0} (f : A → Html E) (g : A → List E) (xs : List A)
      → ((x : A) → live (f x) ≡ g x)
      → live_in (nodes (map f xs)) ≡ for_each g xs
  live-map f g [] h = refl
  live-map f g (x ∷ xs) h = rw (h x, live-map f g xs h) refl

  abbrev pub domain_offers : DomainActions E → DomainConfig → List E
  domain_offers a d = a.toggle d.id ∷ a.sync d.id ∷ a.edit d.id ∷ a.delete d.id ∷ []

  abbrev pub hook_offers : HookActions E → HookConfig → List E
  hook_offers a h = a.run h.id ∷ a.edit h ∷ a.delete h.id ∷ []

  card-live :
      (upper : ℕ → Str) (now : ℕ) (a : DomainActions E) (d : DomainConfig) (s : DomainState)
      → live (domain_card upper now a d s) ≡ domain_offers a d
  unfolding domain_card icon_button
  card-live upper now a d s = elim (Bool-cases d.enabled) [ inl b ↦ rw b refl | inr b ↦ rw b refl ]

  tags-live : (events : List String) → live_in (nodes (event_tags {E = E} events)) ≡ []
  tags-live [] = refl
  tags-live (e ∷ es) = no_actions (e ∷ es)
    where
      no_actions : (xs : List String) → live_in (nodes (map (event_tag {E = E}) xs)) ≡ []
      no_actions [] = refl
      no_actions (x ∷ xs) = no_actions xs

  row-live :
      (a : HookActions E) (defs : List HookDef) (h : HookConfig)
      → live (hook_row a defs h) ≡ hook_offers a h
  unfolding icon_button
  row-live a defs h = rw (tags-live h.events) refl

  pub domains-live :
      (upper : ℕ → Str) (now : ℕ) (a : DomainActions E) (domains : List DomainConfig)
      (runtime_by_id : List (String × DomainState))
      → live_in (domains_page upper now a domains runtime_by_id)
        ≡ a.add ∷ for_each (domain_offers a) domains
  unfolding domains_page section_header empty_state
  domains-live upper now a [] runtime_by_id = refl
  domains-live upper now a (d ∷ ds) runtime_by_id =
      rw
        (live-map (card_of upper now a runtime_by_id) (domain_offers a) (d ∷ ds)
          (λ x. card-live upper now a x (runtime_or_pending x.id (lookup x.id runtime_by_id))))
        (append-nil (a.add ∷ for_each (domain_offers a) (d ∷ ds)))

  pub hooks-live :
      (a : HookActions E) (hooks : List HookConfig) (defs : List HookDef)
      → live_in (hooks_page a hooks defs) ≡ a.add ∷ for_each (hook_offers a) hooks
  unfolding hooks_page section_header empty_state
  hooks-live a [] defs = refl
  hooks-live a (h ∷ hs) defs =
      rw (live-map (hook_row a defs) (hook_offers a) (h ∷ hs) (row-live a defs))
        (append-nil (a.add ∷ for_each (hook_offers a) (h ∷ hs)))
