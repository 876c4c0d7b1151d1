-- ===== src/Forms/Domain.antt =====
-- The form of frontend/src/components/DomainModal.tsx.
use tether_ddns.Prelude.{
  ◌≡◌, ◌⊎◌, inl, inr, refl, String, Str, codes, Bool, true, false, ◌&&◌, ◌||◌, Option, none, some,
  List, [], ◌∷◌, str_beq, ◌==◌, string_eq, Bool-cases, if◌then◌else◌,
}
use tether_ddns.Types.{Provider, DomainConfig}
use tether_ddns.FormErrors.{FormErrors, reset, clear}
use tether_ddns.Forms.{DomainFormValue}
use tether_ddns.Forms.Errors.{Config, is_in, clear_config}

abbrev pub empty_domain : DomainFormValue
empty_domain = record {
  hostname = "";
  provider = "";
  record_type = "A";
  enabled = true;
  provider_config = [];
}

abbrev config_name : Str
config_name = codes "provider_config"

-- The states of the modal. `providers` is the ref that holds the latest providers.
pub record DomainModal : Type 0 where
  pub form : DomainFormValue
  pub errors : FormErrors
  pub providers : List Provider

abbrev pub config_or : Option Config → Config
config_or none = []
config_or (some c) = c

abbrev pub first_key : List Provider → String
first_key [] = ""
first_key (p ∷ ps) = p.key

abbrev form_of : Option DomainConfig → List Provider → DomainFormValue
form_of none providers = record empty_domain { provider = first_key providers }
form_of (some d) providers = record {
  hostname = d.hostname;
  provider = d.provider;
  record_type = d.record_type;
  enabled = d.enabled;
  provider_config = config_or d.provider_config;
}

-- The effect that runs when the modal opens.
unfoldable pub open_domain : Option DomainConfig → DomainModal → DomainModal
unfolding reset
open_domain editing s = record s { form = form_of editing s.providers; errors = reset s.errors }

abbrev is_none : Option DomainConfig → Bool
is_none none = true
is_none (some _) = false

abbrev fill : Provider → DomainModal → DomainModal
fill p s = record s { form = record s.form { provider = p.key } }

-- Other providers arrive: the ref follows, and a domain that is added gets the first one if it has
-- none yet.
unfoldable pub providers_arrive : Option DomainConfig → List Provider → DomainModal → DomainModal
providers_arrive editing [] s = record s { providers = [] }
providers_arrive editing (p ∷ ps) s =
    if is_none editing && s.form.provider == ""
    then fill p (record s { providers = p ∷ ps })
    else record s { providers = p ∷ ps }

-- A change of one of the plain fields.
pub data Patch : Type 0 where
  hostname record_type : String → Patch
  enabled : Bool → Patch

abbrev patch_key : Patch → Str
patch_key (hostname _) = codes "hostname"
patch_key (record_type _) = codes "record_type"
patch_key (enabled _) = codes "enabled"

abbrev apply_patch : Patch → DomainFormValue → DomainFormValue
apply_patch (hostname v) f = record f { hostname = v }
apply_patch (record_type v) f = record f { record_type = v }
apply_patch (enabled v) f = record f { enabled = v }

unfoldable pub update_field : Patch → DomainModal → DomainModal
unfolding clear
update_field patch s = record s {
  form = apply_patch patch s.form;
  errors = clear (λ k. str_beq k (patch_key patch)) s.errors;
}

unfoldable pub change_provider : String → DomainModal → DomainModal
unfolding clear
change_provider provider s = record s {
  form = record s.form { provider = provider; provider_config = [] };
  errors = clear (λ k. str_beq k (codes "provider") || is_in config_name k) s.errors;
}

unfoldable pub change_config : Config → DomainModal → DomainModal
unfolding clear_config
change_config config s = record s {
  form = record s.form { provider_config = config };
  errors = clear_config config_name config s.form.provider_config s.errors;
}

-- A reconnect, which brings the providers again, never wipes what the user has typed: it changes the
-- form only if a domain is being added that has no provider yet, and then only its provider, which
-- becomes the first one. The errors stay.
pub reconnect_keeps_form :
    (editing : Option DomainConfig) (providers : List Provider) (s : DomainModal)
    → let t = providers_arrive editing providers s in
      (t.errors ≡ s.errors)
      × ((t.form ≡ s.form)
          ⊎ ((editing ≡ none)
              × (s.form.provider ≡ "")
              × (t.form ≡ record s.form { provider = first_key providers })))
unfolding providers_arrive
reconnect_keeps_form editing [] s = (refl, inl refl)
reconnect_keeps_form none (p ∷ ps) s = elim (Bool-cases (s.form.provider == "")) [
  | inl blank ↦ rw blank (refl, inr (refl, (string_eq.beq_iff s.form.provider "").0 blank, refl))
  | inr chosen ↦ rw chosen (refl, inl refl)
]
reconnect_keeps_form (some d) (p ∷ ps) s = (refl, inl refl)
