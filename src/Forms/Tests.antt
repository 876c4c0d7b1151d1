-- ===== src/Forms/Tests.antt =====
-- The theorems about the forms at small values.
use tether_ddns.Prelude.{List, true, refl}
use tether_ddns.Forms.Project.{ModalEvent, changes, clicks, ends, hook_run, modal_run}
use tether_ddns.Prelude.{
  ◌≡◌, String, codes, str_eq_code, string_eq, str_beq, false, not, ◌&&◌, Option, none, some, [],
  ◌∷◌, ◌++◌, arith, if◌then◌else◌,
}
use tether_ddns.Prelude.Strings.{dot}
use tether_ddns.Prelude.Dict.{lookup}
use tether_ddns.Types.{text, Provider, DomainConfig}
use tether_ddns.FormErrors
use tether_ddns.FormErrors.{FormErrors, use_form_errors, api_error, reset, clear}
use tether_ddns.Forms.Errors.{Config, option_beq, clear_config, set_value, edit_clears_own_error}
use tether_ddns.Forms.Domain.{DomainModal, empty_domain}
use tether_ddns.Prelude.{ℤ, pos}
use tether_ddns.Forms.Project.{
  ProjectModal, empty_project, api_key, as_form_errors, submit, project_refines_form_errors,
}

abbrev two_errors : FormErrors
two_errors = record (use_form_errors "Failed to save domain") {
  errors =
      (codes "provider_config.token", "too short") ∷ (codes "provider_config.zone", "missing") ∷ [];
}

abbrev token_config : Config
token_config = ("token", text "abc") ∷ ("zone", text "") ∷ []

edit_clears_own_error_example :
    lookup
      (codes "provider_config" ++ (dot ∷ codes "token"))
      (clear_config
        (codes "provider_config")
        (set_value "token" (text "abcdef") token_config)
        token_config
        two_errors).errors
    ≡ (if str_beq (codes "token") (codes "token")
          && not (option_beq (some (text "abcdef")) (lookup "token" token_config))
        then none
        else lookup (codes "provider_config" ++ (dot ∷ codes "token")) two_errors.errors)
edit_clears_own_error_example =
    edit_clears_own_error (codes "provider_config") "token" (text "abcdef") token_config two_errors
      (codes "token") (omega arith)

abbrev cloudflare : Provider
cloudflare = record { key = "cloudflare"; display_name = "Cloudflare" }

abbrev no_editing : Option DomainConfig
no_editing = none

abbrev typed : DomainModal
typed = record {
  form = record empty_domain { hostname = "home.example.com" };
  errors = two_errors;
  providers = [];
}

abbrev open_form : ProjectModal
open_form = record {
  form = empty_project;
  errors = (codes "api_key", "invalid") ∷ [];
  form_error = none;
  saving = false;
}

-- A field is corrected, and a save is clicked twice and fails.
abbrev modal_events : List ModalEvent
modal_events =
    changes (api_key "k")
    ∷ clicks
    ∷ clicks
    ∷ ends (api_error ((codes "name", "required") ∷ []))
    ∷ []

project_refines_form_errors_example :
    let f = as_form_errors open_form in
    let once = submit false open_form in
    let hook_once = FormErrors.submit f in
    ((hook_run modal_events f).0 ≡ as_form_errors (modal_run modal_events open_form).0)
    × ((hook_run modal_events f).1 ≡ (modal_run modal_events open_form).1)
    × (once.1 ≡ true)
    × ((submit false once.0).1 ≡ true)
    × (hook_once.1 ≡ true)
    × ((FormErrors.submit hook_once.0).1 ≡ false)
project_refines_form_errors_example = project_refines_form_errors modal_events open_form refl

-- No number is typed.
abbrev no_number : String → ℤ
no_number _ = pos 0
