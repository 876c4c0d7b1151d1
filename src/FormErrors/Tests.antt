-- ===== src/FormErrors/Tests.antt =====
-- The theorems about frontend/src/formErrors.ts at small values.
use tether_ddns.Prelude.{
  ◌≡◌, ◌≢◌, ◌⊎◌, codes, str_eq_code, false, none, some, List, [], ◌∷◌, arith, if◌then◌else◌,
}
use tether_ddns.Prelude.Strings.{is_inherited}
use tether_ddns.Prelude.Dict.{lookup}
use tether_ddns.FormErrors.{Errors, use_form_errors, resolved, api_error, sub_errors, settle}
use tether_ddns.FormErrors.Keys.{first_under, sub_errors_lem}
use tether_ddns.FormErrors.Saving.{Event, submits, settles, opened, run, form_lem, settle_lem}

abbrev token_errors : Errors
token_errors =
    (codes "hostname", "required")
    ∷ (codes "provider_config.token", "too short")
    ∷ (codes "provider_config.token.0", "bad")
    ∷ []

sub_errors_lem_example :
    lookup (codes "token") (sub_errors token_errors (codes "provider_config")) ≡ (
      if is_inherited (codes "token")
      then none
      else first_under (codes "provider_config") (codes "token") token_errors)
sub_errors_lem_example =
    sub_errors_lem token_errors (codes "provider_config") (codes "token") (λ e. cc) (omega arith)

-- Two clicks, a failed save, and another click.
abbrev clicks : List Event
clicks = submits ∷ submits ∷ settles (api_error token_errors) ∷ submits ∷ []

form_lem_example :
    let s = run (opened "Failed to save domain") clicks in
    (s.form.saving ≡ s.form.busy)
    × (s.in_flight ≡ (if s.form.busy then 1 else 0))
    × ((s.form.form_error ≡ none) ⊎ (s.form.errors ≡ []))
form_lem_example = form_lem "Failed to save domain" clicks

settle_lem_example :
    let r = settle (api_error token_errors) (use_form_errors "Failed") in
    (r.busy ≡ false)
    × (r.saving ≡ false)
    × ((api_error token_errors ≡ resolved) ⊎ (r.errors ≢ []) ⊎ (r.form_error ≡ some "Failed"))
settle_lem_example = settle_lem (use_form_errors "Failed") (api_error token_errors)
