-- ===== src/FormErrors.antt =====
-- frontend/src/formErrors.ts: validation errors of a form, and the state of its saving.
pub mod Keys
pub mod Saving
mod Tests
use tether_ddns.Prelude.{
  ℕ, suc, ◌+◌, ◌-◌, ◌≡◌, String, Str, codes, Bool, true, false, not, ◌||◌, Option, none, some, List,
  [], ◌∷◌, ◌++◌, drop, length, keep, str_beq, if◌then◌else◌,
}
use text.Mathlib.Text.{◌==◌ as text_beq}
use tether_ddns.Prelude.Strings.{starts_with, before_dot, dot, has_property, set_property}

abbrev pub Errors : Type 0
Errors = List (Str × String)

-- One round of the loop of `subErrors`.
unfoldable pub sub_error : Str → Str → String → Errors → Errors
sub_error prefix key msg out =
    let field = before_dot (drop (length prefix + 1) key) in
    if str_beq key prefix
    then set_property [] msg out
    else (if starts_with key (prefix ++ dot ∷ [])
        then (if has_property field out then out else set_property field msg out)
        else out)

unfoldable pub sub_errors_from : Str → Errors → Errors → Errors
sub_errors_from prefix [] out = out
sub_errors_from prefix ((key, msg) ∷ errors) out =
    sub_errors_from prefix errors (sub_error prefix key msg out)

unfoldable pub sub_errors : Errors → Str → Errors
sub_errors errors prefix = sub_errors_from prefix errors []

-- The state of the hook `useFormErrors`; `busy` is its ref.
pub record FormErrors : Type 0 where
  pub fallback : String
  pub errors : Errors
  pub form_error : Option String
  pub saving : Bool
  pub busy : Bool

abbrev pub use_form_errors : String → FormErrors
use_form_errors fallback = record {
  fallback = fallback;
  errors = [];
  form_error = none;
  saving = false;
  busy = false;
}

unfoldable pub reset : FormErrors → FormErrors
reset s = record s { errors = []; form_error = none }

unfoldable pub clear : (Str → Bool) → FormErrors → FormErrors
clear match s = record s { errors = keep (λ kv. not (match kv.0)) s.errors; form_error = none }

-- How a save ends: it resolves, or it rejects, with an `ApiError` and its field errors or otherwise.
pub data Outcome : Type 0 where
  resolved : Outcome
  api_error : Errors → Outcome
  other_error : Outcome

abbrev pub is_empty {ℓ} : {A : Type ℓ} → List A → Bool
is_empty [] = true
is_empty (_ ∷ _) = false

abbrev rejected : Errors → FormErrors → FormErrors
rejected fields s = record s {
  errors = fields;
  form_error = if is_empty fields then some s.fallback else none;
}

-- `submit` up to its `await`: the flag says whether the save is started.
unfoldable pub submit : FormErrors → FormErrors × Bool
submit s = if s.busy then (s, false) else (record s { busy = true; saving = true }, true)

-- The rest of `submit`, when the save has ended: `catch`, then `finally`.
unfoldable pub settle : Outcome → FormErrors → FormErrors
settle resolved s = record s { busy = false; saving = false }
settle (api_error fields) s = record (rejected fields s) { busy = false; saving = false }
settle other_error s = record (rejected [] s) { busy = false; saving = false }

-- The properties that mark an input as invalid.
pub record InvalidProps : Type 0 where
  pub class_name : Option String
  pub aria_invalid : Option Bool
  pub aria_described_by : Option String

-- `Boolean(error)`: an error that is there and not empty.
abbrev pub truthy : Option String → Bool
truthy none = false
truthy (some e) = not (text_beq e "")

unfoldable pub invalid_props : Option String → String → Bool → InvalidProps
invalid_props error help_id has_help = record {
  class_name = if truthy error then some "field-invalid" else none;
  aria_invalid = if truthy error then some true else none;
  aria_described_by = if has_help then some help_id else none;
}
