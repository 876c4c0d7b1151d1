-- ===== src/Forms/Hook.antt =====
-- The form of frontend/src/components/HookModal.tsx.
use tether_ddns.Prelude.{
  ℕ, ◌≡◌, inl, inr, refl, ◌∙◌, String, Str, codes, Bool, true, false, not, ◌&&◌, ◌||◌, Option, none,
  some, List, [], ◌∷◌, ◌++◌, any, keep, count, str_beq, ◌==◌, string_eq, Bool-cases, arith,
  if◌then◌else◌, count-append,
}
use tether_ddns.Types.{HookDef, HookConfig}
use tether_ddns.FormErrors.{FormErrors, reset, clear}
use tether_ddns.Forms.{HookFormValue}
use tether_ddns.Forms.Errors.{Config, is_in, clear_config}

abbrev pub empty_hook : HookFormValue
empty_hook = record { hook = ""; events = []; config = [] }

abbrev config_name : Str
config_name = codes "config"

-- The states of the modal. `hooks` is the ref that holds the latest definitions.
pub record HookModal : Type 0 where
  pub form : HookFormValue
  pub errors : FormErrors
  pub hooks : List HookDef

abbrev config_or : Option Config → Config
config_or none = []
config_or (some c) = c

abbrev first_key : List HookDef → String
first_key [] = ""
first_key (h ∷ hs) = h.key

abbrev form_of : Option HookConfig → List HookDef → HookFormValue
form_of none hooks = record empty_hook { hook = first_key hooks }
form_of (some h) hooks = record { hook = h.hook; events = h.events; config = config_or h.config }

-- The effect that runs when the modal opens.
unfoldable pub open_hook : Option HookConfig → HookModal → HookModal
unfolding reset
open_hook editing s = record s { form = form_of editing s.hooks; errors = reset s.errors }

abbrev is_none : Option HookConfig → Bool
is_none none = true
is_none (some _) = false

-- Other definitions arrive: the ref follows, and a hook that is added gets the first one if it has
-- none yet.
unfoldable pub hooks_arrive : Option HookConfig → List HookDef → HookModal → HookModal
hooks_arrive editing [] s = record s { hooks = [] }
hooks_arrive editing (h ∷ hs) s =
    if is_none editing && s.form.hook == ""
    then record s { hooks = h ∷ hs; form = record s.form { hook = h.key } }
    else record s { hooks = h ∷ hs }

unfoldable pub change_hook : String → HookModal → HookModal
unfolding clear
change_hook hook s = record s {
  form = record { hook = hook; events = []; config = [] };
  errors =
      clear (λ k. str_beq k (codes "hook") || str_beq k (codes "events") || is_in config_name k)
        s.errors;
}

abbrev pub includes : String → List String → Bool
includes event events = any (λ e. e == event) events

unfoldable pub toggled : String → List String → List String
toggled event events =
    if includes event events then keep (λ e. not (e == event)) events else events ++ event ∷ []

unfoldable pub toggle_event : String → HookModal → HookModal
unfolding toggled clear
toggle_event event s = record s {
  form = record s.form { events = toggled event s.form.events };
  errors = clear (λ k. str_beq k (codes "events")) s.errors;
}

unfoldable pub change_config : Config → HookModal → HookModal
unfolding clear_config
change_config config s = record s {
  form = record s.form { config = config };
  errors = clear_config config_name config s.form.config s.errors;
}

-- How often an event is chosen.
abbrev pub times : String → List String → ℕ
times event = count (λ e. e == event)

not_included :
    (event : String) (events : List String) → includes event events ≡ false → times event events ≡ 0
not_included event [] h = refl
not_included event (e ∷ es) h = ground (arith, not_included event es)

times-keep :
    (event other : String) (events : List String)
    → times other (keep (λ e. not (e == event)) events)
      ≡ (if other == event then 0 else times other events)
times-keep event other [] = ground arith
times-keep event other (e ∷ es) = ground (
  arith,
  times-keep event other es,
  string_eq.beq_iff e event,
  string_eq.beq_iff e other,
  string_eq.beq_iff other event,
)

-- A click on an event chooses it, once, if it was not chosen, and otherwise removes it; the other
-- events stay chosen as they were.
pub toggled_lem :
    (event other : String) (events : List String)
    → times other (toggled event events)
      ≡ (if other == event then (if includes event events then 0 else 1) else times other events)
unfolding toggled
toggled_lem event other events = elim (Bool-cases (includes event events)) [
  | inl chosen ↦ rw chosen (times-keep event other events ∙ refl)
  | inr free ↦ rw free (
      ground (
        arith,
        count-append (λ e. e == other) events (event ∷ []),
        not_included event events free,
        string_eq.beq_iff event other,
        string_eq.beq_iff other event,
      ))
]
