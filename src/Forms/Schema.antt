-- ===== src/Forms/Schema.antt =====
-- The schemas of frontend/src/components/SchemaForm.tsx, what its fields show and what they make of
-- what the user enters. Numbers are whole.
use tether_ddns.Prelude.{
  ℕ, ◌+◌, ◌≡◌, refl, String, Str, codes, Bool, true, false, not, ◌||◌, Option, none, some, List, [],
  ◌∷◌, ◌++◌, ltb, nat_beq, ◌==◌, string_eq, str_eq_code, ℤ, pos, negsuc, arith, if◌then◌else◌,
}
use tether_ddns.Prelude.Dict.{lookup, lookup-insert}
use tether_ddns.Prelude.Strings.{decimal}
use tether_ddns.Types.{Value, null, boolean, number, text}
use tether_ddns.Forms.Errors.{Config, set_value}

-- An option of an `enum`.
pub data Choice : Type 0 where
  text_choice : String → Choice
  number_choice : ℕ → Choice

pub record SchemaProperty : Type 0 where
  pub title : Option String
  pub type_name : Option String
  pub format : Option String
  pub description : Option String
  pub choices : Option (List Choice)
  pub labels : List (Str × String)

pub record JsonSchema : Type 0 where
  pub properties : List (String × SchemaProperty)
  pub required : List String
  pub description : Option String

abbrev pub is : Option String → String → Bool
is none s = false
is (some t) s = t == s

pub data InputType : Type 0 where
  password_input number_input text_input : InputType

unfoldable pub input_type : SchemaProperty → InputType
input_type prop =
    if is prop.format "password"
    then password_input
    else (if is prop.type_name "number" || is prop.type_name "integer"
        then number_input
        else text_input)

-- `String(value)`
abbrev pub shown_value : Value → Str
shown_value null = []
shown_value (boolean true) = codes "true"
shown_value (boolean false) = codes "false"
shown_value (number (pos n)) = decimal n
shown_value (number (negsuc n)) = 45 ∷ decimal (n + 1)
shown_value (text s) = codes s

-- `current == null ? '' : String(current)`
abbrev pub shown : Option Value → Str
shown none = []
shown (some v) = shown_value v

-- `Boolean(current)`: for a number, that it is not 0.
abbrev pub truthy_value : Option Value → Bool
truthy_value none = false
truthy_value (some null) = false
truthy_value (some (boolean b)) = b
truthy_value (some (number (pos n))) = ltb 0 n
truthy_value (some (number (negsuc n))) = true
truthy_value (some (text s)) = not (s == "")

abbrev underscore : ℕ
underscore = 95

-- The words of a name, between its underscores, each begun by `upper` and joined by blanks.
abbrev pub words : (ℕ → Str) → Bool → Str → Str
words upper first [] = []
words upper first (c ∷ cs) =
    if nat_beq c underscore
    then 32 ∷ words upper true cs
    else (if first then upper c ++ words upper false cs else c ∷ words upper false cs)

abbrev pub choice_text : Choice → Str
choice_text (text_choice s) = codes s
choice_text (number_choice n) = decimal n

unfoldable pub humanize_option : (ℕ → Str) → Choice → Str
humanize_option upper (number_choice n) = decimal n
humanize_option upper (text_choice s) = words upper true (codes s)

abbrev pub is_number : Choice → Bool
is_number (number_choice _) = true
is_number (text_choice _) = false

abbrev pub label_of : String → Option String → String
label_of key none = key
label_of key (some title) = title

abbrev pub option_text : (ℕ → Str) → List (Str × String) → Choice → Str × Str
option_text upper labels c = (
  choice_text c,
  (elim (lookup (choice_text c) labels) [ none ↦ humanize_option upper c | some l ↦ codes l ]),
)

abbrev pub choices_or : Option (List Choice) → List Choice
choices_or none = []
choices_or (some cs) = cs

-- The value of an input that the user has edited: `number_of` is `Number`.
unfoldable pub typed_value : (String → ℤ) → InputType → String → Value
typed_value number_of number_input raw = if raw == "" then text "" else number (number_of raw)
typed_value number_of password_input raw = text raw
typed_value number_of text_input raw = text raw

-- The value of a choice that the user has made.
unfoldable pub chosen_value : (String → ℤ) → Bool → String → Value
chosen_value number_of numeric raw = if numeric then number (number_of raw) else text raw

abbrev pub is_numeric : InputType → Bool
is_numeric number_input = true
is_numeric _ = false

typed_shown :
    (number_of : String → ℤ) (t : InputType) (raw : String)
    → is_numeric t ≡ false
    → shown_value (typed_value number_of t raw) ≡ codes raw
unfolding typed_value
typed_shown number_of password_input raw h = refl
typed_shown number_of text_input raw h = refl
typed_shown number_of number_input raw h = cc

-- What the user types into an input that is not for numbers is what the input then shows, and every
-- other field of the form shows what it showed before.
pub typed_is_shown :
    (number_of : String → ℤ) (t : InputType) (raw key other : String) (value : Config)
    → is_numeric t ≡ false
    → let after = set_value key (typed_value number_of t raw) value in
      shown (lookup other after) ≡ (if key == other then codes raw else shown (lookup other value))
unfolding set_value
typed_is_shown number_of t raw key other value h = ground (
  arith,
  lookup-insert key other (typed_value number_of t raw) value,
  typed_shown number_of t raw h,
)
