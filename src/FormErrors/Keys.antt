-- ===== src/FormErrors/Keys.antt =====
-- Which error `subErrors` (frontend/src/formErrors.ts) keeps for a field.
use native.Mathlib.Numerals.{add-one}
use tether_ddns.Prelude.{
  suc, ◌+◌, ◌≡◌, ◌≢◌, inl, inr, refl, sym, ◌∙◌, ap, String, Str, codes, Bool, true, false, not,
  ◌&&◌, ◌||◌, Option, none, some, [], ◌∷◌, ◌++◌, drop, length, any, All, arith, str_beq,
  str_beq_iff, Bool-cases, str_eq_code, if◌then◌else◌,
}
use tether_ddns.Prelude.Strings.{
  starts_with, before_dot, dot, is_inherited, has_property, set_property,
}
use tether_ddns.Prelude.Dict.{lookup, lookup-insert}
use tether_ddns.FormErrors.{Errors, sub_error, sub_errors_from, sub_errors}

abbrev pub NoDot : Str → Type 0
NoDot = All (λ c. c ≢ dot)

-- The error is on the field itself, or on something inside it.
abbrev pub is_under : Str → Str → Str → Bool
is_under prefix field key =
    str_beq key (prefix ++ dot ∷ field) || starts_with key (prefix ++ dot ∷ field ++ dot ∷ [])

-- The message of the first such error.
abbrev pub first_under : Str → Str → Errors → Option String
first_under prefix field [] = none
first_under prefix field ((key, msg) ∷ errors) =
    if is_under prefix field key then some msg else first_under prefix field errors

abbrev or_else {ℓ} : {A : Type ℓ} → Option A → Option A → Option A
or_else none b = b
or_else (some a) b = some a

-- The key past the prefix and its dot.
abbrev is_segment : Str → Str → Bool
is_segment field rest = str_beq rest field || starts_with rest (field ++ dot ∷ [])

segment_lem :
    (field rest : Str) → NoDot field → str_beq (before_dot rest) field ≡ is_segment field rest
segment_lem [] [] h = refl
segment_lem [] (c ∷ cs) h = ground arith
segment_lem (f ∷ fs) [] h = refl
segment_lem (f ∷ fs) (c ∷ cs) (hf, h) = ground (arith, segment_lem fs cs h)

is_under_lem :
    (prefix field key : Str)
    → is_under prefix field key
      ≡ (starts_with key (prefix ++ dot ∷ []) && is_segment field (drop (length prefix + 1) key))
is_under_lem prefix field key = rw (add-one) (go prefix key)
  where
    go :
        (p k : Str)
        → is_under p field k
          ≡ (starts_with k (p ++ dot ∷ []) && is_segment field (drop (suc (length p)) k))
    go [] [] = refl
    go [] (c ∷ cs) = ground arith
    go (x ∷ p) [] = refl
    go (x ∷ p) (c ∷ cs) = ground (arith, go p cs)

not_under_self : (prefix field : Str) → is_under prefix field prefix ≡ false
not_under_self [] field = refl
not_under_self (x ∷ p) field = ground (arith, not_under_self p field)

any_key :
    (k : Str) (o : Errors)
    → any (λ kv. str_beq kv.0 k) o ≡ (elim (lookup k o) [ none ↦ false | some _ ↦ true ])
unfolding lookup
any_key k [] = refl
any_key k ((j, v) ∷ o) = ground (arith, any_key k o)

lookup-set_property :
    (k j : Str) (v : String) (o : Errors)
    → is_inherited k ≡ false
    → lookup j (set_property k v o) ≡ (if str_beq k j then some v else lookup j o)
unfolding set_property is_inherited
lookup-set_property k j v o h = ground (
  arith,
  lookup-insert k j v o,
  str_beq_iff k (codes "__proto__"),
  str_beq_iff (codes "__proto__") k,
)

inherited_nil : is_inherited [] ≡ false
unfolding is_inherited
inherited_nil = refl

-- What the round does for a field whose segment is `g`.
kept :
    (f g : Str) (msg : String) (out : Errors)
    → lookup f (if has_property g out then out else set_property g msg out)
      ≡ or_else (lookup f out) (if str_beq g f && not (is_inherited f) then some msg else none)
kept f g msg out = ground (arith, any_key g out, lookup-set_property g f msg out, str_beq_iff g f)

sub_error_lem :
    (prefix f key : Str) (msg : String) (out : Errors)
    → f ≢ []
    → NoDot f
    → lookup f (sub_error prefix key msg out)
      ≡ or_else
          (lookup f out)
          (if is_under prefix f key && not (is_inherited f) then some msg else none)
unfolding sub_error
sub_error_lem prefix f key msg out ne nodot =
    let g = before_dot (drop (length prefix + 1) key) in
    let under : is_under prefix f key ≡ (starts_with key (prefix ++ dot ∷ []) && str_beq g f) =
      is_under_lem prefix f key
      ∙ ap (λ b. starts_with key (prefix ++ dot ∷ []) && b)
          (sym (segment_lem f (drop (length prefix + 1) key) nodot)) in
    elim (Bool-cases (str_beq key prefix)) [
      | inl here ↦ ground (
        arith,
        (str_beq_iff key prefix).0 here,
        not_under_self prefix f,
        inherited_nil,
        lookup-set_property [] f msg out,
        str_beq_iff [] f,
      )
      | inr other ↦ rw (other, under) (ground (arith, kept f g msg out))
    ]

sub_errors_from_lem :
    (prefix f : Str) (errors out : Errors)
    → f ≢ []
    → NoDot f
    → lookup f (sub_errors_from prefix errors out)
      ≡ or_else (lookup f out) (if is_inherited f then none else first_under prefix f errors)
unfolding sub_errors_from
sub_errors_from_lem prefix f [] out ne nodot = ground arith
sub_errors_from_lem prefix f ((key, msg) ∷ errors) out ne nodot = ground (
  arith,
  sub_error_lem prefix f key msg out ne nodot,
  sub_errors_from_lem prefix f errors (sub_error prefix key msg out) ne nodot,
)

-- For each field name that is not empty and has no dot, `subErrors` keeps the message of the
-- first error on the field or inside it. Exception: a field that is called like a property which
-- every object inherits (`constructor`, `toString`, …) never gets a message, since `field in out`
-- holds of it from the start.
pub sub_errors_lem :
    (errors : Errors) (prefix field : Str)
    → field ≢ []
    → NoDot field
    → lookup field (sub_errors errors prefix)
      ≡ (if is_inherited field then none else first_under prefix field errors)
unfolding sub_errors
sub_errors_lem errors prefix field ne nodot =
    sub_errors_from_lem prefix field errors [] ne nodot ∙ (unfold lookup in refl)
