-- ===== src/Forms/Errors.antt =====
-- Which errors a form forgets when the user changes something (frontend/src/components/DomainModal.tsx
-- and HookModal.tsx).
use tether_ddns.Prelude.{
  ℕ, ◌≡◌, refl, String, Str, codes, Bool, true, false, not, ◌||◌, Option, none, some, List, [], ◌∷◌,
  ◌++◌, any, keep, map, str_beq, ◌&&◌, ◌==◌, string_eq, str_eq_code, arith, ℤ, pos, negsuc, nat_beq,
  All, Bool-cases, inl, inr, ap, ◌∙◌, if◌then◌else◌,
}
use tether_ddns.Prelude.Dict.{lookup, insert, lookup-insert, lookup-keep}
use tether_ddns.Prelude.Strings.{starts_with, dot}
use tether_ddns.Types.{Value, null, boolean, number, text}
use tether_ddns.FormErrors.{FormErrors, clear}
use tether_ddns.FormErrors.Keys.{NoDot}

-- `` k === name || k.startsWith(`${name}.`) ``
abbrev pub is_in : Str → Str → Bool
is_in name k = str_beq k name || starts_with k (name ++ dot ∷ [])

-- `` k === `${CONFIG}.${c}` || k.startsWith(`${CONFIG}.${c}.`) `` for one of the changed keys
abbrev pub in_changed : Str → List Str → Str → Bool
in_changed config changed k = any (λ c. is_in (config ++ (dot ∷ c)) k) changed

-- After clearing, an error is left exactly if the test does not hold of its key, and the general
-- error is gone.
pub clear_lem :
    (match : Str → Bool) (k : Str) (s : FormErrors)
    → (lookup k (clear match s).errors ≡ (if match k then none else lookup k s.errors))
      × ((clear match s).form_error ≡ none)
unfolding clear
clear_lem match k s = (ground (arith, lookup-keep (λ j. not (match j)) k s.errors), refl)

-- `!==` on the values of a configuration. A list or an object, which the forms do not make, is
-- outside.
abbrev pub int_beq : ℤ → ℤ → Bool
int_beq (pos m) (pos n) = nat_beq m n
int_beq (negsuc m) (negsuc n) = nat_beq m n
int_beq _ _ = false

abbrev bool_beq : Bool → Bool → Bool
bool_beq true b = b
bool_beq false b = not b

abbrev pub value_beq : Value → Value → Bool
value_beq null null = true
value_beq (boolean a) (boolean b) = bool_beq a b
value_beq (number a) (number b) = int_beq a b
value_beq (text a) (text b) = a == b
value_beq _ _ = false

abbrev pub option_beq : Option Value → Option Value → Bool
option_beq none none = true
option_beq (some a) (some b) = value_beq a b
option_beq _ _ = false

value_beq_refl : (a : Value) → value_beq a a ≡ true
value_beq_refl null = refl
value_beq_refl (boolean true) = refl
value_beq_refl (boolean false) = refl
value_beq_refl (number (pos m)) = ground arith
value_beq_refl (number (negsuc m)) = ground arith
value_beq_refl (text a) = (string_eq.beq_iff a a).1 refl

option_beq_refl : (a : Option Value) → option_beq a a ≡ true
option_beq_refl none = refl
option_beq_refl (some a) = value_beq_refl a

abbrev pub Config : Type 0
Config = List (String × Value)

-- `Object.keys(config).filter((k) => config[k] !== old[k])`
abbrev pub differs : Config → Config → String → Bool
differs config old k = not (option_beq (lookup k config) (lookup k old))

unfoldable pub changed_keys : Config → Config → List String
changed_keys config old = keep (differs config old) (map (λ kv. kv.0) config)

-- What `changeConfig` clears, in a form whose configuration is called `name`.
unfoldable pub clear_config : Str → Config → Config → FormErrors → FormErrors
unfolding clear changed_keys
clear_config name config old s =
    clear (λ k. str_beq k name || in_changed name (map codes (changed_keys config old)) k) s

-- `onChange({ ...value, [key]: next })` of frontend/src/components/SchemaForm.tsx.
unfoldable pub set_value : String → Value → Config → Config
set_value key next value = insert key next value

module _ (key : String) (next : Value) (old : Config) where
  only_key : (k : String) → differs (insert key next old) old k ≡ true → k ≡ key
  only_key k d =
      ground (
        arith,
        lookup-insert key k next old,
        option_beq_refl (lookup k old),
        string_eq.beq_iff key k,
      )

  only_key-keep :
      (ks : List String) → All (λ k. k ≡ key) (keep (differs (insert key next old) old) ks)
  only_key-keep [] = tt
  only_key-keep (k ∷ ks) = elim (Bool-cases (differs (insert key next old) old k)) [
    | inl d ↦ rw d (only_key k d, only_key-keep ks)
    | inr d ↦ rw d (only_key-keep ks)
  ]

starts_with_longer : (f c : Str) → NoDot f → starts_with f (c ++ dot ∷ []) ≡ false
starts_with_longer [] [] h = refl
starts_with_longer [] (c ∷ cs) h = refl
starts_with_longer (f ∷ fs) [] (hf, h) = ground arith
starts_with_longer (f ∷ fs) (c ∷ cs) (hf, h) = ground (arith, starts_with_longer fs cs h)

-- Below the configuration's name, a field without a dot is only in itself.
is_in-field :
    (name f c : Str) → NoDot f → is_in (name ++ (dot ∷ c)) (name ++ (dot ∷ f)) ≡ str_beq f c
is_in-field [] f c h = ground (arith, starts_with_longer f c h)
is_in-field (n ∷ ns) f c h = ground (arith, is_in-field ns f c h)

-- A test over the changed keys, where only one key can be changed.
any_only :
    (p : Str → Bool) (d : String → Bool) (key : String) (ks : List String)
    → ((k : String) → d k ≡ true → k ≡ key)
    → any p (map codes (keep d ks)) ≡ (any (λ k. k == key) ks && (p (codes key) && d key))
any_only p d key [] only = refl
any_only p d key (k ∷ ks) only =
    let rest = any_only p d key ks only in
    elim (Bool-cases (k == key)) [
      | inl same ↦
          rw (same, (string_eq.beq_iff k key).0 same)
            (elim (Bool-cases (d key)) [
              | inl changed ↦ rw (changed, rest) (ground arith)
              | inr kept ↦ rw (kept, rest) (ground arith)
            ])
      | inr other ↦ elim (Bool-cases (d k)) [
        | inl changed ↦ absurd (ground (arith, other, (string_eq.beq_iff k key).1 (only k changed)))
        | inr kept ↦ rw (other, kept) rest
      ]
    ]

keys-insert :
    (key : String) (v : Value) (m : Config)
    → any (λ k. k == key) (map (λ kv. kv.0) (insert key v m)) ≡ true
unfolding insert
keys-insert key v [] = rw ((string_eq.beq_iff key key).1 refl) refl
keys-insert key v ((j, w) ∷ m) =
    ground (arith, keys-insert key v m, (string_eq.beq_iff key key).1 refl)

longer_name : (name : Str) (c : ℕ) (rest : Str) → str_beq (name ++ c ∷ rest) name ≡ false
longer_name [] c rest = refl
longer_name (n ∷ ns) c rest = ground (arith, longer_name ns c rest)

-- When the user gives one field of a configuration a value, the form forgets the error on that field
-- if the value is another than before. It keeps the errors on all other fields of the
-- configuration. The name of the field that is asked about has no dot.
pub edit_clears_own_error :
    (name : Str) (key : String) (next : Value) (old : Config) (s : FormErrors) (field : Str)
    → NoDot field
    → lookup (name ++ (dot ∷ field)) (clear_config name (set_value key next old) old s).errors ≡ (
        if str_beq field (codes key) && not (option_beq (some next) (lookup key old))
        then none
        else lookup (name ++ (dot ∷ field)) s.errors)
unfolding clear_config set_value changed_keys
edit_clears_own_error name key next old s field nodot =
    let k : Str = name ++ (dot ∷ field) in
    let new : Config = insert key next old in
    let here : lookup key new ≡ some next =
      lookup-insert key key next old ∙ (rw ((string_eq.beq_iff key key).1 refl) refl) in
    let tested : any (λ c. is_in (name ++ (dot ∷ c)) k)
          (map codes (keep (differs new old) (map (λ kv. kv.0) new)))
        ≡ (is_in (name ++ (dot ∷ codes key)) k && differs new old key) =
      any_only (λ c. is_in (name ++ (dot ∷ c)) k) (differs new old) key (map (λ kv. kv.0) new)
        (only_key key next old)
      ∙ rw (keys-insert key next old) refl in
    let forgets : Str → Bool =
      λ j. str_beq j name || in_changed name (map codes (changed_keys new old)) j in
    let hit : forgets k
        ≡ (str_beq field (codes key) && not (option_beq (some next) (lookup key old))) =
      rw (longer_name name dot field)
        (tested ∙ rw (is_in-field name field (codes key) nodot, here) refl) in
    (clear_lem forgets k s).0 ∙ ap (λ b. if b then none else lookup k s.errors) hit
