-- ===== src/Api/Replies.antt =====
-- What the answers of the server become (frontend/src/api.ts), up to the field of a form that
-- shows a validation error.
use mathlib.Core.List.{append_assoc}
use tether_ddns.Prelude.{
  ◌<◌, ◌≡◌, ◌≢◌, ◌⊎◌, inl, inr, refl, ◌∙◌, ap, String, Str, codes, Bool, true, false, not, ◌&&◌,
  ◌||◌, Option, none, some, List, [], ◌∷◌, ◌++◌, map, any, All, arith, nat_beq, str_beq,
  str_beq_iff, str_eq_code, Bool-cases, Option-cases, if◌then◌else◌,
}
use tether_ddns.Prelude.Strings.{starts_with, dot, join_dots, decimal, is_inherited, set_property}
use tether_ddns.Prelude.Dict.{lookup, insert}
use tether_ddns.FormErrors.{Errors, sub_errors}
use tether_ddns.FormErrors.Keys.{NoDot, is_under, first_under, sub_errors_lem}
use tether_ddns.Api.{
  LocPart, name, ErrorEntry, entries, Response, is_ok, ApiError, ok, api_error, other_error,
  show_part, path_of, add_entry, field_error, field_errors_from, field_errors_of, detail_of,
  responds, json, set_check_visible,
}
use tether_ddns.Api.Encoding.{
  decode, encode_uri_component, bytes_of, IsPlain, decode-encode_bytes, encode_bytes-IsPlain,
  bytes_of-small,
}

abbrev failure : {A : Type 0} → Str → Response A → ApiError
failure url res = record {
  message = url ++ codes " -> " ++ decimal res.status;
  status = res.status;
  field_errors = if nat_beq res.status 422 then field_errors_of res.error_body else [];
  detail = if nat_beq res.status 422 then none else detail_of res.error_body;
}

-- A call succeeds exactly on a response that is ok and whose body parses. On a response that is not
-- ok it fails with the status: on 422 with the field errors of the body and no detail, on any
-- other status with the detail of the body and no field errors.
pub json_lem :
    {A : Type 0} (url : Str) (res : Response A)
    → let r = json url (responds res) in
      ((is_ok res.status ≡ true)
        × (((res.body ≡ none) × (r ≡ other_error)) ⊎ ((a : A) × (res.body ≡ some a) × (r ≡ ok a))))
      ⊎ ((is_ok res.status ≡ false)
          × ((e : ApiError) × (r ≡ api_error e)
              × (e.status ≡ res.status)
              × (((e.status ≡ 422)
                    × (e.field_errors ≡ field_errors_of res.error_body)
                    × (e.detail ≡ none))
                  ⊎ ((e.status ≢ 422)
                      × (e.field_errors ≡ [])
                      × (e.detail ≡ detail_of res.error_body)))))
unfolding json
json_lem url res = elim (Bool-cases (is_ok res.status)) [
  | inl fine ↦ inl (
    fine,
    elim (Option-cases res.body) [
      | inl missing ↦ inl (missing, rw (fine, missing))
      | inr (a, e) ↦ inr (a, e, rw (fine, e))
    ],
  )
  | inr bad ↦ inr (bad, (failure url res, rw bad, refl, ground arith))
]

-- A key of a nested field holds a dot, so it is none of the object's own names.
dotted : (k p rest : Str) → NoDot k → str_beq (p ++ dot ∷ rest) k ≡ false
dotted [] [] rest h = refl
dotted [] (c ∷ p) rest h = refl
dotted (k ∷ ks) [] rest h = ground arith
dotted (k ∷ ks) (c ∷ p) rest (_, h) = ground (arith, dotted ks p rest h)

abbrev is_some {ℓ} : {A : Type ℓ} → Option A → Bool
is_some none = false
is_some (some _) = true

module _ (prefix field : Str) where
  first_under-insert :
      (k : Str) (m : String) (o : Errors)
      → is_some (first_under prefix field (insert k m o))
        ≡ (is_under prefix field k || is_some (first_under prefix field o))
  unfolding insert
  first_under-insert k m [] = ground arith
  first_under-insert k m ((j, v) ∷ o) = ground (arith, first_under-insert k m o, str_beq_iff j k)

  key_of : ErrorEntry → Str
  key_of e = join_dots (map show_part (path_of e.loc))

  -- The entry is kept, and its key lies under the field.
  abbrev pub parts_under : List LocPart → Option String → Bool
  parts_under (p ∷ ps) (some m) =
      not (str_beq (join_dots (map show_part (p ∷ ps))) (codes "__proto__"))
      && is_under prefix field (join_dots (map show_part (p ∷ ps)))
  parts_under _ _ = false

  abbrev pub entry_under : ErrorEntry → Bool
  entry_under e = parts_under (path_of e.loc) e.msg

  add_entry-under :
      (ps : List LocPart) (msg : Option String) (out : Errors)
      → is_some (first_under prefix field (add_entry ps msg out))
        ≡ (is_some (first_under prefix field out) || parts_under ps msg)
  unfolding add_entry set_property
  add_entry-under (p ∷ ps) (some m) out =
      ground (arith, first_under-insert (join_dots (map show_part (p ∷ ps))) m out)
  add_entry-under (p ∷ ps) none out = ground arith
  add_entry-under [] msg out = ground arith

  field_errors-under :
      (es : List ErrorEntry) (out : Errors)
      → is_some (first_under prefix field (field_errors_from es out))
        ≡ (is_some (first_under prefix field out) || any entry_under es)
  unfolding field_errors_from field_error
  field_errors-under [] out = ground arith
  field_errors-under (e ∷ es) out =
      ground (
        arith,
        field_errors-under es (field_error e out),
        add_entry-under (path_of e.loc) e.msg out,
      )

  starts_with_self : (k rest : Str) → starts_with (k ++ rest) k ≡ true
  starts_with_self [] rest = refl
  starts_with_self (c ∷ k) rest = ground (arith, starts_with_self k rest)

  is_under-exact : is_under prefix field (prefix ++ dot ∷ field) ≡ true
  is_under-exact = rw ((str_beq_iff (prefix ++ dot ∷ field) (prefix ++ dot ∷ field)).1 refl) refl

  is_under-inner :
      (rest : Str) → is_under prefix field (prefix ++ (dot ∷ (field ++ (dot ∷ rest)))) ≡ true
  is_under-inner rest =
      let longer : prefix ++ (dot ∷ (field ++ (dot ∷ rest)))
          ≡ (prefix ++ dot ∷ field ++ dot ∷ []) ++ rest =
        simp append_assoc in
      let e =
        ap (λ k. starts_with k (prefix ++ dot ∷ field ++ dot ∷ [])) longer
        ∙ starts_with_self (prefix ++ dot ∷ field ++ dot ∷ []) rest in
      ground (arith, e)

any_middle {ℓ} :
    {A : Type ℓ} (p : A → Bool) (xs : List A) (x : A) (ys : List A)
    → p x ≡ true
    → any p (xs ++ x ∷ ys) ≡ true
any_middle p [] x ys h = rw h
any_middle p (y ∷ xs) x ys h = ground (arith, any_middle p xs x ys h)

proto_NoDot : NoDot (codes "__proto__")
proto_NoDot = omega arith

-- The entry that FastAPI reports for a part of the request's body.
abbrev pub body_entry : String → String → List LocPart → String → ErrorEntry
body_entry prefix field inner msg = record {
  loc = some (name "body" ∷ name prefix ∷ name field ∷ inner);
  msg = some msg;
}

body_entry-under :
    (prefix field msg : String) (inner : List LocPart)
    → entry_under (codes prefix) (codes field) (body_entry prefix field inner msg) ≡ true
body_entry-under prefix field msg [] =
    rw (dotted (codes "__proto__") (codes prefix) (codes field) proto_NoDot)
      (is_under-exact (codes prefix) (codes field))
body_entry-under prefix field msg (q ∷ qs) =
    rw
      (dotted (codes "__proto__") (codes prefix)
        (codes field ++ (dot ∷ join_dots (map show_part (q ∷ qs)))) proto_NoDot)
      (is_under-inner (codes prefix) (codes field) (join_dots (map show_part (q ∷ qs))))

-- A validation error that the server reports at `body.prefix.field`, or anywhere inside that
-- field, reaches the form: whatever other errors are reported with it, `subErrors` finds a
-- message for the field. The field's name is not empty, has no dot and is not one that every
-- object inherits.
pub validation_error_reaches_field :
    (prefix field msg : String) (inner : List LocPart) (before after : List ErrorEntry)
    → NoDot (codes field)
    → codes field ≢ []
    → is_inherited (codes field) ≡ false
    → (shown : String) × (lookup (codes field) (
          sub_errors
            (field_errors_of (some (entries (before ++ body_entry prefix field inner msg ∷ after))))
            (codes prefix))
        ≡ some shown)
unfolding field_errors_of
validation_error_reaches_field prefix field msg inner before after nodot ne own =
    let p = codes prefix in
    let f = codes field in
    let e = body_entry prefix field inner msg in
    let errors = field_errors_from (before ++ e ∷ after) [] in
    let found : is_some (first_under p f errors) ≡ true =
      field_errors-under p f (before ++ e ∷ after) []
      ∙ any_middle (entry_under p f) before e after (body_entry-under prefix field msg inner) in
    elim (Option-cases (first_under p f errors)) [
      | inl missing ↦ absurd (cc)
      | inr (shown, at) ↦ (shown, sub_errors_lem errors p f ne nodot ∙ rw own at)
    ]

-- The request that shows or hides a check carries the check's key as one segment of its path: for
-- a key whose characters are Unicode code points, the segment has no `/`, `?` or `#`, and decoded
-- it gives the bytes of the key.
pub check_key_round_trip :
    {B : Type 0} (id key : String) (visible : B)
    → All (λ c. c < 0x110000) (codes key)
    → let segment = encode_uri_component key in
      ((set_check_visible id key visible).url
        ≡ codes "/api/healthchecks/" ++ codes id ++ codes "/checks/" ++ segment)
      × All IsPlain segment
      × (decode segment ≡ bytes_of (codes key))
unfolding set_check_visible encode_uri_component
check_key_round_trip id key visible small =
    let bytes = bytes_of-small (codes key) small in
    (
      refl,
      encode_bytes-IsPlain (bytes_of (codes key)) bytes,
      decode-encode_bytes (bytes_of (codes key)) bytes,
    )
