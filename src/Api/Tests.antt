-- ===== src/Api/Tests.antt =====
-- The theorems about frontend/src/api.ts at small values.
use tether_ddns.Prelude.{
  ℕ, ◌≡◌, refl, String, codes, str_eq_code, true, none, some, [], ◌∷◌, ◌++◌, arith, All,
}
use tether_ddns.Prelude.Dict.{lookup}
use tether_ddns.Prelude.Strings.{is_inherited}
use tether_ddns.FormErrors.{sub_errors}
use tether_ddns.Api.{index, entries, Response, field_errors_of, set_check_visible}
use tether_ddns.Api.Encoding.{decode, encode_uri_component, bytes_of, IsPlain}
use tether_ddns.Api.Replies.{body_entry, validation_error_reaches_field, check_key_round_trip}

abbrev invalid : Response ℕ
invalid = record {
  status = 422;
  body = none;
  error_body = some (entries (body_entry "provider_config" "token" [] "too short" ∷ []));
}

validation_error_reaches_field_example :
    (shown : String) × (lookup (codes "token") (
        sub_errors
          (field_errors_of
            (some (entries ([] ++ body_entry "provider_config" "token" (index 0 ∷ []) "bad" ∷ []))))
          (codes "provider_config"))
      ≡ some shown)
unfolding is_inherited
validation_error_reaches_field_example =
    validation_error_reaches_field "provider_config" "token" "bad" (index 0 ∷ []) [] []
      (omega arith) (λ e. cc) refl

check_key_round_trip_example :
    let segment = encode_uri_component "a/b" in
    ((set_check_visible "p1" "a/b" true).url
      ≡ codes "/api/healthchecks/" ++ codes "p1" ++ codes "/checks/" ++ segment)
    × All IsPlain segment
    × (decode segment ≡ bytes_of (codes "a/b"))
check_key_round_trip_example = check_key_round_trip "p1" "a/b" true (omega arith)
