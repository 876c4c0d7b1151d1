-- ===== src/Api.antt =====
-- frontend/src/api.ts: the requests to the server, and what their answers become.
pub mod Encoding
pub mod Replies
mod Tests
use tether_ddns.Prelude.{
  ℕ, ◌+◌, ◌≡◌, String, Str, codes, Bool, true, false, ◌&&◌, ◌||◌, Option, none, some, List, [], ◌∷◌,
  ◌++◌, map, leb, ltb, nat_beq, str_beq, if◌then◌else◌,
}
use tether_ddns.Prelude.Strings.{join_dots, decimal, set_property}
use tether_ddns.FormErrors.{Errors}
use Encoding.{encode_uri_component}

-- An element of the `loc` of a validation error: a name, or an index into a list.
pub data LocPart : Type 0 where
  name : String → LocPart
  index : ℕ → LocPart

-- An entry of the `detail` of a validation error; `msg` is `none` where it is not a text.
pub record ErrorEntry : Type 0 where
  pub loc : Option (List LocPart)
  pub msg : Option String

-- What the body of an error holds as its `detail`.
pub data Detail : Type 0 where
  entries : List ErrorEntry → Detail
  message : String → Detail
  other : Detail

-- A response. `error_body` is the body as an error's, and `body` as a result: `none` where
-- `res.json()` rejects.
pub record Response (A : Type 0) : Type 0 where
  pub status : ℕ
  pub error_body : Option Detail
  pub body : Option A

-- `res.ok`
abbrev pub is_ok : ℕ → Bool
is_ok status = leb 200 status && ltb status 300

pub record ApiError : Type 0 where
  pub message : Str
  pub status : ℕ
  pub field_errors : Errors
  pub detail : Option String

pub data Result (A : Type 0) : Type 0 where
  ok : A → Result A
  api_error : ApiError → Result A
  other_error : Result A

abbrev pub show_part : LocPart → Str
show_part (name s) = codes s
show_part (index n) = decimal n

abbrev part_is_body : LocPart → Bool
part_is_body (name s) = str_beq (codes s) (codes "body")
part_is_body (index _) = false

-- `loc[0] === 'body' ? loc.slice(1) : loc`, with `[]` for no `loc`
abbrev pub path_of : Option (List LocPart) → List LocPart
path_of none = []
path_of (some []) = []
path_of (some (p ∷ ps)) = if part_is_body p then ps else p ∷ ps

-- `if (path.length > 0 && typeof entry.msg === 'string') out[path.join('.')] = entry.msg`
unfoldable pub add_entry : List LocPart → Option String → Errors → Errors
add_entry (p ∷ ps) (some m) out = set_property (join_dots (map show_part (p ∷ ps))) m out
add_entry _ _ out = out

-- One round of the loop of `fieldErrorsOf`.
unfoldable pub field_error : ErrorEntry → Errors → Errors
field_error entry out = add_entry (path_of entry.loc) entry.msg out

unfoldable pub field_errors_from : List ErrorEntry → Errors → Errors
field_errors_from [] out = out
field_errors_from (e ∷ es) out = field_errors_from es (field_error e out)

unfoldable pub field_errors_of : Option Detail → Errors
field_errors_of (some (entries es)) = field_errors_from es []
field_errors_of _ = []

unfoldable pub detail_of : Option Detail → Option String
detail_of (some (message s)) = some s
detail_of _ = none

-- What `fetch` answers: it rejects, or there is a response.
pub data Fetched (A : Type 0) : Type 0 where
  rejects : Fetched A
  responds : Response A → Fetched A

module _ {A : Type 0} where
  abbrev parsed_body : Option A → Result A
  parsed_body none = other_error
  parsed_body (some a) = ok a

  unfoldable pub json : Str → Fetched A → Result A
  json url rejects = other_error
  json url (responds res) =
      if is_ok res.status
      then parsed_body res.body
      else api_error (record {
        message = url ++ codes " -> " ++ decimal res.status;
        status = res.status;
        field_errors = if nat_beq res.status 422 then field_errors_of res.error_body else [];
        detail = if nat_beq res.status 422 then none else detail_of res.error_body;
      })

pub data Method : Type 0 where
  get post put delete : Method

-- A request; `B` is what may be sent as a body.
pub record Request (B : Type 0) : Type 0 where
  pub method : Method
  pub url : Str
  pub body : Option B

-- `json(url)`, `json(url, { method })`, `jbody(data)`, and that with another method.
abbrev plain : {B : Type 0} → Method → Str → Request B
plain m url = record { method = m; url = url; body = none }

abbrev jbody : {B : Type 0} → Method → Str → B → Request B
jbody m url b = record { method = m; url = url; body = some b }

abbrev at : String → String → Str
at path id = codes path ++ codes id

module _ {B : Type 0} where
  unfoldable pub get_state : Request B
  get_state = plain get (codes "/api/state")

  unfoldable pub get_domains : Request B
  get_domains = plain get (codes "/api/domains")

  unfoldable pub get_hooks_config : Request B
  get_hooks_config = plain get (codes "/api/hooks-config")

  unfoldable pub get_providers : Request B
  get_providers = plain get (codes "/api/providers")

  unfoldable pub get_hooks : Request B
  get_hooks = plain get (codes "/api/hooks")

  unfoldable pub get_ip_sources : Request B
  get_ip_sources = plain get (codes "/api/ip-sources")

  unfoldable pub get_settings : Request B
  get_settings = plain get (codes "/api/settings")

  unfoldable pub refresh : Request B
  refresh = plain post (codes "/api/refresh")

  unfoldable pub get_about : Request B
  get_about = plain get (codes "/api/about")

  unfoldable pub get_incidents : Request B
  get_incidents = plain get (codes "/api/reachability/incidents")

  unfoldable pub ping_heartbeat : Request B
  ping_heartbeat = plain post (codes "/api/heartbeat/ping")

  unfoldable pub get_healthchecks : Request B
  get_healthchecks = plain get (codes "/api/healthchecks")

  unfoldable pub put_settings : B → Request B
  put_settings input = jbody put (codes "/api/settings") input

  unfoldable pub create_domain : B → Request B
  create_domain input = jbody post (codes "/api/domains") input

  unfoldable pub create_hook : B → Request B
  create_hook input = jbody post (codes "/api/hooks-config") input

  unfoldable pub create_healthchecks : B → Request B
  create_healthchecks input = jbody post (codes "/api/healthchecks") input

  unfoldable pub delete_domain : String → Request B
  delete_domain id = plain delete (at "/api/domains/" id)

  unfoldable pub sync_domain : String → Request B
  sync_domain id = plain post (at "/api/domains/" id ++ codes "/sync")

  unfoldable pub delete_hook : String → Request B
  delete_hook id = plain delete (at "/api/hooks-config/" id)

  unfoldable pub run_hook : String → Request B
  run_hook id = plain post (at "/api/hooks-config/" id ++ codes "/run")

  unfoldable pub delete_healthchecks : String → Request B
  delete_healthchecks id = plain delete (at "/api/healthchecks/" id)

  unfoldable pub fetch_healthchecks : String → Request B
  fetch_healthchecks id = plain post (at "/api/healthchecks/" id ++ codes "/fetch")

  unfoldable pub update_domain : String → B → Request B
  update_domain id input = jbody put (at "/api/domains/" id) input

  unfoldable pub update_hook : String → B → Request B
  update_hook id input = jbody put (at "/api/hooks-config/" id) input

  unfoldable pub update_healthchecks : String → B → Request B
  update_healthchecks id input = jbody put (at "/api/healthchecks/" id) input

  unfoldable pub set_check_visible : String → String → B → Request B
  set_check_visible id key visible =
      jbody put (at "/api/healthchecks/" id ++ codes "/checks/" ++ encode_uri_component key) visible
