-- ===== src/Extern.antt =====
-- What the program calls and does not implement, as a parameter of the model: the UUIDs of
-- github.com/google/uuid, the URLs of net/url with path.Join, encoding/json on each type that the
-- program stores, the struct-tag validator, `strings.ToLower`, and the generated RPC types.
use run_dsp.Prelude.{String, ◌≡◌, ◌↔◌, Bool, true, Option, some, List}

pub record Extern : Type 1 where
  -- uuid.UUID, with `==`, its zero value, `URN`, `String` and `uuid.Parse`.
  pub Uuid : Type 0
  pub eq_uuid : Uuid → Uuid → Bool
  pub nil_uuid : Uuid
  pub urn : Uuid → String
  pub uuid_string : Uuid → String
  pub parse_uuid : String → Option Uuid
  -- strings.ToLower
  pub to_lower : String → String
  -- *url.URL, with `url.Parse` and `String`; `join_path u p` sets `u.Path = path.Join(u.Path, p...)`.
  pub Url : Type 0
  pub parse_url : String → Option Url
  pub url_string : Url → String
  pub join_path : Url → List String → Url
  -- time.Time, and the values of a field of Go type `any` or `map[string]any`, which are those that
  -- encoding/json decodes to.
  pub Time : Type 0
  pub Any : Type 0
  -- dsrpc.RequesterInfo, with `ExternalId`, `Identifier`, tests for three values of its
  -- `AuthenticationStatus`, and the value of local origin with an `ExternalId`.
  pub RequesterInfo : Type 0
  pub external_id : RequesterInfo → String
  pub identifier : RequesterInfo → String
  pub is_unauthenticated : RequesterInfo → Bool
  pub is_local_origin : RequesterInfo → Bool
  pub is_continuation : RequesterInfo → Bool
  pub local_origin : String → RequesterInfo

-- What the program relies on.
pub record IsLawful (x : Extern) : Type 0 where
  pub eq_uuid_iff : (u v : x.Uuid) → (x.eq_uuid u v ≡ true) ↔ (u ≡ v)
  -- A UUID's URN and its plain form parse back to it.
  pub parse-urn : (u : x.Uuid) → x.parse_uuid (x.urn u) ≡ some u
  pub parse-string : (u : x.Uuid) → x.parse_uuid (x.uuid_string u) ≡ some u
  -- URNs are written in lower case.
  pub lower-urn : (u : x.Uuid) → x.to_lower (x.urn u) ≡ x.urn u
  -- A URL's text parses back to it.
  pub parse-url_string : (v : x.Url) → x.parse_url (x.url_string v) ≡ some v
  pub is_local_origin-local_origin : (e : String) → x.is_local_origin (x.local_origin e) ≡ true
